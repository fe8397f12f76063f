-- ===== src/Mesh/Compact/Covers.antt =====
-- The lines of the hits in the ranges of `compact_search_results`.
use grepmesh.Prelude.{
  ℕ, ◌≡◌, refl, sym, ap, ◌∙◌, Bool, true, false, ◌&&◌, ◌||◌, Option, String, List, [], ◌∷◌, ◌++◌,
  any, not, is_empty, if◌then◌else◌, ◌==◌, ==_iff, Ordering, string_ord, nat_ord, option_ord, arith,
  Bool-cases, List-cases, inl, inr,
}
use mathlib.Core.List.{reverse, reverse-cons}
use grepmesh.Prelude.Map
use grepmesh.Prelude.Map.{BTreeMap, contains_key-insert}
use grepmesh.Backend.Hits.{MatchLine, SearchHit}
use grepmesh.Jobs.State.{hit_key, hit_key_ord}
use grepmesh.Mesh.Compact.{
  CompactSearchRange, insert_by, sort_by, or_insert, insert_lines, shown_lines, joins, new_range,
  extend, add_hit, add_hits, ranges_of,
}

abbrev has_line : ℕ → List MatchLine → Bool
has_line n = any (λ (l : MatchLine). n == l.line_number)

or_insert_covers :
    (n : ℕ) (m : BTreeMap ℕ String) (l : MatchLine)
    → Map.contains_key n (or_insert m l) ≡ (Map.contains_key n m || (n == l.line_number))
unfolding or_insert
or_insert_covers n m l = elim (Bool-cases (Map.contains_key l.line_number m)) [
  | inl e ↦ elim (Bool-cases (n == l.line_number)) [
    | inl same ↦
        let eq : n ≡ l.line_number = (==_iff n l.line_number).0 same in
        let here : Map.contains_key n m ≡ true = ap (λ k. Map.contains_key k m) eq ∙ e in
        rw (e, or_insert) (ground arith)
    | inr other ↦ rw (e, or_insert) (ground arith)
  ]
  | inr e ↦ rw (e, or_insert) (ground (arith, contains_key-insert l.line_number n l.text m))
]

insert_lines_covers :
    (n : ℕ) (m : BTreeMap ℕ String) (ls : List MatchLine)
    → Map.contains_key n (insert_lines m ls) ≡ (Map.contains_key n m || has_line n ls)
unfolding insert_lines
insert_lines_covers n m [] = ground arith
insert_lines_covers n m (l ∷ ls) =
    ground (arith, insert_lines_covers n (or_insert m l) ls, or_insert_covers n m l)

any-insert_by :
    {A : Type 0} (p : A → Bool) (cmp : A → A → Ordering) (x : A) (ys : List A)
    → any p (insert_by cmp x ys) ≡ (p x || any p ys)
unfolding insert_by
any-insert_by p cmp x [] = refl
any-insert_by p cmp x (y ∷ ys) = ground (arith, any-insert_by p cmp x ys)

pub any-sort_by :
    {A : Type 0} (p : A → Bool) (cmp : A → A → Ordering) (xs : List A)
    → any p (sort_by cmp xs) ≡ any p xs
unfolding sort_by
any-sort_by p cmp [] = refl
any-sort_by p cmp (x ∷ xs) =
    any-insert_by p cmp x (sort_by cmp xs) ∙ ap (λ b. p x || b) (any-sort_by p cmp xs)

any-append :
    {A : Type 0} (p : A → Bool) (xs ys : List A) → any p (xs ++ ys) ≡ (any p xs || any p ys)
any-append p [] ys = refl
any-append p (x ∷ xs) ys = ground (arith, any-append p xs ys)

pub any-reverse : {A : Type 0} (p : A → Bool) (xs : List A) → any p (reverse xs) ≡ any p xs
any-reverse p [] = refl
any-reverse p (x ∷ xs) =
    ap (any p) (reverse-cons x xs)
    ∙ ground (arith, any-append p (reverse xs) (x ∷ []), any-reverse p xs)

-- A hit shows its context, or its own line where it has no context and is in a line.
abbrev pub shows_line : {F : Type 0} → (MatchLine → Bool) → SearchHit F → Bool
shows_line p hit =
    any p hit.context
    || (is_empty hit.context
        && not (hit.line_number == 0)
        && p (record { line_number = hit.line_number; text = hit.text }))

own_line :
    (p : MatchLine → Bool) (l : MatchLine) (b : Bool)
    → any p (if b then [] else l ∷ []) ≡ (not b && p l)
own_line p l true = refl
own_line p l false = ground arith

any-context :
    (p : MatchLine → Bool) (l : MatchLine) (b : Bool) (context : List MatchLine)
    → any p (elim context [ [] ↦ if b then [] else l ∷ [] | k ∷ ks ↦ k ∷ ks ])
      ≡ (any p context || (is_empty context && not b && p l))
any-context p l b [] = own_line p l b
any-context p l b (k ∷ ks) = ground arith

pub any-shown_lines :
    {F : Type 0} (p : MatchLine → Bool) (hit : SearchHit F)
    → any p (shown_lines hit) ≡ shows_line p hit
unfolding shown_lines
any-shown_lines p hit =
    any-sort_by p (λ (a b : MatchLine). nat_ord.cmp a.line_number b.line_number) _
    ∙ any-context p (record { line_number = hit.line_number; text = hit.text })
        (hit.line_number == 0) hit.context

module _ {F : Type 0} (larger : F → F → F) (h : String) (s : Option String) (p : String)
    (n : ℕ) where
  -- The hit stands in that file of that host and source, and shows line `n`.
  abbrev pub shows : SearchHit F → Bool
  shows hit =
      (hit.host_id == h)
      && (hit.source_host == s)
      && (hit.path == p)
      && shows_line (λ l. n == l.line_number) hit

  -- The range stands there and holds line `n`.
  abbrev pub holds : CompactSearchRange F → Bool
  holds r = (r.host_id == h) && (r.source_host == s) && (r.path == p) && Map.contains_key n r.lines

  holds_new :
      (hit : SearchHit F) (first : MatchLine) (rest : List MatchLine)
      → shown_lines hit ≡ first ∷ rest
      → shows hit ≡ true
      → holds (new_range hit first rest) ≡ true
  unfolding new_range
  holds_new hit first rest e w =
      let lines = any-shown_lines (λ l. n == l.line_number) hit in
      let here : has_line n (first ∷ rest) ≡ true =
        ap (has_line n) (sym e) ∙ ground (arith, lines) in
      ground (arith, insert_lines_covers n [] (first ∷ rest))

  holds_extend :
      (r : CompactSearchRange F) (hit : SearchHit F) (first : MatchLine) (rest : List MatchLine)
      → shown_lines hit ≡ first ∷ rest
      → joins r hit first.line_number ≡ true
      → (shows hit || holds r) ≡ true
      → holds (extend larger r hit first rest) ≡ true
  unfolding extend joins
  holds_extend r hit first rest e j w = ground (
    arith,
    insert_lines_covers n r.lines (first ∷ rest),
    sym (any-shown_lines (λ l. n == l.line_number) hit) ∙ ap (has_line n) e,
    ==_iff r.host_id hit.host_id,
    ==_iff r.source_host hit.source_host,
    ==_iff r.path hit.path,
  )

  add_hit_holds :
      (ranges : List (CompactSearchRange F)) (hit : SearchHit F)
      → (shows hit || any holds ranges) ≡ true
      → any holds (add_hit larger ranges hit) ≡ true
  unfolding add_hit
  add_hit_holds [] hit w = elim (List-cases (shown_lines hit)) [
    | inl none_shown ↦
        let no_line : shows_line (λ l. n == l.line_number) hit ≡ false =
          sym (any-shown_lines (λ l. n == l.line_number) hit) ∙ ap (has_line n) none_shown in
        absurd (ground arith)
    | inr (first, rest, e) ↦
        let new = holds_new hit first rest e (ground arith) in rw (e, add_hit) (ground arith)
  ]
  add_hit_holds (r ∷ rs) hit w = elim (List-cases (shown_lines hit)) [
    | inl none_shown ↦
        let no_line : shows_line (λ l. n == l.line_number) hit ≡ false =
          sym (any-shown_lines (λ l. n == l.line_number) hit) ∙ ap (has_line n) none_shown in
        rw (none_shown, add_hit) (ground arith)
    | inr (first, rest, e) ↦ elim (Bool-cases (joins r hit first.line_number)) [
      | inl j ↦ let kept = holds_extend r hit first rest e j in rw (e, add_hit, j) (ground arith)
      | inr apart ↦ let new = holds_new hit first rest e in rw (e, add_hit, apart) (ground arith)
    ]
  ]

  add_hits_holds :
      (ranges : List (CompactSearchRange F)) (hits : List (SearchHit F))
      → (any shows hits || any holds ranges) ≡ true
      → any holds (add_hits larger ranges hits) ≡ true
  unfolding add_hits
  add_hits_holds ranges [] w = w
  add_hits_holds ranges (hit ∷ hits) w =
      let step = add_hit_holds ranges hit in
      add_hits_holds (add_hit larger ranges hit) hits (ground arith)

  -- No line is lost: a line that some hit of a host, source and path shows is in a range of that
  -- host, source and path, whatever the order of the hits and however their ranges overlap.
  pub ranges_of_holds :
      (hits : List (SearchHit F)) → any shows hits ≡ true → any holds (ranges_of larger hits) ≡ true
  unfolding ranges_of
  ranges_of_holds hits w =
      let sorted = sort_by (λ a b. hit_key_ord.cmp (hit_key a) (hit_key b)) hits in
      any-reverse holds (add_hits larger [] sorted)
      ∙ add_hits_holds [] sorted (
          let same = any-sort_by shows (λ a b. hit_key_ord.cmp (hit_key a) (hit_key b)) hits in
          ground arith)
