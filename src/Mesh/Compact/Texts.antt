-- ===== src/Mesh/Compact/Texts.antt =====
-- The texts of the lines in the ranges of `compact_search_results`.
use grepmesh.Prelude.{
  ℕ, ◌≡◌, refl, sym, ap, ◌∙◌, subst, Bool, true, false, ◌&&◌, ◌||◌, Option, none, some, String,
  List, [], ◌∷◌, any, if◌then◌else◌, ◌==◌, ==_iff, ==_refl, string_ord, nat_ord, option_ord, arith,
  Bool-cases, List-cases, inl, inr,
}
use grepmesh.Prelude.Map
use grepmesh.Prelude.Map.{BTreeMap, get-insert}
use grepmesh.Backend.Hits.{MatchLine, SearchHit}
use grepmesh.Jobs.State.{hit_key, hit_key_ord}
use grepmesh.Mesh.Compact.{
  CompactSearchRange, sort_by, or_insert, insert_lines, shown_lines, joins, new_range, extend,
  add_hit, add_hits, ranges_of,
}
use grepmesh.Mesh.Compact.Covers.{
  any-sort_by, any-reverse, any-shown_lines, shows_line, shows, holds, ranges_of_holds,
}

abbrev pub text_is : String → Option String → Bool
text_is t none = false
text_is t (some u) = t == u

module _ (n : ℕ) (t : String) where
  abbrev pub is_line : MatchLine → Bool
  is_line l = (n == l.line_number) && (t == l.text)

  or_insert_text :
      (m : BTreeMap ℕ String) (l : MatchLine)
      → text_is t (Map.get n (or_insert m l)) ≡ true
      → (text_is t (Map.get n m) || is_line l) ≡ true
  unfolding or_insert
  or_insert_text m l h = elim (Bool-cases (Map.contains_key l.line_number m)) [
    | inl known ↦
        let same : text_is t (Map.get n m) ≡ true =
          subst
            (λ b. text_is t (Map.get n (if b then m else Map.insert l.line_number l.text m)) ≡ true)
            known h in
        ground (arith, same)
    | inr new ↦
        let found : text_is t (Map.get n (Map.insert l.line_number l.text m)) ≡ true =
          subst
            (λ b. text_is t (Map.get n (if b then m else Map.insert l.line_number l.text m)) ≡ true)
            new h in
        let inserted : text_is t (if n == l.line_number then some l.text else Map.get n m) ≡ true =
          ap (text_is t) (sym (get-insert l.line_number n l.text m)) ∙ found in
        elim (Bool-cases (n == l.line_number)) [
          | inl c ↦
              let own : (t == l.text) ≡ true =
                subst (λ b. text_is t (if b then some l.text else Map.get n m) ≡ true) c inserted in
              ground (arith, own)
          | inr c ↦
              let old : text_is t (Map.get n m) ≡ true =
                subst (λ b. text_is t (if b then some l.text else Map.get n m) ≡ true) c inserted in
              ground (arith, old)
        ]
  ]

  insert_lines_text :
      (m : BTreeMap ℕ String) (ls : List MatchLine)
      → text_is t (Map.get n (insert_lines m ls)) ≡ true
      → (text_is t (Map.get n m) || any is_line ls) ≡ true
  unfolding insert_lines
  insert_lines_text m [] h = ground (arith, h)
  insert_lines_text m (l ∷ ls) h =
      let later = insert_lines_text (or_insert m l) ls h in
      ground (arith, later, or_insert_text m l)

  new_lines_text :
      (ls : List MatchLine)
      → text_is t (Map.get n (insert_lines [] ls)) ≡ true
      → any is_line ls ≡ true
  unfolding Map.get
  new_lines_text ls h = insert_lines_text [] ls h

in_place :
    (x y z b c : Bool)
    → (x && y && z && b) ≡ true
    → (b ≡ true → c ≡ true)
    → (x && y && z && c) ≡ true
in_place x y z b c w f = ground arith

or_left : (a b c : Bool) → (a ≡ true → b ≡ true) → (a || c) ≡ true → (b || c) ≡ true
or_left a b c f w = ground arith

or_first :
    (a b c d : Bool) → (a ≡ true → (c || d) ≡ true) → (a || b) ≡ true → (c || (d || b)) ≡ true
or_first a b c d f w = ground arith

or_step : (a b c d : Bool) → (b || c) ≡ true → (c ≡ true → (a || d) ≡ true) → ((a || b) || d) ≡ true
or_step a b c d w f = ground arith

or_right : (a b : Bool) → b ≡ true → (a || b) ≡ true
or_right a b w = ground arith

module _ {F : Type 0} (larger : F → F → F) (h : String) (s : Option String) (p : String) (n : ℕ)
    (t : String) where
  -- The hit stands in that file of that host and source, and shows line `n` with the text `t`.
  abbrev pub shows_text : SearchHit F → Bool
  shows_text hit =
      (hit.host_id == h)
      && (hit.source_host == s)
      && (hit.path == p)
      && shows_line (is_line n t) hit

  -- The range stands there and holds line `n` with the text `t`.
  abbrev pub holds_text : CompactSearchRange F → Bool
  holds_text r =
      (r.host_id == h) && (r.source_host == s) && (r.path == p) && text_is t (Map.get n r.lines)

  new_range_text :
      (hit : SearchHit F) (first : MatchLine) (rest : List MatchLine)
      → shown_lines hit ≡ first ∷ rest
      → holds_text (new_range hit first rest) ≡ true
      → shows_text hit ≡ true
  unfolding new_range
  new_range_text hit first rest e w =
      let shown : shows_line (is_line n t) hit ≡ any (is_line n t) (first ∷ rest) =
        sym (any-shown_lines (is_line n t) hit) ∙ ap (any (is_line n t)) e in
      in_place (hit.host_id == h) (hit.source_host == s) (hit.path == p) _ _ w
        (λ found. shown ∙ new_lines_text n t (first ∷ rest) found)

  extend_text :
      (r : CompactSearchRange F) (hit : SearchHit F) (first : MatchLine) (rest : List MatchLine)
      → shown_lines hit ≡ first ∷ rest
      → joins r hit first.line_number ≡ true
      → holds_text (extend larger r hit first rest) ≡ true
      → (shows_text hit || holds_text r) ≡ true
  unfolding extend joins
  extend_text r hit first rest e j w =
      let shown : shows_line (is_line n t) hit ≡ any (is_line n t) (first ∷ rest) =
        sym (any-shown_lines (is_line n t) hit) ∙ ap (any (is_line n t)) e in
      ground (
        arith,
        shown,
        insert_lines_text n t r.lines (first ∷ rest),
        ==_iff r.host_id hit.host_id,
        ==_iff r.source_host hit.source_host,
        ==_iff r.path hit.path,
      )

  add_hit_text :
      (ranges : List (CompactSearchRange F)) (hit : SearchHit F)
      → any holds_text (add_hit larger ranges hit) ≡ true
      → (shows_text hit || any holds_text ranges) ≡ true
  unfolding add_hit
  add_hit_text [] hit = elim (List-cases (shown_lines hit)) [
    | inl none_shown ↦ rw (none_shown, add_hit) (λ w. absurd (cc))
    | inr (first, rest, e) ↦
        rw (e, add_hit) (or_left _ (shows_text hit) false (new_range_text hit first rest e))
  ]
  add_hit_text (r ∷ rs) hit = elim (List-cases (shown_lines hit)) [
    | inl none_shown ↦
        rw (none_shown, add_hit) (or_right (shows_text hit) (any holds_text (r ∷ rs)))
    | inr (first, rest, e) ↦ elim (Bool-cases (joins r hit first.line_number)) [
      | inl j ↦
          rw (e, add_hit, j)
            (or_first _ (any holds_text rs) (shows_text hit) (holds_text r)
              (extend_text r hit first rest e j))
      | inr apart ↦
          rw (e, add_hit, apart)
            (or_left _ (shows_text hit) (any holds_text (r ∷ rs)) (new_range_text hit first rest e))
    ]
  ]

  add_hits_text :
      (ranges : List (CompactSearchRange F)) (hits : List (SearchHit F))
      → any holds_text (add_hits larger ranges hits) ≡ true
      → (any shows_text hits || any holds_text ranges) ≡ true
  unfolding add_hits
  add_hits_text ranges [] w = w
  add_hits_text ranges (hit ∷ hits) w =
      let later = add_hits_text (add_hit larger ranges hit) hits w in
      or_step (shows_text hit) (any shows_text hits) (any holds_text (add_hit larger ranges hit))
        (any holds_text ranges) later (add_hit_text ranges hit)

  ranges_of_text :
      (hits : List (SearchHit F))
      → any holds_text (ranges_of larger hits) ≡ true
      → any shows_text hits ≡ true
  unfolding ranges_of
  ranges_of_text hits w =
      let sorted = sort_by (λ a b. hit_key_ord.cmp (hit_key a) (hit_key b)) hits in
      let found =
        add_hits_text [] sorted (sym (any-reverse holds_text (add_hits larger [] sorted)) ∙ w) in
      let same = any-sort_by shows_text (λ a b. hit_key_ord.cmp (hit_key a) (hit_key b)) hits in
      ground (arith, found, same)

has_some_text :
    (n : ℕ) (m : BTreeMap ℕ String)
    → Map.contains_key n m ≡ true
    → (t : String) × (text_is t (Map.get n m) ≡ true)
unfolding Map.contains_key Map.get
has_some_text n [] c = absurd (cc)
has_some_text n ((k, text) ∷ m) c = elim (Bool-cases (n == k)) [
  | inl same ↦
      let found : Map.get n ((k, text) ∷ m) ≡ some text = rw same refl in
      (text, ap (text_is text) found ∙ ==_refl text)
  | inr other ↦
      let (t, e) = has_some_text n m (subst (λ b. (b || Map.contains_key n m) ≡ true) other c) in
      let found : Map.get n ((k, text) ∷ m) ≡ Map.get n m = rw other refl in
      (t, ap (text_is t) found ∙ e)
]

module _ {F : Type 0} (larger : F → F → F) (h : String) (s : Option String) (p : String)
    (n : ℕ) where
  holds_some_text :
      (ranges : List (CompactSearchRange F))
      → any (holds larger h s p n) ranges ≡ true
      → (t : String) × (any (holds_text larger h s p n t) ranges ≡ true)
  holds_some_text [] w = absurd (cc)
  holds_some_text (r ∷ ranges) w = elim (Bool-cases (holds larger h s p n r)) [
    | inl here ↦
        let (t, e) = has_some_text n r.lines (ground (arith, here)) in (t, ground (arith, here, e))
    | inr there ↦ let (t, e) = holds_some_text ranges (ground arith) in (t, ground (arith, e))
  ]

  -- No line is lost or altered: a line that some hit of a host, source and path shows (one of its
  -- context, or its own where it has none) is in a range of that host, source and path, with a text
  -- that some hit there shows for that line, whatever the order of the hits and however their ranges
  -- overlap.
  pub ranges_of_shown :
      (hits : List (SearchHit F))
      → any (shows larger h s p n) hits ≡ true
      → (t : String) × (any (holds_text larger h s p n t) (ranges_of larger hits) ≡ true)
        × (any (shows_text larger h s p n t) hits ≡ true)
  ranges_of_shown hits w =
      let (t, e) =
        holds_some_text (ranges_of larger hits) (ranges_of_holds larger h s p n hits w) in
      (t, e, ranges_of_text larger h s p n t hits e)
