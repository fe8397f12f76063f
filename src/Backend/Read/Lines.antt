-- ===== src/Backend/Read/Lines.antt =====
-- The lines that `read_text` of src/backend.rs returns, against the lines of the file.
use grepmesh.Prelude.{
  ℕ, zero, suc, ◌+◌, ◌-◌, ◌<◌, ◌≡◌, refl, sym, Bool, true, false, ◌&&◌, not, Option, none, some,
  String, List, [], ◌∷◌, length, take, ltb, leb, if◌then◌else◌, ◌==◌, nat_ord, arith, Bool-cases,
  inl, inr, ap, ◌∙◌, subst, map, retain,
}
use grepmesh.Backend.Hits.{MatchLine}
use grepmesh.Backend.Read.{Result, ok, err, read_line, is_past, match_line, push_line, read_loop}

-- The lines of a file with their line feeds, and all of them together.
abbrev prepend : ℕ → List (List ℕ) → List (List ℕ)
prepend c [] = (c ∷ []) ∷ []
prepend c (line ∷ lines) = (c ∷ line) ∷ lines

unfoldable pub lines_of : List ℕ → List (List ℕ)
lines_of [] = []
lines_of (c ∷ cs) = if c == b'\n' then (c ∷ []) ∷ lines_of cs else prepend c (lines_of cs)

-- `read_line` takes the first of the lines.
pub read_line-lines_of :
    (c : ℕ) (cs : List ℕ)
    → lines_of (c ∷ cs) ≡ (read_line (c ∷ cs)).0 ∷ lines_of (read_line (c ∷ cs)).1
unfolding read_line lines_of
read_line-lines_of c [] = elim (Bool-cases (c == b'\n')) [ inl e ↦ rw e refl | inr e ↦ rw e refl ]
read_line-lines_of c (d ∷ cs) = elim (Bool-cases (c == b'\n')) [
  | inl e ↦ rw e refl
  | inr e ↦ let rest = read_line-lines_of d cs in rw e (ap (prepend c) rest)
]

pub read_line-shorter : (c : ℕ) (cs : List ℕ) → length (read_line (c ∷ cs)).1 < length (c ∷ cs)
unfolding read_line
read_line-shorter c [] = ground arith
read_line-shorter c (d ∷ cs) = ground (arith, read_line-shorter d cs)

abbrev split : Bool → List ℕ × List ℕ → List ℕ × List ℕ → List ℕ × List ℕ
split b x y = if b then x else y

-- A line that fits is read from the front of a file as from the whole of it.
read_line-take :
    (k : ℕ) (bytes : List ℕ)
    → length (read_line (take k bytes)).0 < k
    → ((read_line (take k bytes)).0 ≡ (read_line bytes).0)
      × ((read_line (take k bytes)).1
          ≡ take (k - length (read_line (take k bytes)).0) (read_line bytes).1)
unfolding read_line
read_line-take zero bytes lt = absurd (omega arith)
read_line-take (suc k) [] lt = (refl, ground arith)
read_line-take (suc k) (c ∷ cs) lt = elim (Bool-cases (c == b'\n')) [
  | inl e ↦ let same : k ≡ suc k - 1 = omega arith in rw e (refl, ap (λ n. take n cs) same)
  | inr e ↦
      let fits : length (c ∷ (read_line (take k cs)).0) < suc k =
        subst
          (λ b.
            length
              (split b (c ∷ [], take k cs)
                (c ∷ (read_line (take k cs)).0, (read_line (take k cs)).1)).0
            < suc k)
          e lt in
      let rest = read_line-take k cs (omega (arith, fits)) in
      let same : k - length (read_line (take k cs)).0
          ≡ suc k - length (c ∷ (read_line (take k cs)).0) =
        omega arith in
      rw e (ap (λ line. c ∷ line) rest.0, rest.1 ∙ ap (λ n. take n (read_line cs).1) same)
]

-- Lines with their numbers, after the first `n` of them.
unfoldable pub numbered : ℕ → List (List ℕ) → List (ℕ × List ℕ)
numbered n [] = []
numbered n (line ∷ lines) = (n + 1, line) ∷ numbered (n + 1) lines

abbrev pub in_range : ℕ → Option ℕ → ℕ → Bool
in_range start none k = leb start k
in_range start (some end) k = leb start k && leb k end

abbrev pub Holds {ℓ} : {A : Type ℓ} → (A → Type 0) → Result A → Type 0
Holds P (ok a) = P a
Holds P (err e) = Unit

-- Nothing is in the range when its end is past.
numbered-past :
    (start : ℕ) (requested_end : Option ℕ) (n : ℕ) (lines : List (List ℕ))
    → is_past requested_end n ≡ true
    → retain (λ (e : ℕ × List ℕ). in_range start requested_end e.0) (numbered n lines) ≡ []
unfolding numbered
numbered-past start none n lines h = absurd (cc)
numbered-past start (some end) n [] h = refl
numbered-past start (some end) n (line ∷ lines) h =
    let out : in_range start (some end) (n + 1) ≡ false = ground arith in
    let rest = numbered-past start (some end) (n + 1) lines (ground arith) in rw out rest

-- Before the end of the range is past, the next line is in it from the start on.
in_range-next :
    (start : ℕ) (requested_end : Option ℕ) (n : ℕ)
    → is_past requested_end n ≡ false
    → in_range start requested_end (n + 1) ≡ leb start (n + 1)
in_range-next start none n h = refl
in_range-next start (some end) n h = ground arith

module _ (is_utf8 : List ℕ → Bool) (text_of : List ℕ → String) (start : ℕ)
    (requested_end : Option ℕ) where
  abbrev show_range : ℕ → List (List ℕ) → List MatchLine
  show_range n lines =
      map (λ (e : ℕ × List ℕ). match_line is_utf8 text_of e.0 e.1)
        (retain (λ (e : ℕ × List ℕ). in_range start requested_end e.0) (numbered n lines))

  -- The lines of the range, of a file after its first `n` lines.
  unfoldable pub slice : ℕ → List ℕ → List MatchLine
  unfolding numbered lines_of
  slice n bytes = show_range n (lines_of bytes)

  slice-next :
      (n c : ℕ) (cs : List ℕ)
      → is_past requested_end n ≡ false
      → slice n (c ∷ cs) ≡ (
          if leb start (n + 1)
          then match_line is_utf8 text_of (n + 1) (read_line (c ∷ cs)).0
            ∷ slice (n + 1) (read_line (c ∷ cs)).1
          else slice (n + 1) (read_line (c ∷ cs)).1)
  unfolding slice numbered
  slice-next n c cs past =
      ap (show_range n) (read_line-lines_of c cs) ∙ elim (Bool-cases (leb start (n + 1))) [
        | inl e ↦
            let at : in_range start requested_end (n + 1) ≡ true =
              in_range-next start requested_end n past ∙ e in
            rw (at, e) refl
        | inr e ↦
            let at : in_range start requested_end (n + 1) ≡ false =
              in_range-next start requested_end n past ∙ e in
            rw (at, e) refl
      ]

  push_line-slice :
      (n c : ℕ) (cs : List ℕ) (rest : Result (List MatchLine × ℕ))
      → is_past requested_end n ≡ false
      → Holds (λ (r : List MatchLine × ℕ). r.0 ≡ slice (n + 1) (read_line (c ∷ cs)).1) rest
      → Holds
          (λ (r : List MatchLine × ℕ). r.0 ≡ slice n (c ∷ cs))
          (push_line is_utf8 text_of start (n + 1) (read_line (c ∷ cs)).0 rest)
  push_line-slice n c cs (err e) past h = tt
  push_line-slice n c cs (ok (lines, last)) past h = elim (Bool-cases (leb start (n + 1))) [
    | inl e ↦ rw e (
        ap (λ more. match_line is_utf8 text_of (n + 1) (read_line (c ∷ cs)).0 ∷ more) h
        ∙ sym (slice-next n c cs past ∙ rw e refl))
    | inr e ↦ rw e (h ∙ sym (slice-next n c cs past ∙ rw e refl))
  ]

  -- The step of the loop, for a line that fits, with the loop's own induction as an argument.
  step-slice :
      (max_read_bytes fuel c : ℕ) (cs : List ℕ) (n bytes_read room : ℕ)
      → is_past requested_end n ≡ false
      → length (read_line (take (suc room) (c ∷ cs))).0 < suc room
      → Holds
          (λ (r : List MatchLine × ℕ). r.0 ≡ slice (n + 1) (read_line (c ∷ cs)).1)
          (read_loop is_utf8 text_of fuel start requested_end max_read_bytes
            (take
              (suc (room - length (read_line (take (suc room) (c ∷ cs))).0))
              (read_line (c ∷ cs)).1)
            (n + 1)
            (bytes_read + length (read_line (take (suc room) (c ∷ cs))).0))
      → Holds
          (λ (r : List MatchLine × ℕ). r.0 ≡ slice n (c ∷ cs))
          (push_line is_utf8 text_of start (n + 1) (read_line (take (suc room) (c ∷ cs))).0 (
            read_loop is_utf8 text_of fuel start requested_end max_read_bytes
              (read_line (take (suc room) (c ∷ cs))).1
              (n + 1)
              (bytes_read + length (read_line (take (suc room) (c ∷ cs))).0)))
  step-slice max_read_bytes fuel c cs n bytes_read room past short next =
      let line = (read_line (take (suc room) (c ∷ cs))).0 in
      let both = read_line-take (suc room) (c ∷ cs) short in
      let left : suc room - length line ≡ suc (room - length line) = omega arith in
      let loop : List ℕ → Result (List MatchLine × ℕ) = λ bytes.
        read_loop is_utf8 text_of fuel start requested_end max_read_bytes bytes (n + 1)
          (bytes_read + length line) in
      let same = both.1 ∙ ap (λ k. take k (read_line (c ∷ cs)).1) left in
      let rest =
        subst
          (λ bytes.
            Holds (λ (r : List MatchLine × ℕ). r.0 ≡ slice (n + 1) (read_line (c ∷ cs)).1)
              (loop bytes))
          (sym same) next in
      subst
        (λ l.
          Holds (λ (r : List MatchLine × ℕ). r.0 ≡ slice n (c ∷ cs))
            (push_line is_utf8 text_of start (n + 1) l
              (loop (read_line (take (suc room) (c ∷ cs))).1)))
        (sym both.0)
        (push_line-slice n c cs (loop (read_line (take (suc room) (c ∷ cs))).1) past rest)

  pub read_loop-slice :
      (max_read_bytes fuel : ℕ) (bytes : List ℕ) (n bytes_read room : ℕ)
      → bytes_read + room ≡ max_read_bytes
      → Holds
          (λ (r : List MatchLine × ℕ). r.0 ≡ slice n bytes)
          (read_loop is_utf8 text_of fuel start requested_end max_read_bytes
            (take (suc room) bytes)
            n
            bytes_read)
  unfolding read_loop slice numbered lines_of
  read_loop-slice max_read_bytes zero bytes n bytes_read room sum = tt
  read_loop-slice max_read_bytes (suc fuel) [] n bytes_read room sum =
      elim (Bool-cases (is_past requested_end n)) [
        | inl past ↦ rw past refl
        | inr past ↦ rw past refl
      ]
  read_loop-slice max_read_bytes (suc fuel) (c ∷ cs) n bytes_read room sum =
      let line = (read_line (take (suc room) (c ∷ cs))).0 in
      let some_bytes : (length (take (suc room) (c ∷ cs)) == 0) ≡ false = ground arith in
      elim (Bool-cases (is_past requested_end n)) [
        | inl past ↦
            let nothing = numbered-past start requested_end n (lines_of (c ∷ cs)) past in
            rw past
              (sym (ap (map (λ (e : ℕ × List ℕ). match_line is_utf8 text_of e.0 e.1)) nothing))
        | inr past ↦ elim (Bool-cases (not (is_utf8 line))) [
          | inl bad ↦ rw (past, some_bytes, bad) tt
          | inr good ↦ elim (Bool-cases (ltb max_read_bytes (bytes_read + length line))) [
            | inl large ↦ rw (past, some_bytes, good, large) tt
            | inr fits ↦
                rw (past, some_bytes, good, fits)
                  (let short : length line < suc room = ground (arith, fits, sum) in
                    step-slice max_read_bytes fuel c cs n bytes_read room past short (
                      read_loop-slice max_read_bytes fuel (read_line (c ∷ cs)).1 (n + 1)
                        (bytes_read + length line) (room - length line) (omega arith)))
          ]
        ]
      ]
