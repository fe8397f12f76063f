-- ===== src/Ranked/Scope/Around.antt =====
-- Where the scope of a line begins and ends.
use grepmesh.Prelude.{
  ℕ, zero, suc, ◌+◌, ◌-◌, ◌≤◌, ◌<◌, ◌≡◌, sym, ap, ◌∙◌, Bool, true, false, not, ◌&&◌, Option, none,
  some, String, List, [], ◌∷◌, length, take, drop, min, length-drop, length-take, ltb, unwrap_or,
  arith, Bool-cases, Option-cases, inl, inr,
}
use grepmesh.Prelude.Text.{codes}
use grepmesh.Ranked.Lines.{is_heading, is_definition_line, markdown_heading_level}
use grepmesh.Ranked.Scope.{
  max_structural_passage_lines, line_at, find_back, find_forward, scan_braces, scope_end,
  function_scope_end, function_start, is_closing, section_scope, structural_scope,
}

find_back_sound :
    (p : String → Bool) (lines : List String) (i j : ℕ)
    → find_back p lines i ≡ some j
    → (j ≤ i) × (p (line_at lines j) ≡ true)
unfolding find_back
find_back_sound p lines zero j h = elim (Bool-cases (p (line_at lines zero))) [
  | inl e ↦
      let same : zero ≡ j = ground arith in
      (omega arith, ap (λ k. p (line_at lines k)) (sym same) ∙ e)
  | inr e ↦ absurd (ground arith)
]
find_back_sound p lines (suc i) j h = elim (Bool-cases (p (line_at lines (suc i)))) [
  | inl e ↦
      let same : suc i ≡ j = ground arith in
      (omega arith, ap (λ k. p (line_at lines k)) (sym same) ∙ e)
  | inr e ↦ let (le, found) = find_back_sound p lines i j (ground arith) in (omega arith, found)
]

find_forward-bounds :
    (p : String → Bool) (i j : ℕ) (rest : List String)
    → find_forward p i rest ≡ some j
    → (i ≤ j) × (j < i + length rest)
unfolding find_forward
find_forward-bounds p i j [] h = absurd (cc)
find_forward-bounds p i j (line ∷ rest) h = elim (Bool-cases (p line)) [
  | inl e ↦ (ground arith, ground arith)
  | inr e ↦
      let (a, b) = find_forward-bounds p (i + 1) j rest (ground arith) in (omega arith, omega arith)
]

module _ (lower : ℕ → List ℕ) where
  scope_end-bounds :
      (start last index depth : ℕ) (opened : Bool) (rest : List String)
      → start ≤ index
      → start < last
      → index + length rest ≤ last
      → (start < scope_end lower start last index depth opened rest)
        × (scope_end lower start last index depth opened rest ≤ last)
  unfolding scope_end
  scope_end-bounds start last index depth opened [] a b c = (b, omega arith)
  scope_end-bounds start last index depth opened (line ∷ rest) a b c =
      elim (Option-cases (scan_braces (codes line) depth opened)) [
        | inl closed ↦ rw (closed, scope_end) (omega arith)
        | inr (next, e) ↦
            elim (Bool-cases (not next.1 && ltb start index && is_definition_line lower line)) [
              | inl stop ↦ rw (e, stop, scope_end) (ground arith)
              | inr go ↦
                  rw (e, go, scope_end)
                    (scope_end-bounds start last (index + 1) next.0 next.1 rest (omega arith) b
                      (omega arith))
            ]
      ]

  function_scope_end-bounds :
      (lines : List String) (start : ℕ)
      → start < length lines
      → (start < function_scope_end lower lines start)
        × (function_scope_end lower lines start ≤ length lines)
  unfolding function_scope_end
  function_scope_end-bounds lines start h =
      let some_lines = length-take max_structural_passage_lines (drop start lines) in
      let below = length-drop start lines in
      let (a, b) =
        scope_end-bounds start (min (start + max_structural_passage_lines) (length lines)) start 0
          false (take max_structural_passage_lines (drop start lines)) (omega arith) (omega arith)
          (omega arith) in
      (a, omega arith)

  -- The scope begins at the line or above it, it is not empty, and it ends within the file.
  pub record Around (lines : List String) (anchor : ℕ) (scope : ℕ × (ℕ × Option ℕ)) : Type 0 where
    pub above : scope.0 ≤ anchor
    pub some_line : scope.0 < scope.1.0
    pub within : scope.1.0 ≤ length lines
    pub heading :
        (h : ℕ) → scope.1.1 ≡ some h → (h ≡ scope.0) × (is_heading (line_at lines h) ≡ true)

  section_scope-Around :
      (lines : List String) (anchor h : ℕ)
      → anchor < length lines
      → h ≤ anchor
      → is_heading (line_at lines h) ≡ true
      → Around lines anchor (section_scope lines h)
  section_scope-Around lines anchor h inside above found =
      let level = unwrap_or 6 (markdown_heading_level (line_at lines h)) in
      let below = length-drop (h + 1) lines in
      let heading : (k : ℕ) → some h ≡ some k → (k ≡ h) × (is_heading (line_at lines k) ≡ true) =
        λ k e.
          let same = ap (unwrap_or h) (sym e) in
          (same, ap (λ n. is_heading (line_at lines n)) same ∙ found) in
      elim (Option-cases (find_forward (is_closing level) (h + 1) (drop (h + 1) lines))) [
        | inl open_end ↦ rw open_end (record {
          above = above;
          some_line = omega arith;
          within = omega arith;
          heading = heading;
        })
        | inr (j, e) ↦
            let (a, b) = find_forward-bounds (is_closing level) (h + 1) j (drop (h + 1) lines) e in
            rw e (record {
              above = above;
              some_line = omega arith;
              within = omega arith;
              heading = heading;
            })
      ]

  function_start-source :
      (heading definition : Option ℕ) (f : ℕ)
      → function_start heading definition ≡ some f
      → definition ≡ some f
  function_start-source none definition f h = h
  function_start-source (some k) none f h = h
  function_start-source (some k) (some d) f h = ground arith

  -- For a line of the file, the scope that `structural_scope` finds begins at the line or above it,
  -- has a line at least, ends within the file, and where it names a heading, it begins there.
  pub structural_scope-Around :
      (lines : List String) (anchor : ℕ)
      → anchor < length lines
      → Around lines anchor (structural_scope lower lines anchor)
  unfolding structural_scope
  structural_scope-Around lines anchor inside =
      let top = min anchor (length lines - 1) in
      let heading = find_back is_heading lines top in
      let definition = find_back (is_definition_line lower) lines top in
      elim (Option-cases (function_start heading definition)) [
        | inr (f, e) ↦
            let found =
              find_back_sound (is_definition_line lower) lines top f
                (function_start-source heading definition f e) in
            let (some_line, within) = function_scope_end-bounds lines f (omega arith) in
            rw (e, structural_scope)
              (record {
                above = omega arith;
                some_line = some_line;
                within = within;
                heading = λ h k. absurd (cc);
              })
        | inl none_above ↦ elim (Option-cases heading) [
          | inr (h, e) ↦
              let (le, found) = find_back_sound is_heading lines top h e in
              rw (none_above, e, structural_scope)
                (section_scope-Around lines anchor h inside (omega arith) found)
          | inl no_heading ↦
              rw (none_above, no_heading, structural_scope)
                (record {
                  above = omega arith;
                  some_line = omega arith;
                  within = omega arith;
                  heading = λ h k. absurd (cc);
                })
        ]
      ]
