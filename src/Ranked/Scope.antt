-- ===== src/Ranked/Scope.antt =====
-- `structural_scope` and `function_scope_end` of src/ranked.rs: the lines of the function or of the
-- Markdown section around a line. The source indexes `lines` and would panic out of range; here
-- `line_at` is then the empty line.
pub mod Around
use grepmesh.Prelude.{
  ℕ, zero, suc, ◌+◌, ◌-◌, Bool, true, false, not, ◌&&◌, Option, none, some, String, List, [], ◌∷◌,
  length, take, drop, min, get_or, ltb, leb, if◌then◌else◌, unwrap_or, ◌==◌, nat_ord,
}
use grepmesh.Prelude.Text.{codes}
use grepmesh.Ranked.Lines.{is_heading, markdown_heading_level, is_definition_line}

abbrev pub max_structural_passage_lines : ℕ
max_structural_passage_lines = 80

abbrev pub line_at : List String → ℕ → String
line_at lines i = get_or lines i ""

-- `(0..=i).rev().find(..)`
unfoldable pub find_back : (String → Bool) → List String → ℕ → Option ℕ
find_back p lines zero = if p (line_at lines zero) then some zero else none
find_back p lines (suc i) =
    let rest = find_back p lines i in if p (line_at lines (suc i)) then some (suc i) else rest

-- `(i..lines.len()).find(..)`, on the lines from `i` on
unfoldable pub find_forward : (String → Bool) → ℕ → List String → Option ℕ
find_forward p i [] = none
find_forward p i (line ∷ rest) =
    let later = find_forward p (i + 1) rest in if p line then some i else later

-- The braces of one line: none when the block that was opened is closed, else the depth and whether
-- a block was opened.
unfoldable pub scan_braces : List ℕ → ℕ → Bool → Option (ℕ × Bool)
scan_braces [] depth opened = some (depth, opened)
scan_braces (c ∷ cs) depth opened = elim (c == b'{') [
  | true ↦ scan_braces cs (depth + 1) true
  | false ↦ elim ((c == b'}') && opened) [
    | true ↦ elim (depth - 1 == 0) [ true ↦ none | false ↦ scan_braces cs (depth - 1) opened ]
    | false ↦ scan_braces cs depth opened
  ]
]

-- `definition.filter(|index| heading.is_none_or(|h| *index > h))`
abbrev pub function_start : Option ℕ → Option ℕ → Option ℕ
function_start none definition = definition
function_start (some h) none = none
function_start (some h) (some d) = if ltb h d then some d else none

abbrev pub is_closing : ℕ → String → Bool
is_closing level line = elim (markdown_heading_level line) [
  | none ↦ false
  | some next ↦ leb next level
]

abbrev pub section_scope : List String → ℕ → ℕ × (ℕ × Option ℕ)
section_scope lines h =
    let level = unwrap_or 6 (markdown_heading_level (line_at lines h)) in
    (
      h,
      (
        unwrap_or (length lines) (find_forward (is_closing level) (h + 1) (drop (h + 1) lines)),
        some h,
      ),
    )

module _ (lower : ℕ → List ℕ) where
  -- The loop over the lines from `index` on; `last` is the end when no line ends the scope.
  unfoldable pub scope_end : ℕ → ℕ → ℕ → ℕ → Bool → List String → ℕ
  unfolding scan_braces
  scope_end start last index depth opened [] = last
  scope_end start last index depth opened (line ∷ rest) =
      elim (scan_braces (codes line) depth opened) [
        | none ↦ index + 1
        | some (depth', opened') ↦
            elim (not opened' && ltb start index && is_definition_line lower line) [
              | true ↦ index
              | false ↦ scope_end start last (index + 1) depth' opened' rest
            ]
      ]

  unfoldable pub function_scope_end : List String → ℕ → ℕ
  unfolding scope_end
  function_scope_end lines start =
      scope_end start (min (start + max_structural_passage_lines) (length lines)) start 0 false
        (take max_structural_passage_lines (drop start lines))

  unfoldable pub structural_scope : List String → ℕ → ℕ × (ℕ × Option ℕ)
  unfolding find_back find_forward function_scope_end
  structural_scope lines anchor =
      let top = min anchor (length lines - 1) in
      let heading = find_back is_heading lines top in
      let definition = find_back (is_definition_line lower) lines top in
      elim (function_start heading definition) [
        | some f ↦ (f, (function_scope_end lines f, none))
        | none ↦ elim heading [
          | some h ↦ section_scope lines h
          | none ↦ (anchor, (min (anchor + 1) (length lines), none))
        ]
      ]
