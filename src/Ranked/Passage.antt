-- ===== src/Ranked/Passage.antt =====
-- `bounded_passage_bounds` of src/ranked.rs: the lines of a passage, around its anchor, within the
-- limits on lines and on bytes. A passage is its first line and the line behind its last.
pub mod Bounds
use Prim.Native.String.{len}
use grepmesh.Prelude.{
  ℕ, zero, suc, ◌+◌, ◌-◌, ◌*◌, ◌/◌, Bool, true, false, not, ◌&&◌, Option, none, some, String, List,
  length, take, drop, min, max, sum_by, ltb, leb, if◌then◌else◌, ◌==◌, nat_ord,
}
use grepmesh.Ranked.Lines.{is_heading}
use grepmesh.Ranked.Scope.{max_structural_passage_lines, line_at}

abbrev pub max_ranked_passage_bytes : ℕ
max_ranked_passage_bytes = 2 * 1024

abbrev pub Span : Type 0
Span = ℕ × ℕ

-- The bytes of the lines with a line break between two.
unfoldable pub text_bytes : List String → ℕ → ℕ → ℕ
text_bytes lines from to = sum_by len (take (to - from) (drop from lines)) + (to - from - 1)

-- The body of the loops that drop lines: none for `break`.
unfoldable pub narrow : Bool → ℕ → Span → Option Span
narrow preserve anchor (start, end) =
    if preserve && ltb (anchor + 1) end
    then some (start, end - 1)
    else if leb (end - (anchor + 1)) (anchor - start) && ltb start anchor
    then some (start + 1, end)
    else if ltb (anchor + 1) end
    then some (start, end - 1)
    else none

-- `while end - start > 1 && text_bytes(start, end) > MAX_RANKED_PASSAGE_BYTES`: a round drops a
-- line, so that the number of lines is fuel enough.
unfoldable pub narrow_loop : ℕ → List String → Bool → ℕ → Span → Span
unfolding narrow text_bytes
narrow_loop zero lines preserve anchor span = span
narrow_loop (suc fuel) lines preserve anchor (start, end) =
    elim (ltb 1 (end - start) && ltb max_ranked_passage_bytes (text_bytes lines start end)) [
      | false ↦ (start, end)
      | true ↦ elim (narrow preserve anchor (start, end)) [
        | none ↦ (start, end)
        | some span ↦ narrow_loop fuel lines preserve anchor span
      ]
    ]

-- The scope with its context, unless it begins with a heading.
unfoldable pub widen : List String → ℕ → ℕ → ℕ → ℕ → Span
widen lines anchor scope_start scope_end context =
    let start = min scope_start anchor in
    let end = min (max scope_end (anchor + 1)) (length lines) in
    if is_heading (line_at lines start)
    then (start, end)
    else (start - context, min (end + context) (length lines))

-- At most `MAX_STRUCTURAL_PASSAGE_LINES` lines.
unfoldable pub clip : List String → ℕ → ℕ → ℕ → Span → Span
clip lines anchor scope_start scope_end (start, end) =
    let start' =
      if ltb (anchor - scope_start) max_structural_passage_lines
      then scope_start
      else anchor - (max_structural_passage_lines - 1) in
    let end' = min (min (start' + max_structural_passage_lines) scope_end) (length lines) in
    let clipped =
      if leb end' anchor
      then (max (anchor + 1 - max_structural_passage_lines) scope_start, anchor + 1)
      else (start', end') in
    if ltb max_structural_passage_lines (end - start) then clipped else (start, end)

unfoldable pub nonempty : List String → ℕ → Span → Span
nonempty lines anchor (start, end) =
    if leb end start then (anchor, min (anchor + 1) (length lines)) else (start, end)

-- The last resort: the lines next to the anchor.
unfoldable pub fall_back : List String → ℕ → ℕ → Span → Span
unfolding narrow_loop
fall_back lines anchor context (start, end) =
    let half = min context (max_structural_passage_lines / 2) in
    let start' = anchor - half in
    let end' = min (anchor + half + 1) (length lines) in
    let near = narrow_loop (end' - start') lines false anchor (start', end') in
    if ltb max_ranked_passage_bytes (text_bytes lines start end) then near else (start, end)

unfoldable pub fit : List String → ℕ → ℕ → Span → Span
unfolding narrow_loop
fit lines anchor scope_start (start, end) =
    let preserve =
      (start == scope_start)
      && leb (text_bytes lines start (anchor + 1)) max_ranked_passage_bytes in
    narrow_loop (end - start) lines preserve anchor (start, end)

unfoldable pub bounded_passage_bounds : List String → ℕ → ℕ → ℕ → ℕ → Span
unfolding widen clip fit nonempty fall_back
bounded_passage_bounds lines anchor scope_start scope_end context = fall_back lines anchor context (
    nonempty lines anchor (
      fit lines anchor scope_start (
        clip lines anchor scope_start scope_end
          (widen lines anchor scope_start scope_end context))))
