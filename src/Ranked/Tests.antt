-- ===== src/Ranked/Tests.antt =====
-- Runs of the passage code on a small file.
use grepmesh.Prelude.{
  ◌+◌, ◌≤◌, false, true, length, ℕ, ◌≡◌, refl, none, some, String, List, [], ◌∷◌, arith,
}
use grepmesh.Prelude.Text.{starts_with, is_whitespace}
use grepmesh.Ranked.Lines.{
  trim_start, count_hashes, is_space_at, markdown_heading_level, to_lowercase, is_definition_line,
}
use grepmesh.Ranked.Scope.{
  find_back, find_forward, scan_braces, scope_end, function_scope_end, structural_scope,
}
use grepmesh.Ranked.Window.{
  Mask, PassageWindow, max_ranked_window_lines, or_mask, count_ones, defines, any_defines,
  is_better_anchor, anchor_from, window_of, replaces, keep_better, grow, scan_starts,
  best_passage_window,
}
use grepmesh.Ranked.Window.Best.{IsWindow, bytes_of, terms_of, coverage, best_passage_window-Best}
use grepmesh.Ranked.Passage.{
  max_ranked_passage_bytes, text_bytes, narrow, narrow_loop, widen, clip, nonempty, fall_back, fit,
  bounded_passage_bounds,
}
use grepmesh.Ranked.Passage.Bounds.{Passage, bounded_passage_bounds-Passage}

ranked : Unit {0}
unfolding is_whitespace trim_start count_hashes is_space_at markdown_heading_level to_lowercase
    is_definition_line starts_with find_back find_forward scan_braces scope_end function_scope_end
    structural_scope text_bytes narrow narrow_loop widen clip nonempty fall_back fit
    bounded_passage_bounds or_mask count_ones defines any_defines is_better_anchor anchor_from
    window_of replaces keep_better grow scan_starts best_passage_window
ranked = tt

abbrev file : List String
file = "# Title" ∷ "text" ∷ "fn main() {" ∷ "  if x { y }" ∷ "}" ∷ "rest" ∷ []

abbrev keep_case : ℕ → List ℕ
keep_case c = c ∷ []

function_run : structural_scope keep_case file 3 ≡ (2, (5, none))
unfolding ranked
function_run = refl

section_run : structural_scope keep_case file 1 ≡ (0, (6, some 0))
unfolding ranked
section_run = refl

passage_run : bounded_passage_bounds file 3 2 5 1 ≡ (1, 6)
unfolding ranked
passage_run = refl

bounded_passage_bounds-Passage_example : Passage file 3 (bounded_passage_bounds file 3 2 5 1)
bounded_passage_bounds-Passage_example =
    bounded_passage_bounds-Passage file 3 2 5 1 (omega arith) (omega arith)

abbrev masks : List Mask
masks =
    (false ∷ false ∷ [])
    ∷ (true ∷ false ∷ [])
    ∷ (false ∷ false ∷ [])
    ∷ (true ∷ true ∷ [])
    ∷ []
    ∷ (false ∷ true ∷ [])
    ∷ []

best_run :
    best_passage_window keep_case file masks
    ≡ some (record { start = 3; end = 4; anchor = 3; mask = true ∷ true ∷ []; definition = false })
unfolding ranked
best_run = refl

best_passage_window-Best_example :
    ((w : PassageWindow)
      → best_passage_window keep_case file masks ≡ some w
      → IsWindow keep_case file masks w)
    × ((s m : ℕ)
        → 1 ≤ m
        → m ≤ max_ranked_window_lines
        → s + m ≤ length masks
        → bytes_of file s m ≤ max_ranked_passage_bytes
        → count_ones (terms_of masks s m) ≤ coverage (best_passage_window keep_case file masks))
best_passage_window-Best_example = best_passage_window-Best keep_case file masks
