-- ===== src/Ranked/Window.antt =====
-- `best_passage_window` of src/ranked.rs: the few lines of a file that hold the most terms.
-- A `u32` mask is the list of its bits, one for each term; the empty list is 0.
pub mod Best
use Prim.Native.String.{len}
use grepmesh.Prelude.{
  ℕ, zero, suc, ◌+◌, ◌-◌, Bool, true, false, not, ◌&&◌, ◌||◌, Option, none, some, String, List, [],
  ◌∷◌, length, min, get_or, ltb, leb, if◌then◌else◌, ◌==◌, nat_ord,
}
use grepmesh.Ranked.Lines.{is_definition_line}
use grepmesh.Ranked.Scope.{line_at}
use grepmesh.Ranked.Passage.{max_ranked_passage_bytes}

abbrev pub max_ranked_window_lines : ℕ
max_ranked_window_lines = 9

abbrev pub Mask : Type 0
Mask = List Bool

unfoldable pub or_mask : Mask → Mask → Mask
or_mask [] m = m
or_mask (b ∷ bs) [] = b ∷ bs
or_mask (b ∷ bs) (c ∷ cs) = (b || c) ∷ or_mask bs cs

unfoldable pub count_ones : Mask → ℕ
count_ones [] = 0
count_ones (b ∷ bs) = let rest = count_ones bs in if b then rest + 1 else rest

pub record PassageWindow : Type 0 where
  pub start : ℕ
  pub end : ℕ
  pub anchor : ℕ
  pub mask : Mask
  pub definition : Bool

abbrev pub mask_at : List Mask → ℕ → Mask
mask_at masks i = get_or masks i []

module _ (lower : ℕ → List ℕ) (lines : List String) (masks : List Mask) where
  unfoldable pub defines : ℕ → Bool
  defines i = not (count_ones (mask_at masks i) == 0) && is_definition_line lower (line_at lines i)

  -- `(i..i + n).any(..)`
  unfoldable pub any_defines : ℕ → ℕ → Bool
  any_defines i zero = false
  any_defines i (suc n) = defines i || any_defines (i + 1) n

  -- Whether line `i`, below line `best`, has the greater key: more terms, or a definition.
  unfoldable pub is_better_anchor : ℕ → ℕ → Bool
  is_better_anchor i best =
      ltb (count_ones (mask_at masks best)) (count_ones (mask_at masks i))
      || ((count_ones (mask_at masks best) == count_ones (mask_at masks i))
          && defines i
          && not (defines best))

  -- `max_by_key` over the lines from `i` on.
  unfoldable pub anchor_from : ℕ → ℕ → ℕ → ℕ
  anchor_from best i zero = best
  anchor_from best i (suc n) = anchor_from (if is_better_anchor i best then i else best) (i + 1) n

  unfoldable pub window_of : ℕ → ℕ → Mask → PassageWindow
  unfolding any_defines anchor_from
  window_of start end mask = record {
    start = start;
    end = end;
    anchor = anchor_from start (start + 1) (end - start - 1);
    mask = mask;
    definition = any_defines start (end - start);
  }

  -- The condition under which the candidate replaces the current window.
  unfoldable pub replaces : PassageWindow → PassageWindow → Bool
  replaces c w =
      let coverage = count_ones c.mask in
      let current = count_ones w.mask in
      let as_long = (c.end - c.start) == (w.end - w.start) in
      let as_defining = (c.definition && w.definition) || (not c.definition && not w.definition) in
      ltb current coverage
      || ((coverage == current) && c.definition && not w.definition)
      || ((coverage == current) && as_defining && ltb (c.end - c.start) (w.end - w.start))
      || ((coverage == current) && as_defining && as_long && ltb c.start w.start)

  unfoldable pub keep_better : Option PassageWindow → PassageWindow → Option PassageWindow
  keep_better none c = some c
  keep_better (some w) c = if replaces c w then some c else some w

  -- The inner loop: line `e` joins the window that begins at `start`. `fuel` lines are left.
  unfoldable pub grow : ℕ → ℕ → ℕ → ℕ → Mask → Option PassageWindow → Option PassageWindow
  unfolding or_mask count_ones window_of keep_better
  grow zero start e bytes mask best = best
  grow (suc fuel) start e bytes mask best =
      let bytes' = bytes + len (line_at lines e) + (if ltb start e then 1 else 0) in
      let mask' = or_mask mask (mask_at masks e) in
      let best' =
        if count_ones mask' == 0 then best else keep_better best (window_of start (e + 1) mask') in
      elim (ltb max_ranked_passage_bytes bytes') [
        | true ↦ best
        | false ↦ grow fuel start (e + 1) bytes' mask' best'
      ]

  -- The outer loop.
  unfoldable pub scan_starts : ℕ → ℕ → Option PassageWindow → Option PassageWindow
  unfolding grow
  scan_starts zero start best = best
  scan_starts (suc fuel) start best =
      scan_starts fuel (start + 1)
        (grow (min (start + max_ranked_window_lines) (length masks) - start) start start 0 [] best)

  unfoldable pub best_passage_window : Option PassageWindow
  unfolding scan_starts
  best_passage_window = scan_starts (length masks) 0 none
