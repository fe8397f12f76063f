-- ===== src/Ranked/Window/Best.antt =====
-- What the window of `best_passage_window` holds, and that no other one holds more terms.
use Prim.Native.String.{len}
use grepmesh.Prelude.{
  ℕ, zero, suc, ◌+◌, ◌-◌, ◌≤◌, ◌<◌, ◌≡◌, refl, ap, ◌∙◌, subst, true, false, Option, none, some,
  String, List, [], length, min, ltb, if◌then◌else◌, ◌==◌, nat_ord, arith, Bool-cases, inl, inr,
}
use grepmesh.Ranked.Scope.{line_at}
use grepmesh.Ranked.Passage.{max_ranked_passage_bytes}
use grepmesh.Ranked.Window.{
  Mask, PassageWindow, max_ranked_window_lines, or_mask, count_ones, mask_at, is_better_anchor,
  anchor_from, window_of, replaces, keep_better, grow, scan_starts, best_passage_window,
}

-- The bytes of `n` lines from line `s` on, with a line break between two.
pub bytes_of : List String → ℕ → ℕ → ℕ
bytes_of lines s zero = 0
bytes_of lines s (suc n) =
    bytes_of lines s n + len (line_at lines (s + n)) + (if ltb 0 n then 1 else 0)

-- The terms of `n` lines from line `s` on.
pub terms_of : List Mask → ℕ → ℕ → Mask
terms_of masks s zero = []
terms_of masks s (suc n) = or_mask (terms_of masks s n) (mask_at masks (s + n))

bytes_of_mono : (lines : List String) (s n m : ℕ) → n ≤ m → bytes_of lines s n ≤ bytes_of lines s m
unfolding bytes_of
bytes_of_mono lines s n zero h = let same : n ≡ zero = omega arith in rw same (omega arith)
bytes_of_mono lines s n (suc m) h = elim (Bool-cases (n == suc m)) [
  | inl e ↦ let same : n ≡ suc m = ground arith in rw same (omega arith)
  | inr e ↦ omega (arith, bytes_of_mono lines s n m (ground arith))
]

pub coverage : Option PassageWindow → ℕ
coverage none = 0
coverage (some w) = count_ones w.mask

module _ (lower : ℕ → List ℕ) (lines : List String) (masks : List Mask) where
  -- A window of at most `MAX_RANKED_WINDOW_LINES` lines and `MAX_RANKED_PASSAGE_BYTES` bytes that
  -- holds its anchor and a term at least; its mask is the terms of its lines.
  pub record IsWindow (w : PassageWindow) : Type 0 where
    pub count : ℕ
    pub spans : w.end ≡ w.start + count
    pub some_line : 1 ≤ count
    pub few : count ≤ max_ranked_window_lines
    pub within : w.end ≤ length masks
    pub light : bytes_of lines w.start count ≤ max_ranked_passage_bytes
    pub terms : w.mask ≡ terms_of masks w.start count
    pub covers : 1 ≤ count_ones w.mask
    pub first : w.start ≤ w.anchor
    pub last : w.anchor < w.end

  Valid : Option PassageWindow → Type 0
  Valid none = Unit {0}
  Valid (some w) = IsWindow w

  anchor_from-bounds :
      (best i n : ℕ)
      → best < i
      → (best ≤ anchor_from lower lines masks best i n)
        × (anchor_from lower lines masks best i n < i + n)
  unfolding anchor_from
  anchor_from-bounds best i zero h = (omega arith, omega arith)
  anchor_from-bounds best i (suc n) h =
      elim (Bool-cases (is_better_anchor lower lines masks i best)) [
        | inl e ↦
            let (a, b) = anchor_from-bounds i (i + 1) n (omega arith) in
            rw e (omega arith, omega arith)
        | inr e ↦
            let (a, b) = anchor_from-bounds best (i + 1) n (omega arith) in
            rw e (omega arith, omega arith)
      ]

  keep_better-coverage :
      (best : Option PassageWindow) (c : PassageWindow)
      → (coverage best ≤ coverage (keep_better lower lines masks best c))
        × (count_ones c.mask ≤ coverage (keep_better lower lines masks best c))
  unfolding keep_better replaces coverage
  keep_better-coverage none c = (omega arith, omega arith)
  keep_better-coverage (some w) c = (ground arith, ground arith)

  keep_better-Valid :
      (best : Option PassageWindow) (c : PassageWindow)
      → Valid best
      → IsWindow c
      → Valid (keep_better lower lines masks best c)
  unfolding keep_better Valid
  keep_better-Valid none c h k = k
  keep_better-Valid (some w) c h k = elim (Bool-cases (replaces lower lines masks c w)) [
    | inl e ↦ rw e k
    | inr e ↦ rw e h
  ]

  window_of-IsWindow :
      (s n : ℕ)
      → s + suc n ≤ length masks
      → suc n ≤ max_ranked_window_lines
      → bytes_of lines s (suc n) ≤ max_ranked_passage_bytes
      → 1 ≤ count_ones (terms_of masks s (suc n))
      → IsWindow (window_of lower lines masks s (s + suc n) (terms_of masks s (suc n)))
  unfolding window_of
  window_of-IsWindow s n inside few light covers =
      let rest : s + suc n - s - 1 ≡ n = omega arith in
      let (a, b) = anchor_from-bounds s (s + 1) n (omega arith) in
      record {
        count = suc n;
        spans = refl;
        some_line = omega arith;
        few = few;
        within = inside;
        light = light;
        terms = refl;
        covers = covers;
        first = rw rest (omega arith);
        last = rw rest (omega arith);
      }

  -- The window after `n` lines have joined the one that begins at `s`.
  step_best : ℕ → ℕ → Option PassageWindow → Option PassageWindow
  step_best s n best =
      let mask = terms_of masks s (suc n) in
      if count_ones mask == 0
      then best
      else keep_better lower lines masks best (window_of lower lines masks s (s + suc n) mask)

  step_best-Valid :
      (s n : ℕ) (best : Option PassageWindow)
      → Valid best
      → s + suc n ≤ length masks
      → suc n ≤ max_ranked_window_lines
      → bytes_of lines s (suc n) ≤ max_ranked_passage_bytes
      → Valid (step_best s n best)
  unfolding step_best
  step_best-Valid s n best v inside few light =
      elim (Bool-cases (count_ones (terms_of masks s (suc n)) == 0)) [
        | inl e ↦ rw e v
        | inr e ↦ rw e (
            keep_better-Valid best
              (window_of lower lines masks s (s + suc n) (terms_of masks s (suc n))) v
              (window_of-IsWindow s n inside few light (ground arith)))
      ]

  step_best-coverage :
      (s n : ℕ) (best : Option PassageWindow)
      → (coverage best ≤ coverage (step_best s n best))
        × (count_ones (terms_of masks s (suc n)) ≤ coverage (step_best s n best))
  unfolding step_best window_of
  step_best-coverage s n best = elim (Bool-cases (count_ones (terms_of masks s (suc n)) == 0)) [
    | inl e ↦ rw e (omega arith, ground arith)
    | inr e ↦ rw e (
        keep_better-coverage best
          (window_of lower lines masks s (s + suc n) (terms_of masks s (suc n))))
  ]

  record Grown (s n fuel : ℕ) (best best' : Option PassageWindow) : Type 0 where
    valid : Valid best'
    more : coverage best ≤ coverage best'
    greatest :
        (m : ℕ)
        → n < m
        → m ≤ n + fuel
        → bytes_of lines s m ≤ max_ranked_passage_bytes
        → count_ones (terms_of masks s m) ≤ coverage best'

  -- One round, with the sums that it computes named.
  grow_next :
      (fuel s e bytes b e' : ℕ) (mask : Mask) (best : Option PassageWindow)
      → bytes + len (line_at lines e) + (if ltb s e then 1 else 0) ≡ b
      → e + 1 ≡ e'
      → ltb max_ranked_passage_bytes b ≡ false
      → let mask' = or_mask mask (mask_at masks e) in
        grow lower lines masks (suc fuel) s e bytes mask best
        ≡ grow lower lines masks fuel s e' b mask' (
            if count_ones mask' == 0
            then best
            else keep_better lower lines masks best (window_of lower lines masks s e' mask'))
  unfolding grow
  grow_next fuel s e bytes b e' mask best hb he light =
      let light' : ltb max_ranked_passage_bytes
            (bytes + len (line_at lines e) + (if ltb s e then 1 else 0))
          ≡ false =
        ap (ltb max_ranked_passage_bytes) hb ∙ light in
      rw (← hb, ← he, light', grow) refl

  grow_break :
      (fuel s e bytes b : ℕ) (mask : Mask) (best : Option PassageWindow)
      → bytes + len (line_at lines e) + (if ltb s e then 1 else 0) ≡ b
      → ltb max_ranked_passage_bytes b ≡ true
      → grow lower lines masks (suc fuel) s e bytes mask best ≡ best
  unfolding grow
  grow_break fuel s e bytes b mask best hb heavy =
      let heavy' : ltb max_ranked_passage_bytes
            (bytes + len (line_at lines e) + (if ltb s e then 1 else 0))
          ≡ true =
        ap (ltb max_ranked_passage_bytes) hb ∙ heavy in
      rw (heavy', grow) refl

  bytes_of_next :
      (s n : ℕ)
      → bytes_of lines s n + len (line_at lines (s + n)) + (if ltb s (s + n) then 1 else 0)
        ≡ bytes_of lines s (suc n)
  unfolding bytes_of
  bytes_of_next s n = ground arith

  grow_light :
      (fuel s n : ℕ) (best : Option PassageWindow)
      → ltb max_ranked_passage_bytes (bytes_of lines s (suc n)) ≡ false
      → grow lower lines masks (suc fuel) s (s + n) (bytes_of lines s n) (terms_of masks s n) best
        ≡ grow lower lines masks fuel s
            (s + suc n)
            (bytes_of lines s (suc n))
            (terms_of masks s (suc n))
            (step_best s n best)
  unfolding step_best terms_of
  grow_light fuel s n best =
      grow_next fuel s (s + n) (bytes_of lines s n) (bytes_of lines s (suc n)) (s + suc n)
        (terms_of masks s n) best (bytes_of_next s n) (omega arith)

  grow_heavy :
      (fuel s n : ℕ) (best : Option PassageWindow)
      → ltb max_ranked_passage_bytes (bytes_of lines s (suc n)) ≡ true
      → grow lower lines masks (suc fuel) s (s + n) (bytes_of lines s n) (terms_of masks s n) best
        ≡ best
  grow_heavy fuel s n best =
      grow_break fuel s (s + n) (bytes_of lines s n) (bytes_of lines s (suc n)) (terms_of masks s n)
        best (bytes_of_next s n)

  grow-Grown :
      (fuel s n : ℕ) (best : Option PassageWindow)
      → Valid best
      → s + n + fuel ≤ length masks
      → n + fuel ≤ max_ranked_window_lines
      → Grown s n fuel best
          (grow lower lines masks fuel s (s + n) (bytes_of lines s n) (terms_of masks s n) best)
  unfolding grow
  grow-Grown zero s n best v inside few = record {
    valid = v;
    more = omega arith;
    greatest = λ m a b light. absurd (omega arith);
  }
  grow-Grown (suc fuel) s n best v inside few =
      elim (Bool-cases (ltb max_ranked_passage_bytes (bytes_of lines s (suc n)))) [
        | inl heavy ↦ rw (grow_heavy fuel s n best heavy) (record {
          valid = v;
          more = omega arith;
          greatest = λ m a b light.
              let longer = bytes_of_mono lines s (suc n) m (omega arith) in absurd (ground arith);
        })
        | inr light ↦
            let v' = step_best-Valid s n best v (omega arith) (omega arith) (ground arith) in
            let (more, here) = step_best-coverage s n best in
            let g = grow-Grown fuel s (suc n) (step_best s n best) v' (omega arith) (omega arith) in
            let further = g.more in
            rw (grow_light fuel s n best light) (record {
              valid = g.valid;
              more = omega arith;
              greatest = λ m a b fits. elim (Bool-cases (m == suc n)) [
                | inl e ↦ let same : m ≡ suc n = ground arith in rw same (omega arith)
                | inr e ↦ g.greatest m (ground arith) (omega arith) fits
              ];
            })
      ]

  -- The lines that may join a window.
  abbrev room_at : ℕ → ℕ
  room_at s = min (s + max_ranked_window_lines) (length masks) - s

  grow_first :
      (s : ℕ) (best : Option PassageWindow)
      → Valid best
      → s ≤ length masks
      → Grown s 0 (room_at s) best (grow lower lines masks (room_at s) s s 0 [] best)
  unfolding bytes_of terms_of
  grow_first s best v inside =
      let here : s + 0 ≡ s = omega arith in
      subst (λ e. Grown s 0 (room_at s) best (grow lower lines masks (room_at s) s e 0 [] best))
        here (grow-Grown (room_at s) s 0 best v (omega arith) (omega arith))

  record Scanned (start : ℕ) (best best' : Option PassageWindow) : Type 0 where
    valid : Valid best'
    more : coverage best ≤ coverage best'
    greatest :
        (s m : ℕ)
        → start ≤ s
        → 1 ≤ m
        → m ≤ max_ranked_window_lines
        → s + m ≤ length masks
        → bytes_of lines s m ≤ max_ranked_passage_bytes
        → count_ones (terms_of masks s m) ≤ coverage best'

  scan_starts-Scanned :
      (fuel start : ℕ) (best : Option PassageWindow)
      → Valid best
      → start + fuel ≡ length masks
      → Scanned start best (scan_starts lower lines masks fuel start best)
  unfolding scan_starts
  scan_starts-Scanned zero start best v e = record {
    valid = v;
    more = omega arith;
    greatest = λ s m a b c d light. absurd (omega arith);
  }
  scan_starts-Scanned (suc fuel) start best v e =
      let g = grow_first start best v (omega arith) in
      let next = grow lower lines masks (room_at start) start start 0 [] best in
      let r = scan_starts-Scanned fuel (start + 1) next g.valid (omega arith) in
      let first_more = g.more in
      let rest_more = r.more in
      record {
        valid = r.valid;
        more = omega arith;
        greatest = λ s m a b c d light. elim (Bool-cases (s == start)) [
          | inl here ↦
              let same : s ≡ start = ground arith in
              let fits : bytes_of lines start m ≤ max_ranked_passage_bytes = rw (← same) light in
              let found = g.greatest m (omega arith) (omega arith) fits in rw same (omega arith)
          | inr later ↦ r.greatest s m (ground arith) b c d light
        ];
      }

  -- The passage that is found is a window of at most `MAX_RANKED_WINDOW_LINES` lines and
  -- `MAX_RANKED_PASSAGE_BYTES` bytes with the terms of its lines, one at least, and no window within
  -- these limits holds more terms. If none is found, no such window holds a term.
  pub best_passage_window-Best :
      ((w : PassageWindow) → best_passage_window lower lines masks ≡ some w → IsWindow w)
      × ((s m : ℕ)
          → 1 ≤ m
          → m ≤ max_ranked_window_lines
          → s + m ≤ length masks
          → bytes_of lines s m ≤ max_ranked_passage_bytes
          → count_ones (terms_of masks s m) ≤ coverage (best_passage_window lower lines masks))
  unfolding best_passage_window Valid
  best_passage_window-Best =
      let r = scan_starts-Scanned (length masks) 0 none tt (omega arith) in
      (λ w e. subst Valid e r.valid, λ s m a b c light. r.greatest s m (omega arith) a b c light)
