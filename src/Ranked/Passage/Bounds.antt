-- ===== src/Ranked/Passage/Bounds.antt =====
-- The bounds that a passage keeps.
use Prim.Native.String.{len}
use grepmesh.Prelude.{
  [], ◌∷◌, sum_by, take, drop, drop-nil, ℕ, zero, suc, ◌+◌, ◌-◌, ◌/◌, ◌≤◌, ◌<◌, ◌≡◌, refl, Bool,
  false, ◌&&◌, none, some, String, List, length, min, ltb, leb, arith, Bool-cases, Option-cases,
  inl, inr, ◌⊎◌, ◌==◌, nat_ord,
}
use grepmesh.Ranked.Scope.{max_structural_passage_lines}
use grepmesh.Ranked.Passage.{
  Span, max_ranked_passage_bytes, text_bytes, narrow, narrow_loop, widen, clip, nonempty, fall_back,
  fit, bounded_passage_bounds,
}

-- The span holds the anchor and lies within the file.
record Holds (lines : List String) (anchor : ℕ) (span : Span) : Type 0 where
  first : span.0 ≤ anchor
  last : anchor < span.1
  within : span.1 ≤ length lines

-- A round keeps the anchor and drops one line; it fails only on the anchor alone.
narrow-Holds :
    (lines : List String) (preserve : Bool) (anchor : ℕ) (span span' : Span)
    → Holds lines anchor span
    → narrow preserve anchor span ≡ some span'
    → Holds lines anchor span' × (span'.1 - span'.0 + 1 ≡ span.1 - span.0)
unfolding narrow
narrow-Holds lines preserve anchor span span' h e =
    let a = h.first in
    let b = h.last in
    let c = h.within in
    (record { first = ground arith; last = ground arith; within = ground arith }, ground arith)

narrow_stuck :
    (lines : List String) (preserve : Bool) (anchor : ℕ) (span : Span)
    → Holds lines anchor span
    → narrow preserve anchor span ≡ none
    → span.1 - span.0 ≤ 1
unfolding narrow
narrow_stuck lines preserve anchor span h e = let a = h.first in let b = h.last in ground arith

-- Few bytes, or a single line.
abbrev IsLight : List String → Span → Type 0
IsLight lines span =
    (text_bytes lines span.0 span.1 ≤ max_ranked_passage_bytes) ⊎ (span.1 - span.0 ≤ 1)

record Narrowed (lines : List String) (anchor : ℕ) (span span' : Span) : Type 0 where
  holds : Holds lines anchor span'
  light : IsLight lines span'
  narrower : span'.1 - span'.0 ≤ span.1 - span.0

narrow_loop-Narrowed :
    (fuel : ℕ) (lines : List String) (preserve : Bool) (anchor : ℕ) (span : Span)
    → Holds lines anchor span
    → span.1 - span.0 ≤ fuel
    → Narrowed lines anchor span (narrow_loop fuel lines preserve anchor span)
unfolding narrow_loop
narrow_loop-Narrowed zero lines preserve anchor span h f = record {
  holds = h;
  light = inr (omega arith);
  narrower = omega arith;
}
narrow_loop-Narrowed (suc fuel) lines preserve anchor span h f =
    elim (Bool-cases
      (ltb 1 (span.1 - span.0) && ltb max_ranked_passage_bytes (text_bytes lines span.0 span.1))) [
        | inr enough ↦
            rw (enough, narrow_loop)
              (record { holds = h; light = ground arith; narrower = omega arith })
        | inl heavy ↦ elim (Option-cases (narrow preserve anchor span)) [
          | inl stuck ↦
              rw (heavy, stuck, narrow_loop)
                (record {
                  holds = h;
                  light = inr (narrow_stuck lines preserve anchor span h stuck);
                  narrower = omega arith;
                })
          | inr (next, e) ↦
              let (h', less) = narrow-Holds lines preserve anchor span next h e in
              let n = narrow_loop-Narrowed fuel lines preserve anchor next h' (omega arith) in
              let narrower = n.narrower in
              rw (heavy, e, narrow_loop)
                (record { holds = n.holds; light = n.light; narrower = omega arith })
        ]
      ]

clip-widen :
    (lines : List String) (anchor scope_start scope_end context : ℕ)
    → anchor < length lines
    → scope_start ≤ anchor
    → let span =
        clip lines anchor scope_start scope_end
          (widen lines anchor scope_start scope_end context) in
      Holds lines anchor span × (span.1 - span.0 ≤ max_structural_passage_lines)
unfolding clip widen
clip-widen lines anchor scope_start scope_end context inside above =
    (record { first = ground arith; last = ground arith; within = ground arith }, ground arith)

-- What a passage keeps.
pub record Passage (lines : List String) (anchor : ℕ) (span : Span) : Type 0 where
  pub first : span.0 ≤ anchor
  pub last : anchor < span.1
  pub within : span.1 ≤ length lines
  pub few : span.1 - span.0 ≤ max_structural_passage_lines
  pub light : (text_bytes lines span.0 span.1 ≤ max_ranked_passage_bytes) ⊎ (span.1 - span.0 ≤ 1)

fit-Narrowed :
    (lines : List String) (anchor scope_start : ℕ) (span : Span)
    → Holds lines anchor span
    → Narrowed lines anchor span (fit lines anchor scope_start span)
unfolding fit
fit-Narrowed lines anchor scope_start span h =
    narrow_loop-Narrowed (span.1 - span.0) lines
      ((span.0 == scope_start)
        && leb (text_bytes lines span.0 (anchor + 1)) max_ranked_passage_bytes)
      anchor span h (omega arith)

nonempty-id :
    (lines : List String) (anchor : ℕ) (span : Span)
    → Holds lines anchor span
    → nonempty lines anchor span ≡ span
unfolding nonempty
nonempty-id lines anchor span h = let a = h.first in let b = h.last in ground arith

sum_by-anchor :
    (lines : List String) (s n a : ℕ)
    → s ≤ a
    → a < s + n
    → sum_by len (take 1 (drop a lines)) ≤ sum_by len (take n (drop s lines))
sum_by-anchor [] s n a h k = rw (drop-nil a) (omega arith)
sum_by-anchor (x ∷ xs) (suc s) n (suc a) h k = sum_by-anchor xs s n a (omega arith) (omega arith)
sum_by-anchor (x ∷ xs) (suc s) n zero h k = absurd (omega arith)
sum_by-anchor (x ∷ xs) zero zero a h k = absurd (omega arith)
sum_by-anchor (x ∷ xs) zero (suc n) zero h k = omega arith
sum_by-anchor (x ∷ xs) zero (suc n) (suc a) h k =
    omega (arith, sum_by-anchor xs zero n a (omega arith) (omega arith))

-- No span with the anchor has fewer bytes than the anchor's line.
text_bytes-anchor :
    (lines : List String) (anchor : ℕ) (span : Span)
    → Holds lines anchor span
    → text_bytes lines anchor (anchor + 1) ≤ text_bytes lines span.0 span.1
unfolding text_bytes
text_bytes-anchor lines anchor span h =
    let one : anchor + 1 - anchor ≡ 1 = omega arith in
    let least =
      sum_by-anchor lines span.0 (span.1 - span.0) anchor h.first
        (omega (arith, h.first, h.last)) in
    rw one (omega (arith, least))

-- The window of the last resort.
abbrev near : List String → ℕ → ℕ → Span
near lines anchor context =
    let half = min context (max_structural_passage_lines / 2) in
    (anchor - half, min (anchor + half + 1) (length lines))

fall_back-Passage :
    (lines : List String) (anchor context : ℕ) (span : Span)
    → anchor < length lines
    → Holds lines anchor span
    → IsLight lines span
    → span.1 - span.0 ≤ max_structural_passage_lines
    → Passage lines anchor (fall_back lines anchor context span)
unfolding fall_back
fall_back-Passage lines anchor context span inside h light few =
    elim (Bool-cases (ltb max_ranked_passage_bytes (text_bytes lines span.0 span.1))) [
      | inr fits ↦
          rw (fits, fall_back)
            (record { first = h.first; last = h.last; within = h.within; few = few; light = light })
      | inl heavy ↦
          let w = near lines anchor context in
          let holds : Holds lines anchor w = record {
            first = omega arith;
            last = omega arith;
            within = omega arith;
          } in
          let n = narrow_loop-Narrowed (w.1 - w.0) lines false anchor w holds (omega arith) in
          let alone : span.1 - span.0 ≤ 1 = ground arith in
          let tight = narrow_loop (w.1 - w.0) lines false anchor w in
          let few' : tight.1 - tight.0 ≤ max_structural_passage_lines = elim n.light [
            | inr single ↦ omega arith
            | inl fits ↦
                let start : span.0 ≡ anchor = omega (arith, h.first, h.last) in
                let end : span.1 ≡ anchor + 1 = omega (arith, h.first, h.last) in
                let same : text_bytes lines span.0 span.1 ≡ text_bytes lines anchor (anchor + 1) =
                  rw (start, end) refl in
                let least =
                  text_bytes-anchor lines anchor (narrow_loop (w.1 - w.0) lines false anchor w)
                    n.holds in
                absurd (ground arith)
          ] in
          rw (heavy, fall_back)
            (record {
              first = n.holds.first;
              last = n.holds.last;
              within = n.holds.within;
              few = few';
              light = n.light;
            })
    ]

-- For an anchor in the file and a scope that begins at it or above it, whatever the end of the
-- scope and the context, the passage holds the anchor, lies within the file, has at most
-- `MAX_STRUCTURAL_PASSAGE_LINES` lines, and at most `MAX_RANKED_PASSAGE_BYTES` bytes unless it is
-- a single line.
pub bounded_passage_bounds-Passage :
    (lines : List String) (anchor scope_start scope_end context : ℕ)
    → anchor < length lines
    → scope_start ≤ anchor
    → Passage lines anchor (bounded_passage_bounds lines anchor scope_start scope_end context)
unfolding bounded_passage_bounds
bounded_passage_bounds-Passage lines anchor scope_start scope_end context inside above =
    let wide =
      clip lines anchor scope_start scope_end (widen lines anchor scope_start scope_end context) in
    let (h, few) = clip-widen lines anchor scope_start scope_end context inside above in
    let n = fit-Narrowed lines anchor scope_start wide h in
    let few' = n.narrower in
    rw (nonempty-id lines anchor (fit lines anchor scope_start wide) n.holds) (
      fall_back-Passage lines anchor context (fit lines anchor scope_start wide) inside n.holds
        n.light (omega arith))
