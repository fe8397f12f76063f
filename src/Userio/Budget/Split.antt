-- ===== src/Userio/Budget/Split.antt =====
-- How the two functions split the blocks.
use grepmesh.Prelude.{
  ℕ, suc, ◌+◌, ◌-◌, ◌≤◌, ◌≡◌, refl, ap, subst, ◌∙◌, ◌&&◌, String, List, [], ◌∷◌, length, take,
  sum_by, ltb, arith, Bool-cases, inl, inr, ◌⊎◌, length-append,
}
use mathlib.Core.List.{reverse, reverse-cons}
use grepmesh.Userio.Budget.{block_size, tail_loop, budget_tail, head_loop, budget_head}

length-reverse : (xs : List String) → length (reverse xs) ≡ length xs
length-reverse [] = refl
length-reverse (x ∷ xs) =
    ap length (reverse-cons x xs)
    ∙ omega (arith, length-append (reverse xs) (x ∷ []), length-reverse xs)

loops_meet :
    (n budget used : ℕ) (blocks : List String)
    → length blocks ≤ n
    → tail_loop n budget used blocks + (head_loop n budget used blocks).0 ≡ n
unfolding tail_loop head_loop
loops_meet n budget used [] h = omega arith
loops_meet n budget used (block ∷ older) h =
    ground (arith, loops_meet n budget (used + block_size block) older)

-- `kept` is the number of newest blocks that stay, `before` of which are behind the loop.
record Kept (n budget used before kept : ℕ) (blocks : List String) : Type 0 where
  past : before ≤ kept
  within : kept ≤ n
  fits : (used + sum_by block_size (take (kept - before) blocks) ≤ budget) ⊎ (kept ≤ 1)

Kept-stop :
    (n budget used before kept : ℕ) (blocks : List String)
    → kept ≡ before
    → kept ≤ n
    → (used ≤ budget) ⊎ (before ≤ 1)
    → Kept n budget used before kept blocks
Kept-stop n budget used before kept blocks e w fits =
    let nothing : kept - before ≡ 0 = omega arith in
    record { past = omega arith; within = w; fits = rw nothing (ground arith) }

Kept-step :
    (n budget used before kept : ℕ) (block : String) (older : List String)
    → Kept n budget (used + block_size block) (before + 1) kept older
    → Kept n budget used before kept (block ∷ older)
Kept-step n budget used before kept block older k =
    let past = k.past in
    let one : kept - before ≡ suc (kept - (before + 1)) = omega arith in
    let fits = k.fits in
    record { past = omega arith; within = k.within; fits = rw one (ground arith) }

tail_loop-Kept :
    (n budget used before : ℕ) (blocks : List String)
    → before + length blocks ≡ n
    → (used ≤ budget) ⊎ (before ≤ 1)
    → Kept n budget used before (tail_loop n budget used blocks) blocks
unfolding tail_loop
tail_loop-Kept n budget used before [] h fits =
    Kept-stop n budget used before n [] (omega arith) (omega arith) fits
tail_loop-Kept n budget used before (block ∷ older) h fits =
    elim (Bool-cases (ltb budget (used + block_size block) && ltb (length older + 1) n)) [
      | inl stop ↦
          rw (stop, tail_loop)
            (Kept-stop n budget used before (n - length older - 1) (block ∷ older) (omega arith)
              (omega arith) fits)
      | inr go ↦
          rw (go, tail_loop)
            (Kept-step n budget used before (tail_loop n budget (used + block_size block) older)
              block older
              (tail_loop-Kept n budget (used + block_size block) (before + 1) older (omega arith)
                (ground arith)))
    ]

-- Of one list with one budget, the number of newest blocks that `budget_tail` keeps and the number of
-- blocks that `budget_head` drops add up to all, and the newest ones with a line break each fit the
-- budget unless there is at most one of them.
pub budget_tail_split :
    (blocks : List String) (budget : ℕ)
    → (budget_tail blocks budget + (budget_head blocks budget).0 ≡ length blocks)
      × ((sum_by block_size (take (budget_tail blocks budget) (reverse blocks)) ≤ budget)
          ⊎ (budget_tail blocks budget ≤ 1))
unfolding budget_tail budget_head
budget_tail_split blocks budget =
    let same = length-reverse blocks in
    let k =
      tail_loop-Kept (length blocks) budget 0 0 (reverse blocks) (omega arith)
        (inr (omega arith)) in
    let kept = tail_loop (length blocks) budget 0 (reverse blocks) in
    let all : kept - 0 ≡ kept = omega arith in
    let fits =
      subst (λ m. (0 + sum_by block_size (take m (reverse blocks)) ≤ budget) ⊎ (kept ≤ 1)) all
        k.fits in
    (loops_meet (length blocks) budget 0 (reverse blocks) (omega arith), ground arith)
