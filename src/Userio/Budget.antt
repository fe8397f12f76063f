-- ===== src/Userio/Budget.antt =====
-- `budget_tail` and `budget_head` of src/userio.rs: how a conversation is split into the newest
-- messages and an archive. The loops run from the newest block, so they are given the blocks in
-- reverse; `index` is the number of blocks that are older.
pub mod Split
use Prim.Native.String.{len}
use grepmesh.Prelude.{ℕ, ◌+◌, ◌-◌, Bool, ◌&&◌, String, List, [], ◌∷◌, length, ltb, if◌then◌else◌}
use mathlib.Core.List.{reverse}

abbrev pub block_size : String → ℕ
block_size block = len block + 1

-- `n` is the number of all blocks.
unfoldable pub tail_loop : ℕ → ℕ → ℕ → List String → ℕ
tail_loop n budget used [] = n
tail_loop n budget used (block ∷ older) =
    let index = length older in
    let rest = tail_loop n budget (used + block_size block) older in
    if ltb budget (used + block_size block) && ltb (index + 1) n then n - index - 1 else rest

unfoldable pub budget_tail : List String → ℕ → ℕ
unfolding tail_loop
budget_tail blocks budget = tail_loop (length blocks) budget 0 (reverse blocks)

unfoldable pub head_loop : ℕ → ℕ → ℕ → List String → ℕ × ℕ
head_loop n budget used [] = (0, 0)
head_loop n budget used (block ∷ older) =
    let index = length older in
    let rest = head_loop n budget (used + block_size block) older in
    if ltb budget (used + block_size block) && ltb (index + 1) n
    then (index + 1, index + 1)
    else rest

unfoldable pub budget_head : List String → ℕ → ℕ × ℕ
unfolding head_loop
budget_head blocks budget = head_loop (length blocks) budget 0 (reverse blocks)
