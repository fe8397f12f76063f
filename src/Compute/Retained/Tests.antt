-- ===== src/Compute/Retained/Tests.antt =====
-- Runs of the retained results on concrete data: the values are numbers, and a value is its own
-- length.
use grepmesh.Prelude.{ℕ, ◌≡◌, refl, some, [], ◌∷◌, arith, nat_ord}
use grepmesh.Compute.Retained.{
  RetainedResults, prune_rows, prune, evict, find, get, take_row, push_row, insert_sized, insert,
}
use grepmesh.Compute.Retained.Bounds.{IsBounded, insert-IsBounded}
use grepmesh.Compute.Retained.Reads.{IsTimely, get-insert}

retained : Unit {0}
unfolding prune_rows prune evict find get take_row push_row insert_sized insert
retained = tt

abbrev none_yet : RetainedResults ℕ ℕ
none_yet = record { rows = []; bytes = 0 }

abbrev one_row : RetainedResults ℕ ℕ
one_row = record { rows = record { key = 7; since = 10; value = 42; size = 42 } ∷ []; bytes = 42 }

none_yet-IsTimely : IsTimely 10 none_yet
none_yet-IsTimely = record { past = tt; in_order = tt }

insert-IsBounded_example :
    (c' : RetainedResults ℕ ℕ) × (insert some 7 42 10 none_yet ≡ some c') × IsBounded c'
insert-IsBounded_example = insert-IsBounded some 7 42 10 none_yet (omega arith)

get-insert_example : (get 7 200 one_row).1 ≡ some 42
unfolding retained
get-insert_example =
    get-insert some 7 42 10 200 42 none_yet one_row none_yet-IsTimely refl refl (omega arith)
      (omega arith)

one_row-IsTimely : IsTimely 200 one_row
one_row-IsTimely = record { past = omega arith; in_order = (tt, tt) }
