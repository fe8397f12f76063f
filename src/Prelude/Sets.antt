-- ===== src/Prelude/Sets.antt =====
-- `BTreeSet` where its order is never observed: a list of keys, with the test that `insert` makes.
use mathlib.Core.Path.{◌≡◌, refl, ap, ◌∙◌}
use mathlib.Core.Bool.{Bool, true, false, not, ◌&&◌, ◌||◌}
use mathlib.Core.List.{List, [], ◌∷◌, ◌++◌}
use Prim.Native.Nat.{Ordering}
use grepmesh.Prelude.Lists.{retain}
use native.Mathlib.Omega.{arith}
use grepmesh.Prelude.Tests.{if◌then◌else◌}
use grepmesh.Prelude.Order.{Ord, ◌==◌, ==_iff}

module _ {ℓ} {K : Type ℓ} ⦃o : Ord K⦄ where
  unfoldable pub contains : K → List K → Bool
  contains k [] = false
  contains k (j ∷ s) = (k == j) || contains k s

  -- What `insert` leaves; it returns `not (contains k s)`.
  unfoldable pub add : K → List K → List K
  add k s = if contains k s then s else k ∷ s

  pub contains-add : (j k : K) (s : List K) → contains j (add k s) ≡ ((j == k) || contains j s)
  unfolding add contains
  contains-add j k s = ground (arith, ==_iff j k)

  pub contains-add_mono : (j k : K) (s : List K) → contains j s ≡ true → contains j (add k s) ≡ true
  contains-add_mono j k s h = ground (arith, contains-add j k s)

  pub contains-add_self : (k : K) (s : List K) → contains k (add k s) ≡ true
  contains-add_self k s = ground (arith, contains-add k k s, ==_iff k k)

  -- A set whose order is observed: `insert`, `collect` and `remove` keep the keys sorted.
  unfoldable pub insert_key : K → List K → List K
  insert_key k [] = k ∷ []
  insert_key k (j ∷ s) =
      let later = j ∷ insert_key k s in
      elim (o.cmp k j) [ Ordering.lt ↦ k ∷ j ∷ s | Ordering.eq ↦ j ∷ s | Ordering.gt ↦ later ]

  unfoldable pub collect : List K → List K
  unfolding insert_key
  collect [] = []
  collect (k ∷ ks) = insert_key k (collect ks)

  unfoldable pub remove_key : K → List K → List K
  remove_key k = retain (λ j. not (j == k))

  pub contains-insert_key :
      (j k : K) (s : List K) → contains j (insert_key k s) ≡ ((j == k) || contains j s)
  unfolding insert_key contains
  contains-insert_key j k [] = refl
  contains-insert_key j k (i ∷ s) =
      ground (arith, contains-insert_key j k s, o.eq_of_cmp k i, ==_iff j k, ==_iff j i)

  pub contains-collect : (j : K) (ks : List K) → contains j (collect ks) ≡ contains j ks
  unfolding collect contains
  contains-collect j [] = refl
  contains-collect j (k ∷ ks) =
      contains-insert_key j k (collect ks) ∙ ap (λ b. (j == k) || b) (contains-collect j ks)

  pub contains-remove_key :
      (j k : K) (s : List K) → contains j (remove_key k s) ≡ (not (j == k) && contains j s)
  unfolding remove_key contains
  contains-remove_key j k [] = ground arith
  contains-remove_key j k (i ∷ s) =
      ground (arith, contains-remove_key j k s, ==_iff j i, ==_iff j k, ==_iff i k)

  pub contains-append :
      (j : K) (xs ys : List K) → contains j (xs ++ ys) ≡ (contains j xs || contains j ys)
  unfolding contains
  contains-append j [] ys = refl
  contains-append j (x ∷ xs) ys = ground (arith, contains-append j xs ys)

  pub contains-retain :
      (j : K) (keep : K → Bool) (s : List K) → contains j (retain keep s) ≡ (keep j && contains j s)
  unfolding contains
  contains-retain j keep [] = ground arith
  contains-retain j keep (i ∷ s) = ground (arith, contains-retain j keep s, ==_iff j i)
