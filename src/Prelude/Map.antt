-- ===== src/Prelude/Map.antt =====
-- `BTreeMap` as an association list in the order of its keys, and `BTreeSet` as a list of keys.
use Prim.Native.Nat.{ℕ, ◌+◌, ◌≤◌, ◌<◌, Ordering}
use mathlib.Core.Path.{◌≡◌, refl}
use mathlib.Core.Bool.{Bool, true, false, ◌||◌}
use mathlib.Core.Option.{Option, none, some}
use mathlib.Core.List.{List, [], ◌∷◌}
use native.Mathlib.Omega.{arith}
use grepmesh.Prelude.Tests.{if◌then◌else◌, leb, Bool-cases, Option-cases, is_some}
use grepmesh.Prelude.Sublists.{Keeps, done, skip, keep, All-map}
use mathlib.Core.Logic.{inl, inr}
use grepmesh.Prelude.Lists.{length, All}
use grepmesh.Prelude.Order.{Ord, ◌==◌, ==_iff}

abbrev pub BTreeMap {ℓ κ} : Type ℓ → Type κ → Type (ℓ ⊔ κ)
BTreeMap K V = List (K × V)

module _ {ℓ κ} {K : Type ℓ} {V : Type κ} ⦃o : Ord K⦄ where
  unfoldable pub get : K → BTreeMap K V → Option V
  get k [] = none
  get k ((j, v) ∷ m) = if k == j then some v else get k m

  unfoldable pub contains_key : K → BTreeMap K V → Bool
  contains_key k [] = false
  contains_key k ((j, v) ∷ m) = (k == j) || contains_key k m

  unfoldable pub insert : K → V → BTreeMap K V → BTreeMap K V
  insert k v [] = (k, v) ∷ []
  insert k v ((j, w) ∷ m) =
      let rest = (j, w) ∷ insert k v m in
      elim (o.cmp k j) [
        | Ordering.lt ↦ (k, v) ∷ (j, w) ∷ m
        | Ordering.eq ↦ (k, v) ∷ m
        | Ordering.gt ↦ rest
      ]

  unfoldable pub remove : K → BTreeMap K V → BTreeMap K V
  remove k [] = []
  remove k ((j, w) ∷ m) = let rest = remove k m in if k == j then rest else (j, w) ∷ rest

  pub get-insert :
      (k j : K) (v : V) (m : BTreeMap K V)
      → get j (insert k v m) ≡ (if j == k then some v else get j m)
  unfolding get insert
  get-insert k j v [] = refl
  get-insert k j v ((i, w) ∷ m) =
      ground (arith, get-insert k j v m, ==_iff j k, ==_iff j i, o.eq_of_cmp k i, o.cmp_refl k)

  pub get-remove :
      (k j : K) (m : BTreeMap K V) → get j (remove k m) ≡ (if j == k then none else get j m)
  unfolding get remove
  get-remove k j [] = ground arith
  get-remove k j ((i, w) ∷ m) = ground (arith, get-remove k j m, ==_iff j k, ==_iff j i, ==_iff k i)

  pub length-insert-le : (k : K) (v : V) (m : BTreeMap K V) → length (insert k v m) ≤ length m + 1
  unfolding insert
  length-insert-le k v [] = omega arith
  length-insert-le k v ((j, w) ∷ m) = ground (arith, length-insert-le k v m)

  pub length-remove-le : (k : K) (m : BTreeMap K V) → length (remove k m) ≤ length m
  unfolding remove
  length-remove-le k [] = omega arith
  length-remove-le k ((j, w) ∷ m) = ground (arith, length-remove-le k m)

  pub contains_key-insert :
      (k j : K) (v : V) (m : BTreeMap K V)
      → contains_key j (insert k v m) ≡ (contains_key j m || (j == k))
  unfolding contains_key insert
  contains_key-insert k j v [] = ground arith
  contains_key-insert k j v ((i, w) ∷ m) =
      ground (arith, contains_key-insert k j v m, ==_iff j k, ==_iff j i, o.eq_of_cmp k i)

  pub contains_key-get : (k : K) (m : BTreeMap K V) → contains_key k m ≡ false → get k m ≡ none
  unfolding contains_key get
  contains_key-get k [] h = refl
  contains_key-get k ((j, w) ∷ m) h = ground (arith, contains_key-get k m)

  pub contains_key-is_some : (k : K) (m : BTreeMap K V) → contains_key k m ≡ is_some (get k m)
  unfolding contains_key get
  contains_key-is_some k [] = refl
  contains_key-is_some k ((j, w) ∷ m) = ground (arith, contains_key-is_some k m)

  pub remove-Keeps : (k : K) (m : BTreeMap K V) → Keeps (remove k m) m
  unfolding remove
  remove-Keeps k [] = done
  remove-Keeps k ((j, w) ∷ m) = elim (Bool-cases (k == j)) [
    | inl e ↦ rw e (skip (j, w) (remove-Keeps k m))
    | inr e ↦ rw e (keep (j, w) (remove-Keeps k m))
  ]

  -- No entry with the key is left.
  pub remove-All : (k : K) (m : BTreeMap K V) → All (λ e. (k == e.0) ≡ false) (remove k m)
  unfolding remove
  remove-All k [] = tt
  remove-All k ((j, w) ∷ m) = elim (Bool-cases (k == j)) [
    | inl e ↦ rw e (remove-All k m)
    | inr e ↦ rw e (e, remove-All k m)
  ]

  pub length-remove-lt :
      (k : K) (m : BTreeMap K V) → contains_key k m ≡ true → length (remove k m) < length m
  unfolding remove contains_key
  length-remove-lt k [] h = absurd (cc)
  length-remove-lt k ((j, w) ∷ m) h = ground (arith, length-remove-le k m, length-remove-lt k m)

-- `iter().min_by_key(..).map(|(id, _)| id.clone())`, with the least value: the first such key.
abbrev pub older {ℓ} : {K : Type ℓ} → K × ℕ → Option (K × ℕ) → K × ℕ
older e none = e
older e (some f) = if leb e.1 f.1 then e else f

module _ {ℓ κ} {K : Type ℓ} {V : Type κ} ⦃o : Ord K⦄ (key : V → ℕ) where
  unfoldable pub oldest : BTreeMap K V → Option (K × ℕ)
  oldest [] = none
  oldest ((k, v) ∷ rest) = some (older (k, key v) (oldest rest))

  pub oldest-contains :
      (m : BTreeMap K V) (e : K × ℕ) → oldest m ≡ some e → contains_key e.0 m ≡ true
  unfolding oldest contains_key
  oldest-contains [] e h = absurd (cc)
  oldest-contains ((k, v) ∷ rest) e h = elim (Option-cases (oldest rest)) [
    | inl last ↦ let same : k ≡ e.0 = ground arith in ground (arith, ==_iff e.0 k)
    | inr (f, more) ↦ ground (arith, ==_iff e.0 k, oldest-contains rest f more)
  ]

  pub oldest-eq-none : (m : BTreeMap K V) → oldest m ≡ none → m ≡ []
  unfolding oldest
  oldest-eq-none [] h = refl
  oldest-eq-none ((k, v) ∷ rest) h = absurd (cc)

  -- No value has a smaller key than the one that is found.
  pub oldest-least : (m : BTreeMap K V) (e : K × ℕ) → oldest m ≡ some e → All (λ f. e.1 ≤ key f.1) m
  unfolding oldest
  oldest-least [] e h = tt
  oldest-least ((k, v) ∷ rest) e h = elim (Option-cases (oldest rest)) [
    | inl last ↦ (ground arith, let empty : rest ≡ [] = oldest-eq-none rest last in rw empty tt)
    | inr (f, more) ↦
        let below : e.1 ≤ f.1 = ground arith in
        (
          ground arith,
          All-map {Q = λ (g : K × V). e.1 ≤ key g.1} rest (λ g (le : f.1 ≤ key g.1). omega arith)
              (oldest-least rest f more),
        )
  ]
