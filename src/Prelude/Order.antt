-- ===== src/Prelude/Order.antt =====
-- The bound `K: Ord` of the ordered maps, with the laws that the trait promises of `cmp`.
use Prim.Native.Nat.{ℕ, compare as compare_nat, Ordering}
use Prim.Native.String.{String, [], ◌∷◌, compare}
use Prim.Native.String.compare
use mathlib.Core.Path.{◌≡◌, refl, ap}
use mathlib.Core.Option.{Option, none, some}
use mathlib.Core.Logic.{◌↔◌, ◌≢◌}
use mathlib.Core.Bool.{Bool, true, false}
use mathlib.Core.List.{List, [], ◌∷◌}
use text.Mathlib.TextEquality.{path_by_compare}
use text.Mathlib.TextPositions.{compare_refl}
use native.Mathlib.Omega.{arith}

pub record Ord {ℓ} (K : Type ℓ) : Type ℓ where
  pub cmp : K → K → Ordering
  pub cmp_refl : (a : K) → cmp a a ≡ Ordering.eq
  pub eq_of_cmp : (a b : K) → cmp a b ≡ Ordering.eq → a ≡ b
  pub cmp_flip : (a b : K) → cmp a b ≡ Ordering.gt → cmp b a ≡ Ordering.lt
  pub cmp_trans :
      (a b c : K) → cmp a b ≡ Ordering.lt → cmp b c ≡ Ordering.lt → cmp a c ≡ Ordering.lt

abbrev pub is_eq : Ordering → Bool
is_eq Ordering.eq = true
is_eq _ = false

-- The equality that an order decides.
infix 50 ◌==◌
abbrev pub ◌==◌ {ℓ} : {K : Type ℓ} ⦃o : Ord K⦄ → K → K → Bool
◌==◌ ⦃o⦄ a b = is_eq (o.cmp a b)

pub nat_cmp_trans :
    (a b c : ℕ)
    → compare_nat a b ≡ Ordering.lt
    → compare_nat b c ≡ Ordering.lt
    → compare_nat a c ≡ Ordering.lt
nat_cmp_trans a b c h k = ground arith

pub nat_eq_of_cmp : (a b : ℕ) → compare_nat a b ≡ Ordering.eq → a ≡ b
nat_eq_of_cmp a b h = ground arith

pub nat_cmp_flip : (a b : ℕ) → compare_nat a b ≡ Ordering.gt → compare_nat b a ≡ Ordering.lt
nat_cmp_flip a b h = ground arith

pub nat_cmp_refl : (a : ℕ) → compare_nat a a ≡ Ordering.eq
nat_cmp_refl a = ground arith

instance abbrev pub nat_ord : Ord ℕ
nat_ord = record {
  cmp = compare_nat;
  cmp_refl = nat_cmp_refl;
  eq_of_cmp = nat_eq_of_cmp;
  cmp_flip = nat_cmp_flip;
  cmp_trans = nat_cmp_trans;
}

pub str_cmp_flip : (s t : String) → compare s t ≡ Ordering.gt → compare t s ≡ Ordering.lt
str_cmp_flip [] [] h = ground arith
str_cmp_flip [] (d ∷ t) h = ground (arith, compare.nil-cons d t)
str_cmp_flip (c ∷ s) [] h = compare.nil-cons c s
str_cmp_flip (c ∷ s) (d ∷ t) h =
    ground (arith, compare.cons-cons c d s t, compare.cons-cons d c t s, str_cmp_flip s t)

str_cmp_not_lt_nil : (s : String) → compare s [] ≢ Ordering.lt
str_cmp_not_lt_nil [] h = ground (arith, compare.nil-nil)
str_cmp_not_lt_nil (c ∷ s) h = ground (arith, compare.cons-nil c s)

pub str_cmp_trans :
    (s t u : String)
    → compare s t ≡ Ordering.lt
    → compare t u ≡ Ordering.lt
    → compare s u ≡ Ordering.lt
str_cmp_trans s [] u h k = ground (arith, str_cmp_not_lt_nil s)
str_cmp_trans [] (d ∷ t) [] h k = ground (arith, compare.cons-nil d t)
str_cmp_trans (c ∷ s) (d ∷ t) [] h k = ground (arith, compare.cons-nil d t)
str_cmp_trans [] (d ∷ t) (e ∷ u) h k = compare.nil-cons e u
str_cmp_trans (c ∷ s) (d ∷ t) (e ∷ u) h k = ground (
  arith,
  compare.cons-cons c d s t,
  compare.cons-cons d e t u,
  compare.cons-cons c e s u,
  str_cmp_trans s t u,
)

instance unfoldable pub string_ord : Ord String
string_ord = record {
  cmp = compare;
  cmp_refl = compare_refl;
  eq_of_cmp = path_by_compare;
  cmp_flip = str_cmp_flip;
  cmp_trans = str_cmp_trans;
}

module _ {ℓ} {K : Type ℓ} ⦃o : Ord K⦄ where
  pub ==_iff : (a b : K) → ((a == b) ≡ true) ↔ (a ≡ b)
  ==_iff a b = (λ h. ground (arith, o.eq_of_cmp a b), λ e. ground (arith, o.cmp_refl a))

  pub ==_refl : (a : K) → (a == a) ≡ true
  ==_refl a = ground (arith, o.cmp_refl a)

-- Tuples compare by their first difference, and `None` comes before `Some`.
abbrev pub first_difference : Ordering → Ordering → Ordering
first_difference Ordering.eq later = later
first_difference Ordering.lt later = Ordering.lt
first_difference Ordering.gt later = Ordering.gt

module _ {ℓ κ} {A : Type ℓ} {B : Type κ} ⦃a : Ord A⦄ ⦃b : Ord B⦄ where
  abbrev pub pair_cmp : A × B → A × B → Ordering
  pair_cmp x y = first_difference (a.cmp x.0 y.0) (b.cmp x.1 y.1)

  pub pair_cmp_refl : (x : A × B) → pair_cmp x x ≡ Ordering.eq
  pair_cmp_refl x = ground (arith, a.cmp_refl x.0, b.cmp_refl x.1)

  pub pair_eq_of_cmp : (x y : A × B) → pair_cmp x y ≡ Ordering.eq → x ≡ y
  pair_eq_of_cmp x y h = ground (arith, a.eq_of_cmp x.0 y.0, b.eq_of_cmp x.1 y.1)

  pub pair_cmp_flip : (x y : A × B) → pair_cmp x y ≡ Ordering.gt → pair_cmp y x ≡ Ordering.lt
  pair_cmp_flip x y h =
      ground (arith, a.eq_of_cmp x.0 y.0, a.cmp_flip x.0 y.0, a.cmp_refl x.0, b.cmp_flip x.1 y.1)

  pub pair_cmp_trans :
      (x y z : A × B)
      → pair_cmp x y ≡ Ordering.lt
      → pair_cmp y z ≡ Ordering.lt
      → pair_cmp x z ≡ Ordering.lt
  pair_cmp_trans x y z h k = ground (
    arith,
    a.eq_of_cmp x.0 y.0,
    a.eq_of_cmp y.0 z.0,
    a.cmp_trans x.0 y.0 z.0,
    b.cmp_trans x.1 y.1 z.1,
  )

  instance unfoldable pub pair_ord : Ord (A × B)
  pair_ord = record {
    cmp = pair_cmp;
    cmp_refl = pair_cmp_refl;
    eq_of_cmp = pair_eq_of_cmp;
    cmp_flip = pair_cmp_flip;
    cmp_trans = pair_cmp_trans;
  }

module _ {ℓ} {A : Type ℓ} ⦃a : Ord A⦄ where
  abbrev pub option_cmp : Option A → Option A → Ordering
  option_cmp none none = Ordering.eq
  option_cmp none (some y) = Ordering.lt
  option_cmp (some x) none = Ordering.gt
  option_cmp (some x) (some y) = a.cmp x y

  pub option_cmp_refl : (x : Option A) → option_cmp x x ≡ Ordering.eq
  option_cmp_refl none = refl
  option_cmp_refl (some x) = a.cmp_refl x

  pub option_eq_of_cmp : (x y : Option A) → option_cmp x y ≡ Ordering.eq → x ≡ y
  option_eq_of_cmp (some x) (some y) h = ap some (a.eq_of_cmp x y h)
  option_eq_of_cmp x y h = ground arith

  pub option_cmp_flip :
      (x y : Option A) → option_cmp x y ≡ Ordering.gt → option_cmp y x ≡ Ordering.lt
  option_cmp_flip (some x) (some y) h = a.cmp_flip x y h
  option_cmp_flip x y h = ground arith

  pub option_cmp_trans :
      (x y z : Option A)
      → option_cmp x y ≡ Ordering.lt
      → option_cmp y z ≡ Ordering.lt
      → option_cmp x z ≡ Ordering.lt
  option_cmp_trans (some x) (some y) (some z) h k = a.cmp_trans x y z h k
  option_cmp_trans x y z h k = ground arith

  instance unfoldable pub option_ord : Ord (Option A)
  option_ord = record {
    cmp = option_cmp;
    cmp_refl = option_cmp_refl;
    eq_of_cmp = option_eq_of_cmp;
    cmp_flip = option_cmp_flip;
    cmp_trans = option_cmp_trans;
  }

-- Sequences compare by their first difference, and a front comes before what it is a front of.
module _ {ℓ} {A : Type ℓ} ⦃a : Ord A⦄ where
  unfoldable pub list_cmp : List A → List A → Ordering
  list_cmp [] [] = Ordering.eq
  list_cmp [] (y ∷ ys) = Ordering.lt
  list_cmp (x ∷ xs) [] = Ordering.gt
  list_cmp (x ∷ xs) (y ∷ ys) = first_difference (a.cmp x y) (list_cmp xs ys)

  pub list_cmp_refl : (xs : List A) → list_cmp xs xs ≡ Ordering.eq
  unfolding list_cmp
  list_cmp_refl [] = refl
  list_cmp_refl (x ∷ xs) = ground (arith, a.cmp_refl x, list_cmp_refl xs)

  pub list_eq_of_cmp : (xs ys : List A) → list_cmp xs ys ≡ Ordering.eq → xs ≡ ys
  unfolding list_cmp
  list_eq_of_cmp [] [] h = refl
  list_eq_of_cmp [] (y ∷ ys) h = ground arith
  list_eq_of_cmp (x ∷ xs) [] h = ground arith
  list_eq_of_cmp (x ∷ xs) (y ∷ ys) h = ground (arith, a.eq_of_cmp x y, list_eq_of_cmp xs ys)

  pub list_cmp_flip : (xs ys : List A) → list_cmp xs ys ≡ Ordering.gt → list_cmp ys xs ≡ Ordering.lt
  unfolding list_cmp
  list_cmp_flip [] [] h = ground arith
  list_cmp_flip [] (y ∷ ys) h = ground arith
  list_cmp_flip (x ∷ xs) [] h = refl
  list_cmp_flip (x ∷ xs) (y ∷ ys) h =
      ground (arith, a.eq_of_cmp x y, a.cmp_flip x y, a.cmp_refl x, list_cmp_flip xs ys)

  not_lt_nil : (xs : List A) → list_cmp xs [] ≢ Ordering.lt
  unfolding list_cmp
  not_lt_nil [] h = absurd (cc)
  not_lt_nil (x ∷ xs) h = absurd (cc)

  pub list_cmp_trans :
      (xs ys zs : List A)
      → list_cmp xs ys ≡ Ordering.lt
      → list_cmp ys zs ≡ Ordering.lt
      → list_cmp xs zs ≡ Ordering.lt
  unfolding list_cmp
  list_cmp_trans xs ys [] h k = absurd (not_lt_nil ys k)
  list_cmp_trans [] ys (z ∷ zs) h k = refl
  list_cmp_trans (x ∷ xs) [] (z ∷ zs) h k = ground arith
  list_cmp_trans (x ∷ xs) (y ∷ ys) (z ∷ zs) h k =
      ground (arith, a.eq_of_cmp x y, a.eq_of_cmp y z, a.cmp_trans x y z, list_cmp_trans xs ys zs)

  instance unfoldable pub list_ord : Ord (List A)
  list_ord = record {
    cmp = list_cmp;
    cmp_refl = list_cmp_refl;
    eq_of_cmp = list_eq_of_cmp;
    cmp_flip = list_cmp_flip;
    cmp_trans = list_cmp_trans;
  }
