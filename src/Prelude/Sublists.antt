-- ===== src/Prelude/Sublists.antt =====
-- Lists that keep the order of another, and the predicates that pass on to them.
use Prim.Native.Nat.{ℕ, zero, suc, ◌≤◌}
use native.Mathlib.Omega.{arith}
use mathlib.Core.Bool.{Bool, true, false}
use mathlib.Core.List.{List, [], ◌∷◌, ◌++◌, Memᴰ}
use grepmesh.Prelude.Tests.{if◌then◌else◌}
use grepmesh.Prelude.Lists.{All, All-append, retain, length, drop}

-- `Keeps ys xs`: `ys` is `xs` with some entries left out.
pub data Keeps {ℓ} {A : Type ℓ} : List A → List A → Type ℓ where
  done : Keeps [] []
  skip : {ys xs : List A} (x : A) → Keeps ys xs → Keeps ys (x ∷ xs)
  keep : {ys xs : List A} (x : A) → Keeps ys xs → Keeps (x ∷ ys) (x ∷ xs)

module _ {ℓ} {A : Type ℓ} where
  pub Keeps-refl : (xs : List A) → Keeps xs xs
  Keeps-refl [] = done
  Keeps-refl (x ∷ xs) = keep x (Keeps-refl xs)

  pub Keeps-nil : (xs : List A) → Keeps [] xs
  Keeps-nil [] = done
  Keeps-nil (x ∷ xs) = skip x (Keeps-nil xs)

  pub Keeps-retain : (p : A → Bool) (xs : List A) → Keeps (retain p xs) xs
  Keeps-retain p [] = done
  Keeps-retain p (x ∷ xs) = split (p x) (Keeps-retain p xs)
    where
      split :
          (b : Bool)
          → Keeps (retain p xs) xs
          → Keeps (if b then x ∷ retain p xs else retain p xs) (x ∷ xs)
      split true k = keep x k
      split false k = skip x k

  pub Keeps-trans : {ys xs zs : List A} → Keeps ys xs → Keeps zs ys → Keeps zs xs
  Keeps-trans done h = h
  Keeps-trans (skip x k) h = skip x (Keeps-trans k h)
  Keeps-trans (keep y k) (skip x h) = skip y (Keeps-trans k h)
  Keeps-trans (keep y k) (keep x h) = keep y (Keeps-trans k h)

  pub Mem-Keeps : {ys xs : List A} → Keeps ys xs → (a : A) → Memᴰ a ys → Memᴰ a xs
  Mem-Keeps done a m = m
  Mem-Keeps (skip x k) a m = Memᴰ.tail (Mem-Keeps k a m)
  Mem-Keeps (keep x k) a (Memᴰ.head e) = Memᴰ.head e
  Mem-Keeps (keep x k) a (Memᴰ.tail m) = Memᴰ.tail (Mem-Keeps k a m)

  pub All-Keeps {κ} : (P : A → Type κ) {ys xs : List A} → Keeps ys xs → All P xs → All P ys
  All-Keeps P done h = tt
  All-Keeps P (skip x k) h = All-Keeps P k h.1
  All-Keeps P (keep x k) h = (h.0, All-Keeps P k h.1)

  pub All-map {κ μ} :
      {P : A → Type κ} {Q : A → Type μ} (xs : List A) → ((a : A) → P a → Q a) → All P xs → All Q xs
  All-map [] f h = tt
  All-map (x ∷ xs) f h = (f x h.0, All-map xs f h.1)

  pub All-both {κ μ ν} :
      {P : A → Type κ} {Q : A → Type μ} {R : A → Type ν} (xs : List A)
      → ((a : A) → P a → Q a → R a)
      → All P xs
      → All Q xs
      → All R xs
  All-both [] f h k = tt
  All-both (x ∷ xs) f h k = (f x h.0 k.0, All-both xs f h.1 k.1)

  -- `R` from each entry to all later ones.
  abbrev pub Pairwise {κ} : (A → A → Type κ) → List A → Type κ
  Pairwise R [] = Unit
  Pairwise R (x ∷ xs) = All (R x) xs × Pairwise R xs

  pub Pairwise-Keeps {κ} :
      (R : A → A → Type κ) {ys xs : List A} → Keeps ys xs → Pairwise R xs → Pairwise R ys
  Pairwise-Keeps R done h = tt
  Pairwise-Keeps R (skip x k) h = Pairwise-Keeps R k h.1
  Pairwise-Keeps R (keep x k) h = (All-Keeps (R x) k h.0, Pairwise-Keeps R k h.1)

  pub Pairwise-snoc {κ} :
      (R : A → A → Type κ) (xs : List A) (y : A)
      → Pairwise R xs
      → All (λ x. R x y) xs
      → Pairwise R (xs ++ y ∷ [])
  Pairwise-snoc R [] y h k = (tt, tt)
  Pairwise-snoc R (x ∷ xs) y h k =
      (All-append (R x) xs (y ∷ []) h.0 (k.0, tt), Pairwise-snoc R xs y h.1 k.1)

pub Keeps-drop {ℓ} : {A : Type ℓ} (n : ℕ) (xs : List A) → Keeps (drop n xs) xs
Keeps-drop zero xs = Keeps-refl xs
Keeps-drop (suc n) [] = done
Keeps-drop (suc n) (x ∷ xs) = skip x (Keeps-drop n xs)

pub length-Keeps {ℓ} : {A : Type ℓ} {ys xs : List A} → Keeps ys xs → length ys ≤ length xs
length-Keeps done = omega arith
length-Keeps (skip x k) = omega (arith, length-Keeps k)
length-Keeps (keep x k) = omega (arith, length-Keeps k)

pub Keeps-front {ℓ} : {A : Type ℓ} (xs ys : List A) → Keeps xs (xs ++ ys)
Keeps-front [] ys = Keeps-nil ys
Keeps-front (x ∷ xs) ys = keep x (Keeps-front xs ys)
