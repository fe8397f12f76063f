-- ===== src/Compute/Ratings.antt =====
-- `Ratings` of src/compute_ratings.rs: the times of recent jobs, by backend and task class.
-- `F` stands for `f64`, `is_positive` for `is_finite() && > 0.0`, `le` for `total_cmp` being at most
-- equal, and `invert` for `1.0 / x`. `now` is the monotonic clock in seconds.
pub mod Bounds
use Prim.Native.String.{len}
use grepmesh.Prelude.{
  ℕ, ◌+◌, ◌-◌, ◌/◌, Bool, true, false, not, ◌&&◌, ◌||◌, Option, none, some, String, List, [], ◌∷◌,
  ◌++◌, length, map, retain, any, is_empty, leb, ltb, if◌then◌else◌, get_elem?, ◌==◌, string_ord,
  nat_ord,
}
use mathlib.Core.List.{reverse}
use grepmesh.Prelude.Text.{codes, starts_with}

abbrev pub classes_limit : ℕ
classes_limit = 16

abbrev pub samples_limit : ℕ
samples_limit = 16

abbrev pub ratings_ttl : ℕ
ratings_ttl = 1800

pub record Sample (F : Type 0) : Type 0 where
  pub at : ℕ
  pub seconds : F
  pub warm : Bool
  pub unix : ℕ

pub record RatingClass (F : Type 0) : Type 0 where
  pub backend : String
  pub key : String
  pub samples : List (Sample F)

-- The entry of a class in the snapshot; the fixed texts and the score `1 / median` are left to it.
pub record Rating (F : Type 0) : Type 0 where
  pub key : String
  pub median_seconds : F
  pub observations : ℕ
  pub warm : Bool
  pub observed_at : ℕ
  pub sample_age_seconds : ℕ

-- `pop_front` when the queue is full
unfoldable pub pop_full {ℓ} : {A : Type ℓ} → ℕ → List A → List A
pop_full limit [] = []
pop_full limit (x ∷ xs) = if length (x ∷ xs) == limit then xs else x ∷ xs

abbrev pub first_of {ℓ} : {A : Type ℓ} → List A → Option A
first_of [] = none
first_of (x ∷ xs) = some x

module _ {F : Type 0} where
  unfoldable pub drop_stale : ℕ → List (Sample F) → List (Sample F)
  drop_stale now [] = []
  drop_stale now (s ∷ rest) =
      let later = drop_stale now rest in if leb ratings_ttl (now - s.at) then later else s ∷ rest

  unfoldable pub prune : ℕ → List (RatingClass F) → List (RatingClass F)
  unfolding drop_stale
  prune now classes =
      retain (λ (c : RatingClass F). not (is_empty c.samples))
        (map (λ (c : RatingClass F). record c { samples = drop_stale now c.samples }) classes)

  abbrev pub is_class : String → String → RatingClass F → Bool
  is_class backend key c = (c.backend == backend) && (c.key == key)

  -- `position` and `remove`
  unfoldable pub find_class : String → String → List (RatingClass F) → Option (RatingClass F)
  find_class backend key [] = none
  find_class backend key (c ∷ cs) =
      let later = find_class backend key cs in if is_class backend key c then some c else later

  unfoldable pub remove_class : String → String → List (RatingClass F) → List (RatingClass F)
  remove_class backend key [] = []
  remove_class backend key (c ∷ cs) =
      let later = c ∷ remove_class backend key cs in if is_class backend key c then cs else later

  unfoldable pub push_sample : Sample F → RatingClass F → RatingClass F
  unfolding pop_full
  push_sample s c = record c { samples = pop_full samples_limit c.samples ++ s ∷ [] }

  abbrev pub class_or_new : String → String → Option (RatingClass F) → RatingClass F
  class_or_new backend key none = record { backend = backend; key = key; samples = [] }
  class_or_new backend key (some c) = c

  -- A job's time goes into the class, which becomes the last one.
  unfoldable pub note_sample :
      String → String → Sample F → List (RatingClass F) → List (RatingClass F)
  unfolding find_class remove_class push_sample
  note_sample backend key s classes =
      pop_full classes_limit (remove_class backend key classes)
      ++ push_sample s (class_or_new backend key (find_class backend key classes)) ∷ []

  module _ (is_positive : F → Bool) where
    abbrev is_backend : String → Bool
    is_backend b = (b == "cpu") || (b == "cuda") || (b == "coreml")

    -- What is not recorded.
    unfoldable pub refuses : String → String → F → Bool
    unfolding starts_with
    refuses backend key seconds =
        not (is_backend backend)
        || ltb 80 (len key)
        || not (starts_with (codes key) (codes "ocr:"))
        || not (is_positive seconds)

    unfoldable pub record_sample :
        String → String → F → Bool → ℕ → ℕ → List (RatingClass F) → List (RatingClass F)
    unfolding prune note_sample refuses
    record_sample backend key seconds warm unix now classes =
        let s : Sample F = record { at = now; seconds = seconds; warm = warm; unix = unix } in
        if refuses backend key seconds
        then classes
        else note_sample backend key s (prune now classes)

  module _ (le : F → F → Bool) where
    unfoldable pub insert_sorted : F → List F → List F
    insert_sorted x [] = x ∷ []
    insert_sorted x (y ∷ ys) =
        let later = y ∷ insert_sorted x ys in if le x y then x ∷ y ∷ ys else later

    unfoldable pub sort : List F → List F
    unfolding insert_sorted
    sort [] = []
    sort (x ∷ xs) = insert_sorted x (sort xs)

    abbrev pub has_warm : RatingClass F → Bool
    has_warm c = any (λ (s : Sample F). s.warm) c.samples

    abbrev pub chosen : RatingClass F → List (Sample F)
    chosen c = retain (λ (s : Sample F). not (has_warm c) || s.warm) c.samples

    abbrev rate : ℕ → RatingClass F → ℕ → Option F → Option (Sample F) → Option (Rating F)
    rate now c n none last = none
    rate now c n (some median) none = none
    rate now c n (some median) (some last) = some (record {
      key = c.key;
      median_seconds = median;
      observations = n;
      warm = has_warm c;
      observed_at = last.unix;
      sample_age_seconds = now - last.at;
    })

    -- The entry of one class, none where an index is out of range or nothing is unwrapped.
    unfoldable pub rating_of : ℕ → RatingClass F → Option (Rating F)
    unfolding sort
    rating_of now c =
        let seconds = sort (map (λ (s : Sample F). s.seconds) (chosen c)) in
        rate now c (length seconds) (get_elem? seconds (length seconds / 2))
          (first_of (reverse (chosen c)))

    unfoldable pub snapshot :
        String → ℕ → List (RatingClass F) → List (RatingClass F) × List (Option (Rating F))
    unfolding prune rating_of
    snapshot backend now classes =
        let left = prune now classes in
        (left, map (rating_of now) (retain (λ (c : RatingClass F). c.backend == backend) left))
