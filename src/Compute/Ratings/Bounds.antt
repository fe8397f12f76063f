-- ===== src/Compute/Ratings/Bounds.antt =====
-- The size of the ratings, and the entries of a snapshot.
use grepmesh.Prelude.{
  ℕ, zero, suc, ◌+◌, ◌/◌, ◌≤◌, ◌<◌, ◌≡◌, refl, ap, ◌∙◌, Bool, true, false, some, is_some, String,
  List, [], ◌∷◌, ◌++◌, length, map, retain, any, is_empty, get_elem?, ◌==◌, string_ord, nat_ord,
  arith, Bool-cases, Option-cases, inl, inr, All, All-append, length-append,
}
use mathlib.Core.List.{reverse, reverse-cons}
use grepmesh.Compute.Ratings.{
  classes_limit, samples_limit, Sample, RatingClass, drop_stale, prune, find_class, class_or_new,
  refuses, remove_class, is_class, pop_full, push_sample, note_sample, record_sample, first_of,
  insert_sorted, sort, has_warm, chosen, rating_of,
}

nonempty_length : {A : Type 0} (xs : List A) → is_empty xs ≡ false → 1 ≤ length xs
nonempty_length [] h = absurd (cc)
nonempty_length (x ∷ xs) h = omega arith

length-pop_full-lt :
    {A : Type 0} (limit : ℕ) (xs : List A)
    → 1 ≤ limit
    → length xs ≤ limit
    → length (pop_full limit xs) + 1 ≤ limit
unfolding pop_full
length-pop_full-lt limit [] p h = omega arith
length-pop_full-lt limit (x ∷ xs) p h = ground arith

All-pop_full :
    {A : Type 0} (P : A → Type 0) (limit : ℕ) (xs : List A) → All P xs → All P (pop_full limit xs)
unfolding pop_full
All-pop_full P limit [] h = tt
All-pop_full P limit (x ∷ xs) h = elim (Bool-cases (length (x ∷ xs) == limit)) [
  | inl e ↦ rw (e, pop_full) h.1
  | inr e ↦ rw (e, pop_full) h
]

first_append : {A : Type 0} (x : A) (xs : List A) → (y : A) × (first_of (xs ++ x ∷ []) ≡ some y)
first_append x [] = (x, refl)
first_append x (y ∷ ys) = (y, refl)

first_reverse :
    {A : Type 0} (xs : List A) → 1 ≤ length xs → (x : A) × (first_of (reverse xs) ≡ some x)
first_reverse [] h = absurd (omega arith)
first_reverse (x ∷ xs) h =
    let (y, e) = first_append x (reverse xs) in (y, ap first_of (reverse-cons x xs) ∙ e)

length-map : {A B : Type 0} (f : A → B) (xs : List A) → length (map f xs) ≡ length xs
length-map f [] = refl
length-map f (x ∷ xs) = omega (arith, length-map f xs)

module _ {F : Type 0} where
  -- A class with a sample at least and `samples_limit` at most.
  abbrev pub IsClass : RatingClass F → Type 0
  IsClass c = (1 ≤ length c.samples) × (length c.samples ≤ samples_limit)

  pub record IsBounded (classes : List (RatingClass F)) : Type 0 where
    pub few : length classes ≤ classes_limit
    pub filled : All IsClass classes

  length-drop_stale-le : (now : ℕ) (ss : List (Sample F)) → length (drop_stale now ss) ≤ length ss
  unfolding drop_stale
  length-drop_stale-le now [] = omega arith
  length-drop_stale-le now (s ∷ ss) = ground (arith, length-drop_stale-le now ss)

  prune-IsBounded :
      (now : ℕ) (cs : List (RatingClass F))
      → IsBounded cs
      → (length (prune now cs) ≤ length cs) × All IsClass (prune now cs)
  unfolding prune
  prune-IsBounded now [] b = (omega arith, tt)
  prune-IsBounded now (c ∷ cs) b =
      let rest =
        prune-IsBounded now cs (record { few = omega (arith, b.few); filled = b.filled.1 }) in
      let shorter = length-drop_stale-le now c.samples in
      elim (Bool-cases (is_empty (drop_stale now c.samples))) [
        | inl e ↦ rw e (omega (arith, rest.0), rest.1)
        | inr e ↦
            let some_left = nonempty_length (drop_stale now c.samples) e in
            rw e (omega (arith, rest.0), ((some_left, omega (arith, b.filled.0.1)), rest.1))
      ]

  remove_class-IsBounded :
      (backend key : String) (cs : List (RatingClass F))
      → All IsClass cs
      → (length (remove_class backend key cs) ≤ length cs)
        × All IsClass (remove_class backend key cs)
  unfolding remove_class
  remove_class-IsBounded backend key [] h = (omega arith, tt)
  remove_class-IsBounded backend key (c ∷ cs) h =
      let rest = remove_class-IsBounded backend key cs h.1 in
      elim (Bool-cases (is_class backend key c)) [
        | inl e ↦ rw (e, remove_class) (omega arith, h.1)
        | inr e ↦ rw (e, remove_class) (omega (arith, rest.0), (h.0, rest.1))
      ]

  find_class-few :
      (backend key : String) (cs : List (RatingClass F)) (c : RatingClass F)
      → All IsClass cs
      → find_class backend key cs ≡ some c
      → length c.samples ≤ samples_limit
  unfolding find_class
  find_class-few backend key [] c h e = absurd (cc)
  find_class-few backend key (d ∷ cs) c h e = elim (Bool-cases (is_class backend key d)) [
    | inl same ↦ let found : d ≡ c = ground arith in rw (← found) h.0.1
    | inr other ↦ find_class-few backend key cs c h.1 (ground arith)
  ]

  push_sample-IsClass :
      (s : Sample F) (c : RatingClass F)
      → length c.samples ≤ samples_limit
      → IsClass (push_sample s c)
  unfolding push_sample
  push_sample-IsClass s c h =
      let room = length-pop_full-lt samples_limit c.samples (omega arith) h in
      let both = length-append (pop_full samples_limit c.samples) (s ∷ []) in
      (omega arith, omega arith)

  note_sample-IsBounded :
      (backend key : String) (s : Sample F) (cs : List (RatingClass F))
      → IsBounded cs
      → IsBounded (note_sample backend key s cs)
  unfolding note_sample
  note_sample-IsBounded backend key s cs b =
      let (shorter, filled) = remove_class-IsBounded backend key cs b.filled in
      let others = pop_full classes_limit (remove_class backend key cs) in
      let room =
        length-pop_full-lt classes_limit (remove_class backend key cs) (omega arith)
          (omega (arith, b.few)) in
      let new = push_sample s (class_or_new backend key (find_class backend key cs)) in
      let good : IsClass new =
        push_sample-IsClass s (class_or_new backend key (find_class backend key cs))
          (elim (Option-cases (find_class backend key cs)) [
            | inl fresh ↦ rw fresh (omega arith)
            | inr (c, e) ↦ rw e (find_class-few backend key cs c b.filled e)
          ]) in
      record {
        few = omega (arith, length-append others (new ∷ []));
        filled =
            All-append IsClass others (new ∷ [])
              (All-pop_full IsClass classes_limit (remove_class backend key cs) filled) (good, tt);
      }

  -- Ratings of at most `CLASSES` classes, each with a sample and at most `SAMPLES` of them, stay such
  -- ratings whatever is recorded.
  pub record_sample-IsBounded :
      (is_positive : F → Bool) (backend key : String) (seconds : F) (warm : Bool) (unix now : ℕ)
      (cs : List (RatingClass F))
      → IsBounded cs
      → IsBounded (record_sample is_positive backend key seconds warm unix now cs)
  unfolding record_sample
  record_sample-IsBounded is_positive backend key seconds warm unix now cs b =
      let (few, filled) = prune-IsBounded now cs b in
      let pruned : IsBounded (prune now cs) = record {
        few = omega (arith, b.few);
        filled = filled;
      } in
      let s : Sample F = record { at = now; seconds = seconds; warm = warm; unix = unix } in
      elim (Bool-cases (refuses is_positive backend key seconds)) [
        | inl refused ↦ rw (refused, record_sample) b
        | inr taken ↦
            rw (taken, record_sample) (note_sample-IsBounded backend key s (prune now cs) pruned)
      ]

  module _ (le : F → F → Bool) where
    length-insert_sorted : (x : F) (ys : List F) → length (insert_sorted le x ys) ≡ length ys + 1
    unfolding insert_sorted
    length-insert_sorted x [] = omega arith
    length-insert_sorted x (y ∷ ys) = ground (arith, length-insert_sorted x ys)

    length-sort : (xs : List F) → length (sort le xs) ≡ length xs
    unfolding sort
    length-sort [] = refl
    length-sort (x ∷ xs) = omega (arith, length-insert_sorted x (sort le xs), length-sort xs)

    some_warm :
        (ss : List (Sample F))
        → any (λ (s : Sample F). s.warm) ss ≡ true
        → 1 ≤ length (retain (λ (s : Sample F). s.warm) ss)
    some_warm [] h = absurd (cc)
    some_warm (s ∷ ss) h = elim (Bool-cases s.warm) [
      | inl e ↦ rw e (omega arith)
      | inr e ↦ rw e (some_warm ss (ground arith))
    ]

    all_stay : (ss : List (Sample F)) → retain (λ _. true) ss ≡ ss
    all_stay [] = refl
    all_stay (s ∷ ss) = ap (◌∷◌ s) (all_stay ss)

    -- A class with a sample has one of the kind that is chosen.
    chosen_some : (c : RatingClass F) → 1 ≤ length c.samples → 1 ≤ length (chosen le c)
    chosen_some c h = elim (Bool-cases (has_warm le c)) [
      | inl warm ↦ rw warm (some_warm c.samples warm)
      | inr cold ↦ rw (cold, all_stay c.samples) h
    ]

    get_elem_within : (n : ℕ) (xs : List F) → n < length xs → (x : F) × (get_elem? xs n ≡ some x)
    get_elem_within n [] h = absurd (omega arith)
    get_elem_within zero (x ∷ xs) h = (x, refl)
    get_elem_within (suc n) (x ∷ xs) h = get_elem_within n xs (omega arith)

    -- A class with a sample has an entry in the snapshot: neither the index of the median nor the
    -- last sample is ever missing.
    pub rating_of_total :
        (now : ℕ) (c : RatingClass F) → 1 ≤ length c.samples → is_some (rating_of le now c) ≡ true
    unfolding rating_of
    rating_of_total now c h =
        let some_chosen = chosen_some c h in
        let seconds = map (λ (s : Sample F). s.seconds) (chosen le c) in
        let n = length-sort seconds in
        let m : length seconds ≡ length (chosen le c) =
          length-map (λ (s : Sample F). s.seconds) (chosen le c) in
        let (median, found) =
          get_elem_within (length (sort le seconds) / 2) (sort le seconds) (omega arith) in
        let (last, e) = first_reverse (chosen le c) some_chosen in rw (found, e) refl
