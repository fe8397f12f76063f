-- ===== src/Jobs/Store/Budget.antt =====
-- The budget of the artifact directory, `enforce_store_budget` of src/jobs.rs.
use grepmesh.Prelude.{
  ℕ, ◌-◌, ◌≤◌, ◌≡◌, refl, sym, subst, ◌∙◌, ap, Bool, true, false, String, Option, retain, All,
  All-map, pair_ord, nat_ord, string_ord, List, [], ◌∷◌, ◌++◌, length, sum_by, ltb, ◌||◌,
  Bool-cases, inl, inr, arith,
}
use grepmesh.Jobs.Result.{ok}
use grepmesh.Jobs.State.{PersistedSearchJob, max_jobs}
use grepmesh.Jobs.Store.{
  Artifact, JobPersistence, file_bytes, evict_files, sort_files, insert_file, file_key, is_after,
  enforce_store_budget,
}

module _ {F : Type 0} where
  abbrev pub created : Artifact F → ℕ
  created a = a.content.created_ms

  -- by the time of creation
  abbrev IsSorted : List (Artifact F) → Type 0
  IsSorted [] = Unit
  IsSorted (a ∷ rest) = All (λ (b : Artifact F). created a ≤ created b) rest × IsSorted rest

  abbrev is_later : Artifact F → Artifact F → Bool
  is_later a b = is_after ((pair_ord {A = ℕ} {B = String}).cmp (file_key a) (file_key b))

  after_created : (a b : Artifact F) → is_later a b ≡ true → created b ≤ created a
  unfolding pair_ord
  after_created a b h = ground arith

  before_created : (a b : Artifact F) → is_later a b ≡ false → created a ≤ created b
  unfolding pair_ord
  before_created a b h = ground arith

  insert_file-All :
      (P : Artifact F → Type 0) (a : Artifact F) (files : List (Artifact F))
      → P a
      → All P files
      → All P (insert_file a files)
  unfolding insert_file
  insert_file-All P a [] p all = (p, tt)
  insert_file-All P a (b ∷ rest) p (q, all) = elim (Bool-cases (is_later a b)) [
    | inl c ↦ rw c (q, insert_file-All P a rest p all)
    | inr c ↦ rw c (p, (q, all))
  ]

  insert_file-IsSorted :
      (a : Artifact F) (files : List (Artifact F)) → IsSorted files → IsSorted (insert_file a files)
  unfolding insert_file
  insert_file-IsSorted a [] h = (tt, tt)
  insert_file-IsSorted a (b ∷ rest) (least, h) = elim (Bool-cases (is_later a b)) [
    | inl c ↦ rw c (
      insert_file-All (λ n. created b ≤ created n) a rest (after_created a b c) least,
      insert_file-IsSorted a rest h,
    )
    | inr c ↦
        let first = before_created a b c in
        rw c ((first, All-map rest (λ n le. omega arith) least), (least, h))
  ]

  sort_files-IsSorted : (files : List (Artifact F)) → IsSorted (sort_files files)
  unfolding sort_files
  sort_files-IsSorted [] = tt
  sort_files-IsSorted (a ∷ rest) =
      insert_file-IsSorted a (sort_files rest) (sort_files-IsSorted rest)

  insert_file_count :
      (p : Artifact F → Bool) (a : Artifact F) (files : List (Artifact F))
      → length (retain p (insert_file a files)) ≡ length (retain p (a ∷ files))
  unfolding insert_file
  insert_file_count p a [] = refl
  insert_file_count p a (b ∷ rest) = ground (arith, insert_file_count p a rest)

  sort_files_count :
      (p : Artifact F → Bool) (files : List (Artifact F))
      → length (retain p (sort_files files)) ≡ length (retain p files)
  unfolding sort_files
  sort_files_count p [] = refl
  sort_files_count p (a ∷ rest) =
      insert_file_count p a (sort_files rest) ∙ ground (arith, sort_files_count p rest)

  All-append_right :
      (P : Artifact F → Type 0) (xs ys : List (Artifact F)) → All P (xs ++ ys) → All P ys
  All-append_right P [] ys all = all
  All-append_right P (x ∷ xs) ys (p, all) = All-append_right P xs ys all

  sorted_append :
      (xs ys : List (Artifact F))
      → IsSorted (xs ++ ys)
      → All (λ (x : Artifact F). All (λ (y : Artifact F). created x ≤ created y) ys) xs
  sorted_append [] ys h = tt
  sorted_append (x ∷ xs) ys (least, h) =
      (All-append_right (λ y. created x ≤ created y) xs ys least, sorted_append xs ys h)

module _ {F : Type 0} (encode : PersistedSearchJob F → Option ℕ) where
  -- A directory of these files is beyond a budget.
  abbrev is_over : ℕ → List (Artifact F) → Bool
  is_over max_bytes files =
      ltb max_jobs (length files) || ltb max_bytes (sum_by (file_bytes encode) files)

  -- Before each file that was dropped the directory was beyond a budget.
  abbrev Needed : ℕ → List (Artifact F) → List (Artifact F) → Type 0
  Needed max_bytes [] left = Unit
  Needed max_bytes (a ∷ dropped) left =
      (is_over max_bytes (a ∷ dropped ++ left) ≡ true) × Needed max_bytes dropped left

  -- The files that stay are the last ones of the order, and both budgets hold of them.
  pub record Budgeted (max_bytes : ℕ) (files left : List (Artifact F)) : Type 0 where
    pub dropped : List (Artifact F)
    pub suffix : files ≡ dropped ++ left
    pub needed : Needed max_bytes dropped left
    pub few : length left ≤ max_jobs
    pub light : sum_by (file_bytes encode) left ≤ max_bytes

  over_of :
      (max_bytes total : ℕ) (a : Artifact F) (rest files : List (Artifact F))
      → rest ≡ files
      → total ≡ sum_by (file_bytes encode) (a ∷ rest)
      → (ltb max_jobs (length (a ∷ rest)) || ltb max_bytes total) ≡ true
      → is_over max_bytes (a ∷ files) ≡ true
  over_of max_bytes total a rest files e exact over =
      subst (λ f. is_over max_bytes (a ∷ f) ≡ true) e
        (subst (λ n. (ltb max_jobs (length (a ∷ rest)) || ltb max_bytes n) ≡ true) exact over)

  pub evict_files-Budgeted :
      (max_bytes total : ℕ) (files : List (Artifact F))
      → total ≡ sum_by (file_bytes encode) files
      → (left : List (Artifact F)) × (evict_files encode true max_bytes total files ≡ ok left)
        × Budgeted max_bytes files left
  unfolding evict_files
  evict_files-Budgeted max_bytes total [] exact = (
    [],
    ground arith,
    record { dropped = []; suffix = refl; needed = tt; few = omega arith; light = omega arith },
  )
  evict_files-Budgeted max_bytes total (a ∷ rest) exact =
      elim (Bool-cases (ltb max_jobs (length (a ∷ rest)) || ltb max_bytes total)) [
        | inl over ↦
            let (left, e, b) =
              evict_files-Budgeted max_bytes (total - file_bytes encode a) rest (omega arith) in
            (
              left,
              rw over e,
              record {
                dropped = a ∷ b.dropped;
                suffix = ap (◌∷◌ a) b.suffix;
                needed = (over_of max_bytes total a rest _ b.suffix exact over, b.needed);
                few = b.few;
                light = b.light;
              },
            )
        | inr room ↦ (
          a ∷ rest,
          rw room,
          record {
            dropped = [];
            suffix = refl;
            needed = tt;
            few = ground arith;
            light = ground arith;
          },
        )
      ]

  -- What the budget makes of a directory.
  pub record Kept (store : JobPersistence F) (left : List (Artifact F)) : Type 0 where
    pub dropped : List (Artifact F)
    pub same_files :
        (p : Artifact F → Bool)
        → length (retain p (dropped ++ left)) ≡ length (retain p store.files)
    pub newest :
        All
          (λ (old : Artifact F). All (λ (new : Artifact F). created old ≤ created new) left)
          dropped
    pub needed : Needed store.store_max_bytes dropped left
    pub few : length left ≤ max_jobs
    pub light : sum_by (file_bytes encode) left ≤ store.store_max_bytes

  budget-Kept :
      (store : JobPersistence F) (left : List (Artifact F))
      → Budgeted store.store_max_bytes (sort_files store.files) left
      → Kept store left
  budget-Kept store left b = record {
    dropped = b.dropped;
    same_files = λ p. ap (λ f. length (retain p f)) (sym b.suffix) ∙ sort_files_count p store.files;
    newest =
        sorted_append b.dropped left (subst IsSorted b.suffix (sort_files-IsSorted store.files));
    needed = b.needed;
    few = b.few;
    light = b.light;
  }

  pub enforce_store_budget-Budgeted :
      (store : JobPersistence F)
      → store.writable ≡ true
      → (left : List (Artifact F)) × (enforce_store_budget encode store
          ≡ ok (record store { files = left }))
        × Budgeted store.store_max_bytes (sort_files store.files) left
  unfolding enforce_store_budget
  enforce_store_budget-Budgeted store w =
      let (left, e, b) =
        evict_files-Budgeted store.store_max_bytes
          (sum_by (file_bytes encode) (sort_files store.files)) (sort_files store.files) refl in
      (left, rw (w, e), b)

  -- In a writable directory the budget is enforced without a panic. Each file either stays or is
  -- dropped; no file that stays was created before one that is dropped; each drop was made while the
  -- directory was beyond a budget; and at most `MAX_JOBS` files and `store_max_bytes` bytes stay.
  pub enforce_store_budget-Kept :
      (store : JobPersistence F)
      → store.writable ≡ true
      → (left : List (Artifact F)) × (enforce_store_budget encode store
          ≡ ok (record store { files = left }))
        × Kept store left
  enforce_store_budget-Kept store w =
      let (left, e, b) = enforce_store_budget-Budgeted store w in
      (left, e, budget-Kept store left b)
