-- ===== src/Jobs/Store/Persist.antt =====
-- `persist`: what is written, and what a job loses to fit its byte limit.
use grepmesh.Prelude.{
  ℕ, zero, suc, ◌-◌, ◌≤◌, ◌<◌, ◌≡◌, subst, take, ltb, refl, ap, sym, Option-cases, ◌∙◌, true, false,
  Option, some, String, List, [], ◌∷◌, length, List-cases, sum_by, Bool-cases, inl, inr, arith,
}
use grepmesh.Backend.Hits.{SearchHit}
use grepmesh.Jobs.Result.{ok}
use grepmesh.Jobs.State.{SearchJob, PersistedSearchJob, from_job, max_jobs}
use grepmesh.Jobs.Store.Budget.{enforce_store_budget-Budgeted}
use grepmesh.Jobs.Store.{
  Artifact, JobPersistence, file_bytes, remove_file, artifact_path, is_settled, shrink, pop_last,
  persist, write_artifact,
}

module _ {ℓ} {A : Type ℓ} where
  pub length-pop_last : (xs : List A) → length (pop_last xs) ≡ length xs - 1
  unfolding pop_last
  length-pop_last [] = omega arith
  length-pop_last (x ∷ []) = omega arith
  length-pop_last (x ∷ y ∷ rest) = omega (arith, length-pop_last (y ∷ rest))

  pop_last-take : (xs : List A) → pop_last xs ≡ take (length xs - 1) xs
  unfolding pop_last
  pop_last-take [] = refl
  pop_last-take (x ∷ []) = refl
  pop_last-take (x ∷ y ∷ rest) =
      let n : length (x ∷ y ∷ rest) - 1 ≡ suc (length (y ∷ rest) - 1) = omega arith in
      ap (◌∷◌ x) (pop_last-take (y ∷ rest)) ∙ ap (λ k. take k (x ∷ y ∷ rest)) (sym n)

  take-take_le : (k n : ℕ) (xs : List A) → k ≤ n → take k (take n xs) ≡ take k xs
  take-take_le zero n xs h = refl
  take-take_le (suc k) zero xs h = absurd (omega arith)
  take-take_le (suc k) (suc n) [] h = refl
  take-take_le (suc k) (suc n) (x ∷ xs) h = ap (◌∷◌ x) (take-take_le k n xs (omega arith))

module _ {F : Type 0} (encode : PersistedSearchJob F → Option ℕ) where
  -- The job with the first results of it alone, marked as truncated.
  abbrev pub front : ℕ → SearchJob F → SearchJob F
  front n job = record job { results = take n job.results; truncated = true }

  -- What `persist` makes of a job: the job itself where it is settled, or else the longest of its
  -- fronts that is settled.
  pub data Shrunk (max_bytes : ℕ) (job : SearchJob F) : SearchJob F → Type 0 where
    whole : is_settled encode max_bytes job ≡ true → Shrunk max_bytes job job
    cut :
        (n : ℕ)
        → n < length job.results
        → is_settled encode max_bytes job ≡ false
        → is_settled encode max_bytes (front n job) ≡ true
        → ((m : ℕ)
            → n < m
            → m < length job.results
            → is_settled encode max_bytes (front m job) ≡ false)
        → Shrunk max_bytes job (front n job)

  is_settled-nil :
      (max_bytes : ℕ) (job : SearchJob F)
      → job.results ≡ []
      → is_settled encode max_bytes job ≡ true
  unfolding is_settled
  is_settled-nil max_bytes job h = ground arith

  abbrev popped : SearchJob F → SearchJob F
  popped job = record job { results = pop_last job.results; truncated = true }

  popped-front : (job : SearchJob F) → popped job ≡ front (length job.results - 1) job
  popped-front job =
      ap (λ (hits : List (SearchHit F)). record job { results = hits; truncated = true })
        (pop_last-take job.results)

  front-popped :
      (n : ℕ) (job : SearchJob F) → n ≤ length job.results - 1 → front n (popped job) ≡ front n job
  front-popped n job le =
      ap (λ (hits : List (SearchHit F)). record job { results = hits; truncated = true })
        (ap (take n) (pop_last-take job.results)
          ∙ take-take_le n (length job.results - 1) job.results le)

  Shrunk-pop :
      (max_bytes : ℕ) (job job' : SearchJob F)
      → 0 < length job.results
      → is_settled encode max_bytes job ≡ false
      → Shrunk max_bytes (popped job) job'
      → Shrunk max_bytes job job'
  Shrunk-pop max_bytes job job' more big (whole s) =
      let last = popped-front job in
      subst (Shrunk max_bytes job) (sym last) (
        cut (length job.results - 1) (omega arith) big
          (subst (λ j. is_settled encode max_bytes j ≡ true) last s)
          (λ m lt lt'. absurd (omega arith)))
  Shrunk-pop max_bytes job job' more big (cut n lt big' s longer) =
      let size : length (pop_last job.results) ≡ length job.results - 1 =
        length-pop_last job.results in
      let same = front-popped n job (omega arith) in
      subst (Shrunk max_bytes job) (sym same) (
        cut n (omega arith) big (subst (λ j. is_settled encode max_bytes j ≡ true) same s)
          (λ m after within. elim (Bool-cases (ltb m (length job.results - 1))) [
            | inl c ↦
                subst (λ j. is_settled encode max_bytes j ≡ false)
                  (front-popped m job (ground arith)) (longer m after (ground arith))
            | inr c ↦
                let at : length job.results - 1 ≡ m = ground arith in
                subst (λ j. is_settled encode max_bytes j ≡ false)
                  (popped-front job ∙ ap (λ k. front k job) at) big'
          ]))

  pub shrink-Shrunk :
      (fuel max_bytes : ℕ) (job : SearchJob F)
      → length job.results ≤ fuel
      → Shrunk max_bytes job (shrink encode fuel max_bytes job)
  unfolding shrink
  shrink-Shrunk zero max_bytes job h = whole (is_settled-nil max_bytes job (ground arith))
  shrink-Shrunk (suc fuel) max_bytes job h = elim (Bool-cases (is_settled encode max_bytes job)) [
    | inl s ↦ rw s (whole s)
    | inr big ↦ elim (List-cases job.results) [
      | inl none_left ↦ absurd (cc (is_settled-nil max_bytes job none_left, big))
      | inr (x, xs, e) ↦ rw big (
          Shrunk-pop max_bytes job (shrink encode fuel max_bytes (popped job))
            (omega (arith, ap length e)) big
            (shrink-Shrunk fuel max_bytes (popped job)
              (omega (arith, length-pop_last job.results, ap length e))))
    ]
  ]

  -- The job is cut where `Shrunk` says, its record is within the byte limit, and the directory within
  -- its budget.
  pub record Persisted (store : JobPersistence F) (job job' : SearchJob F)
      (store' : JobPersistence F) : Type 0 where
    pub shrunk : Shrunk store.max_bytes job job'
    pub bytes : ℕ
    pub encoded : encode (from_job job') ≡ some bytes
    pub fits : bytes ≤ store.max_bytes
    pub few : length store'.files ≤ max_jobs
    pub light : sum_by (file_bytes encode) store'.files ≤ store.store_max_bytes

  write_artifact-Budgeted :
      (job_id : String) (job : SearchJob F) (store store' : JobPersistence F)
      → write_artifact encode job_id job store ≡ ok store'
      → (length store'.files ≤ max_jobs)
        × (sum_by (file_bytes encode) store'.files ≤ store.store_max_bytes)
  unfolding write_artifact artifact_path
  write_artifact-Budgeted job_id job store store' h = elim (Bool-cases store.writable) [
    | inl w ↦
        let file : Artifact F = record { id = job_id; content = from_job job } in
        let new = record store { files = file ∷ remove_file job_id store.files } in
        let (left, e, b) = enforce_store_budget-Budgeted encode new w in
        let same : store' ≡ record store { files = left } = ground arith in rw same (b.few, b.light)
    | inr w ↦ absurd (ground arith)
  ]

  -- A `persist` that returns no error leaves the job as it is where its record fits the byte limit.
  -- Otherwise it leaves the job marked as truncated with a front of its results whose record fits,
  -- and the record of no longer front of them, marked so, fits. The directory is within its budget.
  pub persist-Persisted :
      (job_id : String) (job job' : SearchJob F) (store store' : JobPersistence F)
      → persist encode job_id job store ≡ (job', ok store')
      → Persisted store job job' store'
  unfolding persist
  persist-Persisted job_id job job' store store' h =
      let cut_job = shrink encode (length job.results) store.max_bytes job in
      let same : job' ≡ cut_job = ap (λ t. t.0) (sym h) in
      elim (Option-cases (encode (from_job cut_job))) [
        | inl bad ↦ absurd (ground arith)
        | inr (n, e) ↦
            let small : n ≤ store.max_bytes = ground arith in
            let written : write_artifact encode job_id cut_job store ≡ ok store' = ground arith in
            let budget = write_artifact-Budgeted job_id cut_job store store' written in
            record {
              shrunk =
                  rw same (shrink-Shrunk (length job.results) store.max_bytes job (omega arith));
              bytes = n;
              encoded = rw same e;
              fits = small;
              few = budget.0;
              light = budget.1;
            }
      ]
