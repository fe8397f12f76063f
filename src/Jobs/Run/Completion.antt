-- ===== src/Jobs/Run/Completion.antt =====
-- How the jobs of src/jobs.rs end: the tasks of `start_internal`, one after the other.
use grepmesh.Prelude.{
  subst, take, drop, take-append-drop, unwrap_or, ℕ, ◌≡◌, refl, sym, ap, ◌∙◌, true, false, Option,
  none, some, String, List, [], ◌∷◌, map, length, arith, Bool-cases, Option-cases, List-cases, inl,
  inr, contains, remove_key, contains-remove_key, string_ord, All-Keeps, Pairwise-Keeps, Keeps,
  Keeps-front, length-Keeps, ◌⊎◌, ◌==◌, ==_refl,
}
use grepmesh.Prelude.Map
use grepmesh.Prelude.Map.{get-insert}
use grepmesh.Jobs.Result.{Error, Result, ok, err}
use grepmesh.Jobs.State.{SearchJob, PersistedSearchJob}
use grepmesh.Jobs.Merge.Admission.{IsAdmitted, merge_result-IsAdmitted}
use grepmesh.Jobs.Store.{JobPersistence, shrink, persist}
use grepmesh.Jobs.Store.Persist.{Shrunk, whole, cut, shrink-Shrunk}
use grepmesh.Jobs.Merge.Frame.{pending-merge_result}
use grepmesh.Jobs.Table.{SearchJobs}
use grepmesh.Jobs.Status.{break_job}
use grepmesh.Jobs.Run.{Outcome, is_running, note_outcome, save, finish_host, finish_hosts}

Result-cases : {A : Type 0} (r : Result A) → ((a : A) × r ≡ ok a) ⊎ ((e : Error) × r ≡ err e)
Result-cases (ok a) = inl (a, refl)
Result-cases (err e) = inr (e, refl)

module _ {F : Type 0} where
  pending-note_outcome :
      (target : String) (outcome : Outcome F) (job : SearchJob F)
      → (note_outcome target outcome job).pending_hosts ≡ remove_key target job.pending_hosts
  unfolding note_outcome
  pending-note_outcome target (Outcome.answered answer) job =
      pending-merge_result (record job { pending_hosts = remove_key target job.pending_hosts })
        answer
  pending-note_outcome target (Outcome.failed error) job = refl

  note_outcome-IsAdmitted :
      (target : String) (outcome : Outcome F) (job : SearchJob F)
      → IsAdmitted job
      → IsAdmitted (note_outcome target outcome job)
  unfolding note_outcome
  note_outcome-IsAdmitted target (Outcome.answered answer) job h =
      merge_result-IsAdmitted (record job { pending_hosts = remove_key target job.pending_hosts })
        answer (record { bounded = h.bounded; noted = h.noted; distinct = h.distinct })
  note_outcome-IsAdmitted target (Outcome.failed error) job h = record {
    bounded = h.bounded;
    noted = h.noted;
    distinct = h.distinct;
  }

  -- The hosts that a job of the table still waits for.
  unfoldable pub pending_of : String → SearchJobs F → List String
  pending_of job_id t = elim (Map.get job_id t.jobs) [ none ↦ [] | some job ↦ job.pending_hosts ]

  -- The job of that id, if the table holds one, is within its limit and free of duplicates.
  unfoldable pub Admitted : String → SearchJobs F → Type 0
  Admitted job_id t = (job : SearchJob F) → Map.get job_id t.jobs ≡ some job → IsAdmitted job

  module _ (encode : PersistedSearchJob F → Option ℕ) (describe : Error → String) where
    -- A job that is saved waits for the same hosts, or for none.
    pub data Saved (job_id : String) (job : SearchJob F) (t : SearchJobs F) : Type 0 where
      stored :
          (job' : SearchJob F)
          → Map.get job_id (save encode describe job_id job t).jobs ≡ some job'
          → (job'.pending_hosts ≡ job.pending_hosts) ⊎ (job'.pending_hosts ≡ [])
          → (IsAdmitted job → IsAdmitted job')
          → Saved job_id job t

    Shrunk-frame :
        (max_bytes : ℕ) (job job' : SearchJob F)
        → Shrunk encode max_bytes job job'
        → (job'.pending_hosts ≡ job.pending_hosts) × (IsAdmitted job → IsAdmitted job')
    Shrunk-frame max_bytes job job' (whole s) = (refl, λ h. h)
    Shrunk-frame max_bytes job job' (cut n lt big s longer) =
        let hits = job.results in
        let front : Keeps (take n hits) hits =
          subst (Keeps (take n hits)) (take-append-drop n hits)
            (Keeps-front (take n hits) (drop n hits)) in
        (
          refl,
          λ h. record {
            bounded = omega (arith, length-Keeps front, h.bounded);
            noted = All-Keeps _ front h.noted;
            distinct = Pairwise-Keeps _ front h.distinct;
          },
        )

    -- The job that is stored: the one given, after a cut, or broken by an error of the disk.
    persist_result-Saved :
        (job_id : String) (job : SearchJob F) (t : SearchJobs F) (store : JobPersistence F)
        → t.persistence ≡ some store
        → Saved job_id job t
    unfolding save
    persist_result-Saved job_id job t store disk =
        let job' = shrink encode (length job.results) store.max_bytes job in
        let (same, good) =
          Shrunk-frame store.max_bytes job job'
            (shrink-Shrunk encode (length job.results) store.max_bytes job (omega arith)) in
        elim (Result-cases (persist encode job_id job store).1) [
          | inl (store', e) ↦
              stored job' (rw (disk, e, get-insert, ==_refl job_id) refl) (inl same) good
          | inr (e, h) ↦
              stored (break_job encode describe e job')
                (rw (disk, h, get-insert, ==_refl job_id) refl) (inr refl)
                (λ h.
                  let b = good h in
                  record { bounded = b.bounded; noted = b.noted; distinct = b.distinct })
        ]

    pub save-Saved : (job_id : String) (job : SearchJob F) (t : SearchJobs F) → Saved job_id job t
    unfolding save
    save-Saved job_id job t = elim (Option-cases t.persistence) [
      | inl memory ↦ stored job (rw (memory, get-insert, ==_refl job_id) refl) (inl refl) (λ h. h)
      | inr (store, disk) ↦ persist_result-Saved job_id job t store disk
    ]

    pending_of_found :
        (job_id : String) (job : SearchJob F) (t : SearchJobs F)
        → Map.get job_id t.jobs ≡ some job
        → pending_of job_id t ≡ job.pending_hosts
    unfolding pending_of
    pending_of_found job_id job t e = rw (e, pending_of) refl

    pending-save :
        (job_id k : String) (job : SearchJob F) (t : SearchJobs F)
        → contains k (pending_of job_id (save encode describe job_id job t)) ≡ true
        → contains k job.pending_hosts ≡ true
    unfolding contains
    pending-save job_id k job t h = elim (save-Saved job_id job t) [
      | stored job' e (inl same) _ ↦
          rw (← same, ← pending_of_found job_id job' (save encode describe job_id job t) e) h
      | stored job' e (inr gone) _ ↦
          let none_left : contains k (pending_of job_id (save encode describe job_id job t))
              ≡ false =
            ap (contains k)
              (pending_of_found job_id job' (save encode describe job_id job t) e ∙ gone) in
          absurd (cc)
    ]

    pub finish_host_found :
        (job_id target : String) (outcome : Outcome F) (job : SearchJob F) (t : SearchJobs F)
        → Map.get job_id t.jobs ≡ some job
        → finish_host encode describe job_id target outcome t
          ≡ save encode describe job_id (note_outcome target outcome job) t
    unfolding finish_host
    finish_host_found job_id target outcome job t e = rw (e, finish_host) refl

    pending-finish_host :
        (job_id k target : String) (outcome : Outcome F) (t : SearchJobs F)
        → contains k (pending_of job_id (finish_host encode describe job_id target outcome t))
          ≡ true
        → (contains k (pending_of job_id t) ≡ true) × ((k == target) ≡ false)
    unfolding pending_of finish_host contains
    pending-finish_host job_id k target outcome t h = elim (Option-cases (Map.get job_id t.jobs)) [
      | inl gone ↦ absurd (ground arith)
      | inr (job, e) ↦
          let left =
            pending-save job_id k (note_outcome target outcome job) t
              (rw (← finish_host_found job_id target outcome job t e) h) in
          let both =
            ap (contains k) (pending-note_outcome target outcome job)
            ∙ contains-remove_key k target job.pending_hosts in
          let found = ap (contains k) (pending_of_found job_id job t e) in
          (ground arith, ground arith)
    ]

    pending-finish_hosts :
        (job_id k : String) (events : List (String × Outcome F)) (t : SearchJobs F)
        → contains k (pending_of job_id (finish_hosts encode describe job_id events t)) ≡ true
        → (contains k (pending_of job_id t) ≡ true) × (contains k (map (λ e. e.0) events) ≡ false)
    unfolding finish_hosts contains
    pending-finish_hosts job_id k [] t h = (h, refl)
    pending-finish_hosts job_id k ((target, outcome) ∷ rest) t h =
        let (before, later) =
          pending-finish_hosts job_id k rest (finish_host encode describe job_id target outcome t)
            h in
        let (first, other) = pending-finish_host job_id k target outcome t before in
        (first, ground arith)

    is_running_pending :
        (job_id : String) (t : SearchJobs F)
        → ((k : String) → contains k (pending_of job_id t) ≡ false)
        → is_running job_id t ≡ false
    unfolding pending_of is_running contains
    is_running_pending job_id t h = elim (Option-cases (Map.get job_id t.jobs)) [
      | inl gone ↦ rw (gone, is_running) refl
      | inr (job, e) ↦ elim (List-cases job.pending_hosts) [
        | inl none_left ↦ rw (e, is_running, none_left) refl
        | inr (k, rest, more) ↦
            let found = h k in
            let here = ap (contains k) (pending_of_found job_id job t e ∙ more) in
            let same = ==_refl k in absurd (ground arith)
      ]
    ]

    -- A job is not running once every host that it waits for has ended, in whatever order, with
    -- whatever outcome, and whether or not its record can be written.
    pub finish_hosts-idle :
        (job_id : String) (events : List (String × Outcome F)) (t : SearchJobs F)
        → ((k : String)
            → contains k (pending_of job_id t) ≡ true
            → contains k (map (λ e. e.0) events) ≡ true)
        → is_running job_id (finish_hosts encode describe job_id events t) ≡ false
    finish_hosts-idle job_id events t all =
        is_running_pending job_id (finish_hosts encode describe job_id events t) (λ k.
          elim (Bool-cases
            (contains k (pending_of job_id (finish_hosts encode describe job_id events t)))) [
              | inl waits ↦
                  let (before, not_ended) = pending-finish_hosts job_id k events t waits in
                  absurd (cc (all k before))
              | inr ended ↦ ended
            ])

    finish_host-Admitted :
        (job_id target : String) (outcome : Outcome F) (t : SearchJobs F)
        → Admitted job_id t
        → Admitted job_id (finish_host encode describe job_id target outcome t)
    unfolding Admitted finish_host
    finish_host-Admitted job_id target outcome t h = elim (Option-cases (Map.get job_id t.jobs)) [
      | inl gone ↦ λ job found. h job (ground arith)
      | inr (old, e) ↦ λ job found. elim (save-Saved job_id (note_outcome target outcome old) t) [
        | stored job' kept _ good ↦
            let now =
              ap (λ (s : SearchJobs F). Map.get job_id s.jobs)
                (finish_host_found job_id target outcome old t e) in
            let same = ap (unwrap_or job') (sym kept ∙ sym now ∙ found) in
            subst IsAdmitted same (good (note_outcome-IsAdmitted target outcome old (h old e)))
      ]
    ]

    -- A job of the table that is within its limit and holds no two hits with the same key stays so
    -- whatever its hosts answer, in any order.
    pub finish_hosts-Admitted :
        (job_id : String) (events : List (String × Outcome F)) (t : SearchJobs F)
        → Admitted job_id t
        → Admitted job_id (finish_hosts encode describe job_id events t)
    unfolding finish_hosts
    finish_hosts-Admitted job_id [] t h = h
    finish_hosts-Admitted job_id ((target, outcome) ∷ rest) t h =
        finish_hosts-Admitted job_id rest (finish_host encode describe job_id target outcome t)
          (finish_host-Admitted job_id target outcome t h)
