-- ===== src/Jobs/Table.antt =====
-- The table of `SearchJobs` in src/jobs.rs and its `prune`. A method returns the new table and the
-- error that it returned, if any: what was removed before an error stays removed.
pub mod Prune
use grepmesh.Prelude.{
  ℕ, zero, suc, Bool, Option, none, some, String, List, [], ◌∷◌, length, ltb, leb, if◌then◌else◌,
  string_ord,
}
use grepmesh.Prelude.Map
use grepmesh.Prelude.Map.{BTreeMap}
use grepmesh.Jobs.Result.{Error, Result, ok, err}
use grepmesh.Jobs.State.{SearchJob, max_jobs}
use grepmesh.Jobs.Store.{JobPersistence, is_expired, delete_artifact, cleanup_artifacts}

pub record SearchJobs (F : Type 0) : Type 0 where
  pub jobs : BTreeMap String (SearchJob F)
  pub persistence : Option (JobPersistence F)

module _ {F : Type 0} where
  -- `?`: the rest is done unless there was an error.
  abbrev pub and_then :
      SearchJobs F × Option Error
      → (SearchJobs F → SearchJobs F × Option Error)
      → SearchJobs F × Option Error
  and_then (t, none) f = f t
  and_then (t, some e) f = (t, some e)

  abbrev store_result : SearchJobs F → Result (JobPersistence F) → SearchJobs F × Option Error
  store_result t (ok store) = (record t { persistence = some store }, none)
  store_result t (err e) = (t, some e)

  -- `jobs.remove(&id); self.delete_artifact(&id)?`
  unfoldable pub remove_job : String → SearchJobs F → SearchJobs F × Option Error
  remove_job id t =
      let t' = record t { jobs = Map.remove id t.jobs } in
      elim t.persistence [
        | none ↦ (t', none)
        | some store ↦ store_result t' (delete_artifact id store)
      ]

  unfoldable pub remove_jobs : List String → SearchJobs F → SearchJobs F × Option Error
  unfolding remove_job
  remove_jobs [] t = (t, none)
  remove_jobs (id ∷ ids) t = and_then (remove_job id t) (remove_jobs ids)

  unfoldable pub expired_ids : ℕ → ℕ → BTreeMap String (SearchJob F) → List String
  expired_ids now ttl_ms [] = []
  expired_ids now ttl_ms ((id, job) ∷ rest) =
      let ids = expired_ids now ttl_ms rest in
      if is_expired now ttl_ms job.created_ms then id ∷ ids else ids

  -- `min_by_key(|(_, job)| job.created_ms)`: the first of the oldest jobs.
  abbrev pub oldest : BTreeMap String (SearchJob F) → Option (String × ℕ)
  oldest = Map.oldest (λ job. job.created_ms)

  -- The loop that keeps the table within `MAX_JOBS`; each round removes a job, so that the number
  -- of jobs is fuel enough.
  unfoldable pub shed : ℕ → SearchJobs F → SearchJobs F × Option Error
  unfolding Map.oldest remove_job
  shed zero t = (t, none)
  shed (suc fuel) t = elim (ltb max_jobs (length t.jobs)) [
    | Bool.true ↦ elim (oldest t.jobs) [
      | none ↦ (t, none)
      | some e ↦ and_then (remove_job e.0 t) (shed fuel)
    ]
    | Bool.false ↦ (t, none)
  ]

  abbrev pub ttl_of : SearchJobs F → ℕ
  ttl_of t = elim t.persistence [ none ↦ 300000 | some store ↦ store.ttl_ms ]

  abbrev pub clean_up : ℕ → ℕ → SearchJobs F → SearchJobs F × Option Error
  clean_up now ttl_ms t = elim t.persistence [
    | none ↦ (t, none)
    | some store ↦ (record t { persistence = some (cleanup_artifacts now ttl_ms store) }, none)
  ]

  unfoldable pub prune : ℕ → SearchJobs F → SearchJobs F × Option Error
  unfolding remove_jobs shed expired_ids cleanup_artifacts
  prune now t =
      let ttl_ms = ttl_of t in
      and_then
        (and_then (remove_jobs (expired_ids now ttl_ms t.jobs) t) (λ t'. shed (length t'.jobs) t'))
        (clean_up now ttl_ms)
