-- ===== src/Jobs/Run.antt =====
-- The life of a job in src/jobs.rs: `start_internal` up to the spawned tasks, what each task does to
-- the table when its host has answered, and `is_running`.
-- `encode` is the length of a record's JSON text, `describe` the text of an error.
pub mod Completion
pub mod History
use grepmesh.Prelude.{
  ℕ, Bool, true, false, not, Option, none, some, String, List, [], ◌∷◌, map, min, length, any, all,
  is_some, ◌&&◌, ◌||◌, unwrap_or, if◌then◌else◌, collect, remove_key, string_ord,
}
use grepmesh.Prelude.Map
use grepmesh.Prelude.Map.{BTreeMap}
use grepmesh.Prelude.Text.{take_chars}
use grepmesh.Backend.Hosts.{PerHostStatus, failed_status, is_state_ok, is_state_failed}
use grepmesh.Jobs.Result.{Error, Result, ok, err}
use grepmesh.Jobs.State.{SearchJob, PersistedSearchJob, new_job}
use grepmesh.Jobs.Merge.{HostAnswer, merge_result}
use grepmesh.Jobs.Store.{JobPersistence, persist}
use grepmesh.Jobs.Table.{SearchJobs, and_then, prune}
use grepmesh.Jobs.Status.{is_empty, break_job}
use grepmesh.Jobs.Telemetry.{
  HostTiming, SearchTelemetry, TelemetryStore, complete_telemetry, open_telemetry,
}

pub data Outcome (F : Type 0) : Type 0 where
  answered : HostAnswer F → Outcome F
  failed : String → Outcome F

-- `args.limit.unwrap_or(max_results).min(max_results)`
abbrev pub limit_of : Option ℕ → ℕ → ℕ
limit_of limit max_results = min (unwrap_or max_results limit) max_results

module _ {F : Type 0} where
  unfoldable pub is_running : String → SearchJobs F → Bool
  is_running job_id t = elim (Map.get job_id t.jobs) [
    | none ↦ false
    | some job ↦ not (is_empty job.pending_hosts)
  ]

  -- The job once `target` has answered.
  unfoldable pub note_outcome : String → Outcome F → SearchJob F → SearchJob F
  unfolding merge_result remove_key
  note_outcome target (answered answer) job =
      merge_result (record job { pending_hosts = remove_key target job.pending_hosts }) answer
  note_outcome target (failed error) job = record job {
    pending_hosts = remove_key target job.pending_hosts;
    host_status = Map.insert target (failed_status target error) job.host_status;
  }

  module _ (encode : PersistedSearchJob F → Option ℕ) (describe : Error → String) where
    abbrev put_saved :
        String → SearchJobs F → SearchJob F × Result (JobPersistence F) → SearchJobs F
    put_saved job_id t (job, ok store) = record t {
      persistence = some store;
      jobs = Map.insert job_id job t.jobs;
    }
    put_saved job_id t (job, err e) = record t {
      jobs = Map.insert job_id (break_job encode describe e job) t.jobs;
    }

    unfoldable pub save : String → SearchJob F → SearchJobs F → SearchJobs F
    unfolding persist
    save job_id job t = elim t.persistence [
      | none ↦ record t { jobs = Map.insert job_id job t.jobs }
      | some store ↦ put_saved job_id t (persist encode job_id job store)
    ]

    -- What a task does when it has its outcome: nothing if the job is gone.
    unfoldable pub finish_host : String → String → Outcome F → SearchJobs F → SearchJobs F
    unfolding note_outcome save
    finish_host job_id target outcome t = elim (Map.get job_id t.jobs) [
      | none ↦ t
      | some job ↦ save job_id (note_outcome target outcome job) t
    ]

    -- The tasks of a job, in the order in which they end.
    unfoldable pub finish_hosts : String → List (String × Outcome F) → SearchJobs F → SearchJobs F
    unfolding finish_host
    finish_hosts job_id [] t = t
    finish_hosts job_id ((target, outcome) ∷ rest) t =
        finish_hosts job_id rest (finish_host job_id target outcome t)

    abbrev hub_entries : Bool → List String → BTreeMap String String
    hub_entries false targets = []
    hub_entries true [] = []
    hub_entries true (host ∷ hosts) = Map.insert host "" (hub_entries true hosts)

    abbrev put_started :
        String
        → SearchJobs F
        → SearchJob F × Result (JobPersistence F)
        → SearchJobs F × Option Error
    put_started job_id t (job, ok store) =
        (record t { persistence = some store; jobs = Map.insert job_id job t.jobs }, none)
    put_started job_id t (job, err e) = (record t { jobs = Map.insert job_id job t.jobs }, some e)

    abbrev insert_started : String → SearchJob F → SearchJobs F → SearchJobs F × Option Error
    insert_started job_id job t = elim t.persistence [
      | none ↦ (record t { jobs = Map.insert job_id job t.jobs }, none)
      | some store ↦ put_started job_id t (persist encode job_id job store)
    ]

    -- The table when the tasks are spawned; `job_id` is the fresh handle, `targets` the hosts that
    -- the search resolved to, `hub` whether a browser hub runs them. `later` is the clock after the
    -- prune.
    unfoldable pub start :
        ℕ
        → ℕ
        → String
        → String
        → Bool
        → Option ℕ
        → ℕ
        → Bool
        → List String
        → SearchJobs F
        → SearchJobs F × Option Error
    unfolding prune collect persist new_job
    start now later job_id host_id verbose limit max_results hub targets t =
        and_then (prune now t) (
          insert_started job_id (
            new_job later host_id verbose (limit_of limit max_results) (collect targets)
              (hub_entries hub targets)))

-- The table and the search history, each behind a lock of its own.
pub record Engine (F : Type 0) : Type 0 where
  pub table : SearchJobs F
  pub telemetry : TelemetryStore

module _ {F : Type 0} where
  -- The status that the history notes for a job.
  unfoldable pub noted_status : SearchJob F → String
  noted_status job =
      let states = map (λ (e : String × PerHostStatus). e.1.state) job.host_status in
      if is_some job.durability_error || (not (is_empty states) && all is_state_failed states)
      then "failed"
      else if any (λ s. not (is_state_ok s)) states
      then "partial"
      else "complete"

  module _ (encode : PersistedSearchJob F → Option ℕ)
      (encode_records : List SearchTelemetry → Option ℕ) (describe : Error → String) where
    abbrev pub note_done :
        ℕ → ℕ → String → HostTiming → SearchJobs F → TelemetryStore → TelemetryStore
    note_done now tick job_id timing t h = elim (Map.get job_id t.jobs) [
      | none ↦ h
      | some job ↦
          (complete_telemetry encode_records now tick job_id (some timing)
            (is_empty job.pending_hosts) (length job.results) (noted_status job) h).0
    ]

    -- The whole of a task's end. That the history could not be written is only printed.
    unfoldable pub host_done :
        ℕ → ℕ → String → String → HostTiming → Outcome F → Engine F → Engine F
    unfolding finish_host complete_telemetry noted_status
    host_done now tick job_id target timing outcome s =
        let t = finish_host encode describe job_id target outcome s.table in
        elim (Map.get job_id s.table.jobs) [
          | none ↦ s
          | some _ ↦ record {
            table = t;
            telemetry = note_done now tick job_id timing t s.telemetry;
          }
        ]

    abbrev put_opened :
        ℕ
        → ℕ
        → String
        → String
        → TelemetryStore
        → SearchJobs F × Option Error
        → Engine F × Option Error
    put_opened started started_ms job_id query h (t, some e) =
        (record { table = t; telemetry = h }, some e)
    put_opened started started_ms job_id query h (t, none) = (
      record {
        table = t;
        telemetry = open_telemetry started started_ms job_id (take_chars 512 query) h;
      },
      none,
    )

    -- `start_internal` up to the tasks: the job, then its record in the history. `started` is the
    -- monotonic clock and `started_ms` the wall clock at the beginning.
    unfoldable pub start_internal :
        ℕ
        → ℕ
        → ℕ
        → ℕ
        → String
        → String
        → String
        → Bool
        → Option ℕ
        → ℕ
        → Bool
        → List String
        → Engine F
        → Engine F × Option Error
    unfolding start open_telemetry take_chars
    start_internal started started_ms now later job_id query host_id verbose limit max_results hub
          targets s =
        put_opened started started_ms job_id query s.telemetry (
          start encode describe now later job_id host_id verbose limit max_results hub targets
            s.table)
