-- ===== src/Jobs/Status.antt =====
-- `status_inner` of src/jobs.rs, with `status` and `snapshot`: restoring a job from disk, the page
-- after a cursor, the next cursor, and the reply.
-- `now` and `later` are the clock when the table is pruned and when the artifact is loaded, `fresh`
-- is the handle that `fresh_handle` makes, none where the random source fails, `encode` the length
-- of a record's JSON text and `describe` the text of an error.
pub mod Paging
pub mod Restart
use grepmesh.Prelude.{
  ℕ, ◌+◌, Bool, true, false, ◌&&◌, ◌||◌, not, Option, none, some, String, List, [], ◌∷◌, length,
  take, drop, map, any, all, ltb, min, max, if◌then◌else◌, unwrap_or, is_some, ◌==◌, string_ord,
}
pub use grepmesh.Prelude.{is_empty}
use grepmesh.Prelude.Map
use grepmesh.Prelude.Map.{BTreeMap}
use grepmesh.Backend.Hosts.{
  PerHostStatus, failed_status, normalize_legacy, is_state_ok, is_state_failed,
}
use grepmesh.Backend.Hits.{SearchHit}
use grepmesh.Jobs.Result.{Error, Result, ok, err, invalid_cursor, no_handle}
use grepmesh.Jobs.State.{
  SearchJob, PersistedSearchJob, max_cursors_per_job, default_page_size, max_page_size,
  next_poll_after_ms,
}
use grepmesh.Jobs.Store.{JobPersistence, load, persist}
use grepmesh.Jobs.Table.{SearchJobs, prune}

pub data JobState : Type 0 where
  running lost failed complete : JobState

-- The reply for a job that was found; `request_id` repeats the job's id, `host_id` the origin host
-- and `matches` the results.
pub record Page (F : Type 0) : Type 0 where
  pub state : JobState
  pub job_id : String
  pub origin_host : String
  pub partial : Bool
  pub truncated : Bool
  pub results : List (SearchHit F)
  pub host_status : List PerHostStatus
  pub pending_hosts : List String
  pub hub_task_ids : BTreeMap String String
  pub artifact_id : Option String
  pub error : Option String
  pub next_poll_after_ms : Option ℕ
  pub cursor : Option String

pub data Reply (F : Type 0) : Type 0 where
  expired : String → Reply F
  page : Page F → Reply F

-- `clamp(1, MAX_PAGE_SIZE)`
abbrev pub clamp : ℕ → ℕ → ℕ → ℕ
clamp lo hi n = min (max lo n) hi

-- The loop that drops the first cursor of the map while there are too many.
unfoldable pub evict_cursors : BTreeMap String ℕ → BTreeMap String ℕ
evict_cursors [] = []
evict_cursors ((k, v) ∷ m) =
    let rest = evict_cursors m in
    if ltb max_cursors_per_job (length ((k, v) ∷ m)) then rest else (k, v) ∷ m

unfoldable pub interrupt :
    List String → BTreeMap String PerHostStatus → BTreeMap String PerHostStatus
interrupt [] statuses = statuses
interrupt (host ∷ hosts) statuses =
    interrupt hosts
      (Map.insert host (failed_status host "search interrupted by service restart") statuses)

unfoldable pub page_size_of : Option ℕ → ℕ
page_size_of page_size = clamp 1 max_page_size (unwrap_or default_page_size page_size)

module _ {F : Type 0} where
  -- A job that a restart interrupted is lost, and its pending hosts have failed.
  unfoldable pub restore : SearchJob F → SearchJob F
  unfolding interrupt
  restore job = if is_empty job.pending_hosts then job else record job {
    lost = true;
    host_status = interrupt job.pending_hosts job.host_status;
    pending_hosts = [];
  }

  abbrev put_loaded :
      String
      → SearchJobs F
      → Result (JobPersistence F × Option (SearchJob F))
      → SearchJobs F × Option Error
  put_loaded job_id t (err e) = (t, some e)
  put_loaded job_id t (ok (store, none)) = (record t { persistence = some store }, none)
  put_loaded job_id t (ok (store, some job)) =
      (record t { persistence = some store; jobs = Map.insert job_id (restore job) t.jobs }, none)

  unfoldable pub load_job : ℕ → String → SearchJobs F → SearchJobs F × Option Error
  unfolding restore load
  load_job later job_id t =
      if Map.contains_key job_id t.jobs then (t, none) else elim t.persistence [
        | none ↦ (t, none)
        | some store ↦ put_loaded job_id t (load later job_id store)
      ]

  -- The hits from `start` on: all of them, or a page.
  unfoldable pub page_from : Bool → Option ℕ → ℕ → SearchJob F → List (SearchHit F)
  unfolding page_size_of
  page_from all page_size start job =
      let rest = drop (min start (length job.results)) job.results in
      if all then rest else take (page_size_of page_size) rest

  -- `end`, where the next page begins.
  unfoldable pub end_of : Bool → Option ℕ → ℕ → SearchJob F → ℕ
  unfolding page_from
  end_of all page_size start job =
      min start (length job.results) + length (page_from all page_size start job)

  abbrev pub is_running : SearchJob F → Bool
  is_running job = not (is_empty job.pending_hosts)

  -- Whether a cursor is returned.
  abbrev pub has_next : Bool → ℕ → SearchJob F → Bool
  has_next all end job = not all && (is_running job || ltb end (length job.results))

  unfoldable pub note_cursor : Bool → ℕ → String → SearchJob F → SearchJob F
  unfolding evict_cursors
  note_cursor all end handle job =
      if has_next all end job
      then record job { cursors = evict_cursors (Map.insert handle end job.cursors) }
      else job

  unfoldable pub statuses_of : SearchJob F → List PerHostStatus
  unfolding normalize_legacy
  statuses_of job =
      map
        (λ (e : String × PerHostStatus).
          normalize_legacy (any (λ (hit : SearchHit F). hit.host_id == e.1.host_id) job.results)
            e.1)
        job.host_status

  unfoldable pub is_partial : SearchJob F → Bool
  unfolding statuses_of
  is_partial job =
      is_running job || any (λ (s : PerHostStatus). not (is_state_ok s.state)) (statuses_of job)

  unfoldable pub has_failed : SearchJob F → Bool
  unfolding statuses_of
  has_failed job =
      is_some job.durability_error
      || (not (is_running job)
          && not (is_empty (statuses_of job))
          && all (λ (s : PerHostStatus). is_state_failed s.state) (statuses_of job))

  unfoldable pub state_of : SearchJob F → JobState
  unfolding has_failed
  state_of job =
      if is_running job
      then JobState.running
      else if job.lost
      then JobState.lost
      else if has_failed job
      then JobState.failed
      else JobState.complete

  unfoldable pub reply_of : Bool → Option ℕ → ℕ → String → String → SearchJob F → Page F
  unfolding page_from end_of is_partial state_of
  reply_of all page_size start handle job_id job = record {
    state = state_of job;
    job_id = job_id;
    origin_host = job.host_id;
    partial = is_partial job;
    truncated = job.truncated;
    results = page_from all page_size start job;
    host_status = statuses_of job;
    pending_hosts = job.pending_hosts;
    hub_task_ids = job.hub_jobs;
    artifact_id = if is_running job || is_partial job then some job_id else none;
    error = job.durability_error;
    next_poll_after_ms = if is_running job && not all then some next_poll_after_ms else none;
    cursor = if has_next all (end_of all page_size start job) job then some handle else none;
  }

  module _ (encode : PersistedSearchJob F → Option ℕ) (describe : Error → String) where
    -- What a failed `persist` makes of the job and of the reply.
    abbrev pub break_job : Error → SearchJob F → SearchJob F
    break_job e job = record job { durability_error = some (describe e); pending_hosts = [] }

    abbrev break_page : Error → String → Page F → Page F
    break_page e job_id p = record p {
      state = JobState.failed;
      partial = true;
      artifact_id = some job_id;
      error = some (describe e);
    }

    abbrev finish :
        String
        → Page F
        → SearchJobs F
        → SearchJob F × Result (JobPersistence F)
        → SearchJobs F × Page F
    finish job_id p t (job, ok store) =
        (record t { persistence = some store; jobs = Map.insert job_id job t.jobs }, p)
    finish job_id p t (job, err e) =
        (record t { jobs = Map.insert job_id (break_job e job) t.jobs }, break_page e job_id p)

    unfoldable pub save_page : String → Page F → SearchJob F → SearchJobs F → SearchJobs F × Page F
    unfolding persist
    save_page job_id p job t = elim t.persistence [
      | none ↦ (record t { jobs = Map.insert job_id job t.jobs }, p)
      | some store ↦ finish job_id p t (persist encode job_id job store)
    ]

    abbrev answer : SearchJobs F × Page F → SearchJobs F × Result (Reply F)
    answer (t, p) = (t, ok (page p))

    unfoldable pub page_at :
        ℕ
        → Option ℕ
        → Bool
        → Option String
        → String
        → SearchJob F
        → SearchJobs F
        → SearchJobs F × Result (Reply F)
    unfolding note_cursor reply_of save_page
    page_at start page_size all none job_id job t = (t, err no_handle)
    page_at start page_size all (some handle) job_id job t = answer (
        save_page job_id (reply_of all page_size start handle job_id job)
          (note_cursor all (end_of all page_size start job) handle job) t)

    -- `cursors.get(cursor)`, or the first result.
    abbrev pub start_of : Option String → SearchJob F → Option ℕ
    start_of none job = some 0
    start_of (some cursor) job = Map.get cursor job.cursors

    unfoldable pub status_of :
        String
        → Option String
        → Option ℕ
        → Bool
        → Option String
        → SearchJobs F
        → SearchJobs F × Result (Reply F)
    unfolding page_at
    status_of job_id cursor page_size all fresh t = elim (Map.get job_id t.jobs) [
      | none ↦ (t, ok (expired job_id))
      | some job ↦ elim (start_of cursor job) [
        | none ↦ (t, err (invalid_cursor job_id))
        | some start ↦ page_at start page_size all fresh job_id job t
      ]
    ]

    abbrev then_load :
        (SearchJobs F → SearchJobs F × Result (Reply F))
        → SearchJobs F × Option Error
        → SearchJobs F × Result (Reply F)
    then_load next (t, none) = next t
    then_load next (t, some e) = (t, err e)

    unfoldable pub status_inner :
        ℕ
        → ℕ
        → String
        → Option String
        → Option ℕ
        → Bool
        → Option String
        → SearchJobs F
        → SearchJobs F × Result (Reply F)
    unfolding prune load_job status_of
    status_inner now later job_id cursor page_size all fresh t =
        then_load
          (λ t'. then_load (status_of job_id cursor page_size all fresh) (load_job later job_id t'))
          (prune now t)

    abbrev pub status :
        ℕ
        → ℕ
        → String
        → Option String
        → Option ℕ
        → Option String
        → SearchJobs F
        → SearchJobs F × Result (Reply F)
    status now later job_id cursor page_size fresh t =
        status_inner now later job_id cursor page_size false fresh t

    abbrev pub snapshot :
        ℕ → ℕ → String → Option String → SearchJobs F → SearchJobs F × Result (Reply F)
    snapshot now later job_id fresh t = status_inner now later job_id none none true fresh t
