-- ===== src/Jobs/Tests.antt =====
-- Runs of the job code on concrete data.
use grepmesh.Prelude.{
  ℕ, zero, suc, ◌+◌, ◌≡◌, refl, ap, subst, true, false, Option, none, some, String, List, [], ◌∷◌,
  length, map, arith, sum_by, unwrap_or, contains, add, remove_key, collect, insert_key, string_ord,
  pair_ord, option_ord, nat_ord,
}
use Prim.Native.String as Text
use grepmesh.Prelude.Map
use grepmesh.Prelude.Map.{BTreeMap}
use grepmesh.Prelude.Text.{is_ascii_alphanumeric, starts_with}
use grepmesh.Backend.Hosts.{complete_status, normalize_legacy}
use grepmesh.Backend.Hits.{SearchHit}
use grepmesh.Jobs.Result.{Error, ok}
use grepmesh.Jobs.State.{
  SearchJob, PersistedSearchJob, hit_key, hit_key_ord, new_job, from_job, into_job,
}
use grepmesh.Jobs.Merge.{HostAnswer, merge_status, admit, merge_hits, merge_result}
use grepmesh.Jobs.Merge.Admission.{IsAdmitted, merge_result-IsAdmitted}
use grepmesh.Jobs.Store.{
  Artifact, JobPersistence, is_job_id, artifact_path, remove_file, delete_artifact,
  cleanup_artifacts, load, insert_file, sort_files, evict_files, enforce_store_budget, is_settled,
  shrink, pop_last, write_artifact, persist,
}
use grepmesh.Jobs.Store.Budget.{Kept, enforce_store_budget-Kept}
use grepmesh.Jobs.Store.Persist.{Persisted, persist-Persisted}
use grepmesh.Jobs.Table.{SearchJobs, remove_job, remove_jobs, expired_ids, shed, prune}
use grepmesh.Jobs.Table.Prune.{Pruned, prune-Pruned}
use grepmesh.Jobs.Status.{
  restore, interrupt, page_from, end_of, page_size_of, evict_cursors, note_cursor, statuses_of,
  is_partial, state_of, reply_of,
}
use grepmesh.Jobs.Status.Paging.{note_cursor_lost}
use grepmesh.Jobs.Status.Restart.{load-from_job}
use grepmesh.Jobs.Run
use grepmesh.Jobs.Telemetry.{HostTiming, opened, complete_telemetry, trim_telemetry}
use grepmesh.Jobs.Run.History.{host_done-closed}
use grepmesh.Jobs.Run.{
  Outcome, Engine, host_done, noted_status, note_outcome, save, finish_host, finish_hosts,
}
use grepmesh.Jobs.Run.Completion.{pending_of, finish_hosts-idle, Admitted}

program : Unit {0}
unfolding merge_status admit merge_hits merge_result contains add remove_key insert_key collect
    hit_key_ord pair_ord option_ord string_ord Map.get Map.insert Map.remove Map.contains_key
    Map.oldest new_job from_job into_job is_job_id is_ascii_alphanumeric starts_with artifact_path
    remove_file delete_artifact cleanup_artifacts load insert_file sort_files evict_files
    enforce_store_budget is_settled shrink pop_last write_artifact persist remove_job remove_jobs
    expired_ids shed prune restore interrupt page_from end_of page_size_of evict_cursors note_cursor
    statuses_of is_partial state_of reply_of normalize_legacy Run.is_running note_outcome save
    finish_host finish_hosts host_done complete_telemetry trim_telemetry noted_status
program = tt

-- `score` of a hit is not looked at, so that any type serves.
abbrev hit_at : String → ℕ → SearchHit ℕ
hit_at path line = record {
  score = none;
  size = none;
  modified_ms = none;
  created_ms = none;
  host_id = "alpha";
  source_host = none;
  path = path;
  line_number = line;
  context = [];
  text = "needle";
  column = 1;
}

abbrev fresh_job : SearchJob ℕ
unfolding new_job
fresh_job = new_job 1000 "alpha" false 2 ("alpha" ∷ "beta" ∷ []) []

-- two decoded hits, one of them twice, an entry that does not decode, and a third hit
abbrev long_answer : HostAnswer ℕ
long_answer = record {
  truncated = some false;
  host_status = some (some (complete_status "alpha") ∷ none ∷ []);
  results = some (
      some (hit_at "/a.rs" 3)
      ∷ none
      ∷ some (hit_at "/a.rs" 3)
      ∷ some (hit_at "/b.rs" 9)
      ∷ some (hit_at "/c.rs" 1)
      ∷ []);
}

abbrev full_job : SearchJob ℕ
unfolding program
full_job = record (merge_result fresh_job long_answer) { pending_hosts = [] }

full_job_results : full_job.results ≡ hit_at "/a.rs" 3 ∷ hit_at "/b.rs" 9 ∷ []
unfolding program
full_job_results = refl

full_job_truncated : full_job.truncated ≡ true
unfolding program
full_job_truncated = refl

fresh_job-IsAdmitted : IsAdmitted fresh_job
unfolding new_job
fresh_job-IsAdmitted = record { bounded = omega arith; noted = tt; distinct = tt }

merge_result-IsAdmitted_example : IsAdmitted (merge_result fresh_job long_answer)
merge_result-IsAdmitted_example = merge_result-IsAdmitted fresh_job long_answer fresh_job-IsAdmitted

-- handles in the order of the map, all after "cursor-a"
abbrev handles : ℕ → String → BTreeMap String ℕ
handles zero name = []
handles (suc n) name = (name, 2) ∷ handles n (Text.◌∷◌ "z" name)

abbrev crowded_job : SearchJob ℕ
unfolding program
crowded_job = record full_job { cursors = handles 256 "z" }

note_cursor_lost_example :
    Map.get "cursor-a" (note_cursor false 1 "cursor-a" crowded_job).cursors ≡ none
unfolding program
note_cursor_lost_example =
    note_cursor_lost false 1 "cursor-a" "z" 2 (handles 255 "zz") crowded_job refl refl refl refl
      refl

-- The length of a record's text: ten bytes and five for each result.
abbrev encode_job : PersistedSearchJob ℕ → Option ℕ
encode_job p = some (10 + sum_by (λ _. 5) p.results)

abbrev one_file : JobPersistence ℕ
unfolding program
one_file = record {
  ttl_ms = 300000;
  max_bytes = 15;
  store_max_bytes = 40;
  writable = true;
  files = record { id = "job-1"; content = from_job full_job } ∷ [];
}

load-from_job_example :
    (job' : SearchJob ℕ) × (load 2000 "job-1" one_file ≡ ok (one_file, some job'))
    × IsAdmitted job'
    × (job' ≡ record full_job { seen_results = map hit_key full_job.results })
unfolding program
load-from_job_example = load-from_job 2000 "job-1" full_job one_file refl refl refl (
    let h = merge_result-IsAdmitted fresh_job long_answer fresh_job-IsAdmitted in
    record { bounded = h.bounded; noted = h.noted; distinct = h.distinct })

-- a directory beyond its budget
abbrev small_store : JobPersistence ℕ
small_store = record one_file { store_max_bytes = 1 }

enforce_store_budget-Kept_example :
    (left : List (Artifact ℕ)) × (enforce_store_budget encode_job small_store
      ≡ ok (record small_store { files = left }))
    × Kept encode_job small_store left
unfolding program
enforce_store_budget-Kept_example = enforce_store_budget-Kept encode_job small_store refl

-- `full_job` does not fit into 15 bytes and loses its last hit.
abbrev cut_job : SearchJob ℕ
unfolding program
cut_job = record full_job { results = hit_at "/a.rs" 3 ∷ [] }

abbrev written : JobPersistence ℕ
unfolding program
written = record one_file { files = record { id = "job-1"; content = from_job cut_job } ∷ [] }

persist-Persisted_example : Persisted encode_job one_file full_job cut_job written
unfolding program
persist-Persisted_example =
    persist-Persisted encode_job "job-1" full_job cut_job one_file written refl

abbrev table : SearchJobs ℕ
table = record { jobs = ("job-1", fresh_job) ∷ []; persistence = none }

prune-Pruned_example : Pruned 301000 table (prune 301000 table).0
unfolding program
prune-Pruned_example = prune-Pruned 301000 table refl

abbrev events : List (String × Outcome ℕ)
events = ("beta", Outcome.failed "unreachable") ∷ ("alpha", Outcome.answered long_answer) ∷ []

abbrev describe : Error → String
describe e = "error"

waits_for :
    (k : String)
    → contains k (pending_of "job-1" table) ≡ true
    → contains k ("beta" ∷ "alpha" ∷ []) ≡ true
unfolding program pending_of
waits_for k h = ground arith

finish_hosts-idle_example :
    Run.is_running "job-1" (finish_hosts encode_job describe "job-1" events table) ≡ false
finish_hosts-idle_example = finish_hosts-idle encode_job describe "job-1" events table waits_for

table-Admitted : Admitted "job-1" table
unfolding program Admitted
table-Admitted job found = subst IsAdmitted (ap (unwrap_or fresh_job) found) fresh_job-IsAdmitted

abbrev engine : Engine ℕ
engine = record {
  table = record {
    jobs = ("job-1", record fresh_job { pending_hosts = "beta" ∷ [] }) ∷ [];
    persistence = none;
  };
  telemetry = record {
    records = [];
    pending = ("job-1", opened 40 0 "job-1" "needle") ∷ [];
    file = none;
  };
}

abbrev timing : HostTiming
timing = record { host_id = "beta"; duration_ms = 4; status = "complete"; result_count = 2 }

host_done-closed_example :
    Map.get "job-1"
      (host_done encode_job
        (λ rs. some (length rs))
        describe
        9000
        90
        "job-1"
        "beta"
        timing
        (Outcome.answered long_answer)
        engine).telemetry.pending
    ≡ none
unfolding program
host_done-closed_example =
    host_done-closed encode_job (λ rs. some (length rs)) describe 9000 90 "job-1" "beta" timing
      (Outcome.answered long_answer) (record fresh_job { pending_hosts = "beta" ∷ [] }) engine refl
      refl
