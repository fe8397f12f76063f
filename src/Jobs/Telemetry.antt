-- ===== src/Jobs/Telemetry.antt =====
-- The search history of src/jobs.rs: `trim_telemetry`, `complete_telemetry`, `telemetry`, and the
-- part of `start_internal` that opens a record.
-- `encode` is the length of the records' JSON text, none where `serde_json::to_vec` fails.
-- `started` and `tick` are readings of the monotonic clock in milliseconds, `now` of the wall clock.
pub mod Bounds
mod Tests
use grepmesh.Prelude.{
  ℕ, zero, suc, ◌+◌, ◌-◌, ◌*◌, Bool, true, false, not, Option, none, some, String, List, [], ◌∷◌,
  ◌++◌, length, drop, retain, ltb, leb, if◌then◌else◌, string_ord,
}
use mathlib.Core.List.{reverse}
use grepmesh.Prelude.Map
use grepmesh.Prelude.Map.{BTreeMap}
use grepmesh.Jobs.Result.{Error, not_encodable, panicked, io}
use grepmesh.Jobs.State.{max_jobs}

abbrev pub max_telemetry_records : ℕ
max_telemetry_records = 500

abbrev pub max_telemetry_bytes : ℕ
max_telemetry_bytes = 2 * 1024 * 1024

abbrev pub telemetry_max_age_ms : ℕ
telemetry_max_age_ms = 30 * 24 * 60 * 60 * 1000

pub record HostTiming : Type 0 where
  pub host_id : String
  pub duration_ms : ℕ
  pub status : String
  pub result_count : ℕ

pub record SearchTelemetry : Type 0 where
  pub job_id : String
  pub query : String
  pub started_ms : ℕ
  pub finished_ms : ℕ
  pub duration_ms : ℕ
  pub status : String
  pub result_count : ℕ
  pub host_timings : List HostTiming

pub record PendingTelemetry : Type 0 where
  pub started : ℕ
  pub content : SearchTelemetry

-- `telemetry.json`, where jobs are persistent.
pub record HistoryFile : Type 0 where
  pub writable : Bool
  pub written : List SearchTelemetry

pub record TelemetryStore : Type 0 where
  pub records : List SearchTelemetry
  pub pending : BTreeMap String PendingTelemetry
  pub file : Option HistoryFile

-- `now.saturating_sub(r.finished_ms) < TELEMETRY_MAX_AGE_MS`
abbrev pub is_recent : ℕ → SearchTelemetry → Bool
is_recent now r = ltb (now - r.finished_ms) telemetry_max_age_ms

-- The records that `telemetry` reports, newest first.
unfoldable pub telemetry : ℕ → TelemetryStore → List SearchTelemetry
telemetry now h = retain (is_recent now) (reverse h.records)

-- `drain(..len - MAX)` when there are more
unfoldable pub keep_last : List SearchTelemetry → List SearchTelemetry
keep_last records = drop (length records - max_telemetry_records) records

abbrev pub add_timing : Option HostTiming → PendingTelemetry → PendingTelemetry
add_timing none p = p
add_timing (some t) p = record p {
  content = record p.content { host_timings = p.content.host_timings ++ t ∷ [] };
}

abbrev pub finished : ℕ → ℕ → ℕ → String → PendingTelemetry → SearchTelemetry
finished now tick result_count status p = record p.content {
  duration_ms = tick - p.started;
  finished_ms = now;
  result_count = result_count;
  status = status;
}

-- The trimmed records, and the file written after them.
abbrev pub save_history :
    TelemetryStore → List SearchTelemetry × Option Error → TelemetryStore × Option Error
save_history h (records, some e) = (record h { records = records }, some e)
save_history h (records, none) = elim h.file [
  | none ↦ (record h { records = records }, none)
  | some f ↦
      if f.writable
      then (record h { records = records; file = some (record f { written = records }) }, none)
      else (record h { records = records }, some io)
]

module _ (encode : List SearchTelemetry → Option ℕ) where
  -- The loop that removes the first record while the text is too long.
  unfoldable pub trim_bytes : List SearchTelemetry → List SearchTelemetry × Option Error
  trim_bytes [] = elim (encode []) [
    | none ↦ ([], some not_encodable)
    | some n ↦ if ltb max_telemetry_bytes n then ([], some panicked) else ([], none)
  ]
  trim_bytes (r ∷ rest) =
      let next = trim_bytes rest in
      elim (encode (r ∷ rest)) [
        | none ↦ (r ∷ rest, some not_encodable)
        | some n ↦ if ltb max_telemetry_bytes n then next else (r ∷ rest, none)
      ]

  unfoldable pub trim_telemetry : ℕ → List SearchTelemetry → List SearchTelemetry × Option Error
  unfolding trim_bytes keep_last
  trim_telemetry now records = trim_bytes (keep_last (retain (is_recent now) records))

  -- `complete` says whether the search is over.
  unfoldable pub complete_telemetry :
      ℕ
      → ℕ
      → String
      → Option HostTiming
      → Bool
      → ℕ
      → String
      → TelemetryStore
      → TelemetryStore × Option Error
  unfolding trim_telemetry
  complete_telemetry now tick job_id timing complete result_count status h =
      elim (Map.get job_id h.pending) [
        | none ↦ (h, none)
        | some p ↦
            let p' = add_timing timing p in
            if complete
            then save_history (record h { pending = Map.remove job_id h.pending })
                (trim_telemetry now (h.records ++ finished now tick result_count status p' ∷ []))
            else (record h { pending = Map.insert job_id p' h.pending }, none)
      ]

-- The loop that makes room for one more pending record.
unfoldable pub shed_pending :
    ℕ → BTreeMap String PendingTelemetry → BTreeMap String PendingTelemetry
unfolding Map.oldest
shed_pending zero m = m
shed_pending (suc fuel) m = elim (leb max_jobs (length m)) [
  | true ↦ elim (Map.oldest (λ (p : PendingTelemetry). p.started) m) [
    | none ↦ m
    | some e ↦ shed_pending fuel (Map.remove e.0 m)
  ]
  | false ↦ m
]

abbrev pub retain_pending : ℕ → BTreeMap String PendingTelemetry → BTreeMap String PendingTelemetry
retain_pending tick =
    retain (λ (e : String × PendingTelemetry). ltb (tick - e.1.started) telemetry_max_age_ms)

abbrev pub opened : ℕ → ℕ → String → String → PendingTelemetry
opened started started_ms job_id query = record {
  started = started;
  content = record {
    job_id = job_id;
    query = query;
    started_ms = started_ms;
    finished_ms = 0;
    duration_ms = 0;
    status = "running";
    result_count = 0;
    host_timings = [];
  };
}

-- The record that `start_internal` opens for a job; `query` is already cut to 512 characters.
unfoldable pub open_telemetry : ℕ → ℕ → String → String → TelemetryStore → TelemetryStore
unfolding shed_pending
open_telemetry started started_ms job_id query h =
    let young = retain_pending started h.pending in
    record h {
      pending =
          Map.insert job_id (opened started started_ms job_id query)
            (shed_pending (length young) young);
    }
