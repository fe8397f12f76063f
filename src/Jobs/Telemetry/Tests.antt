-- ===== src/Jobs/Telemetry/Tests.antt =====
-- Runs of the search history on concrete data.
use grepmesh.Prelude.{
  ℕ, ◌*◌, ◌≢◌, true, Option, none, some, List, [], ◌∷◌, length, arith, string_ord,
}
use grepmesh.Prelude.Map
use grepmesh.Jobs.Telemetry.{
  HostTiming, SearchTelemetry, HistoryFile, TelemetryStore, finished, opened, trim_bytes, keep_last,
  trim_telemetry, complete_telemetry, open_telemetry, shed_pending,
}

history : Unit {0}
unfolding Map.get Map.insert Map.remove Map.oldest string_ord trim_bytes keep_last trim_telemetry
    complete_telemetry open_telemetry shed_pending
history = tt

-- The length of the records' text: a mebibyte for each record.
abbrev encode_records : List SearchTelemetry → Option ℕ
encode_records rs = some (1048576 * length rs)

abbrev three_records : List SearchTelemetry
three_records =
    finished 5000 40 1 "complete" (opened 10 0 "job-1" "a")
    ∷ finished 6000 50 0 "complete" (opened 20 0 "job-2" "b")
    ∷ finished 7000 60 2 "failed" (opened 30 0 "job-3" "c")
    ∷ []

encode_records-total : (rs : List SearchTelemetry) → encode_records rs ≢ none
encode_records-total rs h = ground arith

abbrev file : HistoryFile
file = record { writable = true; written = [] }

abbrev one_pending : TelemetryStore
one_pending = record {
  records = three_records;
  pending = ("job-4", opened 40 0 "job-4" "d") ∷ [];
  file = some file;
}

abbrev timing : HostTiming
timing = record { host_id = "alpha"; duration_ms = 4; status = "complete"; result_count = 1 }
