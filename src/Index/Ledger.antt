-- ===== src/Index/Ledger.antt =====
-- The OCR ledger of `PersistentIndex` in src/index.rs: `load_pending_ocr`, `defer_ocr`,
-- `ack_pending_ocr`, `set_ocr_overflow`, `ocr_failure_count`, `ocr_terminal_empty`,
-- `record_ocr_failures`, and the reset of `mark_full_rebuild_ms`.
-- `available` says whether SQLite opens the file and runs the statements of the call.
pub mod Failures
use grepmesh.Prelude.{
  ℕ, zero, suc, ◌+◌, Bool, true, false, ◌&&◌, ◌||◌, not, Option, none, some, String, List, [], ◌∷◌,
  length, take, ltb, leb, if◌then◌else◌, ◌==◌, string_ord, nat_ord, min, contains, insert_key,
  remove_key,
}
use grepmesh.Prelude.Map.{BTreeMap, get, contains_key, insert}
use grepmesh.Index.State.{Attempts, EmptyResult, PersistentIndex, Error, Result, ok, err}
use grepmesh.Index.Documents.{max_pending_ocr}

abbrev pub max_failures : ℕ
max_failures = 4

-- The pending paths, and whether there are more.
unfoldable pub load_pending_ocr : PersistentIndex → List String × Bool
load_pending_ocr index =
    let paths = take (max_pending_ocr + 1) index.pending_ocr in
    (take max_pending_ocr paths, index.pending_ocr_overflow || ltb max_pending_ocr (length paths))

abbrev pub overflowed : PersistentIndex → PersistentIndex
overflowed index = record index {
  pending_ocr_overflow = true;
  ocr_recovery_full_scan_required = true;
}

-- A full queue is an error, and its marks are committed.
unfoldable pub defer_ocr : Bool → String → PersistentIndex → PersistentIndex × Result (Unit {0})
defer_ocr available path index =
    if not available
    then (index, err Error.unavailable)
    else if contains path index.pending_ocr
    then (index, ok tt)
    else if leb max_pending_ocr (length index.pending_ocr)
    then (overflowed index, err Error.ocr_queue_full)
    else (record index { pending_ocr = insert_key path index.pending_ocr }, ok tt)

unfoldable pub ack_pending_ocr :
    Bool → String → PersistentIndex → PersistentIndex × Result (Unit {0})
ack_pending_ocr available path index =
    if available
    then (record index { pending_ocr = remove_key path index.pending_ocr }, ok tt)
    else (index, err Error.unavailable)

unfoldable pub set_ocr_overflow :
    Bool → Bool → PersistentIndex → PersistentIndex × Result (Unit {0})
set_ocr_overflow available overflow index =
    if available
    then (
      record index { pending_ocr_overflow = overflow; ocr_recovery_full_scan_required = true },
      ok tt,
    )
    else (index, err Error.unavailable)

-- the part of `mark_full_rebuild_ms` that the ledger sees
unfoldable pub mark_full_rebuild : PersistentIndex → PersistentIndex
mark_full_rebuild index = record index { ocr_recovery_full_scan_required = false }

unfoldable pub ocr_failure_count : String → ℕ → ℕ → PersistentIndex → ℕ
ocr_failure_count path size mtime_ns index = elim (get path index.ocr_attempts) [
  | none ↦ 0
  | some row ↦ if (row.size == size) && (row.mtime_ns == mtime_ns) then row.failures else 0
]

unfoldable pub ocr_terminal_empty : String → ℕ → ℕ → PersistentIndex → Bool
ocr_terminal_empty path size mtime_ns index = elim (get path index.ocr_empty_results) [
  | none ↦ false
  | some row ↦ (row.size == size) && (row.mtime_ns == mtime_ns)
]

-- the row that the upsert leaves: failures of another version do not count
unfoldable pub failed_row : ℕ → ℕ → ℕ → Option Attempts → Attempts
failed_row size mtime_ns attempts none = record {
  size = size;
  mtime_ns = mtime_ns;
  failures = min attempts max_failures;
}
failed_row size mtime_ns attempts (some row) =
    let earlier = if (row.size == size) && (row.mtime_ns == mtime_ns) then row.failures else 0 in
    record {
      size = size;
      mtime_ns = mtime_ns;
      failures = min max_failures (earlier + min attempts max_failures);
    }

unfoldable pub record_ocr_failures :
    String → ℕ → ℕ → ℕ → PersistentIndex → Result (PersistentIndex × ℕ)
unfolding failed_row
record_ocr_failures path size mtime_ns attempts index =
    let row = failed_row size mtime_ns attempts (get path index.ocr_attempts) in
    if not (contains_key path index.ocr_attempts) && leb max_pending_ocr (length index.ocr_attempts)
    then err Error.failure_ledger_full
    else ok (record index { ocr_attempts = insert path row index.ocr_attempts }, row.failures)
