-- ===== src/Ocr/Tests.antt =====
-- Runs of the OCR queue on concrete data.
use grepmesh.Prelude.{
  ◌≡◌, refl, true, false, ◌||◌, some, String, [], ◌∷◌, string_ord, nat_ord, contains, insert_key,
  remove_key,
}
use grepmesh.Prelude.Map
use grepmesh.Index.State.{PersistentIndex}
use grepmesh.Index.Ledger.{load_pending_ocr, defer_ocr, ack_pending_ocr, set_ocr_overflow}
use grepmesh.Ocr.Queue.{
  OcrEngine, new, extend, attach_pending_store, claim_retry, drop_lease, acknowledged,
  forget_in_store, forget_deferred, defer_in_store, refuse_path, defer_path, clear_in_store,
  clear_overflow_if_drained,
}
use grepmesh.Ocr.Retry.{
  eligible, hold_back, chosen_paths, take_retry_paths_excluding, metadata_retry_paths,
}
use grepmesh.Ocr.Retry.Choice.{IsTaken, take_retry_paths_excluding-IsTaken}
use grepmesh.Ocr.Durable.{IsDurable}
use grepmesh.Ocr.Steps.{deferring, Reach, start, after, indexing, Reach-IsDurable, restart-deferred}

queue : Unit {0}
unfolding Map.get Map.insert Map.remove string_ord contains insert_key remove_key load_pending_ocr
    defer_ocr ack_pending_ocr set_ocr_overflow extend attach_pending_store claim_retry drop_lease
    acknowledged forget_in_store forget_deferred defer_in_store refuse_path defer_path
    clear_in_store clear_overflow_if_drained eligible hold_back chosen_paths
    take_retry_paths_excluding metadata_retry_paths
queue = tt

abbrev ledger : PersistentIndex
ledger = record {
  documents = [];
  document_rows = [];
  extraction_cache = [];
  pending_ocr = "a.png" ∷ [];
  ocr_attempts = [];
  ocr_empty_results = [];
  document_rows_v1 = true;
  document_rows_triggers_v1 = true;
  pending_ocr_overflow = false;
  ocr_recovery_full_scan_required = false;
  compaction_cursor = "";
  compaction_done = false;
}

abbrev attached : OcrEngine
attached = attach_pending_store true ledger (new true 0)

-- The index commits "a.png" in between, and deletes its row.
abbrev committed : PersistentIndex
committed = record ledger { pending_ocr = [] }

abbrev indexed : OcrEngine
indexed = record attached { pending_store = some committed }

abbrev deferred : OcrEngine
deferred = (defer_path true true "b.png" indexed).0

steps : Reach attached deferred ("a.png" ∷ [])
unfolding queue
steps =
    after indexed deferred ("a.png" ∷ []) (indexing attached [] ledger committed start refl)
      (deferring true true "b.png" indexed)

Reach-IsDurable_example : IsDurable ("a.png" ∷ []) deferred
Reach-IsDurable_example = Reach-IsDurable true ledger 0 deferred ("a.png" ∷ []) steps

abbrev next_ledger : PersistentIndex
next_ledger = record ledger { pending_ocr = "b.png" ∷ [] }

restart-deferred_example :
    (contains "b.png" (attach_pending_store true next_ledger (new true 9)).deferred
      || ((attach_pending_store true next_ledger (new true 9)).deferred_overflow
          || (contains "b.png" deferred.undurable || contains {K = String} "b.png" ("a.png" ∷ []))))
    ≡ true
unfolding queue
restart-deferred_example =
    restart-deferred true ledger 0 deferred ("a.png" ∷ []) next_ledger 9 "b.png" steps refl refl

take_retry_paths_excluding-IsTaken_example :
    IsTaken 5000
      ("x.png" ∷ [])
      deferred
      (take_retry_paths_excluding 5000 2 ("x.png" ∷ []) deferred).0
      (take_retry_paths_excluding 5000 2 ("x.png" ∷ []) deferred).1
take_retry_paths_excluding-IsTaken_example =
    take_retry_paths_excluding-IsTaken 5000 2 ("x.png" ∷ []) deferred
