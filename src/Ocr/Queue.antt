-- ===== src/Ocr/Queue.antt =====
-- `OcrEngine` of src/ocr.rs as a queue: `attach_pending_store`, `defer_path`, `forget_deferred`,
-- `clear_overflow_if_drained`, `deferred_count`, `claim_retry` and the drop of its lease.
-- No lock is poisoned. Each `available` says whether the store answers one of its calls.
use grepmesh.Prelude.{
  ℕ, ◌+◌, Bool, true, false, ◌&&◌, ◌||◌, not, Option, none, some, String, List, [], ◌∷◌, length,
  leb, if◌then◌else◌, string_ord, contains, insert_key, remove_key, is_empty,
}
use grepmesh.Prelude.Map.{BTreeMap, remove}
use grepmesh.Index.State.{PersistentIndex, Error, Result, ok, err}
use grepmesh.Index.Ledger.{load_pending_ocr, defer_ocr, ack_pending_ocr, set_ocr_overflow}

abbrev pub max_deferred_paths : ℕ
max_deferred_paths = 65536

pub record OcrEngine : Type 0 where
  pub is_mesh : Bool
  pub deferred : List String
  pub active_paths : List String
  pub last_retry : ℕ
  pub retry_cursor : Option String
  pub retry_after : BTreeMap String ℕ
  pub metadata_retry_cursor : Option String
  pub deferred_overflow : Bool
  pub pending_store : Option PersistentIndex
  pub pending_store_healthy : Bool
  pub pending_store_load_failed : Bool
  pub undurable : List String
  pub retry_fast : Bool

-- The engine of `new`, with `last_retry` as given.
abbrev pub new : Bool → ℕ → OcrEngine
new is_mesh last_retry = record {
  is_mesh = is_mesh;
  deferred = [];
  active_paths = [];
  last_retry = last_retry;
  retry_cursor = none;
  retry_after = [];
  metadata_retry_cursor = none;
  deferred_overflow = false;
  pending_store = none;
  pending_store_healthy = true;
  pending_store_load_failed = false;
  undurable = [];
  retry_fast = false;
}

-- `BTreeSet::extend`
unfoldable pub extend : List String → List String → List String
extend [] paths = paths
extend (path ∷ more) paths = extend more (insert_key path paths)

unfoldable pub attach_pending_store : Bool → PersistentIndex → OcrEngine → OcrEngine
unfolding load_pending_ocr extend
attach_pending_store available store engine =
    let loaded = load_pending_ocr store in
    if not engine.is_mesh
    then engine
    else if available
    then record engine {
      pending_store = some store;
      deferred = extend loaded.0 engine.deferred;
      deferred_overflow = loaded.1;
    }
    else record engine {
      pending_store = some store;
      pending_store_load_failed = true;
      pending_store_healthy = false;
      deferred_overflow = true;
    }

unfoldable pub deferred_count : OcrEngine → ℕ
deferred_count engine = length engine.deferred + (if engine.deferred_overflow then 1 else 0)

unfoldable pub claim_retry : String → OcrEngine → Option OcrEngine
claim_retry path engine =
    if contains path engine.active_paths
    then none
    else some (record engine { active_paths = insert_key path engine.active_paths })

-- `RetryPathLease::drop`
unfoldable pub drop_lease : String → OcrEngine → OcrEngine
drop_lease path engine = record engine { active_paths = remove_key path engine.active_paths }

-- `pending_store_healthy.store(..)` as both writers have it
abbrev pub recheck : OcrEngine → OcrEngine
recheck engine = record engine {
  pending_store_healthy = is_empty engine.undurable && not engine.pending_store_load_failed;
}

-- the rest of `forget_deferred`, once the store has acknowledged
unfoldable pub acknowledged : String → OcrEngine → OcrEngine
acknowledged path engine = recheck (record engine {
  deferred = remove_key path engine.deferred;
  retry_after = remove path engine.retry_after;
  undurable = remove_key path engine.undurable;
  retry_fast = true;
})

-- the store's part of `forget_deferred`
unfoldable pub forget_in_store : Bool → String → OcrEngine → Option PersistentIndex → OcrEngine
unfolding ack_pending_ocr acknowledged
forget_in_store available path engine none = acknowledged path engine
forget_in_store available path engine (some store) =
    let acked = ack_pending_ocr available path store in
    elim acked.1 [
      | ok done ↦ acknowledged path (record engine { pending_store = some acked.0 })
      | err error ↦ engine
    ]

unfoldable pub forget_deferred : Bool → String → OcrEngine → OcrEngine
unfolding forget_in_store
forget_deferred available path engine =
    if contains path engine.deferred
    then forget_in_store available path engine engine.pending_store
    else engine

-- The store has the path.
abbrev pub note_stored : String → PersistentIndex → OcrEngine → OcrEngine
note_stored path store engine =
    recheck
      (record engine { pending_store = some store; undurable = remove_key path engine.undurable })

-- The store refused the path, which stays in memory.
abbrev pub note_undurable : String → PersistentIndex → OcrEngine → OcrEngine
note_undurable path store engine = record engine {
  pending_store = some store;
  undurable = insert_key path engine.undurable;
  pending_store_healthy = false;
  deferred_overflow = true;
}

-- the store's part of `defer_path`; `latch` says whether the recovery latch is written
unfoldable pub defer_in_store :
    Bool → Bool → String → OcrEngine → Option PersistentIndex → OcrEngine × Result (Unit {0})
unfolding defer_ocr set_ocr_overflow
defer_in_store available latch path engine none = (engine, ok tt)
defer_in_store available latch path engine (some store) =
    let deferred = defer_ocr available path store in
    elim deferred.1 [
      | ok done ↦ (note_stored path deferred.0 engine, ok tt)
      | err error ↦
          (note_undurable path (set_ocr_overflow latch true deferred.0).0 engine, err error)
    ]

-- the branch of `defer_path` for a full queue
unfoldable pub refuse_path :
    Bool → OcrEngine → Option PersistentIndex → OcrEngine × Result (Unit {0})
unfolding set_ocr_overflow
refuse_path available engine none =
    (record engine { deferred_overflow = true }, err Error.ocr_queue_full)
refuse_path available engine (some store) =
    let marked = set_ocr_overflow available true store in
    (
      record engine { deferred_overflow = true; pending_store = some marked.0 },
      elim marked.1 [ ok done ↦ err Error.ocr_queue_full | err error ↦ err error ],
    )

unfoldable pub defer_path : Bool → Bool → String → OcrEngine → OcrEngine × Result (Unit {0})
unfolding defer_in_store refuse_path
defer_path available latch path engine =
    let slowed : OcrEngine = record engine { retry_fast = false } in
    let queued : OcrEngine = record slowed { deferred = insert_key path engine.deferred } in
    if not engine.is_mesh
    then (engine, ok tt)
    else if not (contains path engine.deferred) && leb max_deferred_paths (length engine.deferred)
    then refuse_path available slowed engine.pending_store
    else defer_in_store available latch path queued engine.pending_store

-- the store's part of `clear_overflow_if_drained`
unfoldable pub clear_in_store : Bool → OcrEngine → Option PersistentIndex → OcrEngine × Bool
unfolding set_ocr_overflow
clear_in_store available engine none =
    (record engine { deferred_overflow = false }, engine.deferred_overflow)
clear_in_store available engine (some store) =
    let cleared = set_ocr_overflow available false store in
    elim cleared.1 [
      | ok done ↦ (
        record engine { pending_store = some cleared.0; deferred_overflow = false },
        engine.deferred_overflow,
      )
      | err error ↦ (record engine { pending_store = some cleared.0 }, false)
    ]

unfoldable pub clear_overflow_if_drained : Bool → OcrEngine → OcrEngine × Bool
unfolding clear_in_store
clear_overflow_if_drained available engine =
    if not (is_empty engine.deferred)
      || (not engine.pending_store_healthy || not engine.deferred_overflow)
    then (engine, false)
    else clear_in_store available engine engine.pending_store
