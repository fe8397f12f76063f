-- ===== src/Ocr/Steps.antt =====
-- The operations of `OcrEngine` in src/ocr.rs as a step relation, between changes that the index makes
-- to the shared store, and a restart on the ledger. The index deletes the ledger's row of a document
-- that it commits or removes (src/index.rs); such rows are noted beside the state.
use grepmesh.Prelude.{
  ℕ, zero, suc, ◌+◌, ◌≡◌, refl, sym, Bool, true, false, ◌&&◌, ◌||◌, not, Option, some, String, List,
  [], ◌∷◌, ◌++◌, retain, length, take, ltb, string_ord, arith, ap, ◌∙◌, subst, contains, insert_key,
  is_empty, contains-insert_key, contains-append, contains-retain,
}
use grepmesh.Index.State.{PersistentIndex}
use grepmesh.Index.Documents.{max_pending_ocr}
use grepmesh.Index.Ledger.{load_pending_ocr}
use grepmesh.Ocr.Queue.{
  OcrEngine, new, extend, attach_pending_store, claim_retry, drop_lease, forget_deferred,
  defer_path, clear_overflow_if_drained,
}
use grepmesh.Ocr.Retry.{take_retry_paths_excluding, metadata_retry_paths}
use grepmesh.Ocr.Durable.{
  IsDurable, is_stored, after_defer, defer_path-IsDurable, forget_deferred-IsDurable,
  clear_overflow_if_drained-IsDurable,
}

-- One operation of the queue.
pub data Step : OcrEngine → OcrEngine → Type 0 where
  deferring :
      (available latch : Bool) (path : String) (engine : OcrEngine)
      → Step engine (defer_path available latch path engine).0
  forgetting :
      (available : Bool) (path : String) (engine : OcrEngine)
      → Step engine (forget_deferred available path engine)
  clearing :
      (available : Bool) (engine : OcrEngine)
      → Step engine (clear_overflow_if_drained available engine).0
  claiming :
      (path : String) (engine next : OcrEngine)
      → claim_retry path engine ≡ some next
      → Step engine next
  releasing : (path : String) (engine : OcrEngine) → Step engine (drop_lease path engine)
  taking :
      (now limit : ℕ) (in_flight : List String) (engine : OcrEngine)
      → Step engine (take_retry_paths_excluding now limit in_flight engine).0
  choosing :
      (limit : ℕ) (accept : String → Bool) (engine : OcrEngine)
      → Step engine (metadata_retry_paths limit accept engine).0

-- The pending paths of a store that another one lacks.
abbrev pub deleted_rows : PersistentIndex → PersistentIndex → List String
deleted_rows store store' =
    retain (λ path. not (contains path store'.pending_ocr)) store.pending_ocr

-- The paths whose rows are missing by an operation of the queue: deferring a path records it again.
abbrev pub after_step : {engine next : OcrEngine} → Step engine next → List String → List String
after_step (deferring available latch path engine) deleted = after_defer path engine deleted
after_step _ deleted = deleted

-- The states that are reached, each with the paths whose rows the index has deleted since they were
-- last deferred.
pub data Reach (first : OcrEngine) : OcrEngine → List String → Type 0 where
  start : Reach first first []
  after :
      (engine next : OcrEngine) (deleted : List String)
      → Reach first engine deleted
      → (step : Step engine next) → Reach first next (after_step step deleted)
  indexing :
      (engine : OcrEngine) (deleted : List String) (store store' : PersistentIndex)
      → Reach first engine deleted
      → engine.pending_store ≡ some store
      → Reach first
          (record engine { pending_store = some store' })
          (deleted_rows store store' ++ deleted)

-- The fields that the invariant reads.
abbrev Ledger : Type 0
Ledger = (List String × List String) × (Bool × Bool × Bool) × Option PersistentIndex

abbrev ledger_of : OcrEngine → Ledger
ledger_of engine = (
  (engine.deferred, engine.undurable),
  (engine.pending_store_healthy, engine.pending_store_load_failed, engine.deferred_overflow),
  engine.pending_store,
)

abbrev LedgerIsDurable : List String → Ledger → Type 0
LedgerIsDurable deleted ((deferred, undurable), (healthy, failed, overflow), store) =
    ((path : String)
      → contains path deferred ≡ true
      → (is_stored path store || (contains path undurable || contains path deleted)) ≡ true)
    × (healthy ≡ (is_empty undurable && not failed))
    × ((is_empty undurable && not failed) ≡ false → overflow ≡ true)

same_ledger :
    {deleted : List String} (engine next : OcrEngine)
    → ledger_of next ≡ ledger_of engine
    → IsDurable deleted engine
    → IsDurable deleted next
same_ledger {deleted} engine next e h =
    let kept : LedgerIsDurable deleted (ledger_of next) =
      subst (LedgerIsDurable deleted) (sym e) (h.recorded, h.healthy, h.latched) in
    record { recorded = kept.0; healthy = kept.1; latched = kept.2 }

take_retry_paths-ledger :
    (now limit : ℕ) (in_flight : List String) (engine : OcrEngine)
    → ledger_of (take_retry_paths_excluding now limit in_flight engine).0 ≡ ledger_of engine
unfolding take_retry_paths_excluding
take_retry_paths-ledger now limit in_flight engine = ground arith

metadata_retry_paths-ledger :
    (limit : ℕ) (accept : String → Bool) (engine : OcrEngine)
    → ledger_of (metadata_retry_paths limit accept engine).0 ≡ ledger_of engine
unfolding metadata_retry_paths
metadata_retry_paths-ledger limit accept engine = ground arith

claim_retry-ledger :
    (path : String) (engine next : OcrEngine)
    → claim_retry path engine ≡ some next
    → ledger_of next ≡ ledger_of engine
unfolding claim_retry
claim_retry-ledger path engine next e = ground arith

Step-IsDurable :
    {engine next : OcrEngine} {deleted : List String} (step : Step engine next)
    → IsDurable deleted engine
    → IsDurable (after_step step deleted) next
unfolding drop_lease
Step-IsDurable (deferring available latch path engine) h =
    defer_path-IsDurable available latch path engine h
Step-IsDurable (forgetting available path engine) h =
    forget_deferred-IsDurable available path engine h
Step-IsDurable (clearing available engine) h =
    clear_overflow_if_drained-IsDurable available engine h
Step-IsDurable (claiming path engine next e) h =
    same_ledger engine next (claim_retry-ledger path engine next e) h
Step-IsDurable (releasing path engine) h = same_ledger engine (drop_lease path engine) refl h
Step-IsDurable (taking now limit in_flight engine) h =
    same_ledger engine _ (take_retry_paths-ledger now limit in_flight engine) h
Step-IsDurable (choosing limit accept engine) h =
    same_ledger engine _ (metadata_retry_paths-ledger limit accept engine) h

contains-extend :
    (path : String) (more paths : List String)
    → contains path (extend more paths) ≡ (contains path more || contains path paths)
unfolding extend contains
contains-extend path [] paths = refl
contains-extend path (first ∷ more) paths = ground (
  arith,
  contains-extend path more (insert_key first paths),
  contains-insert_key path first paths,
)

-- A path of the list is in what is taken of it, or more is taken for a look than for use.
contains-take :
    (path : String) (limit : ℕ) (paths : List String)
    → contains path paths ≡ true
    → (contains path (take limit (take (limit + 1) paths))
        || ltb limit (length (take (limit + 1) paths)))
      ≡ true
unfolding contains
contains-take path limit [] h = absurd (cc)
contains-take path zero (first ∷ paths) h = refl
contains-take path (suc limit) (first ∷ paths) h = ground (arith, contains-take path limit paths)

or_flag : (b c flag : Bool) → (b || c) ≡ true → (b || (flag || c)) ≡ true
or_flag b c flag h = ground arith

or_false : (b : Bool) → (b || false) ≡ b
or_false b = ground arith

pub contains-take_mono :
    (path : String) (limit : ℕ) (paths : List String)
    → contains path (take limit paths) ≡ true
    → contains path paths ≡ true
unfolding contains
contains-take_mono path zero paths h = absurd (cc)
contains-take_mono path (suc limit) [] h = h
contains-take_mono path (suc limit) (first ∷ paths) h =
    ground (arith, contains-take_mono path limit paths)

-- Every pending path is loaded, or the load says that there are more.
load_pending_ocr-all :
    (path : String) (store : PersistentIndex)
    → contains path store.pending_ocr ≡ true
    → (contains path (load_pending_ocr store).0 || (load_pending_ocr store).1) ≡ true
unfolding load_pending_ocr
load_pending_ocr-all path store h =
    or_flag _ _ store.pending_ocr_overflow (contains-take path max_pending_ocr store.pending_ocr h)

load_pending_ocr-only :
    (path : String) (store : PersistentIndex)
    → contains path (load_pending_ocr store).0 ≡ true
    → contains path store.pending_ocr ≡ true
unfolding load_pending_ocr
load_pending_ocr-only path store h =
    contains-take_mono path (max_pending_ocr + 1) store.pending_ocr
      (contains-take_mono path max_pending_ocr (take (max_pending_ocr + 1) store.pending_ocr) h)

attach_pending_store-IsDurable :
    (available : Bool) (store : PersistentIndex) (last_retry : ℕ)
    → IsDurable [] (attach_pending_store available store (new true last_retry))
unfolding attach_pending_store contains
attach_pending_store-IsDurable true store last_retry = record {
  recorded = λ q c.
      let loaded : contains q (load_pending_ocr store).0 ≡ true =
        sym (or_false _) ∙ sym (contains-extend q (load_pending_ocr store).0 []) ∙ c in
      rw (load_pending_ocr-only q store loaded) refl;
  healthy = refl;
  latched = λ c. ground arith;
}
attach_pending_store-IsDurable false store last_retry = record {
  recorded = λ q c. absurd (cc);
  healthy = refl;
  latched = λ c. refl;
}

-- A pending path is pending in another store, or its row is deleted there.
deleted_rows-contains :
    (path : String) (store store' : PersistentIndex)
    → contains path store.pending_ocr ≡ true
    → (contains path store'.pending_ocr || contains path (deleted_rows store store')) ≡ true
deleted_rows-contains path store store' h =
    ground
      (arith, contains-retain path (λ q. not (contains q store'.pending_ocr)) store.pending_ocr)

indexed :
    (now earlier undurable gone before : Bool)
    → (earlier || (undurable || before)) ≡ true
    → (earlier ≡ true → (now || gone) ≡ true)
    → (now || (undurable || (gone || before))) ≡ true
indexed now earlier undurable gone before h k = ground arith

indexing-IsDurable :
    (engine : OcrEngine) (deleted : List String) (store store' : PersistentIndex)
    → engine.pending_store ≡ some store
    → IsDurable deleted engine
    → IsDurable
        (deleted_rows store store' ++ deleted)
        (record engine { pending_store = some store' })
indexing-IsDurable engine deleted store store' e h = record {
  recorded = λ path c.
      let before : (contains path store.pending_ocr
            || (contains path engine.undurable || contains path deleted))
          ≡ true =
        ap (λ o. is_stored path o || (contains path engine.undurable || contains path deleted))
          (sym e)
        ∙ h.recorded path c in
      rw (contains-append path (deleted_rows store store') deleted) (
        indexed (contains path store'.pending_ocr) (contains path store.pending_ocr)
          (contains path engine.undurable) (contains path (deleted_rows store store'))
          (contains path deleted) before (deleted_rows-contains path store store'));
  healthy = h.healthy;
  latched = h.latched;
}

-- From an engine that was just attached to a store, whatever operations of the queue and whatever
-- changes of the store by the index lead to a state, every deferred path is in the store, or counted
-- as not durable, or the index has deleted its row since it was last deferred. The store counts as
-- healthy just when no path is counted as not durable and the store could be loaded, and the latch
-- of an overflow is set while the store does not count as healthy.
pub Reach-IsDurable :
    (available : Bool) (store : PersistentIndex) (last_retry : ℕ) (engine : OcrEngine)
    (deleted : List String)
    → Reach (attach_pending_store available store (new true last_retry)) engine deleted
    → IsDurable deleted engine
Reach-IsDurable available store last_retry engine deleted start =
    attach_pending_store-IsDurable available store last_retry
Reach-IsDurable available store last_retry engine deleted (after before next gone steps step) =
    Step-IsDurable step (Reach-IsDurable available store last_retry before gone steps)
Reach-IsDurable available store last_retry engine deleted
      (indexing before gone old new_store steps e) =
    indexing-IsDurable before gone old new_store e
      (Reach-IsDurable available store last_retry before gone steps)

restarted :
    (stored undurable gone loaded overflow : Bool)
    → (stored || (undurable || gone)) ≡ true
    → (stored ≡ true → (loaded || overflow) ≡ true)
    → (loaded || (overflow || (undurable || gone))) ≡ true
restarted stored undurable gone loaded overflow h k = ground arith

-- After a restart on the ledger that a reached state leaves, a path that was deferred is deferred
-- again, or the latch asks for a scan, or the engine had counted the path as not durable, or the
-- index had deleted its row since it was last deferred.
pub restart-deferred :
    (available : Bool) (first : PersistentIndex) (earlier_retry : ℕ) (engine : OcrEngine)
    (deleted : List String) (store : PersistentIndex) (last_retry : ℕ) (path : String)
    → Reach (attach_pending_store available first (new true earlier_retry)) engine deleted
    → engine.pending_store ≡ some store
    → contains path engine.deferred ≡ true
    → let again = attach_pending_store true store (new true last_retry) in
      (contains path again.deferred
        || (again.deferred_overflow || (contains path engine.undurable || contains path deleted)))
      ≡ true
unfolding attach_pending_store contains
restart-deferred available first earlier_retry engine deleted store last_retry path steps e c =
    let h = Reach-IsDurable available first earlier_retry engine deleted steps in
    let kept : (contains path store.pending_ocr
          || (contains path engine.undurable || contains path deleted))
        ≡ true =
      ap (λ o. is_stored path o || (contains path engine.undurable || contains path deleted))
        (sym e)
      ∙ h.recorded path c in
    let again : contains path (extend (load_pending_ocr store).0 [])
        ≡ contains path (load_pending_ocr store).0 =
      contains-extend path (load_pending_ocr store).0 [] ∙ or_false _ in
    rw again (
      restarted (contains path store.pending_ocr) (contains path engine.undurable)
        (contains path deleted) (contains path (load_pending_ocr store).0)
        (load_pending_ocr store).1 kept (load_pending_ocr-all path store))
