-- ===== src/Ocr/Durable.antt =====
-- What `defer_path`, `forget_deferred` and `clear_overflow_if_drained` of src/ocr.rs keep: deferred
-- work is in the ledger, or known not to be.
use grepmesh.Prelude.{
  ◌≡◌, if◌then◌else◌, sym, subst, refl, Bool, true, false, ◌&&◌, ◌||◌, not, Option, none, some,
  String, List, [], ◌∷◌, length, leb, ◌==◌, ==_iff, string_ord, arith, Bool-cases, inl, inr, ◌⊎◌,
  ap, ◌∙◌, contains, insert_key, remove_key, is_empty, contains-insert_key, contains-remove_key,
}
use grepmesh.Index.State.{PersistentIndex, Error, Result, ok, err}
use grepmesh.Index.Ledger.{defer_ocr, ack_pending_ocr, set_ocr_overflow}
use grepmesh.Ocr.Queue.{
  OcrEngine, forget_deferred, acknowledged, forget_in_store, note_stored, note_undurable,
  clear_in_store, defer_path, defer_in_store, refuse_path, clear_overflow_if_drained,
  max_deferred_paths,
}

-- The ledger has the path, where a store is attached.
abbrev pub is_stored : String → Option PersistentIndex → Bool
is_stored path none = true
is_stored path (some store) = contains path store.pending_ocr

-- What the queue keeps of its paths, its health and its latch, beside the paths whose rows somebody
-- else deleted from the ledger.
pub record IsDurable (deleted : List String) (engine : OcrEngine) : Type 0 where
  pub recorded :
      (path : String)
      → contains path engine.deferred ≡ true
      → (is_stored path engine.pending_store
          || (contains path engine.undurable || contains path deleted))
        ≡ true
  pub healthy :
      engine.pending_store_healthy
      ≡ (is_empty engine.undurable && not engine.pending_store_load_failed)
  pub latched :
      is_empty engine.undurable && not engine.pending_store_load_failed ≡ false
      → engine.deferred_overflow ≡ true

is_empty-insert_key :
    (path : String) (paths : List String) → is_empty (insert_key path paths) ≡ false
unfolding insert_key
is_empty-insert_key path [] = refl
is_empty-insert_key path (other ∷ paths) = ground arith

is_empty-remove_key :
    (path : String) (paths : List String)
    → is_empty (remove_key path paths) ≡ false
    → is_empty paths ≡ false
unfolding remove_key
is_empty-remove_key path [] h = h
is_empty-remove_key path (other ∷ paths) h = refl

abbrev queued : String → OcrEngine → OcrEngine
queued path engine = record engine {
  retry_fast = false;
  deferred = insert_key path engine.deferred;
}

-- What `defer_ocr` leaves in the ledger, and what it answers.
defer_ocr-ok :
    (available : Bool) (path : String) (store : PersistentIndex)
    → (defer_ocr available path store).1 ≡ ok tt
    → (q : String)
    → contains q (defer_ocr available path store).0.pending_ocr
      ≡ ((q == path) || contains q store.pending_ocr)
unfolding defer_ocr
defer_ocr-ok available path store e q =
    ground (arith, contains-insert_key q path store.pending_ocr, ==_iff q path)

defer_ocr-err :
    (available : Bool) (path : String) (store : PersistentIndex) (error : Error)
    → (defer_ocr available path store).1 ≡ err error
    → (defer_ocr available path store).0.pending_ocr ≡ store.pending_ocr
unfolding defer_ocr
defer_ocr-err available path store error e = ground arith

set_ocr_overflow-pending :
    (available overflow : Bool) (store : PersistentIndex)
    → (set_ocr_overflow available overflow store).0.pending_ocr ≡ store.pending_ocr
unfolding set_ocr_overflow
set_ocr_overflow-pending true overflow store = refl
set_ocr_overflow-pending false overflow store = refl

Result-cases : (r : Result (Unit {0})) → (r ≡ ok tt) ⊎ ((error : Error) × (r ≡ err error))
Result-cases (ok tt) = inl refl
Result-cases (err error) = inr (error, refl)

abbrev pub after_defer : String → OcrEngine → List String → List String
after_defer path engine deleted = if engine.is_mesh then remove_key path deleted else deleted

other_path :
    (q path : String) (paths : List String)
    → contains q paths ≡ true
    → contains path paths ≡ false
    → (q == path) ≡ false
other_path q path paths c absent = elim (Bool-cases (q == path)) [
  | inr d ↦ d
  | inl same ↦
      let there : contains path paths ≡ true =
        ap (λ k. contains k paths) (sym ((==_iff q path).0 same)) ∙ c in
      absurd (cc)
]

module _ {deleted : List String} where
  acknowledged-IsDurable :
      (path : String) (engine : OcrEngine) (store : Option PersistentIndex)
      → IsDurable deleted engine
      → ((q : String) → (q == path) ≡ false → is_stored q store ≡ is_stored q engine.pending_store)
      → IsDurable deleted (acknowledged path (record engine { pending_store = store }))
  unfolding acknowledged
  acknowledged-IsDurable path engine store h same = record {
    recorded = λ q e. ground (
      arith,
      contains-remove_key q path engine.deferred,
      contains-remove_key q path engine.undurable,
      h.recorded q,
      same q,
    );
    healthy = refl;
    latched = λ e. ground (arith, h.latched, is_empty-remove_key path engine.undurable);
  }

  forget_in_store-IsDurable :
      (available : Bool) (path : String) (engine : OcrEngine) (store : Option PersistentIndex)
      → engine.pending_store ≡ store
      → IsDurable deleted engine
      → IsDurable deleted (forget_in_store available path engine store)
  unfolding forget_in_store ack_pending_ocr
  forget_in_store-IsDurable available path engine none e h =
      acknowledged-IsDurable path engine engine.pending_store h (λ q d. refl)
  forget_in_store-IsDurable true path engine (some store) e h =
      acknowledged-IsDurable path engine
        (some (record store { pending_ocr = remove_key path store.pending_ocr })) h
        (λ q d. rw e (ground (arith, contains-remove_key q path store.pending_ocr)))
  forget_in_store-IsDurable false path engine (some store) e h = h

  pub forget_deferred-IsDurable :
      (available : Bool) (path : String) (engine : OcrEngine)
      → IsDurable deleted engine
      → IsDurable deleted (forget_deferred available path engine)
  unfolding forget_deferred
  forget_deferred-IsDurable available path engine h =
      elim (Bool-cases (contains path engine.deferred)) [
        | inl c ↦ rw c (forget_in_store-IsDurable available path engine engine.pending_store refl h)
        | inr c ↦ rw c h
      ]

  note_stored-IsDurable :
      (path : String) (engine : OcrEngine) (before after : PersistentIndex)
      → engine.pending_store ≡ some before
      → IsDurable deleted engine
      → ((q : String)
          → contains q after.pending_ocr ≡ ((q == path) || contains q before.pending_ocr))
      → IsDurable (remove_key path deleted) (note_stored path after (queued path engine))
  note_stored-IsDurable path engine before after e h same = record {
    recorded = λ q c.
        let earlier : is_stored q engine.pending_store ≡ contains q before.pending_ocr =
          ap (is_stored q) e in
        ground (
          arith,
          contains-insert_key q path engine.deferred,
          contains-remove_key q path engine.undurable,
          contains-remove_key q path deleted,
          h.recorded q,
          same q,
          earlier,
        );
    healthy = refl;
    latched = λ c. ground (arith, h.latched, is_empty-remove_key path engine.undurable);
  }

  note_undurable-IsDurable :
      (path : String) (engine : OcrEngine) (before after : PersistentIndex)
      → engine.pending_store ≡ some before
      → IsDurable deleted engine
      → after.pending_ocr ≡ before.pending_ocr
      → IsDurable (remove_key path deleted) (note_undurable path after (queued path engine))
  note_undurable-IsDurable path engine before after e h same = record {
    recorded = λ q c.
        let earlier : is_stored q engine.pending_store ≡ contains q before.pending_ocr =
          ap (is_stored q) e in
        let now : contains q after.pending_ocr ≡ contains q before.pending_ocr =
          ap (contains q) same in
        ground (
          arith,
          contains-insert_key q path engine.deferred,
          contains-insert_key q path engine.undurable,
          contains-remove_key q path deleted,
          h.recorded q,
          earlier,
          now,
        );
    healthy = rw (is_empty-insert_key path engine.undurable) refl;
    latched = λ c. refl;
  }

  defer_in_store-IsDurable :
      (available latch : Bool) (path : String) (engine : OcrEngine) (store : Option PersistentIndex)
      → engine.pending_store ≡ store
      → IsDurable deleted engine
      → IsDurable
          (remove_key path deleted)
          (defer_in_store available latch path (queued path engine) store).0
  unfolding defer_in_store
  defer_in_store-IsDurable available latch path engine none e h = record {
    recorded = λ q c.
        let free : is_stored q engine.pending_store ≡ true = ap (is_stored q) e in
        ground (arith, free);
    healthy = h.healthy;
    latched = h.latched;
  }
  defer_in_store-IsDurable available latch path engine (some store) e h =
      elim (Result-cases (defer_ocr available path store).1) [
        | inl done ↦
            rw (defer_in_store, done)
              (note_stored-IsDurable path engine store (defer_ocr available path store).0 e h
                (defer_ocr-ok available path store done))
        | inr (error, failed) ↦
            let left = (defer_ocr available path store).0 in
            rw (defer_in_store, failed)
              (note_undurable-IsDurable path engine store (set_ocr_overflow latch true left).0 e h (
                set_ocr_overflow-pending latch true left
                ∙ defer_ocr-err available path store error failed))
      ]

  -- A change of the store that leaves its ledger, and sets the latch or leaves a healthy queue.
  restored :
      (engine : OcrEngine) (before after : PersistentIndex) (overflow : Bool)
      → engine.pending_store ≡ some before
      → IsDurable deleted engine
      → after.pending_ocr ≡ before.pending_ocr
      → ((is_empty engine.undurable && not engine.pending_store_load_failed) ≡ false
          → overflow ≡ true)
      → IsDurable deleted
          (record engine { pending_store = some after; deferred_overflow = overflow })
  restored engine before after overflow e h same latch = record {
    recorded = λ q c.
        let earlier : is_stored q engine.pending_store ≡ contains q before.pending_ocr =
          ap (is_stored q) e in
        let now : contains q after.pending_ocr ≡ contains q before.pending_ocr =
          ap (contains q) same in
        ground (arith, h.recorded q, earlier, now);
    healthy = h.healthy;
    latched = latch;
  }

  refuse_path-IsDurable :
      (available : Bool) (engine : OcrEngine) (store : Option PersistentIndex)
      → engine.pending_store ≡ store
      → IsDurable deleted engine
      → IsDurable deleted (refuse_path available (record engine { retry_fast = false }) store).0
  unfolding refuse_path
  refuse_path-IsDurable available engine none e h = record {
    recorded = h.recorded;
    healthy = h.healthy;
    latched = λ c. refl;
  }
  refuse_path-IsDurable available engine (some store) e h =
      let next =
        restored engine store (set_ocr_overflow available true store).0 true e h
          (set_ocr_overflow-pending available true store) (λ c. refl) in
      record { recorded = next.recorded; healthy = next.healthy; latched = next.latched }

module _ {deleted : List String} where
  -- A path that is not deferred need not be noted.
  forget_deleted :
      (path : String) (engine : OcrEngine)
      → contains path engine.deferred ≡ false
      → IsDurable deleted engine
      → IsDurable (remove_key path deleted) engine
  forget_deleted path engine absent h = record {
    recorded = λ q c.
        let apart : (q == path) ≡ false = other_path q path engine.deferred c absent in
        ground (arith, contains-remove_key q path deleted, h.recorded q, apart);
    healthy = h.healthy;
    latched = h.latched;
  }

  -- Every branch of `defer_path` keeps the invariant.
  pub defer_path-IsDurable :
      (available latch : Bool) (path : String) (engine : OcrEngine)
      → IsDurable deleted engine
      → IsDurable (after_defer path engine deleted) (defer_path available latch path engine).0
  unfolding defer_path
  defer_path-IsDurable available latch path engine h = elim (Bool-cases (not engine.is_mesh)) [
    | inl c ↦
        let off : engine.is_mesh ≡ false = ground arith in
        rw c (
          subst (λ b. IsDurable (if b then remove_key path deleted else deleted) engine) (sym off)
            h)
    | inr c ↦
        let on : engine.is_mesh ≡ true = ground arith in
        subst
          (λ b.
            IsDurable (if b then remove_key path deleted else deleted)
              (defer_path available latch path engine).0)
          (sym on)
          (elim (Bool-cases (
            not (contains path engine.deferred)
            && leb max_deferred_paths (length engine.deferred))) [
              | inl d ↦
                  rw (c, d)
                    (refuse_path-IsDurable available engine engine.pending_store refl
                      (forget_deleted path engine (ground arith) h))
              | inr d ↦
                  rw (c, d)
                    (defer_in_store-IsDurable available latch path engine engine.pending_store refl
                      h)
            ])
  ]

  clear_in_store-IsDurable :
      (available : Bool) (engine : OcrEngine) (store : Option PersistentIndex)
      → engine.pending_store ≡ store
      → engine.pending_store_healthy ≡ true
      → IsDurable deleted engine
      → IsDurable deleted (clear_in_store available engine store).0
  unfolding clear_in_store set_ocr_overflow
  clear_in_store-IsDurable available engine none e c h = record {
    recorded = h.recorded;
    healthy = h.healthy;
    latched = λ d. ground (arith, h.healthy);
  }
  clear_in_store-IsDurable true engine (some store) e c h =
      restored engine store _ false e h refl (λ d. ground (arith, h.healthy))
  clear_in_store-IsDurable false engine (some store) e c h =
      restored engine store store engine.deferred_overflow e h refl h.latched

  pub clear_overflow_if_drained-IsDurable :
      (available : Bool) (engine : OcrEngine)
      → IsDurable deleted engine
      → IsDurable deleted (clear_overflow_if_drained available engine).0
  unfolding clear_overflow_if_drained
  clear_overflow_if_drained-IsDurable available engine h =
      elim (Bool-cases (
        not (is_empty engine.deferred)
        || (not engine.pending_store_healthy || not engine.deferred_overflow))) [
          | inl c ↦ rw c h
          | inr c ↦
              rw c (
                clear_in_store-IsDurable available engine engine.pending_store refl (ground arith)
                  h)
        ]
