-- ===== src/Jobs/Telemetry/Bounds.antt =====
-- The bounds of the search history: age, number and size of the records, and the number of pending
-- ones.
use grepmesh.Prelude.{
  ℕ, zero, suc, ◌-◌, ◌≤◌, ◌<◌, ◌≡◌, ◌≢◌, ap, ◌∙◌, Bool, true, false, Option, none, some, String,
  List, [], ◌∷◌, ◌++◌, length, length-drop, drop, retain, ltb, leb, arith, All, All-Keeps, Keeps,
  Keeps-refl, Keeps-trans, Keeps-retain, Keeps-drop, length-Keeps, done, skip, Bool-cases,
  Option-cases, is_some, leb→le, ==_refl, inl, inr, string_ord,
}
use grepmesh.Prelude.Map
use grepmesh.Prelude.Map.{BTreeMap, length-remove-lt, length-insert-le, get-insert}
use grepmesh.Jobs.State.{max_jobs}
use grepmesh.Jobs.Telemetry.{
  SearchTelemetry, PendingTelemetry, TelemetryStore, HistoryFile, is_recent, keep_last, trim_bytes,
  trim_telemetry, shed_pending, open_telemetry, max_telemetry_records, HostTiming, finished,
  add_timing, opened, max_telemetry_bytes, complete_telemetry, retain_pending,
}

retain-All {ℓ} : {A : Type ℓ} (p : A → Bool) (xs : List A) → All (λ x. p x ≡ true) (retain p xs)
retain-All p [] = tt
retain-All p (x ∷ xs) = elim (Bool-cases (p x)) [
  | inl e ↦ rw e (e, retain-All p xs)
  | inr e ↦ rw e (retain-All p xs)
]

module _ (encode : List SearchTelemetry → Option ℕ) where
  -- What a trim leaves: records of the history in their order, recent, at most
  -- `MAX_TELEMETRY_RECORDS`, with a text of at most `MAX_TELEMETRY_BYTES`.
  pub record Trimmed (now : ℕ) (records left : List SearchTelemetry) : Type 0 where
    pub kept : Keeps left records
    pub recent : All (λ r. is_recent now r ≡ true) left
    pub few : length left ≤ max_telemetry_records
    pub bytes : ℕ
    pub encoded : encode left ≡ some bytes
    pub light : bytes ≤ max_telemetry_bytes

  record TrimmedBytes (records left : List SearchTelemetry) : Type 0 where
    kept : Keeps left records
    bytes : ℕ
    encoded : encode left ≡ some bytes
    light : bytes ≤ max_telemetry_bytes

  trim_bytes-TrimmedBytes :
      (n : ℕ) (records : List SearchTelemetry)
      → encode [] ≡ some n
      → n ≤ max_telemetry_bytes
      → ((rs : List SearchTelemetry) → encode rs ≢ none)
      → (left : List SearchTelemetry) × (trim_bytes encode records ≡ (left, none))
        × TrimmedBytes records left
  unfolding trim_bytes
  trim_bytes-TrimmedBytes n [] e small total =
      ([], ground arith, record { kept = done; bytes = n; encoded = e; light = small })
  trim_bytes-TrimmedBytes n (r ∷ rest) e small total = elim (Option-cases (encode (r ∷ rest))) [
    | inl bad ↦ absurd (total (r ∷ rest) bad)
    | inr (size, sized) ↦ elim (Bool-cases (ltb max_telemetry_bytes size)) [
      | inl big ↦
          let (left, same, t) = trim_bytes-TrimmedBytes n rest e small total in
          (
            left,
            ground arith,
            record { kept = skip r t.kept; bytes = t.bytes; encoded = t.encoded; light = t.light },
          )
      | inr fits ↦ (
        r ∷ rest,
        ground arith,
        record {
          kept = Keeps-refl (r ∷ rest);
          bytes = size;
          encoded = sized;
          light = ground arith;
        },
      )
    ]
  ]

  -- If every history has a JSON text and that of the empty one is within the limit, a trim neither
  -- fails nor panics, and it leaves recent records within both bounds.
  pub trim_telemetry-Trimmed :
      (now n : ℕ) (records : List SearchTelemetry)
      → encode [] ≡ some n
      → n ≤ max_telemetry_bytes
      → ((rs : List SearchTelemetry) → encode rs ≢ none)
      → (left : List SearchTelemetry) × (trim_telemetry encode now records ≡ (left, none))
        × Trimmed now records left
  unfolding trim_telemetry keep_last
  trim_telemetry-Trimmed now n records e small total =
      let young = retain (is_recent now) records in
      let last = drop (length young - max_telemetry_records) young in
      let (left, same, t) = trim_bytes-TrimmedBytes n last e small total in
      let kept₁ = Keeps-trans (Keeps-drop (length young - max_telemetry_records) young) t.kept in
      (
        left,
        same,
        record {
          kept = Keeps-trans (Keeps-retain (is_recent now) records) kept₁;
          recent =
              All-Keeps (λ r. is_recent now r ≡ true) kept₁ (retain-All (is_recent now) records);
          few = omega (
            arith,
            length-Keeps t.kept,
            length-drop (length young - max_telemetry_records) young,
          );
          bytes = t.bytes;
          encoded = t.encoded;
          light = t.light;
        },
      )

  -- When a pending search is over, its file can be written, every history has a JSON text and that of
  -- the empty one is within the limit, then its record leaves the pending ones, and the trimmed history
  -- is what is in memory and what is written.
  pub complete_telemetry-Trimmed :
      (now tick n count : ℕ) (job_id status : String) (timing : Option HostTiming)
      (h : TelemetryStore) (p : PendingTelemetry) (f : HistoryFile)
      → Map.get job_id h.pending ≡ some p
      → h.file ≡ some f
      → f.writable ≡ true
      → encode [] ≡ some n
      → n ≤ max_telemetry_bytes
      → ((rs : List SearchTelemetry) → encode rs ≢ none)
      → (left : List SearchTelemetry) × (complete_telemetry encode now tick job_id timing true count
            status h
          ≡ (
            record {
              records = left;
              pending = Map.remove job_id h.pending;
              file = some (record f { written = left });
            },
            none,
          ))
        × Trimmed now (h.records ++ finished now tick count status (add_timing timing p) ∷ []) left
  unfolding complete_telemetry
  complete_telemetry-Trimmed now tick n count job_id status timing h p f found file writable e small
        total =
      let new = h.records ++ finished now tick count status (add_timing timing p) ∷ [] in
      let (left, same, t) = trim_telemetry-Trimmed now n new e small total in
      (left, ground (arith, same), t)

  -- A host's timing of a search that goes on changes its pending record alone.
  pub complete_telemetry_running :
      (now tick count : ℕ) (job_id status : String) (timing : HostTiming) (h : TelemetryStore)
      (p : PendingTelemetry)
      → Map.get job_id h.pending ≡ some p
      → let r = complete_telemetry encode now tick job_id (some timing) false count status h in
        (r.1 ≡ none)
        × (r.0.records ≡ h.records)
        × (r.0.file ≡ h.file)
        × (Map.get job_id r.0.pending ≡ some (add_timing (some timing) p))
  unfolding complete_telemetry
  complete_telemetry_running now tick count job_id status timing h p found =
      let stored = get-insert job_id job_id (add_timing (some timing) p) h.pending in
      (
        rw (found, complete_telemetry),
        rw (found, complete_telemetry),
        rw (found, complete_telemetry),
        rw (found, complete_telemetry) (stored ∙ rw (==_refl job_id)),
      )

shed_pending-few :
    (fuel : ℕ) (m : BTreeMap String PendingTelemetry)
    → length m ≤ fuel
    → length (shed_pending fuel m) < max_jobs
unfolding shed_pending
shed_pending-few zero m h = omega arith
shed_pending-few (suc fuel) m h = elim (Bool-cases (leb max_jobs (length m))) [
  | inr few ↦ let stop : shed_pending (suc fuel) m ≡ m = ground arith in rw stop (ground arith)
  | inl many ↦ elim (Option-cases (Map.oldest (λ (p : PendingTelemetry). p.started) m)) [
    | inl empty ↦ absurd (
        omega (
          arith,
          ap length (Map.oldest-eq-none (λ (p : PendingTelemetry). p.started) m empty),
          leb→le max_jobs (length m) many,
        ))
    | inr (e, found) ↦
        let there = Map.oldest-contains (λ (p : PendingTelemetry). p.started) m e found in
        let step : shed_pending (suc fuel) m ≡ shed_pending fuel (Map.remove e.0 m) =
          ground arith in
        rw step
          (shed_pending-few fuel (Map.remove e.0 m) (omega (arith, length-remove-lt e.0 m there)))
  ]
]

-- Opening a record leaves at most `MAX_JOBS` pending ones, whatever there was before, and the new
-- one is among them.
pub open_telemetry-few :
    (started started_ms : ℕ) (job_id query : String) (h : TelemetryStore)
    → (length (open_telemetry started started_ms job_id query h).pending ≤ max_jobs)
      × (is_some (Map.get job_id (open_telemetry started started_ms job_id query h).pending) ≡ true)
unfolding open_telemetry
open_telemetry-few started started_ms job_id query h =
    let young = retain_pending started h.pending in
    let few = shed_pending-few (length young) young (omega arith) in
    (
      omega (
        arith,
        few,
        length-insert-le job_id (opened started started_ms job_id query)
            (shed_pending (length young) young),
      ),
      rw (get-insert, ==_refl job_id),
    )
