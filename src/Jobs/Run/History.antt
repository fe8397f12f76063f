-- ===== src/Jobs/Run/History.antt =====
-- What the search history knows of the jobs in the table.
use grepmesh.Prelude.{
  ℕ, ◌≡◌, refl, sym, ap, ◌∙◌, true, false, Option, none, some, String, List, [], ◌∷◌, ◌++◌, length,
  arith, Option-cases, inl, inr, string_ord, ==_refl,
}
use grepmesh.Prelude.Map
use grepmesh.Prelude.Map.{get-remove}
use grepmesh.Jobs.Result.{Error}
use grepmesh.Jobs.State.{SearchJob, PersistedSearchJob}
use grepmesh.Jobs.Table.{SearchJobs}
use grepmesh.Jobs.Status.{is_empty}
use grepmesh.Jobs.Telemetry.{
  HostTiming, SearchTelemetry, TelemetryStore, trim_telemetry, finished, add_timing, save_history,
  complete_telemetry,
}
use grepmesh.Jobs.Run.Completion.{stored, save-Saved, finish_host_found}
use grepmesh.Jobs.Run.{
  note_outcome, Outcome, Engine, is_running, noted_status, note_done, finish_host, host_done,
}

save_history-pending :
    (h : TelemetryStore) (r : List SearchTelemetry × Option Error)
    → (save_history h r).0.pending ≡ h.pending
save_history-pending h (records, some e) = refl
save_history-pending h (records, none) = ground arith

module _ (encode_records : List SearchTelemetry → Option ℕ) where
  complete_telemetry-closed :
      (now tick count : ℕ) (job_id status : String) (timing : HostTiming) (h : TelemetryStore)
      → Map.get job_id
          (complete_telemetry encode_records now tick job_id
            (some timing)
            true
            count
            status
            h).0.pending
        ≡ none
  unfolding complete_telemetry
  complete_telemetry-closed now tick count job_id status timing h =
      elim (Option-cases (Map.get job_id h.pending)) [
        | inl gone ↦ rw (gone, complete_telemetry) gone
        | inr (p, found) ↦
            let h' = record h { pending = Map.remove job_id h.pending } in
            let saved = save_history-pending h' (
              trim_telemetry encode_records now
                (h.records ++ finished now tick count status (add_timing (some timing) p) ∷ [])) in
            rw (found, complete_telemetry, saved)
              (get-remove job_id job_id h.pending ∙ rw (==_refl job_id) refl)
      ]

module _ {F : Type 0} (encode : PersistedSearchJob F → Option ℕ)
    (encode_records : List SearchTelemetry → Option ℕ) (describe : Error → String) where
  stays :
      (job_id target : String) (outcome : Outcome F) (old : SearchJob F) (t : SearchJobs F)
      → Map.get job_id t.jobs ≡ some old
      → (job : SearchJob F) × (Map.get job_id
            (finish_host encode describe job_id target outcome t).jobs
          ≡ some job)
  stays job_id target outcome old t e =
      elim (save-Saved encode describe job_id (note_outcome target outcome old) t) [
        | stored job kept _ _ ↦
            (job, rw (finish_host_found encode describe job_id target outcome old t e) kept)
      ]

  note_done-closed :
      (now tick : ℕ) (job_id : String) (timing : HostTiming) (job : SearchJob F) (t : SearchJobs F)
      (h : TelemetryStore)
      → Map.get job_id t.jobs ≡ some job
      → is_running job_id t ≡ false
      → Map.get job_id (note_done encode encode_records describe now tick job_id timing t h).pending
        ≡ none
  unfolding is_running
  note_done-closed now tick job_id timing job t h e idle =
      let done : is_empty job.pending_hosts ≡ true = ground arith in
      rw (e, note_done, done)
        (complete_telemetry-closed encode_records now tick (length job.results) job_id
          (noted_status job) timing h)

  host_done_found :
      (now tick : ℕ) (job_id target : String) (timing : HostTiming) (outcome : Outcome F)
      (old : SearchJob F) (s : Engine F)
      → Map.get job_id s.table.jobs ≡ some old
      → let t = finish_host encode describe job_id target outcome s.table in
        host_done encode encode_records describe now tick job_id target timing outcome s ≡ record {
          table = t;
          telemetry = note_done encode encode_records describe now tick job_id timing t s.telemetry;
        }
  unfolding host_done
  host_done_found now tick job_id target timing outcome old s e = rw (e, host_done) refl

  -- A job of the table that is not running after the end of a host is not pending in the history.
  pub host_done-closed :
      (now tick : ℕ) (job_id target : String) (timing : HostTiming) (outcome : Outcome F)
      (old : SearchJob F) (s : Engine F)
      → Map.get job_id s.table.jobs ≡ some old
      → let s' = host_done encode encode_records describe now tick job_id target timing outcome s in
        is_running job_id s'.table ≡ false → Map.get job_id s'.telemetry.pending ≡ none
  host_done-closed now tick job_id target timing outcome old s found idle =
      let (job, e) = stays job_id target outcome old s.table found in
      let t = finish_host encode describe job_id target outcome s.table in
      let same = host_done_found now tick job_id target timing outcome old s found in
      let idle' : is_running job_id t ≡ false =
        ap (λ (u : Engine F). is_running job_id u.table) (sym same) ∙ idle in
      rw same (note_done-closed now tick job_id timing job t s.telemetry e idle')
