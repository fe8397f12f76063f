-- ===== src/Jobs/Status/Restart.antt =====
-- Restarts and the truth of a reply: what a job read back from disk is, and what the state of a
-- reply says of its job.
use grepmesh.Prelude.{
  ℕ, ◌≡◌, ◌≢◌, ◌++◌, append_assoc, All-map, any-eq-false, refl, sym, ◌∙◌, Bool, true, false, not,
  Option, none, some, String, List, [], ◌∷◌, map, arith, Bool-cases, inl, inr, contains, string_ord,
  All, ==_iff, ==_refl, if◌then◌else◌, any, all,
}
use grepmesh.Prelude.Map
use grepmesh.Prelude.Map.{BTreeMap, get-insert}
use grepmesh.Backend.Hits.{SearchHit}
use grepmesh.Backend.Hosts.{PerHostStatus, failed_status, is_state_ok}
use grepmesh.Jobs.State.{SearchJob, HitKey, hit_key, hit_key_ord, from_job, into_job}
use grepmesh.Jobs.Result.{ok}
use grepmesh.Jobs.Store.{JobPersistence, load, is_job_id, find_file, is_expired}
use grepmesh.Jobs.Merge.Admission.{IsAdmitted}
use grepmesh.Jobs.Status.{
  JobState, interrupt, restore, is_empty, is_running, state_of, reply_of, statuses_of, is_partial,
}

abbrev restart_message : String
restart_message = "search interrupted by service restart"

get-interrupt_other :
    (hosts : List String) (m : BTreeMap String PerHostStatus) (k : String)
    → contains k hosts ≡ false
    → Map.get k (interrupt hosts m) ≡ Map.get k m
unfolding interrupt contains
get-interrupt_other [] m k h = refl
get-interrupt_other (host ∷ hosts) m k h =
    get-interrupt_other hosts (Map.insert host (failed_status host restart_message) m) k
      (ground arith)
    ∙ ground (arith, get-insert host k (failed_status host restart_message) m)

get-interrupt :
    (hosts : List String) (m : BTreeMap String PerHostStatus) (k : String)
    → contains k hosts ≡ true
    → Map.get k (interrupt hosts m) ≡ some (failed_status k restart_message)
unfolding interrupt contains
get-interrupt [] m k h = absurd (cc)
get-interrupt (host ∷ hosts) m k h = elim (Bool-cases (contains k hosts)) [
  | inl later ↦ get-interrupt hosts (Map.insert host (failed_status host restart_message) m) k later
  | inr last ↦
      let same : k ≡ host = (==_iff k host).0 (ground arith) in
      get-interrupt_other hosts (Map.insert host (failed_status host restart_message) m) k last
      ∙ ground (arith, get-insert host k (failed_status host restart_message) m, ==_iff k host)
]

is_empty-eq {ℓ} : {A : Type ℓ} (xs : List A) → is_empty xs ≡ true → xs ≡ []
is_empty-eq [] h = refl
is_empty-eq (x ∷ xs) h = absurd (cc)

contains-middle :
    (k : HitKey) (before after : List HitKey) → contains k (before ++ k ∷ after) ≡ true
unfolding contains
contains-middle k [] after = ground (arith, ==_refl k)
contains-middle k (j ∷ before) after = ground (arith, contains-middle k before after)

module _ {F : Type 0} where
  -- What a restart makes of an unfinished job.
  pub record Interrupted (job job' : SearchJob F) : Type 0 where
    pub idle : job'.pending_hosts ≡ []
    pub lost : job'.lost ≡ true
    pub hits : job'.results ≡ job.results
    pub statuses :
        (k : String)
        → Map.get k job'.host_status ≡ (
            if contains k job.pending_hosts
            then some (failed_status k restart_message)
            else Map.get k job.host_status)

  -- The restart of a job with pending hosts leaves none of them pending, the job lost, each host that
  -- was pending as failed, and every other status and all results as they were.
  pub restore-Interrupted :
      (job : SearchJob F) → is_running job ≡ true → Interrupted job (restore job)
  unfolding restore
  restore-Interrupted job h =
      let busy : is_empty job.pending_hosts ≡ false = ground arith in
      record {
        idle = rw busy;
        lost = rw busy;
        hits = rw busy;
        statuses = λ k. elim (Bool-cases (contains k job.pending_hosts)) [
          | inl was ↦ rw (busy, was) (get-interrupt job.pending_hosts job.host_status k was)
          | inr not_ ↦
              rw (busy, not_) (get-interrupt_other job.pending_hosts job.host_status k not_)
        ];
      }

  -- A job that is read back from disk is not running, and it is reported as lost if it was running
  -- when it was written.
  pub state_of-restore :
      (job : SearchJob F)
      → (is_running (restore job) ≡ false)
        × (is_running job ≡ true → state_of (restore job) ≡ JobState.lost)
  unfolding restore state_of
  state_of-restore job = elim (Bool-cases (is_empty job.pending_hosts)) [
    | inl e ↦ (rw e (rw e), λ h. absurd (ground arith))
    | inr e ↦ (rw e, λ h. rw e)
  ]

  -- In a reply that is not partial nothing is pending, the state is not running, no next poll and no
  -- artifact is named, and every status is that of a host that answered in full.
  pub reply_of-partial :
      (all : Bool) (page_size : Option ℕ) (start : ℕ) (handle job_id : String) (job : SearchJob F)
      → (reply_of all page_size start handle job_id job).partial ≡ false
      → let r = reply_of all page_size start handle job_id job in
        (r.pending_hosts ≡ [])
        × (r.state ≢ JobState.running)
        × (r.next_poll_after_ms ≡ none)
        × (r.artifact_id ≡ none)
        × All (λ s. is_state_ok s.state ≡ true) r.host_status
  unfolding reply_of is_partial state_of
  reply_of-partial all page_size start handle job_id job h =
      let idle : is_empty job.pending_hosts ≡ true = ground arith in
      let full : any (λ (s : PerHostStatus). not (is_state_ok s.state)) (statuses_of job) ≡ false =
        ground arith in
      (
        is_empty-eq job.pending_hosts idle,
        λ e. ground arith,
        ground arith,
        ground arith,
        All-map (statuses_of job) (λ s (e : not (is_state_ok s.state) ≡ false). ground arith)
            (any-eq-false (λ (s : PerHostStatus). not (is_state_ok s.state)) (statuses_of job)
              full),
      )

  -- The only data that a job loses on disk are the keys of the hits that it did not admit.
  into_job-from_job :
      (job : SearchJob F)
      → into_job (from_job job) ≡ record job { seen_results = map hit_key job.results }
  unfolding into_job from_job
  into_job-from_job job = refl

  noted_self :
      (before : List HitKey) (hits : List (SearchHit F)) (seen : List HitKey)
      → seen ≡ before ++ map hit_key hits
      → All (λ hit. contains (hit_key hit) seen ≡ true) hits
  noted_self before [] seen e = tt
  noted_self before (hit ∷ hits) seen e = (
    rw e (contains-middle (hit_key hit) before (map hit_key hits)),
    noted_self (before ++ hit_key hit ∷ []) hits seen
        (e ∙ sym (append_assoc before (hit_key hit ∷ []) (map hit_key hits))),
  )

  -- A valid job id whose file holds a job that has not expired and that admits no hit twice: the job is
  -- read back the same, with the keys of its results as the keys that were seen, and it still admits no
  -- hit twice.
  pub load-from_job :
      (now : ℕ) (job_id : String) (job : SearchJob F) (store : JobPersistence F)
      → is_job_id job_id ≡ true
      → find_file job_id store.files ≡ some (from_job job)
      → is_expired now store.ttl_ms job.created_ms ≡ false
      → IsAdmitted job
      → (job' : SearchJob F) × (load now job_id store ≡ ok (store, some job'))
        × IsAdmitted job'
        × (job' ≡ record job { seen_results = map hit_key job.results })
  unfolding load from_job
  load-from_job now job_id job store valid found young h = (
    into_job (from_job job),
    ground arith,
    rw into_job-from_job (record {
      bounded = h.bounded;
      noted = noted_self [] job.results (map hit_key job.results) refl;
      distinct = h.distinct;
    }),
    into_job-from_job job,
  )
