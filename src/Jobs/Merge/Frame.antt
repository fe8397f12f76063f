-- ===== src/Jobs/Merge/Frame.antt =====
-- What `merge_result` of src/jobs.rs leaves alone.
use grepmesh.Prelude.{
  ◌≡◌, refl, ◌∙◌, false, ◌&&◌, ◌||◌, not, Option, none, some, List, [], ◌∷◌, length, contains, ltb,
  Bool-cases, inl, inr, unwrap_or, string_ord,
}
use grepmesh.Prelude.Map
use grepmesh.Backend.Hosts.{PerHostStatus}
use grepmesh.Backend.Hits.{SearchHit}
use grepmesh.Jobs.State.{SearchJob, hit_key, hit_key_ord}
use grepmesh.Jobs.Merge.{HostAnswer, merge_status, admit, merge_hits, merge_result}

module _ {F : Type 0} where
  pending-merge_status :
      (job : SearchJob F) (statuses : List (Option PerHostStatus))
      → (merge_status job statuses).pending_hosts ≡ job.pending_hosts
  unfolding merge_status
  pending-merge_status job [] = refl
  pending-merge_status job (none ∷ rest) = pending-merge_status job rest
  pending-merge_status job (some s ∷ rest) =
      pending-merge_status (record job { host_status = Map.insert s.host_id s job.host_status })
        rest

  pending-admit :
      (job : SearchJob F) (hit : SearchHit F) → (admit job hit).pending_hosts ≡ job.pending_hosts
  unfolding admit
  pending-admit job hit =
      elim (Bool-cases
        (not (contains (hit_key hit) job.seen_results) && ltb (length job.results) job.limit)) [
          | inl e ↦ rw e
          | inr e ↦ rw e
        ]

  pending-merge_hits :
      (job : SearchJob F) (hits : List (Option (SearchHit F)))
      → (merge_hits job hits).pending_hosts ≡ job.pending_hosts
  unfolding merge_hits
  pending-merge_hits job [] = refl
  pending-merge_hits job (none ∷ rest) = pending-merge_hits job rest
  pending-merge_hits job (some hit ∷ rest) =
      pending-merge_hits (admit job hit) rest ∙ pending-admit job hit

  -- An answer does not touch the hosts that are still pending.
  pub pending-merge_result :
      (job : SearchJob F) (answer : HostAnswer F)
      → (merge_result job answer).pending_hosts ≡ job.pending_hosts
  unfolding merge_result
  pending-merge_result job answer =
      let job₁ = record job { truncated = job.truncated || unwrap_or false answer.truncated } in
      pending-merge_hits (merge_status job₁ (unwrap_or [] answer.host_status))
        (unwrap_or [] answer.results)
      ∙ pending-merge_status job₁ (unwrap_or [] answer.host_status)
