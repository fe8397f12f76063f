-- ===== src/Jobs/Merge.antt =====
-- `merge_result` of src/jobs.rs: one host's answer goes into its job. A field of the JSON answer is
-- an option, and an entry that `serde_json::from_value` does not decode is `none`.
pub mod Admission
pub mod Frame
use grepmesh.Prelude.{
  ℕ, Bool, true, false, ◌&&◌, ◌||◌, not, Option, none, some, String, List, [], ◌∷◌, ◌++◌, length,
  ltb, if◌then◌else◌, unwrap_or, contains, add, string_ord,
}
use grepmesh.Prelude.Map
use grepmesh.Backend.Hosts.{PerHostStatus}
use grepmesh.Backend.Hits.{SearchHit}
use grepmesh.Jobs.State.{SearchJob, HitKey, hit_key, hit_key_ord}

pub record HostAnswer (F : Type 0) : Type 0 where
  pub truncated : Option Bool
  pub host_status : Option (List (Option PerHostStatus))
  pub results : Option (List (Option (SearchHit F)))

module _ {F : Type 0} where
  unfoldable pub merge_status : SearchJob F → List (Option PerHostStatus) → SearchJob F
  merge_status job [] = job
  merge_status job (none ∷ rest) = merge_status job rest
  merge_status job (some status ∷ rest) =
      merge_status (record job { host_status = Map.insert status.host_id status job.host_status })
        rest

  -- `seen_results.insert(key) && results.len() < limit`: the key is noted either way.
  unfoldable pub admit : SearchJob F → SearchHit F → SearchJob F
  admit job hit =
      let key = hit_key hit in
      let noted = record job { seen_results = add key job.seen_results } in
      if not (contains key job.seen_results) && ltb (length job.results) job.limit
      then record noted { results = job.results ++ hit ∷ [] }
      else record noted { truncated = true }

  unfoldable pub merge_hits : SearchJob F → List (Option (SearchHit F)) → SearchJob F
  unfolding admit
  merge_hits job [] = job
  merge_hits job (none ∷ rest) = merge_hits job rest
  merge_hits job (some hit ∷ rest) = merge_hits (admit job hit) rest

  unfoldable pub merge_result : SearchJob F → HostAnswer F → SearchJob F
  unfolding merge_status merge_hits
  merge_result job answer =
      let job₁ = record job { truncated = job.truncated || unwrap_or false answer.truncated } in
      merge_hits (merge_status job₁ (unwrap_or [] answer.host_status)) (unwrap_or [] answer.results)
