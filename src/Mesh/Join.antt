-- ===== src/Mesh/Join.antt =====
-- `MeshService::join_hosts_with_timeout` of src/mcp.rs: the answers of several hosts become one.
-- The futures end in some order: a run is the list of the answers that arrive before the deadline,
-- and the deadline comes after the last of them. `exhausted` is the end of the stream of futures.
pub mod Partial
use grepmesh.Prelude.{
  Bool, true, false, not, ◌||◌, List, [], ◌∷◌, ◌++◌, String, map, any, is_empty, if◌then◌else◌,
  remove_key, collect, string_ord,
}
use grepmesh.Backend.Hosts.{PerHostStatus, complete_status, partial_status, failed_status}

-- What a host returns when there is no error.
pub record HostReply {ℓ} (A : Type ℓ) : Type ℓ where
  pub items : List A
  pub statuses : List PerHostStatus
  pub partial : Bool
  pub truncated : Bool

pub data Reply {ℓ} (A : Type ℓ) : Type ℓ where
  replied : HostReply A → Reply A
  refused : String → Reply A

pub data Event {ℓ} (A : Type ℓ) : Type ℓ where
  answered : String → Reply A → Event A
  exhausted : Event A

-- The variables of the loop.
pub record Joined {ℓ} (A : Type ℓ) : Type ℓ where
  pub pending_hosts : List String
  pub merged : List A
  pub statuses : List PerHostStatus
  pub partial : Bool
  pub truncated : Bool

module _ {ℓ} {A : Type ℓ} where
  -- The statuses that a reply adds.
  unfoldable pub reply_statuses : String → HostReply A → List PerHostStatus
  reply_statuses host_id r = elim r.statuses [
    | [] ↦
        (if r.partial
          then partial_status host_id "host returned a partial result"
          else complete_status host_id)
        ∷ []
    | s ∷ ss ↦ s ∷ ss
  ]

  unfoldable pub note_answer : String → Reply A → Joined A → Joined A
  unfolding remove_key reply_statuses
  note_answer host_id (replied r) s = record {
    pending_hosts = remove_key host_id s.pending_hosts;
    merged = s.merged ++ r.items;
    statuses = s.statuses ++ reply_statuses host_id r;
    partial = s.partial || (r.partial || any (λ (h : PerHostStatus). not h.is_ok) r.statuses);
    truncated = s.truncated || r.truncated;
  }
  note_answer host_id (refused error) s = record s {
    pending_hosts = remove_key host_id s.pending_hosts;
    partial = true;
    statuses = s.statuses ++ failed_status host_id error ∷ [];
  }

  -- The deadline: every host that is still pending has failed.
  unfoldable pub time_out : Joined A → Joined A
  time_out s = record s {
    partial = true;
    statuses = s.statuses ++ map (λ host. failed_status host "overall timeout") s.pending_hosts;
  }

  unfoldable pub join_loop : List (Event A) → Joined A → Joined A
  unfolding note_answer time_out
  join_loop [] s = if is_empty s.pending_hosts then s else time_out s
  join_loop (exhausted ∷ rest) s = s
  join_loop (answered host_id reply ∷ rest) s =
      let next = join_loop rest (note_answer host_id reply s) in
      if is_empty s.pending_hosts then s else next

  -- `targets` are the hosts of the futures.
  unfoldable pub join_hosts : List String → List (Event A) → Joined A
  unfolding join_loop collect
  join_hosts targets events = join_loop events (record {
    pending_hosts = collect targets;
    merged = [];
    statuses = [];
    partial = false;
    truncated = false;
  })
