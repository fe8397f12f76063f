-- ===== src/Backend/Hosts.antt =====
-- `HostSearchState` and `PerHostStatus` of src/backend.rs, and `normalize_host_statuses` of
-- src/mcp.rs.
use grepmesh.Prelude.{Bool, true, false, Option, none, some, String, List, map, if◌then◌else◌}

pub data HostSearchState : Type 0 where
  ok partial failed : HostSearchState

pub record PerHostStatus : Type 0 where
  pub host_id : String
  pub is_ok : Bool
  pub state : Option HostSearchState
  pub error : Option String

abbrev pub complete_status : String → PerHostStatus
complete_status host = record {
  host_id = host;
  is_ok = true;
  state = some HostSearchState.ok;
  error = none;
}

abbrev pub partial_status : String → String → PerHostStatus
partial_status host error = record {
  host_id = host;
  is_ok = false;
  state = some HostSearchState.partial;
  error = some error;
}

abbrev pub failed_status : String → String → PerHostStatus
failed_status host error = record {
  host_id = host;
  is_ok = false;
  state = some HostSearchState.failed;
  error = some error;
}

-- The state of a status that has none.
legacy_state : Bool → Bool → HostSearchState
legacy_state is_ok response_partial =
    if is_ok
    then HostSearchState.ok
    else if response_partial
    then HostSearchState.partial
    else HostSearchState.failed

unfoldable pub normalize_legacy : Bool → PerHostStatus → PerHostStatus
unfolding legacy_state
normalize_legacy response_partial s = elim s.state [
  | none ↦ record s { state = some (legacy_state s.is_ok response_partial) }
  | some _ ↦ s
]

unfoldable pub normalize_host_statuses : Bool → List PerHostStatus → List PerHostStatus
unfolding normalize_legacy
normalize_host_statuses response_partial = map (normalize_legacy response_partial)

abbrev pub is_state_ok : Option HostSearchState → Bool
is_state_ok (some HostSearchState.ok) = true
is_state_ok _ = false

abbrev pub is_state_failed : Option HostSearchState → Bool
is_state_failed (some HostSearchState.failed) = true
is_state_failed _ = false
