-- ===== src/Mesh/Claims.antt =====
-- `MeshService::claim_request` of src/mcp.rs: each request id is served once a minute. A claim
-- returns the table of the ids that were seen, and whether the id was accepted. `now` is the
-- monotonic clock in milliseconds.
pub mod Once
use grepmesh.Prelude.{
  ℕ, ◌-◌, Bool, true, false, Option, none, some, String, List, length, retain, ltb, leb,
  if◌then◌else◌, string_ord,
}
use grepmesh.Prelude.Map
use grepmesh.Prelude.Map.{BTreeMap}

abbrev pub claim_window_ms : ℕ
claim_window_ms = 60000

abbrev pub max_claims : ℕ
max_claims = 4096

-- `now.duration_since(*first_seen) < Duration::from_secs(60)`
unfoldable pub recent_claims : ℕ → BTreeMap String ℕ → BTreeMap String ℕ
recent_claims now = retain (λ (e : String × ℕ). ltb (now - e.1) claim_window_ms)

-- One entry goes when the table is full: the first of the oldest.
unfoldable pub make_room : BTreeMap String ℕ → BTreeMap String ℕ
unfolding Map.oldest Map.remove
make_room seen =
    if leb max_claims (length seen)
    then elim (Map.oldest (λ (at : ℕ). at) seen) [ none ↦ seen | some e ↦ Map.remove e.0 seen ]
    else seen

unfoldable pub claim_request : ℕ → String → BTreeMap String ℕ → BTreeMap String ℕ × Bool
unfolding recent_claims make_room
claim_request now request_id seen =
    let recent = recent_claims now seen in
    if Map.contains_key request_id recent
    then (recent, false)
    else (Map.insert request_id now (make_room recent), true)
