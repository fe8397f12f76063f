-- ===== src/Gptadmin/Topology.antt =====
-- `parse_topology_response` of src/gptadmin.rs. `is_valid` is `ProviderSnapshot::validate`, of a crate
-- that is not part of the repository.
pub mod Snapshot
use grepmesh.Prelude.{
  ℕ, ◌+◌, ◌≤◌, ◌≡◌, refl, sym, Bool, true, false, not, Option, none, some, String, List, [], ◌∷◌,
  max, min, ◌^◌, ◌-◌, if◌then◌else◌, ◌==◌, ==_iff, string_ord, nat_ord, arith, Bool-cases,
  Option-cases, ◌⊎◌, inl, inr, ap, ◌∙◌, subst, All, All-map, length, retain,
}
use grepmesh.Gptadmin.Gate.{or_else}

-- A node of the answer.
pub record TopologyNodeWire : Type 0 where
  pub host_id : String
  pub local_url : Option String
  pub peer_url : Option String
  pub capabilities : List String
  pub roots : List String
  pub generation : ℕ

pub record TopologyNode : Type 0 where
  pub host_id : String
  pub gptadmin_relay_url : Option String
  pub local_url : String
  pub routable_url : String
  pub capabilities : List String
  pub roots : List String
  pub generation : ℕ
  pub fetched_at_ms : ℕ
  pub expires_at_ms : ℕ
  pub last_refresh_error : Option String

pub record ProviderSnapshot : Type 0 where
  pub local_host_id : String
  pub generation : ℕ
  pub fetched_at_ms : ℕ
  pub ttl_ms : ℕ
  pub peers : List TopologyNode

abbrev pub saturating_add : ℕ → ℕ → ℕ
saturating_add a b = min (a + b) (2 ^ 64 - 1)

unfoldable pub max_generation : List TopologyNodeWire → ℕ
max_generation [] = 1
max_generation (node ∷ nodes) = max node.generation (max_generation nodes)

-- `none` where the node has no URL
unfoldable pub peer_of : ℕ → ℕ → ℕ → TopologyNodeWire → Option TopologyNode
peer_of generation fetched_at_ms ttl_ms node = elim (or_else node.local_url node.peer_url) [
  | none ↦ none
  | some local_url ↦ elim (or_else node.peer_url node.local_url) [
    | none ↦ none
    | some routable_url ↦ some (record {
      host_id = node.host_id;
      gptadmin_relay_url = none;
      local_url = local_url;
      routable_url = routable_url;
      capabilities = node.capabilities;
      roots = node.roots;
      generation = max node.generation generation;
      fetched_at_ms = fetched_at_ms;
      expires_at_ms = saturating_add fetched_at_ms ttl_ms;
      last_refresh_error = none;
    })
  ]
]

abbrev pub push_front {ℓ} : {A : Type ℓ} → A → Option (List A) → Option (List A)
push_front a none = none
push_front a (some as_) = some (a ∷ as_)

-- the filter, the map and the `collect` into a result
unfoldable pub peers_of : String → ℕ → ℕ → ℕ → List TopologyNodeWire → Option (List TopologyNode)
unfolding peer_of
peers_of local_host_id generation fetched_at_ms ttl_ms [] = some []
peers_of local_host_id generation fetched_at_ms ttl_ms (node ∷ nodes) =
    let rest = peers_of local_host_id generation fetched_at_ms ttl_ms nodes in
    if node.host_id == local_host_id
    then rest
    else elim (peer_of generation fetched_at_ms ttl_ms node) [
      | none ↦ none
      | some peer ↦ push_front peer rest
    ]

unfoldable pub parse_topology_response :
    (ProviderSnapshot → Bool) → List TopologyNodeWire → String → ℕ → ℕ → Option ProviderSnapshot
unfolding max_generation peers_of
parse_topology_response is_valid nodes local_host_id fetched_at_ms ttl_ms =
    let generation = max_generation nodes in
    elim (peers_of local_host_id generation fetched_at_ms ttl_ms nodes) [
      | none ↦ none
      | some peers ↦
          let result : ProviderSnapshot = record {
            local_host_id = local_host_id;
            generation = generation;
            fetched_at_ms = fetched_at_ms;
            ttl_ms = ttl_ms;
            peers = peers;
          } in
          if is_valid result then some result else none
    ]
