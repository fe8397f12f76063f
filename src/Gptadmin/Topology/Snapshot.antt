-- ===== src/Gptadmin/Topology/Snapshot.antt =====
-- src/gptadmin.rs, `parse_topology_response`: which nodes an accepted snapshot has as peers.
use grepmesh.Prelude.{
  ℕ, ◌≤◌, ◌≡◌, refl, Bool, true, false, Option, none, some, String, List, [], ◌∷◌, max,
  if◌then◌else◌, ◌==◌, string_ord, nat_ord, arith, Bool-cases, Option-cases, ◌⊎◌, inl, inr, ◌∙◌,
  subst, All, All-map,
}
use grepmesh.Gptadmin.Gate.{or_else}
use grepmesh.Gptadmin.Topology.{
  TopologyNodeWire, TopologyNode, ProviderSnapshot, saturating_add, max_generation, peer_of,
  push_front, peers_of, parse_topology_response,
}

abbrev GivesUrl : TopologyNodeWire → String → Type 0
GivesUrl node url = (node.local_url ≡ some url) ⊎ (node.peer_url ≡ some url)

-- A peer of a snapshot is a node that is another host. It has URLs of the node, is at least as new as
-- every node, and is fetched and expires when the snapshot says.
pub record IsPeer (local_host_id : String) (generation fetched_at_ms ttl_ms : ℕ)
    (node : TopologyNodeWire) (peer : TopologyNode) : Type 0 where
  pub another : (node.host_id == local_host_id) ≡ false
  pub host : peer.host_id ≡ node.host_id
  pub local : GivesUrl node peer.local_url
  pub routable : GivesUrl node peer.routable_url
  pub roots : peer.roots ≡ node.roots
  pub newest : generation ≤ peer.generation
  pub fetched : peer.fetched_at_ms ≡ fetched_at_ms
  pub expires : peer.expires_at_ms ≡ saturating_add fetched_at_ms ttl_ms

-- The peers are those of the nodes that are another host, in the order of the nodes.
pub data Peers (local_host_id : String) (generation fetched_at_ms ttl_ms : ℕ)
    : List TopologyNodeWire → List TopologyNode → Type 0 where
  no_nodes : Peers local_host_id generation fetched_at_ms ttl_ms [] []
  itself :
      (node : TopologyNodeWire) (nodes : List TopologyNodeWire) (peers : List TopologyNode)
      → (node.host_id == local_host_id) ≡ true
      → Peers local_host_id generation fetched_at_ms ttl_ms nodes peers
      → Peers local_host_id generation fetched_at_ms ttl_ms (node ∷ nodes) peers
  another_host :
      (node : TopologyNodeWire) (nodes : List TopologyNodeWire) (peer : TopologyNode)
      (peers : List TopologyNode)
      → IsPeer local_host_id generation fetched_at_ms ttl_ms node peer
      → Peers local_host_id generation fetched_at_ms ttl_ms nodes peers
      → Peers local_host_id generation fetched_at_ms ttl_ms (node ∷ nodes) (peer ∷ peers)

abbrev Found : (List TopologyNode → Type 0) → Option (List TopologyNode) → Type 0
Found P none = Unit
Found P (some peers) = P peers

or_else-local :
    (node : TopologyNodeWire) (url : String)
    → or_else node.local_url node.peer_url ≡ some url
    → GivesUrl node url
or_else-local node url e = elim (Option-cases node.local_url) [
  | inl n ↦ inr (subst (λ o. or_else o node.peer_url ≡ some url) n e)
  | inr (u, n) ↦ inl (n ∙ subst (λ o. or_else o node.peer_url ≡ some url) n e)
]

or_else-routable :
    (node : TopologyNodeWire) (url : String)
    → or_else node.peer_url node.local_url ≡ some url
    → GivesUrl node url
or_else-routable node url e = elim (Option-cases node.peer_url) [
  | inl n ↦ inl (subst (λ o. or_else o node.local_url ≡ some url) n e)
  | inr (u, n) ↦ inr (n ∙ subst (λ o. or_else o node.local_url ≡ some url) n e)
]

module _ (local_host_id : String) (generation fetched_at_ms ttl_ms : ℕ) where
  abbrev PeersOf : List TopologyNodeWire → List TopologyNode → Type 0
  PeersOf = Peers local_host_id generation fetched_at_ms ttl_ms

  push_front-Peers :
      (node : TopologyNodeWire) (nodes : List TopologyNodeWire) (peer : TopologyNode)
      (rest : Option (List TopologyNode))
      → IsPeer local_host_id generation fetched_at_ms ttl_ms node peer
      → Found (PeersOf nodes) rest
      → Found (PeersOf (node ∷ nodes)) (push_front peer rest)
  push_front-Peers node nodes peer none p all = tt
  push_front-Peers node nodes peer (some peers) p all = another_host node nodes peer peers p all

  peer_of-IsPeer :
      (node : TopologyNodeWire) (nodes : List TopologyNodeWire)
      → (node.host_id == local_host_id) ≡ false
      → (rest : Option (List TopologyNode)) → Found (PeersOf nodes) rest
      → Found (PeersOf (node ∷ nodes)) (elim (peer_of generation fetched_at_ms ttl_ms node) [
        | none ↦ none
        | some peer ↦ push_front peer rest
      ])
  unfolding peer_of
  peer_of-IsPeer node nodes d rest all =
      elim (Option-cases (or_else node.local_url node.peer_url)) [
        | inl n ↦ rw (peer_of, n) tt
        | inr (local_url, n) ↦ elim (Option-cases (or_else node.peer_url node.local_url)) [
          | inl m ↦ rw (peer_of, n, m) tt
          | inr (routable_url, m) ↦
              rw (peer_of, n, m)
                (push_front-Peers node nodes _ rest
                  (record {
                    another = d;
                    host = refl;
                    local = or_else-local node local_url n;
                    routable = or_else-routable node routable_url m;
                    roots = refl;
                    newest = omega arith;
                    fetched = refl;
                    expires = refl;
                  })
                  all)
        ]
      ]

  skip :
      (node : TopologyNodeWire) (nodes : List TopologyNodeWire) (rest : Option (List TopologyNode))
      → (node.host_id == local_host_id) ≡ true
      → Found (PeersOf nodes) rest
      → Found (PeersOf (node ∷ nodes)) rest
  skip node nodes none c all = tt
  skip node nodes (some peers) c all = itself node nodes peers c all

  peers_of-Peers :
      (nodes : List TopologyNodeWire)
      → Found (PeersOf nodes) (peers_of local_host_id generation fetched_at_ms ttl_ms nodes)
  unfolding peers_of
  peers_of-Peers [] = no_nodes
  peers_of-Peers (node ∷ nodes) = elim (Bool-cases (node.host_id == local_host_id)) [
    | inl c ↦ rw c (skip node nodes _ c (peers_of-Peers nodes))
    | inr c ↦ rw c (peer_of-IsPeer node nodes c _ (peers_of-Peers nodes))
  ]

max_generation-bound :
    (nodes : List TopologyNodeWire) → All (λ node. node.generation ≤ max_generation nodes) nodes
unfolding max_generation
max_generation-bound [] = tt
max_generation-bound (node ∷ nodes) = (
  omega arith,
  All-map {Q = λ (n : TopologyNodeWire). n.generation ≤ max node.generation (max_generation nodes)}
      nodes (λ n (le : n.generation ≤ max_generation nodes). omega arith)
      (max_generation-bound nodes),
)

-- What an accepted snapshot says of its peers, and of the nodes that it was made of.
pub record IsSnapshot (nodes : List TopologyNodeWire) (local_host_id : String)
    (fetched_at_ms ttl_ms : ℕ) (snapshot : ProviderSnapshot) : Type 0 where
  pub own : snapshot.local_host_id ≡ local_host_id
  pub newest : All (λ node. node.generation ≤ snapshot.generation) nodes
  pub peers : Peers local_host_id snapshot.generation fetched_at_ms ttl_ms nodes snapshot.peers

abbrev Accepted : (ProviderSnapshot → Type 0) → Option ProviderSnapshot → Type 0
Accepted P none = Unit
Accepted P (some snapshot) = P snapshot

Accepted-if :
    (P : ProviderSnapshot → Type 0) (b : Bool) (snapshot : ProviderSnapshot)
    → P snapshot
    → Accepted P (if b then some snapshot else none)
Accepted-if P true snapshot p = p
Accepted-if P false snapshot p = tt

-- An accepted snapshot has exactly the nodes that are not this host as peers, in their order, with URLs
-- and roots of the node, at least as new as every node, and with the times of the answer.
pub parse_topology_response-IsSnapshot :
    (is_valid : ProviderSnapshot → Bool) (nodes : List TopologyNodeWire) (local_host_id : String)
    (fetched_at_ms ttl_ms : ℕ) (snapshot : ProviderSnapshot)
    → parse_topology_response is_valid nodes local_host_id fetched_at_ms ttl_ms ≡ some snapshot
    → IsSnapshot nodes local_host_id fetched_at_ms ttl_ms snapshot
unfolding parse_topology_response
parse_topology_response-IsSnapshot is_valid nodes local_host_id fetched_at_ms ttl_ms snapshot e =
    let generation = max_generation nodes in
    let all = peers_of-Peers local_host_id generation fetched_at_ms ttl_ms nodes in
    let P = IsSnapshot nodes local_host_id fetched_at_ms ttl_ms in
    subst (Accepted P) e
      (elim (Option-cases (peers_of local_host_id generation fetched_at_ms ttl_ms nodes)) [
        | inl n ↦ rw (parse_topology_response, n) tt
        | inr (peers, n) ↦
            rw (parse_topology_response, n)
              (Accepted-if P _ _ (record {
                own = refl;
                newest = max_generation-bound nodes;
                peers =
                    subst (Found (Peers local_host_id generation fetched_at_ms ttl_ms nodes)) n all;
              }))
      ])
