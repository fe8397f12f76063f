-- ===== src/Mesh/Hosts.antt =====
-- The hosts of a request: `unique_hosts` and `hop_count_for` of src/mcp.rs, and `dedup_hits` of
-- src/backend.rs.
pub mod Distinct
use grepmesh.Prelude.{
  ℕ, ◌+◌, ◌%◌, Bool, true, false, Option, none, some, String, List, [], ◌∷◌, ltb, if◌then◌else◌,
  contains, add, Ord, ◌==◌, string_ord,
}

module _ {ℓ κ} {T : Type ℓ} {K : Type κ} ⦃o : Ord K⦄ (key : T → K) where
  -- The loop: `seen` is the set of the keys that came before.
  unfoldable pub dedup_from : List K → List T → List T
  dedup_from seen [] = []
  dedup_from seen (item ∷ items) =
      let rest = dedup_from (add (key item) seen) items in
      if contains (key item) seen then rest else item ∷ rest

  unfoldable pub dedup_hits : List T → List T
  unfolding dedup_from
  dedup_hits = dedup_from []

unfoldable pub unique_hosts : List String → List String
unfolding dedup_hits
unique_hosts = dedup_hits (λ host. host)

-- The hop count sent to `target`, none where it is rejected. `base + 1` is a sum of bytes.
unfoldable pub hop_count_for : String → String → ℕ → Option ℕ
hop_count_for local target base =
    let hop = if target == local then base else (base + 1) % 256 in
    if ltb 1 hop then none else some hop
