-- ===== src/Mesh/Hosts/Distinct.antt =====
-- What `dedup_hits` and `unique_hosts` keep, and how far a request travels.
use grepmesh.Prelude.{
  ℕ, ◌≤◌, ◌<◌, ◌≡◌, ◌≢◌, true, false, ◌||◌, some, String, List, [], ◌∷◌, map, contains, add,
  contains-add, contains-add_self, Ord, ◌==◌, ==_iff, string_ord, arith, Bool-cases, inl, inr,
  Keeps, done, skip, keep, All, All-map, Pairwise,
}
use grepmesh.Mesh.Hosts.{dedup_from, dedup_hits, hop_count_for}

module _ {ℓ κ} {T : Type ℓ} {K : Type κ} ⦃o : Ord K⦄ (key : T → K) where
  dedup_from-Keeps : (seen : List K) (items : List T) → Keeps (dedup_from key seen items) items
  unfolding dedup_from
  dedup_from-Keeps seen [] = done
  dedup_from-Keeps seen (item ∷ items) = elim (Bool-cases (contains (key item) seen)) [
    | inl old ↦ rw old (skip item (dedup_from-Keeps (add (key item) seen) items))
    | inr new ↦ rw new (keep item (dedup_from-Keeps (add (key item) seen) items))
  ]

  dedup_from-fresh :
      (seen : List K) (items : List T)
      → All (λ t. contains (key t) seen ≡ false) (dedup_from key seen items)
  unfolding dedup_from
  dedup_from-fresh seen [] = tt
  dedup_from-fresh seen (item ∷ items) =
      let rest =
        All-map {Q = λ t. contains (key t) seen ≡ false}
          (dedup_from key (add (key item) seen) items)
          (λ t (h : contains (key t) (add (key item) seen) ≡ false).
            ground (arith, contains-add (key t) (key item) seen))
          (dedup_from-fresh (add (key item) seen) items) in
      elim (Bool-cases (contains (key item) seen)) [
        | inl old ↦ rw old rest
        | inr new ↦ rw new (new, rest)
      ]

  dedup_from-distinct :
      (seen : List K) (items : List T) → Pairwise (λ a b. key a ≢ key b) (dedup_from key seen items)
  unfolding dedup_from
  dedup_from-distinct seen [] = tt
  dedup_from-distinct seen (item ∷ items) =
      let rest = dedup_from-distinct (add (key item) seen) items in
      elim (Bool-cases (contains (key item) seen)) [
        | inl old ↦ rw old rest
        | inr new ↦ rw new (
          All-map {Q = λ b. key item ≢ key b} (dedup_from key (add (key item) seen) items)
              (λ b (h : contains (key b) (add (key item) seen) ≡ false) same.
                let known = contains-add_self (key item) seen in absurd (cc))
              (dedup_from-fresh (add (key item) seen) items),
          rest,
        )
      ]

  dedup_from-covers :
      (k : K) (seen : List K) (items : List T)
      → contains k (map key items) ≡ true
      → (contains k seen || contains k (map key (dedup_from key seen items))) ≡ true
  unfolding dedup_from contains
  dedup_from-covers k seen [] h = absurd (cc)
  dedup_from-covers k seen (item ∷ items) h = ground (
    arith,
    dedup_from-covers k (add (key item) seen) items,
    contains-add k (key item) seen,
    ==_iff k (key item),
  )

  -- The items that are kept, in their order: no two with one key, and one for every key.
  pub record Distinct (items kept : List T) : Type (ℓ ⊔ κ) where
    pub in_order : Keeps kept items
    pub distinct : Pairwise (λ a b. key a ≢ key b) kept
    pub covers : (k : K) → contains k (map key items) ≡ true → contains k (map key kept) ≡ true

  -- `dedup_hits` keeps items in their order, no two of them with one key, and one for each key.
  pub dedup_hits-Distinct : (items : List T) → Distinct items (dedup_hits key items)
  unfolding dedup_hits contains
  dedup_hits-Distinct items = record {
    in_order = dedup_from-Keeps [] items;
    distinct = dedup_from-distinct [] items;
    covers = λ k h. dedup_from-covers k [] items h;
  }

-- A request that was forwarded is not forwarded again: another host than this one is only asked at
-- hop 1, and only for a request that came at hop 0 (a hop count below 255 on arrival).
pub hop_count_for_forward :
    (local target : String) (base hop : ℕ)
    → base < 255
    → hop_count_for local target base ≡ some hop
    → (hop ≤ 1) × (target ≢ local → (base ≡ 0) × (hop ≡ 1))
unfolding hop_count_for
hop_count_for_forward local target base hop small h = elim (Bool-cases (target == local)) [
  | inl same ↦ (ground arith, λ other. absurd (other ((==_iff target local).0 same)))
  | inr other ↦ (ground arith, λ _. (ground arith, ground arith))
]
