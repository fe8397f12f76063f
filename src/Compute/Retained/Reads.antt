-- ===== src/Compute/Retained/Reads.antt =====
-- Lookups in `RetainedResults` of src/compute.rs.
use grepmesh.Prelude.{
  ℕ, ◌-◌, ◌≤◌, ◌<◌, ◌≡◌, ◌≢◌, refl, sym, ◌∙◌, Option, some, List, [], ◌∷◌, ◌++◌, length, arith, ltb,
  Ord, ◌==◌, ==_iff, Bool-cases, inl, inr, Keeps, done, skip, keep, Keeps-refl, Keeps-trans, All,
  All-Keeps, All-map, Pairwise, Pairwise-Keeps, Pairwise-snoc, Mem-Keeps, All-append, All-both, ◌⊎◌,
  Option-cases,
}
use mathlib.Core.List.{Memᴰ}
use grepmesh.Compute.Retained.{
  Row, RetainedResults, retained_result_bytes, retained_result_ttl, is_stale, prune_rows, prune,
  is_over, evict, find, get, take_row, push_row, insert_sized, insert,
}

module _ {ℓ} {K V : Type ℓ} where
  prune_rows-Keeps :
      (now bytes : ℕ) (rows : List (Row K V)) → Keeps (prune_rows now bytes rows).rows rows
  unfolding prune_rows
  prune_rows-Keeps now bytes [] = done
  prune_rows-Keeps now bytes (row ∷ rows) = elim (Bool-cases (is_stale now row)) [
    | inl e ↦ rw e (skip row (prune_rows-Keeps now (bytes - row.size) rows))
    | inr e ↦ rw e (Keeps-refl (row ∷ rows))
  ]

  evict-Keeps :
      (size bytes : ℕ) (rows : List (Row K V)) (c : RetainedResults K V)
      → evict size bytes rows ≡ some c
      → Keeps c.rows rows
  unfolding evict
  evict-Keeps size bytes [] c h = let e : c.rows ≡ [] = ground arith in rw e done
  evict-Keeps size bytes (row ∷ rows) c h =
      elim (Bool-cases (is_over size bytes (length (row ∷ rows)))) [
        | inl e ↦ skip row (evict-Keeps size (bytes - row.size) rows c (ground arith))
        | inr e ↦ let same : c.rows ≡ row ∷ rows = ground arith in rw same (Keeps-refl (row ∷ rows))
      ]

  -- Row `a` is older than row `b`, or as old, and of another key.
  pub record IsBefore (a b : Row K V) : Type ℓ where
    pub older : a.since ≤ b.since
    pub other : a.key ≢ b.key

  -- The rows stand in the order of their times, none is later than `now`, and no key stands twice.
  pub record IsTimely (now : ℕ) (c : RetainedResults K V) : Type ℓ where
    pub past : All (λ r. r.since ≤ now) c.rows
    pub in_order : Pairwise IsBefore c.rows

  IsTimely-Keeps :
      {now : ℕ} {c d : RetainedResults K V} → Keeps d.rows c.rows → IsTimely now c → IsTimely now d
  IsTimely-Keeps {now} k h = record {
    past = All-Keeps (λ r. r.since ≤ now) k h.past;
    in_order = Pairwise-Keeps IsBefore k h.in_order;
  }

  abbrev IsFresh : ℕ → Row K V → Type 0
  IsFresh now row = now - row.since < retained_result_ttl

  -- What a prune leaves is younger than the time to live.
  prune_rows-IsFresh :
      (now bytes : ℕ) (rows : List (Row K V))
      → Pairwise IsBefore rows
      → All (IsFresh now) (prune_rows now bytes rows).rows
  unfolding prune_rows
  prune_rows-IsFresh now bytes [] h = tt
  prune_rows-IsFresh now bytes (row ∷ rows) h = elim (Bool-cases (is_stale now row)) [
    | inl e ↦ rw e (prune_rows-IsFresh now (bytes - row.size) rows h.1)
    | inr e ↦
        let young : IsFresh now row = ground arith in
        rw e (
          young,
          All-map {Q = IsFresh now} rows
              (λ q (before : IsBefore row q). omega (arith, before.older)) h.0,
        )
  ]

  -- A prune does not touch a fresh row at the end.
  prune_rows-snoc :
      (now bytes : ℕ) (rows : List (Row K V)) (new : Row K V)
      → IsFresh now new
      → (front : List (Row K V)) × ((prune_rows now bytes (rows ++ new ∷ [])).rows
          ≡ front ++ new ∷ [])
        × Keeps front rows
  unfolding prune_rows
  prune_rows-snoc now bytes [] new h = ([], ground arith, done)
  prune_rows-snoc now bytes (row ∷ rows) new h = elim (Bool-cases (is_stale now row)) [
    | inl e ↦
        let (front, same, k) = prune_rows-snoc now (bytes - row.size) rows new h in
        (front, rw e same, skip row k)
    | inr e ↦ (row ∷ rows, rw e, Keeps-refl (row ∷ rows))
  ]

module _ {ℓ} {K V : Type ℓ} ⦃o : Ord K⦄ where
  take_row-Keeps :
      (key : K) (bytes : ℕ) (rows : List (Row K V)) → Keeps (take_row key bytes rows).rows rows
  unfolding take_row
  take_row-Keeps key bytes [] = done
  take_row-Keeps key bytes (row ∷ rows) = elim (Bool-cases (row.key == key)) [
    | inl e ↦ rw e (skip row (Keeps-refl rows))
    | inr e ↦ rw e (keep row (take_row-Keeps key bytes rows))
  ]

  abbrev IsOther : K → Row K V → Type ℓ
  IsOther key row = row.key ≢ key

  -- The key is gone once its row is taken.
  take_row-IsOther :
      (key : K) (bytes : ℕ) (rows : List (Row K V))
      → Pairwise IsBefore rows
      → All (IsOther key) (take_row key bytes rows).rows
  unfolding take_row
  take_row-IsOther key bytes [] h = tt
  take_row-IsOther key bytes (row ∷ rows) h = elim (Bool-cases (row.key == key)) [
    | inl e ↦
        let same : row.key ≡ key = (==_iff row.key key).0 e in
        rw e
          (All-map {Q = IsOther key} rows (λ q (b : IsBefore row q) p. b.other (same ∙ sym p)) h.0)
    | inr e ↦ rw e (λ p. ground (arith, ==_iff row.key key), take_row-IsOther key bytes rows h.1)
  ]

  find-snoc :
      (key : K) (rows : List (Row K V)) (new : Row K V)
      → All (IsOther key) rows
      → new.key ≡ key
      → find key (rows ++ new ∷ []) ≡ some new.value
  unfolding find
  find-snoc key [] new h e = ground (arith, ==_iff new.key key)
  find-snoc key (row ∷ rows) new h e =
      ground (arith, ==_iff row.key key, h.0, find-snoc key rows new h.1 e)

  find_source :
      (key : K) (rows : List (Row K V)) (v : V) (now : ℕ)
      → find key rows ≡ some v
      → All (IsFresh now) rows
      → (row : Row K V) × Memᴰ row rows × (row.key ≡ key) × (row.value ≡ v) × IsFresh now row
  unfolding find
  find_source key [] v now e h = absurd (ground arith)
  find_source key (row ∷ rows) v now e h = elim (Bool-cases (row.key == key)) [
    | inl same ↦ (row, Memᴰ.head refl, (==_iff row.key key).0 same, ground arith, h.0)
    | inr other ↦
        let (found, m, k, v', fresh) = find_source key rows v now (ground arith) h.1 in
        (found, Memᴰ.tail m, k, v', fresh)
  ]

  -- In rows in the order of their times with no key twice, what a lookup returns was stored under that
  -- very key, less than the time to live ago.
  pub get_source :
      (key : K) (v : V) (now : ℕ) (c : RetainedResults K V)
      → IsTimely now c
      → (get key now c).1 ≡ some v
      → (row : Row K V) × Memᴰ row c.rows
        × (row.key ≡ key)
        × (row.value ≡ v)
        × (now - row.since < retained_result_ttl)
  unfolding get prune
  get_source key v now c h e =
      let fresh = prune_rows-IsFresh now c.bytes c.rows h.in_order in
      let (row, m, same, stored, young) = find_source key (prune now c).rows v now e fresh in
      (row, Mem-Keeps (prune_rows-Keeps now c.bytes c.rows) row m, same, stored, young)

  -- What an insertion does to the rows: it stores the value behind older rows of other keys, or
  -- it only prunes.
  abbrev Stored : (V → Option ℕ) → K → V → ℕ → RetainedResults K V → RetainedResults K V → Type ℓ
  Stored size_of key value now c c' =
      (size : ℕ) × (front : List (Row K V)) × (size_of value ≡ some size)
      × (c'.rows ≡ front ++ record { key = key; since = now; value = value; size = size } ∷ [])
      × Keeps front (prune now c).rows
      × All (IsOther key) front

  -- The value has no text, or one too long: the rows are only pruned.
  abbrev Refused : (V → Option ℕ) → V → ℕ → RetainedResults K V → RetainedResults K V → Type ℓ
  Refused size_of value now c c' =
      (c' ≡ prune now c) × ((size : ℕ) → size_of value ≡ some size → retained_result_bytes < size)

  insert_shape :
      (size_of : V → Option ℕ) (key : K) (value : V) (now : ℕ) (c c' : RetainedResults K V)
      → IsTimely now c
      → insert size_of key value now c ≡ some c'
      → Refused size_of value now c c' ⊎ Stored size_of key value now c c'
  unfolding insert insert_sized push_row
  insert_shape size_of key value now c c' h e = elim (Option-cases (size_of value)) [
    | inl bad ↦ inl (ground arith, λ n k. absurd (ground arith))
    | inr (size, sized) ↦ elim (Bool-cases (ltb retained_result_bytes size)) [
      | inl big ↦ inl (ground arith, λ n k. ground arith)
      | inr fits ↦
          let p = prune now c in
          let t = take_row key p.bytes p.rows in
          elim (Option-cases (evict size t.bytes t.rows)) [
            | inl panic ↦ absurd (ground arith)
            | inr (room, made) ↦
                let k = evict-Keeps size t.bytes t.rows room made in
                let order =
                  Pairwise-Keeps IsBefore (prune_rows-Keeps now c.bytes c.rows) h.in_order in
                inr (
                  size,
                  room.rows,
                  sized,
                  ground arith,
                  Keeps-trans (take_row-Keeps key p.bytes p.rows) k,
                  All-Keeps (IsOther key) k
                      (take_row-IsOther key p.bytes p.rows (unfold prune in order)),
                )
          ]
    ]
  ]

  -- Rows in the order of their times, none later than `now` and no two with one key, stay such rows
  -- when a value is inserted at `now`.
  pub insert-IsTimely :
      (size_of : V → Option ℕ) (key : K) (value : V) (now : ℕ) (c c' : RetainedResults K V)
      → IsTimely now c
      → insert size_of key value now c ≡ some c'
      → IsTimely now c'
  unfolding prune
  insert-IsTimely size_of key value now c c' h e =
      let pruned : IsTimely now (prune now c) =
        IsTimely-Keeps (prune_rows-Keeps now c.bytes c.rows) h in
      elim (insert_shape size_of key value now c c' h e) [
        | inl (same, _) ↦ rw same pruned
        | inr (size, front, _, rows, k, others) ↦
            let new : Row K V = record { key = key; since = now; value = value; size = size } in
            let past = All-Keeps (λ r. r.since ≤ now) k pruned.past in
            let before : All (λ r. IsBefore r new) front =
              All-both {R = λ r. IsBefore r new} front
                (λ r old other. record { older = old; other = other }) past others in
            record {
              past = rw rows (All-append (λ r. r.since ≤ now) front (new ∷ []) past (omega arith));
              in_order = rw rows (
                  Pairwise-snoc IsBefore front new (Pairwise-Keeps IsBefore k pruned.in_order)
                    before);
            }
      ]

  -- From rows in the order of their times with no key twice, a value that fits and was inserted can be
  -- read back under its key until its time to live is over.
  pub get-insert :
      (size_of : V → Option ℕ) (key : K) (value : V) (now later size : ℕ)
      (c c' : RetainedResults K V)
      → IsTimely now c
      → insert size_of key value now c ≡ some c'
      → size_of value ≡ some size
      → size ≤ retained_result_bytes
      → later - now < retained_result_ttl
      → (get key later c').1 ≡ some value
  unfolding get prune
  get-insert size_of key value now later size c c' h e sized fits young =
      elim (insert_shape size_of key value now c c' h e) [
        | inl (_, big) ↦ absurd (omega (arith, big size sized))
        | inr (n, front, _, rows, k, others) ↦
            let new : Row K V = record { key = key; since = now; value = value; size = n } in
            let (kept, same, k') = prune_rows-snoc later c'.bytes front new young in
            rw (rows, same) (find-snoc key kept new (All-Keeps (IsOther key) k' others) refl)
      ]
