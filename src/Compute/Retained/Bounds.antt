-- ===== src/Compute/Retained/Bounds.antt =====
-- The byte counter and the two hard bounds of `RetainedResults` in src/compute.rs.
use grepmesh.Prelude.{
  ℕ, ◌+◌, ◌-◌, ◌≤◌, ◌<◌, ◌≡◌, refl, Option, none, some, List, [], ◌∷◌, ◌++◌, length, sum_by,
  length-append, sum_by-append, arith, ltb, Ord, ◌==◌, Bool-cases, inl, inr,
}
use grepmesh.Compute.Retained.{
  Row, RetainedResults, retained_result_count, retained_result_bytes, is_stale, prune_rows, prune,
  is_over, evict, get, take_row, push_row, insert_sized, insert, empty,
}

module _ {ℓ} {K V : Type ℓ} where
  abbrev pub row_size : Row K V → ℕ
  row_size row = row.size

  -- The counter is the sum of the rows, and the two hard bounds hold.
  pub record IsBounded (c : RetainedResults K V) : Type ℓ where
    pub exact : c.bytes ≡ sum_by row_size c.rows
    pub few : length c.rows ≤ retained_result_count
    pub light : c.bytes ≤ retained_result_bytes

  prune_rows-IsBounded :
      (now bytes : ℕ) (rows : List (Row K V))
      → IsBounded (record { rows = rows; bytes = bytes })
      → IsBounded (prune_rows now bytes rows)
  unfolding prune_rows
  prune_rows-IsBounded now bytes [] h = h
  prune_rows-IsBounded now bytes (row ∷ rows) h = elim (Bool-cases (is_stale now row)) [
    | inl e ↦ rw e (prune_rows-IsBounded now (bytes - row.size) rows (omega arith))
    | inr e ↦ rw e h
  ]

  pub prune-IsBounded : (now : ℕ) (c : RetainedResults K V) → IsBounded c → IsBounded (prune now c)
  unfolding prune
  prune-IsBounded now c h = prune_rows-IsBounded now c.bytes c.rows h

  -- Making room ends with a suffix of the rows, below both bounds.
  evict-room :
      (size bytes : ℕ) (rows : List (Row K V))
      → size ≤ retained_result_bytes
      → bytes ≡ sum_by row_size rows
      → (c : RetainedResults K V) × (evict size bytes rows ≡ some c)
        × (c.bytes ≡ sum_by row_size c.rows)
        × (length c.rows < retained_result_count)
        × (c.bytes + size ≤ retained_result_bytes)
  unfolding evict
  evict-room size bytes [] fits exact =
      (record { rows = []; bytes = bytes }, ground arith, omega arith, omega arith, omega arith)
  evict-room size bytes (row ∷ rows) fits exact =
      elim (Bool-cases (is_over size bytes (length (row ∷ rows)))) [
        | inl e ↦ rw e (evict-room size (bytes - row.size) rows fits (omega arith))
        | inr e ↦
            rw e
              (record { rows = row ∷ rows; bytes = bytes }, refl, exact, ground arith, ground arith)
      ]

module _ {ℓ} {K V : Type ℓ} ⦃o : Ord K⦄ where
  -- `before` is the size of the rows already passed.
  take_row-lem :
      (key : K) (before bytes : ℕ) (rows : List (Row K V))
      → bytes ≡ before + sum_by row_size rows
      → let t = take_row key bytes rows in
        (t.bytes ≡ before + sum_by row_size t.rows) × (length t.rows ≤ length rows)
  unfolding take_row
  take_row-lem key before bytes [] h = (h, omega arith)
  take_row-lem key before bytes (row ∷ rows) h = elim (Bool-cases (row.key == key)) [
    | inl e ↦ rw e (omega arith)
    | inr e ↦ rw e (omega (arith, take_row-lem key (before + row.size) bytes rows (omega arith)))
  ]

  -- A lookup keeps the counter exact and both bounds.
  pub get-IsBounded :
      (key : K) (now : ℕ) (c : RetainedResults K V) → IsBounded c → IsBounded (get key now c).0
  unfolding get
  get-IsBounded key now c h = prune-IsBounded now c h

  insert_sized-IsBounded :
      (key : K) (value : V) (now : ℕ) (size : Option ℕ) (c : RetainedResults K V)
      → IsBounded c
      → (c' : RetainedResults K V) × (insert_sized key value now size c ≡ some c') × IsBounded c'
  unfolding insert_sized
  insert_sized-IsBounded key value now none c h = (c, refl, h)
  insert_sized-IsBounded key value now (some size) c h =
      elim (Bool-cases (ltb retained_result_bytes size)) [
        | inl big ↦ rw big (c, refl, h)
        | inr fits ↦
            let t = take_row key c.bytes c.rows in
            let known = take_row-lem key 0 c.bytes c.rows (omega (arith, h.exact)) in
            let (room, made, exact, few, light) =
              evict-room size t.bytes t.rows (ground arith) (omega (arith, known.0)) in
            let new : Row K V = record { key = key; since = now; value = value; size = size } in
            rw (fits, made, push_row)
              (
                record { rows = room.rows ++ new ∷ []; bytes = room.bytes + size },
                refl,
                record {
                  exact = omega (arith, sum_by-append row_size room.rows (new ∷ []), exact);
                  few = omega (arith, length-append room.rows (new ∷ []), few);
                  light = light;
                },
              )
      ]

  -- From a bounded cache an insertion does not panic, and it keeps the counter exact and both
  -- bounds, whether the value is stored or refused.
  pub insert-IsBounded :
      (size_of : V → Option ℕ) (key : K) (value : V) (now : ℕ) (c : RetainedResults K V)
      → IsBounded c
      → (c' : RetainedResults K V) × (insert size_of key value now c ≡ some c') × IsBounded c'
  unfolding insert
  insert-IsBounded size_of key value now c h =
      insert_sized-IsBounded key value now (size_of value) (prune now c) (prune-IsBounded now c h)

  pub empty-IsBounded : IsBounded (empty {K = K} {V = V})
  empty-IsBounded = omega arith
