-- ===== src/Compute/Retained.antt =====
-- `RetainedResults` of src/compute.rs: the bounded cache of finished OCR results.
-- An `Instant` is a number of nanoseconds, and `saturating_duration_since` the truncated `-`.
-- `none` as a whole result is the panic of `unwrap` on an empty queue.
pub mod Bounds
pub mod Reads
mod Tests
use grepmesh.Prelude.{
  ℕ, zero, suc, ◌+◌, ◌-◌, ◌*◌, ◌^◌, Bool, ◌||◌, Option, none, some, List, [], ◌∷◌, ◌++◌, length,
  sum_by, ltb, leb, if◌then◌else◌, Ord, ◌==◌,
}

abbrev pub retained_result_count : ℕ
retained_result_count = 64

abbrev pub retained_result_bytes : ℕ
retained_result_bytes = 64 * 1024 * 1024

abbrev pub retained_result_ttl : ℕ
retained_result_ttl = 2 * 60 * 60 * 10 ^ 9

pub record Row {ℓ} (K V : Type ℓ) : Type ℓ where
  pub key : K
  pub since : ℕ
  pub value : V
  pub size : ℕ

pub record RetainedResults {ℓ} (K V : Type ℓ) : Type ℓ where
  pub rows : List (Row K V)
  pub bytes : ℕ

-- the condition of the loop that makes room for `size` more bytes
abbrev pub is_over : ℕ → ℕ → ℕ → Bool
is_over size bytes count =
    leb retained_result_count count || ltb retained_result_bytes (bytes + size)

module _ {ℓ} {K V : Type ℓ} where
  abbrev pub empty : RetainedResults K V
  empty = record { rows = []; bytes = 0 }

  -- `now.saturating_duration_since(row.1) >= RETAINED_RESULT_TTL`
  abbrev pub is_stale : ℕ → Row K V → Bool
  is_stale now row = leb retained_result_ttl (now - row.since)

  pub prune_rows : ℕ → ℕ → List (Row K V) → RetainedResults K V
  prune_rows now bytes [] = record { rows = []; bytes = bytes }
  prune_rows now bytes (row ∷ rows) =
      let rest = prune_rows now (bytes - row.size) rows in
      if is_stale now row then rest else record { rows = row ∷ rows; bytes = bytes }

  pub prune : ℕ → RetainedResults K V → RetainedResults K V
  unfolding prune_rows
  prune now c = prune_rows now c.bytes c.rows

  -- the loop that makes room for `size` more bytes
  pub evict : ℕ → ℕ → List (Row K V) → Option (RetainedResults K V)
  evict size bytes [] =
      if is_over size bytes 0 then none else some (record { rows = []; bytes = bytes })
  evict size bytes (row ∷ rows) =
      let rest = evict size (bytes - row.size) rows in
      if is_over size bytes (length (row ∷ rows))
      then rest
      else some (record { rows = row ∷ rows; bytes = bytes })

module _ {ℓ} {K V : Type ℓ} ⦃o : Ord K⦄ where
  -- `rows.iter().find(|row| &row.0 == key).map(|row| row.2.clone())`
  pub find : K → List (Row K V) → Option V
  find key [] = none
  find key (row ∷ rows) = if row.key == key then some row.value else find key rows

  pub get : K → ℕ → RetainedResults K V → RetainedResults K V × Option V
  unfolding prune find
  get key now c = let c' = prune now c in (c', find key c'.rows)

  -- `position` and `remove` of the row with the key, and the bytes that it held
  pub take_row : K → ℕ → List (Row K V) → RetainedResults K V
  take_row key bytes [] = record { rows = []; bytes = bytes }
  take_row key bytes (row ∷ rows) =
      let rest = take_row key bytes rows in
      if row.key == key
      then record { rows = rows; bytes = bytes - row.size }
      else record { rows = row ∷ rest.rows; bytes = rest.bytes }

  -- the rest of `insert`, once the old row of the key is gone
  pub push_row : K → V → ℕ → ℕ → Option (RetainedResults K V) → Option (RetainedResults K V)
  push_row key value now size none = none
  push_row key value now size (some c) = some (record {
    rows = c.rows ++ record { key = key; since = now; value = value; size = size } ∷ [];
    bytes = c.bytes + size;
  })

  pub insert_sized : K → V → ℕ → Option ℕ → RetainedResults K V → Option (RetainedResults K V)
  unfolding evict take_row push_row
  insert_sized key value now none c = some c
  insert_sized key value now (some size) c =
      let t = take_row key c.bytes c.rows in
      if ltb retained_result_bytes size
      then some c
      else push_row key value now size (evict size t.bytes t.rows)

  -- `size_of` is the length of the value's JSON text, none where `serde_json::to_vec` fails.
  pub insert : (V → Option ℕ) → K → V → ℕ → RetainedResults K V → Option (RetainedResults K V)
  unfolding prune insert_sized
  insert size_of key value now c = insert_sized key value now (size_of value) (prune now c)
