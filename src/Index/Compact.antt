-- ===== src/Index/Compact.antt =====
-- `compact_duplicate_cache_bodies_batch` of src/index.rs. `byte_len` is the length of a text in bytes.
pub mod Same
use grepmesh.Prelude.{
  ℕ, zero, suc, ◌+◌, ◌*◌, Bool, true, false, ◌&&◌, ◌||◌, not, Option, none, some, String, List, [],
  ◌∷◌, length, take, ltb, leb, if◌then◌else◌, ◌==◌, string_ord, nat_ord, min, max, is_some,
  Ordering,
}
use grepmesh.Prelude.Map.{BTreeMap, get, contains_key, insert}
use grepmesh.Index.State.{Indexed, Extracted, PersistentIndex, Error, Result, ok, err, after_update}
use grepmesh.Index.Documents.{mapped_row}

abbrev pub max_batch_body_bytes : ℕ
max_batch_body_bytes = 8 * 1024 * 1024

pub record CacheBodyCompactionBatch : Type 0 where
  pub scanned_rows : ℕ
  pub cleared_rows : ℕ
  pub cleared_body_bytes : ℕ
  pub preserved_mismatches : ℕ
  pub preserved_oversized : ℕ
  pub complete : Bool

abbrev pub nothing_done : Bool → CacheBodyCompactionBatch
nothing_done complete = record {
  scanned_rows = 0;
  cleared_rows = 0;
  cleared_body_bytes = 0;
  preserved_mismatches = 0;
  preserved_oversized = 0;
  complete = complete;
}

-- the variables of the loop
pub record Pass : Type 0 where
  pub index : PersistentIndex
  pub result : CacheBodyCompactionBatch
  pub last_path : String
  pub body_bytes : ℕ

abbrev is_greater : String → String → Bool
is_greater a b = elim (string_ord.cmp a b) [ Ordering.gt ↦ true | _ ↦ false ]

-- `UPDATE grepmesh_extraction_cache SET body='' WHERE path=?1 AND body=?2` for the row of the path
unfoldable pub clear_body : String → Extracted → PersistentIndex → PersistentIndex
unfolding after_update
clear_body path row index = after_update path (record index {
  extraction_cache =
      insert path (record { size = row.size; mtime_ns = row.mtime_ns; body = "" })
        index.extraction_cache;
})

abbrev pub oversized : String → Pass → Pass
oversized path pass = record pass {
  last_path = path;
  result = record pass.result {
    scanned_rows = pass.result.scanned_rows + 1;
    preserved_oversized = pass.result.preserved_oversized + 1;
  };
}

abbrev pub mismatch : String → ℕ → Pass → Pass
mismatch path size pass = record pass {
  last_path = path;
  body_bytes = pass.body_bytes + size;
  result = record pass.result {
    scanned_rows = pass.result.scanned_rows + 1;
    preserved_mismatches = pass.result.preserved_mismatches + 1;
  };
}

abbrev pub cleared : String → ℕ → Extracted → Pass → Pass
cleared path size row pass = record pass {
  index = clear_body path row pass.index;
  last_path = path;
  body_bytes = pass.body_bytes + size;
  result = record pass.result {
    scanned_rows = pass.result.scanned_rows + 1;
    cleared_rows = pass.result.cleared_rows + 1;
    cleared_body_bytes = pass.result.cleared_body_bytes + size;
  };
}

abbrev pub stopped : Pass → Pass
stopped pass = record pass { result = record pass.result { complete = false } }

-- the two bodies of a candidate; no row of the join is an error
unfoldable pub compare_bodies : String → ℕ → Pass → Result Pass
unfolding mapped_row clear_body
compare_bodies path size pass = elim (get path pass.index.extraction_cache) [
  | none ↦ err Error.compaction_join
  | some row ↦ elim (mapped_row path pass.index) [
    | none ↦ err Error.compaction_join
    | some indexed ↦
        if row.body == indexed.body
        then ok (cleared path size row pass)
        else ok (mismatch path size pass)
  ]
]

infixl 5 ◌>>=◌
abbrev pub ◌>>=◌ {ℓ κ} : {A : Type ℓ} {B : Type κ} → Result A → (A → Result B) → Result B
ok a >>= f = f a
err e >>= f = err e

unfoldable pub compact_rows : List (String × ℕ) → Pass → Result Pass
unfolding compare_bodies
compact_rows [] pass = ok pass
compact_rows ((path, size) ∷ candidates) pass =
    let rest : Pass → Result Pass = compact_rows candidates in
    if ltb max_batch_body_bytes size
    then rest (oversized path pass)
    else if ltb 0 pass.body_bytes && ltb max_batch_body_bytes (pass.body_bytes + size)
    then ok (stopped pass)
    else (compare_bodies path size pass >>= rest)

module _ (byte_len : String → ℕ) where
  -- the candidates of the query, before its limit
  unfoldable pub candidates_of :
      String → BTreeMap String ℕ → BTreeMap String Extracted → List (String × ℕ)
  candidates_of cursor rows [] = []
  candidates_of cursor rows ((path, row) ∷ cache) =
      let rest = candidates_of cursor rows cache in
      if is_greater path cursor && (contains_key path rows && not (row.body == ""))
      then (path, byte_len row.body) ∷ rest
      else rest

  -- the cursor and the mark that the batch leaves
  unfoldable pub record_progress : ℕ → Pass → PersistentIndex × CacheBodyCompactionBatch
  record_progress candidates pass =
      let index = pass.index in
      (
        record index {
          compaction_cursor =
              if ltb 0 pass.result.scanned_rows then pass.last_path else index.compaction_cursor;
          compaction_done =
              (pass.result.complete && (pass.result.scanned_rows == candidates))
              || index.compaction_done;
        },
        pass.result,
      )

  abbrev pub limit_of : ℕ → ℕ
  limit_of batch_rows = min (max batch_rows 1) 256

  -- `ORDER BY cache.path LIMIT ?2`: the cache is in the order of its paths.
  unfoldable pub batch_of : ℕ → PersistentIndex → List (String × ℕ)
  unfolding candidates_of
  batch_of batch_rows index =
      take (limit_of batch_rows)
        (candidates_of index.compaction_cursor index.document_rows index.extraction_cache)

  abbrev pub start_of : ℕ → PersistentIndex → Pass
  start_of batch_rows index = record {
    index = index;
    result = nothing_done (ltb (length (batch_of batch_rows index)) (limit_of batch_rows));
    last_path = index.compaction_cursor;
    body_bytes = 0;
  }

  unfoldable pub compact_duplicate_cache_bodies_batch :
      ℕ → PersistentIndex → Result (PersistentIndex × CacheBodyCompactionBatch)
  unfolding batch_of compact_rows record_progress
  compact_duplicate_cache_bodies_batch batch_rows index =
      if index.compaction_done
      then ok (index, nothing_done true)
      else (compact_rows (batch_of batch_rows index) (start_of batch_rows index)
          >>= (λ pass. ok (record_progress (length (batch_of batch_rows index)) pass)))
