-- ===== src/Index/State.antt =====
-- The tables of `PersistentIndex::connection` in src/index.rs and their triggers, the update trigger
-- as `migrate_cache_update_trigger` leaves it. A path is its displayed text. Metadata keys are fields.
use grepmesh.Prelude.{
  ℕ, Bool, true, false, ◌&&◌, not, Option, none, some, String, List, [], ◌∷◌, if◌then◌else◌, ◌==◌,
  string_ord, nat_ord,
}
use grepmesh.Prelude.Map.{BTreeMap, get, contains_key, insert, remove}

pub record IndexedDocument : Type 0 where
  pub path : String
  pub body : String
  pub size : ℕ
  pub mtime_ns : ℕ

-- A row of grepmesh_documents.
pub record Indexed : Type 0 where
  pub path : String
  pub body : String

-- A row of grepmesh_extraction_cache.
pub record Extracted : Type 0 where
  pub size : ℕ
  pub mtime_ns : ℕ
  pub body : String

-- A row of grepmesh_ocr_attempts.
pub record Attempts : Type 0 where
  pub size : ℕ
  pub mtime_ns : ℕ
  pub failures : ℕ

pub data Disposition : Type 0 where
  empty_output empty_input : Disposition

-- A row of grepmesh_ocr_empty_results.
pub record EmptyResult : Type 0 where
  pub size : ℕ
  pub mtime_ns : ℕ
  pub disposition : Disposition

pub record PersistentIndex : Type 0 where
  pub documents : BTreeMap ℕ Indexed
  pub document_rows : BTreeMap String ℕ
  pub extraction_cache : BTreeMap String Extracted
  pub pending_ocr : List String
  pub ocr_attempts : BTreeMap String Attempts
  pub ocr_empty_results : BTreeMap String EmptyResult
  pub document_rows_v1 : Bool
  pub document_rows_triggers_v1 : Bool
  pub pending_ocr_overflow : Bool
  pub ocr_recovery_full_scan_required : Bool
  pub compaction_cursor : String
  pub compaction_done : Bool

pub data Error : Type 0 where
  ingestion_denied : Error
  unique_rowid : Error
  ocr_queue_full : Error
  failure_ledger_full : Error
  empty_ledger_full : Error
  compaction_join : Error
  unavailable : Error

pub data Result {ℓ} (A : Type ℓ) : Type ℓ where
  ok : A → Result A
  err : Error → Result A

-- A property of the value of a result, if it is `ok`.
abbrev pub Holds {ℓ} : {A : Type ℓ} → (A → Type 0) → Result A → Type 0
Holds P (ok a) = P a
Holds P (err e) = Unit

pub Holds-if {ℓ} :
    {A : Type ℓ} (P : A → Type 0) (b : Bool) (r s : Result A)
    → Holds P r
    → Holds P s
    → Holds P (if b then r else s)
Holds-if P true r s h k = h
Holds-if P false r s h k = k

-- `SELECT EXISTS(... WHERE rowid=? AND path=?)`
unfoldable pub has_path : String → Option Indexed → Bool
has_path path none = false
has_path path (some row) = row.path == path

-- grepmesh_cache_rows_after_insert
unfoldable pub after_insert : String → PersistentIndex → PersistentIndex
after_insert path index = record index {
  document_rows = remove path index.document_rows;
  document_rows_v1 = false;
}

-- the condition of grepmesh_cache_rows_after_update, where the path of the row stays
unfoldable pub is_stale : String → PersistentIndex → Bool
unfolding has_path
is_stale path index = elim (get path index.document_rows) [
  | none ↦ false
  | some rowid ↦ not (has_path path (get rowid index.documents))
]

unfoldable pub after_update : String → PersistentIndex → PersistentIndex
unfolding is_stale
after_update path index =
    if is_stale path index
    then record index { document_rows = remove path index.document_rows; document_rows_v1 = false }
    else index

-- `INSERT INTO grepmesh_extraction_cache ... ON CONFLICT(path) DO UPDATE`
unfoldable pub upsert_cache : String → Extracted → PersistentIndex → PersistentIndex
unfolding after_insert after_update
upsert_cache path row index =
    let index' : PersistentIndex = record index {
      extraction_cache = insert path row index.extraction_cache;
    } in
    if contains_key path index.extraction_cache
    then after_update path index'
    else after_insert path index'

-- `DELETE FROM grepmesh_extraction_cache WHERE path=?`; its trigger fires for a row that is deleted.
unfoldable pub delete_cache : String → PersistentIndex → PersistentIndex
delete_cache path index = record index {
  extraction_cache = remove path index.extraction_cache;
  document_rows_v1 = index.document_rows_v1 && not (contains_key path index.extraction_cache);
}

-- `DELETE FROM grepmesh_documents WHERE path=?`
unfoldable pub delete_path : String → BTreeMap ℕ Indexed → BTreeMap ℕ Indexed
delete_path path [] = []
delete_path path ((rowid, row) ∷ documents) =
    let rest = delete_path path documents in
    if row.path == path then remove rowid rest else (rowid, row) ∷ rest
