-- ===== src/Index/Documents.antt =====
-- `PersistentIndex` of src/index.rs: `replace_indexed_document_with_mode`, `cached_body`,
-- `remove_document_with_empty`, `prune_except`, `migrate_document_rows` and `clear`.
-- `source_allows_file` asks the source policy and the file system; `last_insert_rowid` is the rowid
-- that FTS5 gives a new row.
pub mod Effects
pub mod Replace
pub mod Refine
pub mod Remove
pub mod Mapped
use grepmesh.Prelude.{
  ℕ, zero, Bool, true, false, ◌&&◌, ◌||◌, not, Option, none, some, String, List, [], ◌∷◌, length,
  leb, if◌then◌else◌, ◌==◌, string_ord, nat_ord, any, contains, remove_key, is_some, Ordering,
}
use grepmesh.Prelude.Map.{BTreeMap, get, contains_key, insert, remove}
use grepmesh.Index.State.{
  IndexedDocument, Indexed, Extracted, Attempts, EmptyResult, Disposition, PersistentIndex, Error,
  Result, ok, err, has_path, upsert_cache, delete_cache, delete_path,
}

abbrev pub max_pending_ocr : ℕ
max_pending_ocr = 65536

-- `DELETE FROM grepmesh_ocr_attempts WHERE path=?1 AND size=?2 AND mtime_ns=?3`
unfoldable pub clear_attempts :
    IndexedDocument → BTreeMap String Attempts → BTreeMap String Attempts
clear_attempts document table = elim (get document.path table) [
  | none ↦ table
  | some row ↦
      if (row.size == document.size) && (row.mtime_ns == document.mtime_ns)
      then remove document.path table
      else table
]

-- `DELETE FROM grepmesh_ocr_empty_results WHERE path=?1 AND size=?2 AND mtime_ns=?3`
unfoldable pub clear_empty :
    IndexedDocument → BTreeMap String EmptyResult → BTreeMap String EmptyResult
clear_empty document table = elim (get document.path table) [
  | none ↦ table
  | some row ↦
      if (row.size == document.size) && (row.mtime_ns == document.mtime_ns)
      then remove document.path table
      else table
]

-- the three deletes that end each branch of a full replacement
unfoldable pub acknowledge : IndexedDocument → PersistentIndex → PersistentIndex
unfolding clear_attempts clear_empty
acknowledge document index = record index {
  pending_ocr = remove_key document.path index.pending_ocr;
  ocr_attempts = clear_attempts document index.ocr_attempts;
  ocr_empty_results = clear_empty document index.ocr_empty_results;
}

-- The row of the FTS table that the row map gives a path.
unfoldable pub mapped_row : String → PersistentIndex → Option Indexed
mapped_row path index = elim (get path index.document_rows) [
  | none ↦ none
  | some rowid ↦ get rowid index.documents
]

unfoldable pub cache_matches : IndexedDocument → Option Extracted → Bool
cache_matches document none = false
cache_matches document (some row) =
    (row.size == document.size)
    && (row.mtime_ns == document.mtime_ns)
    && ((row.body == "") || (row.body == document.body))

unfoldable pub fts_matches : IndexedDocument → Option Indexed → Bool
fts_matches document none = false
fts_matches document (some row) = (row.path == document.path) && (row.body == document.body)

-- The FTS rows of a path go by their rowid, or by a scan where only the cache knows the path.
unfoldable pub delete_documents : String → PersistentIndex → PersistentIndex
unfolding delete_path
delete_documents path index = elim (get path index.document_rows) [
  | some rowid ↦ record index { documents = remove rowid index.documents }
  | none ↦
      if contains_key path index.extraction_cache
      then record index { documents = delete_path path index.documents }
      else index
]

abbrev pub holds_rowid : ℕ → Option ℕ → Bool
holds_rowid rowid none = false
holds_rowid rowid (some taken) = taken == rowid

-- the UNIQUE constraint on fts_rowid: the row of another path has the rowid
unfoldable pub is_taken : ℕ → String → BTreeMap String ℕ → Bool
is_taken rowid path rows =
    any (λ (e : String × ℕ). not (e.0 == path) && holds_rowid rowid (get e.0 rows)) rows

abbrev pub entry : IndexedDocument → Extracted
entry document = record { size = document.size; mtime_ns = document.mtime_ns; body = "" }

-- the new FTS row, its cache row and its place in the row map
unfoldable pub insert_document : ℕ → IndexedDocument → PersistentIndex → Result PersistentIndex
unfolding upsert_cache acknowledge is_taken
insert_document rowid document index =
    let inserted : PersistentIndex = record index {
      documents =
          insert rowid (record { path = document.path; body = document.body }) index.documents;
    } in
    let cached = upsert_cache document.path (entry document) inserted in
    if is_taken rowid document.path cached.document_rows
    then err Error.unique_rowid
    else ok (
        acknowledge document (record cached {
          document_rows = insert document.path rowid cached.document_rows;
          document_rows_v1 = true;
        }))

module _ (source_allows_file : String → Bool) (last_insert_rowid : BTreeMap ℕ Indexed → ℕ) where
  unfoldable pub replace_indexed_document_with_mode :
      IndexedDocument → Bool → PersistentIndex → Result PersistentIndex
  unfolding mapped_row has_path cache_matches fts_matches upsert_cache acknowledge delete_documents
      insert_document
  replace_indexed_document_with_mode document preserve_existing_body index =
      let cached = get document.path index.extraction_cache in
      let row = mapped_row document.path index in
      let emptied = delete_documents document.path index in
      if not (source_allows_file document.path)
      then err Error.ingestion_denied
      else if preserve_existing_body && has_path document.path row
      then ok (upsert_cache document.path (entry document) index)
      else if cache_matches document cached && fts_matches document row
      then ok (acknowledge document index)
      else if is_some cached && fts_matches document row
      then ok (acknowledge document (upsert_cache document.path (entry document) index))
      else insert_document (last_insert_rowid emptied.documents) document emptied

  unfoldable pub replace_indexed_document :
      IndexedDocument → PersistentIndex → Result PersistentIndex
  replace_indexed_document document = replace_indexed_document_with_mode document false

  unfoldable pub replace_metadata_only_document :
      IndexedDocument → PersistentIndex → Result PersistentIndex
  replace_metadata_only_document document = replace_indexed_document_with_mode document true

abbrev pub body_of : Option Indexed → Option String
body_of none = none
body_of (some row) = some row.body

-- `none` is also what a row with a missing FTS row gives.
unfoldable pub cached_body : String → ℕ → ℕ → PersistentIndex → Option String
unfolding mapped_row
cached_body path size mtime_ns index = elim (get path index.extraction_cache) [
  | none ↦ none
  | some row ↦
      if not ((row.size == size) && (row.mtime_ns == mtime_ns))
      then none
      else if row.body == ""
      then body_of (mapped_row path index)
      else some row.body
]

-- `if size==0 {"empty_input"} else {"empty_output"}`
abbrev disposition_of : ℕ → Disposition
disposition_of size = if size == 0 then Disposition.empty_input else Disposition.empty_output

-- the part of `remove_document_with_empty` before the ledger of empty results
unfoldable pub remove_rows : String → PersistentIndex → PersistentIndex
unfolding delete_documents delete_cache
remove_rows path index =
    let emptied = delete_cache path (delete_documents path index) in
    record emptied {
      document_rows = remove path emptied.document_rows;
      document_rows_v1 = true;
      pending_ocr = remove_key path emptied.pending_ocr;
    }

unfoldable pub remove_document_with_empty :
    String → Option (ℕ × ℕ) → PersistentIndex → Result PersistentIndex
unfolding remove_rows
remove_document_with_empty path none index = ok (remove_rows path index)
remove_document_with_empty path (some (size, mtime_ns)) index =
    let removed = remove_rows path index in
    if not (contains_key path removed.ocr_empty_results)
      && leb max_pending_ocr (length removed.ocr_empty_results)
    then err Error.empty_ledger_full
    else ok (record removed {
      ocr_empty_results =
          insert path
            (record { size = size; mtime_ns = mtime_ns; disposition = disposition_of size })
            removed.ocr_empty_results;
    })

unfoldable pub remove_document : String → PersistentIndex → Result PersistentIndex
remove_document path = remove_document_with_empty path none

-- the statements for one row of the map that was not seen
unfoldable pub prune_row : String → ℕ → PersistentIndex → PersistentIndex
unfolding delete_cache
prune_row path rowid index =
    let emptied = delete_cache path (record index { documents = remove rowid index.documents }) in
    record emptied { document_rows = remove path emptied.document_rows }

unfoldable pub prune_rows : List String → BTreeMap String ℕ → PersistentIndex → PersistentIndex
unfolding prune_row
prune_rows seen [] index = index
prune_rows seen ((path, rowid) ∷ rows) index =
    prune_rows seen rows (if contains path seen then index else prune_row path rowid index)

unfoldable pub prune_except : List String → PersistentIndex → PersistentIndex
unfolding prune_rows
prune_except seen index = record (prune_rows seen index.document_rows index) {
  document_rows_v1 = true;
}

unfoldable pub clear : PersistentIndex → PersistentIndex
clear index = record index {
  documents = [];
  extraction_cache = [];
  document_rows = [];
  document_rows_v1 = false;
  document_rows_triggers_v1 = false;
  pending_ocr_overflow = false;
  ocr_recovery_full_scan_required = false;
  compaction_cursor = "";
  compaction_done = false;
}
