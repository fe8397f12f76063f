-- ===== src/Index/Documents/Mapped.antt =====
-- The row map of the index against its FTS rows: each mapped path has its row, each row is mapped.
use grepmesh.Prelude.{
  ℕ, ◌≡◌, refl, true, none, some, String, [], ◌∷◌, if◌then◌else◌, ==_iff, string_ord, nat_ord,
  arith, Bool-cases, Option-cases, inl, inr,
}
use grepmesh.Prelude.Map.{BTreeMap, get, contains_key, get-remove}
use grepmesh.Index.State.{Indexed, PersistentIndex, has_path, delete_path}
use grepmesh.Index.Documents.{delete_documents}

pub record IsMapped (index : PersistentIndex) : Type 0 where
  pub found :
      (path : String) (rowid : ℕ)
      → get path index.document_rows ≡ some rowid
      → has_path path (get rowid index.documents) ≡ true
  pub owned :
      (path : String) (rowid : ℕ)
      → has_path path (get rowid index.documents) ≡ true
      → get path index.document_rows ≡ some rowid
  pub cached :
      (path : String) (rowid : ℕ)
      → get path index.document_rows ≡ some rowid
      → contains_key path index.extraction_cache ≡ true

get-delete_path :
    (path : String) (rowid : ℕ) (documents : BTreeMap ℕ Indexed)
    → get rowid (delete_path path documents)
      ≡ (if has_path path (get rowid documents) then none else get rowid documents)
unfolding delete_path get has_path
get-delete_path path rowid [] = refl
get-delete_path path rowid ((r, row) ∷ documents) = ground (
  arith,
  get-delete_path path rowid documents,
  get-remove r rowid (delete_path path documents),
  ==_iff rowid r,
)

-- Under the invariant the FTS rows of a path go, and no others.
pub get-delete_documents :
    (path : String) (rowid : ℕ) (index : PersistentIndex)
    → IsMapped index
    → get rowid (delete_documents path index).documents
      ≡ (if has_path path (get rowid index.documents) then none else get rowid index.documents)
unfolding delete_documents
get-delete_documents path rowid index h = elim (Option-cases (get path index.document_rows)) [
  | inr (r, e) ↦
      rw (delete_documents, e)
        (ground (
          arith,
          get-remove r rowid index.documents,
          h.found path r e,
          h.owned path rowid,
          ==_iff rowid r,
        ))
  | inl e ↦
      rw (delete_documents, e)
        (elim (Bool-cases (contains_key path index.extraction_cache)) [
          | inl c ↦ rw c (get-delete_path path rowid index.documents)
          | inr c ↦ rw c (ground (arith, h.owned path rowid))
        ])
]
