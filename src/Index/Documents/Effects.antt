-- ===== src/Index/Documents/Effects.antt =====
-- What the statements of src/index.rs leave of the row map, the FTS rows and the cache.
use grepmesh.Prelude.{
  ℕ, ◌≡◌, ◌≢◌, refl, Bool, true, false, Option, none, some, String, List, [], ◌∷◌, if◌then◌else◌,
  ◌==◌, ==_iff, string_ord, nat_ord, arith, Bool-cases, Option-cases, inl, inr, any, ap, ◌∙◌, subst,
}
use grepmesh.Prelude.Map.{get, contains_key, insert, get-remove, get-insert}
use grepmesh.Index.State.{
  IndexedDocument, Indexed, Extracted, PersistentIndex, has_path, upsert_cache, after_insert,
  after_update, is_stale, ok,
}
use grepmesh.Index.Documents.{
  delete_documents, insert_document, is_taken, holds_rowid, acknowledge, entry,
}
use grepmesh.Index.Documents.Mapped.{IsMapped, get-delete_documents}

-- An index whose document is the only row of its path, and whose other rows are those of another.
pub record IsReplaced (document : IndexedDocument) (rowid : ℕ) (index index' : PersistentIndex)
    : Type 0 where
  pub documents :
      (r : ℕ)
      → get r index'.documents ≡ (
          if r == rowid
          then some (record { path = document.path; body = document.body })
          else if has_path document.path (get r index.documents)
          then none
          else get r index.documents)
  pub document_rows :
      (q : String)
      → get q index'.document_rows
        ≡ (if q == document.path then some rowid else get q index.document_rows)
  pub extraction_cache :
      index'.extraction_cache ≡ insert document.path (entry document) index.extraction_cache
  pub fresh :
      (q : String)
      → (q == document.path) ≡ false
      → holds_rowid rowid (get q index.document_rows) ≡ false

pub upsert_cache-documents :
    (path : String) (row : Extracted) (index : PersistentIndex)
    → (upsert_cache path row index).documents ≡ index.documents
unfolding upsert_cache after_insert after_update
upsert_cache-documents path row index = ground arith

pub upsert_cache-cache :
    (path : String) (row : Extracted) (index : PersistentIndex)
    → (upsert_cache path row index).extraction_cache ≡ insert path row index.extraction_cache
unfolding upsert_cache after_insert after_update
upsert_cache-cache path row index = ground arith

-- The triggers touch the row of the path, and no other.
pub upsert_cache-rows :
    (path q : String) (row : Extracted) (index : PersistentIndex)
    → (q == path) ≡ false
    → get q (upsert_cache path row index).document_rows ≡ get q index.document_rows
unfolding upsert_cache after_insert after_update
upsert_cache-rows path q row index h = ground (arith, get-remove path q index.document_rows)

pub delete_documents-rest :
    (path : String) (index : PersistentIndex)
    → ((delete_documents path index).document_rows ≡ index.document_rows)
      × ((delete_documents path index).extraction_cache ≡ index.extraction_cache)
unfolding delete_documents
delete_documents-rest path index = elim (Option-cases (get path index.document_rows)) [
  | inr (r, e) ↦ rw (delete_documents, e) (refl, refl)
  | inl e ↦
      rw (delete_documents, e)
        (elim (Bool-cases (contains_key path index.extraction_cache)) [
          | inl c ↦ rw c (refl, refl)
          | inr c ↦ rw c (refl, refl)
        ])
]

any-false {ℓ} :
    {A : Type ℓ} (p : A → Bool) (xs : List A) → ((x : A) → p x ≡ false) → any p xs ≡ false
any-false p [] h = refl
any-false p (x ∷ xs) h = ground (arith, h x, any-false p xs h)

pub has_path-other :
    (p q : String) (row : Option Indexed)
    → has_path p row ≡ true
    → (p == q) ≡ false
    → has_path q row ≡ false
unfolding has_path
has_path-other p q none h d = refl
has_path-other p q (some row) h d = ground (arith, ==_iff row.path p, ==_iff row.path q, ==_iff p q)

pub has_path-some : (p : String) (row : Option Indexed) → has_path p row ≡ true → row ≢ none
unfolding has_path
has_path-some p none h e = absurd (cc)
has_path-some p (some row) h e = absurd (cc)

-- A rowid that no FTS row has is the row of no other path.
holds_rowid-fresh :
    (document : IndexedDocument) (rowid : ℕ) (index : PersistentIndex) (q : String)
    → IsMapped index
    → get rowid (delete_documents document.path index).documents ≡ none
    → (q == document.path) ≡ false
    → holds_rowid rowid (get q index.document_rows) ≡ false
holds_rowid-fresh document rowid index q h fresh d =
    elim (Option-cases (get q index.document_rows)) [
      | inl e ↦ rw e refl
      | inr (r, e) ↦ rw e (elim (Bool-cases (r == rowid)) [
        | inr c ↦ c
        | inl c ↦
            let same : r ≡ rowid = ground (arith, ==_iff r rowid) in
            let mapped : get q index.document_rows ≡ some rowid =
              subst (λ x. get q index.document_rows ≡ some x) same e in
            let at : has_path q (get rowid index.documents) ≡ true = h.found q rowid mapped in
            let other = has_path-other q document.path (get rowid index.documents) at d in
            let gone = get-delete_documents document.path rowid index h in
            absurd
              (has_path-some q (get rowid index.documents) at (ground (arith, gone, other, fresh)))
      ])
    ]

abbrev with_row : ℕ → IndexedDocument → PersistentIndex → PersistentIndex
with_row rowid document index = record index {
  documents = insert rowid (record { path = document.path; body = document.body }) index.documents;
}

abbrev with_cache : ℕ → IndexedDocument → PersistentIndex → PersistentIndex
with_cache rowid document index =
    upsert_cache document.path (entry document) (with_row rowid document index)

with_cache-rows :
    (document : IndexedDocument) (rowid : ℕ) (index : PersistentIndex) (q : String)
    → (q == document.path) ≡ false
    → get q (with_cache rowid document (delete_documents document.path index)).document_rows
      ≡ get q index.document_rows
with_cache-rows document rowid index q d =
    let emptied = delete_documents document.path index in
    upsert_cache-rows document.path q (entry document) (with_row rowid document emptied) d
    ∙ ap (get q) (delete_documents-rest document.path index).0

is_taken-fresh :
    (document : IndexedDocument) (rowid : ℕ) (index : PersistentIndex)
    → IsMapped index
    → get rowid (delete_documents document.path index).documents ≡ none
    → is_taken rowid document.path
        (with_cache rowid document (delete_documents document.path index)).document_rows
      ≡ false
unfolding is_taken
is_taken-fresh document rowid index h fresh =
    any-false _ (with_cache rowid document (delete_documents document.path index)).document_rows
      (λ (e : String × ℕ). elim (Bool-cases (e.0 == document.path)) [
        | inl c ↦ rw c refl
        | inr c ↦
            rw (c, with_cache-rows document rowid index e.0 c)
              (holds_rowid-fresh document rowid index e.0 h fresh c)
      ])

-- With a rowid that no FTS row has, the document is stored.
pub insert_document-IsReplaced :
    (document : IndexedDocument) (rowid : ℕ) (index : PersistentIndex)
    → IsMapped index
    → get rowid (delete_documents document.path index).documents ≡ none
    → (index' : PersistentIndex) × (insert_document rowid document
          (delete_documents document.path index)
        ≡ ok index')
      × IsReplaced document rowid index index'
unfolding insert_document acknowledge
insert_document-IsReplaced document rowid index h fresh =
    let emptied = delete_documents document.path index in
    let stored : PersistentIndex = with_cache rowid document emptied in
    (
      acknowledge document (record stored {
        document_rows = insert document.path rowid stored.document_rows;
        document_rows_v1 = true;
      }),
      rw (is_taken-fresh document rowid index h fresh) refl,
      record {
        documents = λ r.
            ap (get r) (
              upsert_cache-documents document.path (entry document)
                (with_row rowid document emptied))
            ∙ get-insert rowid r _ emptied.documents
            ∙ ground (arith, get-delete_documents document.path r index h);
        document_rows = λ q.
            get-insert document.path q rowid stored.document_rows
            ∙ elim (Bool-cases (q == document.path)) [
              | inl c ↦ rw c refl
              | inr c ↦ rw c (with_cache-rows document rowid index q c)
            ];
        extraction_cache =
            upsert_cache-cache document.path (entry document) (with_row rowid document emptied)
            ∙ ap (insert document.path (entry document))
                (delete_documents-rest document.path index).1;
        fresh = λ q d. holds_rowid-fresh document rowid index q h fresh d;
      },
    )

-- A refreshed cache row of a mapped path leaves the row map as it is.
pub upsert_cache-mapped :
    (path : String) (row : Extracted) (index : PersistentIndex)
    → contains_key path index.extraction_cache ≡ true
    → is_stale path index ≡ false
    → upsert_cache path row index
      ≡ record index { extraction_cache = insert path row index.extraction_cache }
unfolding upsert_cache after_update is_stale
upsert_cache-mapped path row index h s = rw (h, s) refl
