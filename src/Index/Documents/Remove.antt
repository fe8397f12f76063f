-- ===== src/Index/Documents/Remove.antt =====
-- `remove_document_with_empty` of src/index.rs, and sequences of replacements and removals.
use grepmesh.Prelude.{
  ℕ, ◌≡◌, refl, sym, Bool, true, false, not, Option, none, some, String, List, [], ◌∷◌,
  if◌then◌else◌, ◌==◌, ==_iff, string_ord, nat_ord, arith, Bool-cases, Option-cases, inl, inr, ◌&&◌,
  is_some, ap, ◌∙◌, subst, leb, length,
}
use grepmesh.Prelude.Map.{BTreeMap, get, contains_key, remove, get-remove, contains_key-is_some}
use grepmesh.Index.State.{
  IndexedDocument, Indexed, PersistentIndex, has_path, delete_cache, ok, err, Result, EmptyResult,
}
use grepmesh.Index.Documents.{
  mapped_row, remove_rows, max_pending_ocr, remove_document_with_empty,
  replace_indexed_document_with_mode,
}
use grepmesh.Index.Documents.Mapped.{IsMapped, get-delete_documents}
use grepmesh.Index.Documents.Effects.{delete_documents-rest, has_path-other, has_path-some}
use grepmesh.Index.Documents.Replace.{text, put, mapped_row-some, mapped_row-none}
use grepmesh.Index.Documents.Refine.{
  Stores, replace_indexed_document_with_mode-Stores, replace_indexed_document_with_mode-denied,
}

abbrev pub forget : String → (String → Option String) → String → Option String
forget path texts q = if q == path then none else texts q

module _ (path : String) (index : PersistentIndex) (h : IsMapped index) where
  removed_documents :
      (r : ℕ)
      → get r (remove_rows path index).documents
        ≡ (if has_path path (get r index.documents) then none else get r index.documents)
  unfolding remove_rows delete_cache
  removed_documents r = get-delete_documents path r index h

  removed_rows :
      (q : String)
      → get q (remove_rows path index).document_rows
        ≡ (if q == path then none else get q index.document_rows)
  unfolding remove_rows delete_cache
  removed_rows q =
      ap (λ rows. get q (remove path rows)) (delete_documents-rest path index).0
      ∙ get-remove path q index.document_rows

  removed_cache :
      (q : String)
      → (q == path) ≡ false
      → contains_key q (remove_rows path index).extraction_cache
        ≡ contains_key q index.extraction_cache
  unfolding remove_rows delete_cache
  removed_cache q d =
      ap (λ rows. contains_key q (remove path rows)) (delete_documents-rest path index).1
      ∙ contains_key-is_some q (remove path index.extraction_cache)
      ∙ ap is_some (get-remove path q index.extraction_cache ∙ rw d refl)
      ∙ sym (contains_key-is_some q index.extraction_cache)

  other_row :
      (q : String) (r : ℕ)
      → (q == path) ≡ false
      → get q index.document_rows ≡ some r
      → get r (remove_rows path index).documents ≡ get r index.documents
  other_row q r d e =
      removed_documents r
      ∙ rw (has_path-other q path (get r index.documents) (h.found q r e) d) refl

  remove_rows-text : (q : String) → text (remove_rows path index) q ≡ forget path (text index) q
  remove_rows-text q = elim (Bool-cases (q == path)) [
    | inl c ↦ rw (c, mapped_row-none q (remove_rows path index) (removed_rows q ∙ rw c refl)) refl
    | inr c ↦
        let same : get q (remove_rows path index).document_rows ≡ get q index.document_rows =
          removed_rows q ∙ rw c refl in
        elim (Option-cases (get q index.document_rows)) [
          | inl e ↦
              rw
                (
                  c,
                  mapped_row-none q (remove_rows path index) (same ∙ e),
                  mapped_row-none q index e,
                )
                refl
          | inr (r, e) ↦
              rw
                (
                  c,
                  mapped_row-some q r (remove_rows path index) (same ∙ e),
                  mapped_row-some q r index e,
                  other_row q r c e,
                )
                refl
        ]
  ]

  remove_rows-IsMapped : IsMapped (remove_rows path index)
  remove_rows-IsMapped = record {
    found = λ q r e.
        let apart : (q == path) ≡ false = ground (arith, removed_rows q) in
        let before : get q index.document_rows ≡ some r = ground (arith, removed_rows q) in
        rw (other_row q r apart before) (h.found q r before);
    owned = λ q r e. elim (Bool-cases (has_path path (get r index.documents))) [
      | inl b ↦ absurd (has_path-some q _ e (removed_documents r ∙ rw b refl))
      | inr b ↦
          let before : has_path q (get r index.documents) ≡ true =
            subst (λ o. has_path q o ≡ true) (removed_documents r ∙ rw b refl) e in
          let apart : (q == path) ≡ false = ground (arith, ==_iff q path) in
          removed_rows q ∙ rw apart (h.owned q r before)
    ];
    cached = λ q r e.
        let apart : (q == path) ≡ false = ground (arith, removed_rows q) in
        rw (removed_cache q apart) (h.cached q r (ground (arith, removed_rows q)));
  }

  remove_rows-Stores : Stores (forget path (text index)) (remove_rows path index)
  remove_rows-Stores = record { mapped = remove_rows-IsMapped; texts_eq = remove_rows-text }

ledger-Stores :
    (texts : String → Option String) (index : PersistentIndex)
    (ledger : BTreeMap String EmptyResult)
    → Stores texts index
    → Stores texts (record index { ocr_empty_results = ledger })
unfolding mapped_row
ledger-Stores texts index ledger s = record {
  mapped = record { found = s.mapped.found; owned = s.mapped.owned; cached = s.mapped.cached };
  texts_eq = s.texts_eq;
}

-- An index with its texts, if it is in the invariant, is described by them.
itself-Stores : (index : PersistentIndex) → IsMapped index → Stores (text index) index
itself-Stores index h = record { mapped = h; texts_eq = λ q. refl }

abbrev pub is_ok {ℓ} : {A : Type ℓ} → Result A → Bool
is_ok (ok a) = true
is_ok (err e) = false

-- A transaction that fails is rolled back.
abbrev pub after : PersistentIndex → Result PersistentIndex → PersistentIndex
after index (ok index') = index'
after index (err e) = index

pub remove_document_with_empty-Stores :
    (path : String) (empty : Option (ℕ × ℕ)) (index : PersistentIndex)
    → IsMapped index
    → Stores
        (if is_ok (remove_document_with_empty path empty index)
          then forget path (text index)
          else text index)
        (after index (remove_document_with_empty path empty index))
unfolding remove_document_with_empty
remove_document_with_empty-Stores path none index h = remove_rows-Stores path index h
remove_document_with_empty-Stores path (some (size, mtime_ns)) index h =
    let removed = remove_rows path index in
    elim (Bool-cases (
      not (contains_key path removed.ocr_empty_results)
      && leb max_pending_ocr (length removed.ocr_empty_results))) [
        | inl full ↦ rw full (itself-Stores index h)
        | inr fits ↦ rw fits (ledger-Stores _ removed _ (remove_rows-Stores path index h))
      ]

pub data Operation : Type 0 where
  replacing : IndexedDocument → Bool → Operation
  removing : String → Option (ℕ × ℕ) → Operation

-- The effect of an operation on a map from paths to texts.
abbrev pub effect : Operation → (String → Option String) → String → Option String
effect (replacing document preserve) texts = put document preserve texts
effect (removing path empty) texts = forget path texts

module _ (source_allows_file : String → Bool) (last_insert_rowid : BTreeMap ℕ Indexed → ℕ) where
  abbrev pub perform : Operation → PersistentIndex → Result PersistentIndex
  perform (replacing document preserve) index =
      replace_indexed_document_with_mode source_allows_file last_insert_rowid document preserve
        index
  perform (removing path empty) index = remove_document_with_empty path empty index

  -- the index after the operations
  unfoldable pub run : List Operation → PersistentIndex → PersistentIndex
  run [] index = index
  run (operation ∷ operations) index = run operations (after index (perform operation index))

  -- the map after those operations that succeed
  unfoldable pub replay :
      List Operation → PersistentIndex → (String → Option String) → String → Option String
  replay [] index texts = texts
  replay (operation ∷ operations) index texts =
      replay operations (after index (perform operation index))
        (if is_ok (perform operation index) then effect operation texts else texts)

  abbrev pub IsFresh : Type 0
  IsFresh = (documents : BTreeMap ℕ Indexed) → get (last_insert_rowid documents) documents ≡ none

  perform-Stores :
      IsFresh
      → (operation : Operation) (index : PersistentIndex) → IsMapped index
      → Stores
          (if is_ok (perform operation index) then effect operation (text index) else text index)
          (after index (perform operation index))
  perform-Stores fresh (removing path empty) index h =
      remove_document_with_empty-Stores path empty index h
  perform-Stores fresh (replacing document preserve) index h =
      elim (Bool-cases (source_allows_file document.path)) [
        | inr denied ↦
            let refused =
              replace_indexed_document_with_mode-denied source_allows_file last_insert_rowid
                document preserve index denied in
            rw refused (itself-Stores index h)
        | inl allowed ↦
            let (index', done, stores, extracted) =
              replace_indexed_document_with_mode-Stores source_allows_file last_insert_rowid fresh
                document preserve index h allowed in
            rw done stores
      ]

  -- If a new rowid is one that no row has, then from an index whose path map and rows agree, any
  -- run of replacements and removals leaves such an index, and its texts are those that a plain map
  -- from paths to texts has after the operations that succeed.
  pub run-Stores :
      IsFresh
      → (operations : List Operation) (index : PersistentIndex) → IsMapped index
      → Stores (replay operations index (text index)) (run operations index)
  unfolding run replay
  run-Stores fresh [] index h = itself-Stores index h
  run-Stores fresh (operation ∷ operations) index h =
      let stores = perform-Stores fresh operation index h in
      let index' = after index (perform operation index) in
      subst (λ texts. Stores (replay operations index' texts) (run operations index'))
        (λ i q. stores.texts_eq q i) (run-Stores fresh operations index' stores.mapped)
