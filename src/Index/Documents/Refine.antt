-- ===== src/Index/Documents/Refine.antt =====
-- The operations of src/index.rs that store and remove documents, on a map from paths to texts.
use grepmesh.Prelude.{
  ℕ, ◌≡◌, refl, sym, Bool, true, false, Option, none, some, String, ◌==◌, ==_iff, string_ord,
  nat_ord, arith, Bool-cases, Option-cases, inl, inr, ◌&&◌, is_some, ap, ◌∙◌,
}
use grepmesh.Prelude.Map.{BTreeMap, get, contains_key, insert, contains_key-is_some, get-insert}
use grepmesh.Index.State.{
  IndexedDocument, Indexed, Extracted, PersistentIndex, has_path, upsert_cache, is_stale, ok, err,
  Error,
}
use grepmesh.Index.Documents.{
  body_of, mapped_row, delete_documents, acknowledge, entry, cache_matches, fts_matches,
  replace_indexed_document_with_mode, cached_body,
}
use grepmesh.Index.Documents.Mapped.{IsMapped}
use grepmesh.Index.Documents.Effects.{insert_document-IsReplaced, upsert_cache-mapped}
use grepmesh.Index.Documents.Replace.{
  text, put, mapped_row-some, mapped_row-none, IsReplaced-text, IsReplaced-IsMapped, cache-IsMapped,
  acknowledge-IsMapped, acknowledge-text, fts_matches-row,
}

put-same :
    (document : IndexedDocument) (preserve : Bool) (texts : String → Option String) (q : String)
    → texts document.path ≡ some document.body
    → put document preserve texts q ≡ texts q
put-same document preserve texts q h = elim (Bool-cases (q == document.path)) [
  | inr c ↦ rw c refl
  | inl c ↦
      let same : q ≡ document.path = ground (arith, ==_iff q document.path) in
      let at : texts q ≡ some document.body = ap texts same ∙ h in rw (c, at) (ground arith)
]

put-kept :
    (document : IndexedDocument) (texts : String → Option String) (q : String)
    → is_some (texts document.path) ≡ true
    → put document true texts q ≡ texts q
put-kept document texts q h = elim (Bool-cases (q == document.path)) [
  | inr c ↦ rw c refl
  | inl c ↦
      let same : q ≡ document.path = ground (arith, ==_iff q document.path) in
      let at : is_some (texts q) ≡ true = ap (λ p. is_some (texts p)) same ∙ h in rw (c, at) refl
]

put-fresh :
    (document : IndexedDocument) (preserve : Bool) (texts : String → Option String) (q : String)
    → (preserve && is_some (texts document.path)) ≡ false
    → put document preserve texts q ≡ put document false texts q
put-fresh document preserve texts q h = elim (Bool-cases (q == document.path)) [
  | inr c ↦ rw c refl
  | inl c ↦
      let same : q ≡ document.path = ground (arith, ==_iff q document.path) in
      let at : (preserve && is_some (texts q)) ≡ false =
        ap (λ p. preserve && is_some (texts p)) same ∙ h in
      rw (c, at) refl
]

module _ (path : String) (index : PersistentIndex) (h : IsMapped index) where
  pub is_stale-IsMapped : is_stale path index ≡ false
  unfolding is_stale
  is_stale-IsMapped = elim (Option-cases (get path index.document_rows)) [
    | inl e ↦ rw (is_stale, e) refl
    | inr (r, e) ↦ rw (is_stale, e, h.found path r e) refl
  ]

  -- A mapped row is one of its path, and the text is there.
  has_path-text : has_path path (mapped_row path index) ≡ is_some (text index path)
  unfolding has_path
  has_path-text = elim (Option-cases (get path index.document_rows)) [
    | inl e ↦ rw (mapped_row-none path index e) refl
    | inr (r, e) ↦
        rw (mapped_row-some path r index e) (elim (Option-cases (get r index.documents)) [
          | inl n ↦ rw n refl
          | inr (row, n) ↦ rw n (ap (has_path path) (sym n) ∙ h.found path r e)
        ])
  ]

  contains_key-text :
      is_some (text index path) ≡ true → contains_key path index.extraction_cache ≡ true
  contains_key-text t = elim (Option-cases (get path index.document_rows)) [
    | inr (r, e) ↦ h.cached path r e
    | inl e ↦
        let clash : false ≡ true =
          ap (λ o. is_some (body_of o)) (sym (mapped_row-none path index e)) ∙ t in
        absurd (cc)
  ]

  -- Refreshing the cache row of a path with a text changes no text.
  refresh :
      (document : IndexedDocument)
      → document.path ≡ path
      → is_some (text index path) ≡ true
      → upsert_cache document.path (entry document) index ≡ record index {
        extraction_cache = insert document.path (entry document) index.extraction_cache;
      }
  refresh document at t =
      rw at
        (upsert_cache-mapped path (entry document) index (contains_key-text t) is_stale-IsMapped)

text-cache :
    (path : String) (row : Extracted) (index : PersistentIndex) (q : String)
    → text (record index { extraction_cache = insert path row index.extraction_cache }) q
      ≡ text index q
unfolding mapped_row
text-cache path row index q = refl

-- An index after an operation that a map from paths to texts describes.
pub record Stores (texts : String → Option String) (index : PersistentIndex) : Type 0 where
  pub mapped : IsMapped index
  pub texts_eq : (q : String) → text index q ≡ texts q

and_false : (b : Bool) → (b && false) ≡ false
and_false true = refl
and_false false = refl

-- What the cache has for the fingerprint of a document is the text of its path.
abbrev pub IsExtracted : IndexedDocument → PersistentIndex → Type 0
IsExtracted document index =
    cached_body document.path document.size document.mtime_ns index ≡ text index document.path

cached_body-entry :
    (document : IndexedDocument) (index : PersistentIndex)
    → get document.path index.extraction_cache ≡ some (entry document)
    → IsExtracted document index
unfolding cached_body
cached_body-entry document index e =
    rw (cached_body, e)
      (ground (
        arith,
        ==_iff document.size document.size,
        ==_iff document.mtime_ns document.mtime_ns,
        ==_iff {K = String} "" "",
      ))

cached_body-matches :
    (document : IndexedDocument) (index : PersistentIndex)
    → text index document.path ≡ some document.body
    → cache_matches document (get document.path index.extraction_cache) ≡ true
    → IsExtracted document index
unfolding cached_body cache_matches
cached_body-matches document index t m =
    elim (Option-cases (get document.path index.extraction_cache)) [
      | inl e ↦ let clash : false ≡ true = ap (cache_matches document) (sym e) ∙ m in absurd (cc)
      | inr (row, e) ↦
          let same : cache_matches document (some row) ≡ true =
            ap (cache_matches document) (sym e) ∙ m in
          rw (cached_body, e) (ground (arith, t, ==_iff row.body document.body))
    ]

module _ (document : IndexedDocument) (index : PersistentIndex) (h : IsMapped index) where
  abbrev refreshed : PersistentIndex
  refreshed = record index {
    extraction_cache = insert document.path (entry document) index.extraction_cache;
  }

  refreshed-IsExtracted : IsExtracted document refreshed
  refreshed-IsExtracted = cached_body-entry document refreshed (
      get-insert document.path document.path (entry document) index.extraction_cache
      ∙ ground (arith, ==_iff document.path document.path))

  acknowledge-IsExtracted :
      (index' : PersistentIndex)
      → IsExtracted document index'
      → IsExtracted document (acknowledge document index')
  unfolding acknowledge cached_body mapped_row
  acknowledge-IsExtracted index' e = e

  kept-Stores :
      is_some (text index document.path) ≡ true → Stores (put document true (text index)) refreshed
  kept-Stores t = record {
    mapped = cache-IsMapped document.path (entry document) index h;
    texts_eq = λ q.
        text-cache document.path (entry document) index q
        ∙ sym (put-kept document (text index) q t);
  }

  matches-text :
      fts_matches document (mapped_row document.path index) ≡ true
      → text index document.path ≡ some document.body
  matches-text m = ap body_of (fts_matches-row document (mapped_row document.path index) m)

  -- Where the text is there already, either kind of acknowledgement leaves it.
  same-Stores :
      (preserve : Bool)
      → fts_matches document (mapped_row document.path index) ≡ true
      → Stores (put document preserve (text index)) (acknowledge document index)
        × Stores (put document preserve (text index)) (acknowledge document refreshed)
  same-Stores preserve m = (
    record {
      mapped = acknowledge-IsMapped document index h;
      texts_eq = λ q.
          acknowledge-text document index q
          ∙ sym (put-same document preserve (text index) q (matches-text m));
    },
    record {
      mapped =
          acknowledge-IsMapped document refreshed
            (cache-IsMapped document.path (entry document) index h);
      texts_eq = λ q.
          acknowledge-text document refreshed q
          ∙ text-cache document.path (entry document) index q
          ∙ sym (put-same document preserve (text index) q (matches-text m));
    },
  )

module _ (source_allows_file : String → Bool) (last_insert_rowid : BTreeMap ℕ Indexed → ℕ) where
  -- If a new rowid is one that no row has, the source is allowed, and the path map and the rows
  -- agree, the replacement succeeds. The index then has the text of the document at its path, or
  -- the earlier text where it is to be preserved, and every other text as before, the path map and
  -- the rows agree, and `cached_body` answers the fingerprint of the document with the text that
  -- the index has for its path.
  pub replace_indexed_document_with_mode-Stores :
      ((documents : BTreeMap ℕ Indexed) → get (last_insert_rowid documents) documents ≡ none)
      → (document : IndexedDocument) (preserve : Bool) (index : PersistentIndex) → IsMapped index
      → source_allows_file document.path ≡ true
      → (index' : PersistentIndex) × (replace_indexed_document_with_mode source_allows_file
            last_insert_rowid document preserve index
          ≡ ok index')
        × Stores (put document preserve (text index)) index'
        × IsExtracted document index'
  unfolding replace_indexed_document_with_mode
  replace_indexed_document_with_mode-Stores fresh document preserve index h allowed =
      let row = mapped_row document.path index in
      let cached = get document.path index.extraction_cache in
      elim (Bool-cases (preserve && has_path document.path row)) [
        | inl kept ↦
            let t : is_some (text index document.path) ≡ true =
              sym (has_path-text document.path index h) ∙ ground arith in
            let p : preserve ≡ true = ground arith in
            (
              refreshed document index h,
              rw (allowed, kept, refresh document.path index h document refl t) refl,
              rw p (kept-Stores document index h t),
              refreshed-IsExtracted document index h,
            )
        | inr replaced ↦ elim (Bool-cases (fts_matches document row)) [
          | inr differs ↦
              let emptied = delete_documents document.path index in
              let rowid = last_insert_rowid emptied.documents in
              let (index', done, step) =
                insert_document-IsReplaced document rowid index h (fresh emptied.documents) in
              (
                index',
                rw
                    (
                      allowed,
                      replaced,
                      differs,
                      and_false (cache_matches document cached),
                      and_false (is_some cached),
                    )
                    done,
                record {
                  mapped = IsReplaced-IsMapped document rowid index index' h step;
                  texts_eq = λ q.
                      IsReplaced-text document rowid index index' h step q
                      ∙ sym (
                          put-fresh document preserve (text index) q
                            (ground (arith, has_path-text document.path index h)));
                },
                cached_body-entry document index' (
                    ap (get document.path) step.extraction_cache
                    ∙ get-insert document.path document.path (entry document) index.extraction_cache
                    ∙ ground (arith, ==_iff document.path document.path)),
              )
          | inl matches ↦
              let t : is_some (text index document.path) ≡ true =
                ap is_some (matches-text document index h matches) in
              let c : is_some cached ≡ true =
                sym (contains_key-is_some document.path index.extraction_cache)
                ∙ contains_key-text document.path index h t in
              elim (Bool-cases (cache_matches document cached)) [
                | inl m ↦ (
                  acknowledge document index,
                  rw (allowed, replaced, m, matches) refl,
                  (same-Stores document index h preserve matches).0,
                  acknowledge-IsExtracted document index h index (
                      cached_body-matches document index (matches-text document index h matches) m),
                )
                | inr m ↦ (
                  acknowledge document (refreshed document index h),
                  rw
                      (
                        allowed,
                        replaced,
                        m,
                        matches,
                        c,
                        refresh document.path index h document refl t,
                      )
                      refl,
                  (same-Stores document index h preserve matches).1,
                  acknowledge-IsExtracted document index h (refreshed document index h)
                      (refreshed-IsExtracted document index h),
                )
              ]
        ]
      ]

  pub replace_indexed_document_with_mode-denied :
      (document : IndexedDocument) (preserve : Bool) (index : PersistentIndex)
      → source_allows_file document.path ≡ false
      → replace_indexed_document_with_mode source_allows_file last_insert_rowid document preserve
          index
        ≡ err Error.ingestion_denied
  unfolding replace_indexed_document_with_mode
  replace_indexed_document_with_mode-denied document preserve index h = rw h refl
