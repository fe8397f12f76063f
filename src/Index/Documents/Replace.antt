-- ===== src/Index/Documents/Replace.antt =====
-- `replace_indexed_document_with_mode` of src/index.rs against a map from paths to texts.
use grepmesh.Prelude.{
  ℕ, ◌≡◌, ◌≢◌, refl, Bool, true, false, Option, none, some, String, if◌then◌else◌, ◌==◌, ==_iff,
  string_ord, nat_ord, arith, Bool-cases, Option-cases, inl, inr, ◌&&◌, is_some, ap, ◌∙◌, subst,
}
use grepmesh.Prelude.Map.{get, insert, contains_key-insert}
use grepmesh.Index.State.{IndexedDocument, Indexed, Extracted, PersistentIndex, has_path}
use grepmesh.Index.Documents.{body_of, mapped_row, acknowledge, entry, fts_matches}
use grepmesh.Index.Documents.Mapped.{IsMapped}
use grepmesh.Index.Documents.Effects.{IsReplaced}

-- The text that a search of the index finds for a path.
abbrev pub text : PersistentIndex → String → Option String
text index path = body_of (mapped_row path index)

pub mapped_row-some :
    (q : String) (r : ℕ) (index : PersistentIndex)
    → get q index.document_rows ≡ some r
    → mapped_row q index ≡ get r index.documents
unfolding mapped_row
mapped_row-some q r index e = rw (mapped_row, e) refl

pub mapped_row-none :
    (q : String) (index : PersistentIndex)
    → get q index.document_rows ≡ none
    → mapped_row q index ≡ none
unfolding mapped_row
mapped_row-none q index e = rw (mapped_row, e) refl

-- A replacement on a plain map from paths to texts.
abbrev pub put : IndexedDocument → Bool → (String → Option String) → String → Option String
put document preserve texts q =
    if q == document.path
    then if preserve && is_some (texts q) then texts q else some document.body
    else texts q

has_path_refl :
    (path body : String) → has_path path (some (record { path = path; body = body })) ≡ true
unfolding has_path
has_path_refl path body = ground (arith, ==_iff path path)

has_path-eq :
    (p q : String) (row : Option Indexed) → has_path p row ≡ true → has_path q row ≡ true → p ≡ q
unfolding has_path
has_path-eq p q none h k = absurd (cc)
has_path-eq p q (some row) h k = ground (arith, ==_iff row.path p, ==_iff row.path q)

no_row : (q : String) → has_path q none ≢ true
unfolding has_path
no_row q h = absurd (cc)

module _ (document : IndexedDocument) (rowid : ℕ) (index index' : PersistentIndex)
    (h : IsMapped index) (step : IsReplaced document rowid index index') where
  other_row :
      (q : String) (r : ℕ)
      → (q == document.path) ≡ false
      → get q index.document_rows ≡ some r
      → get r index'.documents ≡ get r index.documents
  other_row q r d e =
      let at : has_path q (get r index.documents) ≡ true = h.found q r e in
      let apart : (r == rowid) ≡ false = ground (arith, step.fresh q d, e) in
      step.documents r
      ∙ rw apart (elim (Bool-cases (has_path document.path (get r index.documents))) [
        | inl c ↦
            let same = has_path-eq q document.path (get r index.documents) at c in
            absurd (ground (arith, ==_iff q document.path))
        | inr c ↦ rw c refl
      ])

  own_row :
      get rowid index'.documents ≡ some (record { path = document.path; body = document.body })
  own_row = step.documents rowid ∙ ground (arith, ==_iff rowid rowid)

  pub IsReplaced-text : (q : String) → text index' q ≡ put document false (text index) q
  IsReplaced-text q = elim (Bool-cases (q == document.path)) [
    | inl c ↦
        let at : get q index'.document_rows ≡ some rowid = step.document_rows q ∙ rw c refl in
        rw (mapped_row-some q rowid index' at, own_row, c) refl
    | inr c ↦
        let at : get q index'.document_rows ≡ get q index.document_rows =
          step.document_rows q ∙ rw c refl in
        elim (Option-cases (get q index.document_rows)) [
          | inl e ↦ rw (c, mapped_row-none q index' (at ∙ e), mapped_row-none q index e) refl
          | inr (r, e) ↦
              rw
                (
                  c,
                  mapped_row-some q r index' (at ∙ e),
                  mapped_row-some q r index e,
                  other_row q r c e,
                )
                refl
        ]
  ]

  pub IsReplaced-IsMapped : IsMapped index'
  IsReplaced-IsMapped = record {
    found = λ q r e. elim (Bool-cases (q == document.path)) [
      | inl c ↦
          let at : r ≡ rowid = ground (arith, step.document_rows q) in
          let same : q ≡ document.path = ground (arith, ==_iff q document.path) in
          rw (at, same, own_row) (has_path_refl document.path document.body)
      | inr c ↦
          let before : get q index.document_rows ≡ some r = ground (arith, step.document_rows q) in
          rw (other_row q r c before) (h.found q r before)
    ];
    owned = λ q r e. elim (Bool-cases (r == rowid)) [
      | inl c ↦
          let row : get r index'.documents
              ≡ some (record { path = document.path; body = document.body }) =
            step.documents r ∙ rw c refl in
          let same : q ≡ document.path =
            has_path-eq q document.path (get r index'.documents) e
              (rw row (has_path_refl document.path document.body)) in
          ground (arith, step.document_rows q, ==_iff q document.path, ==_iff r rowid)
      | inr c ↦ elim (Bool-cases (has_path document.path (get r index.documents))) [
        | inl b ↦
            let gone : get r index'.documents ≡ none = step.documents r ∙ rw (c, b) refl in
            absurd (no_row q (subst (λ o. has_path q o ≡ true) gone e))
        | inr b ↦
            let same : get r index'.documents ≡ get r index.documents =
              step.documents r ∙ rw (c, b) refl in
            let before : has_path q (get r index.documents) ≡ true =
              subst (λ o. has_path q o ≡ true) same e in
            let apart : (q == document.path) ≡ false = ground (arith, ==_iff q document.path) in
            step.document_rows q ∙ rw apart (h.owned q r before)
      ]
    ];
    cached = λ q r e.
        rw
          (
            step.extraction_cache,
            contains_key-insert document.path q (entry document) index.extraction_cache,
          )
          (ground (arith, step.document_rows q, h.cached q r));
  }

row_eq :
    (row : Indexed) (p b : String)
    → row.path ≡ p
    → row.body ≡ b
    → row ≡ record { path = p; body = b }
row_eq row p b e f = λ i. record { path = e i; body = f i }

-- A change of the cache alone that keeps its paths, or adds some.
pub cache-IsMapped :
    (path : String) (row : Extracted) (index : PersistentIndex)
    → IsMapped index
    → IsMapped (record index { extraction_cache = insert path row index.extraction_cache })
cache-IsMapped path row index h = record {
  found = h.found;
  owned = h.owned;
  cached = λ q r e.
      rw (contains_key-insert path q row index.extraction_cache) (ground (arith, h.cached q r e));
}

pub acknowledge-IsMapped :
    (document : IndexedDocument) (index : PersistentIndex)
    → IsMapped index
    → IsMapped (acknowledge document index)
unfolding acknowledge
acknowledge-IsMapped document index h = record {
  found = h.found;
  owned = h.owned;
  cached = h.cached;
}

pub acknowledge-text :
    (document : IndexedDocument) (index : PersistentIndex) (q : String)
    → text (acknowledge document index) q ≡ text index q
unfolding acknowledge mapped_row
acknowledge-text document index q = refl

pub fts_matches-row :
    (document : IndexedDocument) (row : Option Indexed)
    → fts_matches document row ≡ true
    → row ≡ some (record { path = document.path; body = document.body })
unfolding fts_matches
fts_matches-row document none h = absurd (cc)
fts_matches-row document (some row) h = ap some (
    row_eq row document.path document.body (ground (arith, ==_iff row.path document.path))
      (ground (arith, ==_iff row.body document.body)))
