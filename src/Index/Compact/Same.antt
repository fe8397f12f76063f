-- ===== src/Index/Compact/Same.antt =====
-- A batch of `compact_duplicate_cache_bodies_batch` of src/index.rs is not seen by a reader.
use grepmesh.Prelude.{
  ℕ, ◌+◌, ◌≡◌, refl, sym, Bool, some, String, List, [], ◌∷◌, ◌==◌, ==_iff, string_ord, nat_ord,
  arith, Bool-cases, Option-cases, inl, inr, ◌&&◌, ap, ◌∙◌, subst, length, ltb,
}
use grepmesh.Prelude.Map.{get, insert, get-insert}
use grepmesh.Index.State.{
  Extracted, PersistentIndex, Result, ok, err, Holds, Holds-if, after_update, is_stale,
}
use grepmesh.Index.Documents.{mapped_row, body_of, cached_body}
use grepmesh.Index.Documents.Mapped.{IsMapped}
use grepmesh.Index.Documents.Replace.{text, cache-IsMapped}
use grepmesh.Index.Documents.Refine.{is_stale-IsMapped}
use grepmesh.Index.Compact.{
  Pass, CacheBodyCompactionBatch, clear_body, compare_bodies, compact_rows, ◌>>=◌, record_progress,
  compact_duplicate_cache_bodies_batch, oversized, max_batch_body_bytes, batch_of, start_of,
}

-- Two indexes that no reader of texts or of the cache tells apart, the second in the invariant.
pub record IsSame (before after : PersistentIndex) : Type 0 where
  pub mapped : IsMapped after
  pub texts_eq : (q : String) → text after q ≡ text before q
  pub cached_eq :
      (q : String) (size mtime_ns : ℕ)
      → cached_body q size mtime_ns after ≡ cached_body q size mtime_ns before

abbrev blank : String → Extracted → PersistentIndex → PersistentIndex
blank path row index = record index {
  extraction_cache =
      insert path (record { size = row.size; mtime_ns = row.mtime_ns; body = "" })
        index.extraction_cache;
}

clear_body-blank :
    (path : String) (row : Extracted) (index : PersistentIndex)
    → IsMapped index
    → clear_body path row index ≡ blank path row index
unfolding clear_body after_update is_stale
clear_body-blank path row index h = rw (is_stale-IsMapped path index h) refl

blank-text :
    (path : String) (row : Extracted) (index : PersistentIndex) (q : String)
    → text (blank path row index) q ≡ text index q
unfolding mapped_row
blank-text path row index q = refl

-- A cache body that is the text of its path can go.
module _ (path : String) (row : Extracted) (index : PersistentIndex)
    (e : get path index.extraction_cache ≡ some row) (t : text index path ≡ some row.body) where
  blank-cached_body_own :
      (size mtime_ns : ℕ)
      → cached_body path size mtime_ns (blank path row index) ≡ cached_body path size mtime_ns index
  unfolding cached_body
  blank-cached_body_own size mtime_ns =
      rw
        (
          cached_body,
          e,
          get-insert path path (record { size = row.size; mtime_ns = row.mtime_ns; body = "" })
              index.extraction_cache,
        )
        (ground
          (arith, blank-text path row index path, t, ==_iff path path, ==_iff {K = String} "" ""))

  -- A cache body that is the text of its path can go.
  blank-cached_body :
      (q : String) (size mtime_ns : ℕ)
      → cached_body q size mtime_ns (blank path row index) ≡ cached_body q size mtime_ns index
  unfolding cached_body mapped_row
  blank-cached_body q size mtime_ns = elim (Bool-cases (q == path)) [
    | inl c ↦
        let same : q ≡ path = ground (arith, ==_iff q path) in
        rw same (blank-cached_body_own size mtime_ns)
    | inr c ↦
        rw
          (
            cached_body,
            get-insert path q (record { size = row.size; mtime_ns = row.mtime_ns; body = "" })
                index.extraction_cache,
            c,
          )
          refl
  ]

  clear_body-IsSame :
      (before : PersistentIndex) → IsSame before index → IsSame before (clear_body path row index)
  clear_body-IsSame before s = rw (clear_body-blank path row index s.mapped) (record {
    mapped = cache-IsMapped path _ index s.mapped;
    texts_eq = λ q. blank-text path row index q ∙ s.texts_eq q;
    cached_eq = λ q size mtime_ns. blank-cached_body q size mtime_ns ∙ s.cached_eq q size mtime_ns;
  })

Holds-bind {ℓ κ} :
    {A : Type ℓ} {B : Type κ} (P : A → Type 0) (Q : B → Type 0) (r : Result A) (f : A → Result B)
    → Holds P r
    → ((a : A) → P a → Holds Q (f a))
    → Holds Q (r >>= f)
Holds-bind P Q (ok a) f h step = step a h
Holds-bind P Q (err e) f h step = tt

module _ (before : PersistentIndex) where
  Keeps : Pass → Type 0
  Keeps pass = IsSame before pass.index

  compare_bodies-Keeps :
      (path : String) (size : ℕ) (pass : Pass)
      → Keeps pass
      → Holds Keeps (compare_bodies path size pass)
  unfolding compare_bodies Keeps
  compare_bodies-Keeps path size pass h =
      elim (Option-cases (get path pass.index.extraction_cache)) [
        | inl e ↦ rw (compare_bodies, e) tt
        | inr (row, e) ↦
            rw (compare_bodies, e)
              (elim (Option-cases (mapped_row path pass.index)) [
                | inl n ↦ rw n tt
                | inr (indexed, n) ↦ rw n (elim (Bool-cases (row.body == indexed.body)) [
                  | inl c ↦
                      let t : text pass.index path ≡ some row.body =
                        ap body_of n
                        ∙ ap some (sym (ground (arith, ==_iff row.body indexed.body))) in
                      rw c (clear_body-IsSame path row pass.index e t before h)
                  | inr c ↦ rw c h
                ])
              ])
      ]

  compact_rows-Keeps :
      (candidates : List (String × ℕ)) (pass : Pass)
      → Keeps pass
      → Holds Keeps (compact_rows candidates pass)
  unfolding compact_rows Keeps
  compact_rows-Keeps [] pass h = h
  compact_rows-Keeps ((path, size) ∷ candidates) pass h =
      elim (Bool-cases (ltb max_batch_body_bytes size)) [
        | inl c ↦ rw c (compact_rows-Keeps candidates (oversized path pass) h)
        | inr c ↦
            elim (Bool-cases
              (ltb 0 pass.body_bytes && ltb max_batch_body_bytes (pass.body_bytes + size))) [
                | inl d ↦ rw (c, d) h
                | inr d ↦
                    rw (c, d)
                      (Holds-bind Keeps Keeps (compare_bodies path size pass)
                        (compact_rows candidates) (compare_bodies-Keeps path size pass h)
                        (λ next k. compact_rows-Keeps candidates next k))
              ]
      ]

mark-IsSame :
    (before index : PersistentIndex) (cursor : String) (finished : Bool)
    → IsSame before index
    → IsSame before (record index { compaction_cursor = cursor; compaction_done = finished })
unfolding cached_body mapped_row
mark-IsSame before index cursor finished s = record {
  mapped = record { found = s.mapped.found; owned = s.mapped.owned; cached = s.mapped.cached };
  texts_eq = s.texts_eq;
  cached_eq = s.cached_eq;
}

finish-IsSame :
    (byte_len : String → ℕ) (count : ℕ) (candidates : List (String × ℕ)) (before : PersistentIndex)
    (pass : Pass)
    → IsSame before pass.index
    → Holds
        (λ (o : PersistentIndex × CacheBodyCompactionBatch). IsSame before o.0)
        (compact_rows candidates pass >>= (λ p. ok (record_progress byte_len count p)))
unfolding record_progress Keeps
finish-IsSame byte_len count candidates before pass h =
    Holds-bind (Keeps before)
      (λ (o : PersistentIndex × CacheBodyCompactionBatch). IsSame before o.0)
      (compact_rows candidates pass) (λ p. ok (record_progress byte_len count p))
      (compact_rows-Keeps before candidates pass h)
      (λ p k.
        mark-IsSame before p.index (record_progress byte_len count p).0.compaction_cursor
          (record_progress byte_len count p).0.compaction_done k)

-- In an index whose path map and rows agree, a batch of the compaction that succeeds leaves every
-- text and every answer of `cached_body` as it was, and the path map and the rows still agree.
pub compact_duplicate_cache_bodies_batch-IsSame :
    (byte_len : String → ℕ) (batch_rows : ℕ) (index index' : PersistentIndex)
    (result : CacheBodyCompactionBatch)
    → IsMapped index
    → compact_duplicate_cache_bodies_batch byte_len batch_rows index ≡ ok (index', result)
    → IsSame index index'
unfolding compact_duplicate_cache_bodies_batch record_progress Keeps
compact_duplicate_cache_bodies_batch-IsSame byte_len batch_rows index index' result h e =
    let itself : IsSame index index = record {
      mapped = h;
      texts_eq = λ q. refl;
      cached_eq = λ q size mtime_ns. refl;
    } in
    subst (Holds (λ (o : PersistentIndex × CacheBodyCompactionBatch). IsSame index o.0)) e (
      Holds-if (λ (o : PersistentIndex × CacheBodyCompactionBatch). IsSame index o.0)
        index.compaction_done _ _ itself
        (finish-IsSame byte_len (length (batch_of byte_len batch_rows index))
          (batch_of byte_len batch_rows index) index (start_of byte_len batch_rows index) itself))
