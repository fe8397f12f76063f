-- ===== src/Index/Tests.antt =====
-- Runs of the index on concrete data.
use grepmesh.Prelude.{
  ℕ, ◌+◌, ◌≤◌, ◌≡◌, refl, Bool, true, false, none, some, String, List, [], ◌∷◌, if◌then◌else◌, ◌==◌,
  ==_iff, string_ord, nat_ord, list_ord, list_cmp, max, arith, contains, insert_key, remove_key,
  Bool-cases, inl, inr, subst, not,
}
use grepmesh.Prelude.Map
use grepmesh.Index.State.{
  IndexedDocument, Indexed, PersistentIndex, ok, err, has_path, after_insert, is_stale,
  after_update, upsert_cache, delete_cache, delete_path,
}
use grepmesh.Index.Documents.{
  clear_attempts, clear_empty, acknowledge, mapped_row, cache_matches, fts_matches,
  delete_documents, is_taken, insert_document, replace_indexed_document_with_mode,
  replace_indexed_document, cached_body, remove_rows, remove_document_with_empty, remove_document,
  prune_row, prune_rows, prune_except, replace_metadata_only_document, clear,
}
use grepmesh.Index.Documents.Mapped.{IsMapped}
use grepmesh.Index.Documents.Replace.{text, put}
use grepmesh.Index.Documents.Refine.{Stores, IsExtracted, replace_indexed_document_with_mode-Stores}
use grepmesh.Index.Documents.Remove.{Operation, replacing, removing, run, replay, run-Stores}
use grepmesh.Index.Compact.{
  clear_body, compare_bodies, compact_rows, candidates_of, record_progress, batch_of,
  compact_duplicate_cache_bodies_batch,
}
use grepmesh.Index.Compact.Same.{IsSame, compact_duplicate_cache_bodies_batch-IsSame}
use grepmesh.Index.Ledger.{ocr_failure_count, failed_row, record_ocr_failures}
use grepmesh.Index.Ledger.Failures.{IsCounted, record_ocr_failures-IsCounted}

index : Unit {0}
unfolding Map.get Map.insert Map.remove Map.contains_key string_ord list_ord list_cmp contains
    insert_key remove_key has_path after_insert is_stale after_update upsert_cache delete_cache
    delete_path clear_attempts clear_empty acknowledge mapped_row cache_matches fts_matches
    delete_documents is_taken insert_document replace_indexed_document_with_mode
    replace_indexed_document cached_body remove_rows remove_document_with_empty remove_document
    prune_row prune_rows prune_except replace_metadata_only_document clear clear_body compare_bodies
    compact_rows candidates_of record_progress batch_of compact_duplicate_cache_bodies_batch
    ocr_failure_count failed_row record_ocr_failures run replay
index = tt

abbrev allow : String → Bool
allow path = not (path == "secret")

-- One more than the largest rowid.
next_rowid : Map.BTreeMap ℕ Indexed → ℕ
next_rowid [] = 1
next_rowid ((rowid, row) ∷ documents) = max (rowid + 1) (next_rowid documents)

above-get :
    (rowid : ℕ) (documents : Map.BTreeMap ℕ Indexed)
    → next_rowid documents ≤ rowid
    → Map.get rowid documents ≡ none
unfolding Map.get next_rowid
above-get rowid [] le = refl
above-get rowid ((r, row) ∷ documents) le =
    ground (arith, above-get rowid documents, ==_iff rowid r)

next_rowid-free :
    (documents : Map.BTreeMap ℕ Indexed) → Map.get (next_rowid documents) documents ≡ none
next_rowid-free documents = above-get (next_rowid documents) documents (omega arith)

abbrev nothing : PersistentIndex
nothing = record {
  documents = [];
  document_rows = [];
  extraction_cache = [];
  pending_ocr = "a" ∷ [];
  ocr_attempts = [];
  ocr_empty_results = [];
  document_rows_v1 = true;
  document_rows_triggers_v1 = true;
  pending_ocr_overflow = false;
  ocr_recovery_full_scan_required = false;
  compaction_cursor = "";
  compaction_done = false;
}

nothing-IsMapped : IsMapped nothing
unfolding index
nothing-IsMapped = record {
  found = λ path rowid e. absurd (cc);
  owned = λ path rowid e. absurd (cc);
  cached = λ path rowid e. absurd (cc);
}

abbrev first_version : IndexedDocument
first_version = record { path = "a"; body = "hello"; size = 5; mtime_ns = 1 }

abbrev second_version : IndexedDocument
second_version = record { path = "a"; body = "size: 7"; size = 7; mtime_ns = 2 }

abbrev operations : List Operation
operations =
    replacing first_version false
    ∷ replacing second_version true
    ∷ replacing (record first_version { path = "secret" }) false
    ∷ removing "a" (some (0, 3))
    ∷ []

run-Stores_example :
    Stores
      (replay allow next_rowid operations nothing (text nothing))
      (run allow next_rowid operations nothing)
run-Stores_example = run-Stores allow next_rowid next_rowid-free operations nothing nothing-IsMapped

replace_indexed_document_with_mode-Stores_example :
    (index' : PersistentIndex) × (replace_indexed_document_with_mode allow next_rowid first_version
        false nothing
      ≡ ok index')
    × Stores (put first_version false (text nothing)) index'
    × IsExtracted first_version index'
unfolding index
replace_indexed_document_with_mode-Stores_example =
    replace_indexed_document_with_mode-Stores allow next_rowid next_rowid-free first_version false
      nothing nothing-IsMapped refl

abbrev only_row : Indexed
only_row = record { path = "a"; body = "hello" }

abbrev indexed : PersistentIndex
indexed = record nothing {
  documents = (1, record { path = "a"; body = "hello" }) ∷ [];
  document_rows = ("a", 1) ∷ [];
  extraction_cache = ("a", record { size = 5; mtime_ns = 1; body = "hello" }) ∷ [];
}

-- The metadata of a changed file leaves the old text, under the new fingerprint.
stale_text :
    (elim (replace_indexed_document_with_mode allow next_rowid second_version true indexed) [
      | ok index' ↦ cached_body "a" 7 2 index'
      | err error ↦ none
    ])
    ≡ some "hello"
unfolding index
stale_text = refl

indexed-IsMapped : IsMapped indexed
unfolding index
indexed-IsMapped = record {
  found = λ path rowid e. ground (arith, ==_iff path "a");
  owned = λ path rowid e. elim (Bool-cases (rowid == 1)) [
    | inl c ↦
        let one : rowid ≡ 1 = ground (arith, ==_iff rowid 1) in
        let own : ("a" == path) ≡ true =
          subst (λ r. has_path path (Map.get r indexed.documents) ≡ true) one e in
        let same : path ≡ "a" = ground (arith, ==_iff "a" path) in rw (same, one) refl
    | inr c ↦
        let clash : false ≡ true =
          subst (λ b. has_path path (if b then some only_row else none) ≡ true) c e in
        absurd (cc)
  ];
  cached = λ path rowid e. ground arith;
}

abbrev compacted : PersistentIndex
compacted = record indexed {
  extraction_cache = ("a", record { size = 5; mtime_ns = 1; body = "" }) ∷ [];
  compaction_cursor = "a";
  compaction_done = true;
}

compact_duplicate_cache_bodies_batch-IsSame_example : IsSame indexed compacted
unfolding index
compact_duplicate_cache_bodies_batch-IsSame_example =
    compact_duplicate_cache_bodies_batch-IsSame (λ body. 5) 10 indexed compacted
      (record {
        scanned_rows = 1;
        cleared_rows = 1;
        cleared_body_bytes = 5;
        preserved_mismatches = 0;
        preserved_oversized = 0;
        complete = true;
      })
      indexed-IsMapped refl

abbrev failed : PersistentIndex
failed = record indexed {
  ocr_attempts = ("a", record { size = 5; mtime_ns = 1; failures = 3 }) ∷ [];
}

record_ocr_failures-IsCounted_example :
    IsCounted "a" 5 1 2 failed
      (record failed { ocr_attempts = ("a", record { size = 5; mtime_ns = 1; failures = 4 }) ∷ [] })
      4
unfolding index
record_ocr_failures-IsCounted_example =
    record_ocr_failures-IsCounted "a" 5 1 2 failed
      (record failed { ocr_attempts = ("a", record { size = 5; mtime_ns = 1; failures = 4 }) ∷ [] })
      4 refl
