-- ===== src/Index/Ledger/Failures.antt =====
-- The counters of failed recognitions in src/index.rs: `record_ocr_failures` and `ocr_failure_count`.
use grepmesh.Prelude.{
  ℕ, ◌+◌, ◌≡◌, refl, sym, true, false, ◌&&◌, not, Option, none, some, String, length, leb,
  if◌then◌else◌, ◌==◌, ==_iff, string_ord, nat_ord, arith, Option-cases, inl, inr, ap, ◌∙◌, subst,
  min,
}
use grepmesh.Prelude.Map.{get, contains_key, insert, get-insert}
use grepmesh.Index.State.{Attempts, PersistentIndex, ok, err, Error, Holds, Holds-if}
use grepmesh.Index.Documents.{max_pending_ocr}
use grepmesh.Index.Ledger.{max_failures, ocr_failure_count, failed_row, record_ocr_failures}

-- The counters after `attempts` more failures of one version of a file.
pub record IsCounted (path : String) (size mtime_ns attempts : ℕ) (index index' : PersistentIndex)
    (failures : ℕ) : Type 0 where
  pub total :
      failures
      ≡ min max_failures (ocr_failure_count path size mtime_ns index + min attempts max_failures)
  pub counted : ocr_failure_count path size mtime_ns index' ≡ failures
  pub others :
      (q : String) (size' mtime_ns' : ℕ)
      → (q == path) ≡ false
      → ocr_failure_count q size' mtime_ns' index' ≡ ocr_failure_count q size' mtime_ns' index
  pub earlier_versions :
      (size' mtime_ns' : ℕ)
      → ((size == size') && (mtime_ns == mtime_ns')) ≡ false
      → ocr_failure_count path size' mtime_ns' index' ≡ 0

abbrev count_of : ℕ → ℕ → Option Attempts → ℕ
count_of size mtime_ns none = 0
count_of size mtime_ns (some row) =
    if (row.size == size) && (row.mtime_ns == mtime_ns) then row.failures else 0

ocr_failure_count-get :
    (path : String) (size mtime_ns : ℕ) (index : PersistentIndex)
    → ocr_failure_count path size mtime_ns index
      ≡ count_of size mtime_ns (get path index.ocr_attempts)
unfolding ocr_failure_count
ocr_failure_count-get path size mtime_ns index = elim (Option-cases (get path index.ocr_attempts)) [
  | inl e ↦ rw (ocr_failure_count, e) refl
  | inr (row, e) ↦ rw (ocr_failure_count, e) refl
]

failed_row-total :
    (size mtime_ns attempts : ℕ) (row : Option Attempts)
    → (failed_row size mtime_ns attempts row).failures
      ≡ min max_failures (count_of size mtime_ns row + min attempts max_failures)
unfolding failed_row
failed_row-total size mtime_ns attempts none = ground arith
failed_row-total size mtime_ns attempts (some row) = refl

failed_row-version :
    (size mtime_ns attempts : ℕ) (row : Option Attempts)
    → ((failed_row size mtime_ns attempts row).size ≡ size)
      × ((failed_row size mtime_ns attempts row).mtime_ns ≡ mtime_ns)
unfolding failed_row
failed_row-version size mtime_ns attempts none = (refl, refl)
failed_row-version size mtime_ns attempts (some row) = (refl, refl)

module _ (path : String) (size mtime_ns attempts : ℕ) (index : PersistentIndex) where
  abbrev next_row : Attempts
  next_row = failed_row size mtime_ns attempts (get path index.ocr_attempts)

  abbrev next_index : PersistentIndex
  next_index = record index { ocr_attempts = insert path next_row index.ocr_attempts }

  next_count :
      (q : String) (size' mtime_ns' : ℕ)
      → ocr_failure_count q size' mtime_ns' next_index
        ≡ count_of size' mtime_ns' (if q == path then some next_row else get q index.ocr_attempts)
  next_count q size' mtime_ns' =
      ocr_failure_count-get q size' mtime_ns' next_index
      ∙ ap (count_of size' mtime_ns') (get-insert path q next_row index.ocr_attempts)

  own_count :
      (size' mtime_ns' : ℕ)
      → ocr_failure_count path size' mtime_ns' next_index
        ≡ (if (size == size') && (mtime_ns == mtime_ns') then next_row.failures else 0)
  own_count size' mtime_ns' =
      let self : (path == path) ≡ true = ground (arith, ==_iff path path) in
      let version = failed_row-version size mtime_ns attempts (get path index.ocr_attempts) in
      next_count path size' mtime_ns' ∙ rw (self, version.0, version.1) refl

  next_index-IsCounted : IsCounted path size mtime_ns attempts index next_index next_row.failures
  next_index-IsCounted = record {
    total =
        failed_row-total size mtime_ns attempts (get path index.ocr_attempts)
        ∙ ap (λ count. min max_failures (count + min attempts max_failures))
            (sym (ocr_failure_count-get path size mtime_ns index));
    counted = own_count size mtime_ns ∙ ground (arith, ==_iff size size, ==_iff mtime_ns mtime_ns);
    others = λ q size' mtime_ns' d.
        next_count q size' mtime_ns' ∙ rw d (sym (ocr_failure_count-get q size' mtime_ns' index));
    earlier_versions = λ size' mtime_ns' d. own_count size' mtime_ns' ∙ rw d refl;
  }

-- When recording failures succeeds, the new count of the file's version is the old one and the
-- attempts, cut off at the limit, it is the one that is read back, the counts of other paths stay,
-- and other versions of the path have none.
pub record_ocr_failures-IsCounted :
    (path : String) (size mtime_ns attempts : ℕ) (index index' : PersistentIndex) (failures : ℕ)
    → record_ocr_failures path size mtime_ns attempts index ≡ ok (index', failures)
    → IsCounted path size mtime_ns attempts index index' failures
unfolding record_ocr_failures
record_ocr_failures-IsCounted path size mtime_ns attempts index index' failures e =
    subst (Holds (λ (o : PersistentIndex × ℕ). IsCounted path size mtime_ns attempts index o.0 o.1))
      e
      (Holds-if (λ (o : PersistentIndex × ℕ). IsCounted path size mtime_ns attempts index o.0 o.1)
        (not (contains_key path index.ocr_attempts)
          && leb max_pending_ocr (length index.ocr_attempts))
        (err Error.failure_ledger_full)
        (ok (
          next_index path size mtime_ns attempts index,
          (next_row path size mtime_ns attempts index).failures,
        ))
        tt (next_index-IsCounted path size mtime_ns attempts index))
