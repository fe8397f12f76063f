-- ===== src/Jobs/Status/Paging.antt =====
-- Paging of `status_inner`: what a page holds, where its cursor leads, and which cursors are kept.
use grepmesh.Prelude.{
  ℕ, zero, suc, ◌+◌, ◌≤◌, ◌<◌, ◌≡◌, refl, sym, ap, ◌∙◌, Bool, true, false, Option, none, some,
  String, List, [], ◌∷◌, ◌++◌, length, take, drop, length-take, length-drop, drop-drop, min,
  if◌then◌else◌, arith, Bool-cases, inl, inr, Ordering, string_ord, ◌==◌,
}
use grepmesh.Prelude.Map
use grepmesh.Prelude.Map.{BTreeMap, length-insert-le, get-insert}
use grepmesh.Backend.Hits.{SearchHit}
use grepmesh.Jobs.State.{SearchJob, max_cursors_per_job, max_page_size}
use grepmesh.Jobs.Status.{page_from, end_of, page_size_of, evict_cursors, note_cursor, has_next}

module _ {ℓ} {A : Type ℓ} where
  take-drop_rest : (n : ℕ) (xs : List A) → xs ≡ take n xs ++ drop (length (take n xs)) xs
  take-drop_rest zero xs = refl
  take-drop_rest (suc n) [] = refl
  take-drop_rest (suc n) (x ∷ xs) = ap (◌∷◌ x) (take-drop_rest n xs)

-- The results that fit one page, and one page for each handle.
abbrev pub capacity : ℕ → List String → ℕ
capacity n [] = n
capacity n (handle ∷ handles) = n + capacity n handles

page_size_bounds :
    (page_size : Option ℕ) → (1 ≤ page_size_of page_size) × (page_size_of page_size ≤ max_page_size)
unfolding page_size_of
page_size_bounds none = omega arith
page_size_bounds (some n) = omega arith

evict_cursors-few : (m : BTreeMap String ℕ) → length (evict_cursors m) ≤ max_cursors_per_job
unfolding evict_cursors
evict_cursors-few [] = omega arith
evict_cursors-few ((k, v) ∷ m) = ground (arith, evict_cursors-few m)

evict_cursors-id : (m : BTreeMap String ℕ) → length m ≤ max_cursors_per_job → evict_cursors m ≡ m
unfolding evict_cursors
evict_cursors-id [] h = refl
evict_cursors-id ((k, v) ∷ m) h = ground arith

insert-first :
    (handle k : String) (end v : ℕ) (m : BTreeMap String ℕ)
    → string_ord.cmp handle k ≡ Ordering.lt
    → Map.insert handle end ((k, v) ∷ m) ≡ (handle, end) ∷ (k, v) ∷ m
unfolding Map.insert
insert-first handle k end v m h = rw (h, Map.insert)

evict_first :
    (e : String × ℕ) (m : BTreeMap String ℕ)
    → length m ≡ max_cursors_per_job
    → evict_cursors (e ∷ m) ≡ m
unfolding evict_cursors
evict_first (k, v) m full = ground (arith, evict_cursors-id m (omega arith))

module _ {F : Type 0} where
  -- What the page from `start` holds: the results up to `end`, which is where its cursor leads.
  pub record PageLaw (page_size : Option ℕ) (start : ℕ) (job : SearchJob F) : Type 0 where
    pub split :
        drop start job.results
        ≡ page_from false page_size start job ++ drop (end_of false page_size start job) job.results
    pub short : length (page_from false page_size start job) ≤ max_page_size
    pub grows : start < length job.results → start < end_of false page_size start job
    pub after : start ≤ end_of false page_size start job
    pub within : end_of false page_size start job ≤ length job.results

  -- A page from a place within the results holds at most `MAX_PAGE_SIZE` of them, the ones up to the
  -- place where its cursor leads, with none left out; it holds one if any is left.
  pub page_from-PageLaw :
      (page_size : Option ℕ) (start : ℕ) (job : SearchJob F)
      → start ≤ length job.results
      → PageLaw page_size start job
  unfolding end_of page_from
  page_from-PageLaw page_size start job h =
      let n = page_size_of page_size in
      let here : min start (length job.results) ≡ start = omega arith in
      let rest = drop start job.results in
      let size = length-take n rest in
      let left = length-drop start job.results in
      let bounds = page_size_bounds page_size in
      record {
        split = rw here (
            take-drop_rest n rest
            ∙ ap (λ r. take n rest ++ r) (drop-drop (length (take n rest)) start job.results));
        short = rw here (omega (arith, size, bounds));
        grows = λ more. rw here (omega (arith, size, left, bounds));
        after = rw here (omega arith);
        within = rw here (omega (arith, size, left));
      }

  -- With fewer than `MAX_CURSORS_PER_JOB` cursors, where a cursor is returned, it leads to the end of
  -- its page, and every older cursor with another name still leads where it led.
  pub get-note_cursor :
      (all : Bool) (end : ℕ) (handle k : String) (job : SearchJob F)
      → has_next all end job ≡ true
      → length job.cursors < max_cursors_per_job
      → Map.get k (note_cursor all end handle job).cursors
        ≡ (if k == handle then some end else Map.get k job.cursors)
  unfolding note_cursor
  get-note_cursor all end handle k job h room =
      let room' =
        evict_cursors-id (Map.insert handle end job.cursors)
          (omega (arith, length-insert-le handle end job.cursors)) in
      rw (h, room') (get-insert handle k end job.cursors)

  -- A client that reads a page, and then one more for each cursor that it is given. The job notes each
  -- cursor under a fresh handle, and the client's next poll looks that handle up; a cursor that the job
  -- has lost ends the client's reading.
  unfoldable pub follow : List String → Option ℕ → ℕ → SearchJob F → List (SearchHit F)
  follow [] page_size start job = page_from false page_size start job
  follow (handle ∷ handles) page_size start job =
      let end = end_of false page_size start job in
      let job' = note_cursor false end handle job in
      page_from false page_size start job
      ++ (if has_next false end job
          then elim (Map.get handle job'.cursors) [
            | none ↦ []
            | some next ↦ follow handles page_size next job'
          ]
          else [])

  -- Where a cursor is returned, the job has `MAX_CURSORS_PER_JOB` cursors, and the fresh handle sorts
  -- before the first of them and is none of them: that very cursor is dropped at once.
  pub note_cursor_lost :
      (all : Bool) (end : ℕ) (handle k : String) (v : ℕ) (m : BTreeMap String ℕ) (job : SearchJob F)
      → has_next all end job ≡ true
      → job.cursors ≡ (k, v) ∷ m
      → length job.cursors ≡ max_cursors_per_job
      → string_ord.cmp handle k ≡ Ordering.lt
      → Map.get handle job.cursors ≡ none
      → Map.get handle (note_cursor all end handle job).cursors ≡ none
  unfolding note_cursor
  note_cursor_lost all end handle k v m job h e full least absent =
      let first = insert-first handle k end v m least in
      let full' : length ((k, v) ∷ m) ≡ max_cursors_per_job = ap length (sym e) ∙ full in
      let absent' : Map.get handle ((k, v) ∷ m) ≡ none = ap (Map.get handle) (sym e) ∙ absent in
      rw (h, e, first, evict_first (handle, end) ((k, v) ∷ m) full') absent'

  -- No reply leaves more than `MAX_CURSORS_PER_JOB` cursors.
  pub note_cursor-few :
      (all : Bool) (end : ℕ) (handle : String) (job : SearchJob F)
      → length job.cursors ≤ max_cursors_per_job
      → length (note_cursor all end handle job).cursors ≤ max_cursors_per_job
  unfolding note_cursor
  note_cursor-few all end handle job h = elim (Bool-cases (has_next all end job)) [
    | inl next ↦ rw next (evict_cursors-few (Map.insert handle end job.cursors))
    | inr last ↦ rw last h
  ]
