-- ===== src/Jobs/Store.antt =====
-- The artifact directory of src/jobs.rs: `JobPersistence`, `persist`, `load`, `delete_artifact`,
-- `cleanup_artifacts`, `enforce_store_budget` and `artifact_path`.
-- The directory is the list of its readable `job-*.json` files, with the id in a file's name. A file
-- of another name, or one that does not parse, is skipped by every function here and is left out.
-- `encode` is the length of a record's JSON text, none where `serde_json::to_vec` fails, and
-- `writable` says whether files can be written and removed.
pub mod Budget
pub mod Persist
use grepmesh.Prelude.{
  ℕ, zero, suc, ◌-◌, ◌+◌, Bool, true, false, ◌&&◌, ◌||◌, not, Option, none, some, String, List, [],
  ◌∷◌, length, ltb, leb, if◌then◌else◌, all, retain, sum_by, unwrap_or, ◌==◌, nat_ord, string_ord,
  Ord, pair_ord, Ordering, map,
}
use grepmesh.Prelude.Text.{codes, is_ascii_alphanumeric, starts_with}
use grepmesh.Jobs.Result.{
  Result, ok, err, ◌>>=◌, invalid_job_id, artifact_too_large, not_encodable, io, panicked,
}
use grepmesh.Jobs.State.{SearchJob, PersistedSearchJob, from_job, into_job, max_jobs}

pub record Artifact (F : Type 0) : Type 0 where
  pub id : String
  pub content : PersistedSearchJob F

pub record JobPersistence (F : Type 0) : Type 0 where
  pub ttl_ms : ℕ
  pub max_bytes : ℕ
  pub store_max_bytes : ℕ
  pub writable : Bool
  pub files : List (Artifact F)

-- The characters of a job id: ASCII letters, digits and `-`.
abbrev pub is_id_char : ℕ → Bool
is_id_char c = is_ascii_alphanumeric c || (c == b'-')

-- `job_id.starts_with("job-")`, and only id characters
unfoldable pub is_job_id : String → Bool
unfolding is_ascii_alphanumeric starts_with
is_job_id job_id = starts_with (codes job_id) (codes "job-") && all is_id_char (codes job_id)

-- The id whose file is meant; the directory is joined in front of `{id}.json`.
unfoldable pub artifact_path : String → Result String
artifact_path job_id = if is_job_id job_id then ok job_id else err (invalid_job_id job_id)

-- `results.pop()`
unfoldable pub pop_last {ℓ} : {A : Type ℓ} → List A → List A
pop_last [] = []
pop_last (x ∷ []) = []
pop_last (x ∷ y ∷ rest) = x ∷ pop_last (y ∷ rest)

-- `now.saturating_sub(job.created_ms) >= ttl_ms`
abbrev pub is_expired : ℕ → ℕ → ℕ → Bool
is_expired now ttl_ms created_ms = leb ttl_ms (now - created_ms)

abbrev pub is_after : Ordering → Bool
is_after Ordering.gt = true
is_after _ = false

module _ {F : Type 0} where
  abbrev pub find_file : String → List (Artifact F) → Option (PersistedSearchJob F)
  find_file id [] = none
  find_file id (a ∷ rest) = if a.id == id then some a.content else find_file id rest

  unfoldable pub remove_file : String → List (Artifact F) → List (Artifact F)
  remove_file id = retain (λ a. not (a.id == id))

  unfoldable pub delete_artifact : String → JobPersistence F → Result (JobPersistence F)
  unfolding artifact_path remove_file
  delete_artifact job_id store = do
    id ← artifact_path job_id
    elim (find_file id store.files) [
      | none ↦ ok store
      | some _ ↦
          if store.writable
          then ok (record store { files = remove_file id store.files })
          else err io
    ]

  -- A file that cannot be removed is left.
  unfoldable pub cleanup_artifacts : ℕ → ℕ → JobPersistence F → JobPersistence F
  cleanup_artifacts now ttl_ms store =
      if store.writable
      then record store {
        files = retain (λ a. not (is_expired now ttl_ms a.content.created_ms)) store.files;
      }
      else store

  unfoldable pub load :
      ℕ → String → JobPersistence F → Result (JobPersistence F × Option (SearchJob F))
  unfolding artifact_path delete_artifact into_job
  load now job_id store = do
    id ← artifact_path job_id
    elim (find_file id store.files) [
      | none ↦ ok (store, none)
      | some content ↦
          if is_expired now store.ttl_ms content.created_ms
          then (do store' ← delete_artifact job_id store; ok (store', none))
          else ok (store, some (into_job content))
    ]

  -- `sort_by_key` on the time of creation, then the path
  abbrev pub file_key : Artifact F → ℕ × String
  file_key a = (a.content.created_ms, a.id)

  unfoldable pub insert_file : Artifact F → List (Artifact F) → List (Artifact F)
  insert_file a [] = a ∷ []
  insert_file a (b ∷ rest) =
      let later = b ∷ insert_file a rest in
      if is_after ((pair_ord {A = ℕ} {B = String}).cmp (file_key a) (file_key b))
      then later
      else a ∷ b ∷ rest

  unfoldable pub sort_files : List (Artifact F) → List (Artifact F)
  unfolding insert_file
  sort_files [] = []
  sort_files (a ∷ rest) = insert_file a (sort_files rest)

  module _ (encode : PersistedSearchJob F → Option ℕ) where
    abbrev pub file_bytes : Artifact F → ℕ
    file_bytes a = unwrap_or 0 (encode a.content)

    -- The loop over the files, oldest first: what is left of the directory.
    unfoldable pub evict_files : Bool → ℕ → ℕ → List (Artifact F) → Result (List (Artifact F))
    evict_files writable store_max_bytes total [] =
        if ltb max_jobs 0 || ltb store_max_bytes total then err panicked else ok []
    evict_files writable store_max_bytes total (a ∷ rest) =
        let next = evict_files writable store_max_bytes (total - file_bytes a) rest in
        if ltb max_jobs (length (a ∷ rest)) || ltb store_max_bytes total
        then (if writable then next else err io)
        else ok (a ∷ rest)

    unfoldable pub enforce_store_budget : JobPersistence F → Result (JobPersistence F)
    unfolding sort_files evict_files
    enforce_store_budget store = do
      let files = sort_files store.files
      left ← evict_files store.writable store.store_max_bytes (sum_by file_bytes files) files
      ok (record store { files = left })

    -- `bytes.len() <= max_bytes || results.is_empty()`, or the encoding fails
    unfoldable pub is_settled : ℕ → SearchJob F → Bool
    is_settled max_bytes job =
        elim (encode (from_job job)) [ none ↦ true | some n ↦ leb n max_bytes ]
        || elim job.results [ [] ↦ true | _ ∷ _ ↦ false ]

    -- The loop of `persist`: it drops the last result until the job is settled.
    unfoldable pub shrink : ℕ → ℕ → SearchJob F → SearchJob F
    unfolding is_settled pop_last
    shrink zero max_bytes job = job
    shrink (suc fuel) max_bytes job =
        let rest =
          shrink fuel max_bytes (record job { results = pop_last job.results; truncated = true }) in
        if is_settled max_bytes job then job else rest

    unfoldable pub write_artifact :
        String → SearchJob F → JobPersistence F → Result (JobPersistence F)
    unfolding artifact_path remove_file enforce_store_budget from_job
    write_artifact job_id job store = do
      id ← artifact_path job_id
      if store.writable
          then enforce_store_budget (record store {
            files = record { id = id; content = from_job job } ∷ remove_file id store.files;
          })
          else err io

    -- The job comes back shrunk, also beside an error.
    unfoldable pub persist :
        String → SearchJob F → JobPersistence F → SearchJob F × Result (JobPersistence F)
    unfolding shrink write_artifact
    persist job_id job store =
        let job' = shrink (length job.results) store.max_bytes job in
        (
          job',
          elim (encode (from_job job')) [
            | none ↦ err not_encodable
            | some n ↦
                if ltb store.max_bytes n
                then err artifact_too_large
                else write_artifact job_id job' store
          ],
        )
