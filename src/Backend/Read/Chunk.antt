-- ===== src/Backend/Read/Chunk.antt =====
-- What `read_text` of src/backend.rs returns: a part of an authorised file, and its lines.
use grepmesh.Prelude.{
  ℕ, zero, suc, ◌+◌, ◌≤◌, ◌<◌, ◌≡◌, refl, Bool, true, false, not, Option, none, some, String, List,
  [], ◌∷◌, length, take, length-take, ltb, leb, ◌==◌, nat_ord, arith, Bool-cases, inl, inr, subst,
  max, any, unwrap_or,
}
use grepmesh.Mesh.Paths.{is_absolute}
use grepmesh.Backend.Hits.{MatchLine}
use grepmesh.Backend.Read.{
  ReadChunk, File, Error, Result, ok, err, out_of_fuel, read_line, is_past, push_line, read_loop,
  finish, read_chunk, is_under, check_resolved, normalize_absolute_path_any, read_file,
  read_resolved, read_text, max_bounded_text_read_bytes, file_too_large, not_absolute, unresolved,
  outside_roots, no_metadata, not_utf8, range_too_large,
}
use grepmesh.Backend.Read.Lines.{Holds, slice, read_loop-slice, read_line-shorter}

abbrev pub is_finished {ℓ} : {A : Type ℓ} → Result A → Bool
is_finished (err out_of_fuel) = false
is_finished _ = true

module _ (is_utf8 : List ℕ → Bool) (text_of : List ℕ → String) where
  push_line-finished :
      (start n : ℕ) (line : List ℕ) (rest : Result (List MatchLine × ℕ))
      → is_finished rest ≡ true
      → is_finished (push_line is_utf8 text_of start n line rest) ≡ true
  push_line-finished start n line (err e) h = h
  push_line-finished start n line (ok (lines, last)) h = elim (Bool-cases (leb start n)) [
    | inl e ↦ rw e refl
    | inr e ↦ rw e refl
  ]

  -- Each round reads a byte, so the fuel of the loop is enough.
  read_loop-finished :
      (max_read_bytes fuel start : ℕ) (requested_end : Option ℕ) (bytes : List ℕ) (n bytes_read : ℕ)
      → length bytes < fuel
      → is_finished
          (read_loop is_utf8 text_of fuel start requested_end max_read_bytes bytes n bytes_read)
        ≡ true
  unfolding read_loop
  read_loop-finished max_read_bytes zero start requested_end bytes n bytes_read lt =
      absurd (omega arith)
  read_loop-finished max_read_bytes (suc fuel) start requested_end [] n bytes_read lt =
      elim (Bool-cases (is_past requested_end n)) [
        | inl past ↦ rw past refl
        | inr past ↦ rw past refl
      ]
  read_loop-finished max_read_bytes (suc fuel) start requested_end (c ∷ cs) n bytes_read lt =
      let line = (read_line (c ∷ cs)).0 in
      let some_bytes : (length (c ∷ cs) == 0) ≡ false = ground arith in
      let next =
        read_loop-finished max_read_bytes fuel start requested_end (read_line (c ∷ cs)).1 (n + 1)
          (bytes_read + length line) (omega (arith, read_line-shorter c cs)) in
      elim (Bool-cases (is_past requested_end n)) [
        | inl past ↦ rw past refl
        | inr past ↦ elim (Bool-cases (not (is_utf8 line))) [
          | inl bad ↦ rw (past, some_bytes, bad) refl
          | inr good ↦ elim (Bool-cases (ltb max_read_bytes (bytes_read + length line))) [
            | inl large ↦ rw (past, some_bytes, good, large) refl
            | inr fits ↦
                rw (past, some_bytes, good, fits) (push_line-finished start (n + 1) line _ next)
          ]
        ]
      ]

-- The first and the last line of a request.
abbrev pub first_of : Option ℕ → ℕ
first_of start_line = max (unwrap_or 1 start_line) 1

abbrev pub last_of : Option ℕ → Option ℕ → Option ℕ
last_of start_line none = none
last_of start_line (some end) = some (max end (first_of start_line))

-- A chunk has the lines of the range, as they are in the file.
pub record IsChunk (is_utf8 : List ℕ → Bool) (text_of : List ℕ → String)
    (start_line end_line : Option ℕ) (bytes : List ℕ) (chunk : ReadChunk) : Type 0 where
  pub start : chunk.start_line ≡ first_of start_line
  pub lines :
      chunk.lines
      ≡ slice is_utf8 text_of (first_of start_line) (last_of start_line end_line) 0 bytes

finish-IsChunk :
    (is_utf8 : List ℕ → Bool) (text_of : List ℕ → String) (start_line end_line : Option ℕ)
    (bytes : List ℕ) (r : Result (List MatchLine × ℕ))
    → Holds
        (λ (o : List MatchLine × ℕ).
          o.0 ≡ slice is_utf8 text_of (first_of start_line) (last_of start_line end_line) 0 bytes)
        r
    → Holds
        (IsChunk is_utf8 text_of start_line end_line bytes)
        (finish is_utf8 text_of (first_of start_line) (last_of start_line end_line) r)
finish-IsChunk is_utf8 text_of start_line end_line bytes (err e) h = tt
finish-IsChunk is_utf8 text_of start_line end_line bytes (ok (lines, last)) h = record {
  start = refl;
  lines = h;
}

read_with-IsChunk :
    (is_utf8 : List ℕ → Bool) (text_of : List ℕ → String) (start_line end_line : Option ℕ)
    (bytes : List ℕ) (fuel max_read_bytes : ℕ)
    → Holds (IsChunk is_utf8 text_of start_line end_line bytes) (
        finish is_utf8 text_of (first_of start_line) (last_of start_line end_line) (
          read_loop is_utf8 text_of fuel
            (first_of start_line)
            (last_of start_line end_line)
            max_read_bytes
            (take (max_read_bytes + 1) bytes)
            0
            0))
read_with-IsChunk is_utf8 text_of start_line end_line bytes fuel max_read_bytes =
    let same : suc max_read_bytes ≡ max_read_bytes + 1 = omega arith in
    finish-IsChunk is_utf8 text_of start_line end_line bytes _ (
      subst
        (λ k.
          Holds
            (λ (o : List MatchLine × ℕ).
              o.0
              ≡ slice is_utf8 text_of (first_of start_line) (last_of start_line end_line) 0 bytes)
            (read_loop is_utf8 text_of fuel (first_of start_line) (last_of start_line end_line)
              max_read_bytes (take k bytes) 0 0))
        same
        (read_loop-slice is_utf8 text_of (first_of start_line) (last_of start_line end_line)
          max_read_bytes fuel bytes 0 0 max_read_bytes (omega arith)))

pub read_chunk-IsChunk :
    (is_utf8 : List ℕ → Bool) (text_of : List ℕ → String) (start_line end_line : Option ℕ)
    (size : ℕ) (bytes : List ℕ)
    → Holds
        (IsChunk is_utf8 text_of start_line end_line bytes)
        (read_chunk is_utf8 text_of start_line end_line size bytes)
unfolding read_chunk
read_chunk-IsChunk is_utf8 text_of start_line none size bytes =
    read_with-IsChunk is_utf8 text_of start_line none bytes (length bytes + 2) size
read_chunk-IsChunk is_utf8 text_of start_line (some end) size bytes =
    read_with-IsChunk is_utf8 text_of start_line (some end) bytes (length bytes + 2)
      max_bounded_text_read_bytes

finished_error :
    (e : Error)
    → ◌≡◌ {A = Bool} (is_finished {A = List MatchLine × ℕ} (err e)) true
    → is_finished {A = ReadChunk} (err e) ≡ true
finished_error out_of_fuel h = h
finished_error not_absolute h = h
finished_error unresolved h = h
finished_error outside_roots h = h
finished_error no_metadata h = h
finished_error file_too_large h = h
finished_error not_utf8 h = h
finished_error range_too_large h = h

finish-finished :
    (is_utf8 : List ℕ → Bool) (text_of : List ℕ → String) (start : ℕ) (requested_end : Option ℕ)
    (r : Result (List MatchLine × ℕ))
    → is_finished r ≡ true
    → is_finished (finish is_utf8 text_of start requested_end r) ≡ true
finish-finished is_utf8 text_of start requested_end (err e) h = finished_error e h
finish-finished is_utf8 text_of start requested_end (ok r) h = refl

-- The loop that reads a file ends: whatever the range and the size that is given for the file, its fuel
-- lasts, and the outcome is a chunk or an error of the code.
pub read_chunk-finished :
    (is_utf8 : List ℕ → Bool) (text_of : List ℕ → String) (start_line end_line : Option ℕ)
    (size : ℕ) (bytes : List ℕ)
    → is_finished (read_chunk is_utf8 text_of start_line end_line size bytes) ≡ true
unfolding read_chunk
read_chunk-finished is_utf8 text_of start_line none size bytes =
    finish-finished is_utf8 text_of (first_of start_line) none _ (
      read_loop-finished is_utf8 text_of size (length bytes + 2) (first_of start_line) none
        (take (size + 1) bytes) 0 0 (omega (arith, length-take (size + 1) bytes)))
read_chunk-finished is_utf8 text_of start_line (some end) size bytes =
    finish-finished is_utf8 text_of (first_of start_line) (last_of start_line (some end)) _ (
      read_loop-finished is_utf8 text_of max_bounded_text_read_bytes (length bytes + 2)
        (first_of start_line) (last_of start_line (some end))
        (take (max_bounded_text_read_bytes + 1) bytes) 0 0
        (omega (arith, length-take (max_bounded_text_read_bytes + 1) bytes)))

Holds-map {ℓ} :
    {A : Type ℓ} (P Q : A → Type 0) (r : Result A) → ((a : A) → P a → Q a) → Holds P r → Holds Q r
Holds-map P Q (ok a) f h = f a h
Holds-map P Q (err e) f h = tt

module _ (canonicalize : List ℕ → Option (List ℕ)) (open_file : List ℕ → Option File)
    (is_utf8 : List ℕ → Bool) (text_of : List ℕ → String) where
  -- What a successful read of a path says: the resolved path is under a configured directory, its file
  -- is not too large, and the chunk has its lines.
  pub record IsRead (max_file_bytes : ℕ) (roots : List (List ℕ)) (path : List ℕ)
      (start_line end_line : Option ℕ) (chunk : ReadChunk) : Type 0 where
    pub resolved : List ℕ
    pub file : File
    pub at : canonicalize path ≡ some resolved
    pub under : any (is_under canonicalize resolved) roots ≡ true
    pub opened : open_file resolved ≡ some file
    pub small : file.size ≤ max_file_bytes
    pub content : IsChunk is_utf8 text_of start_line end_line file.bytes chunk

  read_file-IsRead :
      (max_file_bytes : ℕ) (roots : List (List ℕ)) (path resolved : List ℕ)
      (start_line end_line : Option ℕ) (found : Option File)
      → canonicalize path ≡ some resolved
      → any (is_under canonicalize resolved) roots ≡ true
      → open_file resolved ≡ found
      → Holds (IsRead max_file_bytes roots path start_line end_line) (
          read_file canonicalize open_file is_utf8 text_of max_file_bytes start_line end_line found)
  read_file-IsRead max_file_bytes roots path resolved start_line end_line none a u o = tt
  read_file-IsRead max_file_bytes roots path resolved start_line end_line (some file) a u o =
      elim (Bool-cases (ltb max_file_bytes file.size)) [
        | inl large ↦ rw large tt
        | inr small ↦ rw small (
            Holds-map (IsChunk is_utf8 text_of start_line end_line file.bytes) _
              (read_chunk is_utf8 text_of start_line end_line file.size file.bytes)
              (λ chunk c. record {
                resolved = resolved;
                file = file;
                at = a;
                under = u;
                opened = o;
                small = ground arith;
                content = c;
              })
              (read_chunk-IsChunk is_utf8 text_of start_line end_line file.size file.bytes))
      ]

  resolved-IsRead :
      (max_file_bytes : ℕ) (roots : List (List ℕ)) (path : List ℕ) (start_line end_line : Option ℕ)
      (found : Option (List ℕ))
      → canonicalize path ≡ found
      → Holds (IsRead max_file_bytes roots path start_line end_line) (
          read_resolved canonicalize open_file is_utf8 text_of max_file_bytes start_line end_line
            (check_resolved canonicalize roots found))
  resolved-IsRead max_file_bytes roots path start_line end_line none a = tt
  resolved-IsRead max_file_bytes roots path start_line end_line (some resolved) a =
      elim (Bool-cases (any (is_under canonicalize resolved) roots)) [
        | inr out ↦ rw out tt
        | inl under ↦ rw under (
            read_file-IsRead max_file_bytes roots path resolved start_line end_line
              (open_file resolved) a under refl)
      ]

  -- If a read succeeds, the path resolves to one under a directory that resolves from the root or a
  -- configured one, its file is no larger than the limit, and the chunk starts at the first line
  -- that was asked for and has the lines of the range, as they are in the file.
  pub read_text-IsRead :
      (max_file_bytes : ℕ) (root : List ℕ) (root_paths : List (List ℕ)) (path : List ℕ)
      (start_line end_line : Option ℕ) (chunk : ReadChunk)
      → read_text canonicalize open_file is_utf8 text_of max_file_bytes root root_paths path
          start_line end_line
        ≡ ok chunk
      → IsRead max_file_bytes (root ∷ root_paths) path start_line end_line chunk
  unfolding read_text normalize_absolute_path_any
  read_text-IsRead max_file_bytes root root_paths path start_line end_line chunk e =
      subst (Holds (IsRead max_file_bytes (root ∷ root_paths) path start_line end_line)) e
        (elim (Bool-cases (not (is_absolute path))) [
          | inl relative ↦ rw relative tt
          | inr absolute ↦ rw absolute (
              resolved-IsRead max_file_bytes (root ∷ root_paths) path start_line end_line
                (canonicalize path) refl)
        ])
