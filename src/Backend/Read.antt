-- ===== src/Backend/Read.antt =====
-- `read_text` of src/backend.rs and `normalize_absolute_path_any`. `canonicalize` and the file that is
-- read are the file system. `is_utf8` and `text_of` are the check and the decoding of a line.
pub mod Lines
pub mod Chunk
pub mod Complete
pub mod Text
use grepmesh.Prelude.{
  ℕ, zero, suc, ◌+◌, ◌*◌, Bool, true, false, ◌&&◌, ◌||◌, not, Option, none, some, String, List, [],
  ◌∷◌, length, take, ltb, leb, if◌then◌else◌, ◌==◌, nat_ord, max, min, any, unwrap_or, is_some,
}
use grepmesh.Mesh.Paths.{is_absolute, path_starts_with}
use grepmesh.Backend.Hits.{MatchLine}

abbrev pub max_bounded_text_read_bytes : ℕ
max_bounded_text_read_bytes = 1024 * 1024

pub record ReadChunk : Type 0 where
  pub start_line : ℕ
  pub end_line : ℕ
  pub lines : List MatchLine

pub data Error : Type 0 where
  not_absolute unresolved outside_roots no_metadata file_too_large : Error
  not_utf8 range_too_large out_of_fuel : Error

pub data Result {ℓ} (A : Type ℓ) : Type ℓ where
  ok : A → Result A
  err : Error → Result A

-- `read_line`: the bytes up to a line feed and with it, and the bytes that are left
unfoldable pub read_line : List ℕ → List ℕ × List ℕ
read_line [] = ([], [])
read_line (c ∷ cs) =
    let rest = read_line cs in if c == b'\n' then (c ∷ [], cs) else (c ∷ rest.0, rest.1)

-- `strip_suffix('\n')`, and then `strip_suffix('\r')`
unfoldable pub strip_line_end : List ℕ → List ℕ
strip_line_end [] = []
strip_line_end (c ∷ []) = if c == b'\n' then [] else c ∷ []
strip_line_end (c ∷ d ∷ []) = if d == b'\n' then (if c == b'\r' then [] else c ∷ []) else c ∷ d ∷ []
strip_line_end (c ∷ d ∷ e ∷ cs) = c ∷ strip_line_end (d ∷ e ∷ cs)

-- `requested_end.is_some_and(|end| line_number >= end)`
abbrev pub is_past : Option ℕ → ℕ → Bool
is_past none line_number = false
is_past (some end) line_number = leb end line_number

module _ (is_utf8 : List ℕ → Bool) (text_of : List ℕ → String) where
  abbrev pub match_line : ℕ → List ℕ → MatchLine
  match_line line_number line = record {
    line_number = line_number;
    text = text_of (strip_line_end line);
  }

  -- the lines from the first one that is selected, and the number of the last one that is read
  abbrev pub push_line : ℕ → ℕ → List ℕ → Result (List MatchLine × ℕ) → Result (List MatchLine × ℕ)
  push_line start line_number line (err e) = err e
  push_line start line_number line (ok (lines, last)) =
      if leb start line_number
      then ok (match_line line_number line ∷ lines, last)
      else ok (lines, last)

  unfoldable pub read_loop : ℕ → ℕ → Option ℕ → ℕ → List ℕ → ℕ → ℕ → Result (List MatchLine × ℕ)
  unfolding read_line strip_line_end
  read_loop zero start requested_end max_read_bytes bytes line_number bytes_read = err out_of_fuel
  read_loop (suc fuel) start requested_end max_read_bytes bytes line_number bytes_read =
      let line = (read_line bytes).0 in
      let bytes_read' = bytes_read + length line in
      let rest =
        read_loop fuel start requested_end max_read_bytes (read_line bytes).1 (line_number + 1)
          bytes_read' in
      if is_past requested_end line_number
      then ok ([], line_number)
      else if length bytes == 0
      then ok ([], line_number)
      else if not (is_utf8 line)
      then err not_utf8
      else if ltb max_read_bytes bytes_read'
      then err range_too_large
      else push_line start (line_number + 1) line rest

  -- the end of the chunk
  abbrev pub chunk_of : ℕ → Option ℕ → List MatchLine × ℕ → ReadChunk
  chunk_of start requested_end (lines, last) = record {
    start_line = start;
    end_line = if ltb last start then start else min (unwrap_or last requested_end) last;
    lines = lines;
  }

  abbrev pub finish : ℕ → Option ℕ → Result (List MatchLine × ℕ) → Result ReadChunk
  finish start requested_end (err e) = err e
  finish start requested_end (ok read) = ok (chunk_of start requested_end read)

  -- the part of `read_text` after the check of the size: `bytes` is the content of the file
  unfoldable pub read_chunk : Option ℕ → Option ℕ → ℕ → List ℕ → Result ReadChunk
  unfolding read_loop
  read_chunk start_line end_line size bytes =
      let start = max (unwrap_or 1 start_line) 1 in
      let requested_end : Option ℕ = elim end_line [
        | none ↦ none
        | some end ↦ some (max end start)
      ] in
      let max_read_bytes = if is_some requested_end then max_bounded_text_read_bytes else size in
      finish start requested_end (
        read_loop (length bytes + 2) start requested_end max_read_bytes
          (take (max_read_bytes + 1) bytes) 0 0)

module _ (canonicalize : List ℕ → Option (List ℕ)) where
  abbrev pub is_under : List ℕ → List ℕ → Bool
  is_under resolved root = elim (canonicalize root) [
    | none ↦ false
    | some base ↦ path_starts_with resolved base
  ]

  abbrev pub check_resolved : List (List ℕ) → Option (List ℕ) → Result (List ℕ)
  check_resolved roots none = err unresolved
  check_resolved roots (some resolved) =
      if any (is_under resolved) roots then ok resolved else err outside_roots

  unfoldable pub normalize_absolute_path_any : List (List ℕ) → List ℕ → Result (List ℕ)
  unfolding is_absolute path_starts_with
  normalize_absolute_path_any roots path =
      if not (is_absolute path) then err not_absolute else check_resolved roots (canonicalize path)

-- A file as `metadata` and `read` have it.
pub record File : Type 0 where
  pub size : ℕ
  pub bytes : List ℕ

module _ (canonicalize : List ℕ → Option (List ℕ)) (open_file : List ℕ → Option File)
    (is_utf8 : List ℕ → Bool) (text_of : List ℕ → String) where
  abbrev pub read_file : ℕ → Option ℕ → Option ℕ → Option File → Result ReadChunk
  read_file max_file_bytes start_line end_line none = err no_metadata
  read_file max_file_bytes start_line end_line (some file) =
      if ltb max_file_bytes file.size
      then err file_too_large
      else read_chunk is_utf8 text_of start_line end_line file.size file.bytes

  abbrev pub read_resolved : ℕ → Option ℕ → Option ℕ → Result (List ℕ) → Result ReadChunk
  read_resolved max_file_bytes start_line end_line (err e) = err e
  read_resolved max_file_bytes start_line end_line (ok path) =
      read_file max_file_bytes start_line end_line (open_file path)

  -- `root` and the configured roots are the directories that may be read.
  unfoldable pub read_text :
      ℕ → List ℕ → List (List ℕ) → List ℕ → Option ℕ → Option ℕ → Result ReadChunk
  unfolding normalize_absolute_path_any read_chunk
  read_text max_file_bytes root root_paths path start_line end_line =
      read_resolved max_file_bytes start_line end_line
        (normalize_absolute_path_any canonicalize (root ∷ root_paths) path)
