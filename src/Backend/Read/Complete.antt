-- ===== src/Backend/Read/Complete.antt =====
-- When `read_text` of src/backend.rs reads the content of a file: within its limits, and in UTF-8.
use grepmesh.Prelude.{
  ℕ, zero, suc, ◌+◌, ◌≤◌, ◌<◌, ◌≡◌, refl, sym, Bool, true, false, Option, none, some, String, List,
  [], ◌∷◌, length, take, ltb, leb, ◌==◌, nat_ord, arith, Bool-cases, inl, inr, ap, subst, All,
}
use grepmesh.Backend.Hits.{MatchLine}
use grepmesh.Backend.Read.{
  ReadChunk, Result, ok, err, read_line, is_past, push_line, read_loop, finish, read_chunk,
  max_bounded_text_read_bytes,
}
use grepmesh.Backend.Read.Lines.{Holds, read_line-shorter, lines_of, read_line-lines_of}
use grepmesh.Backend.Read.Chunk.{first_of, last_of, IsChunk, read_chunk-IsChunk}

abbrev is_ok {ℓ} : {A : Type ℓ} → Result A → Bool
is_ok (ok a) = true
is_ok (err e) = false

-- the two parts of `read_line` are the input
read_line-length :
    (bytes : List ℕ) → length (read_line bytes).0 + length (read_line bytes).1 ≡ length bytes
unfolding read_line
read_line-length [] = refl
read_line-length (c ∷ cs) = elim (Bool-cases (c == b'\n')) [
  | inl e ↦ rw e (omega arith)
  | inr e ↦ rw e (omega (arith, read_line-length cs))
]

take-all : (n : ℕ) (bytes : List ℕ) → length bytes < n → take n bytes ≡ bytes
take-all zero bytes lt = absurd (omega arith)
take-all (suc n) [] lt = refl
take-all (suc n) (c ∷ cs) lt = ap (λ rest. c ∷ rest) (take-all n cs (omega arith))

module _ (is_utf8 : List ℕ → Bool) (text_of : List ℕ → String) where
  -- every line of the bytes is UTF-8
  abbrev pub IsUtf8 : List ℕ → Type 0
  IsUtf8 bytes = All (λ line. is_utf8 line ≡ true) (lines_of bytes)

  push_line-ok :
      (start n : ℕ) (line : List ℕ) (rest : Result (List MatchLine × ℕ))
      → is_ok rest ≡ true
      → is_ok (push_line is_utf8 text_of start n line rest) ≡ true
  push_line-ok start n line (err e) h = h
  push_line-ok start n line (ok (lines, last)) h = elim (Bool-cases (leb start n)) [
    | inl e ↦ rw e refl
    | inr e ↦ rw e refl
  ]

  read_loop-ok :
      (limit fuel start : ℕ) (requested_end : Option ℕ) (bytes : List ℕ) (n bytes_read : ℕ)
      → length bytes < fuel
      → bytes_read + length bytes ≤ limit
      → IsUtf8 bytes
      → is_ok (read_loop is_utf8 text_of fuel start requested_end limit bytes n bytes_read) ≡ true
  unfolding read_loop
  read_loop-ok limit zero start requested_end bytes n bytes_read lt le utf8 = absurd (omega arith)
  read_loop-ok limit (suc fuel) start requested_end [] n bytes_read lt le utf8 =
      elim (Bool-cases (is_past requested_end n)) [
        | inl past ↦ rw past refl
        | inr past ↦ rw past refl
      ]
  read_loop-ok limit (suc fuel) start requested_end (c ∷ cs) n bytes_read lt le utf8 =
      let line = (read_line (c ∷ cs)).0 in
      let some_bytes : (length (c ∷ cs) == 0) ≡ false = ground arith in
      let by_lines = subst (All (λ l. is_utf8 l ≡ true)) (read_line-lines_of c cs) utf8 in
      let fits : ltb limit (bytes_read + length line) ≡ false =
        ground (arith, read_line-length (c ∷ cs)) in
      let next =
        read_loop-ok limit fuel start requested_end (read_line (c ∷ cs)).1 (n + 1)
          (bytes_read + length line) (omega (arith, read_line-shorter c cs))
          (omega (arith, read_line-length (c ∷ cs))) (by_lines.1) in
      elim (Bool-cases (is_past requested_end n)) [
        | inl past ↦ rw past refl
        | inr past ↦
            rw (past, some_bytes, by_lines.0, fits) (push_line-ok start (n + 1) line _ next)
      ]

  finish-ok :
      (start : ℕ) (requested_end : Option ℕ) (r : Result (List MatchLine × ℕ))
      → is_ok r ≡ true
      → is_ok (finish is_utf8 text_of start requested_end r) ≡ true
  finish-ok start requested_end (ok r) h = refl
  finish-ok start requested_end (err e) h = h

  read_with-ok :
      (start : ℕ) (requested_end : Option ℕ) (limit : ℕ) (bytes : List ℕ)
      → length bytes ≤ limit
      → IsUtf8 bytes
      → is_ok (
          finish is_utf8 text_of start requested_end (
            read_loop is_utf8 text_of
              (length bytes + 2)
              start
              requested_end
              limit
              (take (limit + 1) bytes)
              0
              0))
        ≡ true
  read_with-ok start requested_end limit bytes le utf8 = finish-ok start requested_end _ (
      subst
        (λ content.
          is_ok (read_loop is_utf8 text_of (length bytes + 2) start requested_end limit content 0 0)
          ≡ true)
        (sym (take-all (limit + 1) bytes (omega arith)))
        (read_loop-ok limit (length bytes + 2) start requested_end bytes 0 0 (omega arith)
          (omega arith) utf8))

  IsChunk-exists :
      (start_line end_line : Option ℕ) (bytes : List ℕ) (r : Result ReadChunk)
      → is_ok r ≡ true
      → Holds (IsChunk is_utf8 text_of start_line end_line bytes) r
      → (chunk : ReadChunk) × (r ≡ ok chunk)
        × IsChunk is_utf8 text_of start_line end_line bytes chunk
  IsChunk-exists start_line end_line bytes (ok chunk) h is_chunk = (chunk, refl, is_chunk)
  IsChunk-exists start_line end_line bytes (err e) h is_chunk = absurd (cc)

  reads :
      (start_line end_line : Option ℕ) (size : ℕ) (bytes : List ℕ)
      → length bytes ≤ size
      → length bytes ≤ max_bounded_text_read_bytes
      → IsUtf8 bytes
      → is_ok (read_chunk is_utf8 text_of start_line end_line size bytes) ≡ true
  unfolding read_chunk
  reads start_line none size bytes le few utf8 =
      read_with-ok (first_of start_line) none size bytes le utf8
  reads start_line (some end) size bytes le few utf8 =
      read_with-ok (first_of start_line) (last_of start_line (some end)) max_bounded_text_read_bytes
        bytes few utf8

  -- If the lines of a file are UTF-8 and its content is no longer than the size that is given for
  -- it and than the limit of a bounded read, it is read: the chunk starts at the first line that
  -- was asked for and has the lines of the range, as they are in the file, with their numbers and
  -- without their line ends.
  pub read_chunk-IsComplete :
      (start_line end_line : Option ℕ) (size : ℕ) (bytes : List ℕ)
      → length bytes ≤ size
      → length bytes ≤ max_bounded_text_read_bytes
      → IsUtf8 bytes
      → (chunk : ReadChunk) × (read_chunk is_utf8 text_of start_line end_line size bytes ≡ ok chunk)
        × IsChunk is_utf8 text_of start_line end_line bytes chunk
  read_chunk-IsComplete start_line end_line size bytes le few utf8 =
      IsChunk-exists start_line end_line bytes _ (reads start_line end_line size bytes le few utf8)
        (read_chunk-IsChunk is_utf8 text_of start_line end_line size bytes)
