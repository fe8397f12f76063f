-- ===== src/Backend/Read/Text.antt =====
-- The texts of the lines that `read_text` of src/backend.rs returns, by a description of line ends of
-- its own.
use grepmesh.Prelude.{
  ℕ, ◌≤◌, ◌<◌, length-append, ◌≡◌, refl, sym, ap, ◌∙◌, Bool, false, Option, String, List, [], ◌∷◌,
  ◌++◌, length, map, retain, ◌==◌, ==_iff, nat_ord, arith, Bool-cases, inl, inr, subst,
}
use grepmesh.Backend.Hits.{MatchLine}
use grepmesh.Backend.Read.{
  ReadChunk, ok, strip_line_end, match_line, read_chunk, max_bounded_text_read_bytes,
}
use grepmesh.Backend.Read.Lines.{lines_of, numbered, in_range, slice}
use grepmesh.Backend.Read.Chunk.{first_of, last_of}
use grepmesh.Backend.Read.Complete.{IsUtf8, read_chunk-IsComplete}

abbrev ends_with : ℕ → List ℕ → Bool
ends_with x [] = false
ends_with x (c ∷ []) = c == x
ends_with x (c ∷ d ∷ cs) = ends_with x (d ∷ cs)

-- A line of a file, and what it is without its end: a line feed, with one carriage return before it
-- where there is one.
pub data WithoutEnd (line text : List ℕ) : Type 0 where
  no_end : line ≡ text → ends_with b'\n' text ≡ false → WithoutEnd line text
  line_feed : line ≡ text ++ b'\n' ∷ [] → ends_with b'\r' text ≡ false → WithoutEnd line text
  carriage_return : line ≡ text ++ b'\r' ∷ b'\n' ∷ [] → WithoutEnd line text

ends_with-cons :
    (x c : ℕ) (text : List ℕ) → 0 < length text → ends_with x (c ∷ text) ≡ ends_with x text
ends_with-cons x c [] h = absurd (omega arith)
ends_with-cons x c (d ∷ text) h = refl

WithoutEnd-cons :
    (c : ℕ) (line text : List ℕ)
    → 1 < length line
    → WithoutEnd line text
    → WithoutEnd (c ∷ line) (c ∷ text)
WithoutEnd-cons c line text h (no_end e n) =
    no_end (ap (◌∷◌ c) e) (ends_with-cons b'\n' c text (omega (arith, ap length e)) ∙ n)
WithoutEnd-cons c line text h (line_feed e n) =
    line_feed (ap (◌∷◌ c) e) (
      ends_with-cons b'\r' c text (omega (arith, ap length e, length-append text (b'\n' ∷ []))) ∙ n)
WithoutEnd-cons c line text h (carriage_return e) = carriage_return (ap (◌∷◌ c) e)

strip_line_end-WithoutEnd : (line : List ℕ) → WithoutEnd line (strip_line_end line)
unfolding strip_line_end
strip_line_end-WithoutEnd [] = no_end refl refl
strip_line_end-WithoutEnd (c ∷ []) = elim (Bool-cases (c == b'\n')) [
  | inl feed ↦
      let same : c ≡ b'\n' = (==_iff c b'\n').0 feed in
      rw feed (line_feed (ap (λ n. n ∷ []) same) refl)
  | inr other ↦ rw other (no_end refl other)
]
strip_line_end-WithoutEnd (c ∷ d ∷ []) = elim (Bool-cases (d == b'\n')) [
  | inl feed ↦
      let same : d ≡ b'\n' = (==_iff d b'\n').0 feed in
      elim (Bool-cases (c == b'\r')) [
        | inl cr ↦
            let before : c ≡ b'\r' = (==_iff c b'\r').0 cr in
            rw (feed, cr)
              (carriage_return (ap (λ n. n ∷ d ∷ []) before ∙ ap (λ n. b'\r' ∷ n ∷ []) same))
        | inr other ↦ rw (feed, other) (line_feed (ap (λ n. c ∷ n ∷ []) same) other)
      ]
  | inr other ↦ rw other (no_end refl other)
]
strip_line_end-WithoutEnd (c ∷ d ∷ e ∷ cs) =
    WithoutEnd-cons c (d ∷ e ∷ cs) _ (omega arith) (strip_line_end-WithoutEnd (d ∷ e ∷ cs))

-- The lines that a reader shows, each with its number and the text of its bytes without the end.
pub data Shows (text_of : List ℕ → String) : List (ℕ × List ℕ) → List MatchLine → Type 0 where
  nothing : Shows text_of [] []
  line :
      (number : ℕ) (bytes text : List ℕ) (lines : List (ℕ × List ℕ)) (shown : List MatchLine)
      → WithoutEnd bytes text
      → Shows text_of lines shown
      → Shows text_of
          ((number, bytes) ∷ lines)
          (record { line_number = number; text = text_of text } ∷ shown)

module _ (is_utf8 : List ℕ → Bool) (text_of : List ℕ → String) where
  match_lines-Shows :
      (lines : List (ℕ × List ℕ))
      → Shows text_of lines (map (λ (e : ℕ × List ℕ). match_line is_utf8 text_of e.0 e.1) lines)
  match_lines-Shows [] = nothing
  match_lines-Shows ((n, bytes) ∷ lines) =
      line n bytes (strip_line_end bytes) lines _ (strip_line_end-WithoutEnd bytes)
        (match_lines-Shows lines)

  -- The lines of a file that are in a range, with their numbers.
  abbrev pub lines_in : ℕ → Option ℕ → List ℕ → List (ℕ × List ℕ)
  lines_in start requested_end bytes =
      retain (λ (e : ℕ × List ℕ). in_range start requested_end e.0) (numbered 0 (lines_of bytes))

  slice-Shows :
      (start : ℕ) (requested_end : Option ℕ) (bytes : List ℕ)
      → Shows text_of
          (lines_in start requested_end bytes)
          (slice is_utf8 text_of start requested_end 0 bytes)
  unfolding slice
  slice-Shows start requested_end bytes = match_lines-Shows (lines_in start requested_end bytes)

  -- If the lines of a file are UTF-8 and its content is no longer than the size that is given for
  -- it and than the limit of a bounded read, it is read: the chunk starts at the first line that
  -- was asked for and has the lines of the range, each with its number and the text of its bytes
  -- without the line feed at its end and one carriage return before that.
  pub read_chunk-IsShown :
      (start_line end_line : Option ℕ) (size : ℕ) (bytes : List ℕ)
      → length bytes ≤ size
      → length bytes ≤ max_bounded_text_read_bytes
      → IsUtf8 is_utf8 text_of bytes
      → (chunk : ReadChunk) × (read_chunk is_utf8 text_of start_line end_line size bytes ≡ ok chunk)
        × (chunk.start_line ≡ first_of start_line)
        × Shows text_of
            (lines_in (first_of start_line) (last_of start_line end_line) bytes)
            chunk.lines
  read_chunk-IsShown start_line end_line size bytes le few utf8 =
      let (chunk, e, is_chunk) =
        read_chunk-IsComplete is_utf8 text_of start_line end_line size bytes le few utf8 in
      (
        chunk,
        e,
        is_chunk.start,
        subst (Shows text_of (lines_in (first_of start_line) (last_of start_line end_line) bytes))
            (sym is_chunk.lines)
            (slice-Shows (first_of start_line) (last_of start_line end_line) bytes),
      )
