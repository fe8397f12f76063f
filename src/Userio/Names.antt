-- ===== src/Userio/Names.antt =====
-- `sanitize_component` and `truncate_chars` of src/userio.rs. A text is the list of its characters.
pub mod Component
use grepmesh.Prelude.{
  ℕ, ◌+◌, Bool, true, false, ◌&&◌, ◌||◌, List, [], ◌∷◌, ◌++◌, length, take, map, is_empty, leb,
  if◌then◌else◌, ◌==◌, nat_ord,
}
use grepmesh.Prelude.Text.{is_ascii_alphanumeric}

unfoldable pub is_name_char : ℕ → Bool
unfolding is_ascii_alphanumeric
is_name_char c = is_ascii_alphanumeric c || (c == b'-') || (c == b'_') || (c == b'.')

unfoldable pub safe_char : ℕ → ℕ
unfolding is_name_char
safe_char c = if is_name_char c then c else b'_'

-- `while sanitized.ends_with('.') { sanitized.pop(); }`
unfoldable pub pop_dots : List ℕ → List ℕ
pop_dots [] = []
pop_dots (c ∷ cs) = let rest = pop_dots cs in if is_empty rest && (c == b'.') then [] else c ∷ rest

-- `truncate(96)` counts bytes; the characters are ASCII by then.
unfoldable pub sanitize_component : List ℕ → List ℕ
unfolding safe_char pop_dots
sanitize_component raw =
    let sanitized = pop_dots (take 96 (map safe_char raw)) in
    if is_empty sanitized then b'_' ∷ [] else sanitized

-- `marker` is the line that says where the text was cut.
unfoldable pub truncate_chars : List ℕ → List ℕ → ℕ → List ℕ
truncate_chars marker text max_chars =
    if leb (length text) max_chars then text else take max_chars text ++ marker
