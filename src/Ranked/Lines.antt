-- ===== src/Ranked/Lines.antt =====
-- The tests on one line of src/ranked.rs: `markdown_heading_level` and `is_definition_line`.
-- A line is its text; its characters are numbers. `lower` gives the lower case of a character that
-- is not ASCII.
use grepmesh.Prelude.{
  ℕ, zero, suc, ◌+◌, Bool, false, ◌&&◌, Option, none, some, is_some, String, List, [], ◌∷◌, ◌++◌,
  any, leb, ltb, if◌then◌else◌, ◌==◌, nat_ord,
}
use grepmesh.Prelude.Text.{codes, starts_with, is_whitespace}

unfoldable pub trim_start : List ℕ → List ℕ
unfolding is_whitespace
trim_start [] = []
trim_start (c ∷ cs) = let rest = trim_start cs in if is_whitespace c then rest else c ∷ cs

-- `take_while(|byte| *byte == b'#').count()`
unfoldable pub count_hashes : List ℕ → ℕ
count_hashes [] = 0
count_hashes (c ∷ cs) = let rest = count_hashes cs in if c == b'#' then rest + 1 else 0

-- Whether the character behind the first `n` is a space.
unfoldable pub is_space_at : ℕ → List ℕ → Bool
is_space_at n [] = false
is_space_at zero (c ∷ cs) = c == b' '
is_space_at (suc n) (c ∷ cs) = is_space_at n cs

unfoldable pub markdown_heading_level : String → Option ℕ
unfolding trim_start count_hashes is_space_at
markdown_heading_level line =
    let trimmed = trim_start (codes line) in
    let level = count_hashes trimmed in
    if leb 1 level && leb level 6 && is_space_at level trimmed then some level else none

abbrev pub is_heading : String → Bool
is_heading line = is_some (markdown_heading_level line)

abbrev pub definition_prefixes : List String
definition_prefixes =
    "fn " ∷ "pub fn " ∷ "pub async fn " ∷ "async fn " ∷ "def " ∷ "class " ∷ "struct " ∷ "enum "
    ∷ "function " ∷ "export function " ∷ []

module _ (lower : ℕ → List ℕ) where
  unfoldable pub to_lowercase : List ℕ → List ℕ
  to_lowercase [] = []
  to_lowercase (c ∷ cs) =
      let rest = to_lowercase cs in
      if leb b'A' c && leb c b'Z'
      then (c + 32) ∷ rest
      else if ltb c 128
      then c ∷ rest
      else lower c ++ rest

  unfoldable pub is_definition_line : String → Bool
  unfolding trim_start to_lowercase starts_with
  is_definition_line line =
      let text = to_lowercase (trim_start (codes line)) in
      any (λ prefix. starts_with text (codes prefix)) definition_prefixes
