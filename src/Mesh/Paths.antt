-- ===== src/Mesh/Paths.antt =====
-- Paths as `std::path` reads them on Unix: `is_absolute`, `components` and `starts_with`. A path is
-- the list of its characters.
use grepmesh.Prelude.{
  ℕ, ◌≡◌, refl, ap, Bool, true, false, ◌&&◌, ◌||◌, List, [], ◌∷◌, ◌++◌, is_empty, if◌then◌else◌,
  ◌==◌, ==_iff, nat_ord, arith,
}

pub data Component : Type 0 where
  root_dir cur_dir parent_dir : Component
  normal : List ℕ → Component

unfoldable pub is_absolute : List ℕ → Bool
is_absolute [] = false
is_absolute (c ∷ cs) = c == b'/'

-- The parts between the slashes: the first one, and the others.
unfoldable pub split_slash : List ℕ → List ℕ × List (List ℕ)
split_slash [] = ([], [])
split_slash (c ∷ cs) =
    let rest = split_slash cs in if c == b'/' then ([], rest.0 ∷ rest.1) else (c ∷ rest.0, rest.1)

unfoldable pub same_codes : List ℕ → List ℕ → Bool
same_codes [] [] = true
same_codes [] (d ∷ ds) = false
same_codes (c ∷ cs) [] = false
same_codes (c ∷ cs) (d ∷ ds) = (c == d) && same_codes cs ds

abbrev dot : List ℕ
dot = b'.' ∷ []

abbrev dot_dot : List ℕ
dot_dot = b'.' ∷ b'.' ∷ []

-- Empty parts and `.` are dropped.
unfoldable pub part_components : List (List ℕ) → List Component
unfolding same_codes
part_components [] = []
part_components (p ∷ ps) =
    let rest = part_components ps in
    if is_empty p || same_codes p dot
    then rest
    else if same_codes p dot_dot
    then Component.parent_dir ∷ rest
    else normal p ∷ rest

-- A leading `.` of a relative path is kept.
unfoldable pub components : List ℕ → List Component
unfolding is_absolute split_slash part_components
components path =
    let parts = split_slash path in
    if is_absolute path
    then Component.root_dir ∷ part_components parts.1
    else if same_codes parts.0 dot
    then Component.cur_dir ∷ part_components parts.1
    else part_components (parts.0 ∷ parts.1)

unfoldable pub same_component : Component → Component → Bool
unfolding same_codes
same_component Component.root_dir Component.root_dir = true
same_component Component.cur_dir Component.cur_dir = true
same_component Component.parent_dir Component.parent_dir = true
same_component (normal p) (normal q) = same_codes p q
same_component _ _ = false

unfoldable pub is_prefix : List Component → List Component → Bool
unfolding same_component
is_prefix [] path = true
is_prefix (c ∷ cs) [] = false
is_prefix (c ∷ cs) (d ∷ ds) = same_component c d && is_prefix cs ds

-- `path.starts_with(base)`
unfoldable pub path_starts_with : List ℕ → List ℕ → Bool
unfolding components is_prefix
path_starts_with path base = is_prefix (components base) (components path)

abbrev pub is_parent_dir : Component → Bool
is_parent_dir Component.parent_dir = true
is_parent_dir _ = false

same_codes_sound : (p q : List ℕ) → same_codes p q ≡ true → p ≡ q
unfolding same_codes
same_codes_sound [] [] h = refl
same_codes_sound [] (d ∷ ds) h = absurd (cc)
same_codes_sound (c ∷ cs) [] h = absurd (cc)
same_codes_sound (c ∷ cs) (d ∷ ds) h =
    let head : c ≡ d = ground (arith, ==_iff c d) in
    let tail = same_codes_sound cs ds (ground arith) in cc

same_component_sound : (c d : Component) → same_component c d ≡ true → c ≡ d
unfolding same_component
same_component_sound Component.root_dir Component.root_dir h = refl
same_component_sound Component.cur_dir Component.cur_dir h = refl
same_component_sound Component.parent_dir Component.parent_dir h = refl
same_component_sound (normal p) (normal q) h = ap normal (same_codes_sound p q h)
same_component_sound Component.root_dir Component.cur_dir h = absurd (cc)
same_component_sound Component.root_dir Component.parent_dir h = absurd (cc)
same_component_sound Component.root_dir (normal q) h = absurd (cc)
same_component_sound Component.cur_dir Component.root_dir h = absurd (cc)
same_component_sound Component.cur_dir Component.parent_dir h = absurd (cc)
same_component_sound Component.cur_dir (normal q) h = absurd (cc)
same_component_sound Component.parent_dir Component.root_dir h = absurd (cc)
same_component_sound Component.parent_dir Component.cur_dir h = absurd (cc)
same_component_sound Component.parent_dir (normal q) h = absurd (cc)
same_component_sound (normal p) Component.root_dir h = absurd (cc)
same_component_sound (normal p) Component.cur_dir h = absurd (cc)
same_component_sound (normal p) Component.parent_dir h = absurd (cc)

-- A prefix is the front of the path.
pub is_prefix_front :
    (base path : List Component)
    → is_prefix base path ≡ true
    → (rest : List Component) × (path ≡ base ++ rest)
unfolding is_prefix
is_prefix_front [] path h = (path, refl)
is_prefix_front (c ∷ cs) [] h = absurd (cc)
is_prefix_front (c ∷ cs) (d ∷ ds) h =
    let head = same_component_sound c d (ground arith) in
    let (rest, tail) = is_prefix_front cs ds (ground arith) in (rest, cc)
