-- ===== src/Backend/Roots.antt =====
-- The roots of a search in src/backend.rs: `default_search_roots` and
-- `selected_roots`. A path is the list of its components; `canonicalize` is the file system's.
pub mod Allowed
use grepmesh.Prelude.{
  ℕ, ◌≡◌, refl, sym, Bool, true, false, ◌&&◌, ◌||◌, not, Option, none, some, String, List, [], ◌∷◌,
  ◌++◌, if◌then◌else◌, ◌==◌, ==_iff, string_ord, list_ord, any, contains, collect, contains-collect,
  is_empty, arith, Bool-cases, Option-cases, inl, inr, ap, ◌∙◌, subst, All,
}
use grepmesh.Prelude.Map.{BTreeMap, get}
use grepmesh.Index.Activity.{PathBuf, starts_with}

pub data Error : Type 0 where
  unknown_root outside_roots : Error

pub data Result {ℓ} (A : Type ℓ) : Type ℓ where
  ok : A → Result A
  err : Error → Result A

-- `root_paths.values().flatten()`
unfoldable pub all_paths : BTreeMap String (List PathBuf) → List PathBuf
all_paths [] = []
all_paths ((name, paths) ∷ roots) = paths ++ all_paths roots

unfoldable pub without_local : BTreeMap String (List PathBuf) → List PathBuf
without_local [] = []
without_local ((name, paths) ∷ roots) =
    let rest = without_local roots in if name == "local" then rest else paths ++ rest

abbrev pub or_root : PathBuf → List PathBuf → List PathBuf
or_root root roots = if is_empty roots then root ∷ [] else roots

-- `sort` and `dedup` make the paths a sorted list without repetitions.
unfoldable pub default_search_roots : PathBuf → BTreeMap String (List PathBuf) → List PathBuf
unfolding without_local
default_search_roots root root_paths = or_root root (collect (without_local root_paths))

module _ (canonicalize : PathBuf → Option PathBuf) (path_of : String → PathBuf) where
  abbrev pub is_below : PathBuf → PathBuf → Bool
  is_below requested root = elim (canonicalize root) [
    | none ↦ false
    | some base ↦ starts_with base requested
  ]

  abbrev pub check_requested : List PathBuf → Option PathBuf → Result (List PathBuf)
  check_requested roots none = err unknown_root
  check_requested roots (some requested) =
      if any (is_below requested) roots then ok (requested ∷ []) else err outside_roots

  -- the paths that a name stands for: a configured root's, or those of a directory below one
  unfoldable pub named_paths : BTreeMap String (List PathBuf) → String → Result (List PathBuf)
  unfolding all_paths
  named_paths root_paths name = elim (get name root_paths) [
    | some paths ↦ ok paths
    | none ↦ check_requested (all_paths root_paths) (canonicalize (path_of name))
  ]

  abbrev pub append_paths : Result (List PathBuf) → Result (List PathBuf) → Result (List PathBuf)
  append_paths (err e) rest = err e
  append_paths (ok paths) (err e) = err e
  append_paths (ok paths) (ok more) = ok (paths ++ more)

  unfoldable pub collect_names :
      BTreeMap String (List PathBuf) → List String → Result (List PathBuf)
  unfolding named_paths
  collect_names root_paths [] = ok []
  collect_names root_paths (name ∷ names) =
      append_paths (named_paths root_paths name) (collect_names root_paths names)

  abbrev pub sorted_or_root : PathBuf → Result (List PathBuf) → Result (List PathBuf)
  sorted_or_root root (err e) = err e
  sorted_or_root root (ok paths) = ok (or_root root (collect paths))

  unfoldable pub selected_roots :
      PathBuf → BTreeMap String (List PathBuf) → List String → Result (List PathBuf)
  unfolding collect_names default_search_roots
  selected_roots root root_paths names =
      if is_empty names
      then ok (default_search_roots root root_paths)
      else sorted_or_root root (collect_names root_paths names)
