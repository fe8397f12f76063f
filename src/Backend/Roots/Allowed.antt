-- ===== src/Backend/Roots/Allowed.antt =====
-- A search in src/backend.rs stays below the configured roots.
use grepmesh.Prelude.{
  ◌≡◌, refl, sym, Bool, true, false, ◌||◌, Option, none, some, String, List, [], ◌∷◌, ◌++◌,
  if◌then◌else◌, ◌==◌, ==_iff, string_ord, list_ord, any, contains, contains-append, collect,
  contains-collect, arith, Bool-cases, Option-cases, inl, inr, ap, ◌∙◌, subst,
}
use grepmesh.Prelude.Map.{BTreeMap, get}
use grepmesh.Index.Activity.{PathBuf}
use grepmesh.Backend.Roots.{
  Result, ok, err, all_paths, without_local, or_root, default_search_roots, is_below,
  check_requested, named_paths, append_paths, collect_names, sorted_or_root, selected_roots,
}

-- The paths of a name are among all of them.
all_paths-contains :
    (name : String) (paths : List PathBuf) (path : PathBuf) (roots : BTreeMap String (List PathBuf))
    → get name roots ≡ some paths
    → contains path paths ≡ true
    → contains path (all_paths roots) ≡ true
unfolding all_paths get
all_paths-contains name paths path [] e c = absurd (cc)
all_paths-contains name paths path ((other, these) ∷ roots) e c =
    elim (Bool-cases (name == other)) [
      | inl d ↦
          let same : these ≡ paths = ground arith in
          contains-append path these (all_paths roots) ∙ rw (same, c) refl
      | inr d ↦
          let rest = all_paths-contains name paths path roots (ground arith) c in
          ground (arith, contains-append path these (all_paths roots), rest)
    ]

without_local-contains :
    (path : PathBuf) (roots : BTreeMap String (List PathBuf))
    → contains path (without_local roots) ≡ true
    → contains path (all_paths roots) ≡ true
unfolding all_paths without_local
without_local-contains path [] h = h
without_local-contains path ((name, paths) ∷ roots) h = elim (Bool-cases (name == "local")) [
  | inl c ↦
      let rest = without_local-contains path roots (
        subst
          (λ b.
            contains path (if b then without_local roots else paths ++ without_local roots) ≡ true)
          c h) in
      ground (arith, contains-append path paths (all_paths roots), rest)
  | inr c ↦
      let found : contains path (paths ++ without_local roots) ≡ true =
        subst
          (λ b.
            contains path (if b then without_local roots else paths ++ without_local roots) ≡ true)
          c h in
      ground (
        arith,
        found,
        contains-append path paths (without_local roots),
        contains-append path paths (all_paths roots),
        without_local-contains path roots,
      )
]

or_cases :
    (a b c : Bool) → (a ≡ true → c ≡ true) → (b ≡ true → c ≡ true) → (a || b) ≡ true → c ≡ true
or_cases true b c f g h = f refl
or_cases false b c f g h = g h

module _ (canonicalize : PathBuf → Option PathBuf) (path_of : String → PathBuf) (root : PathBuf)
    (root_paths : BTreeMap String (List PathBuf)) where
  -- A path that may be searched: a configured one, the root, or one below a configured one.
  abbrev pub is_allowed : PathBuf → Bool
  is_allowed path =
      contains path (all_paths root_paths)
      || ((path == root) || any (is_below canonicalize path_of path) (all_paths root_paths))

  abbrev AllAllowed : Result (List PathBuf) → Type 0
  AllAllowed (err e) = Unit
  AllAllowed (ok paths) = (path : PathBuf) → contains path paths ≡ true → is_allowed path ≡ true

  check_requested-allowed :
      (requested : Option PathBuf)
      → AllAllowed (check_requested canonicalize path_of (all_paths root_paths) requested)
  unfolding contains
  check_requested-allowed none = tt
  check_requested-allowed (some requested) =
      elim (Bool-cases (any (is_below canonicalize path_of requested) (all_paths root_paths))) [
        | inr out ↦ rw out tt
        | inl under ↦ rw under (λ path c.
            let same : path ≡ requested = ground (arith, ==_iff path requested) in
            let at : any (is_below canonicalize path_of path) (all_paths root_paths) ≡ true =
              ap (λ p. any (is_below canonicalize path_of p) (all_paths root_paths)) same ∙ under in
            ground (arith, at))
      ]

  named_paths-allowed :
      (name : String) → AllAllowed (named_paths canonicalize path_of root_paths name)
  unfolding named_paths
  named_paths-allowed name = elim (Option-cases (get name root_paths)) [
    | inl n ↦ rw (named_paths, n) (check_requested-allowed (canonicalize (path_of name)))
    | inr (paths, n) ↦
        rw (named_paths, n)
          (λ path c. ground (arith, all_paths-contains name paths path root_paths n c))
  ]

  append_paths-allowed :
      (r s : Result (List PathBuf))
      → AllAllowed r
      → AllAllowed s
      → AllAllowed (append_paths canonicalize path_of r s)
  append_paths-allowed (err e) s h k = tt
  append_paths-allowed (ok paths) (err e) h k = tt
  append_paths-allowed (ok paths) (ok more) h k =
      λ path c. or_cases _ _ _ (h path) (k path) (sym (contains-append path paths more) ∙ c)

  collect_names-allowed :
      (names : List String) → AllAllowed (collect_names canonicalize path_of root_paths names)
  unfolding collect_names contains
  collect_names-allowed [] = λ path c. absurd (cc)
  collect_names-allowed (name ∷ names) =
      append_paths-allowed (named_paths canonicalize path_of root_paths name) _
        (named_paths-allowed name) (collect_names-allowed names)

  or_root-allowed :
      (paths : List PathBuf) → AllAllowed (ok paths) → AllAllowed (ok (or_root root paths))
  unfolding contains
  or_root-allowed [] h = λ path c. ground arith
  or_root-allowed (first ∷ paths) h = h

  sorted_or_root-allowed :
      (r : Result (List PathBuf))
      → AllAllowed r
      → AllAllowed (sorted_or_root canonicalize path_of root r)
  sorted_or_root-allowed (err e) h = tt
  sorted_or_root-allowed (ok paths) h =
      or_root-allowed (collect paths) (λ path c. h path (sym (contains-collect path paths) ∙ c))

  all_selected :
      (names : List String) → AllAllowed (selected_roots canonicalize path_of root root_paths names)
  unfolding selected_roots default_search_roots
  all_selected [] = or_root-allowed (collect (without_local root_paths)) (λ path c.
      let named =
        without_local-contains path root_paths
          (sym (contains-collect path (without_local root_paths)) ∙ c) in
      ground (arith, named))
  all_selected (name ∷ names) =
      sorted_or_root-allowed (collect_names canonicalize path_of root_paths (name ∷ names))
        (collect_names-allowed (name ∷ names))

  -- If the names of a request are accepted, every path that they select is a configured one, the
  -- root of the host, or below a path that a configured one resolves to.
  pub selected_roots-allowed :
      (names : List String) (paths : List PathBuf) (path : PathBuf)
      → selected_roots canonicalize path_of root root_paths names ≡ ok paths
      → contains path paths ≡ true
      → is_allowed path ≡ true
  selected_roots-allowed names paths path e c = subst AllAllowed e (all_selected names) path c
