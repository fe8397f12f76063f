-- ===== src/Mesh/Acl/Contained.antt =====
-- Where the paths that `FilesystemAcl::allows_path` lets through lie.
use grepmesh.Prelude.{
  ℕ, ◌≡◌, refl, sym, subst, ap, ◌∙◌, Bool, true, false, not, some, String, List, [], ◌∷◌, ◌++◌, any,
  arith, Bool-cases, Option-cases, inl, inr, nat_ord, string_ord,
}
use mathlib.Core.List.{Memᴰ}
use grepmesh.Prelude.Text.{codes}
use grepmesh.Mesh.Paths.{
  Component, is_absolute, components, path_starts_with, is_parent_dir, is_prefix_front,
}
use grepmesh.Mesh.Acl.{FilesystemAcl, roots_of, validate_read, allows_path}

any_witness :
    {A : Type 0} (p : A → Bool) (xs : List A) → any p xs ≡ true → (x : A) × Memᴰ x xs × (p x ≡ true)
any_witness p [] h = absurd (cc)
any_witness p (x ∷ xs) h = elim (Bool-cases (p x)) [
  | inl e ↦ (x, Memᴰ.head refl, e)
  | inr e ↦ let (y, m, q) = any_witness p xs (ground arith) in (y, Memᴰ.tail m, q)
]

any_append :
    {A : Type 0} (p : A → Bool) (xs ys : List A) → any p (xs ++ ys) ≡ false → any p ys ≡ false
any_append p [] ys h = h
any_append p (x ∷ xs) ys h = any_append p xs ys (ground arith)

any_member :
    {A : Type 0} (p : A → Bool) (x : A) (xs : List A) → Memᴰ x xs → any p xs ≡ false → p x ≡ false
any_member p x [] m h = elim m [ ]
any_member p x (y ∷ ys) (Memᴰ.head e) h = ground arith
any_member p x (y ∷ ys) (Memᴰ.tail m) h = any_member p x ys m (ground arith)

any_behind :
    {A : Type 0} (p : A → Bool) (all front rest : List A)
    → all ≡ front ++ rest
    → any p all ≡ false
    → any p rest ≡ false
any_behind p all front rest e h = any_append p front rest (ap (any p) (sym e) ∙ h)

validate_read_roots :
    (acl : FilesystemAcl) (roots : List String)
    → validate_read acl ≡ some roots
    → (roots ≡ roots_of acl) × (any (λ root. not (is_absolute (codes root))) roots ≡ false)
unfolding validate_read
validate_read_roots acl roots h = (ground arith, ground arith)

-- A path that is let through is absolute, and its components are those of one of the roots, which is
-- absolute too, followed by components none of which is `..`.
pub allows_path_contained :
    (acl : FilesystemAcl) (path : List ℕ)
    → allows_path acl path ≡ true
    → (is_absolute path ≡ true)
      × ((root : String) × Memᴰ root (roots_of acl)
          × (is_absolute (codes root) ≡ true)
          × ((rest : List Component) × (components path ≡ components (codes root) ++ rest)
              × (any is_parent_dir rest ≡ false)))
unfolding allows_path path_starts_with
allows_path_contained acl path h = elim (Option-cases (validate_read acl)) [
  | inl refused ↦ absurd (ground arith)
  | inr (roots, e) ↦
      let (listed, absolute) = validate_read_roots acl roots e in
      let absolute_path : is_absolute path ≡ true = ground arith in
      let plain : any is_parent_dir (components path) ≡ false = ground arith in
      let under : any (λ root. path_starts_with path (codes root)) roots ≡ true = ground arith in
      let (root, m, starts) =
        any_witness (λ root. path_starts_with path (codes root)) roots under in
      let not_relative = any_member (λ r. not (is_absolute (codes r))) root roots m absolute in
      let (rest, front) = is_prefix_front (components (codes root)) (components path) starts in
      (
        absolute_path,
        (
          root,
          subst (Memᴰ root) listed m,
          ground arith,
          (
            rest,
            front,
            any_behind is_parent_dir (components path) (components (codes root)) rest front plain,
          ),
        ),
      )
]
