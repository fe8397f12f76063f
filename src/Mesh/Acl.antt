-- ===== src/Mesh/Acl.antt =====
-- `FilesystemAcl` of src/mcp.rs: `validate_read`, `allows_path` and `valid_sha256_hex`.
-- A text is a `String`; `profile_version` is an `i64`.
pub mod Contained
use Prim.Native.String.{len}
use grepmesh.Prelude.{
  ℕ, Bool, true, false, not, ◌&&◌, ◌||◌, Option, none, some, String, List, [], ◌∷◌, all, any,
  is_empty, unwrap_or, if◌then◌else◌, ◌==◌, string_ord, nat_ord,
}
use grepmesh.Prelude.Text.{codes, is_whitespace, is_ascii_hexdigit}
use grepmesh.Mesh.Paths.{is_absolute, components, path_starts_with, is_parent_dir}

pub data ℤ : Type 0 where
  pos negsuc : ℕ → ℤ

-- `n < 1`
abbrev pub is_below_one : ℤ → Bool
is_below_one (pos n) = n == 0
is_below_one (negsuc n) = true

pub record FilesystemAcl : Type 0 where
  pub version : ℕ
  pub profile_id : String
  pub profile_version : ℤ
  pub roots_digest : String
  pub job_id : String
  pub target : String
  pub tool : String
  pub args_sha256 : String
  pub read_roots : Option (List String)
  pub write_roots : Option (List String)

unfoldable pub valid_sha256_hex : String → Bool
unfolding is_ascii_hexdigit
valid_sha256_hex value = (len value == 64) && all is_ascii_hexdigit (codes value)

-- `trim().is_empty()`
unfoldable pub is_blank : String → Bool
unfolding is_whitespace
is_blank value = all is_whitespace (codes value)

abbrev pub roots_of : FilesystemAcl → List String
roots_of acl = unwrap_or [] acl.read_roots

-- The roots, or none where the list is refused.
unfoldable pub validate_read : FilesystemAcl → Option (List String)
unfolding valid_sha256_hex is_blank is_absolute
validate_read acl =
    if not (acl.version == 1)
      || is_blank acl.profile_id
      || is_below_one acl.profile_version
      || is_blank acl.job_id
      || is_blank acl.target
      || not (acl.tool == "mcp_call")
      || not (valid_sha256_hex acl.roots_digest)
      || not (valid_sha256_hex acl.args_sha256)
      || is_empty (roots_of acl)
      || any (λ root. not (is_absolute (codes root))) (roots_of acl)
    then none
    else some (roots_of acl)

unfoldable pub allows_path : FilesystemAcl → List ℕ → Bool
unfolding validate_read components path_starts_with
allows_path acl path = elim (validate_read acl) [
  | none ↦ false
  | some roots ↦
      is_absolute path
      && not (any is_parent_dir (components path))
      && any (λ root. path_starts_with path (codes root)) roots
]
