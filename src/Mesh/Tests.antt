-- ===== src/Mesh/Tests.antt =====
-- Runs of the mesh code on concrete data.
use grepmesh.Prelude.{
  ℕ, ◌≡◌, refl, true, false, String, [], ◌∷◌, arith, contains, add, collect, insert_key, remove_key,
  string_ord, ◌⊎◌,
}
use mathlib.Core.List.{Memᴰ}
use grepmesh.Prelude.Map
use grepmesh.Backend.Hosts.{failed_status}
use grepmesh.Prelude.{◌++◌, any, some, none, List}
use grepmesh.Prelude.Text.{codes, is_whitespace, is_ascii_hexdigit, is_ascii_digit}
use grepmesh.Mesh.Paths.{
  Component, is_absolute, split_slash, same_codes, part_components, components, same_component,
  is_prefix, path_starts_with, is_parent_dir,
}
use grepmesh.Mesh.Acl.{
  FilesystemAcl, pos, roots_of, valid_sha256_hex, is_blank, validate_read, allows_path,
}
use grepmesh.Mesh.Acl.Contained.{allows_path_contained}
use grepmesh.Prelude.{max, nat_ord, pair_ord, option_ord}
use grepmesh.Jobs.State.{hit_key_ord}
use grepmesh.Backend.Hits.{SearchHit}
use grepmesh.Mesh.Compact.{
  lines, insert_by, sort_by, or_insert, insert_lines, last_line, shown_lines, joins, new_range,
  extend, add_hit, add_hits, ranges_of, result_of, compact_search_results,
}
use grepmesh.Mesh.Compact.Texts.{holds_text, shows_text, ranges_of_shown}
use grepmesh.Mesh.Claims.{recent_claims, make_room, claim_request}
use grepmesh.Mesh.Claims.Once.{claim_all, claim_request_once}
use grepmesh.Mesh.Hosts.{dedup_from, dedup_hits, unique_hosts, hop_count_for}
use grepmesh.Mesh.Join.{
  HostReply, refused, answered, note_answer, reply_statuses, time_out, join_loop, join_hosts,
}
use grepmesh.Mesh.Join.Partial.{answers, join_hosts-Accounted}

mesh : Unit {0}
unfolding Map.get Map.insert Map.remove Map.contains_key Map.oldest string_ord recent_claims
    make_room claim_request dedup_from dedup_hits unique_hosts hop_count_for contains add collect
    insert_key remove_key note_answer reply_statuses time_out join_loop join_hosts is_whitespace
    is_ascii_hexdigit is_ascii_digit is_absolute split_slash same_codes part_components components
    same_component is_prefix path_starts_with valid_sha256_hex is_blank validate_read allows_path
    hit_key_ord pair_ord option_ord insert_by sort_by or_insert insert_lines last_line shown_lines
    joins new_range extend add_hit add_hits ranges_of result_of compact_search_results
mesh = tt

abbrev seen : Map.BTreeMap String ℕ
seen = ("r1", 100) ∷ ("r2", 70000) ∷ []

-- another id, and the id itself, are claimed in between
abbrev in_between : List (ℕ × String)
in_between = (85000, "r2") ∷ (90000, "r1") ∷ []

claim_request_once_example :
    (claim_request 100000 "r1" (claim_all in_between (claim_request 80000 "r1" seen).0)).1 ≡ false
unfolding mesh
claim_request_once_example =
    claim_request_once 80000 100000 "r1" in_between seen refl (omega arith, (omega arith, tt))
      (omega arith) (omega arith)

unique_hosts_run : unique_hosts ("b" ∷ "a" ∷ "b" ∷ []) ≡ "b" ∷ "a" ∷ []
unfolding mesh
unique_hosts_run = refl

abbrev one_reply : HostReply ℕ
one_reply = record { items = 5 ∷ []; statuses = []; partial = false; truncated = false }

join_hosts-Accounted_example :
    (contains "b" (answers {A = ℕ} (answered "a" (refused "down") ∷ [])) ≡ true)
    ⊎ Memᴰ
        (failed_status "b" "overall timeout")
        (join_hosts {A = ℕ} ("b" ∷ "a" ∷ []) (answered "a" (refused "down") ∷ [])).statuses
unfolding mesh
join_hosts-Accounted_example =
    join_hosts-Accounted {A = ℕ} "b" ("b" ∷ "a" ∷ []) (answered "a" (refused "down") ∷ []) refl refl

abbrev digest : String
digest = "0123456789abcdef0123456789abcdef0123456789abcdef0123456789abcdef"

abbrev acl : FilesystemAcl
acl = record {
  version = 1;
  profile_id = "reader";
  profile_version = pos 2;
  roots_digest = digest;
  job_id = "job-1";
  target = "alpha";
  tool = "mcp_call";
  args_sha256 = digest;
  read_roots = some ("/srv/docs/" ∷ []);
  write_roots = none;
}

climbing_refused : allows_path acl (codes "/srv/docs/../keys") ≡ false
unfolding mesh
climbing_refused = refl

sibling_refused : allows_path acl (codes "/srv/docs2/a") ≡ false
unfolding mesh
sibling_refused = refl

allows_path_contained_example :
    (is_absolute (codes "/srv//docs/./a.md") ≡ true)
    × ((root : String) × Memᴰ root (roots_of acl)
        × (is_absolute (codes root) ≡ true)
        × ((rest : List Component) × (components (codes "/srv//docs/./a.md")
              ≡ components (codes root) ++ rest)
            × (any is_parent_dir rest ≡ false)))
unfolding mesh
allows_path_contained_example = allows_path_contained acl (codes "/srv//docs/./a.md") refl

abbrev hit_on : ℕ → String → SearchHit ℕ
hit_on line text = record {
  score = none;
  size = none;
  modified_ms = none;
  created_ms = none;
  host_id = "alpha";
  source_host = none;
  path = "/a.rs";
  line_number = line;
  context = [];
  text = text;
  column = 1;
}

-- Two hits on neighbouring lines become one range.
neighbours_join :
    compact_search_results max
      (λ a b. nat_ord.cmp a b)
      0
      (hit_on 4 "second" ∷ hit_on 3 "first" ∷ [])
    ≡ record {
      host = none;
      source_host = none;
      path = "/a.rs";
      data_lines = "first" ∷ "second" ∷ [];
      loc = lines 3 4;
    }
      ∷ []
unfolding mesh
neighbours_join = refl

abbrev with_context : SearchHit ℕ
with_context = record (hit_on 3 "first") {
  context =
      record { line_number = 2; text = "before" } ∷ record { line_number = 3; text = "first" } ∷ [];
}

abbrev two_hits : List (SearchHit ℕ)
two_hits = hit_on 4 "second" ∷ with_context ∷ []

ranges_of_shown_example :
    (t : String) × (any (holds_text max "alpha" none "/a.rs" 2 t) (ranges_of max two_hits) ≡ true)
    × (any (shows_text {F = ℕ} max "alpha" none "/a.rs" 2 t) two_hits ≡ true)
unfolding mesh
ranges_of_shown_example = ranges_of_shown max "alpha" none "/a.rs" 2 two_hits refl
