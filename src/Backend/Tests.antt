-- ===== src/Backend/Tests.antt =====
-- Runs of the reads and roots of src/backend.rs on concrete data.
use grepmesh.Prelude.{
  ℕ, ◌≡◌, refl, true, Bool, Option, none, some, String, List, [], ◌∷◌, string_ord, nat_ord,
  list_ord, list_cmp, contains, collect, insert_key, arith, if◌then◌else◌,
}
use grepmesh.Prelude.Map
use grepmesh.Prelude.Text.{codes}
use grepmesh.Mesh.Paths.{
  is_absolute, split_slash, same_codes, part_components, components, same_component, is_prefix,
  path_starts_with,
}
use grepmesh.Backend.Read.{
  Error, ReadChunk, File, ok, err, read_line, strip_line_end, read_loop, read_chunk,
  normalize_absolute_path_any, read_text,
}
use grepmesh.Backend.Read.Chunk.{IsRead, read_text-IsRead, is_finished, read_chunk-finished}
use grepmesh.Backend.Read.Text.{Shows, lines_in, read_chunk-IsShown}
use grepmesh.Backend.Read.Lines.{lines_of}
use grepmesh.Backend.Roots.{
  all_paths, without_local, default_search_roots, named_paths, collect_names, selected_roots,
}
use grepmesh.Backend.Roots.Allowed.{is_allowed, selected_roots-allowed}
use grepmesh.Index.Activity.{PathBuf, starts_with}

reads : Unit {0}
unfolding Map.get string_ord list_ord list_cmp contains collect insert_key is_absolute split_slash
    same_codes part_components components same_component is_prefix path_starts_with read_line
    strip_line_end read_loop read_chunk lines_of normalize_absolute_path_any read_text all_paths
    without_local default_search_roots named_paths collect_names selected_roots starts_with
reads = tt

abbrev itself : List ℕ → Option (List ℕ)
itself path = some path

-- Two lines, the first with a carriage return.
abbrev file : File
file = record { size = 8; bytes = codes "one\r\ntwo" }

abbrev the_file : List ℕ → Option File
the_file path = some file

abbrev valid : List ℕ → Bool
valid line = true

-- A decoder that knows the lines of the file.
abbrev decode : List ℕ → String
decode line =
    if same_codes line (codes "one")
    then "one"
    else if same_codes line (codes "two")
    then "two"
    else "?"

abbrev second_line : ReadChunk
second_line = record {
  start_line = 2;
  end_line = 2;
  lines = record { line_number = 2; text = "two" } ∷ [];
}

read_text-IsRead_example :
    IsRead itself the_file valid decode 100
      (codes "/srv" ∷ [])
      (codes "/srv/a.txt")
      (some 2)
      none
      second_line
unfolding reads
read_text-IsRead_example =
    read_text-IsRead itself the_file valid decode 100 (codes "/srv") [] (codes "/srv/a.txt")
      (some 2) none second_line refl

outside_run :
    read_text itself the_file valid decode 100 (codes "/srv") [] (codes "/srv2/a.txt") (some 2) none
    ≡ err Error.outside_roots
unfolding reads
outside_run = refl

abbrev itself_path : PathBuf → Option PathBuf
itself_path path = some path

abbrev below_home : String → PathBuf
below_home name = "home" ∷ name ∷ []

abbrev roots : Map.BTreeMap String (List PathBuf)
roots = ("home", ("home" ∷ []) ∷ []) ∷ ("opt", ("opt" ∷ []) ∷ []) ∷ []

selected_roots-allowed_example :
    is_allowed itself_path below_home ("srv" ∷ []) roots ("home" ∷ "work" ∷ []) ≡ true
unfolding reads
selected_roots-allowed_example =
    selected_roots-allowed itself_path below_home ("srv" ∷ []) roots ("work" ∷ "opt" ∷ [])
      (("home" ∷ "work" ∷ []) ∷ ("opt" ∷ []) ∷ []) ("home" ∷ "work" ∷ []) refl refl

read_chunk-IsShown_example :
    (chunk : ReadChunk) × (read_chunk valid decode (some 2) none 8 (codes "one\r\ntwo") ≡ ok chunk)
    × (chunk.start_line ≡ 2)
    × Shows decode (lines_in valid decode 2 none (codes "one\r\ntwo")) chunk.lines
unfolding reads
read_chunk-IsShown_example =
    read_chunk-IsShown valid decode (some 2) none 8 (codes "one\r\ntwo") (omega arith) (omega arith)
      (refl, (refl, tt))

-- a file that grew after its size was read
read_chunk-finished_example :
    is_finished (read_chunk valid decode (some 2) none 3 (codes "one\r\ntwo")) ≡ true
unfolding reads
read_chunk-finished_example = read_chunk-finished valid decode (some 2) none 3 (codes "one\r\ntwo")
