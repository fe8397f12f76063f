-- ===== src/Mesh/Compact.antt =====
-- `compact_search_results` of src/mcp.rs: the hits of a search become ranges of lines. `F` stands for
-- `f64`, `larger` for `f64::max`, `cmp_score` for `total_cmp` and `no_score` for `0.0`. The lines of a
-- result stand in a list, which the code joins with line breaks, and its place is a `Loc`, which the
-- code prints.
pub mod Covers
pub mod Texts
use grepmesh.Prelude.{
  ℕ, ◌+◌, Bool, true, false, not, ◌&&◌, Option, none, some, is_some, String, List, [], ◌∷◌, map,
  max, any, leb, if◌then◌else◌, unwrap_or, ◌==◌, Ordering, first_difference, string_ord, nat_ord,
  option_ord, pair_ord,
}
use mathlib.Core.List.{reverse}
use grepmesh.Prelude.Map
use grepmesh.Prelude.Map.{BTreeMap}
use grepmesh.Backend.Hits.{MatchLine, SearchHit}
use grepmesh.Jobs.State.{hit_key, hit_key_ord}

pub data Loc : Type 0 where
  line : ℕ → Loc
  lines : ℕ → ℕ → Loc

pub record CompactSearchResult : Type 0 where
  pub host : Option String
  pub source_host : Option String
  pub path : String
  pub data_lines : List String
  pub loc : Loc

pub record CompactSearchRange (F : Type 0) : Type 0 where
  pub score : Option F
  pub host_id : String
  pub source_host : Option String
  pub path : String
  pub start_line : ℕ
  pub end_line : ℕ
  pub lines : BTreeMap ℕ String

-- `sort_by`, which is stable: an element goes in front of the first one that is not less.
module _ {ℓ} {A : Type ℓ} (cmp : A → A → Ordering) where
  abbrev pub is_greater : Ordering → Bool
  is_greater Ordering.gt = true
  is_greater _ = false

  unfoldable pub insert_by : A → List A → List A
  insert_by x [] = x ∷ []
  insert_by x (y ∷ ys) =
      let later = y ∷ insert_by x ys in if is_greater (cmp x y) then later else x ∷ y ∷ ys

  unfoldable pub sort_by : List A → List A
  unfolding insert_by
  sort_by [] = []
  sort_by (x ∷ xs) = insert_by x (sort_by xs)

-- `entry(line_number).or_insert(text)`
unfoldable pub or_insert : BTreeMap ℕ String → MatchLine → BTreeMap ℕ String
or_insert m l = if Map.contains_key l.line_number m then m else Map.insert l.line_number l.text m

unfoldable pub insert_lines : BTreeMap ℕ String → List MatchLine → BTreeMap ℕ String
unfolding or_insert
insert_lines m [] = m
insert_lines m (l ∷ ls) = insert_lines (or_insert m l) ls

unfoldable pub last_line : MatchLine → List MatchLine → ℕ
last_line l [] = l.line_number
last_line l (k ∷ ls) = last_line k ls

module _ {F : Type 0} where
  -- The lines that a hit shows, in order.
  unfoldable pub shown_lines : SearchHit F → List MatchLine
  unfolding sort_by
  shown_lines hit =
      let own =
        if hit.line_number == 0
        then []
        else record { line_number = hit.line_number; text = hit.text } ∷ [] in
      sort_by (λ (a b : MatchLine). nat_ord.cmp a.line_number b.line_number)
        (elim hit.context [ [] ↦ own | l ∷ ls ↦ l ∷ ls ])

  unfoldable pub joins : CompactSearchRange F → SearchHit F → ℕ → Bool
  joins r hit start_line =
      (r.host_id == hit.host_id)
      && (r.source_host == hit.source_host)
      && (r.path == hit.path)
      && leb start_line (r.end_line + 1)

  unfoldable pub new_range : SearchHit F → MatchLine → List MatchLine → CompactSearchRange F
  unfolding insert_lines last_line
  new_range hit first rest = record {
    score = hit.score;
    host_id = hit.host_id;
    source_host = hit.source_host;
    path = hit.path;
    start_line = first.line_number;
    end_line = last_line first rest;
    lines = insert_lines [] (first ∷ rest);
  }

  module _ (larger : F → F → F) where
    abbrev best_score : Option F → Option F → Option F
    best_score (some a) (some b) = some (larger a b)
    best_score (some a) none = some a
    best_score none b = b

    unfoldable pub extend :
        CompactSearchRange F → SearchHit F → MatchLine → List MatchLine → CompactSearchRange F
    unfolding insert_lines last_line
    extend r hit first rest = record r {
      score = best_score r.score hit.score;
      end_line = max r.end_line (last_line first rest);
      lines = insert_lines r.lines (first ∷ rest);
    }

    -- One round of the loop; the ranges stand with the last one first.
    unfoldable pub add_hit : List (CompactSearchRange F) → SearchHit F → List (CompactSearchRange F)
    unfolding shown_lines joins extend new_range
    add_hit ranges hit = elim (shown_lines hit) [
      | [] ↦ ranges
      | first ∷ rest ↦ elim ranges [
        | [] ↦ new_range hit first rest ∷ []
        | r ∷ rs ↦
            if joins r hit first.line_number
            then extend r hit first rest ∷ rs
            else new_range hit first rest ∷ r ∷ rs
      ]
    ]

    unfoldable pub add_hits :
        List (CompactSearchRange F) → List (SearchHit F) → List (CompactSearchRange F)
    unfolding add_hit
    add_hits ranges [] = ranges
    add_hits ranges (hit ∷ hits) = add_hits (add_hit ranges hit) hits

    -- The ranges, in the order of hosts, sources, paths and lines.
    unfoldable pub ranges_of : List (SearchHit F) → List (CompactSearchRange F)
    unfolding add_hits sort_by
    ranges_of hits =
        reverse (add_hits [] (sort_by (λ a b. hit_key_ord.cmp (hit_key a) (hit_key b)) hits))

    module _ (cmp_score : F → F → Ordering) (no_score : F) where
      abbrev cmp_range : CompactSearchRange F → CompactSearchRange F → Ordering
      cmp_range a b =
          first_difference (cmp_score (unwrap_or no_score b.score) (unwrap_or no_score a.score)) (
            first_difference (string_ord.cmp a.host_id b.host_id) (
              first_difference (string_ord.cmp a.path b.path)
                (nat_ord.cmp a.start_line b.start_line)))

      -- Whether the path of a range is found on a host besides its own.
      abbrev is_shared : List (CompactSearchRange F) → CompactSearchRange F → Bool
      is_shared ranges r =
          any (λ (q : CompactSearchRange F). (q.path == r.path) && not (q.host_id == r.host_id))
            ranges

      unfoldable pub result_of :
          List (CompactSearchRange F) → CompactSearchRange F → CompactSearchResult
      result_of ranges r = record {
        host = if is_shared ranges r then some r.host_id else none;
        source_host = r.source_host;
        path = r.path;
        data_lines = map (λ (e : ℕ × String). e.1) r.lines;
        loc =
            if r.start_line == r.end_line then line r.start_line else lines r.start_line r.end_line;
      }

      unfoldable pub compact_search_results : List (SearchHit F) → List CompactSearchResult
      unfolding ranges_of sort_by result_of
      compact_search_results hits =
          let ranges = ranges_of hits in
          let ordered =
            if any (λ (r : CompactSearchRange F). is_some r.score) ranges
            then sort_by cmp_range ranges
            else ranges in
          map (result_of ordered) ordered
