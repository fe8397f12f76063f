-- ===== src/Ocr/Retry.antt =====
-- The choice of work in src/ocr.rs: `take_retry_paths_excluding`, `metadata_retry_paths` and
-- `retry_poll_interval`. An `Instant` is a number of milliseconds.
pub mod Choice
use grepmesh.Prelude.{
  ℕ, zero, suc, ◌+◌, ◌-◌, ◌*◌, Bool, true, false, ◌&&◌, ◌||◌, not, Option, none, some, String, List,
  [], ◌∷◌, ◌++◌, length, take, ltb, leb, if◌then◌else◌, ◌==◌, string_ord, nat_ord, min, max,
  contains, retain, any, Ordering,
}
use grepmesh.Prelude.Map.{BTreeMap, get, insert}
use grepmesh.Ocr.Queue.{OcrEngine}

abbrev pub retry_cooldown : ℕ
retry_cooldown = 60 * 1000

abbrev pub max_parallel_ocr : ℕ
max_parallel_ocr = 3

-- `range((Excluded(previous), Unbounded))`
abbrev pub is_beyond : String → String → Bool
is_beyond previous path = elim (string_ord.cmp previous path) [ Ordering.lt ↦ true | _ ↦ false ]

abbrev pub after_cursor : Option String → List String → List String
after_cursor none paths = []
after_cursor (some previous) paths = retain (is_beyond previous) paths

-- `after.get(path).is_none_or(|at| *at <= now)`
abbrev pub is_due : ℕ → Option ℕ → Bool
is_due now none = true
is_due now (some at) = leb at now

-- The filter of the choice: `unique` is the set of what was chosen before.
unfoldable pub eligible :
    ℕ → List String → BTreeMap String ℕ → List String → List String → List String
eligible now in_flight retry_after unique [] = []
eligible now in_flight retry_after unique (path ∷ paths) =
    let picked =
      not (contains path in_flight)
      && (is_due now (get path retry_after) && not (contains path unique)) in
    let rest =
      eligible now in_flight retry_after (if picked then path ∷ unique else unique) paths in
    if picked then path ∷ rest else rest

unfoldable pub hold_back : ℕ → List String → BTreeMap String ℕ → BTreeMap String ℕ
hold_back until [] retry_after = retry_after
hold_back until (path ∷ paths) retry_after = hold_back until paths (insert path until retry_after)

abbrev pub last_of : List String → Option String
last_of [] = none
last_of (path ∷ []) = some path
last_of (path ∷ next ∷ paths) = last_of (next ∷ paths)

unfoldable pub chosen_paths : ℕ → ℕ → List String → OcrEngine → List String
unfolding eligible
chosen_paths now limit in_flight engine = take (min limit max_parallel_ocr) (
    eligible now in_flight engine.retry_after []
      (after_cursor engine.retry_cursor engine.deferred ++ engine.deferred))

unfoldable pub take_retry_paths_excluding :
    ℕ → ℕ → List String → OcrEngine → OcrEngine × List String
unfolding chosen_paths hold_back
take_retry_paths_excluding now limit in_flight engine =
    let next = chosen_paths now limit in_flight engine in
    if not engine.is_mesh || (limit == 0)
    then (engine, [])
    else if ltb (now - engine.last_retry) 1000
    then (engine, [])
    else elim (last_of next) [
      | none ↦ (engine, next)
      | some path ↦ (
        record engine {
          last_retry = now;
          retry_fast = false;
          retry_after = hold_back (now + retry_cooldown) next engine.retry_after;
          retry_cursor = some path;
        },
        next,
      )
    ]

-- The paths after the cursor, then those up to it.
abbrev pub rotated : Option String → List String → List String
rotated none paths = paths
rotated (some previous) paths =
    retain (is_beyond previous) paths ++ retain (λ path. not (is_beyond previous path)) paths

unfoldable pub metadata_retry_paths : ℕ → (String → Bool) → OcrEngine → OcrEngine × List String
metadata_retry_paths limit accept engine =
    let selected =
      take (min limit 64) (retain accept (rotated engine.metadata_retry_cursor engine.deferred)) in
    if not engine.is_mesh || (limit == 0) then (engine, []) else elim (last_of selected) [
      | none ↦ (engine, selected)
      | some path ↦ (record engine { metadata_retry_cursor = some path }, selected)
    ]

abbrev pub least : List ℕ → Option ℕ
least [] = none
least (wait ∷ waits) =
    let rest = least waits in elim rest [ none ↦ some wait | some other ↦ some (min wait other) ]

abbrev pub waits : ℕ → BTreeMap String ℕ → List ℕ
waits now [] = []
waits now ((path, at) ∷ retry_after) = (at - now) ∷ waits now retry_after

unfoldable pub retry_poll_interval : ℕ → OcrEngine → ℕ
retry_poll_interval now engine =
    if any (λ path. is_due now (get path engine.retry_after)) engine.deferred
    then 1000
    else elim (least (waits now engine.retry_after)) [
      | none ↦ 30000
      | some wait ↦ min (max wait 1000) 30000
    ]
