-- ===== src/Index/Activity.antt =====
-- The guard of busy directories in src/index.rs: `DirectoryActivityState`, `ordered_roots`,
-- `activity_bucket`, `activity_bucket_is_hot`, `activity_has_hot_bucket`,
-- `ensure_isolated_activity_root`, `bootstrap_and_isolate_activity_guard`, `load_activity_guard_at`,
-- `save_activity_guard`, the counting of one event in `reconcile_event_paths`, and
-- `directory_activity_snapshot`. A path is the list of its components under the file system's root.
pub mod Quiet
pub mod Guard
pub mod Events
mod Tests
use grepmesh.Prelude.{
  ℕ, zero, suc, ◌+◌, ◌-◌, ◌*◌, ◌^◌, Bool, true, false, ◌&&◌, ◌||◌, not, Option, none, some, String,
  List, [], ◌∷◌, ◌++◌, map, length, ltb, leb, if◌then◌else◌, ◌==◌, string_ord, list_ord, nat_ord,
  min, max, any, contains, retain, unwrap_or,
}
use grepmesh.Prelude.Map.{BTreeMap, get, insert}

abbrev pub PathBuf : Type 0
PathBuf = List String

abbrev pub u64_max : ℕ
u64_max = 2 ^ 64 - 1

abbrev pub saturating_add : ℕ → ℕ → ℕ
saturating_add a b = min (a + b) u64_max

abbrev pub saturating_mul : ℕ → ℕ → ℕ
saturating_mul a b = min (a * b) u64_max

pub record IndexActivityConfig : Type 0 where
  pub window_ms : ℕ
  pub hot_event_threshold : ℕ
  pub hot_changed_bytes_threshold : ℕ
  pub hot_debounce_ms : ℕ
  pub hot_cooldown_ms : ℕ
  pub activity_bucket_roots : List PathBuf

pub record DirectoryActivityState : Type 0 where
  pub window_started_ms : ℕ
  pub events : ℕ
  pub changed_bytes : ℕ
  pub hot_until_ms : ℕ
  pub last_indexed_ms : ℕ
  pub last_event_ms : ℕ
  pub metadata_only : Bool
  pub excluded : Bool
  pub debounce_ms : ℕ

abbrev pub Activity : Type 0
Activity = BTreeMap PathBuf DirectoryActivityState

-- `DirectoryActivityState::default()`
abbrev pub quiescent : DirectoryActivityState
quiescent = record {
  window_started_ms = 0;
  events = 0;
  changed_bytes = 0;
  hot_until_ms = 0;
  last_indexed_ms = 0;
  last_event_ms = 0;
  metadata_only = false;
  excluded = false;
  debounce_ms = 0;
}

-- `path.starts_with(base)`, the base first
unfoldable pub starts_with : PathBuf → PathBuf → Bool
starts_with [] path = true
starts_with (part ∷ base) [] = false
starts_with (part ∷ base) (first ∷ path) = (part == first) && starts_with base path

-- `seen.insert(path)` and `ordered.push(path)`
unfoldable pub push_unseen : List PathBuf → List PathBuf → List PathBuf
push_unseen [] ordered = ordered
push_unseen (path ∷ paths) ordered =
    push_unseen paths (if contains path ordered then ordered else ordered ++ path ∷ [])

unfoldable pub push_named :
    List String → BTreeMap String (List PathBuf) → List PathBuf → List PathBuf
unfolding push_unseen
push_named [] roots ordered = ordered
push_named (name ∷ names) roots ordered =
    push_named names roots (push_unseen (unwrap_or [] (get name roots)) ordered)

unfoldable pub push_values : BTreeMap String (List PathBuf) → List PathBuf → List PathBuf
unfolding push_unseen
push_values [] ordered = ordered
push_values ((name, paths) ∷ roots) ordered = push_values roots (push_unseen paths ordered)

unfoldable pub ordered_roots : BTreeMap String (List PathBuf) → List PathBuf
unfolding push_named push_values
ordered_roots roots =
    push_values roots (push_named ("home" ∷ "opt" ∷ "etc" ∷ "local" ∷ []) roots [])

-- `max_by_key(|root| root.components().count())` of the roots that the path is under: the last one
unfoldable pub deepest : PathBuf → List PathBuf → Option PathBuf
unfolding starts_with
deepest path [] = none
deepest path (root ∷ roots) =
    let rest = deepest path roots in
    if starts_with root path
    then elim rest [
      | none ↦ some root
      | some other ↦ if leb (length root) (length other) then some other else some root
    ]
    else rest

-- `strip_prefix(root)`, and the path itself where it is not under the root
unfoldable pub relative_to : PathBuf → PathBuf → PathBuf
relative_to [] path = path
relative_to (part ∷ root) [] = []
relative_to (part ∷ root) (first ∷ path) =
    if part == first then relative_to root path else first ∷ path

-- An isolated root, a child of the root, or the root itself. Outside of the root the first component
-- is `/`, and joined to the root that is `/`.
unfoldable pub activity_bucket : PathBuf → PathBuf → List PathBuf → PathBuf
unfolding deepest relative_to starts_with
activity_bucket path root isolated_roots = elim (deepest path isolated_roots) [
  | some isolated ↦ isolated
  | none ↦
      if starts_with root path
      then elim (relative_to root path) [
        | [] ↦ root
        | part ∷ rest ↦ elim rest [ [] ↦ root | below ∷ more ↦ root ++ part ∷ [] ]
      ]
      else []
]

unfoldable pub activity_has_hot_bucket : Activity → ℕ → Bool
activity_has_hot_bucket activity now_ms =
    any (λ (e : PathBuf × DirectoryActivityState). ltb now_ms e.1.hot_until_ms) activity

unfoldable pub activity_bucket_is_hot : Activity → PathBuf → ℕ → List PathBuf → Bool
unfolding starts_with
activity_bucket_is_hot activity bucket now_ms isolated_roots = elim (get bucket activity) [
  | some stats ↦ ltb now_ms stats.hot_until_ms
  | none ↦
      if contains bucket isolated_roots
      then true
      else any
          (λ (e : PathBuf × DirectoryActivityState).
            (starts_with e.0 bucket || starts_with bucket e.0) && ltb now_ms e.1.hot_until_ms)
          activity
]

-- the state of an isolated root, given what the bounded walk found
abbrev pub isolated_state :
    Option ℕ → ℕ → IndexActivityConfig → DirectoryActivityState → DirectoryActivityState
isolated_state quiet_deadline now_ms config stats =
    let until = unwrap_or (saturating_add now_ms config.hot_cooldown_ms) quiet_deadline in
    let quiet : Bool = elim quiet_deadline [ none ↦ false | some deadline ↦ leb deadline now_ms ] in
    if quiet
    then record stats {
      hot_until_ms = 0;
      window_started_ms = now_ms;
      events = 0;
      changed_bytes = 0;
      metadata_only = false;
      debounce_ms = 2000;
    }
    else record stats {
      hot_until_ms = until;
      events = max stats.events config.hot_event_threshold;
      changed_bytes = max stats.changed_bytes config.hot_changed_bytes_threshold;
      metadata_only = true;
      debounce_ms = config.hot_debounce_ms;
    }

-- What `activity_guard` files hold.
pub record ActivityGuardFile : Type 0 where
  pub version : ℕ
  pub captured_at_ms : ℕ
  pub buckets : Activity
  pub isolated_roots : List PathBuf

-- `fs::read` and `serde_json::from_slice` of the guard file
pub data GuardRead : Type 0 where
  parsed : ActivityGuardFile → GuardRead
  invalid not_found unreadable : GuardRead

abbrev pub held_state : ℕ → IndexActivityConfig → DirectoryActivityState
held_state now_ms config = record quiescent {
  window_started_ms = now_ms;
  events = config.hot_event_threshold;
  changed_bytes = config.hot_changed_bytes_threshold;
  hot_until_ms = saturating_add now_ms config.hot_cooldown_ms;
  last_event_ms = now_ms;
  metadata_only = true;
  debounce_ms = config.hot_debounce_ms;
}

unfoldable pub hold_all : List PathBuf → ℕ → IndexActivityConfig → Activity
hold_all [] now_ms config = []
hold_all (root ∷ roots) now_ms config =
    insert root (held_state now_ms config) (hold_all roots now_ms config)

-- the filter of `save_activity_guard`, and of the load
abbrev pub is_recent : List PathBuf → ℕ → ℕ → PathBuf → DirectoryActivityState → Bool
is_recent isolated now window_ms bucket stats =
    contains bucket isolated
    || (ltb now stats.hot_until_ms || ltb (now - stats.window_started_ms) window_ms)

unfoldable pub keep_recent : List PathBuf → ℕ → ℕ → Activity → Activity
keep_recent isolated now window_ms [] = []
keep_recent isolated now window_ms ((bucket, stats) ∷ activity) =
    let rest = keep_recent isolated now window_ms activity in
    if is_recent isolated now window_ms bucket stats then (bucket, stats) ∷ rest else rest

-- `stats.metadata_only |= stats.hot_until_ms > now`
unfoldable pub mark_hot : ℕ → Activity → Activity
mark_hot now [] = []
mark_hot now ((bucket, stats) ∷ activity) =
    (bucket, record stats { metadata_only = stats.metadata_only || ltb now stats.hot_until_ms })
    ∷ mark_hot now activity

-- The file that `save_activity_guard` writes.
unfoldable pub save_activity_guard : Activity → ℕ → ℕ → List PathBuf → ActivityGuardFile
unfolding keep_recent
save_activity_guard activity now window_ms isolated_roots = record {
  version = 1;
  captured_at_ms = now;
  buckets = keep_recent isolated_roots now window_ms activity;
  isolated_roots = isolated_roots;
}

-- `quiet_deadline` is `activity_root_quiet_deadline` for the cooldown of the configuration.
module _ (quiet_deadline : PathBuf → Option ℕ) where
  unfoldable pub ensure_isolated_activity_root :
      Activity → PathBuf → ℕ → IndexActivityConfig → Activity
  ensure_isolated_activity_root activity root now_ms config =
      insert root
        (isolated_state (quiet_deadline root) now_ms config
          (unwrap_or quiescent (get root activity)))
        activity

  unfoldable pub isolate_all : List PathBuf → ℕ → IndexActivityConfig → Activity → Activity
  unfolding ensure_isolated_activity_root
  isolate_all [] now_ms config activity = activity
  isolate_all (root ∷ roots) now_ms config activity =
      isolate_all roots now_ms config (ensure_isolated_activity_root activity root now_ms config)

  unfoldable pub bootstrap_and_isolate_activity_guard :
      BTreeMap String (List PathBuf) → IndexActivityConfig → ℕ → Activity
  unfolding isolate_all hold_all ordered_roots
  bootstrap_and_isolate_activity_guard roots config now_ms =
      isolate_all config.activity_bucket_roots now_ms config
        (hold_all (ordered_roots roots) now_ms config)

  unfoldable pub load_activity_guard_at :
      GuardRead → BTreeMap String (List PathBuf) → IndexActivityConfig → Bool → ℕ → Activity
  unfolding isolate_all bootstrap_and_isolate_activity_guard keep_recent mark_hot
  load_activity_guard_at (parsed file) roots config had_persistent_index now =
      if file.version == 1
      then isolate_all config.activity_bucket_roots now config
          (mark_hot now (keep_recent file.isolated_roots now config.window_ms file.buckets))
      else bootstrap_and_isolate_activity_guard roots config now
  load_activity_guard_at invalid roots config had_persistent_index now =
      bootstrap_and_isolate_activity_guard roots config now
  load_activity_guard_at not_found roots config had_persistent_index now =
      if had_persistent_index then bootstrap_and_isolate_activity_guard roots config now else []
  load_activity_guard_at unreadable roots config had_persistent_index now =
      bootstrap_and_isolate_activity_guard roots config now
