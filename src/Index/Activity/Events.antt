-- ===== src/Index/Activity/Events.antt =====
-- The counting of one event in `reconcile_event_paths` of src/index.rs, and its report.
use grepmesh.Prelude.{
  ℕ, ◌+◌, ◌-◌, ◌≤◌, ◌<◌, ◌≡◌, refl, Bool, ◌||◌, List, [], ◌∷◌, map, ltb, leb, if◌then◌else◌, ◌==◌,
  nat_ord, list_ord, string_ord, unwrap_or, arith, All, subst, sym, ◌∙◌,
}
use grepmesh.Prelude.Map.{get, insert}
use grepmesh.Index.Activity.{
  PathBuf, u64_max, saturating_add, saturating_mul, IndexActivityConfig, DirectoryActivityState,
  Activity, quiescent,
}

-- What is known of one event: its number, the file's length, and the two glob sets.
pub record Event : Type 0 where
  pub occurrences : ℕ
  pub changed_bytes : ℕ
  pub excluded : Bool
  pub metadata_only : Bool

-- a window that is over starts again
unfoldable pub open_window :
    ℕ → IndexActivityConfig → DirectoryActivityState → DirectoryActivityState
open_window now config stats =
    if (stats.window_started_ms == 0) || leb config.window_ms (now - stats.window_started_ms)
    then record stats { window_started_ms = now; events = 0; changed_bytes = 0 }
    else stats

abbrev pub is_busy : IndexActivityConfig → DirectoryActivityState → Bool
is_busy config stats =
    leb config.hot_event_threshold stats.events
    || leb config.hot_changed_bytes_threshold stats.changed_bytes

unfoldable pub count_event :
    ℕ → IndexActivityConfig → Event → DirectoryActivityState → DirectoryActivityState
unfolding open_window
count_event now config event stats =
    let opened = open_window now config stats in
    let counted : DirectoryActivityState = record opened {
      events = saturating_add opened.events event.occurrences;
      changed_bytes =
          saturating_add opened.changed_bytes
            (saturating_mul event.changed_bytes event.occurrences);
      last_event_ms = now;
    } in
    let until =
      if is_busy config counted
      then saturating_add now config.hot_cooldown_ms
      else counted.hot_until_ms in
    record counted {
      hot_until_ms = until;
      excluded = event.excluded;
      metadata_only = event.metadata_only;
      debounce_ms = if ltb now until then config.hot_debounce_ms else 2000;
    }

-- `activity.entry(bucket).or_default()` and the changes of it
unfoldable pub note_event : ℕ → IndexActivityConfig → PathBuf → Event → Activity → Activity
unfolding count_event
note_event now config bucket event activity =
    insert bucket (count_event now config event (unwrap_or quiescent (get bucket activity)))
      activity

pub record IndexDirectoryActivity : Type 0 where
  pub path : PathBuf
  pub events : ℕ
  pub changed_bytes : ℕ
  pub hot : Bool
  pub metadata_only : Bool
  pub excluded : Bool
  pub debounce_ms : ℕ
  pub last_event_ms : ℕ

unfoldable pub directory_activity_snapshot : ℕ → Activity → List IndexDirectoryActivity
directory_activity_snapshot now = map (λ (e : PathBuf × DirectoryActivityState). record {
  path = e.0;
  events = e.1.events;
  changed_bytes = e.1.changed_bytes;
  hot = ltb now e.1.hot_until_ms;
  metadata_only = e.1.metadata_only;
  excluded = e.1.excluded;
  debounce_ms = e.1.debounce_ms;
  last_event_ms = e.1.last_event_ms;
})

-- The events of one bucket, one after another, each with its time.
unfoldable pub count_events :
    IndexActivityConfig → List (ℕ × Event) → DirectoryActivityState → DirectoryActivityState
unfolding count_event
count_events config [] stats = stats
count_events config ((now, event) ∷ events) stats =
    count_events config events (count_event now config event stats)

abbrev pub total : List (ℕ × Event) → ℕ
total [] = 0
total ((now, event) ∷ events) = event.occurrences + total events

-- All the times are in the window that opened at the given time.
abbrev pub InWindow : ℕ → ℕ → List (ℕ × Event) → Type 0
InWindow opened window_ms = All (λ (e : ℕ × Event). e.0 - opened < window_ms)

count_event-counts :
    (now : ℕ) (config : IndexActivityConfig) (event : Event) (stats : DirectoryActivityState)
    → 0 < stats.window_started_ms
    → now - stats.window_started_ms < config.window_ms
    → ((count_event now config event stats).window_started_ms ≡ stats.window_started_ms)
      × ((count_event now config event stats).events
          ≡ saturating_add stats.events event.occurrences)
unfolding count_event open_window
count_event-counts now config event stats pos lt = (ground arith, ground arith)

sum_up : (a b c ab : ℕ) → ab ≡ saturating_add a b → saturating_add ab c ≡ saturating_add a (b + c)
sum_up a b c ab e = ground arith

busy-hot :
    (now : ℕ) (config : IndexActivityConfig) (event : Event) (stats : DirectoryActivityState)
    → config.hot_event_threshold ≤ (count_event now config event stats).events
    → (count_event now config event stats).hot_until_ms ≡ saturating_add now config.hot_cooldown_ms
unfolding count_event
busy-hot now config event stats le = ground arith

-- In one window the counter is the sum, up to the largest number.
count_events-counts :
    (config : IndexActivityConfig) (events : List (ℕ × Event)) (stats : DirectoryActivityState)
    → 0 < stats.window_started_ms
    → InWindow stats.window_started_ms config.window_ms events
    → stats.events ≤ u64_max
    → ((count_events config events stats).window_started_ms ≡ stats.window_started_ms)
      × ((count_events config events stats).events ≡ saturating_add stats.events (total events))
unfolding count_events
count_events-counts config [] stats pos all le = (refl, ground arith)
count_events-counts config ((now, event) ∷ events) stats pos (lt, all) le =
    let next = count_event now config event stats in
    let one = count_event-counts now config event stats pos lt in
    let rest =
      count_events-counts config events next (omega (arith, one.0))
        (subst (λ opened. InWindow opened config.window_ms events) (sym one.0) all)
        (ground (arith, one.1)) in
    (
      rest.0 ∙ one.0,
      rest.1 ∙ sum_up stats.events event.occurrences (total events) next.events one.1,
    )

-- If all events of a directory fall into its open window and their occurrences reach the threshold
-- with those before, the last one makes the directory hot until the cooldown has passed, counted
-- from it. All counters are in range of 64 bits.
pub count_events-hot :
    (config : IndexActivityConfig) (events : List (ℕ × Event)) (now : ℕ) (last : Event)
    (stats : DirectoryActivityState)
    → 0 < stats.window_started_ms
    → InWindow stats.window_started_ms config.window_ms events
    → now - stats.window_started_ms < config.window_ms
    → stats.events ≤ u64_max
    → config.hot_event_threshold ≤ stats.events + (total events + last.occurrences)
    → config.hot_event_threshold ≤ u64_max
    → (count_event now config last (count_events config events stats)).hot_until_ms
      ≡ saturating_add now config.hot_cooldown_ms
count_events-hot config events now last stats pos all lt le enough small =
    let before = count_events config events stats in
    let counted = count_events-counts config events stats pos all le in
    let opened : 0 < before.window_started_ms = omega (arith, counted.0) in
    let inside : now - before.window_started_ms < config.window_ms = omega (arith, counted.0) in
    let one = count_event-counts now config last before opened inside in
    let sum = sum_up stats.events (total events) last.occurrences before.events counted.1 in
    busy-hot now config last before (ground (arith, one.1, sum))
