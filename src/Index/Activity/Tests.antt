-- ===== src/Index/Activity/Tests.antt =====
-- Runs of the activity guard on concrete data.
use grepmesh.Prelude.{
  ℕ, ◌≡◌, refl, true, false, Option, none, some, List, [], ◌∷◌, nat_ord, string_ord, list_ord,
  list_cmp, contains, arith,
}
use grepmesh.Prelude.Map
use grepmesh.Index.Activity.{
  PathBuf, IndexActivityConfig, DirectoryActivityState, Activity, quiescent, saturating_add,
  starts_with, push_unseen, push_named, push_values, ordered_roots, deepest, relative_to,
  activity_bucket, activity_bucket_is_hot, ensure_isolated_activity_root, isolate_all, hold_all,
  bootstrap_and_isolate_activity_guard, keep_recent, mark_hot, load_activity_guard_at,
  save_activity_guard, parsed, invalid,
}
use grepmesh.Index.Activity.Quiet.{
  Metadata, known, scan_entries, walk_loop, activity_root_quiet_deadline, is_known,
  activity_root_quiet_deadline-ends,
}
use grepmesh.Index.Activity.Guard.{load-save_hot, load_activity_guard_at-closed}
use grepmesh.Index.Activity.Events.{
  Event, open_window, count_event, count_events, count_events-hot, note_event,
}

activity : Unit {0}
unfolding Map.get Map.insert Map.contains_key string_ord list_ord list_cmp contains starts_with
    push_unseen push_named push_values ordered_roots deepest relative_to activity_bucket
    activity_bucket_is_hot ensure_isolated_activity_root isolate_all hold_all
    bootstrap_and_isolate_activity_guard keep_recent mark_hot load_activity_guard_at
    save_activity_guard scan_entries walk_loop activity_root_quiet_deadline open_window count_event
    count_events note_event
activity = tt

abbrev config : IndexActivityConfig
config = record {
  window_ms = 60000;
  hot_event_threshold = 3;
  hot_changed_bytes_threshold = 1000000;
  hot_debounce_ms = 30000;
  hot_cooldown_ms = 3600000;
  activity_bucket_roots = ("home" ∷ "mirror" ∷ []) ∷ [];
}

buckets_run :
    activity_bucket ("home" ∷ "a" ∷ "b" ∷ []) ("home" ∷ []) config.activity_bucket_roots
    ≡ "home" ∷ "a" ∷ []
unfolding activity
buckets_run = refl

isolated_run :
    activity_bucket ("home" ∷ "mirror" ∷ "b" ∷ []) ("home" ∷ []) config.activity_bucket_roots
    ≡ "home" ∷ "mirror" ∷ []
unfolding activity
isolated_run = refl

root_run :
    activity_bucket ("home" ∷ "a" ∷ []) ("home" ∷ []) config.activity_bucket_roots ≡ "home" ∷ []
unfolding activity
root_run = refl

-- A directory that lists itself.
abbrev metadata_of : PathBuf → Option Metadata
metadata_of path = some (record { ctime_ms = 5; is_dir = true; is_symlink = false })

abbrev self_listing : PathBuf → Option (List (Option PathBuf))
self_listing path = some (some path ∷ [])

activity_root_quiet_deadline-ends_example :
    is_known (activity_root_quiet_deadline metadata_of self_listing 10 3 ("a" ∷ [])) ≡ true
activity_root_quiet_deadline-ends_example =
    activity_root_quiet_deadline-ends metadata_of self_listing 10 3 ("a" ∷ [])

self_listing_run :
    activity_root_quiet_deadline metadata_of self_listing 10 3 ("a" ∷ []) ≡ known none
unfolding activity
self_listing_run = refl

abbrev never : PathBuf → Option ℕ
never path = none

abbrev hot_state : DirectoryActivityState
hot_state = record quiescent { window_started_ms = 1; events = 9; hot_until_ms = 5000 }

abbrev hot_activity : Activity
hot_activity = ("home" ∷ "a" ∷ [], hot_state) ∷ []

load-save_hot_example :
    (Map.get ("home" ∷ "a" ∷ []) (
        load_activity_guard_at never
          (parsed (save_activity_guard hot_activity 1000 config.window_ms []))
          []
          config
          true
          2000)
      ≡ some (record hot_state { metadata_only = true }))
    × (activity_bucket_is_hot
          (load_activity_guard_at never
            (parsed (save_activity_guard hot_activity 1000 config.window_ms []))
            []
            config
            true
            2000)
          ("home" ∷ "a" ∷ [])
          2000
          config.activity_bucket_roots
        ≡ true)
unfolding activity
load-save_hot_example =
    load-save_hot never [] config true hot_activity ("home" ∷ "a" ∷ []) hot_state 1000 2000 [] refl
      (omega arith) (omega arith) refl

load_activity_guard_at-closed_example :
    activity_bucket_is_hot
      (load_activity_guard_at never invalid (("home", ("home" ∷ []) ∷ []) ∷ []) config false 1000)
      ("home" ∷ [])
      2000
      config.activity_bucket_roots
    ≡ true
unfolding activity
load_activity_guard_at-closed_example =
    load_activity_guard_at-closed never invalid (("home", ("home" ∷ []) ∷ []) ∷ []) config false
      1000 2000 "home" (("home" ∷ []) ∷ []) ("home" ∷ []) refl refl refl refl (omega arith)

abbrev one_event : Event
one_event = record { occurrences = 1; changed_bytes = 10; excluded = false; metadata_only = false }

abbrev earlier : List (ℕ × Event)
earlier = (1100, one_event) ∷ (1150, one_event) ∷ []

abbrev opened : DirectoryActivityState
opened = record quiescent { window_started_ms = 1000 }

count_events-hot_example :
    (count_event 1200 config one_event (count_events config earlier opened)).hot_until_ms
    ≡ saturating_add 1200 3600000
count_events-hot_example =
    count_events-hot config earlier 1200 one_event opened (omega arith)
      (omega arith, (omega arith, tt)) (omega arith) (omega arith) (omega arith) (omega arith)
