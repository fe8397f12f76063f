-- ===== src/Index/Activity/Guard.antt =====
-- A restart keeps the directories hot that src/index.rs found busy.
use grepmesh.Prelude.{
  ℕ, ◌≤◌, ◌<◌, ◌≡◌, refl, sym, Bool, true, false, ◌||◌, not, Option, some, String, List, [], ◌∷◌,
  ◌++◌, ltb, ◌==◌, ==_iff, nat_ord, list_ord, string_ord, arith, Bool-cases, inl, inr, ap, ◌∙◌,
  contains,
}
use grepmesh.Prelude.Map.{BTreeMap, get, get-insert}
use grepmesh.Index.Activity.{
  PathBuf, saturating_add, IndexActivityConfig, DirectoryActivityState, Activity, is_recent,
  keep_recent, mark_hot, save_activity_guard, load_activity_guard_at, GuardRead, parsed,
  isolate_all, ensure_isolated_activity_root, hold_all, held_state, ordered_roots,
  bootstrap_and_isolate_activity_guard, activity_bucket_is_hot, push_unseen, push_values, invalid,
  not_found, unreadable,
}

keep_recent-get :
    (isolated : List PathBuf) (now window_ms : ℕ) (bucket : PathBuf)
    (stats : DirectoryActivityState) (activity : Activity)
    → get bucket activity ≡ some stats
    → is_recent isolated now window_ms bucket stats ≡ true
    → get bucket (keep_recent isolated now window_ms activity) ≡ some stats
unfolding keep_recent get
keep_recent-get isolated now window_ms bucket stats [] h r = absurd (cc)
keep_recent-get isolated now window_ms bucket stats ((other, state) ∷ activity) h r =
    elim (Bool-cases (bucket == other)) [
      | inl c ↦
          let same : state ≡ stats = ground arith in
          let path : bucket ≡ other = ground (arith, ==_iff bucket other) in
          let kept : is_recent isolated now window_ms other state ≡ true =
            ap (is_recent isolated now window_ms other) same
            ∙ ap (λ b. is_recent isolated now window_ms b stats) (sym path)
            ∙ r in
          rw (kept, c) (ap some same)
      | inr c ↦
          let rest =
            keep_recent-get isolated now window_ms bucket stats activity (ground arith) r in
          elim (Bool-cases (is_recent isolated now window_ms other state)) [
            | inl k ↦ rw (k, c) rest
            | inr k ↦ rw k rest
          ]
    ]

abbrev marked : ℕ → DirectoryActivityState → DirectoryActivityState
marked now stats = record stats {
  metadata_only = stats.metadata_only || ltb now stats.hot_until_ms;
}

mark_hot-get :
    (now : ℕ) (bucket : PathBuf) (stats : DirectoryActivityState) (activity : Activity)
    → get bucket activity ≡ some stats
    → get bucket (mark_hot now activity) ≡ some (marked now stats)
unfolding mark_hot get
mark_hot-get now bucket stats [] h = absurd (cc)
mark_hot-get now bucket stats ((other, state) ∷ activity) h = elim (Bool-cases (bucket == other)) [
  | inl c ↦ let same : state ≡ stats = ground arith in rw c (ap (λ s. some (marked now s)) same)
  | inr c ↦ rw c (mark_hot-get now bucket stats activity (ground arith))
]

or_left : (a b : Bool) → (a || b) ≡ false → a ≡ false
or_left a b h = ground arith

set_metadata_only :
    (stats : DirectoryActivityState) (b : Bool)
    → b ≡ true
    → ◌≡◌ {A = DirectoryActivityState}
        (record stats { metadata_only = b })
        (record stats { metadata_only = true })
set_metadata_only stats b h = ap (λ (c : Bool). record stats { metadata_only = c }) h

contains-append :
    (path : PathBuf) (xs : List PathBuf) (last : PathBuf)
    → contains path (xs ++ last ∷ []) ≡ (contains path xs || (path == last))
unfolding contains
contains-append path [] last = ground arith
contains-append path (x ∷ xs) last = ground (arith, contains-append path xs last)

-- What `push_unseen` leaves is what was there, and the new paths.
push_unseen-contains :
    (path : PathBuf) (paths ordered : List PathBuf)
    → contains path (push_unseen paths ordered) ≡ (contains path paths || contains path ordered)
unfolding push_unseen contains
push_unseen-contains path [] ordered = refl
push_unseen-contains path (first ∷ paths) ordered = elim (Bool-cases (contains first ordered)) [
  | inl c ↦ rw c (push_unseen-contains path paths ordered ∙ ground (arith, ==_iff path first))
  | inr c ↦ rw c (
      push_unseen-contains path paths (ordered ++ first ∷ [])
      ∙ ground (arith, contains-append path ordered first))
]

push_values-keeps :
    (path : PathBuf) (roots : BTreeMap String (List PathBuf)) (ordered : List PathBuf)
    → contains path ordered ≡ true
    → contains path (push_values roots ordered) ≡ true
unfolding push_values
push_values-keeps path [] ordered h = h
push_values-keeps path ((name, paths) ∷ roots) ordered h =
    push_values-keeps path roots (push_unseen paths ordered)
      (ground (arith, push_unseen-contains path paths ordered))

push_values-contains :
    (name : String) (paths : List PathBuf) (path : PathBuf) (roots : BTreeMap String (List PathBuf))
    (ordered : List PathBuf)
    → get name roots ≡ some paths
    → contains path paths ≡ true
    → contains path (push_values roots ordered) ≡ true
unfolding push_values get
push_values-contains name paths path [] ordered e c = absurd (cc)
push_values-contains name paths path ((other, these) ∷ roots) ordered e c =
    elim (Bool-cases (name == other)) [
      | inl d ↦
          let same : these ≡ paths = ground arith in
          push_values-keeps path roots (push_unseen these ordered)
            (push_unseen-contains path these ordered ∙ rw (same, c) refl)
      | inr d ↦
          push_values-contains name paths path roots (push_unseen these ordered) (ground arith) c
    ]

-- Every configured root is among the ordered ones.
ordered_roots-contains :
    (name : String) (paths : List PathBuf) (path : PathBuf) (roots : BTreeMap String (List PathBuf))
    → get name roots ≡ some paths
    → contains path paths ≡ true
    → contains path (ordered_roots roots) ≡ true
unfolding ordered_roots
ordered_roots-contains name paths path roots e c = push_values-contains name paths path roots _ e c

hot-get :
    (activity : Activity) (bucket : PathBuf) (stats : DirectoryActivityState) (now : ℕ)
    (isolated : List PathBuf)
    → get bucket activity ≡ some stats
    → now < stats.hot_until_ms
    → activity_bucket_is_hot activity bucket now isolated ≡ true
unfolding activity_bucket_is_hot
hot-get activity bucket stats now isolated e h = rw (activity_bucket_is_hot, e) (ground arith)

hold_all-get :
    (root : PathBuf) (roots : List PathBuf) (now : ℕ) (config : IndexActivityConfig)
    → contains root roots ≡ true
    → get root (hold_all roots now config) ≡ some (held_state now config)
unfolding hold_all contains
hold_all-get root [] now config h = absurd (cc)
hold_all-get root (first ∷ roots) now config h =
    get-insert first root (held_state now config) (hold_all roots now config)
    ∙ elim (Bool-cases (root == first)) [
      | inl c ↦ rw c refl
      | inr c ↦ rw c (hold_all-get root roots now config (ground arith))
    ]

-- No usable guard file: it is of another version, invalid, unreadable, or missing beside an index.
abbrev pub is_unusable : GuardRead → Bool → Bool
is_unusable (parsed file) had = not (file.version == 1)
is_unusable invalid had = true
is_unusable not_found had = had
is_unusable unreadable had = true

module _ (quiet_deadline : PathBuf → Option ℕ) where
  -- Another bucket keeps its state when roots are isolated.
  isolate_all-get :
      (bucket : PathBuf) (roots : List PathBuf) (now : ℕ) (config : IndexActivityConfig)
      (activity : Activity)
      → contains bucket roots ≡ false
      → get bucket (isolate_all quiet_deadline roots now config activity) ≡ get bucket activity
  unfolding isolate_all contains ensure_isolated_activity_root
  isolate_all-get bucket [] now config activity h = refl
  isolate_all-get bucket (root ∷ roots) now config activity h =
      let next = ensure_isolated_activity_root quiet_deadline activity root now config in
      isolate_all-get bucket roots now config next (ground arith)
      ∙ get-insert root bucket _ activity
      ∙ (let apart : (bucket == root) ≡ false = or_left _ _ h in rw apart refl)

  -- If the guard file that was saved is loaded again, no earlier than that, a bucket that is not an
  -- isolated root and whose hot time is not over is hot. It has the counters and times that it had
  -- when it was saved, and the mark `metadata_only`.
  pub load-save_hot :
      (roots : BTreeMap String (List PathBuf)) (config : IndexActivityConfig)
      (had_persistent_index : Bool) (activity : Activity) (bucket : PathBuf)
      (stats : DirectoryActivityState) (saved now : ℕ) (isolated : List PathBuf)
      → get bucket activity ≡ some stats
      → saved ≤ now
      → now < stats.hot_until_ms
      → contains bucket config.activity_bucket_roots ≡ false
      → let loaded =
          load_activity_guard_at quiet_deadline
            (parsed (save_activity_guard activity saved config.window_ms isolated))
            roots
            config
            had_persistent_index
            now in
        (get bucket loaded ≡ some (record stats { metadata_only = true }))
        × (activity_bucket_is_hot loaded bucket now config.activity_bucket_roots ≡ true)
  unfolding load_activity_guard_at save_activity_guard
  load-save_hot roots config had activity bucket stats saved now isolated e le lt apart =
      let hot : ltb now stats.hot_until_ms ≡ true = ground arith in
      let once =
        keep_recent-get isolated saved config.window_ms bucket stats activity e (ground arith) in
      let twice =
        keep_recent-get isolated now config.window_ms bucket stats _ once (ground arith) in
      let at =
        isolate_all-get bucket config.activity_bucket_roots now config _ apart
        ∙ mark_hot-get now bucket stats _ twice
        ∙ ap some (set_metadata_only stats _ (ground arith)) in
      (
        at,
        hot-get _ bucket (record stats { metadata_only = true }) now config.activity_bucket_roots at
            lt,
      )

  unusable-bootstrap :
      (read : GuardRead) (roots : BTreeMap String (List PathBuf)) (config : IndexActivityConfig)
      (had : Bool) (now : ℕ)
      → is_unusable read had ≡ true
      → load_activity_guard_at quiet_deadline read roots config had now
        ≡ bootstrap_and_isolate_activity_guard quiet_deadline roots config now
  unfolding load_activity_guard_at
  unusable-bootstrap (parsed file) roots config had now h =
      let other : (file.version == 1) ≡ false = ground arith in rw other refl
  unusable-bootstrap invalid roots config had now h = refl
  unusable-bootstrap not_found roots config had now h = rw h refl
  unusable-bootstrap unreadable roots config had now h = refl

  -- Without a usable guard file (one of another version, unreadable, invalid, or missing beside an
  -- index that exists), every path of a configured root that is not an isolated one is hot until
  -- the cooldown from the start has passed.
  pub load_activity_guard_at-closed :
      (read : GuardRead) (roots : BTreeMap String (List PathBuf)) (config : IndexActivityConfig)
      (had : Bool) (now later : ℕ) (name : String) (paths : List PathBuf) (root : PathBuf)
      → is_unusable read had ≡ true
      → get name roots ≡ some paths
      → contains root paths ≡ true
      → contains root config.activity_bucket_roots ≡ false
      → later < saturating_add now config.hot_cooldown_ms
      → activity_bucket_is_hot
          (load_activity_guard_at quiet_deadline read roots config had now)
          root
          later
          config.activity_bucket_roots
        ≡ true
  unfolding bootstrap_and_isolate_activity_guard
  load_activity_guard_at-closed read roots config had now later name paths root u e c apart lt =
      let at =
        ap (get root) (unusable-bootstrap read roots config had now u)
        ∙ isolate_all-get root config.activity_bucket_roots now config _ apart
        ∙ hold_all-get root (ordered_roots roots) now config
            (ordered_roots-contains name paths root roots e c) in
      hot-get _ root (held_state now config) later config.activity_bucket_roots at lt
