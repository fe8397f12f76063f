-- ===== src/Index/Activity/Quiet.antt =====
-- `activity_root_quiet_deadline` of src/index.rs (Unix): the bounded walk for the latest change.
-- `symlink_metadata` and `read_dir` are the file system; a failed call is none. The time of a change
-- is in milliseconds and clamped to `u64`.
use grepmesh.Prelude.{
  ℕ, zero, suc, ◌+◌, ◌-◌, ◌≤◌, ◌≡◌, refl, Bool, true, false, ◌&&◌, not, Option, none, some, List,
  [], ◌∷◌, length, ltb, if◌then◌else◌, max, arith, Bool-cases, Option-cases, inl, inr, subst,
}
use grepmesh.Index.Activity.{PathBuf, saturating_add}

pub record Metadata : Type 0 where
  pub ctime_ms : ℕ
  pub is_dir : Bool
  pub is_symlink : Bool

abbrev pub is_real_dir : Metadata → Bool
is_real_dir m = m.is_dir && not m.is_symlink

-- the variables of the walk; the end of `pending` is the head
pub record Walk : Type 0 where
  pub pending : List PathBuf
  pub visited : ℕ
  pub latest : ℕ

pub data Deadline : Type 0 where
  known : Option ℕ → Deadline
  out_of_fuel : Deadline

abbrev pub is_known : Deadline → Bool
is_known (known answer) = true
is_known out_of_fuel = false

module _ (symlink_metadata : PathBuf → Option Metadata)
    (read_dir : PathBuf → Option (List (Option PathBuf))) (cooldown_ms max_entries : ℕ) where
  abbrev pub note_entry : PathBuf → Metadata → Walk → Walk
  note_entry path m w = record {
    pending = if is_real_dir m then path ∷ w.pending else w.pending;
    visited = w.visited + 1;
    latest = max w.latest m.ctime_ms;
  }

  -- the inner loop
  unfoldable pub scan_entries : List (Option PathBuf) → Walk → Option Walk
  scan_entries [] w = some w
  scan_entries (none ∷ entries) w = none
  scan_entries (some path ∷ entries) w =
      let rest : Walk → Option Walk = scan_entries entries in
      if ltb max_entries (w.visited + 1)
      then none
      else elim (symlink_metadata path) [ none ↦ none | some m ↦ rest (note_entry path m w) ]

  unfoldable pub walk_loop : ℕ → List PathBuf → ℕ → ℕ → Deadline
  unfolding scan_entries
  walk_loop fuel [] visited latest = known (some (saturating_add latest cooldown_ms))
  walk_loop zero (directory ∷ pending) visited latest = out_of_fuel
  walk_loop (suc fuel) (directory ∷ pending) visited latest =
      let next : Walk → Deadline = λ w. walk_loop fuel w.pending w.visited w.latest in
      elim (read_dir directory) [
        | none ↦ known none
        | some entries ↦
            elim (scan_entries entries
              (record { pending = pending; visited = visited; latest = latest })) [
                | none ↦ known none
                | some w ↦ next w
              ]
      ]

  unfoldable pub activity_root_quiet_deadline : PathBuf → Deadline
  unfolding walk_loop
  activity_root_quiet_deadline root = elim (symlink_metadata root) [
    | none ↦ known none
    | some m ↦
        if not (is_real_dir m)
        then known none
        else walk_loop (max_entries + 1) (root ∷ []) 1 m.ctime_ms
  ]

  -- Each entry that is pushed is counted, and the count stops at the limit.
  scan_entries-counted :
      (entries : List (Option PathBuf)) (w v : Walk)
      → scan_entries entries w ≡ some v
      → w.visited ≤ max_entries + 1
      → (length v.pending + w.visited ≤ length w.pending + v.visited)
        × (v.visited ≤ max_entries + 1)
  unfolding scan_entries
  scan_entries-counted [] w v h le =
      let same : w ≡ v = ground arith in
      subst
        (λ (u : Walk).
          (length u.pending + w.visited ≤ length w.pending + u.visited)
          × (u.visited ≤ max_entries + 1))
        same (omega arith, le)
  scan_entries-counted (none ∷ entries) w v h le = absurd (cc)
  scan_entries-counted (some path ∷ entries) w v h le =
      elim (Option-cases (symlink_metadata path)) [
        | inl e ↦ absurd (ground (arith, e, h))
        | inr (m, e) ↦
            let fits : w.visited + 1 ≤ max_entries + 1 = ground (arith, h) in
            let rest =
              scan_entries-counted entries (note_entry path m w) v (ground (arith, h, e)) fits in
            (ground (arith, rest.0), rest.1)
      ]

  -- The fuel of the walk is enough: no directory is left when it is used up.
  walk_loop-fuel :
      (fuel : ℕ) (pending : List PathBuf) (visited latest : ℕ)
      → visited ≤ max_entries + 1
      → length pending + (max_entries + 1 - visited) ≤ fuel
      → is_known (walk_loop fuel pending visited latest) ≡ true
  unfolding walk_loop
  walk_loop-fuel fuel [] visited latest le enough = refl
  walk_loop-fuel zero (directory ∷ pending) visited latest le enough = absurd (omega arith)
  walk_loop-fuel (suc fuel) (directory ∷ pending) visited latest le enough =
      let first : Walk = record { pending = pending; visited = visited; latest = latest } in
      elim (Option-cases (read_dir directory)) [
        | inl e ↦ rw (walk_loop, e) refl
        | inr (entries, e) ↦
            rw (walk_loop, e)
              (elim (Option-cases (scan_entries entries first)) [
                | inl n ↦ rw n refl
                | inr (w, n) ↦
                    let counted = scan_entries-counted entries first w n le in
                    rw n (
                      walk_loop-fuel fuel w.pending w.visited w.latest counted.1
                        (omega (arith, counted.0, counted.1)))
              ])
      ]

  -- The walk of a root ends with an outcome of the code, in any file system, even where directories
  -- contain each other: the fuel of the model lasts.
  pub activity_root_quiet_deadline-ends :
      (root : PathBuf) → is_known (activity_root_quiet_deadline root) ≡ true
  unfolding activity_root_quiet_deadline
  activity_root_quiet_deadline-ends root = elim (Option-cases (symlink_metadata root)) [
    | inl e ↦ rw (activity_root_quiet_deadline, e) refl
    | inr (m, e) ↦
        rw (activity_root_quiet_deadline, e)
          (elim (Bool-cases (is_real_dir m)) [
            | inr c ↦ rw c refl
            | inl c ↦ rw c (
                walk_loop-fuel (max_entries + 1) (root ∷ []) 1 m.ctime_ms (omega arith)
                  (omega arith))
          ])
  ]
