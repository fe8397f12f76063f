-- ===== src/Compute/Observe.antt =====
-- `observe` of src/compute_load.rs: two readings of the kernel's counters become one load. `F` stands
-- for `f64`. `percent_of total idle` is the busy share of the first reading to the second, `used`
-- the share of a control group's limit in the elapsed time, already clamped to 0..100.
pub mod Deltas
use grepmesh.Prelude.{
  ℕ, ◌-◌, Bool, true, false, not, ◌&&◌, ◌||◌, Option, none, some, List, [], ◌∷◌, length, min, ltb,
  leb, if◌then◌else◌, ◌==◌, nat_ord,
}
use grepmesh.Compute.Admission.{HostLoad}

-- The device and the inode of a control group.
pub record Group (F : Type 0) : Type 0 where
  pub identity : ℕ × ℕ
  pub usage : ℕ
  pub cpu_limit : Option F
  pub memory_remaining : Option ℕ
  pub tasks_remaining : Option ℕ

pub record Raw (F : Type 0) : Type 0 where
  pub total : ℕ
  pub idle : ℕ
  pub available : ℕ
  pub memory_total : ℕ
  pub cgroup : List (Group F)

abbrev pub checked_sub : ℕ → ℕ → Option ℕ
checked_sub a b = if ltb a b then none else some (a - b)

abbrev filter_option : (ℕ → Bool) → Option ℕ → Option ℕ
filter_option p none = none
filter_option p (some n) = if p n then some n else none

abbrev pub total_delta : ℕ → ℕ → Option ℕ
total_delta second first = filter_option (λ n. ltb 0 n) (checked_sub second first)

abbrev pub idle_delta : ℕ → ℕ → ℕ → Option ℕ
idle_delta total second first = filter_option (λ n. leb n total) (checked_sub second first)

-- `filter_map(..).min()`
abbrev least : Option ℕ → Option ℕ → Option ℕ
least none m = m
least (some n) none = some n
least (some n) (some m) = some (min n m)

module _ {F : Type 0} where
  unfoldable pub min_memory : List (Group F) → Option ℕ
  min_memory [] = none
  min_memory (g ∷ gs) = least g.memory_remaining (min_memory gs)

  unfoldable pub min_tasks : List (Group F) → Option ℕ
  min_tasks [] = none
  min_tasks (g ∷ gs) = least g.tasks_remaining (min_tasks gs)

  module _ (same : F → F → Bool) (larger : F → F → F) (zero_percent : F) (used : ℕ → F → F)
      (percent_of : ℕ → ℕ → F) where
    abbrev same_limit : Option F → Option F → Bool
    same_limit none none = true
    same_limit none (some b) = false
    same_limit (some a) none = false
    same_limit (some a) (some b) = same a b

    abbrev add_share : Option F → F → Option F
    add_share none p = some (larger zero_percent p)
    add_share (some q) p = some (larger q p)

    -- The share after one group of both readings; none for an error.
    unfoldable pub next_share : Option F → Group F → Group F → Option (Option F)
    next_share best a b =
        let moved =
          not ((a.identity.0 == b.identity.0) && (a.identity.1 == b.identity.1))
          || not (same_limit a.cpu_limit b.cpu_limit) in
        let share : Option (Option F) = elim b.cpu_limit [
          | none ↦ some best
          | some limit ↦ elim (checked_sub b.usage a.usage) [
            | none ↦ none
            | some delta ↦ some (add_share best (used delta limit))
          ]
        ] in
        if moved then none else share

    unfoldable pub group_share : Option F → List (Group F) → List (Group F) → Option (Option F)
    unfolding next_share
    group_share best [] second = some best
    group_share best (a ∷ first) [] = some best
    group_share best (a ∷ first) (b ∷ second) = elim (next_share best a b) [
      | none ↦ none
      | some best' ↦ group_share best' first second
    ]

    abbrev load_of : Raw F → ℕ → ℕ → Option (Option F) → Option (HostLoad F)
    load_of second total idle none = none
    load_of second total idle (some share) = some (record {
      cpu_utilization_percent = percent_of total idle;
      available_memory_bytes = second.available;
      memory_total_bytes = second.memory_total;
      cgroup_cpu_utilization_percent = share;
      cgroup_memory_remaining_bytes = min_memory second.cgroup;
      cgroup_tasks_remaining = min_tasks second.cgroup;
    })

    unfoldable pub observe : Raw F → Raw F → Option (HostLoad F)
    unfolding group_share min_memory min_tasks
    observe first second = elim (total_delta second.total first.total) [
      | none ↦ none
      | some total ↦ elim (idle_delta total second.idle first.idle) [
        | none ↦ none
        | some idle ↦
            if not (length first.cgroup == length second.cgroup)
            then none
            else load_of second total idle (group_share none first.cgroup second.cgroup)
      ]
    ]
