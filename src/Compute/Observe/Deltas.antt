-- ===== src/Compute/Observe/Deltas.antt =====
-- What is known of the readings that `observe` accepts.
use grepmesh.Prelude.{ℕ, ◌-◌, ◌≤◌, ◌<◌, ◌≡◌, Bool, some, length, nat_ord, arith}
use grepmesh.Compute.Admission.{HostLoad}
use grepmesh.Compute.Observe.{Raw, observe}

module _ {F : Type 0} (same : F → F → Bool) (larger : F → F → F) (zero_percent : F)
    (used : ℕ → F → F) (percent_of : ℕ → ℕ → F) where
  -- A load is only made of two readings in which the processor's total grew, its idle time did not
  -- fall and grew by no more than the total, and the control groups are as many; it reports the
  -- memory of the second one.
  pub observe_deltas :
      (first second : Raw F) (load : HostLoad F)
      → observe same larger zero_percent used percent_of first second ≡ some load
      → (first.total < second.total)
        × (first.idle ≤ second.idle)
        × (second.idle - first.idle ≤ second.total - first.total)
        × (length first.cgroup ≡ length second.cgroup)
        × (load.available_memory_bytes ≡ second.available)
  unfolding observe
  observe_deltas first second load h =
      (ground arith, ground arith, ground arith, ground arith, ground arith)
