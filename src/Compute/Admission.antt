-- ===== src/Compute/Admission.antt =====
-- Which jobs the OCR worker takes: `payload_limit`, `eligibility_error`, `admission` and
-- `gpu_admission` of src/compute.rs, and `HostLoad::admission` of src/compute_load.rs.
-- Numbers are `u64`, with what saturates written out. `has_cuda` and `has_coreml` are the features of
-- the build, `has_engine` says whether the engine was loaded.
use grepmesh.Prelude.{
  ℕ, ◌+◌, ◌-◌, ◌*◌, ◌^◌, Bool, false, not, ◌&&◌, ◌||◌, Option, none, some, String, min, max, ltb,
  leb, if◌then◌else◌, unwrap_or, ◌==◌, string_ord, nat_ord,
}

abbrev pub hard_payload_limit : ℕ
hard_payload_limit = 32 * 1024 * 1024

abbrev pub min_gpu_reserve_mb : ℕ
min_gpu_reserve_mb = 2560

abbrev pub gpu_arena_limit : ℕ
gpu_arena_limit = 512 * 1024 * 1024

abbrev pub u64_max : ℕ
u64_max = 2 ^ 64 - 1

-- `is_negative` is the sign of `gpu_device_id`, an `i32` that is looked at nowhere else here.
pub record ComputeConfig : Type 0 where
  pub enabled : Bool
  pub execution_provider : String
  pub gpu_device_is_negative : Bool
  pub max_payload_bytes : ℕ
  pub min_free_vram_mb : ℕ
  pub max_gpu_utilization_percent : ℕ

pub record Gpu : Type 0 where
  pub free_bytes : ℕ
  pub utilization : ℕ

pub data GpuAdmission : Type 0 where
  busy insufficient_vram gpu_busy available : GpuAdmission

unfoldable pub payload_limit : ComputeConfig → ℕ
payload_limit config = min config.max_payload_bytes hard_payload_limit

pub data EligibilityError : Type 0 where
  disabled unsupported_provider no_cuda_support no_coreml_support no_engine invalid_device :
      EligibilityError

-- `has_coreml`: the feature, on an Apple machine with an ARM processor.
unfoldable pub eligibility_error : Bool → Bool → Bool → ComputeConfig → Option EligibilityError
eligibility_error has_cuda has_coreml has_engine config =
    let provider = config.execution_provider in
    if not config.enabled
    then some EligibilityError.disabled
    else if not ((provider == "cuda") || (provider == "cpu") || (provider == "coreml"))
    then some EligibilityError.unsupported_provider
    else if (provider == "cuda") && not has_cuda
    then some EligibilityError.no_cuda_support
    else if (provider == "coreml") && not has_coreml
    then some EligibilityError.no_coreml_support
    else if not has_engine
    then some EligibilityError.no_engine
    else if (provider == "cuda") && config.gpu_device_is_negative
    then some EligibilityError.invalid_device
    else none

-- The free memory that a job needs: the reserve of the tenants and two arenas.
unfoldable pub needed_vram : ComputeConfig → ℕ
needed_vram config =
    let reserve = min (max config.min_free_vram_mb min_gpu_reserve_mb * (1024 * 1024)) u64_max in
    min (reserve + min (gpu_arena_limit * 2) u64_max) u64_max

unfoldable pub gpu_admission : ComputeConfig → Gpu → GpuAdmission
unfolding needed_vram
gpu_admission config gpu =
    if ltb gpu.free_bytes (needed_vram config)
    then GpuAdmission.insufficient_vram
    else if ltb (min config.max_gpu_utilization_percent 100) gpu.utilization
    then GpuAdmission.gpu_busy
    else GpuAdmission.available

-- `permits` are the free slots.
unfoldable pub admission : ℕ → ComputeConfig → Gpu → GpuAdmission
unfolding gpu_admission
admission permits config gpu = if permits == 0 then GpuAdmission.busy else gpu_admission config gpu

-- The fields of `HostLoad` that admission reads; `F` stands for `f64`.
pub record HostLoad (F : Type 0) : Type 0 where
  pub cpu_utilization_percent : F
  pub available_memory_bytes : ℕ
  pub memory_total_bytes : ℕ
  pub cgroup_cpu_utilization_percent : Option F
  pub cgroup_memory_remaining_bytes : Option ℕ
  pub cgroup_tasks_remaining : Option ℕ

pub data HostAdmission : Type 0 where
  host_cpu_busy host_memory_busy host_tasks_busy host_available : HostAdmission

abbrev pub gib : ℕ
gib = 1024 * 1024 * 1024

-- `option.is_some_and(|n| n < limit)`
abbrev pub is_below : ℕ → Option ℕ → Bool
is_below limit none = false
is_below limit (some n) = ltb n limit

module _ {F : Type 0} where
  unfoldable pub memory_reserve_bytes : HostLoad F → ℕ
  memory_reserve_bytes load =
      if leb (64 * gib) load.memory_total_bytes
      then 20 * gib
      else if leb (32 * gib) load.memory_total_bytes
      then 4 * gib
      else if leb (8 * gib) load.memory_total_bytes
      then 2 * gib
      else gib

  -- `larger` is `f64::max`, `zero_percent` is `0.0`.
  module _ (larger : F → F → F) (zero_percent : F) where
    unfoldable pub utilization : HostLoad F → F
    utilization load =
        larger load.cpu_utilization_percent
          (unwrap_or zero_percent load.cgroup_cpu_utilization_percent)

    -- `is_finite` is `f64::is_finite`, `is_high` is `>= 85.0`.
    unfoldable pub host_admission : (F → Bool) → (F → Bool) → HostLoad F → HostAdmission
    unfolding utilization memory_reserve_bytes
    host_admission is_finite is_high load =
        if not (is_finite (utilization load)) || is_high (utilization load)
        then HostAdmission.host_cpu_busy
        else if ltb load.available_memory_bytes (memory_reserve_bytes load)
            || is_below (512 * 1024 * 1024) load.cgroup_memory_remaining_bytes
        then HostAdmission.host_memory_busy
        else if is_below 16 load.cgroup_tasks_remaining
        then HostAdmission.host_tasks_busy
        else HostAdmission.host_available
