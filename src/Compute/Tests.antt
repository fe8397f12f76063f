-- ===== src/Compute/Tests.antt =====
-- Runs of the compute code on concrete data.
use grepmesh.Prelude.{
  ◌/◌, ◌-◌, nat_ord, ◌==◌, ℕ, ◌+◌, ◌*◌, ◌≡◌, refl, true, false, none, some, List, [], ◌∷◌, max, ltb,
  arith, string_ord,
}
use grepmesh.Prelude.Text.{starts_with}
use grepmesh.Compute.Ratings.{
  RatingClass, drop_stale, prune, find_class, remove_class, pop_full, push_sample, note_sample,
  refuses, record_sample, insert_sorted, sort, rating_of,
}
use grepmesh.Compute.Ratings.Bounds.{IsBounded, record_sample-IsBounded}
use grepmesh.Compute.Admission.{
  ComputeConfig, Gpu, HostLoad, gib, needed_vram, gpu_admission, admission, memory_reserve_bytes,
  utilization, host_admission, eligibility_error,
}
use grepmesh.Compute.Observe.{Raw, next_share, group_share, min_memory, min_tasks, observe}

compute : Unit {0}
unfolding drop_stale prune find_class remove_class pop_full push_sample note_sample refuses
    record_sample insert_sorted sort rating_of starts_with string_ord needed_vram gpu_admission
    admission memory_reserve_bytes utilization host_admission eligibility_error next_share
    group_share min_memory min_tasks observe
compute = tt

-- Times are whole seconds here.
abbrev one_class : List (RatingClass ℕ)
one_class =
    record {
      backend = "cpu";
      key = "ocr:png";
      samples =
          record { at = 100; seconds = 9; warm = false; unix = 1700 }
          ∷ record { at = 200; seconds = 4; warm = true; unix = 1800 }
          ∷ [];
    }
    ∷ []

one_class-IsBounded : IsBounded one_class
one_class-IsBounded = record { few = omega arith; filled = ((omega arith, omega arith), tt) }

record_sample-IsBounded_example :
    IsBounded (record_sample (λ s. ltb 0 s) "cpu" "ocr:png" 6 true 1900 300 one_class)
record_sample-IsBounded_example =
    record_sample-IsBounded (λ s. ltb 0 s) "cpu" "ocr:png" 6 true 1900 300 one_class
      one_class-IsBounded

abbrev cold_class : RatingClass ℕ
cold_class = record {
  backend = "cpu";
  key = "ocr:png";
  samples = record { at = 100; seconds = 9; warm = false; unix = 1700 } ∷ [];
}

abbrev config : ComputeConfig
config = record {
  enabled = true;
  execution_provider = "cuda";
  gpu_device_is_negative = false;
  max_payload_bytes = 1000;
  min_free_vram_mb = 3000;
  max_gpu_utilization_percent = 70;
}

eligible : eligibility_error true false true config ≡ none
unfolding compute
eligible = refl

abbrev gpu : Gpu
gpu = record { free_bytes = 8 * gib; utilization = 10 }

abbrev load : HostLoad ℕ
load = record {
  cpu_utilization_percent = 20;
  available_memory_bytes = 6 * gib;
  memory_total_bytes = 16 * gib;
  cgroup_cpu_utilization_percent = none;
  cgroup_memory_remaining_bytes = some gib;
  cgroup_tasks_remaining = some 100;
}

abbrev reading : ℕ → ℕ → Raw ℕ
reading total idle = record {
  total = total;
  idle = idle;
  available = 6 * gib;
  memory_total = 16 * gib;
  cgroup =
      record {
        identity = (1, 2);
        usage = total;
        cpu_limit = some 2;
        memory_remaining = some gib;
        tasks_remaining = none;
      }
      ∷ [];
}

abbrev observed : HostLoad ℕ
observed = record {
  cpu_utilization_percent = 60;
  available_memory_bytes = 6 * gib;
  memory_total_bytes = 16 * gib;
  cgroup_cpu_utilization_percent = some 52;
  cgroup_memory_remaining_bytes = some gib;
  cgroup_tasks_remaining = none;
}

observed_run :
    observe
      (λ a b. a == b)
      max
      0
      (λ delta limit. delta / limit + 2)
      (λ total idle. total - idle)
      (reading 100 50)
      (reading 200 90)
    ≡ some observed
unfolding compute
observed_run = refl
