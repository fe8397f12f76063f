-- ===== src/Jobs/State.antt =====
-- The records of src/jobs.rs. A `BTreeMap` is an association list, the set of seen keys a list of
-- keys. `F` stands for `f64`.
use grepmesh.Prelude.{
  ℕ, Bool, false, Option, none, String, List, [], map, Ord, pair_ord, option_ord, string_ord,
  nat_ord,
}
use grepmesh.Prelude.Map.{BTreeMap}
use grepmesh.Backend.Hosts.{PerHostStatus}
use grepmesh.Backend.Hits.{SearchHit}

abbrev pub max_jobs : ℕ
max_jobs = 256

abbrev pub max_cursors_per_job : ℕ
max_cursors_per_job = 256

abbrev pub default_page_size : ℕ
default_page_size = 32

abbrev pub max_page_size : ℕ
max_page_size = 64

abbrev pub next_poll_after_ms : ℕ
next_poll_after_ms = 1000

-- The host, the source host, the path and the line of a hit.
abbrev pub HitKey : Type 0
HitKey = String × (Option String × (String × ℕ))

abbrev pub hit_key : {F : Type 0} → SearchHit F → HitKey
hit_key hit = (hit.host_id, (hit.source_host, (hit.path, hit.line_number)))

instance unfoldable pub hit_key_ord : Ord HitKey
hit_key_ord = pair_ord

pub record SearchJob (F : Type 0) : Type 0 where
  pub created_ms : ℕ
  pub host_id : String
  pub verbose : Bool
  pub limit : ℕ
  pub pending_hosts : List String
  pub host_status : BTreeMap String PerHostStatus
  pub results : List (SearchHit F)
  pub seen_results : List HitKey
  pub truncated : Bool
  pub cursors : BTreeMap String ℕ
  pub lost : Bool
  pub durability_error : Option String
  pub hub_jobs : BTreeMap String String

-- The job as it is written to disk: without the keys that were seen.
pub record PersistedSearchJob (F : Type 0) : Type 0 where
  pub created_ms : ℕ
  pub host_id : String
  pub verbose : Bool
  pub limit : ℕ
  pub pending_hosts : List String
  pub host_status : BTreeMap String PerHostStatus
  pub results : List (SearchHit F)
  pub truncated : Bool
  pub cursors : BTreeMap String ℕ
  pub lost : Bool
  pub durability_error : Option String
  pub hub_jobs : BTreeMap String String

module _ {F : Type 0} where
  unfoldable pub from_job : SearchJob F → PersistedSearchJob F
  from_job job = record {
    created_ms = job.created_ms;
    host_id = job.host_id;
    verbose = job.verbose;
    limit = job.limit;
    pending_hosts = job.pending_hosts;
    host_status = job.host_status;
    results = job.results;
    truncated = job.truncated;
    cursors = job.cursors;
    lost = job.lost;
    durability_error = job.durability_error;
    hub_jobs = job.hub_jobs;
  }

  unfoldable pub into_job : PersistedSearchJob F → SearchJob F
  into_job p = record {
    created_ms = p.created_ms;
    host_id = p.host_id;
    verbose = p.verbose;
    limit = p.limit;
    pending_hosts = p.pending_hosts;
    host_status = p.host_status;
    results = p.results;
    seen_results = map hit_key p.results;
    truncated = p.truncated;
    cursors = p.cursors;
    lost = p.lost;
    durability_error = p.durability_error;
    hub_jobs = p.hub_jobs;
  }

  -- A job as `start_internal` puts it into the table.
  unfoldable pub new_job :
      ℕ → String → Bool → ℕ → List String → BTreeMap String String → SearchJob F
  new_job now host_id verbose limit targets hub_jobs = record {
    created_ms = now;
    host_id = host_id;
    verbose = verbose;
    limit = limit;
    pending_hosts = targets;
    host_status = [];
    results = [];
    seen_results = [];
    truncated = false;
    cursors = [];
    lost = false;
    durability_error = none;
    hub_jobs = hub_jobs;
  }
