-- ===== src/Planner.antt =====
-- The execution profile of src/people_counter/sjd_process.py and the concurrency that it allows. The
-- speed, the safety factor and the headroom are whole thousandths.
pub mod Envelope
pub mod Plan
pub mod Waves
pub mod Buckets
pub mod Planned
pub mod Agreement
pub mod Tests
use people_counter.Prelude.{
  ℕ, ◌-◌, ◌*◌, ◌/◌, min, String, Bool, true, false, not, ◌&&◌, ◌||◌, Option, none, some, List, [],
  ◌∷◌, ltb, leb, nat_eq, length, if◌then◌else◌, is_some, Result, ok, err, Error, value_error,
  process_error, ◌>>=◌, ◌>>◌, require,
}
use people_counter.Executors.{ExecutorRecord, no_executors, assert_matches_reviewed_profile}
use people_counter.Executors.Width.{TaskWidthPlacement, plan_task_width}

pub record ExecutionProfile : Type 0 where
  pub name : String
  pub executor_instances : ℕ
  pub executor_cores : ℕ
  pub executor_memory_bytes : ℕ
  pub task_cpus : ℕ
  pub fixed_allocation : Bool
  pub speculation : Bool
  pub memory_reserve_bytes : ℕ
  pub heartbeat_seconds : ℕ
  pub minimum_speed_x : ℕ
  pub lease_safety_factor : ℕ
  pub lease_margin_seconds : ℕ
  pub planned_task_count : ℕ
  pub peak_rss_bytes : Option ℕ
  pub rss_headroom_fraction : ℕ

-- The planned task count, which is the executor count where the caller gives none.
abbrev pub count_or : Option ℕ → ℕ → ℕ
count_or none instances = instances
count_or (some n) instances = n

-- `__post_init__`, with the planned task count as the caller gives it.
unfoldable pub checked_profile : ExecutionProfile → Option ℕ → Result ExecutionProfile
checked_profile p planned = do
  let count = count_or planned p.executor_instances
  require (leb 1 count) process_error
  require (ltb p.rss_headroom_fraction 1000) process_error
  ok (record p { planned_task_count = count })

-- `except ExecutorInventoryError as error: raise ProcessValidationError`
abbrev pub as_process_error : {A : Type 0} → Result A → Result A
as_process_error (ok a) = ok a
as_process_error (err e) = err process_error

-- `REVIEWED_TASK_CPU_WIDTHS`, and the detector's batch sizes
abbrev pub one_two_four : ℕ → Bool
one_two_four n = nat_eq n 1 || nat_eq n 2 || nat_eq n 4

-- The profile `p` has the caller's arguments; the inventory gives the rest.
unfoldable pub build_profile_from_inventory :
    ExecutionProfile → Option ℕ → List ExecutorRecord → Result ExecutionProfile
unfolding checked_profile
build_profile_from_inventory p operator_cap executors = do
  require (not (no_executors executors)) process_error
  require (one_two_four p.task_cpus) process_error
  as_process_error (assert_matches_reviewed_profile executors p.executor_cores p.task_cpus)
  placement ←
      as_process_error (
        plan_task_width executors p.task_cpus operator_cap p.peak_rss_bytes p.rss_headroom_fraction)
  checked_profile (record p { executor_instances = length executors; speculation = false })
      (some placement.planned_task_count)

pub record ConcurrencyDecision : Type 0 where
  pub concurrency : ℕ
  pub item_limit : ℕ
  pub profile_limit : ℕ
  pub cpu_limit : ℕ
  pub memory_limit : Option ℕ
  pub peak_rss_bytes : Option ℕ
  pub duration_only_fallback : Bool

-- The limit by memory; a reserve above the memory leaves less than any peak.
unfoldable pub memory_limit : ExecutionProfile → Option ℕ → Result (Option ℕ)
memory_limit p none = ok none
memory_limit p (some peak) = do
  require (leb 1 peak) process_error
  let usable = p.executor_memory_bytes - p.memory_reserve_bytes
  require (not (ltb usable peak)) process_error
  ok (some (p.executor_instances * (usable / peak)))

-- `min(limits)`, to which the optional limit is added last
abbrev pub limited : Option ℕ → ℕ → ℕ
limited none n = n
limited (some limit) n = min n limit

unfoldable pub conservative_concurrency :
    ℕ → ExecutionProfile → Option ℕ → Result ConcurrencyDecision
unfolding memory_limit
conservative_concurrency item_count p peak = do
  require (leb 1 item_count) process_error
  require (leb 1 p.task_cpus) value_error
  let cpus = p.executor_instances * p.executor_cores / p.task_cpus
  memory ← memory_limit p peak
  ok (record {
    concurrency = limited memory (min (min item_count p.planned_task_count) cpus);
    item_limit = item_count;
    profile_limit = p.planned_task_count;
    cpu_limit = cpus;
    memory_limit = memory;
    peak_rss_bytes = peak;
    duration_only_fallback = not (is_some peak);
  })
