-- ===== src/Control/Admission.antt =====
-- The admission of a claim in src/people_counter/sjd_control.py: `_claim_admission_settings` and
-- `_largest_admissible_claim_prefix`. The speed and the safety factor are whole thousandths, so that
-- `makespan / speed * factor` is `makespan * factor / speed`, compared after multiplying by `speed`.
pub mod Prefix
pub mod Budget
use people_counter.Prelude.{
  ℕ, zero, suc, ◌+◌, ◌-◌, ◌*◌, ◌/◌, min, String, Bool, true, false, not, ◌&&◌, ◌||◌, Option, none,
  some, List, [], ◌∷◌, map, ltb, leb, nat_eq, take, length, if◌then◌else◌, Result, ok, err, Error,
  value_error, lease_budget, ◌>>=◌, ◌>>◌, require,
}
use people_counter.Control.Tables.{Work}
use people_counter.Control.Texts.{required_text, positive}
use people_counter.Lpt.{Job, lpt_makespan}

-- The attributes of a process profile that a claim reads.
pub record Profile : Type 0 where
  pub name : String
  pub minimum_speed_x : ℕ
  pub lease_safety_factor : ℕ
  pub lease_margin_seconds : ℕ
  pub executor_instances : ℕ
  pub executor_cores : ℕ
  pub task_cpus : ℕ
  pub executor_memory_bytes : ℕ
  pub memory_reserve_bytes : ℕ

-- The admission arguments of a claim as the caller gives them.
pub record Admission : Type 0 where
  pub process_profile : Option Profile
  pub minimum_speed_x : Option ℕ
  pub safety_factor : Option ℕ
  pub margin_seconds : Option ℕ
  pub peak_rss_bytes : Option ℕ

pub record Settings : Type 0 where
  pub speed : ℕ
  pub factor : ℕ
  pub margin : ℕ
  pub worker_limit : ℕ
  pub profile_name : String

legacy_settings : Option ℕ → Option ℕ → Option ℕ → Result Settings
unfolding positive
legacy_settings (some speed) (some factor) (some margin) = do
  s ← positive speed
  f ← positive factor
  m ← positive margin
  ok (record {
    speed = s;
    factor = f;
    margin = m;
    worker_limit = 1;
    profile_name = "legacy-single-worker";
  })
legacy_settings _ _ _ = err value_error

-- The worker limit that the measured memory allows.
unfoldable pub memory_workers : Option ℕ → Profile → ℕ → Result ℕ
unfolding positive
memory_workers none p limit = ok limit
memory_workers (some peak_rss) p limit = do
  peak ← positive peak_rss
  memory ← positive p.executor_memory_bytes
  let usable = memory - p.memory_reserve_bytes
  if ltb memory p.memory_reserve_bytes || ltb usable peak
      then err lease_budget
      else ok (min limit (p.executor_instances * (usable / peak)))

-- A value given beside a profile must be the profile's.
agrees : Option ℕ → ℕ → Bool
agrees none expected = true
agrees (some value) expected = nat_eq value expected

unfoldable pub profile_settings : Admission → Profile → Result Settings
unfolding positive memory_workers agrees required_text
profile_settings a p = do
  speed ← positive p.minimum_speed_x
  factor ← positive p.lease_safety_factor
  margin ← positive p.lease_margin_seconds
  instances ← positive p.executor_instances
  cores ← positive p.executor_cores
  cpus ← positive p.task_cpus
  let cpu_limit = instances * cores / cpus
  require (leb 1 cpu_limit) value_error
  limit ← memory_workers a.peak_rss_bytes p (min instances cpu_limit)
  require (agrees a.minimum_speed_x speed) value_error
  require (agrees a.safety_factor factor) value_error
  require (agrees a.margin_seconds margin) value_error
  name ← required_text p.name
  ok (record {
    speed = speed;
    factor = factor;
    margin = margin;
    worker_limit = limit;
    profile_name = name;
  })

without_profile : Admission → Result Settings
unfolding legacy_settings
without_profile a = do
  settings ← legacy_settings a.minimum_speed_x a.safety_factor a.margin_seconds
  elim a.peak_rss_bytes [ none ↦ ok settings | some peak ↦ err value_error ]

unfoldable pub claim_admission_settings : Admission → Result Settings
unfolding profile_settings without_profile
claim_admission_settings a = elim a.process_profile [
  | none ↦ without_profile a
  | some p ↦ profile_settings a p
]

abbrev pub job : Work → Job
job w = record { work_id = w.work_id; duration_seconds = w.duration_seconds }

-- `projection(prefix)`: the workers, and their makespan.
unfoldable pub projection : Settings → List Work → ℕ × ℕ
projection s rows =
    let workers = min (length rows) s.worker_limit in (workers, lpt_makespan (map job rows) workers)

-- `projected + margin_seconds < lease_seconds`
unfoldable pub fits : Settings → ℕ → List Work → Bool
unfolding projection
fits s lease rows = ltb ((projection s rows).1 * s.factor + s.margin * s.speed) (lease * s.speed)

-- `for count in range(len(rows), minimum_items, -1)`, with `extra = count - minimum_items`.
unfoldable pub largest_from : Settings → ℕ → List Work → ℕ → ℕ → List Work
largest_from s lease rows minimum zero = take minimum rows
largest_from s lease rows minimum (suc extra) =
    let rest = largest_from s lease rows minimum extra in
    if fits s lease (take (minimum + suc extra) rows) then take (minimum + suc extra) rows else rest

unfoldable pub largest_admissible_prefix : Settings → ℕ → ℕ → List Work → Result (List Work)
unfolding largest_from
largest_admissible_prefix s lease minimum rows =
    if fits s lease (take minimum rows)
    then ok (largest_from s lease rows minimum (length rows - minimum))
    else err lease_budget
