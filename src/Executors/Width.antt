-- ===== src/Executors/Width.antt =====
-- The task width of src/people_counter/fabric_executor_inventory.py: the placement check of each
-- executor and `plan_task_width`.
use people_counter.Prelude.{
  ℕ, min, Bool, true, false, not, ◌||◌, Option, none, some, List, [], ◌∷◌, ltb, leb, Result, ok,
  inventory_error, ◌>>=◌, ◌>>◌, require,
}
use people_counter.Executors.{
  ExecutorRecord, no_executors, cores_slots, compute_slots, compute_memory_cap,
  per_executor_memory_slots,
}

-- The loop over the executors: the safe counts, and whether some executor is unsafe.
unfoldable pub placements : List ExecutorRecord → ℕ → ℕ → ℕ → Result (List ℕ × Bool)
placements [] task_cpus peak headroom = ok ([], false)
placements (e ∷ es) task_cpus peak headroom = do
  let cores = cores_slots task_cpus e
  require (leb 1 cores) inventory_error
  memory ← per_executor_memory_slots e headroom peak
  require (leb 1 memory) inventory_error
  (counts, unsafe) ← placements es task_cpus peak headroom
  ok (min cores memory ∷ counts, ltb memory cores || unsafe)

unfoldable pub assert_executor_placement_safe : List ExecutorRecord → ℕ → ℕ → ℕ → Result (List ℕ)
unfolding placements
assert_executor_placement_safe executors task_cpus peak headroom = do
  require (leb 1 task_cpus) inventory_error
  require (not (no_executors executors)) inventory_error
  (counts, unsafe) ← placements executors task_cpus peak headroom
  require (not unsafe) inventory_error
  ok counts

pub record TaskWidthPlacement : Type 0 where
  pub task_cpus : ℕ
  pub slots : ℕ
  pub memory_cap : Option ℕ
  pub operator_cap : Option ℕ
  pub planned_task_count : ℕ
  pub executors : List ExecutorRecord
  pub per_executor_safe_tasks : List ℕ

-- The part under `if peak_rss_bytes is not None`.
unfoldable pub memory_limits : List ExecutorRecord → ℕ → Option ℕ → ℕ → Result (List ℕ × Option ℕ)
memory_limits executors task_cpus none headroom = ok ([], none)
memory_limits executors task_cpus (some peak) headroom = do
  counts ← assert_executor_placement_safe executors task_cpus peak headroom
  cap ← compute_memory_cap executors headroom peak
  ok (counts, some cap)

-- `min` of the limits, of which the optional one may be absent
abbrev pub capped : Option ℕ → ℕ → ℕ
capped none n = n
capped (some cap) n = min n cap

-- The check of the operator's cap.
abbrev pub valid_cap : Option ℕ → Bool
valid_cap none = true
valid_cap (some cap) = leb 1 cap

unfoldable pub plan_task_width :
    List ExecutorRecord → ℕ → Option ℕ → Option ℕ → ℕ → Result TaskWidthPlacement
plan_task_width executors task_cpus operator_cap peak headroom = do
  slots ← compute_slots executors task_cpus
  (counts, memory_cap) ← memory_limits executors task_cpus peak headroom
  require (valid_cap operator_cap) inventory_error
  let planned = capped operator_cap (capped memory_cap slots)
  require (leb 1 planned) inventory_error
  ok (record {
    task_cpus = task_cpus;
    slots = slots;
    memory_cap = memory_cap;
    operator_cap = operator_cap;
    planned_task_count = planned;
    executors = executors;
    per_executor_safe_tasks = counts;
  })
