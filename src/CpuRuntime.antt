-- ===== src/CpuRuntime.antt =====
-- The thread budgets of src/people_counter/cpu_runtime.py: `calculate_thread_budget` and
-- `calculate_placement_safe_thread_budget`.
pub mod Safety
pub mod Tests
use people_counter.Prelude.{
  ℕ, ◌/◌, min, max, Bool, ◌&&◌, ◌||◌, Option, none, List, [], ◌∷◌, ltb, leb, nat_eq, if◌then◌else◌,
  Result, ok, err, value_error, ◌>>=◌, ◌>>◌, require,
}

pub record ThreadBudget : Type 0 where
  pub driver_cores : ℕ
  pub active_workers : ℕ
  pub threads_per_worker : ℕ
  pub interop_threads_configured : Option Bool

unfoldable pub calculate_thread_budget : ℕ → ℕ → Result ThreadBudget
calculate_thread_budget driver_cores active_workers = do
  require (leb 1 driver_cores) value_error
  require (leb 1 active_workers) value_error
  ok (record {
    driver_cores = driver_cores;
    active_workers = active_workers;
    threads_per_worker = max 1 (driver_cores / active_workers);
    interop_threads_configured = none;
  })

-- `min(planned_concurrency, scheduler_slots)`
abbrev pub colocated_workers : ℕ → ℕ → ℕ → ℕ
colocated_workers task_cpus planned_concurrency cores = min planned_concurrency (cores / task_cpus)

-- One round of the loop, before the candidates of the later executors.
unfoldable pub candidate : ℕ → ℕ → ℕ → List ThreadBudget → Result (List ThreadBudget)
candidate task_cpus planned_concurrency cores later =
    if ltb (cores / task_cpus) 1 then ok later else do
      budget ← calculate_thread_budget cores (colocated_workers task_cpus planned_concurrency cores)
      ok (budget ∷ later)

unfoldable pub candidates : ℕ → ℕ → List ℕ → Result (List ThreadBudget)
unfolding candidate
candidates task_cpus planned_concurrency [] = ok []
candidates task_cpus planned_concurrency (cores ∷ executor_cores) = do
  require (leb 1 cores) value_error
  later ← candidates task_cpus planned_concurrency executor_cores
  candidate task_cpus planned_concurrency cores later

-- The order of the tuples of threads, cores and workers.
unfoldable pub is_below : ThreadBudget → ThreadBudget → Bool
is_below a b =
    ltb a.threads_per_worker b.threads_per_worker
    || (nat_eq a.threads_per_worker b.threads_per_worker
        && (ltb a.driver_cores b.driver_cores
            || (nat_eq a.driver_cores b.driver_cores && ltb a.active_workers b.active_workers)))

-- `min(candidates, key=...)` of a list that is not empty: the first of the least ones.
unfoldable pub least_budget : ThreadBudget → List ThreadBudget → ThreadBudget
unfolding is_below
least_budget b [] = b
least_budget b (c ∷ cs) = let later = least_budget c cs in if is_below later b then later else b

-- `if not candidates: raise`
unfoldable pub pick : List ThreadBudget → Result ThreadBudget
unfolding least_budget
pick [] = err value_error
pick (b ∷ bs) = ok (least_budget b bs)

unfoldable pub calculate_placement_safe_thread_budget : List ℕ → ℕ → ℕ → Result ThreadBudget
calculate_placement_safe_thread_budget executor_cores task_cpus planned_concurrency = do
  require (leb 1 task_cpus) value_error
  require (leb 1 planned_concurrency) value_error
  found ← candidates task_cpus planned_concurrency executor_cores
  pick found
