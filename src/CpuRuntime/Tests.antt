-- ===== src/CpuRuntime/Tests.antt =====
-- Executors of four and two cores, for tasks of two processors.
use people_counter.Prelude.{
  ◌≡◌, refl, arith, inl, List, [], ◌∷◌, All, ok, none, ◌>>=◌, require, ℕ, ◌≤◌,
}
use people_counter.CpuRuntime
use people_counter.CpuRuntime.{ThreadBudget, calculate_placement_safe_thread_budget}
use people_counter.CpuRuntime.Safety.{IsWithin, calculate_placement_safe_thread_budget-IsWithin}

abbrev executor_cores : List ℕ
executor_cores = 5 ∷ 3 ∷ 1 ∷ []

abbrev budget : ThreadBudget
budget = record {
  driver_cores = 5;
  active_workers = 2;
  threads_per_worker = 2;
  interop_threads_configured = none;
}

run : calculate_placement_safe_thread_budget executor_cores 2 4 ≡ ok budget
unfolding calculate_placement_safe_thread_budget CpuRuntime.candidates CpuRuntime.candidate
    CpuRuntime.calculate_thread_budget CpuRuntime.pick CpuRuntime.least_budget CpuRuntime.is_below
    ◌>>=◌ require
run = refl

calculate_placement_safe_thread_budget-IsWithin_example :
    (b : ThreadBudget) × (calculate_placement_safe_thread_budget executor_cores 2 4 ≡ ok b)
    × All (IsWithin 2 4 b.threads_per_worker) executor_cores
    × (2 ≤ b.threads_per_worker)
calculate_placement_safe_thread_budget-IsWithin_example =
    calculate_placement_safe_thread_budget-IsWithin executor_cores 2 4 5 (omega arith) (omega arith)
      (omega arith, (omega arith, (omega arith, tt))) (inl refl) (omega arith)
