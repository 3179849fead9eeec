-- ===== src/Executors/Tests.antt =====
-- Executors of two sizes, and the theorems at them.
use people_counter.Prelude.{
  ◌≡◌, ◌≤◌, refl, arith, none, some, List, [], ◌∷◌, All, length, ok, err, inventory_error, ◌>>=◌,
  require,
}
use people_counter.Prelude.Rows.{every}
use people_counter.Executors.{
  ExecutorRecord, cores_slots, compute_slots, compute_memory_cap, conservative_task_cpus,
  least_memory, memory_slots, per_executor_memory_slots, assert_minimum_videos_per_group,
}
use people_counter.Executors.Width.{
  TaskWidthPlacement, plan_task_width, placements, assert_executor_placement_safe, memory_limits,
}
use people_counter.Executors.Safety.{
  IsPlaced, plan_task_width-IsPlaced, conservative_task_cpus-plan_task_width,
}

abbrev executors : List ExecutorRecord
executors =
    record { executor_id = "1"; host = "a"; total_cores = 4; max_memory_bytes = 1000 }
    ∷ record { executor_id = "2"; host = "b"; total_cores = 2; max_memory_bytes = 600 }
    ∷ []

abbrev placement : TaskWidthPlacement
placement = record {
  task_cpus = 2;
  slots = 3;
  memory_cap = some 4;
  operator_cap = some 5;
  planned_task_count = 3;
  executors = executors;
  per_executor_safe_tasks = 2 ∷ 1 ∷ [];
}

abbrev IsRun : Type 0
IsRun = plan_task_width executors 2 (some 5) (some 200) 200 ≡ ok placement

run : IsRun
unfolding plan_task_width compute_slots memory_limits assert_executor_placement_safe placements
    per_executor_memory_slots memory_slots compute_memory_cap least_memory ◌>>=◌ require
run = refl

-- A width of one core would let the larger executor run four tasks.
one_core_refused : plan_task_width executors 1 (some 5) (some 250) 200 ≡ err inventory_error
unfolding plan_task_width compute_slots memory_limits assert_executor_placement_safe placements
    per_executor_memory_slots memory_slots compute_memory_cap least_memory ◌>>=◌ require
one_core_refused = refl

widest : conservative_task_cpus executors ≡ ok 4
unfolding conservative_task_cpus ◌>>=◌
widest = refl

short_group : assert_minimum_videos_per_group (3 ∷ 1 ∷ []) 4 2 ≡ err inventory_error
unfolding assert_minimum_videos_per_group every ◌>>=◌ require
short_group = refl

plan_task_width-IsPlaced_example : IsPlaced executors 2 200 200 (some 5) placement
plan_task_width-IsPlaced_example =
    plan_task_width-IsPlaced executors 2 200 200 (some 5) placement run

conservative_task_cpus-plan_task_width_example :
    (p : TaskWidthPlacement) × (plan_task_width executors 4 none none 200 ≡ ok p)
    × (1 ≤ p.planned_task_count)
    × (p.planned_task_count ≤ length executors)
    × All (λ e. cores_slots 4 e ≤ 1) executors
conservative_task_cpus-plan_task_width_example =
    conservative_task_cpus-plan_task_width executors 4 200 (omega arith, (omega arith, tt)) widest
