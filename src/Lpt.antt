-- ===== src/Lpt.antt =====
-- The longest-processing-time projection of src/people_counter/sjd_control.py
-- (`_lpt_makespan_seconds`): durations are whole ticks, and the costs of the workers are a list.
mod Assign
pub mod Bound
pub mod Tests
use people_counter.Prelude.{
  ℕ, zero, suc, ◌+◌, String, Bool, true, false, ◌&&◌, ◌||◌, List, [], ◌∷◌, replicate, maximum, min,
  leb, ltb, nat_eq, if◌then◌else◌,
}
use people_counter.Prelude.Sorting.{sort}
use people_counter.Prelude.Texts.{str_leb}

pub record Job : Type 0 where
  pub work_id : String
  pub duration_seconds : ℕ

-- `key=(-duration_seconds, work_id)`
abbrev pub longer_first : Job → Job → Bool
longer_first a b =
    ltb b.duration_seconds a.duration_seconds
    || (nat_eq a.duration_seconds b.duration_seconds && str_leb a.work_id b.work_id)

-- The least cost; the list is not empty where the code takes it.
unfoldable pub least : ℕ → List ℕ → ℕ
least c [] = c
least c (d ∷ ds) = min c (least d ds)

-- `costs[target] += duration` at the first worker whose cost is the least one, `low`.
unfoldable pub add_first : ℕ → ℕ → List ℕ → List ℕ
add_first low d [] = []
add_first low d (c ∷ cs) = if nat_eq c low then (c + d) ∷ cs else c ∷ add_first low d cs

-- One round of the loop: the next job goes to the least loaded worker.
unfoldable pub assign : ℕ → List ℕ → List ℕ
unfolding least add_first
assign d [] = []
assign d (c ∷ cs) = add_first (least c cs) d (c ∷ cs)

unfoldable pub assign_all : List Job → List ℕ → List ℕ
unfolding assign
assign_all [] costs = costs
assign_all (j ∷ js) costs = assign_all js (assign j.duration_seconds costs)

unfoldable pub lpt_makespan : List Job → ℕ → ℕ
unfolding assign_all sort
lpt_makespan jobs workers = maximum (assign_all (sort longer_first jobs) (replicate workers 0))
