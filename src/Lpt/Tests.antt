-- ===== src/Lpt/Tests.antt =====
-- Runs of the projection, and the theorems at them.
use people_counter.Prelude.{◌+◌, ◌*◌, ◌≤◌, ◌≡◌, refl, [], ◌∷◌, List, All, arith}
use people_counter.Lpt.{Job, lpt_makespan}
use people_counter.Lpt.Assign.{total}
use people_counter.Lpt.Bound.{lpt_makespan-le, lpt_makespan_covers}

abbrev three : List Job
three =
    record { work_id = "a"; duration_seconds = 3 }
    ∷ record { work_id = "b"; duration_seconds = 5 }
    ∷ record { work_id = "c"; duration_seconds = 4 }
    ∷ []

three_on_two : lpt_makespan three 2 ≡ 7
unfolding lpt_makespan
three_on_two = refl

lpt_makespan-le_example : 2 * lpt_makespan three 2 + 5 ≤ total three + 2 * 5
lpt_makespan-le_example =
    lpt_makespan-le three 2 5 (omega arith) (omega arith, (omega arith, (omega arith, tt)))

lpt_makespan_covers_example :
    (total three ≤ 2 * lpt_makespan three 2)
    × All (λ j. j.duration_seconds ≤ lpt_makespan three 2) three
lpt_makespan_covers_example = lpt_makespan_covers three 2 (omega arith)
