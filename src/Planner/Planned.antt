-- ===== src/Planner/Planned.antt =====
-- What a plan that `plan_duration_lpt` returns does with the items, and that there is one.
use people_counter.Prelude.{
  ℕ, zero, suc, ◌+◌, ◌≤◌, ◌<◌, ◌≡◌, refl, sym, ap, ◌∙◌, String, true, Option, none, some, List, [],
  ◌∷◌, ◌++◌, map, arith, All, sum, maximum, replicate, length, ltb, min, ok, ◌>>=◌, require, ok_inj,
  Returns, Returns-bind, Returns-ok, Returns-err, Returns-require, ◌==◌,
}
use people_counter.Prelude.Rows.{every}
use people_counter.Prelude.Sorting.{sort, sort-perm, length-sort}
use mathlib.Core.List.{Perm}
use mathlib.Core.List.Perm
use people_counter.Lpt.{lpt_makespan}
use people_counter.Planner.{
  ExecutionProfile, ConcurrencyDecision, memory_limit, limited, conservative_concurrency,
}
use people_counter.Planner.Envelope.{EnvelopeItem}
use people_counter.Planner.Plan.{
  longest_first, least_index, fill, PlannedItem, BucketPlan, ExecutionPlan, planned_items,
  physical_partition, planned_buckets, bucket_items, waves_of, check_groups, plan_duration_lpt,
}
use people_counter.Planner.Buckets.{
  item_job, concat, load, loads, fill-IsFilled, map-sort, loads-replicate, concat-replicate,
}
use people_counter.Planner.Waves.{
  wave_items, wave_items-waves_of, OfWave, IsCosted, waves_of-OfWave,
}

-- `n`, `n + 1` and so on, `count` numbers
abbrev pub up_from : ℕ → ℕ → List ℕ
up_from n zero = []
up_from n (suc count) = n ∷ up_from (n + 1) count

-- The cost of a bucket is the work of its items.
abbrev pub IsTotalled : BucketPlan → Type 0
IsTotalled b = b.total_cost_seconds ≡ sum (map (λ i. i.planned_cost_seconds) b.items)

pub record IsLaid (n : ℕ) (buckets : List (List EnvelopeItem)) (plans : List BucketPlan)
    : Type 0 where
  pub count : length plans ≡ length buckets
  pub contents : map (λ i. i.item) (bucket_items plans) ≡ concat buckets
  pub totals : All IsTotalled plans
  pub partitions : map (λ b. b.physical_partition) plans ≡ up_from n (length buckets)

planned_costs :
    (n m wave : ℕ) (is : List EnvelopeItem)
    → load is ≡ sum (map (λ i. i.planned_cost_seconds) (planned_items n m wave is))
unfolding planned_items
planned_costs n m wave [] = refl
planned_costs n m wave (i ∷ is) = omega (arith, planned_costs n m (wave + 1) is)

planned_contents :
    (n m wave : ℕ) (is : List EnvelopeItem) (rest : List PlannedItem)
    → map (λ i. i.item) (planned_items n m wave is ++ rest) ≡ (is ++ map (λ i. i.item) rest)
unfolding planned_items
planned_contents n m wave [] rest = refl
planned_contents n m wave (i ∷ is) rest =
    ap (λ (r : List EnvelopeItem). i ∷ r) (planned_contents n m (wave + 1) is rest)

-- The loop over the buckets returns, as there are partitions enough.
planned_buckets-IsLaid :
    (p : ExecutionProfile) (key : String) (n : ℕ) (buckets : List (List EnvelopeItem))
    → n + length buckets ≤ p.planned_task_count
    → (plans : List BucketPlan) × (planned_buckets p key n buckets (loads buckets) ≡ ok plans)
      × IsLaid n buckets plans
unfolding planned_buckets physical_partition ◌>>=◌
planned_buckets-IsLaid p key n [] h =
    ([], refl, record { count = refl; contents = refl; totals = tt; partitions = refl })
planned_buckets-IsLaid p key n (b ∷ bs) h =
    let inside : ltb n p.planned_task_count ≡ true = ground arith in
    let (plans, run, laid) = planned_buckets-IsLaid p key (n + 1) bs (omega arith) in
    (
      record {
        bucket_id = n;
        runtime_key = key;
        physical_partition = n;
        total_cost_seconds = load b;
        items = planned_items n n 0 b;
      }
          ∷ plans,
      rw (inside, run) refl,
      record {
        count = ap suc laid.count;
        contents =
            planned_contents n n 0 b (bucket_items plans)
            ∙ ap (λ (r : List EnvelopeItem). b ++ r) laid.contents;
        totals = (planned_costs n n 0 b, laid.totals);
        partitions = ap (λ (r : List ℕ). n ∷ r) laid.partitions;
      },
    )

-- What a plan promises of the claimed items.
pub record IsPlan (items : List EnvelopeItem) (p : ExecutionProfile) (plan : ExecutionPlan)
    : Type 0 where
  pub some_bucket : 1 ≤ plan.concurrency.concurrency
  pub within_items : plan.concurrency.concurrency ≤ length items
  pub buckets : length plan.buckets ≡ plan.concurrency.concurrency
  pub partitions :
      map (λ b. b.physical_partition) plan.buckets ≡ up_from 0 plan.concurrency.concurrency
  pub placed : Perm (map (λ i. i.item) (bucket_items plan.buckets)) items
  pub totals : All IsTotalled plan.buckets
  pub waved : Perm (wave_items plan.waves) (bucket_items plan.buckets)
  pub waves : All (λ w. OfWave w × IsCosted w) plan.waves
  pub makespan :
      plan.projected_makespan_seconds
      ≡ lpt_makespan (map item_job items) plan.concurrency.concurrency

-- The buckets and the plans for some items at a concurrency.
record IsLayout (items : List EnvelopeItem) (p : ExecutionProfile) (key : String) (n : ℕ)
    : Type 0 where
  filled : List (List EnvelopeItem) × List ℕ
  plans : List BucketPlan
  fills : fill (sort longest_first items) (replicate n []) (replicate n 0) ≡ ok filled
  plans_of : planned_buckets p key 0 filled.0 filled.1 ≡ ok plans
  count : length plans ≡ n
  partitions : map (λ b. b.physical_partition) plans ≡ up_from 0 n
  placed : Perm (map (λ i. i.item) (bucket_items plans)) items
  totals : All IsTotalled plans
  makespan : maximum filled.1 ≡ lpt_makespan (map item_job items) n

length-replicate : {A : Type 0} (n : ℕ) (a : A) → length (replicate n a) ≡ n
length-replicate zero a = refl
length-replicate (suc n) a = ap suc (length-replicate n a)

append_nil : {A : Type 0} (a : List A) → (a ++ []) ≡ a
append_nil [] = refl
append_nil {A = A} (x ∷ a) = ap (λ (r : List A). x ∷ r) (append_nil a)

layout :
    (items : List EnvelopeItem) (p : ExecutionProfile) (key : String) (n : ℕ)
    → 0 < n
    → n ≤ p.planned_task_count
    → IsLayout items p key n
unfolding lpt_makespan
layout items p key n pos h =
    let sorted = sort longest_first items in
    let size = length-replicate {A = List EnvelopeItem} n [] in
    let (r, run, filled) =
      fill-IsFilled sorted (replicate n []) (replicate n 0) (omega (arith, size))
        (loads-replicate n) in
    let count = filled.count ∙ size in
    let (plans, planned, laid) = planned_buckets-IsLaid p key 0 r.0 (omega (arith, count)) in
    record {
      filled = r;
      plans = plans;
      fills = run;
      plans_of = rw filled.loaded planned;
      count = laid.count ∙ count;
      partitions = laid.partitions ∙ ap (up_from 0) count;
      placed = rw laid.contents (
          Perm.trans
            (rw (concat-replicate {A = EnvelopeItem} n, append_nil sorted) at filled.placed)
            (sort-perm longest_first items));
      totals = laid.totals;
      makespan = ap maximum (filled.costs ∙ rw (← loads-replicate n, map-sort items) refl);
    }

-- Without a bucket there is no plan.
no_bucket :
    (is : List EnvelopeItem) {r : List (List EnvelopeItem) × List ℕ}
    → fill is [] [] ≡ ok r
    → length is ≡ 0
unfolding fill least_index ◌>>=◌
no_bucket [] e = refl
no_bucket (i ∷ is) e = cc

pub concurrency_within :
    (count : ℕ) (p : ExecutionProfile) (peak : Option ℕ)
    → Returns
        (λ d. (d.concurrency ≤ count) × (d.concurrency ≤ p.planned_task_count))
        (conservative_concurrency count p peak)
unfolding conservative_concurrency
concurrency_within count p peak = Returns-require _ _ _ λ _.
    Returns-require _ _ _
      λ _. Returns-bind (memory_limit p peak) _ λ memory _. Returns-ok _ (limited_le memory _)
  where
    limited_le :
        (memory : Option ℕ) (cpus : ℕ)
        → let n = limited memory (min (min count p.planned_task_count) cpus) in
          (n ≤ count) × (n ≤ p.planned_task_count)
    limited_le none cpus = omega arith
    limited_le (some m) cpus = omega arith

planned_layout :
    (items : List EnvelopeItem) (p : ExecutionProfile) (key : String) (d : ConcurrencyDecision)
    (r : List (List EnvelopeItem) × List ℕ) (plans : List BucketPlan)
    → fill (sort longest_first items) (replicate d.concurrency []) (replicate d.concurrency 0)
      ≡ ok r
    → planned_buckets p key 0 r.0 r.1 ≡ ok plans
    → 0 < d.concurrency
    → d.concurrency ≤ length items
    → IsLayout items p key d.concurrency
    → IsPlan items p (record {
      concurrency = d;
      buckets = plans;
      waves = waves_of plans;
      projected_makespan_seconds = maximum r.1;
    })
planned_layout items p key d r plans run planned pos a l =
    let same_fill : l.filled ≡ r = ok_inj (sym l.fills ∙ run) in
    let same : l.plans ≡ plans = ok_inj (sym l.plans_of ∙ rw (← same_fill) at planned) in
    record {
      some_bucket = omega arith;
      within_items = a;
      buckets = rw (← same) l.count;
      partitions = rw (← same) l.partitions;
      placed = rw (← same) l.placed;
      totals = rw (← same) l.totals;
      waved = wave_items-waves_of plans;
      waves = waves_of-OfWave plans;
      makespan = rw (← same_fill) l.makespan;
    }

some_bucket :
    (items : List EnvelopeItem) (n : ℕ) {r : List (List EnvelopeItem) × List ℕ}
    → 0 < length items
    → fill (sort longest_first items) (replicate n []) (replicate n 0) ≡ ok r
    → 0 < n
some_bucket items zero h e =
    absurd (omega (arith, no_bucket (sort longest_first items) e, length-sort longest_first items))
some_bucket items (suc n) h e = omega arith

returned-IsPlan :
    (items : List EnvelopeItem) (p : ExecutionProfile) (peak minimum : Option ℕ)
    → Returns (IsPlan items p) (plan_duration_lpt items p peak minimum)
unfolding plan_duration_lpt
returned-IsPlan [] p peak minimum = Returns-err _
returned-IsPlan (i ∷ is) p peak minimum =
    Returns-bind (conservative_concurrency (length (i ∷ is)) p peak) _ λ d e.
      Returns-require _ _ _ λ _. Returns-bind _ _ λ r run. Returns-bind _ _ λ _ _.
        Returns-bind _ _ λ plans planned.
          let (a, b) = (concurrency_within (length (i ∷ is)) p peak).at d e in
          let some = some_bucket (i ∷ is) d.concurrency (omega arith) run in
          Returns-ok _ (
            planned_layout (i ∷ is) p i.runtime_key d r plans run planned some a
              (layout (i ∷ is) p i.runtime_key d.concurrency some b))

-- If `plan_duration_lpt` returns a plan for some items, then it has between one bucket and as many as
-- the items, on the physical partitions 0, 1 and so on; every item is planned in the buckets exactly
-- once, and every planned item is in the waves exactly once, in the wave of its index; the cost of a
-- bucket is the sum of its items' costs, the cost of a wave is at least each of its items'; and the
-- projected makespan is the one that the control store projects for these items and that many workers.
pub plan_duration_lpt-IsPlan :
    (items : List EnvelopeItem) (p : ExecutionProfile) (peak minimum_videos : Option ℕ)
    (plan : ExecutionPlan)
    → plan_duration_lpt items p peak minimum_videos ≡ ok plan
    → IsPlan items p plan
plan_duration_lpt-IsPlan items p peak minimum plan e =
    (returned-IsPlan items p peak minimum).at plan e

-- With a bucket or more, no more than the planned task count, the items of one runtime have a plan.
pub plan_duration_lpt-ok :
    (i : EnvelopeItem) (is : List EnvelopeItem) (p : ExecutionProfile) (peak : Option ℕ)
    (d : ConcurrencyDecision)
    → conservative_concurrency (length (i ∷ is)) p peak ≡ ok d
    → 0 < d.concurrency
    → d.concurrency ≤ p.planned_task_count
    → every (λ j. j.runtime_key == i.runtime_key) is ≡ true
    → (plan : ExecutionPlan) × (plan_duration_lpt (i ∷ is) p peak none ≡ ok plan)
      × (plan.concurrency ≡ d)
unfolding plan_duration_lpt check_groups ◌>>=◌ require
plan_duration_lpt-ok i is p peak d e pos h same =
    let l = layout (i ∷ is) p i.runtime_key d.concurrency pos h in
    (
      record {
        concurrency = d;
        buckets = l.plans;
        waves = waves_of l.plans;
        projected_makespan_seconds = maximum l.filled.1;
      },
      rw (e, same, l.fills, l.plans_of) refl,
      refl,
    )
