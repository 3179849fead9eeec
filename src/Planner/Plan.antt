-- ===== src/Planner/Plan.antt =====
-- `plan_duration_lpt` and `admit_lease` of src/people_counter/sjd_process.py: the longest item first,
-- each to the least loaded bucket, and the buckets cut into waves.
use people_counter.Prelude.{
  ℕ, zero, suc, ◌+◌, ◌-◌, ◌*◌, String, Bool, ◌&&◌, ◌||◌, Option, none, some, List, [], ◌∷◌, ◌++◌,
  map, maximum, replicate, length, ltb, leb, nat_eq, ◌==◌, if◌then◌else◌, Result, ok, err,
  value_error, process_error, lease_admission, index_error, ◌>>=◌, ◌>>◌, require,
}
use people_counter.Prelude.Rows.{every}
use people_counter.Prelude.Sorting.{sort}
use people_counter.Prelude.Texts.{str_leb}
use people_counter.Lpt.{least}
use people_counter.Executors.{assert_minimum_videos_per_group}
use people_counter.Planner.{
  ExecutionProfile, as_process_error, ConcurrencyDecision, conservative_concurrency,
}
use people_counter.Planner.Envelope.{EnvelopeItem}

-- `key=(-duration_seconds, work_id)`
abbrev pub longest_first : EnvelopeItem → EnvelopeItem → Bool
longest_first i j =
    ltb j.duration_seconds i.duration_seconds
    || (nat_eq i.duration_seconds j.duration_seconds && str_leb i.work_id j.work_id)

-- The first index whose cost is `low`.
unfoldable pub first_index : ℕ → List ℕ → ℕ
first_index low [] = 0
first_index low (c ∷ cs) = let rest = first_index low cs in if nat_eq c low then 0 else suc rest

-- `min(range(concurrency), key=lambda index: (costs[index], index))`
unfoldable pub least_index : List ℕ → Result ℕ
unfolding first_index least
least_index [] = err value_error
least_index (c ∷ cs) = ok (first_index (least c cs) (c ∷ cs))

-- `buckets[index].append(item)`
unfoldable pub append_at {ℓ} : {A : Type ℓ} → ℕ → A → List (List A) → List (List A)
append_at n a [] = []
append_at zero a (b ∷ bs) = (b ++ a ∷ []) ∷ bs
append_at (suc n) a (b ∷ bs) = b ∷ append_at n a bs

-- `costs[index] += duration`
unfoldable pub add_at : ℕ → ℕ → List ℕ → List ℕ
add_at n d [] = []
add_at zero d (c ∷ cs) = (c + d) ∷ cs
add_at (suc n) d (c ∷ cs) = c ∷ add_at n d cs

-- The loop over the sorted items.
unfoldable pub fill :
    List EnvelopeItem
    → List (List EnvelopeItem)
    → List ℕ
    → Result (List (List EnvelopeItem) × List ℕ)
unfolding least_index append_at add_at
fill [] buckets costs = ok (buckets, costs)
fill (i ∷ is) buckets costs = do
  target ← least_index costs
  fill is (append_at target i buckets) (add_at target i.duration_seconds costs)

pub record PlannedItem : Type 0 where
  pub item : EnvelopeItem
  pub bucket_id : ℕ
  pub physical_partition : ℕ
  pub wave_index : ℕ
  pub planned_cost_seconds : ℕ

pub record BucketPlan : Type 0 where
  pub bucket_id : ℕ
  pub runtime_key : String
  pub physical_partition : ℕ
  pub total_cost_seconds : ℕ
  pub items : List PlannedItem

pub record WavePlan : Type 0 where
  pub index : ℕ
  pub projected_cost_seconds : ℕ
  pub items : List PlannedItem

pub record ExecutionPlan : Type 0 where
  pub concurrency : ConcurrencyDecision
  pub buckets : List BucketPlan
  pub waves : List WavePlan
  pub projected_makespan_seconds : ℕ

-- The planned items of one bucket, from the wave on.
unfoldable pub planned_items : ℕ → ℕ → ℕ → List EnvelopeItem → List PlannedItem
planned_items bucket_id physical wave [] = []
planned_items bucket_id physical wave (i ∷ is) =
    record {
      item = i;
      bucket_id = bucket_id;
      physical_partition = physical;
      wave_index = wave;
      planned_cost_seconds = i.duration_seconds;
    }
    ∷ planned_items bucket_id physical (wave + 1) is

-- `profile.physical_partitions[bucket_id]`, of `tuple(range(planned_task_count))`
unfoldable pub physical_partition : ExecutionProfile → ℕ → Result ℕ
physical_partition p bucket_id =
    if ltb bucket_id p.planned_task_count then ok bucket_id else err index_error

-- The loop over the buckets, from `bucket_id` on, each with its cost.
unfoldable pub planned_buckets :
    ExecutionProfile → String → ℕ → List (List EnvelopeItem) → List ℕ → Result (List BucketPlan)
unfolding planned_items physical_partition
planned_buckets p key bucket_id [] costs = ok []
planned_buckets p key bucket_id (b ∷ bs) [] = err index_error
planned_buckets p key bucket_id (b ∷ bs) (c ∷ cs) = do
  physical ← physical_partition p bucket_id
  rest ← planned_buckets p key (bucket_id + 1) bs cs
  ok (
      record {
        bucket_id = bucket_id;
        runtime_key = key;
        physical_partition = physical;
        total_cost_seconds = c;
        items = planned_items bucket_id physical 0 b;
      }
      ∷ rest)

-- `planned_by_wave.setdefault(planned.wave_index, []).append(planned)`: an entry of the dictionary is a
-- wave whose cost `finish_wave` sets.
unfoldable pub add_to_wave : PlannedItem → List WavePlan → List WavePlan
add_to_wave i [] =
    record { index = i.wave_index; projected_cost_seconds = i.planned_cost_seconds; items = i ∷ [] }
    ∷ []
add_to_wave i (w ∷ ws) =
    let rest = add_to_wave i ws in
    if nat_eq w.index i.wave_index then record w { items = w.items ++ i ∷ [] } ∷ ws else w ∷ rest

unfoldable pub group_waves : List PlannedItem → List WavePlan → List WavePlan
unfolding add_to_wave
group_waves [] waves = waves
group_waves (i ∷ is) waves = group_waves is (add_to_wave i waves)

-- `item.bucket_id` and `sorted(planned_by_wave)`
abbrev pub bucket_order : PlannedItem → PlannedItem → Bool
bucket_order i j = leb i.bucket_id j.bucket_id

abbrev pub wave_order : WavePlan → WavePlan → Bool
wave_order v w = leb v.index w.index

-- The wave once its items are known.
abbrev pub finish_wave : WavePlan → WavePlan
finish_wave w = record w {
  projected_cost_seconds = maximum (map (λ i. i.planned_cost_seconds) w.items);
  items = sort bucket_order w.items;
}

abbrev pub bucket_items : List BucketPlan → List PlannedItem
bucket_items [] = []
bucket_items (b ∷ bs) = b.items ++ bucket_items bs

unfoldable pub waves_of : List BucketPlan → List WavePlan
unfolding group_waves sort
waves_of buckets = map finish_wave (sort wave_order (group_waves (bucket_items buckets) []))

-- `len(bucket)` of each bucket
abbrev pub sizes : List (List EnvelopeItem) → List ℕ
sizes [] = []
sizes (b ∷ bs) = length b ∷ sizes bs

unfoldable pub check_groups : Option ℕ → List (List EnvelopeItem) → ℕ → Result (Unit {0})
check_groups none buckets total = ok tt
check_groups (some minimum) buckets total =
    as_process_error (assert_minimum_videos_per_group (sizes buckets) total minimum)

unfoldable pub plan_duration_lpt :
    List EnvelopeItem → ExecutionProfile → Option ℕ → Option ℕ → Result ExecutionPlan
unfolding fill planned_buckets waves_of check_groups
plan_duration_lpt [] p peak minimum_videos = err process_error
plan_duration_lpt (i ∷ is) p peak minimum_videos = do
  decision ← conservative_concurrency (length (i ∷ is)) p peak
  require (every (λ j. j.runtime_key == i.runtime_key) is) process_error
  (buckets, costs) ←
      fill (sort longest_first (i ∷ is)) (replicate decision.concurrency [])
        (replicate decision.concurrency 0)
  check_groups minimum_videos buckets (length (i ∷ is))
  planned ← planned_buckets p i.runtime_key 0 buckets costs
  ok (record {
    concurrency = decision;
    buckets = planned;
    waves = waves_of planned;
    projected_makespan_seconds = maximum costs;
  })

-- `remaining <= required`, after multiplying by the speed: with `now` at the end of the lease or after
-- it, nothing remains. The result is the projected finish in units of `1 / speed`.
unfoldable pub admit_lease : ExecutionPlan → ExecutionProfile → ℕ → ℕ → Result ℕ
admit_lease plan p lease_expires_at now = do
  require (leb 1 p.minimum_speed_x) value_error
  let projected = plan.projected_makespan_seconds * p.lease_safety_factor
  let required = projected + p.lease_margin_seconds * p.minimum_speed_x
  require (ltb required ((lease_expires_at - now) * p.minimum_speed_x)) lease_admission
  ok projected
