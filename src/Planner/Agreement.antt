-- ===== src/Planner/Agreement.antt =====
-- The control store and the process admit alike: what a claim admits by the store's projection, the
-- process plans with the same makespan and admits at the time of the claim.
use people_counter.Prelude.{
  ℕ, ◌+◌, ◌-◌, ◌*◌, ◌/◌, ◌≤◌, ◌≡◌, refl, sym, ap, ◌∙◌, min, String, true, false, not, is_some, ◌||◌,
  Option, none, some, List, [], ◌∷◌, map, arith, All, length, length-map, ltb, leb, le→leb, ◌==◌,
  eq_iff, ok, ◌>>=◌, require, Returns, Returns-ok, Returns-err, Returns-require, Returns-bind,
  Returns-if,
}
use people_counter.Prelude.Rows.{every}
use people_counter.Control.Tables.{Work}
use people_counter.Control.Texts.{positive}
use people_counter.Control.Admission.{
  Profile, Admission, Settings, memory_workers, profile_settings, claim_admission_settings, job,
  projection, fits,
}
use people_counter.Control.Admission.Budget.{claim_admission_settings-IsUsable}
use people_counter.Lpt.{Job, lpt_makespan}
use people_counter.Planner.{
  ExecutionProfile, ConcurrencyDecision, memory_limit, limited, conservative_concurrency,
}
use people_counter.Planner.Envelope.{EnvelopeItem}
use people_counter.Planner.Plan.{ExecutionPlan, plan_duration_lpt, admit_lease}
use people_counter.Planner.Buckets.{item_job}
use people_counter.Planner.Planned.{
  concurrency_within, plan_duration_lpt-ok, plan_duration_lpt-IsPlan,
}

-- The attributes of the profile that the control store reads.
unfoldable pub claim_view : ExecutionProfile → Profile
claim_view p = record {
  name = p.name;
  minimum_speed_x = p.minimum_speed_x;
  lease_safety_factor = p.lease_safety_factor;
  lease_margin_seconds = p.lease_margin_seconds;
  executor_instances = p.executor_instances;
  executor_cores = p.executor_cores;
  task_cpus = p.task_cpus;
  executor_memory_bytes = p.executor_memory_bytes;
  memory_reserve_bytes = p.memory_reserve_bytes;
}

same_positive : (n : ℕ) → Returns (λ m. (m ≡ n) × (1 ≤ n)) (positive n)
unfolding positive
same_positive n =
    Returns-if (leb n 0) _ _ (λ _. Returns-err _) (λ e. Returns-ok _ (refl, ground arith))

limit_of :
    (p : ExecutionProfile) (peak : ℕ)
    → 1 ≤ peak
    → ltb (p.executor_memory_bytes - p.memory_reserve_bytes) peak ≡ false
    → memory_limit p (some peak)
      ≡ ok (
          some (p.executor_instances * ((p.executor_memory_bytes - p.memory_reserve_bytes) / peak)))
unfolding memory_limit ◌>>=◌ require
limit_of p peak pos room = rw (le→leb 1 peak pos, room) refl

memory_workers-limited :
    (p : ExecutionProfile) (peak : Option ℕ) (n : ℕ)
    → Returns
        (λ m. (limit : Option ℕ) × (memory_limit p peak ≡ ok limit) × (m ≡ limited limit n))
        (memory_workers peak (claim_view p) n)
unfolding memory_workers memory_limit claim_view
memory_workers-limited p none n = Returns-ok n (none, refl, refl)
memory_workers-limited p (some peak) n = Returns-bind (positive peak) _ λ k e1.
    Returns-bind (positive p.executor_memory_bytes) _ λ memory e2.
      Returns-if (ltb memory p.memory_reserve_bytes || ltb (memory - p.memory_reserve_bytes) k) _ _
        (λ _. Returns-err _)
        λ fit.
          let (q1, pos) = (same_positive peak).at k e1 in
          let (q2, _) = (same_positive p.executor_memory_bytes).at memory e2 in
          Returns-ok _ (
            some (
                p.executor_instances * ((p.executor_memory_bytes - p.memory_reserve_bytes) / peak)),
            limit_of p peak pos (room memory k q1 q2 fit),
            rw (q1, q2) refl,
          )
  where
    room :
        (memory k : ℕ)
        → k ≡ peak
        → memory ≡ p.executor_memory_bytes
        → (ltb memory p.memory_reserve_bytes || ltb (memory - p.memory_reserve_bytes) k) ≡ false
        → ltb (p.executor_memory_bytes - p.memory_reserve_bytes) peak ≡ false
    room memory k q1 q2 fit = ground arith

-- What the settings that a claim accepts for a profile have in common with the process's concurrency.
record IsShared (p : ExecutionProfile) (peak : Option ℕ) (s : Settings) : Type 0 where
  speed : s.speed ≡ p.minimum_speed_x
  factor : s.factor ≡ p.lease_safety_factor
  margin : s.margin ≡ p.lease_margin_seconds
  some_speed : 1 ≤ p.minimum_speed_x
  some_cpu : 1 ≤ p.task_cpus
  limit : Option ℕ
  limited_by : memory_limit p peak ≡ ok limit
  workers :
      s.worker_limit
      ≡ limited limit
          (min p.executor_instances (p.executor_instances * p.executor_cores / p.task_cpus))

profile_settings-IsShared :
    (a : Admission) (p : ExecutionProfile)
    → Returns (IsShared p a.peak_rss_bytes) (profile_settings a (claim_view p))
unfolding profile_settings claim_view
profile_settings-IsShared a p = Returns-bind (positive p.minimum_speed_x) _ λ speed e1.
    Returns-bind (positive p.lease_safety_factor) _ λ factor e2.
      Returns-bind (positive p.lease_margin_seconds) _ λ margin e3.
        Returns-bind (positive p.executor_instances) _ λ instances e4.
          Returns-bind (positive p.executor_cores) _ λ cores e5.
            Returns-bind (positive p.task_cpus) _ λ cpus e6. Returns-require _ _ _ λ _.
              Returns-bind
                (memory_workers a.peak_rss_bytes (claim_view p)
                  (min instances (instances * cores / cpus)))
                _
                λ m e7. Returns-require _ _ _ λ _. Returns-require _ _ _ λ _.
                  Returns-require _ _ _ λ _. Returns-bind _ _ λ name _.
                    let (q1, pos) = (same_positive _).at speed e1 in
                    let (q2, _) = (same_positive _).at factor e2 in
                    let (q3, _) = (same_positive _).at margin e3 in
                    let (q4, _) = (same_positive _).at instances e4 in
                    let (q5, _) = (same_positive _).at cores e5 in
                    let (q6, some_cpu) = (same_positive _).at cpus e6 in
                    let (limit, got, eq) = (memory_workers-limited p a.peak_rss_bytes _).at m e7 in
                    Returns-ok _ (record {
                      speed = q1;
                      factor = q2;
                      margin = q3;
                      some_speed = pos;
                      some_cpu = some_cpu;
                      limit = limit;
                      limited_by = got;
                      workers = eq ∙ rw (q4, q5, q6) refl;
                    })

-- The concurrency of as many items as rows is the projection's number of workers.
concurrency_of :
    (p : ExecutionProfile) (peak : Option ℕ) (s : Settings) (n : ℕ)
    → IsShared p peak s
    → p.planned_task_count ≡ p.executor_instances
    → 1 ≤ n
    → (d : ConcurrencyDecision) × (conservative_concurrency n p peak ≡ ok d)
      × (d.concurrency ≡ min n s.worker_limit)
unfolding conservative_concurrency ◌>>=◌ require
concurrency_of p peak s n h same pos =
    let cpus = p.executor_instances * p.executor_cores / p.task_cpus in
    (
      record {
        concurrency = limited h.limit (min (min n p.planned_task_count) cpus);
        item_limit = n;
        profile_limit = p.planned_task_count;
        cpu_limit = cpus;
        memory_limit = h.limit;
        peak_rss_bytes = peak;
        duration_only_fallback = not (is_some peak);
      },
      rw (le→leb 1 n pos, le→leb 1 p.task_cpus h.some_cpu, h.limited_by) refl,
      rw (h.workers, same) (limited_min h.limit cpus),
    )
  where
    limited_min :
        (limit : Option ℕ) (cpus : ℕ)
        → limited limit (min (min n p.executor_instances) cpus)
          ≡ min n (limited limit (min p.executor_instances cpus))
    limited_min none cpus = omega arith
    limited_min (some m) cpus = omega arith

every_key :
    (k : String) (is : List EnvelopeItem)
    → All (λ i. i.runtime_key ≡ k) is
    → every (λ j. j.runtime_key == k) is ≡ true
unfolding every
every_key k [] h = refl
every_key k (i ∷ is) h = rw ((eq_iff i.runtime_key k).1 h.0, every_key k is h.1) refl

settings-IsShared :
    (a : Admission) (p : ExecutionProfile)
    → a.process_profile ≡ some (claim_view p)
    → (s : Settings) → claim_admission_settings a ≡ ok s
    → IsShared p a.peak_rss_bytes s
unfolding claim_admission_settings
settings-IsShared a p e s settled = (profile_settings-IsShared a p).at s (rw e at settled)

admits :
    (p : ExecutionProfile) (s : Settings) (plan : ExecutionPlan) (lease now : ℕ) (rows : List Work)
    {peak : Option ℕ}
    → IsShared p peak s
    → plan.projected_makespan_seconds ≡ (projection s rows).1
    → fits s lease rows ≡ true
    → admit_lease plan p (now + lease) now
      ≡ ok (plan.projected_makespan_seconds * p.lease_safety_factor)
unfolding admit_lease fits ◌>>=◌ require
admits p s plan lease now rows h makespan fit =
    let remaining : now + lease - now ≡ lease = omega arith in
    rw (le→leb 1 p.minimum_speed_x h.some_speed, remaining)
      (rw (← h.speed, ← h.factor, ← h.margin, makespan, fit) refl)

same_makespan :
    (s : Settings) (rows : List Work) (n : ℕ) {m c : ℕ} {jobs : List Job}
    → m ≡ lpt_makespan jobs c
    → jobs ≡ map job rows
    → c ≡ min n s.worker_limit
    → n ≡ length rows
    → m ≡ (projection s rows).1
unfolding projection
same_makespan s rows n h jobs workers size = rw (h, jobs, workers, size) refl

-- A claim that has a process profile, with one planned task for each executor, admits some rows under
-- its lease. Then the process, given the items of those rows with one runtime key, under the same
-- profile and peak memory, returns a plan whose makespan is the one the claim projected, and
-- `admit_lease` at the time of the claim admits it.
pub fits-admit_lease :
    (a : Admission) (p : ExecutionProfile) (s : Settings) (lease now : ℕ) (rows : List Work)
    (i : EnvelopeItem) (is : List EnvelopeItem)
    → a.process_profile ≡ some (claim_view p)
    → p.planned_task_count ≡ p.executor_instances
    → claim_admission_settings a ≡ ok s
    → fits s lease rows ≡ true
    → map item_job (i ∷ is) ≡ map job rows
    → All (λ j. j.runtime_key ≡ i.runtime_key) is
    → (plan : ExecutionPlan) × (plan_duration_lpt (i ∷ is) p a.peak_rss_bytes none ≡ ok plan)
      × (plan.projected_makespan_seconds ≡ (projection s rows).1)
      × (admit_lease plan p (now + lease) now
          ≡ ok (plan.projected_makespan_seconds * p.lease_safety_factor))
fits-admit_lease a p s lease now rows i is profile tasks settled fit jobs keys =
    let usable = (claim_admission_settings-IsUsable a).at s settled in
    let shared = settings-IsShared a p profile s settled in
    let n = length (i ∷ is) in
    let size : n ≡ length rows =
      sym (length-map item_job (i ∷ is)) ∙ ap length jobs ∙ length-map job rows in
    let (d, decided, workers) = concurrency_of p a.peak_rss_bytes s n shared tasks (omega arith) in
    let within = (concurrency_within n p a.peak_rss_bytes).at d decided in
    let (plan, run, same) =
      plan_duration_lpt-ok i is p a.peak_rss_bytes d decided (omega (arith, usable.workers))
        within.1 (every_key i.runtime_key is keys) in
    let planned = plan_duration_lpt-IsPlan (i ∷ is) p a.peak_rss_bytes none plan run in
    let makespan : plan.projected_makespan_seconds ≡ (projection s rows).1 =
      same_makespan s rows n planned.makespan jobs
        (ap (λ (c : ConcurrencyDecision). c.concurrency) same ∙ workers) size in
    (plan, run, makespan, admits p s plan lease now rows shared makespan fit)
