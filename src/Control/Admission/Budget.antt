-- ===== src/Control/Admission/Budget.antt =====
-- What the admission settings and an admitted prefix guarantee.
use people_counter.Prelude.{
  ℕ, zero, suc, ◌+◌, ◌-◌, ◌*◌, ◌/◌, min, ◌≤◌, ◌<◌, ◌≡◌, true, ◌||◌, Option, none, some, List, [],
  ◌∷◌, arith, map, length, ltb, leb, All, All-imp, ok, Returns, Returns-ok, Returns-err,
  Returns-require, Returns-if, Returns-bind, Returns-option, ltb→lt, leb→le,
}
use native.Mathlib.Nat.{mul-pos, mul-le-mul_right, div-add-mod, mod-lt}
use people_counter.Control.Tables.{Work}
use people_counter.Control.Texts.{positive}
use people_counter.Control.Admission.{
  Profile, Admission, Settings, legacy_settings, memory_workers, profile_settings, without_profile,
  claim_admission_settings, job, projection, fits,
}
use people_counter.Lpt.{lpt_makespan}
use people_counter.Lpt.Bound.{lpt_makespan_covers}

pub record IsUsable (s : Settings) : Type 0 where
  pub speed : 0 < s.speed
  pub factor : 0 < s.factor
  pub margin : 0 < s.margin
  pub workers : 0 < s.worker_limit

positive-pos : (n : ℕ) → Returns (λ m. 0 < m) (positive n)
unfolding positive
positive-pos n = Returns-if (leb n 0) _ _ (λ _. Returns-err _) (λ e. Returns-ok _ (ground arith))

positive_same : (n m : ℕ) → positive n ≡ ok m → m ≡ n
unfolding positive
positive_same n m e = ground arith

legacy_settings-IsUsable : (a b c : Option ℕ) → Returns IsUsable (legacy_settings a b c)
unfolding legacy_settings
legacy_settings-IsUsable (some a) (some b) (some c) = Returns-bind (positive a) _ λ x p.
    Returns-bind (positive b) _ λ y q. Returns-bind (positive c) _ λ z r.
      let u = (positive-pos a).at x p in
      let v = (positive-pos b).at y q in
      let w = (positive-pos c).at z r in
      Returns-ok _ (record { speed = u; factor = v; margin = w; workers = omega arith })
legacy_settings-IsUsable none b c = Returns-err _
legacy_settings-IsUsable (some a) none c = Returns-err _
legacy_settings-IsUsable (some a) (some b) none = Returns-err _

memory_workers-pos :
    (peak : Option ℕ) (p : Profile) (limit : ℕ)
    → 0 < limit
    → 0 < p.executor_instances
    → Returns (λ m. 0 < m) (memory_workers peak p limit)
unfolding memory_workers
memory_workers-pos none p limit h i = Returns-ok _ h
memory_workers-pos (some peak_rss) p limit h i = Returns-bind (positive peak_rss) _ λ peak e.
    Returns-bind _ _ λ memory _.
      let pos = (positive-pos peak_rss).at peak e in
      Returns-if (ltb memory p.memory_reserve_bytes || ltb (memory - p.memory_reserve_bytes) peak) _
        _ (λ _. Returns-err _)
        λ n. Returns-ok _ (room (memory - p.memory_reserve_bytes) peak pos (ground arith))
  where
    share : (usable peak : ℕ) → 0 < peak → peak ≤ usable → 0 < usable / peak
    share usable peak a b =
        positive_quotient (usable / peak) (div-add-mod usable peak) (mod-lt usable a)
      where
        positive_quotient : (q : ℕ) {r : ℕ} → peak * q + r ≡ usable → r < peak → 0 < q
        positive_quotient zero e l = absurd (grind arith)
        positive_quotient (suc q) e l = omega arith

    room :
        (usable peak : ℕ)
        → 0 < peak
        → peak ≤ usable
        → 0 < min limit (p.executor_instances * (usable / peak))
    room usable peak a b =
        let q : 0 < p.executor_instances * (usable / peak) = mul-pos i (share usable peak a b) in
        omega arith

profile_settings-IsUsable : (a : Admission) (p : Profile) → Returns IsUsable (profile_settings a p)
unfolding profile_settings
profile_settings-IsUsable a p = Returns-bind (positive p.minimum_speed_x) _ λ speed e1.
    Returns-bind (positive p.lease_safety_factor) _ λ factor e2.
      Returns-bind (positive p.lease_margin_seconds) _ λ margin e3.
        Returns-bind (positive p.executor_instances) _ λ instances e4.
          Returns-bind (positive p.executor_cores) _ λ cores _.
            Returns-bind (positive p.task_cpus) _ λ cpus _. Returns-require _ _ _ λ some_cpu.
              let pos_speed = (positive-pos p.minimum_speed_x).at speed e1 in
              let pos_factor = (positive-pos p.lease_safety_factor).at factor e2 in
              let pos_margin = (positive-pos p.lease_margin_seconds).at margin e3 in
              let pos_instances = (positive-pos p.executor_instances).at instances e4 in
              let kept : instances ≡ p.executor_instances =
                positive_same p.executor_instances instances e4 in
              let cpu_limit : 0 < instances * cores / cpus = leb→le 1 _ some_cpu in
              Returns-bind
                (memory_workers a.peak_rss_bytes p (min instances (instances * cores / cpus))) _
                λ limit e5.
                  let pos_limit =
                    (memory_workers-pos a.peak_rss_bytes p _ (omega arith)
                        (rw kept at pos_instances)).at
                      limit e5 in
                  Returns-require _ _ _ λ _. Returns-require _ _ _ λ _. Returns-require _ _ _ λ _.
                    Returns-bind _ _ λ name _. Returns-ok _ (record {
                      speed = pos_speed;
                      factor = pos_factor;
                      margin = pos_margin;
                      workers = pos_limit;
                    })

pub claim_admission_settings-IsUsable :
    (a : Admission) → Returns IsUsable (claim_admission_settings a)
unfolding claim_admission_settings without_profile
claim_admission_settings-IsUsable a =
    Returns-option a.process_profile _ _
      (λ _.
        Returns-bind (legacy_settings a.minimum_speed_x a.safety_factor a.margin_seconds) _ λ s e.
          Returns-option a.peak_rss_bytes _ _
            (λ _. Returns-ok s (
              (legacy_settings-IsUsable a.minimum_speed_x a.safety_factor a.margin_seconds).at s e))
            (λ peak _. Returns-err _))
      (λ p _. profile_settings-IsUsable a p)

jobs_within :
    (longest : ℕ) (rows : List Work)
    → All (λ j. j.duration_seconds ≤ longest) (map job rows)
    → All (λ w. w.duration_seconds ≤ longest) rows
jobs_within longest [] h = tt
jobs_within longest (w ∷ ws) h = (h.0, jobs_within longest ws h.1)

-- If the settings of an admission are accepted and some rows fit a lease under them, then each of those
-- rows alone, at the slowest speed and with the safety factor and the margin, ends within the lease.
pub fits-within_lease :
    (a : Admission) (s : Settings) (lease : ℕ) (rows : List Work)
    → claim_admission_settings a ≡ ok s
    → 0 < length rows
    → fits s lease rows ≡ true
    → All (λ w. w.duration_seconds * s.factor + s.margin * s.speed < lease * s.speed) rows
unfolding fits projection
fits-within_lease a s lease rows e n h =
    let usable = (claim_admission_settings-IsUsable a).at s e in
    let workers = min (length rows) s.worker_limit in
    let some_worker : 0 < workers = omega (arith, usable.workers) in
    let makespan = lpt_makespan (map job rows) workers in
    let budget : makespan * s.factor + s.margin * s.speed < lease * s.speed = ltb→lt _ _ h in
    All-imp (λ w. w.duration_seconds ≤ makespan) _
      (λ w k.
        let scaled : w.duration_seconds * s.factor ≤ makespan * s.factor =
          mul-le-mul_right s.factor k in
        omega arith)
      rows (jobs_within makespan rows (lpt_makespan_covers (map job rows) workers some_worker).1)
