-- ===== src/Executors/Safety.antt =====
-- What a task width that `plan_task_width` accepts keeps of the executors' cores and memory.
use people_counter.Prelude.{
  ℕ, ◌-◌, ◌*◌, ◌/◌, ◌≤◌, ◌<◌, ◌≡◌, refl, sym, min, max, Bool, true, false, ◌||◌, Option, none, some,
  List, [], ◌∷◌, map, arith, ltb, leb, All, All-imp, sum, length, ok, ◌>>=◌, require, Returns,
  Returns-ok, Returns-err, Returns-require, Returns-bind, Bool-cases, inl, inr, le→leb,
  require_returned, ok_inj,
}
use people_counter.Prelude.Membership.{In, All-In}
use native.Mathlib.Nat.{div-mul-le_self, div-lt_iff_lt-mul, div_self}
use people_counter.Executors.{
  ExecutorRecord, no_executors, cores_slots, compute_slots, memory_slots, per_executor_memory_slots,
  conservative_task_cpus,
}
use people_counter.Executors.Width.{
  placements, assert_executor_placement_safe, TaskWidthPlacement, memory_limits, capped,
  plan_task_width,
}

-- The memory of an executor without the headroom, in thousandths of bytes.
abbrev pub usable : ℕ → ExecutorRecord → ℕ
usable headroom e = e.max_memory_bytes * (1000 - headroom)

-- The executor hosts a task, and all tasks that its cores admit at once fit its usable memory.
abbrev pub Hosts : ℕ → ℕ → ℕ → ExecutorRecord → Type 0
Hosts task_cpus peak headroom e =
    (1 ≤ cores_slots task_cpus e) × (cores_slots task_cpus e * (1000 * peak) ≤ usable headroom e)

fits_memory : (c a b : ℕ) → c ≤ a / b → c * b ≤ a
fits_memory c a b h = grind (arith, div-mul-le_self a b)

-- One round of the loop.
placed :
    (e : ExecutorRecord) (es : List ExecutorRecord) (w peak h memory : ℕ) (r : List ℕ × Bool)
    → leb 1 (cores_slots w e) ≡ true
    → memory ≡ memory_slots h peak e.max_memory_bytes
    → (r.1 ≡ false → All (Hosts w peak h) es × (r.0 ≡ map (cores_slots w) es))
    → (ltb memory (cores_slots w e) || r.1) ≡ false
    → All (Hosts w peak h) (e ∷ es)
      × ((min (cores_slots w e) memory ∷ r.0) ≡ map (cores_slots w) (e ∷ es))
unfolding memory_slots
placed e es w peak h memory (counts, unsafe) one same ih safe =
    let within : cores_slots w e ≤ memory = ground arith in
    let (rest, eq) = ih (ground arith) in
    let least : min (cores_slots w e) memory ≡ cores_slots w e = omega arith in
    (
      (
        (
          ground arith,
          fits_memory (cores_slots w e) (usable h e) (1000 * peak) (rw same at within),
        ),
        rest,
      ),
      rw (least, eq) refl,
    )

placements-Hosts :
    (es : List ExecutorRecord) (w peak h : ℕ)
    → Returns
        (λ r. r.1 ≡ false → All (Hosts w peak h) es × (r.0 ≡ map (cores_slots w) es))
        (placements es w peak h)
unfolding placements per_executor_memory_slots
placements-Hosts [] w peak h = Returns-ok _ (λ _. (tt, refl))
placements-Hosts (e ∷ es) w peak h = Returns-require _ _ _ λ one. Returns-bind _ _ λ memory q.
    Returns-require _ _ _ λ _. Returns-bind _ _ λ r p.
      let (_, q1) = require_returned _ _ _ q in
      let (_, q2) = require_returned _ _ _ q1 in
      Returns-ok _ (
        placed e es w peak h memory r one (sym (ok_inj q2)) ((placements-Hosts es w peak h).at r p))

assert_executor_placement_safe-Hosts :
    (es : List ExecutorRecord) (w peak h : ℕ)
    → Returns
        (λ counts. All (Hosts w peak h) es × (counts ≡ map (cores_slots w) es))
        (assert_executor_placement_safe es w peak h)
unfolding assert_executor_placement_safe
assert_executor_placement_safe-Hosts es w peak h = Returns-require _ _ _ λ _.
    Returns-require _ _ _ λ _. Returns-bind _ _ λ r p.
      Returns-require _ _ _
        λ safe. Returns-ok _ ((placements-Hosts es w peak h).at r p (ground arith))

sum_fits :
    (es : List ExecutorRecord) (w peak h : ℕ)
    → All (Hosts w peak h) es
    → sum (map (cores_slots w) es) * (1000 * peak) ≤ sum (map (usable h) es)
sum_fits [] w peak h a = omega arith
sum_fits (e ∷ es) w peak h a = grind (arith, sum_fits es w peak h a.1, a.0)

-- What an accepted placement guarantees, for a measured peak and an operator's cap.
pub record IsPlaced (es : List ExecutorRecord) (w peak h : ℕ) (operator_cap : Option ℕ)
    (p : TaskWidthPlacement) : Type 0 where
  pub hosts : All (Hosts w peak h) es
  pub per_executor : p.per_executor_safe_tasks ≡ map (cores_slots w) es
  pub some_task : 1 ≤ p.planned_task_count
  pub within_slots : p.planned_task_count ≤ sum p.per_executor_safe_tasks
  pub within_cap : p.planned_task_count ≡ capped operator_cap p.planned_task_count
  pub within_memory : p.planned_task_count * (1000 * peak) ≤ sum (map (usable h) es)

capped_le : (cap : Option ℕ) (n : ℕ) → capped cap n ≤ n
capped_le none n = omega arith
capped_le (some c) n = omega arith

capped_again : (cap : Option ℕ) (n : ℕ) → capped cap n ≡ capped cap (capped cap n)
capped_again none n = refl
capped_again (some c) n = omega arith

tasks_fit : (n m k t : ℕ) → n ≤ m → m * k ≤ t → n * k ≤ t
tasks_fit n m k t a b = grind arith

compute_slots-sum :
    (es : List ExecutorRecord) (w : ℕ)
    → Returns (λ n. n ≡ sum (map (cores_slots w) es)) (compute_slots es w)
unfolding compute_slots
compute_slots-sum es w = Returns-require _ _ _ λ _. Returns-require _ _ _ λ _. Returns-ok _ refl

memory_limits-Hosts :
    (es : List ExecutorRecord) (w peak h : ℕ)
    → Returns
        (λ r. All (Hosts w peak h) es × (r.0 ≡ map (cores_slots w) es))
        (memory_limits es w (some peak) h)
unfolding memory_limits
memory_limits-Hosts es w peak h = Returns-bind _ _ λ counts p.
    Returns-bind _ _
      λ cap _. Returns-ok _ ((assert_executor_placement_safe-Hosts es w peak h).at counts p)

limits-IsPlaced :
    (es : List ExecutorRecord) (w peak h : ℕ) (cap : Option ℕ)
    → Returns (IsPlaced es w peak h cap) (plan_task_width es w cap (some peak) h)
unfolding plan_task_width
limits-IsPlaced es w peak h cap = Returns-bind _ _ λ slots p1. Returns-bind _ _ λ r p2.
    Returns-require _ _ _ λ _. Returns-require _ _ _ λ one.
      let (hosts, counts) = (memory_limits-Hosts es w peak h).at r p2 in
      let slots_sum = (compute_slots-sum es w).at slots p1 in
      let below : capped cap (capped r.1 slots) ≤ sum (map (cores_slots w) es) =
        omega (arith, capped_le cap (capped r.1 slots), capped_le r.1 slots) in
      Returns-ok _ (record {
        hosts = hosts;
        per_executor = counts;
        some_task = ground arith;
        within_slots = rw counts below;
        within_cap = capped_again cap (capped r.1 slots);
        within_memory = tasks_fit _ _ (1000 * peak) _ below (sum_fits es w peak h hosts);
      })

-- If `plan_task_width` with a measured peak returns a placement, then every executor hosts a task, all
-- tasks that its cores admit at once fit its memory without the headroom, the safe counts are the
-- counts by cores, and the planned count is at least one, at most the sum of the safe counts and the
-- operator's cap, and its tasks together fit the memory without the headroom.
pub plan_task_width-IsPlaced :
    (es : List ExecutorRecord) (task_cpus peak headroom : ℕ) (operator_cap : Option ℕ)
    (p : TaskWidthPlacement)
    → plan_task_width es task_cpus operator_cap (some peak) headroom ≡ ok p
    → IsPlaced es task_cpus peak headroom operator_cap p
plan_task_width-IsPlaced es w peak h cap p e = (limits-IsPlaced es w peak h cap).at p e

widest_bound :
    (es : List ExecutorRecord)
    → Returns (λ w. All (λ e. e.total_cores ≤ w) es) (conservative_task_cpus es)
unfolding conservative_task_cpus
widest_bound [] = Returns-err _
widest_bound (e ∷ []) = Returns-ok _ (omega arith, tt)
widest_bound (e ∷ f ∷ fs) = Returns-bind (conservative_task_cpus (f ∷ fs)) _ λ w p.
    let below = (widest_bound (f ∷ fs)).at w p in
    Returns-ok _ (
      omega arith,
      All-imp (λ x. x.total_cores ≤ w) (λ x. x.total_cores ≤ max e.total_cores w)
          (λ x k. omega arith) (f ∷ fs) below,
    )

-- The widest executor is one of them.
widest_In :
    (es : List ExecutorRecord)
    → Returns
        (λ w. (e : ExecutorRecord) × In e es × (e.total_cores ≡ w))
        (conservative_task_cpus es)
unfolding conservative_task_cpus
widest_In [] = Returns-err _
widest_In (e ∷ []) = Returns-ok _ (e, inl refl, refl)
widest_In (e ∷ f ∷ fs) = Returns-bind (conservative_task_cpus (f ∷ fs)) _ λ w p.
    let (g, m, q) = (widest_In (f ∷ fs)).at w p in
    elim (Bool-cases (leb w e.total_cores)) [
      | inl a ↦ Returns-ok _ (e, inl refl, ground arith)
      | inr a ↦ Returns-ok _ (g, inr m, ground arith)
    ]

one_slot : (e : ExecutorRecord) (w : ℕ) → 1 ≤ w → e.total_cores ≤ w → cores_slots w e ≤ 1
one_slot e w pos h =
    let below : cores_slots w e < 2 = (div-lt_iff_lt-mul pos).1 (omega arith) in omega arith

slot_of_widest : (e : ExecutorRecord) (w : ℕ) → 1 ≤ w → e.total_cores ≡ w → cores_slots w e ≡ 1
slot_of_widest e w pos h = rw h (div_self pos)

sum_le_length :
    (f : ExecutorRecord → ℕ) (es : List ExecutorRecord)
    → All (λ e. f e ≤ 1) es
    → sum (map f es) ≤ length es
sum_le_length f [] a = omega arith
sum_le_length f (e ∷ es) a = omega (arith, sum_le_length f es a.1, a.0)

le_sum :
    (f : ExecutorRecord → ℕ) (e : ExecutorRecord) (es : List ExecutorRecord)
    → In e es
    → f e ≤ sum (map f es)
le_sum f e [] m = absurd m
le_sum f e (d ∷ es) (inl q) = rw q (omega arith)
le_sum f e (d ∷ es) (inr m) = omega (arith, le_sum f e es m)

some_executor : (es : List ExecutorRecord) (e : ExecutorRecord) → In e es → no_executors es ≡ false
some_executor [] e m = absurd m
some_executor (d ∷ es) e m = refl

-- If some executors, each with a core or more, have a conservative width, then `plan_task_width` with
-- that width, no measured peak and no operator's cap returns a placement of at least one task, and at
-- most one for each executor, and no executor has cores for two tasks of that width at once.
pub conservative_task_cpus-plan_task_width :
    (es : List ExecutorRecord) (w headroom : ℕ)
    → All (λ e. 1 ≤ e.total_cores) es
    → conservative_task_cpus es ≡ ok w
    → (p : TaskWidthPlacement) × (plan_task_width es w none none headroom ≡ ok p)
      × (1 ≤ p.planned_task_count)
      × (p.planned_task_count ≤ length es)
      × All (λ e. cores_slots w e ≤ 1) es
unfolding plan_task_width compute_slots memory_limits ◌>>=◌ require
conservative_task_cpus-plan_task_width es w h cores eq =
    let (e, m, widest) = (widest_In es).at w eq in
    let pos : 1 ≤ w = rw (sym widest) (All-In (λ x. 1 ≤ x.total_cores) es e cores m) in
    let singles =
      All-imp (λ x. x.total_cores ≤ w) (λ x. cores_slots w x ≤ 1) (λ x k. one_slot x w pos k) es
        ((widest_bound es).at w eq) in
    let some_slot : 1 ≤ sum (map (cores_slots w) es) =
      rw (slot_of_widest e w pos widest) at (le_sum (cores_slots w) e es m) in
    (
      record {
        task_cpus = w;
        slots = sum (map (cores_slots w) es);
        memory_cap = none;
        operator_cap = none;
        planned_task_count = sum (map (cores_slots w) es);
        executors = es;
        per_executor_safe_tasks = [];
      },
      rw (le→leb 1 w pos, some_executor es e m, le→leb 1 _ some_slot) refl,
      some_slot,
      sum_le_length (cores_slots w) es singles,
      singles,
    )
