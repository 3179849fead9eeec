-- ===== src/CpuRuntime/Safety.antt =====
-- What the thread budget of a placement guarantees on every executor.
use people_counter.Prelude.{
  ℕ, ◌*◌, ◌/◌, ◌≤◌, ◌≡◌, refl, min, max, Bool, true, false, inl, inr, none, List, [], ◌∷◌, arith,
  ltb, leb, if◌then◌else◌, All, All-imp, ok, ◌>>=◌, require, Bool-cases,
}
use people_counter.Prelude.Membership.{In, All-In}
use native.Mathlib.Nat.{div-mul-le_self, le-div_iff_mul-le}
use people_counter.CpuRuntime.{
  ThreadBudget, calculate_thread_budget, colocated_workers, candidate, candidates, is_below,
  least_budget, pick, calculate_placement_safe_thread_budget,
}

-- An executor that can run a task.
abbrev pub CanRun : ℕ → ℕ → Type 0
CanRun task_cpus cores = task_cpus ≤ cores

-- The workers that an executor may run at once have no more threads than it has cores.
abbrev pub IsWithin : ℕ → ℕ → ℕ → ℕ → Type 0
IsWithin task_cpus planned threads cores =
    colocated_workers task_cpus planned cores * threads ≤ cores

some_slot : (cores task_cpus : ℕ) → 1 ≤ task_cpus → task_cpus ≤ cores → 1 ≤ cores / task_cpus
some_slot cores task_cpus one fits = (le-div_iff_mul-le one).1 (omega arith)

no_slot : (cores task_cpus : ℕ) → 1 ≤ task_cpus → 1 ≤ cores / task_cpus → task_cpus ≤ cores
no_slot cores task_cpus one slot =
    let h : 1 * task_cpus ≤ cores = (le-div_iff_mul-le one).0 slot in omega (arith, h)

-- `w` workers that share the cores in whole threads.
shared : (cores w : ℕ) → 1 ≤ w → w ≤ cores → w * max 1 (cores / w) ≤ cores
shared cores w one h =
    let some : 1 ≤ cores / w = some_slot cores w one h in
    let widest : max 1 (cores / w) ≡ cores / w = omega arith in
    rw widest (grind (arith, div-mul-le_self cores w))

slots_le : (cores task_cpus : ℕ) → 1 ≤ task_cpus → cores / task_cpus ≤ cores
slots_le cores task_cpus one = grind (arith, div-mul-le_self cores task_cpus)

wide : (cores task_cpus w : ℕ) → 1 ≤ w → w ≤ cores / task_cpus → task_cpus ≤ cores / w
wide cores task_cpus w one few =
    (le-div_iff_mul-le one).1 (grind (arith, div-mul-le_self cores task_cpus))

module _ (task_cpus planned : ℕ) (one : 1 ≤ task_cpus) (some : 1 ≤ planned) where
  -- One of the candidates has so few threads that the workers of the executor fit it.
  abbrev Covered : List ThreadBudget → ℕ → Type 0
  Covered bs cores =
      CanRun task_cpus cores
      → (b : ThreadBudget) × In b bs
        × (colocated_workers task_cpus planned cores * b.threads_per_worker ≤ cores)

  abbrev Found : List ℕ → List ThreadBudget → Type 0
  Found executor_cores bs =
      All (λ b. task_cpus ≤ b.threads_per_worker) bs × All (Covered bs) executor_cores

  -- The candidate of one executor that can run a task.
  abbrev budget_of : ℕ → ThreadBudget
  budget_of cores =
      let workers = colocated_workers task_cpus planned cores in
      record {
        driver_cores = cores;
        active_workers = workers;
        threads_per_worker = max 1 (cores / workers);
        interop_threads_configured = none;
      }

  calculate_thread_budget_lem :
      (cores workers : ℕ)
      → 1 ≤ cores
      → 1 ≤ workers
      → calculate_thread_budget cores workers
        ≡ ok (record {
          driver_cores = cores;
          active_workers = workers;
          threads_per_worker = max 1 (cores / workers);
          interop_threads_configured = none;
        })
  unfolding calculate_thread_budget ◌>>=◌ require
  calculate_thread_budget_lem cores workers a b =
      let l : leb 1 cores ≡ true = ground arith in
      let r : leb 1 workers ≡ true = ground arith in rw (l, r) refl

  Covered-more :
      (b : ThreadBudget) (bs : List ThreadBudget) (cores : ℕ)
      → Covered bs cores
      → Covered (b ∷ bs) cores
  Covered-more b bs cores h can = let (c, m, fits) = h can in (c, inr m, fits)

  candidate-Found :
      (cores : ℕ) (executor_cores : List ℕ) (later : List ThreadBudget)
      → 1 ≤ cores
      → Found executor_cores later
      → (bs : List ThreadBudget) × (candidate task_cpus planned cores later ≡ ok bs)
        × Found (cores ∷ executor_cores) bs
  unfolding candidate ◌>>=◌
  candidate-Found cores executor_cores later a (wides, covered) =
      elim (Bool-cases (ltb (cores / task_cpus) 1)) [
        | inl t ↦ (later, rw t refl, (wides, ((λ can. absurd (none_runs t can)), covered)))
        | inr t ↦
            let slot : 1 ≤ cores / task_cpus = ground arith in
            let workers = colocated_workers task_cpus planned cores in
            let worker : 1 ≤ workers = omega arith in
            let few : workers ≤ cores / task_cpus = omega arith in
            let most : workers ≤ cores = omega (arith, slots_le cores task_cpus one) in
            let width = wide cores task_cpus workers worker few in
            (
              budget_of cores ∷ later,
              rw (t, calculate_thread_budget_lem cores workers a worker) refl,
              (
                (wider (cores / workers) width, wides),
                (
                  (λ can. (budget_of cores, inl refl, shared cores workers worker most)),
                  All-imp _ _ (λ c h. Covered-more (budget_of cores) later c h) executor_cores
                      covered,
                ),
              ),
            )
      ]
    where
      wider : (n : ℕ) → task_cpus ≤ n → task_cpus ≤ max 1 n
      wider n h = omega arith

      none_runs : ltb (cores / task_cpus) 1 ≡ true → CanRun task_cpus cores → ⊥
      none_runs t can = let slot = some_slot cores task_cpus one can in ground arith

  candidates-Found :
      (executor_cores : List ℕ)
      → All (λ cores. 1 ≤ cores) executor_cores
      → (bs : List ThreadBudget) × (candidates task_cpus planned executor_cores ≡ ok bs)
        × Found executor_cores bs
  unfolding candidates ◌>>=◌ require
  candidates-Found [] a = ([], refl, (tt, tt))
  candidates-Found (cores ∷ rest) (positive, a) =
      let (later, q, found) = candidates-Found rest a in
      let (bs, r, all) = candidate-Found cores rest later positive found in
      let t : leb 1 cores ≡ true = ground arith in (bs, rw (t, q) r, all)

-- The least budget is one of the candidates, and has no more threads than any.
below_threads :
    (a b : ThreadBudget) → is_below a b ≡ true → a.threads_per_worker ≤ b.threads_per_worker
unfolding is_below
below_threads a b t = ground arith

above_threads :
    (a b : ThreadBudget) → is_below a b ≡ false → b.threads_per_worker ≤ a.threads_per_worker
unfolding is_below
above_threads a b t = ground arith

le_of_le : {x y z : ℕ} → x ≤ y → y ≤ z → x ≤ z
le_of_le p q = omega arith

abbrev IsLeast : ThreadBudget → List ThreadBudget → Type 0
IsLeast b bs = In b bs × All (λ c. b.threads_per_worker ≤ c.threads_per_worker) bs

lower_of_two :
    (l b : ThreadBudget) (bs : List ThreadBudget) (t : Bool)
    → is_below l b ≡ t
    → IsLeast l bs
    → IsLeast (if t then l else b) (b ∷ bs)
lower_of_two l b bs true q (held, least) = (inr held, (below_threads l b q, least))
lower_of_two l b bs false q (held, least) =
    (inl refl, (omega arith, All-imp _ _ (λ d h. le_of_le (above_threads l b q) h) bs least))

least_budget-IsLeast :
    (b : ThreadBudget) (bs : List ThreadBudget) → IsLeast (least_budget b bs) (b ∷ bs)
unfolding least_budget
least_budget-IsLeast b [] = (inl refl, (omega arith, tt))
least_budget-IsLeast b (c ∷ cs) =
    lower_of_two (least_budget c cs) b (c ∷ cs) _ refl (least_budget-IsLeast c cs)

pick-IsLeast :
    (c : ThreadBudget) (bs : List ThreadBudget)
    → In c bs
    → (b : ThreadBudget) × (pick bs ≡ ok b) × IsLeast b bs
unfolding pick
pick-IsLeast c [] m = absurd m
pick-IsLeast c (b ∷ bs) m = (least_budget b bs, refl, least_budget-IsLeast b bs)

-- For positive numbers of processors per task, of workers and of cores, where some executor has the
-- cores for a task, a budget is returned: on every executor, the workers that it may run at once have together no more threads than the executor has cores, and a worker has at least
-- as many threads as its task has processors.
pub calculate_placement_safe_thread_budget-IsWithin :
    (executor_cores : List ℕ) (task_cpus planned cores : ℕ)
    → 1 ≤ task_cpus
    → 1 ≤ planned
    → All (λ c. 1 ≤ c) executor_cores
    → In cores executor_cores
    → CanRun task_cpus cores
    → (b : ThreadBudget) × (calculate_placement_safe_thread_budget executor_cores task_cpus planned
        ≡ ok b)
      × All (IsWithin task_cpus planned b.threads_per_worker) executor_cores
      × (task_cpus ≤ b.threads_per_worker)
unfolding calculate_placement_safe_thread_budget ◌>>=◌ require
calculate_placement_safe_thread_budget-IsWithin executor_cores task_cpus planned cores one some a m
      can =
    let (bs, q, (wides, covered)) = candidates-Found task_cpus planned one some executor_cores a in
    let (c, held, _) = All-In _ executor_cores cores covered m can in
    let (b, r, (chosen, least)) = pick-IsLeast c bs held in
    let t : leb 1 task_cpus ≡ true = ground arith in
    let p : leb 1 planned ≡ true = ground arith in
    (
      b,
      rw (t, p, q) r,
      All-imp _ _ (within b bs least) executor_cores covered,
      All-In _ bs b wides chosen,
    )
  where
    fewer : (w x y n : ℕ) → x ≤ y → w * y ≤ n → w * x ≤ n
    fewer w x y n h k = grind arith

    le_of_leb : {m n : ℕ} → leb m n ≡ true → m ≤ n
    le_of_leb t = ground arith

    idle : (n : ℕ) → leb task_cpus n ≡ false → n / task_cpus ≡ 0
    idle n t = let h : 1 ≤ n / task_cpus → task_cpus ≤ n = no_slot n task_cpus one in ground arith

    none_run : (x n slots : ℕ) → slots ≡ 0 → min planned slots * x ≤ n
    none_run x n slots q = let idle : min planned slots ≡ 0 = omega arith in rw idle (omega arith)

    within :
        (b : ThreadBudget) (bs : List ThreadBudget)
        → All (λ c. b.threads_per_worker ≤ c.threads_per_worker) bs
        → (n : ℕ) → Covered task_cpus planned one some bs n
        → IsWithin task_cpus planned b.threads_per_worker n
    within b bs least n h = elim (Bool-cases (leb task_cpus n)) [
      | inl t ↦
          let (c, held, fits) = h (le_of_leb t) in
          fewer (colocated_workers task_cpus planned n) b.threads_per_worker c.threads_per_worker n
            (All-In _ bs c least held) fits
      | inr t ↦ none_run b.threads_per_worker n (n / task_cpus) (idle n t)
    ]
