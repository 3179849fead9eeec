-- ===== src/Lpt/Bound.antt =====
-- The projected makespan is near the even share of the work.
use people_counter.Prelude.{
  ℕ, zero, suc, ◌+◌, ◌*◌, ◌≤◌, ◌<◌, ◌≡◌, refl, sym, max, inl, inr, true, false, List, [], ◌∷◌,
  arith, All, All-imp, sum, maximum, replicate, length, leb, nat_eq, Bool-cases,
}
use people_counter.Prelude.Sorting.{sort, All-sort, All_of_sort}
use people_counter.Lpt.{Job, longer_first, least, add_first, assign, assign_all, lpt_makespan}
use people_counter.Lpt.Assign.{
  least-AtLeast, sum-add_first, mul_le_sum, All-add_first, length-assign, total, sum-assign_all,
  length-assign_all, total-sort, length-replicate, sum-replicate_zero,
}

-- `n * c ≤ (sum of the costs) + (n - 1) * m`, with the subtraction moved to the left.
abbrev Balanced : ℕ → ℕ → List ℕ → Type 0
Balanced n m costs = All (λ c. n * c + m ≤ sum costs + n * m) costs

new_load :
    (n low d m total : ℕ) → 0 < n → n * low ≤ total → d ≤ m → n * (low + d) + m ≤ total + d + n * m
new_load zero low d m total p h k = absurd (omega arith)
new_load (suc n) low d m total p h k = grind arith

assign-Balanced :
    (n m d : ℕ) (costs : List ℕ)
    → n ≡ length costs
    → d ≤ m
    → Balanced n m costs
    → Balanced n m (assign d costs)
unfolding assign
assign-Balanced n m d [] e h b = tt
assign-Balanced n m d (c ∷ cs) e h b = rw (sum-add_first (least c cs) c d cs refl) (
    All-add_first _ (least c cs) d (c ∷ cs)
      (new_load n (least c cs) d m (c + sum cs) (omega arith)
        (rw e (mul_le_sum (least c cs) (c ∷ cs) (least-AtLeast c cs))) h)
      (All-imp _ (λ x. n * x + m ≤ c + sum cs + d + n * m) (λ x k. omega arith) (c ∷ cs) b))

assign_all-Balanced :
    (n m : ℕ) (jobs : List Job) (costs : List ℕ)
    → n ≡ length costs
    → All (λ j. j.duration_seconds ≤ m) jobs
    → Balanced n m costs
    → Balanced n m (assign_all jobs costs)
unfolding assign_all
assign_all-Balanced n m [] costs e h b = b
assign_all-Balanced n m (j ∷ js) costs e h b =
    assign_all-Balanced n m js (assign j.duration_seconds costs)
      (omega (arith, length-assign j.duration_seconds costs)) h.1
      (assign-Balanced n m j.duration_seconds costs e h.0 b)

All-replicate : (P : ℕ → Type 0) (n a : ℕ) → P a → All P (replicate n a)
All-replicate P zero a h = tt
All-replicate P (suc n) a h = (h, All-replicate P n a h)

maximum-All : (P : ℕ → Type 0) (xs : List ℕ) → P 0 → All P xs → P (maximum xs)
maximum-All P [] z h = z
maximum-All P (x ∷ xs) z h = elim (Bool-cases (leb x (maximum xs))) [
  | inl e ↦ rw (max_right x (maximum xs) e) (maximum-All P xs z h.1)
  | inr e ↦ rw (max_left x (maximum xs) e) h.0
]
  where
    max_right : (a b : ℕ) → leb a b ≡ true → max a b ≡ b
    max_right a b q = ground arith

    max_left : (a b : ℕ) → leb a b ≡ false → max a b ≡ a
    max_left a b q = ground arith

-- The projected makespan is at most the even share of all the work, plus the part of one longest
-- job that the other workers cannot share: the bound of list scheduling, multiplied by the workers.
pub lpt_makespan-le :
    (jobs : List Job) (workers longest : ℕ)
    → 0 < workers
    → All (λ j. j.duration_seconds ≤ longest) jobs
    → workers * lpt_makespan jobs workers + longest ≤ total jobs + workers * longest
unfolding lpt_makespan
lpt_makespan-le jobs n m p h = rw (← total-sort jobs) (
    omega (
      arith,
      sum-assign_all (sort longer_first jobs) (replicate n 0) (omega (arith, length-replicate n 0)),
      sum-replicate_zero n,
      maximum-All
          (λ c. n * c + m ≤ sum (assign_all (sort longer_first jobs) (replicate n 0)) + n * m) _
          (grind arith)
          (assign_all-Balanced n m (sort longer_first jobs) (replicate n 0)
            (sym (length-replicate n 0)) (All-sort _ longer_first jobs h)
            (All-replicate _ n 0 (grind arith))),
    ))

sum-le-length-maximum : (xs : List ℕ) → sum xs ≤ length xs * maximum xs
sum-le-length-maximum [] = omega arith
sum-le-length-maximum (x ∷ xs) = step x (maximum xs) (length xs) (sum xs) (sum-le-length-maximum xs)
  where
    mul_max : (x m n : ℕ) → n * m ≤ n * max x m
    mul_max x m n = grind arith

    step : (x m n t : ℕ) → t ≤ n * m → x + t ≤ suc n * max x m
    step x m n t h = grind (arith, mul_max x m n)

add_first-grows :
    (low d b : ℕ) (costs : List ℕ) → b ≤ maximum costs → b ≤ maximum (add_first low d costs)
unfolding add_first
add_first-grows low d b [] h = h
add_first-grows low d b (c ∷ cs) h = elim (Bool-cases (nat_eq c low)) [
  | inl e ↦ rw e (omega arith)
  | inr e ↦ rw e (elim (Bool-cases (leb b c)) [
    | inl k ↦ ground arith
    | inr k ↦ ground (arith, add_first-grows low d b cs)
  ])
]

-- Adding to the least loaded worker leaves a worker that holds at least the job.
add_first-covers :
    (low c d : ℕ) (cs : List ℕ) → low ≡ least c cs → d ≤ maximum (add_first low d (c ∷ cs))
unfolding least add_first
add_first-covers low c d [] h = ground arith
add_first-covers low c d (e ∷ es) h = elim (Bool-cases (nat_eq c low)) [
  | inl q ↦ rw q (omega arith)
  | inr q ↦ rw q (omega (arith, add_first-covers low e d es (ground arith)))
]

assign-grows : (d b : ℕ) (costs : List ℕ) → b ≤ maximum costs → b ≤ maximum (assign d costs)
unfolding assign
assign-grows d b [] h = h
assign-grows d b (c ∷ cs) h = add_first-grows (least c cs) d b (c ∷ cs) h

assign-covers : (d : ℕ) (costs : List ℕ) → 0 < length costs → d ≤ maximum (assign d costs)
unfolding assign
assign-covers d [] h = absurd (omega arith)
assign-covers d (c ∷ cs) h = add_first-covers (least c cs) c d cs refl

assign_all-grows :
    (b : ℕ) (jobs : List Job) (costs : List ℕ)
    → b ≤ maximum costs
    → b ≤ maximum (assign_all jobs costs)
unfolding assign_all
assign_all-grows b [] costs h = h
assign_all-grows b (j ∷ js) costs h =
    assign_all-grows b js (assign j.duration_seconds costs)
      (assign-grows j.duration_seconds b costs h)

assign_all-covers :
    (jobs : List Job) (costs : List ℕ)
    → 0 < length costs
    → All (λ j. j.duration_seconds ≤ maximum (assign_all jobs costs)) jobs
unfolding assign_all
assign_all-covers [] costs h = tt
assign_all-covers (j ∷ js) costs h =
    let d = j.duration_seconds in
    (
      assign_all-grows d js (assign d costs) (assign-covers d costs h),
      assign_all-covers js (assign d costs) (omega (arith, length-assign d costs)),
    )

-- With one worker or more, the makespan is at least the even share of all the work, and at least
-- each job's duration.
pub lpt_makespan_covers :
    (jobs : List Job) (workers : ℕ)
    → 0 < workers
    → (total jobs ≤ workers * lpt_makespan jobs workers)
      × All (λ j. j.duration_seconds ≤ lpt_makespan jobs workers) jobs
unfolding lpt_makespan
lpt_makespan_covers jobs n p =
    let sorted = sort longer_first jobs in
    let some_worker : 0 < length (replicate n 0) = omega (arith, length-replicate n 0) in
    let share = sum-le-length-maximum (assign_all sorted (replicate n 0)) in
    let same : length (assign_all sorted (replicate n 0)) ≡ n =
      omega (arith, length-assign_all sorted (replicate n 0), length-replicate n 0) in
    (
      rw (← total-sort jobs)
          (omega (arith, rw same at share, sum-assign_all sorted (replicate n 0) some_worker)),
      All_of_sort _ longer_first jobs (assign_all-covers sorted (replicate n 0) some_worker),
    )
