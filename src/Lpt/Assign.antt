-- ===== src/Lpt/Assign.antt =====
-- What the rounds of the assignment keep: the sum, the length and the order of the costs.
use people_counter.Prelude.{
  ℕ, zero, suc, ◌+◌, ◌*◌, ◌≤◌, ◌<◌, ◌≡◌, refl, ap, inl, inr, true, List, [], ◌∷◌, arith, All,
  All-imp, sum, replicate, length, nat_eq, Bool-cases,
}
use people_counter.Prelude.Sorting.{insert, sort}
use people_counter.Lpt.{Job, longer_first, least, add_first, assign, assign_all}

-- Every cost is at least the bound.
abbrev pub AtLeast : ℕ → List ℕ → Type 0
AtLeast low xs = All (λ x. low ≤ x) xs

pub AtLeast-le : (a b : ℕ) (xs : List ℕ) → a ≤ b → AtLeast b xs → AtLeast a xs
AtLeast-le a b xs h = All-imp (λ x. b ≤ x) (λ x. a ≤ x) (λ x k. omega arith) xs

pub least-AtLeast : (c : ℕ) (cs : List ℕ) → AtLeast (least c cs) (c ∷ cs)
unfolding least
least-AtLeast c [] = (omega arith, tt)
least-AtLeast c (d ∷ ds) =
    (omega arith, AtLeast-le _ (least d ds) (d ∷ ds) (omega arith) (least-AtLeast d ds))

-- The least cost is the cost of some worker, so the job is added to exactly one of them.
pub sum-add_first :
    (low c d : ℕ) (cs : List ℕ) → low ≡ least c cs → sum (add_first low d (c ∷ cs)) ≡ c + sum cs + d
unfolding least add_first
sum-add_first low c d [] h = ground arith
sum-add_first low c d (e ∷ es) h = elim (Bool-cases (nat_eq c low)) [
  | inl q ↦ rw q (omega arith)
  | inr q ↦ rw q (omega (arith, sum-add_first low e d es (ground arith)))
]

pub mul_le_sum : (low : ℕ) (xs : List ℕ) → All (λ x. low ≤ x) xs → length xs * low ≤ sum xs
mul_le_sum low [] h = omega arith
mul_le_sum low (x ∷ xs) h = grind (arith, mul_le_sum low xs h.1, h.0)

pub length-add_first : (low d : ℕ) (xs : List ℕ) → length (add_first low d xs) ≡ length xs
unfolding add_first
length-add_first low d [] = refl
length-add_first low d (x ∷ xs) = ground (arith, length-add_first low d xs)

pub All-add_first :
    (P : ℕ → Type 0) (low d : ℕ) (xs : List ℕ) → P (low + d) → All P xs → All P (add_first low d xs)
unfolding add_first
All-add_first P low d [] p h = tt
All-add_first P low d (x ∷ xs) p h = elim (Bool-cases (nat_eq x low)) [
  | inl e ↦ rw e (rw (nat_eq→eq x low e) p, h.1)
  | inr e ↦ rw e (h.0, All-add_first P low d xs p h.1)
]
  where
    nat_eq→eq : (a b : ℕ) → nat_eq a b ≡ true → a ≡ b
    nat_eq→eq a b q = ground arith

pub sum-assign : (d : ℕ) (costs : List ℕ) → 0 < length costs → sum (assign d costs) ≡ sum costs + d
unfolding assign
sum-assign d [] h = absurd (omega arith)
sum-assign d (c ∷ cs) h = sum-add_first (least c cs) c d cs refl

pub length-assign : (d : ℕ) (costs : List ℕ) → length (assign d costs) ≡ length costs
unfolding assign
length-assign d [] = refl
length-assign d (c ∷ cs) = length-add_first (least c cs) d (c ∷ cs)

-- The whole duration of some jobs.
abbrev pub total : List Job → ℕ
total [] = 0
total (j ∷ js) = j.duration_seconds + total js

pub sum-assign_all :
    (jobs : List Job) (costs : List ℕ)
    → 0 < length costs
    → sum (assign_all jobs costs) ≡ sum costs + total jobs
unfolding assign_all
sum-assign_all [] costs h = omega arith
sum-assign_all (j ∷ js) costs h = omega (
  arith,
  sum-assign_all js (assign j.duration_seconds costs)
      (omega (arith, length-assign j.duration_seconds costs)),
  sum-assign j.duration_seconds costs,
)

pub length-assign_all :
    (jobs : List Job) (costs : List ℕ) → length (assign_all jobs costs) ≡ length costs
unfolding assign_all
length-assign_all [] costs = refl
length-assign_all (j ∷ js) costs = omega (
  arith,
  length-assign_all js (assign j.duration_seconds costs),
  length-assign j.duration_seconds costs,
)

pub total-insert : (j : Job) (js : List Job) → total (insert longer_first j js) ≡ total (j ∷ js)
unfolding insert
total-insert j [] = refl
total-insert j (k ∷ ks) = elim (Bool-cases (longer_first j k)) [
  | inl e ↦ rw e
  | inr e ↦ rw e (omega (arith, total-insert j ks))
]

pub total-sort : (js : List Job) → total (sort longer_first js) ≡ total js
unfolding sort
total-sort [] = refl
total-sort (j ∷ js) = omega (arith, total-insert j (sort longer_first js), total-sort js)

pub length-replicate : (n a : ℕ) → length (replicate n a) ≡ n
length-replicate zero a = refl
length-replicate (suc n) a = ap suc (length-replicate n a)

pub sum-replicate_zero : (n : ℕ) → sum (replicate n 0) ≡ 0
sum-replicate_zero zero = refl
sum-replicate_zero (suc n) = omega (arith, sum-replicate_zero n)
