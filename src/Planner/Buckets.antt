-- ===== src/Planner/Buckets.antt =====
-- What the assignment of the items to the buckets keeps, and that it follows the control store's
-- projection.
use people_counter.Prelude.{
  ℕ, zero, suc, ◌+◌, ◌<◌, ◌≡◌, refl, sym, ap, ◌∙◌, inl, inr, List, [], ◌∷◌, ◌++◌, map, arith, sum,
  replicate, length, nat_eq, Bool-cases, ok, ◌>>=◌,
}
use people_counter.Prelude.Sorting.{insert, sort}
use mathlib.Core.List.{Perm, perm_middle}
use mathlib.Core.List.Perm
use people_counter.Lpt.{Job, longer_first, least, add_first, assign, assign_all}
use people_counter.Planner.Envelope.{EnvelopeItem}
use people_counter.Planner.Plan.{longest_first, first_index, least_index, append_at, add_at, fill}

-- The item as the control store's projection sees it.
abbrev pub item_job : EnvelopeItem → Job
item_job i = record { work_id = i.work_id; duration_seconds = i.duration_seconds }

-- The items of all the buckets.
abbrev pub concat : {A : Type 0} → List (List A) → List A
concat [] = []
concat (b ∷ bs) = b ++ concat bs

-- The work of one bucket, and of each bucket.
abbrev pub load : List EnvelopeItem → ℕ
load b = sum (map (λ i. i.duration_seconds) b)

abbrev pub loads : List (List EnvelopeItem) → List ℕ
loads [] = []
loads (b ∷ bs) = load b ∷ loads bs

add_at-first_index :
    (low d : ℕ) (cs : List ℕ) → add_at (first_index low cs) d cs ≡ add_first low d cs
unfolding add_at first_index add_first
add_at-first_index low d [] = refl
add_at-first_index low d (c ∷ cs) = elim (Bool-cases (nat_eq c low)) [
  | inl e ↦ rw e refl
  | inr e ↦ rw e (ap (λ (r : List ℕ). c ∷ r) (add_at-first_index low d cs))
]

-- The chosen bucket is one of the buckets.
first_index_lt :
    (low c : ℕ) (cs : List ℕ) → low ≡ least c cs → first_index low (c ∷ cs) < length (c ∷ cs)
unfolding first_index least
first_index_lt low c [] h = ground arith
first_index_lt low c (d ∷ ds) h = elim (Bool-cases (nat_eq c low)) [
  | inl e ↦ rw e (omega arith)
  | inr e ↦ rw e (omega (arith, first_index_lt low d ds (ground arith)))
]

load-append :
    (b : List EnvelopeItem) (i : EnvelopeItem) → load (b ++ i ∷ []) ≡ load b + i.duration_seconds
load-append [] i = omega arith
load-append (j ∷ js) i = omega (arith, load-append js i)

loads-append_at :
    (n : ℕ) (i : EnvelopeItem) (bs : List (List EnvelopeItem))
    → loads (append_at n i bs) ≡ add_at n i.duration_seconds (loads bs)
unfolding append_at add_at
loads-append_at n i [] = refl
loads-append_at zero i (b ∷ bs) = ap (λ n. n ∷ loads bs) (load-append b i)
loads-append_at (suc n) i (b ∷ bs) = ap (λ (r : List ℕ). load b ∷ r) (loads-append_at n i bs)

snoc-append : {A : Type 0} (b : List A) (a : A) (c : List A) → ((b ++ a ∷ []) ++ c) ≡ (b ++ a ∷ c)
snoc-append {A = A} [] a c = refl
snoc-append {A = A} (x ∷ b) a c = ap (λ (r : List A). x ∷ r) (snoc-append b a c)

concat-append_at :
    {A : Type 0} (n : ℕ) (a : A) (bs : List (List A))
    → n < length bs
    → Perm (concat (append_at n a bs)) (a ∷ concat bs)
unfolding append_at
concat-append_at n a [] h = absurd (omega arith)
concat-append_at zero a (b ∷ bs) h = rw (snoc-append b a (concat bs)) (perm_middle b (concat bs))
concat-append_at (suc n) a (b ∷ bs) h =
    Perm.trans (Perm.append_left b (concat-append_at n a bs (omega arith)))
      (perm_middle b (concat bs))

length-append_at :
    {A : Type 0} (n : ℕ) (a : A) (bs : List (List A)) → length (append_at n a bs) ≡ length bs
unfolding append_at
length-append_at n a [] = refl
length-append_at zero a (b ∷ bs) = refl
length-append_at (suc n) a (b ∷ bs) = ap suc (length-append_at n a bs)

length-loads : (bs : List (List EnvelopeItem)) → length (loads bs) ≡ length bs
length-loads [] = refl
length-loads (b ∷ bs) = ap suc (length-loads bs)

-- What the loop returns when it starts from buckets and their loads.
pub record IsFilled (is : List EnvelopeItem) (buckets : List (List EnvelopeItem))
    (r : List (List EnvelopeItem) × List ℕ) : Type 0 where
  pub costs : r.1 ≡ assign_all (map item_job is) (loads buckets)
  pub loaded : r.1 ≡ loads r.0
  pub count : length r.0 ≡ length buckets
  pub placed : Perm (concat r.0) (is ++ concat buckets)

IsFilled-step :
    (i : EnvelopeItem) (is : List EnvelopeItem) (buckets : List (List EnvelopeItem)) (t : ℕ)
    {r : List (List EnvelopeItem) × List ℕ}
    → IsFilled is (append_at t i buckets) r
    → add_at t i.duration_seconds (loads buckets) ≡ assign i.duration_seconds (loads buckets)
    → t < length buckets
    → IsFilled (i ∷ is) buckets r
unfolding assign_all
IsFilled-step i is buckets t {r = r} f e h = record {
  costs = f.costs ∙ ap (assign_all (map item_job is)) (loads-append_at t i buckets ∙ e);
  loaded = f.loaded;
  count = f.count ∙ length-append_at t i buckets;
  placed = Perm.trans f.placed (
      Perm.trans (Perm.append_left is (concat-append_at t i buckets h))
        (perm_middle is (concat buckets)));
}

fill_step :
    (i : EnvelopeItem) (is : List EnvelopeItem) (b : List EnvelopeItem)
    (bs : List (List EnvelopeItem)) {r : List (List EnvelopeItem) × List ℕ}
    → let t = first_index (least (load b) (loads bs)) (loads (b ∷ bs)) in
      fill is (append_at t i (b ∷ bs)) (add_at t i.duration_seconds (loads (b ∷ bs))) ≡ ok r
      → fill (i ∷ is) (b ∷ bs) (loads (b ∷ bs)) ≡ ok r
unfolding fill least_index ◌>>=◌
fill_step i is b bs run = run

-- The loop returns, since there is a bucket.
pub fill-IsFilled :
    (is : List EnvelopeItem) (buckets : List (List EnvelopeItem)) (costs : List ℕ)
    → 0 < length buckets
    → costs ≡ loads buckets
    → (r : List (List EnvelopeItem) × List ℕ) × (fill is buckets costs ≡ ok r)
      × IsFilled is buckets r
unfolding fill assign_all assign
fill-IsFilled [] buckets costs h e =
    ((buckets, costs), refl, record { costs = e; loaded = e; count = refl; placed = Perm.refl _ })
fill-IsFilled (i ∷ is) [] costs h e = absurd (omega arith)
fill-IsFilled (i ∷ is) (b ∷ bs) costs h e =
    let t = first_index (least (load b) (loads bs)) (loads (b ∷ bs)) in
    let buckets = append_at t i (b ∷ bs) in
    let (r, run, filled) =
      fill-IsFilled is buckets (add_at t i.duration_seconds (loads (b ∷ bs)))
        (omega (arith, length-append_at t i (b ∷ bs))) (sym (loads-append_at t i (b ∷ bs))) in
    (
      r,
      rw e (fill_step i is b bs run),
      IsFilled-step i is (b ∷ bs) t filled
          (add_at-first_index _ i.duration_seconds (loads (b ∷ bs)))
          (rw (length-loads (b ∷ bs)) at (first_index_lt _ (load b) (loads bs) refl)),
    )

map-insert :
    (i : EnvelopeItem) (is : List EnvelopeItem)
    → map item_job (insert longest_first i is) ≡ insert longer_first (item_job i) (map item_job is)
unfolding insert
map-insert i [] = refl
map-insert i (j ∷ js) = elim (Bool-cases (longest_first i j)) [
  | inl q ↦ rw q refl
  | inr q ↦ rw q (ap (λ (r : List Job). item_job j ∷ r) (map-insert i js))
]

-- The plan sorts the items as the projection sorts its jobs.
pub map-sort :
    (is : List EnvelopeItem)
    → map item_job (sort longest_first is) ≡ sort longer_first (map item_job is)
unfolding sort
map-sort [] = refl
map-sort (i ∷ is) =
    map-insert i (sort longest_first is) ∙ ap (insert longer_first (item_job i)) (map-sort is)

pub loads-replicate : (n : ℕ) → replicate n 0 ≡ loads (replicate n [])
loads-replicate zero = refl
loads-replicate (suc n) = ap (λ (r : List ℕ). 0 ∷ r) (loads-replicate n)

pub concat-replicate : {A : Type 0} (n : ℕ) → concat (replicate {A = List A} n []) ≡ []
concat-replicate zero = refl
concat-replicate (suc n) = concat-replicate n
