-- ===== src/Planner/Waves.antt =====
-- The waves of a plan hold the planned items of its buckets, each once.
use people_counter.Prelude.{
  ℕ, ◌≤◌, ◌≡◌, refl, ap, inl, inr, true, List, [], ◌∷◌, ◌++◌, map, arith, All, All-append, maximum,
  nat_eq, Bool-cases,
}
use people_counter.Prelude.Sorting.{insert, sort, sort-perm, All-sort}
use mathlib.Core.List.{Perm, perm_middle, perm_append_comm}
use mathlib.Core.List.Perm
use people_counter.Planner.Plan.{
  PlannedItem, BucketPlan, WavePlan, add_to_wave, group_waves, bucket_order, wave_order,
  finish_wave, bucket_items, waves_of,
}

-- The items of all the waves.
abbrev pub wave_items : List WavePlan → List PlannedItem
wave_items [] = []
wave_items (w ∷ ws) = w.items ++ wave_items ws

snoc-append :
    (b : List PlannedItem) (a : PlannedItem) (c : List PlannedItem)
    → ((b ++ a ∷ []) ++ c) ≡ (b ++ a ∷ c)
snoc-append [] a c = refl
snoc-append (x ∷ b) a c = ap (λ (r : List PlannedItem). x ∷ r) (snoc-append b a c)

append_assoc : (a b c : List PlannedItem) → ((a ++ b) ++ c) ≡ (a ++ (b ++ c))
append_assoc [] b c = refl
append_assoc (x ∷ a) b c = ap (λ (r : List PlannedItem). x ∷ r) (append_assoc a b c)

wave_items-add_to_wave :
    (i : PlannedItem) (ws : List WavePlan)
    → Perm (wave_items (add_to_wave i ws)) (i ∷ wave_items ws)
unfolding add_to_wave
wave_items-add_to_wave i [] = Perm.refl _
wave_items-add_to_wave i (w ∷ ws) = elim (Bool-cases (nat_eq w.index i.wave_index)) [
  | inl e ↦ rw e (rw (snoc-append w.items i (wave_items ws)) (perm_middle w.items (wave_items ws)))
  | inr e ↦ rw e (
      Perm.trans (Perm.append_left w.items (wave_items-add_to_wave i ws))
        (perm_middle w.items (wave_items ws)))
]

wave_items-group_waves :
    (is : List PlannedItem) (ws : List WavePlan)
    → Perm (wave_items (group_waves is ws)) (is ++ wave_items ws)
unfolding group_waves
wave_items-group_waves [] ws = Perm.refl _
wave_items-group_waves (i ∷ is) ws = Perm.trans (wave_items-group_waves is (add_to_wave i ws)) (
    Perm.trans (Perm.append_left is (wave_items-add_to_wave i ws)) (perm_middle is (wave_items ws)))

swap_blocks : (a b c : List PlannedItem) → Perm (a ++ (b ++ c)) (b ++ (a ++ c))
swap_blocks a b c =
    rw (← append_assoc a b c, ← append_assoc b a c) (Perm.append_right c (perm_append_comm a b))

wave_items-insert :
    (w : WavePlan) (ws : List WavePlan)
    → Perm (wave_items (insert wave_order w ws)) (w.items ++ wave_items ws)
unfolding insert
wave_items-insert w [] = Perm.refl _
wave_items-insert w (v ∷ vs) = elim (Bool-cases (wave_order w v)) [
  | inl e ↦ rw e (Perm.refl _)
  | inr e ↦ rw e (
      Perm.trans (Perm.append_left v.items (wave_items-insert w vs))
        (swap_blocks v.items w.items (wave_items vs)))
]

wave_items-sort : (ws : List WavePlan) → Perm (wave_items (sort wave_order ws)) (wave_items ws)
unfolding sort
wave_items-sort [] = Perm.refl _
wave_items-sort (w ∷ ws) =
    Perm.trans (wave_items-insert w (sort wave_order ws))
      (Perm.append_left w.items (wave_items-sort ws))

wave_items-finish : (ws : List WavePlan) → Perm (wave_items (map finish_wave ws)) (wave_items ws)
wave_items-finish [] = Perm.refl _
wave_items-finish (w ∷ ws) = Perm.append (sort-perm bucket_order w.items) (wave_items-finish ws)

pub wave_items-waves_of : (bs : List BucketPlan) → Perm (wave_items (waves_of bs)) (bucket_items bs)
unfolding waves_of
wave_items-waves_of bs =
    Perm.trans (wave_items-finish (sort wave_order (group_waves (bucket_items bs) []))) (
      Perm.trans (wave_items-sort (group_waves (bucket_items bs) []))
        (rw (append_nil (bucket_items bs)) at (wave_items-group_waves (bucket_items bs) [])))
  where
    append_nil : (a : List PlannedItem) → (a ++ []) ≡ a
    append_nil [] = refl
    append_nil (x ∷ a) = ap (λ (r : List PlannedItem). x ∷ r) (append_nil a)

-- The items of a wave have its index.
abbrev pub OfWave : WavePlan → Type 0
OfWave w = All (λ i. i.wave_index ≡ w.index) w.items

-- No item of a wave costs more than the wave.
abbrev pub IsCosted : WavePlan → Type 0
IsCosted w = All (λ i. i.planned_cost_seconds ≤ w.projected_cost_seconds) w.items

add_to_wave-OfWave :
    (i : PlannedItem) (ws : List WavePlan) → All OfWave ws → All OfWave (add_to_wave i ws)
unfolding add_to_wave
add_to_wave-OfWave i [] h = ((refl, tt), tt)
add_to_wave-OfWave i (w ∷ ws) h = elim (Bool-cases (nat_eq w.index i.wave_index)) [
  | inl e ↦ rw e (All-append _ w.items (i ∷ []) h.0 (same e, tt), h.1)
  | inr e ↦ rw e (h.0, add_to_wave-OfWave i ws h.1)
]
  where
    same : nat_eq w.index i.wave_index ≡ true → i.wave_index ≡ w.index
    same e = ground arith

group_waves-OfWave :
    (is : List PlannedItem) (ws : List WavePlan) → All OfWave ws → All OfWave (group_waves is ws)
unfolding group_waves
group_waves-OfWave [] ws h = h
group_waves-OfWave (i ∷ is) ws h =
    group_waves-OfWave is (add_to_wave i ws) (add_to_wave-OfWave i ws h)

costs_le :
    (is : List PlannedItem) (m : ℕ)
    → maximum (map (λ i. i.planned_cost_seconds) is) ≤ m
    → All (λ i. i.planned_cost_seconds ≤ m) is
costs_le [] m h = tt
costs_le (i ∷ is) m h = (omega arith, costs_le is m (omega arith))

finish_waves :
    (ws : List WavePlan) → All OfWave ws → All (λ w. OfWave w × IsCosted w) (map finish_wave ws)
finish_waves [] h = tt
finish_waves (w ∷ ws) h = (
  (
    All-sort _ bucket_order w.items h.0,
    All-sort _ bucket_order w.items (costs_le w.items _ (omega arith)),
  ),
  finish_waves ws h.1,
)

pub waves_of-OfWave : (bs : List BucketPlan) → All (λ w. OfWave w × IsCosted w) (waves_of bs)
unfolding waves_of
waves_of-OfWave bs =
    finish_waves _ (All-sort OfWave wave_order _ (group_waves-OfWave (bucket_items bs) [] tt))
