-- ===== src/Control/Recovery.antt =====
-- `recover` of src/people_counter/sjd_control.py raises nothing on a sound store, and what it leaves.
pub mod Progress
use people_counter.Prelude.{
  ℕ, ◌+◌, ◌≡◌, refl, ◌∙◌, inl, inr, String, Bool, true, false, ◌&&◌, not, leb, map, ◌⊎◌, Option,
  none, some, List, [], ◌∷◌, arith, All, All-imp, eq_iff, is_some, opt_is, ok, bind-ok,
  require-true, ◌>>=◌, require, Bool-cases,
}
use people_counter.Prelude.Rows.{update, count, select, select-All, All-select, All-update_cases}
use people_counter.Prelude.Sorting.{sort, All-sort, length-sort}
use people_counter.Prelude.Keys.{Distinct, Distinct-update}
use people_counter.Prelude.Membership.{In, All-In, All_of_In, In-update, In-select, In-select_inv}
use people_counter.Prelude.Unique.{In-sort, Distinct-sort, Distinct-select, count_one}
use people_counter.Prelude.Counting.{length-select, count-select, count_not, count-sort}
use people_counter.Control.Recovery.Progress.{
  owned, owned_self, owned-id, has_expired, is_used_up, recovered, batch_has_expired,
  recovered_batch, AttemptAfter, IsClosed, Pairs, Pairs-refl, IsProgress, row-IsProgress,
  IsProgress-done,
}
use people_counter.Control.Tables.{Work, Attempt, Batch, batch_active, Store, RecoveryReport}
use people_counter.Control.Commit.{
  outcome, released, or_empty, exhausted, lease_expired, recover_row, recover_rows, work_order,
  recover, expire_batch,
}
use people_counter.Control.Sound.{IsSoundRow, IsSound}

released-not_expired :
    (now : ℕ) (n m t : ℕ) (reason : String) (w : Work)
    → lease_expired now (released (outcome n m) reason t w) ≡ false
unfolding released outcome
released-not_expired now n m t reason w = ground arith

-- The loop has still to do the rows `ws`: they are in the table, and no other row of it has expired.
record IsPending (now : ℕ) (ws work : List Work) : Type 0 where
  sound : All IsSoundRow ws
  expired : All (λ w. lease_expired now w ≡ true) ws
  present : All (λ w. In w work) ws
  apart : Distinct (λ w. w.work_id) ws
  covers : All (λ v. lease_expired now v ≡ true → In v ws) work

row_step :
    (now n m : ℕ) (reason : String) (w : Work) (ws work : List Work)
    → Distinct (λ v. v.work_id) (update (owned w) (released (outcome n m) reason now) work)
    → IsPending now (w ∷ ws) work
    → IsPending now ws (update (owned w) (released (outcome n m) reason now) work)
row_step now n m reason w ws work d h = record {
  sound = h.sound.1;
  expired = h.expired.1;
  present =
      All_of_In _ ws
        (λ v k. In-update (owned w) _ v work (apart v k) (All-In _ ws v h.present.1 k));
  apart = h.apart.1;
  covers =
      All-update_cases _ _ (owned w) _
        (λ v _ _ t. absurd (false≢true_at (released-not_expired now n m now reason v) t))
        (λ v c e t. tail v e (c t)) work h.covers;
}
  where
    false≢true_at : {b : Bool} → b ≡ false → b ≡ true → ⊥
    false≢true_at p q = grind arith

    self : owned w w ≡ true
    self = owned_self now w h.sound.0 h.expired.0

    apart : (v : Work) → In v ws → owned w v ≡ false
    apart v k = elim (Bool-cases (owned w v)) [
      | inl t ↦ absurd (All-In _ ws v h.apart.0 k (owned-id w v t))
      | inr t ↦ t
    ]

    tail : (v : Work) → owned w v ≡ false → In v (w ∷ ws) → In v ws
    tail v e (inl q) = absurd (false≢true_at (rw q at e) self)
    tail v e (inr k) = k

module _ (now : ℕ) (before : Store) where
  abbrev Progress : List Work → Store → Type 0
  Progress ws s = IsProgress now before.work s.work before.attempts s.attempts ws

  row_done :
      (w : Work) (ws : List Work) (s : Store)
      → Distinct (λ v. v.work_id) s.work
      → IsPending now (w ∷ ws) s.work
      → Progress (w ∷ ws) s
      → (t : Store) × (recover_row now w s ≡ ok t)
        × Distinct (λ v. v.work_id) t.work
        × IsPending now ws t.work
        × Progress ws t
        × (t.batches ≡ s.batches)
  unfolding recover_row ◌>>=◌ require
  row_done w ws s d h p =
      let one : count (owned w) s.work ≡ 1 =
        count_one (λ v. v.work_id) (owned w) w s.work d h.present.0
          (owned_self now w h.sound.0 h.expired.0) (owned-id w) in
      let keys : Distinct (λ v. v.work_id)
          (update (owned w) (released (outcome w.attempt_count w.max_attempts) "lease expired" now)
            s.work) =
        Distinct-update (λ v. v.work_id) (owned w) _ (λ v. unfold released in refl) s.work d in
      (
        _,
        require-true _ _ (rw one refl),
        keys,
        row_step now w.attempt_count w.max_attempts "lease expired" w ws s.work keys h,
        row-IsProgress now before.work s.work before.attempts s.attempts w ws d h.sound.0
            h.present.0 h.expired.0 p,
        refl,
      )

  rows_done :
      (ws : List Work) (s : Store)
      → Distinct (λ w. w.work_id) s.work
      → IsPending now ws s.work
      → Progress ws s
      → (t : Store) × (recover_rows now ws s ≡ ok t)
        × All (λ w. lease_expired now w ≡ false) t.work
        × Progress [] t
        × (t.batches ≡ s.batches)
  unfolding recover_rows ◌>>=◌
  rows_done [] s d h p = (
    s,
    refl,
    All-imp _ _
        (λ w c. elim (Bool-cases (lease_expired now w)) [ inl t ↦ absurd (c t) | inr t ↦ t ]) s.work
        h.covers,
    p,
    refl,
  )
  rows_done (w ∷ ws) s d h p =
      let (s', e, d', h', p', b) = row_done w ws s d h p in
      let (t, q, k, p'', b') = rows_done ws s' d' h' p' in (t, rw e q, k, p'', b' ∙ b)

start-IsPending :
    (now : ℕ) (s : Store)
    → IsSound s
    → IsPending now (sort work_order (select (lease_expired now) s.work)) s.work
start-IsPending now s h = record {
  sound = All-sort _ work_order _ (All-select _ (lease_expired now) s.work h.rows);
  expired = All-sort _ work_order _ (select-All (lease_expired now) s.work);
  present =
      All-sort _ work_order _
        (All_of_In _ _ (λ w m. (In-select_inv (lease_expired now) w s.work m).0));
  apart = Distinct-sort _ work_order _ (Distinct-select _ (lease_expired now) s.work h.unique);
  covers =
      All_of_In _ s.work
        (λ w m e. In-sort work_order w _ (In-select (lease_expired now) w s.work m e));
}

start-IsProgress :
    (now : ℕ) (s : Store) → Progress now s (sort work_order (select (lease_expired now) s.work)) s
start-IsProgress now s = record {
  origin =
      All-sort _ work_order _
        (All_of_In _ _ (λ w m. (In-select_inv (lease_expired now) w s.work m).0));
  rows = Pairs-refl _ (λ x. inl refl) s.work;
  leases = Pairs-refl _ (λ a. inl refl) s.attempts;
  closed = λ w m e. inl (In-sort work_order w _ (In-select (lease_expired now) w s.work m e));
}

batches_written :
    (now : ℕ) (bs : List Batch)
    → update (λ b. batch_active b.status && leb b.lease_expires_at now) expire_batch bs
      ≡ map (recovered_batch now) bs
unfolding update
batches_written now [] = refl
batches_written now (b ∷ bs) = rw (batches_written now bs) refl

batches_finished :
    (now : ℕ) (bs : List Batch)
    → All (λ b. batch_has_expired now b ≡ false) (map (recovered_batch now) bs)
batches_finished now [] = tt
batches_finished now (b ∷ bs) = (not_active b, batches_finished now bs)
  where
    not_active : (c : Batch) → batch_has_expired now (recovered_batch now c) ≡ false
    not_active c = elim (Bool-cases (batch_has_expired now c)) [
      | inl q ↦ rw q refl
      | inr q ↦ rw (q, q) refl
    ]

-- What `recover` promises of the store `s` that it starts from.
pub record IsRecovery (now : ℕ) (s t : Store) (r : RecoveryReport) : Type 0 where
  pub work : t.work ≡ map (recovered now) s.work
  pub finished : All (λ w. has_expired now w ≡ false) t.work
  pub batches : t.batches ≡ map (recovered_batch now) s.batches
  pub batches_finished : All (λ b. batch_has_expired now b ≡ false) t.batches
  pub attempts : Pairs (AttemptAfter now s.work) s.attempts t.attempts
  pub closed : All (λ w. (has_expired now w ≡ false) ⊎ IsClosed t.attempts w) s.work
  pub all : r.recovered ≡ count (has_expired now) s.work
  pub dead : r.dead ≡ count (λ w. has_expired now w && is_used_up w) s.work
  pub retried : r.retried ≡ count (λ w. has_expired now w && not (is_used_up w)) s.work

-- On a store that satisfies the invariant, `recover` raises nothing. Every row of the work whose lease
-- had expired is dead, if it has no attempt left, or ready from now on, its lease cleared; the other
-- rows are unchanged; so no lease of a row has expired any more. The same of the batches: those that
-- were active with a lease that had expired are EXPIRED, the others unchanged. An attempt is unchanged,
-- or it was active for a row that has been recovered and is EXPIRED with that row's outcome; no active
-- attempt of a lease that had expired is left. The report counts the rows whose lease had expired and,
-- of them, those that are dead and those that are ready.
pub recover-IsRecovery :
    (now : ℕ) (s : Store)
    → IsSound s
    → (t : Store) × (r : RecoveryReport) × (recover now s ≡ ok (t, r)) × IsRecovery now s t r
unfolding recover ◌>>=◌
recover-IsRecovery now s h =
    let (t, e, k, p, same) =
      rows_done now s _ s h.unique (start-IsPending now s h) (start-IsProgress now s) in
    let written : update (λ b. batch_active b.status && leb b.lease_expires_at now) expire_batch
          t.batches
        ≡ map (recovered_batch now) s.batches =
      rw same (batches_written now s.batches) in
    (
      _,
      _,
      bind-ok _ e,
      record {
        work = IsProgress-done now s.work t.work s.attempts t.attempts p k;
        finished = k;
        batches = written;
        batches_finished = rw written (batches_finished now s.batches);
        attempts = p.leases;
        closed = All_of_In _ s.work (λ w m. closed_rows w t.attempts (p.closed w m));
        all = length-sort work_order _ ∙ length-select (lease_expired now) s.work;
        dead =
            count-sort work_order exhausted _ ∙ count-select (lease_expired now) exhausted s.work;
        retried =
            count-sort work_order (λ w. not (exhausted w)) _
            ∙ count-select (lease_expired now) (λ w. not (exhausted w)) s.work;
      },
    )
  where
    closed_rows :
        (w : Work) (attempts : List Attempt)
        → (has_expired now w ≡ true → In w [] ⊎ IsClosed attempts w)
        → (has_expired now w ≡ false) ⊎ IsClosed attempts w
    closed_rows w attempts c = elim (Bool-cases (has_expired now w)) [
      | inl q ↦ none_left (c q)
      | inr q ↦ inl q
    ]
      where
        none_left :
            In w [] ⊎ IsClosed attempts w → (has_expired now w ≡ false) ⊎ IsClosed attempts w
        none_left (inl m) = absurd m
        none_left (inr k) = inr k
