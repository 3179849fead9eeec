-- ===== src/Events/Again/Failure.antt =====
-- A failure planned again: after a crash between its two writes, and once both are made.
use people_counter.Prelude.{
  ℕ, ◌≤◌, ◌≡◌, refl, ◌∙◌, String, Bool, true, false, ◌&&◌, ◌||◌, List, [], arith, ◌⊎◌, inl, inr,
  leb, eq_iff, leb→le, le→leb, Bool-cases, ok, ◌>>=◌, require, Returns, Returns-ok, Returns-require,
  Returns-if, Returns-bind, if◌then◌else◌,
}
use people_counter.Events.{
  Value, null, text, time, number, same, Row, Entry, lookup, assign, matches, is_null, is_since,
  is_active, flag, active_index, Failure, Command, Plan, no_change, owner,
}
use people_counter.Events.Planning.{
  plan_failure, failure_work, failure_attempt, failed_status, exhausted,
}
use people_counter.Events.Updates.{matches-assign, matches-lookup}
use people_counter.Events.Again.Parts.{
  Leaves, assign-Leaves, assign-lookup, KeepsWork, KeepsAttempt, nil-KeepsWork, nil-KeepsAttempt,
  failure_work-KeepsWork, failure_work-reads, failure_attempt-dispatcher, failure_work-status,
  failure_work-distinct, failure_attempt-KeepsAttempt, failure_attempt-distinct, failure-again,
}
use people_counter.Events.Owned.{owner-IsOwner}

pub assign-nil : (row : Row) → assign row [] ≡ row
unfolding assign lookup
assign-nil row = refl

-- What a planned failure has checked, when it changes something.
record FailsFresh (c : Command) (f : Failure) (work attempt : Row) (now : ℕ) (p : Plan)
    : Type 0 where
  planned : p ≡ record { work = failure_work c f work; attempt = failure_attempt c f work }
  uncommitted : is_null (work "committed_attempt_id") ≡ true
  owned : owner c work attempt ≡ ok tt
  past : leb c.created_at now ≡ true
  acquired : is_since (work "lease_acquired_at") c.created_at ≡ true

-- The failure was applied before.
record FailsDone (c : Command) (f : Failure) (work attempt : Row) (p : Plan) : Type 0 where
  planned : p ≡ no_change
  uncommitted : is_null (work "committed_attempt_id") ≡ true
  matched :
      (matches work (failure_work c f work) && matches attempt (failure_attempt c f work)) ≡ true

plan_failure_cases :
    (c : Command) (f : Failure) (work attempt : Row) (now : ℕ)
    → Returns
        (λ p. FailsDone c f work attempt p ⊎ FailsFresh c f work attempt now p)
        (plan_failure c f work attempt now)
unfolding plan_failure
plan_failure_cases c f work attempt now = Returns-require _ _ _ λ uncommitted.
    Returns-if (matches work (failure_work c f work) && matches attempt (failure_attempt c f work))
      _ _
      (λ m. Returns-ok _ (inl (record { planned = refl; uncommitted = uncommitted; matched = m })))
      λ _. Returns-bind (owner c work attempt) _ λ _ o. Returns-require _ _ _ λ past.
        Returns-require _ _ _ λ acquired. Returns-require _ _ _ λ _. Returns-ok _ (
          inr (record {
            planned = refl;
            uncommitted = uncommitted;
            owned = o;
            past = past;
            acquired = acquired;
          }))

plan_failure-done :
    (c : Command) (f : Failure) (work attempt : Row) (now : ℕ)
    → is_null (work "committed_attempt_id") ≡ true
    → (matches work (failure_work c f work) && matches attempt (failure_attempt c f work)) ≡ true
    → plan_failure c f work attempt now ≡ ok no_change
unfolding plan_failure ◌>>=◌ require
plan_failure-done c f work attempt now a b = rw (a, b) refl

-- A failure whose updates are in the rows has nothing left to write.
pub plan_failure-again :
    (c : Command) (f : Failure) (work attempt : Row) (now later : ℕ) (p : Plan)
    → plan_failure c f work attempt now ≡ ok p
    → plan_failure c f (assign work p.work) (assign attempt p.attempt) later ≡ ok no_change
plan_failure-again c f work attempt now later p e =
    elim ((plan_failure_cases c f work attempt now).at p e) [
      | inl d ↦
          rw (d.planned, assign-nil work, assign-nil attempt)
            (plan_failure-done c f work attempt later d.uncommitted d.matched)
      | inr d ↦ rw d.planned (fresh d.uncommitted)
    ]
  where
    fresh :
        is_null (work "committed_attempt_id") ≡ true
        → plan_failure c f
            (assign work (failure_work c f work))
            (assign attempt (failure_attempt c f work))
            later
          ≡ ok no_change
    fresh uncommitted =
        let us = failure_work c f work in
        let (a, b, d) = failure_work-reads c f work in
        let (x, y) =
          failure-again c f work (assign work us) (assign-Leaves work us "attempt_count" b)
            (assign-Leaves work us "max_attempts" d) in
        plan_failure-done c f (assign work us) (assign attempt (failure_attempt c f work)) later
          (rw (assign-Leaves work us "committed_attempt_id" a) uncommitted)
          (rw
            (
              x,
              y,
              matches-assign work us (failure_work-distinct c f work),
              matches-assign attempt (failure_attempt c f work) (failure_attempt-distinct c f work),
            )
            refl)

-- A status that is not active is not the status of an active work.
pub not_active :
    (v : Value) (s : String)
    → same v (text s) ≡ true
    → is_active (text s) ≡ false
    → is_active v ≡ false
not_active null s h k = cc
not_active (text t) s h k = rw ((eq_iff t s).0 h) k
not_active (time n) s h k = cc
not_active (number n) s h k = cc
not_active (flag true) s h k = cc
not_active (flag false) s h k = cc

failed_status-active : (f : Failure) (work : Row) → is_active (text (failed_status f work)) ≡ false
unfolding failed_status is_active active_index
failed_status-active f work =
    elim (Bool-cases (exhausted (work "attempt_count") (work "max_attempts"))) [
      | inl e ↦ rw e refl
      | inr e ↦ rw e (retried f.retryable)
    ]
  where
    retried : (b : Bool) → is_active (text (if b then "RETRY_WAIT" else "TERMINAL_FAILED")) ≡ false
    retried true = refl
    retried false = refl

-- An active work does not have the updates of a failure.
active-matches :
    (c : Command) (f : Failure) (work : Row)
    → is_active (work "status") ≡ true
    → matches work (failure_work c f work) ≡ false
active-matches c f work h = elim (Bool-cases (same (work "status") (text (failed_status f work)))) [
  | inl e ↦
      absurd (
        clash h (not_active (work "status") (failed_status f work) e (failed_status-active f work)))
  | inr e ↦
      matches-lookup work (failure_work c f work) "status" (text (failed_status f work))
        (failure_work-status c f work) e
]
  where
    clash : {v : Bool} → v ≡ true → v ≡ false → ⊥
    clash a b = cc

pub owner-assign :
    (c : Command) (work attempt : Row) (vs : List Entry)
    → Leaves vs "dispatcher_id"
    → owner c work (assign attempt vs) ≡ owner c work attempt
unfolding owner
owner-assign c work attempt vs h = rw (assign-Leaves attempt vs "dispatcher_id" h) refl

plan_failure-fresh :
    (c : Command) (f : Failure) (work attempt : Row) (now : ℕ)
    → is_null (work "committed_attempt_id") ≡ true
    → (matches work (failure_work c f work)) ≡ false
    → owner c work attempt ≡ ok tt
    → leb c.created_at now ≡ true
    → is_since (work "lease_acquired_at") c.created_at ≡ true
    → matches attempt (failure_attempt c f work) ≡ true
    → plan_failure c f work attempt now
      ≡ ok (record { work = failure_work c f work; attempt = failure_attempt c f work })
unfolding plan_failure ◌>>=◌ require
plan_failure-fresh c f work attempt now a b o past acquired m =
    rw (a, b, o, past, acquired, m, or_true (is_active (attempt "status"))) refl
  where
    or_true : (b : Bool) → (b || true) ≡ true
    or_true b = ground arith

-- After a crash between the two writes of a failure, the failure is planned as before.
pub plan_failure-resumes :
    (c : Command) (f : Failure) (work attempt : Row) (now later : ℕ) (p : Plan)
    → now ≤ later
    → plan_failure c f work attempt now ≡ ok p
    → plan_failure c f work (assign attempt p.attempt) later ≡ ok p
plan_failure-resumes c f work attempt now later p h e =
    elim ((plan_failure_cases c f work attempt now).at p e) [
      | inl d ↦
          rw (d.planned, assign-nil attempt)
            (plan_failure-done c f work attempt later d.uncommitted d.matched)
      | inr d ↦
          let vs = failure_attempt c f work in
          let active = ((owner-IsOwner c work attempt).at tt d.owned).active in
          rw d.planned (
            plan_failure-fresh c f work (assign attempt vs) later d.uncommitted
              (active-matches c f work active)
              (owner-assign c work attempt vs (failure_attempt-dispatcher c f work) ∙ d.owned)
              (le→leb _ _ (le_later (leb→le _ _ d.past))) d.acquired
              (matches-assign attempt vs (failure_attempt-distinct c f work)))
    ]
  where
    le_later : c.created_at ≤ now → c.created_at ≤ later
    le_later k = omega arith

pub plan_failure-Keeps :
    (c : Command) (f : Failure) (work attempt : Row) (now : ℕ) (p : Plan)
    → plan_failure c f work attempt now ≡ ok p
    → KeepsWork p.work × KeepsAttempt p.attempt
plan_failure-Keeps c f work attempt now p e =
    elim ((plan_failure_cases c f work attempt now).at p e) [
      | inl d ↦ rw d.planned (nil-KeepsWork, nil-KeepsAttempt)
      | inr d ↦
          rw d.planned (failure_work-KeepsWork c f work, failure_attempt-KeepsAttempt c f work)
    ]

-- Once a failure is planned and written, the work is not active.
pub plan_failure-inactive :
    (c : Command) (f : Failure) (work attempt : Row) (now : ℕ) (p : Plan)
    → plan_failure c f work attempt now ≡ ok p
    → is_active (assign work p.work "status") ≡ false
plan_failure-inactive c f work attempt now p e =
    elim ((plan_failure_cases c f work attempt now).at p e) [
      | inl d ↦
          rw (d.planned, assign-nil work)
            (not_active (work "status") (failed_status f work)
              (matched (same (work "status") (text (failed_status f work))) refl d.matched)
              (failed_status-active f work))
      | inr d ↦
          rw
            (
              d.planned,
              assign-lookup work (failure_work c f work) "status" (failure_work-status c f work),
            )
            (failed_status-active f work)
    ]
  where
    matched :
        (b : Bool)
        → same (work "status") (text (failed_status f work)) ≡ b
        → (matches work (failure_work c f work) && matches attempt (failure_attempt c f work))
          ≡ true
        → same (work "status") (text (failed_status f work)) ≡ true
    matched true q m = q
    matched false q m =
        let differs =
          matches-lookup work (failure_work c f work) "status" (text (failed_status f work))
            (failure_work-status c f work) q in
        ground arith
