-- ===== src/Events/Again/Parts.antt =====
-- Which columns the updates of a failure, a release and a commit leave, and the parts of `plan`.
use people_counter.Prelude.{
  ℕ, ◌≡◌, refl, String, true, none, some, List, [], inl, inr, ◌==◌, Bool-cases, ok, rejected, ◌>>=◌,
  require, bind_returned, require_returned,
}
use people_counter.Prelude.Rows.{every}
use people_counter.Events.{
  Value, text, Row, Entry, lookup, assign, Kind, Failure, Command, Plan, identity,
}
use people_counter.Events.Planning.{
  failure_work, failure_attempt, failed_status, plan_kind, same_execution, plan,
}
use people_counter.Events.Updates.{distinct_columns}

-- The updates leave the column.
abbrev pub Leaves : List Entry → String → Type 0
Leaves us k = lookup k us ≡ none

pub assign-Leaves :
    (row : Row) (us : List Entry) (k : String) → Leaves us k → assign row us k ≡ row k
unfolding assign
assign-Leaves row us k h = rw h refl

pub assign-lookup :
    (row : Row) (us : List Entry) (k : String) {v : Value}
    → lookup k us ≡ some v
    → assign row us k ≡ v
unfolding assign
assign-lookup row us k h = rw h refl

-- The columns that `_identity` and the check of the execution read.
pub record KeepsWork (us : List Entry) : Type 0 where
  pub work_id : Leaves us "work_id"
  pub capture_date : Leaves us "capture_date"
  pub config_sha256 : Leaves us "config_sha256"

pub record KeepsAttempt (us : List Entry) : Type 0 where
  pub work_id : Leaves us "work_id"
  pub attempt_id : Leaves us "attempt_id"
  pub capture_date : Leaves us "capture_date"
  pub config_sha256 : Leaves us "config_sha256"
  pub execution : Leaves us "worker_execution_id"

pub nil-KeepsWork : KeepsWork []
unfolding lookup
nil-KeepsWork = record { work_id = refl; capture_date = refl; config_sha256 = refl }

pub nil-KeepsAttempt : KeepsAttempt []
unfolding lookup
nil-KeepsAttempt = record {
  work_id = refl;
  attempt_id = refl;
  capture_date = refl;
  config_sha256 = refl;
  execution = refl;
}

pub identity-assign :
    (c : Command) (work attempt : Row) (us vs : List Entry)
    → KeepsWork us
    → KeepsAttempt vs
    → identity c (assign work us) (assign attempt vs) ≡ identity c work attempt
unfolding identity
identity-assign c work attempt us vs h k =
    rw
      (
        assign-Leaves work us "work_id" h.work_id,
        assign-Leaves work us "capture_date" h.capture_date,
        assign-Leaves work us "config_sha256" h.config_sha256,
        assign-Leaves attempt vs "work_id" k.work_id,
        assign-Leaves attempt vs "attempt_id" k.attempt_id,
        assign-Leaves attempt vs "capture_date" k.capture_date,
        assign-Leaves attempt vs "config_sha256" k.config_sha256,
      )
      refl

pub same_execution-assign :
    (k : Kind) (c : Command) (attempt : Row) (vs : List Entry)
    → KeepsAttempt vs
    → same_execution k c (assign attempt vs) ≡ same_execution k c attempt
unfolding same_execution
same_execution-assign Kind.claim_execution c attempt vs h = refl
same_execution-assign Kind.commit c attempt vs h =
    rw (assign-Leaves attempt vs "worker_execution_id" h.execution) refl
same_execution-assign (Kind.heartbeat s us) c attempt vs h =
    rw (assign-Leaves attempt vs "worker_execution_id" h.execution) refl
same_execution-assign (Kind.attempt_update us) c attempt vs h =
    rw (assign-Leaves attempt vs "worker_execution_id" h.execution) refl
same_execution-assign (Kind.failure f) c attempt vs h =
    rw (assign-Leaves attempt vs "worker_execution_id" h.execution) refl
same_execution-assign (Kind.release r) c attempt vs h =
    rw (assign-Leaves attempt vs "worker_execution_id" h.execution) refl

-- A plan on updated rows is the plan of the kind there, if the updates keep what is checked before.
pub plan-assign :
    (c : Command) (work attempt : Row) (us vs : List Entry) (now later : ℕ) (p q : Plan)
    → plan c work attempt now ≡ ok p
    → KeepsWork us
    → KeepsAttempt vs
    → plan_kind c.kind c (assign work us) (assign attempt vs) later ≡ ok q
    → plan c (assign work us) (assign attempt vs) later ≡ ok q
unfolding plan ◌>>=◌ require
plan-assign c work attempt us vs now later p q e h k run =
    let (_, same_rows, e1) = bind_returned (identity c work attempt) _ e in
    let (mine, _) = require_returned (same_execution c.kind c attempt) rejected _ e1 in
    rw
      (
        identity-assign c work attempt us vs h k,
        same_rows,
        same_execution-assign c.kind c attempt vs k,
        mine,
        run,
      )
      refl

-- The plan of the kind, under a plan.
pub plan-plan_kind :
    (c : Command) (work attempt : Row) (now : ℕ) (p : Plan)
    → plan c work attempt now ≡ ok p
    → plan_kind c.kind c work attempt now ≡ ok p
unfolding plan
plan-plan_kind c work attempt now p e =
    let (_, _, e1) = bind_returned (identity c work attempt) _ e in
    (require_returned (same_execution c.kind c attempt) rejected _ e1).1

module _ (c : Command) (f : Failure) (work : Row) where
  pub failure_work-KeepsWork : KeepsWork (failure_work c f work)
  unfolding failure_work lookup
  failure_work-KeepsWork = elim (Bool-cases (failed_status f work == "RETRY_WAIT")) [
    | inl e ↦ record { work_id = rw e refl; capture_date = rw e refl; config_sha256 = rw e refl }
    | inr e ↦ record { work_id = rw e refl; capture_date = rw e refl; config_sha256 = rw e refl }
  ]

  -- The columns that a failure reads.
  pub failure_work-reads :
      Leaves (failure_work c f work) "committed_attempt_id"
      × Leaves (failure_work c f work) "attempt_count"
      × Leaves (failure_work c f work) "max_attempts"
  unfolding failure_work lookup
  failure_work-reads = elim (Bool-cases (failed_status f work == "RETRY_WAIT")) [
    | inl e ↦ rw e (refl, refl, refl)
    | inr e ↦ rw e (refl, refl, refl)
  ]

  pub failure_work-status :
      lookup "status" (failure_work c f work) ≡ some (text (failed_status f work))
  unfolding failure_work lookup
  failure_work-status = refl

  pub failure_work-distinct : distinct_columns (failure_work c f work) ≡ true
  unfolding failure_work distinct_columns every
  failure_work-distinct = elim (Bool-cases (failed_status f work == "RETRY_WAIT")) [
    | inl e ↦ rw e refl
    | inr e ↦ rw e refl
  ]

  pub failure_attempt-KeepsAttempt : KeepsAttempt (failure_attempt c f work)
  unfolding failure_attempt lookup
  failure_attempt-KeepsAttempt = record {
    work_id = refl;
    attempt_id = refl;
    capture_date = refl;
    config_sha256 = refl;
    execution = refl;
  }

  pub failure_attempt-dispatcher : Leaves (failure_attempt c f work) "dispatcher_id"
  unfolding failure_attempt lookup
  failure_attempt-dispatcher = refl

  pub failure_attempt-distinct : distinct_columns (failure_attempt c f work) ≡ true
  unfolding failure_attempt distinct_columns every
  failure_attempt-distinct = refl

  -- A failure's updates depend on the counts of the work alone.
  pub failure-again :
      (row : Row)
      → row "attempt_count" ≡ work "attempt_count"
      → row "max_attempts" ≡ work "max_attempts"
      → (failure_work c f row ≡ failure_work c f work)
        × (failure_attempt c f row ≡ failure_attempt c f work)
  unfolding failure_work failure_attempt failed_status
  failure-again row a b = (rw (a, b) refl, rw (a, b) refl)
