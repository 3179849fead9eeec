-- ===== src/Events/Planning.antt =====
-- The planning of one command in src/people_counter/fabric_events.py: `_heartbeat`, `_update`,
-- `_commit`, `_failure`, `_release` and `_plan`.
use people_counter.Prelude.{
  ℕ, zero, suc, ◌+◌, ◌-◌, ◌*◌, min, max, String, Bool, true, false, not, ◌&&◌, ◌||◌, List, [], ◌∷◌,
  ◌++◌, ltb, leb, ◌==◌, if◌then◌else◌, is_some, Result, ok, rejected, ◌>>◌, require,
}
use people_counter.Events.{
  Value, null, text, time, number, flag, same, Row, Entry, ◌:=◌, lookup, put, value_or, matches,
  is_null, is_since, is_active, Failure, Kind, claim_execution, commit, heartbeat, attempt_update,
  failure, release, Command, Plan, no_change, identity, owner, live, transition, lease_clear,
  minute,
}

-- `_attempt_updates`, of timestamps that are already in UTC
unfoldable pub attempt_updates : ℕ → List Entry → List Entry
unfolding lookup put
attempt_updates created_at updates =
    let beat =
      (if is_some (lookup "last_heartbeat_at" updates)
        then put "last_heartbeat_at" (time created_at) updates
        else updates) in
    if same (value_or (lookup "status" updates) null) (text "SUCCEEDED")
    then put "completed_at" (time created_at) beat
    else beat

-- The renewed end of the lease: never before the one that the row has.
abbrev pub renewed : Value → ℕ → ℕ
renewed (time t) n = max n t
renewed _ n = n

unfoldable pub heartbeat_work : Command → String → Row → List Entry
heartbeat_work c status work =
    ("status" := text status)
    ∷ ("last_heartbeat_at" := time c.created_at)
    ∷ ("lease_expires_at"
        := time (renewed (work "lease_expires_at") (c.created_at + c.lease_minutes * minute)))
    ∷ []

unfoldable pub heartbeat_attempt : Command → String → List Entry → List Entry
unfolding attempt_updates
heartbeat_attempt c status updates =
    put "last_heartbeat_at" (time c.created_at)
      (put "status" (text status) (attempt_updates c.created_at updates))

unfoldable pub plan_heartbeat : Command → String → List Entry → Row → Row → ℕ → Result Plan
unfolding heartbeat_work heartbeat_attempt
plan_heartbeat c status updates work attempt now =
    let work_updates = heartbeat_work c status work in
    let attempts = heartbeat_attempt c status updates in
    if matches work work_updates && matches attempt attempts then ok no_change else do
      live c work now
      transition (work "status") (text status)
      transition (attempt "status") (text status)
      require
          (is_null (work "last_heartbeat_at") || is_since (work "last_heartbeat_at") c.created_at)
          rejected
      require
          (ltb now (renewed (work "lease_expires_at") (c.created_at + c.lease_minutes * minute)))
          rejected
      ok (record { work = work_updates; attempt = attempts })

-- An attempt that has succeeded.
unfoldable pub update_succeeded : Command → List Entry → Row → Row → Result Plan
update_succeeded c updates work attempt = do
  require
      (same (work "status") (text "WRITING")
        && same (value_or (lookup "status" updates) null) (text "SUCCEEDED")
        && matches attempt updates
        && same (attempt "completed_at") (time c.created_at))
      rejected
  ok no_change

-- An attempt that is at work.
unfoldable pub update_active : Command → List Entry → Row → Row → ℕ → Result Plan
update_active c updates work attempt now = do
  let target = value_or (lookup "status" updates) (attempt "status")
  live c work now
  require (is_active (attempt "status") && same (attempt "status") (work "status")) rejected
  require
      (same target (attempt "status")
        || (same target (text "SUCCEEDED") && same (work "status") (text "WRITING")))
      rejected
  require (not (is_some (lookup "completed_at" updates)) || same target (text "SUCCEEDED")) rejected
  ok (record { work = []; attempt = updates })

unfoldable pub plan_update : Command → List Entry → Row → Row → ℕ → Result Plan
unfolding attempt_updates update_succeeded update_active
plan_update c entries work attempt now =
    let updates = attempt_updates c.created_at entries in
    if same (attempt "status") (text "SUCCEEDED")
    then update_succeeded c updates work attempt
    else update_active c updates work attempt now

unfoldable pub commit_work : Command → List Entry
commit_work c =
    lease_clear
    ++ ("status" := text "SUCCEEDED")
      ∷ ("committed_attempt_id" := text c.attempt_id)
      ∷ ("completed_at" := time c.created_at)
      ∷ ("not_before_at" := null)
      ∷ ("last_error_category" := null)
      ∷ ("last_error_type" := null)
      ∷ ("last_error_message" := null)
      ∷ []

unfoldable pub plan_commit : Command → Row → Row → ℕ → Result Plan
unfolding commit_work
plan_commit c work attempt now = do
  require (same (attempt "status") (text "SUCCEEDED")) rejected
  if same (work "status") (text "SUCCEEDED")
        && same (work "committed_attempt_id") (text c.attempt_id)
      then ok no_change
      else do
        owner c work attempt
        live c work now
        require (same (work "status") (text "WRITING")) rejected
        ok (record { work = commit_work c; attempt = [] })

-- `work["attempt_count"] >= work["max_attempts"]`, of two integers
abbrev pub exhausted : Value → Value → Bool
exhausted (number count) (number limit) = leb limit count
exhausted _ _ = false

abbrev pub number_of : Value → ℕ
number_of (number n) = n
number_of _ = 0

unfoldable pub power : ℕ → ℕ
power zero = 1
power (suc n) = 2 * power n

-- `min(60, 2 ** min(6, max(0, attempt_count - 1)))`, in minutes
unfoldable pub retry_delay : ℕ → ℕ
unfolding power
retry_delay count = min 60 (power (min 6 (count - 1)))

unfoldable pub failed_status : Failure → Row → String
failed_status f work =
    if exhausted (work "attempt_count") (work "max_attempts")
    then "DEAD_LETTERED"
    else if f.retryable
    then "RETRY_WAIT"
    else "TERMINAL_FAILED"

-- `payload` without `lease_lost`, with the status and the completion
unfoldable pub failure_attempt : Command → Failure → Row → List Entry
unfolding failed_status
failure_attempt c f work =
    let status = failed_status f work in
    ("error_category" := text f.error_category)
    ∷ ("error_type" := text f.error_type)
    ∷ ("error_message" := text f.error_message)
    ∷ ("retryable" := flag f.retryable)
    ∷ ("processed_frames" := f.processed_frames)
    ∷ ("processing_seconds" := f.processing_seconds)
    ∷ ("status" := text (if status == "RETRY_WAIT" && f.lease_lost then "LEASE_LOST" else status))
    ∷ ("completed_at" := time c.created_at)
    ∷ []

-- The entries that only a retry has.
abbrev pub retry_entries : Bool → ℕ → List Entry
retry_entries true created_at = ("queue_entered_at" := time created_at) ∷ []
retry_entries false created_at = []

unfoldable pub failure_work : Command → Failure → Row → List Entry
unfolding failed_status retry_delay
failure_work c f work =
    let status = failed_status f work in
    let retry = status == "RETRY_WAIT" in
    let delay = retry_delay (number_of (work "attempt_count")) in
    lease_clear
    ++ ("status" := text status)
      ∷ ("not_before_at" := (if retry then time (c.created_at + delay * minute) else null))
      ∷ ("last_error_category" := text f.error_category)
      ∷ ("last_error_type" := text f.error_type)
      ∷ ("last_error_message" := text f.error_message)
      ∷ retry_entries retry c.created_at

unfoldable pub plan_failure : Command → Failure → Row → Row → ℕ → Result Plan
unfolding failure_attempt failure_work
plan_failure c f work attempt now = do
  require (is_null (work "committed_attempt_id")) rejected
  if matches work (failure_work c f work) && matches attempt (failure_attempt c f work)
      then ok no_change
      else do
        owner c work attempt
        require (leb c.created_at now) rejected
        require (is_since (work "lease_acquired_at") c.created_at) rejected
        require (is_active (attempt "status") || matches attempt (failure_attempt c f work))
            rejected
        ok (record { work = failure_work c f work; attempt = failure_attempt c f work })

unfoldable pub release_attempt : Command → String → List Entry
release_attempt c reason =
    ("status" := text "RELEASED")
    ∷ ("completed_at" := time c.created_at)
    ∷ ("retryable" := flag true)
    ∷ ("error_category" := text "WORKER_BUDGET")
    ∷ ("error_type" := text "WorkerLifetimeReached")
    ∷ ("error_message" := text reason)
    ∷ []

unfoldable pub release_work : Command → Row → List Entry
release_work c work =
    lease_clear
    ++ ("status" := text "RETRY_WAIT")
      ∷ ("attempt_count" := number (number_of (work "attempt_count") - 1))
      ∷ ("not_before_at" := time c.created_at)
      ∷ ("last_error_category" := null)
      ∷ ("last_error_type" := null)
      ∷ ("last_error_message" := null)
      ∷ []

-- The work has been released by this command.
unfoldable pub release_applied : Command → Row → Bool
release_applied c work =
    same (work "status") (text "RETRY_WAIT")
    && is_null (work "lease_owner_attempt_id")
    && is_null (work "lease_dispatcher_id")
    && is_null (work "lease_acquired_at")
    && is_null (work "lease_expires_at")
    && same (work "not_before_at") (time c.created_at)

-- The check of the lease, or of the times alone once the attempt is released.
unfoldable pub release_live : Command → Bool → Row → ℕ → Result (Unit {0})
release_live c false work now = live c work now
release_live c true work now = do
  require (leb c.created_at now) rejected
  require (is_since (work "lease_acquired_at") c.created_at) rejected

unfoldable pub plan_release : Command → String → Row → Row → ℕ → Result Plan
unfolding release_attempt release_work release_applied release_live
plan_release c reason work attempt now =
    let applied = matches attempt (release_attempt c reason) in
    if applied && release_applied c work then ok no_change else do
      owner c work attempt
      release_live c applied work now
      require (same (work "status") (text "LEASED")) rejected
      require (same (attempt "status") (text "LEASED") || applied) rejected
      require (is_null (attempt "inference_started_at")) rejected
      ok (record { work = release_work c work; attempt = release_attempt c reason })

unfoldable pub plan_claim : Command → Row → Row → ℕ → Result Plan
plan_claim c work attempt now = do
  owner c work attempt
  live c work now
  require (same (work "status") (text "LEASED") && same (attempt "status") (text "LEASED")) rejected
  require
      (is_null (attempt "worker_execution_id")
        || same (attempt "worker_execution_id") (text c.worker_execution_id))
      rejected
  ok (record { work = []; attempt = ("worker_execution_id" := text c.worker_execution_id) ∷ [] })

-- `_plan` once the identity is checked.
unfoldable pub plan_kind : Kind → Command → Row → Row → ℕ → Result Plan
plan_kind claim_execution c work attempt now = plan_claim c work attempt now
plan_kind commit c work attempt now = plan_commit c work attempt now
plan_kind (failure f) c work attempt now = plan_failure c f work attempt now
plan_kind (release reason) c work attempt now = plan_release c reason work attempt now
plan_kind (heartbeat status updates) c work attempt now = do
  owner c work attempt
  plan_heartbeat c status updates work attempt now
plan_kind (attempt_update updates) c work attempt now = do
  owner c work attempt
  plan_update c updates work attempt now

-- A command other than a claim comes from the execution that the attempt has.
unfoldable pub same_execution : Kind → Command → Row → Bool
same_execution claim_execution c attempt = true
same_execution _ c attempt = same (attempt "worker_execution_id") (text c.worker_execution_id)

unfoldable pub plan : Command → Row → Row → ℕ → Result Plan
unfolding plan_kind same_execution
plan c work attempt now = do
  identity c work attempt
  require (same_execution c.kind c attempt) rejected
  plan_kind c.kind c work attempt now
