-- ===== src/Events/Tests.antt =====
-- A worker's failure and a drained inbox, and the theorems at them.
use people_counter.Prelude.{
  ℕ, ◌+◌, ◌≡◌, refl, String, true, false, some, List, [], ◌∷◌, ◌⊎◌, arith, ok, ◌==◌, ◌>>=◌, require,
  if◌then◌else◌,
}
use people_counter.Prelude.Rows.{select, any, every, update}
use people_counter.Prelude.Sorting.{sort}
use people_counter.Events.{
  null, text, time, number, Row, lookup, assign, matches, is_active, active_index, Kind, failure,
  Failure, Command, Plan, no_change, identity, owner,
}
use people_counter.Events.Planning.{
  plan, plan_kind, same_execution, plan_failure, failure_work, failure_attempt, failed_status,
  retry_delay,
}
use people_counter.Events.Owned.{IsAllowed, plan-IsAllowed}
use people_counter.Events.Again.{plan-plan, plan-resumes, plan-ends}
use people_counter.Events.Apply.{
  Event, Tables, Times, drain, pending, drain_events, drain_event, apply_event, decide,
  highest_sequence, unique, write_plan, write, unchanged, work_condition, is_live_write, persisted,
}
use people_counter.Events.Apply.Answer.{IsRead}
use people_counter.Events.Apply.Drained.{IsDraining, drain-IsDraining}

-- The columns that the two rows share.
abbrev base : Row
base k =
    if k == "work_id"
    then text "work"
    else if k == "capture_date"
    then number 7
    else if k == "config_sha256"
    then text "config"
    else null

abbrev work : Row
work k =
    if k == "status"
    then text "RUNNING"
    else if k == "lease_owner_attempt_id"
    then text "attempt"
    else if k == "lease_dispatcher_id"
    then text "dispatcher"
    else if k == "lease_acquired_at"
    then time 10
    else if k == "lease_expires_at"
    then time 100
    else if k == "attempt_count"
    then number 3
    else if k == "max_attempts"
    then number 5
    else base k

abbrev attempt : Row
attempt k =
    if k == "status"
    then text "RUNNING"
    else if k == "attempt_id"
    then text "attempt"
    else if k == "worker_execution_id"
    then text "execution"
    else if k == "dispatcher_id"
    then text "dispatcher"
    else base k

abbrev lost : Failure
lost = record {
  error_category = "IO";
  error_type = "Timeout";
  error_message = "slow";
  retryable = true;
  lease_lost = true;
  processed_frames = number 12;
  processing_seconds = null;
}

abbrev command_of : ℕ → Kind → Command
command_of n k = record {
  event_id = "event";
  work_id = "work";
  attempt_id = "attempt";
  worker_execution_id = "execution";
  capture_date = number 7;
  sequence = n;
  kind = k;
  created_at = 50;
  lease_minutes = 10;
}

abbrev failed : Plan
failed = record {
  work = failure_work (command_of 1 (failure lost)) lost work;
  attempt = failure_attempt (command_of 1 (failure lost)) lost work;
}

failed_run : plan (command_of 1 (failure lost)) work attempt 60 ≡ ok failed
unfolding plan plan_kind same_execution plan_failure failure_work failure_attempt failed_status
    retry_delay matches every identity owner is_active active_index ◌>>=◌ require
failed_run = refl

-- The third attempt waits four minutes.
failed_wait : assign work failed.work "not_before_at" ≡ time (50 + 240)
unfolding assign lookup failure_work failed_status retry_delay
failed_wait = refl

plan-IsAllowed_example :
    (failed ≡ no_change) ⊎ IsAllowed (command_of 1 (failure lost)) (failure lost) work attempt 60
plan-IsAllowed_example =
    plan-IsAllowed (command_of 1 (failure lost)) work attempt 60 failed failed_run

plan-plan_example :
    plan (command_of 1 (failure lost)) (assign work failed.work) (assign attempt failed.attempt) 30
    ≡ ok no_change
plan-plan_example =
    plan-plan (command_of 1 (failure lost)) work attempt 60 30 failed refl failed_run

plan-resumes_example :
    plan (command_of 1 (failure lost)) work (assign attempt failed.attempt) 90 ≡ ok failed
plan-resumes_example =
    plan-resumes (command_of 1 (failure lost)) work attempt 60 90 failed refl (omega arith)
      failed_run

plan-ends_example : no_change ≡ no_change
plan-ends_example =
    plan-ends (command_of 1 (failure lost)) (command_of 1 (failure lost)) work attempt
      (assign attempt failed.attempt) 60 70 failed no_change refl failed_run
      (plan-plan (command_of 1 (failure lost)) work attempt 60 70 failed refl failed_run)

abbrev event_of : String → ℕ → Event
event_of k n = record {
  event_id = k;
  work_id = "work";
  attempt_id = "attempt";
  worker_execution_id = "execution";
  sequence = n;
  created_at = 50;
  command = some (command_of n (failure lost));
}

abbrev inbox : List Event
inbox = event_of "second" 2 ∷ event_of "first" 1 ∷ []

abbrev tables : Tables
tables = record { video_work = work ∷ []; video_attempts = attempt ∷ []; receipts = [] }

abbrev clock : String → Times
clock k = record { planned = 60; written = 60 }

-- Both failures are acknowledged: the second finds nothing left to write.
drained : (drain clock 10 inbox tables).applied ≡ 2
unfolding drain pending drain_events drain_event apply_event decide highest_sequence unique
    write_plan write unchanged work_condition is_live_write persisted plan plan_kind same_execution
    plan_failure failure_work failure_attempt failed_status retry_delay matches assign lookup every
    any select sort update identity owner is_active active_index ◌>>=◌ require
drained = refl

drain-IsDraining_example :
    IsDraining [] (drain clock 10 inbox tables)
    × ((drain clock 10 inbox tables).raised ≡ false → (drain clock 10 inbox tables).batch ≡ [])
drain-IsDraining_example =
    drain-IsDraining clock 10 inbox tables tt (read 2 "second", (read 1 "first", tt))
  where
    read : (n : ℕ) (k : String) → IsRead (event_of k n)
    read n k c e = sequence_of (some_inj e)
      where
        some_inj : some (command_of n (failure lost)) ≡ some c → command_of n (failure lost) ≡ c
        some_inj q = cc

        sequence_of : command_of n (failure lost) ≡ c → c.sequence ≡ n
        sequence_of q = rw (← q) refl
