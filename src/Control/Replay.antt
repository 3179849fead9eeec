-- ===== src/Control/Replay.antt =====
-- `replay`, `_matching_last_replay` and `quarantine` of src/people_counter/sjd_control.py.
pub mod Again
use people_counter.Prelude.{
  ℕ, ◌+◌, String, Bool, not, ◌&&◌, ◌||◌, Option, none, some, List, [], ◌∷◌, ◌++◌, nat_eq, opt_is,
  is_some, ◌==◌, if◌then◌else◌, Result, ok, err, key_error, value_error, control_error,
  immutable_conflict, integrity_error, ◌>>=◌, ◌>>◌, require,
}
use people_counter.Prelude.Texts.{prefixed}
use people_counter.Prelude.Rows.{find, update, any, every}
use people_counter.Control.Tables.{
  Work, WorkStatus, is_ready, is_dead, Replay, ReplayRequest, Store, Codec,
}
use people_counter.Control.Texts.{required_text, validated_sha256, within_hundred}
use people_counter.Control.Register.{has_id}

abbrev request_of : Replay → ReplayRequest
request_of r = record {
  replay_id = r.replay_id;
  work_id = r.work_id;
  operator = r.operator;
  reason = r.reason;
  generation = r.generation;
  requested_at = r.requested_at;
}

-- The row of the last replay, if it asked for the same and the work still waits on it.
matching_row : Work → String → String → ℕ → Option Replay → Option ReplayRequest
matching_row w operator reason extra none = none
matching_row w operator reason extra (some r) =
    if r.operator == operator
      && r.reason == reason
      && nat_eq r.additional_attempts extra
      && nat_eq (w.attempt_count + extra) w.max_attempts
    then some (request_of r)
    else none

matching_id : Option String → Work → String → String → ℕ → Store → Option ReplayRequest
unfolding matching_row
matching_id none w operator reason extra s = none
matching_id (some k) w operator reason extra s =
    if is_ready w.status
    then matching_row w operator reason extra (find (λ r. r.replay_id == k) s.replay_requests)
    else none

-- `_matching_last_replay`
unfoldable pub matching_last_replay : Work → String → String → ℕ → Store → Option ReplayRequest
unfolding matching_id
matching_last_replay w = matching_id w.last_replay_id w

unfoldable pub replayed : ℕ → ℕ → String → ℕ → Work → Work
replayed extra generation replay_id now w = record w {
  status = WorkStatus.ready;
  max_attempts = w.attempt_count + extra;
  available_at = now;
  replay_generation = generation;
  last_replay_id = some replay_id;
  last_error = none;
  updated_at = now;
}

-- The writes for dead work, with PRIMARY KEY replay_id and UNIQUE(work_id, generation)
unfoldable pub replay_dead :
    Codec → String → String → ℕ → ℕ → Work → Store → Result (Store × ReplayRequest)
unfolding replayed
replay_dead c operator reason extra now w s = do
  require (not (is_some w.committed_attempt_id)) control_error
  let generation = w.replay_generation + 1
  let replay_id =
      prefixed "replay-" (c.sha256 (c.replay_json w.work_id generation operator reason extra))
  require
      (not (
        any
          (λ r.
            r.replay_id == replay_id || (r.work_id == w.work_id && nat_eq r.generation generation))
          s.replay_requests))
      integrity_error
  let row : Replay = record {
    replay_id = replay_id;
    work_id = w.work_id;
    operator = operator;
    reason = reason;
    generation = generation;
    requested_at = now;
    additional_attempts = extra;
  }
  ok (
    record s {
      replay_requests = s.replay_requests ++ row ∷ [];
      work =
          update (λ v. has_id w.work_id v && is_dead v.status)
            (replayed extra generation replay_id now) s.work;
    },
    request_of row,
  )

unfoldable pub replay_found :
    Codec → String → String → ℕ → ℕ → Work → Store → Result (Store × ReplayRequest)
unfolding matching_last_replay replay_dead
replay_found c operator reason extra now w s =
    if is_dead w.status
    then replay_dead c operator reason extra now w s
    else elim (matching_last_replay w operator reason extra s) [
      | none ↦ err control_error
      | some previous ↦ ok (s, previous)
    ]

unfoldable pub replay :
    Codec → String → String → String → ℕ → ℕ → Store → Result (Store × ReplayRequest)
unfolding replay_found
replay c k operator reason extra now s = do
  required_text k
  required_text operator
  required_text reason
  require (within_hundred extra) value_error
  elim (find (has_id k) s.work) [
    | none ↦ err key_error
    | some w ↦ replay_found c operator reason extra now w s
  ]

-- An entry of `expected_release_digests`: a work id and the digest that its release must have.
pub record Expected : Type 0 where
  pub work_id : String
  pub digest : String

check_expected : List Expected → Result (Unit {0})
unfolding required_text validated_sha256
check_expected [] = ok tt
check_expected (e ∷ es) = do required_text e.work_id; validated_sha256 e.digest; check_expected es

unfoldable pub quarantined : String → ℕ → Work → Work
quarantined marker now w = record w {
  status = WorkStatus.dead;
  available_at = now;
  last_error = some marker;
  updated_at = now;
}

-- WHERE work_id = ? AND status = 'READY' AND release_digest = ? AND committed_attempt_id IS NULL
abbrev pub quarantines : Expected → Work → Bool
quarantines e w =
    has_id e.work_id w
    && is_ready w.status
    && w.release_digest == e.digest
    && not (is_some w.committed_attempt_id)

-- One round of the loop, at the row `w` that was read before the loop.
unfoldable pub quarantine_row : String → ℕ → Expected → Work → Store → Result Store
unfolding quarantined
quarantine_row marker now e w s = do
  require (w.release_digest == e.digest) immutable_conflict
  if is_dead w.status && opt_is w.last_error marker then ok s else do
    require (is_ready w.status && not (is_some w.committed_attempt_id)) control_error
    ok (record s { work = update (quarantines e) (quarantined marker now) s.work })

-- The loop; `rows` are the rows that were read before it.
unfoldable pub quarantine_rows :
    Codec → String → String → ℕ → List Work → List Expected → Store → Result Store
unfolding quarantine_row
quarantine_rows c operator reason now rows [] s = ok s
quarantine_rows c operator reason now rows (e ∷ es) s = elim (find (has_id e.work_id) rows) [
  | none ↦ err key_error
  | some w ↦ do
    s' ← quarantine_row (c.marker_json operator reason e.digest) now e w s
    quarantine_rows c operator reason now rows es s'
]

-- `readback`: each expected work is dead.
unfoldable pub all_dead : List Expected → List Work → Bool
all_dead expected work =
    every (λ e. any (λ w. has_id e.work_id w && is_dead w.status) work) expected

-- The keys of `expected` are distinct, as those of a mapping are.
unfoldable pub quarantine : Codec → List Expected → String → String → ℕ → Store → Result Store
unfolding check_expected quarantine_rows all_dead
quarantine c [] operator reason now s = err value_error
quarantine c expected operator reason now s = do
  check_expected expected
  required_text operator
  required_text reason
  require (every (λ e. any (has_id e.work_id) s.work) expected) key_error
  s' ← quarantine_rows c operator reason now s.work expected s
  require (all_dead expected s'.work) control_error
  ok s'
