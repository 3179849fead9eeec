-- ===== src/Control/Process.antt =====
-- The calls of a running batch process in src/people_counter/sjd_control.py: `process_batch_state`,
-- `assert_process_fence`, `heartbeat_process` and `_assert_process_rows`.
pub mod Heartbeat
use people_counter.Prelude.{
  ℕ, ◌+◌, max, String, Bool, not, ◌&&◌, ◌||◌, none, some, List, [], ◌∷◌, ltb, nat_eq, opt_is, ◌==◌,
  Result, ok, err, key_error, lease_lost, batch_validation, ◌>>=◌, ◌>>◌, require,
}
use people_counter.Prelude.Rows.{select, find, update, count, any, every}
use people_counter.Control.Tables.{
  Work, is_leased, Batch, BatchStatus, batch_active, batch_leased, batch_committed, Attempt,
  attempt_leased, Store, ClaimedWork,
}
use people_counter.Control.Texts.{positive}
use people_counter.Control.Register.{has_id}

-- The part of a verified claim envelope that these methods read.
pub record ProcessEnvelope : Type 0 where
  pub batch_id : String
  pub envelope_sha256 : String
  pub membership_sha256 : String
  pub items : List ClaimedWork

-- A row of the join of attempts and work.
pub record Joined : Type 0 where
  pub attempt : Attempt
  pub work : Work

unfoldable pub join_row : List Work → Attempt → List Joined → List Joined
join_row work a rest = elim (find (has_id a.work_id) work) [
  | none ↦ rest
  | some w ↦ record { attempt = a; work = w } ∷ rest
]

-- attempts a JOIN work w ON w.work_id = a.work_id
unfoldable pub join : List Work → List Attempt → List Joined
unfolding join_row
join work [] = []
join work (a ∷ rest) = join_row work a (join work rest)

abbrev pub has_batch_id : String → Batch → Bool
has_batch_id k b = b.batch_id == k

abbrev pub in_batch : String → Attempt → Bool
in_batch k a = a.batch_id == k

abbrev same_claim : Attempt → ClaimedWork → Bool
same_claim a i =
    a.work_id == i.work_id
    && a.attempt_id == i.attempt_id
    && nat_eq a.fence i.fence
    && a.payload_sha256 == i.payload_sha256

-- `observed == expected`, as sets
unfoldable pub same_membership : List Joined → List ClaimedWork → Bool
same_membership rows items =
    every (λ r. any (same_claim r.attempt) items) rows
    && every (λ i. any (λ r. same_claim r.attempt i) rows) items

-- The attempt still holds the fence of its work.
unfoldable pub holds_fence : Joined → Bool
holds_fence r =
    is_leased r.work.status
    && opt_is r.work.lease_attempt_id r.attempt.attempt_id
    && nat_eq r.work.fence r.attempt.fence

assert_rows : ProcessEnvelope → Batch → BatchStatus → List Joined → Result (Unit {0})
unfolding holds_fence
assert_rows e b status [] = ok tt
assert_rows e b status (r ∷ rs) = do
  require (b.envelope_sha256 == e.envelope_sha256 && b.membership_sha256 == e.membership_sha256)
      batch_validation
  require (not (batch_active status) || holds_fence r) lease_lost
  assert_rows e b status rs

-- `_assert_process_rows`, for the batch `b` of the envelope's id.
unfoldable pub assert_process_rows :
    ProcessEnvelope → Batch → BatchStatus → Store → Result (Unit {0})
unfolding join same_membership assert_rows
assert_process_rows e b status s = do
  let rows = join s.work (select (in_batch e.batch_id) s.attempts)
  require (same_membership rows e.items) lease_lost
  assert_rows e b status rows

-- `process_batch_state`: the status of the batch and the end of its lease.
unfoldable pub process_batch_state : ProcessEnvelope → Store → Result (BatchStatus × ℕ)
process_batch_state e s = elim (find (has_batch_id e.batch_id) s.batches) [
  | none ↦ err key_error
  | some b ↦ assert_process_rows e b b.status s >> ok (b.status, b.lease_expires_at)
]

live_batch : ℕ → BatchStatus × ℕ → Result (Unit {0})
live_batch now (status, expires) =
    require (batch_committed status || (batch_active status && ltb now expires)) lease_lost

unfoldable pub assert_process_fence : ℕ → ProcessEnvelope → Store → Result (Unit {0})
unfolding process_batch_state live_batch
assert_process_fence now e s = do live ← process_batch_state e s; live_batch now live

-- WHERE work_id = ? AND status = 'LEASED' AND lease_attempt_id = ? AND fence = ?
abbrev pub owns : String → String → ℕ → Work → Bool
owns work_id attempt_id fence w =
    w.work_id == work_id
    && is_leased w.status
    && opt_is w.lease_attempt_id attempt_id
    && nat_eq w.fence fence

unfoldable pub extended : ℕ → ℕ → Work → Work
extended expires now w = record w { lease_expires_at = some expires; updated_at = now }

unfoldable pub extend_items : ℕ → ℕ → List ClaimedWork → Store → Result Store
unfolding extended
extend_items expires now [] s = ok s
extend_items expires now (i ∷ is) s = do
  require (nat_eq (count (owns i.work_id i.attempt_id i.fence) s.work) 1) lease_lost
  extend_items expires now is (record s {
    work = update (owns i.work_id i.attempt_id i.fence) (extended expires now) s.work;
  })

extend_batch : ℕ → Batch → Batch
extend_batch expires b = record b { lease_expires_at = expires }

extend_attempt : ℕ → Attempt → Attempt
extend_attempt expires a = record a { lease_expires_at = expires }

-- The transaction, once the batch is found.
unfoldable pub heartbeat_batch : ℕ → ℕ → ProcessEnvelope → Batch → Store → Result Store
unfolding extend_batch extend_attempt extend_items
heartbeat_batch extension now e b s = do
  require (batch_leased b.status && ltb now b.lease_expires_at) lease_lost
  assert_process_rows e b BatchStatus.leased s
  let expires = max b.lease_expires_at (now + extension)
  extend_items expires now e.items (record s {
    batches = update (has_batch_id e.batch_id) (extend_batch expires) s.batches;
    attempts =
        update (λ a. in_batch e.batch_id a && attempt_leased a.status) (extend_attempt expires)
          s.attempts;
  })

unfoldable pub heartbeat_process : ℕ → ℕ → ProcessEnvelope → Store → Result Store
unfolding heartbeat_batch
heartbeat_process extension now e s = do
  positive extension
  elim (find (has_batch_id e.batch_id) s.batches) [
    | none ↦ err lease_lost
    | some b ↦ heartbeat_batch extension now e b s
  ]
