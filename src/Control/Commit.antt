-- ===== src/Control/Commit.antt =====
-- `commit_batch`, `_commit_attempt`, `_commit_failed_attempt` and `recover` of
-- src/people_counter/sjd_control.py.
pub mod Sequences
pub mod Again
use people_counter.Prelude.{
  ℕ, ◌+◌, String, Bool, false, not, ◌&&◌, ◌||◌, Option, none, some, List, [], ◌∷◌, ◌++◌, map, ltb,
  leb, nat_eq, opt_leb, is_some, ◌==◌, length, if◌then◌else◌, Result, ok, err, key_error,
  lease_lost, batch_validation, integrity_error, ◌>>=◌, ◌>>◌, require,
}
use people_counter.Prelude.Rows.{select, find, update, count, any}
use people_counter.Prelude.Sorting.{sort}
use people_counter.Prelude.Texts.{str_leb}
use people_counter.Control.Tables.{
  Work, WorkStatus, is_leased, Batch, BatchStatus, batch_active, batch_sealed, batch_committed,
  Attempt, AttemptStatus, attempt_active, attempt_sealed, Store, RecoveryReport,
}
use people_counter.Control.Texts.{required_text}
use people_counter.Control.Process.{Joined, join, has_batch_id, in_batch, holds_fence, owns}

-- 'DEAD' if attempt_count >= max_attempts, else 'READY'
unfoldable pub outcome : ℕ → ℕ → WorkStatus
outcome attempt_count max_attempts =
    if leb max_attempts attempt_count then WorkStatus.dead else WorkStatus.ready

-- The work goes back to the queue or is given up; its lease is cleared.
unfoldable pub released : WorkStatus → String → ℕ → Work → Work
released status reason now w = record w {
  status = status;
  available_at = now;
  lease_owner = none;
  lease_attempt_id = none;
  lease_expires_at = none;
  last_error = some reason;
  updated_at = now;
}

unfoldable pub published : String → ℕ → ℕ → Work → Work
published attempt_id sequence now w = record w {
  status = WorkStatus.succeeded;
  committed_attempt_id = some attempt_id;
  publication_sequence = some sequence;
  lease_owner = none;
  lease_attempt_id = none;
  lease_expires_at = none;
  updated_at = now;
}

abbrev pub has_attempt_id : String → Attempt → Bool
has_attempt_id k a = a.attempt_id == k

set_status : AttemptStatus → Attempt → Attempt
set_status status a = record a { status = status }

-- The checks on a joined row before it is committed.
unfoldable pub commits : Joined → Bool
unfolding holds_fence
commits r =
    attempt_sealed r.attempt.status
    && holds_fence r
    && not (is_some r.work.committed_attempt_id)
    && is_some r.attempt.output_path
    && is_some r.attempt.output_sha256

abbrev pub or_empty : Option String → String
or_empty none = ""
or_empty (some t) = t

abbrev pub is_true : Option Bool → Bool
is_true none = false
is_true (some b) = b

-- INSERT INTO publications, with UNIQUE work and attempt, and AUTOINCREMENT
unfoldable pub insert_publication : String → Joined → ℕ → Store → Result Store
insert_publication batch_id r now s =
    if any (λ p. p.work_id == r.attempt.work_id || p.attempt_id == r.attempt.attempt_id)
      s.publications
    then err integrity_error
    else ok (record s {
      publications =
          s.publications
          ++ record {
            publication_sequence = s.last_sequence + 1;
            work_id = r.attempt.work_id;
            attempt_id = r.attempt.attempt_id;
            batch_id = batch_id;
            output_path = or_empty r.attempt.output_path;
            output_sha256 = or_empty r.attempt.output_sha256;
            published_at = now;
          }
            ∷ [];
      last_sequence = s.last_sequence + 1;
    })

-- UPDATE work ... WHERE the attempt owns the row, then UPDATE attempts
unfoldable pub finish_attempt : Joined → (Work → Work) → AttemptStatus → Store → Result Store
unfolding set_status
finish_attempt r f status s = do
  let own = owns r.attempt.work_id r.attempt.attempt_id r.attempt.fence
  require (nat_eq (count own s.work) 1) lease_lost
  ok (record s {
    work = update own f s.work;
    attempts = update (has_attempt_id r.attempt.attempt_id) (set_status status) s.attempts;
  })

unfoldable pub commit_failed_attempt : Joined → ℕ → Store → Result Store
unfolding finish_attempt outcome released
commit_failed_attempt r now s =
    finish_attempt r
      (released (outcome r.work.attempt_count r.work.max_attempts) "processing failed" now)
      AttemptStatus.failed s

-- The store, and the publication sequence if the attempt succeeded.
unfoldable pub commit_attempt : String → Joined → ℕ → Store → Result (Store × List ℕ)
unfolding commits commit_failed_attempt insert_publication published
commit_attempt batch_id r now s = do
  require (commits r) lease_lost
  if not (is_true r.attempt.terminal_succeeded)
      then (do s' ← commit_failed_attempt r now s; ok (s', []))
      else do
        s' ← insert_publication batch_id r now s
        s'' ←
            finish_attempt r (published r.attempt.attempt_id s'.last_sequence now)
              AttemptStatus.succeeded s'
        ok (s'', s'.last_sequence ∷ [])

unfoldable pub commit_attempts : String → List Joined → ℕ → Store → Result (Store × List ℕ)
unfolding commit_attempt
commit_attempts batch_id [] now s = ok (s, [])
commit_attempts batch_id (r ∷ rs) now s = do
  (s', first) ← commit_attempt batch_id r now s
  (s'', rest) ← commit_attempts batch_id rs now s'
  ok (s'', first ++ rest)

-- ORDER BY a.work_id
abbrev pub joined_order : Joined → Joined → Bool
joined_order q r = str_leb q.attempt.work_id r.attempt.work_id

abbrev pub sequence_order : ℕ → ℕ → Bool
sequence_order a b = leb a b

committed_batch : ℕ → Batch → Batch
committed_batch now b = record b { status = BatchStatus.committed; committed_at = some now }

-- What a repeated commit returns.
unfoldable pub batch_sequences : String → Store → List ℕ
batch_sequences k s =
    sort sequence_order
      (map (λ p. p.publication_sequence) (select (λ p. p.batch_id == k) s.publications))

-- The transaction, once the batch is found.
unfoldable pub commit_found : String → ℕ → Batch → Store → Result (Store × List ℕ)
unfolding commit_attempts committed_batch batch_sequences
commit_found k now b s = if batch_committed b.status then ok (s, batch_sequences k s) else do
  require (batch_sealed b.status && ltb now b.lease_expires_at) lease_lost
  let rows = sort joined_order (join s.work (select (in_batch k) s.attempts))
  require (nat_eq (length rows) b.item_count) batch_validation
  (s', sequences) ← commit_attempts k rows now s
  ok (
    record s' {
      batches =
          update (λ c. has_batch_id k c && batch_sealed c.status) (committed_batch now) s'.batches;
    },
    sequences,
  )

unfoldable pub commit_batch : String → ℕ → Store → Result (Store × List ℕ)
unfolding commit_found
commit_batch k now s = do
  required_text k
  elim (find (has_batch_id k) s.batches) [ none ↦ err key_error | some b ↦ commit_found k now b s ]

-- WHERE status = 'LEASED' AND lease_expires_at <= ?
abbrev pub lease_expired : ℕ → Work → Bool
lease_expired now w = is_leased w.status && opt_leb w.lease_expires_at now

abbrev pub expire_attempt : WorkStatus → Attempt → Attempt
expire_attempt status a = record a {
  status = AttemptStatus.expired;
  recovery_outcome = some status;
}

-- One round of the loop of `recover`. A leased row has an attempt (`IsSound` of Control/Sound).
unfoldable pub recover_row : ℕ → Work → Store → Result Store
unfolding outcome released
recover_row now w s = do
  let attempt_id = or_empty w.lease_attempt_id
  let status = outcome w.attempt_count w.max_attempts
  let own = owns w.work_id attempt_id w.fence
  require (nat_eq (count own s.work) 1) lease_lost
  ok (record s {
    attempts =
        update (λ a. has_attempt_id attempt_id a && attempt_active a.status) (expire_attempt status)
          s.attempts;
    work = update own (released status "lease expired" now) s.work;
  })

unfoldable pub recover_rows : ℕ → List Work → Store → Result Store
unfolding recover_row
recover_rows now [] s = ok s
recover_rows now (w ∷ ws) s = do s' ← recover_row now w s; recover_rows now ws s'

abbrev pub work_order : Work → Work → Bool
work_order v w = str_leb v.work_id w.work_id

abbrev pub exhausted : Work → Bool
exhausted w = leb w.max_attempts w.attempt_count

abbrev pub expire_batch : Batch → Batch
expire_batch b = record b { status = BatchStatus.expired }

unfoldable pub recover : ℕ → Store → Result (Store × RecoveryReport)
unfolding recover_rows
recover now s = do
  let rows = sort work_order (select (lease_expired now) s.work)
  s' ← recover_rows now rows s
  ok (
    record s' {
      batches =
          update (λ b. batch_active b.status && leb b.lease_expires_at now) expire_batch s'.batches;
    },
    record {
      recovered = length rows;
      retried = count (λ w. not (exhausted w)) rows;
      dead = count exhausted rows;
    },
  )
