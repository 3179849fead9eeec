-- ===== src/Control/Seal.antt =====
-- `seal_batch`, `_validate_live_seal`, `_seal_item`, `_normalize_outputs` and
-- `_verify_existing_seal` of src/people_counter/sjd_control.py.
use people_counter.Prelude.{
  ℕ, String, Bool, true, false, not, ◌&&◌, Option, none, some, List, [], ◌∷◌, ◌++◌, ltb, leb,
  nat_eq, opt_is, ◌==◌, length, if◌then◌else◌, Result, ok, err, key_error, lease_lost,
  batch_validation, immutable_conflict, integrity_error, ◌>>=◌, ◌>>◌, require,
}
use people_counter.Prelude.Rows.{select, find, update, any, every}
use people_counter.Control.Tables.{
  Batch, BatchStatus, batch_leased, batch_sealed, Attempt, AttemptStatus, attempt_leased, Member,
  OutputRecord, Store,
}
use people_counter.Control.Texts.{required_text, validated_sha256}
use people_counter.Control.Process.{Joined, join, has_batch_id, in_batch, holds_fence}

pub record Provenance : Type 0 where
  pub executor_identity : String
  pub partition_id : ℕ
  pub task_attempt_id : ℕ
  pub record_sequence : ℕ

pub record Output : Type 0 where
  pub work_id : String
  pub attempt_id : String
  pub output_path : String
  pub output_sha256 : String
  pub succeeded : Bool
  pub records : List Provenance

-- The loop over the records of one output; `seen` are the sequences met.
check_records : List ℕ → List Provenance → Result (Unit {0})
unfolding required_text
check_records seen [] = ok tt
check_records seen (r ∷ rs) = do
  required_text r.executor_identity
  require (not (any (nat_eq r.record_sequence) seen)) batch_validation
  check_records (r.record_sequence ∷ seen) rs

abbrev same_identity : Output → Output → Bool
same_identity a b = a.work_id == b.work_id && a.attempt_id == b.attempt_id

-- The loop of `_normalize_outputs`; `seen` are the outputs met. The checked outputs are the given ones.
check_outputs : List Output → List Output → Result (Unit {0})
unfolding required_text check_records validated_sha256
check_outputs seen [] = ok tt
check_outputs seen (o ∷ os) = do
  required_text o.work_id
  required_text o.attempt_id
  require (not (any (same_identity o) seen)) batch_validation
  check_records [] o.records
  require (leb 1 (length o.records)) batch_validation
  required_text o.output_path
  validated_sha256 o.output_sha256
  check_outputs (o ∷ seen) os

unfoldable pub normalize_outputs : List Output → Result (List Output)
unfolding check_outputs
normalize_outputs outputs = check_outputs [] outputs >> ok outputs

-- `expected == observed`, as sets of work and attempt ids, of the same size
unfoldable pub same_members : List Member → List Output → Bool
same_members members outputs =
    nat_eq (length outputs) (length members)
    && every (λ o. any (λ m. m.work_id == o.work_id && m.attempt_id == o.attempt_id) members)
        outputs
    && every (λ m. any (λ o. m.work_id == o.work_id && m.attempt_id == o.attempt_id) outputs)
        members

seal_attempt : Output → ℕ → Attempt → Attempt
seal_attempt o now a = record a {
  status = AttemptStatus.sealed;
  output_path = some o.output_path;
  output_sha256 = some o.output_sha256;
  terminal_succeeded = some o.succeeded;
  sealed_at = some now;
}

abbrev output_row : Output → ℕ → Provenance → OutputRecord
output_row o now r = record {
  attempt_id = o.attempt_id;
  work_id = o.work_id;
  output_path = o.output_path;
  output_sha256 = o.output_sha256;
  executor_identity = r.executor_identity;
  partition_id = r.partition_id;
  task_attempt_id = r.task_attempt_id;
  record_sequence = r.record_sequence;
  created_at = now;
}

-- INSERT INTO output_records, with UNIQUE(work_id, attempt_id, record_sequence)
insert_outputs : Output → ℕ → List Provenance → List OutputRecord → Result (List OutputRecord)
insert_outputs o now [] rows = ok rows
insert_outputs o now (r ∷ rs) rows = do
  require
      (not (
        any
          (λ q.
            q.work_id == o.work_id
            && q.attempt_id == o.attempt_id
            && nat_eq q.record_sequence r.record_sequence)
          rows))
      integrity_error
  insert_outputs o now rs (rows ++ output_row o now r ∷ [])

first_joined : List Joined → Option Joined
first_joined [] = none
first_joined (r ∷ rs) = some r

-- The checks of `_seal_item` on the joined row.
unfoldable pub seals : String → Option Joined → Bool
unfolding holds_fence
seals batch_id none = false
seals batch_id (some r) =
    r.attempt.batch_id == batch_id && attempt_leased r.attempt.status && holds_fence r

unfoldable pub seal_item : String → Output → ℕ → Store → Result Store
unfolding join first_joined seals seal_attempt insert_outputs
seal_item batch_id o now s = do
  let row = first_joined (join s.work (select (λ a. a.attempt_id == o.attempt_id) s.attempts))
  require (seals batch_id row) lease_lost
  outputs ← insert_outputs o now o.records s.output_records
  ok (record s {
    attempts =
        update (λ a. a.attempt_id == o.attempt_id && attempt_leased a.status) (seal_attempt o now)
          s.attempts;
    output_records = outputs;
  })

unfoldable pub seal_items : String → List Output → ℕ → Store → Result Store
unfolding seal_item
seal_items batch_id [] now s = ok s
seal_items batch_id (o ∷ os) now s = do
  s' ← seal_item batch_id o now s
  seal_items batch_id os now s'

-- `sorted(...) == sorted(...)`: the lists hold the same elements, as often.
remove_first {ℓ} : {A : Type ℓ} → (A → Bool) → List A → Option (List A)
remove_first p [] = none
remove_first p (x ∷ xs) =
    let rest = remove_first p xs in
    if p x then some xs else elim rest [ none ↦ none | some ys ↦ some (x ∷ ys) ]

unfoldable pub same_items {ℓ κ} :
    {A : Type ℓ} {B : Type κ} → (A → B → Bool) → List A → List B → Bool
unfolding remove_first
same_items eq [] [] = true
same_items eq [] (y ∷ ys) = false
same_items eq (x ∷ xs) ys = elim (remove_first (eq x) ys) [
  | none ↦ false
  | some rest ↦ same_items eq xs rest
]

bool_eq : Bool → Bool → Bool
bool_eq true b = b
bool_eq false b = not b

abbrev stored_flag : Option Bool → Bool → Bool
stored_flag none b = false
stored_flag (some c) b = bool_eq c b

same_output : Output → Attempt → Bool
unfolding bool_eq
same_output o a =
    a.work_id == o.work_id
    && a.attempt_id == o.attempt_id
    && opt_is a.output_path o.output_path
    && opt_is a.output_sha256 o.output_sha256
    && stored_flag a.terminal_succeeded o.succeeded

record Requested : Type 0 where
  work_id : String
  attempt_id : String
  provenance : Provenance

same_record : Requested → OutputRecord → Bool
same_record q r =
    r.work_id == q.work_id
    && r.attempt_id == q.attempt_id
    && r.executor_identity == q.provenance.executor_identity
    && nat_eq r.partition_id q.provenance.partition_id
    && nat_eq r.task_attempt_id q.provenance.task_attempt_id
    && nat_eq r.record_sequence q.provenance.record_sequence

requested_of : Output → List Provenance → List Requested
requested_of o [] = []
requested_of o (p ∷ ps) =
    record { work_id = o.work_id; attempt_id = o.attempt_id; provenance = p } ∷ requested_of o ps

requested : List Output → List Requested
unfolding requested_of
requested [] = []
requested (o ∷ os) = requested_of o o.records ++ requested os

unfoldable pub verify_existing_seal :
    Batch → List Output → String → String → Store → Result (Unit {0})
unfolding normalize_outputs same_items same_output same_record requested
verify_existing_seal b outputs digest membership s = do
  require (digest == b.envelope_sha256 && membership == b.membership_sha256) immutable_conflict
  normalized ← normalize_outputs outputs
  let existing = select (in_batch b.batch_id) s.attempts
  require (same_items same_output normalized existing) immutable_conflict
  require
      (same_items same_record (requested normalized)
        (select (λ r. any (λ a. a.attempt_id == r.attempt_id) existing) s.output_records))
      immutable_conflict

-- `_validate_live_seal`
unfoldable pub validate_live_seal : Batch → String → String → ℕ → Result (Unit {0})
validate_live_seal b digest membership now = do
  require (batch_leased b.status && ltb now b.lease_expires_at) lease_lost
  require (digest == b.envelope_sha256 && membership == b.membership_sha256) batch_validation

sealed_batch : ℕ → Batch → Batch
sealed_batch now b = record b { status = BatchStatus.sealed; sealed_at = some now }

-- The transaction, once the batch is found.
unfoldable pub seal_found :
    String → List Output → String → String → ℕ → Batch → Store → Result Store
unfolding verify_existing_seal validate_live_seal normalize_outputs same_members seal_items
    sealed_batch
seal_found k outputs digest membership now b s =
    if batch_sealed b.status
    then (verify_existing_seal b outputs digest membership s >> ok s)
    else do
      validate_live_seal b digest membership now
      normalized ← normalize_outputs outputs
      require (same_members (select (λ m. m.batch_id == k) s.batch_members) normalized)
          batch_validation
      s' ← seal_items k normalized now s
      ok (record s' { batches = update (has_batch_id k) (sealed_batch now) s'.batches })

unfoldable pub seal_batch : String → List Output → String → String → ℕ → Store → Result Store
unfolding seal_found
seal_batch k outputs envelope_sha256 membership_sha256 now s = do
  required_text k
  validated_sha256 envelope_sha256
  validated_sha256 membership_sha256
  elim (find (has_batch_id k) s.batches) [
    | none ↦ err key_error
    | some b ↦ seal_found k outputs envelope_sha256 membership_sha256 now b s
  ]
