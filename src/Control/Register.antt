-- ===== src/Control/Register.antt =====
-- `register`, `register_many` and `get_work` of src/people_counter/sjd_control.py. A transaction that
-- raises returns no store: the caller keeps the one from before, which is the rollback.
pub mod Again
use people_counter.Prelude.{
  ℕ, String, Bool, ◌&&◌, Option, none, some, List, [], ◌∷◌, ◌++◌, nat_eq, ◌==◌, if◌then◌else◌,
  Result, ok, err, value_error, immutable_conflict, key_error, ◌>>=◌, ◌>>◌, require,
}
use people_counter.Prelude.Rows.{find}
use people_counter.Control.Tables.{Work, WorkStatus, Store, RegisteredWork, Codec}
use people_counter.Control.Texts.{required_text, positive, within_hundred}

-- The arguments of `register`; the payload is its canonical JSON.
pub record Request : Type 0 where
  pub work_id : String
  pub payload_json : String
  pub runtime_key : String
  pub duration_seconds : ℕ
  pub config_sha256 : String
  pub release_digest : String
  pub max_attempts : ℕ
  pub available_at : Option ℕ

-- WHERE work_id = ?
abbrev pub has_id : String → Work → Bool
has_id k w = w.work_id == k

-- `_registered`
unfoldable pub registered : Work → RegisteredWork
registered w = record {
  work_id = w.work_id;
  status = w.status;
  payload_sha256 = w.payload_sha256;
  runtime_key = w.runtime_key;
  duration_seconds = w.duration_seconds;
  attempt_count = w.attempt_count;
  max_attempts = w.max_attempts;
  original_max_attempts = w.original_max_attempts;
  committed_attempt_id = w.committed_attempt_id;
  publication_sequence = w.publication_sequence;
  last_replay_id = w.last_replay_id;
}

-- The checks before the transaction, in their order.
unfoldable pub check_request : Request → Result (Unit {0})
unfolding required_text positive
check_request r = do
  required_text r.work_id
  required_text r.runtime_key
  required_text r.config_sha256
  required_text r.release_digest
  positive r.duration_seconds
  require (within_hundred r.max_attempts) value_error

-- `existing == immutable`
unfoldable pub same_content : Codec → Request → Work → Bool
same_content c r w =
    w.payload_sha256 == c.sha256 r.payload_json
    && w.runtime_key == r.runtime_key
    && nat_eq w.duration_seconds r.duration_seconds
    && w.config_sha256 == r.config_sha256
    && w.release_digest == r.release_digest
    && nat_eq w.original_max_attempts r.max_attempts

abbrev pub ready_at : Option ℕ → ℕ → ℕ
ready_at none now = now
ready_at (some t) now = t

-- INSERT INTO work
unfoldable pub new_work : Codec → ℕ → Request → Work
new_work c now r = record {
  work_id = r.work_id;
  payload_json = r.payload_json;
  payload_sha256 = c.sha256 r.payload_json;
  runtime_key = r.runtime_key;
  duration_seconds = r.duration_seconds;
  config_sha256 = r.config_sha256;
  release_digest = r.release_digest;
  status = WorkStatus.ready;
  attempt_count = 0;
  max_attempts = r.max_attempts;
  original_max_attempts = r.max_attempts;
  fence = 0;
  available_at = ready_at r.available_at now;
  lease_owner = none;
  lease_attempt_id = none;
  lease_expires_at = none;
  committed_attempt_id = none;
  publication_sequence = none;
  replay_generation = 0;
  last_replay_id = none;
  last_error = none;
  created_at = now;
  updated_at = now;
}

-- The body of the transaction, once the row is looked up.
unfoldable pub register_row :
    Codec → ℕ → Request → Option Work → Store → Result (Store × RegisteredWork)
unfolding same_content new_work registered
register_row c now r none s =
    let w = new_work c now r in ok (record s { work = s.work ++ w ∷ [] }, registered w)
register_row c now r (some w) s =
    if same_content c r w then ok (s, registered w) else err immutable_conflict

unfoldable pub register : Codec → ℕ → Request → Store → Result (Store × RegisteredWork)
unfolding check_request register_row
register c now r s = do check_request r; register_row c now r (find (has_id r.work_id) s.work) s

unfoldable pub check_requests : List Request → Result (Unit {0})
unfolding check_request
check_requests [] = ok tt
check_requests (r ∷ rs) = check_request r >> check_requests rs

-- `previous != immutable`, for two requests of one partition.
unfoldable pub same_request : Codec → Request → Request → Bool
same_request c r q =
    c.sha256 q.payload_json == c.sha256 r.payload_json
    && q.runtime_key == r.runtime_key
    && nat_eq q.duration_seconds r.duration_seconds
    && q.config_sha256 == r.config_sha256
    && q.release_digest == r.release_digest
    && nat_eq q.max_attempts r.max_attempts

-- The loop of `register_many`; `seen` are the requests whose work id was met first.
unfoldable pub register_all :
    Codec → ℕ → List Request → List Request → Store → Result (Store × List RegisteredWork)
unfolding register_row same_request
register_all c now seen [] s = ok (s, [])
register_all c now seen (r ∷ rs) s = elim (find (λ q. q.work_id == r.work_id) seen) [
  | some q ↦ if same_request c r q then register_all c now seen rs s else err immutable_conflict
  | none ↦ do
    (s', row) ← register_row c now r (find (has_id r.work_id) s.work) s
    (s'', rows) ← register_all c now (r ∷ seen) rs s'
    ok (s'', row ∷ rows)
]

unfoldable pub register_many :
    Codec → ℕ → List Request → Store → Result (Store × List RegisteredWork)
unfolding register_all check_requests
register_many c now [] s = err value_error
register_many c now requests s = check_requests requests >> register_all c now [] requests s

unfoldable pub get_work : String → Store → Result RegisteredWork
unfolding required_text registered
get_work k s = do
  required_text k
  elim (find (has_id k) s.work) [ none ↦ err key_error | some w ↦ ok (registered w) ]
