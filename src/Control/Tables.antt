-- ===== src/Control/Tables.antt =====
-- The control database of src/people_counter/sjd_control.py: the tables of
-- `SQLiteControlStore.bootstrap`, and the values that the store's methods return. A time or a
-- duration is a whole number of ticks; an id, a key or a digest is a text. A column that may be NULL
-- is an `Option`.
use people_counter.Prelude.{ℕ, String, Bool, true, false, Option, List, []}

pub data WorkStatus : Type 0 where
  ready leased succeeded dead : WorkStatus

pub data BatchStatus : Type 0 where
  leased sealed committed expired : BatchStatus

pub data AttemptStatus : Type 0 where
  leased sealed succeeded failed expired : AttemptStatus

abbrev pub is_ready : WorkStatus → Bool
is_ready WorkStatus.ready = true
is_ready _ = false

abbrev pub is_leased : WorkStatus → Bool
is_leased WorkStatus.leased = true
is_leased _ = false

abbrev pub is_succeeded : WorkStatus → Bool
is_succeeded WorkStatus.succeeded = true
is_succeeded _ = false

abbrev pub is_dead : WorkStatus → Bool
is_dead WorkStatus.dead = true
is_dead _ = false

abbrev pub batch_leased : BatchStatus → Bool
batch_leased BatchStatus.leased = true
batch_leased _ = false

abbrev pub batch_sealed : BatchStatus → Bool
batch_sealed BatchStatus.sealed = true
batch_sealed _ = false

abbrev pub batch_committed : BatchStatus → Bool
batch_committed BatchStatus.committed = true
batch_committed _ = false

-- status IN ('LEASED', 'SEALED')
abbrev pub batch_active : BatchStatus → Bool
batch_active BatchStatus.leased = true
batch_active BatchStatus.sealed = true
batch_active _ = false

abbrev pub attempt_leased : AttemptStatus → Bool
attempt_leased AttemptStatus.leased = true
attempt_leased _ = false

abbrev pub attempt_sealed : AttemptStatus → Bool
attempt_sealed AttemptStatus.sealed = true
attempt_sealed _ = false

abbrev pub attempt_active : AttemptStatus → Bool
attempt_active AttemptStatus.leased = true
attempt_active AttemptStatus.sealed = true
attempt_active _ = false

pub record Work : Type 0 where
  pub work_id : String
  pub payload_json : String
  pub payload_sha256 : String
  pub runtime_key : String
  pub duration_seconds : ℕ
  pub config_sha256 : String
  pub release_digest : String
  pub status : WorkStatus
  pub attempt_count : ℕ
  pub max_attempts : ℕ
  pub original_max_attempts : ℕ
  pub fence : ℕ
  pub available_at : ℕ
  pub lease_owner : Option String
  pub lease_attempt_id : Option String
  pub lease_expires_at : Option ℕ
  pub committed_attempt_id : Option String
  pub publication_sequence : Option ℕ
  pub replay_generation : ℕ
  pub last_replay_id : Option String
  pub last_error : Option String
  pub created_at : ℕ
  pub updated_at : ℕ

pub record Batch : Type 0 where
  pub batch_id : String
  pub owner : String
  pub runtime_key : String
  pub status : BatchStatus
  pub lease_expires_at : ℕ
  pub item_count : ℕ
  pub membership_sha256 : String
  pub envelope_version : ℕ
  pub envelope_path : String
  pub envelope_sha256 : String
  pub created_at : ℕ
  pub sealed_at : Option ℕ
  pub committed_at : Option ℕ

pub record Attempt : Type 0 where
  pub attempt_id : String
  pub work_id : String
  pub batch_id : String
  pub fence : ℕ
  pub status : AttemptStatus
  pub lease_expires_at : ℕ
  pub payload_sha256 : String
  pub output_path : Option String
  pub output_sha256 : Option String
  pub terminal_succeeded : Option Bool
  pub sealed_at : Option ℕ
  pub recovery_outcome : Option WorkStatus
  pub created_at : ℕ

pub record Member : Type 0 where
  pub batch_id : String
  pub ordinal : ℕ
  pub work_id : String
  pub attempt_id : String
  pub fence : ℕ
  pub payload_sha256 : String

-- The `output_id` that SQLite numbers the rows with is left out: no modelled method reads it.
pub record OutputRecord : Type 0 where
  pub attempt_id : String
  pub work_id : String
  pub output_path : String
  pub output_sha256 : String
  pub executor_identity : String
  pub partition_id : ℕ
  pub task_attempt_id : ℕ
  pub record_sequence : ℕ
  pub created_at : ℕ

pub record Publication : Type 0 where
  pub publication_sequence : ℕ
  pub work_id : String
  pub attempt_id : String
  pub batch_id : String
  pub output_path : String
  pub output_sha256 : String
  pub published_at : ℕ

pub record Replay : Type 0 where
  pub replay_id : String
  pub work_id : String
  pub operator : String
  pub reason : String
  pub generation : ℕ
  pub requested_at : ℕ
  pub additional_attempts : ℕ

-- The database. `last_sequence` is what SQLite's AUTOINCREMENT keeps for `publications`.
pub record Store : Type 0 where
  pub work : List Work
  pub batches : List Batch
  pub attempts : List Attempt
  pub batch_members : List Member
  pub output_records : List OutputRecord
  pub publications : List Publication
  pub replay_requests : List Replay
  pub last_sequence : ℕ

abbrev pub empty : Store
empty = record {
  work = [];
  batches = [];
  attempts = [];
  batch_members = [];
  output_records = [];
  publications = [];
  replay_requests = [];
  last_sequence = 0;
}

pub record RegisteredWork : Type 0 where
  pub work_id : String
  pub status : WorkStatus
  pub payload_sha256 : String
  pub runtime_key : String
  pub duration_seconds : ℕ
  pub attempt_count : ℕ
  pub max_attempts : ℕ
  pub original_max_attempts : ℕ
  pub committed_attempt_id : Option String
  pub publication_sequence : Option ℕ
  pub last_replay_id : Option String

pub record ClaimedWork : Type 0 where
  pub work_id : String
  pub attempt_id : String
  pub fence : ℕ
  pub payload_sha256 : String

pub record ClaimedBatch : Type 0 where
  pub batch_id : String
  pub envelope_path : String
  pub envelope_sha256 : String
  pub runtime_key : String
  pub lease_expires_at : ℕ
  pub items : List ClaimedWork

pub record RecoveryReport : Type 0 where
  pub recovered : ℕ
  pub retried : ℕ
  pub dead : ℕ

pub record ReplayRequest : Type 0 where
  pub replay_id : String
  pub work_id : String
  pub operator : String
  pub reason : String
  pub generation : ℕ
  pub requested_at : ℕ

-- The admission block of a claim envelope, with the speed and the factor in thousandths.
pub record AdmissionRecord : Type 0 where
  pub process_profile : String
  pub worker_count : ℕ
  pub projected_makespan_seconds : ℕ
  pub minimum_speed_x : ℕ
  pub safety_factor : ℕ
  pub margin_seconds : ℕ

pub record EnvelopeItem : Type 0 where
  pub ordinal : ℕ
  pub claimed : ClaimedWork
  pub payload : String
  pub config_sha256 : String
  pub release_digest : String
  pub duration_seconds : ℕ

pub record Envelope : Type 0 where
  pub schema_version : ℕ
  pub batch_id : String
  pub owner : String
  pub runtime_key : String
  pub claimed_at : ℕ
  pub lease_expires_at : ℕ
  pub membership_sha256 : String
  pub admission : AdmissionRecord
  pub items : List EnvelopeItem

-- What the store takes from `hashlib`, `json` and the content store, with nothing assumed of it.
pub record Codec : Type 0 where
  pub sha256 : String → String
  pub membership_json : List ClaimedWork → String
  pub envelope_json : Envelope → String
  pub replay_json : String → ℕ → String → String → ℕ → String
  pub marker_json : String → String → String → String
  pub object_path : String → String

-- `_membership_sha256`
abbrev pub membership_digest : Codec → List ClaimedWork → String
membership_digest c items = c.sha256 (c.membership_json items)
