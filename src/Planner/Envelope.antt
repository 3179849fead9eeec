-- ===== src/Planner/Envelope.antt =====
-- `verify_envelope` of src/people_counter/sjd_process.py: the claim envelope that a process is given,
-- as parsed JSON whose fields have their types, is checked before any work is planned.
pub mod Accepted
use people_counter.Prelude.{
  ℕ, ◌+◌, String, Bool, true, false, not, ◌&&◌, ◌||◌, Option, none, some, List, [], ◌∷◌, ltb, leb,
  nat_eq, ◌==◌, if◌then◌else◌, Result, ok, err, batch_validation, process_error, ◌>>=◌, ◌>>◌,
  require,
}
use people_counter.Prelude.Rows.{any}
use people_counter.Control.Tables.{Codec, ClaimedWork, Envelope, membership_digest}
use people_counter.Control.Tables
use people_counter.Control.Texts.{required_text, validated_sha256}
use people_counter.Planner.{as_process_error, one_two_four}

-- One claim item of the JSON document; `runtime_key` may be absent.
pub record RawItem : Type 0 where
  pub ordinal : ℕ
  pub claimed : ClaimedWork
  pub payload : String
  pub config_sha256 : String
  pub release_digest : String
  pub duration_seconds : ℕ
  pub runtime_key : Option String

pub record RawEnvelope : Type 0 where
  pub schema_version : ℕ
  pub batch_id : String
  pub owner : String
  pub runtime_key : String
  pub claimed_at : ℕ
  pub lease_expires_at : ℕ
  pub membership_sha256 : String
  pub items : List RawItem

pub record EnvelopeItem : Type 0 where
  pub ordinal : ℕ
  pub work_id : String
  pub attempt_id : String
  pub fence : ℕ
  pub payload_sha256 : String
  pub payload : String
  pub config_sha256 : String
  pub release_digest : String
  pub duration_seconds : ℕ
  pub runtime_key : String

pub record VerifiedEnvelope : Type 0 where
  pub batch_id : String
  pub owner : String
  pub runtime_key : String
  pub claimed_at : ℕ
  pub lease_expires_at : ℕ
  pub membership_sha256 : String
  pub envelope_sha256 : String
  pub items : List EnvelopeItem

-- `_text` and `_sha_text`
abbrev pub text : String → Result String
text value = as_process_error (required_text value)

abbrev pub sha_text : String → Result String
sha_text value = as_process_error (validated_sha256 value)

-- `payload.get("batch_size", 1)`, from what the payload has under that key
abbrev pub batch_size : Option ℕ → ℕ
batch_size none = 1
batch_size (some n) = n

abbrev pub same_identity : ClaimedWork → EnvelopeItem → Bool
same_identity c i = i.work_id == c.work_id && i.attempt_id == c.attempt_id

abbrev pub or_else : Option String → String → String
or_else none k = k
or_else (some j) k = j

-- The identity that a verified item has in the membership.
abbrev pub identity : EnvelopeItem → ClaimedWork
identity i = record {
  work_id = i.work_id;
  attempt_id = i.attempt_id;
  fence = i.fence;
  payload_sha256 = i.payload_sha256;
}

abbrev pub identities : List EnvelopeItem → List ClaimedWork
identities [] = []
identities (i ∷ is) = identity i ∷ identities is

-- `not raw_items`
abbrev pub no_items : List RawItem → Bool
no_items [] = true
no_items (i ∷ is) = false

module _ (c : Codec) (payload_batch_size : String → Option ℕ) where
  -- One round of the loop: `seen` are the items so far.
  unfoldable pub verify_item : String → ℕ → List EnvelopeItem → RawItem → Result EnvelopeItem
  verify_item runtime_key expected_ordinal seen raw = do
    require (nat_eq raw.ordinal expected_ordinal) batch_validation
    payload_sha256 ← sha_text raw.claimed.payload_sha256
    require (c.sha256 raw.payload == payload_sha256) batch_validation
    work_id ← text raw.claimed.work_id
    attempt_id ← text raw.claimed.attempt_id
    require (not (any (same_identity raw.claimed) seen)) batch_validation
    require (or_else raw.runtime_key runtime_key == runtime_key) batch_validation
    require (one_two_four (batch_size (payload_batch_size raw.payload))) process_error
    require (leb 1 raw.claimed.fence) process_error
    config_sha256 ← text raw.config_sha256
    release_digest ← text raw.release_digest
    require (leb 1 raw.duration_seconds) process_error
    ok (record {
      ordinal = raw.ordinal;
      work_id = work_id;
      attempt_id = attempt_id;
      fence = raw.claimed.fence;
      payload_sha256 = payload_sha256;
      payload = raw.payload;
      config_sha256 = config_sha256;
      release_digest = release_digest;
      duration_seconds = raw.duration_seconds;
      runtime_key = or_else raw.runtime_key runtime_key;
    })

  -- The loop; the newest item is first in `seen`, which is only searched.
  unfoldable pub verify_items :
      String → ℕ → List EnvelopeItem → List RawItem → Result (List EnvelopeItem)
  unfolding verify_item
  verify_items runtime_key ordinal seen [] = ok []
  verify_items runtime_key ordinal seen (raw ∷ raws) = do
    item ← verify_item runtime_key ordinal seen raw
    rest ← verify_items runtime_key (ordinal + 1) (item ∷ seen) raws
    ok (item ∷ rest)

  unfoldable pub verify_envelope : RawEnvelope → String → String → Result VerifiedEnvelope
  unfolding verify_items
  verify_envelope raw batch_id envelope_sha256 = do
    require (nat_eq raw.schema_version 1 && raw.batch_id == batch_id) batch_validation
    owner ← text raw.owner
    runtime_key ← text raw.runtime_key
    membership ← sha_text raw.membership_sha256
    require (not (no_items raw.items)) batch_validation
    items ← verify_items runtime_key 0 [] raw.items
    require (membership_digest c (identities items) == membership) batch_validation
    digest ← sha_text envelope_sha256
    ok (record {
      batch_id = batch_id;
      owner = owner;
      runtime_key = runtime_key;
      claimed_at = raw.claimed_at;
      lease_expires_at = raw.lease_expires_at;
      membership_sha256 = membership;
      envelope_sha256 = digest;
      items = items;
    })

-- The document that a claim writes, as JSON gives it back: its items have no runtime key of their own.
abbrev pub raw_item : Tables.EnvelopeItem → RawItem
raw_item i = record {
  ordinal = i.ordinal;
  claimed = i.claimed;
  payload = i.payload;
  config_sha256 = i.config_sha256;
  release_digest = i.release_digest;
  duration_seconds = i.duration_seconds;
  runtime_key = none;
}

abbrev pub raw_items : List Tables.EnvelopeItem → List RawItem
raw_items [] = []
raw_items (i ∷ is) = raw_item i ∷ raw_items is

abbrev pub raw_envelope : Envelope → RawEnvelope
raw_envelope e = record {
  schema_version = e.schema_version;
  batch_id = e.batch_id;
  owner = e.owner;
  runtime_key = e.runtime_key;
  claimed_at = e.claimed_at;
  lease_expires_at = e.lease_expires_at;
  membership_sha256 = e.membership_sha256;
  items = raw_items e.items;
}
