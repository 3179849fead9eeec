-- ===== src/LocalQueue.antt =====
-- `SQLiteQueue` of src/people_counter/local_queue.py: a durable queue with locks that expire. The
-- database is the list of its rows; a transaction that raises returns no queue, which is the rollback.
-- Times are whole ticks, `second` of them to the second; an id or a token that `uuid4` gives is an
-- argument.
pub mod Lock
pub mod Finish
pub mod Sound
pub mod Enqueued
pub mod Finalized
pub mod Delivered
pub mod Steps
mod Tests
use people_counter.Prelude.{
  ℕ, zero, suc, ◌+◌, ◌*◌, ◌≤◌, String, Bool, true, false, not, ◌&&◌, ◌||◌, Option, none, some, List,
  [], ◌∷◌, ◌++◌, map, ltb, leb, nat_eq, opt_leb, opt_gtb, opt_is, ◌==◌, length, take, if◌then◌else◌,
  Result, ok, err, Error, value_error, lease_lost, integrity_error, queue_conflict,
  message_not_found, ◌>>=◌, ◌>>◌, require,
}
use people_counter.Prelude.Rows.{select, find, update, count, any}
use people_counter.Prelude.Sorting.{sort}
use people_counter.Prelude.Texts.{is_blank, strip, str_leb}

pub data State : Type 0 where
  ready locked completed dead : State

pub data Action : Type 0 where
  complete abandon dead_letter : Action

abbrev pub is_ready : State → Bool
is_ready State.ready = true
is_ready _ = false

abbrev pub is_locked : State → Bool
is_locked State.locked = true
is_locked _ = false

abbrev pub is_completed : State → Bool
is_completed State.completed = true
is_completed _ = false

abbrev pub is_dead : State → Bool
is_dead State.dead = true
is_dead _ = false

pub record Message : Type 0 where
  pub message_id : String
  pub idempotency_key : String
  pub payload_json : String
  pub payload_sha256 : String
  pub state : State
  pub delivery_count : ℕ
  pub max_delivery_count : ℕ
  pub available_at : ℕ
  pub lock_token : Option String
  pub locked_by : Option String
  pub locked_until : Option ℕ
  pub dead_letter_reason : Option String
  pub created_at : ℕ
  pub updated_at : ℕ

pub record ClaimedMessage : Type 0 where
  pub message_id : String
  pub idempotency_key : String
  pub payload_json : String
  pub lock_token : String
  pub locked_until : ℕ
  pub delivery_count : ℕ
  pub max_delivery_count : ℕ

pub record QueueMessage : Type 0 where
  pub message_id : String
  pub idempotency_key : String
  pub state : State
  pub delivery_count : ℕ
  pub max_delivery_count : ℕ
  pub available_at : ℕ
  pub locked_until : Option ℕ
  pub dead_letter_reason : Option String

abbrev pub second : ℕ
second = 1000000

unfoldable pub stripped_text : String → Result String
stripped_text value = if is_blank value then err value_error else ok (strip value)

unfoldable pub bounded_seconds : ℕ → Result ℕ
bounded_seconds value =
    if ltb value second || ltb (86400 * second) value then err value_error else ok value

unfoldable pub nonnegative_seconds : ℕ → Result ℕ
nonnegative_seconds value = if ltb (86400 * second) value then err value_error else ok value

abbrev pub has_key : String → Message → Bool
has_key k m = m.idempotency_key == k

abbrev pub has_message_id : String → Message → Bool
has_message_id k m = m.message_id == k

abbrev available : Option ℕ → ℕ → ℕ
available none now = now
available (some t) now = t

-- INSERT INTO queue_messages
unfoldable pub new_message :
    (String → String) → String → String → String → ℕ → Option ℕ → ℕ → Message
new_message sha256 id key payload max_delivery_count available_at now = record {
  message_id = id;
  idempotency_key = key;
  payload_json = payload;
  payload_sha256 = sha256 payload;
  state = State.ready;
  delivery_count = 0;
  max_delivery_count = max_delivery_count;
  available_at = available available_at now;
  lock_token = none;
  locked_by = none;
  locked_until = none;
  dead_letter_reason = none;
  created_at = now;
  updated_at = now;
}

-- The body of the transaction, once the key is looked up; `id` is the new message id.
unfoldable pub enqueue_row :
    (String → String)
    → String
    → String
    → String
    → ℕ
    → Option ℕ
    → ℕ
    → Option Message
    → List Message
    → Result (List Message × String)
unfolding new_message
enqueue_row sha256 id key payload limit available_at now (some m) q =
    if m.payload_sha256 == sha256 payload && nat_eq m.max_delivery_count limit
    then ok (q, m.message_id)
    else err queue_conflict
enqueue_row sha256 id key payload limit available_at now none q =
    if any (has_message_id id) q
    then err integrity_error
    else ok (q ++ new_message sha256 id key payload limit available_at now ∷ [], id)

-- The payload is its canonical JSON.
unfoldable pub enqueue :
    (String → String)
    → String
    → String
    → String
    → ℕ
    → Option ℕ
    → ℕ
    → List Message
    → Result (List Message × String)
unfolding enqueue_row
enqueue sha256 id idempotency_key payload limit available_at now q = do
  key ← stripped_text idempotency_key
  require (leb 1 limit && leb limit 100) value_error
  enqueue_row sha256 id key payload limit available_at now (find (has_key key) q) q

-- WHERE state = 'locked' AND locked_until <= ?
abbrev pub lock_expired : ℕ → Message → Bool
lock_expired now m = is_locked m.state && opt_leb m.locked_until now

unfoldable pub spent : Message → Bool
spent m = leb m.max_delivery_count m.delivery_count

unfoldable pub unlocked : ℕ → Message → Message
unfolding spent
unlocked now m = record m {
  state = if spent m then State.dead else State.ready;
  available_at = now;
  lock_token = none;
  locked_by = none;
  locked_until = none;
  dead_letter_reason =
      if spent m
      then some "maximum delivery count reached after lease expiry"
      else m.dead_letter_reason;
  updated_at = now;
}

-- `_recover_expired`: the queue, and the row count.
unfoldable pub recover_expired : ℕ → List Message → List Message × ℕ
unfolding unlocked
recover_expired now q = (update (lock_expired now) (unlocked now) q, count (lock_expired now) q)
