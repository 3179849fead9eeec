-- ===== src/LocalQueue/Finish.antt =====
-- `finalize`, `_final_state`, `get` and `list` of `SQLiteQueue` in src/people_counter/local_queue.py.
-- `complete`, `abandon` and `dead_letter` call `finalize` with one outcome.
use people_counter.Prelude.{
  ℕ, ◌+◌, String, Bool, true, Option, none, some, List, [], ◌∷◌, map, leb, opt_is, ◌==◌,
  if◌then◌else◌, Result, ok, err, value_error, lease_lost, message_not_found, ◌>>=◌,
}
use people_counter.Prelude.Rows.{select, find, update}
use people_counter.Prelude.Sorting.{sort}
use people_counter.Prelude.Texts.{is_blank, strip}
use people_counter.LocalQueue.{
  State, is_ready, is_locked, is_completed, is_dead, Action, Message, QueueMessage, stripped_text,
  nonnegative_seconds, has_message_id,
}
use people_counter.LocalQueue.Lock.{message_order, live}

pub record Outcome : Type 0 where
  pub lock_token : String
  pub action : Action
  pub reason : Option String

-- `reason or text`
abbrev or_text : Option String → String → String
or_text none text = text
or_text (some r) text = if r == "" then text else r

pub record Final : Type 0 where
  pub state : State
  pub dead_letter_reason : Option String
  pub available_at : ℕ

-- A dead letter needs a reason.
dead_letter_state : Option String → ℕ → Result Final
dead_letter_state none now = err value_error
dead_letter_state (some r) now =
    if is_blank r
    then err value_error
    else ok (record { state = State.dead; dead_letter_reason = some (strip r); available_at = now })

-- `_final_state`
unfoldable pub final_state : Action → Option String → ℕ → ℕ → ℕ → ℕ → Result Final
unfolding dead_letter_state
final_state Action.complete reason delivery_count limit now delay =
    ok (record { state = State.completed; dead_letter_reason = none; available_at = now })
final_state Action.dead_letter reason delivery_count limit now delay = dead_letter_state reason now
final_state Action.abandon reason delivery_count limit now delay =
    if leb limit delivery_count
    then ok (record {
      state = State.dead;
      dead_letter_reason = some (or_text reason "maximum delivery count reached");
      available_at = now;
    })
    else ok
        (record { state = State.ready; dead_letter_reason = reason; available_at = now + delay })

unfoldable pub finalized : Final → ℕ → Message → Message
finalized f now m = record m {
  state = f.state;
  available_at = f.available_at;
  lock_token = none;
  locked_by = none;
  locked_until = none;
  dead_letter_reason = f.dead_letter_reason;
  updated_at = now;
}

-- WHERE lock_token = ?
abbrev pub has_token : String → Message → Bool
has_token token m = opt_is m.lock_token token

unfoldable pub finalize_row :
    String → Outcome → ℕ → ℕ → Option Message → List Message → Result (List Message)
unfolding final_state finalized
finalize_row token o delay now none q = err lease_lost
finalize_row token o delay now (some m) q = do
  f ← final_state o.action o.reason m.delivery_count m.max_delivery_count now delay
  ok (update (has_token token) (finalized f now) q)

unfoldable pub finalize_one : Outcome → ℕ → ℕ → List Message → Result (List Message)
unfolding stripped_text finalize_row
finalize_one o delay now q = do
  token ← stripped_text o.lock_token
  finalize_row token o delay now (find (live token now) q) q

unfoldable pub finalize_all : List Outcome → ℕ → ℕ → List Message → Result (List Message)
unfolding finalize_one
finalize_all [] delay now q = ok q
finalize_all (o ∷ os) delay now q = do q' ← finalize_one o delay now q; finalize_all os delay now q'

unfoldable pub finalize : List Outcome → ℕ → ℕ → List Message → Result (List Message)
unfolding nonnegative_seconds finalize_all
finalize [] delay_seconds now q = ok q
finalize outcomes delay_seconds now q = do
  delay ← nonnegative_seconds delay_seconds
  finalize_all outcomes delay now q

-- `_message`
unfoldable pub message : Message → QueueMessage
message m = record {
  message_id = m.message_id;
  idempotency_key = m.idempotency_key;
  state = m.state;
  delivery_count = m.delivery_count;
  max_delivery_count = m.max_delivery_count;
  available_at = m.available_at;
  locked_until = m.locked_until;
  dead_letter_reason = m.dead_letter_reason;
}

unfoldable pub get : String → List Message → Result QueueMessage
unfolding stripped_text message
get message_id q = do
  identifier ← stripped_text message_id
  elim (find (has_message_id identifier) q) [
    | none ↦ err message_not_found
    | some m ↦ ok (message m)
  ]

state_eq : State → State → Bool
state_eq State.ready t = is_ready t
state_eq State.locked t = is_locked t
state_eq State.completed t = is_completed t
state_eq State.dead t = is_dead t

abbrev in_state : Option State → Message → Bool
unfolding state_eq
in_state none m = true
in_state (some s) m = state_eq s m.state

-- `list`
unfoldable pub list_messages : Option State → List Message → List QueueMessage
unfolding message state_eq
list_messages state q = map message (sort message_order (select (in_state state) q))
