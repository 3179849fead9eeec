-- ===== src/LocalQueue/Tests.antt =====
-- Runs of the local queue at concrete inputs, and the theorems at them.
use people_counter.Prelude.{
  ℕ, ◌*◌, ◌≡◌, refl, inl, String, none, List, [], ◌∷◌, Result, ok, err, lease_lost, ◌>>=◌, require,
}
use people_counter.Prelude.Texts.{is_blank, strip}
use people_counter.Prelude.Rows.{find, update, count, any, select}
use people_counter.Prelude.Sorting.{insert, sort}
use people_counter.Prelude.Membership.{In}
use people_counter.LocalQueue.{
  Action, Message, State, ClaimedMessage, second, stripped_text, bounded_seconds,
  nonnegative_seconds, new_message, enqueue_row, enqueue, spent, unlocked, recover_expired,
}
use people_counter.LocalQueue.Lock.{locked_message, claim_rows, deliverable, claim, renew}
use people_counter.LocalQueue.Finish.{
  Outcome, final_state, finalized, finalize_row, finalize_one, finalize_all, finalize,
}
use people_counter.LocalQueue.Sound.{IsSound}
use people_counter.LocalQueue.Steps.{
  Reach, here, next, enqueue_step, claim_step, finalize_step, recover_step, Reach-IsSoundQueue,
  Reach-keeps_terminal,
}
use people_counter.LocalQueue.Delivered.{IsDelivered, claim-IsDelivered}
use people_counter.LocalQueue.Enqueued.{enqueue-enqueue}
use people_counter.LocalQueue.Finalized.{finalize-renew}

abbrev digest : String → String
digest payload = payload

abbrev queue_of : {A : Type 0} → Result (List Message × A) → List Message
queue_of (ok (q, a)) = q
queue_of (err e) = []

abbrev queue_alone : Result (List Message) → List Message
queue_alone (ok q) = q
queue_alone (err e) = []

abbrev claims_of : Result (List Message × List ClaimedMessage) → List ClaimedMessage
claims_of (ok (q, cs)) = cs
claims_of (err e) = []

abbrev tokens : ℕ → String
tokens n = "token-1"

abbrev enqueued : List Message
enqueued = queue_of (enqueue digest "message-1" " key-1 " "{}" 2 none 10 [])

abbrev locked : List Message
locked = queue_of (claim tokens 5 "worker" (60 * second) 1 20 enqueued)

abbrev outcomes : List Outcome
outcomes = record { lock_token = "token-1"; action = Action.complete; reason = none } ∷ []

abbrev finished : List Message
finished = queue_alone (finalize outcomes 0 30 locked)

-- The message is enqueued, claimed and completed.
all_run :
    (enqueue digest "message-1" " key-1 " "{}" 2 none 10 [] ≡ ok (enqueued, "message-1"))
    × (claim tokens 5 "worker" (60 * second) 1 20 enqueued
        ≡ ok (locked, claims_of (claim tokens 5 "worker" (60 * second) 1 20 enqueued)))
    × (finalize outcomes 0 30 locked ≡ ok finished)
unfolding enqueue claim finalize ◌>>=◌ require is_blank strip find update count any select insert
    sort stripped_text bounded_seconds nonnegative_seconds new_message enqueue_row spent unlocked
    recover_expired locked_message claim_rows deliverable final_state finalized finalize_row
    finalize_one finalize_all
all_run = (refl, refl, refl)

finished_Reach : Reach digest [] finished
finished_Reach =
    next
      (next (next here (enqueue_step "message-1" " key-1 " "{}" 2 none 10 "message-1" all_run.0))
        (claim_step tokens 5 "worker" (60 * second) 1 20 _ all_run.1))
      (finalize_step outcomes 0 30 all_run.2)

finished-IsSound : IsSound finished
finished-IsSound = Reach-IsSoundQueue digest finished finished_Reach

Reach-IsSoundQueue_example : IsSound finished
Reach-IsSoundQueue_example = Reach-IsSoundQueue digest finished finished_Reach

abbrev completed_message : Message
completed_message = record {
  message_id = "message-1";
  idempotency_key = "key-1";
  payload_json = "{}";
  payload_sha256 = "{}";
  state = State.completed;
  delivery_count = 1;
  max_delivery_count = 2;
  available_at = 30;
  lock_token = none;
  locked_by = none;
  locked_until = none;
  dead_letter_reason = none;
  created_at = 10;
  updated_at = 30;
}

completed_In : In completed_message finished
unfolding enqueue claim finalize ◌>>=◌ require is_blank strip find update count any select insert
    sort stripped_text bounded_seconds nonnegative_seconds new_message enqueue_row spent unlocked
    recover_expired locked_message claim_rows deliverable final_state finalized finalize_row
    finalize_one finalize_all
completed_In = inl refl

Reach-keeps_terminal_example : In completed_message (recover_expired 99 finished).0
Reach-keeps_terminal_example =
    Reach-keeps_terminal digest finished (recover_expired 99 finished).0 completed_message
      finished-IsSound (next here (recover_step 99 refl)) refl completed_In

enqueue-enqueue_example :
    enqueue digest "message-2" " key-1 " "{}" 2 none 50 enqueued ≡ ok (enqueued, "message-1")
enqueue-enqueue_example =
    enqueue-enqueue digest "message-1" "message-2" " key-1 " "{}" 2 none 10 50 [] enqueued
      "message-1" all_run.0

one_minute : bounded_seconds (60 * second) ≡ ok (60 * second)
unfolding bounded_seconds
one_minute = refl

finalize-renew_example : renew "token-1" (60 * second) 40 finished ≡ err lease_lost
finalize-renew_example =
    finalize-renew outcomes
      (record { lock_token = "token-1"; action = Action.complete; reason = none }) 0 30
      (60 * second) 40 locked finished all_run.2 (inl refl) one_minute

enqueued-IsSound : IsSound enqueued
enqueued-IsSound =
    Reach-IsSoundQueue digest enqueued
      (next here (enqueue_step "message-1" " key-1 " "{}" 2 none 10 "message-1" all_run.0))

claim-IsDelivered_example :
    IsDelivered 5 1 20 enqueued locked
      (claims_of (claim tokens 5 "worker" (60 * second) 1 20 enqueued))
claim-IsDelivered_example =
    claim-IsDelivered tokens 5 "worker" (60 * second) 1 20 enqueued locked _ enqueued-IsSound
      all_run.1
