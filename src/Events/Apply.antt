-- ===== src/Events/Apply.antt =====
-- The writer's part of src/people_counter/fabric_events.py: `_DeltaStore`, `_apply_event` and `_drain`.
-- A write that is not confirmed raises and leaves what was written before it.
pub mod Answer
pub mod Drained
use people_counter.Prelude.{
  ℕ, zero, suc, ◌+◌, ◌-◌, max, String, Bool, true, false, not, ◌&&◌, ◌||◌, Option, none, some, List,
  [], ◌∷◌, ◌++◌, ltb, leb, nat_eq, ◌==◌, take, if◌then◌else◌, Result, ok, err, rejected,
  runtime_error, ◌>>=◌, ◌>>◌, require,
}
use people_counter.Prelude.Rows.{select, find, update, any, every}
use people_counter.Prelude.Sorting.{sort}
use people_counter.Prelude.Texts.{str_leb}
use people_counter.Events.{
  Value, null, text, same, Row, Entry, lookup, value_or, assign, matches, is_null, is_after,
  is_active, Command, Plan,
}
use people_counter.Events.Planning.{plan}

-- A row of the inbox; `command` is what `_Command.from_row` reads, when it raises nothing.
pub record Event : Type 0 where
  pub event_id : String
  pub work_id : String
  pub attempt_id : String
  pub worker_execution_id : String
  pub sequence : ℕ
  pub created_at : ℕ
  pub command : Option Command

-- A receipt, without its message and its time.
pub record Receipt : Type 0 where
  pub event_id : String
  pub work_id : String
  pub attempt_id : String
  pub worker_execution_id : String
  pub sequence : ℕ
  pub applied : Bool

pub record Tables : Type 0 where
  pub video_work : List Row
  pub video_attempts : List Row
  pub receipts : List Receipt

-- The clock when an event is planned and when its rows are written.
pub record Times : Type 0 where
  pub planned : ℕ
  pub written : ℕ

-- orderBy("created_at", "worker_execution_id", "sequence", "event_id")
abbrev pub inbox_order : Event → Event → Bool
inbox_order a b =
    ltb a.created_at b.created_at
    || (nat_eq a.created_at b.created_at
        && (not (str_leb b.worker_execution_id a.worker_execution_id)
            || (a.worker_execution_id == b.worker_execution_id
                && (ltb a.sequence b.sequence
                    || (nat_eq a.sequence b.sequence && str_leb a.event_id b.event_id)))))

abbrev pub has_receipt : String → List Receipt → Bool
has_receipt k rs = any (λ r. r.event_id == k) rs

-- `pending`: a left anti join with the receipts
unfoldable pub pending : ℕ → List Event → List Receipt → List Event
unfolding select sort any
pending limit events receipts =
    take limit (sort inbox_order (select (λ e. not (has_receipt e.event_id receipts)) events))

-- `unique`
unfoldable pub unique : String → String → List Row → Result Row
unfolding select
unique key value rows = elim (select (λ r. same (r key) (text value)) rows) [
  | [] ↦ err rejected
  | r ∷ rs ↦ elim rs [ [] ↦ ok r | q ∷ qs ↦ err rejected ]
]

-- `highest_sequence`
unfoldable pub highest_sequence : Event → List Receipt → ℕ
highest_sequence e [] = 0
highest_sequence e (r ∷ rs) =
    let rest = highest_sequence e rs in
    if r.work_id == e.work_id
      && r.attempt_id == e.attempt_id
      && r.worker_execution_id == e.worker_execution_id
    then max r.sequence rest
    else rest

abbrev pub work_keys : List String
work_keys =
    "work_id" ∷ "capture_date" ∷ "config_sha256" ∷ "status" ∷ "lease_owner_attempt_id"
    ∷ "lease_dispatcher_id" ∷ "lease_acquired_at" ∷ "lease_expires_at" ∷ "committed_attempt_id"
    ∷ "attempt_count" ∷ "max_attempts" ∷ []

abbrev pub attempt_keys : List String
attempt_keys =
    "work_id" ∷ "capture_date" ∷ "config_sha256" ∷ "status" ∷ "attempt_id" ∷ "worker_execution_id"
    ∷ "dispatcher_id" ∷ []

-- A write that leaves the work under its lease, or commits it.
unfoldable pub is_live_write : List Entry → Bool
is_live_write us =
    let status = value_or (lookup "status" us) null in
    is_active status || same status (text "SUCCEEDED")

-- The lease that the write sets, if it sets one, is not over.
abbrev pub renewal_live : Value → ℕ → Bool
renewal_live v now = is_null v || is_after v now

-- The condition of the update, on the row as it is now.
unfoldable pub unchanged : List String → Row → Row → Bool
unfolding every
unchanged keys before row = every (λ k. same (row k) (before k)) keys

unfoldable pub work_condition : ℕ → Row → List Entry → Row → Bool
unfolding unchanged is_live_write
work_condition now before us row =
    unchanged work_keys before row
    && (not (is_live_write us)
        || (is_after (row "lease_expires_at") now
            && renewal_live (value_or (lookup "lease_expires_at" us) null) now))

-- The row is there once, with the values that were to be set.
unfoldable pub persisted : String → Value → List Entry → List Row → Bool
unfolding select
persisted key value us rows = elim (select (λ r. same (r key) value) rows) [
  | [] ↦ false
  | r ∷ rs ↦ elim rs [ [] ↦ matches r us | q ∷ qs ↦ false ]
]

-- `update` of one table: the rows after it, and whether it is confirmed.
unfoldable pub write : (Row → Bool) → String → Row → List Entry → List Row → List Row × Bool
unfolding update persisted
write condition key before [] rows = (rows, true)
write condition key before (u ∷ us) rows =
    let after = update condition (λ r. assign r (u ∷ us)) rows in
    (after, persisted key (before key) (u ∷ us) after)

-- Both updates, the attempt first.
unfoldable pub write_plan : ℕ → Row → Row → Plan → Tables → Tables × Bool
unfolding write work_condition unchanged
write_plan now work attempt p t =
    let (attempts, first) =
      write (unchanged attempt_keys attempt) "attempt_id" attempt p.attempt t.video_attempts in
    let (works, second) =
      write (work_condition now work p.work) "work_id" work p.work t.video_work in
    if first
    then (record t { video_attempts = attempts; video_work = works }, second)
    else (record t { video_attempts = attempts }, false)

abbrev pub receipt_of : Event → Bool → Receipt
receipt_of e applied = record {
  event_id = e.event_id;
  work_id = e.work_id;
  attempt_id = e.attempt_id;
  worker_execution_id = e.worker_execution_id;
  sequence = e.sequence;
  applied = applied;
}

-- The rows that the command is about, and what is planned on them.
pub record Decision : Type 0 where
  pub work : Row
  pub attempt : Row
  pub plan : Plan

unfoldable pub decide : ℕ → Event → Command → Tables → Result Decision
unfolding highest_sequence unique
decide now e c t = do
  require (ltb (highest_sequence e t.receipts) c.sequence) rejected
  work ← unique "work_id" c.work_id t.video_work
  attempt ← unique "attempt_id" c.attempt_id t.video_attempts
  p ← plan c work attempt now
  ok (record { work = work; attempt = attempt; plan = p })

abbrev pub acknowledge : Event → Tables × Bool → Tables × Result Receipt
acknowledge e (t, true) = (t, ok (receipt_of e true))
acknowledge e (t, false) = (t, err runtime_error)

abbrev pub carry_out : ℕ → Event → Tables → Result Decision → Tables × Result Receipt
carry_out written e t (err _) = (t, ok (receipt_of e false))
carry_out written e t (ok d) = acknowledge e (write_plan written d.work d.attempt d.plan t)

-- `_apply_event`: the tables after it, and the receipt or the error that it raised.
unfoldable pub apply_event : Times → Tables → Event → Tables × Result Receipt
unfolding decide write_plan
apply_event times t e = elim e.command [
  | none ↦ (t, ok (receipt_of e false))
  | some c ↦ carry_out times.written e t (decide times.planned e c t)
]

-- The state of `_drain` between two events; `raised` is whether an event raised.
pub record Draining : Type 0 where
  pub tables : Tables
  pub batch : List Receipt
  pub seen : List String
  pub processed : ℕ
  pub applied : ℕ
  pub rejections : ℕ
  pub raised : Bool

-- `store.append_receipts(batch)`
abbrev pub flush : Draining → Draining
flush d = record d {
  tables = record d.tables { receipts = d.tables.receipts ++ d.batch };
  batch = [];
}

-- The work or the attempt of the event is in the batch.
abbrev pub in_batch : Event → List Receipt → Bool
in_batch e batch = any (λ r. r.work_id == e.work_id || r.attempt_id == e.attempt_id) batch

abbrev pub one_if : Bool → ℕ
one_if true = 1
one_if false = 0

abbrev pub count_receipt : Draining → Event → Tables × Result Receipt → Draining
count_receipt d e (t, err _) = record d { tables = t; seen = e.event_id ∷ d.seen; raised = true }
count_receipt d e (t, ok r) = record d {
  tables = t;
  batch = d.batch ++ r ∷ [];
  seen = e.event_id ∷ d.seen;
  processed = d.processed + 1;
  applied = d.applied + one_if r.applied;
  rejections = d.rejections + one_if (not r.applied);
}

-- One round of the loop.
unfoldable pub drain_event : Times → Draining → Event → Draining
unfolding apply_event any
drain_event times d e =
    if any (λ k. k == e.event_id) d.seen || has_receipt e.event_id d.tables.receipts
    then d
    else let ready = (if in_batch e d.batch then flush d else d) in
      count_receipt ready e (apply_event times ready.tables e)

-- The loop; after an event that raised nothing more is done.
unfoldable pub drain_events : (String → Times) → Draining → List Event → Draining
drain_events clock d [] = d
drain_events clock d (e ∷ es) =
    let next = drain_event (clock e.event_id) d e in
    let rest = drain_events clock next es in if next.raised then next else rest

-- `_drain`: the batch that is left is made durable, unless an event raised.
unfoldable pub drain : (String → Times) → ℕ → List Event → Tables → Draining
unfolding pending drain_events drain_event
drain clock limit events t =
    let d =
      drain_events clock
        (record {
          tables = t;
          batch = [];
          seen = [];
          processed = 0;
          applied = 0;
          rejections = 0;
          raised = false;
        })
        (pending limit events t.receipts) in
    if d.raised then d else flush d
