-- ===== src/Events/Apply/Answer.antt =====
-- What one event gives `_drain`, and the order of the receipts.
use people_counter.Prelude.{
  ℕ, ◌≤◌, ◌<◌, ◌≡◌, ◌≢◌, refl, Bool, true, false, some, List, [], ◌∷◌, ◌++◌, arith, ◌⊎◌, inl, inr,
  All, All-imp, All-append, ltb, ltb→lt, eq_iff, Bool-cases, Option-cases, Result, ok, err,
  runtime_error, rejected, require_returned,
}
use people_counter.Events.{Command, Plan, Row}
use people_counter.Events.Apply.{
  Event, Receipt, Tables, Times, highest_sequence, write, unchanged, attempt_keys, write_plan,
  receipt_of, Decision, decide, acknowledge, carry_out, apply_event,
}

abbrev pub SameSource : Receipt → Receipt → Type 0
SameSource x y =
    (x.work_id ≡ y.work_id)
    × (x.attempt_id ≡ y.attempt_id)
    × (x.worker_execution_id ≡ y.worker_execution_id)

-- The receipt `x` is before `y`: they are of two events, and if `y` was applied and both come from one
-- execution of one attempt, the sequence of `x` is lower.
pub record Precedes (x y : Receipt) : Type 0 where
  pub other_event : x.event_id ≢ y.event_id
  pub lower : y.applied ≡ true → SameSource x y → x.sequence < y.sequence

-- Each receipt precedes the later ones.
abbrev pub Ordered : List Receipt → Type 0
Ordered [] = Unit
Ordered (r ∷ rs) = All (Precedes r) rs × Ordered rs

pub Ordered-append_last :
    (rs : List Receipt) (r : Receipt)
    → Ordered rs
    → All (λ x. Precedes x r) rs
    → Ordered (rs ++ r ∷ [])
Ordered-append_last [] r h k = (tt, tt)
Ordered-append_last (x ∷ xs) r h k =
    (All-append (Precedes x) xs (r ∷ []) h.0 (k.0, tt), Ordered-append_last xs r h.1 k.1)

-- The command in an event is read from the event's row.
abbrev pub IsRead : Event → Type 0
IsRead e = (c : Command) → e.command ≡ some c → c.sequence ≡ e.sequence

pub highest_bound :
    (e : Event) (rs : List Receipt)
    → All (λ r. SameSource r (receipt_of e true) → r.sequence ≤ highest_sequence e rs) rs
unfolding highest_sequence
highest_bound e [] = tt
highest_bound e (r ∷ rs) = (
  (λ q. head_bound q),
  All-imp (λ x. SameSource x (receipt_of e true) → x.sequence ≤ highest_sequence e rs) _
      (λ x h q. grown x (h q)) rs (highest_bound e rs),
)
  where
    head_bound : SameSource r (receipt_of e true) → r.sequence ≤ highest_sequence e (r ∷ rs)
    head_bound (a, b, c) =
        unfold highest_sequence in
        rw
          (
            (eq_iff r.work_id e.work_id).1 a,
            (eq_iff r.attempt_id e.attempt_id).1 b,
            (eq_iff r.worker_execution_id e.worker_execution_id).1 c,
          )
          (omega arith)

    grown :
        (x : Receipt)
        → x.sequence ≤ highest_sequence e rs
        → x.sequence ≤ highest_sequence e (r ∷ rs)
    grown x h = unfold highest_sequence in ground arith

-- What one event gives: an error, or a receipt of the event, which is applied only if the event's
-- sequence is above every acknowledged one.
abbrev pub Answer : Event → Tables → Result Receipt → Type 0
Answer e t r =
    (r ≡ err runtime_error)
    ⊎ ((b : Bool) × (r ≡ ok (receipt_of e b))
        × (b ≡ true → highest_sequence e t.receipts < e.sequence))

acknowledge-Answer :
    (e : Event) (t : Tables) (r : Tables × Bool)
    → r.0.receipts ≡ t.receipts
    → highest_sequence e t.receipts < e.sequence
    → ((acknowledge e r).0.receipts ≡ t.receipts) × Answer e t (acknowledge e r).1
acknowledge-Answer e t (u, true) h k = (h, inr (true, refl, λ _. k))
acknowledge-Answer e t (u, false) h k = (h, inl refl)

write_plan-receipts :
    (now : ℕ) (work attempt : Row) (p : Plan) (t : Tables)
    → (write_plan now work attempt p t).0.receipts ≡ t.receipts
unfolding write_plan
write_plan-receipts now work attempt p t =
    elim (Bool-cases
      (write (unchanged attempt_keys attempt) "attempt_id" attempt p.attempt t.video_attempts).1) [
        | inl e ↦ rw e refl
        | inr e ↦ rw e refl
      ]

carry_out-Answer :
    (written : ℕ) (e : Event) (t : Tables) (r : Result Decision)
    → ((d : Decision) → r ≡ ok d → highest_sequence e t.receipts < e.sequence)
    → ((carry_out written e t r).0.receipts ≡ t.receipts) × Answer e t (carry_out written e t r).1
carry_out-Answer written e t (err x) h = (refl, inr (false, refl, λ q. absurd (false_true q)))
  where
    false_true : false ≡ true → ⊥
    false_true q = cc
carry_out-Answer written e t (ok d) h =
    acknowledge-Answer e t (write_plan written d.work d.attempt d.plan t)
      (write_plan-receipts written d.work d.attempt d.plan t) (h d refl)

decided_above :
    (now : ℕ) (e : Event) (c : Command) (t : Tables) (d : Decision)
    → decide now e c t ≡ ok d
    → highest_sequence e t.receipts < c.sequence
unfolding decide
decided_above now e c t d h =
    ltb→lt _ _ (require_returned (ltb (highest_sequence e t.receipts) c.sequence) rejected _ h).0

pub apply_event-Answer :
    (times : Times) (t : Tables) (e : Event)
    → IsRead e
    → ((apply_event times t e).0.receipts ≡ t.receipts) × Answer e t (apply_event times t e).1
unfolding apply_event
apply_event-Answer times t e read = elim (Option-cases e.command) [
  | inl q ↦ rw q (refl, inr (false, refl, λ f. absurd (false_true f)))
  | inr (c, q) ↦ rw q (
      carry_out-Answer times.written e t (decide times.planned e c t)
        λ d h. rw (read c q) at (decided_above times.planned e c t d h))
]
  where
    false_true : false ≡ true → ⊥
    false_true q = cc
