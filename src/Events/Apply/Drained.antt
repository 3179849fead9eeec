-- ===== src/Events/Apply/Drained.antt =====
-- What `_drain` keeps of the receipts: one for each event, in the order of the sequences.
use people_counter.Prelude.{
  ℕ, ◌+◌, ◌≤◌, ◌<◌, ◌≡◌, ◌≢◌, refl, sym, ap, ◌∙◌, String, Bool, true, false, not, ◌||◌, List, [],
  ◌∷◌, ◌++◌, arith, inl, inr, All, All-imp, All-append, All-take, All-and, ok_inj, length,
  length-append, ◌==◌, eq_iff, Bool-cases, Result, ok, err, if◌then◌else◌,
}
use people_counter.Prelude.Rows.{any, All-select}
use people_counter.Prelude.Sorting.{All-sort}
use people_counter.Prelude.Membership.{In}
use people_counter.Events.Apply.{
  Event, Receipt, Tables, Times, has_receipt, highest_sequence, receipt_of, apply_event,
  inbox_order, Draining, flush, in_batch, one_if, count_receipt, drain_event, drain_events, drain,
  pending,
}
use people_counter.Events.Apply.Answer.{
  SameSource, Precedes, Ordered, Ordered-append_last, IsRead, highest_bound, Answer,
  apply_event-Answer,
}

-- The receipts that are durable and those of the batch.
abbrev pub given : Draining → List Receipt
given d = d.tables.receipts ++ d.batch

-- What holds between two events of a drain that began with the receipts `first`.
pub record IsDraining (first : List Receipt) (d : Draining) : Type 0 where
  pub ordered : Ordered (given d)
  pub counted : length (given d) ≡ length first + d.processed
  pub split : d.processed ≡ d.applied + d.rejections
  pub seen : All (λ r. In r.event_id d.seen) d.batch
  pub later : List Receipt
  pub kept : given d ≡ first ++ later

append_nil : (xs : List Receipt) → (xs ++ []) ≡ xs
append_nil [] = refl
append_nil (x ∷ xs) = ap (λ (r : List Receipt). x ∷ r) (append_nil xs)

append_assoc : (xs ys zs : List Receipt) → ((xs ++ ys) ++ zs) ≡ (xs ++ (ys ++ zs))
append_assoc [] ys zs = refl
append_assoc (x ∷ xs) ys zs = ap (λ (r : List Receipt). x ∷ r) (append_assoc xs ys zs)

flush-IsDraining :
    (first : List Receipt) (d : Draining) → IsDraining first d → IsDraining first (flush d)
flush-IsDraining first d h = record {
  ordered = rw (append_nil (given d)) h.ordered;
  counted = rw (append_nil (given d)) h.counted;
  split = h.split;
  seen = tt;
  later = h.later;
  kept = append_nil (given d) ∙ h.kept;
}

-- The receipts are of other events.
abbrev Others : Event → List Receipt → Type 0
Others e rs = All (λ r. r.event_id ≢ e.event_id) rs

no_receipt : (e : Event) (rs : List Receipt) → has_receipt e.event_id rs ≡ false → Others e rs
unfolding any
no_receipt e [] h = tt
no_receipt e (r ∷ rs) h = (
  (λ q. clash ((eq_iff r.event_id e.event_id).1 q) (ground arith)),
  no_receipt e rs (ground arith),
)
  where
    clash : {v : Bool} → v ≡ true → v ≡ false → ⊥
    clash a b = cc

not_in_seen : (k : String) (seen : List String) → any (λ j. j == k) seen ≡ false → In k seen → ⊥
unfolding any
not_in_seen k [] h m = m
not_in_seen k (j ∷ js) h (inl q) = clash ((eq_iff j k).1 (sym q)) (ground arith)
  where
    clash : {v : Bool} → v ≡ true → v ≡ false → ⊥
    clash a b = cc
not_in_seen k (j ∷ js) h (inr m) = not_in_seen k js (ground arith) m

batch-Others :
    (e : Event) (seen : List String) (batch : List Receipt)
    → any (λ j. j == e.event_id) seen ≡ false
    → All (λ r. In r.event_id seen) batch
    → Others e batch
batch-Others e seen batch h k =
    All-imp (λ r. In r.event_id seen) _ (λ r m q. not_in_seen e.event_id seen h (rw q at m)) batch k

-- No receipt of the batch is of the event's work.
abbrev Free : Event → List Receipt → Type 0
Free e rs = All (λ r. r.work_id ≢ e.work_id) rs

in_batch-Free : (e : Event) (batch : List Receipt) → in_batch e batch ≡ false → Free e batch
unfolding any
in_batch-Free e [] h = tt
in_batch-Free e (r ∷ rs) h = (
  (λ q. clash ((eq_iff r.work_id e.work_id).1 q) (ground arith)),
  in_batch-Free e rs (ground arith),
)
  where
    clash : {v : Bool} → v ≡ true → v ≡ false → ⊥
    clash a b = cc

-- The new receipt comes after all others.
preceded :
    (e : Event) (b : Bool) (receipts batch : List Receipt)
    → Others e receipts
    → Others e batch
    → Free e batch
    → (b ≡ true → highest_sequence e receipts < e.sequence)
    → All (λ r. Precedes r (receipt_of e b)) (receipts ++ batch)
preceded e b receipts batch o1 o2 free above =
    All-append _ receipts batch
      (All-imp _ _ durable receipts (All-and _ _ receipts o1 (highest_bound e receipts)))
      (All-imp _ _ batched batch (All-and _ _ batch o2 free))
  where
    durable :
        (r : Receipt)
        → (r.event_id ≢ e.event_id)
          × (SameSource r (receipt_of e true) → r.sequence ≤ highest_sequence e receipts)
        → Precedes r (receipt_of e b)
    durable r (o, h) = record { other_event = o; lower = λ q s. bounded (above q) (h s) }
      where
        bounded :
            highest_sequence e receipts < e.sequence
            → r.sequence ≤ highest_sequence e receipts
            → r.sequence < e.sequence
        bounded u v = omega arith

    batched :
        (r : Receipt)
        → (r.event_id ≢ e.event_id) × (r.work_id ≢ e.work_id)
        → Precedes r (receipt_of e b)
    batched r (o, f) = record { other_event = o; lower = λ q s. absurd (f s.0) }

-- A round that has tables with the same receipts and a new answer.
count_receipt-IsDraining :
    (first : List Receipt) (d : Draining) (e : Event) (r : Tables × Result Receipt)
    → IsDraining first d
    → Others e d.tables.receipts
    → Others e d.batch
    → Free e d.batch
    → r.0.receipts ≡ d.tables.receipts
    → Answer e d.tables r.1
    → IsDraining first (count_receipt d e r)
count_receipt-IsDraining first d e (t, err x) h o1 o2 free same answer = record {
  ordered = rw same h.ordered;
  counted = rw same h.counted;
  split = h.split;
  seen = All-imp (λ r. In r.event_id d.seen) _ (λ r m. inr m) d.batch h.seen;
  later = h.later;
  kept = rw same h.kept;
}
count_receipt-IsDraining first d e (t, ok r) h o1 o2 free same (inl q) = cc
count_receipt-IsDraining first d e (t, ok r) h o1 o2 free same (inr (b, q, above)) =
    let made : r ≡ receipt_of e b = ok_inj q in
    let all = append_assoc d.tables.receipts d.batch (r ∷ []) in
    let size = length-append (given d) (r ∷ []) in
    record {
      ordered =
          rw (same, ← all)
            (Ordered-append_last (given d) r h.ordered
              (rw made (preceded e b d.tables.receipts d.batch o1 o2 free above)));
      counted = rw (same, ← all) (omega (arith, size, h.counted));
      split = rw made (split_one d.processed d.applied d.rejections b h.split);
      seen =
          All-append _ d.batch (r ∷ [])
            (All-imp (λ x. In x.event_id d.seen) _ (λ x m. inr m) d.batch h.seen)
            (inl (rw made refl), tt);
      later = h.later ++ r ∷ [];
      kept = rw (same, ← all, h.kept) (append_assoc first h.later (r ∷ []));
    }
  where
    split_one : (p a j : ℕ) (b : Bool) → p ≡ a + j → p + 1 ≡ a + one_if b + (j + one_if (not b))
    split_one p a j true k = omega arith
    split_one p a j false k = omega arith

drain_event-IsDraining :
    (first : List Receipt) (times : Times) (d : Draining) (e : Event)
    → IsRead e
    → IsDraining first d
    → IsDraining first (drain_event times d e)
unfolding drain_event
drain_event-IsDraining first times d e read h =
    elim (Bool-cases
      (any (λ k. k == e.event_id) d.seen || has_receipt e.event_id d.tables.receipts)) [
        | inl q ↦ rw q h
        | inr q ↦ rw q (elim (Bool-cases (in_batch e d.batch)) [
          | inl f ↦ rw f (
              answered (flush d) (flush-IsDraining first d h)
                (All-append _ d.tables.receipts d.batch (durable q) (batched q)) tt tt)
          | inr f ↦ rw f (answered d h (durable q) (batched q) (in_batch-Free e d.batch f))
        ])
      ]
  where
    durable :
        (any (λ k. k == e.event_id) d.seen || has_receipt e.event_id d.tables.receipts) ≡ false
        → Others e d.tables.receipts
    durable q = no_receipt e d.tables.receipts (ground arith)

    batched :
        (any (λ k. k == e.event_id) d.seen || has_receipt e.event_id d.tables.receipts) ≡ false
        → Others e d.batch
    batched q = batch-Others e d.seen d.batch (ground arith) h.seen

    answered :
        (c : Draining)
        → IsDraining first c
        → Others e c.tables.receipts
        → Others e c.batch
        → Free e c.batch
        → IsDraining first (count_receipt c e (apply_event times c.tables e))
    answered c k o1 o2 free =
        let (same, answer) = apply_event-Answer times c.tables e read in
        count_receipt-IsDraining first c e (apply_event times c.tables e) k o1 o2 free same answer

either : (P : Draining → Type 0) (b : Bool) {x y : Draining} → P x → P y → P (if b then x else y)
either P true h k = h
either P false h k = k

-- The end of a drain.
closed :
    (first : List Receipt) (d : Draining) (b : Bool)
    → d.raised ≡ b
    → IsDraining first d
    → let r = (if b then d else flush d) in IsDraining first r × (r.raised ≡ false → r.batch ≡ [])
closed first d true q h = (h, λ f. absurd (clash q f))
  where
    clash : {v : Bool} → v ≡ true → v ≡ false → ⊥
    clash a b = cc
closed first d false q h = (flush-IsDraining first d h, λ _. refl)

drain_events-IsDraining :
    (first : List Receipt) (clock : String → Times) (d : Draining) (events : List Event)
    → All IsRead events
    → IsDraining first d
    → IsDraining first (drain_events clock d events)
unfolding drain_events
drain_events-IsDraining first clock d [] read h = h
drain_events-IsDraining first clock d (e ∷ es) read h =
    let next = drain_event (clock e.event_id) d e in
    let k = drain_event-IsDraining first (clock e.event_id) d e read.0 h in
    either (IsDraining first) next.raised k (drain_events-IsDraining first clock next es read.1 k)

-- A drain starts from tables whose receipts are ordered, and each command in the inbox has the sequence
-- of its event. Then, whether an event raises or not: the receipts that were there stay first; no event
-- has two receipts; a receipt of an applied event has a higher sequence than every earlier receipt of
-- the same work, attempt and execution; there is one more receipt for each event processed, which is
-- applied or rejected; and if no event raised, every receipt is durable.
pub drain-IsDraining :
    (clock : String → Times) (limit : ℕ) (events : List Event) (t : Tables)
    → Ordered t.receipts
    → All IsRead events
    → let d = drain clock limit events t in
      IsDraining t.receipts d × (d.raised ≡ false → d.batch ≡ [])
unfolding drain pending
drain-IsDraining clock limit events t ordered read =
    let waiting = pending limit events t.receipts in
    let begun : Draining = record {
      tables = t;
      batch = [];
      seen = [];
      processed = 0;
      applied = 0;
      rejections = 0;
      raised = false;
    } in
    let all = append_nil t.receipts in
    let k =
      drain_events-IsDraining t.receipts clock begun waiting
        (All-take IsRead limit _ (All-sort IsRead inbox_order _ (All-select IsRead _ events read)))
        (record {
          ordered = rw all ordered;
          counted = rw all (omega arith);
          split = refl;
          seen = tt;
          later = [];
          kept = refl;
        }) in
    closed t.receipts (drain_events clock begun waiting) _ refl k
