-- ===== src/Control/Process/Heartbeat.antt =====
-- A heartbeat extends the whole lease, and only a live one.
use people_counter.Prelude.{
  ℕ, ◌+◌, ◌≤◌, ◌<◌, max, ◌≡◌, refl, ◌∙◌, true, some, List, [], ◌∷◌, arith, All, ok, Bool-cases, inl,
  inr, Returns, Returns-ok, Returns-err, Returns-require, Returns-bind, Returns-option,
}
use people_counter.Prelude.Rows.{find, update, find_holds}
use people_counter.Prelude.Lookup.{find-update}
use people_counter.Prelude.Membership.{In, In-update, In-update_at, count-In}
use people_counter.Control.Tables.{Work, Batch, batch_leased, ClaimedWork, Store}
use people_counter.Control.Process.{
  ProcessEnvelope, has_batch_id, owns, extended, extend_items, extend_batch, heartbeat_batch,
  heartbeat_process,
}

-- The claim of `i` still owns its work, until `expires`.
abbrev pub HoldsUntil : ℕ → List Work → ClaimedWork → Type 0
HoldsUntil expires work i =
    (w : Work) × In w work
    × (owns i.work_id i.attempt_id i.fence w ≡ true)
    × (w.lease_expires_at ≡ some expires)

extended-HoldsUntil :
    (expires now : ℕ) (i j : ClaimedWork) (work : List Work)
    → HoldsUntil expires work i
    → HoldsUntil expires
        (update (owns j.work_id j.attempt_id j.fence) (extended expires now) work)
        i
unfolding extended
extended-HoldsUntil expires now i j work (w, m, o, e) =
    elim (Bool-cases (owns j.work_id j.attempt_id j.fence w)) [
      | inl q ↦ (
        extended expires now w,
        In-update_at (owns j.work_id j.attempt_id j.fence) _ w work q m,
        o,
        refl,
      )
      | inr q ↦ (w, In-update (owns j.work_id j.attempt_id j.fence) _ w work q m, o, e)
    ]

extend_items-keeps :
    (expires now : ℕ) (i : ClaimedWork) (js : List ClaimedWork) (s : Store)
    → HoldsUntil expires s.work i
    → Returns (λ t. HoldsUntil expires t.work i) (extend_items expires now js s)
unfolding extend_items
extend_items-keeps expires now i [] s h = Returns-ok s h
extend_items-keeps expires now i (j ∷ js) s h =
    Returns-require _ _ _
      λ _. extend_items-keeps expires now i js _ (extended-HoldsUntil expires now i j s.work h)

extend_items-HoldsUntil :
    (expires now : ℕ) (js : List ClaimedWork) (s : Store)
    → Returns
        (λ t. (t.batches ≡ s.batches) × All (HoldsUntil expires t.work) js)
        (extend_items expires now js s)
unfolding extend_items
extend_items-HoldsUntil expires now [] s = Returns-ok s (refl, tt)
extend_items-HoldsUntil expires now (j ∷ js) s = Returns-require _ _ _ λ one.
    let own = owns j.work_id j.attempt_id j.fence in
    let s' : Store = record s { work = update own (extended expires now) s.work } in
    let (w, m, o) = count-In own s.work (ground arith) in
    let first : HoldsUntil expires s'.work j = (
      extended expires now w,
      In-update_at own (extended expires now) w s.work o m,
      unfold extended in o,
      unfold extended in refl,
    ) in
    record {
      at = λ t e.
          let rest = (extend_items-HoldsUntil expires now js s').at t e in
          (rest.0, ((extend_items-keeps expires now j js s' first).at t e, rest.1));
    }

-- What a heartbeat that returns has done.
pub record IsExtended (extension now : ℕ) (e : ProcessEnvelope) (s t : Store) : Type 0 where
  pub batch : Batch
  pub found : find (has_batch_id e.batch_id) s.batches ≡ some batch
  pub live : (batch_leased batch.status ≡ true) × (now < batch.lease_expires_at)
  pub expires : ℕ
  pub later : (batch.lease_expires_at ≤ expires) × (now + extension ≤ expires)
  pub stored :
      find (has_batch_id e.batch_id) t.batches ≡ some (record batch { lease_expires_at = expires })
  pub items : All (HoldsUntil expires t.work) e.items

heartbeat_batch-IsExtended :
    (extension now : ℕ) (e : ProcessEnvelope) (b : Batch) (s : Store)
    → find (has_batch_id e.batch_id) s.batches ≡ some b
    → Returns (IsExtended extension now e s) (heartbeat_batch extension now e b s)
unfolding heartbeat_batch extend_batch
heartbeat_batch-IsExtended extension now e b s q = Returns-require _ _ _ λ live.
    Returns-bind _ _ λ u _.
      let x : has_batch_id e.batch_id b ≡ true = find_holds (has_batch_id e.batch_id) s.batches q in
      record {
        at = λ t h.
            let items =
              (extend_items-HoldsUntil (max b.lease_expires_at (now + extension)) now e.items _).at
                t h in
            record {
              batch = b;
              found = q;
              live = (ground arith, ground arith);
              expires = max b.lease_expires_at (now + extension);
              later = (omega arith, omega arith);
              stored = rw items.0 (
                  find-update (has_batch_id e.batch_id) (has_batch_id e.batch_id)
                    (extend_batch (max b.lease_expires_at (now + extension))) b s.batches
                    (λ y. refl) q
                  ∙ rw x refl);
              items = items.1;
            };
      }

-- If `heartbeat_process` returns a store, then the batch was there, leased and not expired; its lease in
-- the new store ends at a time that is neither before its old end nor before `now + extension`, and each
-- item of the envelope still owns its work, with a lease that ends at that time.
pub heartbeat_process-IsExtended :
    (extension now : ℕ) (e : ProcessEnvelope) (s t : Store)
    → heartbeat_process extension now e s ≡ ok t
    → IsExtended extension now e s t
unfolding heartbeat_process
heartbeat_process-IsExtended extension now e s t = (all).at t
  where
    all : Returns (IsExtended extension now e s) (heartbeat_process extension now e s)
    all = Returns-bind _ _ λ u _.
        Returns-option (find (has_batch_id e.batch_id) s.batches) _ _ (λ _. Returns-err _)
          (λ b q. heartbeat_batch-IsExtended extension now e b s q)
