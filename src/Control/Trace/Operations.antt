-- ===== src/Control/Trace/Operations.antt =====
-- The operations that register, claim, extend or seal as traces of writes.
use people_counter.Prelude.{
  ℕ, ◌+◌, refl, String, ◌||◌, Option, none, some, List, [], ◌∷◌, ◌==◌, ltb, length, Returns,
  Returns-ok, Returns-err, Returns-require, Returns-if, Returns-bind, Returns-option,
}
use people_counter.Prelude.Rows.{update, find, select}
use people_counter.Control.Tables.{
  Work, ClaimedWork, ClaimedBatch, RegisteredWork, Codec, Store, Batch, batch_sealed,
}
use people_counter.Control.Admission.{Settings}
use people_counter.Control.Trace.{
  write_elsewhere, write_insert, write_lease, write_extend, Trace, done, Write-Trace, Trace-append,
}
use people_counter.Control.Register.{
  Request, has_id, register_row, same_content, same_request, check_requests, register, register_all,
  register_many,
}
use people_counter.Control.Claim.{
  ClaimArgs, eligible, queue_rows, choose_runtime, active_limit_reached, empty_scope,
}
use people_counter.Control.Lease.{
  Lease, lease_item, lease_items, lease_rows, claim, claim_transaction, claim_runtime,
}
use people_counter.Control.Process.{
  ProcessEnvelope, has_batch_id, owns, extended, heartbeat_batch, heartbeat_process, extend_items,
}
use people_counter.Control.Seal.{Output, seal_item, seal_items, seal_found, seal_batch}

-- The store that an operation returns beside its value.
abbrev pub TraceFirst {ℓ} : {A : Type ℓ} → Store → Store × A → Type 0
TraceFirst s p = Trace s p.0

register_row-Trace :
    (c : Codec) (now : ℕ) (r : Request) (o : Option Work) (s : Store)
    → Returns (TraceFirst {A = RegisteredWork} s) (register_row c now r o s)
unfolding register_row
register_row-Trace c now r none s =
    Returns-ok _ (Write-Trace (write_insert c now r refl (record { log = refl; last = refl })))
register_row-Trace c now r (some w) s =
    Returns-if (same_content c r w) _ _ (λ _. Returns-ok _ (done)) (λ _. Returns-err _)

pub register-Trace :
    (c : Codec) (now : ℕ) (r : Request) (s : Store)
    → Returns (TraceFirst {A = RegisteredWork} s) (register c now r s)
unfolding register
register-Trace c now r s =
    Returns-bind _ _ λ u _. register_row-Trace c now r (find (has_id r.work_id) s.work) s

register_all-Trace :
    (c : Codec) (now : ℕ) (seen rs : List Request) (s : Store)
    → Returns (TraceFirst {A = List RegisteredWork} s) (register_all c now seen rs s)
unfolding register_all
register_all-Trace c now seen [] s = Returns-ok _ (done)
register_all-Trace c now seen (r ∷ rs) s =
    Returns-option (find (λ q. q.work_id == r.work_id) seen) _ _
      (λ _. Returns-bind (register_row c now r (find (has_id r.work_id) s.work) s) _ λ one e.
        Returns-bind (register_all c now (r ∷ seen) rs one.0) _ λ rest q. Returns-ok _ (
          Trace-append ((register_row-Trace c now r (find (has_id r.work_id) s.work) s).at one e)
            ((register_all-Trace c now (r ∷ seen) rs one.0).at rest q)))
      (λ q _.
        Returns-if (same_request c r q) _ _ (λ _. register_all-Trace c now seen rs s)
          (λ _. Returns-err _))

pub register_many-Trace :
    (c : Codec) (now : ℕ) (rs : List Request) (s : Store)
    → Returns (TraceFirst {A = List RegisteredWork} s) (register_many c now rs s)
unfolding register_many
register_many-Trace c now [] s = Returns-err _
register_many-Trace c now (r ∷ rs) s =
    Returns-bind (check_requests (r ∷ rs)) _ λ u _. register_all-Trace c now [] (r ∷ rs) s

lease_item-Trace :
    (l : Lease) (n : ℕ) (item : ClaimedWork) (s : Store) → Returns (Trace s) (lease_item l n item s)
unfolding lease_item
lease_item-Trace l n item s = Returns-require _ _ _ λ _. Returns-bind _ _ λ attempts _.
    Returns-bind _ _ λ members _.
      Returns-ok _ (Write-Trace (write_lease l item refl (record { log = refl; last = refl })))

lease_items-Trace :
    (l : Lease) (n : ℕ) (items : List ClaimedWork) (s : Store)
    → Returns (Trace s) (lease_items l n items s)
unfolding lease_items
lease_items-Trace l n [] s = Returns-ok s (done)
lease_items-Trace l n (i ∷ is) s = Returns-bind (lease_item l n i s) _ λ s' e. record {
  at = λ t q.
      Trace-append ((lease_item-Trace l n i s).at s' e)
        ((lease_items-Trace l (n + 1) is s').at t q);
}

lease_rows-Trace :
    (c : Codec) (ids : ℕ → String) (l : Lease) (t : Settings) (ws : List Work) (s : Store)
    → Returns (TraceFirst {A = ClaimedBatch} s) (lease_rows c ids l t ws s)
unfolding lease_rows
lease_rows-Trace c ids l t ws s = Returns-bind _ _ λ items e. Returns-bind _ _ λ batches _.
    let s0 : Store = record s { batches = batches } in
    Returns-bind (lease_items l 0 items s0) _ λ s' q. Returns-ok _ (
      Trace-append (Write-Trace (write_elsewhere refl (record { log = refl; last = refl })))
        ((lease_items-Trace l 0 items s0).at s' q))

claim_runtime-Trace :
    (c : Codec) (now : ℕ) (ids : ℕ → String) (a : ClaimArgs) (t : Settings)
    (scope : Option (List String)) (key : String) (s : Store)
    → Returns (TraceFirst {A = Option ClaimedBatch} s) (claim_runtime c now ids a t scope key s)
unfolding claim_runtime
claim_runtime-Trace c now ids a t scope key s =
    Returns-if (ltb (length (queue_rows scope now key a.max_items s.work)) a.minimum_items) _ _
      (λ _. Returns-ok _ (done))
      λ _. Returns-bind _ _ λ admitted _. Returns-bind _ _ λ batch_id _.
        Returns-bind _ _
          λ claimed e. Returns-ok _ ((lease_rows-Trace c ids _ t admitted s).at claimed e)

claim_transaction-Trace :
    (c : Codec) (now : ℕ) (ids : ℕ → String) (a : ClaimArgs) (t : Settings)
    (scope : Option (List String)) (s : Store)
    → Returns (TraceFirst {A = Option ClaimedBatch} s) (claim_transaction c now ids a t scope s)
unfolding claim_transaction
claim_transaction-Trace c now ids a t scope s =
    Returns-if (active_limit_reached a.maximum_active_batches s.batches || empty_scope scope) _ _
      (λ _. Returns-ok _ (done))
      λ _. Returns-bind _ _ λ u _.
        Returns-option (choose_runtime a.minimum_items (select (eligible scope now) s.work)) _ _
          (λ _. Returns-ok _ (done)) (λ key _. claim_runtime-Trace c now ids a t scope key s)

pub claim-Trace :
    (c : Codec) (now : ℕ) (ids : ℕ → String) (a : ClaimArgs) (s : Store)
    → Returns (TraceFirst {A = Option ClaimedBatch} s) (claim c now ids a s)
unfolding claim
claim-Trace c now ids a s =
    Returns-bind _ _ λ p _. let (t, scope) = p in claim_transaction-Trace c now ids a t scope s

extend_items-Trace :
    (expires now : ℕ) (items : List ClaimedWork) (s : Store)
    → Returns (Trace s) (extend_items expires now items s)
unfolding extend_items
extend_items-Trace expires now [] s = Returns-ok s (done)
extend_items-Trace expires now (i ∷ is) s = Returns-require _ _ _ λ _.
    let own = owns i.work_id i.attempt_id i.fence in
    let s' : Store = record s { work = update own (extended expires now) s.work } in
    record {
      at = λ t q.
          Trace-append
            (Write-Trace {s = s} {t = s'} (
              write_extend i.work_id i.attempt_id i.fence expires now refl
                (record { log = refl; last = refl })))
            ((extend_items-Trace expires now is s').at t q);
    }

heartbeat_batch-Trace :
    (extension now : ℕ) (e : ProcessEnvelope) (b : Batch) (s : Store)
    → Returns (Trace s) (heartbeat_batch extension now e b s)
unfolding heartbeat_batch
heartbeat_batch-Trace extension now e b s = Returns-require _ _ _ λ _. Returns-bind _ _ λ u _.
    record {
      at = λ t q.
          Trace-append (Write-Trace (write_elsewhere refl (record { log = refl; last = refl })))
            ((extend_items-Trace _ now e.items _).at t q);
    }

pub heartbeat_process-Trace :
    (extension now : ℕ) (e : ProcessEnvelope) (s : Store)
    → Returns (Trace s) (heartbeat_process extension now e s)
unfolding heartbeat_process
heartbeat_process-Trace extension now e s = Returns-bind _ _ λ u _.
    Returns-option (find (has_batch_id e.batch_id) s.batches) _ _ (λ _. Returns-err _)
      (λ b _. heartbeat_batch-Trace extension now e b s)

seal_items-Trace :
    (k : String) (os : List Output) (now : ℕ) (s : Store)
    → Returns (Trace s) (seal_items k os now s)
unfolding seal_items seal_item
seal_items-Trace k [] now s = Returns-ok s (done)
seal_items-Trace k (o ∷ os) now s = Returns-bind (seal_item k o now s) _ λ s' e. record {
  at = λ t q. Trace-append (one.at s' e) ((seal_items-Trace k os now s').at t q);
}
  where
    one : Returns (Trace s) (seal_item k o now s)
    one = Returns-require _ _ _ λ _. Returns-bind _ _ λ outputs _.
        Returns-ok _ (Write-Trace (write_elsewhere refl (record { log = refl; last = refl })))

seal_found-Trace :
    (k : String) (os : List Output) (d m : String) (now : ℕ) (b : Batch) (s : Store)
    → Returns (Trace s) (seal_found k os d m now b s)
unfolding seal_found
seal_found-Trace k os d m now b s =
    Returns-if (batch_sealed b.status) _ _ (λ _. Returns-bind _ _ λ u _. Returns-ok s (done))
      λ _. Returns-bind _ _ λ u _. Returns-bind _ _ λ normalized _. Returns-require _ _ _ λ _.
        Returns-bind _ _ λ s' e. Returns-ok _ (
          Trace-append ((seal_items-Trace k normalized now s).at s' e)
            (Write-Trace (write_elsewhere refl (record { log = refl; last = refl }))))

pub seal_batch-Trace :
    (k : String) (os : List Output) (d m : String) (now : ℕ) (s : Store)
    → Returns (Trace s) (seal_batch k os d m now s)
unfolding seal_batch
seal_batch-Trace k os d m now s = Returns-bind _ _ λ u _. Returns-bind _ _ λ v _.
    Returns-bind _ _ λ w _.
      Returns-option (find (has_batch_id k) s.batches) _ _ (λ _. Returns-err _)
        (λ b _. seal_found-Trace k os d m now b s)
