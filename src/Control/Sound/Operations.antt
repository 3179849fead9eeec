-- ===== src/Control/Sound/Operations.antt =====
-- Each operation that registers, claims, extends or seals keeps the invariant.
use people_counter.Prelude.{
  ℕ, ◌+◌, ◌<◌, ◌≡◌, refl, String, ◌||◌, Option, none, some, List, [], ◌∷◌, arith, All, ◌==◌, ltb,
  length, ok, Returns, Returns-ok, Returns-err, Returns-require, Returns-if, Returns-bind,
  Returns-option, ◌>>=◌, require,
}
use people_counter.Prelude.Rows.{find, select}
use people_counter.Control.Tables.{
  Work, ClaimedBatch, RegisteredWork, Codec, Store, Batch, batch_sealed,
}
use people_counter.Control.Texts.{required_text, positive}
use people_counter.Control.Admission.{Settings}
use people_counter.Control.Sound.{IsSound}
use people_counter.Control.Sound.Writes.{
  same-IsSound, insert-IsSound, lease_items-IsSound, extend_items-IsSound,
}
use people_counter.Control.Register.{
  Request, check_request, has_id, register_row, same_content, same_request, check_requests,
  register, register_all, register_many,
}
use people_counter.Control.Claim.{
  ClaimArgs, claim_items, eligible, queue_rows, choose_runtime, active_limit_reached, empty_scope,
}
use people_counter.Control.Lease.{Lease, lease_rows, claim, claim_transaction, claim_runtime}
use people_counter.Control.Process.{
  ProcessEnvelope, has_batch_id, heartbeat_batch, heartbeat_process,
}
use people_counter.Control.Seal.{Output, seal_item, seal_items, seal_found, seal_batch}

check_request-pos : (r : Request) → check_request r ≡ ok tt → 0 < r.max_attempts
unfolding check_request required_text positive ◌>>=◌ require
check_request-pos r h = ground arith

-- The invariant of the store that an operation returns beside its value.
abbrev pub Sound {ℓ} : {A : Type ℓ} → Store × A → Type 0
Sound p = IsSound p.0

register_row-IsSound :
    (c : Codec) (now : ℕ) (r : Request) (s : Store) (o : Option Work)
    → find (has_id r.work_id) s.work ≡ o
    → 0 < r.max_attempts
    → IsSound s
    → Returns (Sound {A = RegisteredWork}) (register_row c now r o s)
unfolding register_row
register_row-IsSound c now r s none e p h = Returns-ok _ (insert-IsSound c now r s _ refl p e h)
register_row-IsSound c now r s (some w) e p h =
    Returns-if (same_content c r w) _ _ (λ _. Returns-ok _ h) (λ _. Returns-err _)

pub register-IsSound :
    (c : Codec) (now : ℕ) (r : Request) (s : Store)
    → IsSound s
    → Returns (Sound {A = RegisteredWork}) (register c now r s)
unfolding register
register-IsSound c now r s h =
    Returns-bind _ _ λ u e. register_row-IsSound c now r s _ refl (check_request-pos r e) h

claim_items-pos :
    (ids : ℕ → String) (n : ℕ) (ws : List Work)
    → Returns (All (λ i. 0 < i.fence)) (claim_items ids n ws)
unfolding claim_items
claim_items-pos ids n [] = Returns-ok _ tt
claim_items-pos ids n (w ∷ ws) = Returns-bind _ _ λ a _.
    Returns-bind (claim_items ids (n + 1) ws) _
      λ rest e. Returns-ok _ (omega arith, (claim_items-pos ids (n + 1) ws).at rest e)

lease_rows-IsSound :
    (c : Codec) (ids : ℕ → String) (l : Lease) (t : Settings) (ws : List Work) (s : Store)
    → IsSound s
    → Returns (Sound {A = ClaimedBatch}) (lease_rows c ids l t ws s)
unfolding lease_rows
lease_rows-IsSound c ids l t ws s h = Returns-bind _ _ λ items e. Returns-bind _ _ λ batches _.
    Returns-bind _ _ λ s' q. Returns-ok _ (
      (lease_items-IsSound l 0 items (record s { batches = batches })
          ((claim_items-pos ids 1 ws).at items e) (same-IsSound s _ refl h)).at
        s' q)

claim_runtime-IsSound :
    (c : Codec) (now : ℕ) (ids : ℕ → String) (a : ClaimArgs) (t : Settings)
    (scope : Option (List String)) (key : String) (s : Store)
    → IsSound s
    → Returns (Sound {A = Option ClaimedBatch}) (claim_runtime c now ids a t scope key s)
unfolding claim_runtime
claim_runtime-IsSound c now ids a t scope key s h =
    Returns-if (ltb (length (queue_rows scope now key a.max_items s.work)) a.minimum_items) _ _
      (λ _. Returns-ok _ h)
      λ _. Returns-bind _ _ λ admitted _. Returns-bind _ _ λ batch_id _.
        Returns-bind _ _
          λ claimed e. Returns-ok _ ((lease_rows-IsSound c ids _ t admitted s h).at claimed e)

claim_transaction-IsSound :
    (c : Codec) (now : ℕ) (ids : ℕ → String) (a : ClaimArgs) (t : Settings)
    (scope : Option (List String)) (s : Store)
    → IsSound s
    → Returns (Sound {A = Option ClaimedBatch}) (claim_transaction c now ids a t scope s)
unfolding claim_transaction
claim_transaction-IsSound c now ids a t scope s h =
    Returns-if (active_limit_reached a.maximum_active_batches s.batches || empty_scope scope) _ _
      (λ _. Returns-ok _ h)
      λ _. Returns-bind _ _ λ u _.
        Returns-option (choose_runtime a.minimum_items (select (eligible scope now) s.work)) _ _
          (λ _. Returns-ok _ h) (λ key _. claim_runtime-IsSound c now ids a t scope key s h)

pub claim-IsSound :
    (c : Codec) (now : ℕ) (ids : ℕ → String) (a : ClaimArgs) (s : Store)
    → IsSound s
    → Returns (Sound {A = Option ClaimedBatch}) (claim c now ids a s)
unfolding claim
claim-IsSound c now ids a s h =
    Returns-bind _ _ λ p _. let (t, scope) = p in claim_transaction-IsSound c now ids a t scope s h

heartbeat_batch-IsSound :
    (extension now : ℕ) (e : ProcessEnvelope) (b : Batch) (s : Store)
    → IsSound s
    → Returns IsSound (heartbeat_batch extension now e b s)
unfolding heartbeat_batch
heartbeat_batch-IsSound extension now e b s h =
    Returns-require _ _ _
      λ _. Returns-bind _ _ λ u _. extend_items-IsSound _ now e.items _ (same-IsSound s _ refl h)

pub heartbeat_process-IsSound :
    (extension now : ℕ) (e : ProcessEnvelope) (s : Store)
    → IsSound s
    → Returns IsSound (heartbeat_process extension now e s)
unfolding heartbeat_process
heartbeat_process-IsSound extension now e s h = Returns-bind _ _ λ u _.
    Returns-option (find (has_batch_id e.batch_id) s.batches) _ _ (λ _. Returns-err _)
      (λ b _. heartbeat_batch-IsSound extension now e b s h)

seal_items-IsSound :
    (k : String) (os : List Output) (now : ℕ) (s : Store)
    → IsSound s
    → Returns IsSound (seal_items k os now s)
unfolding seal_items seal_item
seal_items-IsSound k [] now s h = Returns-ok s h
seal_items-IsSound k (o ∷ os) now s h =
    Returns-bind (seal_item k o now s) _ λ s' e. seal_items-IsSound k os now s' (one.at s' e)
  where
    one : Returns IsSound (seal_item k o now s)
    one =
        Returns-require _ _ _
          λ _. Returns-bind _ _ λ outputs _. Returns-ok _ (same-IsSound s _ refl h)

seal_found-IsSound :
    (k : String) (os : List Output) (d m : String) (now : ℕ) (b : Batch) (s : Store)
    → IsSound s
    → Returns IsSound (seal_found k os d m now b s)
unfolding seal_found
seal_found-IsSound k os d m now b s h =
    Returns-if (batch_sealed b.status) _ _ (λ _. Returns-bind _ _ λ u _. Returns-ok s h)
      λ _. Returns-bind _ _ λ u _. Returns-bind _ _ λ normalized _. Returns-require _ _ _ λ _.
        Returns-bind _ _ λ s' e.
          Returns-ok _ (same-IsSound s' _ refl ((seal_items-IsSound k normalized now s h).at s' e))

pub seal_batch-IsSound :
    (k : String) (os : List Output) (d m : String) (now : ℕ) (s : Store)
    → IsSound s
    → Returns IsSound (seal_batch k os d m now s)
unfolding seal_batch
seal_batch-IsSound k os d m now s h = Returns-bind _ _ λ u _. Returns-bind _ _ λ v _.
    Returns-bind _ _ λ w _.
      Returns-option (find (has_batch_id k) s.batches) _ _ (λ _. Returns-err _)
        (λ b _. seal_found-IsSound k os d m now b s h)

register_all-IsSound :
    (c : Codec) (now : ℕ) (seen rs : List Request) (s : Store)
    → All (λ r. 0 < r.max_attempts) rs
    → IsSound s
    → Returns (Sound {A = List RegisteredWork}) (register_all c now seen rs s)
unfolding register_all
register_all-IsSound c now seen [] s p h = Returns-ok _ h
register_all-IsSound c now seen (r ∷ rs) s p h =
    Returns-option (find (λ q. q.work_id == r.work_id) seen) _ _
      (λ _. Returns-bind (register_row c now r (find (has_id r.work_id) s.work) s) _ λ one e.
        Returns-bind (register_all c now (r ∷ seen) rs one.0) _ λ rest q. Returns-ok _ (
          (register_all-IsSound c now (r ∷ seen) rs one.0 p.1
              ((register_row-IsSound c now r s _ refl p.0 h).at one e)).at
            rest q))
      (λ q _.
        Returns-if (same_request c r q) _ _ (λ _. register_all-IsSound c now seen rs s p.1 h)
          (λ _. Returns-err _))

check_requests-pos :
    (rs : List Request)
    → Returns (λ (u : Unit {0}). All (λ r. 0 < r.max_attempts) rs) (check_requests rs)
unfolding check_requests
check_requests-pos [] = Returns-ok _ tt
check_requests-pos (r ∷ rs) =
    Returns-bind (check_request r) _
      λ u e. record { at = λ v q. (check_request-pos r e, (check_requests-pos rs).at v q) }

pub register_many-IsSound :
    (c : Codec) (now : ℕ) (rs : List Request) (s : Store)
    → IsSound s
    → Returns (Sound {A = List RegisteredWork}) (register_many c now rs s)
unfolding register_many
register_many-IsSound c now [] s h = Returns-err _
register_many-IsSound c now (r ∷ rs) s h =
    Returns-bind (check_requests (r ∷ rs)) _
      λ u e. register_all-IsSound c now [] (r ∷ rs) s ((check_requests-pos (r ∷ rs)).at u e) h
