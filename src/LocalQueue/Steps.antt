-- ===== src/LocalQueue/Steps.antt =====
-- Sequences of calls of the local queue's methods, and what they keep.
use people_counter.Prelude.{ℕ, ◌≡◌, String, true, Option, List, [], ok}
use people_counter.Prelude.Membership.{In}
use people_counter.LocalQueue.{Message, ClaimedMessage, recover_expired, enqueue}
use people_counter.LocalQueue.Lock.{claim, renew, renew_many}
use people_counter.LocalQueue.Finish.{Outcome, finalize}
use people_counter.LocalQueue.Sound.{IsSound, is_terminal, Kept}
use people_counter.LocalQueue.Sound.Operations.{
  Kept-refl, Kept-trans, recover_expired-Kept, renew-Kept, renew_many-Kept, finalize-Kept,
}
use people_counter.LocalQueue.Sound.Deliveries.{enqueue-Kept, claim-Kept}

-- One call that returns; a call that raises leaves the queue as it was.
pub data Step (sha256 : String → String) (q r : List Message) : Type 0 where
  enqueue_step :
      (id key payload : String) (limit : ℕ) (at : Option ℕ) (now : ℕ) (a : String)
      → enqueue sha256 id key payload limit at now q ≡ ok (r, a)
      → Step sha256 q r
  claim_step :
      (tokens : ℕ → String) (limit : ℕ) (owner : String) (lock_seconds minimum now : ℕ)
      (cs : List ClaimedMessage)
      → claim tokens limit owner lock_seconds minimum now q ≡ ok (r, cs)
      → Step sha256 q r
  renew_step :
      (token : String) (lock_seconds now until : ℕ)
      → renew token lock_seconds now q ≡ ok (r, until)
      → Step sha256 q r
  renew_many_step :
      (ts : List String) (lock_seconds now until : ℕ)
      → renew_many ts lock_seconds now q ≡ ok (r, until)
      → Step sha256 q r
  finalize_step :
      (os : List Outcome) (delay now : ℕ) → finalize os delay now q ≡ ok r → Step sha256 q r
  recover_step : (now : ℕ) → r ≡ (recover_expired now q).0 → Step sha256 q r

pub data Reach (sha256 : String → String) (q : List Message) : List Message → Type 0 where
  here : Reach sha256 q q
  next : {r s : List Message} → Reach sha256 q r → Step sha256 r s → Reach sha256 q s

Step-Kept : {h : String → String} {q r : List Message} → Step h q r → IsSound q → Kept q r
Step-Kept {h} {q} (enqueue_step id key payload limit at now a e) s =
    (enqueue-Kept h id key payload limit at now q s).at _ e
Step-Kept {h} {q} (claim_step tokens limit owner lock minimum now cs e) s =
    (claim-Kept tokens limit owner lock minimum now q s).at _ e
Step-Kept {h} {q} (renew_step t lock now until e) s = (renew-Kept t lock now q s).at _ e
Step-Kept {h} {q} (renew_many_step ts lock now until e) s = (renew_many-Kept ts lock now q s).at _ e
Step-Kept {h} {q} (finalize_step os delay now e) s = (finalize-Kept os delay now q s).at _ e
Step-Kept {h} {q} (recover_step now e) s = rw e (recover_expired-Kept now q s)

Reach-Kept : (h : String → String) (q r : List Message) → Reach h q r → IsSound q → Kept q r
Reach-Kept h q r here s = Kept-refl q s
Reach-Kept h q r (next {r = u} k st) s =
    let i = Reach-Kept h q u k s in Kept-trans q u r i (Step-Kept st i.sound)

-- In every local queue that a sequence of returning calls reaches from the empty one, in any order and
-- with any arguments, message ids, idempotency keys and lock tokens are unique, each message has been
-- delivered at most as often as its limit allows, and less often while it is ready, and it has a token,
-- an owner and an end of the lock exactly while it is locked.
pub Reach-IsSoundQueue : (h : String → String) (q : List Message) → Reach h [] q → IsSound q
Reach-IsSoundQueue h q k =
    (Reach-Kept h [] q k
      (record { rows = tt; ids = tt; keys = tt; tokens = λ x y t m. absurd m })).sound

-- From any queue that satisfies the invariant, whatever calls return afterwards: a message that is
-- completed or dead stays in the queue with every column as it is.
pub Reach-keeps_terminal :
    (h : String → String) (q r : List Message) (m : Message)
    → IsSound q
    → Reach h q r
    → is_terminal m ≡ true
    → In m q
    → In m r
Reach-keeps_terminal h q r m s k e = (Reach-Kept h q r k s).terminal m e
