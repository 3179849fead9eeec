-- ===== src/Control/Steps.antt =====
-- Sequences of calls of the control store's methods.

use people_counter.Prelude.{ℕ, ◌≡◌, String, Option, List, ok}
use people_counter.Control.Tables.{
  Codec, Store, RegisteredWork, ClaimedBatch, RecoveryReport, ReplayRequest,
}
use people_counter.Control.Register.{Request, register, register_many}
use people_counter.Control.Claim.{ClaimArgs}
use people_counter.Control.Lease.{claim}
use people_counter.Control.Process.{ProcessEnvelope, heartbeat_process}
use people_counter.Control.Seal.{Output, seal_batch}
use people_counter.Control.Commit.{commit_batch, recover}
use people_counter.Control.Replay.{Expected, replay, quarantine}

-- One call that returns; a call that raises leaves the database as it was.
pub data Step (c : Codec) (s t : Store) : Type 0 where
  register_step :
      (now : ℕ) (r : Request) (a : RegisteredWork) → register c now r s ≡ ok (t, a) → Step c s t
  register_many_step :
      (now : ℕ) (rs : List Request) (a : List RegisteredWork)
      → register_many c now rs s ≡ ok (t, a)
      → Step c s t
  claim_step :
      (now : ℕ) (ids : ℕ → String) (args : ClaimArgs) (b : Option ClaimedBatch)
      → claim c now ids args s ≡ ok (t, b)
      → Step c s t
  heartbeat_step :
      (extension now : ℕ) (e : ProcessEnvelope)
      → heartbeat_process extension now e s ≡ ok t
      → Step c s t
  seal_step :
      (k : String) (os : List Output) (d m : String) (now : ℕ)
      → seal_batch k os d m now s ≡ ok t
      → Step c s t
  commit_step :
      (k : String) (now : ℕ) (ns : List ℕ) → commit_batch k now s ≡ ok (t, ns) → Step c s t
  recover_step : (now : ℕ) (r : RecoveryReport) → recover now s ≡ ok (t, r) → Step c s t
  replay_step :
      (k operator reason : String) (extra now : ℕ) (r : ReplayRequest)
      → replay c k operator reason extra now s ≡ ok (t, r)
      → Step c s t
  quarantine_step :
      (es : List Expected) (operator reason : String) (now : ℕ)
      → quarantine c es operator reason now s ≡ ok t
      → Step c s t

pub data Reach (c : Codec) (s : Store) : Store → Type 0 where
  here : Reach c s s
  next : {t u : Store} → Reach c s t → Step c t u → Reach c s u
