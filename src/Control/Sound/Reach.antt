-- ===== src/Control/Sound/Reach.antt =====
-- Every store that the operations reach from an empty database satisfies the invariant.
use people_counter.Prelude.{}
use people_counter.Control.Tables.{Codec, Store, empty}
use people_counter.Control.Steps.{
  Step, register_step, register_many_step, claim_step, heartbeat_step, seal_step, commit_step,
  recover_step, replay_step, quarantine_step, Reach, here, next,
}
use people_counter.Control.Sound.{IsSound}
use people_counter.Control.Sound.Operations.{
  register-IsSound, register_many-IsSound, claim-IsSound, heartbeat_process-IsSound,
  seal_batch-IsSound,
}
use people_counter.Control.Sound.Outcomes.{commit_batch-IsSound, recover-IsSound}
use people_counter.Control.Sound.Requeue.{replay-IsSound, quarantine-IsSound}

Step-IsSound : {c : Codec} {s t : Store} → Step c s t → IsSound s → IsSound t
Step-IsSound {c} {s} {t} (register_step now r a e) h = (register-IsSound c now r s h).at _ e
Step-IsSound {c} {s} {t} (register_many_step now rs a e) h =
    (register_many-IsSound c now rs s h).at _ e
Step-IsSound {c} {s} {t} (claim_step now ids args b e) h = (claim-IsSound c now ids args s h).at _ e
Step-IsSound {c} {s} {t} (heartbeat_step n now v e) h =
    (heartbeat_process-IsSound n now v s h).at _ e
Step-IsSound {c} {s} {t} (seal_step k os d m now e) h = (seal_batch-IsSound k os d m now s h).at _ e
Step-IsSound {c} {s} {t} (commit_step k now ns e) h = (commit_batch-IsSound k now s h).at _ e
Step-IsSound {c} {s} {t} (recover_step now r e) h = (recover-IsSound now s h).at _ e
Step-IsSound {c} {s} {t} (replay_step k o r n now a e) h = (replay-IsSound c k o r n now s h).at _ e
Step-IsSound {c} {s} {t} (quarantine_step es o r now e) h =
    (quarantine-IsSound c es o r now s h).at _ e

-- In every store that a sequence of returning calls reaches from the empty database, in any order and
-- with any arguments, work ids are unique, and each work has used at most its attempts, has an attempt
-- left while it is ready, has a fence equal to its attempts, holds lease columns exactly while it is
-- leased, and has a committed attempt and a publication sequence exactly if it succeeded.
pub Reach-IsSound : (c : Codec) (s : Store) → Reach c empty s → IsSound s
Reach-IsSound c s here = record { rows = tt; unique = tt }
Reach-IsSound c s (next {t = t} r st) = Step-IsSound st (Reach-IsSound c t r)
