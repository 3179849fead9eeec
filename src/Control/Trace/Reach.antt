-- ===== src/Control/Trace/Reach.antt =====
-- Every sequence of calls is a trace of writes.
use people_counter.Control.Tables.{Codec, Store}
use people_counter.Control.Steps.{
  Step, register_step, register_many_step, claim_step, heartbeat_step, seal_step, commit_step,
  recover_step, replay_step, quarantine_step, Reach, here, next,
}
use people_counter.Control.Trace.{Trace, done, Trace-append}
use people_counter.Control.Trace.Operations.{
  register-Trace, register_many-Trace, claim-Trace, heartbeat_process-Trace, seal_batch-Trace,
}
use people_counter.Control.Trace.Commits.{commit_batch-Trace, recover-Trace}
use people_counter.Control.Trace.Requeue.{replay-Trace, quarantine-Trace}

Step-Trace : {c : Codec} {s t : Store} → Step c s t → Trace s t
Step-Trace {c} {s} (register_step now r a e) = (register-Trace c now r s).at _ e
Step-Trace {c} {s} (register_many_step now rs a e) = (register_many-Trace c now rs s).at _ e
Step-Trace {c} {s} (claim_step now ids args b e) = (claim-Trace c now ids args s).at _ e
Step-Trace {c} {s} (heartbeat_step n now v e) = (heartbeat_process-Trace n now v s).at _ e
Step-Trace {c} {s} (seal_step k os d m now e) = (seal_batch-Trace k os d m now s).at _ e
Step-Trace {c} {s} (commit_step k now ns e) = (commit_batch-Trace k now s).at _ e
Step-Trace {c} {s} (recover_step now r e) = (recover-Trace now s).at _ e
Step-Trace {c} {s} (replay_step k o r n now a e) = (replay-Trace c k o r n now s).at _ e
Step-Trace {c} {s} (quarantine_step es o r now e) = (quarantine-Trace c es o r now s).at _ e

pub Reach-Trace : {c : Codec} {s t : Store} → Reach c s t → Trace s t
Reach-Trace here = done
Reach-Trace (next r st) = Trace-append (Reach-Trace r) (Step-Trace st)
