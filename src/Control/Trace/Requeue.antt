-- ===== src/Control/Trace/Requeue.antt =====
-- `replay` and `quarantine` as traces of writes.
use people_counter.Prelude.{
  ℕ, refl, String, ◌&&◌, List, [], ◌∷◌, opt_is, Returns, Returns-ok, Returns-err, Returns-require,
  Returns-if, Returns-bind, Returns-option,
}
use people_counter.Prelude.Rows.{find}
use people_counter.Control.Tables.{Work, is_dead, Store, Codec, ReplayRequest}
use people_counter.Control.Register.{has_id}
use people_counter.Control.Replay.{
  replay_dead, replay_found, replay, matching_last_replay, Expected, quarantine_row,
  quarantine_rows, quarantine,
}
use people_counter.Control.Trace.{
  write_replay, write_quarantine, Trace, done, Write-Trace, Trace-append,
}
use people_counter.Control.Trace.Operations.{TraceFirst}

replay_dead-Trace :
    (c : Codec) (operator reason : String) (extra now : ℕ) (w : Work) (s : Store)
    → Returns (TraceFirst {A = ReplayRequest} s) (replay_dead c operator reason extra now w s)
unfolding replay_dead
replay_dead-Trace c operator reason extra now w s = Returns-require _ _ _ λ _.
    Returns-require _ _ _ λ _.
      Returns-ok _ (
        Write-Trace
          (write_replay w.work_id extra _ now _ refl (record { log = refl; last = refl })))

replay_found-Trace :
    (c : Codec) (operator reason : String) (extra now : ℕ) (w : Work) (s : Store)
    → Returns (TraceFirst {A = ReplayRequest} s) (replay_found c operator reason extra now w s)
unfolding replay_found
replay_found-Trace c operator reason extra now w s =
    Returns-if (is_dead w.status) _ _ (λ _. replay_dead-Trace c operator reason extra now w s)
      λ _.
        Returns-option (matching_last_replay w operator reason extra s) _ _ (λ _. Returns-err _)
          (λ previous _. Returns-ok _ (done))

pub replay-Trace :
    (c : Codec) (k operator reason : String) (extra now : ℕ) (s : Store)
    → Returns (TraceFirst {A = ReplayRequest} s) (replay c k operator reason extra now s)
unfolding replay
replay-Trace c k operator reason extra now s = Returns-bind _ _ λ u _. Returns-bind _ _ λ v _.
    Returns-bind _ _ λ x _. Returns-require _ _ _ λ e.
      Returns-option (find (has_id k) s.work) _ _ (λ _. Returns-err _)
        (λ w _. replay_found-Trace c operator reason extra now w s)

quarantine_row-Trace :
    (marker : String) (now : ℕ) (e : Expected) (w : Work) (s : Store)
    → Returns (Trace s) (quarantine_row marker now e w s)
unfolding quarantine_row
quarantine_row-Trace marker now e w s = Returns-require _ _ _ λ _.
    Returns-if (is_dead w.status && opt_is w.last_error marker) _ _ (λ _. Returns-ok s (done))
      λ _. Returns-require _ _ _ λ _.
        Returns-ok _
          (Write-Trace (write_quarantine marker now e refl (record { log = refl; last = refl })))

quarantine_rows-Trace :
    (c : Codec) (operator reason : String) (now : ℕ) (rows : List Work) (es : List Expected)
    (s : Store)
    → Returns (Trace s) (quarantine_rows c operator reason now rows es s)
unfolding quarantine_rows
quarantine_rows-Trace c operator reason now rows [] s = Returns-ok s (done)
quarantine_rows-Trace c operator reason now rows (e ∷ es) s =
    Returns-option (find (has_id e.work_id) rows) _ _ (λ _. Returns-err _)
      λ w _.
        Returns-bind (quarantine_row (c.marker_json operator reason e.digest) now e w s) _ λ s' q.
          record {
            at = λ t r.
                Trace-append
                  ((quarantine_row-Trace (c.marker_json operator reason e.digest) now e w s).at s'
                    q)
                  ((quarantine_rows-Trace c operator reason now rows es s').at t r);
          }

pub quarantine-Trace :
    (c : Codec) (es : List Expected) (operator reason : String) (now : ℕ) (s : Store)
    → Returns (Trace s) (quarantine c es operator reason now s)
unfolding quarantine
quarantine-Trace c [] operator reason now s = Returns-err _
quarantine-Trace c (e ∷ es) operator reason now s = Returns-bind _ _ λ u _. Returns-bind _ _ λ v _.
    Returns-bind _ _ λ w _. Returns-require _ _ _ λ _. Returns-bind _ _ λ s' q.
      Returns-require _ _ _
        λ _. Returns-ok s' ((quarantine_rows-Trace c operator reason now s.work (e ∷ es) s).at s' q)
