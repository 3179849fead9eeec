-- ===== src/Control/Sound/Requeue.antt =====
-- `replay` and `quarantine` keep the invariant.
use people_counter.Prelude.{
  ℕ, ◌<◌, refl, String, ◌&&◌, &&-true, leb→le, List, [], ◌∷◌, opt_is, Returns, Returns-ok,
  Returns-err, Returns-require, Returns-if, Returns-bind, Returns-option,
}
use people_counter.Prelude.Rows.{find}
use people_counter.Control.Tables.{Work, is_dead, Store, Codec, ReplayRequest}
use people_counter.Control.Register.{has_id}
use people_counter.Control.Replay.{
  replayed, replay_dead, replay_found, replay, matching_last_replay, Expected, quarantined,
  quarantines, quarantine_row, quarantine_rows, quarantine,
}
use people_counter.Control.Sound.{IsSound}
use people_counter.Control.Sound.Rows.{replayed-IsSoundRow, quarantined-IsSoundRow}
use people_counter.Control.Sound.Writes.{update-IsSound}
use people_counter.Control.Sound.Operations.{Sound}

replay_dead-IsSound :
    (c : Codec) (operator reason : String) (extra now : ℕ) (w : Work) (s : Store)
    → 0 < extra
    → IsSound s
    → Returns (Sound {A = ReplayRequest}) (replay_dead c operator reason extra now w s)
unfolding replay_dead replayed
replay_dead-IsSound c operator reason extra now w s p h = Returns-require _ _ _ λ _.
    Returns-require _ _ _ λ _. Returns-ok _ (
      update-IsSound (λ v. has_id w.work_id v && is_dead v.status) _ s _ refl (λ v. refl)
        (λ v k e. unfold replayed in replayed-IsSoundRow extra _ now _ v p k (&&-true e).1) h)

replay_found-IsSound :
    (c : Codec) (operator reason : String) (extra now : ℕ) (w : Work) (s : Store)
    → 0 < extra
    → IsSound s
    → Returns (Sound {A = ReplayRequest}) (replay_found c operator reason extra now w s)
unfolding replay_found
replay_found-IsSound c operator reason extra now w s p h =
    Returns-if (is_dead w.status) _ _ (λ _. replay_dead-IsSound c operator reason extra now w s p h)
      λ _.
        Returns-option (matching_last_replay w operator reason extra s) _ _ (λ _. Returns-err _)
          (λ previous _. Returns-ok _ h)

pub replay-IsSound :
    (c : Codec) (k operator reason : String) (extra now : ℕ) (s : Store)
    → IsSound s
    → Returns (Sound {A = ReplayRequest}) (replay c k operator reason extra now s)
unfolding replay
replay-IsSound c k operator reason extra now s h = Returns-bind _ _ λ u _. Returns-bind _ _ λ v _.
    Returns-bind _ _ λ x _. Returns-require _ _ _ λ e.
      Returns-option (find (has_id k) s.work) _ _ (λ _. Returns-err _)
        (λ w _.
          replay_found-IsSound c operator reason extra now w s (leb→le 1 extra (&&-true e).0) h)

quarantine_row-IsSound :
    (marker : String) (now : ℕ) (e : Expected) (w : Work) (s : Store)
    → IsSound s
    → Returns IsSound (quarantine_row marker now e w s)
unfolding quarantine_row quarantined
quarantine_row-IsSound marker now e w s h = Returns-require _ _ _ λ _.
    Returns-if (is_dead w.status && opt_is w.last_error marker) _ _ (λ _. Returns-ok s h)
      λ _. Returns-require _ _ _ λ _. Returns-ok _ (
        update-IsSound (quarantines e) (quarantined marker now) s _ refl (λ v. refl)
          (λ v. quarantined-IsSoundRow marker now e v) h)

quarantine_rows-IsSound :
    (c : Codec) (operator reason : String) (now : ℕ) (rows : List Work) (es : List Expected)
    (s : Store)
    → IsSound s
    → Returns IsSound (quarantine_rows c operator reason now rows es s)
unfolding quarantine_rows
quarantine_rows-IsSound c operator reason now rows [] s h = Returns-ok s h
quarantine_rows-IsSound c operator reason now rows (e ∷ es) s h =
    Returns-option (find (has_id e.work_id) rows) _ _ (λ _. Returns-err _)
      λ w _.
        Returns-bind (quarantine_row (c.marker_json operator reason e.digest) now e w s) _ λ s' q.
          quarantine_rows-IsSound c operator reason now rows es s'
            ((quarantine_row-IsSound (c.marker_json operator reason e.digest) now e w s h).at s' q)

pub quarantine-IsSound :
    (c : Codec) (es : List Expected) (operator reason : String) (now : ℕ) (s : Store)
    → IsSound s
    → Returns IsSound (quarantine c es operator reason now s)
unfolding quarantine
quarantine-IsSound c [] operator reason now s h = Returns-err _
quarantine-IsSound c (e ∷ es) operator reason now s h = Returns-bind _ _ λ u _.
    Returns-bind _ _ λ v _. Returns-bind _ _ λ w _. Returns-require _ _ _ λ _.
      Returns-bind _ _ λ s' q. Returns-require _ _ _ λ _.
        Returns-ok s' ((quarantine_rows-IsSound c operator reason now s.work (e ∷ es) s h).at s' q)
