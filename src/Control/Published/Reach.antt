-- ===== src/Control/Published/Reach.antt =====
-- Publication over every sequence of calls.
use people_counter.Prelude.{ℕ, ◌≡◌, refl, true, false, ◌&&◌, arith}
use people_counter.Prelude.Membership.{In}
use people_counter.Control.Tables.{Work, is_succeeded, is_dead, Publication, Codec, Store, empty}
use people_counter.Control.Steps.{Reach}
use people_counter.Control.Register.{new_work, has_id}
use people_counter.Control.Lease.{leased_work, claims_row}
use people_counter.Control.Process.{owns, extended}
use people_counter.Control.Commit.{outcome, released}
use people_counter.Control.Replay.{replayed, quarantined, quarantines}
use people_counter.Control.Trace.{
  Write, write_elsewhere, write_insert, write_lease, write_extend, write_release, write_publish,
  write_replay, write_quarantine, Trace, done, and_then,
}
use people_counter.Control.Trace.Reach.{Reach-Trace}
use people_counter.Control.Published.{IsPublished, Grows}
use people_counter.Control.Published.Writes.{
  Grows-trans, Grows-same, Grows-insert, Grows-update, Grows-publish,
}

outcome-not_succeeded : (n m : ℕ) → is_succeeded (outcome n m) ≡ false
unfolding outcome
outcome-not_succeeded n m = ground arith

Write-Grows : (s t : Store) → Write s t → Grows s t
unfolding new_work leased_work extended released replayed quarantined
Write-Grows s t (write_elsewhere e k) = Grows-same s t e k.log k.last
Write-Grows s t (write_insert c now r e k) = Grows-insert _ s t e k.log k.last refl
Write-Grows s t (write_lease l item e k) =
    Grows-update (claims_row item) _ s t e k.log k.last (λ w q. (ground arith, refl))
Write-Grows s t (write_extend j a f expires now e k) =
    Grows-update (owns j a f) _ s t e k.log k.last (λ w q. (ground arith, ground arith))
Write-Grows s t (write_release j a f n m now reason e k) =
    Grows-update (owns j a f) _ s t e k.log k.last
      (λ w q. (ground arith, outcome-not_succeeded n m))
Write-Grows s t (write_publish j a f n now p e one i) =
    Grows-publish j a f n now p s t e i.log i.last one i.sequence i.next i.work_id i.attempt_id
Write-Grows s t (write_replay j extra g now id e k) =
    Grows-update (λ v. has_id j v && is_dead v.status) _ s t e k.log k.last
      (λ w q. (ground arith, refl))
Write-Grows s t (write_quarantine marker now x e k) =
    Grows-update (quarantines x) _ s t e k.log k.last (λ w q. (ground arith, refl))

Trace-Grows : (s t : Store) → Trace s t → Grows s t
Trace-Grows s t done = Grows-same s s refl refl refl
Trace-Grows s t (and_then {t = u} h w) = Grows-trans s u t (Trace-Grows s u h) (Write-Grows u t w)

-- In every store that a sequence of returning calls reaches from the empty database, each publication
-- belongs to a succeeded work row that carries its attempt and its sequence, each succeeded work row has
-- such a publication, and the publication sequences are 1, 2, 3 and so on, up to the last one given.
pub Reach-IsPublished : (c : Codec) (s : Store) → Reach c empty s → IsPublished s
Reach-IsPublished c s r =
    (Trace-Grows empty s (Reach-Trace r)).published
      (record { rows = λ p m. absurd m; publications = λ w m. absurd m; numbered = refl })

-- From any store, whatever calls return afterwards: a work row that has succeeded stays in the table
-- with every column as it is, and a publication stays in the log as it is.
pub Reach-keeps_published :
    (c : Codec) (s t : Store)
    → Reach c s t
    → ((w : Work) → is_succeeded w.status ≡ true → In w s.work → In w t.work)
      × ((p : Publication) → In p s.publications → In p t.publications)
Reach-keeps_published c s t r = let g = Trace-Grows s t (Reach-Trace r) in (g.work, g.log)
