-- ===== src/Control/Evolution.antt =====
-- What every sequence of calls keeps of a registered work: its content, and the order of its fences.
use people_counter.Prelude.{◌≤◌, ◌≡◌, inl, inr, Bool, true, ◌&&◌, arith, Bool-cases}
use people_counter.Prelude.Rows.{update}
use people_counter.Prelude.Membership.{In, In-update, In-update_at, In-append}
use people_counter.Control.Tables.{Work, is_dead, Codec, Store}
use people_counter.Control.Steps.{Reach}
use people_counter.Control.Register.{has_id}
use people_counter.Control.Lease.{leased_work, claims_row}
use people_counter.Control.Process.{owns, extended}
use people_counter.Control.Commit.{released, published}
use people_counter.Control.Replay.{replayed, quarantined, quarantines}
use people_counter.Control.Trace.{
  Write, write_elsewhere, write_insert, write_lease, write_extend, write_release, write_publish,
  write_replay, write_quarantine, Trace, done, and_then,
}
use people_counter.Control.Trace.Reach.{Reach-Trace}

-- `w` is the row `v` at a later time.
pub record IsLater (v w : Work) : Type 0 where
  pub work_id : w.work_id ≡ v.work_id
  pub payload_json : w.payload_json ≡ v.payload_json
  pub payload_sha256 : w.payload_sha256 ≡ v.payload_sha256
  pub runtime_key : w.runtime_key ≡ v.runtime_key
  pub duration_seconds : w.duration_seconds ≡ v.duration_seconds
  pub config_sha256 : w.config_sha256 ≡ v.config_sha256
  pub release_digest : w.release_digest ≡ v.release_digest
  pub original_max_attempts : w.original_max_attempts ≡ v.original_max_attempts
  pub created_at : w.created_at ≡ v.created_at
  pub fence : v.fence ≤ w.fence
  pub attempt_count : v.attempt_count ≤ w.attempt_count

-- Every row of `s` is still in `t`, at a later time.
abbrev Evolves : Store → Store → Type 0
Evolves s t = (v : Work) → In v s.work → (w : Work) × In w t.work × IsLater v w

IsLater-refl : (v : Work) → IsLater v v
IsLater-refl v = grind arith

IsLater-trans : (u v w : Work) → IsLater u v → IsLater v w → IsLater u w
IsLater-trans u v w h k = grind arith

update-Evolves :
    (p : Work → Bool) (f : Work → Work) (s t : Store)
    → t.work ≡ update p f s.work
    → ((w : Work) → p w ≡ true → IsLater w (f w))
    → Evolves s t
update-Evolves p f s t e h v m = elim (Bool-cases (p v)) [
  | inl q ↦ (f v, rw e (In-update_at p f v s.work q m), h v q)
  | inr q ↦ (v, rw e (In-update p f v s.work q m), IsLater-refl v)
]

Write-Evolves : (s t : Store) → Write s t → Evolves s t
unfolding leased_work extended released published replayed quarantined
Write-Evolves s t (write_elsewhere e k) = λ v m. (v, rw e m, IsLater-refl v)
Write-Evolves s t (write_insert c now r e k) =
    λ v m. (v, rw e (In-append v s.work _ m), IsLater-refl v)
Write-Evolves s t (write_lease l item e k) =
    update-Evolves (claims_row item) _ s t e (λ w q. ground arith)
Write-Evolves s t (write_extend j a f expires now e k) =
    update-Evolves (owns j a f) _ s t e (λ w q. ground arith)
Write-Evolves s t (write_release j a f n m now reason e k) =
    update-Evolves (owns j a f) _ s t e (λ w q. ground arith)
Write-Evolves s t (write_publish j a f n now p e one i) =
    update-Evolves (owns j a f) _ s t e (λ w q. ground arith)
Write-Evolves s t (write_replay j extra g now id e k) =
    update-Evolves (λ v. has_id j v && is_dead v.status) _ s t e (λ w q. ground arith)
Write-Evolves s t (write_quarantine marker now x e k) =
    update-Evolves (quarantines x) _ s t e (λ w q. ground arith)

Trace-Evolves : (s t : Store) → Trace s t → Evolves s t
Trace-Evolves s t done v m = (v, m, IsLater-refl v)
Trace-Evolves s t (and_then {t = u} h w) v m =
    let (x, k, a) = Trace-Evolves s u h v m in
    let (y, l, b) = Write-Evolves u t w x k in (y, l, IsLater-trans v x y a b)

-- From any store, whatever calls return afterwards: each work row is still in the table, with the payload,
-- the digests, the runtime key, the duration, the original attempt limit and the creation time that it
-- had, and its fence and its attempt count have not decreased.
pub Reach-IsLater :
    (c : Codec) (s t : Store) (v : Work)
    → Reach c s t
    → In v s.work
    → (w : Work) × In w t.work × IsLater v w
Reach-IsLater c s t v r = Trace-Evolves s t (Reach-Trace r) v
