-- ===== src/Control/Trace.antt =====
-- The operations as traces of elementary writes: what a statement of one operation does to the work
-- table and the publications. A property of both is then proved once for each write.
pub mod Operations
pub mod Commits
pub mod Requeue
pub mod Reach
use people_counter.Prelude.{ℕ, ◌+◌, ◌≡◌, ◌&&◌, String, List, [], ◌∷◌, ◌++◌}
use people_counter.Prelude.Rows.{update, count}
use people_counter.Control.Tables.{ClaimedWork, is_dead, Publication, Codec, Store}
use people_counter.Control.Register.{Request, new_work, has_id}
use people_counter.Control.Lease.{Lease, leased_work, claims_row}
use people_counter.Control.Process.{owns, extended}
use people_counter.Control.Commit.{outcome, released, published}
use people_counter.Control.Replay.{replayed, quarantined, Expected, quarantines}

-- Both as they were.
pub record KeepsLog (s t : Store) : Type 0 where
  pub log : t.publications ≡ s.publications
  pub last : t.last_sequence ≡ s.last_sequence

-- The publication of attempt `a` of the work `k`.
pub record IsLogged (k a : String) (n : ℕ) (p : Publication) (s t : Store) : Type 0 where
  pub log : t.publications ≡ s.publications ++ p ∷ []
  pub last : t.last_sequence ≡ s.last_sequence + 1
  pub next : n ≡ s.last_sequence + 1
  pub sequence : p.publication_sequence ≡ s.last_sequence + 1
  pub work_id : p.work_id ≡ k
  pub attempt_id : p.attempt_id ≡ a

pub data Write (s t : Store) : Type 0 where
  write_elsewhere : t.work ≡ s.work → KeepsLog s t → Write s t
  write_insert :
      (c : Codec) (now : ℕ) (r : Request)
      → t.work ≡ s.work ++ new_work c now r ∷ []
      → KeepsLog s t
      → Write s t
  write_lease :
      (l : Lease) (item : ClaimedWork)
      → t.work ≡ update (claims_row item) (leased_work l item) s.work
      → KeepsLog s t
      → Write s t
  write_extend :
      (k a : String) (f expires now : ℕ)
      → t.work ≡ update (owns k a f) (extended expires now) s.work
      → KeepsLog s t
      → Write s t
  write_release :
      (k a : String) (f n m now : ℕ) (reason : String)
      → t.work ≡ update (owns k a f) (released (outcome n m) reason now) s.work
      → KeepsLog s t
      → Write s t
  write_publish :
      (k a : String) (f n now : ℕ) (p : Publication)
      → t.work ≡ update (owns k a f) (published a n now) s.work
      → count (owns k a f) s.work ≡ 1
      → IsLogged k a n p s t
      → Write s t
  write_replay :
      (k : String) (extra generation now : ℕ) (replay_id : String)
      → t.work
        ≡ update
            (λ v. has_id k v && is_dead v.status)
            (replayed extra generation replay_id now)
            s.work
      → KeepsLog s t
      → Write s t
  write_quarantine :
      (marker : String) (now : ℕ) (e : Expected)
      → t.work ≡ update (quarantines e) (quarantined marker now) s.work
      → KeepsLog s t
      → Write s t

pub data Trace (s : Store) : Store → Type 0 where
  done : Trace s s
  and_then : {t u : Store} → Trace s t → Write t u → Trace s u

pub Write-Trace : {s t : Store} → Write s t → Trace s t
Write-Trace w = Trace.and_then Trace.done w

pub Trace-append : {s t u : Store} → Trace s t → Trace t u → Trace s u
Trace-append h Trace.done = h
Trace-append h (Trace.and_then k w) = Trace.and_then (Trace-append h k) w
