-- ===== src/Control/Sound/Rows.antt =====
-- Each assignment to a work row keeps the invariant of the row.
use people_counter.Prelude.{ℕ, ◌<◌, ◌≡◌, String, true, arith}
use people_counter.Control.Tables.{Work, is_dead, ClaimedWork, Codec}
use people_counter.Control.Sound.{IsSoundRow}
use people_counter.Control.Register.{Request, new_work}
use people_counter.Control.Lease.{Lease, leased_work, claims_row}
use people_counter.Control.Process.{owns, extended}
use people_counter.Control.Commit.{released, outcome, published}
use people_counter.Control.Replay.{replayed, quarantined, Expected, quarantines}

pub new_work-IsSoundRow :
    (c : Codec) (now : ℕ) (r : Request) → 0 < r.max_attempts → IsSoundRow (new_work c now r)
unfolding new_work
new_work-IsSoundRow c now r h = ground arith

pub leased_work-IsSoundRow :
    (l : Lease) (item : ClaimedWork) (w : Work)
    → 0 < item.fence
    → IsSoundRow w
    → claims_row item w ≡ true
    → IsSoundRow (leased_work l item w)
unfolding leased_work
leased_work-IsSoundRow l item w h k e = ground arith

pub extended-IsSoundRow :
    (expires now : ℕ) (k a : String) (f : ℕ) (w : Work)
    → IsSoundRow w
    → owns k a f w ≡ true
    → IsSoundRow (extended expires now w)
unfolding extended
extended-IsSoundRow expires now k a f w h e = ground arith

pub released-IsSoundRow :
    (n m now : ℕ) (reason k a : String) (f : ℕ) (w : Work)
    → n ≡ w.attempt_count
    → m ≡ w.max_attempts
    → IsSoundRow w
    → owns k a f w ≡ true
    → IsSoundRow (released (outcome n m) reason now w)
unfolding released outcome
released-IsSoundRow n m now reason k a f w p q h e = ground arith

pub published-IsSoundRow :
    (n now : ℕ) (k a b : String) (f : ℕ) (w : Work)
    → IsSoundRow w
    → owns k a f w ≡ true
    → IsSoundRow (published b n now w)
unfolding published
published-IsSoundRow n now k a b f w h e = ground arith

pub replayed-IsSoundRow :
    (extra generation now : ℕ) (k : String) (w : Work)
    → 0 < extra
    → IsSoundRow w
    → is_dead w.status ≡ true
    → IsSoundRow (replayed extra generation k now w)
unfolding replayed
replayed-IsSoundRow extra generation now k w p h e = ground arith

pub quarantined-IsSoundRow :
    (marker : String) (now : ℕ) (e : Expected) (w : Work)
    → IsSoundRow w
    → quarantines e w ≡ true
    → IsSoundRow (quarantined marker now w)
unfolding quarantined
quarantined-IsSoundRow marker now e w h q = ground arith
