-- ===== src/Control/Sound.antt =====
-- The invariant of the work table: work ids are unique, and for each row the attempts are bounded,
-- the fence counts them, the lease columns go with the status as the CHECK of the table wants, and
-- the row is committed exactly if it succeeded.
pub mod Rows
pub mod Writes
pub mod Operations
mod Counts
pub mod Outcomes
pub mod Requeue
pub mod Reach
use people_counter.Prelude.{ℕ, ◌≤◌, ◌<◌, ◌≡◌, Bool, true, false, is_some, List, All}
use people_counter.Prelude.Keys.{Distinct}
use people_counter.Control.Tables.{Work, is_ready, is_leased, is_succeeded, Store}

pub record IsSoundRow (w : Work) : Type 0 where
  pub fenced : w.fence ≡ w.attempt_count
  pub bounded : w.attempt_count ≤ w.max_attempts
  pub room : is_ready w.status ≡ true → w.attempt_count < w.max_attempts
  pub attempt_shape : is_some w.lease_attempt_id ≡ is_leased w.status
  pub owner_shape : is_some w.lease_owner ≡ is_leased w.status
  pub expiry_shape : is_some w.lease_expires_at ≡ is_leased w.status
  pub pointer : is_some w.committed_attempt_id ≡ is_succeeded w.status
  pub sequence : is_some w.publication_sequence ≡ is_succeeded w.status

pub record IsSound (s : Store) : Type 0 where
  pub rows : All IsSoundRow s.work
  pub unique : Distinct (λ w. w.work_id) s.work
