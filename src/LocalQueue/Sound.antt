-- ===== src/LocalQueue/Sound.antt =====
-- The invariant of the local queue: message ids, keys and tokens are unique, the lock columns go with the
-- state as the CHECK of the table wants, and the deliveries are bounded.
pub mod Writes
pub mod Operations
pub mod Deliveries
use people_counter.Prelude.{
  ℕ, ◌≤◌, ◌<◌, ◌≡◌, ◌||◌, String, Bool, true, false, Option, some, is_some, List, All,
}
use people_counter.Prelude.Keys.{Distinct}
use people_counter.Prelude.Membership.{In}
use people_counter.LocalQueue.{Message, State, is_ready, is_locked, is_completed, is_dead}

pub record IsSoundMessage (m : Message) : Type 0 where
  pub token_shape : is_some m.lock_token ≡ is_locked m.state
  pub owner_shape : is_some m.locked_by ≡ is_locked m.state
  pub until_shape : is_some m.locked_until ≡ is_locked m.state
  pub bounded : m.delivery_count ≤ m.max_delivery_count
  pub room : is_ready m.state ≡ true → m.delivery_count < m.max_delivery_count

-- No two rows have the same token.
abbrev pub TokensUnique : List Message → Type 0
TokensUnique q =
    (x y : Message) (t : String)
    → In x q
    → In y q
    → x.lock_token ≡ some t
    → y.lock_token ≡ some t
    → x ≡ y

pub record IsSound (q : List Message) : Type 0 where
  pub rows : All IsSoundMessage q
  pub ids : Distinct (λ m. m.message_id) q
  pub keys : Distinct (λ m. m.idempotency_key) q
  pub tokens : TokensUnique q

-- Completed or dead: no operation delivers the message again.
abbrev pub is_terminal : Message → Bool
is_terminal m = is_completed m.state || is_dead m.state

-- The operation keeps the invariant, and the terminal messages as they are.
pub record Kept (q r : List Message) : Type 0 where
  pub sound : IsSound r
  pub terminal : (m : Message) → is_terminal m ≡ true → In m q → In m r
