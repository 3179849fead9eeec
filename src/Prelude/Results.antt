-- ===== src/Prelude/Results.antt =====
-- The exceptions that the modelled code raises, and code that may raise one.
use mathlib.Core.Path.{◌≡◌, refl}
use mathlib.Core.Bool.{Bool, true, false}
use mathlib.Core.Option.{Option, none, some}
use people_counter.Prelude.Tests.{if◌then◌else◌}

-- One constructor for each exception class; messages are left out. `integrity_error` is the
-- database's refusal of a duplicate key.
pub data Error : Type 0 where
  value_error key_error control_error immutable_conflict lease_budget lease_lost : Error
  batch_validation integrity_error queue_conflict message_not_found : Error
  inventory_error process_error lease_admission index_error rejected runtime_error os_error
        source_cache_error :
      Error

pub data Result {ℓ} (A : Type ℓ) : Type ℓ where
  ok : A → Result A
  err : Error → Result A

infixl 5 ◌>>=◌ ◌>>◌
-- Shut, so that the rules of `Returns` below see the steps of a `do` block.
unfoldable pub ◌>>=◌ {ℓ κ} : {A : Type ℓ} {B : Type κ} → Result A → (A → Result B) → Result B
err e >>= rest = err e
ok x >>= rest = rest x

abbrev pub ◌>>◌ {ℓ κ} : {A : Type ℓ} {B : Type κ} → Result A → Result B → Result B
step >> rest = step >>= λ _. rest

-- `if not condition: raise error`
unfoldable pub require : Bool → Error → Result (Unit {0})
require true e = ok tt
require false e = err e

-- A postcondition of the returned value; nothing is said of an exception.
pub record Returns {ℓ} {A : Type ℓ} (P : A → Type ℓ) (m : Result A) : Type ℓ where
  pub at : (a : A) → m ≡ ok a → P a

module _ {ℓ} {A : Type ℓ} {P : A → Type ℓ} where
  pub Returns-ok : (a : A) → P a → Returns P (ok a)
  Returns-ok a h = record { at = λ b e. rw (ok_inj e) at h }
    where
      ok_inj : {x y : A} → ok x ≡ ok y → x ≡ y
      ok_inj q = cc

  pub Returns-err : (e : Error) → Returns P (err e)
  Returns-err e = record { at = λ b q. cc }

  pub Returns-require :
      (b : Bool) (e : Error) (m : Result A)
      → (b ≡ true → Returns P m)
      → Returns P (require b e >> m)
  unfolding ◌>>=◌ require
  Returns-require true e m h = h refl
  Returns-require false e m h = Returns-err e

  pub Returns-if :
      (b : Bool) (m n : Result A)
      → (b ≡ true → Returns P m)
      → (b ≡ false → Returns P n)
      → Returns P (if b then m else n)
  Returns-if true m n h k = h refl
  Returns-if false m n h k = k refl

module _ {ℓ} {A B : Type ℓ} {Q : B → Type ℓ} where
  -- The rest may use the value that was returned.
  pub Returns-bind :
      (m : Result A) (f : A → Result B)
      → ((a : A) → m ≡ ok a → Returns Q (f a))
      → Returns Q (m >>= f)
  unfolding ◌>>=◌
  Returns-bind (ok a) f k = k a refl
  Returns-bind (err e) f k = Returns-err e

  -- An `elim` on an optional row.
  pub Returns-option :
      (o : Option A) (m : Result B) (f : A → Result B)
      → (o ≡ none → Returns Q m)
      → ((a : A) → o ≡ some a → Returns Q (f a))
      → Returns Q (elim o [ none ↦ m | some a ↦ f a ])
  Returns-option none m f h k = h refl
  Returns-option (some a) m f h k = k a refl

-- A last step that only checks.
pub Returns-check :
    {P : Unit {0} → Type 0} (b : Bool) (e : Error) → (b ≡ true → P tt) → Returns P (require b e)
unfolding require
Returns-check true e h = Returns-ok tt (h refl)
Returns-check false e h = Returns-err e

-- A step that is known to return.
pub bind-ok {ℓ κ} :
    {A : Type ℓ} {B : Type κ} {m : Result A} {a : A} (f : A → Result B) → m ≡ ok a → (m >>= f) ≡ f a
unfolding ◌>>=◌
bind-ok f e = rw e refl

pub require-true {ℓ} :
    {A : Type ℓ} {b : Bool} (e : Error) (m : Result A) → b ≡ true → (require b e >> m) ≡ m
unfolding ◌>>=◌ require
require-true e m h = rw h refl

-- What a block that returned has gone through.
pub bind_returned {ℓ κ} :
    {A : Type ℓ} {B : Type κ} (step : Result A) (rest : A → Result B) {y : B}
    → (step >>= rest) ≡ ok y
    → (x : A) × (step ≡ ok x) × (rest x ≡ ok y)
unfolding ◌>>=◌
bind_returned (ok x) rest h = (x, refl, h)
bind_returned (err e) rest h = cc

pub require_returned {ℓ} :
    {A : Type ℓ} (b : Bool) (e : Error) (m : Result A) {a : A}
    → (require b e >> m) ≡ ok a
    → (b ≡ true) × (m ≡ ok a)
unfolding ◌>>=◌ require
require_returned true e m h = (refl, h)
require_returned false e m h = cc

pub ok_inj {ℓ} : {A : Type ℓ} {a b : A} → ok a ≡ ok b → a ≡ b
ok_inj h = cc
