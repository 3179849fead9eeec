-- ===== src/Events.antt =====
-- Worker events of src/people_counter/fabric_events.py: the rows of the Lakehouse tables, the commands
-- of a worker, and the checks that the planning of a command shares. A row gives each column a value;
-- `updates` are a dictionary, as the list of its entries. Times are whole seconds.
pub mod Planning
pub mod Apply
pub mod Updates
pub mod Owned
pub mod Again
pub mod Tests
use people_counter.Prelude.{
  ℕ, zero, suc, ◌+◌, ◌-◌, ◌*◌, min, max, String, Bool, true, false, not, ◌&&◌, ◌||◌, Option, none,
  some, List, [], ◌∷◌, ltb, leb, nat_eq, ◌==◌, if◌then◌else◌, Result, ok, err, rejected, ◌>>=◌,
  ◌>>◌, require,
}
use people_counter.Prelude.Rows.{every}

pub data Value : Type 0 where
  null : Value
  text : String → Value
  time number : ℕ → Value
  flag : Bool → Value

-- `actual == value`
abbrev pub same : Value → Value → Bool
same null null = true
same (text s) (text t) = s == t
same (time m) (time n) = nat_eq m n
same (number m) (number n) = nat_eq m n
same (flag true) (flag b) = b
same (flag false) (flag b) = not b
same _ _ = false

abbrev pub minute : ℕ
minute = 60

abbrev pub Row : Type 0
Row = String → Value

-- An entry of a dictionary of updates.
pub record Entry : Type 0 where
  pub column : String
  pub value : Value

infix 8 ◌:=◌
abbrev pub ◌:=◌ : String → Value → Entry
k := v = record { column = k; value = v }

-- `updates.get(key)`
unfoldable pub lookup : String → List Entry → Option Value
lookup k [] = none
lookup k (e ∷ es) = if e.column == k then some e.value else lookup k es

-- `updates[key] = value`
unfoldable pub put : String → Value → List Entry → List Entry
put k v [] = (k := v) ∷ []
put k v (e ∷ es) = if e.column == k then (k := v) ∷ es else e ∷ put k v es

abbrev pub value_or : Option Value → Value → Value
value_or none w = w
value_or (some v) w = v

-- The row once the updates are set.
unfoldable pub assign : Row → List Entry → Row
unfolding lookup
assign row updates k = value_or (lookup k updates) (row k)

-- `_matches`
unfoldable pub matches : Row → List Entry → Bool
unfolding every
matches row updates = every (λ e. same (row e.column) e.value) updates

abbrev pub is_null : Value → Bool
is_null null = true
is_null _ = false

-- `value is not None and _timestamp(value) > n`
abbrev pub is_after : Value → ℕ → Bool
is_after (time t) n = ltb n t
is_after _ n = false

-- `value is not None and n >= _timestamp(value)`
abbrev pub is_since : Value → ℕ → Bool
is_since (time t) n = leb t n
is_since _ n = false

-- `_ACTIVE.index(status)`
unfoldable pub active_index : Value → Option ℕ
active_index (text s) =
    if s == "LEASED"
    then some 0
    else if s == "STAGING"
    then some 1
    else if s == "RUNNING"
    then some 2
    else if s == "WRITING"
    then some 3
    else none
active_index _ = none

-- `status in _ACTIVE`
unfoldable pub is_active : Value → Bool
unfolding active_index
is_active v = elim (active_index v) [ none ↦ false | some n ↦ true ]

pub record Failure : Type 0 where
  pub error_category : String
  pub error_type : String
  pub error_message : String
  pub retryable : Bool
  pub lease_lost : Bool
  pub processed_frames : Value
  pub processing_seconds : Value

-- The kind of a command, with its payload.
pub data Kind : Type 0 where
  claim_execution commit : Kind
  heartbeat : String → List Entry → Kind
  attempt_update : List Entry → Kind
  failure : Failure → Kind
  release : String → Kind

pub record Command : Type 0 where
  pub event_id : String
  pub work_id : String
  pub attempt_id : String
  pub worker_execution_id : String
  pub capture_date : Value
  pub sequence : ℕ
  pub kind : Kind
  pub created_at : ℕ
  pub lease_minutes : ℕ

pub record Plan : Type 0 where
  pub work : List Entry
  pub attempt : List Entry

-- `_Plan(message=...)`: nothing is left to write.
abbrev pub no_change : Plan
no_change = record { work = []; attempt = [] }

-- `_identity`
unfoldable pub identity : Command → Row → Row → Result (Unit {0})
identity c work attempt = do
  require
      (same (work "work_id") (attempt "work_id")
        && same (attempt "work_id") (text c.work_id)
        && same (attempt "attempt_id") (text c.attempt_id)
        && same (work "capture_date") (attempt "capture_date")
        && same (attempt "capture_date") c.capture_date)
      rejected
  require
      (not (is_null (work "config_sha256") || same (work "config_sha256") (text ""))
        && same (work "config_sha256") (attempt "config_sha256"))
      rejected

-- `_owner`
unfoldable pub owner : Command → Row → Row → Result (Unit {0})
unfolding is_active
owner c work attempt = do
  require (is_null (work "committed_attempt_id")) rejected
  require (same (work "lease_owner_attempt_id") (text c.attempt_id)) rejected
  require (same (work "lease_dispatcher_id") (attempt "dispatcher_id")) rejected
  require (is_active (work "status")) rejected

-- `_live`
unfoldable pub live : Command → Row → ℕ → Result (Unit {0})
live c work now = do
  require (is_after (work "lease_expires_at") (max now c.created_at)) rejected
  require (is_since (work "lease_acquired_at") c.created_at) rejected
  require (leb c.created_at now) rejected

-- `distance in (0, 1)`
abbrev pub adjacent : Option ℕ → Option ℕ → Bool
adjacent (some m) (some n) = nat_eq n m || nat_eq n (m + 1)
adjacent _ _ = false

-- `_transition`
unfoldable pub transition : Value → Value → Result (Unit {0})
unfolding active_index
transition current target = require (adjacent (active_index current) (active_index target)) rejected

-- `_LEASE_CLEAR`
abbrev pub lease_clear : List Entry
lease_clear =
    ("lease_owner_attempt_id" := null)
    ∷ ("lease_dispatcher_id" := null)
    ∷ ("lease_acquired_at" := null)
    ∷ ("lease_expires_at" := null)
    ∷ []
