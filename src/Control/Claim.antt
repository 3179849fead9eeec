-- ===== src/Control/Claim.antt =====
-- `claim` of src/people_counter/sjd_control.py: the argument checks, the choice of the rows, and the
-- writes of the transaction. `ids n` is the n-th id that the id factory gives during the call.
use people_counter.Prelude.{
  ℕ, ◌+◌, min, String, Bool, true, false, ◌&&◌, ◌||◌, Option, none, some, List, [], ◌∷◌, ltb, leb,
  nat_eq, ◌==◌, take, if◌then◌else◌, Result, ok, value_error, immutable_conflict, ◌>>=◌, ◌>>◌,
  require,
}
use people_counter.Prelude.Rows.{select, count, every}
use people_counter.Prelude.Sorting.{sort}
use people_counter.Prelude.Texts.{str_leb}
use people_counter.Control.Tables.{Work, is_ready, Batch, batch_active, ClaimedWork, EnvelopeItem}
use people_counter.Control.Texts.{
  required_text, positive, within_hundred, new_id, member, allowed_work_scope,
}
use people_counter.Control.Admission.{Admission, Settings, claim_admission_settings}

pub record ClaimArgs : Type 0 where
  pub owner : String
  pub max_items : ℕ
  pub lease_seconds : ℕ
  pub maximum_active_batches : Option ℕ
  pub admission : Admission
  pub minimum_items : ℕ
  pub allowed_work_ids : Option (List String)
  pub expected_release_digest : Option String

-- `None`, or between 1 and 100
active_limit_valid : Option ℕ → Bool
active_limit_valid none = true
active_limit_valid (some n) = within_hundred n

-- The checks before the transaction: the admission settings and the scope that they give.
unfoldable pub check_claim : ClaimArgs → Result (Settings × Option (List String))
unfolding required_text positive active_limit_valid
check_claim a = do
  required_text a.owner
  require (within_hundred a.max_items) value_error
  require (leb 1 a.minimum_items && leb a.minimum_items a.max_items) value_error
  require (active_limit_valid a.maximum_active_batches) value_error
  positive a.lease_seconds
  settings ← claim_admission_settings a.admission
  require (leb 1000 settings.factor) value_error
  scope ← allowed_work_scope a.allowed_work_ids
  ok (settings, scope)

-- `JOIN claim_scope`
unfoldable pub in_scope : Option (List String) → String → Bool
unfolding member
in_scope none k = true
in_scope (some ids) k = member k ids

-- WHERE w.status = 'READY' AND w.available_at <= now, within the scope
unfoldable pub eligible : Option (List String) → ℕ → Work → Bool
unfolding in_scope
eligible scope now w = in_scope scope w.work_id && is_ready w.status && leb w.available_at now

unfoldable pub active_limit_reached : Option ℕ → List Batch → Bool
active_limit_reached none batches = false
active_limit_reached (some n) batches = leb n (count (λ b. batch_active b.status) batches)

unfoldable pub empty_scope : Option (List String) → Bool
empty_scope (some []) = true
empty_scope _ = false

unfoldable pub require_release_compatibility : List Work → Option String → Result (Unit {0})
unfolding required_text
require_release_compatibility rows none = ok tt
require_release_compatibility rows (some digest) = do
  expected ← required_text digest
  require (every (λ w. w.release_digest == expected) rows) immutable_conflict

-- GROUP BY w.runtime_key, with COUNT(*) and MIN(w.created_at)
pub record Group : Type 0 where
  pub runtime_key : String
  pub size : ℕ
  pub first_created : ℕ

add_to_group : Work → List Group → List Group
add_to_group w [] =
    record { runtime_key = w.runtime_key; size = 1; first_created = w.created_at } ∷ []
add_to_group w (g ∷ gs) =
    if g.runtime_key == w.runtime_key
    then record g { size = g.size + 1; first_created = min g.first_created w.created_at } ∷ gs
    else g ∷ add_to_group w gs

group_by_key : List Work → List Group
unfolding add_to_group
group_by_key [] = []
group_by_key (w ∷ ws) = add_to_group w (group_by_key ws)

-- ORDER BY first_created, runtime_key
abbrev group_order : Group → Group → Bool
group_order g h =
    ltb g.first_created h.first_created
    || (nat_eq g.first_created h.first_created && str_leb g.runtime_key h.runtime_key)

first_key : List Group → Option String
first_key [] = none
first_key (g ∷ gs) = some g.runtime_key

-- The runtime key of the oldest group with enough rows.
unfoldable pub choose_runtime : ℕ → List Work → Option String
unfolding group_by_key first_key sort select
choose_runtime minimum rows =
    first_key (sort group_order (select (λ g. leb minimum g.size) (group_by_key rows)))

-- ORDER BY w.created_at, w.work_id
abbrev pub queue_order : Work → Work → Bool
queue_order v w =
    ltb v.created_at w.created_at
    || (nat_eq v.created_at w.created_at && str_leb v.work_id w.work_id)

unfoldable pub queue_rows : Option (List String) → ℕ → String → ℕ → List Work → List Work
unfolding eligible
queue_rows scope now key limit work =
    take limit (sort queue_order (select (λ w. eligible scope now w && w.runtime_key == key) work))

-- The claimed items: each row gets the next id and the next fence.
unfoldable pub claim_items : (ℕ → String) → ℕ → List Work → Result (List ClaimedWork)
unfolding new_id
claim_items ids n [] = ok []
claim_items ids n (w ∷ ws) = do
  attempt_id ← new_id ids n
  rest ← claim_items ids (n + 1) ws
  ok (
      record {
        work_id = w.work_id;
        attempt_id = attempt_id;
        fence = w.fence + 1;
        payload_sha256 = w.payload_sha256;
      }
      ∷ rest)

unfoldable pub envelope_items : ℕ → List Work → List ClaimedWork → List EnvelopeItem
envelope_items n (w ∷ ws) (i ∷ is) =
    record {
      ordinal = n;
      claimed = i;
      payload = w.payload_json;
      config_sha256 = w.config_sha256;
      release_digest = w.release_digest;
      duration_seconds = w.duration_seconds;
    }
    ∷ envelope_items (n + 1) ws is
envelope_items n _ _ = []
