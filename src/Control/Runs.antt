-- ===== src/Control/Runs.antt =====
-- Runs of the control store: a work is registered, claimed, extended, sealed and committed, and another
-- claim of it expires and is replayed.
use people_counter.Prelude.{
  ℕ, zero, suc, ◌≡◌, refl, String, Bool, true, false, none, some, [], ◌∷◌, Result, ok, err, ◌>>=◌,
  require,
}
use people_counter.Control.Tables.{WorkStatus, Codec, Store, empty, RegisteredWork, ReplayRequest}
use people_counter.Control.Register.{Request, register}
use people_counter.Control.Claim.{ClaimArgs}
use people_counter.Control.Lease.{claim}
use people_counter.Control.Process.{ProcessEnvelope, heartbeat_process}
use people_counter.Control.Seal.{Output, seal_batch}
use people_counter.Control.Commit.{commit_batch, recover}
use people_counter.Control.Replay.{replay}
use people_counter.Prelude.Texts.{is_blank}
use people_counter.Prelude.Rows.{find, count, every, select, any, update}
use people_counter.Prelude.Sorting.{insert, sort}
use people_counter.Lpt.{lpt_makespan, add_first, assign, assign_all, least}
use people_counter.Control.Texts.{
  allowed_work_scope, member, new_id, positive, required_text, unique, validated_sha256,
}
use people_counter.Control.Register.{
  check_request, new_work, register_row, registered, same_content,
}
use people_counter.Control.Admission.{
  claim_admission_settings, largest_admissible_prefix, fits, largest_from, projection,
}
use people_counter.Control.Claim.{
  check_claim, active_limit_reached, empty_scope, require_release_compatibility, eligible,
  choose_runtime, queue_rows, claim_items, envelope_items, in_scope,
}
use people_counter.Control.Lease.{
  claim_runtime, claim_transaction, envelope_of, insert_attempt, insert_batch, insert_member,
  lease_item, lease_items, lease_rows, leased_work,
}
use people_counter.Control.Process.{
  assert_process_rows, extend_items, extended, heartbeat_batch, holds_fence, join, join_row,
  same_membership,
}
use people_counter.Control.Seal.{
  normalize_outputs, same_items, same_members, seal_found, seal_item, seal_items, seals,
  validate_live_seal, verify_existing_seal,
}
use people_counter.Control.Commit.{
  batch_sequences, commit_attempt, commit_attempts, commit_failed_attempt, commit_found, commits,
  finish_attempt, insert_publication, outcome, published, released, recover_row, recover_rows,
}
use people_counter.Control.Replay.{replay_found, replay_dead, replayed, matching_last_replay}
use people_counter.Control.Steps.{
  Reach, here, next, register_step, claim_step, heartbeat_step, seal_step, commit_step,
}

abbrev pub digest : String
digest = "0123456789abcdef0123456789abcdef0123456789abcdef0123456789abcdef"

abbrev pub codec : Codec
codec = record {
  sha256 = λ t. digest;
  membership_json = λ items. "members";
  envelope_json = λ e. "envelope";
  replay_json = λ k n operator reason extra. "replay";
  marker_json = λ operator reason release. "marker";
  object_path = λ d. "objects/one";
}

abbrev pub request : Request
request = record {
  work_id = "camera-1";
  payload_json = "{}";
  runtime_key = "cpu";
  duration_seconds = 60;
  config_sha256 = "config";
  release_digest = "release";
  max_attempts = 1;
  available_at = none;
}

abbrev pub ids : ℕ → String
ids zero = "batch-1"
ids (suc n) = "attempt-1"

abbrev pub args : ClaimArgs
args = record {
  owner = "driver";
  max_items = 2;
  lease_seconds = 600;
  maximum_active_batches = some 1;
  admission = record {
    process_profile = none;
    minimum_speed_x = some 1000;
    safety_factor = some 2000;
    margin_seconds = some 5;
    peak_rss_bytes = none;
  };
  minimum_items = 1;
  allowed_work_ids = none;
  expected_release_digest = some "release";
}

abbrev pub envelope : ProcessEnvelope
envelope = record {
  batch_id = "batch-1";
  envelope_sha256 = digest;
  membership_sha256 = digest;
  items =
      record { work_id = "camera-1"; attempt_id = "attempt-1"; fence = 1; payload_sha256 = digest }
      ∷ [];
}

abbrev pub output : Output
output = record {
  work_id = "camera-1";
  attempt_id = "attempt-1";
  output_path = "out/camera-1";
  output_sha256 = digest;
  succeeded = true;
  records =
      record {
        executor_identity = "executor-1";
        partition_id = 0;
        task_attempt_id = 7;
        record_sequence = 0;
      }
      ∷ [];
}

abbrev pub store_of : {A : Type 0} → Result (Store × A) → Store
store_of (ok (s, a)) = s
store_of (err e) = empty

abbrev pub store_alone : Result Store → Store
store_alone (ok s) = s
store_alone (err e) = empty

abbrev pub registered_store : Store
registered_store = store_of (register codec 10 request empty)

abbrev pub claimed_store : Store
claimed_store = store_of (claim codec 20 ids args registered_store)

abbrev pub extended_store : Store
extended_store = store_alone (heartbeat_process 900 25 envelope claimed_store)

abbrev pub sealed_store : Store
sealed_store = store_alone (seal_batch "batch-1" (output ∷ []) digest digest 30 extended_store)

abbrev pub committed_store : Store
committed_store = store_of (commit_batch "batch-1" 40 sealed_store)

abbrev pub dead_store : Store
dead_store = store_of (recover 1000 claimed_store)

abbrev pub replayed_store : Store
replayed_store = store_of (replay codec "camera-1" "ana" "camera was repaired" 2 1001 dead_store)

abbrev pub is_ok {ℓ} : {A : Type ℓ} → Result A → Bool
is_ok (ok a) = true
is_ok (err e) = false

abbrev pub answer_of : {A : Type 0} → A → Result (Store × A) → A
answer_of d (ok (s, a)) = a
answer_of d (err e) = d

pub returned :
    {A : Type 0} (d : A) (m : Result (Store × A))
    → is_ok m ≡ true
    → m ≡ ok (store_of m, answer_of d m)
returned d (ok (s, a)) h = refl
returned d (err e) h = cc

returned_alone : (m : Result Store) → is_ok m ≡ true → m ≡ ok (store_alone m)
returned_alone (ok s) h = refl
returned_alone (err e) h = cc

-- The lease of the claim, its end in a publication, and its expiry and replay.
pub all_run :
    (is_ok (register codec 10 request empty) ≡ true)
    × (is_ok (claim codec 20 ids args registered_store) ≡ true)
    × (is_ok (heartbeat_process 900 25 envelope claimed_store) ≡ true)
    × (is_ok (seal_batch "batch-1" (output ∷ []) digest digest 30 extended_store) ≡ true)
    × (commit_batch "batch-1" 40 sealed_store ≡ ok (committed_store, 1 ∷ []))
    × (is_ok (replay codec "camera-1" "ana" "camera was repaired" 2 1001 dead_store) ≡ true)
unfolding register claim heartbeat_process seal_batch commit_batch ◌>>=◌ require is_blank find
    check_claim claim_admission_settings allowed_work_scope active_limit_reached count empty_scope
    require_release_compatibility every select eligible choose_runtime queue_rows
    largest_admissible_prefix fits lpt_makespan largest_from projection claim_items envelope_items
    in_scope batch_sequences commit_attempt commit_attempts commit_failed_attempt commit_found
    commits finish_attempt insert_publication outcome published released claim_runtime
    claim_transaction envelope_of insert_attempt insert_batch insert_member lease_item lease_items
    lease_rows leased_work assert_process_rows extend_items extended heartbeat_batch holds_fence
    join join_row same_membership check_request new_work register_row registered same_content
    normalize_outputs same_items same_members seal_found seal_item seal_items seals
    validate_live_seal verify_existing_seal member new_id positive required_text unique
    validated_sha256 add_first assign assign_all least any update insert sort recover recover_row
    recover_rows replay replay_found replay_dead replayed matching_last_replay
all_run = (refl, refl, refl, refl, refl, refl)

abbrev pub no_registration : RegisteredWork
no_registration = record {
  work_id = "";
  status = WorkStatus.ready;
  payload_sha256 = "";
  runtime_key = "";
  duration_seconds = 0;
  attempt_count = 0;
  max_attempts = 0;
  original_max_attempts = 0;
  committed_attempt_id = none;
  publication_sequence = none;
  last_replay_id = none;
}

abbrev pub no_request : ReplayRequest
no_request = record {
  replay_id = "";
  work_id = "";
  operator = "";
  reason = "";
  generation = 0;
  requested_at = 0;
}

pub register_run :
    register codec 10 request empty
    ≡ ok (registered_store, answer_of no_registration (register codec 10 request empty))
register_run = returned no_registration _ all_run.0

pub claim_run :
    claim codec 20 ids args registered_store
    ≡ ok (claimed_store, answer_of none (claim codec 20 ids args registered_store))
claim_run = returned none _ all_run.1

pub heartbeat_run : heartbeat_process 900 25 envelope claimed_store ≡ ok extended_store
heartbeat_run = returned_alone _ all_run.2

pub seal_run : seal_batch "batch-1" (output ∷ []) digest digest 30 extended_store ≡ ok sealed_store
seal_run = returned_alone _ all_run.3

pub claimed_Reach : Reach codec empty claimed_store
claimed_Reach =
    next (next here (register_step 10 request _ register_run)) (claim_step 20 ids args _ claim_run)

pub whole_Reach : Reach codec empty committed_store
whole_Reach =
    next
      (next (next claimed_Reach (heartbeat_step 900 25 envelope heartbeat_run))
        (seal_step "batch-1" (output ∷ []) digest digest 30 seal_run))
      (commit_step "batch-1" 40 (1 ∷ []) all_run.4)
