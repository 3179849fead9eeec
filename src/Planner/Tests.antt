-- ===== src/Planner/Tests.antt =====
-- Three claimed items on two executors, and the theorems at them.
use people_counter.Prelude.{
  ℕ, ◌+◌, ◌≡◌, refl, String, Option, none, some, List, [], ◌∷◌, arith, true, false, ◌*◌, Result, ok,
  err, process_error, ◌⊎◌, ◌>>=◌, require,
}
use people_counter.Prelude.Rows.{every}
use people_counter.Prelude.Sorting.{sort}
use people_counter.Prelude.Texts.{is_blank}
use people_counter.Control.Tables.{Codec, ClaimedWork, Work, WorkStatus}
use people_counter.Control.Texts.{required_text, positive, validated_sha256, new_id}
use people_counter.Control.Admission.{
  Admission, Settings, claim_admission_settings, memory_workers, profile_settings, projection, fits,
}
use people_counter.Control.Claim.{claim_items}
use people_counter.Control.Lease.{Lease, envelope_of}
use people_counter.Lpt.{lpt_makespan}
use people_counter.Executors.{
  ExecutorRecord, assert_minimum_videos_per_group, assert_matches_reviewed_profile, compute_slots,
  compute_memory_cap, per_executor_memory_slots, least_memory, memory_slots,
}
use people_counter.Executors.Width.{
  plan_task_width, memory_limits, assert_executor_placement_safe, placements,
}
use people_counter.Planner.{
  ExecutionProfile, build_profile_from_inventory, memory_limit, conservative_concurrency,
}
use people_counter.Planner.Envelope.{EnvelopeItem, VerifiedEnvelope, verify_envelope, raw_envelope}
use people_counter.Planner.Envelope.Accepted.{
  IsRegistered, IsNamed, IsVerified, is_detectable, envelope_of-verify_envelope,
}
use people_counter.Planner.Plan.{
  ExecutionPlan, fill, least_index, planned_buckets, physical_partition, waves_of, check_groups,
  plan_duration_lpt, admit_lease,
}
use people_counter.Planner.Planned.{IsPlan, plan_duration_lpt-IsPlan}
use people_counter.Planner.Agreement.{claim_view, fits-admit_lease}

abbrev digest : String
digest = "0123456789abcdef0123456789abcdef0123456789abcdef0123456789abcdef"

abbrev codec : Codec
codec = record {
  sha256 = λ t. digest;
  membership_json = λ items. "members";
  envelope_json = λ e. "envelope";
  replay_json = λ k n operator reason extra. "replay";
  marker_json = λ operator reason release. "marker";
  object_path = λ d. "objects/one";
}

abbrev row_of : String → ℕ → Work
row_of k d = record {
  work_id = k;
  payload_json = "{}";
  payload_sha256 = digest;
  runtime_key = "cpu";
  duration_seconds = d;
  config_sha256 = "config";
  release_digest = "release";
  status = WorkStatus.ready;
  attempt_count = 0;
  max_attempts = 3;
  original_max_attempts = 3;
  fence = 0;
  available_at = 0;
  lease_owner = none;
  lease_attempt_id = none;
  lease_expires_at = none;
  committed_attempt_id = none;
  publication_sequence = none;
  replay_generation = 0;
  last_replay_id = none;
  last_error = none;
  created_at = 0;
  updated_at = 0;
}

abbrev item_of : ℕ → String → ℕ → EnvelopeItem
item_of n k d = record {
  ordinal = n;
  work_id = k;
  attempt_id = "attempt";
  fence = 1;
  payload_sha256 = digest;
  payload = "{}";
  config_sha256 = "config";
  release_digest = "release";
  duration_seconds = d;
  runtime_key = "cpu";
}

abbrev rest : List EnvelopeItem
rest = item_of 1 "b" 50 ∷ item_of 2 "c" 40 ∷ []

abbrev rows : List Work
rows = row_of "a" 30 ∷ row_of "b" 50 ∷ row_of "c" 40 ∷ []

abbrev reviewed : ExecutionProfile
reviewed = record {
  name = "pair";
  executor_instances = 2;
  executor_cores = 2;
  executor_memory_bytes = 1000;
  task_cpus = 2;
  fixed_allocation = true;
  speculation = true;
  memory_reserve_bytes = 100;
  heartbeat_seconds = 10;
  minimum_speed_x = 1000;
  lease_safety_factor = 1500;
  lease_margin_seconds = 5;
  planned_task_count = 2;
  peak_rss_bytes = some 300;
  rss_headroom_fraction = 200;
}

abbrev pair : List ExecutorRecord
pair =
    record { executor_id = "1"; host = "a"; total_cores = 2; max_memory_bytes = 1000 }
    ∷ record { executor_id = "2"; host = "b"; total_cores = 2; max_memory_bytes = 800 }
    ∷ []

abbrev profile : ExecutionProfile
profile = record reviewed { speculation = false }

profile_built : build_profile_from_inventory reviewed none pair ≡ ok profile
unfolding build_profile_from_inventory assert_matches_reviewed_profile plan_task_width compute_slots
    memory_limits assert_executor_placement_safe placements per_executor_memory_slots memory_slots
    compute_memory_cap least_memory every ◌>>=◌ require
profile_built = refl

no_profile_width :
    build_profile_from_inventory (record reviewed { task_cpus = 3 }) none pair ≡ err process_error
unfolding build_profile_from_inventory ◌>>=◌ require
no_profile_width = refl

abbrev admission : Admission
admission = record {
  process_profile = some (claim_view profile);
  minimum_speed_x = none;
  safety_factor = none;
  margin_seconds = none;
  peak_rss_bytes = some 300;
}

abbrev settings : Settings
settings = record {
  speed = 1000;
  factor = 1500;
  margin = 5;
  worker_limit = 2;
  profile_name = "pair";
}

settled : claim_admission_settings admission ≡ ok settings
unfolding claim_admission_settings profile_settings memory_workers claim_view positive ◌>>=◌ require
    required_text is_blank
settled = refl

-- `70` ticks on two workers, half as much again and the margin are under 111.
admitted : fits settings 111 rows ≡ true
unfolding fits projection lpt_makespan
admitted = refl

fits-admit_lease_example :
    (plan : ExecutionPlan) × (plan_duration_lpt (item_of 0 "a" 30 ∷ rest) profile (some 300) none
      ≡ ok plan)
    × (plan.projected_makespan_seconds ≡ (projection settings rows).1)
    × (admit_lease plan profile (20 + 111) 20
        ≡ ok (plan.projected_makespan_seconds * profile.lease_safety_factor))
fits-admit_lease_example =
    fits-admit_lease admission profile settings 111 20 rows (item_of 0 "a" 30) rest refl refl
      settled admitted refl (refl, (refl, tt))

abbrev no_plan : ExecutionPlan
no_plan = record {
  concurrency = record {
    concurrency = 0;
    item_limit = 0;
    profile_limit = 0;
    cpu_limit = 0;
    memory_limit = none;
    peak_rss_bytes = none;
    duration_only_fallback = true;
  };
  buckets = [];
  waves = [];
  projected_makespan_seconds = 0;
}

abbrev plan_of : Result ExecutionPlan → ExecutionPlan
plan_of (ok plan) = plan
plan_of (err e) = no_plan

abbrev plan : ExecutionPlan
plan = plan_of (plan_duration_lpt (item_of 0 "a" 30 ∷ rest) profile (some 300) (some 1))

planned : plan_duration_lpt (item_of 0 "a" 30 ∷ rest) profile (some 300) (some 1) ≡ ok plan
unfolding plan_duration_lpt conservative_concurrency memory_limit every fill least_index sort
    check_groups assert_minimum_videos_per_group planned_buckets physical_partition waves_of ◌>>=◌
    require
planned = refl

-- The longest item is alone on its worker, which is the first.
makespan : plan.projected_makespan_seconds ≡ 70
unfolding plan_duration_lpt conservative_concurrency memory_limit every fill least_index sort
    check_groups assert_minimum_videos_per_group planned_buckets physical_partition waves_of ◌>>=◌
    require
makespan = refl

plan_duration_lpt-IsPlan_example : IsPlan (item_of 0 "a" 30 ∷ rest) profile plan
plan_duration_lpt-IsPlan_example =
    plan_duration_lpt-IsPlan (item_of 0 "a" 30 ∷ rest) profile (some 300) (some 1) plan planned

abbrev lease : Lease
lease = record {
  batch_id = "batch-1";
  owner = "driver";
  runtime_key = "cpu";
  now = 20;
  expires = 131;
}

abbrev claimed : ClaimedWork
claimed = record { work_id = "a"; attempt_id = "attempt"; fence = 1; payload_sha256 = digest }

abbrev sizes_of : String → Option ℕ
sizes_of payload = some 2

claims : claim_items (λ n. "attempt") 1 (row_of "a" 30 ∷ []) ≡ ok (claimed ∷ [])
unfolding claim_items new_id required_text is_blank ◌>>=◌
claims = refl

registered_row : IsRegistered codec (row_of "a" 30)
unfolding required_text validated_sha256 is_blank ◌>>=◌
registered_row = record {
  hashed = refl;
  digest = refl;
  named = refl;
  config = refl;
  release = refl;
  duration = omega arith;
}

lease-IsNamed : IsNamed codec lease (claimed ∷ []) digest
unfolding required_text validated_sha256 is_blank ◌>>=◌
lease-IsNamed = record { owner = refl; runtime_key = refl; membership = refl; envelope = refl }

envelope_of-verify_envelope_example :
    let answer =
      verify_envelope codec sizes_of
        (raw_envelope (envelope_of codec lease settings (row_of "a" 30 ∷ []) (claimed ∷ [])))
        "batch-1"
        digest in
    ((every (is_detectable sizes_of) (row_of "a" 30 ∷ []) ≡ true)
      × (v : VerifiedEnvelope) × (answer ≡ ok v)
      × IsVerified lease (row_of "a" 30 ∷ []) (claimed ∷ []) digest v)
    ⊎ ((every (is_detectable sizes_of) (row_of "a" 30 ∷ []) ≡ false) × (answer ≡ err process_error))
envelope_of-verify_envelope_example =
    envelope_of-verify_envelope codec sizes_of lease settings (λ n. "attempt") (row_of "a" 30) []
      (claimed ∷ []) digest (registered_row, tt) (tt, tt) claims lease-IsNamed
