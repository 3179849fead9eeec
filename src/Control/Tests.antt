-- ===== src/Control/Tests.antt =====
-- The theorems about the control store, at the runs of Control/Runs.
use people_counter.Prelude.{
  List, All, ◌*◌, ◌+◌, ◌<◌, All, ◌>>=◌, ℕ, ◌≡◌, refl, inl, true, false, none, [], ◌∷◌, ok, err,
  lease_budget, take, arith, ◌⊎◌, ◌>>=◌, require,
}
use people_counter.Control.Tables.{Work, is_succeeded, Publication, Store, empty, RecoveryReport}
use people_counter.Control.Register.{register, get_work}
use people_counter.Control.Admission.{Settings}
use people_counter.Control.Lease.{claim}
use people_counter.Control.Commit.{commit_batch, recover}
use people_counter.Control.Replay.{replay}
use people_counter.Prelude.Texts.{is_blank}
use people_counter.Prelude.Rows.{find}
use people_counter.Control.Texts.{positive, required_text}
use people_counter.Control.Register.{check_request, new_work, register_row}
use people_counter.Control.Admission.{largest_admissible_prefix, fits}
use people_counter.Control.Claim.{}
use people_counter.Control.Lease.{}
use people_counter.Control.Process.{}
use people_counter.Control.Seal.{}
use people_counter.Prelude.Membership.{In}
use people_counter.Control.Steps.{here, next, claim_step, commit_step}
use people_counter.Control.Sound.{IsSound}
use people_counter.Control.Sound.Reach.{Reach-IsSound}
use people_counter.Control.Published.{IsPublished}
use people_counter.Control.Published.Reach.{Reach-IsPublished, Reach-keeps_published}
use people_counter.Control.Evolution.{IsLater, Reach-IsLater}
use people_counter.Control.Recovery.{IsRecovery, recover-IsRecovery}
use people_counter.Control.Lease.Claimed.{ClaimOutcome, claim-ClaimOutcome}
use people_counter.Control.Process.Heartbeat.{IsExtended, heartbeat_process-IsExtended}
use people_counter.Control.Register.Again.{register-register}
use people_counter.Control.Commit.Sequences.{IsSequences}
use people_counter.Control.Commit.Again.{commit_batch-commit_batch}
use people_counter.Control.Replay.Again.{replay-replay}
use people_counter.Control.Admission.Prefix.{IsLargest, largest_admissible_prefix_lem}
use people_counter.Control.Admission.{claim_admission_settings, projection}
use people_counter.Control.Admission.Budget.{fits-within_lease}
use people_counter.Control.Texts.{positive}
use people_counter.Lpt.{lpt_makespan}
use people_counter.Control.Runs.{
  codec, request, ids, args, envelope, registered_store, claimed_store, extended_store,
  sealed_store, committed_store, dead_store, replayed_store, answer_of, returned, all_run,
  no_registration, no_request, register_run, claim_run, heartbeat_run, claimed_Reach, whole_Reach,
}

Reach-IsSound_example : IsSound committed_store
Reach-IsSound_example = Reach-IsSound codec committed_store whole_Reach

Reach-IsPublished_example : IsPublished committed_store
Reach-IsPublished_example = Reach-IsPublished codec committed_store whole_Reach

Reach-keeps_published_example :
    ((w : Work)
      → is_succeeded w.status ≡ true
      → In w committed_store.work
      → In w committed_store.work)
    × ((p : Publication) → In p committed_store.publications → In p committed_store.publications)
Reach-keeps_published_example = Reach-keeps_published codec committed_store committed_store (
    next here (
      commit_step "batch-1" 50
        (commit_batch-commit_batch "batch-1" 40 50 sealed_store committed_store (1 ∷ [])
          all_run.4).0
        (commit_batch-commit_batch "batch-1" 40 50 sealed_store committed_store (1 ∷ [])
          all_run.4).1))

abbrev registered_row : Work
registered_row = new_work codec 10 request

registered_In : In registered_row registered_store.work
unfolding register check_request required_text is_blank positive ◌>>=◌ require find register_row
registered_In = inl refl

Reach-IsLater_example : (w : Work) × In w claimed_store.work × IsLater registered_row w
Reach-IsLater_example =
    Reach-IsLater codec registered_store claimed_store registered_row
      (next here (claim_step 20 ids args _ claim_run)) registered_In

recover-IsRecovery_example :
    (t : Store) × (r : RecoveryReport) × (recover 1000 claimed_store ≡ ok (t, r))
    × IsRecovery 1000 claimed_store t r
recover-IsRecovery_example =
    recover-IsRecovery 1000 claimed_store (Reach-IsSound codec claimed_store claimed_Reach)

claim-ClaimOutcome_example :
    ClaimOutcome 20 args registered_store
      (claimed_store, answer_of none (claim codec 20 ids args registered_store))
claim-ClaimOutcome_example = claim-ClaimOutcome codec 20 ids args registered_store _ claim_run

heartbeat_process-IsExtended_example : IsExtended 900 25 envelope claimed_store extended_store
heartbeat_process-IsExtended_example =
    heartbeat_process-IsExtended 900 25 envelope claimed_store extended_store heartbeat_run

register-register_example :
    (register codec 99 request registered_store
      ≡ ok (registered_store, answer_of no_registration (register codec 10 request empty)))
    × (get_work "camera-1" registered_store
        ≡ ok (answer_of no_registration (register codec 10 request empty)))
register-register_example =
    register-register codec 10 99 request empty registered_store _ register_run

commit_batch-commit_batch_example :
    (ms : List ℕ) × (commit_batch "batch-1" 50 committed_store ≡ ok (committed_store, ms))
    × IsSequences "batch-1" committed_store ms
    × All (λ n. In n ms) (1 ∷ [])
commit_batch-commit_batch_example =
    commit_batch-commit_batch "batch-1" 40 50 sealed_store committed_store (1 ∷ []) all_run.4

replay-replay_example :
    replay codec "camera-1" "ana" "camera was repaired" 2 1500 replayed_store
    ≡ ok (
      replayed_store,
      answer_of no_request (replay codec "camera-1" "ana" "camera was repaired" 2 1001 dead_store),
    )
replay-replay_example =
    replay-replay codec "camera-1" "ana" "camera was repaired" 2 1001 1500 dead_store replayed_store
      _ (returned no_request _ all_run.5)

abbrev settings : Settings
settings = record {
  speed = 1000;
  factor = 2000;
  margin = 5;
  worker_limit = 1;
  profile_name = "one";
}

largest_admissible_prefix_lem_example :
    ((n : ℕ) × (largest_admissible_prefix settings 200 1 (registered_row ∷ registered_row ∷ [])
        ≡ ok (take n (registered_row ∷ registered_row ∷ [])))
      × IsLargest settings 200 (registered_row ∷ registered_row ∷ []) 1 1 n)
    ⊎ ((largest_admissible_prefix settings 200 1 (registered_row ∷ registered_row ∷ [])
          ≡ err lease_budget)
        × (fits settings 200 (take 1 (registered_row ∷ registered_row ∷ [])) ≡ false))
largest_admissible_prefix_lem_example =
    largest_admissible_prefix_lem settings 200 (registered_row ∷ registered_row ∷ []) 1
      (omega arith)

abbrev legacy : Settings
legacy = record {
  speed = 1000;
  factor = 2000;
  margin = 5;
  worker_limit = 1;
  profile_name = "legacy-single-worker";
}

legacy_settled : claim_admission_settings args.admission ≡ ok legacy
unfolding claim_admission_settings positive ◌>>=◌
legacy_settled = refl

registered_fits : fits legacy 600 (registered_row ∷ []) ≡ true
unfolding fits projection lpt_makespan new_work
registered_fits = refl

fits-within_lease_example :
    All
      (λ w. w.duration_seconds * legacy.factor + legacy.margin * legacy.speed < 600 * legacy.speed)
      (registered_row ∷ [])
fits-within_lease_example =
    fits-within_lease args.admission legacy 600 (registered_row ∷ []) legacy_settled (omega arith)
      registered_fits
