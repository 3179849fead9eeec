-- ===== src/Events/Again/Release.antt =====
-- A release planned again: after a crash between its two writes, and once both are made.
use people_counter.Prelude.{
  ℕ, ◌≤◌, ◌≡◌, refl, ◌∙◌, String, Bool, true, false, ◌&&◌, ◌||◌, some, arith, ◌⊎◌, inl, inr, leb,
  leb→le, le→leb, ok, ◌>>=◌, require, Returns, Returns-ok, Returns-require, Returns-if,
  Returns-bind,
}
use people_counter.Prelude.Rows.{every}
use people_counter.Events.{
  Value, null, text, time, number, same, Row, lookup, assign, matches, is_null, is_since, is_active,
  active_index, Command, Plan, no_change, owner,
}
use people_counter.Events.Planning.{
  plan_release, release_work, release_attempt, release_applied, release_live,
}
use people_counter.Events.Updates.{same_refl, matches-assign, distinct_columns}
use people_counter.Events.Again.Parts.{
  Leaves, assign-Leaves, assign-lookup, KeepsWork, KeepsAttempt, nil-KeepsWork, nil-KeepsAttempt,
}
use people_counter.Events.Again.Failure.{assign-nil, owner-assign, not_active}
use people_counter.Events.Owned.{IsOwner, owner-IsOwner, release_times}

module _ (c : Command) (reason : String) where
  pub release_attempt-KeepsAttempt : KeepsAttempt (release_attempt c reason)
  unfolding release_attempt lookup
  release_attempt-KeepsAttempt = record {
    work_id = refl;
    attempt_id = refl;
    capture_date = refl;
    config_sha256 = refl;
    execution = refl;
  }

  pub release_work-KeepsWork : (work : Row) → KeepsWork (release_work c work)
  unfolding release_work lookup
  release_work-KeepsWork work = record { work_id = refl; capture_date = refl; config_sha256 = refl }

  release_attempt-Leaves :
      Leaves (release_attempt c reason) "dispatcher_id"
      × Leaves (release_attempt c reason) "inference_started_at"
  unfolding release_attempt lookup
  release_attempt-Leaves = (refl, refl)

  release_attempt-matches :
      (attempt : Row)
      → matches (assign attempt (release_attempt c reason)) (release_attempt c reason) ≡ true
  release_attempt-matches attempt = matches-assign attempt (release_attempt c reason) distinct
    where
      distinct : distinct_columns (release_attempt c reason) ≡ true
      distinct = unfold release_attempt distinct_columns every in refl

  release_work-applied : (work : Row) → release_applied c (assign work (release_work c work)) ≡ true
  unfolding release_applied release_work assign lookup
  release_work-applied work = same_refl (time c.created_at)

  -- What a planned release has checked, when it changes something.
  record ReleasesFresh (work attempt : Row) (now : ℕ) (p : Plan) : Type 0 where
    planned : p ≡ record { work = release_work c work; attempt = release_attempt c reason }
    owned : owner c work attempt ≡ ok tt
    past : leb c.created_at now ≡ true
    acquired : is_since (work "lease_acquired_at") c.created_at ≡ true
    leased : same (work "status") (text "LEASED") ≡ true
    unstarted : is_null (attempt "inference_started_at") ≡ true

  record ReleasesDone (work attempt : Row) (p : Plan) : Type 0 where
    planned : p ≡ no_change
    applied : (matches attempt (release_attempt c reason) && release_applied c work) ≡ true

  plan_release_cases :
      (work attempt : Row) (now : ℕ)
      → Returns
          (λ p. ReleasesDone work attempt p ⊎ ReleasesFresh work attempt now p)
          (plan_release c reason work attempt now)
  unfolding plan_release
  plan_release_cases work attempt now =
      Returns-if (matches attempt (release_attempt c reason) && release_applied c work) _ _
        (λ m. Returns-ok _ (inl (record { planned = refl; applied = m })))
        λ _. Returns-bind (owner c work attempt) _ λ _ o.
          Returns-bind (release_live c (matches attempt (release_attempt c reason)) work now) _
            λ _ l. Returns-require _ _ _ λ leased. Returns-require _ _ _ λ _.
              Returns-require _ _ _ λ unstarted.
                let (past, acquired) = (release_times c _ work now).at tt l in
                Returns-ok _ (
                  inr (record {
                    planned = refl;
                    owned = o;
                    past = past;
                    acquired = acquired;
                    leased = leased;
                    unstarted = unstarted;
                  }))

  plan_release-done :
      (work attempt : Row) (now : ℕ)
      → (matches attempt (release_attempt c reason) && release_applied c work) ≡ true
      → plan_release c reason work attempt now ≡ ok no_change
  unfolding plan_release
  plan_release-done work attempt now h = rw h refl

  -- A release whose updates are in the rows has nothing left to write.
  pub plan_release-again :
      (work attempt : Row) (now later : ℕ) (p : Plan)
      → plan_release c reason work attempt now ≡ ok p
      → plan_release c reason (assign work p.work) (assign attempt p.attempt) later ≡ ok no_change
  plan_release-again work attempt now later p e =
      elim ((plan_release_cases work attempt now).at p e) [
        | inl d ↦
            rw (d.planned, assign-nil work, assign-nil attempt)
              (plan_release-done work attempt later d.applied)
        | inr d ↦ rw d.planned (
            plan_release-done (assign work (release_work c work))
              (assign attempt (release_attempt c reason)) later
              (rw (release_attempt-matches attempt, release_work-applied work) refl))
      ]

  owned-applied : (work attempt : Row) → IsOwner c work attempt → release_applied c work ≡ false
  unfolding release_applied
  owned-applied work attempt o =
      let owned = held (work "lease_owner_attempt_id") o.holder in ground arith
    where
      held : (v : Value) → same v (text c.attempt_id) ≡ true → is_null v ≡ false
      held null h = cc
      held (text s) h = refl
      held (time n) h = refl
      held (number n) h = refl
      held (Value.flag b) h = refl

  plan_release-fresh :
      (work attempt : Row) (now : ℕ)
      → release_applied c work ≡ false
      → matches attempt (release_attempt c reason) ≡ true
      → owner c work attempt ≡ ok tt
      → leb c.created_at now ≡ true
      → is_since (work "lease_acquired_at") c.created_at ≡ true
      → same (work "status") (text "LEASED") ≡ true
      → is_null (attempt "inference_started_at") ≡ true
      → plan_release c reason work attempt now
        ≡ ok (record { work = release_work c work; attempt = release_attempt c reason })
  unfolding plan_release release_live ◌>>=◌ require
  plan_release-fresh work attempt now a m o past acquired leased unstarted =
      rw
        (
          m,
          a,
          o,
          past,
          acquired,
          leased,
          unstarted,
          or_true (same (attempt "status") (text "LEASED")),
        )
        refl
    where
      or_true : (b : Bool) → (b || true) ≡ true
      or_true b = ground arith

  -- After a crash between the two writes of a release, the release is planned as before.
  pub plan_release-resumes :
      (work attempt : Row) (now later : ℕ) (p : Plan)
      → now ≤ later
      → plan_release c reason work attempt now ≡ ok p
      → plan_release c reason work (assign attempt p.attempt) later ≡ ok p
  plan_release-resumes work attempt now later p h e =
      elim ((plan_release_cases work attempt now).at p e) [
        | inl d ↦
            rw (d.planned, assign-nil attempt) (plan_release-done work attempt later d.applied)
        | inr d ↦
            let vs = release_attempt c reason in
            let (dispatcher, started) = release_attempt-Leaves in
            rw d.planned (
              plan_release-fresh work (assign attempt vs) later
                (owned-applied work attempt ((owner-IsOwner c work attempt).at tt d.owned))
                (release_attempt-matches attempt)
                (owner-assign c work attempt vs dispatcher ∙ d.owned)
                (le→leb _ _ (le_later (leb→le _ _ d.past))) d.acquired d.leased
                (rw (assign-Leaves attempt vs "inference_started_at" started) d.unstarted))
      ]
    where
      le_later : c.created_at ≤ now → c.created_at ≤ later
      le_later k = omega arith

  pub plan_release-Keeps :
      (work attempt : Row) (now : ℕ) (p : Plan)
      → plan_release c reason work attempt now ≡ ok p
      → KeepsWork p.work × KeepsAttempt p.attempt
  plan_release-Keeps work attempt now p e = elim ((plan_release_cases work attempt now).at p e) [
    | inl d ↦ rw d.planned (nil-KeepsWork, nil-KeepsAttempt)
    | inr d ↦ rw d.planned (release_work-KeepsWork work, release_attempt-KeepsAttempt)
  ]

  applied_status :
      (row other : Row)
      → (matches other (release_attempt c reason) && release_applied c row) ≡ true
      → same (row "status") (text "RETRY_WAIT") ≡ true
  unfolding release_applied
  applied_status row other h = ground arith

  -- Once a release is planned and written, the work is not active.
  pub plan_release-inactive :
      (work attempt : Row) (now : ℕ) (p : Plan)
      → plan_release c reason work attempt now ≡ ok p
      → is_active (assign work p.work "status") ≡ false
  plan_release-inactive work attempt now p e = elim ((plan_release_cases work attempt now).at p e) [
    | inl d ↦
        rw (d.planned, assign-nil work)
          (not_active (work "status") "RETRY_WAIT" (applied_status work attempt d.applied) waiting)
    | inr d ↦
        rw (d.planned, assign-lookup work (release_work c work) "status" (status_of work)) waiting
  ]
    where
      waiting : is_active (text "RETRY_WAIT") ≡ false
      waiting = unfold is_active active_index in refl

      status_of : (row : Row) → lookup "status" (release_work c row) ≡ some (text "RETRY_WAIT")
      status_of row = unfold release_work lookup in refl
