-- ===== src/Events/Again.antt =====
-- A command that ends an attempt may be planned again: after a crash between its two writes, and once
-- both are made.
mod Parts
mod Failure
mod Release
use people_counter.Prelude.{
  ℕ, ◌≤◌, ◌≡◌, refl, String, Bool, true, false, ◌&&◌, none, some, List, [], ◌∷◌, ◌⊎◌, inl, inr,
  Result, ok, rejected, ◌>>=◌, ◌>>◌, require, Returns, Returns-ok, Returns-require, Returns-if,
  Returns-bind, &&-true, if◌then◌else◌,
}
use people_counter.Events.{
  text, same, Row, Entry, lookup, assign, is_active, active_index, Kind, claim_execution, commit,
  heartbeat, attempt_update, failure, release, Command, Plan, no_change, owner, live,
}
use people_counter.Events.Planning.{plan_commit, commit_work, plan_kind, plan}
use people_counter.Events.Updates.{same_refl}
use people_counter.Events.Owned.{gives_back, IsOwner, IsAllowed, plan-IsAllowed}
use people_counter.Events.Again.Parts.{
  KeepsWork, KeepsAttempt, nil-KeepsWork, nil-KeepsAttempt, plan-assign, plan-plan_kind,
  assign-lookup,
}
use people_counter.Events.Again.Failure.{
  assign-nil, plan_failure-again, plan_failure-resumes, plan_failure-Keeps, plan_failure-inactive,
  not_active,
}
use people_counter.Events.Again.Release.{
  plan_release-again, plan_release-resumes, plan_release-Keeps, plan_release-inactive,
}

-- The commands that end an attempt.
abbrev pub ends : Kind → Bool
ends commit = true
ends (failure f) = true
ends (release reason) = true
ends _ = false

commit_work-KeepsWork : (c : Command) → KeepsWork (commit_work c)
unfolding commit_work lookup
commit_work-KeepsWork c = record { work_id = refl; capture_date = refl; config_sha256 = refl }

-- What a planned commit has checked.
record CommitsDone (c : Command) (work attempt : Row) (p : Plan) : Type 0 where
  planned : p ≡ no_change
  succeeded : same (attempt "status") (text "SUCCEEDED") ≡ true
  committed :
      (same (work "status") (text "SUCCEEDED")
        && same (work "committed_attempt_id") (text c.attempt_id))
      ≡ true

record CommitsFresh (c : Command) (attempt : Row) (p : Plan) : Type 0 where
  planned : p ≡ record { work = commit_work c; attempt = [] }
  succeeded : same (attempt "status") (text "SUCCEEDED") ≡ true

plan_commit_cases :
    (c : Command) (work attempt : Row) (now : ℕ)
    → Returns
        (λ p. CommitsDone c work attempt p ⊎ CommitsFresh c attempt p)
        (plan_commit c work attempt now)
unfolding plan_commit
plan_commit_cases c work attempt now = Returns-require _ _ _ λ succeeded.
    Returns-if
      (same (work "status") (text "SUCCEEDED")
        && same (work "committed_attempt_id") (text c.attempt_id))
      _ _
      (λ m. Returns-ok _ (inl (record { planned = refl; succeeded = succeeded; committed = m })))
      λ _. Returns-bind (owner c work attempt) _ λ _ _. Returns-bind (live c work now) _ λ _ _.
        Returns-require _ _ _
          λ _. Returns-ok _ (inr (record { planned = refl; succeeded = succeeded }))

plan_commit-done :
    (c : Command) (work attempt : Row) (now : ℕ)
    → same (attempt "status") (text "SUCCEEDED") ≡ true
    → (same (work "status") (text "SUCCEEDED")
        && same (work "committed_attempt_id") (text c.attempt_id))
      ≡ true
    → plan_commit c work attempt now ≡ ok no_change
unfolding plan_commit ◌>>=◌ require
plan_commit-done c work attempt now a b = rw (a, b) refl

committed-assign :
    (c : Command) (work : Row)
    → let row = assign work (commit_work c) in
      (same (row "status") (text "SUCCEEDED")
        && same (row "committed_attempt_id") (text c.attempt_id))
      ≡ true
unfolding commit_work assign lookup
committed-assign c work = same_refl (text c.attempt_id)

-- A plan of the kind leaves what is checked before it, and has nothing to write once it is written.
abbrev Settled : Kind → Command → Row → Row → ℕ → Plan → Type 0
Settled k c work attempt later p =
    KeepsWork p.work
    × KeepsAttempt p.attempt
    × (plan_kind k c (assign work p.work) (assign attempt p.attempt) later ≡ ok no_change)

plan_commit-Settled :
    (c : Command) (work attempt : Row) (now later : ℕ) (p : Plan)
    → plan_commit c work attempt now ≡ ok p
    → Settled commit c work attempt later p
unfolding plan_kind
plan_commit-Settled c work attempt now later p e =
    elim ((plan_commit_cases c work attempt now).at p e) [
      | inl d ↦
          rw (d.planned, assign-nil work, assign-nil attempt)
            (
              nil-KeepsWork,
              nil-KeepsAttempt,
              plan_commit-done c work attempt later d.succeeded d.committed,
            )
      | inr d ↦
          rw (d.planned, assign-nil attempt)
            (
              commit_work-KeepsWork c,
              nil-KeepsAttempt,
              plan_commit-done c (assign work (commit_work c)) attempt later d.succeeded
                  (committed-assign c work),
            )
    ]

plan_kind-Settled :
    (k : Kind) (c : Command) (work attempt : Row) (now later : ℕ) (p : Plan)
    → ends k ≡ true
    → plan_kind k c work attempt now ≡ ok p
    → Settled k c work attempt later p
unfolding plan_kind
plan_kind-Settled commit c work attempt now later p h e =
    plan_commit-Settled c work attempt now later p e
plan_kind-Settled (failure f) c work attempt now later p h e =
    let (a, b) = plan_failure-Keeps c f work attempt now p e in
    (a, b, plan_failure-again c f work attempt now later p e)
plan_kind-Settled (release r) c work attempt now later p h e =
    let (a, b) = plan_release-Keeps c r work attempt now p e in
    (a, b, plan_release-again c r work attempt now later p e)
plan_kind-Settled claim_execution c work attempt now later p h e = cc
plan_kind-Settled (heartbeat s us) c work attempt now later p h e = cc
plan_kind-Settled (attempt_update us) c work attempt now later p h e = cc

-- If a commit, a failure or a release is planned, then once its updates are in both rows the same
-- command, at any time, is planned again and has nothing left to write.
pub plan-plan :
    (c : Command) (work attempt : Row) (now later : ℕ) (p : Plan)
    → ends c.kind ≡ true
    → plan c work attempt now ≡ ok p
    → plan c (assign work p.work) (assign attempt p.attempt) later ≡ ok no_change
plan-plan c work attempt now later p h e =
    let (a, b, run) =
      plan_kind-Settled c.kind c work attempt now later p h
        (plan-plan_kind c work attempt now p e) in
    plan-assign c work attempt p.work p.attempt now later p no_change e a b run

plan_kind-resumes :
    (k : Kind) (c : Command) (work attempt : Row) (now later : ℕ) (p : Plan)
    → gives_back k ≡ true
    → now ≤ later
    → plan_kind k c work attempt now ≡ ok p
    → KeepsAttempt p.attempt × (plan_kind k c work (assign attempt p.attempt) later ≡ ok p)
unfolding plan_kind
plan_kind-resumes (failure f) c work attempt now later p h t e = (
  (plan_failure-Keeps c f work attempt now p e).1,
  plan_failure-resumes c f work attempt now later p t e,
)
plan_kind-resumes (release r) c work attempt now later p h t e = (
  (plan_release-Keeps c r work attempt now p e).1,
  plan_release-resumes c r work attempt now later p t e,
)
plan_kind-resumes commit c work attempt now later p h t e = cc
plan_kind-resumes claim_execution c work attempt now later p h t e = cc
plan_kind-resumes (heartbeat s us) c work attempt now later p h t e = cc
plan_kind-resumes (attempt_update us) c work attempt now later p h t e = cc

-- If a failure or a release is planned and a crash leaves the update of the attempt alone, then the
-- same command, at that time or later, is planned as before, with the update of the work still to
-- make.
pub plan-resumes :
    (c : Command) (work attempt : Row) (now later : ℕ) (p : Plan)
    → gives_back c.kind ≡ true
    → now ≤ later
    → plan c work attempt now ≡ ok p
    → plan c work (assign attempt p.attempt) later ≡ ok p
plan-resumes c work attempt now later p h t e =
    let (b, run) =
      plan_kind-resumes c.kind c work attempt now later p h t
        (plan-plan_kind c work attempt now p e) in
    rw (assign-nil work) at (
      plan-assign c work attempt [] p.attempt now later p p e nil-KeepsWork b
        (rw (assign-nil work) run))

plan_commit-inactive :
    (c : Command) (work attempt : Row) (now : ℕ) (p : Plan)
    → plan_commit c work attempt now ≡ ok p
    → is_active (assign work p.work "status") ≡ false
plan_commit-inactive c work attempt now p e = elim ((plan_commit_cases c work attempt now).at p e) [
  | inl d ↦
      rw (d.planned, assign-nil work)
        (not_active (work "status") "SUCCEEDED" (&&-true d.committed).0 done)
  | inr d ↦ rw (d.planned, assign-lookup work (commit_work c) "status" status_of) done
]
  where
    done : is_active (text "SUCCEEDED") ≡ false
    done = unfold is_active active_index in refl

    status_of : lookup "status" (commit_work c) ≡ some (text "SUCCEEDED")
    status_of = unfold commit_work lookup in refl

plan_kind-inactive :
    (k : Kind) (c : Command) (work attempt : Row) (now : ℕ) (p : Plan)
    → ends k ≡ true
    → plan_kind k c work attempt now ≡ ok p
    → is_active (assign work p.work "status") ≡ false
unfolding plan_kind
plan_kind-inactive commit c work attempt now p h e = plan_commit-inactive c work attempt now p e
plan_kind-inactive (failure f) c work attempt now p h e =
    plan_failure-inactive c f work attempt now p e
plan_kind-inactive (release r) c work attempt now p h e =
    plan_release-inactive c r work attempt now p e
plan_kind-inactive claim_execution c work attempt now p h e = cc
plan_kind-inactive (heartbeat s us) c work attempt now p h e = cc
plan_kind-inactive (attempt_update us) c work attempt now p h e = cc

-- If a commit, a failure or a release is planned and its update of the work is written, then any
-- command that is planned on that work afterwards, whatever its attempt's row and the time, changes
-- nothing.
pub plan-ends :
    (c d : Command) (work attempt other : Row) (now later : ℕ) (p q : Plan)
    → ends c.kind ≡ true
    → plan c work attempt now ≡ ok p
    → plan d (assign work p.work) other later ≡ ok q
    → q ≡ no_change
plan-ends c d work attempt other now later p q h e f =
    let over =
      plan_kind-inactive c.kind c work attempt now p h (plan-plan_kind c work attempt now p e) in
    elim (plan-IsAllowed d (assign work p.work) other later q f) [
      | inl r ↦ r
      | inr a ↦ absurd (clash a.owned.active over)
    ]
  where
    clash : {v : Bool} → v ≡ true → v ≡ false → ⊥
    clash x y = cc
