-- ===== src/Events/Owned.antt =====
-- A command changes rows only for the attempt that owns the lease of the work.
use people_counter.Prelude.{
  ℕ, ◌≤◌, ◌≡◌, refl, max, String, Bool, true, false, ◌&&◌, List, ◌⊎◌, inl, inr, leb, leb→le, ok,
  Returns, Returns-ok, Returns-require, Returns-if, Returns-bind, Returns-check,
}
use people_counter.Events.{
  text, same, Row, Entry, is_null, is_after, is_since, is_active, Kind, claim_execution, commit,
  heartbeat, attempt_update, failure, release, Failure, Command, Plan, no_change, identity, owner,
  live, transition, matches,
}
use people_counter.Events.Planning.{
  plan_heartbeat, plan_update, update_succeeded, update_active, plan_commit, plan_failure,
  plan_release, release_live, plan_claim, plan_kind, heartbeat_work, heartbeat_attempt,
  failure_work, failure_attempt, release_attempt, release_applied, plan,
}

-- The attempt of the command owns the lease of a work that is active and not committed.
pub record IsOwner (c : Command) (work attempt : Row) : Type 0 where
  pub uncommitted : is_null (work "committed_attempt_id") ≡ true
  pub holder : same (work "lease_owner_attempt_id") (text c.attempt_id) ≡ true
  pub dispatcher : same (work "lease_dispatcher_id") (attempt "dispatcher_id") ≡ true
  pub active : is_active (work "status") ≡ true

pub owner-IsOwner :
    (c : Command) (work attempt : Row)
    → Returns (λ _. IsOwner c work attempt) (owner c work attempt)
unfolding owner
owner-IsOwner c work attempt = Returns-require _ _ _ λ a. Returns-require _ _ _ λ b.
    Returns-require _ _ _
      λ d. Returns-check _ _ λ e. record { uncommitted = a; holder = b; dispatcher = d; active = e }

-- The lease reaches beyond now and the command, which is not of the future nor older than the lease.
pub record IsLive (c : Command) (work : Row) (now : ℕ) : Type 0 where
  pub unexpired : is_after (work "lease_expires_at") (max now c.created_at) ≡ true
  pub acquired : is_since (work "lease_acquired_at") c.created_at ≡ true
  pub past : leb c.created_at now ≡ true

pub live-IsLive :
    (c : Command) (work : Row) (now : ℕ) → Returns (λ _. IsLive c work now) (live c work now)
unfolding live
live-IsLive c work now = Returns-require _ _ _ λ a.
    Returns-require _ _ _
      λ b. Returns-check _ _ λ d. record { unexpired = a; acquired = b; past = d }

-- The commands that give work back, which an expired lease does not refuse.
abbrev pub gives_back : Kind → Bool
gives_back (failure f) = true
gives_back (release reason) = true
gives_back _ = false

-- The command may change rows: its attempt owns the lease, it is no older than the lease and not of
-- the future, and unless it gives the work back the lease has not expired.
pub record IsAllowed (c : Command) (k : Kind) (work attempt : Row) (now : ℕ) : Type 0 where
  pub owned : IsOwner c work attempt
  pub acquired : is_since (work "lease_acquired_at") c.created_at ≡ true
  pub past : c.created_at ≤ now
  pub live : gives_back k ≡ false → is_after (work "lease_expires_at") (max now c.created_at) ≡ true

allowed :
    (c : Command) (k : Kind) (work attempt : Row) (now : ℕ)
    → IsOwner c work attempt
    → IsLive c work now
    → IsAllowed c k work attempt now
allowed c k work attempt now o l = record {
  owned = o;
  acquired = l.acquired;
  past = leb→le _ _ l.past;
  live = λ _. l.unexpired;
}

abbrev Outcome : Command → Kind → Row → Row → ℕ → Plan → Type 0
Outcome c k work attempt now p = (p ≡ no_change) ⊎ IsAllowed c k work attempt now

plan_heartbeat-Outcome :
    (c : Command) (k : Kind) (status : String) (us : List Entry) (work attempt : Row) (now : ℕ)
    → IsOwner c work attempt
    → Returns (Outcome c k work attempt now) (plan_heartbeat c status us work attempt now)
unfolding plan_heartbeat
plan_heartbeat-Outcome c k status us work attempt now o =
    Returns-if
      (matches work (heartbeat_work c status work)
        && matches attempt (heartbeat_attempt c status us))
      _ _ (λ _. Returns-ok _ (inl refl))
      λ _. Returns-bind (live c work now) _ λ _ l.
        Returns-bind (transition (work "status") (text status)) _ λ _ _.
          Returns-bind (transition (attempt "status") (text status)) _ λ _ _.
            Returns-require _ _ _ λ _. Returns-require _ _ _ λ _.
              Returns-ok _ (inr (allowed c k work attempt now o ((live-IsLive c work now).at tt l)))

plan_update-Outcome :
    (c : Command) (k : Kind) (us : List Entry) (work attempt : Row) (now : ℕ)
    → IsOwner c work attempt
    → Returns (Outcome c k work attempt now) (plan_update c us work attempt now)
unfolding plan_update update_succeeded update_active
plan_update-Outcome c k us work attempt now o =
    Returns-if (same (attempt "status") (text "SUCCEEDED")) _ _
      (λ _. Returns-require _ _ _ λ _. Returns-ok _ (inl refl))
      λ _. Returns-bind (live c work now) _ λ _ l. Returns-require _ _ _ λ _.
        Returns-require _ _ _ λ _. Returns-require _ _ _ λ _.
          Returns-ok _ (inr (allowed c k work attempt now o ((live-IsLive c work now).at tt l)))

plan_commit-Outcome :
    (c : Command) (k : Kind) (work attempt : Row) (now : ℕ)
    → Returns (Outcome c k work attempt now) (plan_commit c work attempt now)
unfolding plan_commit
plan_commit-Outcome c k work attempt now = Returns-require _ _ _ λ _.
    Returns-if
      (same (work "status") (text "SUCCEEDED")
        && same (work "committed_attempt_id") (text c.attempt_id))
      _ _ (λ _. Returns-ok _ (inl refl))
      λ _. Returns-bind (owner c work attempt) _ λ _ o. Returns-bind (live c work now) _ λ _ l.
        Returns-require _ _ _ λ _. Returns-ok _ (
          inr (
            allowed c k work attempt now ((owner-IsOwner c work attempt).at tt o)
              ((live-IsLive c work now).at tt l)))

plan_failure-Outcome :
    (c : Command) (f g : Failure) (work attempt : Row) (now : ℕ)
    → Returns (Outcome c (failure g) work attempt now) (plan_failure c f work attempt now)
unfolding plan_failure
plan_failure-Outcome c f g work attempt now = Returns-require _ _ _ λ _.
    Returns-if (matches work (failure_work c f work) && matches attempt (failure_attempt c f work))
      _ _ (λ _. Returns-ok _ (inl refl))
      λ _. Returns-bind (owner c work attempt) _ λ _ o. Returns-require _ _ _ λ past.
        Returns-require _ _ _ λ acquired. Returns-require _ _ _ λ _. Returns-ok _ (
          inr (record {
            owned = (owner-IsOwner c work attempt).at tt o;
            acquired = acquired;
            past = leb→le _ _ past;
            live = λ q. absurd (true_false q);
          }))
  where
    true_false : true ≡ false → ⊥
    true_false q = cc

-- What the check of the times keeps, whether the attempt is released or not.
pub release_times :
    (c : Command) (b : Bool) (work : Row) (now : ℕ)
    → Returns
        (λ _.
          (leb c.created_at now ≡ true) × (is_since (work "lease_acquired_at") c.created_at ≡ true))
        (release_live c b work now)
unfolding release_live
release_times c false work now = record {
  at = λ _ l. let k = (live-IsLive c work now).at tt l in (k.past, k.acquired);
}
release_times c true work now = Returns-require _ _ _ λ a. Returns-check _ _ λ b. (a, b)

plan_release-Outcome :
    (c : Command) (reason why : String) (work attempt : Row) (now : ℕ)
    → Returns (Outcome c (release why) work attempt now) (plan_release c reason work attempt now)
unfolding plan_release
plan_release-Outcome c reason why work attempt now =
    Returns-if (matches attempt (release_attempt c reason) && release_applied c work) _ _
      (λ _. Returns-ok _ (inl refl))
      λ _. Returns-bind (owner c work attempt) _ λ _ o.
        Returns-bind (release_live c (matches attempt (release_attempt c reason)) work now) _ λ _ l.
          Returns-require _ _ _ λ _. Returns-require _ _ _ λ _. Returns-require _ _ _ λ _.
            let (past, acquired) = (release_times c _ work now).at tt l in
            Returns-ok _ (
              inr (record {
                owned = (owner-IsOwner c work attempt).at tt o;
                acquired = acquired;
                past = leb→le _ _ past;
                live = λ q. absurd (true_false q);
              }))
  where
    true_false : true ≡ false → ⊥
    true_false q = cc

plan_claim-Outcome :
    (c : Command) (k : Kind) (work attempt : Row) (now : ℕ)
    → Returns (Outcome c k work attempt now) (plan_claim c work attempt now)
unfolding plan_claim
plan_claim-Outcome c k work attempt now = Returns-bind (owner c work attempt) _ λ _ o.
    Returns-bind (live c work now) _ λ _ l. Returns-require _ _ _ λ _. Returns-require _ _ _ λ _.
      Returns-ok _ (
        inr (
          allowed c k work attempt now ((owner-IsOwner c work attempt).at tt o)
            ((live-IsLive c work now).at tt l)))

plan_kind-Outcome :
    (k : Kind) (c : Command) (work attempt : Row) (now : ℕ)
    → Returns (Outcome c k work attempt now) (plan_kind k c work attempt now)
unfolding plan_kind
plan_kind-Outcome claim_execution c work attempt now =
    plan_claim-Outcome c claim_execution work attempt now
plan_kind-Outcome commit c work attempt now = plan_commit-Outcome c commit work attempt now
plan_kind-Outcome (failure f) c work attempt now = plan_failure-Outcome c f f work attempt now
plan_kind-Outcome (release r) c work attempt now = plan_release-Outcome c r r work attempt now
plan_kind-Outcome (heartbeat s us) c work attempt now = Returns-bind (owner c work attempt) _ λ _ o.
    plan_heartbeat-Outcome c (heartbeat s us) s us work attempt now
      ((owner-IsOwner c work attempt).at tt o)
plan_kind-Outcome (attempt_update us) c work attempt now =
    Returns-bind (owner c work attempt) _ λ _ o.
      plan_update-Outcome c (attempt_update us) us work attempt now
        ((owner-IsOwner c work attempt).at tt o)

plan-Outcome :
    (c : Command) (work attempt : Row) (now : ℕ)
    → Returns (Outcome c c.kind work attempt now) (plan c work attempt now)
unfolding plan
plan-Outcome c work attempt now =
    Returns-bind (identity c work attempt) _
      λ _ _. Returns-require _ _ _ λ _. plan_kind-Outcome c.kind c work attempt now

-- If a command is planned, then either it changes nothing, or its attempt owns the lease of a work that
-- is active and not committed, the command is neither older than the lease nor of the future, and,
-- unless it is a failure or a release, the lease ends after now and after the command.
pub plan-IsAllowed :
    (c : Command) (work attempt : Row) (now : ℕ) (p : Plan)
    → plan c work attempt now ≡ ok p
    → (p ≡ no_change) ⊎ IsAllowed c c.kind work attempt now
plan-IsAllowed c work attempt now p e = (plan-Outcome c work attempt now).at p e
