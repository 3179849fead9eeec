-- ===== src/LocalQueue/Finalized.antt =====
-- A finalized lock is gone.
use people_counter.Prelude.{
  ℕ, ◌≡◌, refl, String, false, Option, none, some, List, [], ◌∷◌, arith, All, ok, err, lease_lost,
  ◌>>=◌, require, Returns, Returns-ok, Returns-err, Returns-bind,
}
use people_counter.Prelude.Rows.{find, any, update, count}
use people_counter.Prelude.Membership.{In, All-In}
use people_counter.LocalQueue.{Message, stripped_text, bounded_seconds}
use people_counter.LocalQueue.Lock.{live, renew_one, renew}
use people_counter.LocalQueue.Finish.{
  Outcome, Final, finalized, has_token, finalize_row, finalize_one, finalize_all, finalize,
}

-- The token of the outcome is a text, and no row has it.
abbrev IsGone : List Message → Outcome → Type 0
IsGone q o = (t : String) × (stripped_text o.lock_token ≡ ok t) × (any (has_token t) q ≡ false)

none_left :
    (t : String) (f : Final) (now : ℕ) (q : List Message)
    → any (has_token t) (update (has_token t) (finalized f now) q) ≡ false
unfolding any update finalized
none_left t f now [] = refl
none_left t f now (m ∷ q) = ground (arith, none_left t f now q)

still_gone :
    (t u : String) (f : Final) (now : ℕ) (q : List Message)
    → any (has_token t) q ≡ false
    → any (has_token t) (update (has_token u) (finalized f now) q) ≡ false
unfolding any update finalized
still_gone t u f now [] h = refl
still_gone t u f now (m ∷ q) h = ground (arith, still_gone t u f now q)

finalize_row-any :
    (t u : String) (o : Outcome) (delay now : ℕ) (f : Option Message) (q : List Message)
    → any (has_token t) q ≡ false
    → Returns (λ r. any (has_token t) r ≡ false) (finalize_row u o delay now f q)
unfolding finalize_row
finalize_row-any t u o delay now none q h = Returns-err _
finalize_row-any t u o delay now (some m) q h =
    Returns-bind _ _ λ f _. Returns-ok _ (still_gone t u f now q h)

finalize_row-gone :
    (t : String) (o : Outcome) (delay now : ℕ) (f : Option Message) (q : List Message)
    → Returns (λ r. any (has_token t) r ≡ false) (finalize_row t o delay now f q)
unfolding finalize_row
finalize_row-gone t o delay now none q = Returns-err _
finalize_row-gone t o delay now (some m) q =
    Returns-bind _ _ λ f _. Returns-ok _ (none_left t f now q)

finalize_all-keeps :
    (t : String) (os : List Outcome) (delay now : ℕ) (q : List Message)
    → any (has_token t) q ≡ false
    → Returns (λ r. any (has_token t) r ≡ false) (finalize_all os delay now q)
unfolding finalize_all finalize_one
finalize_all-keeps t [] delay now q h = Returns-ok q h
finalize_all-keeps t (o ∷ os) delay now q h =
    Returns-bind (finalize_one o delay now q) _
      λ r e. finalize_all-keeps t os delay now r (one.at r e)
  where
    one : Returns (λ r. any (has_token t) r ≡ false) (finalize_one o delay now q)
    one = Returns-bind _ _ λ u _. finalize_row-any t u o delay now (find (live u now) q) q h

finalize_one-IsGone :
    (o : Outcome) (delay now : ℕ) (q : List Message)
    → Returns (λ r. IsGone r o) (finalize_one o delay now q)
unfolding finalize_one
finalize_one-IsGone o delay now q = Returns-bind (stripped_text o.lock_token) _ λ t e. record {
  at = λ r h. (t, e, (finalize_row-gone t o delay now (find (live t now) q) q).at r h);
}

finalize_all-IsGone :
    (os : List Outcome) (delay now : ℕ) (q : List Message)
    → Returns (λ r. All (IsGone r) os) (finalize_all os delay now q)
unfolding finalize_all
finalize_all-IsGone [] delay now q = Returns-ok q tt
finalize_all-IsGone (o ∷ os) delay now q = Returns-bind (finalize_one o delay now q) _ λ r e.
    let (t, x, g) = (finalize_one-IsGone o delay now q).at r e in
    record {
      at = λ s h. (
        (t, x, (finalize_all-keeps t os delay now r g).at s h),
        (finalize_all-IsGone os delay now r).at s h,
      );
    }

finalize-IsGone :
    (os : List Outcome) (delay_seconds now : ℕ) (q : List Message)
    → Returns (λ r. All (IsGone r) os) (finalize os delay_seconds now q)
unfolding finalize
finalize-IsGone [] delay_seconds now q = Returns-ok q tt
finalize-IsGone (o ∷ os) delay_seconds now q =
    Returns-bind _ _ λ delay _. finalize_all-IsGone (o ∷ os) delay now q

none_live :
    (t : String) (now : ℕ) (q : List Message)
    → any (has_token t) q ≡ false
    → count (live t now) q ≡ 0
unfolding any count
none_live t now [] h = refl
none_live t now (m ∷ q) h = ground (arith, none_live t now q)

gone-renew :
    (o : Outcome) (lock_seconds later : ℕ) (r : List Message)
    → IsGone r o
    → bounded_seconds lock_seconds ≡ ok lock_seconds
    → renew o.lock_token lock_seconds later r ≡ err lease_lost
unfolding renew renew_one ◌>>=◌ require
gone-renew o lock later r (t, e, n) b = rw (e, b, none_live t later r n) refl

-- After a `finalize` that returns, each lock token that it was given is lost: to renew it, at any time and
-- for a number of seconds that is allowed, raises `LeaseLostError`.
pub finalize-renew :
    (os : List Outcome) (o : Outcome) (delay_seconds now lock_seconds later : ℕ)
    (q r : List Message)
    → finalize os delay_seconds now q ≡ ok r
    → In o os
    → bounded_seconds lock_seconds ≡ ok lock_seconds
    → renew o.lock_token lock_seconds later r ≡ err lease_lost
finalize-renew os o delay_seconds now lock_seconds later q r h m =
    gone-renew o lock_seconds later r
      (All-In (IsGone r) os o ((finalize-IsGone os delay_seconds now q).at r h) m)
