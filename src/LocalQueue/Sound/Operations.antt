-- ===== src/LocalQueue/Sound/Operations.antt =====
-- Each operation of the local queue keeps the invariant, and the terminal messages.
use people_counter.Prelude.{
  ℕ, ◌≡◌, refl, String, true, false, Option, none, some, List, [], ◌∷◌, arith, leb, Returns,
  Returns-ok, Returns-err, Returns-require, Returns-if, Returns-bind,
}
use people_counter.Prelude.Rows.{find}
use people_counter.Prelude.Texts.{is_blank, strip}
use people_counter.Prelude.Membership.{All-In, find-In}
use people_counter.LocalQueue.{
  Action, Message, State, is_locked, spent, unlocked, lock_expired, recover_expired,
}
use people_counter.LocalQueue.Lock.{live, renewed, renew_one, renew, renew_all, renew_many}
use people_counter.LocalQueue.Finish.{
  Outcome, final_state, finalized, has_token, finalize_row, finalize_one, finalize_all, finalize,
}
use people_counter.LocalQueue.Sound.{IsSoundMessage, IsSound, is_terminal, Kept}
use people_counter.LocalQueue.Sound.Writes.{opt_is-some, update-Kept, unique_cleared, unique_kept}

abbrev pub KeptFirst {ℓ} : {A : Type ℓ} → List Message → List Message × A → Type 0
KeptFirst q p = Kept q p.0

pub Kept-refl : (q : List Message) → IsSound q → Kept q q
Kept-refl q h = record { sound = h; terminal = λ m e k. k }

pub Kept-trans : (q r s : List Message) → Kept q r → Kept r s → Kept q s
Kept-trans q r s h k = record {
  sound = k.sound;
  terminal = λ m e i. k.terminal m e (h.terminal m e i);
}

unlocked-IsSoundMessage :
    (now : ℕ) (m : Message)
    → IsSoundMessage m
    → lock_expired now m ≡ true
    → IsSoundMessage (unlocked now m) × (is_terminal m ≡ false)
unfolding unlocked spent
unlocked-IsSoundMessage now m h e = ground arith

pub recover_expired-Kept :
    (now : ℕ) (q : List Message) → IsSound q → Kept q (recover_expired now q).0
unfolding recover_expired
recover_expired-Kept now q h =
    update-Kept (lock_expired now) (unlocked now) q (λ m. unfold unlocked in refl)
      (λ m. unfold unlocked in refl) (λ m _ k e. unlocked-IsSoundMessage now m k e)
      (unique_cleared _ _ q (λ m. unfold unlocked in refl) h.tokens) h

renewed-IsSoundMessage :
    (expires now : ℕ) (token : String) (m : Message)
    → IsSoundMessage m
    → live token now m ≡ true
    → IsSoundMessage (renewed expires now m) × (is_terminal m ≡ false)
unfolding renewed
renewed-IsSoundMessage expires now token m h e = ground arith

renew_one-Kept :
    (token : String) (expires now : ℕ) (q : List Message)
    → IsSound q
    → Returns (Kept q) (renew_one token expires now q)
unfolding renew_one renewed
renew_one-Kept token expires now q h = Returns-require _ _ _ λ _. Returns-ok _ (
    update-Kept (live token now) (renewed expires now) q (λ m. refl) (λ m. refl)
      (λ m _ k e. renewed-IsSoundMessage expires now token m k e)
      (unique_kept _ _ q (λ m. refl) h.tokens) h)

pub renew-Kept :
    (token : String) (lock_seconds now : ℕ) (q : List Message)
    → IsSound q
    → Returns (KeptFirst {A = ℕ} q) (renew token lock_seconds now q)
unfolding renew
renew-Kept token lock_seconds now q h = Returns-bind _ _ λ t _.
    Returns-bind _ _
      λ lease _. Returns-bind _ _ λ r e. Returns-ok _ ((renew_one-Kept t _ now q h).at r e)

renew_all-Kept :
    (ts : List String) (expires now : ℕ) (q : List Message)
    → IsSound q
    → Returns (Kept q) (renew_all ts expires now q)
unfolding renew_all
renew_all-Kept [] expires now q h = Returns-ok q (Kept-refl q h)
renew_all-Kept (t ∷ ts) expires now q h = Returns-bind (renew_one t expires now q) _ λ r e.
    let k = (renew_one-Kept t expires now q h).at r e in
    record { at = λ s i. Kept-trans q r s k ((renew_all-Kept ts expires now r k.sound).at s i) }

pub renew_many-Kept :
    (ts : List String) (lock_seconds now : ℕ) (q : List Message)
    → IsSound q
    → Returns (KeptFirst {A = ℕ} q) (renew_many ts lock_seconds now q)
unfolding renew_many
renew_many-Kept [] lock_seconds now q h = Returns-err _
renew_many-Kept (t ∷ ts) lock_seconds now q h = Returns-bind _ _ λ tokens _.
    Returns-require _ _ _ λ _.
      Returns-bind _ _
        λ lease _. Returns-bind _ _ λ r e. Returns-ok _ ((renew_all-Kept tokens _ now q h).at r e)

final_state-IsSoundMessage :
    (a : Action) (reason : Option String) (now delay : ℕ) (m : Message)
    → IsSoundMessage m
    → is_locked m.state ≡ true
    → Returns
        (λ f. IsSoundMessage (finalized f now m))
        (final_state a reason m.delivery_count m.max_delivery_count now delay)
unfolding final_state finalized
final_state-IsSoundMessage Action.complete reason now delay m h e = Returns-ok _ (ground arith)
final_state-IsSoundMessage Action.dead_letter none now delay m h e = Returns-err _
final_state-IsSoundMessage Action.dead_letter (some r) now delay m h e =
    Returns-if (is_blank r) _ _ (λ _. Returns-err _)
      (λ _.
        Returns-ok
          (record { state = State.dead; dead_letter_reason = some (strip r); available_at = now })
          (ground arith))
final_state-IsSoundMessage Action.abandon reason now delay m h e =
    Returns-if (leb m.max_delivery_count m.delivery_count) _ _ (λ n. Returns-ok _ (ground arith))
      (λ n. Returns-ok _ (ground arith))

finalize_row-Kept :
    (token : String) (o : Outcome) (delay now : ℕ) (f : Option Message) (q : List Message)
    → find (live token now) q ≡ f
    → IsSound q
    → Returns (Kept q) (finalize_row token o delay now f q)
unfolding finalize_row
finalize_row-Kept token o delay now none q e h = Returns-err _
finalize_row-Kept token o delay now (some m) q e h =
    let (k, t) = find-In (live token now) m q e in
    let locked : is_locked m.state ≡ true = ground arith in
    let own : m.lock_token ≡ some token = opt_is-some m.lock_token token (ground arith) in
    Returns-bind _ _ λ f i. Returns-ok _ (
      let good =
        (final_state-IsSoundMessage o.action o.reason now delay m (All-In _ q m h.rows k) locked).at
          f i in
      update-Kept (has_token token) (finalized f now) q (λ v. unfold finalized in refl)
        (λ v. unfold finalized in refl)
        (λ v j s c.
          let same : m ≡ v = h.tokens m v token k j own (opt_is-some v.lock_token token c) in
          (rw same at good, rw same at (not_terminal m locked)))
        (unique_cleared _ _ q (λ v. unfold finalized in refl) h.tokens) h)
  where
    not_terminal : (m : Message) → is_locked m.state ≡ true → is_terminal m ≡ false
    not_terminal m l = ground arith

finalize_all-Kept :
    (os : List Outcome) (delay now : ℕ) (q : List Message)
    → IsSound q
    → Returns (Kept q) (finalize_all os delay now q)
unfolding finalize_all finalize_one
finalize_all-Kept [] delay now q h = Returns-ok q (Kept-refl q h)
finalize_all-Kept (o ∷ os) delay now q h = Returns-bind (finalize_one o delay now q) _ λ r e.
    let k = one.at r e in
    record { at = λ s i. Kept-trans q r s k ((finalize_all-Kept os delay now r k.sound).at s i) }
  where
    one : Returns (Kept q) (finalize_one o delay now q)
    one = Returns-bind _ _ λ token _. finalize_row-Kept token o delay now _ q refl h

pub finalize-Kept :
    (os : List Outcome) (delay_seconds now : ℕ) (q : List Message)
    → IsSound q
    → Returns (Kept q) (finalize os delay_seconds now q)
unfolding finalize
finalize-Kept [] delay_seconds now q h = Returns-ok q (Kept-refl q h)
finalize-Kept (o ∷ os) delay_seconds now q h =
    Returns-bind _ _ λ delay _. finalize_all-Kept (o ∷ os) delay now q h
