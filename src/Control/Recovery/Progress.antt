-- ===== src/Control/Recovery/Progress.antt =====
-- What a recovery writes to the rows of the work, of the attempts and of the batches, and that the loop
-- of `recover` makes progress towards it.
use people_counter.Prelude.{
  ℕ, ◌≡◌, refl, sym, ap, ◌∙◌, ◌⊎◌, inl, inr, String, Bool, true, false, ◌&&◌, Option, none, some,
  List, [], ◌∷◌, map, arith, All, eq_iff, is_some, opt_is, opt_leb, leb, ◌==◌, if◌then◌else◌,
  Bool-cases,
}
use people_counter.Prelude.Rows.{update, All-update, All-update_cases}
use people_counter.Prelude.Keys.{Distinct}
use people_counter.Prelude.Membership.{In, All-In}
use people_counter.Prelude.Unique.{In-Distinct}
use people_counter.Control.Tables.{
  Work, WorkStatus, is_leased, Attempt, AttemptStatus, attempt_active, Batch, BatchStatus,
  batch_active,
}
use people_counter.Control.Process.{owns}
use people_counter.Control.Commit.{
  outcome, released, or_empty, lease_expired, has_attempt_id, expire_attempt,
}
use people_counter.Control.Sound.{IsSoundRow}

-- The work is leased, and its lease ended at the time or before it.
abbrev pub has_expired : ℕ → Work → Bool
has_expired now w = is_leased w.status && opt_leb w.lease_expires_at now

-- No attempt is left.
abbrev pub is_used_up : Work → Bool
is_used_up w = leb w.max_attempts w.attempt_count

abbrev pub status_after : Work → WorkStatus
status_after w = if is_used_up w then WorkStatus.dead else WorkStatus.ready

-- The row after a recovery.
abbrev pub recovered : ℕ → Work → Work
recovered now w =
    if has_expired now w
    then record w {
      status = status_after w;
      available_at = now;
      lease_owner = none;
      lease_attempt_id = none;
      lease_expires_at = none;
      last_error = some "lease expired";
      updated_at = now;
    }
    else w

abbrev pub batch_has_expired : ℕ → Batch → Bool
batch_has_expired now b = batch_active b.status && leb b.lease_expires_at now

abbrev pub recovered_batch : ℕ → Batch → Batch
recovered_batch now b =
    if batch_has_expired now b then record b { status = BatchStatus.expired } else b

-- The attempt is the one of the row's lease.
abbrev pub is_leased_to : Option String → Attempt → Bool
is_leased_to none a = false
is_leased_to (some k) a = a.attempt_id == k

-- The attempt was active, and its work has been recovered.
abbrev pub IsExpiredFor : ℕ → Attempt → Attempt → Work → Type 0
IsExpiredFor now a c w =
    (has_expired now w ≡ true)
    × (is_leased_to w.lease_attempt_id a ≡ true)
    × (attempt_active a.status ≡ true)
    × (c ≡ record a { status = AttemptStatus.expired; recovery_outcome = some (status_after w) })

-- The attempt is unchanged, or it has expired with one of the rows.
abbrev pub AttemptAfter : ℕ → List Work → Attempt → Attempt → Type 0
AttemptAfter now work a c = (c ≡ a) ⊎ ((w : Work) × In w work × IsExpiredFor now a c w)

-- No attempt of the row's lease is active.
abbrev pub IsClosed : List Attempt → Work → Type 0
IsClosed attempts w =
    All (λ a. (is_leased_to w.lease_attempt_id a && attempt_active a.status) ≡ false) attempts

-- The rows of two lists are related one by one.
abbrev pub Pairs : {A : Type 0} → (A → A → Type 0) → List A → List A → Type 0
Pairs R [] [] = Unit {0}
Pairs R [] (y ∷ ys) = ⊥
Pairs R (x ∷ xs) [] = ⊥
Pairs R (x ∷ xs) (y ∷ ys) = R x y × Pairs R xs ys

module _ {A : Type 0} (R : A → A → Type 0) where
  pub Pairs-refl : ((x : A) → R x x) → (xs : List A) → Pairs R xs xs
  Pairs-refl h [] = tt
  Pairs-refl h (x ∷ xs) = (h x, Pairs-refl h xs)

  pub Pairs-update :
      (p : A → Bool) (f : A → A) (xs ys : List A)
      → ((x y : A) → In y ys → R x y → p y ≡ true → R x (f y))
      → Pairs R xs ys
      → Pairs R xs (update p f ys)
  unfolding update
  Pairs-update p f [] [] k h = tt
  Pairs-update p f [] (y ∷ ys) k h = absurd h
  Pairs-update p f (x ∷ xs) [] k h = absurd h
  Pairs-update p f (x ∷ xs) (y ∷ ys) k (r, h) =
      let rest = Pairs-update p f xs ys (λ u v m. k u v (inr m)) h in
      elim (Bool-cases (p y)) [ inl q ↦ rw q (k x y (inl refl) r q, rest) | inr q ↦ rw q (r, rest) ]

  pub Pairs-map :
      (g : A → A) (xs ys : List A)
      → ((x y : A) → In y ys → R x y → y ≡ g x)
      → Pairs R xs ys
      → ys ≡ map g xs
  Pairs-map g [] [] k h = refl
  Pairs-map g [] (y ∷ ys) k h = absurd h
  Pairs-map g (x ∷ xs) [] k h = absurd h
  Pairs-map g (x ∷ xs) (y ∷ ys) k (r, h) =
      let e : y ≡ g x = k x y (inl refl) r in
      let rest : ys ≡ map g xs = Pairs-map g xs ys (λ u v m. k u v (inr m)) h in rw (e, rest) refl

abbrev pub owned : Work → Work → Bool
owned w = owns w.work_id (or_empty w.lease_attempt_id) w.fence

opt_is_self : (o : Option String) → is_some o ≡ true → opt_is o (or_empty o) ≡ true
opt_is_self none h = cc
opt_is_self (some t) h = (eq_iff t t).1 refl

pub owned_self : (now : ℕ) (w : Work) → IsSoundRow w → lease_expired now w ≡ true → owned w w ≡ true
owned_self now w h e =
    grind (arith, eq_iff w.work_id w.work_id, h.attempt_shape, opt_is_self w.lease_attempt_id)

pub owned-id : (w v : Work) → owned w v ≡ true → v.work_id ≡ w.work_id
owned-id w v e = ground (arith, eq_iff v.work_id w.work_id)

-- A row that the loop has come to is as a recovery leaves it; the others are unchanged.
abbrev WorkStep : ℕ → Work → Work → Type 0
WorkStep now x v = (v ≡ x) ⊎ ((has_expired now x ≡ true) × (v ≡ recovered now x))

-- The loop has still to do the rows `ws`.
pub record IsProgress (now : ℕ) (before work : List Work) (old attempts : List Attempt)
    (ws : List Work) : Type 0 where
  pub origin : All (λ w. In w before) ws
  pub rows : Pairs (WorkStep now) before work
  pub leases : Pairs (AttemptAfter now before) old attempts
  pub closed : (w : Work) → In w before → has_expired now w ≡ true → In w ws ⊎ IsClosed attempts w

released-recovered :
    (now : ℕ) (w : Work)
    → has_expired now w ≡ true
    → released (outcome w.attempt_count w.max_attempts) "lease expired" now w ≡ recovered now w
unfolding released outcome
released-recovered now w h = rw h refl

recovered-has_expired :
    (now : ℕ) (x : Work) → has_expired now x ≡ true → has_expired now (recovered now x) ≡ false
recovered-has_expired now x h = rw h (no_lease (is_leased (status_after x)))
  where
    no_lease : (b : Bool) → (b && opt_leb none now) ≡ false
    no_lease b = ground arith

row_after :
    (now : ℕ) (w x v : Work)
    → has_expired now w ≡ true
    → v ≡ w
    → WorkStep now x v
    → WorkStep now x (released (outcome w.attempt_count w.max_attempts) "lease expired" now v)
row_after now w x v h same (inl q) = inr (
  rw (sym q ∙ same) h,
  ap (released (outcome w.attempt_count w.max_attempts) "lease expired" now) same
      ∙ released-recovered now w h
      ∙ ap (recovered now) (sym same ∙ q),
)
row_after now w x v h same (inr (e, q)) =
    absurd (both (ap (has_expired now) (sym same ∙ q) ∙ recovered-has_expired now x e) h)
  where
    both : {b : Bool} → b ≡ false → b ≡ true → ⊥
    both p r = cc

and_left : (a b : Bool) → (a && b) ≡ true → a ≡ true
and_left a b q = ground arith

and_right : (a b : Bool) → (a && b) ≡ true → b ≡ true
and_right a b q = ground arith

leased_to :
    (o : Option String) (a : Attempt)
    → is_some o ≡ true
    → has_attempt_id (or_empty o) a ≡ true
    → is_leased_to o a ≡ true
leased_to none a s h = cc
leased_to (some k) a s h = h

attempt_after :
    (now : ℕ) (before : List Work) (w : Work) (a c : Attempt)
    → In w before
    → has_expired now w ≡ true
    → is_some w.lease_attempt_id ≡ true
    → AttemptAfter now before a c
    → (has_attempt_id (or_empty w.lease_attempt_id) c && attempt_active c.status) ≡ true
    → AttemptAfter now before a (expire_attempt (outcome w.attempt_count w.max_attempts) c)
unfolding outcome
attempt_after now before w a c m h some_attempt (inl q) t = inr (
  w,
  m,
  (
    h,
    leased_to w.lease_attempt_id a some_attempt (and_left _ _ (active q t)),
    and_right _ _ (active q t),
    ap (expire_attempt (outcome w.attempt_count w.max_attempts)) q,
  ),
)
  where
    active :
        c ≡ a
        → (has_attempt_id (or_empty w.lease_attempt_id) c && attempt_active c.status) ≡ true
        → (has_attempt_id (or_empty w.lease_attempt_id) a && attempt_active a.status) ≡ true
    active e r = rw e at r
attempt_after now before w a c m h some_attempt (inr (v, n, (e, l, k, q))) t =
    absurd (inactive (and_right _ _ t))
  where
    inactive : attempt_active c.status ≡ true → ⊥
    inactive r = cc (rw q at r)

not_leased :
    (o : Option String) (a : Attempt) (b : Bool)
    → (has_attempt_id (or_empty o) a && b) ≡ false
    → (is_leased_to o a && b) ≡ false
not_leased none a b h = refl
not_leased (some k) a b h = h

never : (b : Bool) → (b && false) ≡ false
never b = ground arith

IsClosed-now :
    (w : Work) (status : WorkStatus) (attempts : List Attempt)
    → IsClosed
        (update
          (λ a. has_attempt_id (or_empty w.lease_attempt_id) a && attempt_active a.status)
          (expire_attempt status)
          attempts)
        w
IsClosed-now w status attempts =
    All-update_cases (λ a. Unit {0}) _ _ (expire_attempt status) (λ a _ _. never _)
      (λ a _ q. not_leased w.lease_attempt_id a _ q) attempts (any_row attempts)
  where
    any_row : (xs : List Attempt) → All (λ a. Unit {0}) xs
    any_row [] = tt
    any_row (x ∷ xs) = (tt, any_row xs)

IsClosed-kept :
    (v : Work) (p : Attempt → Bool) (status : WorkStatus) (attempts : List Attempt)
    → IsClosed attempts v
    → IsClosed (update p (expire_attempt status) attempts) v
IsClosed-kept v p status attempts h =
    All-update _ p (expire_attempt status) (λ a _ _. never _) attempts h

-- One round of the loop.
pub row-IsProgress :
    (now : ℕ) (before work : List Work) (old attempts : List Attempt) (w : Work) (ws : List Work)
    → Distinct (λ v. v.work_id) work
    → IsSoundRow w
    → In w work
    → lease_expired now w ≡ true
    → IsProgress now before work old attempts (w ∷ ws)
    → let status = outcome w.attempt_count w.max_attempts in
      IsProgress now before
        (update (owned w) (released status "lease expired" now) work)
        old
        (update
          (λ a. has_attempt_id (or_empty w.lease_attempt_id) a && attempt_active a.status)
          (expire_attempt status)
          attempts)
        ws
row-IsProgress now before work old attempts w ws d sound here expired h = record {
  origin = h.origin.1;
  rows =
      Pairs-update (WorkStep now) (owned w) _ before work
        (λ x v m r q.
          row_after now w x v expired
            (In-Distinct (λ u. u.work_id) v w work d m here (owned-id w v q)) r)
        h.rows;
  leases =
      Pairs-update (AttemptAfter now before) _ _ old attempts
        (λ a c m r q.
          attempt_after now before w a c h.origin.0 expired (sound.attempt_shape ∙ leased) r q)
        h.leases;
  closed = λ v m e. still v (h.closed v m e);
}
  where
    leased : is_leased w.status ≡ true
    leased = and_left _ _ expired

    still :
        (v : Work)
        → In v (w ∷ ws) ⊎ IsClosed attempts v
        → In v ws
          ⊎ IsClosed
              (update
                (λ a. has_attempt_id (or_empty w.lease_attempt_id) a && attempt_active a.status)
                (expire_attempt (outcome w.attempt_count w.max_attempts))
                attempts)
              v
    still v (inl (inl e)) = inr (rw e (IsClosed-now w _ attempts))
    still v (inl (inr m)) = inl m
    still v (inr c) = inr (IsClosed-kept v _ _ attempts c)

-- When no row is left to do, and no lease has expired, the work is as a recovery leaves it.
pub IsProgress-done :
    (now : ℕ) (before work : List Work) (old attempts : List Attempt)
    → IsProgress now before work old attempts []
    → All (λ w. has_expired now w ≡ false) work
    → work ≡ map (recovered now) before
IsProgress-done now before work old attempts h done =
    Pairs-map (WorkStep now) (recovered now) before work
      (λ x v m r. as_recovered x v (All-In _ work v done m) r) h.rows
  where
    as_recovered : (x v : Work) → has_expired now v ≡ false → WorkStep now x v → v ≡ recovered now x
    as_recovered x v e (inl q) = let no : has_expired now x ≡ false = rw q at e in rw no q
    as_recovered x v e (inr (_, q)) = q
