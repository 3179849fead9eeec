-- ===== src/Control/Sound/Counts.antt =====
-- Writes to the work table that end leases: `Agrees` says that the counts a row was read with still are
-- the row's, and `Kept` that a write keeps this and the invariant.
use people_counter.Prelude.{ℕ, ◌≡◌, refl, sym, ◌∙◌, String, Bool, true, List, All, All-imp, All-and}
use people_counter.Prelude.Rows.{update, All-update}
use people_counter.Prelude.Keys.{Distinct-update}
use people_counter.Control.Tables.{Work, WorkStatus, Store}
use people_counter.Control.Commit.{released, published}
use people_counter.Control.Sound.{IsSoundRow, IsSound}
use people_counter.Control.Sound.Writes.{same-IsSound}

-- The row of work `k` has the counts `n` and `m`.
abbrev pub HasCounts : String → ℕ → ℕ → Work → Type 0
HasCounts k n m w = w.work_id ≡ k → (w.attempt_count ≡ n) × (w.max_attempts ≡ m)

abbrev pub Agrees : String → ℕ → ℕ → List Work → Type 0
Agrees k n m work = All (HasCounts k n m) work

-- A write that keeps the invariant, and the counts of every row.
pub record Kept (s t : Store) : Type 0 where
  pub sound : IsSound t
  pub counts : (k : String) (n m : ℕ) → Agrees k n m s.work → Agrees k n m t.work

-- The writes that end a lease change neither the id nor the counts of a row.
pub record KeepsKeys (f : Work → Work) : Type 0 where
  pub id : (w : Work) → (f w).work_id ≡ w.work_id
  pub count : (w : Work) → (f w).attempt_count ≡ w.attempt_count
  pub limit : (w : Work) → (f w).max_attempts ≡ w.max_attempts

pub Agrees-update :
    (p : Work → Bool) (f : Work → Work) (k : String) (n m : ℕ) (work : List Work)
    → KeepsKeys f
    → Agrees k n m work
    → Agrees k n m (update p f work)
Agrees-update p f k n m work keys =
    All-update (HasCounts k n m) p f
      (λ w h _ e. let (a, b) = h (sym (keys.id w) ∙ e) in (keys.count w ∙ a, keys.limit w ∙ b)) work

pub Kept-update :
    (p : Work → Bool) (f : Work → Work) (k : String) (n m : ℕ) (s t : Store)
    → t.work ≡ update p f s.work
    → KeepsKeys f
    → ((w : Work) → HasCounts k n m w → IsSoundRow w → p w ≡ true → IsSoundRow (f w))
    → Agrees k n m s.work
    → IsSound s
    → Kept s t
Kept-update p f k n m s t e keys keep a h = record {
  sound = record {
    rows = rw e (
        All-imp (λ w. IsSoundRow w × HasCounts k n m w) IsSoundRow (λ w q. q.0) _
          (All-update (λ w. IsSoundRow w × HasCounts k n m w) p f
            (λ w q t. (
              keep w q.1 q.0 t,
              λ r. let (c, d) = q.1 (sym (keys.id w) ∙ r) in (keys.count w ∙ c, keys.limit w ∙ d),
            ))
            s.work (All-and _ _ s.work h.rows a)));
    unique = rw e (Distinct-update (λ w. w.work_id) p f keys.id s.work h.unique);
  };
  counts = λ j c l b. rw e (Agrees-update p f j c l s.work keys b);
}

pub Kept-trans : (s t u : Store) → Kept s t → Kept t u → Kept s u
Kept-trans s t u h k = record {
  sound = k.sound;
  counts = λ j n m a. k.counts j n m (h.counts j n m a);
}

pub Kept-same : (s t : Store) → t.work ≡ s.work → IsSound s → Kept s t
Kept-same s t e h = record { sound = same-IsSound s t e h; counts = λ j n m a. rw e a }

pub released-KeepsKeys :
    (status : WorkStatus) (reason : String) (now : ℕ) → KeepsKeys (released status reason now)
unfolding released
released-KeepsKeys status reason now = record {
  id = λ w. refl;
  count = λ w. refl;
  limit = λ w. refl;
}

pub published-KeepsKeys : (k : String) (n now : ℕ) → KeepsKeys (published k n now)
unfolding published
published-KeepsKeys k n now = record { id = λ w. refl; count = λ w. refl; limit = λ w. refl }
