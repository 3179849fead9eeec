-- ===== src/Prelude/Rows.antt =====
-- A database table as the list of its rows in insertion order: SELECT, UPDATE and COUNT by a test.
use people_counter.Prelude.Tests.{if◌then◌else◌, Bool-cases}
use people_counter.Prelude.Lists.{All, length}
use Prim.Native.Nat.{ℕ, suc, ◌+◌}
use mathlib.Core.Path.{◌≡◌, refl, ap}
use mathlib.Core.Logic.{inl, inr}
use mathlib.Core.Bool.{Bool, true, false, ◌&&◌, ◌||◌}
use mathlib.Core.Option.{Option, none, some}
use mathlib.Core.List.{List, [], ◌∷◌}
use native.Mathlib.Omega.{arith}

module _ {ℓ} {A : Type ℓ} where
  -- SELECT ... WHERE p, all rows
  unfoldable pub select : (A → Bool) → List A → List A
  select p [] = []
  select p (x ∷ xs) = if p x then x ∷ select p xs else select p xs

  -- SELECT ... WHERE p, `fetchone()`
  unfoldable pub find : (A → Bool) → List A → Option A
  find p [] = none
  find p (x ∷ xs) = if p x then some x else find p xs

  -- UPDATE ... SET f WHERE p
  unfoldable pub update : (A → Bool) → (A → A) → List A → List A
  update p f [] = []
  update p f (x ∷ xs) = (if p x then f x else x) ∷ update p f xs

  -- `cursor.rowcount` of such an UPDATE, and SELECT COUNT(*) ... WHERE p
  unfoldable pub count : (A → Bool) → List A → ℕ
  count p [] = 0
  count p (x ∷ xs) = (if p x then 1 else 0) + count p xs

  -- whether some row passes the test
  unfoldable pub any : (A → Bool) → List A → Bool
  any p [] = false
  any p (x ∷ xs) = p x || any p xs

  -- whether every row passes the test
  unfoldable pub every : (A → Bool) → List A → Bool
  every p [] = true
  every p (x ∷ xs) = p x && every p xs

module _ {ℓ κ} {A : Type ℓ} (P : A → Type κ) where
  pub All-select : (p : A → Bool) (xs : List A) → All P xs → All P (select p xs)
  unfolding select
  All-select p [] h = tt
  All-select p (x ∷ xs) h = elim (Bool-cases (p x)) [
    | inl e ↦ rw e (h.0, All-select p xs h.1)
    | inr e ↦ rw e (All-select p xs h.1)
  ]

  -- An UPDATE keeps a property of rows that the assignment keeps at the rows it selects.
  pub All-update :
      (p : A → Bool) (f : A → A)
      → ((x : A) → P x → p x ≡ true → P (f x))
      → (xs : List A) → All P xs
      → All P (update p f xs)
  unfolding update
  All-update p f k [] h = tt
  All-update p f k (x ∷ xs) h = elim (Bool-cases (p x)) [
    | inl e ↦ rw e (k x h.0 e, All-update p f k xs h.1)
    | inr e ↦ rw e (h.0, All-update p f k xs h.1)
  ]

  pub find-All : (p : A → Bool) (xs : List A) {x : A} → All P xs → find p xs ≡ some x → P x
  unfolding find
  find-All p [] h e = absurd (none_some e)
    where
      none_some : {y : A} → none ≡ some y → ⊥
      none_some q = cc
  find-All p (x ∷ xs) h e = elim (Bool-cases (p x)) [
    | inl t ↦ rw (some_eq (rw t at e)) at (h.0)
    | inr t ↦ find-All p xs h.1 (rw t at e)
  ]
    where
      some_eq : {y z : A} → some y ≡ some z → y ≡ z
      some_eq q = cc

-- What an UPDATE gives at the rows that it selects, and at the others.
pub All-update_cases {ℓ κ μ} :
    {A : Type ℓ} (P : A → Type κ) (Q : A → Type μ) (p : A → Bool) (f : A → A)
    → ((x : A) → P x → p x ≡ true → Q (f x))
    → ((x : A) → P x → p x ≡ false → Q x)
    → (xs : List A) → All P xs
    → All Q (update p f xs)
unfolding update
All-update_cases P Q p f k l [] h = tt
All-update_cases P Q p f k l (x ∷ xs) h = elim (Bool-cases (p x)) [
  | inl e ↦ rw e (k x h.0 e, All-update_cases P Q p f k l xs h.1)
  | inr e ↦ rw e (l x h.0 e, All-update_cases P Q p f k l xs h.1)
]

module _ {ℓ} {A : Type ℓ} where
  pub select-All : (p : A → Bool) (xs : List A) → All (λ x. p x ≡ true) (select p xs)
  unfolding select
  select-All p [] = tt
  select-All p (x ∷ xs) = elim (Bool-cases (p x)) [
    | inl e ↦ rw e (e, select-All p xs)
    | inr e ↦ rw e (select-All p xs)
  ]

  pub find_holds : (p : A → Bool) (xs : List A) {x : A} → find p xs ≡ some x → p x ≡ true
  unfolding find
  find_holds p [] e = cc
  find_holds p (x ∷ xs) {x = y} e = elim (Bool-cases (p x)) [
    | inl t ↦ rw (some_eq (rw t at e)) at t
    | inr t ↦ find_holds p xs (rw t at e)
  ]
    where
      some_eq : {y z : A} → some y ≡ some z → y ≡ z
      some_eq q = cc

  -- An UPDATE that selects no row changes nothing.
  pub update_none : (p : A → Bool) (f : A → A) (xs : List A) → any p xs ≡ false → update p f xs ≡ xs
  unfolding update any
  update_none p f [] h = refl
  update_none p f (x ∷ xs) h = ground (arith, update_none p f xs)

  pub length-update : (p : A → Bool) (f : A → A) (xs : List A) → length (update p f xs) ≡ length xs
  unfolding update
  length-update p f [] = refl
  length-update p f (x ∷ xs) = ap suc (length-update p f xs)
