-- ===== src/Prelude/Membership.antt =====
-- Which rows a table holds, and what SELECT, UPDATE and COUNT do to that.
use people_counter.Prelude.Tests.{Bool-cases}
use people_counter.Prelude.Lists.{All}
use people_counter.Prelude.Rows.{find, update, select, count}
use mathlib.Core.Path.{◌≡◌, refl, sym}
use mathlib.Core.Logic.{◌⊎◌, inl, inr}
use mathlib.Core.Bool.{Bool, true, false}
use mathlib.Core.Option.{some}
use mathlib.Core.List.{List, [], ◌∷◌, ◌++◌}
use native.Mathlib.Omega.{arith}

-- The row `x` is in the table.
abbrev pub In : {A : Type 0} → A → List A → Type 0
In x [] = ⊥
In x (y ∷ ys) = (x ≡ y) ⊎ In x ys

module _ {A : Type 0} where
  pub All-In : (P : A → Type 0) (xs : List A) (x : A) → All P xs → In x xs → P x
  All-In P [] x h m = absurd m
  All-In P (y ∷ ys) x h (inl e) = rw e h.0
  All-In P (y ∷ ys) x h (inr m) = All-In P ys x h.1 m

  pub All_of_In : (P : A → Type 0) (xs : List A) → ((x : A) → In x xs → P x) → All P xs
  All_of_In P [] f = tt
  All_of_In P (x ∷ xs) f = (f x (inl refl), All_of_In P xs (λ y m. f y (inr m)))

  -- A row that an UPDATE does not select stays.
  pub In-update :
      (p : A → Bool) (f : A → A) (x : A) (xs : List A)
      → p x ≡ false
      → In x xs
      → In x (update p f xs)
  unfolding update
  In-update p f x [] e m = absurd m
  In-update p f x (y ∷ ys) e (inl q) = inl (rw (← q, e) refl)
  In-update p f x (y ∷ ys) e (inr m) = inr (In-update p f x ys e m)

  -- A row that an UPDATE selects is there as assigned.
  pub In-update_at :
      (p : A → Bool) (f : A → A) (x : A) (xs : List A)
      → p x ≡ true
      → In x xs
      → In (f x) (update p f xs)
  unfolding update
  In-update_at p f x [] e m = absurd m
  In-update_at p f x (y ∷ ys) e (inl q) = inl (rw (← q, e) refl)
  In-update_at p f x (y ∷ ys) e (inr m) = inr (In-update_at p f x ys e m)

  -- Where a row of an updated table comes from.
  pub In-update_inv :
      (p : A → Bool) (f : A → A) (y : A) (xs : List A)
      → In y (update p f xs)
      → (In y xs × (p y ≡ false)) ⊎ ((x : A) × In x xs × (p x ≡ true) × (y ≡ f x))
  unfolding update
  In-update_inv p f y [] m = absurd m
  In-update_inv p f y (x ∷ xs) (inr m) = elim (In-update_inv p f y xs m) [
    | inl (k, e) ↦ inl (inr k, e)
    | inr (z, k, e, q) ↦ inr (z, inr k, e, q)
  ]
  In-update_inv p f y (x ∷ xs) (inl q) = elim (Bool-cases (p x)) [
    | inl e ↦ inr (x, inl refl, e, rw e at q)
    | inr e ↦ let r : y ≡ x = rw e at q in inl (inl r, rw r e)
  ]

  pub In-append_inv : (x : A) (xs ys : List A) → In x (xs ++ ys) → In x xs ⊎ In x ys
  In-append_inv x [] ys m = inr m
  In-append_inv x (z ∷ zs) ys (inl e) = inl (inl e)
  In-append_inv x (z ∷ zs) ys (inr m) = elim (In-append_inv x zs ys m) [
    | inl k ↦ inl (inr k)
    | inr k ↦ inr k
  ]

  pub In-append : (x : A) (xs ys : List A) → In x xs → In x (xs ++ ys)
  In-append x [] ys m = absurd m
  In-append x (z ∷ zs) ys (inl e) = inl e
  In-append x (z ∷ zs) ys (inr m) = inr (In-append x zs ys m)

  pub In-append_last : (x : A) (xs : List A) → In x (xs ++ x ∷ [])
  In-append_last x [] = inl refl
  In-append_last x (y ∷ ys) = inr (In-append_last x ys)

  -- A selected row is in the table, and passes the test.
  pub In-select_inv :
      (p : A → Bool) (x : A) (xs : List A) → In x (select p xs) → In x xs × (p x ≡ true)
  unfolding select
  In-select_inv p x [] m = absurd m
  In-select_inv p x (y ∷ ys) m = elim (Bool-cases (p y)) [
    | inl e ↦ head (λ k. In-select_inv p x ys k) (rw e at m) e
    | inr e ↦ let (a, b) = In-select_inv p x ys (rw e at m) in (inr a, b)
  ]
    where
      head :
          (In x (select p ys) → In x ys × (p x ≡ true))
          → (x ≡ y) ⊎ In x (select p ys)
          → p y ≡ true
          → In x (y ∷ ys) × (p x ≡ true)
      head ih (inl q) e = (inl q, rw q e)
      head ih (inr k) e = (inr (ih k).0, (ih k).1)

  pub In-select : (p : A → Bool) (x : A) (xs : List A) → In x xs → p x ≡ true → In x (select p xs)
  unfolding select
  In-select p x [] m e = absurd m
  In-select p x (y ∷ ys) (inl q) e = rw (← q, e) (inl refl)
  In-select p x (y ∷ ys) (inr m) e = elim (Bool-cases (p y)) [
    | inl t ↦ rw t (inr (In-select p x ys m e))
    | inr t ↦ rw t (In-select p x ys m e)
  ]

  pub find-In : (p : A → Bool) (x : A) (xs : List A) → find p xs ≡ some x → In x xs × (p x ≡ true)
  unfolding find
  find-In p x [] e = cc
  find-In p x (y ∷ ys) e = elim (Bool-cases (p y)) [
    | inl t ↦ let q : y ≡ x = cc (rw t at e) in (inl (sym q), rw (← q) t)
    | inr t ↦ let (a, b) = find-In p x ys (rw t at e) in (inr a, b)
  ]

  -- A COUNT of one is the count of some row.
  pub count-In : (p : A → Bool) (xs : List A) → count p xs ≡ 1 → (x : A) × In x xs × (p x ≡ true)
  unfolding count
  count-In p [] e = absurd (omega arith)
  count-In p (y ∷ ys) e = elim (Bool-cases (p y)) [
    | inl t ↦ (y, inl refl, t)
    | inr t ↦
        let q : count p ys ≡ 1 = omega (arith, rw t at e) in
        let (x, a, b) = count-In p ys q in (x, inr a, b)
  ]
