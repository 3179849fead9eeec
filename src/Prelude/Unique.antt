-- ===== src/Prelude/Unique.antt =====
-- Queries on a table with a primary key, and what ORDER BY keeps.
use people_counter.Prelude.Tests.{Bool-cases}
use people_counter.Prelude.Lists.{All, All-imp}
use people_counter.Prelude.Rows.{select, count, All-select}
use people_counter.Prelude.Keys.{Distinct, Fresh}
use people_counter.Prelude.Sorting.{insert, sort, All-sort}
use people_counter.Prelude.Membership.{In, All-In}
use Prim.Native.String.{String}
use mathlib.Core.Path.{◌≡◌, refl, sym, ◌∙◌}
use mathlib.Core.Logic.{◌≢◌, ◌⊎◌, inl, inr}
use mathlib.Core.Bool.{Bool, true, false}
use mathlib.Core.List.{List, [], ◌∷◌}
use native.Mathlib.Omega.{arith}

module _ {A : Type 0} (le : A → A → Bool) where
  In-insert : (x y : A) (ys : List A) → (x ≡ y) ⊎ In x ys → In x (insert le y ys)
  unfolding insert
  In-insert x y [] m = m
  In-insert x y (z ∷ zs) m = elim (Bool-cases (le y z)) [
    | inl e ↦ rw e m
    | inr e ↦ rw e (later (λ k. In-insert x y zs k) m)
  ]
    where
      later :
          ((x ≡ y) ⊎ In x zs → In x (insert le y zs))
          → (x ≡ y) ⊎ In x (z ∷ zs)
          → In x (z ∷ insert le y zs)
      later ih (inl q) = inr (ih (inl q))
      later ih (inr (inl q)) = inl q
      later ih (inr (inr k)) = inr (ih (inr k))

  pub In-sort : (x : A) (xs : List A) → In x xs → In x (sort le xs)
  unfolding sort
  In-sort x [] m = m
  In-sort x (y ∷ ys) (inl e) = In-insert x y (sort le ys) (inl e)
  In-sort x (y ∷ ys) (inr m) = In-insert x y (sort le ys) (inr (In-sort x ys m))

module _ {A : Type 0} (key : A → String) where
  Distinct-insert :
      (le : A → A → Bool) (x : A) (ys : List A)
      → Fresh key (key x) ys
      → Distinct key ys
      → Distinct key (insert le x ys)
  unfolding insert
  Distinct-insert le x [] f d = (tt, tt)
  Distinct-insert le x (y ∷ ys) f d = elim (Bool-cases (le x y)) [
    | inl e ↦ rw e (f, d)
    | inr e ↦ rw e (fresh (λ q. f.0 (sym q)) ys d.0, Distinct-insert le x ys f.1 d.1)
  ]
    where
      fresh :
          key x ≢ key y → (zs : List A) → Fresh key (key y) zs → Fresh key (key y) (insert le x zs)
      fresh n [] g = (n, tt)
      fresh n (z ∷ zs) g = elim (Bool-cases (le x z)) [
        | inl e ↦ rw e (n, g)
        | inr e ↦ rw e (g.0, fresh n zs g.1)
      ]

  pub Distinct-sort :
      (le : A → A → Bool) (xs : List A) → Distinct key xs → Distinct key (sort le xs)
  unfolding sort
  Distinct-sort le [] d = tt
  Distinct-sort le (x ∷ xs) d =
      Distinct-insert le x (sort le xs) (All-sort (λ y. key y ≢ key x) le xs d.0)
        (Distinct-sort le xs d.1)

  pub Distinct-select : (p : A → Bool) (xs : List A) → Distinct key xs → Distinct key (select p xs)
  unfolding select
  Distinct-select p [] d = tt
  Distinct-select p (x ∷ xs) d = elim (Bool-cases (p x)) [
    | inl e ↦ rw e (All-select _ p xs d.0, Distinct-select p xs d.1)
    | inr e ↦ rw e (Distinct-select p xs d.1)
  ]

  count_none : (p : A → Bool) (xs : List A) → All (λ y. p y ≡ false) xs → count p xs ≡ 0
  unfolding count
  count_none p [] h = refl
  count_none p (x ∷ xs) h = ground (arith, count_none p xs)

  -- A test that only rows of one key pass selects one row, if it selects a row of the table.
  pub count_one :
      (p : A → Bool) (x : A) (xs : List A)
      → Distinct key xs
      → In x xs
      → p x ≡ true
      → ((y : A) → p y ≡ true → key y ≡ key x)
      → count p xs ≡ 1
  unfolding count
  count_one p x [] d m e h = absurd m
  count_one p x (y ∷ ys) d (inl q) e h =
      let z : count p ys ≡ 0 =
        count_none p ys (All-imp (λ z. key z ≢ key y) _ (λ z n. other z n) ys d.0) in
      rw (← q, e, z) refl
    where
      other : (z : A) → key z ≢ key y → p z ≡ false
      other z n = elim (Bool-cases (p z)) [ inl t ↦ absurd (n (h z t ∙ rw q refl)) | inr t ↦ t ]
  count_one p x (y ∷ ys) d (inr m) e h = elim (Bool-cases (p y)) [
    | inl t ↦ absurd (All-In _ ys x d.0 m (sym (h y t)))
    | inr t ↦ rw (t, count_one p x ys d.1 m e h) refl
  ]

  -- Rows of one key are the same row.
  pub In-Distinct :
      (x y : A) (xs : List A) → Distinct key xs → In x xs → In y xs → key x ≡ key y → x ≡ y
  In-Distinct x y [] d m n e = absurd m
  In-Distinct x y (z ∷ zs) d (inl p) (inl q) e = p ∙ sym q
  In-Distinct x y (z ∷ zs) d (inl p) (inr n) e = absurd (All-In _ zs y d.0 n (sym e ∙ rw p refl))
  In-Distinct x y (z ∷ zs) d (inr m) (inl q) e = absurd (All-In _ zs x d.0 m (e ∙ rw q refl))
  In-Distinct x y (z ∷ zs) d (inr m) (inr n) e = In-Distinct x y zs d.1 m n e
