-- ===== src/Prelude/Keys.antt =====
-- Tables with a primary key that is a text.
use people_counter.Prelude.Tests.{Bool-cases}
use people_counter.Prelude.Lists.{All, All-imp}
use people_counter.Prelude.Rows.{find, update}
use Prim.Native.String.{String}
use mathlib.Core.Path.{◌≡◌, refl, sym, ◌∙◌}
use mathlib.Core.Logic.{◌≢◌, inl, inr}
use mathlib.Core.Bool.{Bool, false≢true}
use mathlib.Core.Option.{none, some}
use mathlib.Core.List.{List, [], ◌∷◌, ◌++◌}
use text.Mathlib.Text.{◌==◌}
use text.Mathlib.TextEquality.{eq_iff}

module _ {ℓ} {A : Type ℓ} (key : A → String) where
  -- No row has the key `k`.
  abbrev pub Fresh : String → List A → Type 0
  Fresh k xs = All (λ y. key y ≢ k) xs

  -- No two rows have the same key.
  abbrev pub Distinct : List A → Type 0
  Distinct [] = Unit
  Distinct (x ∷ xs) = Fresh (key x) xs × Distinct xs

  -- The row of key `k`, if there is one, is `x`.
  abbrev pub Only : String → A → List A → Type ℓ
  Only k x xs = All (λ y. key y ≡ k → y ≡ x) xs

  Fresh-update :
      (p : A → Bool) (f : A → A) (k : String)
      → ((x : A) → key (f x) ≡ key x)
      → (xs : List A) → Fresh k xs
      → Fresh k (update p f xs)
  unfolding update
  Fresh-update p f k same [] h = tt
  Fresh-update p f k same (x ∷ xs) h = elim (Bool-cases (p x)) [
    | inl e ↦ rw e ((λ q. h.0 (sym (same x) ∙ q)), Fresh-update p f k same xs h.1)
    | inr e ↦ rw e (h.0, Fresh-update p f k same xs h.1)
  ]

  pub Distinct-update :
      (p : A → Bool) (f : A → A)
      → ((x : A) → key (f x) ≡ key x)
      → (xs : List A) → Distinct xs
      → Distinct (update p f xs)
  unfolding update
  Distinct-update p f same [] h = tt
  Distinct-update p f same (x ∷ xs) h = elim (Bool-cases (p x)) [
    | inl e ↦
        rw e (rw (same x) (Fresh-update p f (key x) same xs h.0), Distinct-update p f same xs h.1)
    | inr e ↦ rw e (Fresh-update p f (key x) same xs h.0, Distinct-update p f same xs h.1)
  ]

  Fresh-append :
      (k : String) (xs : List A) (x : A) → Fresh k xs → key x ≢ k → Fresh k (xs ++ x ∷ [])
  Fresh-append k [] x h n = (n, tt)
  Fresh-append k (y ∷ ys) x h n = (h.0, Fresh-append k ys x h.1 n)

  pub Distinct-append :
      (xs : List A) (x : A) → Fresh (key x) xs → Distinct xs → Distinct (xs ++ x ∷ [])
  Distinct-append [] x h d = (tt, tt)
  Distinct-append (y ∷ ys) x h d =
      (Fresh-append (key y) ys x d.0 (λ q. h.0 (sym q)), Distinct-append ys x h.1 d.1)

  -- A lookup that fails shows that the key is fresh.
  pub find-Fresh : (k : String) (xs : List A) → find (λ y. key y == k) xs ≡ none → Fresh k xs
  unfolding find
  find-Fresh k [] h = tt
  find-Fresh k (x ∷ xs) h = elim (Bool-cases (key x == k)) [
    | inl e ↦ absurd (some_none (rw e at h))
    | inr e ↦ (λ q. false≢true (sym e ∙ (eq_iff (key x) k).1 q), find-Fresh k xs (rw e at h))
  ]
    where
      some_none : {y : A} → some y ≡ none → ⊥
      some_none q = cc

  -- Each row is the only one of its key.
  Only-Fresh : (k : String) (x : A) (xs : List A) → Fresh k xs → Only k x xs
  Only-Fresh k x xs = All-imp _ _ (λ y h q. absurd (h q)) xs

  pub Distinct-Only : (xs : List A) → Distinct xs → All (λ x. Only (key x) x xs) xs
  Distinct-Only [] d = tt
  Distinct-Only (x ∷ xs) d =
      ((λ q. refl, Only-Fresh (key x) x xs d.0), widen xs d.0 (Distinct-Only xs d.1))
    where
      widen :
          (ys : List A)
          → Fresh (key x) ys
          → All (λ y. Only (key y) y xs) ys
          → All (λ y. Only (key y) y (x ∷ xs)) ys
      widen [] f h = tt
      widen (y ∷ ys) f h = ((λ q. absurd (f.0 (sym q)), h.0), widen ys f.1 h.1)

  pub find-Only :
      (k : String) (x : A) (xs : List A)
      → Distinct xs
      → find (λ y. key y == k) xs ≡ some x
      → Only k x xs
  unfolding find
  find-Only k x [] d h = tt
  find-Only k x (y ∷ ys) d h = elim (Bool-cases (key y == k)) [
    | inl e ↦
        let q : key y ≡ k = (eq_iff (key y) k).0 e in
        (λ _. some_some (rw e at h), Only-Fresh k x ys (rw q at (d.0)))
    | inr e ↦ (
      λ q. absurd (false≢true (sym e ∙ (eq_iff (key y) k).1 q)),
      find-Only k x ys d.1 (rw e at h),
    )
  ]
    where
      some_some : {a b : A} → some a ≡ some b → a ≡ b
      some_some q = cc
