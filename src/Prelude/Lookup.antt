-- ===== src/Prelude/Lookup.antt =====
-- Lookups of one row after a write.
use people_counter.Prelude.Tests.{if◌then◌else◌, Bool-cases}
use people_counter.Prelude.Rows.{find, update, any}
use mathlib.Core.Path.{◌≡◌, refl, ◌∙◌}
use mathlib.Core.Logic.{inl, inr}
use mathlib.Core.Bool.{Bool, true, false}
use mathlib.Core.Option.{none, some}
use mathlib.Core.List.{List, [], ◌∷◌, ◌++◌}

module _ {ℓ} {A : Type ℓ} where
  pub find-update :
      (p q : A → Bool) (f : A → A) (x : A) (xs : List A)
      → ((y : A) → p (f y) ≡ p y)
      → find p xs ≡ some x
      → find p (update q f xs) ≡ some (if q x then f x else x)
  unfolding find update
  find-update p q f x [] same e = cc
  find-update p q f x (y ∷ ys) same e = elim (Bool-cases (p y)) [
    | inl t ↦ let r : y ≡ x = some_inj (rw t at e) in rw (← r) (rw (kept (q y) t) refl)
    | inr t ↦ rw (missed (q y) t) (find-update p q f x ys same (rw t at e))
  ]
    where
      some_inj : {a b : A} → some a ≡ some b → a ≡ b
      some_inj h = cc

      kept : (b : Bool) → p y ≡ true → p (if b then f y else y) ≡ true
      kept true t = same y ∙ t
      kept false t = t

      missed : (b : Bool) → p y ≡ false → p (if b then f y else y) ≡ false
      missed true t = same y ∙ t
      missed false t = t

  pub find-append_last :
      (p : A → Bool) (x : A) (xs : List A)
      → find p xs ≡ none
      → p x ≡ true
      → find p (xs ++ x ∷ []) ≡ some x
  unfolding find
  find-append_last p x [] e t = rw t refl
  find-append_last p x (y ∷ ys) e t = elim (Bool-cases (p y)) [
    | inl u ↦ absurd (some_none (rw u at e))
    | inr u ↦ rw u (find-append_last p x ys (rw u at e) t)
  ]
    where
      some_none : {a : A} → some a ≡ none → ⊥
      some_none h = cc

  pub find_absent : (p : A → Bool) (xs : List A) → any p xs ≡ false → find p xs ≡ none
  unfolding find any
  find_absent p [] e = refl
  find_absent p (x ∷ xs) e = elim (Bool-cases (p x)) [
    | inl t ↦ absurd (true_false (rw t at e))
    | inr t ↦ rw t (find_absent p xs (rw t at e))
  ]
    where
      true_false : true ≡ false → ⊥
      true_false h = cc
