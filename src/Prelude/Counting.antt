-- ===== src/Prelude/Counting.antt =====
-- Counts of selected and of sorted rows.
use people_counter.Prelude.Lists.{length}
use people_counter.Prelude.Rows.{select, count}
use people_counter.Prelude.Sorting.{insert, sort}
use Prim.Native.Nat.{◌+◌}
use mathlib.Core.Path.{◌≡◌, refl}
use mathlib.Core.Bool.{Bool, not, ◌&&◌}
use mathlib.Core.List.{List, [], ◌∷◌}
use native.Mathlib.Omega.{arith}

module _ {A : Type 0} where
  pub length-select : (p : A → Bool) (xs : List A) → length (select p xs) ≡ count p xs
  unfolding select count
  length-select p [] = refl
  length-select p (x ∷ xs) = ground (arith, length-select p xs)

  pub count-select :
      (p q : A → Bool) (xs : List A) → count q (select p xs) ≡ count (λ x. p x && q x) xs
  unfolding select count
  count-select p q [] = refl
  count-select p q (x ∷ xs) = ground (arith, count-select p q xs)

  -- A test and its negation part the rows.
  pub count_not : (p : A → Bool) (xs : List A) → count (λ x. not (p x)) xs + count p xs ≡ length xs
  unfolding count
  count_not p [] = refl
  count_not p (x ∷ xs) = ground (arith, count_not p xs)

  count-insert :
      (le : A → A → Bool) (p : A → Bool) (x : A) (ys : List A)
      → count p (insert le x ys) ≡ count p (x ∷ ys)
  unfolding count insert
  count-insert le p x [] = refl
  count-insert le p x (y ∷ ys) = ground (arith, count-insert le p x ys)

  pub count-sort :
      (le : A → A → Bool) (p : A → Bool) (xs : List A) → count p (sort le xs) ≡ count p xs
  unfolding count sort
  count-sort le p [] = refl
  count-sort le p (x ∷ xs) = omega (arith, count-insert le p x (sort le xs), count-sort le p xs)
