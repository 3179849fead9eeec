-- ===== src/Events/Updates.antt =====
-- What a row has once a dictionary of updates is set.
use people_counter.Prelude.{
  ◌≡◌, refl, String, Bool, true, false, not, ◌&&◌, some, List, [], ◌∷◌, arith, All, All-imp, ◌==◌,
  eq_iff, Bool-cases, inl, inr,
}
use people_counter.Prelude.Rows.{every}
use people_counter.Events.{
  Value, null, text, time, number, flag, same, Row, Entry, lookup, assign, matches,
}

pub same_refl : (v : Value) → same v v ≡ true
same_refl null = refl
same_refl (text s) = (eq_iff s s).1 refl
same_refl (time n) = ground arith
same_refl (number n) = ground arith
same_refl (flag true) = refl
same_refl (flag false) = refl

-- No column is twice in the dictionary.
unfoldable pub distinct_columns : List Entry → Bool
unfolding every
distinct_columns [] = true
distinct_columns (e ∷ es) = every (λ d. not (e.column == d.column)) es && distinct_columns es

All-every : {A : Type 0} (p : A → Bool) (xs : List A) → every p xs ≡ true → All (λ x. p x ≡ true) xs
unfolding every
All-every p [] h = tt
All-every p (x ∷ xs) h = (ground arith, All-every p xs (ground arith))

every-All : {A : Type 0} (p : A → Bool) (xs : List A) → All (λ x. p x ≡ true) xs → every p xs ≡ true
unfolding every
every-All p [] h = refl
every-All p (x ∷ xs) h = rw (h.0, every-All p xs h.1) refl

abbrev Found : List Entry → Entry → Type 0
Found us e = lookup e.column us ≡ some e.value

Found-next :
    (e : Entry) (es ds : List Entry)
    → All (λ d. not (e.column == d.column) ≡ true) ds
    → All (Found es) ds
    → All (Found (e ∷ es)) ds
unfolding lookup
Found-next e es [] h k = tt
Found-next e es (d ∷ ds) h k =
    let apart : (e.column == d.column) ≡ false = ground arith in
    (rw apart k.0, Found-next e es ds h.1 k.1)

found : (es : List Entry) → distinct_columns es ≡ true → All (Found es) es
unfolding lookup distinct_columns
found [] h = tt
found (e ∷ es) h = (
  rw ((eq_iff e.column e.column).1 refl) refl,
  Found-next e es es (All-every _ es (ground arith)) (found es (ground arith)),
)

-- A row matches the updates that have been set in it.
pub matches-assign :
    (row : Row) (us : List Entry) → distinct_columns us ≡ true → matches (assign row us) us ≡ true
unfolding matches assign
matches-assign row us h =
    every-All _ us (All-imp (Found us) _ (λ e q. rw q (same_refl e.value)) us (found us h))

-- A row that differs in a column does not match.
pub matches-lookup :
    (row : Row) (us : List Entry) (k : String) (v : Value)
    → lookup k us ≡ some v
    → same (row k) v ≡ false
    → matches row us ≡ false
unfolding matches lookup every
matches-lookup row [] k v h d = cc
matches-lookup row (e ∷ es) k v h d = elim (Bool-cases (e.column == k)) [
  | inl q ↦ at_head (rw q at h) ((eq_iff e.column k).0 q)
  | inr q ↦ let ih = matches-lookup row es k v (rw q at h) d in rw ih (and_false _)
]
  where
    and_false : (b : Bool) → (b && false) ≡ false
    and_false b = ground arith

    at_head :
        some e.value ≡ some v
        → e.column ≡ k
        → (same (row e.column) e.value && matches row es) ≡ false
    at_head a b = let w : e.value ≡ v = cc in rw (w, b, d) refl
