-- ===== src/LocalQueue/Sound/Writes.antt =====
-- Each write to the queue keeps the invariant.
use people_counter.Prelude.{
  ◌≡◌, refl, sym, ◌∙◌, ap, inl, inr, String, Bool, true, false, Option, none, some, opt_is, List,
  [], ◌∷◌, arith, eq_iff, Bool-cases,
}
use people_counter.Prelude.Rows.{update, any}
use people_counter.Prelude.Keys.{Distinct-update}
use people_counter.Prelude.Membership.{In, All-In, All_of_In, In-update, In-update_inv}
use people_counter.LocalQueue.{Message}
use people_counter.LocalQueue.Sound.{IsSoundMessage, TokensUnique, IsSound, is_terminal, Kept}

none≢some : {t : String} → none ≡ some t → ⊥
none≢some h = cc

pub opt_is-some : (o : Option String) (t : String) → opt_is o t ≡ true → o ≡ some t
opt_is-some none t h = cc
opt_is-some (some u) t h = ap some ((eq_iff u t).0 h)

not_both : {b : Bool} → b ≡ false → b ≡ true → ⊥
not_both p q = grind arith

-- An UPDATE that changes neither id nor key, and no terminal message.
pub update-Kept :
    (p : Message → Bool) (f : Message → Message) (q : List Message)
    → ((m : Message) → (f m).message_id ≡ m.message_id)
    → ((m : Message) → (f m).idempotency_key ≡ m.idempotency_key)
    → ((m : Message)
        → In m q
        → IsSoundMessage m
        → p m ≡ true
        → IsSoundMessage (f m) × (is_terminal m ≡ false))
    → TokensUnique (update p f q)
    → IsSound q
    → Kept q (update p f q)
update-Kept p f q id key keep tokens h = record {
  sound = record {
    rows = All_of_In IsSoundMessage _ row;
    ids = Distinct-update (λ m. m.message_id) p f id q h.ids;
    keys = Distinct-update (λ m. m.idempotency_key) p f key q h.keys;
    tokens = tokens;
  };
  terminal = λ m e k. elim (Bool-cases (p m)) [
    | inl t ↦ absurd (not_both (keep m k (All-In _ q m h.rows k) t).1 e)
    | inr t ↦ In-update p f m q t k
  ];
}
  where
    row : (y : Message) → In y (update p f q) → IsSoundMessage y
    row y k = elim (In-update_inv p f y q k) [
      | inl (m, _) ↦ All-In _ q y h.rows m
      | inr (x, m, t, e) ↦ rw e (keep x m (All-In _ q x h.rows m) t).0
    ]

-- Tokens stay unique when the rows that are written lose theirs,
pub unique_cleared :
    (p : Message → Bool) (f : Message → Message) (q : List Message)
    → ((m : Message) → (f m).lock_token ≡ none)
    → TokensUnique q
    → TokensUnique (update p f q)
unique_cleared p f q clear h x y t k l a b = h x y t (from x k a) (from y l b) a b
  where
    from : (z : Message) → In z (update p f q) → z.lock_token ≡ some t → In z q
    from z m e = elim (In-update_inv p f z q m) [
      | inl (n, _) ↦ n
      | inr (w, n, _, r) ↦ absurd (none≢some (sym (clear w) ∙ rw r at e))
    ]

-- or keep theirs,
pub unique_kept :
    (p : Message → Bool) (f : Message → Message) (q : List Message)
    → ((m : Message) → (f m).lock_token ≡ m.lock_token)
    → TokensUnique q
    → TokensUnique (update p f q)
unique_kept p f q keep h x y t k l a b = elim (In-update_inv p f x q k) [
  | inl (m, c) ↦ elim (In-update_inv p f y q l) [
    | inl (n, _) ↦ h x y t m n a b
    | inr (v, n, d, r) ↦ absurd (not_both c (rw (← h x v t m n a (sym (keep v) ∙ rw r at b)) at d))
  ]
  | inr (u, m, c, r) ↦ elim (In-update_inv p f y q l) [
    | inl (n, d) ↦ absurd (not_both d (rw (h u y t m n (sym (keep u) ∙ rw r at a) b) at c))
    | inr (v, n, _, s) ↦
        r ∙ ap f (h u v t m n (sym (keep u) ∙ rw r at a) (sym (keep v) ∙ rw s at b)) ∙ sym s
  ]
]

-- or one row takes a token that no row has.
pub unique_taken :
    (p : Message → Bool) (f : Message → Message) (token : String) (q : List Message)
    → ((m : Message) → (f m).lock_token ≡ some token)
    → ((u v : Message) → In u q → In v q → p u ≡ true → p v ≡ true → u ≡ v)
    → any (λ m. opt_is m.lock_token token) q ≡ false
    → TokensUnique q
    → TokensUnique (update p f q)
unfolding any
unique_taken p f token q take one free h x y t k l a b = elim (In-update_inv p f x q k) [
  | inl (m, _) ↦ elim (In-update_inv p f y q l) [
    | inl (n, _) ↦ h x y t m n a b
    | inr (v, n, _, r) ↦ absurd (unused q x free m (a ∙ sym (rw r at b) ∙ take v))
  ]
  | inr (u, m, c, r) ↦ elim (In-update_inv p f y q l) [
    | inl (n, _) ↦ absurd (unused q y free n (b ∙ sym (rw r at a) ∙ take u))
    | inr (v, n, d, s) ↦ r ∙ ap f (one u v m n c d) ∙ sym s
  ]
]
  where
    unused :
        (q : List Message) (z : Message)
        → any (λ m. opt_is m.lock_token token) q ≡ false
        → In z q
        → z.lock_token ≡ some token
        → ⊥
    unused [] z e m r = m
    unused (w ∷ q) z e (inr m) r = unused q z (ground arith) m r
    unused (w ∷ q) z e (inl m) r =
        let s : w.lock_token ≡ some token = rw m at r in
        let u : opt_is w.lock_token token ≡ true = rw s ((eq_iff token token).1 refl) in
        not_both e (rw u refl)
