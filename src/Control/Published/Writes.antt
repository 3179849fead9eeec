-- ===== src/Control/Published/Writes.antt =====
-- Each write of the store keeps what is published.
use people_counter.Prelude.{
  ℕ, ◌+◌, ◌≡◌, refl, sym, ◌∙◌, ap, inl, inr, String, Bool, true, false, some, List, [], ◌∷◌, ◌++◌,
  arith, eq_iff,
}
use people_counter.Prelude.Rows.{update, count}
use people_counter.Prelude.Membership.{
  In-update, In-update_at, In-update_inv, In-append, In-append_last, In-append_inv, count-In,
}
use people_counter.Control.Tables.{Work, is_succeeded, Publication, Store}
use people_counter.Control.Process.{owns}
use people_counter.Control.Commit.{published}
use people_counter.Control.Published.{IsPublishedAs, Numbered, Grows}

not_both : {b : Bool} → b ≡ false → b ≡ true → ⊥
not_both p q = grind arith

pub Grows-trans : (s t u : Store) → Grows s t → Grows t u → Grows s u
Grows-trans s t u h k = record {
  work = λ w e m. k.work w e (h.work w e m);
  log = λ p m. k.log p (h.log p m);
  published = λ i. k.published (h.published i);
}

-- A write to other tables.
pub Grows-same :
    (s t : Store)
    → t.work ≡ s.work
    → t.publications ≡ s.publications
    → t.last_sequence ≡ s.last_sequence
    → Grows s t
Grows-same s t e f g = record {
  work = λ w _ m. rw e m;
  log = λ p m. rw f m;
  published = λ i. record {
    rows = λ p m. rw e (i.rows p (rw f at m));
    publications = λ w m q. rw f (i.publications w (rw e at m) q);
    numbered = rw (f, g) i.numbered;
  };
}

-- An UPDATE of work that has not succeeded, and does not then.
pub Grows-update :
    (p : Work → Bool) (f : Work → Work) (s t : Store)
    → t.work ≡ update p f s.work
    → t.publications ≡ s.publications
    → t.last_sequence ≡ s.last_sequence
    → ((w : Work)
        → p w ≡ true
        → (is_succeeded w.status ≡ false) × (is_succeeded (f w).status ≡ false))
    → Grows s t
Grows-update p f s t e g l h = record {
  work = λ w q m. rw e (In-update p f w s.work (other w q) m);
  log = λ q m. rw g m;
  published = λ i. record {
    rows = λ q m.
        let (w, k, v) = i.rows q (rw g at m) in
        (w, rw e (In-update p f w s.work (other w v.status) k), v);
    publications = λ w m q. rw g (elim (In-update_inv p f w s.work (rw e at m)) [
      | inl (k, _) ↦ i.publications w k q
      | inr (x, k, t, r) ↦ absurd (not_both (h x t).1 (rw r at q))
    ]);
    numbered = rw (g, l) i.numbered;
  };
}
  where
    other : (w : Work) → is_succeeded w.status ≡ true → p w ≡ false
    other w q = by_value (p w) refl
      where
        by_value : (b : Bool) → p w ≡ b → p w ≡ false
        by_value true t = absurd (not_both (h w t).0 q)
        by_value false t = t

-- An INSERT of work that has not succeeded.
pub Grows-insert :
    (w : Work) (s t : Store)
    → t.work ≡ s.work ++ w ∷ []
    → t.publications ≡ s.publications
    → t.last_sequence ≡ s.last_sequence
    → is_succeeded w.status ≡ false
    → Grows s t
Grows-insert w s t e g l n = record {
  work = λ v q m. rw e (In-append v s.work (w ∷ []) m);
  log = λ q m. rw g m;
  published = λ i. record {
    rows =
        λ q m. let (v, k, a) = i.rows q (rw g at m) in (v, rw e (In-append v s.work (w ∷ []) k), a);
    publications = λ v m q. rw g (elim (In-append_inv v s.work (w ∷ []) (rw e at m)) [
      | inl k ↦ i.publications v k q
      | inr (inl r) ↦ absurd (not_both n (rw r at q))
      | inr (inr k) ↦ absurd k
    ]);
    numbered = rw (g, l) i.numbered;
  };
}

Numbered-append :
    (n m : ℕ) (ps : List Publication) (p : Publication)
    → Numbered n ps m
    → p.publication_sequence ≡ m + 1
    → Numbered n (ps ++ p ∷ []) (m + 1)
Numbered-append n m [] p h e = (omega arith, omega arith)
Numbered-append n m (q ∷ qs) p h e = (h.0, Numbered-append (n + 1) m qs p h.1 e)

-- The publication of the work that an attempt owns.
pub Grows-publish :
    (k a : String) (f n now : ℕ) (p : Publication) (s t : Store)
    → t.work ≡ update (owns k a f) (published a n now) s.work
    → t.publications ≡ s.publications ++ p ∷ []
    → t.last_sequence ≡ s.last_sequence + 1
    → count (owns k a f) s.work ≡ 1
    → p.publication_sequence ≡ s.last_sequence + 1
    → n ≡ s.last_sequence + 1
    → p.work_id ≡ k
    → p.attempt_id ≡ a
    → Grows s t
unfolding published
Grows-publish k a f n now p s t e g l one seq num work attempt = record {
  work = λ w q m. rw e (In-update (owns k a f) _ w s.work (other w q) m);
  log = λ q m. rw g (In-append q s.publications (p ∷ []) m);
  published = λ i. record {
    rows = λ q m. elim (In-append_inv q s.publications (p ∷ []) (rw g at m)) [
      | inl b ↦
          let (w, c, v) = i.rows q b in
          (w, rw e (In-update (owns k a f) _ w s.work (other w v.status) c), v)
      | inr (inl r) ↦
          let (w, c, o) = count-In (owns k a f) s.work one in
          (
            published a n now w,
            rw e (In-update_at (owns k a f) _ w s.work o c),
            rw r (as_published w o),
          )
      | inr (inr b) ↦ absurd b
    ];
    publications = λ w m q. rw g (elim (In-update_inv (owns k a f) _ w s.work (rw e at m)) [
      | inl (c, _) ↦
          let (r, b, v) = i.publications w c q in (r, In-append r s.publications (p ∷ []) b, v)
      | inr (x, c, o, r) ↦ (p, In-append_last p s.publications, rw r (as_published x o))
    ]);
    numbered = rw (g, l) (Numbered-append 0 s.last_sequence s.publications p i.numbered seq);
  };
}
  where
    other : (w : Work) → is_succeeded w.status ≡ true → owns k a f w ≡ false
    other w q = ground arith

    as_published : (w : Work) → owns k a f w ≡ true → IsPublishedAs (published a n now w) p
    as_published w o = record {
      status = refl;
      work = ground (arith, eq_iff w.work_id k);
      attempt = ap some (sym attempt);
      sequence = ap some (num ∙ sym seq);
    }
