-- ===== src/LocalQueue/Enqueued.antt =====
-- A message that is enqueued again.
use people_counter.Prelude.{
  ℕ, ◌≡◌, refl, sym, ◌∙◌, ap, String, true, ◌&&◌, Option, none, some, List, [], ◌∷◌, ◌++◌, arith,
  nat_eq, leb, ◌==◌, eq_iff, ok, err, Error, bind-ok, require-true, bind_returned, require_returned,
  ok_inj, Bool-cases, inl, inr,
}
use people_counter.Prelude.Rows.{find, any}
use people_counter.Prelude.Lookup.{find-append_last}
use people_counter.LocalQueue.{
  Message, has_key, has_message_id, new_message, enqueue_row, enqueue, stripped_text,
}

-- The message of the key is there, with the content, and its id is what the caller is told.
record IsEnqueued (sha256 : String → String) (key payload : String) (limit : ℕ) (r : List Message)
    (a : String) : Type 0 where
  row : Message
  found : find (has_key key) r ≡ some row
  content : (row.payload_sha256 == sha256 payload && nat_eq row.max_delivery_count limit) ≡ true
  told : a ≡ row.message_id

enqueue_row-IsEnqueued :
    (sha256 : String → String) (id key payload : String) (limit : ℕ) (at : Option ℕ) (now : ℕ)
    (o : Option Message) (q r : List Message) (a : String)
    → find (has_key key) q ≡ o
    → enqueue_row sha256 id key payload limit at now o q ≡ ok (r, a)
    → IsEnqueued sha256 key payload limit r a
unfolding enqueue_row
enqueue_row-IsEnqueued sha256 id key payload limit at now none q r a e h =
    elim (Bool-cases (any (has_message_id id) q)) [
      | inl t ↦ absurd (err_ok (rw t at h))
      | inr t ↦
          let m = new_message sha256 id key payload limit at now in
          let p : (q ++ m ∷ [], id) ≡ (r, a) = ok_inj (rw t at h) in
          record {
            row = m;
            found = rw (← ap (λ (x : List Message × String). x.0) p) (
                find-append_last (has_key key) m q e
                  (unfold new_message in (eq_iff key key).1 refl));
            content = unfold new_message in content;
            told = sym (ap (λ (x : List Message × String). x.1) p);
          }
    ]
  where
    content : (sha256 payload == sha256 payload && nat_eq limit limit) ≡ true
    content = grind (arith, eq_iff (sha256 payload) (sha256 payload))

    err_ok : {e : Error} {p : List Message × String} → err e ≡ ok p → ⊥
    err_ok q = cc
enqueue_row-IsEnqueued sha256 id key payload limit at now (some m) q r a e h =
    elim (Bool-cases (m.payload_sha256 == sha256 payload && nat_eq m.max_delivery_count limit)) [
      | inl k ↦
          let p : (q, m.message_id) ≡ (r, a) = ok_inj (rw k at h) in
          record {
            row = m;
            found = rw (← ap (λ (x : List Message × String). x.0) p) e;
            content = k;
            told = sym (ap (λ (x : List Message × String). x.1) p);
          }
      | inr k ↦ absurd (err_ok (rw k at h))
    ]
  where
    err_ok : {e : Error} {p : List Message × String} → err e ≡ ok p → ⊥
    err_ok q = cc

-- If `enqueue` returns a queue and a message id, then to enqueue the same key, payload and limit on that
-- queue again, at any time and with any other id to give, returns the same queue and the same message id.
pub enqueue-enqueue :
    (sha256 : String → String) (id other key payload : String) (limit : ℕ) (at : Option ℕ)
    (now later : ℕ) (q r : List Message) (a : String)
    → enqueue sha256 id key payload limit at now q ≡ ok (r, a)
    → enqueue sha256 other key payload limit at later r ≡ ok (r, a)
unfolding enqueue enqueue_row
enqueue-enqueue sha256 id other key payload limit at now later q r a h =
    let (k, text, h1) = bind_returned (stripped_text key) _ h in
    let (bound, h2) = require_returned (leb 1 limit && leb limit 100) _ _ h1 in
    let i =
      enqueue_row-IsEnqueued sha256 id k payload limit at now _ q r a refl
        (unfold enqueue_row in h2) in
    bind-ok _ text ∙ require-true _ _ bound ∙ rw (i.found, i.content, i.told) refl
