-- ===== src/LocalQueue/Sound/Deliveries.antt =====
-- `enqueue` and `claim` keep the invariant, and the terminal messages. A row is locked with the count
-- that was read before the loop.
use people_counter.Prelude.{
  ℕ, zero, suc, ◌+◌, ◌≤◌, ◌<◌, ◌≡◌, refl, sym, ◌∙◌, ap, inl, inr, String, true, false, ◌&&◌,
  &&-true, leb→le, Option, none, some, List, [], ◌∷◌, ◌++◌, arith, All, All-append, All-take,
  nat_eq, ltb, leb, length, ◌==◌, eq_iff, Returns, Returns-ok, Returns-err, Returns-require,
  Returns-if, Returns-bind, take,
}
use people_counter.Prelude.Rows.{update, any, find, All-update_cases}
use people_counter.Prelude.Sorting.{All-sort}
use people_counter.Prelude.Keys.{Distinct, Distinct-append, find-Fresh, Fresh}
use people_counter.Prelude.Membership.{All-In, All_of_In, In-append, In-append_inv, In-select_inv}
use people_counter.Prelude.Unique.{In-Distinct, Distinct-sort, Distinct-select}
use people_counter.Prelude.Lookup.{find_absent}
use people_counter.LocalQueue.{
  Message, ClaimedMessage, is_ready, has_key, has_message_id, recover_expired, new_message,
  enqueue_row, enqueue,
}
use people_counter.LocalQueue.Lock.{
  takes, locked_message, token_used, claim_rows, message_order, deliverable, claim,
}
use people_counter.LocalQueue.Sound.{IsSoundMessage, IsSound, is_terminal, Kept}
use people_counter.LocalQueue.Sound.Writes.{update-Kept, unique_taken}
use people_counter.LocalQueue.Sound.Operations.{
  KeptFirst, Kept-refl, Kept-trans, recover_expired-Kept,
}

insert-Kept :
    (m : Message) (q : List Message)
    → IsSoundMessage m
    → m.lock_token ≡ none
    → find (has_key m.idempotency_key) q ≡ none
    → find (has_message_id m.message_id) q ≡ none
    → IsSound q
    → Kept q (q ++ m ∷ [])
insert-Kept m q s n key id h = record {
  sound = record {
    rows = All-append IsSoundMessage q _ h.rows (s, tt);
    ids =
        Distinct-append (λ v. v.message_id) q m (find-Fresh (λ v. v.message_id) m.message_id q id)
          h.ids;
    keys =
        Distinct-append (λ v. v.idempotency_key) q m
          (find-Fresh (λ v. v.idempotency_key) m.idempotency_key q key) h.keys;
    tokens = λ x y t k l a b. elim (In-append_inv x q (m ∷ []) k) [
      | inl i ↦ elim (In-append_inv y q (m ∷ []) l) [
        | inl j ↦ h.tokens x y t i j a b
        | inr (inl e) ↦ absurd (none_some (sym n ∙ rw e at b))
        | inr (inr e) ↦ absurd e
      ]
      | inr (inl e) ↦ absurd (none_some (sym n ∙ rw e at a))
      | inr (inr e) ↦ absurd e
    ];
  };
  terminal = λ v e k. In-append v q (m ∷ []) k;
}
  where
    none_some : {t : String} → none ≡ some t → ⊥
    none_some e = cc

pub enqueue-Kept :
    (sha256 : String → String) (id key payload : String) (limit : ℕ) (at : Option ℕ) (now : ℕ)
    (q : List Message)
    → IsSound q
    → Returns (KeptFirst {A = String} q) (enqueue sha256 id key payload limit at now q)
unfolding enqueue
enqueue-Kept sha256 id key payload limit at now q h =
    Returns-bind _ _ λ k _. Returns-require _ _ _ λ e. row k _ refl (leb→le 1 limit (&&-true e).0)
  where
    row :
        (k : String) (o : Option Message)
        → find (has_key k) q ≡ o
        → 1 ≤ limit
        → Returns (KeptFirst {A = String} q) (enqueue_row sha256 id k payload limit at now o q)
    row k none e p =
        unfold enqueue_row in
        Returns-if (any (has_message_id id) q) _ _ (λ _. Returns-err _)
          λ f. Returns-ok _ (
            unfold new_message in
            insert-Kept _ q (ground arith) refl e (find_absent (has_message_id id) q f) h)
    row k (some m) e p =
        unfold enqueue_row in
        Returns-if (m.payload_sha256 == sha256 payload && nat_eq m.max_delivery_count limit) _ _
          (λ _. Returns-ok _ (Kept-refl q h)) (λ _. Returns-err _)

-- The rows of id `k` have the counts of `row`.
abbrev Current : List Message → Message → Type 0
Current q row =
    All
      (λ m.
        m.message_id ≡ row.message_id
        → (m.delivery_count ≡ row.delivery_count) × (m.max_delivery_count ≡ row.max_delivery_count))
      q

abbrev ReadyRow : Message → Type 0
ReadyRow row = row.delivery_count < row.max_delivery_count

claim_row-Kept :
    (token owner : String) (expires now : ℕ) (row : Message) (q : List Message)
    → ReadyRow row
    → Current q row
    → token_used token q ≡ false
    → IsSound q
    → Kept q
        (update (takes row) (locked_message token owner expires now (row.delivery_count + 1)) q)
unfolding locked_message
claim_row-Kept token owner expires now row q r c free h =
    update-Kept (takes row) _ q (λ m. refl) (λ m. refl)
      (λ m k s e.
        let id : m.message_id ≡ row.message_id =
          (eq_iff m.message_id row.message_id).0 (&&-true e).0 in
        good m s (All-In _ q m c k id) e)
      (unique_taken (takes row) _ token q (λ m. refl)
        (λ u v k l a b.
          In-Distinct (λ m. m.message_id) u v q h.ids k l
            ((eq_iff u.message_id row.message_id).0 (&&-true a).0
              ∙ sym ((eq_iff v.message_id row.message_id).0 (&&-true b).0)))
        free h.tokens)
      h
  where
    good :
        (m : Message)
        → IsSoundMessage m
        → (m.delivery_count ≡ row.delivery_count) × (m.max_delivery_count ≡ row.max_delivery_count)
        → takes row m ≡ true
        → IsSoundMessage (locked_message token owner expires now (row.delivery_count + 1) m)
          × (is_terminal m ≡ false)
    good m s n e = ground arith

claim_rows-Kept :
    (tokens : ℕ → String) (n : ℕ) (owner : String) (expires now : ℕ) (rows q : List Message)
    → All ReadyRow rows
    → All (Current q) rows
    → Distinct (λ m. m.message_id) rows
    → IsSound q
    → Returns (KeptFirst {A = List ClaimedMessage} q) (claim_rows tokens n owner expires now rows q)
unfolding claim_rows
claim_rows-Kept tokens n owner expires now [] q r c d h = Returns-ok _ (Kept-refl q h)
claim_rows-Kept tokens n owner expires now (row ∷ rows) q r c d h = Returns-require _ _ _ λ free.
    let q' =
      update (takes row) (locked_message (tokens n) owner expires now (row.delivery_count + 1)) q in
    let k : Kept q q' =
      claim_row-Kept (tokens n) owner expires now row q r.0 c.0 (ground arith) h in
    Returns-bind (claim_rows tokens (n + 1) owner expires now rows q') _ λ p e. Returns-ok _ (
      Kept-trans q q' p.0 k (
        (claim_rows-Kept tokens (n + 1) owner expires now rows q' r.1 (later rows d.0 c.1) d.1
            k.sound).at
          p e))
  where
    later :
        (others : List Message)
        → Fresh (λ m. m.message_id) row.message_id others
        → All (Current q) others
        → All
            (Current (
              update
                (takes row)
                (locked_message (tokens n) owner expires now (row.delivery_count + 1))
                q))
            others
    later [] f a = tt
    later (o ∷ os) f a = (
      All-update_cases _ _ (takes row) _
          (λ m g t i. absurd (
            f.0 (
              sym (unfold locked_message in i)
              ∙ (eq_iff m.message_id row.message_id).0 (&&-true t).0)))
          (λ m g _. g) q a.0,
      later os f.1 a.1,
    )

pub deliverable_rows :
    (now limit : ℕ) (q : List Message)
    → IsSound q
    → All ReadyRow (deliverable now limit q)
      × All (Current q) (deliverable now limit q)
      × Distinct (λ m. m.message_id) (deliverable now limit q)
unfolding deliverable
deliverable_rows now limit q h = (
  All-take _ limit _ (
      All-sort _ message_order _ (
        All_of_In _ _ (λ m k.
          let (i, e) = In-select_inv (λ v. is_ready v.state && leb v.available_at now) m q k in
          (All-In _ q m h.rows i).room (&&-true e).0))),
  All-take _ limit _ (
      All-sort _ message_order _ (
        All_of_In _ _ (λ m k.
          let (i, e) = In-select_inv (λ v. is_ready v.state && leb v.available_at now) m q k in
          All_of_In _ q (λ v j s.
            let same : v ≡ m = In-Distinct (λ x. x.message_id) v m q h.ids j i s in
            (
              ap (λ (x : Message). x.delivery_count) same,
              ap (λ (x : Message). x.max_delivery_count) same,
            ))))),
  take-Distinct limit _ (
      Distinct-sort (λ m. m.message_id) message_order _
        (Distinct-select (λ m. m.message_id) _ q h.ids)),
)
  where
    take-Distinct :
        (n : ℕ) (xs : List Message)
        → Distinct (λ m. m.message_id) xs
        → Distinct (λ m. m.message_id) (take n xs)
    take-Distinct zero xs d = tt
    take-Distinct (suc n) [] d = tt
    take-Distinct (suc n) (x ∷ xs) d = (All-take _ n xs d.0, take-Distinct n xs d.1)

pub claim-Kept :
    (tokens : ℕ → String) (limit : ℕ) (owner : String) (lock_seconds minimum now : ℕ)
    (q : List Message)
    → IsSound q
    → Returns
        (KeptFirst {A = List ClaimedMessage} q)
        (claim tokens limit owner lock_seconds minimum now q)
unfolding claim
claim-Kept tokens limit owner lock_seconds minimum now q h = Returns-require _ _ _ λ _.
    Returns-require _ _ _ λ _. Returns-bind _ _ λ owner_id _. Returns-bind _ _ λ lease _.
      let q' = (recover_expired now q).0 in
      let k : Kept q q' = recover_expired-Kept now q h in
      let (r, c, d) = deliverable_rows now limit q' k.sound in
      Returns-if (ltb (length (deliverable now limit q')) minimum) _ _ (λ _. Returns-ok _ k)
        λ _. record {
          at = λ p e. Kept-trans q q' p.0 k (
              (claim_rows-Kept tokens 0 owner_id (now + lease) now (deliverable now limit q') q' r c
                  d k.sound).at
                p e);
        }
