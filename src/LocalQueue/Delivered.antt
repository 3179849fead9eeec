-- ===== src/LocalQueue/Delivered.antt =====
-- What a claim of the local queue delivers.
use people_counter.Prelude.{
  ℕ, suc, ◌+◌, ◌≤◌, ◌≡◌, refl, ap, ◌⊎◌, inl, inr, String, true, false, ◌&&◌, &&-true, leb→le, some,
  List, [], ◌∷◌, arith, All, All-imp, All-take, ltb, leb, length, length-take, eq_iff, Bool-cases,
  ok, Returns, Returns-ok, Returns-require, Returns-if, Returns-bind,
}
use people_counter.Prelude.Rows.{update, select}
use people_counter.Prelude.Sorting.{sort, All-sort}
use people_counter.Prelude.Keys.{Distinct, Fresh}
use people_counter.Prelude.Membership.{In, All_of_In, In-update, In-update_at, In-select_inv}
use people_counter.LocalQueue.{Message, ClaimedMessage, is_ready, is_locked, recover_expired}
use people_counter.LocalQueue.Lock.{
  takes, locked_message, claim_rows, message_order, deliverable, claim,
}
use people_counter.LocalQueue.Sound.{IsSound}
use people_counter.LocalQueue.Sound.Operations.{recover_expired-Kept}
use people_counter.LocalQueue.Sound.Deliveries.{deliverable_rows}

-- A row that the claim may deliver.
abbrev IsOffered : ℕ → List Message → Message → Type 0
IsOffered now q row = In row q × (is_ready row.state ≡ true) × (row.available_at ≤ now)

-- The claim is of a row that was offered, and its message is locked with the claim's token.
abbrev pub IsTaken : ℕ → List Message → ClaimedMessage → Type 0
IsTaken now q c =
    (row : Message) × IsOffered now q row
    × (c.message_id ≡ row.message_id)
    × (c.delivery_count ≡ row.delivery_count + 1)

abbrev pub IsLockedAs : List Message → ClaimedMessage → Type 0
IsLockedAs r c =
    (m : Message) × In m r
    × (m.message_id ≡ c.message_id)
    × (is_locked m.state ≡ true)
    × (m.lock_token ≡ some c.lock_token)
    × (m.locked_until ≡ some c.locked_until)
    × (m.delivery_count ≡ c.delivery_count)

record IsDelivery (now : ℕ) (offered rows : List Message) (p : List Message × List ClaimedMessage)
    : Type 0 where
  counted : length p.1 ≡ length rows
  taken : All (IsTaken now offered) p.1
  locked : All (IsLockedAs p.0) p.1

claim_rows-keeps :
    (tokens : ℕ → String) (n : ℕ) (owner : String) (expires now : ℕ) (rows q : List Message)
    (m : Message)
    → is_locked m.state ≡ true
    → In m q
    → Returns (λ p. In m p.0) (claim_rows tokens n owner expires now rows q)
unfolding claim_rows
claim_rows-keeps tokens n owner expires now [] q m l k = Returns-ok _ k
claim_rows-keeps tokens n owner expires now (row ∷ rows) q m l k = Returns-require _ _ _ λ _.
    let q' =
      update (takes row) (locked_message (tokens n) owner expires now (row.delivery_count + 1)) q in
    let kept : In m q' = In-update (takes row) _ m q apart k in
    Returns-bind (claim_rows tokens (n + 1) owner expires now rows q') _ λ p e.
      Returns-ok _ ((claim_rows-keeps tokens (n + 1) owner expires now rows q' m l kept).at p e)
  where
    apart : takes row m ≡ false
    apart = ground arith

claim_rows-IsDelivery :
    (tokens : ℕ → String) (n : ℕ) (owner : String) (expires now : ℕ) (offered rows q : List Message)
    → All (IsOffered now offered) rows
    → All (λ r. In r q) rows
    → Distinct (λ m. m.message_id) rows
    → Returns (IsDelivery now offered rows) (claim_rows tokens n owner expires now rows q)
unfolding claim_rows locked_message
claim_rows-IsDelivery tokens n owner expires now offered [] q o k d =
    Returns-ok _ (record { counted = refl; taken = tt; locked = tt })
claim_rows-IsDelivery tokens n owner expires now offered (row ∷ rows) q o k d =
    Returns-require _ _ _ λ _.
      let f = locked_message (tokens n) owner expires now (row.delivery_count + 1) in
      let q' = update (takes row) f q in
      let mine : takes row row ≡ true = ground (arith, eq_iff row.message_id row.message_id) in
      let here_now : In (f row) q' = In-update_at (takes row) f row q mine k.0 in
      Returns-bind (claim_rows tokens (n + 1) owner expires now rows q') _ λ p e.
        let i =
          (claim_rows-IsDelivery tokens (n + 1) owner expires now offered rows q' o.1
              (others rows d.0 k.1) d.1).at
            p e in
        let stays : In (f row) p.0 =
          (claim_rows-keeps tokens (n + 1) owner expires now rows q' (f row) refl here_now).at p
            e in
        Returns-ok _ (record {
          counted = ap suc i.counted;
          taken = ((row, o.0, refl, refl), i.taken);
          locked = ((f row, stays, refl, refl, refl, refl, refl), i.locked);
        })
  where
    others :
        (ms : List Message)
        → Fresh (λ m. m.message_id) row.message_id ms
        → All (λ r. In r q) ms
        → All
            (λ r. In r (
              update
                (takes row)
                (locked_message (tokens n) owner expires now (row.delivery_count + 1))
                q))
            ms
    others [] g a = tt
    others (m ∷ ms) g a = (
      In-update (takes row) _ m q
          (elim (Bool-cases (takes row m)) [
            | inl t ↦ absurd (g.0 ((eq_iff m.message_id row.message_id).0 (&&-true t).0))
            | inr t ↦ t
          ])
          a.0,
      others ms g.1 a.1,
    )

deliverable-IsOffered :
    (now limit : ℕ) (q : List Message)
    → All (IsOffered now q) (deliverable now limit q) × (length (deliverable now limit q) ≤ limit)
unfolding deliverable
deliverable-IsOffered now limit q = (
  All-take _ limit _ (
      All-sort _ message_order _ (
        All_of_In _ _ (λ m k.
          let (i, e) = In-select_inv (λ v. is_ready v.state && leb v.available_at now) m q k in
          (i, (&&-true e).0, leb→le m.available_at now (&&-true e).1)))),
  omega (
    arith,
    length-take limit
        (sort message_order (select (λ m. is_ready m.state && leb m.available_at now) q)),
  ),
)

-- What a claim that returns has delivered.
pub record IsDelivered (limit minimum now : ℕ) (q r : List Message) (cs : List ClaimedMessage)
    : Type 0 where
  pub enough : (cs ≡ []) ⊎ (minimum ≤ length cs)
  pub limited : length cs ≤ limit
  pub taken : All (IsTaken now (recover_expired now q).0) cs
  pub locked : All (IsLockedAs r) cs

-- If `claim` of a queue that satisfies the invariant returns, then it returns no claim, or `minimum_count`
-- claims or more, and at most `limit`; each claim is of a message that was ready and available once the
-- expired locks were recovered, with the next delivery count; and that message is now locked with the
-- claim's token, until the claim's time.
pub claim-IsDelivered :
    (tokens : ℕ → String) (limit : ℕ) (owner : String) (lock_seconds minimum now : ℕ)
    (q r : List Message) (cs : List ClaimedMessage)
    → IsSound q
    → claim tokens limit owner lock_seconds minimum now q ≡ ok (r, cs)
    → IsDelivered limit minimum now q r cs
unfolding claim
claim-IsDelivered tokens limit owner lock_seconds minimum now q r cs h = all.at (r, cs)
  where
    q' : List Message
    q' = (recover_expired now q).0

    all :
        Returns
          (λ p. IsDelivered limit minimum now q p.0 p.1)
          (claim tokens limit owner lock_seconds minimum now q)
    all = Returns-require _ _ _ λ _. Returns-require _ _ _ λ _. Returns-bind _ _ λ owner_id _.
        Returns-bind _ _ λ lease _.
          let (offered, short) = deliverable-IsOffered now limit (recover_expired now q).0 in
          let rows = deliverable now limit (recover_expired now q).0 in
          let (_, _, d) =
            deliverable_rows now limit (recover_expired now q).0
              (recover_expired-Kept now q h).sound in
          Returns-if (ltb (length rows) minimum) _ _
            (λ _.
              Returns-ok _
                (record { enough = inl refl; limited = omega arith; taken = tt; locked = tt }))
            λ many. record {
              at = λ p e.
                  let i =
                    (claim_rows-IsDelivery tokens 0 owner_id (now + lease) now
                        (recover_expired now q).0 rows (recover_expired now q).0 offered
                        (All-imp _ _ (λ m o. o.0) rows offered) d).at
                      p e in
                  record {
                    enough = inr (ground (arith, i.counted));
                    limited = omega (arith, i.counted, short);
                    taken = i.taken;
                    locked = i.locked;
                  };
            }
