-- ===== src/Control/Lease/Items.antt =====
-- The items of a claim: from which rows they are taken, and what the loop over them leaves.
use people_counter.Prelude.{
  ℕ, suc, ◌+◌, ◌≤◌, ◌≡◌, refl, ap, String, true, false, ◌&&◌, Option, some, List, [], ◌∷◌, arith,
  ◌==◌, eq_iff, length, map, length-take, All, All-take, Returns, Returns-ok, Returns-require,
  Returns-bind,
}
use people_counter.Prelude.Rows.{select}
use people_counter.Prelude.Sorting.{sort, All-sort}
use people_counter.Prelude.Membership.{
  In, All_of_In, In-update, In-update_at, In-select_inv, count-In,
}
use people_counter.Control.Tables.{Work, is_ready, ClaimedWork, Store}
use people_counter.Control.Process.{owns}
use people_counter.Control.Admission.{}
use people_counter.Control.Claim.{eligible, queue_order, queue_rows, claim_items}
use people_counter.Control.Lease.{Lease, leased_work, claims_row, lease_item, lease_items}

-- The item is leased to the owner, until the end of the lease.
abbrev pub IsLeasedTo : String → ℕ → List Work → ClaimedWork → Type 0
IsLeasedTo owner expires work i =
    (w : Work) × In w work
    × (owns i.work_id i.attempt_id i.fence w ≡ true)
    × (w.lease_owner ≡ some owner)
    × (w.lease_expires_at ≡ some expires)

lease_items-keeps :
    (l : Lease) (n : ℕ) (i : ClaimedWork) (js : List ClaimedWork) (s : Store)
    → IsLeasedTo l.owner l.expires s.work i
    → Returns (λ t. IsLeasedTo l.owner l.expires t.work i) (lease_items l n js s)
unfolding lease_items lease_item
lease_items-keeps l n i [] s h = Returns-ok s h
lease_items-keeps l n i (j ∷ js) s (w, m, o, e, x) =
    Returns-bind (lease_item l n j s) _ λ s' q. lease_items-keeps l (n + 1) i js s' (one.at s' q)
  where
    apart : claims_row j w ≡ false
    apart = ground arith

    one : Returns (λ t. IsLeasedTo l.owner l.expires t.work i) (lease_item l n j s)
    one = Returns-require _ _ _ λ _. Returns-bind _ _ λ attempts _.
        Returns-bind _ _
          λ members _. Returns-ok _ (w, In-update (claims_row j) _ w s.work apart m, o, e, x)

lease_item-IsLeasedTo :
    (l : Lease) (n : ℕ) (i : ClaimedWork) (s : Store)
    → Returns (λ t. IsLeasedTo l.owner l.expires t.work i) (lease_item l n i s)
unfolding lease_item leased_work
lease_item-IsLeasedTo l n i s = Returns-require _ _ _ λ one. Returns-bind _ _ λ attempts _.
    Returns-bind _ _ λ members _.
      let (w, m, q) = count-In (claims_row i) s.work (ground arith) in
      Returns-ok _ (
        leased_work l i w,
        unfold leased_work in In-update_at (claims_row i) (leased_work l i) w s.work q m,
        own w q,
        refl,
        refl,
      )
  where
    own :
        (w : Work)
        → claims_row i w ≡ true
        → owns i.work_id i.attempt_id i.fence (leased_work l i w) ≡ true
    own w q = ground (arith, eq_iff i.attempt_id i.attempt_id)

pub lease_items-IsLeasedTo :
    (l : Lease) (n : ℕ) (is : List ClaimedWork) (s : Store)
    → Returns (λ t. All (IsLeasedTo l.owner l.expires t.work) is) (lease_items l n is s)
unfolding lease_items
lease_items-IsLeasedTo l n [] s = Returns-ok s tt
lease_items-IsLeasedTo l n (i ∷ is) s = Returns-bind (lease_item l n i s) _ λ s' e.
    let first = (lease_item-IsLeasedTo l n i s).at s' e in
    record {
      at = λ t q. (
        (lease_items-keeps l (n + 1) i is s' first).at t q,
        (lease_items-IsLeasedTo l (n + 1) is s').at t q,
      );
    }

-- The item is claimed from a row of the table that was ready for it.
abbrev pub IsClaimOf : ℕ → List Work → ClaimedWork → Type 0
IsClaimOf now work i =
    (v : Work) × In v work
    × (i.work_id ≡ v.work_id)
    × (i.fence ≡ v.fence + 1)
    × (is_ready v.status ≡ true)
    × (v.available_at ≤ now)

abbrev pub IsReadyRow : ℕ → List Work → Work → Type 0
IsReadyRow now work v = In v work × (is_ready v.status ≡ true) × (v.available_at ≤ now)

pub claim_items-IsClaimOf :
    (now : ℕ) (work : List Work) (ids : ℕ → String) (n : ℕ) (ws : List Work)
    → All (IsReadyRow now work) ws
    → Returns
        (λ is.
          (map (λ i. i.work_id) is ≡ map (λ w. w.work_id) ws)
          × (length is ≡ length ws)
          × All (IsClaimOf now work) is)
        (claim_items ids n ws)
unfolding claim_items
claim_items-IsClaimOf now work ids n [] h = Returns-ok _ (refl, refl, tt)
claim_items-IsClaimOf now work ids n (w ∷ ws) h = Returns-bind _ _ λ a _.
    Returns-bind (claim_items ids (n + 1) ws) _ λ rest e.
      let (r, q, k) = (claim_items-IsClaimOf now work ids (n + 1) ws h.1).at rest e in
      Returns-ok _ (
        ap (λ (js : List String). w.work_id ∷ js) r,
        ap suc q,
        ((w, h.0.0, refl, refl, h.0.1, h.0.2), k),
      )

pub queue_rows-IsReadyRow :
    (scope : Option (List String)) (now : ℕ) (key : String) (limit : ℕ) (work : List Work)
    → All (IsReadyRow now work) (queue_rows scope now key limit work)
      × (length (queue_rows scope now key limit work) ≤ limit)
unfolding queue_rows eligible
queue_rows-IsReadyRow scope now key limit work = (
  All-take _ limit _ (
      All-sort _ queue_order _ (
        All_of_In _ _ (λ w m.
          let (k, e) = In-select_inv (λ v. eligible scope now v && v.runtime_key == key) w work m in
          (k, ground arith, ground arith)))),
  omega (
    arith,
    length-take limit
        (sort queue_order (select (λ w. eligible scope now w && w.runtime_key == key) work)),
  ),
)
