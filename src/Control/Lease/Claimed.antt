-- ===== src/Control/Lease/Claimed.antt =====
-- What a claim that returns has done.
use people_counter.Prelude.{
  ℕ, ◌+◌, ◌≤◌, ◌≡◌, refl, sym, ◌∙◌, String, true, ◌||◌, Option, none, some, List, arith, ltb,
  length, map, take, length-take, All, All-take, ok, err, Error, inl, inr, ok_inj, Returns,
  Returns-ok, Returns-require, Returns-if, Returns-bind, Returns-option,
}
use people_counter.Prelude.Rows.{select}
use people_counter.Control.Tables.{Work, ClaimedBatch, Codec, Store}
use people_counter.Control.Admission.{
  Settings, claim_admission_settings, fits, largest_admissible_prefix,
}
use people_counter.Control.Admission.Prefix.{largest_admissible_prefix_lem}
use people_counter.Control.Claim.{
  ClaimArgs, check_claim, eligible, active_limit_reached, empty_scope, choose_runtime, queue_rows,
}
use people_counter.Control.Lease.{Lease, lease_rows, claim_runtime, claim_transaction, claim}
use people_counter.Control.Lease.Items.{
  IsLeasedTo, lease_items-IsLeasedTo, IsClaimOf, IsReadyRow, claim_items-IsClaimOf,
  queue_rows-IsReadyRow,
}

-- What a claim that returns a batch has done, at the settings that its admission gave.
pub record IsClaim (now : ℕ) (a : ClaimArgs) (s t : Store) (b : ClaimedBatch) : Type 0 where
  pub at_least : a.minimum_items ≤ length b.items
  pub at_most : length b.items ≤ a.max_items
  pub expiry : b.lease_expires_at ≡ now + a.lease_seconds
  pub claimed : All (IsClaimOf now s.work) b.items
  pub leased : All (IsLeasedTo a.owner b.lease_expires_at t.work) b.items
  pub settings : Settings
  pub settled : claim_admission_settings a.admission ≡ ok settings
  pub rows : List Work
  pub admitted : fits settings a.lease_seconds rows ≡ true
  pub named : map (λ i. i.work_id) b.items ≡ map (λ w. w.work_id) rows
  pub ready : All (IsReadyRow now s.work) rows

abbrev pub ClaimOutcome : ℕ → ClaimArgs → Store → Store × Option ClaimedBatch → Type 0
ClaimOutcome now a s (t, none) = t ≡ s
ClaimOutcome now a s (t, some b) = IsClaim now a s t b

-- What `lease_rows` returns for the rows `ws`.
record IsLeasing (now : ℕ) (l : Lease) (ws : List Work) (s : Store) (p : Store × ClaimedBatch)
    : Type 0 where
  named : map (λ i. i.work_id) p.1.items ≡ map (λ w. w.work_id) ws
  count : length p.1.items ≡ length ws
  expiry : p.1.lease_expires_at ≡ l.expires
  claimed : All (IsClaimOf now s.work) p.1.items
  leased : All (IsLeasedTo l.owner l.expires p.0.work) p.1.items

lease_rows-IsLeasing :
    (c : Codec) (ids : ℕ → String) (now : ℕ) (l : Lease) (t : Settings) (ws : List Work) (s : Store)
    → All (IsReadyRow now s.work) ws
    → Returns (IsLeasing now l ws s) (lease_rows c ids l t ws s)
unfolding lease_rows
lease_rows-IsLeasing c ids now l t ws s h = Returns-bind _ _ λ items e.
    let (m, n, k) = (claim_items-IsClaimOf now s.work ids 1 ws h).at items e in
    Returns-bind _ _ λ batches _. Returns-bind _ _ λ s' q. Returns-ok _ (record {
      named = m;
      count = n;
      expiry = refl;
      claimed = k;
      leased = (lease_items-IsLeasedTo l 0 items _).at s' q;
    })

-- The admitted rows are a prefix of the queue, of an allowed size, that fits the lease.
record IsAdmitted (t : Settings) (lease minimum : ℕ) (queue rows : List Work) : Type 0 where
  size : ℕ
  prefix : rows ≡ take size queue
  at_least : minimum ≤ length rows
  at_most : length rows ≤ length queue
  fit : fits t lease rows ≡ true

largest-IsAdmitted :
    (t : Settings) (lease minimum : ℕ) (queue : List Work)
    → minimum ≤ length queue
    → Returns (IsAdmitted t lease minimum queue) (largest_admissible_prefix t lease minimum queue)
largest-IsAdmitted t lease minimum queue h =
    elim (largest_admissible_prefix_lem t lease queue minimum h) [
      | inl (n, e, k) ↦ record {
        at = λ rows q.
            let r : take n queue ≡ rows = ok_inj (sym e ∙ q) in
            let size : length (take n queue) ≡ n =
              omega (arith, length-take n queue, k.at_most, k.at_least) in
            record {
              size = n;
              prefix = sym r;
              at_least = low rows r size k.at_least;
              at_most = high n rows r;
              fit = rw r at k.admitted;
            };
      }
      | inr (e, _) ↦ record { at = λ rows q. absurd (err_ok (sym e ∙ q)) }
    ]
  where
    low :
        {n : ℕ} (rows : List Work)
        → take n queue ≡ rows
        → length (take n queue) ≡ n
        → minimum ≤ n
        → minimum ≤ length rows
    low rows r e k = rw (← r) (omega (arith, e, k))

    high : (n : ℕ) (rows : List Work) → take n queue ≡ rows → length rows ≤ length queue
    high n rows r = rw (← r) (omega (arith, length-take n queue))

    err_ok : {e : Error} {rows : List Work} → err e ≡ ok rows → ⊥
    err_ok q = cc

claim_runtime-ClaimOutcome :
    (c : Codec) (now : ℕ) (ids : ℕ → String) (a : ClaimArgs) (t : Settings)
    (scope : Option (List String)) (key : String) (s : Store)
    → claim_admission_settings a.admission ≡ ok t
    → Returns (ClaimOutcome now a s) (claim_runtime c now ids a t scope key s)
unfolding claim_runtime
claim_runtime-ClaimOutcome c now ids a t scope key s settled =
    let queue = queue_rows scope now key a.max_items s.work in
    let (rows, limit) = queue_rows-IsReadyRow scope now key a.max_items s.work in
    Returns-if (ltb (length queue) a.minimum_items) _ _ (λ _. Returns-ok _ refl)
      λ enough.
        Returns-bind (largest_admissible_prefix t a.lease_seconds a.minimum_items queue) _
          λ admitted e.
            let i =
              (largest-IsAdmitted t a.lease_seconds a.minimum_items queue (ground arith)).at
                admitted e in
            let ready : All (IsReadyRow now s.work) admitted =
              rw i.prefix (All-take _ i.size queue rows) in
            Returns-bind _ _ λ batch_id _. Returns-bind _ _ λ claimed q.
              let p = (lease_rows-IsLeasing c ids now _ t admitted s ready).at claimed q in
              Returns-ok _ (record {
                at_least = omega (arith, p.count, i.at_least);
                at_most = omega (arith, p.count, i.at_most, limit);
                expiry = p.expiry;
                claimed = p.claimed;
                leased = rw p.expiry p.leased;
                settings = t;
                settled = settled;
                rows = admitted;
                admitted = i.fit;
                named = p.named;
                ready = ready;
              })

claim_transaction-ClaimOutcome :
    (c : Codec) (now : ℕ) (ids : ℕ → String) (a : ClaimArgs) (t : Settings)
    (scope : Option (List String)) (s : Store)
    → claim_admission_settings a.admission ≡ ok t
    → Returns (ClaimOutcome now a s) (claim_transaction c now ids a t scope s)
unfolding claim_transaction
claim_transaction-ClaimOutcome c now ids a t scope s settled =
    Returns-if (active_limit_reached a.maximum_active_batches s.batches || empty_scope scope) _ _
      (λ _. Returns-ok _ refl)
      λ _. Returns-bind _ _ λ u _.
        Returns-option (choose_runtime a.minimum_items (select (eligible scope now) s.work)) _ _
          (λ _. Returns-ok _ refl)
          (λ key _. claim_runtime-ClaimOutcome c now ids a t scope key s settled)

check_claim-settled :
    (a : ClaimArgs)
    → Returns
        (λ (p : Settings × Option (List String)). claim_admission_settings a.admission ≡ ok p.0)
        (check_claim a)
unfolding check_claim
check_claim-settled a = Returns-bind _ _ λ _ _. Returns-require _ _ _ λ _.
    Returns-require _ _ _ λ _. Returns-require _ _ _ λ _. Returns-bind _ _ λ _ _.
      Returns-bind _ _ λ t e. Returns-require _ _ _ λ _. Returns-bind _ _ λ scope _. Returns-ok _ e

-- If `claim` returns no batch, the store is unchanged. If it returns a batch, then the batch has between
-- `minimum_items` and `max_items` items and a lease of `lease_seconds` from now; each item is of a row
-- that was ready and available, with the next fence; each item's row is now leased to the owner under
-- that fence until the end of the lease; and the rows of those items fit the lease by the admission
-- settings.
pub claim-ClaimOutcome :
    (c : Codec) (now : ℕ) (ids : ℕ → String) (a : ClaimArgs) (s : Store)
    (p : Store × Option ClaimedBatch)
    → claim c now ids a s ≡ ok p
    → ClaimOutcome now a s p
unfolding claim
claim-ClaimOutcome c now ids a s p = all.at p
  where
    all : Returns (ClaimOutcome now a s) (claim c now ids a s)
    all = Returns-bind _ _ λ q e.
        let (t, scope) = q in
        claim_transaction-ClaimOutcome c now ids a t scope s ((check_claim-settled a).at q e)
