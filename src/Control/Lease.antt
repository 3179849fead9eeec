-- ===== src/Control/Lease.antt =====
-- The writes of `claim` in src/people_counter/sjd_control.py: the envelope, the batch, and for each
-- row the fenced update of the work, the attempt and the batch member.
mod Items
pub mod Claimed
use people_counter.Prelude.{
  ℕ, ◌+◌, ◌-◌, String, Bool, ◌&&◌, ◌||◌, Option, none, some, List, [], ◌∷◌, ◌++◌, ltb, nat_eq, ◌==◌,
  length, if◌then◌else◌, Result, ok, err, lease_lost, integrity_error, ◌>>=◌, ◌>>◌, require,
}
use people_counter.Prelude.Rows.{update, count, any, select}
use people_counter.Control.Tables.{
  Work, WorkStatus, is_ready, Batch, BatchStatus, Attempt, AttemptStatus, Member, Store,
  ClaimedWork, ClaimedBatch, Envelope, Codec, membership_digest,
}
use people_counter.Control.Texts.{new_id}
use people_counter.Control.Admission.{Settings, projection, largest_admissible_prefix}
use people_counter.Control.Claim.{
  ClaimArgs, check_claim, eligible, active_limit_reached, empty_scope,
  require_release_compatibility, choose_runtime, queue_rows, claim_items, envelope_items,
}

-- What the writes of one claim share.
pub record Lease : Type 0 where
  pub batch_id : String
  pub owner : String
  pub runtime_key : String
  pub now : ℕ
  pub expires : ℕ

-- WHERE work_id = ? AND status = 'READY' AND fence = ?
abbrev pub claims_row : ClaimedWork → Work → Bool
claims_row item w =
    w.work_id == item.work_id && is_ready w.status && nat_eq w.fence (item.fence - 1)

unfoldable pub leased_work : Lease → ClaimedWork → Work → Work
leased_work l item w = record w {
  status = WorkStatus.leased;
  attempt_count = w.attempt_count + 1;
  fence = item.fence;
  lease_owner = some l.owner;
  lease_attempt_id = some item.attempt_id;
  lease_expires_at = some l.expires;
  updated_at = l.now;
}

-- INSERT INTO attempts, with its PRIMARY KEY and UNIQUE(work_id, fence)
unfoldable pub insert_attempt : Lease → ClaimedWork → List Attempt → Result (List Attempt)
insert_attempt l item rows =
    if any
      (λ a.
        a.attempt_id == item.attempt_id || (a.work_id == item.work_id && nat_eq a.fence item.fence))
      rows
    then err integrity_error
    else ok (
        rows
        ++ record {
          attempt_id = item.attempt_id;
          work_id = item.work_id;
          batch_id = l.batch_id;
          fence = item.fence;
          status = AttemptStatus.leased;
          lease_expires_at = l.expires;
          payload_sha256 = item.payload_sha256;
          output_path = none;
          output_sha256 = none;
          terminal_succeeded = none;
          sealed_at = none;
          recovery_outcome = none;
          created_at = l.now;
        }
          ∷ [])

-- INSERT INTO batch_members, with its three keys
unfoldable pub insert_member : Lease → ℕ → ClaimedWork → List Member → Result (List Member)
insert_member l ordinal item rows =
    if any
      (λ m.
        m.attempt_id == item.attempt_id
        || (m.batch_id == l.batch_id && (nat_eq m.ordinal ordinal || m.work_id == item.work_id)))
      rows
    then err integrity_error
    else ok (
        rows
        ++ record {
          batch_id = l.batch_id;
          ordinal = ordinal;
          work_id = item.work_id;
          attempt_id = item.attempt_id;
          fence = item.fence;
          payload_sha256 = item.payload_sha256;
        }
          ∷ [])

-- One round of the loop over the claimed items.
unfoldable pub lease_item : Lease → ℕ → ClaimedWork → Store → Result Store
unfolding leased_work insert_attempt insert_member
lease_item l ordinal item s = do
  require (nat_eq (count (claims_row item) s.work) 1) lease_lost
  attempts ← insert_attempt l item s.attempts
  members ← insert_member l ordinal item s.batch_members
  ok (record s {
    work = update (claims_row item) (leased_work l item) s.work;
    attempts = attempts;
    batch_members = members;
  })

unfoldable pub lease_items : Lease → ℕ → List ClaimedWork → Store → Result Store
unfolding lease_item
lease_items l ordinal [] s = ok s
lease_items l ordinal (i ∷ is) s = do
  s' ← lease_item l ordinal i s
  lease_items l (ordinal + 1) is s'

unfoldable pub envelope_of : Codec → Lease → Settings → List Work → List ClaimedWork → Envelope
unfolding envelope_items projection
envelope_of c l settings rows items = record {
  schema_version = 1;
  batch_id = l.batch_id;
  owner = l.owner;
  runtime_key = l.runtime_key;
  claimed_at = l.now;
  lease_expires_at = l.expires;
  membership_sha256 = membership_digest c items;
  admission = record {
    process_profile = settings.profile_name;
    worker_count = (projection settings rows).0;
    projected_makespan_seconds = (projection settings rows).1;
    minimum_speed_x = settings.speed;
    safety_factor = settings.factor;
    margin_seconds = settings.margin;
  };
  items = envelope_items 0 rows items;
}

-- INSERT INTO batches, with its PRIMARY KEY
unfoldable pub insert_batch :
    Codec → Lease → List ClaimedWork → String → List Batch → Result (List Batch)
insert_batch c l items envelope_sha256 rows =
    if any (λ b. b.batch_id == l.batch_id) rows
    then err integrity_error
    else ok (
        rows
        ++ record {
          batch_id = l.batch_id;
          owner = l.owner;
          runtime_key = l.runtime_key;
          status = BatchStatus.leased;
          lease_expires_at = l.expires;
          item_count = length items;
          membership_sha256 = membership_digest c items;
          envelope_version = 1;
          envelope_path = c.object_path envelope_sha256;
          envelope_sha256 = envelope_sha256;
          created_at = l.now;
          sealed_at = none;
          committed_at = none;
        }
          ∷ [])

-- The transaction from the admitted rows on.
unfoldable pub lease_rows :
    Codec → (ℕ → String) → Lease → Settings → List Work → Store → Result (Store × ClaimedBatch)
unfolding envelope_of
lease_rows c ids l settings rows s = do
  items ← claim_items ids 1 rows
  let digest = c.sha256 (c.envelope_json (envelope_of c l settings rows items))
  batches ← insert_batch c l items digest s.batches
  s' ← lease_items l 0 items (record s { batches = batches })
  ok (
    s',
    record {
      batch_id = l.batch_id;
      envelope_path = c.object_path digest;
      envelope_sha256 = digest;
      runtime_key = l.runtime_key;
      lease_expires_at = l.expires;
      items = items;
    },
  )

abbrev pub some_batch : Store × ClaimedBatch → Store × Option ClaimedBatch
some_batch (s, b) = (s, some b)

-- The transaction once a runtime key is chosen.
unfoldable pub claim_runtime :
    Codec
    → ℕ
    → (ℕ → String)
    → ClaimArgs
    → Settings
    → Option (List String)
    → String
    → Store
    → Result (Store × Option ClaimedBatch)
claim_runtime c now ids a settings scope key s =
    let rows = queue_rows scope now key a.max_items s.work in
    if ltb (length rows) a.minimum_items then ok (s, none) else do
      admitted ← largest_admissible_prefix settings a.lease_seconds a.minimum_items rows
      batch_id ← new_id ids 0
      claimed ←
          lease_rows c ids
            (record {
              batch_id = batch_id;
              owner = a.owner;
              runtime_key = key;
              now = now;
              expires = now + a.lease_seconds;
            })
            settings admitted s
      ok (some_batch claimed)

unfoldable pub claim_transaction :
    Codec
    → ℕ
    → (ℕ → String)
    → ClaimArgs
    → Settings
    → Option (List String)
    → Store
    → Result (Store × Option ClaimedBatch)
claim_transaction c now ids a settings scope s =
    if active_limit_reached a.maximum_active_batches s.batches || empty_scope scope
    then ok (s, none)
    else do
      let rows = select (eligible scope now) s.work
      require_release_compatibility rows a.expected_release_digest
      elim (choose_runtime a.minimum_items rows) [
        | none ↦ ok (s, none)
        | some key ↦ claim_runtime c now ids a settings scope key s
      ]

unfoldable pub claim :
    Codec → ℕ → (ℕ → String) → ClaimArgs → Store → Result (Store × Option ClaimedBatch)
unfolding claim_transaction claim_runtime lease_rows lease_items
claim c now ids a s = do
  (settings, scope) ← check_claim a
  claim_transaction c now ids a settings scope s
