-- ===== src/Planner/Envelope/Accepted.antt =====
-- The envelope that a claim writes is one that the process accepts, with the same members.
use people_counter.Prelude.{
  ℕ, ◌+◌, ◌≤◌, ◌≡◌, ◌≢◌, refl, sym, ap, ◌∙◌, String, Bool, true, false, ◌&&◌, ◌||◌, Option, none,
  some, List, [], ◌∷◌, map, arith, All, nat_eq, le→leb, ◌==◌, eq_iff, ok, err, process_error, ◌⊎◌,
  inl, inr, Bool-cases, ◌>>=◌, require, ok_inj, bind_returned,
}
use people_counter.Prelude.Rows.{any, every}
use people_counter.Prelude.Keys.{Fresh, Distinct}
use people_counter.Lpt.{Job}
use people_counter.Control.Tables.{Codec, ClaimedWork, Work, membership_digest}
use people_counter.Control.Texts.{required_text, validated_sha256, new_id}
use people_counter.Control.Admission.{Settings, job}
use people_counter.Control.Claim.{claim_items, envelope_items}
use people_counter.Control.Lease.{Lease, envelope_of}
use people_counter.Planner.{one_two_four}
use people_counter.Planner.Buckets.{item_job}
use people_counter.Planner.Envelope.{
  RawItem, EnvelopeItem, VerifiedEnvelope, batch_size, same_identity, identities, verify_item,
  verify_items, verify_envelope, raw_items, raw_envelope, no_items,
}

-- What registration has checked of a work row.
pub record IsRegistered (c : Codec) (w : Work) : Type 0 where
  pub hashed : w.payload_sha256 ≡ c.sha256 w.payload_json
  pub digest : validated_sha256 w.payload_sha256 ≡ ok w.payload_sha256
  pub named : required_text w.work_id ≡ ok w.work_id
  pub config : required_text w.config_sha256 ≡ ok w.config_sha256
  pub release : required_text w.release_digest ≡ ok w.release_digest
  pub duration : 1 ≤ w.duration_seconds

-- The batch size in the row's payload, where it has one, is one that a detector takes. Registration
-- does not check it.
abbrev pub takes_size : Option ℕ → Bool
takes_size none = true
takes_size (some n) = nat_eq n 1 || nat_eq n 2 || nat_eq n 4

abbrev pub is_detectable : (String → Option ℕ) → Work → Bool
is_detectable size w = takes_size (size w.payload_json)

-- No verified item has the id of one of the rows.
abbrev Unseen : List Work → List EnvelopeItem → Type 0
Unseen ws seen = All (λ w. All (λ i. i.work_id ≢ w.work_id) seen) ws

-- The verified item of a row.
abbrev verified : String → ℕ → Work → ClaimedWork → EnvelopeItem
verified key ordinal w i = record {
  ordinal = ordinal;
  work_id = i.work_id;
  attempt_id = i.attempt_id;
  fence = i.fence;
  payload_sha256 = i.payload_sha256;
  payload = w.payload_json;
  config_sha256 = w.config_sha256;
  release_digest = w.release_digest;
  duration_seconds = w.duration_seconds;
  runtime_key = key;
}

not_seen :
    (k : ClaimedWork) (seen : List EnvelopeItem)
    → All (λ i. i.work_id ≢ k.work_id) seen
    → any (same_identity k) seen ≡ false
unfolding any
not_seen k [] h = refl
not_seen k (i ∷ is) h = ground (arith, not_seen k is h.1, eq_iff i.work_id k.work_id)

Unseen-next :
    (w : Work) (ws : List Work) (v : EnvelopeItem) (seen : List EnvelopeItem)
    → Fresh (λ x. x.work_id) w.work_id ws
    → Unseen ws seen
    → v.work_id ≡ w.work_id
    → Unseen ws (v ∷ seen)
Unseen-next w [] v seen f u e = tt
Unseen-next w (x ∷ xs) v seen f u e =
    (((λ q. f.0 (sym (sym e ∙ q))), u.0), Unseen-next w xs v seen f.1 u.1 e)

text_again : (x a : String) → required_text x ≡ ok a → required_text a ≡ ok a
unfolding required_text
text_again x a e = ground arith

-- The claimed item of a row, and the item that the envelope has for it.
abbrev claimed_of : Work → String → ClaimedWork
claimed_of w attempt_id = record {
  work_id = w.work_id;
  attempt_id = attempt_id;
  fence = w.fence + 1;
  payload_sha256 = w.payload_sha256;
}

abbrev raw_of : ℕ → Work → ClaimedWork → RawItem
raw_of ordinal w i = record {
  ordinal = ordinal;
  claimed = i;
  payload = w.payload_json;
  config_sha256 = w.config_sha256;
  release_digest = w.release_digest;
  duration_seconds = w.duration_seconds;
  runtime_key = none;
}

string_same : (k : String) → (k == k) ≡ true
string_same k = (eq_iff k k).1 refl

nat_same : (n : ℕ) → nat_eq n n ≡ true
nat_same n = ground arith

-- What the loop returns for the claimed rows.
record IsAccepted (rows : List Work) (items : List ClaimedWork) (key : String)
    (vs : List EnvelopeItem) : Type 0 where
  members : identities vs ≡ items
  jobs : map item_job vs ≡ map job rows
  keys : All (λ i. i.runtime_key ≡ key) vs

and_left : (a b : Bool) → (a && b) ≡ true → a ≡ true
and_left a b q = ground arith

and_right : (a b : Bool) → (a && b) ≡ true → b ≡ true
and_right a b q = ground arith

rest_refused : {a b : Bool} → a ≡ true → (a && b) ≡ false → b ≡ false
rest_refused p q = ground arith

module _ (c : Codec) (size : String → Option ℕ) (key : String) where
  is_detectable-size :
      (w : Work) → one_two_four (batch_size (size w.payload_json)) ≡ is_detectable size w
  is_detectable-size w = same (size w.payload_json)
    where
      same : (o : Option ℕ) → one_two_four (batch_size o) ≡ takes_size o
      same none = refl
      same (some n) = refl

  verify_item-ok :
      (ordinal : ℕ) (seen : List EnvelopeItem) (w : Work) (attempt_id : String)
      → IsRegistered c w
      → is_detectable size w ≡ true
      → required_text attempt_id ≡ ok attempt_id
      → All (λ i. i.work_id ≢ w.work_id) seen
      → verify_item c size key ordinal seen (raw_of ordinal w (claimed_of w attempt_id))
        ≡ ok (verified key ordinal w (claimed_of w attempt_id))
  unfolding verify_item ◌>>=◌ require
  verify_item-ok ordinal seen w attempt_id h sized a fresh =
      rw
        (
          nat_same ordinal,
          h.digest,
          ← h.hashed,
          string_same w.payload_sha256,
          h.named,
          a,
          not_seen (claimed_of w attempt_id) seen fresh,
          string_same key,
          is_detectable-size w ∙ sized,
          le→leb 1 (w.fence + 1) (omega arith),
          h.config,
          h.release,
          le→leb 1 w.duration_seconds h.duration,
        )
        refl

  verify_items-ok :
      (ids : ℕ → String) (rows : List Work) (n ordinal : ℕ) (seen : List EnvelopeItem)
      (items : List ClaimedWork)
      → All (IsRegistered c) rows
      → every (is_detectable size) rows ≡ true
      → Distinct (λ w. w.work_id) rows
      → Unseen rows seen
      → claim_items ids n rows ≡ ok items
      → (vs : List EnvelopeItem) × (verify_items c size key ordinal seen
            (raw_items (envelope_items ordinal rows items))
          ≡ ok vs)
        × IsAccepted rows items key vs
  unfolding verify_items claim_items envelope_items every ◌>>=◌ new_id
  verify_items-ok ids [] n ordinal seen items h sized d u e =
      let q : [] ≡ items = ok_inj e in
      rw (← q) ([], refl, record { members = refl; jobs = refl; keys = tt })
  verify_items-ok ids (w ∷ ws) n ordinal seen items h sized d u e =
      let (attempt_id, given, e1) = bind_returned (required_text (ids n)) _ e in
      let (rest, claimed, e2) = bind_returned (claim_items ids (n + 1) ws) _ e1 in
      let q : (claimed_of w attempt_id ∷ rest) ≡ items = ok_inj e2 in
      let v = verified key ordinal w (claimed_of w attempt_id) in
      let more : every (is_detectable size) ws ≡ true = and_right (is_detectable size w) _ sized in
      let first =
        verify_item-ok ordinal seen w attempt_id h.0 (and_left _ _ sized)
          (text_again (ids n) attempt_id given) u.0 in
      let (vs, run, accepted) =
        verify_items-ok ids ws (n + 1) (ordinal + 1) (v ∷ seen) rest h.1 more d.1
          (Unseen-next w ws v seen d.0 u.1 refl) claimed in
      rw (← q) (
        v ∷ vs,
        rw (first, run) refl,
        record {
          members = ap (λ (r : List ClaimedWork). claimed_of w attempt_id ∷ r) accepted.members;
          jobs = ap (λ (r : List Job). job w ∷ r) accepted.jobs;
          keys = (refl, accepted.keys);
        },
      )

  -- The first row whose batch size is not one of a detector's is refused.
  verify_item-refused :
      (ordinal : ℕ) (seen : List EnvelopeItem) (w : Work) (attempt_id : String)
      → IsRegistered c w
      → is_detectable size w ≡ false
      → required_text attempt_id ≡ ok attempt_id
      → All (λ i. i.work_id ≢ w.work_id) seen
      → verify_item c size key ordinal seen (raw_of ordinal w (claimed_of w attempt_id))
        ≡ err process_error
  unfolding verify_item ◌>>=◌ require
  verify_item-refused ordinal seen w attempt_id h sized a fresh =
      rw
        (
          nat_same ordinal,
          h.digest,
          ← h.hashed,
          string_same w.payload_sha256,
          h.named,
          a,
          not_seen (claimed_of w attempt_id) seen fresh,
          string_same key,
          is_detectable-size w ∙ sized,
        )
        refl

  verify_items-refused :
      (ids : ℕ → String) (rows : List Work) (n ordinal : ℕ) (seen : List EnvelopeItem)
      (items : List ClaimedWork)
      → All (IsRegistered c) rows
      → every (is_detectable size) rows ≡ false
      → Distinct (λ w. w.work_id) rows
      → Unseen rows seen
      → claim_items ids n rows ≡ ok items
      → verify_items c size key ordinal seen (raw_items (envelope_items ordinal rows items))
        ≡ err process_error
  unfolding verify_items claim_items envelope_items every ◌>>=◌ new_id
  verify_items-refused ids [] n ordinal seen items h sized d u e = cc
  verify_items-refused ids (w ∷ ws) n ordinal seen items h sized d u e =
      let (attempt_id, given, e1) = bind_returned (required_text (ids n)) _ e in
      let (rest, claimed, e2) = bind_returned (claim_items ids (n + 1) ws) _ e1 in
      let q : (claimed_of w attempt_id ∷ rest) ≡ items = ok_inj e2 in
      let named = text_again (ids n) attempt_id given in
      let v = verified key ordinal w (claimed_of w attempt_id) in
      elim (Bool-cases (is_detectable size w)) [
        | inl t ↦
            let first = verify_item-ok ordinal seen w attempt_id h.0 t named u.0 in
            let run =
              verify_items-refused ids ws (n + 1) (ordinal + 1) (v ∷ seen) rest h.1
                (rest_refused t sized) d.1 (Unseen-next w ws v seen d.0 u.1 refl) claimed in
            rw (← q, first, run) refl
        | inr t ↦ rw (← q, verify_item-refused ordinal seen w attempt_id h.0 t named u.0) refl
      ]

-- The texts of the lease and the digests are as the claim checks and hashes them.
pub record IsNamed (c : Codec) (l : Lease) (items : List ClaimedWork) (digest : String)
    : Type 0 where
  pub owner : required_text l.owner ≡ ok l.owner
  pub runtime_key : required_text l.runtime_key ≡ ok l.runtime_key
  pub membership : validated_sha256 (membership_digest c items) ≡ ok (membership_digest c items)
  pub envelope : validated_sha256 digest ≡ ok digest

-- What the process knows of a claim once it has verified the envelope.
pub record IsVerified (l : Lease) (rows : List Work) (items : List ClaimedWork) (digest : String)
    (v : VerifiedEnvelope) : Type 0 where
  pub batch_id : v.batch_id ≡ l.batch_id
  pub owner : v.owner ≡ l.owner
  pub runtime_key : v.runtime_key ≡ l.runtime_key
  pub claimed_at : v.claimed_at ≡ l.now
  pub lease_expires_at : v.lease_expires_at ≡ l.expires
  pub envelope_sha256 : v.envelope_sha256 ≡ digest
  pub members : identities v.items ≡ items
  pub jobs : map item_job v.items ≡ map job rows
  pub keys : All (λ i. i.runtime_key ≡ l.runtime_key) v.items

some_items :
    (w : Work) (ws : List Work) (n : ℕ) (ids : ℕ → String) (m : ℕ) (items : List ClaimedWork)
    → claim_items ids m (w ∷ ws) ≡ ok items
    → no_items (raw_items (envelope_items n (w ∷ ws) items)) ≡ false
unfolding claim_items envelope_items ◌>>=◌
some_items w ws n ids m items e =
    let (a, _, e1) = bind_returned (new_id ids m) _ e in
    let (rest, _, e2) = bind_returned (claim_items ids (m + 1) ws) _ e1 in rw (← ok_inj e2) refl

-- Let some rows be as registration leaves them, with ids of their own and with digests that are 64 hex
-- digits; let them be claimed under an owner and a runtime key that are stripped texts, as a claim
-- checks them, the digests of the members and of the envelope again 64 hex digits. The process is given
-- the envelope that the claim writes for them, the batch's id and the envelope's digest. If the payload
-- of every row has a batch size of 1, 2 or 4, or none, the process accepts the envelope, and what it
-- has verified is the claim: the batch, the owner, the runtime key, the times and the items'
-- identities, with the duration of each row and the claim's runtime key on every item. If some payload
-- has another batch size, which registration lets pass, the process refuses the whole envelope.
pub envelope_of-verify_envelope :
    (c : Codec) (size : String → Option ℕ) (l : Lease) (settings : Settings) (ids : ℕ → String)
    (w : Work) (ws : List Work) (items : List ClaimedWork) (digest : String)
    → All (IsRegistered c) (w ∷ ws)
    → Distinct (λ x. x.work_id) (w ∷ ws)
    → claim_items ids 1 (w ∷ ws) ≡ ok items
    → IsNamed c l items digest
    → let answer =
        verify_envelope c size
          (raw_envelope (envelope_of c l settings (w ∷ ws) items))
          l.batch_id
          digest in
      ((every (is_detectable size) (w ∷ ws) ≡ true)
        × (v : VerifiedEnvelope) × (answer ≡ ok v)
        × IsVerified l (w ∷ ws) items digest v)
      ⊎ ((every (is_detectable size) (w ∷ ws) ≡ false) × (answer ≡ err process_error))
unfolding verify_envelope envelope_of ◌>>=◌ require
envelope_of-verify_envelope c size l settings ids w ws items digest h d claimed named =
    elim (Bool-cases (every (is_detectable size) (w ∷ ws))) [
      | inl sized ↦
          let (vs, run, accepted) =
            verify_items-ok c size l.runtime_key ids (w ∷ ws) 1 0 [] items h sized d
              (unseen_by_none (w ∷ ws)) claimed in
          inl (
            sized,
            record {
              batch_id = l.batch_id;
              owner = l.owner;
              runtime_key = l.runtime_key;
              claimed_at = l.now;
              lease_expires_at = l.expires;
              membership_sha256 = membership_digest c items;
              envelope_sha256 = digest;
              items = vs;
            },
            rw
                (
                  string_same l.batch_id,
                  named.owner,
                  named.runtime_key,
                  named.membership,
                  some_items w ws 0 ids 1 items claimed,
                  run,
                  accepted.members,
                  string_same (membership_digest c items),
                  named.envelope,
                )
                refl,
            record {
              batch_id = refl;
              owner = refl;
              runtime_key = refl;
              claimed_at = refl;
              lease_expires_at = refl;
              envelope_sha256 = refl;
              members = accepted.members;
              jobs = accepted.jobs;
              keys = accepted.keys;
            },
          )
      | inr sized ↦
          let run =
            verify_items-refused c size l.runtime_key ids (w ∷ ws) 1 0 [] items h sized d
              (unseen_by_none (w ∷ ws)) claimed in
          inr (
            sized,
            rw
                (
                  string_same l.batch_id,
                  named.owner,
                  named.runtime_key,
                  named.membership,
                  some_items w ws 0 ids 1 items claimed,
                  run,
                )
                refl,
          )
    ]
  where
    unseen_by_none : (rows : List Work) → Unseen rows []
    unseen_by_none [] = tt
    unseen_by_none (x ∷ xs) = (tt, unseen_by_none xs)
