-- ===== src/LocalQueue/Lock.antt =====
-- `claim`, `renew` and `renew_many` of `SQLiteQueue` in src/people_counter/local_queue.py.
use people_counter.Prelude.{
  ℕ, ◌+◌, String, Bool, true, not, ◌&&◌, ◌||◌, some, List, [], ◌∷◌, ltb, leb, nat_eq, opt_gtb,
  opt_is, ◌==◌, length, take, if◌then◌else◌, Result, ok, err, value_error, lease_lost,
  integrity_error, ◌>>=◌, ◌>>◌, require,
}
use people_counter.Prelude.Rows.{select, update, count, any}
use people_counter.Prelude.Sorting.{sort}
use people_counter.Prelude.Texts.{str_leb}
use people_counter.LocalQueue.{
  State, is_ready, is_locked, Message, ClaimedMessage, stripped_text, bounded_seconds,
  recover_expired,
}

-- WHERE message_id = ? AND state = 'ready'
abbrev pub takes : Message → Message → Bool
takes row m = m.message_id == row.message_id && is_ready m.state

unfoldable pub locked_message : String → String → ℕ → ℕ → ℕ → Message → Message
locked_message token owner expires now delivery_count m = record m {
  state = State.locked;
  delivery_count = delivery_count;
  lock_token = some token;
  locked_by = some owner;
  locked_until = some expires;
  updated_at = now;
}

abbrev claimed_message : String → ℕ → Message → ClaimedMessage
claimed_message token expires m = record {
  message_id = m.message_id;
  idempotency_key = m.idempotency_key;
  payload_json = m.payload_json;
  lock_token = token;
  locked_until = expires;
  delivery_count = m.delivery_count + 1;
  max_delivery_count = m.max_delivery_count;
}

-- lock_token TEXT UNIQUE
abbrev pub token_used : String → List Message → Bool
token_used token q = any (λ m. opt_is m.lock_token token) q

-- The loop over the rows that were read; `tokens n` is the token of the n-th one.
unfoldable pub claim_rows :
    (ℕ → String)
    → ℕ
    → String
    → ℕ
    → ℕ
    → List Message
    → List Message
    → Result (List Message × List ClaimedMessage)
unfolding locked_message
claim_rows tokens n owner expires now [] q = ok (q, [])
claim_rows tokens n owner expires now (row ∷ rows) q = do
  require (not (token_used (tokens n) q)) integrity_error
  (q', claims) ←
      claim_rows tokens (n + 1) owner expires now rows (
        update (takes row) (locked_message (tokens n) owner expires now (row.delivery_count + 1)) q)
  ok (q', claimed_message (tokens n) expires row ∷ claims)

-- ORDER BY created_at, message_id
abbrev pub message_order : Message → Message → Bool
message_order m n =
    ltb m.created_at n.created_at
    || (nat_eq m.created_at n.created_at && str_leb m.message_id n.message_id)

unfoldable pub deliverable : ℕ → ℕ → List Message → List Message
deliverable now limit q =
    take limit (sort message_order (select (λ m. is_ready m.state && leb m.available_at now) q))

-- What was recovered stays recovered when too few messages are there.
unfoldable pub claim :
    (ℕ → String)
    → ℕ
    → String
    → ℕ
    → ℕ
    → ℕ
    → List Message
    → Result (List Message × List ClaimedMessage)
unfolding stripped_text bounded_seconds recover_expired deliverable claim_rows
claim tokens limit owner lock_seconds minimum now q = do
  require (leb 1 limit && leb limit 100) value_error
  require (leb 1 minimum && leb minimum limit) value_error
  owner_id ← stripped_text owner
  lease ← bounded_seconds lock_seconds
  let q' = (recover_expired now q).0
  let rows = deliverable now limit q'
  if ltb (length rows) minimum
      then ok (q', [])
      else claim_rows tokens 0 owner_id (now + lease) now rows q'

-- WHERE lock_token = ? AND state = 'locked' AND locked_until > ?
abbrev pub live : String → ℕ → Message → Bool
live token now m = opt_is m.lock_token token && is_locked m.state && opt_gtb m.locked_until now

unfoldable pub renewed : ℕ → ℕ → Message → Message
renewed expires now m = record m { locked_until = some expires; updated_at = now }

unfoldable pub renew_one : String → ℕ → ℕ → List Message → Result (List Message)
unfolding renewed
renew_one token expires now q = do
  require (nat_eq (count (live token now) q) 1) lease_lost
  ok (update (live token now) (renewed expires now) q)

unfoldable pub renew : String → ℕ → ℕ → List Message → Result (List Message × ℕ)
unfolding stripped_text bounded_seconds renew_one
renew lock_token lock_seconds now q = do
  token ← stripped_text lock_token
  lease ← bounded_seconds lock_seconds
  q' ← renew_one token (now + lease) now q
  ok (q', now + lease)

unfoldable pub stripped_texts : List String → Result (List String)
unfolding stripped_text
stripped_texts [] = ok []
stripped_texts (t ∷ ts) = do
  token ← stripped_text t
  tokens ← stripped_texts ts
  ok (token ∷ tokens)

unfoldable pub no_duplicates : List String → Bool
no_duplicates [] = true
no_duplicates (t ∷ ts) = not (any (λ u. u == t) ts) && no_duplicates ts

unfoldable pub renew_all : List String → ℕ → ℕ → List Message → Result (List Message)
unfolding renew_one
renew_all [] expires now q = ok q
renew_all (t ∷ ts) expires now q = do q' ← renew_one t expires now q; renew_all ts expires now q'

unfoldable pub renew_many : List String → ℕ → ℕ → List Message → Result (List Message × ℕ)
unfolding stripped_texts no_duplicates bounded_seconds renew_all
renew_many [] lock_seconds now q = err value_error
renew_many lock_tokens lock_seconds now q = do
  tokens ← stripped_texts lock_tokens
  require (no_duplicates tokens) value_error
  lease ← bounded_seconds lock_seconds
  q' ← renew_all tokens (now + lease) now q
  ok (q', now + lease)
