-- ===== src/Control/Replay/Again.antt =====
-- A replay request that is repeated.
use people_counter.Prelude.{
  ℕ, ◌+◌, ◌≡◌, refl, ◌∙◌, String, Bool, true, false, not, ◌&&◌, ◌||◌, some, List, [], ◌∷◌, ◌++◌,
  arith, nat_eq, ◌==◌, eq_iff, ok, bind-ok, bind_returned, require_returned, require-true, Returns,
  Returns-ok, Returns-err, Returns-require, Returns-if, Returns-bind, Returns-option,
}
use people_counter.Prelude.Texts.{prefixed}
use people_counter.Prelude.Rows.{find, update, any}
use people_counter.Prelude.Lookup.{find-update, find-append_last, find_absent}
use people_counter.Control.Tables.{Work, is_dead, Replay, ReplayRequest, Codec, Store}
use people_counter.Control.Texts.{required_text, within_hundred}
use people_counter.Control.Register.{has_id}
use people_counter.Control.Replay.{
  request_of, matching_last_replay, replayed, replay_dead, replay_found, replay,
}

-- The same request, made again on `t`, finds the request `r`.
abbrev IsRepeated : String → String → String → ℕ → Store → ReplayRequest → Type 0
IsRepeated k operator reason extra t r =
    (w : Work) × (find (has_id k) t.work ≡ some w)
    × (is_dead w.status ≡ false)
    × (matching_last_replay w operator reason extra t ≡ some r)

any_or :
    {A : Type 0} (p q : A → Bool) (xs : List A)
    → any (λ x. p x || q x) xs ≡ false
    → any p xs ≡ false
unfolding any
any_or p q [] h = refl
any_or p q (x ∷ xs) h = ground (arith, any_or p q xs)

-- The row that was just written is the one that the lookup finds.
request_found :
    (row : Replay) (rows : List Replay)
    → any
        (λ r.
          r.replay_id == row.replay_id
          || (r.work_id == row.work_id && nat_eq r.generation row.generation))
        rows
      ≡ false
    → find (λ r. r.replay_id == row.replay_id) (rows ++ row ∷ []) ≡ some row
request_found row rows h =
    find-append_last _ row rows
      (find_absent _ rows (
        any_or (λ r. r.replay_id == row.replay_id)
          (λ r. r.work_id == row.work_id && nat_eq r.generation row.generation) rows h))
      ((eq_iff row.replay_id row.replay_id).1 refl)

matching_written :
    (row : Replay) (now : ℕ) (w : Work) (s : Store)
    → find (λ r. r.replay_id == row.replay_id) s.replay_requests ≡ some row
    → matching_last_replay
        (replayed row.additional_attempts row.generation row.replay_id now w)
        row.operator
        row.reason
        row.additional_attempts
        s
      ≡ some (request_of row)
unfolding matching_last_replay replayed
matching_written row now w s h =
    rw
      (
        h,
        (eq_iff row.operator row.operator).1 refl,
        (eq_iff row.reason row.reason).1 refl,
        same row.additional_attempts,
        same (w.attempt_count + row.additional_attempts),
      )
      refl
  where
    same : (n : ℕ) → nat_eq n n ≡ true
    same n = ground arith

replay_dead-IsRepeated :
    (c : Codec) (k operator reason : String) (extra now : ℕ) (w : Work) (s : Store)
    → find (has_id k) s.work ≡ some w
    → is_dead w.status ≡ true
    → Returns
        (λ p. IsRepeated k operator reason extra p.0 p.1)
        (replay_dead c operator reason extra now w s)
unfolding replay_dead
replay_dead-IsRepeated c k operator reason extra now w s e d = Returns-require _ _ _ λ _.
    Returns-require _ _ _ λ fresh.
      let generation = w.replay_generation + 1 in
      let replay_id =
        prefixed "replay-" (c.sha256 (c.replay_json w.work_id generation operator reason extra)) in
      let row : Replay = record {
        replay_id = replay_id;
        work_id = w.work_id;
        operator = operator;
        reason = reason;
        generation = generation;
        requested_at = now;
        additional_attempts = extra;
      } in
      let v : Work = replayed extra generation replay_id now w in
      let found : find (has_id k) (
            update (λ x. has_id w.work_id x && is_dead x.status)
              (replayed extra generation replay_id now) s.work)
          ≡ some v =
        find-update (has_id k) (λ x. has_id w.work_id x && is_dead x.status)
          (replayed extra generation replay_id now) w s.work (λ y. unfold replayed in refl) e
        ∙ rw ((eq_iff w.work_id w.work_id).1 refl, d) refl in
      Returns-ok _ (
        v,
        found,
        unfold replayed in refl,
        matching_written row now w _ (request_found row s.replay_requests (not_true fresh)),
      )
  where
    not_true : {b : Bool} → not b ≡ true → b ≡ false
    not_true h = ground arith

replay-IsRepeated :
    (c : Codec) (k operator reason : String) (extra now : ℕ) (s : Store)
    → Returns
        (λ p. IsRepeated k operator reason extra p.0 p.1)
        (replay c k operator reason extra now s)
unfolding replay replay_found
replay-IsRepeated c k operator reason extra now s = Returns-bind _ _ λ u _. Returns-bind _ _ λ v _.
    Returns-bind _ _ λ x _. Returns-require _ _ _ λ _.
      Returns-option (find (has_id k) s.work) _ _ (λ _. Returns-err _)
        λ w e.
          Returns-if (is_dead w.status) _ _
            (λ d. replay_dead-IsRepeated c k operator reason extra now w s e d)
            λ d.
              Returns-option (matching_last_replay w operator reason extra s) _ _
                (λ _. Returns-err _) (λ r m. Returns-ok _ (w, e, d, m))

-- If `replay` returns a store and a request, then the same request, made again on that store at any time,
-- returns the same store and the same request.
pub replay-replay :
    (c : Codec) (k operator reason : String) (extra now later : ℕ) (s t : Store) (r : ReplayRequest)
    → replay c k operator reason extra now s ≡ ok (t, r)
    → replay c k operator reason extra later t ≡ ok (t, r)
unfolding replay replay_found
replay-replay c k operator reason extra now later s t r h =
    let (w, e, d, m) =
      (replay-IsRepeated c k operator reason extra now s).at (t, r) (unfold replay in h) in
    let (_, a, h1) = bind_returned (required_text k) _ h in
    let (_, b, h2) = bind_returned (required_text operator) _ h1 in
    let (_, x, h3) = bind_returned (required_text reason) _ h2 in
    let (y, _) = require_returned (within_hundred extra) _ _ h3 in
    bind-ok _ a ∙ bind-ok _ b ∙ bind-ok _ x ∙ require-true _ _ y ∙ rw (e, d, m) refl
