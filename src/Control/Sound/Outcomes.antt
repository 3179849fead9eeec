-- ===== src/Control/Sound/Outcomes.antt =====
-- `commit_batch` and `recover` keep the invariant. A row is written with the counts that were read
-- before the loop.
use people_counter.Prelude.{
  ℕ, ◌≡◌, refl, sym, ap, String, true, not, ◌||◌, Option, none, some, List, [], ◌∷◌, arith, All,
  All-imp, eq_iff, ◌==◌, Returns, Returns-ok, Returns-err, Returns-require, Returns-if,
  Returns-bind, Returns-option,
}
use people_counter.Prelude.Rows.{any, find, select, All-select}
use people_counter.Prelude.Sorting.{All-sort}
use people_counter.Prelude.Keys.{Distinct, find-Only, Distinct-Only}
use people_counter.Control.Tables.{
  Work, Attempt, AttemptStatus, Store, Batch, batch_committed, RecoveryReport,
}
use people_counter.Control.Register.{has_id}
use people_counter.Control.Process.{Joined, join, in_batch, owns, has_batch_id}
use people_counter.Control.Commit.{
  is_true, or_empty, insert_publication, finish_attempt, commit_failed_attempt, commit_attempt,
  commit_attempts, joined_order, commit_found, commit_batch, lease_expired, recover_row,
  recover_rows, work_order, recover,
}
use people_counter.Control.Sound.{IsSoundRow, IsSound}
use people_counter.Control.Sound.Rows.{released-IsSoundRow, published-IsSoundRow}
use people_counter.Control.Sound.Writes.{same-IsSound}
use people_counter.Control.Sound.Operations.{Sound}
use people_counter.Control.Sound.Counts.{
  HasCounts, Agrees, Kept, KeepsKeys, Kept-update, Kept-trans, Kept-same, released-KeepsKeys,
  published-KeepsKeys,
}

-- The counts that a joined row was read with are the work's.
abbrev Current : List Work → Joined → Type 0
Current work r = Agrees r.attempt.work_id r.work.attempt_count r.work.max_attempts work

owns-id : (k a : String) (f : ℕ) (w : Work) → owns k a f w ≡ true → w.work_id ≡ k
owns-id k a f w h = ground (arith, eq_iff w.work_id k)

finish_attempt-Kept :
    (r : Joined) (f : Work → Work) (status : AttemptStatus) (s : Store)
    → KeepsKeys f
    → ((w : Work)
        → HasCounts r.attempt.work_id r.work.attempt_count r.work.max_attempts w
        → IsSoundRow w
        → owns r.attempt.work_id r.attempt.attempt_id r.attempt.fence w ≡ true
        → IsSoundRow (f w))
    → Current s.work r
    → IsSound s
    → Returns (Kept s) (finish_attempt r f status s)
unfolding finish_attempt
finish_attempt-Kept r f status s keys keep a h =
    Returns-require _ _ _ λ _. Returns-ok _ (Kept-update _ f _ _ _ s _ refl keys keep a h)

abbrev KeptFirst {ℓ} : {A : Type ℓ} → Store → Store × A → Type 0
KeptFirst s p = Kept s p.0

commit_attempt-Kept :
    (k : String) (r : Joined) (now : ℕ) (s : Store)
    → Current s.work r
    → IsSound s
    → Returns (KeptFirst {A = List ℕ} s) (commit_attempt k r now s)
unfolding commit_attempt commit_failed_attempt insert_publication
commit_attempt-Kept k r now s a h = Returns-require _ _ _ λ _.
    Returns-if (not (is_true r.attempt.terminal_succeeded)) _ _
      (λ _. Returns-bind (commit_failed_attempt r now s) _ λ s' e. Returns-ok _ (failed.at s' e))
      λ _. Returns-bind (insert_publication k r now s) _ λ s' e.
        let same = inserted.at s' e in
        Returns-bind _ _ λ s'' q. Returns-ok _ (
          Kept-trans s s' s'' same (
            (finish_attempt-Kept r _ _ s' (published-KeepsKeys _ _ _)
                (λ w c.
                  published-IsSoundRow s'.last_sequence now r.attempt.work_id r.attempt.attempt_id
                    r.attempt.attempt_id r.attempt.fence w)
                (same.counts _ _ _ a) same.sound).at
              s'' q))
  where
    failed : Returns (Kept s) (commit_failed_attempt r now s)
    failed =
        finish_attempt-Kept r _ _ s (released-KeepsKeys _ _ _)
          (λ w c v o.
            let (x, y) = c (owns-id _ _ _ w o) in
            released-IsSoundRow r.work.attempt_count r.work.max_attempts now "processing failed"
              r.attempt.work_id r.attempt.attempt_id r.attempt.fence w (sym x) (sym y) v o)
          a h

    inserted : Returns (Kept s) (insert_publication k r now s)
    inserted =
        Returns-if
          (any (λ p. p.work_id == r.attempt.work_id || p.attempt_id == r.attempt.attempt_id)
            s.publications)
          _ _ (λ _. Returns-err _) (λ _. Returns-ok _ (Kept-same s _ refl h))

commit_attempts-Kept :
    (k : String) (rs : List Joined) (now : ℕ) (s : Store)
    → All (Current s.work) rs
    → IsSound s
    → Returns (KeptFirst {A = List ℕ} s) (commit_attempts k rs now s)
unfolding commit_attempts
commit_attempts-Kept k [] now s a h = Returns-ok _ (Kept-same s s refl h)
commit_attempts-Kept k (r ∷ rs) now s a h = Returns-bind (commit_attempt k r now s) _ λ p e.
    let kept = (commit_attempt-Kept k r now s a.0 h).at p e in
    Returns-bind (commit_attempts k rs now p.0) _ λ q e'. Returns-ok _ (
      Kept-trans s p.0 q.0 kept (
        (commit_attempts-Kept k rs now p.0 (All-imp _ _ (λ r' c. kept.counts _ _ _ c) rs a.1)
            kept.sound).at
          q e'))

join-Current :
    (work : List Work) (attempts : List Attempt)
    → Distinct (λ w. w.work_id) work
    → All (Current work) (join work attempts)
unfolding join
join-Current work [] d = tt
join-Current work (a ∷ rest) d = row (join-Current work rest d) (find (has_id a.work_id) work) refl
  where
    row :
        All (Current work) (join work rest)
        → (o : Option Work) → find (has_id a.work_id) work ≡ o
        → All (Current work) (elim o [
          | none ↦ join work rest
          | some w ↦ record { attempt = a; work = w } ∷ join work rest
        ])
    row ih none e = ih
    row ih (some w) e = (
      All-imp (λ v. v.work_id ≡ a.work_id → v ≡ w)
          (HasCounts a.work_id w.attempt_count w.max_attempts)
          (λ v only q. (
            ap (λ (u : Work). u.attempt_count) (only q),
            ap (λ (u : Work). u.max_attempts) (only q),
          ))
          work (find-Only (λ v. v.work_id) a.work_id w work d e),
      ih,
    )

commit_found-IsSound :
    (k : String) (now : ℕ) (b : Batch) (s : Store)
    → IsSound s
    → Returns (Sound {A = List ℕ}) (commit_found k now b s)
unfolding commit_found
commit_found-IsSound k now b s h =
    Returns-if (batch_committed b.status) _ _ (λ _. Returns-ok _ h)
      λ _. Returns-require _ _ _ λ _. Returns-require _ _ _ λ _. Returns-bind _ _ λ p e.
        Returns-ok _ (
          same-IsSound p.0 _ refl
            ((commit_attempts-Kept k _ now s
                (All-sort _ joined_order _
                  (join-Current s.work (select (in_batch k) s.attempts) h.unique))
                h).at
              p e).sound)

pub commit_batch-IsSound :
    (k : String) (now : ℕ) (s : Store)
    → IsSound s
    → Returns (Sound {A = List ℕ}) (commit_batch k now s)
unfolding commit_batch
commit_batch-IsSound k now s h = Returns-bind _ _ λ u _.
    Returns-option (find (has_batch_id k) s.batches) _ _ (λ _. Returns-err _)
      (λ b _. commit_found-IsSound k now b s h)

abbrev RowCurrent : List Work → Work → Type 0
RowCurrent work w = Agrees w.work_id w.attempt_count w.max_attempts work

recover_row-Kept :
    (now : ℕ) (w : Work) (s : Store)
    → RowCurrent s.work w
    → IsSound s
    → Returns (Kept s) (recover_row now w s)
unfolding recover_row
recover_row-Kept now w s a h = Returns-require _ _ _ λ _. Returns-ok _ (
    Kept-update _ _ _ _ _ s _ refl (released-KeepsKeys _ _ _)
      (λ v c i o.
        let (x, y) = c (owns-id _ _ _ v o) in
        released-IsSoundRow w.attempt_count w.max_attempts now "lease expired" w.work_id
          (or_empty w.lease_attempt_id) w.fence v (sym x) (sym y) i o)
      a h)

recover_rows-Kept :
    (now : ℕ) (ws : List Work) (s : Store)
    → All (RowCurrent s.work) ws
    → IsSound s
    → Returns (Kept s) (recover_rows now ws s)
unfolding recover_rows
recover_rows-Kept now [] s a h = Returns-ok _ (Kept-same s s refl h)
recover_rows-Kept now (w ∷ ws) s a h = Returns-bind (recover_row now w s) _ λ s' e.
    let kept = (recover_row-Kept now w s a.0 h).at s' e in
    record {
      at = λ s'' e'. Kept-trans s s' s'' kept (
          (recover_rows-Kept now ws s' (All-imp _ _ (λ v c. kept.counts _ _ _ c) ws a.1)
              kept.sound).at
            s'' e');
    }

pub recover-IsSound :
    (now : ℕ) (s : Store) → IsSound s → Returns (Sound {A = RecoveryReport}) (recover now s)
unfolding recover
recover-IsSound now s h = Returns-bind _ _ λ s' e. Returns-ok _ (
    same-IsSound s' _ refl
      ((recover_rows-Kept now _ s
          (All-sort _ work_order _ (All-select _ (lease_expired now) s.work current)) h).at
        s' e).sound)
  where
    current : All (RowCurrent s.work) s.work
    current =
        All-imp _ _
          (λ w only.
            All-imp _ _
              (λ v q r.
                (ap (λ (u : Work). u.attempt_count) (q r), ap (λ (u : Work). u.max_attempts) (q r)))
              s.work only)
          s.work (Distinct-Only (λ w. w.work_id) s.work h.unique)
