-- ===== src/Control/Trace/Commits.antt =====
-- `commit_batch` and `recover` as traces of writes.
use people_counter.Prelude.{
  ℕ, ◌+◌, ◌≡◌, refl, String, true, not, ◌||◌, List, [], ◌∷◌, ◌++◌, arith, nat_eq, ◌==◌, Returns,
  Returns-ok, Returns-err, Returns-require, Returns-if, Returns-bind, Returns-option,
}
use people_counter.Prelude.Rows.{any, find, count}
use people_counter.Control.Tables.{
  Work, AttemptStatus, Publication, Store, Batch, batch_committed, RecoveryReport,
}
use people_counter.Control.Process.{Joined, owns, has_batch_id}
use people_counter.Control.Commit.{
  published, is_true, or_empty, insert_publication, finish_attempt, commit_failed_attempt,
  commit_attempt, commit_attempts, commit_found, commit_batch, recover_row, recover_rows, recover,
}
use people_counter.Control.Trace.{
  write_elsewhere, write_release, write_publish, Trace, done, Write-Trace, Trace-append,
}
use people_counter.Control.Trace.Operations.{TraceFirst}

nat_eq→≡ : {n m : ℕ} → nat_eq n m ≡ true → n ≡ m
nat_eq→≡ h = ground arith

-- What `insert_publication` returns.
record IsInserted (r : Joined) (s t : Store) : Type 0 where
  row : Publication
  work : t.work ≡ s.work
  log : t.publications ≡ s.publications ++ row ∷ []
  last : t.last_sequence ≡ s.last_sequence + 1
  sequence : row.publication_sequence ≡ s.last_sequence + 1
  work_id : row.work_id ≡ r.attempt.work_id
  attempt_id : row.attempt_id ≡ r.attempt.attempt_id

insert_publication-IsInserted :
    (k : String) (r : Joined) (now : ℕ) (s : Store)
    → Returns (IsInserted r s) (insert_publication k r now s)
unfolding insert_publication
insert_publication-IsInserted k r now s =
    Returns-if
      (any (λ p. p.work_id == r.attempt.work_id || p.attempt_id == r.attempt.attempt_id)
        s.publications)
      _ _ (λ _. Returns-err _)
      (λ _. Returns-ok _ (record {
        row = _;
        work = refl;
        log = refl;
        last = refl;
        sequence = refl;
        work_id = refl;
        attempt_id = refl;
      }))

finish_published-Trace :
    (r : Joined) (now : ℕ) (s s' : Store)
    → IsInserted r s s'
    → Returns (Trace s) (
        finish_attempt r
          (published r.attempt.attempt_id s'.last_sequence now)
          AttemptStatus.succeeded
          s')
unfolding finish_attempt
finish_published-Trace r now s s' i = Returns-require _ _ _ λ e.
    let one : count (owns r.attempt.work_id r.attempt.attempt_id r.attempt.fence) s'.work ≡ 1 =
      nat_eq→≡ e in
    Returns-ok _ (
      Write-Trace (
        write_publish r.attempt.work_id r.attempt.attempt_id r.attempt.fence s'.last_sequence now
          i.row (rw i.work refl) (rw i.work at one)
          (record {
            log = i.log;
            last = i.last;
            next = i.last;
            sequence = i.sequence;
            work_id = i.work_id;
            attempt_id = i.attempt_id;
          })))

commit_failed_attempt-Trace :
    (r : Joined) (now : ℕ) (s : Store) → Returns (Trace s) (commit_failed_attempt r now s)
unfolding commit_failed_attempt finish_attempt
commit_failed_attempt-Trace r now s = Returns-require _ _ _ λ _. Returns-ok _ (
    Write-Trace (
      write_release r.attempt.work_id r.attempt.attempt_id r.attempt.fence _ _ now _ refl
        (record { log = refl; last = refl })))

commit_attempt-Trace :
    (k : String) (r : Joined) (now : ℕ) (s : Store)
    → Returns (TraceFirst {A = List ℕ} s) (commit_attempt k r now s)
unfolding commit_attempt
commit_attempt-Trace k r now s = Returns-require _ _ _ λ _.
    Returns-if (not (is_true r.attempt.terminal_succeeded)) _ _
      (λ _.
        Returns-bind (commit_failed_attempt r now s) _
          λ s' e. Returns-ok _ ((commit_failed_attempt-Trace r now s).at s' e))
      λ _. Returns-bind (insert_publication k r now s) _ λ s' e. Returns-bind _ _ λ s'' q.
        Returns-ok _ (
          (finish_published-Trace r now s s' ((insert_publication-IsInserted k r now s).at s' e)).at
            s'' q)

commit_attempts-Trace :
    (k : String) (rs : List Joined) (now : ℕ) (s : Store)
    → Returns (TraceFirst {A = List ℕ} s) (commit_attempts k rs now s)
unfolding commit_attempts
commit_attempts-Trace k [] now s = Returns-ok _ (done)
commit_attempts-Trace k (r ∷ rs) now s = Returns-bind (commit_attempt k r now s) _ λ p e.
    Returns-bind (commit_attempts k rs now p.0) _ λ q e'. Returns-ok _ (
      Trace-append ((commit_attempt-Trace k r now s).at p e)
        ((commit_attempts-Trace k rs now p.0).at q e'))

commit_found-Trace :
    (k : String) (now : ℕ) (b : Batch) (s : Store)
    → Returns (TraceFirst {A = List ℕ} s) (commit_found k now b s)
unfolding commit_found
commit_found-Trace k now b s =
    Returns-if (batch_committed b.status) _ _ (λ _. Returns-ok _ (done))
      λ _. Returns-require _ _ _ λ _. Returns-require _ _ _ λ _. Returns-bind _ _ λ p e.
        Returns-ok _ (
          Trace-append ((commit_attempts-Trace k _ now s).at p e)
            (Write-Trace (write_elsewhere refl (record { log = refl; last = refl }))))

pub commit_batch-Trace :
    (k : String) (now : ℕ) (s : Store) → Returns (TraceFirst {A = List ℕ} s) (commit_batch k now s)
unfolding commit_batch
commit_batch-Trace k now s = Returns-bind _ _ λ u _.
    Returns-option (find (has_batch_id k) s.batches) _ _ (λ _. Returns-err _)
      (λ b _. commit_found-Trace k now b s)

recover_row-Trace : (now : ℕ) (w : Work) (s : Store) → Returns (Trace s) (recover_row now w s)
unfolding recover_row
recover_row-Trace now w s = Returns-require _ _ _ λ _. Returns-ok _ (
    Write-Trace (
      write_release w.work_id (or_empty w.lease_attempt_id) w.fence _ _ now _ refl
        (record { log = refl; last = refl })))

recover_rows-Trace :
    (now : ℕ) (ws : List Work) (s : Store) → Returns (Trace s) (recover_rows now ws s)
unfolding recover_rows
recover_rows-Trace now [] s = Returns-ok s (done)
recover_rows-Trace now (w ∷ ws) s = Returns-bind (recover_row now w s) _ λ s' e. record {
  at = λ t q.
      Trace-append ((recover_row-Trace now w s).at s' e) ((recover_rows-Trace now ws s').at t q);
}

pub recover-Trace :
    (now : ℕ) (s : Store) → Returns (TraceFirst {A = RecoveryReport} s) (recover now s)
unfolding recover
recover-Trace now s = Returns-bind _ _ λ s' e. Returns-ok _ (
    Trace-append ((recover_rows-Trace now _ s).at s' e)
      (Write-Trace (write_elsewhere refl (record { log = refl; last = refl }))))
