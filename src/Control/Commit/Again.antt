-- ===== src/Control/Commit/Again.antt =====
-- A commit that is repeated.
use people_counter.Prelude.{
  ℕ, ◌≡◌, ◌≢◌, refl, sym, ap, ◌∙◌, ◌⊎◌, inl, inr, All, All-append, ◌++◌, map, String, true, not,
  ◌&&◌, ◌||◌, some, List, [], ◌∷◌, arith, ◌==◌, ltb, ok, bind-ok, if◌then◌else◌, Returns,
  Returns-ok, Returns-err, Returns-require, Returns-if, Returns-bind, Returns-option,
}
use people_counter.Prelude.Rows.{find, any, find_holds}
use people_counter.Prelude.Lookup.{find-update}
use people_counter.Prelude.Membership.{In, All-In, All_of_In}
use people_counter.Control.Commit.Sequences.{
  IsSequences, batch_sequences-IsSequences, In-append_right, All-map,
}
use mathlib.Core.List.{append-nil, append_assoc, map-append}
use people_counter.Control.Tables.{Publication, Batch, batch_sealed, batch_committed, Store}
use people_counter.Control.Texts.{required_text}
use people_counter.Control.Process.{Joined, has_batch_id}
use people_counter.Control.Commit.{
  is_true, insert_publication, finish_attempt, commit_failed_attempt, commit_attempt,
  commit_attempts, committed_batch, batch_sequences, commit_found, commit_batch,
}

-- The loop of a commit does not write to the batches, and publishes for the batch what it returns.
abbrev pub sequence : Publication → ℕ
sequence p = p.publication_sequence

abbrev Adds : String → Store → Store × List ℕ → Type 0
Adds k s p =
    (p.0.batches ≡ s.batches)
    × (new : List Publication) × (p.0.publications ≡ (s.publications ++ new))
    × All (λ q. q.batch_id ≡ k) new
    × (p.1 ≡ map sequence new)

abbrev Keeps : Store → Store → Type 0
Keeps s t = (t.batches ≡ s.batches) × (t.publications ≡ s.publications)

finish_attempt-Keeps :
    (r : Joined) (f : _) (status : _) (s : Store) → Returns (Keeps s) (finish_attempt r f status s)
unfolding finish_attempt
finish_attempt-Keeps r f status s = Returns-require _ _ _ λ _. Returns-ok _ (refl, refl)

insert_publication-Adds :
    (k : String) (r : Joined) (now : ℕ) (s : Store)
    → Returns (λ t. Adds k s (t, t.last_sequence ∷ [])) (insert_publication k r now s)
unfolding insert_publication
insert_publication-Adds k r now s =
    Returns-if
      (any (λ p. p.work_id == r.attempt.work_id || p.attempt_id == r.attempt.attempt_id)
        s.publications)
      _ _ (λ _. Returns-err _) (λ _. Returns-ok _ (refl, _, refl, (refl, tt), refl))

-- Two lists of new publications are one.
Adds-then :
    (k : String) (s s' t : Store) (ms ns : List ℕ)
    → Adds k s (s', ms)
    → Adds k s' (t, ns)
    → Adds k s (t, ms ++ ns)
Adds-then k s s' t ms ns (same, new, e, ours, numbers) (same', new', e', ours', numbers') = (
  same' ∙ same,
  new ++ new',
  e' ∙ (ap (λ (r : List Publication). r ++ new') e ∙ append_assoc s.publications new new'),
  All-append _ new new' ours ours',
  rw (numbers, numbers') (sym (map-append sequence new new')),
)

commit_attempt-Adds :
    (k : String) (r : Joined) (now : ℕ) (s : Store) → Returns (Adds k s) (commit_attempt k r now s)
unfolding commit_attempt commit_failed_attempt
commit_attempt-Adds k r now s = Returns-require _ _ _ λ _.
    Returns-if (not (is_true r.attempt.terminal_succeeded)) _ _
      (λ _. Returns-bind _ _ λ s' e.
        let (same, kept) = (finish_attempt-Keeps r _ _ s).at s' e in
        Returns-ok _ (same, [], kept ∙ sym (append-nil s.publications), tt, refl))
      λ _. Returns-bind (insert_publication k r now s) _ λ s' e. Returns-bind _ _ λ s'' q.
        let (same, kept) = (finish_attempt-Keeps r _ _ s').at s'' q in
        let (same', new, added, ours, numbers) = (insert_publication-Adds k r now s).at s' e in
        Returns-ok _ (same ∙ same', new, kept ∙ added, ours, numbers)

commit_attempts-Adds :
    (k : String) (rs : List Joined) (now : ℕ) (s : Store)
    → Returns (Adds k s) (commit_attempts k rs now s)
unfolding commit_attempts
commit_attempts-Adds k [] now s = Returns-ok _ (refl, [], sym (append-nil s.publications), tt, refl)
commit_attempts-Adds k (r ∷ rs) now s = Returns-bind (commit_attempt k r now s) _ λ p e.
    Returns-bind (commit_attempts k rs now p.0) _ λ q e'. Returns-ok _ (
      Adds-then k s p.0 q.0 p.1 q.1 ((commit_attempt-Adds k r now s).at p e)
        ((commit_attempts-Adds k rs now p.0).at q e'))

-- After a commit that returns, the batch is there and committed, and the numbers are published.
abbrev IsCommitted : String → Store × List ℕ → Type 0
IsCommitted k p =
    (b : Batch) × (find (has_batch_id k) p.0.batches ≡ some b)
    × (batch_committed b.status ≡ true)
    × All (λ n. In n (batch_sequences k p.0)) p.1

numbers_In :
    (k : String) (t : Store) (before new : List Publication)
    → t.publications ≡ (before ++ new)
    → All (λ q. q.batch_id ≡ k) new
    → All (λ n. In n (batch_sequences k t)) (map sequence new)
numbers_In k t before new e ours = All-map _ sequence new (
    All_of_In _ new (λ p m. member p (All-In _ new p ours m) (
      All-In _ t.publications p (batch_sequences-IsSequences k t).complete
        (rw e (In-append_right p before new m)))))
  where
    member :
        (p : Publication)
        → p.batch_id ≡ k
        → (p.batch_id ≢ k) ⊎ In p.publication_sequence (batch_sequences k t)
        → In p.publication_sequence (batch_sequences k t)
    member p q (inl n) = absurd (n q)
    member p q (inr m) = m

all_In : (ns : List ℕ) → All (λ n. In n ns) ns
all_In ns = All_of_In _ ns (λ n m. m)

commit_found-IsCommitted :
    (k : String) (now : ℕ) (b : Batch) (s : Store)
    → find (has_batch_id k) s.batches ≡ some b
    → Returns (IsCommitted k) (commit_found k now b s)
unfolding commit_found committed_batch batch_sequences
commit_found-IsCommitted k now b s e =
    Returns-if (batch_committed b.status) _ _ (λ h. Returns-ok _ (b, e, h, all_In _))
      λ _. Returns-require _ _ _ λ h. Returns-require _ _ _ λ _. Returns-bind _ _ λ p q.
        let (same, new, added, ours, numbers) = (commit_attempts-Adds k _ now s).at p q in
        Returns-ok _ (
          committed_batch now b,
          find-update (has_batch_id k) (λ c. has_batch_id k c && batch_sealed c.status)
                (committed_batch now) b p.0.batches (λ y. refl) (rw same e)
              ∙ sealed h,
          refl,
          rw numbers (numbers_In k p.0 s.publications new added ours),
        )
  where
    sealed :
        (batch_sealed b.status && ltb now b.lease_expires_at) ≡ true
        → some (if has_batch_id k b && batch_sealed b.status then committed_batch now b else b)
          ≡ some (committed_batch now b)
    sealed h =
        let x : has_batch_id k b ≡ true = find_holds (has_batch_id k) s.batches e in
        let y : batch_sealed b.status ≡ true = ground arith in rw (x, y) refl

commit_batch-IsCommitted :
    (k : String) (now : ℕ) (s : Store)
    → Returns
        (λ (p : Store × List ℕ). (required_text k ≡ ok k) × IsCommitted k p)
        (commit_batch k now s)
unfolding commit_batch required_text
commit_batch-IsCommitted k now s = Returns-bind _ _ λ u h.
    Returns-option (find (has_batch_id k) s.batches) _ _ (λ _. Returns-err _)
      (λ b e. record { at = λ p q. (ground arith, (commit_found-IsCommitted k now b s e).at p q) })

-- If `commit_batch` returns a store, then to commit the same batch again on that store, at any time,
-- changes nothing and returns the publication sequences of the batch, in ascending order: the number of
-- each publication of the batch that the store has, and none besides. The numbers that the first call
-- returned are among them.
pub commit_batch-commit_batch :
    (k : String) (now later : ℕ) (s t : Store) (ns : List ℕ)
    → commit_batch k now s ≡ ok (t, ns)
    → (ms : List ℕ) × (commit_batch k later t ≡ ok (t, ms))
      × IsSequences k t ms
      × All (λ n. In n ms) ns
unfolding commit_batch commit_found
commit_batch-commit_batch k now later s t ns h =
    let (text, (b, e, q, known)) =
      (commit_batch-IsCommitted k now s).at (t, ns) (unfold commit_batch in h) in
    (batch_sequences k t, bind-ok _ text ∙ rw (e, q) refl, batch_sequences-IsSequences k t, known)
