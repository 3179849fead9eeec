-- ===== src/Control/Published.antt =====
-- Publication: the publications of the control database and the succeeded work go together, and what
-- has been published stays.
pub mod Writes
pub mod Reach
use people_counter.Prelude.{ℕ, ◌+◌, ◌≡◌, true, some, List, [], ◌∷◌}
use people_counter.Prelude.Membership.{In}
use people_counter.Control.Tables.{Work, is_succeeded, Publication, Store}

-- The publication of the work `w` is `p`.
pub record IsPublishedAs (w : Work) (p : Publication) : Type 0 where
  pub status : is_succeeded w.status ≡ true
  pub work : w.work_id ≡ p.work_id
  pub attempt : w.committed_attempt_id ≡ some p.attempt_id
  pub sequence : w.publication_sequence ≡ some p.publication_sequence

-- The sequences are `n + 1`, `n + 2` and so on up to `m`.
abbrev pub Numbered : ℕ → List Publication → ℕ → Type 0
Numbered n [] m = n ≡ m
Numbered n (p ∷ ps) m = (p.publication_sequence ≡ n + 1) × Numbered (n + 1) ps m

pub record IsPublished (s : Store) : Type 0 where
  pub rows : (p : Publication) → In p s.publications → (w : Work) × In w s.work × IsPublishedAs w p
  pub publications :
      (w : Work)
      → In w s.work
      → is_succeeded w.status ≡ true
      → (p : Publication) × In p s.publications × IsPublishedAs w p
  pub numbered : Numbered 0 s.publications s.last_sequence

-- What every operation does to published work: it stays in each column, its publication stays, and the
-- publications still go with the succeeded work.
pub record Grows (s t : Store) : Type 0 where
  pub work : (w : Work) → is_succeeded w.status ≡ true → In w s.work → In w t.work
  pub log : (p : Publication) → In p s.publications → In p t.publications
  pub published : IsPublished s → IsPublished t
