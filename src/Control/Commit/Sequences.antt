-- ===== src/Control/Commit/Sequences.antt =====
-- The publication sequences that a repeated commit reads back.
use people_counter.Prelude.{
  ℕ, ◌≤◌, ◌≡◌, ◌≢◌, refl, ap, ◌∙◌, String, Bool, false, ◌⊎◌, inl, inr, List, [], ◌∷◌, ◌++◌, map,
  arith, All, All-imp, length, length-map, ◌==◌, eq_iff, Bool-cases,
}
use people_counter.Prelude.Rows.{select, count}
use people_counter.Prelude.Sorting.{insert, sort, All-sort, length-sort}
use people_counter.Prelude.Membership.{In, All_of_In, In-select, In-select_inv}
use people_counter.Prelude.Unique.{In-sort}
use people_counter.Prelude.Counting.{length-select}
use people_counter.Control.Tables.{Publication, Store}
use people_counter.Control.Commit.{sequence_order, batch_sequences}

abbrev pub Ascending : List ℕ → Type 0
Ascending [] = Unit {0}
Ascending (n ∷ ns) = All (λ m. n ≤ m) ns × Ascending ns

-- The numbers are those of the batch's publications: each of them, none besides, each as often
-- as it is published.
pub record IsSequences (k : String) (t : Store) (ns : List ℕ) : Type 0 where
  pub ascending : Ascending ns
  pub published :
      All
        (λ n.
          (p : Publication) × In p t.publications × (p.batch_id ≡ k) × (p.publication_sequence ≡ n))
        ns
  pub complete : All (λ p. (p.batch_id ≢ k) ⊎ In p.publication_sequence ns) t.publications
  pub once : length ns ≡ count (λ p. p.batch_id == k) t.publications

insert-Ascending : (n : ℕ) (ns : List ℕ) → Ascending ns → Ascending (insert sequence_order n ns)
unfolding insert
insert-Ascending n [] h = (tt, tt)
insert-Ascending n (m ∷ ms) h = elim (Bool-cases (sequence_order n m)) [
  | inl q ↦
      let le : n ≤ m = ground arith in rw q ((le, All-imp _ _ (λ x l. le_of_le le l) ms h.0), h)
  | inr q ↦ let le : m ≤ n = ground arith in rw q (all_insert ms h.0 le, insert-Ascending n ms h.1)
]
  where
    le_of_le : {x y z : ℕ} → x ≤ y → y ≤ z → x ≤ z
    le_of_le p q = omega arith

    all_insert :
        (xs : List ℕ) → All (λ x. m ≤ x) xs → m ≤ n → All (λ x. m ≤ x) (insert sequence_order n xs)
    all_insert [] a le = (le, tt)
    all_insert (x ∷ xs) a le = elim (Bool-cases (sequence_order n x)) [
      | inl q ↦ rw q (le, a)
      | inr q ↦ rw q (a.0, all_insert xs a.1 le)
    ]

sort-Ascending : (ns : List ℕ) → Ascending (sort sequence_order ns)
unfolding sort
sort-Ascending [] = tt
sort-Ascending (n ∷ ns) = insert-Ascending n (sort sequence_order ns) (sort-Ascending ns)

pub In-map : {A B : Type 0} (f : A → B) (x : A) (xs : List A) → In x xs → In (f x) (map f xs)
In-map f x [] m = m
In-map f x (y ∷ ys) (inl q) = inl (ap f q)
In-map f x (y ∷ ys) (inr m) = inr (In-map f x ys m)

pub All-map :
    {A B : Type 0} (P : B → Type 0) (f : A → B) (xs : List A)
    → All (λ x. P (f x)) xs
    → All P (map f xs)
All-map P f [] h = tt
All-map P f (x ∷ xs) h = (h.0, All-map P f xs h.1)

pub In-append_right : {A : Type 0} (x : A) (xs ys : List A) → In x ys → In x (xs ++ ys)
In-append_right x [] ys m = m
In-append_right x (z ∷ zs) ys m = inr (In-append_right x zs ys m)

pub batch_sequences-IsSequences : (k : String) (t : Store) → IsSequences k t (batch_sequences k t)
unfolding batch_sequences
batch_sequences-IsSequences k t =
    let ours : Publication → Bool = λ p. p.batch_id == k in
    let rows = select ours t.publications in
    record {
      ascending = sort-Ascending (map (λ p. p.publication_sequence) rows);
      published = All-sort _ sequence_order _ (
          All-map _ (λ p. p.publication_sequence) rows
            (All_of_In _ rows (λ p m.
              let (held, same) = In-select_inv ours p t.publications m in
              (p, held, (eq_iff p.batch_id k).0 same, refl))));
      complete = All_of_In _ t.publications (λ p m. elim (Bool-cases (p.batch_id == k)) [
        | inl q ↦ inr (
            In-sort sequence_order p.publication_sequence _
              (In-map (λ r. r.publication_sequence) p rows (In-select ours p t.publications m q)))
        | inr q ↦ inl (differs p q)
      ]);
      once =
          length-sort sequence_order _
          ∙ (length-map (λ p. p.publication_sequence) rows ∙ length-select ours t.publications);
    }
  where
    differs : (p : Publication) → (p.batch_id == k) ≡ false → p.batch_id ≢ k
    differs p q e = ground (arith, eq_iff p.batch_id k)
