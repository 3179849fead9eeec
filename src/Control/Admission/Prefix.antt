-- ===== src/Control/Admission/Prefix.antt =====
-- The admitted prefix of the queue is the largest one that fits the lease.
use people_counter.Prelude.{
  ℕ, zero, suc, ◌+◌, ◌-◌, ◌≤◌, ◌<◌, ◌≡◌, ◌⊎◌, inl, inr, refl, true, false, List, arith, ok, err,
  lease_budget, length, leb, take, Bool-cases,
}
use people_counter.Control.Tables.{Work}
use people_counter.Control.Admission.{Settings, fits, largest_from, largest_admissible_prefix}

module _ (s : Settings) (lease : ℕ) (rows : List Work) (minimum : ℕ) where
  -- Among the prefixes of `minimum` to `minimum + extra` rows, the one of `n` rows is the largest
  -- that fits.
  pub record IsLargest (extra n : ℕ) : Type 0 where
    pub at_least : minimum ≤ n
    pub at_most : n ≤ minimum + extra
    pub admitted : fits s lease (take n rows) ≡ true
    pub largest : (m : ℕ) → n < m → m ≤ minimum + extra → fits s lease (take m rows) ≡ false

  largest_from_lem :
      (extra : ℕ)
      → fits s lease (take minimum rows) ≡ true
      → (n : ℕ) × (largest_from s lease rows minimum extra ≡ take n rows) × IsLargest extra n
  unfolding largest_from
  largest_from_lem zero h = (
    minimum,
    refl,
    record {
      at_least = omega arith;
      at_most = omega arith;
      admitted = h;
      largest = λ m p q. absurd (omega arith);
    },
  )
  largest_from_lem (suc extra) h =
      elim (Bool-cases (fits s lease (take (minimum + suc extra) rows))) [
        | inl e ↦ (
          minimum + suc extra,
          rw e,
          record {
            at_least = omega arith;
            at_most = omega arith;
            admitted = e;
            largest = λ m p q. absurd (omega arith);
          },
        )
        | inr e ↦
            let (n, q, k) = largest_from_lem extra h in
            (
              n,
              rw (e, q),
              record {
                at_least = k.at_least;
                at_most = omega (arith, k.at_most);
                admitted = k.admitted;
                largest = λ m p r. elim (Bool-cases (leb m (minimum + extra))) [
                  | inl t ↦ k.largest m p (ground arith)
                  | inr t ↦ let last : m ≡ minimum + suc extra = ground arith in rw last e
                ];
              },
            )
      ]

  -- With a queue of at least `minimum` rows: if the first `minimum` rows fit the lease, the result is
  -- the largest prefix of `minimum` rows or more that fits; otherwise the claim is refused with
  -- `LeaseBudgetError`.
  pub largest_admissible_prefix_lem :
      minimum ≤ length rows
      → ((n : ℕ) × (largest_admissible_prefix s lease minimum rows ≡ ok (take n rows))
          × IsLargest (length rows - minimum) n)
        ⊎ ((largest_admissible_prefix s lease minimum rows ≡ err lease_budget)
            × (fits s lease (take minimum rows) ≡ false))
  unfolding largest_admissible_prefix
  largest_admissible_prefix_lem h = elim (Bool-cases (fits s lease (take minimum rows))) [
    | inl e ↦ let (n, q, k) = largest_from_lem (length rows - minimum) e in inl (n, rw (e, q), k)
    | inr e ↦ inr (rw e, e)
  ]
