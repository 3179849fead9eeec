-- ===== src/SourceCache/Again.antt =====
-- What `get_or_stage` keeps and returns, and that it serves the same entry again.
use people_counter.Prelude.{
  ℕ, ◌+◌, ◌≤◌, ◌≡◌, refl, sym, ◌∙◌, String, true, false, ◌||◌, Option, some, List, [], ◌∷◌, ◌++◌,
  arith, ltb, nat_eq, ◌==◌, eq_iff, Bool-cases, inl, inr, ◌⊎◌, Result, Error, ok, err, os_error,
}
use people_counter.Prelude.Rows.{find}
use people_counter.Prelude.Keys.{Distinct}
use people_counter.Prelude.Membership.{In, All-In}
use people_counter.SourceCache.{
  CacheEntry, Staged, Cache, is_for, without, normalized_digest, check_entry, existing_entry_hit,
  look_up, get_or_stage,
}
use people_counter.SourceCache.Kept.{key, IsKeyed}
use people_counter.SourceCache.Served.{IsCache, IsServed, look_up-IsStep}

Result-cases : {A : Type 0} (r : Result A) → ((a : A) × (r ≡ ok a)) ⊎ ((e : Error) × (r ≡ err e))
Result-cases (ok a) = inl (a, refl)
Result-cases (err e) = inr (e, refl)

module _ {A : Type 0} (sha256 : A → String) (size : A → ℕ) where
  -- What one call gives, for the digest that was asked for.
  pub record IsCall (asked : String) (size_bytes : ℕ) (r : Cache A × Result (Option CacheEntry))
      : Type 0 where
    pub kept : IsCache r.0 ⊎ ((r.1 ≡ err os_error) × IsKeyed r.0.entries)
    pub fitting :
        (e : CacheEntry)
        → r.1 ≡ ok (some e)
        → (ltb size_bytes 1 || ltb r.0.max_total_bytes size_bytes) ≡ false
    pub served :
        (e : CacheEntry)
        → r.1 ≡ ok (some e)
        → (digest : String) × (normalized_digest asked ≡ ok digest)
          × IsServed sha256 size digest size_bytes e r.0

  -- From a cache within its bounds, whatever is asked, whatever is on the disk and whatever the stager
  -- leaves: the cache is within its bounds after the call, also if the call raises, unless it raises an
  -- OSError; then its entries are still of different contents, each at the path of its digest. An entry
  -- that the call returns has the digest that was asked for, is still in the cache, and its file is on
  -- the disk with a content of that digest and of the requested size.
  pub get_or_stage-IsCall :
      (asked : String) (size_bytes : ℕ) (stager : Staged A) (c : Cache A)
      → IsCache c
      → IsCall asked size_bytes (get_or_stage sha256 size asked size_bytes stager c)
  unfolding get_or_stage
  get_or_stage-IsCall asked size_bytes stager c h = elim (Result-cases (normalized_digest asked)) [
    | inr (x, q) ↦
        rw (get_or_stage, q)
          (record { kept = inl h; fitting = λ e f. absurd (no f); served = λ e f. absurd (no f) })
    | inl (digest, q) ↦
        rw (get_or_stage, q)
          (elim (Bool-cases (ltb size_bytes 1 || ltb c.max_total_bytes size_bytes)) [
            | inl refused ↦ rw refused (record {
              kept = inl h;
              fitting = λ e f. absurd (no f);
              served = λ e f. absurd (no f);
            })
            | inr fit ↦
                let step =
                  look_up-IsStep sha256 size digest size_bytes stager c h
                    (fits size_bytes c.max_total_bytes fit) in
                rw fit (record {
                  kept = step.kept;
                  fitting = λ e f. rw step.same_bytes fit;
                  served = λ e f. (digest, q, step.served e f);
                })
          ])
  ]
    where
      no : {x : Error} {o : Option CacheEntry} → err x ≡ ok o → ⊥
      no f = cc

      fits : (n m : ℕ) → (ltb n 1 || ltb m n) ≡ false → n ≤ m
      fits n m t = ground arith

  found :
      (digest : String) (e : CacheEntry) (es : List CacheEntry)
      → Distinct key es
      → In e es
      → e.content_sha256 ≡ digest
      → find (is_for digest) es ≡ some e
  unfolding find
  found digest e [] d m q = absurd m
  found digest e (x ∷ xs) d (inl p) q = rw (← p, (eq_iff e.content_sha256 digest).1 q) refl
  found digest e (x ∷ xs) d (inr m) q = elim (Bool-cases (is_for digest x)) [
    | inl t ↦ absurd (All-In _ xs e d.0 m (q ∙ sym ((eq_iff x.content_sha256 digest).0 t)))
    | inr t ↦ rw t (found digest e xs d.1 m q)
  ]

  -- What a hit leaves.
  abbrev hit_of : String → CacheEntry → Cache A → Cache A × Result (Option CacheEntry)
  hit_of digest e c =
      (record c { entries = without digest c.entries ++ e ∷ []; hits = c.hits + 1 }, ok (some e))

  module _ (digest : String) (size_bytes : ℕ) (e : CacheEntry) (c : Cache A) where
    check_entry_hit :
        IsServed sha256 size digest size_bytes e c
        → check_entry sha256 size digest size_bytes e c ≡ hit_of digest e c
    unfolding check_entry
    check_entry_hit s = rw (check_entry, s.on_disk, same_digest, same_size s.sized) refl
      where
        same_digest : (sha256 s.content == e.content_sha256) ≡ true
        same_digest = (eq_iff (sha256 s.content) e.content_sha256).1 (s.hashed ∙ sym s.named)

        same_size : size s.content ≡ size_bytes → nat_eq (size s.content) size_bytes ≡ true
        same_size q = ground arith

    existing_hit :
        IsCache c
        → IsServed sha256 size digest size_bytes e c
        → existing_entry_hit sha256 size digest size_bytes c ≡ hit_of digest e c
    unfolding existing_entry_hit
    existing_hit h s =
        rw (existing_entry_hit, found digest e c.entries h.bounded.distinct s.held s.named)
          (check_entry_hit s)

    -- A served entry is a hit.
    served_hit :
        (stager : Staged A)
        → IsCache c
        → IsServed sha256 size digest size_bytes e c
        → look_up sha256 size digest size_bytes stager c ≡ hit_of digest e c
    unfolding look_up
    served_hit stager h s = rw (look_up, existing_hit h s) refl

  again_hit :
      (asked digest : String) (size_bytes : ℕ) (e : CacheEntry) (stager : Staged A) (c : Cache A)
      → normalized_digest asked ≡ ok digest
      → (ltb size_bytes 1 || ltb c.max_total_bytes size_bytes) ≡ false
      → look_up sha256 size digest size_bytes stager c ≡ (
        record c { entries = without digest c.entries ++ e ∷ []; hits = c.hits + 1 },
        ok (some e),
      )
      → let r = get_or_stage sha256 size asked size_bytes stager c in
        (r.1 ≡ ok (some e))
        × (r.0.hits ≡ c.hits + 1)
        × (r.0.misses ≡ c.misses)
        × (r.0.disk ≡ c.disk)
  unfolding get_or_stage
  again_hit asked digest size_bytes e stager c named fit hit =
      rw (get_or_stage, named, fit, hit) (refl, refl, refl, refl)

  -- If a call from a cache within its bounds returns an entry, then the same call on the cache after
  -- it, whatever the stager would leave, returns the same entry as a hit, and leaves the disk and the
  -- number of misses as they are.
  pub get_or_stage-get_or_stage :
      (asked : String) (size_bytes : ℕ) (stager again : Staged A) (c : Cache A) (e : CacheEntry)
      → IsCache c
      → (get_or_stage sha256 size asked size_bytes stager c).1 ≡ ok (some e)
      → let d = (get_or_stage sha256 size asked size_bytes stager c).0 in
        let r = get_or_stage sha256 size asked size_bytes again d in
        (r.1 ≡ ok (some e))
        × (r.0.hits ≡ d.hits + 1)
        × (r.0.misses ≡ d.misses)
        × (r.0.disk ≡ d.disk)
  get_or_stage-get_or_stage asked size_bytes stager again c e h got =
      let call = get_or_stage-IsCall asked size_bytes stager c h in
      let (digest, named, served) = call.served e got in
      let d = (get_or_stage sha256 size asked size_bytes stager c).0 in
      again_hit asked digest size_bytes e again d named (call.fitting e got)
        (served_hit digest size_bytes e d again (returned got call.kept) served)
    where
      returned :
          {r : Cache A × Result (Option CacheEntry)}
          → r.1 ≡ ok (some e)
          → IsCache r.0 ⊎ ((r.1 ≡ err os_error) × IsKeyed r.0.entries)
          → IsCache r.0
      returned got (inl h) = h
      returned got (inr (raised, _)) = absurd (no got raised)
        where
          no : {x : Result (Option CacheEntry)} → x ≡ ok (some e) → x ≡ err os_error → ⊥
          no p q = cc
