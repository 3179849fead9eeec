-- ===== src/SourceCache/Kept.antt =====
-- The bounds of the cache, and what eviction keeps of the entries and of the disk.
use people_counter.Prelude.{
  ℕ, ◌+◌, ◌≤◌, ◌≡◌, ◌≢◌, refl, sym, ap, ◌∙◌, String, false, not, ◌||◌, none, some, List, [], ◌∷◌,
  ◌++◌, arith, All, All-append, length, length-append, ltb, ◌==◌, eq_iff, Bool-cases, inl, inr, ◌⊎◌,
  Result, ok, err, os_error,
}
use people_counter.Prelude.Rows.{select, find, All-select}
use people_counter.Prelude.Keys.{Fresh, Distinct, Distinct-append, find-Fresh}
use people_counter.Prelude.Unique.{Distinct-select}
use people_counter.Prelude.Membership.{In}
use people_counter.SourceCache.{
  CacheEntry, Disk, total_bytes, is_for, without, put, Node, erase, unlink, over, evict,
}

abbrev pub key : CacheEntry → String
key e = e.content_sha256

-- The entries are of different contents, each at the path of its digest, and within both bounds.
pub record IsBounded (max_entries max_bytes : ℕ) (es : List CacheEntry) : Type 0 where
  pub distinct : Distinct key es
  pub paths : All (λ e. e.path ≡ e.content_sha256) es
  pub within_entries : length es ≤ max_entries
  pub within_bytes : total_bytes es ≤ max_bytes

pub total_bytes-append :
    (es ds : List CacheEntry) → total_bytes (es ++ ds) ≡ total_bytes es + total_bytes ds
total_bytes-append [] ds = omega arith
total_bytes-append (e ∷ es) ds = omega (arith, total_bytes-append es ds)

-- No entry for the digest.
abbrev pub Missing : String → List CacheEntry → Type 0
Missing digest es = find (is_for digest) es ≡ none

pub put-Missing :
    (e : CacheEntry) (es : List CacheEntry)
    → Missing e.content_sha256 es
    → put e es ≡ (es ++ e ∷ [])
unfolding put find
put-Missing e [] h = refl
put-Missing e (d ∷ ds) h = elim (Bool-cases (is_for e.content_sha256 d)) [
  | inl q ↦ absurd (some_none (rw q at h))
  | inr q ↦ rw q (ap (λ (r : List CacheEntry). d ∷ r) (put-Missing e ds (rw q at h)))
]
  where
    some_none : {x : CacheEntry} → some x ≡ none → ⊥
    some_none k = cc

pub without-Missing : (digest : String) (es : List CacheEntry) → Missing digest (without digest es)
unfolding without select find
without-Missing digest [] = refl
without-Missing digest (d ∷ ds) = elim (Bool-cases (is_for digest d)) [
  | inl q ↦ rw q (without-Missing digest ds)
  | inr q ↦ rw (q, q) (without-Missing digest ds)
]

without_le :
    (digest : String) (es : List CacheEntry)
    → (length (without digest es) ≤ length es) × (total_bytes (without digest es) ≤ total_bytes es)
unfolding without select
without_le digest [] = (omega arith, omega arith)
without_le digest (d ∷ ds) =
    let (a, b) = without_le digest ds in
    elim (Bool-cases (is_for digest d)) [
      | inl q ↦ rw q (omega arith, omega arith)
      | inr q ↦ rw q (omega arith, omega arith)
    ]

-- The entry that is found makes room for itself.
without_found :
    (digest : String) (e : CacheEntry) (es : List CacheEntry)
    → find (is_for digest) es ≡ some e
    → (length (without digest es) + 1 ≤ length es)
      × (total_bytes (without digest es) + e.size_bytes ≤ total_bytes es)
unfolding without select find
without_found digest e [] h = cc
without_found digest e (d ∷ ds) h = elim (Bool-cases (is_for digest d)) [
  | inl q ↦
      let same : d ≡ e = cc (rw q at h) in
      let (a, b) = without_le digest ds in rw q (rw (← same) (omega arith, omega arith))
  | inr q ↦ let (a, b) = without_found digest e ds (rw q at h) in rw q (omega arith, omega arith)
]

pub without-IsBounded :
    {m b : ℕ} (digest : String) (es : List CacheEntry)
    → IsBounded m b es
    → IsBounded m b (without digest es)
unfolding without
without-IsBounded digest es h =
    let (x, y) = without_le digest es in
    record {
      distinct = Distinct-select key (λ e. not (is_for digest e)) es h.distinct;
      paths = All-select _ (λ e. not (is_for digest e)) es h.paths;
      within_entries = omega (arith, h.within_entries);
      within_bytes = omega (arith, h.within_bytes);
    }

-- The entry that is used again goes to the end.
pub renewed-IsBounded :
    {m b : ℕ} (digest : String) (e : CacheEntry) (es : List CacheEntry)
    → find (is_for digest) es ≡ some e
    → e.content_sha256 ≡ digest
    → e.path ≡ e.content_sha256
    → IsBounded m b es
    → IsBounded m b (without digest es ++ e ∷ [])
renewed-IsBounded digest e es found named path h =
    let (x, y) = without_found digest e es found in
    let kept = without-IsBounded digest es h in
    record {
      distinct =
          Distinct-append key (without digest es) e
            (rw named (find-Fresh key digest (without digest es) (without-Missing digest es)))
            kept.distinct;
      paths = All-append _ (without digest es) (e ∷ []) kept.paths (path, tt);
      within_entries =
          omega (arith, length-append (without digest es) (e ∷ []), x, h.within_entries);
      within_bytes =
          omega (arith, total_bytes-append (without digest es) (e ∷ []), y, h.within_bytes);
    }

-- The entries are of different contents, each at the path of its digest.
pub record IsKeyed (es : List CacheEntry) : Type 0 where
  pub distinct : Distinct key es
  pub paths : All (λ e. e.path ≡ e.content_sha256) es

pub Node-cases :
    {A : Type 0} (n : Node A)
    → (n ≡ Node.absent) ⊎ (n ≡ Node.directory) ⊎ ((a : A) × (n ≡ Node.file a))
Node-cases Node.absent = inl refl
Node-cases Node.directory = inr (inl refl)
Node-cases (Node.file a) = inr (inr (a, refl))

pub unlink_cases :
    {A : Type 0} (path : String) (disk : Disk A)
    → (unlink path disk ≡ err os_error)
      ⊎ ((d : Disk A) × (unlink path disk ≡ ok d) × ((k : String) → path ≢ k → d k ≡ disk k))
unfolding unlink
unlink_cases path disk = elim (Node-cases (disk path)) [
  | inl q ↦ inr (disk, rw (unlink, q) refl, λ k h. refl)
  | inr (inl q) ↦ inl (rw (unlink, q) refl)
  | inr (inr (content, q)) ↦ inr (erase path disk, rw (unlink, q) refl, other)
]
  where
    other : (k : String) → path ≢ k → erase path disk k ≡ disk k
    other k h = elim (Bool-cases (k == path)) [
      | inl q ↦ absurd (h (sym ((eq_iff k path).0 q)))
      | inr q ↦ rw q refl
    ]

module _ {A : Type 0} (m b : ℕ) where
  -- Eviction ends within both bounds, or an `unlink` has raised.
  abbrev pub Evicted : List CacheEntry × Disk A × ℕ × Result (Unit {0}) → Type 0
  Evicted r = ((r.3 ≡ ok tt) × IsBounded m b r.0) ⊎ ((r.3 ≡ err os_error) × IsKeyed r.0)

  pub evict-Evicted :
      (es : List CacheEntry) (disk : Disk A) (n : ℕ)
      → Distinct key es
      → All (λ e. e.path ≡ e.content_sha256) es
      → Evicted (evict m b es disk n)
  unfolding evict
  evict-Evicted [] disk n d p = inl (
    refl,
    record { distinct = tt; paths = tt; within_entries = omega arith; within_bytes = omega arith },
  )
  evict-Evicted (e ∷ es) disk n d p = elim (Bool-cases (over m b (e ∷ es))) [
    | inl q ↦ elim (unlink_cases e.path disk) [
      | inl u ↦ rw (q, u) (inr (refl, record { distinct = d.1; paths = p.1 }))
      | inr (f, u, _) ↦ rw (q, u) (evict-Evicted es f (n + 1) d.1 p.1)
    ]
    | inr q ↦ rw q (
        inl (
          refl,
          record {
            distinct = d;
            paths = p;
            within_entries = entries_within (length (e ∷ es)) (total_bytes (e ∷ es)) q;
            within_bytes = bytes_within (length (e ∷ es)) (total_bytes (e ∷ es)) q;
          },
        ))
  ]
    where
      entries_within : (x y : ℕ) → (ltb m x || ltb b y) ≡ false → x ≤ m
      entries_within x y q = ground arith

      bytes_within : (x y : ℕ) → (ltb m x || ltb b y) ≡ false → y ≤ b
      bytes_within x y q = ground arith

  -- The newest entry, if it fits by itself, is kept, with its file.
  pub evict_keeps_last :
      (es : List CacheEntry) (e : CacheEntry) (disk : Disk A) (n : ℕ)
      → 1 ≤ m
      → e.size_bytes ≤ b
      → Fresh key e.content_sha256 es
      → All (λ d. d.path ≡ d.content_sha256) es
      → let r = evict m b (es ++ e ∷ []) disk n in
        In e r.0 × (r.1 e.content_sha256 ≡ disk e.content_sha256)
  unfolding evict
  evict_keeps_last [] e disk n some_entry fit f p =
      let fits : (ltb m 1 || ltb b (e.size_bytes + 0)) ≡ false = ground arith in
      rw fits (inl refl, refl)
  evict_keeps_last (d ∷ ds) e disk n some_entry fit f p =
      elim (Bool-cases (over m b (d ∷ (ds ++ e ∷ [])))) [
        | inl q ↦ elim (unlink_cases d.path disk) [
          | inl u ↦ rw (q, u) (last ds, refl)
          | inr (g, u, same) ↦
              let (x, y) = evict_keeps_last ds e g (n + 1) some_entry fit f.1 p.1 in
              rw (q, u) (x, y ∙ same e.content_sha256 (λ s. f.0 (sym p.0 ∙ s)))
        ]
        | inr q ↦ rw q (inr (last ds), refl)
      ]
    where
      last : (xs : List CacheEntry) → In e (xs ++ e ∷ [])
      last [] = inl refl
      last (y ∷ ys) = inr (last ys)
