-- ===== src/SourceCache/Served.antt =====
-- What one call of `get_or_stage` keeps and returns.
use people_counter.Prelude.{
  ℕ, ◌+◌, ◌≤◌, ◌≡◌, refl, ◌∙◌, ◌⊎◌, String, true, Option, none, some, [], ◌∷◌, ◌++◌, arith,
  All-append, nat_eq, ◌==◌, eq_iff, Bool-cases, Option-cases, inl, inr, Result, ok, err, Error,
  os_error,
}
use people_counter.Prelude.Rows.{find, find-All, find_holds}
use people_counter.Prelude.Keys.{find-Fresh, Distinct-append}
use people_counter.Prelude.Membership.{In, In-append_last}
use people_counter.SourceCache.{
  CacheEntry, Node, Staged, Disk, Cache, is_for, without, discard, place, evict_if_needed,
  remember_entry, mark_corruption, check_entry, existing_entry_hit, reused_disk_entry, check_staged,
  stage_entry, or_next, look_up,
}
use people_counter.SourceCache.Kept.{
  key, IsBounded, Missing, put-Missing, without-Missing, without-IsBounded, renewed-IsBounded,
  evict-Evicted, evict_keeps_last, IsKeyed, Node-cases, unlink_cases,
}

module _ {A : Type 0} where
  -- The cache is within its bounds, of which the number of entries is positive.
  pub record IsCache (c : Cache A) : Type 0 where
    pub bounded : IsBounded c.max_entries c.max_total_bytes c.entries
    pub some_entry : 1 ≤ c.max_entries

module _ {A : Type 0} (sha256 : A → String) (size : A → ℕ) (digest : String) (size_bytes : ℕ) where
  -- The entry is in the cache, and the file at its path has the requested digest and size.
  pub record IsServed (e : CacheEntry) (c : Cache A) : Type 0 where
    pub named : e.content_sha256 ≡ digest
    pub held : In e c.entries
    pub content : A
    pub on_disk : c.disk e.path ≡ Node.file content
    pub hashed : sha256 content ≡ digest
    pub sized : size content ≡ size_bytes

  -- What a step from a cache gives.
  pub record IsStep (c : Cache A) (r : Cache A × Result (Option CacheEntry)) : Type 0 where
    pub kept : IsCache r.0 ⊎ ((r.1 ≡ err os_error) × IsKeyed r.0.entries)
    pub same_bytes : r.0.max_total_bytes ≡ c.max_total_bytes
    pub missing : r.1 ≡ ok none → Missing digest r.0.entries
    pub served : (e : CacheEntry) → r.1 ≡ ok (some e) → IsServed e r.0

  raises :
      (c d : Cache A) (x : Error)
      → IsCache d
      → d.max_total_bytes ≡ c.max_total_bytes
      → IsStep c (d, err x)
  raises c d x h q = record {
    kept = inl h;
    same_bytes = q;
    missing = λ e. absurd (no e);
    served = λ e f. absurd (no f);
  }
    where
      no : {o : Option CacheEntry} → err x ≡ ok o → ⊥
      no e = cc

  -- An `unlink` has raised.
  raises_os :
      (c d : Cache A)
      → IsKeyed d.entries
      → d.max_total_bytes ≡ c.max_total_bytes
      → IsStep c (d, err os_error)
  raises_os c d h q = record {
    kept = inr (refl, h);
    same_bytes = q;
    missing = λ e. absurd (no e);
    served = λ e f. absurd (no f);
  }
    where
      no : {o : Option CacheEntry} → err os_error ≡ ok o → ⊥
      no e = cc

  gives_none :
      (c d : Cache A)
      → IsCache d
      → d.max_total_bytes ≡ c.max_total_bytes
      → Missing digest d.entries
      → IsStep c (d, ok none)
  gives_none c d h q m = record {
    kept = inl h;
    same_bytes = q;
    missing = λ _. m;
    served = λ e f. absurd (no f);
  }
    where
      no : {e : CacheEntry} → ok none ≡ ok (some e) → ⊥
      no f = cc

  gives_some :
      (c d : Cache A) (e : CacheEntry)
      → IsCache d
      → d.max_total_bytes ≡ c.max_total_bytes
      → IsServed e d
      → IsStep c (d, ok (some e))
  gives_some c d e h q s = record {
    kept = inl h;
    same_bytes = q;
    missing = λ f. absurd (no f);
    served = λ f g. rw (same f g) at s;
  }
    where
      no : ok (some e) ≡ ok none → ⊥
      no f = cc

      same : (f : CacheEntry) → ok (some e) ≡ ok (some f) → e ≡ f
      same f g = cc

  mark_corruption-IsStep :
      (path : String) (c d : Cache A)
      → IsCache d
      → d.max_total_bytes ≡ c.max_total_bytes
      → IsStep c (mark_corruption digest path d)
  unfolding mark_corruption
  mark_corruption-IsStep path c d h q =
      let kept = without-IsBounded digest d.entries h.bounded in
      elim (unlink_cases path d.disk) [
        | inl u ↦
            rw (mark_corruption, u)
              (raises c _ os_error (record { bounded = kept; some_entry = h.some_entry }) q)
        | inr (f, u, _) ↦
            rw (mark_corruption, u)
              (gives_none c _ (record { bounded = kept; some_entry = h.some_entry }) q
                (without-Missing digest d.entries))
      ]

  discard-IsStep :
      (c d : Cache A)
      → IsCache d
      → d.max_total_bytes ≡ c.max_total_bytes
      → IsStep c (discard digest d)
  unfolding discard
  discard-IsStep c d h q = elim (unlink_cases digest d.disk) [
    | inl u ↦ rw (discard, u) (raises c d os_error h q)
    | inr (f, u, _) ↦
        rw (discard, u) (raises c _ _ (record { bounded = h.bounded; some_entry = h.some_entry }) q)
  ]

  -- An entry that is new: its file is there, with the digest and the size.
  remember_entry-IsStep :
      (c d : Cache A) (content : A)
      → IsCache d
      → d.max_total_bytes ≡ c.max_total_bytes
      → size_bytes ≤ d.max_total_bytes
      → Missing digest d.entries
      → d.disk digest ≡ Node.file content
      → sha256 content ≡ digest
      → size content ≡ size_bytes
      → IsStep c (remember_entry digest digest (size content) d)
  unfolding remember_entry evict_if_needed
  remember_entry-IsStep c d content h q fit m on_disk hashed sized =
      let e : CacheEntry = record {
        content_sha256 = digest;
        path = digest;
        size_bytes = size content;
      } in
      let fresh = find-Fresh key digest d.entries m in
      let last = put-Missing e d.entries m in
      let (held, file) =
        evict_keeps_last d.max_entries d.max_total_bytes d.entries e d.disk d.evictions h.some_entry
          (rw sized fit) fresh h.bounded.paths in
      rw last
        (elim (evict-Evicted d.max_entries d.max_total_bytes (d.entries ++ e ∷ []) d.disk
          d.evictions (Distinct-append key d.entries e fresh h.bounded.distinct)
          (All-append _ d.entries (e ∷ []) h.bounded.paths (refl, tt))) [
            | inl (returned, bounded) ↦ rw returned (
                gives_some c _ e (record { bounded = bounded; some_entry = h.some_entry }) q
                  (record {
                    named = refl;
                    held = held;
                    content = content;
                    on_disk = file ∙ on_disk;
                    hashed = hashed;
                    sized = sized;
                  }))
            | inr (raised, keyed) ↦ rw raised (raises_os c _ keyed q)
          ])

  -- The entry that is found is served, raises, or is dropped as corrupt.
  check_entry-IsStep :
      (e : CacheEntry) (c : Cache A)
      → IsCache c
      → find (is_for digest) c.entries ≡ some e
      → IsStep c (check_entry sha256 size digest size_bytes e c)
  unfolding check_entry
  check_entry-IsStep e c h found = elim (Node-cases (c.disk e.path)) [
    | inl q ↦ rw (check_entry, q) (raises c c _ h refl)
    | inr (inl q) ↦ rw (check_entry, q) (raises c c _ h refl)
    | inr (inr (content, q)) ↦
        rw (check_entry, q)
          (elim (Bool-cases (sha256 content == e.content_sha256)) [
            | inl same ↦ rw same (elim (Bool-cases (nat_eq (size content) size_bytes)) [
              | inl sized ↦ rw sized (
                  gives_some c _ e
                    (record {
                      bounded = renewed-IsBounded digest e c.entries found named path h.bounded;
                      some_entry = h.some_entry;
                    })
                    refl
                    (record {
                      named = named;
                      held = In-append_last e (without digest c.entries);
                      content = content;
                      on_disk = q;
                      hashed = (eq_iff (sha256 content) e.content_sha256).0 same ∙ named;
                      sized = equal _ _ sized;
                    }))
              | inr sized ↦ rw sized (raises c c _ h refl)
            ])
            | inr same ↦ rw same (mark_corruption-IsStep e.path c c h refl)
          ])
  ]
    where
      named : e.content_sha256 ≡ digest
      named = (eq_iff e.content_sha256 digest).0 (find_holds (is_for digest) c.entries found)

      path : e.path ≡ e.content_sha256
      path =
          find-All (λ d. d.path ≡ d.content_sha256) (is_for digest) c.entries h.bounded.paths found

      equal : (m n : ℕ) → nat_eq m n ≡ true → m ≡ n
      equal m n t = ground arith

  existing_entry_hit-IsStep :
      (c : Cache A) → IsCache c → IsStep c (existing_entry_hit sha256 size digest size_bytes c)
  unfolding existing_entry_hit
  existing_entry_hit-IsStep c h = elim (Option-cases (find (is_for digest) c.entries)) [
    | inl q ↦ rw (existing_entry_hit, q) (gives_none c c h refl q)
    | inr (e, q) ↦ rw (existing_entry_hit, q) (check_entry-IsStep e c h q)
  ]

  reused_disk_entry-IsStep :
      (c d : Cache A)
      → IsCache d
      → d.max_total_bytes ≡ c.max_total_bytes
      → size_bytes ≤ d.max_total_bytes
      → Missing digest d.entries
      → IsStep c (reused_disk_entry sha256 size digest size_bytes d)
  unfolding reused_disk_entry
  reused_disk_entry-IsStep c d h b fit m = elim (Node-cases (d.disk digest)) [
    | inl q ↦ rw (reused_disk_entry, q) (gives_none c d h b m)
    | inr (inl q) ↦ rw (reused_disk_entry, q) (raises c d _ h b)
    | inr (inr (content, q)) ↦
        rw (reused_disk_entry, q)
          (elim (Bool-cases (sha256 content == digest)) [
            | inl same ↦ rw same (elim (Bool-cases (nat_eq (size content) size_bytes)) [
              | inl sized ↦ rw sized (
                  remember_entry-IsStep c d content h b fit m q
                    ((eq_iff (sha256 content) digest).0 same) (equal _ _ sized))
              | inr sized ↦ rw sized (raises c d _ h b)
            ])
            | inr same ↦ rw same (mark_corruption-IsStep digest c d h b)
          ])
  ]
    where
      equal : (x y : ℕ) → nat_eq x y ≡ true → x ≡ y
      equal x y t = ground arith

  changed-IsCache : (disk : Disk A) (d : Cache A) → IsCache d → IsCache (record d { disk = disk })
  changed-IsCache disk d h = record { bounded = h.bounded; some_entry = h.some_entry }

  check_staged-IsStep :
      (c d : Cache A)
      → IsCache d
      → d.max_total_bytes ≡ c.max_total_bytes
      → size_bytes ≤ d.max_total_bytes
      → Missing digest d.entries
      → IsStep c (check_staged sha256 size digest size_bytes d)
  unfolding check_staged
  check_staged-IsStep c d h b fit m = elim (Node-cases (d.disk digest)) [
    | inl q ↦ rw (check_staged, q) (raises c d _ h b)
    | inr (inl q) ↦ rw (check_staged, q) (raises c d _ h b)
    | inr (inr (content, q)) ↦
        rw (check_staged, q)
          (elim (Bool-cases (nat_eq (size content) size_bytes)) [
            | inl sized ↦ rw sized (elim (Bool-cases (sha256 content == digest)) [
              | inl same ↦ rw same (
                  remember_entry-IsStep c d content h b fit m q
                    ((eq_iff (sha256 content) digest).0 same) (equal _ _ sized))
              | inr same ↦ rw same (discard-IsStep c d h b)
            ])
            | inr sized ↦ rw sized (discard-IsStep c d h b)
          ])
  ]
    where
      equal : (x y : ℕ) → nat_eq x y ≡ true → x ≡ y
      equal x y t = ground arith

  stage_entry-IsStep :
      (stager : Staged A) (c d : Cache A)
      → IsCache d
      → d.max_total_bytes ≡ c.max_total_bytes
      → size_bytes ≤ d.max_total_bytes
      → Missing digest d.entries
      → IsStep c (stage_entry sha256 size digest size_bytes stager d)
  unfolding stage_entry
  stage_entry-IsStep (node, some x) c d h b fit m =
      raises c _ x (changed-IsCache (place digest node d.disk) d h) b
  stage_entry-IsStep (node, none) c d h b fit m =
      check_staged-IsStep c (record d { disk = place digest node d.disk })
        (changed-IsCache (place digest node d.disk) d h) b fit m

  or_next-IsStep :
      (c : Cache A) (r : Cache A × Result (Option CacheEntry))
      (next : Cache A → Cache A × Result (Option CacheEntry))
      → IsStep c r
      → ((d : Cache A)
          → IsCache d
          → d.max_total_bytes ≡ c.max_total_bytes
          → Missing digest d.entries
          → IsStep c (next d))
      → IsStep c (or_next sha256 size r next)
  or_next-IsStep c (d, ok none) next h k = elim h.kept [
    | inl kept ↦ k d kept h.same_bytes (h.missing refl)
    | inr (raised, _) ↦ absurd (no raised)
  ]
    where
      no : {o : Option CacheEntry} → ok o ≡ err os_error → ⊥
      no e = cc
  or_next-IsStep c (d, ok (some e)) next h k = h
  or_next-IsStep c (d, err x) next h k = h

  pub look_up-IsStep :
      (stager : Staged A) (c : Cache A)
      → IsCache c
      → size_bytes ≤ c.max_total_bytes
      → IsStep c (look_up sha256 size digest size_bytes stager c)
  unfolding look_up
  look_up-IsStep stager c h fit =
      or_next-IsStep c (existing_entry_hit sha256 size digest size_bytes c) _
        (existing_entry_hit-IsStep c h)
        λ d k b m.
          or_next-IsStep c
            (reused_disk_entry sha256 size digest size_bytes (record d { misses = d.misses + 1 })) _
            (reused_disk_entry-IsStep c (record d { misses = d.misses + 1 })
              (record { bounded = k.bounded; some_entry = k.some_entry }) b (rw b fit) m)
            (λ f l q n. stage_entry-IsStep stager c f l q (rw q fit) n)
