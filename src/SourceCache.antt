-- ===== src/SourceCache.antt =====
-- The executor's cache of localized files, src/people_counter/fabric_source_cache.py
-- (`LocalizedSourceCache`). The local disk gives each name under the cache's root what is there; the
-- content, its hash and its size are parameters. Unlinking a directory raises; every other access to the
-- disk succeeds. A call gives the state after it, also when it raises.
pub mod Kept
pub mod Served
pub mod Again
pub mod Tests
use people_counter.Prelude.{
  ℕ, zero, suc, ◌+◌, String, Bool, true, false, not, ◌&&◌, ◌||◌, Option, none, some, List, [], ◌∷◌,
  ◌++◌, map, ltb, leb, nat_eq, ◌==◌, sum, length, if◌then◌else◌, Result, Error, ok, err,
  source_cache_error, os_error,
}
use people_counter.Prelude.Rows.{select, find}
use people_counter.Control.Texts.{all_hex}
use Prim.Native.Char.{Char, code}
use Prim.Native.String.{count}

pub record CacheEntry : Type 0 where
  pub content_sha256 : String
  pub path : String
  pub size_bytes : ℕ

-- What is at a path: nothing, a file, or a directory.
pub data Node (A : Type 0) : Type 0 where
  absent directory : Node A
  file : A → Node A

-- The disk under the cache's root.
abbrev pub Disk : Type 0 → Type 0
Disk A = String → Node A

-- A run of the stager: what it leaves at the destination, and what it raises if it raises.
abbrev pub Staged : Type 0 → Type 0
Staged A = Node A × Option Error

-- `str.lower`, as far as it can give hexadecimal digits: any other letter is refused in both cases.
unfoldable pub lower_hex : Char → Char
lower_hex c =
    if nat_eq (code c) b'A'
    then "a"
    else if nat_eq (code c) b'B'
    then "b"
    else if nat_eq (code c) b'C'
    then "c"
    else if nat_eq (code c) b'D'
    then "d"
    else if nat_eq (code c) b'E'
    then "e"
    else if nat_eq (code c) b'F'
    then "f"
    else c

unfoldable pub lower : String → String
unfolding lower_hex
lower String.[] = String.[]
lower (String.◌∷◌ c s) = String.◌∷◌ (lower_hex c) (lower s)

-- `_normalized_digest`
unfoldable pub normalized_digest : String → Result String
unfolding lower all_hex
normalized_digest value =
    let digest = lower value in
    if nat_eq (count digest) 64 && all_hex digest then ok digest else err source_cache_error

-- `LocalizedSourceCache`, with the disk under its root. The entries are from the least recently used
-- to the most recently used one.
pub record Cache (A : Type 0) : Type 0 where
  pub max_entries : ℕ
  pub max_total_bytes : ℕ
  pub entries : List CacheEntry
  pub hits : ℕ
  pub misses : ℕ
  pub evictions : ℕ
  pub corruptions : ℕ
  pub disk : Disk A

abbrev pub total_bytes : List CacheEntry → ℕ
total_bytes [] = 0
total_bytes (e ∷ es) = e.size_bytes + total_bytes es

abbrev pub is_for : String → CacheEntry → Bool
is_for digest e = e.content_sha256 == digest

-- `self._entries.pop(digest, None)`
unfoldable pub without : String → List CacheEntry → List CacheEntry
unfolding select
without digest es = select (λ e. not (is_for digest e)) es

-- `self._entries[digest] = entry`
unfoldable pub put : CacheEntry → List CacheEntry → List CacheEntry
put e [] = e ∷ []
put e (d ∷ ds) = if is_for e.content_sha256 d then e ∷ ds else d ∷ put e ds

abbrev pub over : ℕ → ℕ → List CacheEntry → Bool
over max_entries max_bytes es = ltb max_entries (length es) || ltb max_bytes (total_bytes es)

module _ {A : Type 0} where
  -- The disk with nothing at the path.
  abbrev pub erase : String → Disk A → Disk A
  erase path disk k = if k == path then Node.absent else disk k

  -- `path.unlink(missing_ok=True)`, which raises an OSError for a directory.
  unfoldable pub unlink : String → Disk A → Result (Disk A)
  unlink path disk = elim (disk path) [
    | absent ↦ ok disk
    | directory ↦ err os_error
    | file content ↦ ok (erase path disk)
  ]

  -- What the stager leaves at the destination.
  unfoldable pub place : String → Node A → Disk A → Disk A
  place path node disk k = if k == path then node else disk k

  -- `__init__`
  unfoldable pub init : ℕ → ℕ → Disk A → Result (Cache A)
  init max_entries max_total_bytes disk =
      if ltb max_entries 1 || ltb max_total_bytes 1
      then err source_cache_error
      else ok (record {
        max_entries = max_entries;
        max_total_bytes = max_total_bytes;
        entries = [];
        hits = 0;
        misses = 0;
        evictions = 0;
        corruptions = 0;
        disk = disk;
      })

  -- The loop of `_evict_if_needed`: the entries, the disk and the evictions after it, and whether an
  -- `unlink` has raised. The oldest entry is out of the cache before its file is unlinked.
  unfoldable pub evict :
      ℕ → ℕ → List CacheEntry → Disk A → ℕ → List CacheEntry × Disk A × ℕ × Result (Unit {0})
  evict max_entries max_bytes [] disk n = ([], disk, n, ok tt)
  evict max_entries max_bytes (e ∷ es) disk n =
      let rest : List CacheEntry × Disk A × ℕ × Result (Unit {0}) = elim (unlink e.path disk) [
        | err x ↦ (es, disk, n, err x)
        | ok d ↦ evict max_entries max_bytes es d (n + 1)
      ] in
      if over max_entries max_bytes (e ∷ es) then rest else (e ∷ es, disk, n, ok tt)

  -- `_evict_if_needed`
  unfoldable pub evict_if_needed : Cache A → Cache A × Result (Unit {0})
  unfolding evict
  evict_if_needed c =
      let (entries, disk, evictions, raised) =
        evict c.max_entries c.max_total_bytes c.entries c.disk c.evictions in
      (record c { entries = entries; disk = disk; evictions = evictions }, raised)

  abbrev pub return_entry :
      CacheEntry → Cache A × Result (Unit {0}) → Cache A × Result (Option CacheEntry)
  return_entry e (c, err x) = (c, err x)
  return_entry e (c, ok _) = (c, ok (some e))

  -- `_remember_entry`
  unfoldable pub remember_entry :
      String → String → ℕ → Cache A → Cache A × Result (Option CacheEntry)
  unfolding put evict_if_needed
  remember_entry digest path size_bytes c =
      let e : CacheEntry = record {
        content_sha256 = digest;
        path = path;
        size_bytes = size_bytes;
      } in
      return_entry e (evict_if_needed (record c { entries = put e c.entries }))

  -- `_mark_corruption` and the `return None` after it.
  unfoldable pub mark_corruption : String → String → Cache A → Cache A × Result (Option CacheEntry)
  unfolding without
  mark_corruption digest path c =
      let entries = without digest c.entries in
      elim (unlink path c.disk) [
        | err x ↦ (record c { entries = entries }, err x)
        | ok d ↦
            (record c { entries = entries; disk = d; corruptions = c.corruptions + 1 }, ok none)
      ]

  -- The staged file is unlinked, and its size or its digest is the error.
  unfoldable pub discard : String → Cache A → Cache A × Result (Option CacheEntry)
  discard path c = elim (unlink path c.disk) [
    | err x ↦ (c, err x)
    | ok d ↦ (record c { disk = d }, err source_cache_error)
  ]

  module _ (sha256 : A → String) (size : A → ℕ) where
    -- The part of `_existing_entry_hit` after the entry is read.
    unfoldable pub check_entry :
        String → ℕ → CacheEntry → Cache A → Cache A × Result (Option CacheEntry)
    unfolding mark_corruption without
    check_entry digest size_bytes e c = elim (c.disk e.path) [
      | absent ↦ (c, err source_cache_error)
      | directory ↦ (c, err source_cache_error)
      | file content ↦
          if sha256 content == e.content_sha256
          then if nat_eq (size content) size_bytes
            then (
              record c { entries = without digest c.entries ++ e ∷ []; hits = c.hits + 1 },
              ok (some e),
            )
            else (c, err source_cache_error)
          else mark_corruption digest e.path c
    ]

    -- `_existing_entry_hit`
    unfoldable pub existing_entry_hit : String → ℕ → Cache A → Cache A × Result (Option CacheEntry)
    unfolding check_entry
    existing_entry_hit digest size_bytes c = elim (find (is_for digest) c.entries) [
      | none ↦ (c, ok none)
      | some e ↦ check_entry digest size_bytes e c
    ]

    -- `_reused_disk_entry`
    unfoldable pub reused_disk_entry : String → ℕ → Cache A → Cache A × Result (Option CacheEntry)
    unfolding mark_corruption remember_entry
    reused_disk_entry digest size_bytes c = elim (c.disk digest) [
      | absent ↦ (c, ok none)
      | directory ↦ (c, err source_cache_error)
      | file content ↦
          if sha256 content == digest
          then if nat_eq (size content) size_bytes
            then remember_entry digest digest (size content) c
            else (c, err source_cache_error)
          else mark_corruption digest digest c
    ]

    -- What `_stage_entry` does with what the stager has left.
    unfoldable pub check_staged : String → ℕ → Cache A → Cache A × Result (Option CacheEntry)
    unfolding remember_entry discard
    check_staged digest size_bytes c = elim (c.disk digest) [
      | absent ↦ (c, err source_cache_error)
      | directory ↦ (c, err source_cache_error)
      | file content ↦
          if nat_eq (size content) size_bytes
          then if sha256 content == digest
            then remember_entry digest digest (size content) c
            else discard digest c
          else discard digest c
    ]

    -- `_stage_entry`
    unfoldable pub stage_entry :
        String → ℕ → Staged A → Cache A → Cache A × Result (Option CacheEntry)
    unfolding place check_staged
    stage_entry digest size_bytes (node, some e) c =
        (record c { disk = place digest node c.disk }, err e)
    stage_entry digest size_bytes (node, none) c =
        check_staged digest size_bytes (record c { disk = place digest node c.disk })

    -- The next step is taken when the one before it gave no entry and did not raise.
    abbrev pub or_next :
        Cache A × Result (Option CacheEntry)
        → (Cache A → Cache A × Result (Option CacheEntry))
        → Cache A × Result (Option CacheEntry)
    or_next (c, ok none) next = next c
    or_next (c, ok (some e)) next = (c, ok (some e))
    or_next (c, err x) next = (c, err x)

    -- The steps under the lock.
    unfoldable pub look_up : String → ℕ → Staged A → Cache A → Cache A × Result (Option CacheEntry)
    look_up digest size_bytes stager c = or_next (existing_entry_hit digest size_bytes c) λ d.
        or_next (reused_disk_entry digest size_bytes (record d { misses = d.misses + 1 }))
          (stage_entry digest size_bytes stager)

    -- `get_or_stage`
    unfoldable pub get_or_stage :
        String → ℕ → Staged A → Cache A → Cache A × Result (Option CacheEntry)
    get_or_stage content_sha256 size_bytes stager c = elim (normalized_digest content_sha256) [
      | err e ↦ (c, err e)
      | ok digest ↦
          if ltb size_bytes 1 || ltb c.max_total_bytes size_bytes
          then (c, err source_cache_error)
          else look_up digest size_bytes stager c
    ]
