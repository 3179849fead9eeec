-- ===== src/SourceCache/Tests.antt =====
-- Runs of the cache: contents are texts, hashed by their length.
use people_counter.Prelude.{◌+◌, ◌≡◌, refl, arith, String, none, some, [], ◌==◌, ok, if◌then◌else◌}
use people_counter.SourceCache
use people_counter.SourceCache.{CacheEntry, Node, Staged, Disk, Cache, init, get_or_stage}
use people_counter.SourceCache.Served.{IsCache}
use people_counter.SourceCache.Again.{IsCall, get_or_stage-IsCall, get_or_stage-get_or_stage}
use people_counter.Control.Texts.{all_hex}
use people_counter.Prelude.Rows.{find}
use Prim.Native.String.{count}

abbrev digest : String
digest = "aaaaaaaaaaaaaaaaaaaaaaaaaaaaaaaaaaaaaaaaaaaaaaaaaaaaaaaaaaaaaaaa"

abbrev asked : String
asked = "AAAAAAAAAAAAAAAAaaaaaaaaaaaaaaaaaaaaaaaaaaaaaaaaaaaaaaaaaaaaaaaa"

abbrev sha256 : String → String
sha256 content = if content == "video" then digest else ""

abbrev no_files : Disk String
no_files path = Node.absent

abbrev empty : Cache String
empty = record {
  max_entries = 1;
  max_total_bytes = 9;
  entries = [];
  hits = 0;
  misses = 0;
  evictions = 0;
  corruptions = 0;
  disk = no_files;
}

abbrev video : Staged String
video = (Node.file "video", none)

abbrev staged : CacheEntry
staged = record { content_sha256 = digest; path = digest; size_bytes = 5 }

empty-IsCache : IsCache empty
empty-IsCache = record {
  bounded = record {
    distinct = tt;
    paths = tt;
    within_entries = omega arith;
    within_bytes = omega arith;
  };
  some_entry = omega arith;
}

staged_run : (get_or_stage sha256 count asked 5 video empty).1 ≡ ok (some staged)
unfolding get_or_stage SourceCache.normalized_digest SourceCache.look_up
    SourceCache.existing_entry_hit SourceCache.check_entry SourceCache.reused_disk_entry
    SourceCache.stage_entry SourceCache.check_staged SourceCache.remember_entry SourceCache.lower
    SourceCache.lower_hex all_hex find SourceCache.put SourceCache.unlink
    SourceCache.evict_if_needed SourceCache.evict SourceCache.place
staged_run = refl

get_or_stage-IsCall_example :
    IsCall sha256 count asked 5 (get_or_stage sha256 count asked 5 video empty)
get_or_stage-IsCall_example = get_or_stage-IsCall sha256 count asked 5 video empty empty-IsCache

get_or_stage-get_or_stage_example :
    let d = (get_or_stage sha256 count asked 5 video empty).0 in
    let r = get_or_stage sha256 count asked 5 (Node.absent, none) d in
    (r.1 ≡ ok (some staged))
    × (r.0.hits ≡ d.hits + 1)
    × (r.0.misses ≡ d.misses)
    × (r.0.disk ≡ d.disk)
get_or_stage-get_or_stage_example =
    get_or_stage-get_or_stage sha256 count asked 5 video (Node.absent, none) empty staged
      empty-IsCache staged_run
