-- ===== src/Executors.antt =====
-- The executors of src/people_counter/fabric_executor_inventory.py: the record of one executor, its
-- slots by cores and by memory, and the checks against the reviewed profile. The headroom is in whole
-- thousandths, so that `memory * (1 - headroom) // peak` is one division of whole numbers.
pub mod Width
pub mod Safety
pub mod Tests
use people_counter.Prelude.{
  ℕ, zero, suc, ◌+◌, ◌-◌, ◌*◌, ◌/◌, min, max, String, Bool, true, false, not, ◌&&◌, ◌||◌, Option,
  none, some, List, [], ◌∷◌, map, ltb, leb, nat_eq, ◌==◌, sum, length, if◌then◌else◌, Result, ok,
  err, inventory_error, ◌>>=◌, ◌>>◌, require,
}
use people_counter.Prelude.Rows.{select, any, every}

pub record ExecutorRecord : Type 0 where
  pub executor_id : String
  pub host : String
  pub total_cores : ℕ
  pub max_memory_bytes : ℕ

-- `__post_init__`
unfoldable pub executor_record : String → String → ℕ → ℕ → Result ExecutorRecord
executor_record executor_id host total_cores max_memory_bytes = do
  require (not (executor_id == "")) inventory_error
  require (not (host == "")) inventory_error
  require (leb 1 total_cores) inventory_error
  require (leb 1 max_memory_bytes) inventory_error
  ok (record {
    executor_id = executor_id;
    host = host;
    total_cores = total_cores;
    max_memory_bytes = max_memory_bytes;
  })

-- `not executors`
abbrev pub no_executors : List ExecutorRecord → Bool
no_executors [] = true
no_executors (e ∷ es) = false

-- `floor(cores / task_cpus)`
abbrev pub cores_slots : ℕ → ExecutorRecord → ℕ
cores_slots task_cpus e = e.total_cores / task_cpus

unfoldable pub compute_slots : List ExecutorRecord → ℕ → Result ℕ
compute_slots executors task_cpus = do
  require (leb 1 task_cpus) inventory_error
  require (not (no_executors executors)) inventory_error
  ok (sum (map (cores_slots task_cpus) executors))

-- `min(executor.max_memory_bytes ...)` of a list that is not empty
unfoldable pub least_memory : ExecutorRecord → List ExecutorRecord → ℕ
least_memory e [] = e.max_memory_bytes
least_memory e (f ∷ fs) = min e.max_memory_bytes (least_memory f fs)

-- `int(memory * (1.0 - headroom) // peak_rss_bytes)`
unfoldable pub memory_slots : ℕ → ℕ → ℕ → ℕ
memory_slots headroom peak_rss_bytes memory = memory * (1000 - headroom) / (1000 * peak_rss_bytes)

unfoldable pub compute_memory_cap : List ExecutorRecord → ℕ → ℕ → Result ℕ
unfolding least_memory memory_slots
compute_memory_cap [] headroom peak_rss_bytes = err inventory_error
compute_memory_cap (e ∷ es) headroom peak_rss_bytes = do
  require (ltb headroom 1000) inventory_error
  require (leb 1 peak_rss_bytes) inventory_error
  let per_executor = memory_slots headroom peak_rss_bytes (least_memory e es)
  require (leb 1 per_executor) inventory_error
  ok (per_executor * length (e ∷ es))

unfoldable pub per_executor_memory_slots : ExecutorRecord → ℕ → ℕ → Result ℕ
unfolding memory_slots
per_executor_memory_slots e headroom peak_rss_bytes = do
  require (ltb headroom 1000) inventory_error
  require (leb 1 peak_rss_bytes) inventory_error
  ok (memory_slots headroom peak_rss_bytes e.max_memory_bytes)

-- `max(executor.total_cores for executor in executors)`
unfoldable pub conservative_task_cpus : List ExecutorRecord → Result ℕ
unfolding ◌>>=◌
conservative_task_cpus [] = err inventory_error
conservative_task_cpus (e ∷ []) = ok e.total_cores
conservative_task_cpus (e ∷ f ∷ fs) = do
  widest ← conservative_task_cpus (f ∷ fs)
  ok (max e.total_cores widest)

unfoldable pub assert_matches_reviewed_profile : List ExecutorRecord → ℕ → ℕ → Result (Unit {0})
assert_matches_reviewed_profile executors expected_executor_cores expected_task_cpus = do
  require (leb 1 expected_executor_cores) inventory_error
  require (leb 1 expected_task_cpus) inventory_error
  require (leb expected_task_cpus expected_executor_cores) inventory_error
  require (every (λ e. nat_eq e.total_cores expected_executor_cores) executors) inventory_error

unfoldable pub assert_minimum_videos_per_group : List ℕ → ℕ → ℕ → Result (Unit {0})
assert_minimum_videos_per_group group_sizes total_items minimum = do
  require (leb 1 minimum) inventory_error
  if nat_eq (length group_sizes) 0
      then ok tt
      else if ltb total_items (length group_sizes * minimum)
      then ok tt
      else require (every (λ size. leb minimum size) group_sizes) inventory_error
