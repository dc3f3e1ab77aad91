-- ===== src/Settings.antt =====
-- The write settings of src/raw_write_settings.cpp, and the worker count of the asynchronous flusher
-- (src/raw_async.cpp). A setting is none when it is not set or NULL; `cores` is what
-- std::thread::hardware_concurrency() says, which may be 0.
pub mod Ranges
use rawduck.Prelude.{
  ℕ, ◌*◌, ◌/◌, min, max, ltb, leb, ℤ, pos, negsuc, Bool, true, false, ◌&&◌, Option, none, some,
  if◌then◌else◌,
}

abbrev pub default_pool_min_rows : ℕ
default_pool_min_rows = 4096

abbrev pub default_pipeline_depth : ℕ
default_pipeline_depth = 4

abbrev pub max_pool_threads : ℕ
max_pool_threads = 16

abbrev pub max_pipeline_threads : ℕ
max_pipeline_threads = 16

abbrev pub max_async_flush_threads : ℕ
max_async_flush_threads = 16

-- The settings as the user gave them.
pub record Config : Type 0 where
  pub pool_min_rows : Option ℤ
  pub pool_threads : Option ℤ
  pub pipeline_threads : Option ℤ
  pub pipeline_consumers : Option ℤ
  pub pipeline_depth : Option ℤ
  pub overlap_flush_auto : Option Bool
  pub overlap_flush : Option Bool

pub record RawWriteSettings : Type 0 where
  pub min_rows : ℕ
  pub threads : ℕ
  pub pipeline : ℕ
  pub consumers : ℕ
  pub depth : ℕ
  pub flush_auto : Bool

-- `if (value > 0) settings.x = value`, with the default of x
unfoldable pub positive_or : ℕ → Option ℤ → ℕ
positive_or default none = default
positive_or default (some (pos n)) = if ltb 0 n then n else default
positive_or default (some (negsuc n)) = default

abbrev pub bool_or : Bool → Option Bool → Bool
bool_or default none = default
bool_or default (some b) = b

-- RawWriteSettings::Get
unfoldable pub get_settings : Config → RawWriteSettings
get_settings c = record {
  min_rows = positive_or default_pool_min_rows c.pool_min_rows;
  threads = positive_or 0 c.pool_threads;
  pipeline = positive_or 0 c.pipeline_threads;
  consumers = positive_or 0 c.pipeline_consumers;
  depth = positive_or default_pipeline_depth c.pipeline_depth;
  flush_auto = bool_or false c.overlap_flush_auto;
}

unfoldable pub pool_thread_count : RawWriteSettings → ℕ → ℕ → ℕ
pool_thread_count s cores batch_rows =
    if ltb 0 s.threads
    then min s.threads max_pool_threads
    else if leb s.min_rows batch_rows
    then max 1 (min (cores / 2) max_pool_threads)
    else 1

unfoldable pub pipeline_thread_count : RawWriteSettings → ℕ → ℕ
pipeline_thread_count s cores =
    if ltb 0 s.pipeline
    then min s.pipeline max_pipeline_threads
    else max 1 (min (cores * 2 / 3) max_pipeline_threads)

unfoldable pub pipeline_consumer_count : RawWriteSettings → ℕ
pipeline_consumer_count s = if ltb 0 s.consumers then min s.consumers max_pipeline_threads else 1

unfoldable pub overlap_flush_for_batch : Config → Bool → ℕ → Bool
overlap_flush_for_batch c shape_absorbed batch_rows =
    let s = get_settings c in
    if bool_or false c.overlap_flush
    then true
    else s.flush_auto && (shape_absorbed && leb s.min_rows batch_rows)

-- worker_count of FlushDueParallel, for more than one due table
unfoldable pub flush_worker_count : ℕ → ℕ → ℕ → ℕ
flush_worker_count flush_threads cores due =
    min due (
      min (if ltb 0 flush_threads then flush_threads else max 1 (cores / 2))
        max_async_flush_threads)
