-- ===== src/Settings/Ranges.antt =====
-- Whatever is configured, there is a worker, and not too many.
use rawduck.Prelude.{ℕ, ◌≤◌, ℤ, pos, negsuc, Option, none, some, arith}
use rawduck.Settings.{
  Config, positive_or, get_settings, pool_thread_count, pipeline_thread_count,
  pipeline_consumer_count, flush_worker_count,
}

positive_or-positive : (d : ℕ) (o : Option ℤ) → 1 ≤ d → 1 ≤ positive_or d o
unfolding positive_or
positive_or-positive d none h = h
positive_or-positive d (some (pos n)) h = ground arith
positive_or-positive d (some (negsuc n)) h = h

-- For every configuration, number of cores and batch: the pool, the pipeline and its consumers get
-- between 1 and 16 threads, and both the queue depth and the row limit of the pool are at least 1.
pub get_settings-ranges :
    (c : Config) (cores batch_rows : ℕ)
    → (1 ≤ pool_thread_count (get_settings c) cores batch_rows)
      × (pool_thread_count (get_settings c) cores batch_rows ≤ 16)
      × (1 ≤ pipeline_thread_count (get_settings c) cores)
      × (pipeline_thread_count (get_settings c) cores ≤ 16)
      × (1 ≤ pipeline_consumer_count (get_settings c))
      × (pipeline_consumer_count (get_settings c) ≤ 16)
      × (1 ≤ (get_settings c).depth)
      × (1 ≤ (get_settings c).min_rows)
unfolding get_settings pool_thread_count pipeline_thread_count pipeline_consumer_count
get_settings-ranges c cores batch_rows = (
  ground arith,
  ground arith,
  ground arith,
  ground arith,
  ground arith,
  ground arith,
  positive_or-positive 4 c.pipeline_depth (omega arith),
  positive_or-positive 4096 c.pool_min_rows (omega arith),
)

-- The asynchronous flusher starts at least one worker, at most 16, and at most one for each due
-- table.
pub flush_worker_count-range :
    (flush_threads cores due : ℕ)
    → 1 ≤ due
    → (1 ≤ flush_worker_count flush_threads cores due)
      × (flush_worker_count flush_threads cores due ≤ 16)
      × (flush_worker_count flush_threads cores due ≤ due)
unfolding flush_worker_count
flush_worker_count-range flush_threads cores due h = (ground arith, ground arith, ground arith)
