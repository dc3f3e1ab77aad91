-- ===== src/Pool.antt =====
-- RawAppendPool (src/raw_ingest.cpp): workers that take batches from a bounded queue into collections
-- of their own, while the consumer publishes new columns to an append-only list. A step is what one
-- thread does under the lock, with the work on its own collection that follows it. The flush writers,
-- the partial blocks and the layout caches, which save work but decide nothing, are left out.
pub mod Layout
pub mod Reach
pub mod Prefix
pub mod Conserve
use rawduck.Prelude.{
  ℕ, zero, suc, ◌+◌, Str, str_eq, lower, length, drop, get_elem?, replicate, update_nth, ltb, Bool,
  true, false, not, ◌&&◌, Option, none, some, List, [], ◌∷◌, ◌++◌, if◌then◌else◌,
}
use rawduck.Flatten.{RawColumn}
use rawduck.Catalog.{Columns}
use rawduck.Payload.{RawParsedPayload}
use rawduck.Pool.Layout.{covers}

-- A worker's collection: its columns (local_types with local_slots) and the batches appended to it.
-- A worker whose loop ended is not running.
pub record Worker : Type 0 where
  pub local : Columns
  pub appended : List RawParsedPayload
  pub running : Bool

pub record Pool : Type 0 where
  pub published : Columns
  pub queue : List RawParsedPayload
  pub workers : List Worker
  pub stopped : Bool
  -- `error` is set
  pub failed : Bool
  pub max_queue_depth : ℕ

-- The constructor
unfoldable pub create_pool : Columns → ℕ → ℕ → Pool
create_pool columns worker_count max_queue_depth = record {
  published = columns;
  queue = [];
  workers = replicate worker_count (record { local = columns; appended = []; running = true });
  stopped = false;
  failed = false;
  max_queue_depth = max_queue_depth;
}

pub data Submission : Type 0 where
  -- the producer waits
  waits : Submission
  -- the pool has stopped, and the batch is dropped
  dropped : Submission
  accepted : Pool → Submission

unfoldable pub submit : Pool → RawParsedPayload → Submission
submit p batch =
    if p.stopped
    then dropped
    else if ltb (length p.queue) p.max_queue_depth
    then accepted (record p { queue = p.queue ++ (batch ∷ []) })
    else waits

-- PublishColumns
unfoldable pub publish_columns : Pool → Columns → Pool
publish_columns p new_columns = record p { published = p.published ++ new_columns }

-- ExtendWorker with the columns that the worker's layout is behind.
abbrev pub extend_worker : Columns → Worker → Worker
extend_worker published w = record w { local = w.local ++ drop (length w.local) published }

abbrev pub append_to : Worker → RawParsedPayload → Worker
append_to w batch = record w { appended = w.appended ++ (batch ∷ []) }

abbrev pub end_loop : Worker → Worker
end_loop w = record w { running = false }

-- The first half of Stop
unfoldable pub stop : Pool → Pool
stop p = record p { stopped = true }

-- `throws`: DuckDB's casts and appends fail for this batch.
module _ (throws : Columns → RawParsedPayload → Bool) where
  -- AppendBatch, which fails before anything is appended when a column has no slot.
  abbrev pub appends : Worker → RawParsedPayload → Bool
  appends w batch = covers w.local batch.columns && not (throws w.local batch)

  -- The batch at the front of the queue is taken by worker `i`. On failure the handler of WorkerLoop
  -- records the error, stops the pool and ends the loop.
  abbrev pub take_front : Pool → ℕ → Worker → RawParsedPayload → List RawParsedPayload → Pool
  take_front p i w batch rest =
      if appends (extend_worker p.published w) batch
      then record p {
        queue = rest;
        workers = update_nth p.workers i (append_to (extend_worker p.published w) batch);
      }
      else record p {
        queue = rest;
        workers = update_nth p.workers i (end_loop (extend_worker p.published w));
        stopped = true;
        failed = true;
      }

  -- An empty queue ends the loop when the pool has stopped, and is waited on otherwise.
  abbrev pub loop_round : Pool → ℕ → Worker → List RawParsedPayload → Pool
  loop_round p i w [] =
      if p.stopped then record p { workers = update_nth p.workers i (end_loop w) } else p
  loop_round p i w (batch ∷ rest) = take_front p i w batch rest

  -- One round of WorkerLoop of worker `i`.
  unfoldable pub worker_step : Pool → ℕ → Pool
  worker_step p i = elim (get_elem? p.workers i) [
    | none ↦ p
    | some w ↦ if w.running then loop_round p i w p.queue else p
  ]

abbrev pub batch_rows : List RawParsedPayload → ℕ
batch_rows [] = 0
batch_rows (b ∷ bs) = length b.payload.rows + batch_rows bs

abbrev pub worker_rows : List Worker → ℕ
worker_rows [] = 0
worker_rows (w ∷ ws) = batch_rows w.appended + worker_rows ws

abbrev pub pad_workers : Columns → List Worker → List Worker
pad_workers published [] = []
pad_workers published (w ∷ ws) = extend_worker published w ∷ pad_workers published ws

-- Drain, after the threads have joined: none is the error thrown again; otherwise the padded
-- collections and the count of their rows.
unfoldable pub drain : Pool → Option (List Worker × ℕ)
drain p =
    if p.failed
    then none
    else some (pad_workers p.published p.workers, worker_rows (pad_workers p.published p.workers))
