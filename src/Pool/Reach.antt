-- ===== src/Pool/Reach.antt =====
-- The runs of a pool.
use rawduck.Prelude.{ℕ, ◌≡◌, Bool, true, List, [], ◌∷◌}
use rawduck.Catalog.{Columns}
use rawduck.Payload.{RawParsedPayload}
use rawduck.Pool.{Pool, submit, accepted, publish_columns, worker_step, stop}
use rawduck.Pool.Layout.{covers}

-- `Reach throws start batches p`: the threads can bring the pool from `start` to `p`, and `batches`
-- were accepted on the way, the last one first. The consumer publishes the columns of a batch before
-- it submits it.
pub data Reach (throws : Columns → RawParsedPayload → Bool) (start : Pool)
    : List RawParsedPayload → Pool → Type 0 where
  starts : Reach throws start [] start
  submits :
      (batches : List RawParsedPayload) (p p' : Pool) (batch : RawParsedPayload)
      → Reach throws start batches p
      → covers p.published batch.columns ≡ true
      → submit p batch ≡ accepted p'
      → Reach throws start (batch ∷ batches) p'
  publishes :
      (batches : List RawParsedPayload) (p : Pool) (new_columns : Columns)
      → Reach throws start batches p
      → Reach throws start batches (publish_columns p new_columns)
  works :
      (batches : List RawParsedPayload) (p : Pool) (i : ℕ)
      → Reach throws start batches p
      → Reach throws start batches (worker_step throws p i)
  stops :
      (batches : List RawParsedPayload) (p : Pool)
      → Reach throws start batches p
      → Reach throws start batches (stop p)
