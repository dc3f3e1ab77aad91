-- ===== src/Examples/Pools.antt =====
-- Filling a vector, transforms and a small run of the append pool.
use rawduck.Prelude.{
  pos, ◌≡◌, refl, List, [], ◌∷◌, ◌++◌, codes, some, none, false, true, arith, map, Option, Bool, ok,
}
use rawduck.Json.{Value, uint, arr, nil, cons}
use rawduck.Node.{empty_node}
use rawduck.SqlType.{LogicalType}
use rawduck.Catalog.{Columns}
use rawduck.Fill.{Vector, scalars, lists, fill_vector, bigint}
use rawduck.Fill.Read.{read_vector, cell_of, HasShape, fill_vector-reads}
use rawduck.Transform.{
  Registry, raw_transform_define, set_transform, resolve_builtin_transform, find_transform,
}
use rawduck.Payload.{RawParsedPayload}
use rawduck.Pool.{
  Pool, create_pool, submit, accepted, publish_columns, worker_step, drain, pad_workers, batch_rows,
}
use rawduck.Pool.Layout.{covers, find_slot}
use rawduck.Pool.Reach.{Reach, starts, submits, publishes, works}
use rawduck.Pool.Conserve.{drain-Reach}
use rawduck.Examples.Ducks.{example_duck}

-- A list column that already holds [4].
abbrev before : Vector
before = lists (record { valid = true; offset = 0; size = 1 } ∷ []) (scalars (bigint (pos 4) ∷ []))

abbrev arrays : List (Option Value)
arrays = some (arr (cons (uint 1) (cons (uint 2) nil))) ∷ none ∷ some (arr (cons (uint 3) nil)) ∷ []

before-HasShape : HasShape (LogicalType.list LogicalType.bigint) before
unfolding HasShape
before-HasShape = ground arith

fill_vector-reads_example :
    read_vector (fill_vector example_duck (LogicalType.list LogicalType.bigint) arrays before)
    ≡ read_vector before ++ map (cell_of example_duck (LogicalType.list LogicalType.bigint)) arrays
fill_vector-reads_example =
    fill_vector-reads example_duck (LogicalType.list LogicalType.bigint) arrays before
      before-HasShape

abbrev own : Registry
own = (codes "mine", codes "a.b") ∷ []

own_defined : raw_transform_define [] (codes "Mine") (codes "a.b") ≡ ok own
unfolding raw_transform_define resolve_builtin_transform find_transform set_transform
own_defined = refl

abbrev table : Columns
table = (codes "a", LogicalType.bigint) ∷ []

abbrev added : Columns
added = (codes "b", LogicalType.varchar) ∷ []

abbrev batch : RawParsedPayload
batch = record {
  payload = record {
    rows = uint 1 ∷ uint 2 ∷ [];
    scalar_rows = false;
    parse_errors = 0;
    otlp_semantics = false;
  };
  root = empty_node;
  columns =
      record { name = codes "a"; path = codes "a" ∷ []; type = LogicalType.bigint }
      ∷ record { name = codes "B"; path = codes "B" ∷ []; type = LogicalType.varchar }
      ∷ [];
}

abbrev no_throw : Columns → RawParsedPayload → Bool
no_throw cs b = false

abbrev new_pool : Pool
new_pool = create_pool table 2 4

abbrev wider : Pool
wider = publish_columns new_pool added

abbrev queued : Pool
queued = record wider { queue = batch ∷ [] }

abbrev worked : Pool
worked = worker_step no_throw queued 1

wider-covers : covers wider.published batch.columns ≡ true
unfolding covers find_slot publish_columns create_pool
wider-covers = refl

submit-queued : submit wider batch ≡ accepted queued
unfolding submit publish_columns create_pool
submit-queued = refl

run : Reach no_throw new_pool (batch ∷ []) worked
run =
    works (batch ∷ []) queued 1 (
      submits [] wider queued batch (publishes [] new_pool added starts) wider-covers submit-queued)

worked-emptied : worked.queue ≡ []
unfolding worker_step publish_columns create_pool covers find_slot
worked-emptied = refl

drain-Reach_example :
    drain worked ≡ some (pad_workers worked.published worked.workers, batch_rows (batch ∷ []))
drain-Reach_example =
    drain-Reach no_throw (λ cs b. refl) table 2 4 (batch ∷ []) worked run worked-emptied
