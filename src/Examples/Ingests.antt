-- ===== src/Examples/Ingests.antt =====
-- The append loop and the ingestor on a small batch.
use rawduck.Prelude.{
  ℕ, ◌+◌, ◌≡◌, refl, [], ◌∷◌, codes, some, none, false, true, arith, map, length, ok,
}
use rawduck.Json.{uint, obj, end, field}
use rawduck.Node.{empty_node}
use rawduck.SqlType.{LogicalType, TypeId}
use rawduck.Flatten.Names.{HasDistinctNames}
use rawduck.Catalog.{create_native, add_column, find_column}
use rawduck.Fill.{Cell}
use rawduck.Payload.{RawParsedPayload}
use rawduck.Append.{chunks, append_slot}
use rawduck.Append.Slots.{row_cell, append_slot-chunks}
use rawduck.Ingest.{
  Ingestor, Table, ingest_parsed, ingest_native, ingest_unabsorbed, legacy_ingest_native,
  submit_batch, finish, shape_of,
}
use rawduck.Ingest.Total.{ingest_parsed-total}
use rawduck.Ingest.Cache.{IsAbsorbedBy, ingest_unabsorbed-Absorbed}
use rawduck.Examples.Ducks.{example_duck}

abbrev pub batch : RawParsedPayload
batch = record {
  payload = record {
    rows = obj (field (codes "a") (uint 1) end) ∷ obj end ∷ [];
    scalar_rows = false;
    parse_errors = 0;
    otlp_semantics = false;
  };
  root = empty_node;
  columns = record { name = codes "a"; path = codes "a" ∷ []; type = LogicalType.bigint } ∷ [];
}

abbrev no_cast : LogicalType → LogicalType → Cell → Cell
no_cast from to c = c

append_slot-chunks_example :
    append_slot example_duck no_cast batch
      (1 ∷ [])
      LogicalType.bigint
      1
      (chunks (length batch.payload.rows) batch.payload.rows)
    ≡ map (row_cell example_duck no_cast batch (1 ∷ []) LogicalType.bigint 1) batch.payload.rows
append_slot-chunks_example =
    append_slot-chunks example_duck no_cast batch (1 ∷ []) LogicalType.bigint 1 batch.payload.rows

abbrev pub code_of : ℕ → ℕ
code_of c = c

abbrev pub id_of : TypeId → ℕ
id_of t = 1

abbrev pub narrow : Table
narrow = record {
  columns = (codes "A", LogicalType.date) ∷ [];
  storage = 4;
  has_generated = false;
  has_indexes = false;
  has_constraints = false;
}

-- A pool holds one batch, and the table must be widened for the next.
abbrev pub pooled : Ingestor
pooled = record {
  table = some narrow;
  cache = none;
  pool = some (batch ∷ []);
  pool_min_rows = 100;
  rows = 5;
  errors = 0;
  created = false;
  columns_added = 0;
  columns_widened = 0;
  -- A DuckDB that refuses nothing.
  alters = λ rows columns name t. true;
  appends = λ rows parsed. true;
}

batch-HasDistinctNames : HasDistinctNames batch.columns
batch-HasDistinctNames = ground arith

ingest_unabsorbed-Absorbed_example :
    IsAbsorbedBy
      (shape_of code_of id_of batch)
      batch.columns
      (ingest_unabsorbed code_of id_of pooled narrow batch)
ingest_unabsorbed-Absorbed_example =
    ingest_unabsorbed-Absorbed code_of id_of pooled narrow batch batch-HasDistinctNames

abbrev pub fresh : Ingestor
fresh = record pooled { table = none; pool = none; rows = 0 }

abbrev after_fresh : Ingestor
after_fresh = record fresh {
  table = some (record {
    columns = (codes "a", LogicalType.bigint) ∷ [];
    storage = 1;
    has_generated = false;
    has_indexes = false;
    has_constraints = false;
  });
  rows = 2;
  created = true;
  columns_added = 1;
}

fresh-ingested : ingest_parsed code_of id_of fresh batch ≡ ok after_fresh
unfolding ingest_parsed ingest_native legacy_ingest_native submit_batch create_native add_column
    find_column
fresh-ingested = refl

ingest_parsed-total_example :
    (finish after_fresh).rows ≡ (finish fresh).rows + length batch.payload.rows
ingest_parsed-total_example =
    ingest_parsed-total code_of id_of fresh after_fresh batch refl fresh-ingested
