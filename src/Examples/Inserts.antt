-- ===== src/Examples/Inserts.antt =====
-- A thread of the INSERT sink, ingests that are tried again, and a catalog that refuses a batch.
use rawduck.Prelude.{
  ℕ, suc, ◌≡◌, refl, Str, List, [], ◌∷◌, codes, Option, some, none, true, false, Bool, ok, err,
  Result, ◌||◌, if◌then◌else◌,
}
use rawduck.Node.{infer_schema, merge_row, merge_value, merge_scalar}
use rawduck.Node.Sniff.{sniff_scalar_kind}
use rawduck.SqlType.{node_to_type}
use rawduck.Flatten.{flatten_schema}
use rawduck.Catalog.{create_native, add_column, find_column}
use rawduck.Payload.{
  RawPayload, finalize, check_and_explode, check_row_uniformity, with_schema, add_document,
}
use rawduck.Ingest.{ingest_parsed, ingest_native, legacy_ingest_native, submit_batch}
use rawduck.Stream.{ingest_parsed_concurrent}
use rawduck.Sink.{sink_thread, sink_chunk, add_documents, flush_building}
use rawduck.Sink.Batches.{IsIngested, all_rows, sink_thread-batches}
use rawduck.Commit.{Stats}
use rawduck.Serialized.{Session, Attempt, transaction_exception, auto_commit, raw_ingest_serialized}
use rawduck.Serialized.Atomic.{IsAtomic, raw_ingest_serialized-IsAtomic}
use rawduck.SqlType.{LogicalType, list}
use rawduck.Payload.{RawParsedPayload}
use rawduck.Fallback.{Statement, add_column_as, set_type_of}
use rawduck.Fallback.Batch.{SqlFailure, using_refused, Batch, FallbackState}
use rawduck.Examples.Ducks.{example_duck}
use rawduck.Examples.Process.{plain}
use rawduck.Examples.Ingests.{code_of, id_of, fresh, batch}
use rawduck.Examples.Streams.{counted}

abbrev document_chunks : List (List (Option Str))
document_chunks = (none ∷ some (codes "1") ∷ []) ∷ []

sink_run : sink_thread code_of id_of example_duck plain fresh none document_chunks ≡ ok counted
unfolding sink_thread sink_chunk add_documents add_document flush_building finalize
    check_and_explode check_row_uniformity with_schema infer_schema merge_row merge_value
    merge_scalar sniff_scalar_kind flatten_schema node_to_type ingest_parsed_concurrent
    ingest_parsed ingest_native legacy_ingest_native submit_batch create_native add_column
    find_column
sink_run = refl

sink_thread-batches_example :
    (bs : List RawPayload) × IsIngested code_of id_of example_duck plain fresh
      (all_rows example_duck document_chunks)
      counted
      bs
sink_thread-batches_example =
    sink_thread-batches code_of id_of example_duck plain fresh counted document_chunks sink_run

abbrev stats : Stats
stats = record { created = false; columns_added = 0; columns_widened = 0; rows = 1; errors = 0 }

abbrev idle : Session ℕ
idle = record { txn = auto_commit; durable = 5; working = 0; known = false }

-- A conflict, while another connection commits, and an attempt that adds a row.
abbrev conflicts : ℕ → Attempt ℕ
conflicts d = record {
  result = err (transaction_exception (codes "conflict"));
  after = d;
  invalidates = false;
}

abbrev adds : ℕ → Attempt ℕ
adds d = record { result = ok stats; after = suc d; invalidates = false }

abbrev accepted : ℕ → Bool
accepted d = true

abbrev refused : ℕ → Bool
refused d = false

raw_ingest_serialized-IsAtomic_example :
    IsAtomic accepted true (codes "no transaction") (conflicts 5) (adds 6) 5 6 idle (
      raw_ingest_serialized accepted true (codes "no transaction") conflicts adds (λ d. suc d) idle)
raw_ingest_serialized-IsAtomic_example =
    raw_ingest_serialized-IsAtomic accepted true (codes "no transaction") conflicts adds
      (λ d. suc d) idle

-- A catalog that cannot rewrite a column with an expression.
abbrev any_using : List Statement → Bool
any_using [] = false
any_using (add_column_as name t ∷ ss) = any_using ss
any_using (set_type_of name t using ∷ ss) = using || any_using ss

abbrev lake : Batch → Result SqlFailure ℕ
lake b = if any_using b.alters then err using_refused else ok 1

-- A column of numbers, and a payload that has a list under its name.
abbrev numbers : FallbackState
numbers = record {
  table = some ((codes "a", LogicalType.bigint) ∷ []);
  created = false;
  columns_added = 0;
  columns_widened = 0;
  rows = 0;
}

abbrev listed : RawParsedPayload
listed = record {
  payload = batch.payload;
  root = batch.root;
  columns = record { name = codes "a"; path = codes "a" ∷ []; type = list LogicalType.bigint } ∷ [];
}
