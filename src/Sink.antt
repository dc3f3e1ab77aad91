-- ===== src/Sink.antt =====
-- PhysicalRawIngest of src/raw_insert.cpp, the sink of an INSERT into the ingest schema, for one of its
-- threads: the documents of the chunks gather in a payload that is ingested once it has enough rows.
pub mod Batches
use rawduck.Prelude.{
  ℕ, leb, length, Bool, true, false, Str, Option, none, some, List, [], ◌∷◌, ◌++◌, if◌then◌else◌,
  Result, err, ok, and_then_ok,
}
use rawduck.SqlType.{TypeId}
use rawduck.Json.{Value}
use rawduck.Duck.{Duck}
use rawduck.Flatten.{is_empty}
use rawduck.Transform.{Registry, TransformFailure, resolve_transform}
use rawduck.Payload.{
  Failure, RawParseOptions, RawPayload, RawParsedPayload, empty_payload, add_document, finalize,
}
use rawduck.Ingest.{IngestFailure, Ingestor, finish}
use rawduck.Stream.{ingest_parsed_concurrent}

-- BATCH_ROWS
abbrev pub batch_rows : ℕ
batch_rows = 30000

pub data SinkFailure : Type 0 where
  payload_failed : Failure → SinkFailure
  ingest_failed : IngestFailure → SinkFailure

abbrev pub or_payload {ℓ} : {A : Type ℓ} → Result Failure A → Result SinkFailure A
or_payload (err e) = err (payload_failed e)
or_payload (ok a) = ok a

abbrev pub or_ingest {ℓ} : {A : Type ℓ} → Result IngestFailure A → Result SinkFailure A
or_ingest (err e) = err (ingest_failed e)
or_ingest (ok a) = ok a

abbrev pub plain_options : RawParseOptions
plain_options = record { ignore_errors = false; explode_path = []; otlp = false }

abbrev pub building_or_new : Option RawPayload → RawPayload
building_or_new none = empty_payload
building_or_new (some p) = p

module _ (duck : Duck) where
  -- Where the setting is not the name of a transform, it is an explode path.
  abbrev pub or_path :
      Registry
      → Str
      → Result TransformFailure RawParseOptions
      → Result TransformFailure RawParseOptions
  or_path registry value (ok options) = ok options
  or_path registry value (err e) = resolve_transform duck registry [] value

  -- The options of GetGlobalSinkState, of the setting rawduck_insert_transform
  unfoldable pub sink_options : Registry → Option Str → Result TransformFailure RawParseOptions
  sink_options registry none = ok plain_options
  sink_options registry (some value) =
      if is_empty value
      then ok plain_options
      else or_path registry value (resolve_transform duck registry value [])

module _ (char_code : ℕ → ℕ) (id_code : TypeId → ℕ) (duck : Duck) (options : RawParseOptions) where
  -- The loop over the strings of a chunk, which skips NULLs.
  unfoldable pub add_documents : RawPayload → List (Option Str) → Result Failure RawPayload
  add_documents p [] = ok p
  add_documents p (none ∷ chunk) = add_documents p chunk
  add_documents p (some text ∷ chunk) =
      and_then_ok (add_document duck p text options.ignore_errors) (λ q. add_documents q chunk)

  abbrev pub ingest_batch : Ingestor → RawPayload → Result SinkFailure Ingestor
  ingest_batch s p =
      and_then_ok (or_payload (finalize duck p options))
        (λ parsed. or_ingest (ingest_parsed_concurrent char_code id_code s parsed))

  -- FlushBuilding
  unfoldable pub flush_building : Ingestor → Option RawPayload → Result SinkFailure Ingestor
  flush_building s none = ok s
  flush_building s (some p) = if is_empty p.rows then ok s else ingest_batch s p

  -- What follows the loop of Sink.
  abbrev pub flush_full : Ingestor → RawPayload → Result SinkFailure (Ingestor × Option RawPayload)
  flush_full s p =
      if leb batch_rows (length p.rows)
      then and_then_ok (flush_building s (some p)) (λ t. ok (t, none))
      else ok (s, some p)

  -- Sink
  unfoldable pub sink_chunk :
      Ingestor
      → Option RawPayload
      → List (Option Str)
      → Result SinkFailure (Ingestor × Option RawPayload)
  sink_chunk s building chunk =
      and_then_ok (or_payload (add_documents (building_or_new building) chunk)) (flush_full s)

  -- The chunks of a thread, and Combine
  unfoldable pub sink_thread :
      Ingestor → Option RawPayload → List (List (Option Str)) → Result SinkFailure Ingestor
  sink_thread s building [] = flush_building s building
  sink_thread s building (chunk ∷ chunks) =
      and_then_ok (sink_chunk s building chunk) (λ r. sink_thread r.0 r.1 chunks)

  -- The whole INSERT on one thread, with Finalize; GetDataInternal returns the rows of it.
  unfoldable pub insert_rows : Ingestor → List (List (Option Str)) → Result SinkFailure Ingestor
  insert_rows s chunks = and_then_ok (sink_thread s none chunks) (λ t. ok (finish t))
