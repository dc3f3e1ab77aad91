-- ===== src/Stream.antt =====
-- RawStreamIngestorImpl (src/raw_ingest.cpp), the ingestor of the INSERT sink and of several file
-- consumers: PrepareForAppend evolves the table under the schema lock, SubmitPreparedBatch hands the
-- batch over, and IngestParsedConcurrent composes them, here for one thread at a time.
pub mod Agrees
pub mod Counted
use rawduck.Prelude.{
  ℕ, ◌+◌, length, Bool, true, false, Option, none, some, List, [], ◌∷◌, ◌++◌, if◌then◌else◌, Result,
  err, ok, and_then_ok,
}
use rawduck.SqlType.{TypeId}
use rawduck.Flatten.{is_empty}
use rawduck.Catalog.{evolve_native}
use rawduck.Payload.{RawParsedPayload}
use rawduck.Ingest.{
  IngestFailure, alter_failed, table_disappeared, Table, Ingestor, is_absorbed, ensure_pool,
  append_native, before_alter, evolving, after_alter, evolved_table, shape_of, ingest_parsed,
  finish,
}

abbrev pub has_pool : Option (List RawParsedPayload) → Bool
has_pool none = false
has_pool (some batches) = true

-- The end of PrepareForAppend: EnsurePool for a batch with rows, and whether the pool owns the batch.
abbrev pub prepare_pool : Ingestor → Table → RawParsedPayload → Ingestor × Bool
prepare_pool s table parsed =
    if is_empty parsed.payload.rows
    then (s, false)
    else (record s { pool = ensure_pool s table parsed }, has_pool (ensure_pool s table parsed))

module _ (char_code : ℕ → ℕ) (id_code : TypeId → ℕ) where
  -- The slow path of PrepareForAppend.
  abbrev pub prepare_unabsorbed :
      Ingestor → Table → RawParsedPayload → Result IngestFailure (Ingestor × Bool)
  prepare_unabsorbed s table parsed =
      elim (evolve_native table.columns parsed.columns
        (evolving (before_alter char_code id_code s table parsed) table.columns)) [
          | none ↦ err alter_failed
          | some e ↦ ok (
              prepare_pool
                (after_alter char_code id_code (before_alter char_code id_code s table parsed) table
                  parsed e)
                (evolved_table table e) parsed)
        ]

  abbrev pub prepare_columns :
      Ingestor → Option Table → RawParsedPayload → Result IngestFailure (Ingestor × Bool)
  prepare_columns s none parsed = ok (s, false)
  prepare_columns s (some table) parsed =
      if is_absorbed s.cache table (shape_of char_code id_code parsed)
      then ok (prepare_pool s table parsed)
      else prepare_unabsorbed s table parsed

  -- PrepareForAppend
  unfoldable pub prepare_for_append :
      Ingestor → RawParsedPayload → Result IngestFailure (Ingestor × Bool)
  prepare_for_append s parsed =
      if is_empty parsed.columns then ok (s, false) else prepare_columns s s.table parsed

  -- The batch goes to the table.
  abbrev pub append_prepared :
      Ingestor → Option Table → RawParsedPayload → Result IngestFailure Ingestor
  append_prepared s none parsed = err table_disappeared
  append_prepared s (some table) parsed = append_native s table parsed

  abbrev pub submit_to_pool :
      Ingestor → Option (List RawParsedPayload) → RawParsedPayload → Result IngestFailure Ingestor
  submit_to_pool s (some batches) parsed = ok (record s { pool = some (batches ++ (parsed ∷ [])) })
  submit_to_pool s none parsed = append_prepared s s.table parsed

  -- SubmitPreparedBatch
  unfoldable pub submit_prepared_batch :
      Ingestor → RawParsedPayload → Bool → Result IngestFailure Ingestor
  submit_prepared_batch s parsed use_pool =
      if is_empty parsed.payload.rows
      then ok s
      else if use_pool
      then submit_to_pool s s.pool parsed
      else append_prepared s s.table parsed

  abbrev pub prepare_and_submit : Ingestor → RawParsedPayload → Result IngestFailure Ingestor
  prepare_and_submit s parsed =
      and_then_ok (prepare_for_append s parsed) (λ r. submit_prepared_batch r.0 parsed r.1)

  abbrev pub count_errors : Ingestor → RawParsedPayload → Ingestor
  count_errors s parsed = record s { errors = s.errors + parsed.payload.parse_errors }

  abbrev pub ingest_on : Ingestor → Option Table → RawParsedPayload → Result IngestFailure Ingestor
  ingest_on s none parsed = ingest_parsed char_code id_code s parsed
  ingest_on s (some table) parsed =
      if is_empty parsed.columns
      then ingest_parsed char_code id_code s parsed
      else prepare_and_submit s parsed

  -- IngestParsedConcurrent
  unfoldable pub ingest_parsed_concurrent :
      Ingestor → RawParsedPayload → Result IngestFailure Ingestor
  ingest_parsed_concurrent s parsed = ingest_on (count_errors s parsed) s.table parsed
