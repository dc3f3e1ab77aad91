-- ===== src/Ingest.antt =====
-- RawIngestor on a native catalog (src/raw_ingest.cpp): IngestNative with the schema-shape cache,
-- LegacyIngestNative, the append pool and Finish, for one target table in one transaction. The pool
-- stands here for the batches that it owns: what its threads do with them is Pool, and Drain returns
-- their rows. The value rows that AppendNative writes are those of Append; here they are counted.
pub mod Cache
pub mod Total
use rawduck.Prelude.{
  ℕ, zero, suc, ◌+◌, Str, length, ltb, Bool, true, false, not, ◌&&◌, ◌||◌, ◌==◌, Option, none, some,
  List, [], ◌∷◌, ◌++◌, if◌then◌else◌, Result, err, ok, and_then_ok,
}
use rawduck.SqlType.{LogicalType, TypeId}
use rawduck.Flatten.{RawColumn, is_empty}
use rawduck.Catalog.{Columns, Evolved, Delta, compute_delta, evolve_native, create_native}
use rawduck.Shape.{hash_payload_shape}
use rawduck.Payload.{RawParsedPayload}
use rawduck.Pool.{batch_rows}

pub data IngestFailure : Type 0 where
  empty_payload alter_failed generated_columns append_failed table_disappeared : IngestFailure

-- The table in the catalog. `storage` names the DataTable, which every ALTER replaces.
pub record Table : Type 0 where
  pub columns : Columns
  pub storage : ℕ
  pub has_generated : Bool
  pub has_indexes : Bool
  pub has_constraints : Bool

-- RawSchemaCache::Entry of the target
pub record CacheEntry : Type 0 where
  pub storage_token : ℕ
  pub absorbed_shapes : List ℕ

pub record Ingestor : Type 0 where
  pub table : Option Table
  pub cache : Option CacheEntry
  -- the batches that the append pool owns, where there is a pool
  pub pool : Option (List RawParsedPayload)
  pub pool_min_rows : ℕ
  pub rows : ℕ
  pub errors : ℕ
  pub created : Bool
  pub columns_added : ℕ
  pub columns_widened : ℕ
  -- What DuckDB answers, given the rows appended so far: whether it creates or alters a column of a
  -- table with these columns, and whether it appends a batch, with its casts and constraints.
  pub alters : ℕ → Columns → Str → LogicalType → Bool
  pub appends : ℕ → RawParsedPayload → Bool

-- The beginning of an evolution.
abbrev pub evolving : Ingestor → Columns → Evolved
evolving s columns = record { alters = s.alters s.rows; table = columns; added = 0; widened = 0 }

abbrev pub has_shape : List ℕ → ℕ → Bool
has_shape [] shape = false
has_shape (s ∷ shapes) shape = s == shape || has_shape shapes shape

-- The test under the cache's lock.
abbrev pub is_absorbed : Option CacheEntry → Table → ℕ → Bool
is_absorbed none table shape = false
is_absorbed (some entry) table shape =
    entry.storage_token == table.storage && has_shape entry.absorbed_shapes shape

abbrev pub kept_shapes : Option CacheEntry → ℕ → List ℕ
kept_shapes none storage = []
kept_shapes (some entry) storage =
    if entry.storage_token == storage then entry.absorbed_shapes else []

-- The update of the cache after the slow path.
abbrev pub absorb : Option CacheEntry → ℕ → ℕ → CacheEntry
absorb cache storage shape = record {
  storage_token = storage;
  absorbed_shapes = shape ∷ kept_shapes cache storage;
}

abbrev pub pending_rows : Option (List RawParsedPayload) → ℕ
pending_rows none = 0
pending_rows (some batches) = batch_rows batches

-- pool->Drain and pool.reset(), when there is a pool
abbrev pub drain_pool : Ingestor → Ingestor
drain_pool s = record s { rows = s.rows + pending_rows s.pool; pool = none }

-- PoolEligible
abbrev pub pool_eligible : Ingestor → Table → RawParsedPayload → Bool
pool_eligible s table parsed =
    not (ltb (length parsed.payload.rows) s.pool_min_rows)
    && (not table.has_generated && (not table.has_indexes && not table.has_constraints))

abbrev pub pool_or_new : Option (List RawParsedPayload) → Bool → Option (List RawParsedPayload)
pool_or_new (some batches) eligible = some batches
pool_or_new none eligible = if eligible then some [] else none

-- EnsurePool, for a batch with rows
abbrev pub ensure_pool : Ingestor → Table → RawParsedPayload → Option (List RawParsedPayload)
ensure_pool s table parsed = pool_or_new s.pool (pool_eligible s table parsed)

-- AppendNative, by the number of the rows
abbrev pub append_native : Ingestor → Table → RawParsedPayload → Result IngestFailure Ingestor
append_native s table parsed =
    if table.has_generated
    then err generated_columns
    else if s.appends s.rows parsed
    then ok (record s { rows = s.rows + length parsed.payload.rows })
    else err append_failed

-- The end of IngestNative: the batch goes to the pool or to the table.
abbrev pub hand_over :
    Ingestor
    → Table
    → RawParsedPayload
    → Option (List RawParsedPayload)
    → Result IngestFailure Ingestor
hand_over s table parsed (some batches) = ok (record s { pool = some (batches ++ (parsed ∷ [])) })
hand_over s table parsed none = append_native s table parsed

unfoldable pub submit_batch : Ingestor → Table → RawParsedPayload → Result IngestFailure Ingestor
submit_batch s table parsed =
    if is_empty parsed.payload.rows
    then ok s
    else hand_over s table parsed (ensure_pool s table parsed)

-- The storage after an evolution: a new one when there was an ALTER.
abbrev pub storage_after : Table → Evolved → ℕ
storage_after table e = table.storage + (e.added + e.widened)

abbrev pub evolved_table : Table → Evolved → Table
evolved_table table e = record table { columns = e.table; storage = storage_after table e }

module _ (char_code : ℕ → ℕ) (id_code : TypeId → ℕ) where
  abbrev pub shape_of : RawParsedPayload → ℕ
  shape_of parsed = hash_payload_shape char_code id_code parsed.columns

  -- The pool is drained before a type changes.
  abbrev pub before_alter : Ingestor → Table → RawParsedPayload → Ingestor
  before_alter s table parsed =
      if (compute_delta table.columns parsed.columns).widens then drain_pool s else s

  abbrev pub after_alter : Ingestor → Table → RawParsedPayload → Evolved → Ingestor
  after_alter s table parsed e = record s {
    table = some (evolved_table table e);
    columns_added = s.columns_added + e.added;
    columns_widened = s.columns_widened + e.widened;
    cache = some (absorb s.cache (storage_after table e) (shape_of parsed));
  }

  -- The schema-delta slow path, and then the batch.
  unfoldable pub ingest_unabsorbed :
      Ingestor → Table → RawParsedPayload → Result IngestFailure Ingestor
  ingest_unabsorbed s table parsed =
      elim (evolve_native table.columns parsed.columns
        (evolving (before_alter s table parsed) table.columns)) [
          | none ↦ err alter_failed
          | some e ↦
              submit_batch (after_alter (before_alter s table parsed) table parsed e)
                (evolved_table table e) parsed
        ]

  abbrev pub new_table : Evolved → Table
  new_table e = record {
    columns = e.table;
    storage = 1;
    has_generated = false;
    has_indexes = false;
    has_constraints = false;
  }

  -- The table that CREATE TABLE made, and then the batch.
  abbrev pub ingest_created :
      Ingestor → RawParsedPayload → Option Evolved → Result IngestFailure Ingestor
  ingest_created s parsed none = err alter_failed
  ingest_created s parsed (some e) =
      submit_batch
        (record s {
          table = some (new_table e);
          created = true;
          columns_added = s.columns_added + length parsed.columns;
        })
        (new_table e) parsed

  -- LegacyIngestNative. IngestNative calls it only without a table or without columns, so its own
  -- evolution branch is never taken.
  unfoldable pub legacy_ingest_native :
      Ingestor → RawParsedPayload → Option Table → Result IngestFailure Ingestor
  legacy_ingest_native s parsed (some table) = ok s
  legacy_ingest_native s parsed none =
      if is_empty parsed.columns
      then err empty_payload
      else ingest_created s parsed (create_native parsed.columns (evolving s []))

  abbrev pub ingest_columns :
      Ingestor → Option Table → RawParsedPayload → Result IngestFailure Ingestor
  ingest_columns s none parsed = legacy_ingest_native s parsed none
  ingest_columns s (some table) parsed =
      if is_absorbed s.cache table (shape_of parsed)
      then submit_batch s table parsed
      else ingest_unabsorbed s table parsed

  -- IngestNative
  unfoldable pub ingest_native : Ingestor → RawParsedPayload → Result IngestFailure Ingestor
  ingest_native s parsed =
      if is_empty parsed.columns
      then legacy_ingest_native s parsed s.table
      else ingest_columns s s.table parsed

  -- IngestParsed on a native catalog
  unfoldable pub ingest_parsed : Ingestor → RawParsedPayload → Result IngestFailure Ingestor
  ingest_parsed s parsed =
      ingest_native (record s { errors = s.errors + parsed.payload.parse_errors }) parsed

-- Finish
unfoldable pub finish : Ingestor → Ingestor
finish s = drain_pool s
