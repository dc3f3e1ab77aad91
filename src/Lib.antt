-- ===== src/Lib.antt =====
-- A verification library for rawduck, a DuckDB extension that ingests JSON without a schema
-- given beforehand: a payload is parsed, its schema is inferred and flattened to typed columns,
-- the target table is widened to hold it, and the rows are appended.
--
-- The parts and how they meet. `RawPayload` parses a request as one JSON document or line by
-- line (Payload), after a transform may have been resolved (Transform) that explodes a nested
-- array into rows (Explode) and gives OTLP values their plain form (Otlp). `MergeValue` joins
-- all rows into a schema tree (Node, with the kinds of scalars in Kind), and `FlattenSchema`
-- turns the tree into columns with distinct names (Flatten, with the types of SqlType).
-- `RawIngestor` compares the columns with the table (Catalog, Widen), remembers absorbed shapes
-- by a hash (Shape, Ingest), and appends the batch itself (Append, Fill) or hands it to a pool
-- of workers (Pool). Requests reach it through a group commit that merges those that wait for
-- one table (Commit) and commits them in a transaction that may be tried again (Serialized), or
-- later from the asynchronous buffers (Async); Settings bounds the thread counts. A file is cut
-- into batches of lines (FileInput) that a pipeline of threads parses and ingests (Pipeline),
-- small batches together (Coalesce); these and the rows of an INSERT (Sink) go through the
-- stream ingestor (Stream). The hook of the optimizer counts which columns queries filter and
-- group on (Stats), and raw_optimize sorts a table by the hottest of them (Optimize);
-- raw_project builds summaries of a table, onto which the rewriting moves queries that count
-- rows by group (Rewrite).
--
-- Which file models which code:
--   Json, Duck      yyjson values; what DuckDB and yyjson provide, as parameters
--   Payload         src/raw_json.cpp: RawPayload::Parse, Explode, RawPayloadAddDocument,
--                   RawPayloadFinalize, RawParsedPayload::Process
--   Explode         src/raw_json.cpp: AddObjectFields, EmitMergedRow, ExplodeInto
--   Otlp            src/raw_json.cpp: OtlpNormalizeValue and its helpers
--   Transform       src/raw_transforms.cpp: ResolveTransform, raw_transform_define,
--                   raw_transforms; src/raw_json.cpp: the built-in transforms
--   Kind, Node      src/raw_json.cpp: JoinScalarKinds, SniffScalarKind, MergeValue, InferSchema,
--                   RawNode::FindChild and GetOrCreateChild
--   SqlType,        src/raw_json.cpp: NodeToType, RawFillSupported, FlattenInto, FlattenSchema
--   Flatten
--   Widen, Catalog  src/raw_ingest.cpp: JoinColumnTypes, ComputeDelta, EvolveNative, CreateNative
--   Shape           src/raw_ingest.cpp: HashPayloadShape
--   Fill, Append    src/raw_json.cpp: FillVector, RawExtractor; src/raw_ingest.cpp:
--                   ResolveAppendLayout, AppendNative, and AppendBatch of the pool
--   Pool            src/raw_ingest.cpp: RawAppendPool
--   Ingest          src/raw_ingest.cpp: RawIngestor::IngestParsed on a native catalog, Finish
--   Stream          src/raw_ingest.cpp: RawStreamIngestorImpl, PrepareForAppend,
--                   SubmitPreparedBatch
--   FileInput,      src/raw_ingest.cpp: RawIngestFileFunction with RawIngestPipeline: the reader,
--   Pipeline,       the queues and the threads, coalesce_and_ingest with the consumer's loop
--   Coalesce
--   Sink            src/raw_insert.cpp: PhysicalRawIngest
--   Async           src/raw_async.cpp: RawAsyncBuffers
--   Settings        src/raw_write_settings.cpp: RawWriteSettings
--   Fallback        src/raw_ingest.cpp: FallbackBatch and IngestFallback, with the
--                   statements as data
--   Commit          src/raw_ingest.cpp: RawIngestGroupCommit, MergeParsedPayloads
--   Serialized      src/raw_ingest.cpp: RawIngestSerialized with the creation lock,
--                   RawBeginTransaction, RawRollbackTransaction, RawCommitTransaction, and the
--                   rounds of the leader in RawIngestGroupCommit
--   Dict            std::map from strings, with the order of std::string
--   Stats           src/raw_optimize.cpp: RawStatsCache, CollectGets, TraceBinding, CollectStats,
--                   raw_stats_save, raw_stats_load
--   Optimize        src/raw_optimize.cpp: raw_optimize, raw_project, raw_projections
--   Rewrite         src/raw_optimize.cpp: TryRewriteToProjection, RewriteAggregates and
--                   RawDuckPreOptimizeHook
--   Examples        tests, and the properties at concrete inputs
--
-- How state is modelled. An object that the code changes in place is a record, and the operation
-- returns the changed record; an exception is a result of its own. The threads of the pool are
-- the steps of a relation, Pool.Reach.Reach, in any order, and so are the requests of a group
-- commit and the calls on the asynchronous buffers. The threads of the file pipeline are
-- functions that give their next step or nothing while they would wait, and Pipeline.Runs.Reach
-- is their runs. The rows of a table that raw_optimize sorts carry their row numbers. Numbers
-- are naturals; the hash keeps its wrap-around at 64 bits, and the conversion of a uint64_t to
-- int64_t is written out. Pointers to schema nodes are paths of keys, and the storage object of
-- a table is a number that changes with every ALTER.
--
-- Fuel. The loop that looks for an unused column name gets two rounds more than there are names
-- to avoid. OtlpNormalizeValue gets the height of the value, the chunk loop the number of rows,
-- and the loop that cuts batches one round more than there are lines. Each of these amounts is
-- shown to be enough. TraceBinding makes 16 hops, as in the source.
--
-- Not modelled: memory (documents, allocator pools, freed buffers), flush writers and partial
-- blocks, which decide where rows are written and not which; for other catalogs, the text of the
-- SQL statements and the query by which EnsureFallbackConnection looks for the table; which
-- waiting thread a condition variable wakes; targets that differ in case only, in
-- RawIngestGroupCommit; the virtual tables of the ingest schema; the HTTP and gRPC servers,
-- attached and remote catalogs, and the registration of functions with DuckDB. Parsing of dates,
-- timestamps and numbers, string splitting and joining, DefaultCast, the quoting of names, ORDER
-- BY, the transactions themselves and the JSON reader belong to DuckDB and yyjson and are
-- parameters; so is whether DuckDB, or a catalog that is reached by SQL, carries out an ALTER, an
-- append or a commit.
pub mod Prelude
pub mod Json
pub mod Duck
pub mod Kind
pub mod Node
pub mod SqlType
pub mod Widen
pub mod Flatten
pub mod Catalog
pub mod Shape
pub mod Explode
pub mod Otlp
pub mod Payload
pub mod Fill
pub mod Transform
pub mod Pool
pub mod Append
pub mod Ingest
pub mod Async
pub mod Settings
pub mod Commit
pub mod Fallback
pub mod FileInput
pub mod Pipeline
pub mod Stream
pub mod Coalesce
pub mod Dict
pub mod Stats
pub mod Optimize
pub mod Rewrite
pub mod Sink
pub mod Serialized
pub mod Examples
