-- ===== src/Async.antt =====
-- The asynchronous inserts of src/raw_async.cpp: one buffer for each target table, taken as a whole
-- when it is due or when raw_flush() drains everything, and flushed in one transaction. Time is the
-- steady clock in milliseconds. `ingest` is RawIngestPayload inside that transaction: it may throw,
-- and otherwise gives the new database with the number of the rows.
pub mod Flushed
pub mod Sizes
use rawduck.Prelude.{
  ℕ, ◌+◌, ◌-◌, Str, str_eq, length, leb, Bool, true, false, ◌||◌, Option, none, some, List, [], ◌∷◌,
  ◌++◌, if◌then◌else◌,
}
use rawduck.Payload.{RawParseOptions}

abbrev pub Payload : Type 0
Payload = Str × RawParseOptions

pub record Buffer : Type 0 where
  pub payloads : List Payload
  pub bytes : ℕ
  pub oldest : ℕ

-- std::map<string, Buffer>
abbrev pub Buffers : Type 0
Buffers = List (Str × Buffer)

-- RawAsyncBuffers::Enqueue
unfoldable pub enqueue : Buffers → Str → Payload → ℕ → Buffers
enqueue [] target payload now =
    (target, record { payloads = payload ∷ []; bytes = length payload.0; oldest = now }) ∷ []
enqueue ((t, b) ∷ bs) target payload now =
    if str_eq t target
    then (
      t,
      record b { payloads = b.payloads ++ (payload ∷ []); bytes = b.bytes + length payload.0 },
    )
      ∷ bs
    else (t, b) ∷ enqueue bs target payload now

-- The test of FlushLoop.
abbrev pub is_due : ℕ → ℕ → ℕ → Buffer → Bool
is_due busy_timeout due_bytes now b = leb busy_timeout (now - b.oldest) || leb due_bytes b.bytes

-- One pass of FlushLoop over the buffers: those that are due, and those that stay.
unfoldable pub take_due : (Buffer → Bool) → Buffers → Buffers × Buffers
take_due due [] = ([], [])
take_due due ((t, b) ∷ bs) =
    let rest = take_due due bs in
    if due b then ((t, b) ∷ rest.0, rest.1) else (rest.0, (t, b) ∷ rest.1)

-- The swap of FlushAll: every buffer is taken.
abbrev pub take_all : Buffers → Buffers × Buffers
take_all bs = (bs, [])

module _ {Database : Type 0} (ingest : Database → Str → Payload → Option (Database × ℕ)) where
  -- The loop of FlushBuffer, which throws when a payload does.
  unfoldable pub ingest_all : Database → Str → List Payload → ℕ → Option (Database × ℕ)
  ingest_all db target [] flushed = some (db, flushed)
  ingest_all db target (p ∷ payloads) flushed = elim (ingest db target p) [
    | none ↦ none
    | some r ↦ ingest_all r.0 target payloads (flushed + r.1)
  ]

  -- FlushBuffer: the transaction is rolled back when a payload fails, and the batch is dropped.
  unfoldable pub flush_buffer : Database → Str → Buffer → Database × ℕ
  flush_buffer db target b = elim (ingest_all db target b.payloads 0) [
    | none ↦ (db, 0)
    | some r ↦ r
  ]

  -- FlushDueParallel, one table after the other: the tables are independent of each other.
  unfoldable pub flush_due : Database → Buffers → ℕ → Database × ℕ
  flush_due db [] total = (db, total)
  flush_due db ((t, b) ∷ bs) total = let r = flush_buffer db t b in flush_due r.0 bs (total + r.1)
