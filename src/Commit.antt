-- ===== src/Commit.antt =====
-- Group commit of src/raw_ingest.cpp: RawIngestGroupCommit for one target table, over the state of
-- RawCommitCoordinator. The first request that finds no leader becomes it, and commits in one
-- transaction what has queued up, round after round, until the queue is empty. A step is what a
-- request does under the lock. The time that a leader lingers only makes batches larger.
pub mod Fifo
pub mod Merge
use rawduck.Prelude.{
  ℕ, suc, ◌+◌, ◌-◌, Str, codes, length, Bool, true, false, not, ◌&&◌, ◌||◌, Option, none, some,
  List, [], ◌∷◌, ◌++◌, map, if◌then◌else◌,
}
use rawduck.Flatten.{is_empty}
use rawduck.Payload.{RawPayload, RawParsedPayload, set_rows}

-- RawIngestStats
pub record Stats : Type 0 where
  pub created : Bool
  pub columns_added : ℕ
  pub columns_widened : ℕ
  pub rows : ℕ
  pub errors : ℕ

-- PendingItem, as it is queued. `request` tells requests apart.
pub record PendingItem : Type 0 where
  pub request : ℕ
  pub parsed : RawParsedPayload
  pub payload_text : Str
  pub rows : ℕ
  pub parse_errors : ℕ

pub data Outcome : Type 0 where
  failed : Str → Outcome
  committed : Stats → Outcome

-- `committing` says that the target is in the set of that name, and `leading` that a request runs
-- the leader's loop; `batch` is what it is committing while the lock is free.
pub record Coordinator : Type 0 where
  pub pending : List PendingItem
  pub committing : Bool
  pub leading : Bool
  pub batch : List PendingItem
  pub resolved : List (PendingItem × Outcome)

abbrev pub idle : Coordinator
idle = record { pending = []; committing = false; leading = false; batch = []; resolved = [] }

abbrev pub make_item : ℕ → RawParsedPayload → Str → PendingItem
make_item request parsed text = record {
  request = request;
  parsed = parsed;
  payload_text = text;
  rows = length parsed.payload.rows;
  parse_errors = parsed.payload.parse_errors;
}

-- A request joins the queue, and leads if the target is not marked as committing.
unfoldable pub enter : Coordinator → PendingItem → Coordinator
enter c item = record c {
  pending = c.pending ++ (item ∷ []);
  committing = true;
  leading = c.leading || not c.committing;
}

-- The leader takes the queue, at the head of its loop.
unfoldable pub take_batch : Coordinator → Coordinator
take_batch c =
    if c.leading && is_empty c.batch then record c { batch = c.pending; pending = [] } else c

-- What a request of the batch is told.
abbrev pub own_outcome : Outcome → PendingItem → Outcome
own_outcome (failed message) item = failed message
own_outcome (committed stats) item =
    committed (record stats { rows = item.rows; errors = item.parse_errors })

-- The batch was committed or rolled back, and each of its requests is resolved.
unfoldable pub resolve_batch : Coordinator → Outcome → Coordinator
resolve_batch c outcome =
    if c.leading
    then record c {
      resolved = c.resolved ++ map (λ item. (item, own_outcome outcome item)) c.batch;
      batch = [];
    }
    else c

-- The end of the loop: no request is queued, and the leader steps down.
unfoldable pub step_down : Coordinator → Coordinator
step_down c =
    if c.leading && (is_empty c.pending && is_empty c.batch)
    then record c { committing = false; leading = false }
    else c

-- An exception leaves the leader's loop, and nothing else is done.
unfoldable pub abandon : Coordinator → Coordinator
abandon c = record c { leading = false }

-- MergeParsedPayloads. Only the rows move (the documents and pools with them); the schema is that of
-- the payload that is merged into.
unfoldable pub merge_parsed_payloads : RawParsedPayload → RawParsedPayload → RawParsedPayload
merge_parsed_payloads into from = record into {
  payload = set_rows into.payload (into.payload.rows ++ from.payload.rows) into.payload.scalar_rows;
}

-- The loop that merges the rest of the batch into its front.
unfoldable pub merge_batch : RawParsedPayload → List PendingItem → RawParsedPayload
merge_batch combined [] = combined
merge_batch combined (item ∷ items) = merge_batch (merge_parsed_payloads combined item.parsed) items

-- The text that rides along, with a newline before each further request.
unfoldable pub combined_text : Str → List PendingItem → Str
combined_text text [] = text
combined_text text (item ∷ items) = combined_text (text ++ (b'\n' ∷ item.payload_text)) items
