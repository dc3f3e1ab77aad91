-- ===== src/Pipeline.antt =====
-- RawIngestPipeline and the threads of raw_ingest_file (src/raw_ingest.cpp): the reader pushes raw
-- batches, the parsers turn them into items, the consumers ingest these. An operation of the pipeline
-- is what it does under the lock; where it would wait, it gives nothing, and a thread takes a step
-- when its operation does not wait. Which waiting thread a condition variable wakes is left open.
pub mod Runs
pub mod Moves
pub mod Ends
pub mod Invariant
pub mod Delivery
pub mod Progress
use rawduck.Prelude.{
  ℕ, ◌-◌, Str, length, ltb, Bool, true, false, ◌&&◌, ◌||◌, ◌==◌, Option, none, some, List, [], ◌∷◌,
  ◌++◌, get_elem?, update_nth, replicate, if◌then◌else◌, Result, err, ok,
}
use rawduck.Duck.{Duck}
use rawduck.Payload.{Failure, RawParseOptions, RawParsedPayload, process}

-- RawIngestPipeline::Item
pub record Item : Type 0 where
  pub parsed : RawParsedPayload
  pub payload : Str

pub data Exception : Type 0 where
  read_failed : Exception
  parse_failed : Failure → Exception

pub record Pipe : Type 0 where
  pub capacity : ℕ
  pub raw_queue : List Str
  pub queue : List Item
  pub active_parsers : ℕ
  pub reader_done : Bool
  pub aborted : Bool
  pub error : Option Exception

abbrev pub has_room : {A : Type 0} → List A → ℕ → Bool
has_room xs capacity = ltb (length xs) capacity

-- PushRaw, which drops the batch after an abort; none while the queue is full
unfoldable pub push_raw : Pipe → Str → Option Pipe
push_raw p batch =
    if p.aborted
    then some p
    else if has_room p.raw_queue p.capacity
    then some (record p { raw_queue = p.raw_queue ++ (batch ∷ []) })
    else none

-- Push
unfoldable pub push : Pipe → Item → Option Pipe
push p item =
    if p.aborted
    then some p
    else if has_room p.queue p.capacity
    then some (record p { queue = p.queue ++ (item ∷ []) })
    else none

-- What PopRaw and Pop do: wait, return false, or hand out an element.
pub data Taken (A : Type 0) : Type 0 where
  waits closed : Taken A
  taken : A → Pipe → Taken A

abbrev pop_raw_from : Pipe → List Str → Taken Str
pop_raw_from p [] = if p.reader_done then closed else waits
pop_raw_from p (batch ∷ rest) = taken batch (record p { raw_queue = rest })

-- PopRaw
unfoldable pub pop_raw : Pipe → Taken Str
pop_raw p = if p.aborted then closed else pop_raw_from p p.raw_queue

abbrev pop_from : Pipe → List Item → Taken Item
pop_from p [] = if p.reader_done && p.active_parsers == 0 then closed else waits
pop_from p (item ∷ rest) = taken item (record p { queue = rest })

-- Pop
unfoldable pub pop : Pipe → Taken Item
pop p = if p.aborted then closed else pop_from p p.queue

-- `if (e && !error) { error = e; … }`
abbrev pub first_error : Option Exception → Option Exception → Option Exception
first_error none e = e
first_error (some old) e = some old

-- ReaderDone
unfoldable pub reader_ends : Pipe → Option Exception → Pipe
reader_ends p e = record p { error = first_error p.error e; reader_done = true }

-- ParserDone: the first error aborts.
abbrev pub aborts : Option Exception → Option Exception → Bool
aborts none (some e) = true
aborts _ _ = false

unfoldable pub parser_ends : Pipe → Option Exception → Pipe
parser_ends p e = record p {
  error = first_error p.error e;
  aborted = aborts p.error e || p.aborted;
  active_parsers = p.active_parsers - 1;
}

-- Abort
unfoldable pub abort : Pipe → Pipe
abort p = record p { aborted = true; reader_done = true }

-- The reader has these batches left to push, and then its last read fails or not.
pub data Reader : Type 0 where
  reading : List Str → Bool → Reader
  finished : Reader

-- A parser between two operations: about to pop, with an item to push, or with the exception that
-- the parse of a batch threw.
pub data Parser : Type 0 where
  ready : Parser
  holding : Item → Parser
  failing : Str → Failure → Parser
  ended : Parser

pub record System : Type 0 where
  pub pipe : Pipe
  pub reader : Reader
  pub parsers : List Parser
  -- whether each consumer is still in its loop
  pub consumers : List Bool
  -- the items that the consumers took and ingested, or keep to coalesce them
  pub consumed : List Item

unfoldable pub create : ℕ → List Str → Bool → ℕ → ℕ → System
create capacity batches fails parser_count consumer_count = record {
  pipe = record {
    capacity = capacity;
    raw_queue = [];
    queue = [];
    active_parsers = parser_count;
    reader_done = false;
    aborted = false;
    error = none;
  };
  reader = reading batches fails;
  parsers = replicate parser_count ready;
  consumers = replicate consumer_count true;
  consumed = [];
}

abbrev pub read_error : Bool → Option Exception
read_error fails = if fails then some read_failed else none

abbrev pub after_push : System → Reader → Option Pipe → Option System
after_push s r none = none
after_push s r (some p) = some (record s { pipe = p; reader = r })

-- The reader's next operation; none where it waits or has finished.
abbrev pub reader_round : System → Reader → Option System
reader_round s finished = none
reader_round s (reading [] fails) =
    some (record s { pipe = reader_ends s.pipe (read_error fails); reader = finished })
reader_round s (reading (batch ∷ batches) fails) =
    after_push s (reading batches fails) (push_raw s.pipe batch)

unfoldable pub reader_step : System → Option System
reader_step s = reader_round s s.reader

abbrev pub set_parser : System → ℕ → Pipe → Parser → System
set_parser s i p parser = record s { pipe = p; parsers = update_nth s.parsers i parser }

abbrev pub after_item : System → ℕ → Option Pipe → Option System
after_item s i none = none
after_item s i (some p) = some (set_parser s i p ready)

module _ (duck : Duck) (options : RawParseOptions) where
  abbrev pub parse_result : Str → Result Failure RawParsedPayload → Parser
  parse_result batch (err e) = failing batch e
  parse_result batch (ok parsed) = holding (record { parsed = parsed; payload = batch })

  -- RawParsedPayload::Process, outside the lock
  unfoldable pub parse_batch : Str → Parser
  parse_batch batch = parse_result batch (process duck batch options)

  abbrev pub after_pop : System → ℕ → Taken Str → Option System
  after_pop s i waits = none
  after_pop s i closed = some (set_parser s i (parser_ends s.pipe none) ended)
  after_pop s i (taken batch p) = some (set_parser s i p (parse_batch batch))

  abbrev pub parser_round : System → ℕ → Parser → Option System
  parser_round s i ready = after_pop s i (pop_raw s.pipe)
  parser_round s i (holding item) = after_item s i (push s.pipe item)
  parser_round s i (failing batch e) =
      some (set_parser s i (parser_ends s.pipe (some (parse_failed e))) ended)
  parser_round s i ended = none

  -- The next operation of parser `i`.
  unfoldable pub parser_step : System → ℕ → Option System
  parser_step s i = elim (get_elem? s.parsers i) [ none ↦ none | some w ↦ parser_round s i w ]

-- The handler of a consumer's loop: the pipeline is aborted, and the thread ends.
abbrev pub consumer_ends : System → ℕ → Pipe → Bool → System
consumer_ends s i p throws = record s {
  pipe = if throws then abort p else p;
  consumers = update_nth s.consumers i false;
}

abbrev pub after_take : System → ℕ → Bool → Taken Item → Option System
after_take s i throws waits = none
after_take s i throws closed = some (consumer_ends s i s.pipe throws)
after_take s i throws (taken item p) =
    if throws
    then some (consumer_ends s i p true)
    else some (record s { pipe = p; consumed = s.consumed ++ (item ∷ []) })

abbrev pub consumer_round : System → ℕ → Bool → Bool → Option System
consumer_round s i throws false = none
consumer_round s i throws true = after_take s i throws (pop s.pipe)

-- The next operation of consumer `i`; `throws` says that ingesting fails after it.
unfoldable pub consumer_step : System → ℕ → Bool → Option System
consumer_step s i throws = elim (get_elem? s.consumers i) [
  | none ↦ none
  | some running ↦ consumer_round s i throws running
]
