-- ===== src/Pipeline/Invariant.antt =====
-- What holds of the pipeline between any two steps.
pub mod Readers
pub mod Parsers
pub mod Consumers
pub mod Steps
use rawduck.Prelude.{
  ℕ, zero, suc, ◌+◌, ◌-◌, ◌||◌, ◌≤◌, ◌<◌, ◌≡◌, ◌⊎◌, refl, sym, ap, subst, inl, inr, Str, length,
  Bool, true, false, Option, none, some, List, [], ◌∷◌, arith, sum_by, sum_by-append,
  sum_by-update_nth, length-append, ◌++◌, get_elem?, length-update_nth, Option-cases, replicate,
  length-replicate, Result, err, ok, ltb→lt,
}
use rawduck.Duck.{Duck}
use rawduck.Payload.{RawParseOptions, RawParsedPayload, Failure, process}
use rawduck.Pipeline.{
  Item, Pipe, Exception, abort, reader_ends, parser_ends, first_error, aborts, set_parser,
  parse_failed, Reader, reading, finished, Parser, ready, holding, failing, ended, System,
  parse_batch, parse_result, create, has_room, read_error, consumer_ends,
}
use rawduck.Pipeline.Runs.{Reach, Reach-invariant}
use rawduck.Pipeline.Moves.{
  IsClosed, IsClosedRaw, Move, pushes, drops, stops_reading, pops_raw, stops_parsing, pushes_item,
  drops_item, fails_parsing, takes, throws_item, stops_consuming,
}

abbrev pub is_active : Parser → ℕ
is_active ended = 0
is_active _ = 1

abbrev pub is_running : Bool → ℕ
is_running true = 1
is_running false = 0

module _ (weight : Str → ℕ) where
  abbrev pub item_weight : Item → ℕ
  item_weight item = weight item.payload

  abbrev pub in_hand : Parser → ℕ
  in_hand (holding item) = item_weight item
  in_hand (failing batch e) = weight batch
  in_hand _ = 0

  abbrev pub to_read : Reader → ℕ
  to_read (reading batches fails) = sum_by weight batches
  to_read finished = 0

  -- The weight of all batches, wherever they are.
  abbrev pub weighed : System → ℕ
  weighed s =
      to_read s.reader
      + sum_by weight s.pipe.raw_queue
      + sum_by in_hand s.parsers
      + sum_by item_weight s.pipe.queue
      + sum_by item_weight s.consumed

-- No exception, and no abort.
abbrev pub IsClean : Pipe → Type 0
IsClean p = (p.aborted ≡ false) × (p.error ≡ none)

pub record Inv (weight : Str → ℕ) (batches : List Str) (s : System) : Type 0 where
  pub raw_bound : length s.pipe.raw_queue ≤ s.pipe.capacity
  pub bound : length s.pipe.queue ≤ s.pipe.capacity
  pub active : s.pipe.active_parsers ≡ sum_by is_active s.parsers
  pub read : s.pipe.aborted ≡ false → s.pipe.reader_done ≡ true → s.reader ≡ finished
  pub done : s.reader ≡ finished → s.pipe.reader_done ≡ true
  -- an exception is the reader's last act, or it has aborted
  pub erred : (s.pipe.error ≡ none) ⊎ ((s.pipe.aborted ≡ true) ⊎ (s.pipe.reader_done ≡ true))
  pub parser_done :
      sum_by is_active s.parsers < length s.parsers
      → s.pipe.aborted ≡ false
      → s.pipe.reader_done ≡ true
  pub parser_left :
      sum_by is_active s.parsers < length s.parsers → IsClean s.pipe → s.pipe.raw_queue ≡ []
  pub consumer_done :
      sum_by is_running s.consumers < length s.consumers
      → s.pipe.aborted ≡ false
      → (s.pipe.queue ≡ []) × (s.pipe.active_parsers ≡ 0) × (s.pipe.reader_done ≡ true)
  pub kept : IsClean s.pipe → weighed weight s ≡ sum_by weight batches

pub error_before : (e e' : Option Exception) → first_error e e' ≡ none → e ≡ none
error_before none e' h = refl
error_before (some e) e' h = cc
