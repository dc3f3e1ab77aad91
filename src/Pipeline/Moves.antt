-- ===== src/Pipeline/Moves.antt =====
-- The moves of the pipeline's threads, each with the condition under which it is made.
pub mod Steps
use rawduck.Prelude.{
  ℕ, ◌≡◌, ◌⊎◌, refl, subst, inl, inr, Str, Bool, true, false, ◌&&◌, ◌==◌, Option, none, some, List,
  [], ◌∷◌, ◌++◌, get_elem?, some-eq, if◌then◌else◌, arith,
}
use rawduck.Duck.{Duck}
use rawduck.Payload.{Failure, RawParseOptions}
use rawduck.Pipeline.{
  Item, parse_failed, Pipe, has_room, push_raw, push, waits, closed, taken, pop_raw, pop_raw_from,
  pop, pop_from, reader_ends, parser_ends, Reader, reading, finished, Parser, ready, holding,
  failing, ended, System, read_error, after_push, reader_round, reader_step, set_parser, after_item,
  parse_batch, after_pop, parser_round, parser_step, consumer_ends, after_take, consumer_round,
  consumer_step,
}

abbrev pub IsClosedRaw : Pipe → Type 0
IsClosedRaw p = (p.aborted ≡ true) ⊎ ((p.raw_queue ≡ []) × (p.reader_done ≡ true))

abbrev pub IsClosed : Pipe → Type 0
IsClosed p = (p.aborted ≡ true) ⊎ ((p.queue ≡ []) × (p.reader_done ≡ true) × (p.active_parsers ≡ 0))

module _ (duck : Duck) (options : RawParseOptions) where
  pub data Move (s : System) : System → Type 0 where
    pushes :
        (batch : Str) (batches : List Str) (fails : Bool)
        → s.reader ≡ reading (batch ∷ batches) fails
        → s.pipe.aborted ≡ false
        → has_room s.pipe.raw_queue s.pipe.capacity ≡ true
        → Move s (record s {
          pipe = record s.pipe { raw_queue = s.pipe.raw_queue ++ (batch ∷ []) };
          reader = reading batches fails;
        })
    drops :
        (batch : Str) (batches : List Str) (fails : Bool)
        → s.reader ≡ reading (batch ∷ batches) fails
        → s.pipe.aborted ≡ true
        → Move s (record s { reader = reading batches fails })
    stops_reading :
        (fails : Bool)
        → s.reader ≡ reading [] fails
        → Move s (record s { pipe = reader_ends s.pipe (read_error fails); reader = finished })
    pops_raw :
        (i : ℕ) (batch : Str) (rest : List Str)
        → get_elem? s.parsers i ≡ some ready
        → s.pipe.aborted ≡ false
        → s.pipe.raw_queue ≡ batch ∷ rest
        → Move s
            (set_parser s i (record s.pipe { raw_queue = rest }) (parse_batch duck options batch))
    stops_parsing :
        (i : ℕ)
        → get_elem? s.parsers i ≡ some ready
        → IsClosedRaw s.pipe
        → Move s (set_parser s i (parser_ends s.pipe none) ended)
    pushes_item :
        (i : ℕ) (item : Item)
        → get_elem? s.parsers i ≡ some (holding item)
        → s.pipe.aborted ≡ false
        → has_room s.pipe.queue s.pipe.capacity ≡ true
        → Move s (set_parser s i (record s.pipe { queue = s.pipe.queue ++ (item ∷ []) }) ready)
    drops_item :
        (i : ℕ) (item : Item)
        → get_elem? s.parsers i ≡ some (holding item)
        → s.pipe.aborted ≡ true
        → Move s (set_parser s i s.pipe ready)
    fails_parsing :
        (i : ℕ) (batch : Str) (e : Failure)
        → get_elem? s.parsers i ≡ some (failing batch e)
        → Move s (set_parser s i (parser_ends s.pipe (some (parse_failed e))) ended)
    takes :
        (i : ℕ) (item : Item) (rest : List Item)
        → get_elem? s.consumers i ≡ some true
        → s.pipe.aborted ≡ false
        → s.pipe.queue ≡ item ∷ rest
        → Move s (record s {
          pipe = record s.pipe { queue = rest };
          consumed = s.consumed ++ (item ∷ []);
        })
    throws_item :
        (i : ℕ) (item : Item) (rest : List Item)
        → get_elem? s.consumers i ≡ some true
        → s.pipe.aborted ≡ false
        → s.pipe.queue ≡ item ∷ rest
        → Move s (consumer_ends s i (record s.pipe { queue = rest }) true)
    stops_consuming :
        (i : ℕ) (throws : Bool)
        → get_elem? s.consumers i ≡ some true
        → IsClosed s.pipe
        → Move s (consumer_ends s i s.pipe throws)
