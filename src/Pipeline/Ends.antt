-- ===== src/Pipeline/Ends.antt =====
-- The pipeline comes to an end: every step uses up something.
use rawduck.Prelude.{
  ℕ, suc, ◌+◌, ◌*◌, ◌≤◌, ◌<◌, ◌≡◌, refl, ap, Str, length, Bool, true, false, [], ◌∷◌, arith, sum_by,
  sum_by-update_nth, length-append, Result, err, ok,
}
use rawduck.Duck.{Duck}
use rawduck.Payload.{RawParseOptions, RawParsedPayload, Failure, process}
use rawduck.Pipeline.{
  abort, reader_ends, parser_ends, Reader, reading, finished, Parser, ready, holding, failing,
  ended, System, parse_batch, parse_result,
}
use rawduck.Pipeline.Runs.{Reach, Reach-invariant}
use rawduck.Pipeline.Moves.{
  Move, pushes, drops, stops_reading, pops_raw, stops_parsing, pushes_item, drops_item,
  fails_parsing, takes, throws_item, stops_consuming,
}

abbrev pub reader_cost : Reader → ℕ
reader_cost (reading batches fails) = suc (5 * length batches)
reader_cost finished = 0

abbrev pub parser_cost : Parser → ℕ
parser_cost ready = 1
parser_cost (holding item) = 4
parser_cost (failing batch e) = 4
parser_cost ended = 0

abbrev pub consumer_cost : Bool → ℕ
consumer_cost true = 1
consumer_cost false = 0

-- The steps that are left at most.
abbrev pub budget : System → ℕ
budget s =
    reader_cost s.reader
    + 4 * length s.pipe.raw_queue
    + sum_by parser_cost s.parsers
    + 2 * length s.pipe.queue
    + sum_by consumer_cost s.consumers

module _ (duck : Duck) (options : RawParseOptions) where
  result_cost :
      (batch : Str) (r : Result Failure RawParsedPayload)
      → parser_cost (parse_result duck options batch r) ≡ 4
  result_cost batch (err e) = refl
  result_cost batch (ok parsed) = refl

  parse_batch_cost : (batch : Str) → parser_cost (parse_batch duck options batch) ≡ 4
  unfolding parse_batch
  parse_batch_cost batch = result_cost batch (process duck batch options)

  Move-budget : (s t : System) → Move duck options s t → budget t < budget s
  unfolding reader_ends parser_ends abort
  Move-budget s t (pushes batch batches fails e a r) =
      omega (arith, ap reader_cost e, length-append s.pipe.raw_queue (batch ∷ []))
  Move-budget s t (drops batch batches fails e a) = omega (arith, ap reader_cost e)
  Move-budget s t (stops_reading fails e) = omega (arith, ap reader_cost e)
  Move-budget s t (pops_raw i batch rest w a e) = omega (
    arith,
    ap length e,
    parse_batch_cost batch,
    sum_by-update_nth parser_cost s.parsers i ready (parse_batch duck options batch) w,
  )
  Move-budget s t (stops_parsing i w c) =
      omega (arith, sum_by-update_nth parser_cost s.parsers i ready ended w)
  Move-budget s t (pushes_item i item w a r) = omega (
    arith,
    length-append s.pipe.queue (item ∷ []),
    sum_by-update_nth parser_cost s.parsers i (holding item) ready w,
  )
  Move-budget s t (drops_item i item w a) =
      omega (arith, sum_by-update_nth parser_cost s.parsers i (holding item) ready w)
  Move-budget s t (fails_parsing i batch e w) =
      omega (arith, sum_by-update_nth parser_cost s.parsers i (failing batch e) ended w)
  Move-budget s t (takes i item rest w a e) = omega (arith, ap length e)
  Move-budget s t (throws_item i item rest w a e) =
      omega (arith, ap length e, sum_by-update_nth consumer_cost s.consumers i true false w)
  Move-budget s t (stops_consuming i true w c) =
      omega (arith, sum_by-update_nth consumer_cost s.consumers i true false w)
  Move-budget s t (stops_consuming i false w c) =
      omega (arith, sum_by-update_nth consumer_cost s.consumers i true false w)

  -- No run of the threads is longer than the budget that it starts with.
  pub Reach-budget :
      (start : System) (n : ℕ) (s : System)
      → Reach duck options start n s
      → n + budget s ≤ budget start
  Reach-budget start =
      Reach-invariant duck options (λ n s. n + budget s ≤ budget start) start (omega arith)
        (λ n s t m h. omega (arith, h, Move-budget s t m))
