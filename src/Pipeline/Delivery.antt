-- ===== src/Pipeline/Delivery.antt =====
-- What the consumers have got when the pipeline has ended without an exception.
use rawduck.Prelude.{
  ℕ, ◌<◌, ◌≡◌, refl, ap, ◌∙◌, subst, Str, length, Bool, true, false, List, [], ◌∷◌, arith, sum_by,
  length-update_nth, length-replicate, Result, err, ok, All, All-append, All-update_nth,
  All-get_elem?, All-replicate,
}
use rawduck.Duck.{Duck}
use rawduck.Payload.{RawParseOptions, RawParsedPayload, Failure, process}
use rawduck.Pipeline.{
  Item, abort, reader_ends, parser_ends, Parser, ready, holding, failing, ended, System,
  parse_batch, parse_result, create,
}
use rawduck.Pipeline.Runs.{Reach, Reach-invariant}
use rawduck.Pipeline.Moves.{
  Move, pushes, drops, stops_reading, pops_raw, stops_parsing, pushes_item, drops_item,
  fails_parsing, takes, throws_item, stops_consuming,
}
use rawduck.Pipeline.Invariant.{is_active, is_running, item_weight, in_hand, to_read, IsClean}
use rawduck.Pipeline.Invariant.Steps.{Reach-Inv}

module _ (duck : Duck) (options : RawParseOptions) where
  -- The item is what Process returns for its text.
  abbrev pub IsParsed : Item → Type 0
  IsParsed item = process duck item.payload options ≡ ok item.parsed

  abbrev HoldsParsed : Parser → Type 0
  HoldsParsed (holding item) = IsParsed item
  HoldsParsed _ = Unit

  abbrev AllParsed : System → Type 0
  AllParsed s = All HoldsParsed s.parsers × All IsParsed s.pipe.queue × All IsParsed s.consumed

  parse_batch-HoldsParsed : (batch : Str) → HoldsParsed (parse_batch duck options batch)
  unfolding parse_batch
  parse_batch-HoldsParsed batch = go (process duck batch options) refl
    where
      go :
          (r : Result Failure RawParsedPayload)
          → process duck batch options ≡ r
          → HoldsParsed (parse_result duck options batch r)
      go (err e) h = tt
      go (ok parsed) h = h

  Move-AllParsed : (s t : System) → Move duck options s t → AllParsed s → AllParsed t
  unfolding reader_ends parser_ends abort
  Move-AllParsed s t (pushes batch left fails e a r) h = h
  Move-AllParsed s t (drops batch left fails e a) h = h
  Move-AllParsed s t (stops_reading fails e) h = h
  Move-AllParsed s t (pops_raw i batch rest w a e) h =
      (All-update_nth HoldsParsed s.parsers i _ h.0 (parse_batch-HoldsParsed batch), h.1, h.2)
  Move-AllParsed s t (stops_parsing i w c) h =
      (All-update_nth HoldsParsed s.parsers i ended h.0 tt, h.1, h.2)
  Move-AllParsed s t (pushes_item i item w a r) h = (
    All-update_nth HoldsParsed s.parsers i ready h.0 tt,
    All-append IsParsed s.pipe.queue (item ∷ []) h.1
        (All-get_elem? HoldsParsed s.parsers i (holding item) h.0 w, tt),
    h.2,
  )
  Move-AllParsed s t (drops_item i item w a) h =
      (All-update_nth HoldsParsed s.parsers i ready h.0 tt, h.1, h.2)
  Move-AllParsed s t (fails_parsing i batch e w) h =
      (All-update_nth HoldsParsed s.parsers i ended h.0 tt, h.1, h.2)
  Move-AllParsed s t (takes i item rest w a e) h =
      let q = subst (All IsParsed) e h.1 in
      (h.0, q.1, All-append IsParsed s.consumed (item ∷ []) h.2 (q.0, tt))
  Move-AllParsed s t (throws_item i item rest w a e) h = (h.0, (subst (All IsParsed) e h.1).1, h.2)
  Move-AllParsed s t (stops_consuming i true w c) h = h
  Move-AllParsed s t (stops_consuming i false w c) h = h

  -- The threads and the capacity stay.
  abbrev pub SameSize : System → System → Type 0
  SameSize s t =
      (length t.parsers ≡ length s.parsers)
      × (length t.consumers ≡ length s.consumers)
      × (t.pipe.capacity ≡ s.pipe.capacity)

  Move-SameSize : (s t : System) → Move duck options s t → SameSize s t
  unfolding reader_ends parser_ends abort
  Move-SameSize s t (pushes batch left fails e a r) = (refl, refl, refl)
  Move-SameSize s t (drops batch left fails e a) = (refl, refl, refl)
  Move-SameSize s t (stops_reading fails e) = (refl, refl, refl)
  Move-SameSize s t (pops_raw i batch rest w a e) = (length-update_nth s.parsers i _, refl, refl)
  Move-SameSize s t (stops_parsing i w c) = (length-update_nth s.parsers i _, refl, refl)
  Move-SameSize s t (pushes_item i item w a r) = (length-update_nth s.parsers i _, refl, refl)
  Move-SameSize s t (drops_item i item w a) = (length-update_nth s.parsers i _, refl, refl)
  Move-SameSize s t (fails_parsing i batch e w) = (length-update_nth s.parsers i _, refl, refl)
  Move-SameSize s t (takes i item rest w a e) = (refl, refl, refl)
  Move-SameSize s t (throws_item i item rest w a e) =
      (refl, length-update_nth s.consumers i _, refl)
  Move-SameSize s t (stops_consuming i true w c) = (refl, length-update_nth s.consumers i _, refl)
  Move-SameSize s t (stops_consuming i false w c) = (refl, length-update_nth s.consumers i _, refl)

  pub Reach-SameSize :
      (start : System) (n : ℕ) (s : System) → Reach duck options start n s → SameSize start s
  Reach-SameSize start =
      Reach-invariant duck options (λ _ s. SameSize start s) start (refl, refl, refl)
        (λ _ s t m h. let k = Move-SameSize s t m in (k.0 ∙ h.0, k.1 ∙ h.1, k.2 ∙ h.2))

  none_in_hand :
      (weight : Str → ℕ) (parsers : List Parser)
      → sum_by is_active parsers ≡ 0
      → sum_by (in_hand weight) parsers ≡ 0
  none_in_hand weight [] h = refl
  none_in_hand weight (ready ∷ ps) h = absurd (omega arith)
  none_in_hand weight (holding item ∷ ps) h = absurd (omega arith)
  none_in_hand weight (failing batch e ∷ ps) h = absurd (omega arith)
  none_in_hand weight (ended ∷ ps) h = omega (arith, none_in_hand weight ps (omega (arith, h)))

  -- When a consumer has left its loop and there was neither an exception nor an abort, the consumers
  -- have got every batch of the reader exactly once, however the threads interleaved: any weighing of
  -- the batches gives the consumed items the same weight, and each item is what Process returns for
  -- its text.
  pub consumed-batches :
      (weight : Str → ℕ) (capacity : ℕ) (batches : List Str) (fails : Bool)
      (parser_count consumer_count n : ℕ) (s : System)
      → 0 < parser_count
      → Reach duck options (create capacity batches fails parser_count consumer_count) n s
      → IsClean s.pipe
      → sum_by is_running s.consumers < length s.consumers
      → (sum_by (item_weight weight) s.consumed ≡ sum_by weight batches) × All IsParsed s.consumed
  unfolding create
  consumed-batches weight capacity batches fails parser_count consumer_count n s many r clean
        stopped =
      let start = create capacity batches fails parser_count consumer_count in
      let h =
        Reach-Inv duck options weight batches capacity fails parser_count consumer_count n s r in
      let (empty, none_active, done) = h.consumer_done stopped clean.0 in
      let size = Reach-SameSize start n s r in
      let raw =
        h.parser_left
          (omega (arith, h.active, none_active, size.0, many, length-replicate parser_count ready))
          clean in
      (
        omega (
          arith,
          h.kept clean,
          ap (sum_by (item_weight weight)) empty,
          ap (sum_by weight) raw,
          ap (to_read weight) (h.read clean.0 done),
          none_in_hand weight s.parsers (omega (arith, h.active, none_active)),
        ),
        (Reach-invariant duck options (λ _ s. AllParsed s) start
            (All-replicate HoldsParsed parser_count ready tt, tt, tt)
            (λ _ s t m p. Move-AllParsed s t m p) n s r).2,
      )
