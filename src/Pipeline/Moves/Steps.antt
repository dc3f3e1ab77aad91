-- ===== src/Pipeline/Moves/Steps.antt =====
-- Every step of a thread is one of the moves: a test, a result or a state at a time.
use rawduck.Prelude.{
  ℕ, ◌≡◌, refl, subst, inl, inr, Str, Bool, true, false, ◌&&◌, ◌==◌, Option, none, some, List, [],
  ◌∷◌, ◌++◌, get_elem?, some-eq, if◌then◌else◌, arith,
}
use rawduck.Duck.{Duck}
use rawduck.Payload.{RawParseOptions}
use rawduck.Pipeline.{
  Item, has_room, push_raw, push, waits, closed, taken, pop_raw, pop_raw_from, pop, pop_from,
  Reader, reading, finished, Parser, ready, holding, failing, ended, System, after_push,
  reader_round, reader_step, after_item, after_pop, parser_round, parser_step, after_take,
  consumer_round, consumer_step,
}
use rawduck.Pipeline.Moves.{
  Move, pushes, drops, stops_reading, pops_raw, stops_parsing, pushes_item, drops_item,
  fails_parsing, takes, throws_item, stops_consuming,
}

module _ (duck : Duck) (options : RawParseOptions) where
  push_raw-Move :
      (s t : System) (batch : Str) (batches : List Str) (fails a r : Bool)
      → s.reader ≡ reading (batch ∷ batches) fails
      → s.pipe.aborted ≡ a
      → has_room s.pipe.raw_queue s.pipe.capacity ≡ r
      → after_push s (reading batches fails) (
          if a
          then some s.pipe
          else if r
          then some (record s.pipe { raw_queue = s.pipe.raw_queue ++ (batch ∷ []) })
          else none)
        ≡ some t
      → Move duck options s t
  push_raw-Move s t batch batches fails true r e p q h =
      subst (Move duck options s) (some-eq _ t h) (drops batch batches fails e p)
  push_raw-Move s t batch batches fails false true e p q h =
      subst (Move duck options s) (some-eq _ t h) (pushes batch batches fails e p q)
  push_raw-Move s t batch batches fails false false e p q h = cc

  reader_round-Move :
      (s t : System) (r : Reader) → s.reader ≡ r → reader_round s r ≡ some t → Move duck options s t
  unfolding push_raw
  reader_round-Move s t finished e h = cc
  reader_round-Move s t (reading [] fails) e h =
      subst (Move duck options s) (some-eq _ t h) (stops_reading fails e)
  reader_round-Move s t (reading (batch ∷ batches) fails) e h =
      push_raw-Move s t batch batches fails _ _ e refl refl h

  empty_raw-Move :
      (s t : System) (i : ℕ) (d : Bool)
      → get_elem? s.parsers i ≡ some ready
      → s.pipe.raw_queue ≡ []
      → s.pipe.reader_done ≡ d
      → after_pop duck options s i (if d then closed else waits) ≡ some t
      → Move duck options s t
  empty_raw-Move s t i true w e q h =
      subst (Move duck options s) (some-eq _ t h) (stops_parsing i w (inr (e, q)))
  empty_raw-Move s t i false w e q h = cc

  pop_raw-Move :
      (s t : System) (i : ℕ) (a : Bool) (raw : List Str)
      → get_elem? s.parsers i ≡ some ready
      → s.pipe.aborted ≡ a
      → s.pipe.raw_queue ≡ raw
      → after_pop duck options s i (if a then closed else pop_raw_from s.pipe raw) ≡ some t
      → Move duck options s t
  pop_raw-Move s t i true raw w p e h =
      subst (Move duck options s) (some-eq _ t h) (stops_parsing i w (inl p))
  pop_raw-Move s t i false [] w p e h = empty_raw-Move s t i s.pipe.reader_done w e refl h
  pop_raw-Move s t i false (batch ∷ rest) w p e h =
      subst (Move duck options s) (some-eq _ t h) (pops_raw i batch rest w p e)

  push-Move :
      (s t : System) (i : ℕ) (item : Item) (a r : Bool)
      → get_elem? s.parsers i ≡ some (holding item)
      → s.pipe.aborted ≡ a
      → has_room s.pipe.queue s.pipe.capacity ≡ r
      → after_item s i (
          if a
          then some s.pipe
          else if r
          then some (record s.pipe { queue = s.pipe.queue ++ (item ∷ []) })
          else none)
        ≡ some t
      → Move duck options s t
  push-Move s t i item true r w p q h =
      subst (Move duck options s) (some-eq _ t h) (drops_item i item w p)
  push-Move s t i item false true w p q h =
      subst (Move duck options s) (some-eq _ t h) (pushes_item i item w p q)
  push-Move s t i item false false w p q h = cc

  parser_round-Move :
      (s t : System) (i : ℕ) (w : Parser)
      → get_elem? s.parsers i ≡ some w
      → parser_round duck options s i w ≡ some t
      → Move duck options s t
  unfolding pop_raw push
  parser_round-Move s t i ready e h =
      pop_raw-Move s t i s.pipe.aborted s.pipe.raw_queue e refl refl h
  parser_round-Move s t i (holding item) e h = push-Move s t i item _ _ e refl refl h
  parser_round-Move s t i (failing batch f) e h =
      subst (Move duck options s) (some-eq _ t h) (fails_parsing i batch f e)
  parser_round-Move s t i ended e h = cc

  empty-Move :
      (s t : System) (i : ℕ) (throws d : Bool)
      → get_elem? s.consumers i ≡ some true
      → s.pipe.queue ≡ []
      → (s.pipe.reader_done && s.pipe.active_parsers == 0) ≡ d
      → after_take s i throws (if d then closed else waits) ≡ some t
      → Move duck options s t
  empty-Move s t i throws true w e q h =
      subst (Move duck options s) (some-eq _ t h)
        (stops_consuming i throws w (inr (e, ground arith, ground arith)))
  empty-Move s t i throws false w e q h = cc

  take-Move :
      (s t : System) (i : ℕ) (throws : Bool) (item : Item) (rest : List Item)
      → get_elem? s.consumers i ≡ some true
      → s.pipe.aborted ≡ false
      → s.pipe.queue ≡ item ∷ rest
      → after_take s i throws (taken item (record s.pipe { queue = rest })) ≡ some t
      → Move duck options s t
  take-Move s t i true item rest w p e h =
      subst (Move duck options s) (some-eq _ t h) (throws_item i item rest w p e)
  take-Move s t i false item rest w p e h =
      subst (Move duck options s) (some-eq _ t h) (takes i item rest w p e)

  pop-Move :
      (s t : System) (i : ℕ) (throws a : Bool) (queue : List Item)
      → get_elem? s.consumers i ≡ some true
      → s.pipe.aborted ≡ a
      → s.pipe.queue ≡ queue
      → after_take s i throws (if a then closed else pop_from s.pipe queue) ≡ some t
      → Move duck options s t
  pop-Move s t i throws true queue w p e h =
      subst (Move duck options s) (some-eq _ t h) (stops_consuming i throws w (inl p))
  pop-Move s t i throws false [] w p e h = empty-Move s t i throws _ w e refl h
  pop-Move s t i throws false (item ∷ rest) w p e h = take-Move s t i throws item rest w p e h

  consumer_round-Move :
      (s t : System) (i : ℕ) (throws running : Bool)
      → get_elem? s.consumers i ≡ some running
      → consumer_round s i throws running ≡ some t
      → Move duck options s t
  unfolding pop
  consumer_round-Move s t i throws false e h = cc
  consumer_round-Move s t i throws true e h = pop-Move s t i throws _ s.pipe.queue e refl refl h

  pub reader_step-Move : (s t : System) → reader_step s ≡ some t → Move duck options s t
  unfolding reader_step
  reader_step-Move s t h = reader_round-Move s t s.reader refl h

  parser_at-Move :
      (s t : System) (i : ℕ) (o : Option Parser)
      → get_elem? s.parsers i ≡ o
      → elim o as (λ _. Option System) [ none ↦ none | some w ↦ parser_round duck options s i w ]
        ≡ some t
      → Move duck options s t
  parser_at-Move s t i none e h = cc
  parser_at-Move s t i (some w) e h = parser_round-Move s t i w e h

  pub parser_step-Move :
      (s t : System) (i : ℕ) → parser_step duck options s i ≡ some t → Move duck options s t
  unfolding parser_step
  parser_step-Move s t i h = parser_at-Move s t i (get_elem? s.parsers i) refl h

  consumer_at-Move :
      (s t : System) (i : ℕ) (throws : Bool) (o : Option Bool)
      → get_elem? s.consumers i ≡ o
      → elim o as (λ _. Option System) [
        | none ↦ none
        | some running ↦ consumer_round s i throws running
      ]
        ≡ some t
      → Move duck options s t
  consumer_at-Move s t i throws none e h = cc
  consumer_at-Move s t i throws (some running) e h = consumer_round-Move s t i throws running e h

  pub consumer_step-Move :
      (s t : System) (i : ℕ) (throws : Bool)
      → consumer_step s i throws ≡ some t
      → Move duck options s t
  unfolding consumer_step
  consumer_step-Move s t i throws h = consumer_at-Move s t i throws (get_elem? s.consumers i) refl h
