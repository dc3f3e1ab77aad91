-- ===== src/Pipeline/Progress.antt =====
-- The conditions that the threads wait for are not all false before all threads are over.
pub mod Waits
use rawduck.Prelude.{
  ℕ, suc, ◌<◌, ◌≡◌, ◌⊎◌, refl, sym, ap, ◌∙◌, subst, inl, inr, Str, length, Bool, true, false,
  Option, none, some, List, [], ◌∷◌, get_elem?, arith, sum_by, length-replicate, Bool-cases,
  if◌then◌else◌,
}
use rawduck.Duck.{Duck}
use rawduck.Payload.{RawParseOptions}
use rawduck.Pipeline.{
  Item, Pipe, has_room, push_raw, push, Taken, waits, closed, taken, pop_raw, pop_raw_from, pop,
  pop_from, Reader, reading, finished, Parser, ready, holding, failing, ended, System, create,
  after_push, after_item, after_pop, after_take, reader_round, reader_step, parser_round,
  parser_step, consumer_round, consumer_step,
}
use rawduck.Pipeline.Runs.{Reach}
use rawduck.Pipeline.Invariant.{is_active, is_running, Inv}
use rawduck.Pipeline.Invariant.Steps.{Reach-Inv}
use rawduck.Pipeline.Delivery.{Reach-SameSize}
use rawduck.Pipeline.Progress.Waits.{
  Given, Answers, tested-Given, push_raw-Given, push-Given, pop_raw-Answers, pop-Answers,
  active_parser, running_consumer, after_pop-Given, after_take-Given,
}

module _ (duck : Duck) (options : RawParseOptions) where
  -- A thread can take its step.
  abbrev pub IsEnabled : System → Type 0
  IsEnabled s =
      Given (reader_step s)
      ⊎ (((i : ℕ) × Given (parser_step duck options s i))
          ⊎ ((i : ℕ) × Given (consumer_step s i false)))

  abbrev pub IsOver : System → Type 0
  IsOver s =
      (s.reader ≡ finished) × (sum_by is_active s.parsers ≡ 0) × (sum_by is_running s.consumers ≡ 0)

  consumer-IsEnabled :
      (s : System) (i : ℕ)
      → get_elem? s.consumers i ≡ some true
      → Answers (pop s.pipe)
      → IsEnabled s
  unfolding consumer_step
  consumer-IsEnabled s i e h = inr (
      inr (
        i,
        subst
            (λ (o : Option Bool). Given (elim o as (λ _. Option System) [
              | none ↦ none
              | some running ↦ consumer_round s i false running
            ]))
            (sym e) (after_take-Given duck options s i (pop s.pipe) h),
      ))

  parser-IsEnabled :
      (s : System) (i : ℕ) (w : Parser)
      → get_elem? s.parsers i ≡ some w
      → Given (parser_round duck options s i w)
      → IsEnabled s
  unfolding parser_step
  parser-IsEnabled s i w e h = inr (
      inl (
        i,
        subst
            (λ (o : Option Parser). Given (elim o as (λ _. Option System) [
              | none ↦ none
              | some w ↦ parser_round duck options s i w
            ]))
            (sym e) h,
      ))

  reader-IsEnabled :
      (s : System) (r : Reader)
      → s.reader ≡ r
      → (s.pipe.aborted ≡ true) ⊎ (has_room s.pipe.raw_queue s.pipe.capacity ≡ true)
      → IsEnabled s ⊎ (s.reader ≡ finished)
  unfolding reader_step
  reader-IsEnabled s finished e h = inr e
  reader-IsEnabled s (reading [] fails) e h = inl (inl (_, ap (reader_round s) e))
  reader-IsEnabled s (reading (batch ∷ batches) fails) e h =
      let (p, q) = push_raw-Given s.pipe batch h in
      inl (inl (_, ap (reader_round s) e ∙ ap (after_push s (reading batches fails)) q))

  parser_can :
      (s : System) (i : ℕ) (w : Parser)
      → get_elem? s.parsers i ≡ some w
      → is_active w ≡ 1
      → (s.pipe.aborted ≡ true)
        ⊎ (((s.pipe.reader_done ≡ true) ⊎ (0 < length s.pipe.raw_queue))
            × (has_room s.pipe.queue s.pipe.capacity ≡ true))
      → IsEnabled s
  parser_can s i ready e a h = parser-IsEnabled s i ready e (
      after_pop-Given duck options s i (pop_raw s.pipe)
        (pop_raw-Answers s.pipe (elim h [ inl b ↦ inl b | inr r ↦ inr r.0 ])))
  parser_can s i (holding item) e a h =
      let (p, q) = push-Given s.pipe item (elim h [ inl b ↦ inl b | inr r ↦ inr r.1 ]) in
      parser-IsEnabled s i (holding item) e (_, ap (after_item s i) q)
  parser_can s i (failing batch f) e a h = parser-IsEnabled s i (failing batch f) e (_, refl)
  parser_can s i ended e a h = absurd (omega (arith, a))

  -- After an abort nobody waits.
  aborted_progress : (s : System) → s.pipe.aborted ≡ true → IsOver s ⊎ IsEnabled s
  aborted_progress s a = elim (reader-IsEnabled s s.reader refl (inl a)) [
    | inl can ↦ inr can
    | inr f ↦ elim (active_parser s.parsers) [
      | inr (i, (w, (e, one))) ↦ inr (parser_can s i w e one (inl a))
      | inl idle ↦ elim (running_consumer s.consumers) [
        | inr (i, e) ↦ inr (consumer-IsEnabled s i e (pop-Answers s.pipe (inl a)))
        | inl none_left ↦ inl (f, idle, none_left)
      ]
    ]
  ]

  -- All parsers have ended, so the consumers can.
  parsed_progress :
      (weight : Str → ℕ) (batches : List Str) (s : System)
      → Inv weight batches s
      → 0 < length s.parsers
      → s.pipe.aborted ≡ false
      → sum_by is_active s.parsers ≡ 0
      → IsOver s ⊎ IsEnabled s
  parsed_progress weight batches s h many a idle =
      let done = h.parser_done (omega (arith, idle, many)) a in
      elim (running_consumer s.consumers) [
        | inl none_left ↦ inl (h.read a done, idle, none_left)
        | inr (i, e) ↦ inr (
            consumer-IsEnabled s i e
              (pop-Answers s.pipe (inr (inl (done, omega (arith, h.active, idle))))))
      ]

  -- A parser is active: it can go on, or one that it waits for can.
  parsing_progress :
      (weight : Str → ℕ) (batches : List Str) (s : System) (i : ℕ) (w : Parser)
      → Inv weight batches s
      → 0 < length s.consumers
      → 0 < s.pipe.capacity
      → s.pipe.aborted ≡ false
      → get_elem? s.parsers i ≡ some w
      → is_active w ≡ 1
      → IsEnabled s
  parsing_progress weight batches s i w h many room a e one =
      elim (Bool-cases (has_room s.pipe.queue s.pipe.capacity)) [
        | inr full ↦ elim (running_consumer s.consumers) [
          | inr (j, c) ↦
              consumer-IsEnabled s j c (pop-Answers s.pipe (inr (inr (ground (arith, full, room)))))
          | inl none_left ↦
              let q = (h.consumer_done (omega (arith, none_left, many)) a).0 in
              absurd (ground (arith, ap length q, full, room))
        ]
        | inl free ↦ elim (Bool-cases s.pipe.reader_done) [
          | inl d ↦ parser_can s i w e one (inr (inl d, free))
          | inr d ↦ elim (Bool-cases (has_room s.pipe.raw_queue s.pipe.capacity)) [
            | inr full ↦ parser_can s i w e one (inr (inr (ground (arith, full, room)), free))
            | inl r ↦ elim (reader-IsEnabled s s.reader refl (inr r)) [
              | inl can ↦ can
              | inr f ↦ cc (h.done f)
            ]
          ]
        ]
      ]

  -- With room in the queues, a parser and a consumer, in every state that a run can reach either all
  -- threads are over or the condition that some thread waits for is true, after an exception or an
  -- abort too. So the conditions themselves never block all threads. Nothing is said of whether that
  -- thread is then woken: a wait on a condition variable counts here as over once its condition holds,
  -- and a notification that reaches another thread is not modelled.
  pub Reach-progress :
      (capacity : ℕ) (batches : List Str) (fails : Bool) (parser_count consumer_count n : ℕ)
      (s : System)
      → 0 < capacity
      → 0 < parser_count
      → 0 < consumer_count
      → Reach duck options (create capacity batches fails parser_count consumer_count) n s
      → IsOver s ⊎ IsEnabled s
  unfolding create
  Reach-progress capacity batches fails parser_count consumer_count n s room parsers consumers r =
      let start = create capacity batches fails parser_count consumer_count in
      let h =
        Reach-Inv duck options (λ _. 0) batches capacity fails parser_count consumer_count n s r in
      let (ps, cs, cap) = Reach-SameSize duck options start n s r in
      elim (Bool-cases s.pipe.aborted) [
        | inl a ↦ aborted_progress s a
        | inr a ↦ elim (active_parser s.parsers) [
          | inl idle ↦
              parsed_progress (λ _. 0) batches s h
                (omega (arith, ps, parsers, length-replicate parser_count ready)) a idle
          | inr (i, (w, (e, one))) ↦ inr (
              parsing_progress (λ _. 0) batches s i w h
                (omega (arith, cs, consumers, length-replicate consumer_count true))
                (omega (arith, cap, room)) a e one)
        ]
      ]
