-- ===== src/Pipeline/Invariant/Steps.antt =====
-- What holds of the pipeline in every run.
use rawduck.Prelude.{
  ℕ, zero, suc, ◌≡◌, refl, sym, inl, Str, Bool, true, List, arith, sum_by, replicate,
  length-replicate,
}
use rawduck.Duck.{Duck}
use rawduck.Payload.{RawParseOptions}
use rawduck.Pipeline.{ready, System, create}
use rawduck.Pipeline.Runs.{Reach, Reach-invariant}
use rawduck.Pipeline.Moves.{
  Move, pushes, drops, stops_reading, pops_raw, stops_parsing, pushes_item, drops_item,
  fails_parsing, takes, throws_item, stops_consuming,
}
use rawduck.Pipeline.Invariant.{is_active, is_running, in_hand, Inv}
use rawduck.Pipeline.Invariant.Readers.{pushes-Inv, drops-Inv, stops_reading-Inv}
use rawduck.Pipeline.Invariant.Parsers.{
  pops_raw-Inv, stops_parsing-Inv, pushes_item-Inv, drops_item-Inv, fails_parsing-Inv,
}
use rawduck.Pipeline.Invariant.Consumers.{takes-Inv, throws_item-Inv, stops_consuming-Inv}

module _ (duck : Duck) (options : RawParseOptions) (weight : Str → ℕ) (batches : List Str) where
  Move-Inv : (s t : System) → Move duck options s t → Inv weight batches s → Inv weight batches t
  Move-Inv s t (pushes batch left fails e a r) h =
      pushes-Inv weight batches s batch left fails e a r h
  Move-Inv s t (drops batch left fails e a) h = drops-Inv weight batches s batch left fails e a h
  Move-Inv s t (stops_reading fails e) h = stops_reading-Inv weight batches s fails e h
  Move-Inv s t (pops_raw i batch rest w a e) h =
      pops_raw-Inv duck options weight batches s i batch rest w a e h
  Move-Inv s t (stops_parsing i w c) h = stops_parsing-Inv duck options weight batches s i w c h
  Move-Inv s t (pushes_item i item w a r) h =
      pushes_item-Inv duck options weight batches s i item w a r h
  Move-Inv s t (drops_item i item w a) h = drops_item-Inv duck options weight batches s i item w a h
  Move-Inv s t (fails_parsing i batch f w) h =
      fails_parsing-Inv duck options weight batches s i batch f w h
  Move-Inv s t (takes i item rest w a e) h = takes-Inv weight batches s i item rest w a e h
  Move-Inv s t (throws_item i item rest w a e) h =
      throws_item-Inv weight batches s i item rest w a e h
  Move-Inv s t (stops_consuming i throws w c) h =
      stops_consuming-Inv weight batches s i throws w c h

  create-Inv :
      (capacity : ℕ) (fails : Bool) (parser_count consumer_count : ℕ)
      → Inv weight batches (create capacity batches fails parser_count consumer_count)
  unfolding create
  create-Inv capacity fails m n = record {
    raw_bound = omega arith;
    bound = omega arith;
    active = sym (all_active m);
    read = λ p q. cc;
    done = λ p. cc;
    erred = inl refl;
    parser_done = λ p. absurd (omega (arith, p, all_active m, length-replicate m ready));
    parser_left = λ p. absurd (omega (arith, p, all_active m, length-replicate m ready));
    consumer_done = λ p. absurd (omega (arith, p, all_running n, length-replicate n true));
    kept = λ p. omega (arith, none_in_hand m);
  }
    where
      all_active : (k : ℕ) → sum_by is_active (replicate k ready) ≡ k
      all_active zero = refl
      all_active (suc k) = omega (arith, all_active k)

      all_running : (k : ℕ) → sum_by is_running (replicate k true) ≡ k
      all_running zero = refl
      all_running (suc k) = omega (arith, all_running k)

      none_in_hand : (k : ℕ) → sum_by (in_hand weight) (replicate k ready) ≡ 0
      none_in_hand zero = refl
      none_in_hand (suc k) = omega (arith, none_in_hand k)

  pub Reach-Inv :
      (capacity : ℕ) (fails : Bool) (parser_count consumer_count n : ℕ) (s : System)
      → Reach duck options (create capacity batches fails parser_count consumer_count) n s
      → Inv weight batches s
  Reach-Inv capacity fails parser_count consumer_count =
      Reach-invariant duck options (λ _ s. Inv weight batches s)
        (create capacity batches fails parser_count consumer_count)
        (create-Inv capacity fails parser_count consumer_count) (λ _ s t m h. Move-Inv s t m h)
