-- ===== src/Pipeline/Runs.antt =====
-- The runs of the pipeline, with the number of their steps.
use rawduck.Prelude.{ℕ, suc, ◌≡◌, Bool, some}
use rawduck.Duck.{Duck}
use rawduck.Payload.{RawParseOptions}
use rawduck.Pipeline.{System, reader_step, parser_step, consumer_step}
use rawduck.Pipeline.Moves.{Move}
use rawduck.Pipeline.Moves.Steps.{reader_step-Move, parser_step-Move, consumer_step-Move}

module _ (duck : Duck) (options : RawParseOptions) (start : System) where
  -- `Reach n s`: the threads can bring the system from `start` to `s` in `n` steps.
  pub data Reach : ℕ → System → Type 0 where
    starts : Reach 0 start
    reads : (n : ℕ) (s t : System) → Reach n s → reader_step s ≡ some t → Reach (suc n) t
    parses :
        (n : ℕ) (s t : System) (i : ℕ)
        → Reach n s
        → parser_step duck options s i ≡ some t
        → Reach (suc n) t
    consumes :
        (n : ℕ) (s t : System) (i : ℕ) (throws : Bool)
        → Reach n s
        → consumer_step s i throws ≡ some t
        → Reach (suc n) t

module _ (duck : Duck) (options : RawParseOptions) where
  -- What every step keeps holds in every run.
  pub Reach-invariant :
      (P : ℕ → System → Type 0) (start : System)
      → P 0 start
      → ((n : ℕ) (s t : System) → Move duck options s t → P n s → P (suc n) t)
      → (n : ℕ) (s : System) → Reach duck options start n s
      → P n s
  Reach-invariant P start h k n s starts = h
  Reach-invariant P start h k n t (reads m s _ r e) =
      k m s t (reader_step-Move duck options s t e) (Reach-invariant P start h k m s r)
  Reach-invariant P start h k n t (parses m s _ i r e) =
      k m s t (parser_step-Move duck options s t i e) (Reach-invariant P start h k m s r)
  Reach-invariant P start h k n t (consumes m s _ i throws r e) =
      k m s t (consumer_step-Move duck options s t i throws e) (Reach-invariant P start h k m s r)
