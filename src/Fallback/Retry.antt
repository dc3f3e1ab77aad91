-- ===== src/Fallback/Retry.antt =====
-- The second try of IngestFallback asks for nothing that the first was refused for.
use rawduck.Prelude.{ℕ, ◌≡◌, true, false, if◌then◌else◌, List, [], ◌∷◌, Result, err, ok}
use rawduck.Payload.{RawParsedPayload}
use rawduck.Fallback.{Statement, add_column_as, set_type_of}
use rawduck.Fallback.Batch.{SqlFailure, using_refused, Batch, FallbackState, after_batch}

-- The statements without USING.
abbrev pub plain_of : List Statement → List Statement
plain_of [] = []
plain_of (add_column_as name t ∷ ss) = add_column_as name t ∷ plain_of ss
plain_of (set_type_of name t using ∷ ss) =
    if using then plain_of ss else set_type_of name t using ∷ plain_of ss

module _ (s : FallbackState) (parsed : RawParsedPayload) where
  -- What the second batch leaves, by the catalog's answer to it.
  abbrev pub IsAfterSecond : Result SqlFailure ℕ → Result SqlFailure FallbackState → Type 0
  IsAfterSecond (ok n) r = r ≡ ok (after_batch s false parsed n)
  IsAfterSecond (err e) r = r ≡ err e

  -- What IngestFallback leaves, by the catalog's answers to the two batches.
  abbrev pub IsAfter :
      Result SqlFailure ℕ → Result SqlFailure ℕ → Result SqlFailure FallbackState → Type 0
  IsAfter (ok n) second r = r ≡ ok (after_batch s true parsed n)
  IsAfter (err using_refused) second r = IsAfterSecond second r
  IsAfter (err e) second r = r ≡ err e
