-- ===== src/Payload/Sound.antt =====
-- What a processed payload promises to the ingestor.
use rawduck.Prelude.{◌≤◌, ◌≡◌, refl, subst, Str, All, length, Result, err, ok, and_then_ok}
use rawduck.Duck.{Duck}
use rawduck.Node.{Node, empty_node, max_columns, infer_schema}
use rawduck.Node.WellFormed.{IsWellFormed-empty_node}
use rawduck.Node.Fits.{Fits}
use rawduck.Node.Infer.{infer_schema-Fits}
use rawduck.Flatten.{FlattenResult, flatten_schema}
use rawduck.Flatten.Names.{HasDistinctNames, flatten_schema_names}
use rawduck.Flatten.Limits.{flatten_schema_limits}
use rawduck.Payload.{
  Failure, RawPayload, RawParseOptions, RawParsedPayload, parse, with_columns, with_schema, process,
}

-- Every row fits the schema tree, and the columns are few and have distinct names.
abbrev pub IsSound : Duck → RawParsedPayload → Type 0
IsSound duck parsed =
    All (λ row. Fits duck row parsed.root) parsed.payload.rows
    × HasDistinctNames parsed.columns
    × (length parsed.columns ≤ max_columns)

abbrev SoundResult : Duck → Result Failure RawParsedPayload → Type 0
SoundResult duck (err e) = Unit
SoundResult duck (ok parsed) = IsSound duck parsed

with_columns-SoundResult :
    (duck : Duck) (p : RawPayload) (root : Node) (r : FlattenResult)
    → flatten_schema root p.scalar_rows ≡ r
    → All (λ row. Fits duck row root) p.rows
    → SoundResult duck (with_columns duck p root r)
with_columns-SoundResult duck p root (FlattenResult.columns cs) e fits = (
  fits,
  flatten_schema_names root p.scalar_rows cs e,
  (flatten_schema_limits root p.scalar_rows cs e).0,
)
with_columns-SoundResult duck p root (FlattenResult.too_many_columns n) e fits = tt

with_schema-SoundResult : (duck : Duck) (p : RawPayload) → SoundResult duck (with_schema duck p)
unfolding with_schema
with_schema-SoundResult duck p =
    with_columns-SoundResult duck p (infer_schema duck empty_node p.rows)
      (flatten_schema (infer_schema duck empty_node p.rows) p.scalar_rows) refl
      (infer_schema-Fits duck empty_node p.rows IsWellFormed-empty_node)

and_then_ok-SoundResult :
    (duck : Duck) (r : Result Failure RawPayload)
    → SoundResult duck (and_then_ok r (with_schema duck))
and_then_ok-SoundResult duck (err e) = tt
and_then_ok-SoundResult duck (ok p) = with_schema-SoundResult duck p

-- Whatever the text and the options, a payload that is processed without an exception has a schema
-- tree that each of its final rows fits (after transforms and OTLP normalization), and at most ten
-- thousand columns, with names that are distinct without regard to case.
pub process-IsSound :
    (duck : Duck) (text : Str) (options : RawParseOptions) (parsed : RawParsedPayload)
    → process duck text options ≡ ok parsed
    → IsSound duck parsed
unfolding process
process-IsSound duck text options parsed e =
    subst (SoundResult duck) e (and_then_ok-SoundResult duck (parse duck text options))
