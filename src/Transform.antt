-- ===== src/Transform.antt =====
-- Ingest-time transforms: the built-in ones and ResolveBuiltinTransform, RawTransformIsOtlp and
-- RawExplodeOptions (src/raw_json.cpp), and the registry of src/raw_transforms.cpp with
-- ResolveTransform, raw_transform_define() and raw_transforms(). The registry is a map from lower-case
-- names to paths.
pub mod Registry
use rawduck.Prelude.{
  Str, codes, lower, str_eq, take, Bool, true, false, not, ◌&&◌, Option, none, some, List, [], ◌∷◌,
  ◌++◌, map, if◌then◌else◌, Result, err, ok,
}
use rawduck.Duck.{Duck}
use rawduck.Flatten.{is_empty}
use rawduck.Payload.{RawParseOptions}

pub data TransformFailure : Type 0 where
  both_given unknown_transform empty_argument redefines_builtin : TransformFailure

abbrev pub Registry : Type 0
Registry = List (Str × Str)

-- RawBuiltinTransforms
abbrev pub raw_builtin_transforms : Registry
raw_builtin_transforms =
    (codes "cloudwatch-logs", codes "logEvents")
    ∷ (codes "cloudtrail", codes "Records")
    ∷ (codes "firehose", codes "records")
    ∷ (codes "otlp-traces", codes "resourceSpans.scopeSpans.spans")
    ∷ (codes "otlp-logs", codes "resourceLogs.scopeLogs.logRecords")
    ∷ (codes "otlp-metrics", codes "resourceMetrics.scopeMetrics.metrics")
    ∷ []

unfoldable pub find_transform : Registry → Str → Option Str
find_transform [] name = none
find_transform ((n, path) ∷ rest) name =
    if str_eq n name then some path else find_transform rest name

-- transforms[name] = path
unfoldable pub set_transform : Registry → Str → Str → Registry
set_transform [] name path = (name, path) ∷ []
set_transform ((n, p) ∷ rest) name path =
    if str_eq n name then (n, path) ∷ rest else (n, p) ∷ set_transform rest name path

-- ResolveBuiltinTransform
unfoldable pub resolve_builtin_transform : Str → Option Str
resolve_builtin_transform name = find_transform raw_builtin_transforms (lower name)

-- RawTransformIsOtlp
abbrev pub raw_transform_is_otlp : Str → Bool
raw_transform_is_otlp name = str_eq (take 5 (lower name)) (codes "otlp-")

abbrev pub found : Option Str → Result TransformFailure Str
found none = err unknown_transform
found (some path) = ok path

abbrev pub registered : Registry → Str → Result TransformFailure Str
registered registry transform = found (find_transform registry (lower transform))

abbrev pub builtin_or : Option Str → Result TransformFailure Str → Result TransformFailure Str
builtin_or none entry = entry
builtin_or (some path) entry = ok path

module _ (duck : Duck) where
  -- RawExplodeOptions, with the `otlp` flag that ResolveTransform then sets
  abbrev pub raw_explode_options : Str → Bool → RawParseOptions
  raw_explode_options path otlp = record {
    ignore_errors = false;
    explode_path = if is_empty path then [] else duck.split path b'.';
    otlp = otlp;
  }

  abbrev pub explode_ok :
      Bool → Result TransformFailure Str → Result TransformFailure RawParseOptions
  explode_ok otlp (err e) = err e
  explode_ok otlp (ok path) = ok (raw_explode_options path otlp)

  -- ResolveTransform
  unfoldable pub resolve_transform : Registry → Str → Str → Result TransformFailure RawParseOptions
  resolve_transform registry transform explode =
      if is_empty transform
      then explode_ok false (ok explode)
      else if not (is_empty explode)
      then err both_given
      else explode_ok (raw_transform_is_otlp transform)
          (builtin_or (resolve_builtin_transform transform) (registered registry transform))

-- raw_transform_define(name, path), for one row
unfoldable pub raw_transform_define : Registry → Str → Str → Result TransformFailure Registry
raw_transform_define registry name path =
    if is_empty name
    then err empty_argument
    else if is_empty path
    then err empty_argument
    else elim (resolve_builtin_transform name) [
      | some builtin_path ↦ err redefines_builtin
      | none ↦ ok (set_transform registry (lower name) path)
    ]

-- The rows of raw_transforms(): name, path and whether it is built in.
abbrev pub transform_rows : Bool → Registry → List (Str × (Str × Bool))
transform_rows builtin [] = []
transform_rows builtin ((n, p) ∷ rest) = (n, (p, builtin)) ∷ transform_rows builtin rest

unfoldable pub raw_transforms : Registry → List (Str × (Str × Bool))
raw_transforms registry =
    transform_rows true raw_builtin_transforms ++ transform_rows false registry
