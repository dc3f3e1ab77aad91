-- ===== src/Payload.antt =====
-- RawPayload and RawParsedPayload (src/raw_json.cpp): parsing a payload as one document or line by
-- line, the uniformity of its rows, the explode and the schema of the batch. The documents that own
-- the rows and the pools that back them are memory only, so a payload is its rows and its flags.
pub mod Lines
pub mod Records
pub mod Uniform
pub mod Sound
use rawduck.Prelude.{
  ℕ, zero, suc, ◌+◌, Str, codes, str_eq, length, ◌==◌, leb, ltb, Bool, true, false, not, ◌&&◌, ◌||◌,
  Option, none, some, List, [], ◌∷◌, ◌++◌, if◌then◌else◌, Result, err, ok, and_then_ok,
}
use rawduck.Json.{Value, Items, Fields, obj, arr, end, field, items, is_obj}
use rawduck.Duck.{Duck}
use rawduck.Node.{Node, empty_node, infer_schema}
use rawduck.Flatten.{RawColumn, FlattenResult, flatten_schema, is_empty}
use rawduck.Explode.{explode_rows}
use rawduck.Otlp.{
  otlp_normalize_value, otlp_normalize_object, otlp_unwrap_any_value, otlp_is_key_value_array,
  height,
}

-- The InvalidInputExceptions of this file.
pub data Failure : Type 0 where
  mixed_rows invalid_json : Failure
  invalid_line : ℕ → Failure
  too_many_columns : ℕ → Failure
  -- The row is itself a list wrapper or a KeyValue list: the code then moves members out of a row that it
  -- keeps, and the model does not follow it.
  untracked_row : Failure

pub record RawParseOptions : Type 0 where
  pub ignore_errors : Bool
  pub explode_path : List Str
  pub otlp : Bool

pub record RawPayload : Type 0 where
  pub rows : List Value
  pub scalar_rows : Bool
  pub parse_errors : ℕ
  pub otlp_semantics : Bool

abbrev pub empty_payload : RawPayload
empty_payload = record { rows = []; scalar_rows = false; parse_errors = 0; otlp_semantics = false }

abbrev pub add_rows : RawPayload → List Value → RawPayload
add_rows p more = record {
  rows = p.rows ++ more;
  scalar_rows = p.scalar_rows;
  parse_errors = p.parse_errors;
  otlp_semantics = p.otlp_semantics;
}

abbrev pub add_parse_error : RawPayload → RawPayload
add_parse_error p = record {
  rows = p.rows;
  scalar_rows = p.scalar_rows;
  parse_errors = suc p.parse_errors;
  otlp_semantics = p.otlp_semantics;
}

abbrev pub set_rows : RawPayload → List Value → Bool → RawPayload
set_rows p rows scalar_rows = record {
  rows = rows;
  scalar_rows = scalar_rows;
  parse_errors = p.parse_errors;
  otlp_semantics = p.otlp_semantics;
}

abbrev pub set_otlp : RawPayload → Bool → RawPayload
set_otlp p otlp = record {
  rows = p.rows;
  scalar_rows = p.scalar_rows;
  parse_errors = p.parse_errors;
  otlp_semantics = otlp;
}

-- CollectRows
abbrev pub collect_rows : Value → List Value
collect_rows (arr vs) = items vs
collect_rows root = root ∷ []

abbrev pub count_objects : List Value → ℕ
count_objects [] = 0
count_objects (row ∷ rows) = if is_obj row then suc (count_objects rows) else count_objects rows

-- CheckRowUniformity, with the flag that it sets.
unfoldable pub check_row_uniformity : List Value → Result Failure Bool
check_row_uniformity rows =
    if not (count_objects rows == 0) && not (count_objects rows == length rows)
    then err mixed_rows
    else ok (not (is_empty rows) && count_objects rows == 0)

-- payload.find('\n', pos) and substr: the text up to the next newline, and what follows it.
unfoldable pub split_lines : Str → List Str
split_lines [] = [] ∷ []
split_lines (c ∷ s) =
    let rest = split_lines s in
    if c == b'\n'
    then [] ∷ rest
    else elim rest [ [] ↦ (c ∷ []) ∷ [] | line ∷ lines ↦ (c ∷ line) ∷ lines ]

-- A lone "arrayValue" or "kvlistValue" member.
abbrev pub is_list_wrapper : Fields → Bool
is_list_wrapper (field name inner end) =
    str_eq name (codes "arrayValue") || str_eq name (codes "kvlistValue")
is_list_wrapper _ = false

pub record RawParsedPayload : Type 0 where
  pub payload : RawPayload
  pub root : Node
  pub columns : List RawColumn

module _ (duck : Duck) where
  abbrev pub is_blank : Str → Bool
  is_blank [] = true
  is_blank (c ∷ s) = duck.is_space c && is_blank s

  -- One round of the line loop of RawPayload::Parse. A line is one row, even when it is an array.
  unfoldable pub parse_line : Bool → Str → ℕ → RawPayload → Result Failure RawPayload
  parse_line ignore_errors line number p = if is_blank line then ok p else elim (duck.read line) [
    | some v ↦ ok (add_rows p (v ∷ []))
    | none ↦ if ignore_errors then ok (add_parse_error p) else err (invalid_line number)
  ]

  -- The loop; `number` counts the lines before it.
  unfoldable pub parse_lines : Bool → List Str → ℕ → RawPayload → Result Failure RawPayload
  parse_lines ignore_errors [] number p = ok p
  parse_lines ignore_errors (line ∷ lines) number p =
      and_then_ok (parse_line ignore_errors line (suc number) p)
        (parse_lines ignore_errors lines (suc number))

  -- A row as Explode leaves it: the value that OtlpNormalizeValue returns is dropped there, so only
  -- what it changes in place remains.
  unfoldable pub normalize_row : Value → Result Failure Value
  normalize_row (obj fs) = elim (otlp_unwrap_any_value duck (λ v key depth. v) fs) [
    | some unwrapped ↦ if is_list_wrapper fs then err untracked_row else ok (obj fs)
    | none ↦ ok (otlp_normalize_value duck (suc (height (obj fs))) (obj fs) [] 0)
  ]
  normalize_row (arr vs) =
      if otlp_is_key_value_array (arr vs)
      then err untracked_row
      else ok (otlp_normalize_value duck (suc (height (arr vs))) (arr vs) [] 0)
  normalize_row v = ok v

  unfoldable pub normalize_rows : List Value → Result Failure (List Value)
  normalize_rows [] = ok []
  normalize_rows (row ∷ rows) =
      and_then_ok (normalize_row row) (λ v. and_then_ok (normalize_rows rows) (λ vs. ok (v ∷ vs)))

  -- RawPayload::Explode
  unfoldable pub explode : RawPayload → List Str → Result Failure RawPayload
  explode p path =
      and_then_ok
        (if p.otlp_semantics
          then normalize_rows (explode_rows path p.rows)
          else ok (explode_rows path p.rows))
        (λ rows.
          and_then_ok (check_row_uniformity rows) (λ scalar_rows. ok (set_rows p rows scalar_rows)))

  -- The end of RawPayload::Parse, and the beginning of RawPayloadFinalize.
  unfoldable pub check_and_explode : RawPayload → RawParseOptions → Result Failure RawPayload
  check_and_explode p options = and_then_ok (check_row_uniformity p.rows) (λ scalar_rows.
      if is_empty options.explode_path
      then ok (set_rows p p.rows scalar_rows)
      else explode (set_otlp (set_rows p p.rows scalar_rows) options.otlp) options.explode_path)

  -- RawPayload::Parse, of an empty payload
  unfoldable pub parse : Str → RawParseOptions → Result Failure RawPayload
  parse text options =
      and_then_ok
        (elim (duck.read text) [
          | some root ↦ ok (add_rows empty_payload (collect_rows root))
          | none ↦ parse_lines options.ignore_errors (split_lines text) 0 empty_payload
        ])
        (λ p. check_and_explode p options)

  -- RawPayloadAddDocument
  unfoldable pub add_document : RawPayload → Str → Bool → Result Failure RawPayload
  add_document p text ignore_errors = elim (duck.read text) [
    | none ↦ if ignore_errors then ok (add_parse_error p) else err invalid_json
    | some root ↦ ok (add_rows p (collect_rows root))
  ]

  abbrev pub with_columns : RawPayload → Node → FlattenResult → Result Failure RawParsedPayload
  with_columns p root (FlattenResult.columns cs) =
      ok (record { payload = p; root = root; columns = cs })
  with_columns p root (FlattenResult.too_many_columns n) = err (too_many_columns n)

  -- InferSchema and FlattenSchema, of a payload whose rows are final.
  unfoldable pub with_schema : RawPayload → Result Failure RawParsedPayload
  with_schema p =
      let root = infer_schema duck empty_node p.rows in
      with_columns p root (flatten_schema root p.scalar_rows)

  -- RawPayloadFinalize
  unfoldable pub finalize : RawPayload → RawParseOptions → Result Failure RawParsedPayload
  finalize p options = and_then_ok (check_and_explode p options) with_schema

  -- RawParsedPayload::Process
  unfoldable pub process : Str → RawParseOptions → Result Failure RawParsedPayload
  process text options = and_then_ok (parse text options) with_schema
