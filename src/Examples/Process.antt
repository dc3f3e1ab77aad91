-- ===== src/Examples/Process.antt =====
-- A text that is read as one number, and a value that is kept.
use rawduck.Prelude.{◌≡◌, refl, none, List, [], ◌∷◌, codes, true, false, ok, inr}
use rawduck.Json.{Value, uint, str, obj, field, end}
use rawduck.Kind.{join_scalar_kinds, bigint, timestamp}
use rawduck.Node.{
  Node, node, scalar, no_child, no_element, empty_node, merge_container, with_child,
  get_or_create_child, count, scan, update_at, push_child, infer_schema, merge_row, merge_value,
  merge_scalar,
}
use rawduck.Node.Sniff.{sniff_scalar_kind, sniff_string}
use rawduck.Node.Fits.{Fits}
use rawduck.Fill.Keeps.{IsKept, Fits-kept}
use rawduck.SqlType.{LogicalType, node_to_type}
use rawduck.Flatten.{RawColumn, columns, flatten_schema, flatten_into, disambiguate, first_unseen}
use rawduck.Append.{assign_row, value_of}
use rawduck.Append.Routed.{occurrences, last_of}
use rawduck.Append.Routes.{assign_row-columns}
use rawduck.Payload.{
  RawParseOptions, RawParsedPayload, process, parse, check_and_explode, check_row_uniformity,
  with_schema,
}
use rawduck.Payload.Sound.{IsSound, process-IsSound}
use rawduck.Examples.Ducks.{example_duck}

abbrev pub plain : RawParseOptions
plain = record { ignore_errors = false; explode_path = []; otlp = false }

abbrev pub parsed : RawParsedPayload
parsed = record {
  payload = record {
    rows = uint 1 ∷ [];
    scalar_rows = true;
    parse_errors = 0;
    otlp_semantics = false;
  };
  root = node scalar bigint no_child [] no_element;
  columns = record { name = codes "value"; path = []; type = LogicalType.bigint } ∷ [];
}

processed : process example_duck (codes "1") plain ≡ ok parsed
unfolding process parse check_and_explode check_row_uniformity with_schema infer_schema merge_row
    merge_value merge_scalar sniff_scalar_kind flatten_schema node_to_type
processed = refl

process-IsSound_example : IsSound example_duck parsed
process-IsSound_example = process-IsSound example_duck (codes "1") plain parsed processed

-- A date in a column of timestamps.
abbrev stamped : Node
stamped = node scalar timestamp no_child [] no_element

date-Fits : Fits example_duck (str (codes "2024-01-15")) stamped
unfolding sniff_scalar_kind sniff_string
date-Fits = inr (refl, refl)

Fits-kept_example : IsKept example_duck (str (codes "2024-01-15")) (node_to_type stamped)
Fits-kept_example = Fits-kept example_duck (str (codes "2024-01-15")) stamped refl date-Fits

-- The key "a" stands twice, and another key between.
abbrev nested_row : Value
nested_row = obj (
    field (codes "a") (obj (field (codes "b") (uint 1) end))
      (field (codes "z") (uint 2) (field (codes "a") (obj (field (codes "b") (uint 3) end)) end)))

abbrev flat : List RawColumn
flat =
    record { name = codes "a.b"; path = codes "a" ∷ codes "b" ∷ []; type = LogicalType.bigint }
    ∷ record { name = codes "z"; path = codes "z" ∷ []; type = LogicalType.bigint }
    ∷ []

inferred :
    flatten_schema (infer_schema example_duck empty_node (nested_row ∷ [])) false ≡ columns flat
unfolding infer_schema merge_row merge_value merge_scalar sniff_scalar_kind flatten_schema
    node_to_type merge_container with_child get_or_create_child count scan update_at push_child
    flatten_into disambiguate first_unseen join_scalar_kinds
inferred = refl

assign_row-columns_example :
    value_of (assign_row flat (infer_schema example_duck empty_node (nested_row ∷ [])) nested_row) 0
    ≡ last_of none (occurrences (codes "a" ∷ codes "b" ∷ []) nested_row)
assign_row-columns_example =
    assign_row-columns example_duck (nested_row ∷ []) false flat inferred 0
      (codes "a" ∷ codes "b" ∷ []) refl nested_row

occurrences_run : occurrences (codes "a" ∷ codes "b" ∷ []) nested_row ≡ uint 1 ∷ uint 3 ∷ []
unfolding occurrences
occurrences_run = refl
