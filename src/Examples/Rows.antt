-- ===== src/Examples/Rows.antt =====
-- Exploding, normalizing and parsing small payloads.
use rawduck.Prelude.{
  ℕ, ◌<◌, ◌==◌, ◌≡◌, refl, List, [], ◌∷◌, codes, some, none, false, arith, length, if◌then◌else◌,
}
use rawduck.Json.{Fields, uint, str, obj, arr, end, field, nil, cons}
use rawduck.Explode.{
  explode_into, add_envelopes, add_object_fields, add_field, Envelope, get_field, emit_merged_row,
  explode_rows,
}
use rawduck.Explode.Merge.{or_else, inherited, emit_merged_row-lookup}
use rawduck.Otlp.{
  height, attribute, otlp_is_key_value_array, process_member, otlp_unwrap_any_value,
  spread_attributes, add_attribute, add_new, otlp_normalize_value, otlp_normalize_object,
  normalize_shallow,
}
use rawduck.Otlp.Ids.{base64_decode, otlp_id_width}
use rawduck.Otlp.Base64.{base64_encode, base64_decode-base64_encode}
use rawduck.Otlp.Members.{members_write, otlp_normalize_object-lookup}
use rawduck.Payload.{parse_lines, empty_payload}
use rawduck.Payload.Lines.{read_lines, first_bad, refused_at, parse_lines-reads}
use rawduck.Examples.Ducks.{example_duck}

-- {"group": 7, "events": [{"id": 1}, {"id": 2, "group": 3}]}
abbrev group : Fields
group = field (codes "group") (uint 7) (
    field (codes "events")
      (arr (
        cons (obj (field (codes "id") (uint 1) end))
          (cons (obj (field (codes "id") (uint 2) (field (codes "group") (uint 3) end))) nil)))
      end)

abbrev envelope : Envelope
envelope = record { object = group; descended_key = codes "events" }

emit_merged_row-lookup_example :
    (merged : Fields) × ((emit_merged_row (obj (field (codes "id") (uint 1) end)) (envelope ∷ [])
        ≡ obj merged)
      × (get_field merged (codes "group")
          ≡ or_else
              (get_field (field (codes "id") (uint 1) end) (codes "group"))
              (inherited (envelope ∷ []) (codes "group"))))
emit_merged_row-lookup_example =
    emit_merged_row-lookup (field (codes "id") (uint 1) end) (envelope ∷ []) (codes "group")

-- Two rows, and the second keeps its own group.
explode_runs :
    explode_rows (codes "events" ∷ []) (obj group ∷ [])
    ≡ obj (field (codes "id") (uint 1) (field (codes "group") (uint 7) end))
      ∷ obj (field (codes "id") (uint 2) (field (codes "group") (uint 3) end))
      ∷ []
unfolding explode_rows explode_into get_field emit_merged_row add_envelopes add_object_fields
    add_field
explode_runs = refl

abbrev span : List ℕ
span = 0 ∷ 255 ∷ 16 ∷ 1 ∷ 2 ∷ 3 ∷ 4 ∷ 5 ∷ []

base64_decode-base64_encode_example : base64_decode (base64_encode span) ≡ some span
base64_decode-base64_encode_example =
    base64_decode-base64_encode 0 (255 ∷ 16 ∷ 1 ∷ 2 ∷ 3 ∷ 4 ∷ 5 ∷ []) (ground arith)

span_width : (otlp_id_width (codes "spanId") == 0) ≡ false
unfolding otlp_id_width
span_width = refl

length-span : length span ≡ otlp_id_width (codes "spanId")
unfolding otlp_id_width
length-span = refl

-- {"attributes": [{"key": "a", "value": {"stringValue": "x"}}], "a": 5}
abbrev spanned : Fields
spanned =
    field (codes "attributes")
      (arr (
        cons
          (obj (
            field (codes "key") (str (codes "a")) (
              field (codes "value") (obj (field (codes "stringValue") (str (codes "x")) end)) end)))
          nil))
      (field (codes "a") (uint 5) end)

tall_enough : height (obj spanned) < 9
unfolding height
tall_enough = ground arith

taller : height (obj spanned) < 20
unfolding height
taller = ground arith

-- The attribute comes first, and the member of its name is dropped.
normalize_runs :
    otlp_normalize_value example_duck 9 (obj spanned) [] 0
    ≡ obj (field (codes "a") (str (codes "x")) end)
unfolding otlp_normalize_value normalize_shallow otlp_unwrap_any_value otlp_normalize_object
    process_member add_new get_field otlp_is_key_value_array spread_attributes add_attribute
    attribute add_field
normalize_runs = refl

otlp_normalize_object-lookup_example :
    get_field
      (otlp_normalize_object example_duck (otlp_normalize_value example_duck 9) end spanned 1)
      (codes "a")
    ≡ or_else
        (get_field end (codes "a"))
        (members_write example_duck (otlp_normalize_value example_duck 9) spanned 1 (codes "a"))
otlp_normalize_object-lookup_example =
    otlp_normalize_object-lookup example_duck (otlp_normalize_value example_duck 9) end spanned 1
      (codes "a")

parse_lines-reads_example :
    parse_lines example_duck false (codes "1" ∷ codes " " ∷ codes "{" ∷ []) 0 empty_payload
    ≡ refused_at example_duck
        (if false then none else first_bad example_duck (codes "1" ∷ codes " " ∷ codes "{" ∷ []) 0)
        (read_lines example_duck (codes "1" ∷ codes " " ∷ codes "{" ∷ []) empty_payload)
parse_lines-reads_example =
    parse_lines-reads example_duck false (codes "1" ∷ codes " " ∷ codes "{" ∷ []) 0 empty_payload
