-- ===== src/Otlp.antt =====
-- OTLP normalization of the exploded rows: OtlpNormalizeValue and its helpers (src/raw_json.cpp).
-- A mutable value that is changed in place is the value that the function returns. `normalize` is the
-- call of OtlpNormalizeValue on a smaller value, so that each helper is a function of its own.
pub mod Ids
pub mod Base64
pub mod HexIds
pub mod Fuel
pub mod Members
use rawduck.Prelude.{
  ℕ, zero, suc, ◌+◌, ◌-◌, max, Str, codes, str_eq, length, drop, ltb, leb, ◌==◌, Bool, true, false,
  ◌&&◌, ◌||◌, Option, none, some, if◌then◌else◌,
}
use rawduck.Json.{Value, Items, Fields, obj, arr, str, sint, nil, cons, end, field}
use rawduck.Duck.{Duck}
use rawduck.Node.{max_nesting}
use rawduck.Explode.{get_field, add_field}
use rawduck.Otlp.Ids.{otlp_id_width, normalize_id}

abbrev pub has_key : Value → Bool
has_key (obj fs) = elim (get_field fs (codes "key")) [ none ↦ false | some v ↦ true ]
has_key _ = false

abbrev pub all_have_key : Items → Bool
all_have_key nil = true
all_have_key (cons v vs) = has_key v && all_have_key vs

-- OtlpIsKeyValueArray
unfoldable pub otlp_is_key_value_array : Value → Bool
otlp_is_key_value_array (arr (cons v vs)) = all_have_key (cons v vs)
otlp_is_key_value_array _ = false

-- "intValue": a string that is an int64 becomes that number.
abbrev pub int_value : Duck → Value → Value
int_value duck (str s) = elim (duck.cast_int64 s) [ none ↦ str s | some n ↦ sint n ]
int_value duck inner = inner

abbrev pub values_member : Value → Option Value
values_member (obj fs) = get_field fs (codes "values")
values_member _ = none

abbrev pub is_plain_any_value : Str → Bool
is_plain_any_value name =
    (str_eq name (codes "stringValue") || str_eq name (codes "boolValue"))
    || (str_eq name (codes "doubleValue") || str_eq name (codes "bytesValue"))

-- "UnixNano" ends the key.
abbrev pub is_nano_key : Str → Bool
is_nano_key key = leb 8 (length key) && str_eq (drop (length key - 8) key) (codes "UnixNano")

-- The string branches at the end of OtlpNormalizeValue.
unfoldable pub normalize_string : Duck → Str → Str → Value
normalize_string duck s key =
    if otlp_id_width key == 0
    then if is_nano_key key
      then elim (duck.cast_int64 s) [ none ↦ str s | some n ↦ sint n ]
      else str s
    else str (normalize_id (otlp_id_width key) s)

-- The `yyjson_mut_obj_getn` test and `yyjson_mut_obj_add`: the first writer wins.
unfoldable pub add_new : Fields → Str → Value → Fields
add_new object key v = elim (get_field object key) [
  | none ↦ add_field object key v
  | some w ↦ object
]

abbrev name_and_value : Option Value → Option Value → Option (Str × Value)
name_and_value (some (str name)) (some value) = some (name, value)
name_and_value _ _ = none

-- The "key" and the "value" of a KeyValue element, where the key is a string and the value is there.
unfoldable pub attribute : Fields → Option (Str × Value)
attribute element =
    name_and_value (get_field element (codes "key")) (get_field element (codes "value"))

abbrev unwrapped_or : Option Value → Value → Value
unwrapped_or (some unwrapped) v = unwrapped
unwrapped_or none v = v

module _ (duck : Duck) (normalize : Value → Str → ℕ → Value) where
  -- OtlpUnwrapAnyValue, for an object
  unfoldable pub otlp_unwrap_any_value : Fields → Option Value
  otlp_unwrap_any_value (field name inner end) =
      if is_plain_any_value name
      then some inner
      else if str_eq name (codes "intValue")
      then some (int_value duck inner)
      else if str_eq name (codes "arrayValue") || str_eq name (codes "kvlistValue")
      then elim (values_member inner) [
        | none ↦ none
        | some values ↦ some (
            normalize values
              (if str_eq name (codes "kvlistValue") then codes "attributes" else codes "") 0)
      ]
      else none
  otlp_unwrap_any_value _ = none

  -- A KeyValue element of a spread list.
  unfoldable pub add_attribute : Fields → Value → ℕ → Fields
  add_attribute object (obj element) depth = elim (attribute element) [
    | none ↦ object
    | some kv ↦ add_new object kv.0 (normalize kv.1 (codes "") (depth + 1))
  ]
  add_attribute object _ depth = object

  unfoldable pub spread_attributes : Fields → Items → ℕ → Fields
  spread_attributes object nil depth = object
  spread_attributes object (cons element elements) depth =
      spread_attributes (add_attribute object element depth) elements depth

  -- process_member
  unfoldable pub process_member : Fields → Str → Value → ℕ → Fields
  process_member object key (arr vs) depth =
      if str_eq key (codes "attributes") && otlp_is_key_value_array (arr vs)
      then spread_attributes object vs depth
      else add_new object key (normalize (arr vs) key (depth + 1))
  process_member object key v depth = add_new object key (normalize v key (depth + 1))

  -- OtlpNormalizeObject: the members in order, into an object that starts empty.
  unfoldable pub otlp_normalize_object : Fields → Fields → ℕ → Fields
  otlp_normalize_object object end depth = object
  otlp_normalize_object object (field key v fs) depth =
      otlp_normalize_object (process_member object key v depth) fs depth

  -- A KeyValue list outside "attributes" becomes an object; here a repeated name is added again.
  unfoldable pub convert_element : Fields → Value → ℕ → Fields
  convert_element converted (obj element) depth = elim (attribute element) [
    | none ↦ converted
    | some kv ↦ add_field converted kv.0 (normalize kv.1 (codes "") (depth + 1))
  ]
  convert_element converted _ depth = converted

  unfoldable pub convert_list : Fields → Items → ℕ → Fields
  convert_list converted nil depth = converted
  convert_list converted (cons element elements) depth =
      convert_list (convert_element converted element depth) elements depth

  unfoldable pub normalize_items : Items → ℕ → Items
  normalize_items nil depth = nil
  normalize_items (cons v vs) depth =
      cons (normalize v (codes "") (depth + 1)) (normalize_items vs depth)

  -- OtlpNormalizeValue below the depth limit
  unfoldable pub normalize_shallow : Value → Str → ℕ → Value
  normalize_shallow (obj fs) key depth =
      unwrapped_or (otlp_unwrap_any_value fs) (obj (otlp_normalize_object end fs (depth + 1)))
  normalize_shallow (arr vs) key depth =
      if otlp_is_key_value_array (arr vs)
      then obj (convert_list end vs depth)
      else arr (normalize_items vs depth)
  normalize_shallow (str s) key depth = normalize_string duck s key
  normalize_shallow v key depth = v

-- OtlpNormalizeValue, with fuel for the recursion, which the depth limit alone does not bound: an
-- unwrapped list starts again at depth 0.
unfoldable pub otlp_normalize_value : Duck → ℕ → Value → Str → ℕ → Value
otlp_normalize_value duck zero v key depth = v
otlp_normalize_value duck (suc fuel) v key depth =
    if ltb max_nesting depth
    then v
    else normalize_shallow duck (otlp_normalize_value duck fuel) v key depth

unfoldable mutual
  pub height : Value → ℕ
  height (arr vs) = suc (items_height vs)
  height (obj fs) = suc (fields_height fs)
  height v = 0

  pub items_height : Items → ℕ
  items_height nil = 0
  items_height (cons v vs) = max (height v) (items_height vs)

  pub fields_height : Fields → ℕ
  fields_height end = 0
  fields_height (field k v fs) = max (height v) (fields_height fs)
