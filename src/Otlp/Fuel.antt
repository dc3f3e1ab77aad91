-- ===== src/Otlp/Fuel.antt =====
-- Fuel above the height of a value is enough: more of it changes nothing.
use rawduck.Prelude.{
  ℕ, zero, suc, ◌+◌, ◌≤◌, ◌<◌, ◌≡◌, refl, ap, inl, inr, Str, codes, str_eq, Option, none, some,
  Option-cases, Bool-cases, if◌then◌else◌, arith,
}
use rawduck.Json.{Value, Items, Fields, obj, arr, str, nil, cons, end, field}
use rawduck.Duck.{Duck}
use rawduck.Explode.{get_field}
use rawduck.Otlp.{
  values_member, attribute, otlp_unwrap_any_value, add_attribute, spread_attributes, process_member,
  otlp_normalize_object, convert_element, convert_list, normalize_items, normalize_shallow,
  otlp_normalize_value, height, items_height, fields_height, name_and_value,
}

abbrev option_height : Option Value → ℕ
option_height none = 0
option_height (some v) = height v

abbrev pair_height : Option (Str × Value) → ℕ
pair_height none = 0
pair_height (some kv) = height kv.1

option_height-get_field :
    (fs : Fields) (k : Str) → option_height (get_field fs k) ≤ fields_height fs
unfolding get_field fields_height
option_height-get_field end k = omega arith
option_height-get_field (field j w fs) k = elim (Bool-cases (str_eq j k)) [
  | inl b ↦ rw b (omega arith)
  | inr b ↦ rw b (omega (arith, option_height-get_field fs k))
]

option_height-values_member : (v : Value) → option_height (values_member v) ≤ height v
unfolding height
option_height-values_member (obj fs) = omega (arith, option_height-get_field fs (codes "values"))
option_height-values_member Value.null = omega arith
option_height-values_member (Value.bool b) = omega arith
option_height-values_member (Value.uint n) = omega arith
option_height-values_member (Value.sint n) = omega arith
option_height-values_member (Value.real n) = omega arith
option_height-values_member (str n) = omega arith
option_height-values_member (arr n) = omega arith

pair_height-name_and_value :
    (k v : Option Value) → pair_height (name_and_value k v) ≤ option_height v
pair_height-name_and_value none v = omega arith
pair_height-name_and_value (some k) none = ground arith
pair_height-name_and_value (some (str n)) (some v) = ground arith
pair_height-name_and_value (some Value.null) (some v) = ground arith
pair_height-name_and_value (some (Value.bool b)) (some v) = ground arith
pair_height-name_and_value (some (Value.uint b)) (some v) = ground arith
pair_height-name_and_value (some (Value.sint b)) (some v) = ground arith
pair_height-name_and_value (some (Value.real b)) (some v) = ground arith
pair_height-name_and_value (some (arr b)) (some v) = ground arith
pair_height-name_and_value (some (obj b)) (some v) = ground arith

pair_height-attribute : (fs : Fields) → pair_height (attribute fs) ≤ fields_height fs
unfolding attribute
pair_height-attribute fs = omega (
  arith,
  pair_height-name_and_value (get_field fs (codes "key")) (get_field fs (codes "value")),
  option_height-get_field fs (codes "value"),
)

-- Two recursive calls that agree below a height.
module _ (duck : Duck) (f g : Value → Str → ℕ → Value) (n : ℕ)
    (same : (v : Value) (k : Str) (d : ℕ) → height v < n → f v k d ≡ g v k d) where
  add_attribute-same :
      (object : Fields) (v : Value) (d : ℕ)
      → height v < n
      → add_attribute duck f object v d ≡ add_attribute duck g object v d
  unfolding add_attribute height
  add_attribute-same object (obj element) d h = elim (Option-cases (attribute element)) [
    | inl e ↦ rw (e, add_attribute) refl
    | inr (kv, e) ↦
        rw
          (
            e,
            add_attribute,
            same kv.1 (codes "") (d + 1)
                (omega (arith, pair_height-attribute element, ap pair_height e)),
          )
          refl
  ]
  add_attribute-same object Value.null d h = refl
  add_attribute-same object (Value.bool b) d h = refl
  add_attribute-same object (Value.uint b) d h = refl
  add_attribute-same object (Value.sint b) d h = refl
  add_attribute-same object (Value.real b) d h = refl
  add_attribute-same object (str b) d h = refl
  add_attribute-same object (arr b) d h = refl

  convert_element-same :
      (object : Fields) (v : Value) (d : ℕ)
      → height v < n
      → convert_element duck f object v d ≡ convert_element duck g object v d
  unfolding convert_element height
  convert_element-same object (obj element) d h = elim (Option-cases (attribute element)) [
    | inl e ↦ rw (e, convert_element) refl
    | inr (kv, e) ↦
        rw
          (
            e,
            convert_element,
            same kv.1 (codes "") (d + 1)
                (omega (arith, pair_height-attribute element, ap pair_height e)),
          )
          refl
  ]
  convert_element-same object Value.null d h = refl
  convert_element-same object (Value.bool b) d h = refl
  convert_element-same object (Value.uint b) d h = refl
  convert_element-same object (Value.sint b) d h = refl
  convert_element-same object (Value.real b) d h = refl
  convert_element-same object (str b) d h = refl
  convert_element-same object (arr b) d h = refl

  spread_attributes-same :
      (object : Fields) (vs : Items) (d : ℕ)
      → items_height vs < n
      → spread_attributes duck f object vs d ≡ spread_attributes duck g object vs d
  unfolding spread_attributes items_height
  spread_attributes-same object nil d h = refl
  spread_attributes-same object (cons v vs) d h =
      rw (add_attribute-same object v d (omega arith))
        (spread_attributes-same (add_attribute duck g object v d) vs d (omega arith))

  convert_list-same :
      (object : Fields) (vs : Items) (d : ℕ)
      → items_height vs < n
      → convert_list duck f object vs d ≡ convert_list duck g object vs d
  unfolding convert_list items_height
  convert_list-same object nil d h = refl
  convert_list-same object (cons v vs) d h =
      rw (convert_element-same object v d (omega arith))
        (convert_list-same (convert_element duck g object v d) vs d (omega arith))

  normalize_items-same :
      (vs : Items) (d : ℕ)
      → items_height vs < n
      → normalize_items duck f vs d ≡ normalize_items duck g vs d
  unfolding normalize_items items_height
  normalize_items-same nil d h = refl
  normalize_items-same (cons v vs) d h =
      rw (same v (codes "") (d + 1) (omega arith), normalize_items-same vs d (omega arith)) refl

  process_member-same :
      (object : Fields) (k : Str) (v : Value) (d : ℕ)
      → height v < n
      → process_member duck f object k v d ≡ process_member duck g object k v d
  unfolding process_member height
  process_member-same object k (arr vs) d h =
      rw (spread_attributes-same object vs d (omega arith), same (arr vs) k (d + 1) h) refl
  process_member-same object k Value.null d h = rw (same Value.null k (d + 1) h) refl
  process_member-same object k (Value.bool b) d h = rw (same (Value.bool b) k (d + 1) h) refl
  process_member-same object k (Value.uint b) d h = rw (same (Value.uint b) k (d + 1) h) refl
  process_member-same object k (Value.sint b) d h = rw (same (Value.sint b) k (d + 1) h) refl
  process_member-same object k (Value.real b) d h = rw (same (Value.real b) k (d + 1) h) refl
  process_member-same object k (str b) d h = rw (same (str b) k (d + 1) h) refl
  process_member-same object k (obj b) d h = rw (same (obj b) k (d + 1) h) refl

  otlp_normalize_object-same :
      (object fs : Fields) (d : ℕ)
      → fields_height fs < n
      → otlp_normalize_object duck f object fs d ≡ otlp_normalize_object duck g object fs d
  unfolding otlp_normalize_object fields_height
  otlp_normalize_object-same object end d h = refl
  otlp_normalize_object-same object (field k v fs) d h =
      rw (process_member-same object k v d (omega arith))
        (otlp_normalize_object-same (process_member duck g object k v d) fs d (omega arith))

  otlp_unwrap_any_value-same :
      (fs : Fields)
      → fields_height fs < n
      → otlp_unwrap_any_value duck f fs ≡ otlp_unwrap_any_value duck g fs
  unfolding otlp_unwrap_any_value fields_height
  otlp_unwrap_any_value-same end h = refl
  otlp_unwrap_any_value-same (field k v (field k' v' fs)) h = refl
  otlp_unwrap_any_value-same (field k v end) h = elim (Option-cases (values_member v)) [
    | inl e ↦ rw (e, otlp_unwrap_any_value) refl
    | inr (values, e) ↦
        rw
          (
            e,
            otlp_unwrap_any_value,
            same values (if str_eq k (codes "kvlistValue") then codes "attributes" else codes "") 0
                (omega (arith, option_height-values_member v, ap option_height e)),
          )
          refl
  ]

  normalize_shallow-same :
      (v : Value) (k : Str) (d : ℕ)
      → height v < suc n
      → normalize_shallow duck f v k d ≡ normalize_shallow duck g v k d
  unfolding normalize_shallow height
  normalize_shallow-same (obj fs) k d h =
      rw
        (
          normalize_shallow,
          otlp_unwrap_any_value-same fs (omega arith),
          otlp_normalize_object-same end fs (d + 1) (omega arith),
        )
        refl
  normalize_shallow-same (arr vs) k d h =
      rw
        (
          normalize_shallow,
          convert_list-same end vs d (omega arith),
          normalize_items-same vs d (omega arith),
        )
        refl
  normalize_shallow-same (str s) k d h = refl
  normalize_shallow-same Value.null k d h = refl
  normalize_shallow-same (Value.bool b) k d h = refl
  normalize_shallow-same (Value.uint b) k d h = refl
  normalize_shallow-same (Value.sint b) k d h = refl
  normalize_shallow-same (Value.real b) k d h = refl

-- OtlpNormalizeValue needs no more fuel than the height of the value: any two amounts above it give
-- the same result, at every key and depth, also where an unwrapped list starts again at depth 0.
pub otlp_normalize_value-fuel :
    (duck : Duck) (m n : ℕ) (v : Value) (key : Str) (depth : ℕ)
    → height v < m
    → height v < n
    → otlp_normalize_value duck m v key depth ≡ otlp_normalize_value duck n v key depth
unfolding otlp_normalize_value
otlp_normalize_value-fuel duck zero n v key depth hm hn = ground arith
otlp_normalize_value-fuel duck (suc m) zero v key depth hm hn = ground arith
otlp_normalize_value-fuel duck (suc m) (suc n) v key depth hm hn =
    rw
      (normalize_shallow-same duck (otlp_normalize_value duck m) (otlp_normalize_value duck n)
        (height v) (λ u k d h. otlp_normalize_value-fuel duck m n u k d (omega arith) (omega arith))
        v key depth (omega arith))
      refl
