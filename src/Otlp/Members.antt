-- ===== src/Otlp/Members.antt =====
-- Which writer of a key a normalized object keeps.
use rawduck.Prelude.{
  ℕ, ◌+◌, ◌≡◌, ◌∙◌, ap, inl, inr, Str, codes, str_eq, str_eq_iff, ◌&&◌, Option, none, some,
  Option-cases, Bool-cases, if◌then◌else◌, arith,
}
use rawduck.Json.{Value, Items, Fields, obj, arr, str, nil, cons, end, field}
use rawduck.Duck.{Duck}
use rawduck.Explode.{get_field}
use rawduck.Explode.Merge.{or_else, or_else_assoc, get_field-add_field}
use rawduck.Otlp.{
  attribute, add_new, add_attribute, spread_attributes, process_member, otlp_normalize_object,
  otlp_is_key_value_array,
}

get_field-add_new :
    (object : Fields) (key : Str) (v : Value) (k : Str)
    → get_field (add_new object key v) k
      ≡ or_else (get_field object k) (if str_eq key k then some v else none)
unfolding add_new
get_field-add_new object key v k =
    ground (arith, get_field-add_field object key v k, str_eq_iff key k)

-- What a member list writes under a key, independently of what is there before: the first of its
-- members, and of the elements of its spread lists, that has this name.
module _ (duck : Duck) (normalize : Value → Str → ℕ → Value) where
  unfoldable pub element_writes : Value → ℕ → Str → Option Value
  element_writes (obj element) depth k = elim (attribute element) [
    | none ↦ none
    | some kv ↦ if str_eq kv.0 k then some (normalize kv.1 (codes "") (depth + 1)) else none
  ]
  element_writes _ depth k = none

  unfoldable pub list_writes : Items → ℕ → Str → Option Value
  list_writes nil depth k = none
  list_writes (cons v vs) depth k = or_else (element_writes v depth k) (list_writes vs depth k)

  unfoldable pub member_writes : Str → Value → ℕ → Str → Option Value
  member_writes key (arr vs) depth k =
      if str_eq key (codes "attributes") && otlp_is_key_value_array (arr vs)
      then list_writes vs depth k
      else if str_eq key k
      then some (normalize (arr vs) key (depth + 1))
      else none
  member_writes key v depth k = if str_eq key k then some (normalize v key (depth + 1)) else none

  unfoldable pub members_write : Fields → ℕ → Str → Option Value
  members_write end depth k = none
  members_write (field key v fs) depth k =
      or_else (member_writes key v depth k) (members_write fs depth k)

  get_field-add_attribute :
      (object : Fields) (v : Value) (depth : ℕ) (k : Str)
      → get_field (add_attribute duck normalize object v depth) k
        ≡ or_else (get_field object k) (element_writes v depth k)
  unfolding add_attribute element_writes
  get_field-add_attribute object (obj element) depth k = elim (Option-cases (attribute element)) [
    | inl e ↦ rw (e, add_attribute, element_writes) (ground arith)
    | inr (kv, e) ↦
        rw (e, add_attribute, element_writes)
          (get_field-add_new object kv.0 (normalize kv.1 (codes "") (depth + 1)) k)
  ]
  get_field-add_attribute object Value.null d k = ground arith
  get_field-add_attribute object (Value.bool b) d k = ground arith
  get_field-add_attribute object (Value.uint b) d k = ground arith
  get_field-add_attribute object (Value.sint b) d k = ground arith
  get_field-add_attribute object (Value.real b) d k = ground arith
  get_field-add_attribute object (str b) d k = ground arith
  get_field-add_attribute object (arr b) d k = ground arith

  get_field-spread_attributes :
      (object : Fields) (vs : Items) (depth : ℕ) (k : Str)
      → get_field (spread_attributes duck normalize object vs depth) k
        ≡ or_else (get_field object k) (list_writes vs depth k)
  unfolding spread_attributes list_writes
  get_field-spread_attributes object nil depth k = ground arith
  get_field-spread_attributes object (cons v vs) depth k =
      get_field-spread_attributes (add_attribute duck normalize object v depth) vs depth k
      ∙ ap (λ o. or_else o (list_writes vs depth k)) (get_field-add_attribute object v depth k)
      ∙ or_else_assoc (get_field object k) (element_writes v depth k) (list_writes vs depth k)

  get_field-process_member :
      (object : Fields) (key : Str) (v : Value) (depth : ℕ) (k : Str)
      → get_field (process_member duck normalize object key v depth) k
        ≡ or_else (get_field object k) (member_writes key v depth k)
  unfolding process_member member_writes
  get_field-process_member object key (arr vs) depth k =
      elim (Bool-cases (str_eq key (codes "attributes") && otlp_is_key_value_array (arr vs))) [
        | inl e ↦ rw e (get_field-spread_attributes object vs depth k)
        | inr e ↦ rw e (get_field-add_new object key (normalize (arr vs) key (depth + 1)) k)
      ]
  get_field-process_member object key Value.null d k = get_field-add_new object key _ k
  get_field-process_member object key (Value.bool b) d k = get_field-add_new object key _ k
  get_field-process_member object key (Value.uint b) d k = get_field-add_new object key _ k
  get_field-process_member object key (Value.sint b) d k = get_field-add_new object key _ k
  get_field-process_member object key (Value.real b) d k = get_field-add_new object key _ k
  get_field-process_member object key (str b) d k = get_field-add_new object key _ k
  get_field-process_member object key (obj b) d k = get_field-add_new object key _ k

  -- A normalized object holds, under every key, what its first writer put there: the members count
  -- in their order, and a spread attribute list counts as its elements in its place. A member that
  -- follows the list therefore loses to an attribute of its name.
  pub otlp_normalize_object-lookup :
      (object fs : Fields) (depth : ℕ) (k : Str)
      → get_field (otlp_normalize_object duck normalize object fs depth) k
        ≡ or_else (get_field object k) (members_write fs depth k)
  unfolding otlp_normalize_object members_write
  otlp_normalize_object-lookup object end depth k = ground arith
  otlp_normalize_object-lookup object (field key v fs) depth k =
      otlp_normalize_object-lookup (process_member duck normalize object key v depth) fs depth k
      ∙ ap (λ o. or_else o (members_write fs depth k))
          (get_field-process_member object key v depth k)
      ∙ or_else_assoc (get_field object k) (member_writes key v depth k) (members_write fs depth k)
