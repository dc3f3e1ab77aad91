-- ===== src/Explode.antt =====
-- The ingest-time explode of src/raw_json.cpp: each segment of a dotted path descends into a key,
-- arrays on the way fan out into rows, and each row is merged with the objects passed on the way.
-- The vector of envelopes is a list with the deepest first, the order in which it is merged.
pub mod Merge
pub mod Rows
use rawduck.Prelude.{
  ℕ, suc, ◌+◌, Str, str_eq, Bool, true, false, Option, none, some, List, [], ◌∷◌, ◌++◌,
  if◌then◌else◌,
}
use rawduck.Json.{Value, Items, Fields, obj, arr, end, field, items}

-- yyjson_obj_getn: the first member of that name
unfoldable pub get_field : Fields → Str → Option Value
get_field end key = none
get_field (field k v fs) key = if str_eq k key then some v else get_field fs key

-- yyjson_mut_obj_add: at the end
unfoldable pub add_field : Fields → Str → Value → Fields
add_field end key v = field key v end
add_field (field k w fs) key v = field k w (add_field fs key v)

-- The object that was passed, and the key that was descended into.
pub record Envelope : Type 0 where
  pub object : Fields
  pub descended_key : Str

abbrev pub skips : Option Str → Str → Bool
skips none key = false
skips (some s) key = str_eq s key

-- AddObjectFields
unfoldable pub add_object_fields : Fields → Fields → Option Str → Fields
add_object_fields merged end skip = merged
add_object_fields merged (field k v fs) skip =
    add_object_fields
      (if skips skip k
        then merged
        else elim (get_field merged k) [ some w ↦ merged | none ↦ add_field merged k v ])
      fs skip

unfoldable pub add_envelopes : Fields → List Envelope → Fields
add_envelopes merged [] = merged
add_envelopes merged (e ∷ es) =
    add_envelopes (add_object_fields merged e.object (some e.descended_key)) es

-- EmitMergedRow
unfoldable pub emit_merged_row : Value → List Envelope → Value
emit_merged_row (obj fs) envelopes = obj (add_envelopes (add_object_fields end fs none) envelopes)
emit_merged_row leaf envelopes = leaf

abbrev pub concat_map : {A B : Type 0} → (A → List B) → List A → List B
concat_map f [] = []
concat_map f (x ∷ xs) = f x ++ concat_map f xs

-- The loop over an array, or the single child.
abbrev pub descend : (Value → List Value) → Value → List Value
descend down (arr vs) = concat_map down (items vs)
descend down child = down child

-- ExplodeInto, with the rows that it emits as its result; `depth` is the part of the path that is
-- left.
unfoldable pub explode_into : List Str → Value → List Envelope → List Value
explode_into [] node envelopes = emit_merged_row node envelopes ∷ []
explode_into (segment ∷ path) (obj fs) envelopes = elim (get_field fs segment) [
  | none ↦ emit_merged_row (obj fs) envelopes ∷ []
  | some child ↦
      descend
        (λ v. explode_into path v (record { object = fs; descended_key = segment } ∷ envelopes))
        child
]
explode_into (segment ∷ path) node envelopes = emit_merged_row node envelopes ∷ []

-- The first loop of RawPayload::Explode
unfoldable pub explode_rows : List Str → List Value → List Value
explode_rows path rows = concat_map (λ row. explode_into path row []) rows
