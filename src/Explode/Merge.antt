-- ===== src/Explode/Merge.antt =====
-- What a merged row holds: first its own fields, then those of the envelopes from the deepest
-- outwards, each without the key that was descended into.
use rawduck.Prelude.{
  ◌≡◌, refl, ◌∙◌, ap, Str, str_eq, str_eq_iff, Option, none, some, List, [], ◌∷◌, arith,
  if◌then◌else◌,
}
use rawduck.Json.{Value, Fields, obj, end, field}
use rawduck.Explode.{
  Envelope, get_field, add_field, skips, add_object_fields, add_envelopes, emit_merged_row,
}

abbrev pub or_else : Option Value → Option Value → Option Value
or_else (some v) o = some v
or_else none o = o

pub get_field-add_field :
    (fs : Fields) (key : Str) (v : Value) (k : Str)
    → get_field (add_field fs key v) k
      ≡ or_else (get_field fs k) (if str_eq key k then some v else none)
unfolding get_field add_field
get_field-add_field end key v k = refl
get_field-add_field (field j w fs) key v k = ground (arith, get_field-add_field fs key v k)

skips-key : (skip : Option Str) (j k : Str) → j ≡ k → skips skip j ≡ skips skip k
skips-key skip j k e = ap (skips skip) e

get_field-add_object_fields :
    (merged fs : Fields) (skip : Option Str) (k : Str)
    → get_field (add_object_fields merged fs skip) k
      ≡ or_else (get_field merged k) (if skips skip k then none else get_field fs k)
unfolding add_object_fields get_field
get_field-add_object_fields merged end skip k = ground arith
get_field-add_object_fields merged (field j v fs) skip k = ground (
  arith,
  get_field-add_object_fields merged fs skip k,
  get_field-add_object_fields (add_field merged j v) fs skip k,
  get_field-add_field merged j v k,
  str_eq_iff j k,
  skips-key skip j k,
)

-- What the envelopes hold under a key, the deepest first.
unfoldable pub inherited : List Envelope → Str → Option Value
inherited [] k = none
inherited (e ∷ es) k =
    or_else (if str_eq e.descended_key k then none else get_field e.object k) (inherited es k)

pub or_else_assoc : (a b c : Option Value) → or_else (or_else a b) c ≡ or_else a (or_else b c)
or_else_assoc (some v) b c = refl
or_else_assoc none b c = refl

get_field-add_envelopes :
    (merged : Fields) (es : List Envelope) (k : Str)
    → get_field (add_envelopes merged es) k ≡ or_else (get_field merged k) (inherited es k)
unfolding add_envelopes inherited
get_field-add_envelopes merged [] k = ground arith
get_field-add_envelopes merged (e ∷ es) k =
    get_field-add_envelopes (add_object_fields merged e.object (some e.descended_key)) es k
    ∙ ap (λ o. or_else o (inherited es k))
        (get_field-add_object_fields merged e.object (some e.descended_key) k)
    ∙ or_else_assoc (get_field merged k) _ (inherited es k)

-- A row that is an object is emitted with, under every key, the row's own value if it has one, and
-- otherwise that of the deepest enclosing object that has the key and was not left through it.
pub emit_merged_row-lookup :
    (fs : Fields) (es : List Envelope) (k : Str)
    → (merged : Fields) × ((emit_merged_row (obj fs) es ≡ obj merged)
        × (get_field merged k ≡ or_else (get_field fs k) (inherited es k)))
unfolding emit_merged_row get_field
emit_merged_row-lookup fs es k = (
  add_envelopes (add_object_fields end fs none) es,
  (
    refl,
    get_field-add_envelopes (add_object_fields end fs none) es k
        ∙ ap (λ o. or_else o (inherited es k)) (get_field-add_object_fields end fs none k),
  ),
)
