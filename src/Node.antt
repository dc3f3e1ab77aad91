-- ===== src/Node.antt =====
-- The schema tree of src/raw_json.cpp: `RawNode`, its child lookup, and the merge of a JSON value
-- into it. A node's children are a vector of (name, node) beside a hash map from names to positions;
-- the map is an association list. A `RawNode &` to a child is the child's position, and a change
-- through the reference is an update at that position.
pub mod Lookup
pub mod Sniff
pub mod WellFormed
pub mod Route
pub mod Fits
pub mod Infer
use rawduck.Prelude.{
  ℕ, zero, suc, ◌+◌, ◌<◌, ◌≡◌, Str, str_eq, Bool, true, false, ◌&&◌, Option, none, some, List, [],
  ◌∷◌, ltb, leb, if◌then◌else◌,
}
use rawduck.Json.{Value, Items, Fields, null, obj, arr, nil, cons, end, field, is_null}
use rawduck.Duck.{Duck}
use rawduck.Kind.{ScalarKind, varchar, join_scalar_kinds, kind_eq}
use Sniff.{sniff_scalar_kind}

abbrev pub max_flatten_depth : ℕ
max_flatten_depth = 16

abbrev pub max_columns : ℕ
max_columns = 10000

abbrev pub max_nesting : ℕ
max_nesting = 128

abbrev pub child_linear_scan_limit : ℕ
child_linear_scan_limit = 24

pub data NodeClass : Type 0 where
  unset scalar object array json : NodeClass

abbrev pub class_eq : NodeClass → NodeClass → Bool
class_eq unset unset = true
class_eq scalar scalar = true
class_eq object object = true
class_eq array array = true
class_eq json json = true
class_eq _ _ = false

-- The hash map `child_lookup`.
abbrev pub ChildLookup : Type 0
ChildLookup = List (Str × ℕ)

mutual
  pub data Node : Type 0 where
    node : NodeClass → ScalarKind → Children → ChildLookup → Element → Node

  pub data Children : Type 0 where
    no_child : Children
    child : Str → Node → Children → Children

  pub data Element : Type 0 where
    no_element : Element
    element : Node → Element

abbrev pub node_class : Node → NodeClass
node_class (node c s ch lk el) = c

abbrev pub scalar_kind : Node → ScalarKind
scalar_kind (node c s ch lk el) = s

abbrev pub children : Node → Children
children (node c s ch lk el) = ch

abbrev pub child_lookup : Node → ChildLookup
child_lookup (node c s ch lk el) = lk

-- A default-constructed `RawNode`.
abbrev pub empty_node : Node
empty_node = node unset ScalarKind.unset no_child [] no_element

unfoldable pub count : Children → ℕ
count no_child = 0
count (child k n ch) = suc (count ch)

-- The linear scan over `children`.
unfoldable pub scan : Children → Str → Option ℕ
scan no_child key = none
scan (child k n ch) key =
    if str_eq k key then some 0 else elim (scan ch key) [ none ↦ none | some i ↦ some (suc i) ]

unfoldable pub lookup_find : ChildLookup → Str → Option ℕ
lookup_find [] key = none
lookup_find ((k, i) ∷ lk) key = if str_eq k key then some i else lookup_find lk key

unfoldable pub lookup_set : ChildLookup → Str → ℕ → ChildLookup
lookup_set [] key i = (key, i) ∷ []
lookup_set ((k, j) ∷ lk) key i = if str_eq k key then (k, i) ∷ lk else (k, j) ∷ lookup_set lk key i

unfoldable pub child_at : Children → ℕ → Option Node
child_at no_child i = none
child_at (child k n ch) zero = some n
child_at (child k n ch) (suc i) = child_at ch i

unfoldable pub update_at : Children → ℕ → (Node → Node) → Children
update_at no_child i f = no_child
update_at (child k n ch) zero f = child k (f n) ch
update_at (child k n ch) (suc i) f = child k n (update_at ch i f)

unfoldable pub push_child : Children → Str → Node → Children
push_child no_child key m = child key m no_child
push_child (child k n ch) key m = child k n (push_child ch key m)

-- The position that `RawNode::FindChild` finds: by the scan up to the limit, by the map above it.
unfoldable pub child_position : Node → Str → Option ℕ
child_position (node c s ch lk el) key =
    if leb (count ch) child_linear_scan_limit then scan ch key else lookup_find lk key

unfoldable pub find_child : Node → Str → Option Node
unfolding child_position
find_child n key = elim (child_position n key) [ none ↦ none | some i ↦ child_at (children n) i ]

abbrev pub add_child : Node → Str → Node × ℕ
add_child (node c s ch lk el) key =
    (node c s (push_child ch key empty_node) (lookup_set lk key (count ch)) el, count ch)

-- RawNode::GetOrCreateChild: the node, and the position of the child.
unfoldable pub get_or_create_child : Node → Str → Node × ℕ
unfolding child_position
get_or_create_child n key = elim (child_position n key) [ some i ↦ (n, i) | none ↦ add_child n key ]

abbrev pub update_child : ℕ → (Node → Node) → Node → Node
update_child i f (node c s ch lk el) = node c s (update_at ch i f) lk el

-- A change through the reference that `GetOrCreateChild` returns.
unfoldable pub with_child : Str → (Node → Node) → Node → Node
with_child key f n = let (n', i) = get_or_create_child n key in update_child i f n'

unfoldable pub demote_to_json : Node → Node
demote_to_json (node c s ch lk el) = node json s no_child [] no_element

abbrev pub set_class : NodeClass → Node → Node
set_class c' (node c s ch lk el) = node c' s ch lk el

-- An unset node becomes an object; only an object takes fields.
abbrev pub as_object : Node → Option Node
as_object (node unset s ch lk el) = some (node object s ch lk el)
as_object (node object s ch lk el) = some (node object s ch lk el)
as_object _ = none

-- An unset node becomes an array with a fresh element; only an array takes elements.
abbrev pub as_array : Node → Option Node
as_array (node unset s ch lk el) = some (node array s ch lk (element empty_node))
as_array (node array s ch lk el) = some (node array s ch lk el)
as_array _ = none

abbrev pub update_element : (Node → Node) → Node → Node
update_element f (node c s ch lk (element e)) = node c s ch lk (element (f e))
update_element f (node c s ch lk no_element) = node c s ch lk no_element

-- The scalar tail of `MergeValueInternal`, at the kind that the value sniffs as.
unfoldable pub merge_scalar : ScalarKind → Node → Node
merge_scalar kind (node unset s ch lk el) = node scalar kind ch lk el
merge_scalar kind (node scalar s ch lk el) =
    if kind_eq s varchar
    then node scalar s ch lk el
    else node scalar (join_scalar_kinds s kind) ch lk el
merge_scalar kind (node json s ch lk el) = node json s ch lk el
merge_scalar kind n = demote_to_json n

-- The ways out of `MergeValueInternal` on an object or an array: too deep, already JSON, of another
-- class (`o` is `none`), or merged.
unfoldable pub merge_container : ℕ → Node → Option Node → (Node → Node) → Node
merge_container depth n o merged =
    if ltb max_nesting depth
    then demote_to_json n
    else if class_eq (node_class n) json
    then n
    else elim o [ none ↦ demote_to_json n | some m ↦ merged m ]

module _ (duck : Duck) where
  unfoldable mutual
    -- MergeValueInternal
    pub merge_value : Value → ℕ → Node → Node
    merge_value null depth n = if ltb max_nesting depth then demote_to_json n else n
    merge_value (obj fs) depth n =
        merge_container depth n (as_object n) (merge_fields fs (suc depth))
    merge_value (arr vs) depth n = merge_container depth n (as_array n) (merge_items vs (suc depth))
    merge_value v depth n =
        if ltb max_nesting depth
        then demote_to_json n
        else merge_scalar (sniff_scalar_kind duck v) n

    pub merge_fields : Fields → ℕ → Node → Node
    merge_fields end depth n = n
    merge_fields (field k v fs) depth n =
        merge_fields fs depth (with_child k (merge_value v depth) n)

    pub merge_items : Items → ℕ → Node → Node
    merge_items nil depth n = n
    merge_items (cons v vs) depth n = merge_items vs depth (update_element (merge_value v depth) n)

  -- MergeValue
  unfoldable pub merge_row : Node → Value → Node
  merge_row n v = merge_value v 0 n

  -- RawPayload::InferSchema
  unfoldable pub infer_schema : Node → List Value → Node
  infer_schema n [] = n
  infer_schema n (row ∷ rows) = infer_schema (merge_row n row) rows
