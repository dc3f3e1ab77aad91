-- ===== src/Flatten.antt =====
-- Schema flattening (src/raw_json.cpp): the columns of a schema tree, and their names.
-- A `const RawNode *` into the tree is the path of names that leads to the node: siblings have
-- distinct names (`IsDistinct`), so a path names one node.
pub mod Decimal
pub mod Names
pub mod Limits
use rawduck.Prelude.{
  ℕ, zero, suc, ◌+◌, Str, str_eq, lower, codes, Bool, true, false, ◌&&◌, ◌||◌, not, Option, none,
  some, List, [], ◌∷◌, ◌++◌, map, ltb, if◌then◌else◌, length,
}
use rawduck.Node.{
  Node, NodeClass, Children, node, no_child, child, object, unset, class_eq, node_class, children,
  max_flatten_depth, max_columns,
}
use rawduck.SqlType.{LogicalType, node_to_type}
use Decimal.{to_string}

-- RawColumn; its `node` is the node that `path` leads to.
pub record RawColumn : Type 0 where
  pub name : Str
  pub path : List Str
  pub type : LogicalType

abbrev pub is_empty {ℓ} : {A : Type ℓ} → List A → Bool
is_empty [] = true
is_empty (x ∷ xs) = false

abbrev pub has_children : Children → Bool
has_children no_child = false
has_children (child k n ch) = true

abbrev pub column_name : Str → Str → Str
column_name prefix name = if is_empty prefix then name else prefix ++ (codes "." ++ name)

unfoldable mutual
  -- the body of the loop of `FlattenInto`, for one child
  pub flatten_child : Node → Str → List Str → ℕ → List RawColumn
  flatten_child (node c s ch lk el) name path depth =
      let inner = flatten_into ch name path (suc depth) in
      if class_eq c object && has_children ch && ltb depth max_flatten_depth
      then inner
      else record { name = name; path = path; type = node_to_type (node c s ch lk el) } ∷ []

  -- FlattenInto
  pub flatten_into : Children → Str → List Str → ℕ → List RawColumn
  flatten_into no_child prefix path depth = []
  flatten_into (child k n ch) prefix path depth =
      flatten_child n (column_name prefix k) (path ++ k ∷ []) depth
      ++ flatten_into ch prefix path depth

abbrev pub seen_count : List Str → Str → Bool
seen_count [] name = false
seen_count (s ∷ seen) name = str_eq s (lower name) || seen_count seen name

abbrev pub suffixed : Str → ℕ → Str
suffixed base k = base ++ (codes "_" ++ to_string k)

-- `while (seen.count(column.name)) column.name = base + "_" + to_string(suffix++)`, on fuel.
unfoldable pub first_unseen : ℕ → List Str → Str → Str → ℕ → Str
first_unseen zero seen base name suffix = name
first_unseen (suc fuel) seen base name suffix =
    let rest = first_unseen fuel seen base (suffixed base suffix) (suc suffix) in
    if seen_count seen name then rest else name

-- Two rounds more than there are names to avoid are enough (Flatten/Names).
abbrev pub unique_name : List Str → Str → Str
unique_name seen name = first_unseen (suc (suc (length seen))) seen name name 1

-- The loop over the columns; `seen` is a case-insensitive set, kept as lower-case names.
unfoldable pub disambiguate : List Str → List RawColumn → List RawColumn
disambiguate seen [] = []
disambiguate seen (c ∷ cs) =
    let name = unique_name seen c.name in
    record c { name = name } ∷ disambiguate (lower name ∷ seen) cs

pub data FlattenResult : Type 0 where
  columns : List RawColumn → FlattenResult
  too_many_columns : ℕ → FlattenResult

unfoldable pub flatten_schema : Node → Bool → FlattenResult
flatten_schema root scalar_rows =
    if scalar_rows || not (class_eq (node_class root) object)
    then (if class_eq (node_class root) unset
        then columns []
        else columns (record { name = codes "value"; path = []; type = node_to_type root } ∷ []))
    else (let result = flatten_into (children root) [] [] 0 in
        if ltb max_columns (length result)
        then too_many_columns (length result)
        else columns (disambiguate [] result))
