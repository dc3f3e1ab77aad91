-- ===== src/Examples/Trees.antt =====
-- Inference at small payloads.
use rawduck.Prelude.{◌≡◌, refl, [], ◌∷◌, codes, All, arith}
use rawduck.Json.{Value, null, uint, str, obj, end, field}
use rawduck.Kind.{ScalarKind, double, date, join_scalar_kinds}
use rawduck.Node.{
  Node, node, object, scalar, no_child, child, no_element, empty_node, merge_row, infer_schema,
  children, count, merge_value, merge_container, merge_scalar, with_child, get_or_create_child,
  scan, push_child, child_lookup, lookup_find, update_at, lookup_set,
}
use rawduck.Node.Sniff.{sniff_scalar_kind}
use rawduck.Node.Lookup.{IsIndexed}
use rawduck.Node.WellFormed.{IsWellFormed, IsWellFormed-empty_node, infer_schema-IsWellFormed}
use rawduck.Node.Fits.{Fits}
use rawduck.Node.Infer.{infer_schema-Fits}
use rawduck.Examples.Ducks.{example_duck}

-- {"a": 1, "b": {"c": "2024-01-15"}}
abbrev first : Value
first = obj (
    field (codes "a") (uint 1)
      (field (codes "b") (obj (field (codes "c") (str (codes "2024-01-15")) end)) end))

-- {"a": 2.5, "b": null}
abbrev second : Value
second = obj (field (codes "a") (Value.real 7) (field (codes "b") null end))

abbrev tree : Node
tree = infer_schema example_duck empty_node (first ∷ second ∷ [])

tree_runs :
    children tree
    ≡ child (codes "a") (node scalar double no_child [] no_element) (
        child
          (codes "b")
          (node object ScalarKind.unset
            (child (codes "c") (node scalar date no_child [] no_element) no_child)
            ((codes "c", 0) ∷ [])
            no_element)
          no_child)
unfolding infer_schema merge_row merge_value merge_container merge_scalar with_child
    get_or_create_child count scan push_child update_at lookup_set join_scalar_kinds
    sniff_scalar_kind
tree_runs = refl

infer_schema-Fits_example : All (λ row. Fits example_duck row tree) (first ∷ second ∷ [])
infer_schema-Fits_example =
    infer_schema-Fits example_duck empty_node (first ∷ second ∷ []) IsWellFormed-empty_node

abbrev small : Node
small = infer_schema example_duck empty_node (first ∷ [])

small-IsWellFormed : IsWellFormed small
small-IsWellFormed =
    infer_schema-IsWellFormed example_duck empty_node (first ∷ []) IsWellFormed-empty_node

abbrev two_keys : Node
two_keys =
    node object ScalarKind.unset
      (child (codes "x") empty_node (child (codes "y") empty_node no_child))
      ((codes "x", 0) ∷ (codes "y", 1) ∷ []) no_element

two_keys-IsIndexed : IsIndexed (child_lookup two_keys) (children two_keys)
unfolding lookup_find scan
two_keys-IsIndexed k = ground arith
