-- ===== src/Fill/Keeps.antt =====
-- Inference guarantees that values fit the column type, as FillVector relies on: a value that fits its
-- schema node is not written as NULL in the column of that node.
use rawduck.Prelude.{
  ◌≡◌, ◌⊎◌, inl, inr, refl, Str, length, Bool-cases, ◌&&◌, not, Bool, true, false, Option, none,
  some, arith,
}
use rawduck.Json.{Value, Items, is_null, arr, obj, str}
use rawduck.Duck.{Duck}
use rawduck.Kind.{ScalarKind}
use rawduck.Kind.Order.{kind_le}
use rawduck.Node.{Node, Element, NodeClass, node, element, no_element, scalar, array, object, json}
use rawduck.Node.Sniff.{sniff_string, sniff_scalar_kind, is_whole_date}
use rawduck.Node.Fits.{Fits, FitsScalar}
use rawduck.SqlType.{LogicalType, node_to_type, element_to_type, scalar_kind_to_type}
use rawduck.Fill.{Cell, null_cell, scalar_cell}
use rawduck.Fill.Read.{cell_of}

abbrev pub is_null_cell : Cell → Bool
is_null_cell null_cell = true
is_null_cell _ = false

abbrev pub is_some {ℓ} : {A : Type ℓ} → Option A → Bool
is_some none = false
is_some (some a) = true

module _ (duck : Duck) where
  -- A text that is a date, but too late or too early for a timestamp.
  abbrev pub is_far_date : Str → Bool
  is_far_date s =
      is_whole_date (length s) (duck.convert_date s) && not (is_some (duck.convert_timestamp s))

  -- Such a date in a column of timestamps.
  abbrev pub IsFarDate : Value → LogicalType → Type 0
  IsFarDate (str s) t = (is_far_date s ≡ true) × (t ≡ LogicalType.timestamp)
  IsFarDate _ t = ⊥

  abbrev pub IsKept : Value → LogicalType → Type 0
  IsKept v t = (is_null_cell (cell_of duck t (some v)) ≡ false) ⊎ IsFarDate v t

  string_kept :
      (s : Str) (k : ScalarKind)
      → kind_le (sniff_string duck s) k ≡ true
      → IsKept (str s) (scalar_kind_to_type k)
  unfolding sniff_string cell_of scalar_cell
  string_kept s ScalarKind.timestamp h = elim (Bool-cases (is_far_date s)) [
    | inl e ↦ inr (e, refl)
    | inr e ↦ inl (ground (arith, e, h))
  ]
  string_kept s ScalarKind.unset h = inl (ground (arith, h))
  string_kept s ScalarKind.boolean h = inl (ground (arith, h))
  string_kept s ScalarKind.bigint h = inl (ground (arith, h))
  string_kept s ScalarKind.double h = inl (ground (arith, h))
  string_kept s ScalarKind.date h = inl (ground (arith, h))
  string_kept s ScalarKind.varchar h = inl (ground (arith, h))

  scalar_kept :
      (v : Value) (k : ScalarKind)
      → is_null v ≡ false
      → kind_le (sniff_scalar_kind duck v) k ≡ true
      → IsKept v (scalar_kind_to_type k)
  unfolding sniff_scalar_kind cell_of scalar_cell
  scalar_kept Value.null k n h = inl (ground arith)
  scalar_kept (Value.bool b) k n h = inl (ground arith)
  scalar_kept (Value.uint m) k n h = inl (ground arith)
  scalar_kept (Value.sint z) k n h = inl (ground arith)
  scalar_kept (Value.real r) k n h = inl (ground arith)
  scalar_kept (str s) k n h = string_kept s k h
  scalar_kept (arr vs) k n h = inl (ground arith)
  scalar_kept (obj fs) k n h = inl (ground arith)

  json_kept :
      (v : Value)
      → is_null v ≡ false
      → is_null_cell (cell_of duck LogicalType.raw_json (some v)) ≡ false
  unfolding cell_of scalar_cell
  json_kept Value.null n = ground arith
  json_kept (Value.bool b) n = refl
  json_kept (Value.uint m) n = refl
  json_kept (Value.sint z) n = refl
  json_kept (Value.real r) n = refl
  json_kept (str s) n = refl
  json_kept (arr vs) n = refl
  json_kept (obj fs) n = refl

  plain_kept :
      (v : Value) (n : Node)
      → is_null v ≡ false
      → FitsScalar duck (sniff_scalar_kind duck v) n
      → IsKept v (node_to_type n)
  unfolding node_to_type
  plain_kept v (node scalar s ch lk el) n (inl e) = inl (ground arith)
  plain_kept v (node scalar s ch lk el) n (inr h) = scalar_kept v s n h.1
  plain_kept v (node json s ch lk el) n h = inl (json_kept v n)
  plain_kept v (node object s ch lk el) n h = inl (json_kept v n)
  plain_kept v (node array s ch lk el) n (inl e) = inl (ground arith)
  plain_kept v (node array s ch lk el) n (inr h) = inl (ground arith)
  plain_kept v (node NodeClass.unset s ch lk el) n (inl e) = inl (ground arith)
  plain_kept v (node NodeClass.unset s ch lk el) n (inr h) = inl (ground arith)

  array_kept :
      (vs : Items) (el : Element)
      → is_null_cell (cell_of duck (element_to_type el) (some (arr vs))) ≡ false
  unfolding element_to_type cell_of scalar_cell
  array_kept vs no_element = refl
  array_kept vs (element (node NodeClass.unset s ch lk el)) = refl
  array_kept vs (element (node scalar s ch lk el)) = refl
  array_kept vs (element (node array s ch lk el)) = refl
  array_kept vs (element (node object s ch lk el)) = refl
  array_kept vs (element (node json s ch lk el)) = refl

  -- A value other than null that fits its schema node is written as NULL in a column of the node's
  -- type only if it is a date in a column of timestamps, and DuckDB cannot convert it to one, because
  -- it is too far from the epoch.
  pub Fits-kept :
      (v : Value) (n : Node) → is_null v ≡ false → Fits duck v n → IsKept v (node_to_type n)
  unfolding node_to_type
  Fits-kept Value.null n e h = inl (ground arith)
  Fits-kept (Value.bool b) n e h = plain_kept (Value.bool b) n e h
  Fits-kept (Value.uint m) n e h = plain_kept (Value.uint m) n e h
  Fits-kept (Value.sint z) n e h = plain_kept (Value.sint z) n e h
  Fits-kept (Value.real r) n e h = plain_kept (Value.real r) n e h
  Fits-kept (str s) n e h = plain_kept (str s) n e h
  Fits-kept (arr vs) (node array s ch lk el) e h = inl (array_kept vs el)
  Fits-kept (arr vs) (node json s ch lk el) e h = inl (json_kept (arr vs) e)
  Fits-kept (arr vs) (node object s ch lk el) e h = inl (json_kept (arr vs) e)
  Fits-kept (arr vs) (node scalar s ch lk el) e (inl j) = inl (ground arith)
  Fits-kept (arr vs) (node scalar s ch lk el) e (inr j) = inl (ground arith)
  Fits-kept (arr vs) (node NodeClass.unset s ch lk el) e (inl j) = inl (ground arith)
  Fits-kept (arr vs) (node NodeClass.unset s ch lk el) e (inr j) = inl (ground arith)
  Fits-kept (obj fs) (node object s ch lk el) e h = inl (json_kept (obj fs) e)
  Fits-kept (obj fs) (node json s ch lk el) e h = inl (json_kept (obj fs) e)
  Fits-kept (obj fs) (node array s ch lk el) e (inl j) = inl (ground arith)
  Fits-kept (obj fs) (node array s ch lk el) e (inr j) = inl (ground arith)
  Fits-kept (obj fs) (node scalar s ch lk el) e (inl j) = inl (ground arith)
  Fits-kept (obj fs) (node scalar s ch lk el) e (inr j) = inl (ground arith)
  Fits-kept (obj fs) (node NodeClass.unset s ch lk el) e (inl j) = inl (ground arith)
  Fits-kept (obj fs) (node NodeClass.unset s ch lk el) e (inr j) = inl (ground arith)
