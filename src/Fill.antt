-- ===== src/Fill.antt =====
-- FillVector (src/raw_json.cpp): JSON values written into a DuckDB vector, at the end of what the
-- vector holds (`offset` is the number of its rows at every call). A LIST vector is a row of entries,
-- each an offset and a length, over one child vector.
pub mod Read
pub mod Keeps
use rawduck.Prelude.{
  ℕ, suc, ◌+◌, ◌-◌, ◌^◌, ℤ, pos, negsuc, Str, Bool, true, false, Option, none, some, List, [], ◌∷◌,
  ◌++◌, map, length, ltb, if◌then◌else◌,
}
use rawduck.Json.{Value, Items, str, arr, items}
use rawduck.Duck.{Duck}
use rawduck.SqlType.{LogicalType}

mutual
  -- A row of a vector; `many` is what a reader sees of a list entry.
  pub data Cell : Type 0 where
    null_cell : Cell
    boolean : Bool → Cell
    bigint double date timestamp : ℤ → Cell
    text : Str → Cell
    many : Cells → Cell

  pub data Cells : Type 0 where
    no_more : Cells
    also : Cell → Cells → Cells

pub record ListEntry : Type 0 where
  pub valid : Bool
  pub offset : ℕ
  pub size : ℕ

pub data Vector : Type 0 where
  scalars : List Cell → Vector
  lists : List ListEntry → Vector → Vector

abbrev pub vector_size : Vector → ℕ
vector_size (scalars cells) = length cells
vector_size (lists entries child) = length entries

-- static_cast<int64_t> of a uint64_t
abbrev pub to_int64 : ℕ → ℤ
to_int64 n = if ltb n (2 ^ 63) then pos n else negsuc (2 ^ 64 - 1 - n)

-- The values of the arrays, one after the other.
unfoldable pub child_values : List (Option Value) → List (Option Value)
child_values [] = []
child_values (some (arr vs) ∷ vals) = map some (items vs) ++ child_values vals
child_values (v ∷ vals) = child_values vals

-- The entries of the loop; `next` is child_offset + child_vals.size().
unfoldable pub list_entries : List (Option Value) → ℕ → List ListEntry
list_entries [] next = []
list_entries (some (arr vs) ∷ vals) next =
    record { valid = true; offset = next; size = length (items vs) }
    ∷ list_entries vals (next + length (items vs))
list_entries (v ∷ vals) next =
    record { valid = false; offset = next; size = 0 } ∷ list_entries vals next

module _ (duck : Duck) where
  abbrev pub boolean_cell : Option Value → Cell
  boolean_cell (some (Value.bool b)) = boolean b
  boolean_cell _ = null_cell

  abbrev pub bigint_cell : Option Value → Cell
  bigint_cell (some (Value.sint z)) = bigint z
  bigint_cell (some (Value.uint n)) = bigint (to_int64 n)
  bigint_cell _ = null_cell

  -- yyjson_get_num; a double is the number of its 64-bit pattern.
  abbrev pub double_cell : Option Value → Cell
  double_cell (some (Value.sint z)) = double (pos (duck.to_double z))
  double_cell (some (Value.uint n)) = double (pos (duck.to_double (pos n)))
  double_cell (some (Value.real bits)) = double (pos bits)
  double_cell _ = null_cell

  abbrev pub date_cell : Option Value → Cell
  date_cell (some (str s)) = elim (duck.convert_date s) [ none ↦ null_cell | some d ↦ date d.days ]
  date_cell _ = null_cell

  abbrev pub timestamp_cell : Option Value → Cell
  timestamp_cell (some (str s)) = elim (duck.convert_timestamp s) [
    | none ↦ null_cell
    | some t ↦ timestamp t
  ]
  timestamp_cell _ = null_cell

  -- WriteJSONString, which throws only when memory runs out
  abbrev pub json_cell : Option Value → Cell
  json_cell none = null_cell
  json_cell (some Value.null) = null_cell
  json_cell (some v) = text (duck.write v)

  abbrev pub varchar_cell : Option Value → Cell
  varchar_cell (some (str s)) = text s
  varchar_cell v = json_cell v

  -- The branches of the switch but LIST.
  unfoldable pub scalar_cell : LogicalType → Option Value → Cell
  scalar_cell LogicalType.raw_json v = json_cell v
  scalar_cell LogicalType.boolean v = boolean_cell v
  scalar_cell LogicalType.bigint v = bigint_cell v
  scalar_cell LogicalType.double v = double_cell v
  scalar_cell LogicalType.date v = date_cell v
  scalar_cell LogicalType.timestamp v = timestamp_cell v
  scalar_cell LogicalType.varchar v = varchar_cell v
  scalar_cell t v = null_cell

  -- FillVector. A vector has the shape of its type; the last clause cannot be reached.
  unfoldable pub fill_vector : LogicalType → List (Option Value) → Vector → Vector
  fill_vector (LogicalType.list t) vals (lists entries child) =
      lists (entries ++ list_entries vals (vector_size child))
        (fill_vector t (child_values vals) child)
  fill_vector t vals (scalars cells) = scalars (cells ++ map (scalar_cell t) vals)
  fill_vector t vals (lists entries child) = lists entries child
