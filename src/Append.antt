-- ===== src/Append.antt =====
-- RawExtractor (src/raw_json.cpp) and the append loop of RawIngestor::AppendNative, which AppendBatch of
-- the pool repeats (src/raw_ingest.cpp): rows are cut into chunks, routed to columns and written to the
-- slots of the table. A schema node is named by its path of keys, which is what makes the pointers
-- that the code compares different. `cast` is VectorOperations::DefaultCast, row by row.
pub mod Chunks
pub mod Slots
pub mod Routed
pub mod Extract
pub mod Paths
pub mod Apart
pub mod Routes
use rawduck.Prelude.{
  ℕ, zero, suc, ◌+◌, min, Str, str_eq, length, take, drop, get_elem?, replicate, update_nth, Bool,
  true, false, ◌&&◌, ◌==◌, Option, none, some, List, [], ◌∷◌, ◌++◌, map, if◌then◌else◌,
}
use rawduck.Json.{Value, Items, Fields, obj, arr, end, field}
use rawduck.Duck.{Duck}
use rawduck.Node.{Node, NodeClass, node_class, class_eq, object, find_child}
use rawduck.SqlType.{LogicalType, raw_fill_supported}
use rawduck.Flatten.{RawColumn, is_empty}
use rawduck.Catalog.{Columns}
use rawduck.Payload.{RawParsedPayload}
use rawduck.Pool.Layout.{find_slot}
use rawduck.Fill.{Cell, null_cell, Vector, scalars, lists, fill_vector}
use rawduck.Fill.Read.{read_vector}

abbrev pub path_eq : List Str → List Str → Bool
path_eq [] [] = true
path_eq (a ∷ p) (b ∷ q) = str_eq a b && path_eq p q
path_eq _ _ = false

-- column_of.find(node)
unfoldable pub column_of : List RawColumn → List Str → Option ℕ
column_of [] path = none
column_of (c ∷ cs) path =
    if path_eq c.path path
    then some 0
    else elim (column_of cs path) [ none ↦ none | some i ↦ some (suc i) ]

module _ (columns : List RawColumn) where
  unfoldable mutual
    -- RawExtractor::Traverse
    pub traverse : Value → Node → List Str → List (Option Value) → List (Option Value)
    traverse (obj fs) n path values = elim (column_of columns path) [
      | some i ↦ update_nth values i (some (obj fs))
      | none ↦ if class_eq (node_class n) object then traverse_fields fs n path values else values
    ]
    traverse v n path values = elim (column_of columns path) [
      | some i ↦ update_nth values i (some v)
      | none ↦ values
    ]

    pub traverse_fields : Fields → Node → List Str → List (Option Value) → List (Option Value)
    traverse_fields end n path values = values
    traverse_fields (field k v fs) n path values =
        traverse_fields fs n path (elim (find_child n k) [
          | none ↦ values
          | some m ↦ traverse v m (path ++ (k ∷ [])) values
        ])

  -- RawExtractor::AssignRow after Reset, for one row: a value for each column. A row that is itself
  -- the "value" column is found at the empty path.
  unfoldable pub assign_row : Node → Value → List (Option Value)
  assign_row root row = traverse row root [] (replicate (length columns) none)

-- values[col][row], where none is also what a column that is not there has
abbrev pub value_of : List (Option Value) → ℕ → Option Value
value_of values col = elim (get_elem? values col) [ none ↦ none | some v ↦ v ]

-- STANDARD_VECTOR_SIZE
abbrev pub vector_limit : ℕ
vector_limit = 2048

-- The `start` loop, on fuel: the rows of each round.
unfoldable pub chunks : ℕ → List Value → List (List Value)
chunks zero rows = []
chunks (suc fuel) [] = []
chunks (suc fuel) (row ∷ rows) =
    take vector_limit (row ∷ rows) ∷ chunks fuel (drop vector_limit (row ∷ rows))

-- slot_of of ResolveAppendLayout: none is the column that is missing after evolution.
unfoldable pub resolve_append_layout : Columns → List RawColumn → Option (List ℕ)
resolve_append_layout table [] = some []
resolve_append_layout table (c ∷ cs) = elim (find_slot table c.name) [
  | none ↦ none
  | some slot ↦ elim (resolve_append_layout table cs) [
    | none ↦ none
    | some slots ↦ some (slot ∷ slots)
  ]
]

-- The column whose slot this is; none where `covered` is false.
unfoldable pub column_at : List ℕ → ℕ → Option ℕ
column_at [] slot = none
column_at (s ∷ slots) slot =
    if s == slot
    then some 0
    else elim (column_at slots slot) [ none ↦ none | some i ↦ some (suc i) ]

abbrev pub empty_vector : LogicalType → Vector
empty_vector (LogicalType.list t) = lists [] (empty_vector t)
empty_vector t = scalars []

abbrev pub column_type : List RawColumn → ℕ → LogicalType
column_type columns col = elim (get_elem? columns col) [
  | none ↦ LogicalType.varchar
  | some c ↦ c.type
]

module _ (duck : Duck) (cast : LogicalType → LogicalType → Cell → Cell) where
  -- chunk.data[slot] for a column: filled in the type of the slot, or in the payload's type and cast.
  unfoldable pub fill_slot : LogicalType → LogicalType → List (Option Value) → List Cell
  fill_slot slot_type own_type vals =
      if raw_fill_supported slot_type
      then read_vector (fill_vector duck slot_type vals (empty_vector slot_type))
      else map (cast own_type slot_type)
          (read_vector (fill_vector duck own_type vals (empty_vector own_type)))

  -- What one chunk writes to a slot.
  unfoldable pub chunk_cells : RawParsedPayload → List ℕ → LogicalType → ℕ → List Value → List Cell
  chunk_cells parsed slot_of slot_type slot rows = elim (column_at slot_of slot) [
    | none ↦ replicate (length rows) null_cell
    | some col ↦
        fill_slot slot_type (column_type parsed.columns col)
          (map (λ row. value_of (assign_row parsed.columns parsed.root row) col) rows)
  ]

  -- What the loop over the chunks writes to a slot, chunk after chunk.
  unfoldable pub append_slot :
      RawParsedPayload → List ℕ → LogicalType → ℕ → List (List Value) → List Cell
  append_slot parsed slot_of slot_type slot [] = []
  append_slot parsed slot_of slot_type slot (rows ∷ more) =
      chunk_cells parsed slot_of slot_type slot rows
      ++ append_slot parsed slot_of slot_type slot more
