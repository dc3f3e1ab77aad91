-- ===== src/Catalog.antt =====
-- A table's columns and their evolution (src/raw_ingest.cpp: `ComputeDelta`, `EvolveNative`,
-- `CreateNative`). Column names are compared without regard to case, as DuckDB's catalog does; a
-- statement that DuckDB refuses is `none`.
pub mod Absorb
use rawduck.Prelude.{
  ℕ, suc, ◌+◌, Str, str_eq, lower, Bool, true, false, not, Option, none, some, List, [], ◌∷◌, ◌++◌,
  if◌then◌else◌,
}
use rawduck.SqlType.{LogicalType, type_eq}
use rawduck.Flatten.{RawColumn}
use rawduck.Widen.{join_column_types}

abbrev pub Columns : Type 0
Columns = List (Str × LogicalType)

-- ColumnList::ColumnExists and GetColumn
unfoldable pub find_column : Columns → Str → Option LogicalType
find_column [] name = none
find_column ((n, t) ∷ cs) name =
    if str_eq (lower n) (lower name) then some t else find_column cs name

unfoldable pub set_type : Columns → Str → LogicalType → Columns
set_type [] name t = []
set_type ((n, u) ∷ cs) name t =
    if str_eq (lower n) (lower name) then (n, t) ∷ cs else (n, u) ∷ set_type cs name t

-- ALTER TABLE ADD COLUMN, without IF NOT EXISTS
unfoldable pub add_column : Columns → Str → LogicalType → Option Columns
add_column cs name t = elim (find_column cs name) [
  | none ↦ some (cs ++ (name, t) ∷ [])
  | some u ↦ none
]

-- ALTER TABLE ALTER COLUMN SET DATA TYPE
unfoldable pub change_type : Columns → Str → LogicalType → Option Columns
change_type cs name t = elim (find_column cs name) [
  | none ↦ none
  | some u ↦ some (set_type cs name t)
]

pub record Delta : Type 0 where
  pub adds : List (Str × LogicalType)
  pub widens : Bool

-- What one column of a payload needs, given what the table has under its name.
pub data Need : Type 0 where
  add : Need
  keep : Need
  widen : LogicalType → Need

abbrev pub column_need : Option LogicalType → LogicalType → Need
column_need none incoming = add
column_need (some t) incoming =
    if type_eq (join_column_types t incoming) t then keep else widen (join_column_types t incoming)

abbrev delta_step : RawColumn → Need → Delta → Delta
delta_step c add d = record d { adds = (c.name, c.type) ∷ d.adds }
delta_step c keep d = d
delta_step c (widen t) d = record d { widens = true }

-- ComputeDelta
unfoldable pub compute_delta : Columns → List RawColumn → Delta
compute_delta table [] = record { adds = []; widens = false }
compute_delta table (c ∷ cs) =
    delta_step c (column_need (find_column table c.name) c.type) (compute_delta table cs)

-- The table while it is altered, and the counters `columns_added` and `columns_widened`. What DuckDB
-- answers to a statement is a parameter: it refuses an ALTER of a column when a value cannot be cast
-- or an index depends on the column.
pub record Evolved : Type 0 where
  pub alters : Columns → Str → LogicalType → Bool
  pub table : Columns
  pub added : ℕ
  pub widened : ℕ

-- The table after a statement that DuckDB may refuse.
abbrev pub altered : Evolved → Str → LogicalType → Option Columns → Option Columns
altered e name t table = if e.alters e.table name t then table else none

abbrev pub evolve_step : RawColumn → Need → Evolved → Option Evolved
evolve_step c add e = elim (altered e c.name c.type (add_column e.table c.name c.type)) [
  | none ↦ none
  | some table ↦ some (record e { table = table; added = e.added + 1 })
]
evolve_step c keep e = some e
evolve_step c (widen t) e = elim (altered e c.name t (change_type e.table c.name t)) [
  | none ↦ none
  | some table ↦ some (record e { table = table; widened = e.widened + 1 })
]

-- EvolveNative: every test reads the columns that the table had before the first ALTER.
unfoldable pub evolve_native : Columns → List RawColumn → Evolved → Option Evolved
evolve_native existing [] e = some e
evolve_native existing (c ∷ cs) e =
    elim (evolve_step c (column_need (find_column existing c.name) c.type) e) [
      | none ↦ none
      | some e' ↦ evolve_native existing cs e'
    ]

-- CreateNative
unfoldable pub create_native : List RawColumn → Evolved → Option Evolved
create_native [] e = some e
create_native (c ∷ cs) e = elim (evolve_step c add e) [
  | none ↦ none
  | some e' ↦ create_native cs e'
]
