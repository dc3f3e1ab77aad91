-- ===== src/Fallback.antt =====
-- FallbackBatch of src/raw_ingest.cpp, for catalogs that are reached by SQL: the statements as data
-- in place of their text, the final type of each column, and the expression by which it is selected.
pub mod Evolves
pub mod Batch
pub mod Retry
use rawduck.Prelude.{
  ℕ, zero, suc, ◌+◌, Str, length, Bool, true, false, not, ◌&&◌, ◌||◌, Option, none, some, and_then,
  List, [], ◌∷◌, ◌++◌, map, if◌then◌else◌,
}
use rawduck.SqlType.{LogicalType, type_eq, is_raw_json_type, is_list}
use rawduck.Widen.{join_column_types}
use rawduck.Flatten.{RawColumn}
use rawduck.Catalog.{Columns, find_column, add_column, change_type}

pub data Statement : Type 0 where
  -- ALTER TABLE … ADD COLUMN
  add_column_as : Str → LogicalType → Statement
  -- ALTER TABLE … ALTER COLUMN … SET DATA TYPE, with USING to_json(…) when the flag is set
  set_type_of : Str → LogicalType → Bool → Statement

-- What the batch does to one column, and the type that the column has then.
pub record Step : Type 0 where
  pub statements : List Statement
  pub final_type : LogicalType

abbrev pub needs_rewrite : LogicalType → LogicalType → Bool
needs_rewrite existing target = is_raw_json_type target && not (is_raw_json_type existing)

-- A column that the table has, with its type and the joined type.
abbrev pub widen_step : Bool → Str → LogicalType → LogicalType → Step
widen_step allow name existing target =
    if type_eq target existing
    then record { statements = []; final_type = target }
    else if needs_rewrite existing target && not allow
    then record { statements = []; final_type = existing }
    else record {
      statements = set_type_of name target (needs_rewrite existing target) ∷ [];
      final_type = target;
    }

abbrev pub plan_step : Bool → RawColumn → Option LogicalType → Step
plan_step allow c none = record {
  statements = add_column_as c.name c.type ∷ [];
  final_type = c.type;
}
plan_step allow c (some existing) =
    widen_step allow c.name existing (join_column_types existing c.type)

-- The loop over the columns when the table exists.
unfoldable pub plan : Bool → Columns → List RawColumn → List Step
plan allow existing [] = []
plan allow existing (c ∷ cs) =
    plan_step allow c (find_column existing c.name) ∷ plan allow existing cs

abbrev pub all_statements : List Step → List Statement
all_statements [] = []
all_statements (s ∷ steps) = s.statements ++ all_statements steps

-- How a column is selected from the records of the payload.
pub data Selected : Type 0 where
  as_is as_json as_json_cast : Selected

abbrev pub select_as : LogicalType → LogicalType → Selected
select_as incoming final_type =
    if is_raw_json_type final_type && not (is_raw_json_type incoming)
    then as_json
    else if not (is_raw_json_type final_type)
        && ((is_raw_json_type incoming || is_list incoming) && not (type_eq final_type incoming))
    then as_json_cast
    else as_is

-- What a statement does to the table, where it succeeds.
abbrev pub apply_statement : Columns → Statement → Option Columns
apply_statement table (add_column_as name t) = add_column table name t
apply_statement table (set_type_of name t using) = change_type table name t

-- `carries_out` is the catalog's answer to a statement on a table: it may refuse a statement with
-- USING, or one whose values cannot be cast.
module _ (carries_out : Columns → Statement → Bool) where
  abbrev pub run_statement : Columns → Statement → Option Columns
  run_statement table s = if carries_out table s then apply_statement table s else none

  unfoldable pub run_statements : Columns → List Statement → Option Columns
  run_statements table [] = some table
  run_statements table (s ∷ statements) =
      and_then (run_statement table s) (λ table'. run_statements table' statements)
