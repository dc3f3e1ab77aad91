-- ===== src/Widen.antt =====
-- Type widening between a table column and incoming data (src/raw_ingest.cpp).
pub mod Stable
use rawduck.Prelude.{ℕ, Bool, true, false, ◌&&◌, ◌||◌, not, if◌then◌else◌}
use rawduck.SqlType.{LogicalType, type_eq, is_raw_json_type, is_list}

abbrev pub is_integer_type : LogicalType → Bool
is_integer_type LogicalType.tinyint = true
is_integer_type LogicalType.smallint = true
is_integer_type LogicalType.integer = true
is_integer_type LogicalType.bigint = true
is_integer_type LogicalType.hugeint = true
is_integer_type LogicalType.utinyint = true
is_integer_type LogicalType.usmallint = true
is_integer_type LogicalType.uinteger = true
is_integer_type _ = false

abbrev pub is_plain_scalar : LogicalType → Bool
is_plain_scalar LogicalType.raw_json = false
is_plain_scalar LogicalType.boolean = true
is_plain_scalar LogicalType.float = true
is_plain_scalar LogicalType.double = true
is_plain_scalar LogicalType.date = true
is_plain_scalar LogicalType.timestamp = true
is_plain_scalar LogicalType.varchar = true
is_plain_scalar t = is_integer_type t

abbrev is_hugeint : LogicalType → Bool
is_hugeint LogicalType.hugeint = true
is_hugeint _ = false

abbrev is_numeric : LogicalType → Bool
is_numeric LogicalType.float = true
is_numeric LogicalType.double = true
is_numeric t = is_integer_type t

abbrev is_temporal : LogicalType → Bool
is_temporal LogicalType.date = true
is_temporal LogicalType.timestamp = true
is_temporal _ = false

-- `JoinColumnTypes` of two types that differ and are not both lists.
unfoldable pub join_distinct_types : LogicalType → LogicalType → LogicalType
join_distinct_types existing incoming =
    if is_raw_json_type existing || is_raw_json_type incoming
    then LogicalType.raw_json
    else if is_list existing || is_list incoming
    then (if not (is_plain_scalar existing) && not (is_plain_scalar incoming)
        then existing
        else LogicalType.raw_json)
    else if not (is_plain_scalar existing)
    then existing
    else if is_integer_type existing && is_integer_type incoming
    then (if is_hugeint existing then existing else incoming)
    else if is_numeric existing && is_numeric incoming
    then LogicalType.double
    else if is_temporal existing && is_temporal incoming
    then LogicalType.timestamp
    else LogicalType.varchar

unfoldable pub join_column_types : LogicalType → LogicalType → LogicalType
unfolding join_distinct_types type_eq
join_column_types (LogicalType.list existing) (LogicalType.list incoming) =
    if type_eq (LogicalType.list existing) (LogicalType.list incoming)
    then LogicalType.list existing
    else LogicalType.list (join_column_types existing incoming)
join_column_types existing incoming =
    if type_eq existing incoming then existing else join_distinct_types existing incoming
