-- ===== src/Widen/Stable.antt =====
-- Widening once is enough.
use rawduck.Prelude.{◌≡◌, refl, arith}
use rawduck.SqlType.{LogicalType, type_eq_refl}
use rawduck.Widen.{join_column_types}

pub join_self : (t : LogicalType) → join_column_types t t ≡ t
unfolding join_column_types
join_self (LogicalType.list t) = rw (type_eq_refl t)
join_self (LogicalType.other n) = ground arith
join_self LogicalType.boolean = refl
join_self _ = refl

-- A column that has been widened for an incoming type is not widened again for the same type.
pub join_column_types_stable :
    (existing incoming : LogicalType)
    → join_column_types (join_column_types existing incoming) incoming
      ≡ join_column_types existing incoming
unfolding join_column_types
join_column_types_stable (LogicalType.list e) (LogicalType.list i) =
    ground (arith, join_column_types_stable e i)
join_column_types_stable (LogicalType.other m) (LogicalType.other n) = ground arith
join_column_types_stable LogicalType.boolean i = ground arith
join_column_types_stable e i = ground arith
