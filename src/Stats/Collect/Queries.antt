-- ===== src/Stats/Collect/Queries.antt =====
-- What a query filters on and groups by, read off its plan.
use rawduck.Prelude.{
  ℕ, ◌+◌, ◌≡◌, refl, ◌&&◌, Str, str_eq, List, [], ◌∷◌, ◌++◌, if◌then◌else◌, arith, Option, none,
  some, sum_by, sum_by-append, get_elem?,
}
use rawduck.Stats.Traces.Groups.{is_column}
use rawduck.Stats.Plan.{
  Expr, Op, Ops, get, projection, aggregate, other_op, no_op, and_op, Get, Source, resolve_group,
}

-- The filters of the scan on this column.
abbrev pub filter_on : Str → List Str → ℕ → ℕ
filter_on column names f = elim (get_elem? names f) [
  | none ↦ 0
  | some name ↦ if str_eq column name then 1 else 0
]

abbrev pub filters_on : Str → Str → Get → ℕ
filters_on table column g = elim g.table [
  | none ↦ 0
  | some t ↦ if str_eq table t then sum_by (filter_on column g.names) g.filters else 0
]

-- The groups that trace back to this column.
abbrev pub group_on : Str → Str → Option (Str × Str) → ℕ
group_on table column none = 0
group_on table column (some g) = if str_eq table g.0 && str_eq column g.1 then 1 else 0

abbrev pub groups_on : List (ℕ × Source) → Str → Str → List Expr → ℕ
groups_on operators table column groups =
    sum_by (λ e. group_on table column (resolve_group operators e)) groups

unfoldable mutual
  pub plan_filters : Str → Str → Op → ℕ
  plan_filters table column (get g children) =
      filters_on table column g + plan_filters_of table column children
  plan_filters table column (projection i es children) = plan_filters_of table column children
  plan_filters table column (aggregate groups children) = plan_filters_of table column children
  plan_filters table column (other_op children) = plan_filters_of table column children

  pub plan_filters_of : Str → Str → Ops → ℕ
  plan_filters_of table column no_op = 0
  plan_filters_of table column (and_op op ops) =
      plan_filters table column op + plan_filters_of table column ops

unfoldable mutual
  pub plan_groups : List (ℕ × Source) → Str → Str → Op → ℕ
  plan_groups operators table column (get g children) =
      plan_groups_of operators table column children
  plan_groups operators table column (projection i es children) =
      plan_groups_of operators table column children
  plan_groups operators table column (aggregate groups children) =
      groups_on operators table column groups + plan_groups_of operators table column children
  plan_groups operators table column (other_op children) =
      plan_groups_of operators table column children

  pub plan_groups_of : List (ℕ × Source) → Str → Str → Ops → ℕ
  plan_groups_of operators table column no_op = 0
  plan_groups_of operators table column (and_op op ops) =
      plan_groups operators table column op + plan_groups_of operators table column ops

-- The grouping expressions of all aggregates.
abbrev mutual
  pub all_groups : Op → List Expr
  all_groups (get g children) = groups_below children
  all_groups (projection i es children) = groups_below children
  all_groups (aggregate groups children) = groups ++ groups_below children
  all_groups (other_op children) = groups_below children

  pub groups_below : Ops → List Expr
  groups_below no_op = []
  groups_below (and_op op ops) = all_groups op ++ groups_below ops

-- One for a group that is the column.
abbrev pub hit : List (ℕ × Source) → Str → Str → Expr → ℕ
hit operators table column e = if is_column table column (resolve_group operators e) then 1 else 0

group_on-hit :
    (table column : Str) (o : Option (Str × Str))
    → group_on table column o ≡ (if is_column table column o then 1 else 0)
group_on-hit table column none = refl
group_on-hit table column (some g) = refl

groups_on-hit :
    (operators : List (ℕ × Source)) (table column : Str) (es : List Expr)
    → groups_on operators table column es ≡ sum_by (hit operators table column) es
groups_on-hit operators table column [] = refl
groups_on-hit operators table column (e ∷ es) = omega (
  arith,
  group_on-hit table column (resolve_group operators e),
  groups_on-hit operators table column es,
)

mutual
  unfolding plan_groups

  pub plan_groups-all :
      (operators : List (ℕ × Source)) (table column : Str) (op : Op)
      → plan_groups operators table column op ≡ sum_by (hit operators table column) (all_groups op)
  plan_groups-all operators table column (get g children) =
      plan_groups_of-all operators table column children
  plan_groups-all operators table column (projection i es children) =
      plan_groups_of-all operators table column children
  plan_groups-all operators table column (aggregate groups children) = omega (
    arith,
    groups_on-hit operators table column groups,
    plan_groups_of-all operators table column children,
    sum_by-append (hit operators table column) groups (groups_below children),
  )
  plan_groups-all operators table column (other_op children) =
      plan_groups_of-all operators table column children

  plan_groups_of-all :
      (operators : List (ℕ × Source)) (table column : Str) (ops : Ops)
      → plan_groups_of operators table column ops
        ≡ sum_by (hit operators table column) (groups_below ops)
  plan_groups_of-all operators table column no_op = refl
  plan_groups_of-all operators table column (and_op op ops) = omega (
    arith,
    plan_groups-all operators table column op,
    plan_groups_of-all operators table column ops,
    sum_by-append (hit operators table column) (all_groups op) (groups_below ops),
  )
