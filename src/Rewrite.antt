-- ===== src/Rewrite.antt =====
-- The rewriting of aggregates onto projections of src/raw_optimize.cpp, before DuckDB optimizes a
-- plan: TryRewriteToProjection, RewriteAggregates and RawDuckPreOptimizeHook. `T` is the type of
-- DuckDB's types; what the catalog answers is a parameter.
pub mod Answers
pub mod Totals
pub mod Columns
pub mod Counts
pub mod Sound
use rawduck.Prelude.{
  ℕ, suc, leb, ◌==◌, length, Bool, true, false, not, ◌&&◌, Str, str_eq, lower, codes, Option, none,
  some, ◌>>=◌, ◌>>◌, guard, List, [], ◌∷◌, ◌++◌, map, if◌then◌else◌,
}
use rawduck.Flatten.{is_empty}
use rawduck.Dict.{find}
use rawduck.Stats.{Projection, StatsCache}
use rawduck.Stats.Plan.{Binding, Get, resolve_get_column, sort_names}

-- A bound expression with its return type. `cast_to` is what AddCastToType gives.
pub data Expression {ℓ} (T : Type ℓ) : Type ℓ where
  column_ref : Binding → T → Expression T
  cast_to : Expression T → T → Expression T
  other_expression : T → Expression T

abbrev pub return_type {ℓ} : {T : Type ℓ} → Expression T → T
return_type (column_ref b t) = t
return_type (cast_to e t) = t
return_type (other_expression t) = t

-- A BoundAggregateExpression: the name of the function, its arguments, DISTINCT and FILTER.
pub data AggregateCall {ℓ} (T : Type ℓ) : Type ℓ where
  call : Str → List (Expression T) → Bool → Option (Expression T) → AggregateCall T
  other_call : AggregateCall T

-- LogicalAggregate, with how many grouping functions and grouping sets it has
pub record Aggregate {ℓ} (T : Type ℓ) : Type ℓ where
  pub aggregate_index : ℕ
  pub groups : List (Expression T)
  pub calls : List (AggregateCall T)
  pub grouping_functions : ℕ
  pub grouping_sets : ℕ

mutual
  -- LogicalOperator, each with its children
  pub data Plan {ℓ} (T : Type ℓ) : Type ℓ where
    get : Get → Plans T → Plan T
    projection : List (Expression T) → Plans T → Plan T
    aggregate : Aggregate T → Plans T → Plan T
    other_operator : Plans T → Plan T

  pub data Plans {ℓ} (T : Type ℓ) : Type ℓ where
    no_plan : Plans T
    and_plan : Plan T → Plans T → Plans T

-- PROJECTION over AGGREGATE over GET
abbrev pub aggregation {ℓ} :
    {T : Type ℓ} → List (Expression T) → Aggregate T → Get → Plans T → Plan T
aggregation es a g below =
    projection es (and_plan (aggregate a (and_plan (get g below) no_plan)) no_plan)

-- A table in the catalog: its TableKey and the names of its physical columns.
pub record Entry : Type 0 where
  pub key : Str
  pub columns : List Str

-- GetTotalRows of the table with a key, Catalog::GetEntry for a projection, and the return type of
-- sum over BIGINT, when that binds.
pub record Catalog {ℓ} (T : Type ℓ) : Type ℓ where
  pub total_rows : Str → ℕ
  pub get_entry : Projection → Option Entry
  pub sum_type : Option T

abbrev pub count_column : Str
count_column = codes "count"

-- projection_columns: the index that was assigned last, in a map that ignores case
unfoldable pub index_from : ℕ → List Str → Str → Option ℕ
index_from i [] name = none
index_from i (n ∷ names) name = elim (index_from (suc i) names name) [
  | some j ↦ some j
  | none ↦ if str_eq (lower n) (lower name) then some i else none
]

abbrev pub physical_index : List Str → Str → Option ℕ
physical_index = index_from 0

unfoldable pub column_ids_of : List Str → List Str → Option (List ℕ)
column_ids_of columns [] = some []
column_ids_of columns (name ∷ names) = do
  i ← physical_index columns name
  ids ← column_ids_of columns names
  some (i ∷ ids)

-- What TryRewriteToProjection finds: the projection table and the columns that it scans there.
pub record Target : Type 0 where
  pub entry : Entry
  pub ids : List ℕ
  pub count : ℕ

-- The retargeted scan.
abbrev pub new_get : Get → Target → Get
new_get g t = record {
  table_index = g.table_index;
  table = some t.entry.key;
  filters = [];
  names = t.entry.columns;
  column_ids = t.ids ++ t.count ∷ [];
}

-- What becomes of a plan. The groups are retargeted before sum is bound, so that the second case
-- leaves them changed.
pub data Rewriting {ℓ} (T : Type ℓ) : Type ℓ where
  keeps : Rewriting T
  unbound : Aggregate T → Rewriting T
  rewrites : List (Expression T) → Aggregate T → Get → Rewriting T

module _ {ℓ} {T : Type ℓ} where
  -- A group that is a column of the scan.
  abbrev pub group_name : Get → Expression T → Option Str
  group_name g (column_ref b t) = do
    guard (b.table_index == g.table_index)
    resolve_get_column g b.column_index
  group_name g (cast_to e t) = none
  group_name g (other_expression t) = none

  unfoldable pub group_names : Get → List (Expression T) → Option (List Str)
  group_names g [] = some []
  group_names g (e ∷ es) = do name ← group_name g e; names ← group_names g es; some (name ∷ names)

  -- A FILTER clause is not looked at.
  abbrev pub is_count_star : AggregateCall T → Bool
  is_count_star (call name [] false filter) = str_eq name (codes "count_star")
  is_count_star _ = false

  -- One count(*), and no grouping sets.
  abbrev pub counts_only : Aggregate T → Bool
  counts_only a =
      a.grouping_functions == 0
      && (leb a.grouping_sets 1
          && ((elim a.calls [ c ∷ [] ↦ is_count_star c | _ ↦ false ]) && not (is_empty a.groups)))

  abbrev pub all_columns : List (Expression T) → Bool
  all_columns [] = true
  all_columns (column_ref b t ∷ es) = all_columns es
  all_columns (_ ∷ es) = false

  -- aggregate.groups[i] refers to column i of the new scan.
  abbrev pub retarget : ℕ → ℕ → List (Expression T) → List (Expression T)
  retarget table_index i [] = []
  retarget table_index i (column_ref b t ∷ es) =
      column_ref (record { table_index = table_index; column_index = i }) t
      ∷ retarget table_index (suc i) es
  retarget table_index i (e ∷ es) = e ∷ retarget table_index (suc i) es

  -- The column of the counts is cast to the type that it had.
  abbrev pub cast_output : ℕ → T → Expression T → Expression T
  cast_output aggregate_index sum_type (column_ref b t) =
      if b.table_index == aggregate_index && b.column_index == 0
      then cast_to (column_ref b sum_type) t
      else column_ref b t
  cast_output aggregate_index sum_type e = e

  abbrev pub retargeted : Aggregate T → Get → Aggregate T
  retargeted a g = record a { groups = retarget g.table_index 0 a.groups }

  abbrev pub with_aggregate : Aggregate T → Plans T → Plans T
  with_aggregate a (and_plan (aggregate b below) rest) = and_plan (aggregate a below) rest
  with_aggregate a plans = plans

  -- The plan after the attempt, given the children as RewriteAggregates leaves them. A scan that
  -- replaced another has no children.
  abbrev pub after_attempt : List (Expression T) → Plans T → Rewriting T → Plan T
  after_attempt es children keeps = projection es children
  after_attempt es children (unbound a) = projection es (with_aggregate a children)
  after_attempt es children (rewrites es' a g) = aggregation es' a g no_plan

  -- `join` is StringUtil::Join with ", ".
  module _ (join : List Str → Str) (catalog : Catalog T) (s : StatsCache) where
    -- A projection is registered for these columns, and the table has as many rows as it then had.
    unfoldable pub fresh_projection : Str → List Str → Option Projection
    fresh_projection key names = do
      p ← find key s.projections
      guard (str_eq p.group_set (join (sort_names names)))
      guard (catalog.total_rows key == p.base_rows)
      some p

    unfoldable pub find_target : List (Expression T) → Aggregate T → Get → Option Target
    find_target es a g = do
      key ← g.table
      guard (is_empty g.filters)
      guard (counts_only a)
      names ← group_names g a.groups
      p ← fresh_projection key names
      entry ← catalog.get_entry p
      guard (all_columns es)
      ids ← column_ids_of entry.columns names
      count ← physical_index entry.columns count_column
      some (record { entry = entry; ids = ids; count = count })

    module _ (bigint : T) where
      -- CAST(sum(count) AS BIGINT) for count(*)
      abbrev pub summed : List (Expression T) → Aggregate T → Get → T → Target → Rewriting T
      summed es a g sum_type t =
          rewrites (map (cast_output a.aggregate_index sum_type) es)
            (record (retargeted a g) {
              calls =
                  call (codes "sum")
                    (column_ref
                        (record { table_index = g.table_index; column_index = length t.ids }) bigint
                      ∷ [])
                    false none
                  ∷ [];
            })
            (new_get g t)

      abbrev pub attempt_on : List (Expression T) → Aggregate T → Get → Option Target → Rewriting T
      attempt_on es a g none = keeps
      attempt_on es a g (some t) = elim catalog.sum_type [
        | none ↦ unbound (retargeted a g)
        | some sum_type ↦ summed es a g sum_type t
      ]

      -- TryRewriteToProjection, on a projection with its children
      abbrev pub try_rewrite_to_projection : List (Expression T) → Plans T → Rewriting T
      try_rewrite_to_projection es
            (and_plan (aggregate a (and_plan (get g below) no_plan)) no_plan) =
          attempt_on es a g (find_target es a g)
      try_rewrite_to_projection es _ = keeps

      unfoldable mutual
        -- RewriteAggregates
        pub rewrite_aggregates : Plan T → Plan T
        rewrite_aggregates (get g children) = get g (rewrite_children children)
        rewrite_aggregates (projection es children) =
            after_attempt es (rewrite_children children) (try_rewrite_to_projection es children)
        rewrite_aggregates (aggregate a children) = aggregate a (rewrite_children children)
        rewrite_aggregates (other_operator children) = other_operator (rewrite_children children)

        pub rewrite_children : Plans T → Plans T
        rewrite_children no_plan = no_plan
        rewrite_children (and_plan p plans) =
            and_plan (rewrite_aggregates p) (rewrite_children plans)

      -- RawDuckPreOptimizeHook, where `enabled` is the setting rawduck_use_projections
      unfoldable pub pre_optimize_hook : Bool → Plan T → Plan T
      pre_optimize_hook enabled plan =
          if enabled && not (is_empty s.projections) then rewrite_aggregates plan else plan
