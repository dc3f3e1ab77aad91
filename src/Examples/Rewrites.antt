-- ===== src/Examples/Rewrites.antt =====
-- A projection that raw_project registers, and a query that is moved onto it.
use rawduck.Prelude.{
  ℕ, ◌≡◌, refl, str_eq, Str, List, [], ◌∷◌, ◌++◌, codes, Option, some, none, true, false,
  if◌then◌else◌,
}
use mathlib.Core.List.Perm
use rawduck.Dict.{find, str_less}
use rawduck.Stats.{Projection, StatsCache, no_stats}
use rawduck.Stats.Plan.{Get, resolve_get_column, sort_names, insert_name}
use rawduck.Optimize.Project.{BaseTable, Projected, register}
use rawduck.Rewrite.{
  Expression, column_ref, cast_to, Aggregate, call, Plan, aggregation, no_plan, Entry, Catalog,
  index_from, column_ids_of, group_names, fresh_projection, find_target, rewrite_aggregates,
  pre_optimize_hook,
}

abbrev table_key : Str
table_key = codes "m.s.t"

abbrev columns : List Str
columns = codes "a" ∷ codes "b" ∷ []

abbrev entry : Entry
entry = record { key = codes "m.s.t__proj"; columns = codes "a" ∷ codes "b" ∷ codes "count" ∷ [] }

abbrev base_rows : List (List ℕ)
base_rows = (1 ∷ 2 ∷ []) ∷ (1 ∷ 2 ∷ []) ∷ (3 ∷ 4 ∷ []) ∷ []

abbrev projection_rows : List (List ℕ)
projection_rows = (1 ∷ 2 ∷ 2 ∷ []) ∷ (3 ∷ 4 ∷ 1 ∷ []) ∷ []

abbrev tables : Str → List (List ℕ)
tables key = if str_eq key table_key then base_rows else projection_rows

abbrev number : Option ℕ → ℕ
number none = 0
number (some n) = n

abbrev join_names : List Str → Str
join_names [] = []
join_names (name ∷ []) = name
join_names (name ∷ other ∷ names) = name ++ (codes ", " ++ join_names (other ∷ names))

abbrev the_projection : Projection
the_projection = record {
  catalog = codes "m";
  schema = codes "s";
  name = codes "t__proj";
  group_set = codes "a, b";
  base_rows = 3;
}

abbrev cache : StatsCache
cache = record no_stats { projections = (table_key, the_projection) ∷ [] }

-- BIGINT is 8 and HUGEINT 16.
abbrev catalog : Catalog ℕ
catalog = record { total_rows = λ key. 3; get_entry = λ p. some entry; sum_type = some 16 }

abbrev groups_of_rows : List (List (List ℕ))
groups_of_rows = ((1 ∷ 2 ∷ []) ∷ (1 ∷ 2 ∷ []) ∷ []) ∷ ((3 ∷ 4 ∷ []) ∷ []) ∷ []

-- SELECT b, a, count(*) FROM t GROUP BY b, a
abbrev query_scan : Get
query_scan = record {
  table_index = 0;
  table = some table_key;
  filters = [];
  names = columns;
  column_ids = 1 ∷ 0 ∷ [];
}

abbrev column : ℕ → ℕ → Expression ℕ
column table_index i = column_ref (record { table_index = table_index; column_index = i }) 8

abbrev counting : Aggregate ℕ
counting = record {
  aggregate_index = 2;
  groups = column 0 0 ∷ column 0 1 ∷ [];
  calls = call (codes "count_star") [] false none ∷ [];
  grouping_functions = 0;
  grouping_sets = 0;
}

abbrev query : Plan ℕ
query = aggregation (column 1 0 ∷ column 1 1 ∷ column 2 0 ∷ []) counting query_scan no_plan

abbrev moved : Plan ℕ
moved =
    aggregation
      (column 1 0
        ∷ column 1 1
        ∷ cast_to (column_ref (record { table_index = 2; column_index = 0 }) 16) 8
        ∷ [])
      (record counting { calls = call (codes "sum") (column 0 2 ∷ []) false none ∷ [] })
      (record query_scan {
        table = some entry.key;
        names = entry.columns;
        column_ids = 1 ∷ 0 ∷ 2 ∷ [];
      })
      no_plan

hook_run : pre_optimize_hook join_names catalog cache 8 true query ≡ moved
unfolding pre_optimize_hook rewrite_aggregates find_target fresh_projection group_names
    column_ids_of index_from find resolve_get_column sort_names insert_name str_less
hook_run = refl

abbrev base_table : BaseTable
base_table = record {
  key = table_key;
  catalog = codes "m";
  schema = codes "s";
  name = codes "t";
  total_rows = 3;
}

abbrev observed : StatsCache
observed = record no_stats { group_sets = (table_key, (codes "a, b", 2) ∷ []) ∷ [] }

abbrev projected : Projected
projected = record {
  stats = register base_table (codes "a, b") observed;
  projection = some (codes "t__proj");
  group_columns = some (codes "a, b");
  rows = 2;
}
