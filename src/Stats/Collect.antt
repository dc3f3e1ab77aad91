-- ===== src/Stats/Collect.antt =====
-- What the hook counts for the plan of a query.
pub mod Queries
use rawduck.Prelude.{
  ℕ, ◌+◌, ◌≡◌, refl, ap, ◌&&◌, Str, str_eq, List, [], ◌∷◌, ◌++◌, map, if◌then◌else◌, arith, Option,
  none, some, sum_by, sum_by-append, get_elem?, Bool, true, ◌↔◌,
}
use rawduck.Dict.{Dict, update}
use rawduck.Stats.{StatsCache, add_usage, use_column, use_group_set}
use rawduck.Stats.Counts.{usage_in, usage_of, at_keys, use_column-HasMore}
use rawduck.Stats.Traces.Groups.{TracesTo, is_column, is_column-TracesTo}
use rawduck.Stats.Plan.{
  Expr, Op, Ops, get, projection, aggregate, other_op, no_op, and_op, Get, Source, count_filters,
  count_groups, resolve_group, count_group_sets, count_aggregate, count_scan, collect_gets,
  collect_stats, collect_stats_of, optimize_hook,
}
use rawduck.Stats.Collect.Queries.{
  filter_on, filters_on, group_on, groups_on, plan_filters, plan_filters_of, plan_groups,
  plan_groups_of, all_groups, groups_below, hit, plan_groups-all,
}

-- What the second cache has counted for the column more than the first.
abbrev pub Counted : StatsCache → StatsCache → Str → Str → ℕ → ℕ → Type 0
Counted s t table column filters groups =
    ((usage_of t table column).filters ≡ (usage_of s table column).filters + filters)
    × ((usage_of t table column).groups ≡ (usage_of s table column).groups + groups)

nothing-Counted : (s : StatsCache) (table column : Str) → Counted s s table column 0 0
nothing-Counted s table column = (omega arith, omega arith)

use_column-Counted :
    (s : StatsCache) (t c table column : Str) (f g : ℕ)
    → Counted s
        (use_column (add_usage f g) t c s)
        table
        column
        (at_keys t c table column f)
        (at_keys t c table column g)
use_column-Counted s t c table column f g =
    let h = use_column-HasMore s t c table column f g in (h.0, h.1)

at_keys_zero : (t c table column : Str) → at_keys t c table column 0 ≡ 0
at_keys_zero t c table column = ground arith

one_filter-Counted :
    (t : Str) (s : StatsCache) (table column : Str) (o : Option Str)
    → Counted s
        (elim o [ none ↦ s | some name ↦ use_column (add_usage 1 0) t name s ])
        table
        column
        (if str_eq table t
          then (elim o [ none ↦ 0 | some name ↦ if str_eq column name then 1 else 0 ])
          else 0)
        0
one_filter-Counted t s table column none = (ground arith, omega arith)
one_filter-Counted t s table column (some name) =
    let a = use_column-Counted s t name table column 1 0 in
    (ground (arith, a.0), omega (arith, a.1, at_keys_zero t name table column))

count_filters-Counted :
    (t : Str) (names : List Str) (filters : List ℕ) (s : StatsCache) (table column : Str)
    → Counted s
        (count_filters t names filters s)
        table
        column
        (if str_eq table t then sum_by (filter_on column names) filters else 0)
        0
unfolding count_filters
count_filters-Counted t names [] s table column = (ground arith, omega arith)
count_filters-Counted t names (f ∷ filters) s table column =
    let one = one_filter-Counted t s table column (get_elem? names f) in
    let after : StatsCache = elim (get_elem? names f) [
      | none ↦ s
      | some name ↦ use_column (add_usage 1 0) t name s
    ] in
    let rest = count_filters-Counted t names filters after table column in
    (ground (arith, one.0, rest.0), omega (arith, one.1, rest.1))

count_groups-Counted :
    (groups : List (Option (Str × Str))) (r : StatsCache × Dict (List Str)) (table column : Str)
    → Counted r.0 (count_groups groups r).0 table column 0 (sum_by (group_on table column) groups)
unfolding count_groups
count_groups-Counted [] r table column = nothing-Counted r.0 table column
count_groups-Counted (none ∷ groups) r table column =
    let h = count_groups-Counted groups r table column in (h.0, omega (arith, h.1))
count_groups-Counted (some g ∷ groups) r table column =
    let next = use_column (add_usage 0 1) g.0 g.1 r.0 in
    let a = use_column-Counted r.0 g.0 g.1 table column 0 1 in
    let h =
      count_groups-Counted groups (next, update [] (λ columns. columns ++ (g.1 ∷ [])) g.0 r.1) table
        column in
    (omega (arith, a.0, h.0, at_keys_zero g.0 g.1 table column), omega (arith, a.1, h.1))

module _ (join : List Str → Str) where
  count_group_sets_usage :
      (sets : Dict (List Str)) (s : StatsCache) → (count_group_sets join sets s).usage ≡ s.usage
  unfolding count_group_sets
  count_group_sets_usage [] s = refl
  count_group_sets_usage (e ∷ sets) s = count_group_sets_usage sets (use_group_set _ e.0 _ s)

  count_scan-Counted :
      (g : Get) (s : StatsCache) (table column : Str) (o : Option Str)
      → Counted s
          (elim o [ none ↦ s | some t ↦ count_filters t g.names g.filters s ])
          table
          column
          (elim o [
            | none ↦ 0
            | some t ↦ if str_eq table t then sum_by (filter_on column g.names) g.filters else 0
          ])
          0
  count_scan-Counted g s table column none = nothing-Counted s table column
  count_scan-Counted g s table column (some t) =
      count_filters-Counted t g.names g.filters s table column

  sum_map_groups :
      (operators : List (ℕ × Source)) (table column : Str) (groups : List Expr)
      → sum_by (group_on table column) (map (resolve_group operators) groups)
        ≡ groups_on operators table column groups
  sum_map_groups operators table column [] = refl
  sum_map_groups operators table column (e ∷ groups) =
      omega (arith, sum_map_groups operators table column groups)

  count_aggregate-Counted :
      (operators : List (ℕ × Source)) (groups : List Expr) (s : StatsCache) (table column : Str)
      → Counted s
          (count_aggregate join operators groups s)
          table
          column
          0
          (groups_on operators table column groups)
  count_aggregate-Counted operators groups s table column =
      let r = count_groups (map (resolve_group operators) groups) (s, []) in
      let h = count_groups-Counted (map (resolve_group operators) groups) (s, []) table column in
      let same = count_group_sets_usage r.1 r.0 in
      (
        omega (arith, h.0, ap (λ u. (usage_in u table column).filters) same),
        omega (
          arith,
          h.1,
          ap (λ u. (usage_in u table column).groups) same,
          sum_map_groups operators table column groups,
        ),
      )

  mutual
    unfolding collect_stats plan_filters plan_groups

    collect_stats-Counted :
        (operators : List (ℕ × Source)) (op : Op) (s : StatsCache) (table column : Str)
        → Counted s
            (collect_stats join operators op s)
            table
            column
            (plan_filters table column op)
            (plan_groups operators table column op)
    collect_stats-Counted operators (get g children) s table column =
        let h = count_scan-Counted g s table column g.table in
        let k = collect_stats_of-Counted operators children (count_scan join g s) table column in
        (omega (arith, h.0, k.0), omega (arith, h.1, k.1))
    collect_stats-Counted operators (projection i es children) s table column =
        collect_stats_of-Counted operators children s table column
    collect_stats-Counted operators (aggregate groups children) s table column =
        let h = count_aggregate-Counted operators groups s table column in
        let k =
          collect_stats_of-Counted operators children (count_aggregate join operators groups s)
            table column in
        (omega (arith, h.0, k.0), omega (arith, h.1, k.1))
    collect_stats-Counted operators (other_op children) s table column =
        collect_stats_of-Counted operators children s table column

    collect_stats_of-Counted :
        (operators : List (ℕ × Source)) (ops : Ops) (s : StatsCache) (table column : Str)
        → Counted s
            (collect_stats_of join operators ops s)
            table
            column
            (plan_filters_of table column ops)
            (plan_groups_of operators table column ops)
    collect_stats_of-Counted operators no_op s table column = nothing-Counted s table column
    collect_stats_of-Counted operators (and_op op ops) s table column =
        let h = collect_stats-Counted operators op s table column in
        let k =
          collect_stats_of-Counted operators ops (collect_stats join operators op s) table column in
        (omega (arith, h.0, k.0), omega (arith, h.1, k.1))

  -- Whatever the shape of a plan, the hook adds to the usage of a column of a table one filter for
  -- each pushed-down filter on it, in any scan of the table, and one group for each grouping
  -- expression, in any aggregate, that refers to it: through at most 15 projections, each of which
  -- passes a column on, plain or in a wrapper of DuckDB's own, to a scan of the table that reads the
  -- column. It leaves the usage of other columns.
  pub optimize_hook-Counted :
      (plan : Op) (s : StatsCache) (table column : Str)
      → (refers : Expr → Bool) × (((e : Expr) → (refers e ≡ true) ↔ TracesTo plan e table column)
          × Counted s
              (optimize_hook join plan s)
              table
              column
              (plan_filters table column plan)
              (sum_by (λ e. if refers e then 1 else 0) (all_groups plan)))
  unfolding optimize_hook
  optimize_hook-Counted plan s table column =
      let operators = collect_gets plan [] in
      let counted = collect_stats-Counted operators plan s table column in
      (
        λ e. is_column table column (resolve_group operators e),
        (
          λ e. is_column-TracesTo plan table column e,
          (counted.0, omega (arith, counted.1, plan_groups-all operators table column plan)),
        ),
      )
