-- ===== src/Examples/Statistics.antt =====
-- The statistics of one query, and a small table that is optimized.
use rawduck.Prelude.{
  Bool, true, ◌↔◌, sum_by, if◌then◌else◌, ℕ, ◌+◌, ◌*◌, ◌<◌, ◌⊎◌, ◌++◌, ◌≡◌, refl, Str, List, [],
  ◌∷◌, map, codes, some, arith, All, length, drop,
}
use mathlib.Core.List.{Perm}
use rawduck.Dict.{find, value_or, str_less, update, IsOrdered}
use rawduck.Stats.{StatsCache, no_stats, stats_save, stats_load}
use rawduck.Stats.Traces.Groups.{TracesTo}
use rawduck.Stats.Collect.Queries.{plan_filters, all_groups}
use rawduck.Stats.Collect.{Counted, optimize_hook-Counted}
use rawduck.Stats.Plan.{
  Expr, Op, Get, column_ref, get, projection, aggregate, no_op, and_op, collect_gets, collect_stats,
  optimize_hook, count_filters, resolve_group, trace_binding, find_operator, resolve_get_column,
  count_groups, count_group_sets, sort_names, insert_name,
}
use rawduck.Stats.Counts.{usage_of, observed_of, HasMore}
use rawduck.Stats.Stored.{IsWellOrdered, stats_load-stats_save}
use rawduck.Optimize.{Scored, rank_columns, order_columns, choose_mode, rewrite, rowid_end}
use rawduck.Optimize.Ranking.{IsHotter, IsRanked, order_columns-hottest}
use rawduck.Optimize.Rows.{HasEffect, rewrite-HasEffect}

abbrev table_scan : Get
table_scan = record {
  table_index = 3;
  table = some (codes "db.main.t");
  filters = 1 ∷ [];
  names = codes "a" ∷ codes "b" ∷ [];
  column_ids = 0 ∷ 1 ∷ [];
}

-- SELECT a FROM t WHERE b … GROUP BY a, over a projection
abbrev query_plan : Op
query_plan = aggregate (column_ref (record { table_index = 5; column_index = 0 }) ∷ []) (
    and_op
      (projection 5 (column_ref (record { table_index = 3; column_index = 0 }) ∷ [])
        (and_op (get table_scan no_op) no_op))
      no_op)

abbrev first_name : List Str → Str
first_name [] = []
first_name (a ∷ names) = a

optimize_hook-Counted_example :
    (refers : Expr → Bool) × (((e : Expr)
        → (refers e ≡ true) ↔ TracesTo query_plan e (codes "db.main.t") (codes "a"))
      × Counted no_stats
          (optimize_hook first_name query_plan no_stats)
          (codes "db.main.t")
          (codes "a")
          (plan_filters (codes "db.main.t") (codes "a") query_plan)
          (sum_by (λ e. if refers e then 1 else 0) (all_groups query_plan)))
optimize_hook-Counted_example =
    optimize_hook-Counted first_name query_plan no_stats (codes "db.main.t") (codes "a")

abbrev seen : StatsCache
seen = record no_stats {
  usage =
      (
        codes "db.main.t",
        (codes "a", record { filters = 0; groups = 1 })
            ∷ (codes "b", record { filters = 1; groups = 0 })
            ∷ [],
      )
      ∷ [];
  group_sets = (codes "db.main.t", (codes "a", 1) ∷ []) ∷ [];
}

seen_run : optimize_hook first_name query_plan no_stats ≡ seen
unfolding optimize_hook collect_stats collect_gets count_filters count_groups resolve_group
    trace_binding find_operator resolve_get_column count_group_sets sort_names insert_name update
    str_less
seen_run = refl

seen-IsWellOrdered : IsWellOrdered seen
unfolding str_less
seen-IsWellOrdered = (((tt, tt), (((refl, tt), (tt, tt)), tt)), ((tt, tt), ((tt, tt), tt)))

stats_load-stats_save_example :
    HasMore no_stats
      (stats_load no_stats (stats_save seen))
      (codes "db.main.t")
      (codes "b")
      (usage_of seen (codes "db.main.t") (codes "b")).filters
      (usage_of seen (codes "db.main.t") (codes "b")).groups
      (observed_of seen (codes "db.main.t") (codes "b"))
stats_load-stats_save_example =
    stats_load-stats_save seen no_stats (codes "db.main.t") (codes "b") seen-IsWellOrdered

ranked_usage : IsOrdered (value_or [] (find (codes "db.main.t") seen.usage))
unfolding str_less find
ranked_usage = ((refl, tt), (tt, tt))

order_columns-hottest_example :
    let used = value_or [] (find (codes "db.main.t") seen.usage) in
    let ranked = rank_columns seen (codes "db.main.t") in
    let key = order_columns ranked in
    IsRanked ranked
    × (Perm ranked (map (λ e. (e.0, 2 * e.1.filters + e.1.groups)) used)
        × (((length key ≡ 2) ⊎ ((length key ≡ length used) × (length used < 2)))
            × ((key ++ drop 2 ranked ≡ ranked) × All (λ a. All (IsHotter a) (drop 2 ranked)) key)))
order_columns-hottest_example = order_columns-hottest seen (codes "db.main.t") ranked_usage

-- Rows that ORDER BY leaves as they are.
abbrev as_is : List Scored → List ℕ → List ℕ
as_is columns rows = rows

abbrev next_of : List (ℕ × ℕ) → ℕ
next_of rows = 7

abbrev rows : List (ℕ × ℕ)
rows = (0, 40) ∷ (1, 30) ∷ (2, 50) ∷ []

rewrite-HasEffect_example :
    HasEffect as_is next_of [] 1 rows
      (choose_mode 1 (length rows) (rowid_end rows))
      (rewrite as_is next_of (choose_mode 1 (length rows) (rowid_end rows)) [] 1 rows)
rewrite-HasEffect_example =
    rewrite-HasEffect as_is next_of [] 1 rows (omega arith, (omega arith, (omega arith, tt)))
