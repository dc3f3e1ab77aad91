-- ===== src/Stats/Ordered.antt =====
-- The maps of the cache stay ordered maps.
use rawduck.Prelude.{
  ℕ, ◌+◌, Str, str_eq, List, [], ◌∷◌, ◌++◌, map, All, Bool-cases, inl, inr, Option, none, some,
  get_elem?,
}
use rawduck.Dict.{Dict, update, IsOrdered, str_less}
use rawduck.Dict.Laws.{update-IsOrdered}
use rawduck.Stats.{
  ColumnUsage, no_usage, StatsCache, add_usage, use_column, use_group_set, StoredRow, column_kind,
  group_set_kind, load_row, stats_load,
}
use rawduck.Stats.Stored.{IsNested, IsWellOrdered}
use rawduck.Stats.Plan.{
  Op, Ops, get, projection, aggregate, other_op, no_op, and_op, Get, Source, count_filters,
  count_groups, resolve_group, count_group_sets, sort_names, collect_gets, collect_stats,
  collect_stats_of, optimize_hook,
}

update_values {ℓ κ} :
    {V : Type ℓ} (P : V → Type κ) (v : V) (f : V → V) (k : Str) (m : Dict V)
    → P v
    → ((w : V) → P w → P (f w))
    → All (λ e. P e.1) m
    → All (λ e. P e.1) (update v f k m)
unfolding update
update_values P v f k [] p g h = (g v p, tt)
update_values P v f k (e ∷ m) p g h = elim (Bool-cases (str_eq k e.0)) [
  | inl a ↦ rw a (g e.1 h.0, h.1)
  | inr a ↦ elim (Bool-cases (str_less k e.0)) [
    | inl b ↦ rw (a, b) (g v p, h)
    | inr b ↦ rw (a, b) (h.0, update_values P v f k m p g h.1)
  ]
]

update-IsNested {ℓ} :
    {V : Type ℓ} (v : V) (f : V → V) (t c : Str) (m : Dict (Dict V))
    → IsNested m
    → IsNested (update [] (update v f c) t m)
update-IsNested v f t c m h = (
  update-IsOrdered [] (update v f c) t m h.0,
  update_values IsOrdered [] (update v f c) t m tt (λ w o. update-IsOrdered v f c w o) h.1,
)

use_column-IsWellOrdered :
    (f : ColumnUsage → ColumnUsage) (t c : Str) (s : StatsCache)
    → IsWellOrdered s
    → IsWellOrdered (use_column f t c s)
use_column-IsWellOrdered f t c s h = (update-IsNested no_usage f t c s.usage h.0, h.1)

use_group_set-IsWellOrdered :
    (f : ℕ → ℕ) (t g : Str) (s : StatsCache)
    → IsWellOrdered s
    → IsWellOrdered (use_group_set f t g s)
use_group_set-IsWellOrdered f t g s h = (h.0, update-IsNested 0 f t g s.group_sets h.1)

stats_load-IsWellOrdered :
    (rows : List StoredRow) (s : StatsCache) → IsWellOrdered s → IsWellOrdered (stats_load s rows)
unfolding stats_load load_row
stats_load-IsWellOrdered [] s h = h
stats_load-IsWellOrdered (r ∷ rows) s h =
    stats_load-IsWellOrdered rows (load_row s r) (elim (Bool-cases (str_eq r.kind column_kind)) [
      | inl a ↦ rw a (use_column-IsWellOrdered (add_usage r.filters r.groups) r.table r.item s h)
      | inr a ↦ elim (Bool-cases (str_eq r.kind group_set_kind)) [
        | inl b ↦ rw (a, b) (use_group_set-IsWellOrdered (λ n. n + r.filters) r.table r.item s h)
        | inr b ↦ rw (a, b) h
      ]
    ])

count_filters-IsWellOrdered :
    (t : Str) (names : List Str) (filters : List ℕ) (s : StatsCache)
    → IsWellOrdered s
    → IsWellOrdered (count_filters t names filters s)
unfolding count_filters
count_filters-IsWellOrdered t names [] s h = h
count_filters-IsWellOrdered t names (f ∷ filters) s h =
    count_filters-IsWellOrdered t names filters _ (one (get_elem? names f))
  where
    one :
        (o : Option Str)
        → IsWellOrdered (elim o as (λ _. StatsCache) [
          | none ↦ s
          | some name ↦ use_column (add_usage 1 0) t name s
        ])
    one none = h
    one (some name) = use_column-IsWellOrdered (add_usage 1 0) t name s h

count_groups-IsWellOrdered :
    (groups : List (Option (Str × Str))) (r : StatsCache × Dict (List Str))
    → IsWellOrdered r.0
    → IsWellOrdered (count_groups groups r).0
unfolding count_groups
count_groups-IsWellOrdered [] r h = h
count_groups-IsWellOrdered (none ∷ groups) r h = count_groups-IsWellOrdered groups r h
count_groups-IsWellOrdered (some g ∷ groups) r h =
    count_groups-IsWellOrdered groups
      (use_column (add_usage 0 1) g.0 g.1 r.0, update [] (λ columns. columns ++ (g.1 ∷ [])) g.0 r.1)
      (use_column-IsWellOrdered (add_usage 0 1) g.0 g.1 r.0 h)

module _ (join : List Str → Str) where
  count_group_sets-IsWellOrdered :
      (sets : Dict (List Str)) (s : StatsCache)
      → IsWellOrdered s
      → IsWellOrdered (count_group_sets join sets s)
  unfolding count_group_sets
  count_group_sets-IsWellOrdered [] s h = h
  count_group_sets-IsWellOrdered (e ∷ sets) s h =
      count_group_sets-IsWellOrdered sets _
        (use_group_set-IsWellOrdered (λ n. n + 1) e.0 (join (sort_names e.1)) s h)

  count_scan-IsWellOrdered :
      (g : Get) (s : StatsCache) (o : Option Str)
      → IsWellOrdered s
      → IsWellOrdered (elim o [ none ↦ s | some t ↦ count_filters t g.names g.filters s ])
  count_scan-IsWellOrdered g s none h = h
  count_scan-IsWellOrdered g s (some t) h = count_filters-IsWellOrdered t g.names g.filters s h

  mutual
    unfolding collect_stats

    collect_stats-IsWellOrdered :
        (operators : List (ℕ × Source)) (op : Op) (s : StatsCache)
        → IsWellOrdered s
        → IsWellOrdered (collect_stats join operators op s)
    collect_stats-IsWellOrdered operators (get g children) s h =
        collect_stats_of-IsWellOrdered operators children _ (count_scan-IsWellOrdered g s g.table h)
    collect_stats-IsWellOrdered operators (projection i es children) s h =
        collect_stats_of-IsWellOrdered operators children s h
    collect_stats-IsWellOrdered operators (aggregate groups children) s h =
        let resolved = map (resolve_group operators) groups in
        let r = count_groups resolved (s, []) in
        collect_stats_of-IsWellOrdered operators children _
          (count_group_sets-IsWellOrdered r.1 r.0 (count_groups-IsWellOrdered resolved (s, []) h))
    collect_stats-IsWellOrdered operators (other_op children) s h =
        collect_stats_of-IsWellOrdered operators children s h

    collect_stats_of-IsWellOrdered :
        (operators : List (ℕ × Source)) (ops : Ops) (s : StatsCache)
        → IsWellOrdered s
        → IsWellOrdered (collect_stats_of join operators ops s)
    collect_stats_of-IsWellOrdered operators no_op s h = h
    collect_stats_of-IsWellOrdered operators (and_op op ops) s h =
        collect_stats_of-IsWellOrdered operators ops (collect_stats join operators op s)
          (collect_stats-IsWellOrdered operators op s h)

  -- The maps of the cache, from each table to its columns and to its group sets, stay in the order
  -- of their keys with no key twice, whatever plans the hook sees and whatever rows are loaded.
  pub optimize_hook-IsWellOrdered :
      (plan : Op) (rows : List StoredRow) (s : StatsCache)
      → IsWellOrdered s
      → IsWellOrdered (optimize_hook join plan s) × IsWellOrdered (stats_load s rows)
  unfolding optimize_hook
  optimize_hook-IsWellOrdered plan rows s h = (
    collect_stats-IsWellOrdered (collect_gets plan []) plan s h,
    stats_load-IsWellOrdered rows s h,
  )
