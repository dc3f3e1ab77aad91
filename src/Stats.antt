-- ===== src/Stats.antt =====
-- The statistics of src/raw_optimize.cpp: RawStatsCache, raw_stats_save and raw_stats_load. A table
-- is named by its TableKey.
pub mod Plan
pub mod Counts
pub mod Collect
pub mod Stored
pub mod Traces
pub mod Ordered
use rawduck.Prelude.{
  ℕ, suc, zero, ◌+◌, ltb, leb, length, get_elem?, Bool, true, false, Str, codes, str_eq, Option,
  none, some, List, [], ◌∷◌, ◌++◌, map, if◌then◌else◌, ◌==◌,
}
use rawduck.Flatten.{is_empty}
use rawduck.Dict.{Dict, find, value_or, update, str_less}

-- RawColumnUsage
pub record ColumnUsage : Type 0 where
  pub filters : ℕ
  pub groups : ℕ

abbrev pub no_usage : ColumnUsage
no_usage = record { filters = 0; groups = 0 }

-- RawStatsCache::Projection
pub record Projection : Type 0 where
  pub catalog : Str
  pub schema : Str
  pub name : Str
  pub group_set : Str
  pub base_rows : ℕ

-- RawStatsCache::OptimizeState
pub record OptimizeState : Type 0 where
  pub order_by : Str
  pub row_count : ℕ

-- RawStatsCache
pub record StatsCache : Type 0 where
  pub usage : Dict (Dict ColumnUsage)
  pub group_sets : Dict (Dict ℕ)
  pub projections : Dict Projection
  pub optimized : Dict OptimizeState

abbrev pub no_stats : StatsCache
no_stats = record { usage = []; group_sets = []; projections = []; optimized = [] }

-- An assignment to stats.usage[table][column]
abbrev pub use_column : (ColumnUsage → ColumnUsage) → Str → Str → StatsCache → StatsCache
use_column f table column s = record s {
  usage = update [] (update no_usage f column) table s.usage;
}

-- An assignment to stats.group_sets[table][group_set]
abbrev pub use_group_set : (ℕ → ℕ) → Str → Str → StatsCache → StatsCache
use_group_set f table group_set s = record s {
  group_sets = update [] (update 0 f group_set) table s.group_sets;
}

abbrev pub add_usage : ℕ → ℕ → ColumnUsage → ColumnUsage
add_usage filters groups u = record { filters = u.filters + filters; groups = u.groups + groups }

-- A row of the stored statistics.
pub record StoredRow : Type 0 where
  pub kind : Str
  pub table : Str
  pub item : Str
  pub filters : ℕ
  pub groups : ℕ

abbrev pub column_kind : Str
column_kind = codes "column"

abbrev pub group_set_kind : Str
group_set_kind = codes "group_set"

abbrev pub column_row : Str → Str × ColumnUsage → StoredRow
column_row table e = record {
  kind = column_kind;
  table = table;
  item = e.0;
  filters = e.1.filters;
  groups = e.1.groups;
}

abbrev pub group_set_row : Str → Str × ℕ → StoredRow
group_set_row table e = record {
  kind = group_set_kind;
  table = table;
  item = e.0;
  filters = e.1;
  groups = 0;
}

-- The rows of all tables, one for each entry.
unfoldable pub rows_by {ℓ} :
    {V : Type ℓ} → (Str → Str × V → StoredRow) → Dict (Dict V) → List StoredRow
rows_by row [] = []
rows_by row (t ∷ tables) = map (row t.0) t.1 ++ rows_by row tables

-- raw_stats_save: the rows that replace the stored table
unfoldable pub stats_save : StatsCache → List StoredRow
stats_save s = rows_by column_row s.usage ++ rows_by group_set_row s.group_sets

unfoldable pub load_row : StatsCache → StoredRow → StatsCache
load_row s r =
    if str_eq r.kind column_kind
    then use_column (add_usage r.filters r.groups) r.table r.item s
    else if str_eq r.kind group_set_kind
    then use_group_set (λ n. n + r.filters) r.table r.item s
    else s

-- raw_stats_load
unfoldable pub stats_load : StatsCache → List StoredRow → StatsCache
stats_load s [] = s
stats_load s (r ∷ rows) = stats_load (load_row s r) rows
