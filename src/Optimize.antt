-- ===== src/Optimize.antt =====
-- raw_optimize and raw_project of src/raw_optimize.cpp: the ranking of the columns, the choice
-- between a full rewrite and a sort of the new rows, the effect of the statements on the table, and
-- the choice of a projection. ORDER BY, the quoting of names and the row numbers that DuckDB gives to
-- inserted rows are parameters.
pub mod Ranking
pub mod Rows
pub mod Hottest
pub mod Project
use rawduck.Prelude.{
  ℕ, suc, ◌+◌, ◌*◌, max, ltb, leb, ◌==◌, length, take, Bool, true, false, not, ◌&&◌, Str, codes,
  str_eq, Option, none, some, List, [], ◌∷◌, ◌++◌, map, if◌then◌else◌,
}
use rawduck.Dict.{Dict, find, value_or, update}
use rawduck.Stats.{ColumnUsage, StatsCache, OptimizeState}

abbrev pub Scored : Type 0
Scored = Str × ℕ

-- Filters count twice.
abbrev pub scored : Str × ColumnUsage → Scored
scored e = (e.0, 2 * e.1.filters + e.1.groups)

-- std::stable_sort, the highest count first
unfoldable pub insert_ranked : Scored → List Scored → List Scored
insert_ranked a [] = a ∷ []
insert_ranked a (b ∷ ranked) =
    let rest = insert_ranked a ranked in if ltb a.1 b.1 then b ∷ rest else a ∷ b ∷ ranked

unfoldable pub sort_ranked : List Scored → List Scored
sort_ranked [] = []
sort_ranked (a ∷ columns) = insert_ranked a (sort_ranked columns)

-- The columns of the table by how often queries filtered on them.
unfoldable pub rank_columns : StatsCache → Str → List Scored
rank_columns s table = sort_ranked (map scored (value_or [] (find table s.usage)))

-- The loop that writes the ORDER BY list, after its first column.
abbrev pub order_rest : (Str → Str) → List Scored → Str
order_rest quote [] = []
order_rest quote (a ∷ columns) = codes ", " ++ (quote a.0 ++ order_rest quote columns)

abbrev pub order_by : (Str → Str) → List Scored → Str
order_by quote [] = []
order_by quote (a ∷ columns) = quote a.0 ++ order_rest quote columns

-- The columns of the sort key.
abbrev pub order_columns : List Scored → List Scored
order_columns ranked = take 2 ranked

pub data Mode : Type 0 where
  noop incremental full : Mode

-- The row count of the last optimization with the same key; 0 where there is none.
abbrev pub last_count : Option OptimizeState → Str → ℕ
last_count none key = 0
last_count (some o) key = if str_eq o.order_by key then o.row_count else 0

abbrev pub choose_mode : ℕ → ℕ → ℕ → Mode
choose_mode last current rowid_end =
    if ltb 0 last && (current == rowid_end && current == last)
    then noop
    else if ltb 0 last && (current == rowid_end && ltb last current)
    then incremental
    else full

-- The rows of a table in the order of their row numbers.
module _ {ℓ} {R : Type ℓ} where
  -- coalesce(max(rowid) + 1, 0)
  unfoldable pub rowid_end : List (ℕ × R) → ℕ
  rowid_end [] = 0
  rowid_end (r ∷ rows) = max (suc r.0) (rowid_end rows)

  -- WHERE rowid >= tail, and the rows that a DELETE of these leaves
  unfoldable pub rows_from : ℕ → List (ℕ × R) → List (ℕ × R)
  rows_from tail [] = []
  rows_from tail (r ∷ rows) =
      let rest = rows_from tail rows in if leb tail r.0 then r ∷ rest else rest

  unfoldable pub rows_before : ℕ → List (ℕ × R) → List (ℕ × R)
  rows_before tail [] = []
  rows_before tail (r ∷ rows) =
      let rest = rows_before tail rows in if leb tail r.0 then rest else r ∷ rest

  abbrev pub contents : List (ℕ × R) → List R
  contents [] = []
  contents (r ∷ rows) = r.1 ∷ contents rows

  -- Rows that are inserted get numbers from `next` on.
  abbrev pub inserted : ℕ → List R → List (ℕ × R)
  inserted next [] = []
  inserted next (r ∷ rows) = (next, r) ∷ inserted (suc next) rows

  module _ (order : List Scored → List R → List R) (next_rowid : List (ℕ × R) → ℕ) where
    -- The statements of the three modes.
    unfoldable pub rewrite : Mode → List Scored → ℕ → List (ℕ × R) → List (ℕ × R)
    rewrite noop columns last rows = rows
    rewrite incremental columns last rows =
        rows_before last rows
        ++ inserted (next_rowid rows) (order columns (contents (rows_from last rows)))
    rewrite full columns last rows = inserted 0 (order columns (contents rows))

    -- The rows that the mode reports.
    abbrev pub reported : Mode → ℕ → List (ℕ × R) → ℕ
    reported noop last rows = 0
    reported incremental last rows = length (rows_from last rows)
    reported full last rows = length rows

    pub record Optimized : Type ℓ where
      pub stats : StatsCache
      pub table : List (ℕ × R)
      pub key : Str
      pub rows : ℕ
      pub mode : Mode

    abbrev pub remember : Str → OptimizeState → StatsCache → StatsCache
    remember table o s = record s { optimized = update o (λ _. o) table s.optimized }

    abbrev pub optimize_by : (Str → Str) → StatsCache → Str → List (ℕ × R) → List Scored → Optimized
    optimize_by quote s table rows columns =
        let key = order_by quote columns in
        let last = last_count (find table s.optimized) key in
        let mode = choose_mode last (length rows) (rowid_end rows) in
        record {
          stats = remember table (record { order_by = key; row_count = length rows }) s;
          table = rewrite mode columns last rows;
          key = key;
          rows = reported mode last rows;
          mode = mode;
        }

    -- Nothing observed yet is a no-op.
    abbrev pub optimize_ranked :
        (Str → Str) → StatsCache → Str → List (ℕ × R) → List Scored → Optimized
    optimize_ranked quote s table rows [] = record {
      stats = s;
      table = rows;
      key = [];
      rows = 0;
      mode = noop;
    }
    optimize_ranked quote s table rows (a ∷ ranked) =
        optimize_by quote s table rows (order_columns (a ∷ ranked))

    -- RawOptimizeFunction
    unfoldable pub raw_optimize : (Str → Str) → StatsCache → Str → List (ℕ × R) → Optimized
    raw_optimize quote s table rows = optimize_ranked quote s table rows (rank_columns s table)

-- The loop of raw_project: the group set that was observed most often, the first of these.
unfoldable pub hottest_set : Dict ℕ → Str × ℕ → Str × ℕ
hottest_set [] best = best
hottest_set (candidate ∷ sets) best =
    hottest_set sets (if ltb best.1 candidate.1 then candidate else best)

unfoldable pub project_set : StatsCache → Str → Str
project_set s table = (hottest_set (value_or [] (find table s.group_sets)) ([], 0)).0
