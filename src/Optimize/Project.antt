-- ===== src/Optimize/Project.antt =====
-- raw_project and raw_projections of src/raw_optimize.cpp: the projection that is built and
-- registered, and the list of the group sets. The statement that builds the table is a parameter.
pub mod Offers
use rawduck.Prelude.{
  ℕ, Bool, true, false, Str, str_eq, codes, Option, none, some, List, [], ◌∷◌, ◌++◌, map,
  if◌then◌else◌,
}
use rawduck.Flatten.{is_empty}
use rawduck.Dict.{Dict, find, update}
use rawduck.Stats.{Projection, StatsCache}
use rawduck.Optimize.{project_set}

-- A table of the catalog, with its TableKey and its GetTotalRows.
pub record BaseTable : Type 0 where
  pub key : Str
  pub catalog : Str
  pub schema : Str
  pub name : Str
  pub total_rows : ℕ

-- The row that raw_project returns, where NULL is `none`, and the cache that it leaves.
pub record Projected : Type 0 where
  pub stats : StatsCache
  pub projection : Option Str
  pub group_columns : Option Str
  pub rows : ℕ

abbrev pub projection_name : BaseTable → Str
projection_name table = table.name ++ codes "__proj"

abbrev pub registered_projection : BaseTable → Str → Projection
registered_projection table group_set = record {
  catalog = table.catalog;
  schema = table.schema;
  name = projection_name table;
  group_set = group_set;
  base_rows = table.total_rows;
}

abbrev pub register : BaseTable → Str → StatsCache → StatsCache
register table group_set s =
    let p = registered_projection table group_set in
    record s { projections = update p (λ _. p) table.key s.projections }

-- After the statement, which failed or gave the number of rows.
abbrev pub after_create : StatsCache → BaseTable → Str → Option ℕ → Option Projected
after_create s table group_set none = none
after_create s table group_set (some rows) = some (record {
  stats = register table group_set s;
  projection = some (projection_name table);
  group_columns = some group_set;
  rows = rows;
})

-- `split` is StringUtil::Split at ", "; `create` is CREATE OR REPLACE TABLE … AS SELECT the columns
-- and count(*) with GROUP BY ALL.
module _ (split : Str → List Str) (create : Str → List Str → Option ℕ) where
  -- RawProjectFunction
  unfoldable pub raw_project : StatsCache → BaseTable → Option Projected
  raw_project s table =
      let group_set = project_set s table.key in
      if is_empty group_set
      then some (record { stats = s; projection = none; group_columns = none; rows = 0 })
      else after_create s table group_set (create (projection_name table) (split group_set))

-- An entry of raw_projections: the table, the group set, how often it was observed, and the name of
-- the projection, which is empty where there is none.
abbrev pub Listed : Type 0
Listed = Str × (Str × (ℕ × Str))

abbrev pub name_for : Option Projection → Str → Str
name_for none group_set = []
name_for (some p) group_set = if str_eq p.group_set group_set then p.name else []

unfoldable pub entries_of : StatsCache → Dict (Dict ℕ) → List Listed
entries_of s [] = []
entries_of s (t ∷ tables) =
    map (λ e. (t.0, (e.0, (e.1, name_for (find t.0 s.projections) e.0)))) t.1 ++ entries_of s tables

-- RawProjectionsInit
unfoldable pub raw_projections : StatsCache → List Listed
raw_projections s = entries_of s s.group_sets
