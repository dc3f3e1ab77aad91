-- ===== src/Stats/Plan.antt =====
-- CollectStats of src/raw_optimize.cpp, with CollectGets and TraceBinding, over the operators of a
-- plan. What a query filters on and groups by is counted in the cache.
use rawduck.Prelude.{
  ℕ, suc, zero, ◌+◌, get_elem?, Bool, true, false, Str, codes, Option, none, some, List, [], ◌∷◌,
  ◌++◌, map, if◌then◌else◌, ◌==◌,
}
use rawduck.Dict.{Dict, update, str_less}
use rawduck.Stats.{StatsCache, add_usage, use_column, use_group_set}

pub record Binding : Type 0 where
  pub table_index : ℕ
  pub column_index : ℕ

mutual
  -- A bound expression. A name of DuckDB's own wrappers begins with __internal_.
  pub data Expr : Type 0 where
    column_ref : Binding → Expr
    function : Str → Exprs → Expr
    other_expr : Expr

  pub data Exprs : Type 0 where
    no_expr : Exprs
    and_expr : Expr → Exprs → Exprs

-- LogicalGet. `table` is the key of the table, where it scans one; a filter is the index of a
-- column of the table.
pub record Get : Type 0 where
  pub table_index : ℕ
  pub table : Option Str
  pub filters : List ℕ
  pub names : List Str
  pub column_ids : List ℕ

mutual
  -- LogicalOperator, each with its children
  pub data Op : Type 0 where
    get : Get → Ops → Op
    projection : ℕ → List Expr → Ops → Op
    aggregate : List Expr → Ops → Op
    other_op : Ops → Op

  pub data Ops : Type 0 where
    no_op : Ops
    and_op : Op → Ops → Ops

-- What `operators` points to.
pub data Source : Type 0 where
  scans : Get → Source
  projects : List Expr → Source

unfoldable mutual
  pub collect_gets : Op → List (ℕ × Source) → List (ℕ × Source)
  collect_gets (get g children) operators =
      collect_gets_of children ((g.table_index, scans g) ∷ operators)
  collect_gets (projection table_index es children) operators =
      collect_gets_of children ((table_index, projects es) ∷ operators)
  collect_gets (aggregate groups children) operators = collect_gets_of children operators
  collect_gets (other_op children) operators = collect_gets_of children operators

  pub collect_gets_of : Ops → List (ℕ × Source) → List (ℕ × Source)
  collect_gets_of no_op operators = operators
  collect_gets_of (and_op op ops) operators = collect_gets_of ops (collect_gets op operators)

-- operators.find: the entry that was assigned last
unfoldable pub find_operator : List (ℕ × Source) → ℕ → Option Source
find_operator [] table_index = none
find_operator (o ∷ operators) table_index =
    let rest = find_operator operators table_index in if o.0 == table_index then some o.1 else rest

-- ResolveGetColumn
unfoldable pub resolve_get_column : Get → ℕ → Option Str
resolve_get_column g column_index = elim (get_elem? g.column_ids column_index) [
  | none ↦ none
  | some table_column ↦ get_elem? g.names table_column
]

-- StringUtil::StartsWith
abbrev pub starts_with : Str → Str → Bool
starts_with s [] = true
starts_with [] (b ∷ t) = false
starts_with (a ∷ s) (b ∷ t) = let rest = starts_with s t in if a == b then rest else false

-- Compressed materialization is unwrapped, once.
abbrev pub unwrap : Expr → Expr
unwrap (function name (and_expr e es)) =
    if starts_with name (codes "__internal_") then e else function name (and_expr e es)
unwrap e = e

-- The hops that TraceBinding makes.
abbrev pub max_hops : ℕ
max_hops = 16

unfoldable pub trace_binding : ℕ → List (ℕ × Source) → Binding → Option (Get × ℕ)
trace_binding zero operators b = none
trace_binding (suc hops) operators b = elim (find_operator operators b.table_index) [
  | none ↦ none
  | some source ↦ elim source [
    | scans g ↦ some (g, b.column_index)
    | projects es ↦ elim (get_elem? es b.column_index) [
      | none ↦ none
      | some e ↦ elim (unwrap e) [
        | column_ref inner ↦ trace_binding hops operators inner
        | _ ↦ none
      ]
    ]
  ]
]

-- The filters of a scan, keyed by the columns of the table.
unfoldable pub count_filters : Str → List Str → List ℕ → StatsCache → StatsCache
count_filters table names [] s = s
count_filters table names (f ∷ filters) s =
    count_filters table names filters (elim (get_elem? names f) [
      | none ↦ s
      | some column ↦ use_column (add_usage 1 0) table column s
    ])

-- A group that is a column of a table: the table and the column.
unfoldable pub resolve_group : List (ℕ × Source) → Expr → Option (Str × Str)
resolve_group operators (column_ref b) = elim (trace_binding max_hops operators b) [
  | none ↦ none
  | some r ↦ elim r.0.table [
    | none ↦ none
    | some table ↦ elim (resolve_get_column r.0 r.1) [
      | none ↦ none
      | some column ↦ some (table, column)
    ]
  ]
]
resolve_group operators _ = none

-- The loop over the groups, with table_group_sets.
unfoldable pub count_groups :
    List (Option (Str × Str)) → StatsCache × Dict (List Str) → StatsCache × Dict (List Str)
count_groups [] r = r
count_groups (none ∷ groups) r = count_groups groups r
count_groups (some g ∷ groups) r =
    count_groups groups
      (use_column (add_usage 0 1) g.0 g.1 r.0, update [] (λ columns. columns ++ (g.1 ∷ [])) g.0 r.1)

-- std::sort of names
unfoldable pub insert_name : Str → List Str → List Str
insert_name a [] = a ∷ []
insert_name a (b ∷ names) =
    let rest = insert_name a names in if str_less b a then b ∷ rest else a ∷ b ∷ names

unfoldable pub sort_names : List Str → List Str
sort_names [] = []
sort_names (a ∷ names) = insert_name a (sort_names names)

-- `join` is StringUtil::Join with ", ".
module _ (join : List Str → Str) where
  unfoldable pub count_group_sets : Dict (List Str) → StatsCache → StatsCache
  count_group_sets [] s = s
  count_group_sets (e ∷ sets) s =
      count_group_sets sets (use_group_set (λ n. n + 1) e.0 (join (sort_names e.1)) s)

  abbrev pub count_aggregate : List (ℕ × Source) → List Expr → StatsCache → StatsCache
  count_aggregate operators groups s =
      let r = count_groups (map (resolve_group operators) groups) (s, []) in
      count_group_sets r.1 r.0

  abbrev pub count_scan : Get → StatsCache → StatsCache
  count_scan g s = elim g.table [ none ↦ s | some table ↦ count_filters table g.names g.filters s ]

  -- CollectStats
  unfoldable mutual
    pub collect_stats : List (ℕ × Source) → Op → StatsCache → StatsCache
    collect_stats operators (get g children) s =
        collect_stats_of operators children (count_scan g s)
    collect_stats operators (projection table_index es children) s =
        collect_stats_of operators children s
    collect_stats operators (aggregate groups children) s =
        collect_stats_of operators children (count_aggregate operators groups s)
    collect_stats operators (other_op children) s = collect_stats_of operators children s

    pub collect_stats_of : List (ℕ × Source) → Ops → StatsCache → StatsCache
    collect_stats_of operators no_op s = s
    collect_stats_of operators (and_op op ops) s =
        collect_stats_of operators ops (collect_stats operators op s)

  -- RawDuckOptimizeHook
  unfoldable pub optimize_hook : Op → StatsCache → StatsCache
  optimize_hook plan s = collect_stats (collect_gets plan []) plan s
