-- ===== src/Stats/Stored.antt =====
-- Statistics that are saved and loaded again.
use rawduck.Prelude.{
  subst, ℕ, ◌≡◌, refl, ap, ◌∙◌, sym, Bool, true, false, ◌&&◌, Str, str_eq, str_eq_iff, List, [],
  ◌∷◌, map, All, All-map, if◌then◌else◌, Bool-cases, inl, inr, arith, sum_by, sum_by-append,
}
use rawduck.Dict.{Dict, find, value_or, IsOrdered, str_less}
use rawduck.Dict.Laws.{str_less_trans, less_not_eq}
use rawduck.Stats.{
  no_usage, StatsCache, StoredRow, column_kind, group_set_kind, column_row, group_set_row, rows_by,
  stats_save, load_row, stats_load,
}
use rawduck.Stats.Counts.{
  usage_of, observed_of, HasMore, same-HasMore, HasMore-trans, use_column-HasMore,
  use_group_set-HasMore,
}

-- The row counts for this item.
abbrev pub is_for : Str → Str → Str → StoredRow → Bool
is_for kind table item r = str_eq r.kind kind && (str_eq table r.table && str_eq item r.item)

abbrev pub filters_in : Str → Str → Str → StoredRow → ℕ
filters_in kind table item r = if is_for kind table item r then r.filters else 0

abbrev pub groups_in : Str → Str → Str → StoredRow → ℕ
groups_in kind table item r = if is_for kind table item r then r.groups else 0

kinds_apart : (kind : Str) → str_eq kind column_kind ≡ true → str_eq kind group_set_kind ≡ false
kinds_apart kind h = ap (λ k. str_eq k group_set_kind) ((str_eq_iff kind column_kind).0 h)

load_row-HasMore :
    (s : StatsCache) (r : StoredRow) (table item : Str)
    → HasMore s
        (load_row s r)
        table
        item
        (filters_in column_kind table item r)
        (groups_in column_kind table item r)
        (filters_in group_set_kind table item r)
unfolding load_row
load_row-HasMore s r table item = elim (Bool-cases (str_eq r.kind column_kind)) [
  | inl a ↦
      rw (a, kinds_apart r.kind a)
        (use_column-HasMore s r.table r.item table item r.filters r.groups)
  | inr a ↦ elim (Bool-cases (str_eq r.kind group_set_kind)) [
    | inl b ↦ rw (a, b) (use_group_set-HasMore s r.table r.item table item r.filters)
    | inr b ↦ rw (a, b) (same-HasMore s table item)
  ]
]

pub stats_load-HasMore :
    (rows : List StoredRow) (s : StatsCache) (table item : Str)
    → HasMore s
        (stats_load s rows)
        table
        item
        (sum_by (filters_in column_kind table item) rows)
        (sum_by (groups_in column_kind table item) rows)
        (sum_by (filters_in group_set_kind table item) rows)
unfolding stats_load
stats_load-HasMore [] s table item = same-HasMore s table item
stats_load-HasMore (r ∷ rows) s table item =
    HasMore-trans s (load_row s r) (stats_load (load_row s r) rows) table item _ _ _ _ _ _
      (load_row-HasMore s r table item) (stats_load-HasMore rows (load_row s r) table item)

-- What an ordered map holds for a key, as a sum over its entries.
module _ {ℓ} {V : Type ℓ} (none_yet : V) (count : V → ℕ) where
  abbrev pub entry_in : Str → Str × V → ℕ
  entry_in item e = if str_eq item e.0 then count e.1 else 0

  sum_above :
      (item : Str) (m : Dict V)
      → All (λ e. str_less item e.0 ≡ true) m
      → sum_by (entry_in item) m ≡ 0
  sum_above item [] h = refl
  sum_above item (e ∷ m) h = rw (less_not_eq item e.0 h.0) (omega (arith, sum_above item m h.1))

  sum_entries :
      (item : Str) (m : Dict V)
      → count none_yet ≡ 0
      → IsOrdered m
      → sum_by (entry_in item) m ≡ count (value_or none_yet (find item m))
  unfolding find
  sum_entries item [] z h = sym z
  sum_entries item (e ∷ m) z h = elim (Bool-cases (str_eq item e.0)) [
    | inl a ↦
        let above = sum_above item m (
          subst (λ k. All (λ e'. str_less k e'.0 ≡ true) m) (sym ((str_eq_iff item e.0).0 a))
            h.0) in
        rw a (omega (arith, above))
    | inr a ↦ elim (Bool-cases (str_less item e.0)) [
      | inl b ↦
          let above = sum_above item m (
            All-map (λ e'. str_less e.0 e'.0 ≡ true) (λ e'. str_less item e'.0 ≡ true)
              (λ e' l. str_less_trans item e.0 e'.0 b l) m h.0) in
          rw (a, b) (omega (arith, above, z))
      | inr b ↦ rw (a, b) (omega (arith, sum_entries item m z h.1))
    ]
  ]

  sum_map :
      (row : Str × V → StoredRow) (weight : StoredRow → ℕ) (value : Str × V → ℕ)
      → ((e : Str × V) → weight (row e) ≡ value e)
      → (m : Dict V) → sum_by weight (map row m) ≡ sum_by value m
  sum_map row weight value h [] = refl
  sum_map row weight value h (e ∷ m) = omega (arith, h e, sum_map row weight value h m)

  sum_zero : (m : Dict V) → sum_by {A = Str × V} (λ _. 0) m ≡ 0
  sum_zero [] = refl
  sum_zero (e ∷ m) = omega (arith, sum_zero m)

value_found {ℓ κ} :
    {V : Type ℓ} (P : V → Type κ) (v : V) (k : Str) (m : Dict V)
    → P v
    → All (λ e. P e.1) m
    → P (value_or v (find k m))
unfolding find
value_found P v k [] p h = p
value_found P v k (e ∷ m) p h = elim (Bool-cases (str_eq k e.0)) [
  | inl a ↦ rw a h.0
  | inr a ↦ elim (Bool-cases (str_less k e.0)) [
    | inl b ↦ rw (a, b) p
    | inr b ↦ rw (a, b) (value_found P v k m p h.1)
  ]
]

-- The map of a table and each of the maps in it.
abbrev pub IsNested {ℓ} : {V : Type ℓ} → Dict (Dict V) → Type ℓ
IsNested m = IsOrdered m × All (λ e. IsOrdered e.1) m

module _ {ℓ} {V : Type ℓ} (none_yet : V) (count : V → ℕ) (row : Str → Str × V → StoredRow)
    (weight : StoredRow → ℕ) (table item : Str) where
  abbrev CountsRows : Type ℓ
  CountsRows =
      (t : Str) (e : Str × V)
      → weight (row t e) ≡ (if str_eq table t then entry_in none_yet count item e else 0)

  in_table : Dict V → ℕ
  in_table m = sum_by (entry_in none_yet count item) m

  sum_table :
      (t : Str) (m : Dict V)
      → CountsRows
      → sum_by weight (map (row t) m)
        ≡ (if str_eq table t then sum_by (entry_in none_yet count item) m else 0)
  sum_table t m h = elim (Bool-cases (str_eq table t)) [
    | inl a ↦ rw a (
        sum_map none_yet count (row t) weight (entry_in none_yet count item) (λ e. rw a at (h t e))
          m)
    | inr a ↦ rw a (
        sum_map none_yet count (row t) weight (λ _. 0) (λ e. rw a at (h t e)) m
        ∙ sum_zero none_yet count m)
  ]

  sum_tables :
      (m : Dict (Dict V))
      → CountsRows
      → sum_by weight (rows_by row m)
        ≡ sum_by (entry_in [] (λ inner. sum_by (entry_in none_yet count item) inner) table) m
  unfolding rows_by
  sum_tables [] h = refl
  sum_tables (t ∷ m) h = omega (
    arith,
    sum_by-append weight (map (row t.0) t.1) (rows_by row m),
    sum_table t.0 t.1 h,
    sum_tables m h,
  )

  sum_nested :
      (m : Dict (Dict V))
      → count none_yet ≡ 0
      → CountsRows
      → IsNested m
      → sum_by weight (rows_by row m)
        ≡ count (value_or none_yet (find item (value_or [] (find table m))))
  sum_nested m z h o =
      sum_tables m h
      ∙ sum_entries [] (λ inner. sum_by (entry_in none_yet count item) inner) table m refl o.0
      ∙ sum_entries none_yet count item (value_or [] (find table m)) z
          (value_found IsOrdered [] table m tt o.1)

  sum_none :
      (m : Dict (Dict V))
      → ((t : Str) (e : Str × V) → weight (row t e) ≡ 0)
      → sum_by weight (rows_by row m) ≡ 0
  unfolding rows_by
  sum_none [] h = refl
  sum_none (t ∷ m) h = omega (
    arith,
    sum_by-append weight (map (row t.0) t.1) (rows_by row m),
    sum_map none_yet count (row t.0) weight (λ _. 0) (h t.0) t.1,
    sum_zero none_yet count t.1,
    sum_none m h,
  )

abbrev pub IsWellOrdered : StatsCache → Type 0
IsWellOrdered s = IsNested s.usage × IsNested s.group_sets

column_filters :
    (s : StatsCache) (table item : Str)
    → IsWellOrdered s
    → sum_by (filters_in column_kind table item) (stats_save s) ≡ (usage_of s table item).filters
unfolding stats_save
column_filters s table item o = omega (
  arith,
  sum_by-append (filters_in column_kind table item) (rows_by column_row s.usage)
      (rows_by group_set_row s.group_sets),
  sum_nested no_usage (λ u. u.filters) column_row (filters_in column_kind table item) table item
      s.usage refl (λ t e. ground arith) o.0,
  sum_none 0 (λ n. n) group_set_row (filters_in column_kind table item) table item s.group_sets
      (λ t e. refl),
)

column_groups :
    (s : StatsCache) (table item : Str)
    → IsWellOrdered s
    → sum_by (groups_in column_kind table item) (stats_save s) ≡ (usage_of s table item).groups
unfolding stats_save
column_groups s table item o = omega (
  arith,
  sum_by-append (groups_in column_kind table item) (rows_by column_row s.usage)
      (rows_by group_set_row s.group_sets),
  sum_nested no_usage (λ u. u.groups) column_row (groups_in column_kind table item) table item
      s.usage refl (λ t e. ground arith) o.0,
  sum_none 0 (λ n. n) group_set_row (groups_in column_kind table item) table item s.group_sets
      (λ t e. refl),
)

group_set_counts :
    (s : StatsCache) (table item : Str)
    → IsWellOrdered s
    → sum_by (filters_in group_set_kind table item) (stats_save s) ≡ observed_of s table item
unfolding stats_save
group_set_counts s table item o = omega (
  arith,
  sum_by-append (filters_in group_set_kind table item) (rows_by column_row s.usage)
      (rows_by group_set_row s.group_sets),
  sum_nested 0 (λ n. n) group_set_row (filters_in group_set_kind table item) table item s.group_sets
      refl (λ t e. ground arith) o.1,
  sum_none no_usage (λ u. u.filters) column_row (filters_in group_set_kind table item) table item
      s.usage (λ t e. refl),
)

-- What raw_stats_save stores holds the counts of every column and group set of the cache, and
-- raw_stats_load adds them to those of the cache that it loads into: into an empty one, the counts
-- are those that were saved.
pub stats_load-stats_save :
    (s into : StatsCache) (table item : Str)
    → IsWellOrdered s
    → HasMore into
        (stats_load into (stats_save s))
        table
        item
        (usage_of s table item).filters
        (usage_of s table item).groups
        (observed_of s table item)
stats_load-stats_save s into table item o =
    let h = stats_load-HasMore (stats_save s) into table item in
    (
      omega (arith, h.0, column_filters s table item o),
      omega (arith, h.1, column_groups s table item o),
      omega (arith, h.2, group_set_counts s table item o),
    )
