-- ===== src/Stats/Counts.antt =====
-- What a table's columns and group sets have counted, and what an assignment changes of it.
use rawduck.Prelude.{
  ℕ, ◌+◌, ◌≡◌, refl, ap, ◌∙◌, sym, true, ◌&&◌, Str, str_eq, str_eq_iff, [], if◌then◌else◌,
  Bool-cases, inl, inr, arith,
}
use rawduck.Dict.{Dict, find, value_or, update}
use rawduck.Dict.Laws.{find-update}
use rawduck.Stats.{ColumnUsage, no_usage, StatsCache, add_usage, use_column, use_group_set}

-- stats.usage[table][column], without an insertion
abbrev pub usage_in : Dict (Dict ColumnUsage) → Str → Str → ColumnUsage
usage_in usage table column = value_or no_usage (find column (value_or [] (find table usage)))

abbrev pub usage_of : StatsCache → Str → Str → ColumnUsage
usage_of s table column = usage_in s.usage table column

abbrev pub observed_in : Dict (Dict ℕ) → Str → Str → ℕ
observed_in sets table group_set = value_or 0 (find group_set (value_or [] (find table sets)))

abbrev pub observed_of : StatsCache → Str → Str → ℕ
observed_of s table group_set = observed_in s.group_sets table group_set

same_entry {ℓ} :
    {V : Type ℓ} (v : V) (t c table column : Str) (m : Dict (Dict V))
    → str_eq table t ≡ true
    → str_eq column c ≡ true
    → value_or v (find c (value_or [] (find t m)))
      ≡ value_or v (find column (value_or [] (find table m)))
same_entry v t c table column m a b =
    ap (λ k. value_or v (find c (value_or [] (find k m)))) (sym ((str_eq_iff table t).0 a))
    ∙ ap (λ k. value_or v (find k (value_or [] (find table m)))) (sym ((str_eq_iff column c).0 b))

-- An assignment changes the value at its two keys, and no other.
pub nested-update {ℓ} :
    {V : Type ℓ} (v : V) (f : V → V) (t c table column : Str) (m : Dict (Dict V))
    → value_or v (find column (value_or [] (find table (update [] (update v f c) t m)))) ≡ (
        if str_eq table t && str_eq column c
        then f (value_or v (find column (value_or [] (find table m))))
        else value_or v (find column (value_or [] (find table m))))
nested-update v f t c table column m =
    ap (λ o. value_or v (find column (value_or [] o))) (find-update [] (update v f c) t table m)
    ∙ elim (Bool-cases (str_eq table t)) [
      | inr a ↦ rw a refl
      | inl a ↦ rw a (
          ap (value_or v) (find-update v f c column (value_or [] (find t m)))
          ∙ elim (Bool-cases (str_eq column c)) [
            | inl b ↦ rw b (ap f (same_entry v t c table column m a b))
            | inr b ↦ rw b (
                ap (λ k. value_or v (find column (value_or [] (find k m))))
                  (sym ((str_eq_iff table t).0 a)))
          ])
    ]

pub usage_of-use_column :
    (f : ColumnUsage → ColumnUsage) (t c table column : Str) (s : StatsCache)
    → usage_of (use_column f t c s) table column ≡ (
        if str_eq table t && str_eq column c
        then f (usage_of s table column)
        else usage_of s table column)
usage_of-use_column f t c table column s = nested-update no_usage f t c table column s.usage

pub observed_of-use_group_set :
    (f : ℕ → ℕ) (t g table group_set : Str) (s : StatsCache)
    → observed_of (use_group_set f t g s) table group_set ≡ (
        if str_eq table t && str_eq group_set g
        then f (observed_of s table group_set)
        else observed_of s table group_set)
observed_of-use_group_set f t g table group_set s =
    nested-update 0 f t g table group_set s.group_sets

-- What is counted for a column and a group set in the second cache more than in the first.
abbrev pub HasMore : StatsCache → StatsCache → Str → Str → ℕ → ℕ → ℕ → Type 0
HasMore s t table item filters groups observed =
    ((usage_of t table item).filters ≡ (usage_of s table item).filters + filters)
    × ((usage_of t table item).groups ≡ (usage_of s table item).groups + groups)
    × (observed_of t table item ≡ observed_of s table item + observed)

pub same-HasMore : (s : StatsCache) (table item : Str) → HasMore s s table item 0 0 0
same-HasMore s table item = (omega arith, omega arith, omega arith)

pub HasMore-trans :
    (s t u : StatsCache) (table item : Str) (f g o f' g' o' : ℕ)
    → HasMore s t table item f g o
    → HasMore t u table item f' g' o'
    → HasMore s u table item (f + f') (g + g') (o + o')
HasMore-trans s t u table item f g o f' g' o' h k =
    (omega (arith, h.0, k.0), omega (arith, h.1, k.1), omega (arith, h.2, k.2))

-- The amount, for the two keys of the assignment only.
abbrev pub at_keys : Str → Str → Str → Str → ℕ → ℕ
at_keys t c table item n = if str_eq table t && str_eq item c then n else 0

pub use_column-HasMore :
    (s : StatsCache) (t c table item : Str) (f g : ℕ)
    → HasMore s
        (use_column (add_usage f g) t c s)
        table
        item
        (at_keys t c table item f)
        (at_keys t c table item g)
        0
use_column-HasMore s t c table item f g =
    let e = usage_of-use_column (add_usage f g) t c table item s in
    elim (Bool-cases (str_eq table t && str_eq item c)) [
      | inl m ↦ rw m (
        omega (arith, ap (λ u. u.filters) (rw m at e)),
        omega (arith, ap (λ u. u.groups) (rw m at e)),
        omega arith,
      )
      | inr m ↦ rw m (
        omega (arith, ap (λ u. u.filters) (rw m at e)),
        omega (arith, ap (λ u. u.groups) (rw m at e)),
        omega arith,
      )
    ]

pub use_group_set-HasMore :
    (s : StatsCache) (t g table item : Str) (n : ℕ)
    → HasMore s (use_group_set (λ m. m + n) t g s) table item 0 0 (at_keys t g table item n)
use_group_set-HasMore s t g table item n =
    let e = observed_of-use_group_set (λ m. m + n) t g table item s in
    elim (Bool-cases (str_eq table t && str_eq item g)) [
      | inl m ↦ rw m (omega arith, omega arith, omega (arith, rw m at e))
      | inr m ↦ rw m (omega arith, omega arith, omega (arith, rw m at e))
    ]
