-- ===== src/Rewrite/Answers.antt =====
-- What a rewritten aggregation answers. `V` is the type of the values in the tables, `number` a
-- value as a number, and `tables` the rows of a table by its key.
use rawduck.Prelude.{
  ℕ, ◌+◌, ◌==◌, length, get_elem?, Bool, true, ltb, Str, Option, none, some, ◌>>=◌, ◌>>◌, guard,
  List, [], ◌∷◌, ◌++◌, map, All, if◌then◌else◌, ◌≡◌,
}
use mathlib.Core.List.{Perm}
use rawduck.Stats.{Projection}
use rawduck.Stats.Plan.{Binding, Get}
use rawduck.Rewrite.{
  Expression, column_ref, cast_to, other_expression, return_type, AggregateCall, call, Aggregate,
  Plan, Plans, get, projection, aggregate, other_operator, no_plan, and_plan, aggregation, Entry,
  Catalog, count_column, physical_index,
}

-- Every column is found under its name, as DuckDB's catalog guarantees.
abbrev pub IsIndexed : List Str → Type 0
IsIndexed columns =
    (i : ℕ) (name : Str) → get_elem? columns i ≡ some name → physical_index columns name ≡ some i

abbrev pub IsColumn : List Str → Str → Type 0
IsColumn columns name = (i : ℕ) × (get_elem? columns i ≡ some name)

module _ {V : Type 0} where
  -- The value of a row in the column with a name.
  abbrev pub cell : List Str → List V → Str → Option V
  cell columns row name = physical_index columns name >>= get_elem? row

  abbrev pub total : (List V → ℕ) → List (List V) → ℕ
  total f [] = 0
  total f (row ∷ rows) = f row + total f rows

  abbrev pub joined : List (List (List V)) → List (List V)
  joined [] = []
  joined (rows ∷ parts) = rows ++ joined parts

module _ {V : Type 0} (number : Option V → ℕ) where
  -- A row of a projection stands for some rows: it has their values in the grouping columns, and
  -- their number.
  abbrev pub IsGroupOf : List Str → List Str → List Str → List V → List (List V) → Type 0
  IsGroupOf columns base entry row rows =
      (number (cell entry row count_column) ≡ length rows)
      × All (λ b. All (λ name. cell base b name ≡ cell entry row name) columns) rows

  abbrev pub AreGroupsOf :
      List Str → List Str → List Str → List (List V) → List (List (List V)) → Type 0
  AreGroupsOf columns base entry [] [] = Unit
  AreGroupsOf columns base entry [] (rows ∷ parts) = ⊥
  AreGroupsOf columns base entry (r ∷ projected) [] = ⊥
  AreGroupsOf columns base entry (r ∷ projected) (rows ∷ parts) =
      IsGroupOf columns base entry r rows × AreGroupsOf columns base entry projected parts

  -- The projection is SELECT columns, count(*) … GROUP BY ALL over the rows: these fall apart into
  -- groups, one for each of its rows.
  abbrev pub IsProjected : List Str → List Str → List Str → List (List V) → List (List V) → Type 0
  IsProjected columns base entry rows projected =
      (parts : List (List (List V))) × (AreGroupsOf columns base entry projected parts
        × Perm rows (joined parts))

module _ {ℓ} {T : Type ℓ} {V : Type 0} where
  -- The value of an expression over a scan, at a row of its table.
  abbrev pub expression_value : Get → List V → Expression T → Option V
  expression_value g row (column_ref b t) = do
    guard (b.table_index == g.table_index)
    i ← get_elem? g.column_ids b.column_index
    get_elem? row i
  expression_value g row e = none

  abbrev pub key_of : Get → List (Expression T) → List V → List (Option V)
  key_of g groups row = map (expression_value g row) groups

module _ {ℓ} {T : Type ℓ} {V : Type 0} (number : Option V → ℕ) where
  -- The rows that a FILTER clause keeps.
  abbrev pub is_kept : Get → Option (Expression T) → List V → Bool
  is_kept g none row = true
  is_kept g (some e) row = ltb 0 (number (expression_value g row e))

  -- What a row adds to count(*), and to the sum of a column.
  abbrev pub amount : Get → AggregateCall T → List V → ℕ
  amount g (call name [] distinct filter) row = if is_kept g filter row then 1 else 0
  amount g (call name (e ∷ es) distinct filter) row =
      if is_kept g filter row then number (expression_value g row e) else 0
  amount g _ row = 0

  -- A row counts where the values of its groups pass the test.
  abbrev pub contribution :
      Get → List (Expression T) → AggregateCall T → (List (Option V) → Bool) → List V → ℕ
  contribution g groups c test row = if test (key_of g groups row) then amount g c row else 0

-- What a projection puts out: the column that it takes, and the type that it gives it.
abbrev pub binding_of {ℓ} : {T : Type ℓ} → Expression T → Option Binding
binding_of (column_ref b t) = some b
binding_of (cast_to e t) = binding_of e
binding_of (other_expression t) = none

abbrev pub output_of {ℓ} : {T : Type ℓ} → Expression T → Option Binding × T
output_of e = (binding_of e, return_type e)

abbrev pub rows_of : {V : Type 0} → (Str → List (List V)) → Get → List (List V)
rows_of tables g = elim g.table [ none ↦ [] | some key ↦ tables key ]

module _ {ℓ} {T : Type ℓ} {V : Type 0} (number : Option V → ℕ) (tables : Str → List (List V)) where
  -- The value of the aggregate for the groups that pass the test: for one group, or for several.
  abbrev pub answer : Aggregate T → Get → (List (Option V) → Bool) → ℕ
  answer a g test = elim a.calls [
    | c ∷ [] ↦ total (contribution number g a.groups c test) (rows_of tables g)
    | _ ↦ 0
  ]

  mutual
    -- Two plans of the same operators, but for aggregations that give the same answers, put out
    -- with the same types.
    pub data Agrees : Plan T → Plan T → Type ℓ where
      same_get : (g : Get) {ps qs : Plans T} → Agree ps qs → Agrees (get g ps) (get g qs)
      same_projection :
          (es : List (Expression T)) {ps qs : Plans T}
          → Agree ps qs
          → Agrees (projection es ps) (projection es qs)
      same_aggregate :
          (a : Aggregate T) {ps qs : Plans T}
          → Agree ps qs
          → Agrees (aggregate a ps) (aggregate a qs)
      same_operator :
          {ps qs : Plans T} → Agree ps qs → Agrees (other_operator ps) (other_operator qs)
      same_answers :
          (es es' : List (Expression T)) (a a' : Aggregate T) (g g' : Get) (below below' : Plans T)
          → ((test : List (Option V) → Bool) → answer a' g' test ≡ answer a g test)
          → a'.aggregate_index ≡ a.aggregate_index
          → map output_of es' ≡ map output_of es
          → Agrees (aggregation es a g below) (aggregation es' a' g' below')

    pub data Agree : Plans T → Plans T → Type ℓ where
      none_agree : Agree no_plan no_plan
      and_agree :
          {p q : Plan T} {ps qs : Plans T}
          → Agrees p q
          → Agree ps qs
          → Agree (and_plan p ps) (and_plan q qs)

module _ {ℓ} {T : Type ℓ} {V : Type 0} (number : Option V → ℕ) (tables : Str → List (List V)) where
  -- raw_project built the registered projection from the rows that the table had; rows may have been
  -- added since. The group set is a text that stands for no other columns
  -- of the table.
  abbrev pub WasBuilt : (List Str → Str) → Catalog T → List Str → Str → Projection → Entry → Type 0
  WasBuilt join catalog base key p entry =
      (columns : List Str) × ((old : List (List V)) × ((more : List (List V)) × ((p.group_set
              ≡ join columns)
            × (((names : List Str)
                  → All (IsColumn base) names
                  → join names ≡ join columns
                  → names ≡ columns)
                × ((tables key ≡ old ++ more)
                    × ((catalog.total_rows key ≡ length (tables key))
                        × ((p.base_rows ≡ length old)
                            × IsProjected number columns base entry.columns old
                                (tables entry.key))))))))
