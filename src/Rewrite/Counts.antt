-- ===== src/Rewrite/Counts.antt =====
-- The answers of one aggregation, before and after it is rewritten onto a projection.
use rawduck.Prelude.{
  ℕ, length, length-append, Bool, true, false, Str, codes, Option, none, some, List, [], ◌∷◌, ◌++◌,
  map, All, if◌then◌else◌, ◌≡◌, refl, ap, sym, ◌∙◌, subst, arith,
}
use mathlib.Core.List.{append-nil}
use rawduck.Dict.{find}
use rawduck.Stats.{Projection, StatsCache}
use rawduck.Stats.Plan.{Get, sort_names}
use rawduck.Rewrite.{
  physical_index, Expression, column_ref, cast_to, other_expression, AggregateCall, call,
  other_call, Aggregate, Entry, Catalog, Target, new_get, count_column, is_count_star, counts_only,
  cast_output, retarget,
}
use rawduck.Rewrite.Answers.{
  IsColumn, output_of, IsIndexed, cell, total, AreGroupsOf, expression_value, key_of, contribution,
  answer, WasBuilt,
}
use rawduck.Rewrite.Totals.{total-Perm, counted, summed_count, total-groups}
use rawduck.Rewrite.Columns.{
  expression_value-column, get_elem?-length, All-sort_names, sort_names-All,
}

total-ext :
    {V : Type 0} (f g : List V → ℕ) (rows : List (List V))
    → ((row : List V) → f row ≡ g row)
    → total f rows ≡ total g rows
total-ext f g [] h = refl
total-ext f g (row ∷ rows) h = rw (h row, total-ext f g rows h) refl

-- Rows were only added: a count that is the old one says that none was.
none_added :
    {V : Type 0} (old more : List (List V)) → length (old ++ more) ≡ length old → old ++ more ≡ old
none_added old [] h = append-nil old
none_added old (row ∷ more) h = absurd (omega (arith, length-append old (row ∷ more), h))

AreGroupsOf-columns :
    {V : Type 0} (number : Option V → ℕ) (columns names base entry : List Str)
    (projected : List (List V)) (parts : List (List (List V)))
    → ((P : Str → Type 0) → All P columns → All P names)
    → AreGroupsOf number columns base entry projected parts
    → AreGroupsOf number names base entry projected parts
AreGroupsOf-columns number columns names base entry [] [] sub h = tt
AreGroupsOf-columns number columns names base entry [] (rows ∷ parts) sub h = h
AreGroupsOf-columns number columns names base entry (r ∷ projected) [] sub h = h
AreGroupsOf-columns number columns names base entry (r ∷ projected) (rows ∷ parts) sub h = (
  (h.0.0, each rows h.0.1),
  AreGroupsOf-columns number columns names base entry projected parts sub h.1,
)
  where
    each :
        (rows : List (List _))
        → All (λ b. All (λ name. cell base b name ≡ cell entry r name) columns) rows
        → All (λ b. All (λ name. cell base b name ≡ cell entry r name) names) rows
    each [] k = tt
    each (b ∷ rows) k = (sub (λ name. cell base b name ≡ cell entry r name) k.0, each rows k.1)

module _ {ℓ} {T : Type ℓ} where
  abbrev filter_of : AggregateCall T → Option (Expression T)
  filter_of (call name es distinct filter) = filter
  filter_of other_call = none

  -- Not count(*) FILTER (WHERE …).
  abbrev pub IsUnfiltered : AggregateCall T → Type ℓ
  IsUnfiltered c = is_count_star c ≡ true → filter_of c ≡ none

  calls-count_star :
      (cs : List (AggregateCall T))
      → (elim cs [ c ∷ [] ↦ is_count_star c | _ ↦ false ]) ≡ true
      → All IsUnfiltered cs
      → (name : Str) × (cs ≡ call name [] false none ∷ [])
  calls-count_star [] h u = ground arith
  calls-count_star (call name [] false filter ∷ []) h u =
      (name, ap (λ f. call name [] false f ∷ []) (u.0 h))
  calls-count_star (call name [] true filter ∷ []) h u = ground arith
  calls-count_star (call name (e ∷ es) distinct filter ∷ []) h u = ground arith
  calls-count_star (other_call ∷ []) h u = ground arith
  calls-count_star (c ∷ d ∷ cs) h u = ground arith

  counts_only-call :
      (a : Aggregate T)
      → counts_only a ≡ true
      → All IsUnfiltered a.calls
      → (name : Str) × (a.calls ≡ call name [] false none ∷ [])
  counts_only-call a h u = calls-count_star a.calls (ground (arith, h)) u

  pub cast_output-output :
      (index : ℕ) (t : T) (es : List (Expression T))
      → map output_of (map (cast_output index t) es) ≡ map output_of es
  cast_output-output index t [] = refl
  cast_output-output index t (e ∷ es) =
      ap (λ x. x ∷ map output_of (map (cast_output index t) es)) (one e)
      ∙ ap (λ xs. output_of e ∷ xs) (cast_output-output index t es)
    where
      one : (e : Expression T) → output_of (cast_output index t e) ≡ output_of e
      one (column_ref b u) = ground arith
      one (cast_to e u) = refl
      one (other_expression u) = refl

module _ {ℓ} {T : Type ℓ} {V : Type 0} (number : Option V → ℕ) (tables : Str → List (List V)) where
  pub answer-count :
      (a : Aggregate T) (g : Get) (key : Str) (names : List Str) (test : List (Option V) → Bool)
      → IsIndexed g.names
      → g.table ≡ some key
      → counts_only a ≡ true
      → All IsUnfiltered a.calls
      → ((row : List V) → key_of g a.groups row ≡ map (cell g.names row) names)
      → answer number tables a g test ≡ total (counted g.names names test) (tables key)
  answer-count a g key names test indexed k c u keys =
      let (name, e) = counts_only-call a c u in
      rw (e, k)
        (total-ext (contribution number g a.groups (call name [] false none) test)
          (counted g.names names test) (tables key)
          (λ row. ap (λ v. if test v then 1 else 0) (keys row)))

  pub answer-sum :
      (a : Aggregate T) (g : Get) (t : Target) (names : List Str) (bigint : T)
      (test : List (Option V) → Bool)
      → physical_index t.entry.columns count_column ≡ some t.count
      → ((row : List V)
          → key_of (new_get g t) (retarget g.table_index 0 a.groups) row
            ≡ map (cell t.entry.columns row) names)
      → total
          (contribution number
            (new_get g t)
            (retarget g.table_index 0 a.groups)
            (call
              (codes "sum")
              (column_ref
                  (record { table_index = g.table_index; column_index = length t.ids })
                  bigint
                ∷ [])
              false
              none)
            test)
          (tables t.entry.key)
        ≡ total (summed_count number names test t.entry.columns) (tables t.entry.key)
  answer-sum a g t names bigint test c keys =
      total-ext _ (summed_count number names test t.entry.columns) (tables t.entry.key) λ row.
        ap
          (λ v.
            if test v
            then number (
                expression_value (new_get g t) row (
                  column_ref (record { table_index = g.table_index; column_index = length t.ids })
                    bigint))
            else 0)
          (keys row)
        ∙ ap (λ v. if test (map (cell t.entry.columns row) names) then number v else 0)
            (expression_value-column (new_get g t) (length t.ids) t.count bigint t.entry.columns
              count_column row (get_elem?-length t.ids t.count) c)

  module _ (join : List Str → Str) (catalog : Catalog T) (s : StatsCache)
      (columns_of : Str → List Str) where
    -- Each registered projection was built from the table that it is registered for.
    abbrev pub AreBuilt : Type 0
    AreBuilt =
        (key : Str) (p : Projection) (entry : Entry)
        → find key s.projections ≡ some p
        → catalog.get_entry p ≡ some entry
        → WasBuilt number tables join catalog (columns_of key) key p entry

    -- The projection stands for the rows that the table has now.
    pub projected_rows :
        (key : Str) (names : List Str) (p : Projection) (entry : Entry)
        (test : List (Option V) → Bool)
        → WasBuilt number tables join catalog (columns_of key) key p entry
        → All (IsColumn (columns_of key)) names
        → p.group_set ≡ join (sort_names names)
        → catalog.total_rows key ≡ p.base_rows
        → total (summed_count number names test entry.columns) (tables entry.key)
          ≡ total (counted (columns_of key) names test) (tables key)
    projected_rows key names p entry test built are_columns same fresh =
        let (
          columns,
          (old, (more, (set, (only, (rows, (counts, (base, (parts, (groups, perm))))))))),
        ) =
          built in
        let sorted : sort_names names ≡ columns =
          only (sort_names names) (sort_names-All (IsColumn (columns_of key)) names are_columns)
            (sym same ∙ set) in
        let now : tables key ≡ old =
          rows ∙ none_added old more (sym (ap length rows) ∙ (sym counts ∙ (fresh ∙ base))) in
        total-groups number names test (columns_of key) entry.columns (tables entry.key) parts (
          AreGroupsOf-columns number columns names (columns_of key) entry.columns (tables entry.key)
            parts (λ P h. All-sort_names P names (subst (λ x. All P x) (sym sorted) h)) groups)
        ∙ sym (total-Perm (counted (columns_of key) names test) perm)
        ∙ ap (total (counted (columns_of key) names test)) (sym now)
