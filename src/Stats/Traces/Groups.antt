-- ===== src/Stats/Traces/Groups.antt =====
-- The grouping expressions that CollectStats of src/raw_optimize.cpp resolves.
use rawduck.Prelude.{
  ℕ, ◌≡◌, refl, sym, ap, ◌∙◌, inl, inr, Bool, true, false, Str, str_eq, str_eq_iff, str_eq_refl,
  ◌&&◌, ◌↔◌, Option, none, some, some-eq, Option-cases, List, [], get_elem?, arith,
}
use rawduck.Stats.Plan.{
  Binding, Expr, column_ref, function, other_expr, Op, Get, Source, collect_gets, trace_binding,
  resolve_group, resolve_get_column,
}
use rawduck.Stats.Traces.{Leads, trace-Leads, Leads-trace, points_in}

-- An expression traces back to a column of a table, through at most 15 projections.
abbrev pub TracesTo : Op → Expr → Str → Str → Type 0
TracesTo plan (column_ref b) table column =
    (g : Get) × ((i : ℕ) × (Leads plan 16 b g i
        × ((g.table ≡ some table)
            × ((j : ℕ) × ((get_elem? g.column_ids i ≡ some j)
                  × (get_elem? g.names j ≡ some column))))))
TracesTo plan _ table column = ⊥

-- The table and the name of a column of a scan.
abbrev named : Get × ℕ → Option (Str × Str)
named r = elim r.0.table [
  | none ↦ none
  | some table ↦ elim (resolve_get_column r.0 r.1) [
    | none ↦ none
    | some column ↦ some (table, column)
  ]
]

abbrev traced : Option (Get × ℕ) → Option (Str × Str)
traced none = none
traced (some r) = named r

traced_step :
    (o : Option (Get × ℕ))
    → (elim o as (λ _. Option (Str × Str)) [
      | none ↦ none
      | some r ↦ elim r.0.table as (λ _. Option (Str × Str)) [
        | none ↦ none
        | some table ↦ elim (resolve_get_column r.0 r.1) as (λ _. Option (Str × Str)) [
          | none ↦ none
          | some column ↦ some (table, column)
        ]
      ]
    ])
      ≡ traced o
traced_step none = refl
traced_step (some r) = refl

resolve_column :
    (operators : List (ℕ × Source)) (b : Binding)
    → resolve_group operators (column_ref b) ≡ traced (trace_binding 16 operators b)
unfolding resolve_group
resolve_column operators b = traced_step (trace_binding 16 operators b)

traced-parts :
    (o : Option (Get × ℕ)) (table column : Str)
    → traced o ≡ some (table, column)
    → (g : Get) × ((i : ℕ) × ((o ≡ some (g, i)) × (named (g, i) ≡ some (table, column))))
traced-parts none table column h = ground (arith, h)
traced-parts (some r) table column h = (r.0, (r.1, (refl, h)))

parts-named :
    (g : Get) (i j : ℕ) (table column : Str)
    → g.table ≡ some table
    → get_elem? g.column_ids i ≡ some j
    → get_elem? g.names j ≡ some column
    → named (g, i) ≡ some (table, column)
unfolding resolve_get_column
parts-named g i j table column at id name = rw (at, id, name) refl

named-parts :
    (g : Get) (i : ℕ) (table column : Str)
    → named (g, i) ≡ some (table, column)
    → (g.table ≡ some table)
      × ((j : ℕ) × ((get_elem? g.column_ids i ≡ some j) × (get_elem? g.names j ≡ some column)))
unfolding resolve_get_column
named-parts g i table column h = elim (Option-cases g.table) [
  | inl e ↦ ground (arith, e, h)
  | inr (t, e) ↦ elim (Option-cases (get_elem? g.column_ids i)) [
    | inl f ↦ ground (arith, e, f, h)
    | inr (j, f) ↦ elim (Option-cases (get_elem? g.names j)) [
      | inl n ↦ ground (arith, e, f, n, h)
      | inr (c, n) ↦
          let same : Path (Str × Str) (t, c) (table, column) =
            some-eq (t, c) (table, column) (sym (parts-named g i j t c e f n) ∙ h) in
          (
            e ∙ ap (λ (p : Str × Str). some p.0) same,
            (j, (f, n ∙ ap (λ (p : Str × Str). some p.1) same)),
          )
    ]
  ]
]

resolved-TracesTo :
    (plan : Op) (e : Expr) (table column : Str)
    → resolve_group (collect_gets plan []) e ≡ some (table, column)
    → TracesTo plan e table column
unfolding resolve_group
resolved-TracesTo plan (column_ref b) table column h =
    let operators = collect_gets plan [] in
    let (g, (i, (traces, is_named))) =
      traced-parts (trace_binding 16 operators b) table column
        (sym (resolve_column operators b) ∙ h) in
    let (at, (j, (id, name))) = named-parts g i table column is_named in
    (g, (i, (trace-Leads plan operators (points_in plan) 16 b g i traces, (at, (j, (id, name))))))
resolved-TracesTo plan (function n es) table column h = ground (arith, h)
resolved-TracesTo plan other_expr table column h = ground (arith, h)

TracesTo-resolved :
    (plan : Op) (e : Expr) (table column : Str)
    → TracesTo plan e table column
    → resolve_group (collect_gets plan []) e ≡ some (table, column)
TracesTo-resolved plan (column_ref b) table column (g, (i, (leads, (at, (j, (id, name)))))) =
    let operators = collect_gets plan [] in
    resolve_column operators b
    ∙ ap traced (Leads-trace plan operators (points_in plan) 16 b g i leads)
    ∙ parts-named g i j table column at id name
TracesTo-resolved plan (function n es) table column h = elim h [ ]
TracesTo-resolved plan other_expr table column h = elim h [ ]

-- A group that is the column.
abbrev pub is_column : Str → Str → Option (Str × Str) → Bool
is_column table column none = false
is_column table column (some g) = str_eq table g.0 && str_eq column g.1

is_column_iff :
    (table column : Str) (o : Option (Str × Str))
    → (is_column table column o ≡ true) ↔ (o ≡ some (table, column))
is_column_iff table column none = (λ h. ground (arith, h), λ h. ground (arith, h))
is_column_iff table column (some (t, c)) = (
  λ h. ground (arith, h, str_eq_iff table t, str_eq_iff column c),
  λ h.
      let same : Path (Str × Str) (t, c) (table, column) = some-eq (t, c) (table, column) h in
      ap (λ (p : Str × Str). str_eq table p.0 && str_eq column p.1) same
      ∙ rw (str_eq_refl table, str_eq_refl column) refl,
)

-- The test of the hook on a grouping expression is exact.
pub is_column-TracesTo :
    (plan : Op) (table column : Str) (e : Expr)
    → (is_column table column (resolve_group (collect_gets plan []) e) ≡ true)
      ↔ TracesTo plan e table column
is_column-TracesTo plan table column e =
    let iff = is_column_iff table column (resolve_group (collect_gets plan []) e) in
    (
      λ h. resolved-TracesTo plan e table column (iff.0 h),
      λ h. iff.1 (TracesTo-resolved plan e table column h),
    )
