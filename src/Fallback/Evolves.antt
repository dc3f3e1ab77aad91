-- ===== src/Fallback/Evolves.antt =====
-- The SQL path and the native path evolve a table alike.
use rawduck.Prelude.{
  ◌+◌, ◌≡◌, refl, sym, ◌∙◌, ap, inl, inr, Bool, true, false, Option, none, some, some-eq, and_then,
  Option-cases, Bool-cases, List, [], ◌∷◌, ◌++◌, if◌then◌else◌, arith,
}
use rawduck.SqlType.{LogicalType, type_eq}
use rawduck.Widen.{join_column_types}
use rawduck.Flatten.{RawColumn}
use rawduck.Catalog.{
  Columns, widen, column_need, Evolved, find_column, add_column, change_type, evolve_step,
  evolve_native,
}
use rawduck.Fallback.{
  Statement, add_column_as, set_type_of, needs_rewrite, widen_step, plan_step, plan, all_statements,
  run_statement, run_statements,
}

-- A step that two catalogs carry out gives the same table.
step_agrees :
    (o : Option Columns) (a b : Bool) (f : Columns → Evolved)
    → ((t : Columns) → (f t).table ≡ t)
    → (t : Columns) (e : Evolved) → (if a then o else none) ≡ some t
    → (elim (if b then o else none) [ none ↦ none | some u ↦ some (f u) ]) ≡ some e
    → e.table ≡ t
step_agrees o false b f p t e h k = ground (arith, h)
step_agrees o true false f p t e h k = ground (arith, k)
step_agrees none true true f p t e h k = ground (arith, h)
step_agrees (some u) true true f p t e h k =
    ap (λ (x : Evolved). x.table) (sym (some-eq (f u) e k)) ∙ (p u ∙ some-eq u t h)

-- The parts of a chain that succeeds.
and_then-some :
    (o : Option Columns) (f : Columns → Option Columns) (t : Columns)
    → and_then o f ≡ some t
    → (u : Columns) × ((o ≡ some u) × (f u ≡ some t))
and_then-some none f t h = ground (arith, h)
and_then-some (some u) f t h = (u, (refl, h))

evolved-some :
    (o : Option Evolved) (f : Evolved → Option Evolved) (e : Evolved)
    → (elim o [ none ↦ none | some d ↦ f d ]) ≡ some e
    → (d : Evolved) × ((o ≡ some d) × (f d ≡ some e))
evolved-some none f e h = ground (arith, h)
evolved-some (some d) f e h = (d, (refl, h))

-- A column of another type is changed, with its values rewritten or not.
widen_step-different :
    (c : RawColumn) (t u : LogicalType)
    → type_eq u t ≡ false
    → (widen_step true c.name t u).statements ≡ set_type_of c.name u (needs_rewrite t u) ∷ []
widen_step-different c t u p = elim (Bool-cases (needs_rewrite t u)) [
  | inl q ↦ rw p (rw q refl)
  | inr q ↦ rw p (rw q refl)
]

column_need-different :
    (t incoming : LogicalType)
    → type_eq (join_column_types t incoming) t ≡ false
    → column_need (some t) incoming ≡ widen (join_column_types t incoming)
column_need-different t incoming p = rw p refl

module _ (carries_out : Columns → Statement → Bool) where
  run_statements-append :
      (table : Columns) (xs ys : List Statement)
      → run_statements carries_out table (xs ++ ys)
        ≡ and_then (run_statements carries_out table xs) (λ t. run_statements carries_out t ys)
  unfolding run_statements
  run_statements-append table [] ys = refl
  run_statements-append table (s ∷ xs) ys =
      elim (Option-cases (run_statement carries_out table s)) [
        | inl e ↦ rw e refl
        | inr (t, e) ↦ rw e (run_statements-append t xs ys)
      ]

  -- One statement at the end.
  run_statements-one :
      (table : Columns) (s : Statement)
      → run_statements carries_out table (s ∷ []) ≡ run_statement carries_out table s
  unfolding run_statements
  run_statements-one table s = elim (Option-cases (run_statement carries_out table s)) [
    | inl e ↦ rw e refl
    | inr (t, e) ↦ rw e refl
  ]

  -- One column.
  plan_step-evolves :
      (c : RawColumn) (o : Option LogicalType) (e d : Evolved) (t : Columns)
      → run_statements carries_out e.table (plan_step true c o).statements ≡ some t
      → evolve_step c (column_need o c.type) e ≡ some d
      → d.table ≡ t
  unfolding run_statements
  plan_step-evolves c none e d t h k =
      step_agrees (add_column e.table c.name c.type)
        (carries_out e.table (add_column_as c.name c.type)) (e.alters e.table c.name c.type)
        (λ u. record e { table = u; added = e.added + 1 }) (λ u. refl) t d
        (sym (run_statements-one e.table (add_column_as c.name c.type)) ∙ h) k
  plan_step-evolves c (some s) e d t h k =
      let u = join_column_types s c.type in
      let changes = set_type_of c.name u (needs_rewrite s u) in
      elim (Bool-cases (type_eq u s)) [
        | inl p ↦
            let kept : e ≡ d = some-eq e d (sym (rw p refl) ∙ k) in
            let left : e.table ≡ t = some-eq e.table t (sym (rw p refl) ∙ h) in
            ap (λ (x : Evolved). x.table) (sym kept) ∙ left
        | inr p ↦
            step_agrees (change_type e.table c.name u) (carries_out e.table changes)
              (e.alters e.table c.name u) (λ v. record e { table = v; widened = e.widened + 1 })
              (λ v. refl) t d
              (sym (
                  ap (run_statements carries_out e.table) (widen_step-different c s u p)
                  ∙ run_statements-one e.table changes)
                ∙ h)
              (ap (λ n. evolve_step c n e) (sym (column_need-different s c.type p)) ∙ k)
      ]

  -- When a catalog that is reached by SQL carries out the statements that the SQL path plans, one
  -- after the other, and DuckDB carries out those of the native path, both leave the same table: the
  -- same columns with the same types in the same order. Which statements either of them refuses, one
  -- with USING for example, is left open.
  pub plan-evolves :
      (existing : Columns) (cs : List RawColumn) (e d : Evolved) (t : Columns)
      → run_statements carries_out e.table (all_statements (plan true existing cs)) ≡ some t
      → evolve_native existing cs e ≡ some d
      → d.table ≡ t
  unfolding run_statements plan evolve_native
  plan-evolves existing [] e d t h k =
      ap (λ (x : Evolved). x.table) (sym (some-eq e d k)) ∙ some-eq e.table t h
  plan-evolves existing (c ∷ cs) e d t h k =
      let o = find_column existing c.name in
      let rest = all_statements (plan true existing cs) in
      let (u, (ran, left)) =
        and_then-some (run_statements carries_out e.table (plan_step true c o).statements)
          (λ v. run_statements carries_out v rest) t
          (sym (run_statements-append e.table (plan_step true c o).statements rest) ∙ h) in
      let (e', (stepped, more)) =
        evolved-some (evolve_step c (column_need o c.type) e) (evolve_native existing cs) d k in
      let same : e'.table ≡ u = plan_step-evolves c o e e' u ran stepped in
      plan-evolves existing cs e' d t (ap (λ v. run_statements carries_out v rest) same ∙ left) more
