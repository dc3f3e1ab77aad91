-- ===== src/Stats/Traces.antt =====
-- TraceBinding of src/raw_optimize.cpp, against what an expression refers to by the operators of the
-- plan.
pub mod Groups
pub mod Operators
use rawduck.Prelude.{
  ℕ, zero, suc, ◌≡◌, refl, sym, ap, ◌∙◌, ◌⊎◌, inl, inr, ◌==◌, Bool, true, false, Bool-cases, Str,
  codes, str_eq, str_eq_iff, str_eq_refl, ◌&&◌, ◌↔◌, Option, none, some, some-eq, Option-cases,
  List, [], ◌∷◌, get_elem?, if◌then◌else◌, arith,
}
use rawduck.Stats.Plan.{
  Binding, Expr, column_ref, function, other_expr, Exprs, no_expr, and_expr, Op, Ops, get,
  projection, aggregate, other_op, no_op, and_op, Get, Source, scans, projects, starts_with, unwrap,
  collect_gets, collect_gets_of, find_operator, trace_binding, resolve_group, resolve_get_column,
}
use rawduck.Stats.Traces.Operators.{
  first_of, operator_of, operator_below, find_operator-collect_gets,
}

-- A column, plain or in a wrapper of DuckDB's own.
abbrev pub Refers : Expr → Binding → Type 0
Refers (column_ref b) c = b ≡ c
Refers (function name (and_expr (column_ref b) es)) c =
    (starts_with name (codes "__internal_") ≡ true) × (b ≡ c)
Refers _ c = ⊥

-- A column of a plan leads to a column of a scan through at most so many operators.
unfoldable pub Leads : Op → ℕ → Binding → Get → ℕ → Type 0
Leads plan zero b g i = ⊥
Leads plan (suc hops) b g i =
    ((operator_of plan b.table_index ≡ some (scans g)) × (b.column_index ≡ i))
    ⊎ ((es : List Expr) × ((e : Expr) × ((c : Binding) × ((operator_of plan b.table_index
                ≡ some (projects es))
              × ((get_elem? es b.column_index ≡ some e) × (Refers e c × Leads plan hops c g i))))))

column_ref-eq : (b c : Binding) → column_ref b ≡ column_ref c → b ≡ c
column_ref-eq b c h = cc h

unwrap-wrapper :
    (name : Str) (e : Expr) (es : Exprs)
    → starts_with name (codes "__internal_") ≡ true
    → unwrap (function name (and_expr e es)) ≡ e
unwrap-wrapper name e es t = rw t refl

unwrap-other :
    (name : Str) (e : Expr) (es : Exprs)
    → starts_with name (codes "__internal_") ≡ false
    → unwrap (function name (and_expr e es)) ≡ function name (and_expr e es)
unwrap-other name e es f = rw f refl

wrapped-Refers :
    (name : Str) (e : Expr) (es : Exprs) (c : Binding)
    → starts_with name (codes "__internal_") ≡ true
    → e ≡ column_ref c
    → Refers (function name (and_expr e es)) c
wrapped-Refers name (column_ref b) es c t h = (t, column_ref-eq b c h)
wrapped-Refers name (function n ds) es c t h = ground (arith, h)
wrapped-Refers name other_expr es c t h = ground (arith, h)

unwrap-Refers : (e : Expr) (c : Binding) → unwrap e ≡ column_ref c → Refers e c
unwrap-Refers (column_ref b) c h = column_ref-eq b c h
unwrap-Refers other_expr c h = ground (arith, h)
unwrap-Refers (function name no_expr) c h = ground (arith, h)
unwrap-Refers (function name (and_expr e es)) c h =
    elim (Bool-cases (starts_with name (codes "__internal_"))) [
      | inl t ↦ wrapped-Refers name e es c t (sym (unwrap-wrapper name e es t) ∙ h)
      | inr f ↦ ground (arith, sym (unwrap-other name e es f) ∙ h)
    ]

Refers-unwrap : (e : Expr) (c : Binding) → Refers e c → unwrap e ≡ column_ref c
Refers-unwrap (column_ref b) c h = ap column_ref h
Refers-unwrap (function name (and_expr (column_ref b) es)) c h =
    unwrap-wrapper name (column_ref b) es h.0 ∙ ap column_ref h.1
Refers-unwrap (function name (and_expr (function n ds) es)) c h = elim h [ ]
Refers-unwrap (function name (and_expr other_expr es)) c h = elim h [ ]
Refers-unwrap (function name no_expr) c h = elim h [ ]
Refers-unwrap other_expr c h = elim h [ ]

pair-eq :
    (g h : Get) (i j : ℕ) → Path (Option (Get × ℕ)) (some (g, i)) (some (h, j)) → (g ≡ h) × (i ≡ j)
pair-eq g h i j e =
    let same : Path (Get × ℕ) (g, i) (h, j) = some-eq (g, i) (h, j) e in
    (ap (λ p. p.0) same, ap (λ p. p.1) same)

module _ (plan : Op) (operators : List (ℕ × Source))
    (points : (i : ℕ) → find_operator operators i ≡ operator_of plan i) where
  -- What trace_binding goes on with, after each of its tests.
  abbrev on_expr : ℕ → Expr → Option (Get × ℕ)
  on_expr hops (column_ref inner) = trace_binding hops operators inner
  on_expr hops _ = none

  abbrev on_found : ℕ → Option Expr → Option (Get × ℕ)
  on_found hops none = none
  on_found hops (some e) = on_expr hops (unwrap e)

  abbrev on_source : ℕ → Binding → Option Source → Option (Get × ℕ)
  on_source hops b none = none
  on_source hops b (some (scans g)) = some (g, b.column_index)
  on_source hops b (some (projects es)) = on_found hops (get_elem? es b.column_index)

  stepped_expr :
      (hops : ℕ) (u : Expr)
      → (elim u as (λ _. Option (Get × ℕ)) [
        | column_ref inner ↦ trace_binding hops operators inner
        | _ ↦ none
      ])
        ≡ on_expr hops u
  stepped_expr hops (column_ref inner) = refl
  stepped_expr hops (function n es) = refl
  stepped_expr hops other_expr = refl

  stepped_found :
      (hops : ℕ) (o : Option Expr)
      → (elim o as (λ _. Option (Get × ℕ)) [
        | none ↦ none
        | some e ↦ elim (unwrap e) as (λ _. Option (Get × ℕ)) [
          | column_ref inner ↦ trace_binding hops operators inner
          | _ ↦ none
        ]
      ])
        ≡ on_found hops o
  stepped_found hops none = refl
  stepped_found hops (some e) = stepped_expr hops (unwrap e)

  stepped_source :
      (hops : ℕ) (b : Binding) (o : Option Source)
      → (elim o as (λ _. Option (Get × ℕ)) [
        | none ↦ none
        | some source ↦ elim source as (λ _. Option (Get × ℕ)) [
          | scans g ↦ some (g, b.column_index)
          | projects es ↦ elim (get_elem? es b.column_index) as (λ _. Option (Get × ℕ)) [
            | none ↦ none
            | some e ↦ elim (unwrap e) as (λ _. Option (Get × ℕ)) [
              | column_ref inner ↦ trace_binding hops operators inner
              | _ ↦ none
            ]
          ]
        ]
      ])
        ≡ on_source hops b o
  stepped_source hops b none = refl
  stepped_source hops b (some (scans g)) = refl
  stepped_source hops b (some (projects es)) = stepped_found hops (get_elem? es b.column_index)

  trace_step :
      (hops : ℕ) (b : Binding)
      → trace_binding (suc hops) operators b ≡ on_source hops b (operator_of plan b.table_index)
  unfolding trace_binding
  trace_step hops b =
      stepped_source hops b (find_operator operators b.table_index)
      ∙ ap (on_source hops b) (points b.table_index)

  source-Leads :
      (hops : ℕ) (b : Binding) (g : Get) (i : ℕ) (o : Option Source)
      → ((c : Binding) → trace_binding hops operators c ≡ some (g, i) → Leads plan hops c g i)
      → operator_of plan b.table_index ≡ o
      → on_source hops b o ≡ some (g, i)
      → Leads plan (suc hops) b g i
  unfolding Leads
  source-Leads hops b g i none ih e h = ground (arith, h)
  source-Leads hops b g i (some (scans d)) ih e h =
      let same = pair-eq d g b.column_index i h in inl (e ∙ ap (λ x. some (scans x)) same.0, same.1)
  source-Leads hops b g i (some (projects es)) ih e h =
      let (x, (c, (at, (refers, leads)))) = found_refers hops g i (get_elem? es b.column_index) h in
      inr (es, (x, (c, (e, (at, (refers, ih c leads))))))
    where
      expr_refers :
          (hops : ℕ) (g : Get) (i : ℕ) (u : Expr)
          → on_expr hops u ≡ some (g, i)
          → (c : Binding) × ((u ≡ column_ref c) × (trace_binding hops operators c ≡ some (g, i)))
      expr_refers hops g i (column_ref c) h = (c, (refl, h))
      expr_refers hops g i (function n es) h = ground (arith, h)
      expr_refers hops g i other_expr h = ground (arith, h)

      found_refers :
          (hops : ℕ) (g : Get) (i : ℕ) (o : Option Expr)
          → on_found hops o ≡ some (g, i)
          → (e : Expr) × ((c : Binding) × ((o ≡ some e)
                × (Refers e c × (trace_binding hops operators c ≡ some (g, i)))))
      found_refers hops g i none h = ground (arith, h)
      found_refers hops g i (some e) h =
          let (c, (u, leads)) = expr_refers hops g i (unwrap e) h in
          (e, (c, (refl, (unwrap-Refers e c u, leads))))

  pub trace-Leads :
      (hops : ℕ) (b : Binding) (g : Get) (i : ℕ)
      → trace_binding hops operators b ≡ some (g, i)
      → Leads plan hops b g i
  unfolding trace_binding
  trace-Leads zero b g i h = ground (arith, h)
  trace-Leads (suc hops) b g i h =
      source-Leads hops b g i (operator_of plan b.table_index) (λ c. trace-Leads hops c g i) refl
        (sym (trace_step hops b) ∙ h)

  pub Leads-trace :
      (hops : ℕ) (b : Binding) (g : Get) (i : ℕ)
      → Leads plan hops b g i
      → trace_binding hops operators b ≡ some (g, i)
  unfolding Leads
  Leads-trace zero b g i h = elim h [ ]
  Leads-trace (suc hops) b g i (inl (at, same)) =
      trace_step hops b ∙ ap (on_source hops b) at ∙ ap (λ j. some (g, j)) same
  Leads-trace (suc hops) b g i (inr (es, (e, (c, (at, (found, (refers, leads))))))) =
      trace_step hops b
      ∙ ap (on_source hops b) at
      ∙ ap (on_found hops) found
      ∙ ap (on_expr hops) (Refers-unwrap e c refers)
      ∙ Leads-trace hops c g i leads

pub points_in : (plan : Op) (i : ℕ) → find_operator (collect_gets plan []) i ≡ operator_of plan i
unfolding find_operator
points_in plan i = find_operator-collect_gets plan [] i ∙ first_of-none (operator_of plan i)
  where
    first_of-none : (o : Option Source) → first_of o none ≡ o
    first_of-none (some a) = refl
    first_of-none none = refl
