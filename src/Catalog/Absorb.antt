-- ===== src/Catalog/Absorb.antt =====
-- After evolution a table has absorbed the payload's columns.
use rawduck.Prelude.{
  ◌+◌, ◌≡◌, ◌≢◌, refl, sym, ◌∙◌, ap, ◌⊎◌, inl, inr, Str, str_eq, str_eq_iff, str_eq_refl, lower,
  false, Option, none, some, List, [], ◌∷◌, ◌++◌, arith, if◌then◌else◌, Bool-cases, All, some-eq,
}
use rawduck.SqlType.{LogicalType, type_eq, type_eq_iff, type_eq_refl}
use rawduck.Flatten.{RawColumn}
use rawduck.Flatten.Names.{HasDistinctNames}
use rawduck.Widen.{join_column_types}
use rawduck.Widen.Stable.{join_column_types_stable, join_self}
use rawduck.Catalog.{
  Columns, find_column, set_type, add_column, change_type, keep, column_need, compute_delta,
  Evolved, evolve_step, evolve_native,
}

find_column-append :
    (cs : Columns) (name : Str) (t : LogicalType) (other : Str)
    → find_column (cs ++ (name, t) ∷ []) other ≡ elim (find_column cs other) [
      | some u ↦ some u
      | none ↦ if str_eq (lower name) (lower other) then some t else none
    ]
unfolding find_column
find_column-append [] name t other = refl
find_column-append ((n, u) ∷ cs) name t other = ground (arith, find_column-append cs name t other)

find_column-set_type :
    (cs : Columns) (name : Str) (t : LogicalType) (other : Str)
    → find_column (set_type cs name t) other ≡ elim (find_column cs other) [
      | none ↦ none
      | some u ↦ some (if str_eq (lower name) (lower other) then t else u)
    ]
unfolding find_column set_type
find_column-set_type [] name t other = refl
find_column-set_type ((n, u) ∷ cs) name t other = ground (
  arith,
  find_column-set_type cs name t other,
  str_eq_iff (lower n) (lower name),
  str_eq_iff (lower n) (lower other),
  str_eq_iff (lower name) (lower other),
)

-- The type that a table has for a name after one column of a payload.
abbrev pub after_column : Option LogicalType → LogicalType → LogicalType
after_column none incoming = incoming
after_column (some t) incoming = join_column_types t incoming

find_column_cong :
    (cs : Columns) (a b : Str) → lower a ≡ lower b → find_column cs a ≡ find_column cs b
unfolding find_column
find_column_cong [] a b h = refl
find_column_cong ((n, t) ∷ cs) a b h = rw h (rw (find_column_cong cs a b h))

-- What one column does: under its own name the table gets the joined type, no other name changes,
-- and one counter grows where something changed.
abbrev Stepped : RawColumn → Evolved → Evolved → Type 0
Stepped c e e' =
    (other : Str)
    → find_column e'.table other ≡ (
        if str_eq (lower c.name) (lower other)
        then some (after_column (find_column e.table c.name) c.type)
        else find_column e.table other)

-- A statement was refused, or the column was carried out.
evolve_step_lem :
    (c : RawColumn) (e : Evolved) (o : Option LogicalType)
    → find_column e.table c.name ≡ o
    → (evolve_step c (column_need o c.type) e ≡ none)
      ⊎ ((e' : Evolved) × (evolve_step c (column_need o c.type) e ≡ some e') × Stepped c e e')
unfolding add_column change_type
evolve_step_lem c e none h = elim (Bool-cases (e.alters e.table c.name c.type)) [
  | inr refused ↦ inl (ground (arith, refused))
  | inl granted ↦ inr (
    record e { table = e.table ++ (c.name, c.type) ∷ []; added = e.added + 1 },
    ground (arith, granted, h),
    λ other. ground (
      arith,
      h,
      find_column-append e.table c.name c.type other,
      find_column_cong e.table other c.name,
      str_eq_iff (lower c.name) (lower other),
    ),
  )
]
evolve_step_lem c e (some t) h =
    let u = join_column_types t c.type in
    elim (Bool-cases (type_eq u t)) [
      | inl same ↦ inr (
        e,
        ground (arith, same),
        λ other. ground (
          arith,
          h,
          same,
          type_eq_iff u t,
          find_column_cong e.table other c.name,
          str_eq_iff (lower c.name) (lower other),
        ),
      )
      | inr differs ↦ elim (Bool-cases (e.alters e.table c.name u)) [
        | inr refused ↦ inl (ground (arith, differs, refused))
        | inl granted ↦ inr (
          record e { table = set_type e.table c.name u; widened = e.widened + 1 },
          ground (arith, differs, granted, h),
          λ other. ground (
            arith,
            h,
            find_column-set_type e.table c.name u other,
            find_column_cong e.table other c.name,
            str_eq_iff (lower c.name) (lower other),
          ),
        )
      ]
    ]

-- A payload's columns, one after the other.
abbrev Absorbed : List RawColumn → Columns → Columns → Type 0
Absorbed [] before after = Unit
Absorbed (c ∷ cs) before after =
    (find_column after c.name ≡ some (after_column (find_column before c.name) c.type))
    × Absorbed cs before after

abbrev Same : Columns → Columns → List RawColumn → Type 0
Same before after cs = All (λ c. find_column after c.name ≡ find_column before c.name) cs

record Result (existing : Columns) (cs : List RawColumn) (e e' : Evolved) : Type 0 where
  absorbed : Absorbed cs existing e'.table
  others :
      (other : Str)
      → All (λ c. lower c.name ≢ lower other) cs
      → find_column e'.table other ≡ find_column e.table other

Same-step :
    (existing : Columns) (c : RawColumn) (e e' : Evolved) (cs : List RawColumn)
    → Stepped c e e'
    → All (λ d. lower c.name ≢ lower d.name) cs
    → Same existing e.table cs
    → Same existing e'.table cs
Same-step existing c e e' [] st ne h = tt
Same-step existing c e e' (d ∷ cs) st ne h = (
  ground (arith, st d.name, str_eq_iff (lower c.name) (lower d.name), ne.0, h.0),
  Same-step existing c e e' cs st ne.1 h.1,
)

flip :
    (name : Str) (cs : List RawColumn)
    → All (λ d. lower name ≢ lower d.name) cs
    → All (λ d. lower d.name ≢ lower name) cs
flip name [] h = tt
flip name (d ∷ cs) h = (λ e. h.0 (sym e), flip name cs h.1)

evolve_native_lem :
    (existing : Columns) (cs : List RawColumn) (e : Evolved)
    → HasDistinctNames cs
    → Same existing e.table cs
    → (evolve_native existing cs e ≡ none)
      ⊎ ((e' : Evolved) × (evolve_native existing cs e ≡ some e') × Result existing cs e e')
unfolding evolve_native
evolve_native_lem existing [] e ne h =
    inr (e, refl, record { absorbed = tt; others = λ other _. refl })
evolve_native_lem existing (c ∷ cs) e ne h =
    elim (evolve_step_lem c e (find_column existing c.name) h.0) [
      | inl refused ↦ inl (ground (arith, refused))
      | inr (e₁, ran, st) ↦
          elim (evolve_native_lem existing cs e₁ ne.1 (Same-step existing c e e₁ cs st ne.0 h.1)) [
            | inl refused ↦ inl (ground (arith, ran, refused))
            | inr (e₂, rest, res) ↦ inr (
              e₂,
              ground (arith, ran, rest),
              record {
                absorbed = (
                  res.others c.name (flip c.name cs ne.0)
                      ∙ st c.name
                      ∙ ground (arith, h.0, str_eq_refl (lower c.name)),
                  res.absorbed,
                );
                others = λ other all. ground (
                  arith,
                  res.others other all.1,
                  st other,
                  str_eq_iff (lower c.name) (lower other),
                  all.0,
                );
              },
            )
          ]
    ]

-- A column that has its joined type needs nothing more.
settled :
    (c : RawColumn) (o : Option LogicalType)
    → column_need (some (after_column o c.type)) c.type ≡ keep
settled c none = ground (arith, join_self c.type, type_eq_refl c.type)
settled c (some t) =
    ground (arith, join_column_types_stable t c.type, type_eq_refl (join_column_types t c.type))

no_delta :
    (cs : List RawColumn) (before after : Columns)
    → Absorbed cs before after
    → compute_delta after cs ≡ record { adds = []; widens = false }
unfolding compute_delta
no_delta [] before after h = refl
no_delta (c ∷ cs) before after h =
    ground (arith, h.0, settled c (find_column before c.name), no_delta cs before after h.1)

Same-refl : (table : Columns) (cs : List RawColumn) → Same table table cs
Same-refl table [] = tt
Same-refl table (c ∷ cs) = (refl, Same-refl table cs)

-- When DuckDB carries out all statements, evolving a table for columns with distinct names leaves
-- nothing to do for these columns, so that a payload of that shape may skip the comparison: none is
-- missing, and no type is too narrow. And each column that the payload does not name keeps its type,
-- or stays missing. Which statements DuckDB refuses is left open: with a refusal there is no
-- result.
pub evolve_native_absorbs :
    (cs : List RawColumn) (before after : Evolved)
    → HasDistinctNames cs
    → evolve_native before.table cs before ≡ some after
    → (compute_delta after.table cs ≡ record { adds = []; widens = false })
      × ((other : Str)
          → All (λ c. lower c.name ≢ lower other) cs
          → find_column after.table other ≡ find_column before.table other)
evolve_native_absorbs cs before after ne h =
    elim (evolve_native_lem before.table cs before ne (Same-refl before.table cs)) [
      | inl refused ↦ cc (sym refused ∙ h)
      | inr (e, ran, res) ↦
          let same : e ≡ after = some-eq e after (sym ran ∙ h) in
          (
            ap (λ (x : Evolved). compute_delta x.table cs) (sym same)
                ∙ no_delta cs before.table e.table res.absorbed,
            λ other all.
                ap (λ (x : Evolved). find_column x.table other) (sym same) ∙ res.others other all,
          )
    ]
