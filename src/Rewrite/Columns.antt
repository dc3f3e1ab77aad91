-- ===== src/Rewrite/Columns.antt =====
-- The columns that TryRewriteToProjection finds: what its result says of the plan and of the
-- cache, and the values of the groups before and after.
use rawduck.Prelude.{
  ℕ, zero, suc, drop, ◌==◌, ==_iff, length, get_elem?, Bool, true, false, Str, str_eq, Option, none,
  some, some-eq, ◌>>=◌, ◌>>◌, guard, List, [], ◌∷◌, ◌++◌, map, All, ◌≡◌, refl, ap, sym, ◌∙◌, subst,
  str_eq_iff, arith, inl, inr, Bool-cases, if_both, if◌then◌else◌,
}
use rawduck.Flatten.{is_empty}
use rawduck.Dict.{find, str_less}
use rawduck.Stats.{Projection, StatsCache}
use rawduck.Stats.Plan.{Get, resolve_get_column, sort_names, insert_name}
use rawduck.Rewrite.{
  Expression, column_ref, cast_to, other_expression, Aggregate, Catalog, Target, count_column,
  physical_index, column_ids_of, group_name, group_names, counts_only, retarget, all_columns,
  fresh_projection, find_target,
}
use rawduck.Rewrite.Answers.{IsIndexed, IsColumn, cell, expression_value, key_of}

-- Inversion of the steps of a chain.
>>=-some {ℓ κ} :
    {A : Type ℓ} {B : Type κ} (o : Option A) (f : A → Option B) (b : B)
    → (o >>= f) ≡ some b
    → (a : A) × ((o ≡ some a) × (f a ≡ some b))
>>=-some none f b h = ground arith
>>=-some (some a) f b h = (a, (refl, h))

>>-some {κ} :
    {B : Type κ} (t : Bool) (o : Option B) (b : B)
    → (guard t >> o) ≡ some b
    → (t ≡ true) × (o ≡ some b)
>>-some true o b h = (refl, h)
>>-some false o b h = ground arith

drop-cons :
    (i : ℕ) (xs : List ℕ) (y : ℕ) (ys : List ℕ)
    → drop i xs ≡ y ∷ ys
    → (get_elem? xs i ≡ some y) × (drop (suc i) xs ≡ ys)
drop-cons zero [] y ys h = ground arith
drop-cons zero (x ∷ xs) y ys h = ground arith
drop-cons (suc i) [] y ys h = ground arith
drop-cons (suc i) (x ∷ xs) y ys h = drop-cons i xs y ys h

resolve_get_column-bind :
    (g : Get) (i : ℕ) → resolve_get_column g i ≡ (get_elem? g.column_ids i >>= get_elem? g.names)
unfolding resolve_get_column
resolve_get_column-bind g i = ground arith

-- What find_target found.
abbrev pub IsTarget {ℓ} :
    {T : Type ℓ} → (List Str → Str) → Catalog T → StatsCache → Aggregate T → Get → Target → Type 0
IsTarget join catalog s a g t =
    (key : Str) × ((names : List Str) × ((p : Projection) × ((g.table ≡ some key)
          × ((counts_only a ≡ true)
              × ((group_names g a.groups ≡ some names)
                  × ((fresh_projection join catalog s key names ≡ some p)
                      × ((catalog.get_entry p ≡ some t.entry)
                          × ((column_ids_of t.entry.columns names ≡ some t.ids)
                              × (physical_index t.entry.columns count_column ≡ some t.count)))))))))

module _ {ℓ} {T : Type ℓ} where
  pub find_target-IsTarget :
      (join : List Str → Str) (catalog : Catalog T) (s : StatsCache) (es : List (Expression T))
      (a : Aggregate T) (g : Get) (t : Target)
      → find_target join catalog s es a g ≡ some t
      → IsTarget join catalog s a g t
  unfolding find_target
  find_target-IsTarget join catalog s es a g t h =
      let (key, (h0, h)) = >>=-some g.table _ t h in
      let (h1, h) = >>-some (is_empty g.filters) _ t h in
      let (h2, h) = >>-some (counts_only a) _ t h in
      let (names, (h3, h)) = >>=-some (group_names g a.groups) _ t h in
      let (p, (h4, h)) = >>=-some (fresh_projection join catalog s key names) _ t h in
      let (entry, (h5, h)) = >>=-some (catalog.get_entry p) _ t h in
      let (h6, h) = >>-some (all_columns es) _ t h in
      let (ids, (h7, h)) = >>=-some (column_ids_of entry.columns names) _ t h in
      let (count, (h8, h)) = >>=-some (physical_index entry.columns count_column) _ t h in
      subst (IsTarget join catalog s a g) (some-eq _ _ h)
        (key, (names, (p, (h0, (h2, (h3, (h4, (h5, (h7, h8)))))))))

  pub fresh_projection-some :
      (join : List Str → Str) (catalog : Catalog T) (s : StatsCache) (key : Str) (names : List Str)
      (p : Projection)
      → fresh_projection join catalog s key names ≡ some p
      → (find key s.projections ≡ some p)
        × ((p.group_set ≡ join (sort_names names)) × (catalog.total_rows key ≡ p.base_rows))
  unfolding fresh_projection
  fresh_projection-some join catalog s key names p h =
      let (q, (h0, h)) = >>=-some (find key s.projections) _ p h in
      let (h1, h) = >>-some (str_eq q.group_set (join (sort_names names))) _ p h in
      let (h2, h) = >>-some (catalog.total_rows key == q.base_rows) _ p h in
      let e = some-eq q p h in
      (
        h0 ∙ ap some e,
        (
          sym (ap (λ x. x.group_set) e) ∙ (str_eq_iff _ _).0 h1,
          (==_iff _ _).0 h2 ∙ ap (λ x. x.base_rows) e,
        ),
      )

group_name-IsColumn {ℓ} :
    {T : Type ℓ} (g : Get) (e : Expression T) (name : Str)
    → group_name g e ≡ some name
    → IsColumn g.names name
group_name-IsColumn g (column_ref b t) name h =
    let (same, h) = >>-some (b.table_index == g.table_index) _ name h in
    let (i, (h0, h1)) =
      >>=-some (get_elem? g.column_ids b.column_index) _ name
        (sym (resolve_get_column-bind g b.column_index) ∙ h) in
    (i, h1)
group_name-IsColumn g (cast_to e t) name h = ground arith
group_name-IsColumn g (other_expression t) name h = ground arith

module _ {ℓ} {T : Type ℓ} where
  pub group_names-IsColumn :
      (g : Get) (es : List (Expression T)) (names : List Str)
      → group_names g es ≡ some names
      → All (IsColumn g.names) names
  unfolding group_names
  group_names-IsColumn g [] names h = subst (λ x. All (IsColumn g.names) x) (some-eq [] names h) tt
  group_names-IsColumn g (e ∷ es) names h =
      let (name, (h0, h)) = >>=-some (group_name g e) _ names h in
      let (rest, (h1, h)) = >>=-some (group_names g es) _ names h in
      subst (λ x. All (IsColumn g.names) x) (some-eq (name ∷ rest) names h)
        (group_name-IsColumn g e name h0, group_names-IsColumn g es rest h1)

module _ {ℓ} {T : Type ℓ} {V : Type 0} where
  -- A group of the query is the column with its name.
  group_name-value :
      (g : Get) (e : Expression T) (name : Str) (row : List V)
      → IsIndexed g.names
      → group_name g e ≡ some name
      → expression_value g row e ≡ cell g.names row name
  group_name-value g (column_ref b t) name row indexed h =
      let (same, h) = >>-some (b.table_index == g.table_index) _ name h in
      let (i, (h0, h1)) =
        >>=-some (get_elem? g.column_ids b.column_index) _ name
          (sym (resolve_get_column-bind g b.column_index) ∙ h) in
      rw (same, h0, indexed i name h1) refl
  group_name-value g (cast_to e t) name row indexed h = ground arith
  group_name-value g (other_expression t) name row indexed h = ground arith

  pub group_names-keys :
      (g : Get) (es : List (Expression T)) (names : List Str) (row : List V)
      → IsIndexed g.names
      → group_names g es ≡ some names
      → key_of g es row ≡ map (cell g.names row) names
  unfolding group_names
  group_names-keys g [] names row indexed h =
      ap (λ x. map (cell g.names row) x) (some-eq [] names h)
  group_names-keys g (e ∷ es) names row indexed h =
      let (name, (h0, h)) = >>=-some (group_name g e) _ names h in
      let (rest, (h1, h)) = >>=-some (group_names g es) _ names h in
      ap (λ v. v ∷ key_of g es row) (group_name-value g e name row indexed h0)
      ∙ ap (λ vs. cell g.names row name ∷ vs) (group_names-keys g es rest row indexed h1)
      ∙ ap (λ x. map (cell g.names row) x) (some-eq (name ∷ rest) names h)

  pub expression_value-column :
      (g : Get) (i c : ℕ) (t : T) (columns : List Str) (name : Str) (row : List V)
      → get_elem? g.column_ids i ≡ some c
      → physical_index columns name ≡ some c
      → expression_value g row
          (column_ref (record { table_index = g.table_index; column_index = i }) t)
        ≡ cell columns row name
  expression_value-column g i c t columns name row h k =
      rw ((==_iff g.table_index g.table_index).1 refl, h, k) refl

  -- The retargeted groups are the columns of the projection with the same names.
  pub retarget-keys :
      (base g : Get) (i : ℕ) (tail ids : List ℕ) (columns names : List Str)
      (es : List (Expression T)) (row : List V)
      → drop i g.column_ids ≡ ids ++ tail
      → group_names base es ≡ some names
      → column_ids_of columns names ≡ some ids
      → key_of g (retarget g.table_index i es) row ≡ map (cell columns row) names
  unfolding group_names column_ids_of
  retarget-keys base g i tail ids columns names [] row c h k =
      ap (λ x. map (cell columns row) x) (some-eq [] names h)
  retarget-keys base g i tail ids columns names (column_ref b t ∷ es) row c h k =
      let (name, (h0, h)) = >>=-some (group_name base (column_ref b t)) _ names h in
      let (rest, (h1, h)) = >>=-some (group_names base es) _ names h in
      let split = some-eq (name ∷ rest) names h in
      let (id, (k0, k)) =
        >>=-some (physical_index columns name) _ ids (ap (column_ids_of columns) split ∙ k) in
      let (more, (k1, k)) = >>=-some (column_ids_of columns rest) _ ids k in
      let (found, left) =
        drop-cons i g.column_ids id (more ++ tail)
          (c ∙ ap (λ x. x ++ tail) (sym (some-eq (id ∷ more) ids k))) in
      ap (λ v. v ∷ key_of g (retarget g.table_index (suc i) es) row)
        (expression_value-column g i id t columns name row found k0)
      ∙ ap (λ vs. cell columns row name ∷ vs)
          (retarget-keys base g (suc i) tail more columns rest es row left h1 k1)
      ∙ ap (λ x. map (cell columns row) x) split
  retarget-keys base g i tail ids columns names (cast_to e t ∷ es) row c h k = ground arith
  retarget-keys base g i tail ids columns names (other_expression t ∷ es) row c h k = ground arith

-- The count column stands behind the groups.
pub get_elem?-length : (ids : List ℕ) (c : ℕ) → get_elem? (ids ++ c ∷ []) (length ids) ≡ some c
get_elem?-length [] c = refl
get_elem?-length (i ∷ ids) c = get_elem?-length ids c

-- What holds of all names in their order holds of all names.
All-insert_name :
    (P : Str → Type 0) (a : Str) (names : List Str)
    → All P (insert_name a names)
    → P a × All P names
unfolding insert_name
All-insert_name P a [] h = h
All-insert_name P a (b ∷ names) h = elim (Bool-cases (str_less b a)) [
  | inl e ↦
      let h =
        subst (λ x. All P x) (ap (λ t. if t then b ∷ insert_name a names else a ∷ b ∷ names) e) h in
      let rest = All-insert_name P a names h.1 in (rest.0, (h.0, rest.1))
  | inr e ↦
      subst (λ x. All P x) (ap (λ t. if t then b ∷ insert_name a names else a ∷ b ∷ names) e) h
]

pub All-sort_names : (P : Str → Type 0) (names : List Str) → All P (sort_names names) → All P names
unfolding sort_names
All-sort_names P [] h = tt
All-sort_names P (a ∷ names) h =
    let rest = All-insert_name P a (sort_names names) h in (rest.0, All-sort_names P names rest.1)

insert_name-All :
    (P : Str → Type 0) (a : Str) (names : List Str)
    → P a
    → All P names
    → All P (insert_name a names)
unfolding insert_name
insert_name-All P a [] p h = (p, tt)
insert_name-All P a (b ∷ names) p h =
    if_both (λ x. All P x) (str_less b a) (b ∷ insert_name a names) (a ∷ b ∷ names)
      (h.0, insert_name-All P a names p h.1) (p, h)

pub sort_names-All : (P : Str → Type 0) (names : List Str) → All P names → All P (sort_names names)
unfolding sort_names
sort_names-All P [] h = tt
sort_names-All P (a ∷ names) h =
    insert_name-All P a (sort_names names) h.0 (sort_names-All P names h.1)
