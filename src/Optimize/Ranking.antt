-- ===== src/Optimize/Ranking.antt =====
-- The columns of the sort key are the hottest.
use rawduck.Prelude.{
  ℕ, zero, suc, ◌+◌, ◌*◌, ◌≤◌, ◌<◌, ltb, take, drop, length, true, ◌≡◌, refl, ap, ◌∙◌, subst, ◌⊎◌,
  inl, inr, ◌++◌, Str, List, [], ◌∷◌, map, All, arith, Bool-cases,
}
use mathlib.Core.List.{Perm}
use mathlib.Core.List.Perm
use rawduck.Dict.{Dict, find, value_or, str_less, IsOrdered}
use rawduck.Stats.{ColumnUsage, StatsCache}
use rawduck.Optimize.{Scored, scored, insert_ranked, sort_ranked, rank_columns, order_columns}

-- More often used, or as often and with the smaller name.
abbrev pub IsHotter : Scored → Scored → Type 0
IsHotter a b = (b.1 < a.1) ⊎ ((a.1 ≡ b.1) × (str_less a.0 b.0 ≡ true))

abbrev pub IsRanked : List Scored → Type 0
IsRanked [] = Unit
IsRanked (a ∷ ranked) = All (IsHotter a) ranked × IsRanked ranked

insert_ranked-perm :
    (a : Scored) (ranked : List Scored) → Perm (insert_ranked a ranked) (a ∷ ranked)
unfolding insert_ranked
insert_ranked-perm a [] = Perm.rfl
insert_ranked-perm a (b ∷ ranked) = elim (Bool-cases (ltb a.1 b.1)) [
  | inl h ↦ rw h (Perm.trans (Perm.cons b (insert_ranked-perm a ranked)) (Perm.swap a b ranked))
  | inr h ↦ rw h Perm.rfl
]

sort_ranked-perm : (columns : List Scored) → Perm (sort_ranked columns) columns
unfolding sort_ranked
sort_ranked-perm [] = Perm.rfl
sort_ranked-perm (a ∷ columns) =
    Perm.trans (insert_ranked-perm a (sort_ranked columns)) (Perm.cons a (sort_ranked-perm columns))

insert_ranked-All {ℓ} :
    (P : Scored → Type ℓ) (a : Scored) (ranked : List Scored)
    → P a
    → All P ranked
    → All P (insert_ranked a ranked)
unfolding insert_ranked
insert_ranked-All P a [] p h = (p, tt)
insert_ranked-All P a (b ∷ ranked) p h = elim (Bool-cases (ltb a.1 b.1)) [
  | inl e ↦ rw e (h.0, insert_ranked-All P a ranked p h.1)
  | inr e ↦ rw e (p, h)
]

sort_ranked-All {ℓ} :
    (P : Scored → Type ℓ) (columns : List Scored) → All P columns → All P (sort_ranked columns)
unfolding sort_ranked
sort_ranked-All P [] h = tt
sort_ranked-All P (a ∷ columns) h =
    insert_ranked-All P a (sort_ranked columns) h.0 (sort_ranked-All P columns h.1)

-- A column whose name is before all others.
insert_ranked-IsRanked :
    (a : Scored) (ranked : List Scored)
    → All (λ b. str_less a.0 b.0 ≡ true) ranked
    → IsRanked ranked
    → IsRanked (insert_ranked a ranked)
unfolding insert_ranked
insert_ranked-IsRanked a [] n h = (tt, tt)
insert_ranked-IsRanked a (b ∷ ranked) n h = elim (Bool-cases (ltb a.1 b.1)) [
  | inl e ↦ rw e (
    insert_ranked-All (IsHotter b) a ranked (inl (ground (arith, e))) h.0,
    insert_ranked-IsRanked a ranked n.1 h.1,
  )
  | inr e ↦ rw e ((first b n.0 (ground (arith, e)), later ranked n.1 h.0 (ground (arith, e))), h)
]
  where
    first : (c : Scored) → str_less a.0 c.0 ≡ true → c.1 ≤ a.1 → IsHotter a c
    first c l le = elim (Bool-cases (ltb c.1 a.1)) [
      | inl e ↦ inl (ground (arith, e))
      | inr e ↦ inr (ground (arith, e, le), l)
    ]

    later :
        (cs : List Scored)
        → All (λ c. str_less a.0 c.0 ≡ true) cs
        → All (IsHotter b) cs
        → b.1 ≤ a.1
        → All (IsHotter a) cs
    later [] l g le = tt
    later (c ∷ cs) l g le = (
      first c l.0 (elim g.0 [ inl lt ↦ omega (arith, lt, le) | inr eq ↦ omega (arith, eq.0, le) ]),
      later cs l.1 g.1 le,
    )

sort_ranked-IsRanked : (m : Dict ColumnUsage) → IsOrdered m → IsRanked (sort_ranked (map scored m))
unfolding sort_ranked
sort_ranked-IsRanked [] h = tt
sort_ranked-IsRanked (e ∷ m) h =
    insert_ranked-IsRanked (scored e) (sort_ranked (map scored m))
      (sort_ranked-All (λ b. str_less e.0 b.0 ≡ true) (map scored m) (names m h.0))
      (sort_ranked-IsRanked m h.1)
  where
    names :
        (m : Dict ColumnUsage)
        → All (λ e'. str_less e.0 e'.0 ≡ true) m
        → All (λ b. str_less e.0 b.0 ≡ true) (map scored m)
    names [] l = tt
    names (e' ∷ m) l = (l.0, names m l.1)

All-drop {ℓ} : (P : Scored → Type ℓ) (n : ℕ) (xs : List Scored) → All P xs → All P (drop n xs)
All-drop P zero xs h = h
All-drop P (suc n) [] h = tt
All-drop P (suc n) (x ∷ xs) h = All-drop P n xs h.1

-- Each of the first columns of a ranking is hotter than each that follows them.
ranked_parts :
    (n : ℕ) (ranked : List Scored)
    → IsRanked ranked
    → All (λ a. All (IsHotter a) (drop n ranked)) (take n ranked)
ranked_parts zero ranked h = tt
ranked_parts (suc n) [] h = tt
ranked_parts (suc n) (a ∷ ranked) h =
    (All-drop (IsHotter a) n ranked h.0, ranked_parts n ranked h.1)

length-insert_ranked :
    (a : Scored) (ranked : List Scored) → length (insert_ranked a ranked) ≡ suc (length ranked)
unfolding insert_ranked
length-insert_ranked a [] = refl
length-insert_ranked a (b ∷ ranked) = elim (Bool-cases (ltb a.1 b.1)) [
  | inl h ↦ rw h (ap suc (length-insert_ranked a ranked))
  | inr h ↦ rw h refl
]

length-sort_ranked : (m : Dict ColumnUsage) → length (sort_ranked (map scored m)) ≡ length m
unfolding sort_ranked
length-sort_ranked [] = refl
length-sort_ranked (e ∷ m) =
    length-insert_ranked (scored e) (sort_ranked (map scored m)) ∙ ap suc (length-sort_ranked m)

-- The first two, or as many as there are, in front of the others.
key_parts :
    (ranked : List Scored)
    → (order_columns ranked ++ drop 2 ranked ≡ ranked)
      × ((length (order_columns ranked) ≡ 2)
          ⊎ ((length (order_columns ranked) ≡ length ranked) × (length ranked < 2)))
key_parts [] = (refl, inr (refl, omega arith))
key_parts (a ∷ []) = (refl, inr (refl, omega arith))
key_parts (a ∷ b ∷ ranked) = (refl, inl refl)

-- The sort key of raw_optimize has the hottest columns of the table: they are its used columns, two
-- or, where there are fewer, as many as there are, in front of a ranking of all of them in which each
-- column is used more often than every one behind it (a filter counts two, a grouping one), or as
-- often with the smaller name.
pub order_columns-hottest :
    (s : StatsCache) (table : Str)
    → IsOrdered (value_or [] (find table s.usage))
    → let used = value_or [] (find table s.usage) in
      let ranked = rank_columns s table in
      let key = order_columns ranked in
      IsRanked ranked
      × (Perm ranked (map (λ e. (e.0, 2 * e.1.filters + e.1.groups)) used)
          × (((length key ≡ 2) ⊎ ((length key ≡ length used) × (length used < 2)))
              × ((key ++ drop 2 ranked ≡ ranked)
                  × All (λ a. All (IsHotter a) (drop 2 ranked)) key)))
unfolding rank_columns
order_columns-hottest s table h =
    let m = value_or [] (find table s.usage) in
    let sorted = sort_ranked (map scored m) in
    let ranked = sort_ranked-IsRanked m h in
    let (parts, count) = key_parts sorted in
    let counted : (length (order_columns sorted) ≡ 2)
        ⊎ ((length (order_columns sorted) ≡ length m) × (length m < 2)) =
      subst
        (λ n. (length (order_columns sorted) ≡ 2) ⊎ ((length (order_columns sorted) ≡ n) × (n < 2)))
        (length-sort_ranked m) count in
    (ranked, (sort_ranked-perm (map scored m), (counted, (parts, ranked_parts 2 sorted ranked))))
