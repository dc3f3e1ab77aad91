-- ===== src/Rewrite/Totals.antt =====
-- Totals over the rows of a projection and over the rows that they stand for.
use rawduck.Prelude.{
  ℕ, ◌+◌, length, Bool, Str, Option, List, [], ◌∷◌, ◌++◌, map, All, if◌then◌else◌, ◌≡◌, refl, ap,
  ◌∙◌, arith, Bool-cases, inl, inr,
}
use mathlib.Core.Logic.{∥∥₁_elim}
use mathlib.Core.List.{Perm}
use mathlib.Core.List.{Permᴰ}
use rawduck.Rewrite.{count_column}
use rawduck.Rewrite.Answers.{cell, total, joined, AreGroupsOf}

module _ {V : Type 0} (f : List V → ℕ) where
  pub total-append : (xs ys : List (List V)) → total f (xs ++ ys) ≡ total f xs + total f ys
  total-append [] ys = omega arith
  total-append (x ∷ xs) ys = omega (arith, total-append xs ys)

  total-Permᴰ : {xs ys : List (List V)} → Permᴰ xs ys → total f xs ≡ total f ys
  total-Permᴰ Permᴰ.nil = refl
  total-Permᴰ (Permᴰ.cons e p) = omega (arith, ap f e, total-Permᴰ p)
  total-Permᴰ (Permᴰ.swap e e') = omega (arith, ap f e, ap f e')
  total-Permᴰ (Permᴰ.trans p q) = total-Permᴰ p ∙ total-Permᴰ q

  pub total-Perm : {xs ys : List (List V)} → Perm xs ys → total f xs ≡ total f ys
  total-Perm p = ∥∥₁_elim p (hlevel) total-Permᴰ

-- Cells that agree in some columns are the same keys.
pub map-cell :
    {V : Type 0} (base entry : List Str) (b r : List V) (names : List Str)
    → All (λ name. cell base b name ≡ cell entry r name) names
    → map (cell base b) names ≡ map (cell entry r) names
map-cell base entry b r [] h = refl
map-cell base entry b r (name ∷ names) h = rw (h.0, map-cell base entry b r names h.1) refl

-- A row of the base table counts 1, a row of the projection its count.
abbrev pub counted : {V : Type 0} → List Str → List Str → (List (Option V) → Bool) → List V → ℕ
counted columns names test row = if test (map (cell columns row) names) then 1 else 0

module _ {V : Type 0} (number : Option V → ℕ) (names : List Str)
    (test : List (Option V) → Bool) where
  abbrev pub summed_count : List Str → List V → ℕ
  summed_count entry row =
      if test (map (cell entry row) names) then number (cell entry row count_column) else 0

  total-group :
      (base entry : List Str) (r : List V) (rows : List (List V))
      → All (λ b. All (λ name. cell base b name ≡ cell entry r name) names) rows
      → total (counted base names test) rows
        ≡ (if test (map (cell entry r) names) then length rows else 0)
  total-group base entry r [] h = elim (Bool-cases (test (map (cell entry r) names))) [
    | inl t ↦ rw t refl
    | inr t ↦ rw t refl
  ]
  total-group base entry r (b ∷ rows) h =
      let rest = total-group base entry r rows h.1 in
      elim (Bool-cases (test (map (cell entry r) names))) [
        | inl t ↦
            rw (map-cell base entry b r names h.0, t)
              (omega (arith, rest ∙ ap (λ x. if x then length rows else 0) t))
        | inr t ↦
            rw (map-cell base entry b r names h.0, t)
              (omega (arith, rest ∙ ap (λ x. if x then length rows else 0) t))
      ]

  -- The counts of the projection sum to the number of rows that it stands for.
  pub total-groups :
      (base entry : List Str) (projected : List (List V)) (parts : List (List (List V)))
      → AreGroupsOf number names base entry projected parts
      → total (summed_count entry) projected ≡ total (counted base names test) (joined parts)
  total-groups base entry [] [] h = refl
  total-groups base entry [] (rows ∷ parts) h = absurd h
  total-groups base entry (r ∷ projected) [] h = absurd h
  total-groups base entry (r ∷ projected) (rows ∷ parts) h = omega (
    arith,
    total-append (counted base names test) rows (joined parts),
    total-group base entry r rows h.0.1,
    total-groups base entry projected parts h.1,
    ap (λ n. if test (map (cell entry r) names) then n else 0) h.0.0,
  )
