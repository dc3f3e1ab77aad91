-- ===== src/Optimize/Hottest.antt =====
-- raw_project materializes the group set that was observed most often.
use rawduck.Prelude.{
  ℕ, ◌≤◌, ◌<◌, ltb, ltb→lt, subst, sym, ap, Bool, true, false, ◌≡◌, refl, Str, [], ◌∷◌,
  if◌then◌else◌, All, arith, inl, inr, ◌⊎◌,
}
use mathlib.Core.List.{Mem, mem-cons_self, mem-cons_of_mem}
use rawduck.Dict.{Dict, find, value_or}
use rawduck.Stats.{StatsCache}
use rawduck.Optimize.{hottest_set, project_set}

-- As often observed as every set of the list, and one of them unless none is better than `best`.
abbrev IsBest : Dict ℕ → Str × ℕ → Str × ℕ → Type 0
IsBest sets best r = (best.1 ≤ r.1) × All (λ c. c.1 ≤ r.1) sets × ((r ≡ best) ⊎ Mem r sets)

-- The step from one candidate to the rest, for the better of the two.
better_step :
    (c : Str × ℕ) (sets : Dict ℕ) (best : Str × ℕ) (b : Bool)
    → ltb best.1 c.1 ≡ b
    → ((x : Str × ℕ) → IsBest sets x (hottest_set sets x))
    → IsBest (c ∷ sets) best (hottest_set sets (if b then c else best))
better_step c sets best true a h =
    let (ge, all, one) = h c in
    let less : best.1 < c.1 = ltb→lt best.1 c.1 a in
    (
      omega (arith, ge, less),
      (ge, all),
      inr (elim one [
        | inl e ↦ subst (λ r. Mem r (c ∷ sets)) (sym e) mem-cons_self
        | inr m ↦ mem-cons_of_mem c m
      ]),
    )
better_step c sets best false a h =
    let (ge, all, one) = h best in
    let not_less : c.1 ≤ best.1 = ground (arith, a) in
    (
      ge,
      (omega (arith, ge, not_less), all),
      elim one [ inl e ↦ inl e | inr m ↦ inr (mem-cons_of_mem c m) ],
    )

hottest_set-IsBest : (sets : Dict ℕ) (best : Str × ℕ) → IsBest sets best (hottest_set sets best)
unfolding hottest_set
hottest_set-IsBest [] best = (omega arith, tt, inl refl)
hottest_set-IsBest (c ∷ sets) best =
    better_step c sets best (ltb best.1 c.1) refl (hottest_set-IsBest sets)

-- raw_project picks a group set of the table that was observed as often as any other, and it picks
-- none, the empty text, only if the table has no set that was observed at all.
pub project_set-IsBest :
    (s : StatsCache) (table : Str)
    → let sets = value_or [] (find table s.group_sets) in
      All (λ c. c.1 ≤ 0) sets × (project_set s table ≡ [])
      ⊎ ((n : ℕ) × Mem (project_set s table, n) sets × All (λ c. c.1 ≤ n) sets)
unfolding project_set
project_set-IsBest s table =
    let sets = value_or [] (find table s.group_sets) in
    let (ge, all, one) = hottest_set-IsBest sets ([], 0) in
    elim one [
      | inl e ↦ inl (subst (λ (r : Str × ℕ). All (λ c. c.1 ≤ r.1) sets) e all, ap (λ r. r.0) e)
      | inr m ↦ inr ((hottest_set sets ([], 0)).1, m, all)
    ]
