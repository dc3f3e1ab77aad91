-- ===== src/Optimize/Project/Offers.antt =====
-- What raw_project registers is what the rewriting finds.
use rawduck.Prelude.{ℕ, Str, Option, List, [], ◌≤◌, All}
use mathlib.Core.List.{Mem}
use rawduck.Dict.{find, value_or}
use rawduck.Stats.{StatsCache}

module _ (split : Str → List Str) (create : Str → List Str → Option ℕ) where
  -- A hottest group set of a table: observed, and as often as every other.
  abbrev pub IsHottest : StatsCache → Str → Str → Type 0
  IsHottest s table set =
      let sets = value_or [] (find table s.group_sets) in
      (n : ℕ) × Mem (set, n) sets × All (λ c. c.1 ≤ n) sets
