-- ===== src/Stats/Traces/Operators.antt =====
-- The scans and projections of a plan by their table index, as CollectGets of src/raw_optimize.cpp
-- gathers them.
use rawduck.Prelude.{
  ℕ, ◌≡◌, refl, ap, ◌∙◌, ◌==◌, Bool, true, false, Option, none, some, List, ◌∷◌, if◌then◌else◌,
}
use rawduck.Stats.Plan.{
  Op, Ops, get, projection, aggregate, other_op, no_op, and_op, Source, scans, projects,
  collect_gets, collect_gets_of, find_operator,
}

abbrev pub first_of {ℓ} : {A : Type ℓ} → Option A → Option A → Option A
first_of (some a) o = some a
first_of none o = o

first_of_assoc {ℓ} :
    {A : Type ℓ} (x y z : Option A) → first_of x (first_of y z) ≡ first_of (first_of x y) z
first_of_assoc (some a) y z = refl
first_of_assoc none y z = refl

first_of-if {ℓ} :
    {A : Type ℓ} (x : Option A) (b : Bool) (a : A) (o : Option A)
    → first_of x (if b then some a else o) ≡ first_of (first_of x (if b then some a else none)) o
first_of-if (some c) b a o = refl
first_of-if none true a o = refl
first_of-if none false a o = refl

-- The scan or projection of a plan that has a table index; the deepest and last if there are more.
abbrev mutual
  pub operator_of : Op → ℕ → Option Source
  operator_of (get g children) i =
      first_of (operator_below children i) (if g.table_index == i then some (scans g) else none)
  operator_of (projection j es children) i =
      first_of (operator_below children i) (if j == i then some (projects es) else none)
  operator_of (aggregate groups children) i = operator_below children i
  operator_of (other_op children) i = operator_below children i

  pub operator_below : Ops → ℕ → Option Source
  operator_below no_op i = none
  operator_below (and_op op ops) i = first_of (operator_below ops i) (operator_of op i)

mutual
  unfolding collect_gets find_operator

  pub find_operator-collect_gets :
      (op : Op) (operators : List (ℕ × Source)) (i : ℕ)
      → find_operator (collect_gets op operators) i
        ≡ first_of (operator_of op i) (find_operator operators i)
  find_operator-collect_gets (get g children) operators i =
      find_operator-collect_gets_of children ((g.table_index, scans g) ∷ operators) i
      ∙ first_of-if (operator_below children i) (g.table_index == i) (scans g)
          (find_operator operators i)
  find_operator-collect_gets (projection j es children) operators i =
      find_operator-collect_gets_of children ((j, projects es) ∷ operators) i
      ∙ first_of-if (operator_below children i) (j == i) (projects es) (find_operator operators i)
  find_operator-collect_gets (aggregate groups children) operators i =
      find_operator-collect_gets_of children operators i
  find_operator-collect_gets (other_op children) operators i =
      find_operator-collect_gets_of children operators i

  find_operator-collect_gets_of :
      (ops : Ops) (operators : List (ℕ × Source)) (i : ℕ)
      → find_operator (collect_gets_of ops operators) i
        ≡ first_of (operator_below ops i) (find_operator operators i)
  find_operator-collect_gets_of no_op operators i = refl
  find_operator-collect_gets_of (and_op op ops) operators i =
      find_operator-collect_gets_of ops (collect_gets op operators) i
      ∙ ap (first_of (operator_below ops i)) (find_operator-collect_gets op operators i)
      ∙ first_of_assoc (operator_below ops i) (operator_of op i) (find_operator operators i)
