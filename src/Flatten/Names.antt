-- ===== src/Flatten/Names.antt =====
-- The disambiguation loop of `FlattenSchema` ends, and its names are pairwise distinct.
use rawduck.Prelude.{
  ℕ, zero, suc, ◌≤◌, ◌<◌, ◌≡◌, ◌≢◌, subst, refl, sym, ap, ◌∙◌, inl, inr, Str, str_eq, str_eq_iff,
  lower, codes, Bool, true, false, not, ◌||◌, List, [], ◌∷◌, ◌++◌, arith, if◌then◌else◌, Bool-cases,
  length, All, ltb,
}
use rawduck.Node.{Node, class_eq, node_class, object, unset, children, max_columns}
use rawduck.SqlType.{LogicalType}
use rawduck.Flatten.{
  flatten_into, RawColumn, FlattenResult, columns, too_many_columns, seen_count, suffixed,
  first_unseen, unique_name, disambiguate, flatten_schema,
}
use rawduck.Flatten.Decimal.{to_string, to_string-injective, lower-append}

append_cancel : (s t u : Str) → s ++ t ≡ s ++ u → t ≡ u
append_cancel [] t u h = h
append_cancel (c ∷ s) t u h = append_cancel s t u (ground arith)

tail_eq : (a b : ℕ) (s t : Str) → a ∷ s ≡ b ∷ t → s ≡ t
tail_eq a b s t h = ground arith

-- Two candidate names with different suffixes differ, in lower case too.
suffixed-injective :
    (base : Str) (j k : ℕ) → lower (suffixed base j) ≡ lower (suffixed base k) → j ≡ k
suffixed-injective base j k h =
    to_string-injective j k
      (tail_eq _ _ _ _ (append_cancel (lower base) _ _ (sym (parts j) ∙ h ∙ parts k)))
  where
    parts : (n : ℕ) → lower (suffixed base n) ≡ lower base ++ lower (codes "_" ++ to_string n)
    parts n = lower-append base (codes "_" ++ to_string n)

-- `seen` without the names that equal `name` in lower case
without : List Str → Str → List Str
without [] name = []
without (s ∷ seen) name =
    let rest = without seen name in if str_eq s (lower name) then rest else s ∷ rest

length-without-le : (seen : List Str) (name : Str) → length (without seen name) ≤ length seen
unfolding without
length-without-le [] name = omega arith
length-without-le (s ∷ seen) name = ground (arith, length-without-le seen name)

length-without-lt :
    (seen : List Str) (name : Str)
    → seen_count seen name ≡ true
    → length (without seen name) < length seen
unfolding without
length-without-lt [] name h = cc
length-without-lt (s ∷ seen) name h =
    ground (arith, length-without-lt seen name, length-without-le seen name)

seen_count-without :
    (seen : List Str) (name other : Str)
    → str_eq (lower name) (lower other) ≡ false
    → seen_count (without seen name) other ≡ seen_count seen other
unfolding without
seen_count-without [] name other h = refl
seen_count-without (s ∷ seen) name other h = ground (
  arith,
  seen_count-without seen name other,
  str_eq_iff s (lower name),
  str_eq_iff s (lower other),
  str_eq_iff (lower name) (lower other),
)

suffixed_ne :
    (base : Str) (j k : ℕ)
    → j < k
    → str_eq (lower (suffixed base j)) (lower (suffixed base k)) ≡ false
suffixed_ne base j k h = ground (
  arith,
  str_eq_iff (lower (suffixed base j)) (lower (suffixed base k)),
  suffixed-injective base j k,
)

-- The candidates that are still to come
abbrev Agree : Str → ℕ → List Str → List Str → Type 0
Agree base from seen seen' =
    (k : ℕ) → from ≤ k → seen_count seen (suffixed base k) ≡ seen_count seen' (suffixed base k)

-- The loop looks at its set only through the candidates to come.
first_unseen_cong :
    (fuel : ℕ) (seen seen' : List Str) (base name : Str) (k : ℕ)
    → seen_count seen name ≡ seen_count seen' name
    → Agree base k seen seen'
    → first_unseen fuel seen base name k ≡ first_unseen fuel seen' base name k
unfolding first_unseen
first_unseen_cong zero seen seen' base name k h a = refl
first_unseen_cong (suc fuel) seen seen' base name k h a = ground (
  arith,
  first_unseen_cong fuel seen seen' base (suffixed base k) (suc k) (a k (omega arith))
      (λ j le. a j (omega arith)),
)

first_unseen_candidate :
    (fuel : ℕ) (seen : List Str) (base : Str) (k : ℕ)
    → (j : ℕ) × (k ≤ j) × (first_unseen fuel seen base (suffixed base k) (suc k) ≡ suffixed base j)
unfolding first_unseen
first_unseen_candidate zero seen base k = (k, omega arith, refl)
first_unseen_candidate (suc fuel) seen base k =
    elim (Bool-cases (seen_count seen (suffixed base k))) [
      | inl e ↦
          let (j, le, same) = first_unseen_candidate fuel seen base (suc k) in
          (j, omega arith, rw e same)
      | inr e ↦ (k, omega arith, rw e)
    ]

-- From the first candidate on, more fuel than there are names to avoid finds a name that is not
-- among them.
first_unseen_fresh :
    (fuel : ℕ) (seen : List Str) (base : Str) (k : ℕ)
    → length seen < fuel
    → seen_count seen (first_unseen fuel seen base (suffixed base k) (suc k)) ≡ false
unfolding first_unseen
first_unseen_fresh zero seen base k h = absurd (omega arith)
first_unseen_fresh (suc fuel) seen base k h =
    elim (Bool-cases (seen_count seen (suffixed base k))) [
      | inl e ↦
          let fewer = without seen (suffixed base k) in
          let agree : Agree base (suc k) seen fewer = λ j le. sym (
            seen_count-without seen (suffixed base k) (suffixed base j)
              (suffixed_ne base k j le)) in
          let (j, le, same) = first_unseen_candidate fuel fewer base (suc k) in
          rw e (
            rw
              (first_unseen_cong fuel seen fewer base (suffixed base (suc k)) (suc (suc k))
                (agree (suc k) (omega arith)) (λ i le'. agree i (omega arith)))
              (ap (seen_count seen) same
                ∙ agree j le
                ∙ sym (ap (seen_count fewer) same)
                ∙ first_unseen_fresh fuel fewer base (suc k)
                    (omega (arith, length-without-lt seen (suffixed base k) e))))
      | inr e ↦ rw e e
    ]

-- The disambiguation loop ends: whatever names have been taken, two rounds more than there are
-- taken names find a name that is not among them in any case of its letters.
pub unique_name_fresh :
    (seen : List Str) (name : Str) → seen_count seen (unique_name seen name) ≡ false
unfolding first_unseen
unique_name_fresh seen name = elim (Bool-cases (seen_count seen name)) [
  | inl e ↦ rw e (first_unseen_fresh (suc (length seen)) seen name 1 (omega arith))
  | inr e ↦ rw e e
]

disambiguate_avoids :
    (seen : List Str) (cs : List RawColumn)
    → All (λ d. seen_count seen d.name ≡ false) (disambiguate seen cs)
unfolding disambiguate
disambiguate_avoids seen [] = tt
disambiguate_avoids seen (c ∷ cs) = (
  unique_name_fresh seen c.name,
  weaken seen (lower (unique_name seen c.name))
      (disambiguate (lower (unique_name seen c.name) ∷ seen) cs)
      (disambiguate_avoids (lower (unique_name seen c.name) ∷ seen) cs),
)
  where
    weaken :
        (seen : List Str) (s : Str) (ds : List RawColumn)
        → All (λ d. seen_count (s ∷ seen) d.name ≡ false) ds
        → All (λ d. seen_count seen d.name ≡ false) ds
    weaken seen s [] h = tt
    weaken seen s (d ∷ ds) h = (ground arith, weaken seen s ds h.1)

abbrev WhenColumns : (List RawColumn → Type 0) → FlattenResult → Type 0
WhenColumns P (columns cs) = P cs
WhenColumns P (too_many_columns n) = Unit

-- What holds of no column, of one column, and of any disambiguated columns within the limit, holds
-- of the columns that flattening returns.
pub flatten_schema_cases :
    (P : List RawColumn → Type 0) (root : Node) (scalar_rows : Bool)
    → P []
    → ((t : LogicalType) → P (record { name = codes "value"; path = []; type = t } ∷ []))
    → ((cs : List RawColumn)
        → cs ≡ flatten_into (children root) [] [] 0
        → length cs ≤ max_columns
        → P (disambiguate [] cs))
    → (cs : List RawColumn) → flatten_schema root scalar_rows ≡ columns cs
    → P cs
unfolding flatten_schema
flatten_schema_cases P root scalar_rows nothing one many cs h = subst (WhenColumns P) h result
  where
    flat : List RawColumn
    flat = flatten_into (children root) [] [] 0

    result : WhenColumns P (flatten_schema root scalar_rows)
    result = elim (Bool-cases (scalar_rows || not (class_eq (node_class root) object))) [
      | inl e ↦
          rw (e, flatten_schema)
            (elim (Bool-cases (class_eq (node_class root) unset)) [
              | inl u ↦ rw u nothing
              | inr u ↦ rw u (one _)
            ])
      | inr e ↦
          rw (e, flatten_schema)
            (elim (Bool-cases (ltb max_columns (length flat))) [
              | inl w ↦ rw w tt
              | inr w ↦ rw w (many flat refl (ground arith))
            ])
    ]

-- No two columns have the same name, in any case of its letters.
abbrev pub HasDistinctNames : List RawColumn → Type 0
HasDistinctNames [] = Unit
HasDistinctNames (c ∷ cs) = All (λ d. lower c.name ≢ lower d.name) cs × HasDistinctNames cs

differ :
    (s : Str) (seen : List Str) (ds : List RawColumn)
    → All (λ d. seen_count (s ∷ seen) d.name ≡ false) ds
    → All (λ d. s ≢ lower d.name) ds
differ s seen [] h = tt
differ s seen (d ∷ ds) h = (λ e. ground (arith, str_eq_iff s (lower d.name)), differ s seen ds h.1)

pub disambiguate-HasDistinctNames :
    (seen : List Str) (cs : List RawColumn) → HasDistinctNames (disambiguate seen cs)
unfolding disambiguate
disambiguate-HasDistinctNames seen [] = tt
disambiguate-HasDistinctNames seen (c ∷ cs) =
    let s = lower (unique_name seen c.name) in
    (
      differ s seen (disambiguate (s ∷ seen) cs) (disambiguate_avoids (s ∷ seen) cs),
      disambiguate-HasDistinctNames (s ∷ seen) cs,
    )

-- The columns of every flattened schema have names that are distinct without regard to case, also
-- where a dotted key collides with a nested one or two keys differ in case only.
pub flatten_schema_names :
    (root : Node) (scalar_rows : Bool) (cs : List RawColumn)
    → flatten_schema root scalar_rows ≡ columns cs
    → HasDistinctNames cs
flatten_schema_names root scalar_rows cs h =
    flatten_schema_cases HasDistinctNames root scalar_rows tt (λ t. (tt, tt))
      (λ ds _ _. disambiguate-HasDistinctNames [] ds) cs h
