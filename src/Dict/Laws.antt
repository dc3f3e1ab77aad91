-- ===== src/Dict/Laws.antt =====
-- What a search gives after an assignment, and that the order of the keys is kept.
use rawduck.Prelude.{
  true, false, ◌≡◌, refl, sym, ap, subst, inl, inr, Str, str_eq, str_eq_iff, none, some, [], ◌∷◌,
  All, All-map, if◌then◌else◌, Bool-cases, arith,
}
use rawduck.Dict.{str_less, Dict, find, value_or, update, IsOrdered}

pub str_less_irrefl : (s : Str) → str_less s s ≡ false
unfolding str_less
str_less_irrefl [] = refl
str_less_irrefl (a ∷ s) = ground (arith, str_less_irrefl s)

pub str_less_trans : (s t u : Str) → str_less s t ≡ true → str_less t u ≡ true → str_less s u ≡ true
unfolding str_less
str_less_trans [] [] u h k = ground (arith, h)
str_less_trans [] (b ∷ t) [] h k = ground (arith, k)
str_less_trans [] (b ∷ t) (c ∷ u) h k = refl
str_less_trans (a ∷ s) [] u h k = ground (arith, h)
str_less_trans (a ∷ s) (b ∷ t) [] h k = ground (arith, k)
str_less_trans (a ∷ s) (b ∷ t) (c ∷ u) h k = ground (arith, str_less_trans s t u)

pub str_less_total : (s t : Str) → str_eq s t ≡ false → str_less s t ≡ false → str_less t s ≡ true
unfolding str_less
str_less_total [] [] h k = ground (arith, h)
str_less_total [] (b ∷ t) h k = ground (arith, k)
str_less_total (a ∷ s) [] h k = refl
str_less_total (a ∷ s) (b ∷ t) h k = ground (arith, str_less_total s t)

pub less_not_eq : (s t : Str) → str_less s t ≡ true → str_eq s t ≡ false
less_not_eq s t h = elim (Bool-cases (str_eq s t)) [
  | inr e ↦ e
  | inl e ↦ cc (subst (λ x. str_less x t ≡ true) ((str_eq_iff s t).0 e) h, str_less_irrefl t)
]

eq_same : (k j i : Str) → str_eq k j ≡ true → str_eq i k ≡ str_eq i j
eq_same k j i h = ap (str_eq i) ((str_eq_iff k j).0 h)

eq_less : (k j i : Str) → str_eq i j ≡ true → str_less j k ≡ true → str_eq i k ≡ false
eq_less k j i h l =
    less_not_eq i k (subst (λ x. str_less x k ≡ true) (sym ((str_eq_iff i j).0 h)) l)

pub find-update {ℓ} :
    {V : Type ℓ} (v : V) (f : V → V) (k i : Str) (m : Dict V)
    → find i (update v f k m) ≡ (if str_eq i k then some (f (value_or v (find k m))) else find i m)
unfolding find update
find-update v f k i [] = ground (arith)
find-update v f k i (e ∷ m) = elim (Bool-cases (str_eq k e.0)) [
  | inl a ↦ rw (a, eq_same k e.0 i a) (ground arith)
  | inr a ↦ elim (Bool-cases (str_less k e.0)) [
    | inl b ↦ rw (a, b) (ground (arith, str_less_trans i k e.0, less_not_eq i e.0, b))
    | inr b ↦
        rw (a, b)
          (let above = str_less_total k e.0 a b in
            let less = str_less_trans i e.0 k in
            ground (arith, find-update v f k i m, eq_less k e.0 i, less, above, less_not_eq i k))
  ]
]

pub find_first_above {ℓ} :
    {V : Type ℓ} (k : Str) (m : Dict V) → All (λ e. str_less k e.0 ≡ true) m → find k m ≡ none
unfolding find
find_first_above k [] h = refl
find_first_above k (e ∷ m) h = rw (less_not_eq k e.0 h.0, h.0) refl

update-All {ℓ κ} :
    {V : Type ℓ} (P : Str → Type κ) (v : V) (f : V → V) (k : Str) (m : Dict V)
    → P k
    → All (λ e. P e.0) m
    → All (λ e. P e.0) (update v f k m)
unfolding update
update-All P v f k [] p h = (p, tt)
update-All P v f k (e ∷ m) p h = elim (Bool-cases (str_eq k e.0)) [
  | inl a ↦ rw a h
  | inr a ↦ elim (Bool-cases (str_less k e.0)) [
    | inl b ↦ rw (a, b) (p, h)
    | inr b ↦ rw (a, b) (h.0, update-All P v f k m p h.1)
  ]
]

-- The order of the keys is kept.
pub update-IsOrdered {ℓ} :
    {V : Type ℓ} (v : V) (f : V → V) (k : Str) (m : Dict V)
    → IsOrdered m
    → IsOrdered (update v f k m)
unfolding update
update-IsOrdered v f k [] h = (tt, tt)
update-IsOrdered v f k (e ∷ m) h = elim (Bool-cases (str_eq k e.0)) [
  | inl a ↦ rw a h
  | inr a ↦ elim (Bool-cases (str_less k e.0)) [
    | inl b ↦
        rw (a, b)
          (
            (
              b,
              All-map (λ e'. str_less e.0 e'.0 ≡ true) (λ e'. str_less k e'.0 ≡ true)
                  (λ e' l. str_less_trans k e.0 e'.0 b l) m h.0,
            ),
            h,
          )
    | inr b ↦
        rw (a, b)
          (
            update-All (λ j. str_less e.0 j ≡ true) v f k m (str_less_total k e.0 a b) h.0,
            update-IsOrdered v f k m h.1,
          )
  ]
]
