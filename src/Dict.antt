-- ===== src/Dict.antt =====
-- std::map from strings: an association list in the order of its keys. A search ends at the first
-- key that is not smaller.
pub mod Laws
use rawduck.Prelude.{
  ltb, ◌==◌, Bool, true, false, ◌&&◌, ◌||◌, ◌≡◌, Str, str_eq, Option, none, some, List, [], ◌∷◌,
  All, if◌then◌else◌,
}

-- std::string's operator<
unfoldable pub str_less : Str → Str → Bool
str_less [] [] = false
str_less [] (b ∷ t) = true
str_less (a ∷ s) [] = false
str_less (a ∷ s) (b ∷ t) = ltb a b || (a == b && str_less s t)

abbrev pub Dict {ℓ} : Type ℓ → Type ℓ
Dict V = List (Str × V)

-- find
unfoldable pub find {ℓ} : {V : Type ℓ} → Str → Dict V → Option V
find k [] = none
find k (e ∷ m) =
    let rest = find k m in if str_eq k e.0 then some e.1 else if str_less k e.0 then none else rest

abbrev pub value_or {ℓ} : {V : Type ℓ} → V → Option V → V
value_or v none = v
value_or v (some w) = w

-- What an assignment through operator[] does: a missing key gets the value `v` first.
unfoldable pub update {ℓ} : {V : Type ℓ} → V → (V → V) → Str → Dict V → Dict V
update v f k [] = (k, f v) ∷ []
update v f k (e ∷ m) =
    let rest = update v f k m in
    if str_eq k e.0 then (e.0, f e.1) ∷ m else if str_less k e.0 then (k, f v) ∷ e ∷ m else e ∷ rest

-- The keys stand in their order, each once.
abbrev pub IsOrdered {ℓ} : {V : Type ℓ} → Dict V → Type ℓ
IsOrdered [] = Unit
IsOrdered (e ∷ m) = All (λ e'. str_less e.0 e'.0 ≡ true) m × IsOrdered m
