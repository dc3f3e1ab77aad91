-- ===== src/Explode/Rows.antt =====
-- How many rows a path makes of a batch.
use rawduck.Prelude.{
  ◌≡◌, refl, Option-cases, inl, inr, Str, List, [], ◌∷◌, ℕ, ◌+◌, length, length-append, arith, none,
  some,
}
use rawduck.Json.{Value, obj, arr, items}
use rawduck.Explode.{Envelope, get_field, concat_map, descend, explode_into, explode_rows}

abbrev pub sum_over : {A : Type 0} → (A → ℕ) → List A → ℕ
sum_over f [] = 0
sum_over f (x ∷ xs) = f x + sum_over f xs

abbrev pub count_below : (Value → ℕ) → Value → ℕ
count_below count (arr vs) = sum_over count (items vs)
count_below count child = count child

-- The number of ways to follow a path through a value: every element of an array on the way counts,
-- and a value that cannot be followed further counts once.
unfoldable pub fan_out : List Str → Value → ℕ
fan_out [] v = 1
fan_out (segment ∷ path) (obj fs) = elim (get_field fs segment) [
  | none ↦ 1
  | some child ↦ count_below (fan_out path) child
]
fan_out (segment ∷ path) v = 1

length-concat_map :
    {A B : Type 0} (f : A → List B) (count : A → ℕ) (same : (a : A) → length (f a) ≡ count a)
    (xs : List A)
    → length (concat_map f xs) ≡ sum_over count xs
length-concat_map f count same [] = refl
length-concat_map f count same (x ∷ xs) =
    omega (arith, length-append (f x) (concat_map f xs), same x, length-concat_map f count same xs)

length-descend :
    (down : Value → List Value) (count : Value → ℕ) (same : (v : Value) → length (down v) ≡ count v)
    (child : Value)
    → length (descend down child) ≡ count_below count child
length-descend down count same (arr vs) = length-concat_map down count same (items vs)
length-descend down count same Value.null = same Value.null
length-descend down count same (Value.bool b) = same (Value.bool b)
length-descend down count same (Value.uint n) = same (Value.uint n)
length-descend down count same (Value.sint n) = same (Value.sint n)
length-descend down count same (Value.real n) = same (Value.real n)
length-descend down count same (Value.str n) = same (Value.str n)
length-descend down count same (obj fs) = same (obj fs)

length-explode_into :
    (path : List Str) (v : Value) (es : List Envelope)
    → length (explode_into path v es) ≡ fan_out path v
unfolding explode_into fan_out
length-explode_into [] v es = refl
length-explode_into (s ∷ path) (obj fs) es = elim (Option-cases (get_field fs s)) [
  | inl e ↦ rw (e, explode_into, fan_out) refl
  | inr (child, e) ↦
      rw (e, explode_into, fan_out)
        (length-descend (λ v. explode_into path v (record { object = fs; descended_key = s } ∷ es))
          (fan_out path)
          (λ v. length-explode_into path v (record { object = fs; descended_key = s } ∷ es)) child)
]
length-explode_into (s ∷ path) Value.null es = refl
length-explode_into (s ∷ path) (Value.bool b) es = refl
length-explode_into (s ∷ path) (Value.uint n) es = refl
length-explode_into (s ∷ path) (Value.sint n) es = refl
length-explode_into (s ∷ path) (Value.real n) es = refl
length-explode_into (s ∷ path) (Value.str n) es = refl
length-explode_into (s ∷ path) (arr vs) es = refl

-- Exploding a batch emits exactly one row for every way to follow the path through one of its rows.
pub length-explode_rows :
    (path : List Str) (rows : List Value)
    → length (explode_rows path rows) ≡ sum_over (fan_out path) rows
unfolding explode_rows
length-explode_rows path rows =
    length-concat_map (λ row. explode_into path row []) (fan_out path)
      (λ row. length-explode_into path row []) rows
