-- ===== src/Append/Chunks.antt =====
-- The chunks of a batch are its rows, and none is longer than a vector.
use rawduck.Prelude.{
  ℕ, zero, suc, ◌≤◌, ◌≡◌, refl, ap, ◌∙◌, List, [], ◌∷◌, ◌++◌, length, take, drop, All, arith,
}
use rawduck.Json.{Value}
use rawduck.Append.{chunks, vector_limit}

abbrev pub concat : List (List Value) → List Value
concat [] = []
concat (xs ∷ xss) = xs ++ concat xss

take-drop : (n : ℕ) (xs : List Value) → take n xs ++ drop n xs ≡ xs
take-drop zero xs = refl
take-drop (suc n) [] = refl
take-drop (suc n) (x ∷ xs) = ap (λ ys. x ∷ ys) (take-drop n xs)

length-take : (n : ℕ) (xs : List Value) → length (take n xs) ≤ n
length-take zero xs = omega arith
length-take (suc n) [] = omega arith
length-take (suc n) (x ∷ xs) = omega (arith, length-take n xs)

length-drop : (n : ℕ) (xs : List Value) → length (drop n xs) ≤ length xs
length-drop zero xs = omega arith
length-drop (suc n) [] = omega arith
length-drop (suc n) (x ∷ xs) = omega (arith, length-drop n xs)

-- With as much fuel as there are rows, the chunks one after the other are exactly the rows in their
-- order, and no chunk is longer than STANDARD_VECTOR_SIZE.
pub chunks-rows :
    (fuel : ℕ) (rows : List Value)
    → length rows ≤ fuel
    → (concat (chunks fuel rows) ≡ rows) × All (λ c. length c ≤ vector_limit) (chunks fuel rows)
unfolding chunks
chunks-rows zero [] h = (refl, tt)
chunks-rows zero (row ∷ rows) h = ground arith
chunks-rows (suc fuel) [] h = (refl, tt)
chunks-rows (suc fuel) (row ∷ rows) h =
    let rest = chunks-rows fuel (drop 2047 rows) (omega (arith, h, length-drop 2047 rows)) in
    (
      ap (λ ys. take 2048 (row ∷ rows) ++ ys) rest.0 ∙ take-drop 2048 (row ∷ rows),
      (length-take 2048 (row ∷ rows), rest.1),
    )
