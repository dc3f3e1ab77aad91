-- ===== src/Payload/Uniform.antt =====
-- What CheckRowUniformity accepts, and what a processed payload then holds.
use rawduck.Prelude.{
  ◌≤◌, ◌≡◌, inl, inr, refl, Bool, true, false, not, ◌&&◌, ◌==◌, List, [], ◌∷◌, length, err, ok,
  if◌then◌else◌, arith, Bool-cases,
}
use rawduck.Json.{Value, is_obj}
use rawduck.Flatten.{is_empty}
use rawduck.Payload.{count_objects, check_row_uniformity, mixed_rows}

abbrev pub all_objects : List Value → Bool
all_objects [] = true
all_objects (row ∷ rows) = is_obj row && all_objects rows

abbrev pub no_objects : List Value → Bool
no_objects [] = true
no_objects (row ∷ rows) = not (is_obj row) && no_objects rows

count_objects_bound : (rows : List Value) → count_objects rows ≤ length rows
count_objects_bound [] = omega arith
count_objects_bound (row ∷ rows) = elim (Bool-cases (is_obj row)) [
  | inl e ↦ rw e (omega (arith, count_objects_bound rows))
  | inr e ↦ rw e (omega (arith, count_objects_bound rows))
]

all_objects_count : (rows : List Value) → (count_objects rows == length rows) ≡ all_objects rows
all_objects_count [] = refl
all_objects_count (row ∷ rows) = elim (Bool-cases (is_obj row)) [
  | inl e ↦ rw e (ground (arith, all_objects_count rows))
  | inr e ↦ rw e (ground (arith, count_objects_bound rows))
]

no_objects_count : (rows : List Value) → (count_objects rows == 0) ≡ no_objects rows
no_objects_count [] = refl
no_objects_count (row ∷ rows) = elim (Bool-cases (is_obj row)) [
  | inl e ↦ rw e (ground arith)
  | inr e ↦ rw e (no_objects_count rows)
]

-- CheckRowUniformity accepts the rows when all of them are objects or none is, and then marks them
-- as scalar rows exactly when there are some and none is an object; any other batch is refused.
pub check_row_uniformity-uniform :
    (rows : List Value)
    → check_row_uniformity rows ≡ (
        if no_objects rows
        then ok (not (is_empty rows))
        else if all_objects rows
        then ok false
        else err mixed_rows)
unfolding check_row_uniformity
check_row_uniformity-uniform rows =
    rw (no_objects_count rows, all_objects_count rows)
      (ground (arith, no_objects_count rows, all_objects_count rows))
