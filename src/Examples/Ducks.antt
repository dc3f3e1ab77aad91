-- ===== src/Examples/Ducks.antt =====
-- A DuckDB whose casts are concrete functions: a ten byte text that starts with `2` is a date, and
-- so a timestamp too, and `1` is the only text that is an integer.
use rawduck.Prelude.{
  pos, negsuc, ℕ, List, Str, Bool, false, ◌&&◌, ◌||◌, none, some, [], ◌∷◌, codes, str_eq, length,
  ◌==◌, if◌then◌else◌,
}
use rawduck.Json.{uint}
use rawduck.Duck.{Duck}

abbrev starts_with_two : Str → Bool
starts_with_two [] = false
starts_with_two (c ∷ s) = c == b'2'

abbrev prepend_first : ℕ → List Str → List Str
prepend_first c [] = (c ∷ []) ∷ []
prepend_first c (s ∷ parts) = (c ∷ s) ∷ parts

abbrev split_at : Str → ℕ → List Str
split_at [] d = [] ∷ []
split_at (c ∷ s) d = let rest = split_at s d in if c == d then [] ∷ rest else prepend_first c rest

abbrev pub example_duck : Duck
example_duck = record {
  convert_date = λ s.
      if starts_with_two s && length s == 10
      then some (record { days = pos 19737; pos = 10; special = false })
      else none;
  convert_timestamp =
      λ s. if starts_with_two s && length s == 10 then some (pos 1705276800) else none;
  cast_int64 = λ s. if str_eq s (codes "1") then some (pos 1) else none;
  to_double = λ z. elim z [ pos n ↦ n | negsuc n ↦ n ];
  read = λ s. if str_eq s (codes "1") then some (uint 1) else none;
  write = λ v. codes "json";
  is_space = λ c. c == b' ' || (c == b'\t' || (c == b'\r' || c == b'\n'));
  split = split_at;
}
