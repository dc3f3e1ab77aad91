-- ===== src/Json.antt =====
-- JSON values as yyjson hands them out (src/raw_json.cpp uses `yyjson_get_type` and the subtype
-- tests). `uint` and `sint` are yyjson's two integer subtypes; a `real` is kept as its 64-bit
-- pattern, which the code copies and never computes with.
use rawduck.Prelude.{ℕ, ℤ, Str, Bool, true, false, List, [], ◌∷◌}

mutual
  pub data Value : Type 0 where
    null : Value
    bool : Bool → Value
    uint : ℕ → Value
    sint : ℤ → Value
    real : ℕ → Value
    str : Str → Value
    arr : Items → Value
    obj : Fields → Value

  pub data Items : Type 0 where
    nil : Items
    cons : Value → Items → Items

  pub data Fields : Type 0 where
    end : Fields
    field : Str → Value → Fields → Fields

-- The elements of an array, in the order of `yyjson_arr_iter_next`.
abbrev pub items : Items → List Value
items nil = []
items (cons v vs) = v ∷ items vs

abbrev pub is_null : Value → Bool
is_null null = true
is_null _ = false

abbrev pub is_obj : Value → Bool
is_obj (obj fs) = true
is_obj _ = false

abbrev pub is_arr : Value → Bool
is_arr (arr vs) = true
is_arr _ = false

abbrev pub is_str : Value → Bool
is_str (str s) = true
is_str _ = false

abbrev pub is_num : Value → Bool
is_num (uint n) = true
is_num (sint z) = true
is_num (real r) = true
is_num _ = false
