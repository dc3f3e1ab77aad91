-- ===== src/Kind.antt =====
-- The scalar kinds of raw_json.hpp and their widening.
pub mod Order
use rawduck.Prelude.{ℕ, Bool, true, false, ◌&&◌, if◌then◌else◌}

pub data ScalarKind : Type 0 where
  unset boolean bigint double date timestamp varchar : ScalarKind

abbrev pub kind_eq : ScalarKind → ScalarKind → Bool
kind_eq unset unset = true
kind_eq boolean boolean = true
kind_eq bigint bigint = true
kind_eq double double = true
kind_eq date date = true
kind_eq timestamp timestamp = true
kind_eq varchar varchar = true
kind_eq _ _ = false

abbrev pub is_numeric : ScalarKind → Bool
is_numeric bigint = true
is_numeric double = true
is_numeric _ = false

abbrev pub is_temporal : ScalarKind → Bool
is_temporal date = true
is_temporal timestamp = true
is_temporal _ = false

abbrev is_unset : ScalarKind → Bool
is_unset unset = true
is_unset _ = false

unfoldable pub join_scalar_kinds : ScalarKind → ScalarKind → ScalarKind
join_scalar_kinds a b =
    if is_unset a
    then b
    else if is_unset b
    then a
    else if kind_eq a b
    then a
    else if is_numeric a && is_numeric b
    then double
    else if is_temporal a && is_temporal b
    then timestamp
    else varchar
