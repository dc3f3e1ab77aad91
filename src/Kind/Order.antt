-- ===== src/Kind/Order.antt =====
-- The widening lattice that raw_json.hpp documents, and that the join is its least upper bound.
use rawduck.Prelude.{◌≡◌, Bool, true, false, ◌&&◌, arith}
use rawduck.Kind.{
  ScalarKind, unset, boolean, bigint, double, date, timestamp, varchar, join_scalar_kinds,
}

-- UNSET < BOOLEAN | BIGINT < DOUBLE | DATE < TIMESTAMP, and VARCHAR above all.
abbrev pub kind_le : ScalarKind → ScalarKind → Bool
kind_le unset _ = true
kind_le _ varchar = true
kind_le bigint double = true
kind_le date timestamp = true
kind_le boolean boolean = true
kind_le bigint bigint = true
kind_le double double = true
kind_le date date = true
kind_le timestamp timestamp = true
kind_le _ _ = false

pub kind_le_refl : (a : ScalarKind) → kind_le a a ≡ true
kind_le_refl a = ground arith

pub kind_le_trans :
    (a b c : ScalarKind) → kind_le a b ≡ true → kind_le b c ≡ true → kind_le a c ≡ true
kind_le_trans a b c p q = ground arith

pub kind_le_antisymm : (a b : ScalarKind) → kind_le a b ≡ true → kind_le b a ≡ true → a ≡ b
kind_le_antisymm a b p q = ground arith

-- A kind lies above the join of two kinds exactly when it lies above both: the join is the least
-- upper bound in the documented lattice.
pub join-least :
    (a b c : ScalarKind) → kind_le (join_scalar_kinds a b) c ≡ (kind_le a c && kind_le b c)
unfolding join_scalar_kinds
join-least a b c = ground arith

pub kind_le-join_left : (a b : ScalarKind) → kind_le a (join_scalar_kinds a b) ≡ true
unfolding join_scalar_kinds
kind_le-join_left a b = ground arith

pub kind_le-join_right : (a b : ScalarKind) → kind_le b (join_scalar_kinds a b) ≡ true
unfolding join_scalar_kinds
kind_le-join_right a b = ground arith
