-- ===== src/Node/Sniff.antt =====
-- `SniffString` and `SniffScalarKind` of src/raw_json.cpp.
use rawduck.Prelude.{
  ℕ, ◌-◌, ◌^◌, Str, Bool, false, ◌&&◌, ◌||◌, not, Option, none, some, [], ◌∷◌, ltb, leb, ◌==◌,
  if◌then◌else◌, length,
}
use rawduck.Json.{Value, bool, uint, sint, real, str}
use rawduck.Duck.{Duck, DateResult}
use rawduck.Kind.{ScalarKind, boolean, bigint, double, date, timestamp, varchar}

abbrev pub int64_max : ℕ
int64_max = 2 ^ 63 - 1

-- StringUtil::CharacterIsDigit of the first byte
abbrev pub starts_with_digit : Str → Bool
starts_with_digit [] = false
starts_with_digit (c ∷ s) = leb b'0' c && leb c b'9'

-- A date that consumes the whole text and is not one of the special values.
abbrev pub is_whole_date : ℕ → Option DateResult → Bool
is_whole_date len none = false
is_whole_date len (some d) = d.pos == len && not d.special

module _ (duck : Duck) where
  unfoldable pub sniff_string : Str → ScalarKind
  sniff_string s =
      if ltb (length s) 8 || ltb 40 (length s) || not (starts_with_digit s)
      then varchar
      else if is_whole_date (length s) (duck.convert_date s)
      then date
      else elim (duck.convert_timestamp s) [ none ↦ varchar | some t ↦ timestamp ]

  unfoldable pub sniff_scalar_kind : Value → ScalarKind
  unfolding sniff_string
  sniff_scalar_kind (bool b) = boolean
  sniff_scalar_kind (real r) = double
  sniff_scalar_kind (uint n) = if ltb int64_max n then double else bigint
  sniff_scalar_kind (sint z) = bigint
  sniff_scalar_kind (str s) = sniff_string s
  sniff_scalar_kind _ = varchar
