-- ===== src/Duck.antt =====
-- What the sources take from DuckDB and yyjson without containing it: date, timestamp and integer
-- casts, the conversion of an integer to a double, and the JSON reader and writer.
use rawduck.Prelude.{ℕ, ℤ, Str, Bool, Option, List}
use rawduck.Json.{Value}

-- The out-parameters of `Date::TryConvertDate` on success.
pub record DateResult : Type 0 where
  pub days : ℤ
  pub pos : ℕ
  pub special : Bool

pub record Duck : Type 0 where
  -- Date::TryConvertDate(str, len, pos, result, special, strict = true)
  pub convert_date : Str → Option DateResult
  -- Timestamp::TryConvertTimestamp(str, len, result, true)
  pub convert_timestamp : Str → Option ℤ
  -- TryCast::Operation<string_t, int64_t>
  pub cast_int64 : Str → Option ℤ
  -- the (double) conversion of `yyjson_get_num`
  pub to_double : ℤ → ℕ
  -- yyjson_read_opts with YYJSON_READ_ALLOW_INF_AND_NAN
  pub read : Str → Option Value
  -- yyjson_val_write
  pub write : Value → Str
  -- StringUtil::CharacterIsSpace
  pub is_space : ℕ → Bool
  -- StringUtil::Split(str, delimiter)
  pub split : Str → ℕ → List Str
