-- ===== src/Shape.antt =====
-- `HashPayloadShape` of src/raw_ingest.cpp: the FNV hash of a payload's columns that the schema
-- cache and the coalescing of file batches compare. What the code takes from elsewhere is a
-- parameter: `char_code` is `NumericCast<uint64_t>` of a `char`, `id_code` the number of a type id.
pub mod Blind
use rawduck.Prelude.{
  ℕ, ◌*◌, ◌%◌, ◌^◌, Str, lower_char, Bool, true, false, ◌||◌, List, [], ◌∷◌, ◌==◌,
}
use Prim.Native.Nat.{bit_xor}
use rawduck.SqlType.{TypeId, type_id}
use rawduck.Flatten.{RawColumn}

abbrev pub fnv_basis : ℕ
fnv_basis = 0xcbf29ce484222325

abbrev pub fnv_prime : ℕ
fnv_prime = 0x100000001b3

-- `shape = (shape ^ x) * 0x100000001b3ULL` on uint64_t
unfoldable pub mix : ℕ → ℕ → ℕ
mix shape x = bit_xor shape x * fnv_prime % 2 ^ 64

module _ (char_code : ℕ → ℕ) (id_code : TypeId → ℕ) where
  unfoldable pub hash_name : ℕ → Str → ℕ
  unfolding mix
  hash_name shape [] = shape
  hash_name shape (c ∷ name) = hash_name (mix shape (char_code (lower_char c))) name

  unfoldable pub hash_columns : ℕ → List RawColumn → ℕ
  unfolding hash_name mix
  hash_columns shape [] = shape
  hash_columns shape (c ∷ cs) =
      hash_columns (mix (hash_name shape c.name) (id_code (type_id c.type))) cs

  unfoldable pub hash_payload_shape : List RawColumn → ℕ
  unfolding hash_columns
  hash_payload_shape cs = hash_columns fnv_basis cs
