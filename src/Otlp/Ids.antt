-- ===== src/Otlp/Ids.antt =====
-- OtlpIsHex, OtlpBase64Decode, OtlpIdWidth and the rewriting of id fields in OtlpNormalizeValue
-- (src/raw_json.cpp). A byte is a number below 256, and `|` of disjoint bits is a sum.
use rawduck.Prelude.{
  ℕ, ◌+◌, ◌-◌, ◌*◌, ◌/◌, ◌%◌, Str, codes, str_eq, length, ltb, leb, ◌==◌, if◌then◌else◌, Bool, true,
  ◌&&◌, ◌||◌, Option, none, some, and_then, List, [], ◌∷◌, ◌++◌,
}

abbrev is_hex_digit : ℕ → Bool
is_hex_digit c =
    (leb b'0' c && leb c b'9') || ((leb b'a' c && leb c b'f') || (leb b'A' c && leb c b'F'))

unfoldable pub otlp_is_hex : Str → Bool
otlp_is_hex [] = true
otlp_is_hex (c ∷ s) = is_hex_digit c && otlp_is_hex s

-- The `decode` of OtlpBase64Decode, where -1 is none.
unfoldable pub sextet : ℕ → Option ℕ
sextet c =
    if leb b'A' c && leb c b'Z'
    then some (c - b'A')
    else if leb b'a' c && leb c b'z'
    then some (c - b'a' + 26)
    else if leb b'0' c && leb c b'9'
    then some (c - b'0' + 52)
    else if c == b'+'
    then some 62
    else if c == b'/'
    then some 63
    else none

-- The padding of a final group that ends in these two characters.
abbrev pub padding : ℕ → ℕ → ℕ
padding c d = if d == b'=' then (if c == b'=' then 2 else 1) else 0

-- values[j], for the j-th character of a group with that padding; none is `return false`.
unfoldable pub value_at : ℕ → ℕ → ℕ → Option ℕ
value_at pad j c = if c == b'=' then (if ltb j (4 - pad) then none else some 0) else sextet c

abbrev pub group_bytes : ℕ → ℕ → ℕ → ℕ → ℕ → List ℕ
group_bytes pad v w x y =
    ((v * 4 + w / 16) % 256)
    ∷ ((if ltb pad 2 then (w * 16 + x / 4) % 256 ∷ [] else [])
        ++ (if ltb pad 1 then (x * 64 + y) % 256 ∷ [] else []))

-- One round of the loop.
unfoldable pub decode_group : ℕ → ℕ → ℕ → ℕ → ℕ → Option (List ℕ)
decode_group pad a b c d = and_then (value_at pad 0 a) (λ v. and_then (value_at pad 1 b) (λ w.
    and_then (value_at pad 2 c)
      (λ x. and_then (value_at pad 3 d) (λ y. some (group_bytes pad v w x y)))))

-- OtlpBase64Decode. Only the last group can be padded, so the others have padding 0.
unfoldable pub base64_decode : Str → Option (List ℕ)
base64_decode (a ∷ b ∷ c ∷ d ∷ []) = decode_group (padding c d) a b c d
base64_decode (a ∷ b ∷ c ∷ d ∷ e ∷ rest) =
    and_then (decode_group 0 a b c d)
      (λ bytes. and_then (base64_decode (e ∷ rest)) (λ more. some (bytes ++ more)))
base64_decode _ = none

-- OtlpIdWidth
unfoldable pub otlp_id_width : Str → ℕ
otlp_id_width key =
    if str_eq key (codes "traceId")
    then 16
    else if str_eq key (codes "spanId") || str_eq key (codes "parentSpanId")
    then 8
    else 0

-- hex_digits[n]
abbrev pub hex_digit : ℕ → ℕ
hex_digit n = if ltb n 10 then n + b'0' else n - 10 + b'a'

unfoldable pub to_hex : List ℕ → Str
to_hex [] = []
to_hex (b ∷ bytes) = hex_digit (b / 16 % 16) ∷ hex_digit (b % 16) ∷ to_hex bytes

-- The id branch of OtlpNormalizeValue.
unfoldable pub normalize_id : ℕ → Str → Str
normalize_id width s =
    if length s == width * 2 && otlp_is_hex s then s else elim (base64_decode s) [
      | none ↦ s
      | some decoded ↦ if length decoded == width then to_hex decoded else s
    ]
