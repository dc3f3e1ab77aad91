-- ===== src/Otlp/Base64.antt =====
-- Base64 ids become hex: the decoder against an encoder written from RFC 4648, and what happens to an
-- id of the right width.
use rawduck.Prelude.{
  ℕ, ◌+◌, ◌-◌, ◌*◌, ◌/◌, ◌%◌, ◌<◌, ◌≡◌, refl, sym, ◌∙◌, ap, Str, ltb, ◌==◌, if◌then◌else◌, false,
  some, List, [], ◌∷◌, ◌++◌, All, arith,
}
use rawduck.Otlp.Ids.{sextet, padding, value_at, group_bytes, decode_group, base64_decode}

-- The 64 characters of RFC 4648, section 4.
abbrev digit : ℕ → ℕ
digit n =
    if ltb n 26
    then n + b'A'
    else if ltb n 52
    then n - 26 + b'a'
    else if ltb n 62
    then n - 52 + b'0'
    else if n == 62
    then b'+'
    else b'/'

unfoldable pub base64_encode : List ℕ → Str
base64_encode [] = []
base64_encode (x ∷ []) = digit (x / 4) ∷ digit (x % 4 * 16) ∷ b'=' ∷ b'=' ∷ []
base64_encode (x ∷ y ∷ []) =
    digit (x / 4) ∷ digit (x % 4 * 16 + y / 16) ∷ digit (y % 16 * 4) ∷ b'=' ∷ []
base64_encode (x ∷ y ∷ z ∷ rest) =
    digit (x / 4)
    ∷ digit (x % 4 * 16 + y / 16)
    ∷ digit (y % 16 * 4 + z / 64)
    ∷ digit (z % 64)
    ∷ base64_encode rest

value_at-digit : (pad j n : ℕ) → n < 64 → value_at pad j (digit n) ≡ some n
unfolding value_at sextet
value_at-digit pad j n h = ground arith

padding-digit : (c n : ℕ) → n < 64 → padding c (digit n) ≡ 0
padding-digit c n h = ground arith

digit_unpadded : (n : ℕ) → n < 64 → (digit n == b'=') ≡ false
digit_unpadded n h = ground arith

decode_group-four :
    (v w x y : ℕ)
    → v < 64
    → w < 64
    → x < 64
    → y < 64
    → decode_group 0 (digit v) (digit w) (digit x) (digit y) ≡ some (group_bytes 0 v w x y)
unfolding decode_group
decode_group-four v w x y hv hw hx hy =
    rw
      (
        value_at-digit 0 0 v hv,
        value_at-digit 0 1 w hw,
        value_at-digit 0 2 x hx,
        value_at-digit 0 3 y hy,
      )
      refl

decode_group-three :
    (v w x : ℕ)
    → v < 64
    → w < 64
    → x < 64
    → decode_group 1 (digit v) (digit w) (digit x) b'=' ≡ some (group_bytes 1 v w x 0)
unfolding decode_group value_at
decode_group-three v w x hv hw hx =
    rw (value_at-digit 1 0 v hv, value_at-digit 1 1 w hw, value_at-digit 1 2 x hx) refl

decode_group-two :
    (v w : ℕ)
    → v < 64
    → w < 64
    → decode_group 2 (digit v) (digit w) b'=' b'=' ≡ some (group_bytes 2 v w 0 0)
unfolding decode_group value_at
decode_group-two v w hv hw = rw (value_at-digit 2 0 v hv, value_at-digit 2 1 w hw) refl

three_bytes :
    (x y z : ℕ)
    → x < 256
    → y < 256
    → z < 256
    → group_bytes 0 (x / 4) (x % 4 * 16 + y / 16) (y % 16 * 4 + z / 64) (z % 64) ≡ x ∷ y ∷ z ∷ []
three_bytes x y z hx hy hz = ground arith

two_bytes :
    (x y : ℕ)
    → x < 256
    → y < 256
    → group_bytes 1 (x / 4) (x % 4 * 16 + y / 16) (y % 16 * 4) 0 ≡ x ∷ y ∷ []
two_bytes x y hx hy = ground arith

one_byte : (x : ℕ) → x < 256 → group_bytes 2 (x / 4) (x % 4 * 16) 0 0 ≡ x ∷ []
one_byte x hx = ground arith

encode-cons : (r : ℕ) (rest : List ℕ) → (e : ℕ) × (s : Str) × (base64_encode (r ∷ rest) ≡ e ∷ s)
unfolding base64_encode
encode-cons r [] = (_, _, refl)
encode-cons r (s ∷ []) = (_, _, refl)
encode-cons r (s ∷ t ∷ rest) = (_, _, refl)

base64_decode-more :
    (a b c d e : ℕ) (s : Str) (bytes more : List ℕ)
    → decode_group 0 a b c d ≡ some bytes
    → base64_decode (e ∷ s) ≡ some more
    → base64_decode (a ∷ b ∷ c ∷ d ∷ e ∷ s) ≡ some (bytes ++ more)
unfolding base64_decode
base64_decode-more a b c d e s bytes more h k = rw (h, k) refl

-- Decoding a group of three bytes that more bytes follow.
decode_three :
    (x y z r : ℕ) (rest : List ℕ)
    → x < 256
    → y < 256
    → z < 256
    → base64_decode (base64_encode (r ∷ rest)) ≡ some (r ∷ rest)
    → base64_decode (base64_encode (x ∷ y ∷ z ∷ r ∷ rest)) ≡ some (x ∷ y ∷ z ∷ r ∷ rest)
unfolding base64_encode
decode_three x y z r rest hx hy hz ih =
    let cons_form = encode-cons r rest in
    rw cons_form.2 (
      base64_decode-more (digit (x / 4)) (digit (x % 4 * 16 + y / 16)) (digit (y % 16 * 4 + z / 64))
        (digit (z % 64)) cons_form.0 cons_form.1 (x ∷ y ∷ z ∷ []) (r ∷ rest)
        (decode_group-four (x / 4) (x % 4 * 16 + y / 16) (y % 16 * 4 + z / 64) (z % 64)
            (omega arith) (omega arith) (omega arith) (omega arith)
          ∙ ap some (three_bytes x y z hx hy hz))
        (rw (sym cons_form.2) ih))

-- OtlpBase64Decode gives back every non-empty byte string from its padded base64 text.
pub base64_decode-base64_encode :
    (b : ℕ) (bytes : List ℕ)
    → All (λ n. n < 256) (b ∷ bytes)
    → base64_decode (base64_encode (b ∷ bytes)) ≡ some (b ∷ bytes)
unfolding base64_encode base64_decode
base64_decode-base64_encode x [] h =
    decode_group-two (x / 4) (x % 4 * 16) (omega arith) (omega arith) ∙ ap some (one_byte x h.0)
base64_decode-base64_encode x (y ∷ []) h = rw (digit_unpadded (y % 16 * 4) (omega arith)) (
    decode_group-three (x / 4) (x % 4 * 16 + y / 16) (y % 16 * 4) (omega arith) (omega arith)
      (omega arith)
    ∙ ap some (two_bytes x y h.0 h.1.0))
base64_decode-base64_encode x (y ∷ z ∷ []) h =
    rw (padding-digit (digit (y % 16 * 4 + z / 64)) (z % 64) (omega arith)) (
      decode_group-four (x / 4) (x % 4 * 16 + y / 16) (y % 16 * 4 + z / 64) (z % 64) (omega arith)
        (omega arith) (omega arith) (omega arith)
      ∙ ap some (three_bytes x y z h.0 h.1.0 h.1.1.0))
base64_decode-base64_encode x (y ∷ z ∷ r ∷ rest) h =
    decode_three x y z r rest h.0 h.1.0 h.1.1.0 (base64_decode-base64_encode r rest h.1.1.1)
