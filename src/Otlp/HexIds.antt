-- ===== src/Otlp/HexIds.antt =====
-- What becomes of a trace or span id: base64 of the expected width is rewritten to lowercase hex, and
-- an id that is hex already stays.
use rawduck.Prelude.{
  ℕ, ◌+◌, ◌*◌, ◌/◌, ◌<◌, ◌≡◌, ◌⊎◌, refl, Str, length, ◌==◌, true, false, List, [], ◌∷◌, All, arith,
  ==_iff,
}
use rawduck.Otlp.Ids.{to_hex, normalize_id, otlp_is_hex, otlp_id_width}
use rawduck.Otlp.Base64.{base64_encode, base64_decode-base64_encode}

length-base64_encode : (bytes : List ℕ) → length (base64_encode bytes) ≡ (length bytes + 2) / 3 * 4
unfolding base64_encode
length-base64_encode [] = omega arith
length-base64_encode (x ∷ []) = omega arith
length-base64_encode (x ∷ y ∷ []) = omega arith
length-base64_encode (x ∷ y ∷ z ∷ rest) = omega (arith, length-base64_encode rest)

length-to_hex : (bytes : List ℕ) → length (to_hex bytes) ≡ length bytes * 2
unfolding to_hex
length-to_hex [] = omega arith
length-to_hex (b ∷ bytes) = omega (arith, length-to_hex bytes)

otlp_is_hex-to_hex : (bytes : List ℕ) → otlp_is_hex (to_hex bytes) ≡ true
unfolding to_hex otlp_is_hex
otlp_is_hex-to_hex [] = refl
otlp_is_hex-to_hex (b ∷ bytes) = ground (arith, otlp_is_hex-to_hex bytes)

id_width_cases :
    (key : Str)
    → (otlp_id_width key == 0) ≡ false
    → (otlp_id_width key ≡ 16) ⊎ (otlp_id_width key ≡ 8)
unfolding otlp_id_width
id_width_cases key h = ground arith

base64_not_hex_length :
    (key : Str) (bytes : List ℕ)
    → (otlp_id_width key == 0) ≡ false
    → length bytes ≡ otlp_id_width key
    → (length (base64_encode bytes) == otlp_id_width key * 2) ≡ false
base64_not_hex_length key bytes h e =
    ground (arith, id_width_cases key h, length-base64_encode bytes)

normalize_base64 :
    (w b : ℕ) (bytes : List ℕ)
    → All (λ n. n < 256) (b ∷ bytes)
    → length (b ∷ bytes) ≡ w
    → (length (base64_encode (b ∷ bytes)) == w * 2) ≡ false
    → normalize_id w (base64_encode (b ∷ bytes)) ≡ to_hex (b ∷ bytes)
unfolding normalize_id
normalize_base64 w b bytes h e wide =
    rw (wide, base64_decode-base64_encode b bytes h, (==_iff (length (b ∷ bytes)) w).1 e) refl

normalize_hex :
    (w : ℕ) (bytes : List ℕ) → length bytes ≡ w → normalize_id w (to_hex bytes) ≡ to_hex bytes
unfolding normalize_id
normalize_hex w bytes e =
    rw
      (
        (==_iff (length (to_hex bytes)) (w * 2)).1 (omega (arith, length-to_hex bytes)),
        otlp_is_hex-to_hex bytes,
      )
      refl

-- Under a traceId, spanId or parentSpanId key, base64 text of bytes of exactly the expected width
-- becomes those bytes in lowercase hex, and that hex text is left as it is when met again.
pub normalize_id-hex :
    (key : Str) (b : ℕ) (bytes : List ℕ)
    → (otlp_id_width key == 0) ≡ false
    → All (λ n. n < 256) (b ∷ bytes)
    → length (b ∷ bytes) ≡ otlp_id_width key
    → (normalize_id (otlp_id_width key) (base64_encode (b ∷ bytes)) ≡ to_hex (b ∷ bytes))
      × (normalize_id (otlp_id_width key) (to_hex (b ∷ bytes)) ≡ to_hex (b ∷ bytes))
normalize_id-hex key b bytes k h e = (
  normalize_base64 (otlp_id_width key) b bytes h e (base64_not_hex_length key (b ∷ bytes) k e),
  normalize_hex (otlp_id_width key) (b ∷ bytes) e,
)
