-- ===== src/Flatten/Decimal.antt =====
-- `to_string` of an unsigned number: its decimal digits, and that they determine it.
use rawduck.Prelude.{
  ℕ, zero, suc, ◌+◌, ◌-◌, ◌*◌, ◌/◌, ◌%◌, ◌<◌, ◌≡◌, refl, sym, ap, ◌∙◌, inl, inr, Str, lower,
  lower_char, [], ◌∷◌, ◌++◌, arith, ltb, if◌then◌else◌, Bool-cases,
}

digits : ℕ → ℕ → Str
digits zero n = []
digits (suc f) n = if ltb n 10 then (48 + n) ∷ [] else digits f (n / 10) ++ (48 + n % 10) ∷ []

unfoldable pub to_string : ℕ → Str
unfolding digits
to_string n = digits (suc n) n

-- Reading digits back.
value : ℕ → Str → ℕ
value acc [] = acc
value acc (c ∷ s) = value (acc * 10 + (c - 48)) s

value-append : (acc : ℕ) (s t : Str) → value acc (s ++ t) ≡ value (value acc s) t
unfolding value
value-append acc [] t = refl
value-append acc (c ∷ s) t = value-append (acc * 10 + (c - 48)) s t

pub lower-append : (s t : Str) → lower (s ++ t) ≡ lower s ++ lower t
lower-append [] t = refl
lower-append (c ∷ s) t = ap (λ r. lower_char c ∷ r) (lower-append s t)

value-lower-digits : (f n : ℕ) → n < f → value 0 (lower (digits f n)) ≡ n
unfolding digits value
value-lower-digits zero n h = absurd (omega arith)
value-lower-digits (suc f) n h = elim (Bool-cases (ltb n 10)) [
  | inl e ↦ rw e (ground arith)
  | inr e ↦
      let rest = value-lower-digits f (n / 10) (ground arith) in
      rw e (
        ap (value 0) (lower-append (digits f (n / 10)) ((48 + n % 10) ∷ []))
        ∙ value-append 0 (lower (digits f (n / 10))) (lower ((48 + n % 10) ∷ []))
        ∙ ground (arith, rest))
]

pub to_string-injective : (m n : ℕ) → lower (to_string m) ≡ lower (to_string n) → m ≡ n
unfolding to_string
to_string-injective m n h =
    sym (value-lower-digits (suc m) m (omega arith))
    ∙ ap (value 0) h
    ∙ value-lower-digits (suc n) n (omega arith)
