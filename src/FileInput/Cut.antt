-- ===== src/FileInput/Cut.antt =====
-- Where the reader cuts: after whole lines.
use rawduck.Prelude.{
  ℕ, zero, suc, ◌+◌, ◌≤◌, ◌<◌, ◌≡◌, ◌⊎◌, refl, sym, ap, ◌∙◌, inl, inr, Str, length, ◌==◌, none,
  some, [], ◌∷◌, ◌++◌, Bool-cases, arith, length-append,
}
use mathlib.Core.List.{append_assoc}
use rawduck.FileInput.{count_newlines, find_newline, next_line, split_position}

pub count_newlines-append :
    (a b : Str) → count_newlines (a ++ b) ≡ count_newlines a + count_newlines b
unfolding count_newlines
count_newlines-append [] b = omega arith
count_newlines-append (c ∷ a) b = ground (arith, count_newlines-append a b)

find_newline-append :
    (a b : Str)
    → find_newline (a ++ b) (length a)
      ≡ elim (find_newline b 0) [ none ↦ none | some i ↦ some (length a + i) ]
unfolding find_newline
find_newline-append [] b = ground (arith)
find_newline-append (c ∷ a) b = ground (arith, find_newline-append a b)

-- The first line of a text that has a newline, and what follows it.
record FirstLine (s : Str) : Type 0 where
  line : Str
  rest : Str
  parts : s ≡ line ++ (b'\n' ∷ rest)
  no_newline : count_newlines line ≡ 0
  found : find_newline s 0 ≡ some (length line)

first_line : (s : Str) → 0 < count_newlines s → FirstLine s
unfolding count_newlines find_newline
first_line [] h = absurd (omega arith)
first_line (c ∷ s) h = elim (Bool-cases (c == b'\n')) [
  | inl e ↦ record {
    line = [];
    rest = s;
    parts = ground arith;
    no_newline = refl;
    found = rw e refl;
  }
  | inr e ↦
      let f = first_line s (ground arith) in
      record {
        line = c ∷ f.line;
        rest = f.rest;
        parts = ap (λ t. c ∷ t) f.parts;
        no_newline = ground (arith, f.no_newline);
        found = rw e (rw (f.found) refl);
      }
]

abbrev pub EndsLine : Str → Type 0
EndsLine s = (t : Str) × (s ≡ t ++ (b'\n' ∷ []))

-- A text in two parts, the first with `n` more newlines than before.
pub record SplitAt (n : ℕ) (a b : Str) (split : ℕ) : Type 0 where
  pub before : Str
  pub after : Str
  pub whole : a ++ b ≡ before ++ after
  pub at_split : split ≡ length before
  pub counted : count_newlines before ≡ count_newlines a + n
  pub ends : (0 < n) ⊎ EndsLine a → EndsLine before

next_line-first :
    (a b : Str) (f : FirstLine b)
    → next_line (a ++ b) (length a) ≡ length (a ++ (f.line ++ (b'\n' ∷ [])))
next_line-first a b f =
    rw (find_newline-append a b, next_line, f.found)
      (omega (arith, length-append a (f.line ++ (b'\n' ∷ [])), length-append f.line (b'\n' ∷ [])))

parts-append : (a b : Str) (f : FirstLine b) → a ++ b ≡ (a ++ (f.line ++ (b'\n' ∷ []))) ++ f.rest
parts-append a b f =
    ap (λ t. a ++ t) (f.parts ∙ sym (append_assoc f.line (b'\n' ∷ []) f.rest))
    ∙ sym (append_assoc a (f.line ++ (b'\n' ∷ [])) f.rest)

count-line : (line : Str) → count_newlines line ≡ 0 → count_newlines (line ++ (b'\n' ∷ [])) ≡ 1
unfolding count_newlines
count-line line h = omega (arith, count_newlines-append line (b'\n' ∷ []))

count-rest : (b : Str) (f : FirstLine b) → count_newlines b ≡ suc (count_newlines f.rest)
unfolding count_newlines
count-rest b f =
    ap count_newlines f.parts
    ∙ count_newlines-append f.line (b'\n' ∷ f.rest)
    ∙ omega (arith, f.no_newline)

pub split_position_lem :
    (n : ℕ) (a b : Str)
    → n ≤ count_newlines b
    → SplitAt n a b (split_position n (a ++ b) (length a))
unfolding split_position count_newlines
split_position_lem zero a b h = record {
  before = a;
  after = b;
  whole = refl;
  at_split = refl;
  counted = omega arith;
  ends = λ p. elim p [ inl l ↦ absurd (omega arith) | inr e ↦ e ];
}
split_position_lem (suc n) a b h =
    let f = first_line b (omega (arith, h)) in
    let line = f.line ++ (b'\n' ∷ []) in
    let rest = split_position_lem n (a ++ line) f.rest (omega (arith, h, count-rest b f)) in
    record {
      before = rest.before;
      after = rest.after;
      whole = parts-append a b f ∙ rest.whole;
      at_split =
          ap (split_position n (a ++ b)) (next_line-first a b f)
          ∙ ap (λ t. split_position n t (length (a ++ line))) (parts-append a b f)
          ∙ rest.at_split;
      counted =
          rest.counted
          ∙ omega (arith, count_newlines-append a line, count-line f.line f.no_newline);
      ends = λ _. rest.ends (inr (a ++ f.line, sym (append_assoc a f.line (b'\n' ∷ []))));
    }
