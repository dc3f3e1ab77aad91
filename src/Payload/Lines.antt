-- ===== src/Payload/Lines.antt =====
-- The NDJSON loop of RawPayload::Parse, against lists of the good and of the bad lines.
use rawduck.Prelude.{
  ℕ, suc, ◌+◌, ◌≡◌, refl, sym, ◌∙◌, ap, inl, inr, Str, Bool, true, false, ◌==◌, Option, none, some,
  List, [], ◌∷◌, ◌++◌, All, Result, err, ok, if◌then◌else◌, arith, Bool-cases, Option-cases,
}
use mathlib.Core.List.{append_assoc, append-nil}
use rawduck.Json.{Value}
use rawduck.Duck.{Duck}
use rawduck.Payload.{
  Failure, invalid_line, RawPayload, split_lines, is_blank, parse_line, parse_lines, add_rows,
  add_parse_error,
}

abbrev pub has_newline : Str → Bool
has_newline [] = false
has_newline (c ∷ s) = if c == b'\n' then true else has_newline s

-- Lines with a newline between each two.
unfoldable pub join_lines : Str → List Str → Str
join_lines line [] = line
join_lines line (next ∷ lines) = line ++ (b'\n' ∷ join_lines next lines)

split_lines-line : (line : Str) → has_newline line ≡ false → split_lines line ≡ line ∷ []
unfolding split_lines
split_lines-line [] h = refl
split_lines-line (c ∷ s) h = elim (Bool-cases (c == b'\n')) [
  | inl e ↦ ground (arith, e)
  | inr e ↦ rw e (rw (split_lines-line s (ground (arith, e))) refl)
]

split_lines-append :
    (line rest : Str)
    → has_newline line ≡ false
    → split_lines (line ++ (b'\n' ∷ rest)) ≡ line ∷ split_lines rest
unfolding split_lines
split_lines-append [] rest h = refl
split_lines-append (c ∷ s) rest h = elim (Bool-cases (c == b'\n')) [
  | inl e ↦ ground (arith, e)
  | inr e ↦ rw e (rw (split_lines-append s rest (ground (arith, e))) refl)
]

-- Text joined from lines that have no newline inside splits into these lines again.
pub split_lines-join_lines :
    (line : Str) (lines : List Str)
    → All (λ l. has_newline l ≡ false) (line ∷ lines)
    → split_lines (join_lines line lines) ≡ line ∷ lines
unfolding join_lines
split_lines-join_lines line [] h = split_lines-line line h.0
split_lines-join_lines line (next ∷ lines) h =
    split_lines-append line (join_lines next lines) h.0
    ∙ ap (λ ls. line ∷ ls) (split_lines-join_lines next lines h.1)

module _ (duck : Duck) where
  -- A line that holds a document or is blank.
  abbrev pub is_good : Str → Bool
  is_good line =
      if is_blank duck line then true else elim (duck.read line) [ none ↦ false | some v ↦ true ]

  -- The documents of the good lines, in order.
  unfoldable pub documents : List Str → List Value
  documents [] = []
  documents (line ∷ lines) =
      if is_blank duck line
      then documents lines
      else elim (duck.read line) [ none ↦ documents lines | some v ↦ v ∷ documents lines ]

  unfoldable pub bad_count : List Str → ℕ
  bad_count [] = 0
  bad_count (line ∷ lines) = if is_good line then bad_count lines else suc (bad_count lines)

  -- The number of the first bad line, when counting goes on from `number`.
  unfoldable pub first_bad : List Str → ℕ → Option ℕ
  first_bad [] number = none
  first_bad (line ∷ lines) number =
      if is_good line then first_bad lines (suc number) else some (suc number)

  abbrev read_payload : RawPayload → List Value → ℕ → RawPayload
  read_payload p rows errors = record {
    rows = rows;
    scalar_rows = p.scalar_rows;
    parse_errors = errors;
    otlp_semantics = p.otlp_semantics;
  }

  -- The documents and the count of the bad lines, added to what was there.
  abbrev pub read_lines : List Str → RawPayload → RawPayload
  read_lines lines p = read_payload p (p.rows ++ documents lines) (p.parse_errors + bad_count lines)

  abbrev pub refused_at : Option ℕ → RawPayload → Result Failure RawPayload
  refused_at none p = ok p
  refused_at (some k) p = err (invalid_line k)

  read_payload-eq :
      (p : RawPayload) (r r' : List Value) (e e' : ℕ)
      → r ≡ r'
      → e ≡ e'
      → read_payload p r e ≡ read_payload p r' e'
  read_payload-eq p r r' e e' h k = rw (h, k) refl

  read_lines-nil : (p : RawPayload) → read_lines [] p ≡ p
  unfolding documents bad_count
  read_lines-nil p =
      read_payload-eq p (p.rows ++ []) p.rows (p.parse_errors + 0) p.parse_errors
        (append-nil p.rows) (omega arith)

  bad_line :
      (ignore_errors : Bool) (line : Str) (lines : List Str) (number : ℕ) (p : RawPayload)
      → is_blank duck line ≡ false
      → duck.read line ≡ none
      → parse_lines duck ignore_errors lines (suc number) (add_parse_error p)
        ≡ refused_at
            (if ignore_errors then none else first_bad lines (suc number))
            (read_lines lines (add_parse_error p))
      → parse_lines duck ignore_errors (line ∷ lines) number p
        ≡ refused_at
            (if ignore_errors then none else first_bad (line ∷ lines) number)
            (read_lines (line ∷ lines) p)
  unfolding parse_lines parse_line documents bad_count first_bad
  bad_line true line lines number p e r ih =
      rw (e, r)
        (ih
          ∙ ap ok (
              read_payload-eq p (p.rows ++ documents lines) (p.rows ++ documents lines)
                (suc p.parse_errors + bad_count lines) (p.parse_errors + suc (bad_count lines)) refl
                (omega arith)))
  bad_line false line lines number p e r ih = rw (e, r) refl

  -- With ignore_errors, the loop over the lines never fails: it takes every document in order and
  -- counts every bad line. Without, it does the same when no line is bad, and otherwise fails with
  -- the number of the first bad line. A blank line is never bad.
  pub parse_lines-reads :
      (ignore_errors : Bool) (lines : List Str) (number : ℕ) (p : RawPayload)
      → parse_lines duck ignore_errors lines number p
        ≡ refused_at (if ignore_errors then none else first_bad lines number) (read_lines lines p)
  unfolding parse_lines parse_line documents bad_count first_bad
  parse_lines-reads true [] number p = ap ok (sym (read_lines-nil p))
  parse_lines-reads false [] number p = ap ok (sym (read_lines-nil p))
  parse_lines-reads ignore_errors (line ∷ lines) number p = elim (Bool-cases (is_blank duck line)) [
    | inl e ↦ rw e (parse_lines-reads ignore_errors lines (suc number) p)
    | inr e ↦ elim (Option-cases (duck.read line)) [
      | inl r ↦
          bad_line ignore_errors line lines number p e r
            (parse_lines-reads ignore_errors lines (suc number) (add_parse_error p))
      | inr (v, r) ↦
          rw (e, r)
            (parse_lines-reads ignore_errors lines (suc number) (add_rows p (v ∷ []))
              ∙ ap (refused_at (if ignore_errors then none else first_bad lines (suc number))) (
                  read_payload-eq p (p.rows ++ (v ∷ []) ++ documents lines)
                    (p.rows ++ (v ∷ documents lines)) (p.parse_errors + bad_count lines)
                    (p.parse_errors + bad_count lines)
                    (append_assoc p.rows (v ∷ []) (documents lines)) refl))
    ]
  ]
