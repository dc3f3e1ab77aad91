-- ===== src/FileInput/Content.antt =====
-- The lines with content survive the cutting.
use rawduck.Prelude.{
  ℕ, ◌<◌, ◌≡◌, refl, sym, ap, ◌∙◌, inl, inr, Str, ◌==◌, Bool, true, false, ◌&&◌, List, [], ◌∷◌,
  ◌++◌, Bool-cases, arith, All,
}
use mathlib.Core.List.{append_assoc, append-nil}
use rawduck.Payload.{split_lines}
use rawduck.FileInput.{all_white, is_white, read_file}
use rawduck.FileInput.Cut.{EndsLine}
use rawduck.FileInput.Whole.{concat, keep, keep-append, IsBatch, read_file-batches}

-- The lines of a text that are not only white space.
abbrev pub content : Str → List Str
content s = keep (split_lines s)

abbrev pub contents : List Str → List Str
contents [] = []
contents (s ∷ ss) = content s ++ contents ss

record Lines (ls : List Str) : Type 0 where
  line : Str
  lines : List Str
  parts : ls ≡ line ∷ lines

-- A text has a first line.
split_lines_parts : (s : Str) → Lines (split_lines s)
unfolding split_lines
split_lines_parts [] = record { line = []; lines = []; parts = refl }
split_lines_parts (c ∷ s) =
    let l = split_lines_parts s in
    elim (Bool-cases (c == b'\n')) [
      | inl e ↦ record { line = []; lines = split_lines s; parts = rw e refl }
      | inr e ↦ record { line = c ∷ l.line; lines = l.lines; parts = rw e (rw (l.parts) refl) }
    ]

split_lines-newline : (t b : Str) → split_lines (t ++ (b'\n' ∷ b)) ≡ split_lines t ++ split_lines b
unfolding split_lines
split_lines-newline [] b = refl
split_lines-newline (c ∷ t) b = elim (Bool-cases (c == b'\n')) [
  | inl e ↦ rw e (ap (λ ls. [] ∷ ls) (split_lines-newline t b))
  | inr e ↦ (let l = split_lines_parts t in rw e (rw (split_lines-newline t b) (rw (l.parts) refl)))
]

content-EndsLine : (a b : Str) → EndsLine a → content (a ++ b) ≡ content a ++ content b
unfolding split_lines all_white
content-EndsLine a b (t, e) =
    ap (λ s. keep (split_lines (s ++ b))) e
    ∙ ap (λ s. keep (split_lines s)) (append_assoc t (b'\n' ∷ []) b)
    ∙ ap keep (split_lines-newline t b)
    ∙ keep-append (split_lines t) (split_lines b)
    ∙ ap (λ ls. ls ++ content b) (sym (content_line t a e))
  where
    content_line : (t a : Str) → a ≡ t ++ (b'\n' ∷ []) → content a ≡ content t
    content_line t a e =
        ap content e
        ∙ ap keep (split_lines-newline t [])
        ∙ keep-append (split_lines t) ([] ∷ [])
        ∙ append-nil (content t)

and_true : (a b : Bool) → (a && b) ≡ true → (a ≡ true) × (b ≡ true)
and_true a b h = ground arith

keep_cons :
    (line : Str) (lines : List Str)
    → keep (line ∷ lines) ≡ []
    → (all_white line ≡ true) × (keep lines ≡ [])
keep_cons line lines h = elim (Bool-cases (all_white line)) [
  | inl e ↦ (e, sym (rw e refl) ∙ h)
  | inr e ↦ cc (rw e at h)
]

all_white-content : (s : Str) → all_white s ≡ true → content s ≡ []
unfolding split_lines all_white
all_white-content [] h = refl
all_white-content (c ∷ s) h =
    let l = split_lines_parts s in
    let (w, rest) = and_true (is_white c) (all_white s) h in
    let ih = all_white-content s rest in
    elim (Bool-cases (c == b'\n')) [
      | inl e ↦ rw e ih
      | inr e ↦
          let (first, others) = keep_cons l.line l.lines (ap keep (sym l.parts) ∙ ih) in
          rw e (rw (l.parts) (rw (w, first) others))
    ]

contents-keep : (cuts : List Str) → contents (keep cuts) ≡ contents cuts
contents-keep [] = refl
contents-keep (s ∷ cuts) = elim (Bool-cases (all_white s)) [
  | inl e ↦ rw e (contents-keep cuts ∙ ap (λ ls. ls ++ contents cuts) (sym (all_white-content s e)))
  | inr e ↦ rw e (ap (λ ls. content s ++ ls) (contents-keep cuts))
]

contents-concat :
    (batch_size : ℕ) (cuts : List Str) (last : Str)
    → All (IsBatch batch_size) cuts
    → contents (cuts ++ (last ∷ [])) ≡ content (concat cuts ++ last)
contents-concat batch_size [] last h = append-nil (content last)
contents-concat batch_size (s ∷ cuts) last h =
    ap (λ ls. content s ++ ls) (contents-concat batch_size cuts last h.1)
    ∙ sym (content-EndsLine s (concat cuts ++ last) h.0.0)
    ∙ ap content (sym (append_assoc s (concat cuts) last))

-- However the file is read in pieces and whatever the batch size, the lines with content of the
-- pushed batches are the lines with content of the file, each once and in their order: no line is
-- cut in two, and what is dropped is white space.
pub read_file-content :
    (batch_size : ℕ) (pieces : List Str)
    → 0 < batch_size
    → contents (read_file batch_size pieces false) ≡ content (concat pieces)
read_file-content batch_size pieces b =
    let (cuts, (last, (whole, lines, _, pushed, _))) = read_file-batches batch_size pieces b in
    ap contents pushed
    ∙ contents-keep (cuts ++ (last ∷ []))
    ∙ contents-concat batch_size cuts last lines
    ∙ ap content whole
