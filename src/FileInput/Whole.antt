-- ===== src/FileInput/Whole.antt =====
-- What the reader pushes is the file, cut after whole lines.
use rawduck.Prelude.{
  ℕ, zero, suc, ◌+◌, ◌-◌, ◌≤◌, ◌<◌, min, ◌≡◌, ◌⊎◌, refl, sym, ap, ◌∙◌, subst, inl, inr, Str, length,
  take, drop, leb, true, false, List, [], ◌∷◌, ◌++◌, Bool-cases, if◌then◌else◌, arith,
  length-append, take-append, drop-append, leb→le, if_both, All, All-append,
}
use mathlib.Core.List.{append_assoc, append-nil}
use rawduck.FileInput.{
  batch_byte_target, count_newlines, split_position, all_white, emit, Reader, start, is_full,
  cut_at, cut_batch, cut_batches, read_piece, read_pieces, read_file,
}
use rawduck.FileInput.Cut.{count_newlines-append, EndsLine, SplitAt, split_position_lem}

abbrev pub concat : List Str → Str
concat [] = []
concat (s ∷ ss) = s ++ concat ss

-- The texts that are not only white space.
abbrev pub keep : List Str → List Str
keep [] = []
keep (s ∷ ss) = if all_white s then keep ss else s ∷ keep ss

pub keep-append : (xs ys : List Str) → keep (xs ++ ys) ≡ keep xs ++ keep ys
keep-append [] ys = refl
keep-append (x ∷ xs) ys = ground (arith, keep-append xs ys)

concat-one : (xs : List Str) (y : Str) → concat (xs ++ (y ∷ [])) ≡ concat xs ++ y
concat-one [] y = append-nil y
concat-one (x ∷ xs) y = ap (λ t. x ++ t) (concat-one xs y) ∙ sym (append_assoc x (concat xs) y)

emit-keep : (xs : List Str) (y : Str) → emit (keep xs) y ≡ keep (xs ++ (y ∷ []))
emit-keep xs y = elim (Bool-cases (all_white y)) [
  | inl e ↦ rw e (sym (append-nil (keep xs)) ∙ sym (keep-append xs (y ∷ []) ∙ rw e refl))
  | inr e ↦ rw e (sym (keep-append xs (y ∷ []) ∙ rw e refl))
]

-- Whole lines, at most as many as the batch size.
abbrev pub IsBatch : ℕ → Str → Type 0
IsBatch batch_size s = EndsLine s × (count_newlines s ≤ batch_size)

-- The reader after the text so far.
record IsCut (batch_size : ℕ) (text : Str) (r : Reader) : Type 0 where
  cuts : List Str
  whole : concat cuts ++ r.pending ≡ text
  lines : All (IsBatch batch_size) cuts
  pushed : r.batches ≡ keep cuts
  counted : r.pending_lines ≡ count_newlines r.pending

nil_of_length : (xs : Str) → length xs ≡ 0 → xs ≡ []
nil_of_length [] h = refl
nil_of_length (x ∷ xs) h = absurd (omega arith)

cut_at-parts :
    (r : Reader) (lines split : ℕ) (s : SplitAt lines [] r.pending split)
    → cut_at r lines split ≡ record {
      pending = s.after;
      pending_lines = r.pending_lines - lines;
      batches = emit r.batches s.before;
    }
cut_at-parts r lines split s = elim (Bool-cases (leb (length r.pending) split)) [
  | inl e ↦
      let none_left = nil_of_length s.after (
        omega (
          arith,
          leb→le (length r.pending) split e,
          ap length s.whole,
          length-append s.before s.after,
          s.at_split,
        )) in
      let all = s.whole ∙ ap (λ t. s.before ++ t) none_left ∙ append-nil s.before in
      rw e (rw (none_left) (ap (λ t. made [] (emit r.batches t)) all))
  | inr e ↦ rw e (
      ap (λ t. made (drop split t) (emit r.batches (take split t))) s.whole
      ∙ rw s.at_split (rw (drop-append s.before s.after, take-append s.before s.after) refl))
]
  where
    made : Str → List Str → Reader
    made pending batches = record {
      pending = pending;
      pending_lines = r.pending_lines - lines;
      batches = batches;
    }

cut_at-IsCut :
    (batch_size : ℕ) (text : Str) (r : Reader) (lines split : ℕ)
    → 0 < lines
    → lines ≤ batch_size
    → IsCut batch_size text r
    → SplitAt lines [] r.pending split
    → IsCut batch_size text (cut_at r lines split)
unfolding count_newlines
cut_at-IsCut batch_size text r lines split pos le c s =
    subst (IsCut batch_size text) (sym (cut_at-parts r lines split s)) (record {
      cuts = c.cuts ++ (s.before ∷ []);
      whole =
          ap (λ t. t ++ s.after) (concat-one c.cuts s.before)
          ∙ append_assoc (concat c.cuts) s.before s.after
          ∙ ap (λ t. concat c.cuts ++ t) (sym s.whole)
          ∙ c.whole;
      lines =
          All-append (IsBatch batch_size) c.cuts (s.before ∷ []) c.lines
            ((s.ends (inl pos), omega (arith, s.counted)), tt);
      pushed = ap (λ b. emit b s.before) c.pushed ∙ emit-keep c.cuts s.before;
      counted = omega (
        arith,
        c.counted,
        s.counted,
        ap count_newlines s.whole,
        count_newlines-append s.before s.after,
      );
    })

cut_batch-IsCut :
    (batch_size : ℕ) (text : Str) (r : Reader)
    → 0 < batch_size
    → 0 < r.pending_lines
    → IsCut batch_size text r
    → IsCut batch_size text (cut_batch batch_size r)
unfolding cut_batch
cut_batch-IsCut batch_size text r b l c =
    let lines = min r.pending_lines batch_size in
    cut_at-IsCut batch_size text r lines (split_position lines r.pending 0) (omega arith)
      (omega arith) c (split_position_lem lines [] r.pending (omega (arith, c.counted)))

pending_lines-cut_batch :
    (batch_size : ℕ) (r : Reader)
    → (cut_batch batch_size r).pending_lines ≡ r.pending_lines - min r.pending_lines batch_size
unfolding cut_batch
pending_lines-cut_batch batch_size r =
    let lines = min r.pending_lines batch_size in
    if_both {A = Reader} (λ x. x.pending_lines ≡ r.pending_lines - lines)
      (leb (length r.pending) (split_position lines r.pending 0)) _ _ refl refl

is_full-lines :
    (batch_size : ℕ) (r : Reader)
    → 0 < batch_size
    → is_full batch_size r ≡ true
    → 0 < r.pending_lines
is_full-lines batch_size r b h = ground arith

-- With a round more than there are lines the loop ends by its test.
cut_batches-IsCut :
    (fuel batch_size : ℕ) (text : Str) (r : Reader)
    → 0 < batch_size
    → r.pending_lines < fuel
    → IsCut batch_size text r
    → IsCut batch_size text (cut_batches fuel batch_size r)
      × (is_full batch_size (cut_batches fuel batch_size r) ≡ false)
unfolding cut_batches
cut_batches-IsCut zero batch_size text r b f c = absurd (omega arith)
cut_batches-IsCut (suc fuel) batch_size text r b f c = elim (Bool-cases (is_full batch_size r)) [
  | inl e ↦
      let l = is_full-lines batch_size r b e in
      rw e (
        cut_batches-IsCut fuel batch_size text (cut_batch batch_size r) b
          (omega (arith, pending_lines-cut_batch batch_size r))
          (cut_batch-IsCut batch_size text r b l c))
  | inr e ↦ rw e (c, e)
]

read_piece-IsCut :
    (batch_size : ℕ) (text : Str) (r : Reader) (piece : Str)
    → 0 < batch_size
    → IsCut batch_size text r
    → IsCut batch_size (text ++ piece) (read_piece batch_size r piece)
      × (is_full batch_size (read_piece batch_size r piece) ≡ false)
unfolding read_piece
read_piece-IsCut batch_size text r piece b c =
    let lines = r.pending_lines + count_newlines piece in
    cut_batches-IsCut (suc lines) batch_size (text ++ piece)
      (record r { pending = r.pending ++ piece; pending_lines = lines }) b (omega arith)
      (record {
        cuts = c.cuts;
        whole = sym (append_assoc (concat c.cuts) r.pending piece) ∙ ap (λ t. t ++ piece) c.whole;
        lines = c.lines;
        pushed = c.pushed;
        counted = omega (arith, c.counted, count_newlines-append r.pending piece);
      })

read_pieces-IsCut :
    (batch_size : ℕ) (text : Str) (r : Reader) (pieces : List Str)
    → 0 < batch_size
    → IsCut batch_size text r × (is_full batch_size r ≡ false)
    → IsCut batch_size (text ++ concat pieces) (read_pieces batch_size r pieces)
      × (is_full batch_size (read_pieces batch_size r pieces) ≡ false)
unfolding read_pieces
read_pieces-IsCut batch_size text r [] b c =
    (subst (λ t. IsCut batch_size t r) (sym (append-nil text)) c.0, c.1)
read_pieces-IsCut batch_size text r (piece ∷ pieces) b c =
    let rest =
      read_pieces-IsCut batch_size (text ++ piece) (read_piece batch_size r piece) pieces b
        (read_piece-IsCut batch_size text r piece b c.0) in
    (
      subst
          (λ t. IsCut batch_size t (read_pieces batch_size (read_piece batch_size r piece) pieces))
          (append_assoc text piece (concat pieces)) rest.0,
      rest.1,
    )

-- What is left at the end is less than a batch.
abbrev pub IsRemainder : ℕ → Str → Type 0
IsRemainder batch_size s =
    (count_newlines s < batch_size) × ((length s < batch_byte_target) ⊎ (count_newlines s ≡ 0))

not_full-IsRemainder :
    (batch_size : ℕ) (text : Str) (r : Reader)
    → is_full batch_size r ≡ false
    → IsCut batch_size text r
    → IsRemainder batch_size r.pending
not_full-IsRemainder batch_size text r f c = ground (arith, c.counted)

-- However the file is read in pieces, it is whole batches of lines and a remainder: a batch ends
-- with a newline and has at most `batch_size` lines, the remainder has fewer lines than a batch and
-- fewer bytes than the byte target or no newline at all. The reader pushes those of them that are
-- not only white space, in their order, and where the last read fails all but the remainder.
pub read_file-batches :
    (batch_size : ℕ) (pieces : List Str)
    → 0 < batch_size
    → (cuts : List Str) × ((last : Str) × ((concat cuts ++ last ≡ concat pieces)
          × All (IsBatch batch_size) cuts
          × IsRemainder batch_size last
          × (read_file batch_size pieces false ≡ keep (cuts ++ (last ∷ [])))
          × (read_file batch_size pieces true ≡ keep cuts)))
unfolding read_file count_newlines
read_file-batches batch_size pieces b =
    let start_cut : IsCut batch_size [] start = record {
      cuts = [];
      whole = refl;
      lines = tt;
      pushed = refl;
      counted = refl;
    } in
    let (c, f) = read_pieces-IsCut batch_size [] start pieces b (start_cut, ground arith) in
    let r = read_pieces batch_size start pieces in
    (
      c.cuts,
      (
        r.pending,
        (
          c.whole,
          c.lines,
          not_full-IsRemainder batch_size (concat pieces) r f c,
          ap (λ x. emit x r.pending) c.pushed ∙ emit-keep c.cuts r.pending,
          c.pushed,
        ),
      ),
    )
