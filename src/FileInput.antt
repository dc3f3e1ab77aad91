-- ===== src/FileInput.antt =====
-- The reader thread of raw_ingest_file (src/raw_ingest.cpp, RawIngestFileFunction): NDJSON text that
-- is read in pieces is cut into batches of whole lines, and batches of white space are dropped. A
-- read error is what follows the pieces that were read before it.
pub mod Cut
pub mod Whole
pub mod Content
use rawduck.Prelude.{
  ℕ, zero, suc, ◌+◌, ◌-◌, ◌*◌, min, Str, length, take, drop, ltb, leb, ◌==◌, Bool, true, false,
  ◌&&◌, ◌||◌, Option, none, some, List, [], ◌∷◌, ◌++◌, if◌then◌else◌,
}

-- RAW_BATCH_BYTE_TARGET
abbrev pub batch_byte_target : ℕ
batch_byte_target = 8 * 1024 * 1024

-- RAW_DEFAULT_BATCH_SIZE
abbrev pub default_batch_size : ℕ
default_batch_size = 30000

unfoldable pub count_newlines : Str → ℕ
count_newlines [] = 0
count_newlines (c ∷ s) = if c == b'\n' then suc (count_newlines s) else count_newlines s

-- pending.find('\n', pos)
unfoldable pub find_newline : Str → ℕ → Option ℕ
find_newline [] pos = none
find_newline (c ∷ s) zero =
    if c == b'\n' then some 0 else elim (find_newline s 0) [ none ↦ none | some i ↦ some (suc i) ]
find_newline (c ∷ s) (suc pos) = elim (find_newline s pos) [ none ↦ none | some i ↦ some (suc i) ]

-- pending.find('\n', split) + 1, which is 0 where there is none: npos is the largest size_t
abbrev pub next_line : Str → ℕ → ℕ
next_line s pos = elim (find_newline s pos) [ none ↦ 0 | some i ↦ suc i ]

-- The loop over `take` lines.
unfoldable pub split_position : ℕ → Str → ℕ → ℕ
split_position zero s split = split
split_position (suc n) s split = split_position n s (next_line s split)

-- The characters of find_first_not_of
abbrev pub is_white : ℕ → Bool
is_white c = c == b' ' || (c == b'\t' || (c == b'\r' || c == b'\n'))

unfoldable pub all_white : Str → Bool
all_white [] = true
all_white (c ∷ s) = is_white c && all_white s

-- `emit`, onto the batches that were pushed so far
abbrev pub emit : List Str → Str → List Str
emit batches batch = if all_white batch then batches else batches ++ (batch ∷ [])

-- The reader's local variables, and what it has pushed.
pub record Reader : Type 0 where
  pub pending : Str
  pub pending_lines : ℕ
  pub batches : List Str

abbrev pub start : Reader
start = record { pending = []; pending_lines = 0; batches = [] }

-- The condition of the inner loop.
abbrev pub is_full : ℕ → Reader → Bool
is_full batch_size r =
    leb batch_size r.pending_lines
    || (leb batch_byte_target (length r.pending) && ltb 0 r.pending_lines)

-- The body of the inner loop, for the lines to take and the position of the split.
abbrev pub cut_at : Reader → ℕ → ℕ → Reader
cut_at r lines split =
    if leb (length r.pending) split
    then record {
      pending = [];
      pending_lines = r.pending_lines - lines;
      batches = emit r.batches r.pending;
    }
    else record {
      pending = drop split r.pending;
      pending_lines = r.pending_lines - lines;
      batches = emit r.batches (take split r.pending);
    }

unfoldable pub cut_batch : ℕ → Reader → Reader
cut_batch batch_size r =
    let lines = min r.pending_lines batch_size in cut_at r lines (split_position lines r.pending 0)

-- The inner loop, on fuel.
unfoldable pub cut_batches : ℕ → ℕ → Reader → Reader
cut_batches zero batch_size r = r
cut_batches (suc fuel) batch_size r =
    let rest = cut_batches fuel batch_size (cut_batch batch_size r) in
    if is_full batch_size r then rest else r

-- A piece that was read. A round takes at least one line, so that a round more than there are lines
-- is enough (Cut).
unfoldable pub read_piece : ℕ → Reader → Str → Reader
read_piece batch_size r piece =
    let lines = r.pending_lines + count_newlines piece in
    cut_batches (suc lines) batch_size
      (record r { pending = r.pending ++ piece; pending_lines = lines })

unfoldable pub read_pieces : ℕ → Reader → List Str → Reader
read_pieces batch_size r [] = r
read_pieces batch_size r (piece ∷ pieces) =
    read_pieces batch_size (read_piece batch_size r piece) pieces

-- The reader thread: what it pushes of the pieces, where the last read fails or the file ends.
unfoldable pub read_file : ℕ → List Str → Bool → List Str
read_file batch_size pieces failed =
    let r = read_pieces batch_size start pieces in
    if failed then r.batches else emit r.batches r.pending
