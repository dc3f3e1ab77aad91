-- ===== src/Examples/Files.antt =====
-- A file in two pieces, and a run of its pipeline to the end.
use rawduck.Prelude.{
  ◌+◌, ◌≤◌, ◌≡◌, ◌⊎◌, refl, Str, List, [], ◌∷◌, ◌++◌, codes, none, true, false, arith, All, length,
  sum_by,
}
use rawduck.Payload.{process, parse, check_and_explode, check_row_uniformity, with_schema}
use rawduck.Node.{infer_schema, merge_row, merge_value, merge_scalar}
use rawduck.Node.Sniff.{sniff_scalar_kind}
use rawduck.SqlType.{node_to_type}
use rawduck.Flatten.{flatten_schema}
use rawduck.FileInput.{
  read_file, all_white, read_pieces, read_piece, cut_batches, count_newlines, cut_batch,
  split_position, find_newline,
}
use rawduck.FileInput.Whole.{concat, keep, IsBatch, IsRemainder, read_file-batches}
use rawduck.FileInput.Content.{content, contents, read_file-content}
use rawduck.Pipeline.{
  System, create, reader_step, parser_step, consumer_step, push_raw, push, pop_raw, pop,
  parse_batch, reader_ends, parser_ends, finished, ended,
}
use rawduck.Pipeline.Runs.{Reach, starts, reads, parses, consumes}
use rawduck.Pipeline.Invariant.{item_weight}
use rawduck.Pipeline.Delivery.{IsParsed, consumed-batches}
use rawduck.Pipeline.Progress.{IsOver, IsEnabled, Reach-progress}
use rawduck.Pipeline.Ends.{budget, Reach-budget}
use rawduck.Examples.Ducks.{example_duck}
use rawduck.Examples.Process.{plain, parsed}

abbrev pieces : List Str
pieces = codes "1\n2" ∷ codes "3\n\n4" ∷ []

read_file_run : read_file 1 pieces false ≡ codes "1\n" ∷ codes "23\n" ∷ codes "4" ∷ []
unfolding read_file all_white read_pieces read_piece cut_batches count_newlines cut_batch
    split_position find_newline
read_file_run = refl

read_file-content_example : contents (read_file 1 pieces false) ≡ content (concat pieces)
read_file-content_example = read_file-content 1 pieces (omega arith)

read_file-batches_example :
    (cuts : List Str) × ((last : Str) × ((concat cuts ++ last ≡ concat pieces)
        × All (IsBatch 1) cuts
        × IsRemainder 1 last
        × (read_file 1 pieces false ≡ keep (cuts ++ (last ∷ [])))
        × (read_file 1 pieces true ≡ keep cuts)))
read_file-batches_example = read_file-batches 1 pieces (omega arith)

abbrev batch : Str
batch = codes "1"

abbrev before : System
before = create 1 (batch ∷ []) false 1 1

abbrev pub over : System
over = record {
  pipe = record {
    capacity = 1;
    raw_queue = [];
    queue = [];
    active_parsers = 0;
    reader_done = true;
    aborted = false;
    error = none;
  };
  reader = finished;
  parsers = ended ∷ [];
  consumers = false ∷ [];
  consumed = record { parsed = parsed; payload = batch } ∷ [];
}

pub at_end : Reach example_duck plain before 7 over
unfolding create reader_step parser_step consumer_step push_raw push pop_raw pop parse_batch
    reader_ends parser_ends process parse check_and_explode check_row_uniformity with_schema
    infer_schema merge_row merge_value merge_scalar sniff_scalar_kind flatten_schema node_to_type
at_end =
    consumes 6 _ over 0 false
      (consumes 5 _ _ 0 false
        (parses 4 _ _ 0
          (parses 3 _ _ 0 (reads 2 _ _ (parses 1 _ _ 0 (reads 0 _ _ starts refl) refl) refl) refl)
          refl)
        refl)
      refl

consumed-batches_example :
    (sum_by (item_weight length) over.consumed ≡ sum_by length (batch ∷ []))
    × All (IsParsed example_duck plain) over.consumed
consumed-batches_example =
    consumed-batches example_duck plain length 1 (batch ∷ []) false 1 1 7 over (omega arith) at_end
      (refl, refl) (omega arith)

Reach-progress_example : IsOver example_duck plain over ⊎ IsEnabled example_duck plain over
Reach-progress_example =
    Reach-progress example_duck plain 1 (batch ∷ []) false 1 1 7 over (omega arith) (omega arith)
      (omega arith) at_end

Reach-budget_example : 7 + budget over ≤ budget before
Reach-budget_example = Reach-budget example_duck plain before 7 over at_end
