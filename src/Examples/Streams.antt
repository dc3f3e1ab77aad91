-- ===== src/Examples/Streams.antt =====
-- The stream ingestor and the coalescing consumer on small batches.
use rawduck.Prelude.{
  ◌+◌, ◌≡◌, refl, [], ◌∷◌, codes, some, none, false, true, arith, ok, length, ap, sym, ◌∙◌, str_eq,
  str_eq_iff, Bool-cases, inl, inr,
}
use rawduck.SqlType.{LogicalType}
use rawduck.Ingest.{
  Ingestor, ingest_parsed, ingest_native, legacy_ingest_native, submit_batch, finish,
}
use rawduck.Catalog.{create_native, add_column, find_column}
use rawduck.FileInput.{read_file, all_white, read_pieces, read_piece, cut_batches, count_newlines}
use rawduck.Stream.{ingest_parsed_concurrent}
use rawduck.Stream.Agrees.{ingest_parsed_concurrent-agrees}
use rawduck.Stream.Counted.{HasErrors, counted_errors, ingest_parsed_concurrent-errors}
use rawduck.Coalesce.{consume, coalesce_and_ingest}
use rawduck.Payload.{split_lines}
use rawduck.Payload.Records.{are_records, ReadsLines}
use rawduck.FileInput.Whole.{concat}
use rawduck.FileInput.Content.{content}
use rawduck.Coalesce.Total.{ingest_item, raw_ingest_file-rows}
use rawduck.Examples.Ducks.{example_duck}
use rawduck.Examples.Process.{plain}
use rawduck.Examples.Ingests.{batch, code_of, id_of, narrow, pooled, fresh}
use rawduck.Examples.Files.{over, at_end}

ingest_parsed_concurrent-agrees_example :
    ingest_parsed_concurrent code_of id_of pooled batch ≡ ingest_parsed code_of id_of pooled batch
ingest_parsed_concurrent-agrees_example =
    ingest_parsed_concurrent-agrees code_of id_of pooled narrow batch refl refl

ingest_parsed_concurrent-errors_example :
    HasErrors
      (fresh.errors + counted_errors code_of id_of fresh.table batch)
      (ingest_parsed_concurrent code_of id_of fresh batch)
ingest_parsed_concurrent-errors_example = ingest_parsed_concurrent-errors code_of id_of fresh batch

abbrev pub counted : Ingestor
counted = record fresh {
  table = some (record {
    columns = (codes "value", LogicalType.bigint) ∷ [];
    storage = 1;
    has_generated = false;
    has_indexes = false;
    has_constraints = false;
  });
  rows = 1;
  created = true;
  columns_added = 1;
}

consumed :
    consume code_of id_of 100 (ingest_item code_of id_of) fresh none over.consumed ≡ ok counted
unfolding consume coalesce_and_ingest ingest_parsed ingest_native legacy_ingest_native submit_batch
    create_native add_column find_column
consumed = refl

one_record : are_records example_duck (content (codes "1")) ≡ true
unfolding all_white split_lines
one_record = refl

one_document : ReadsLines example_duck
unfolding all_white split_lines
one_document = record {
  white = λ c h. h;
  one = λ text v records h. elim (Bool-cases (str_eq text (codes "1"))) [
    | inl e ↦
        let is_one : text ≡ codes "1" = (str_eq_iff text (codes "1")).0 e in
        (codes "1", (ap content is_one, ap example_duck.read (sym is_one) ∙ h))
    | inr e ↦ ground (arith, e, h)
  ];
}

raw_ingest_file-rows_example :
    (finish counted).rows ≡ (finish fresh).rows + length (content (concat (codes "1" ∷ [])))
unfolding read_file all_white read_pieces read_piece cut_batches count_newlines
raw_ingest_file-rows_example =
    raw_ingest_file-rows code_of id_of example_duck plain 100 1 1 1 7 (codes "1" ∷ []) over fresh
      counted (omega arith) (omega arith) one_document refl one_record at_end (refl, refl)
      (omega arith) (refl, tt) consumed
