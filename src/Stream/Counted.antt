-- ===== src/Stream/Counted.antt =====
-- How often the stream ingestor counts the errors of a batch.
use rawduck.Prelude.{
  ℕ, ◌+◌, ◌≡◌, refl, sym, ap, ◌∙◌, subst, inl, inr, Option, none, some, Bool-cases, List, [],
  length, Result, err, ok, if_both, if◌then◌else◌, arith,
}
use rawduck.SqlType.{TypeId}
use rawduck.Flatten.{is_empty}
use rawduck.Catalog.{evolve_native, create_native, compute_delta, Evolved}
use rawduck.Payload.{RawParsedPayload}
use rawduck.Ingest.{
  IngestFailure, alter_failed, empty_payload, generated_columns, append_failed, Table, Ingestor,
  is_absorbed, drain_pool, ensure_pool, hand_over, submit_batch, before_alter, evolving,
  after_alter, evolved_table, shape_of, ingest_parsed, ingest_native, ingest_columns,
  ingest_unabsorbed, ingest_created, legacy_ingest_native, new_table,
}
use rawduck.Stream.{count_errors, ingest_on, ingest_parsed_concurrent}
use rawduck.Stream.Agrees.{ingest_parsed_concurrent-agrees}

-- A failure, or a state with this many errors.
abbrev pub HasErrors : ℕ → Result IngestFailure Ingestor → Type 0
HasErrors n (err e) = Unit
HasErrors n (ok s) = s.errors ≡ n

hand_over-errors :
    (s : Ingestor) (table : Table) (parsed : RawParsedPayload) (o : Option (List RawParsedPayload))
    → HasErrors s.errors (hand_over s table parsed o)
hand_over-errors s table parsed (some b) = refl
hand_over-errors s table parsed none =
    let appended = record s { rows = s.rows + length parsed.payload.rows } in
    if_both (HasErrors s.errors) table.has_generated (err generated_columns)
      (if s.appends s.rows parsed then ok appended else err append_failed) tt
      (if_both (HasErrors s.errors) (s.appends s.rows parsed) (ok appended) (err append_failed) refl
        tt)

submit_batch-errors :
    (s : Ingestor) (table : Table) (parsed : RawParsedPayload)
    → HasErrors s.errors (submit_batch s table parsed)
unfolding submit_batch
submit_batch-errors s table parsed =
    if_both (HasErrors s.errors) (is_empty parsed.payload.rows) (ok s)
      (hand_over s table parsed (ensure_pool s table parsed)) refl
      (hand_over-errors s table parsed (ensure_pool s table parsed))

module _ (char_code : ℕ → ℕ) (id_code : TypeId → ℕ) where
  before_alter-errors :
      (s : Ingestor) (table : Table) (parsed : RawParsedPayload)
      → (before_alter char_code id_code s table parsed).errors ≡ s.errors
  before_alter-errors s table parsed =
      if_both {A = Ingestor} (λ t. t.errors ≡ s.errors)
        (compute_delta table.columns parsed.columns).widens (drain_pool s) s refl refl

  ingest_unabsorbed-errors :
      (s : Ingestor) (table : Table) (parsed : RawParsedPayload)
      → HasErrors s.errors (ingest_unabsorbed char_code id_code s table parsed)
  unfolding ingest_unabsorbed
  ingest_unabsorbed-errors s table parsed = go (
      evolve_native table.columns parsed.columns
        (evolving (before_alter char_code id_code s table parsed) table.columns))
    where
      go :
          (o : Option Evolved)
          → HasErrors s.errors (elim o as (λ _. Result IngestFailure Ingestor) [
            | none ↦ err alter_failed
            | some e ↦
                submit_batch
                  (after_alter char_code id_code
                    (before_alter char_code id_code s table parsed)
                    table
                    parsed
                    e)
                  (evolved_table table e)
                  parsed
          ])
      go none = tt
      go (some e) =
          subst
            (λ n. HasErrors n (
              submit_batch
                (after_alter char_code id_code (before_alter char_code id_code s table parsed) table
                  parsed e)
                (evolved_table table e) parsed))
            (before_alter-errors s table parsed)
            (submit_batch-errors
              (after_alter char_code id_code (before_alter char_code id_code s table parsed) table
                parsed e)
              (evolved_table table e) parsed)

  ingest_created-errors :
      (s : Ingestor) (parsed : RawParsedPayload) (o : Option Evolved)
      → HasErrors s.errors (ingest_created char_code id_code s parsed o)
  ingest_created-errors s parsed none = tt
  ingest_created-errors s parsed (some e) =
      submit_batch-errors _ (new_table char_code id_code e) parsed

  legacy-errors :
      (s : Ingestor) (parsed : RawParsedPayload) (o : Option Table)
      → HasErrors s.errors (legacy_ingest_native char_code id_code s parsed o)
  unfolding legacy_ingest_native
  legacy-errors s parsed (some table) = refl
  legacy-errors s parsed none =
      if_both (HasErrors s.errors) (is_empty parsed.columns) (err empty_payload) _ tt
        (ingest_created-errors s parsed (create_native parsed.columns (evolving s [])))

  ingest_columns-errors :
      (s : Ingestor) (o : Option Table) (parsed : RawParsedPayload)
      → HasErrors s.errors (ingest_columns char_code id_code s o parsed)
  ingest_columns-errors s none parsed = legacy-errors s parsed none
  ingest_columns-errors s (some table) parsed =
      if_both (HasErrors s.errors) (is_absorbed s.cache table (shape_of char_code id_code parsed))
        (submit_batch s table parsed) (ingest_unabsorbed char_code id_code s table parsed)
        (submit_batch-errors s table parsed) (ingest_unabsorbed-errors s table parsed)

  pub ingest_parsed-errors :
      (s : Ingestor) (parsed : RawParsedPayload)
      → HasErrors
          (s.errors + parsed.payload.parse_errors)
          (ingest_parsed char_code id_code s parsed)
  unfolding ingest_parsed ingest_native
  ingest_parsed-errors s parsed =
      let counted : Ingestor = record s { errors = s.errors + parsed.payload.parse_errors } in
      if_both (HasErrors counted.errors) (is_empty parsed.columns)
        (legacy_ingest_native char_code id_code counted parsed counted.table)
        (ingest_columns char_code id_code counted counted.table parsed)
        (legacy-errors counted parsed counted.table)
        (ingest_columns-errors counted counted.table parsed)

  -- The errors that a batch adds: its own once where there are a table and columns, and twice where
  -- IngestParsedConcurrent falls back on IngestParsed, which counts them again.
  abbrev pub counted_errors : Option Table → RawParsedPayload → ℕ
  counted_errors none parsed = parsed.payload.parse_errors + parsed.payload.parse_errors
  counted_errors (some table) parsed =
      if is_empty parsed.columns
      then parsed.payload.parse_errors + parsed.payload.parse_errors
      else parsed.payload.parse_errors

  errors_assoc :
      (a b : ℕ) (r : Result IngestFailure Ingestor)
      → HasErrors (a + b + b) r
      → HasErrors (a + (b + b)) r
  errors_assoc a b r h = subst (λ n. HasErrors n r) (omega arith) h

  ingest_on-errors :
      (s : Ingestor) (parsed : RawParsedPayload) (o : Option Table)
      → s.table ≡ o
      → HasErrors
          (s.errors + counted_errors o parsed)
          (ingest_on char_code id_code (count_errors char_code id_code s parsed) o parsed)
  unfolding ingest_parsed_concurrent
  ingest_on-errors s parsed none e =
      errors_assoc s.errors parsed.payload.parse_errors _
        (ingest_parsed-errors (count_errors char_code id_code s parsed) parsed)
  ingest_on-errors s parsed (some table) e = elim (Bool-cases (is_empty parsed.columns)) [
    | inl b ↦ rw b (
        errors_assoc s.errors parsed.payload.parse_errors _
          (ingest_parsed-errors (count_errors char_code id_code s parsed) parsed))
    | inr b ↦
        subst
          (λ n. HasErrors (s.errors + n) (
            ingest_on char_code id_code (count_errors char_code id_code s parsed) (some table)
              parsed))
          (rw b refl)
          (subst (HasErrors (s.errors + parsed.payload.parse_errors))
            (sym (ingest_parsed_concurrent-agrees char_code id_code s table parsed e b)
              ∙ ap
                  (λ o.
                    ingest_on char_code id_code (count_errors char_code id_code s parsed) o parsed)
                  e)
            (ingest_parsed-errors s parsed))
  ]

  -- The errors that IngestParsedConcurrent counts, on every branch that does not throw: those of the
  -- batch once when the table exists and the batch has columns, but twice for the batch that creates
  -- the table and for a batch without columns.
  pub ingest_parsed_concurrent-errors :
      (s : Ingestor) (parsed : RawParsedPayload)
      → HasErrors
          (s.errors + counted_errors s.table parsed)
          (ingest_parsed_concurrent char_code id_code s parsed)
  unfolding ingest_parsed_concurrent
  ingest_parsed_concurrent-errors s parsed = ingest_on-errors s parsed s.table refl
