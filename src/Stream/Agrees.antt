-- ===== src/Stream/Agrees.antt =====
-- The two halves of the stream ingestor do what IngestNative does.
use rawduck.Prelude.{
  ℕ, ◌≡◌, refl, sym, ap, ◌∙◌, inl, inr, Bool, true, false, Option, none, some, Bool-cases, List,
  Result, err, ok, and_then_ok, if◌then◌else◌,
}
use rawduck.SqlType.{TypeId}
use rawduck.Flatten.{is_empty}
use rawduck.Catalog.{evolve_native, Evolved}
use rawduck.Payload.{RawParsedPayload}
use rawduck.Ingest.{
  IngestFailure, alter_failed, Table, Ingestor, is_absorbed, pool_eligible, pool_or_new,
  append_native, hand_over, submit_batch, before_alter, evolving, after_alter, evolved_table,
  shape_of, ingest_parsed, ingest_native, ingest_columns, ingest_unabsorbed,
}
use rawduck.Stream.{
  prepare_pool, has_pool, prepare_columns, prepare_for_append, append_prepared, submit_to_pool,
  submit_prepared_batch, prepare_and_submit, count_errors, ingest_on, ingest_parsed_concurrent,
}

module _ (char_code : ℕ → ℕ) (id_code : TypeId → ℕ) where
  -- With rows in the batch.
  pool_submitted :
      (s : Ingestor) (table : Table) (parsed : RawParsedPayload)
      (o : Option (List RawParsedPayload)) (eligible : Bool)
      → s.table ≡ some table
      → s.pool ≡ o
      → (if has_pool (pool_or_new o eligible)
          then submit_to_pool char_code id_code
              (record s { pool = pool_or_new o eligible })
              (pool_or_new o eligible)
              parsed
          else append_prepared char_code id_code
              (record s { pool = pool_or_new o eligible })
              s.table
              parsed)
        ≡ hand_over s table parsed (pool_or_new o eligible)
  pool_submitted s table parsed (some b) eligible e q = refl
  pool_submitted s table parsed none true e q = refl
  pool_submitted s table parsed none false e q =
      ap (λ t. append_prepared char_code id_code (record s { pool = none }) t parsed) e
      ∙ ap (λ p. append_native (record s { pool = p }) table parsed) (sym q)

  pool_prepared :
      (s : Ingestor) (table : Table) (parsed : RawParsedPayload)
      → s.table ≡ some table
      → submit_prepared_batch char_code id_code
          (prepare_pool s table parsed).0
          parsed
          (prepare_pool s table parsed).1
        ≡ submit_batch s table parsed
  unfolding submit_prepared_batch submit_batch
  pool_prepared s table parsed e = elim (Bool-cases (is_empty parsed.payload.rows)) [
    | inl b ↦ rw b refl
    | inr b ↦ rw b (pool_submitted s table parsed s.pool (pool_eligible s table parsed) e refl)
  ]

  unabsorbed_prepared :
      (s : Ingestor) (table : Table) (parsed : RawParsedPayload) (o : Option Evolved)
      → and_then_ok
          (elim o as (λ _. Result IngestFailure (Ingestor × Bool)) [
            | none ↦ err alter_failed
            | some e ↦ ok (
                prepare_pool
                  (after_alter char_code id_code
                    (before_alter char_code id_code s table parsed)
                    table
                    parsed
                    e)
                  (evolved_table table e)
                  parsed)
          ])
          (λ r. submit_prepared_batch char_code id_code r.0 parsed r.1)
        ≡ elim o as (λ _. Result IngestFailure Ingestor) [
          | none ↦ err alter_failed
          | some e ↦
              submit_batch
                (after_alter char_code id_code
                  (before_alter char_code id_code s table parsed)
                  table
                  parsed
                  e)
                (evolved_table table e)
                parsed
        ]
  unabsorbed_prepared s table parsed none = refl
  unabsorbed_prepared s table parsed (some e) =
      pool_prepared
        (after_alter char_code id_code (before_alter char_code id_code s table parsed) table parsed
          e)
        (evolved_table table e) parsed refl

  columns_prepared :
      (s : Ingestor) (table : Table) (parsed : RawParsedPayload)
      → s.table ≡ some table
      → and_then_ok
          (prepare_columns char_code id_code s (some table) parsed)
          (λ r. submit_prepared_batch char_code id_code r.0 parsed r.1)
        ≡ ingest_columns char_code id_code s (some table) parsed
  unfolding ingest_unabsorbed
  columns_prepared s table parsed e =
      elim (Bool-cases (is_absorbed s.cache table (shape_of char_code id_code parsed))) [
        | inl a ↦ rw a (pool_prepared s table parsed e)
        | inr a ↦ rw a (
            unabsorbed_prepared s table parsed (
              evolve_native table.columns parsed.columns
                (evolving (before_alter char_code id_code s table parsed) table.columns)))
      ]

  prepare_and_submit-agrees :
      (s : Ingestor) (table : Table) (parsed : RawParsedPayload)
      → s.table ≡ some table
      → is_empty parsed.columns ≡ false
      → prepare_and_submit char_code id_code s parsed ≡ ingest_native char_code id_code s parsed
  unfolding prepare_for_append ingest_native
  prepare_and_submit-agrees s table parsed e c = rw c (
      ap
        (λ o.
          and_then_ok (prepare_columns char_code id_code s o parsed)
            (λ r. submit_prepared_batch char_code id_code r.0 parsed r.1))
        e
      ∙ columns_prepared s table parsed e
      ∙ ap (λ o. ingest_columns char_code id_code s o parsed) (sym e))

  -- On a table that exists, IngestParsedConcurrent does to a batch with columns what IngestParsed
  -- does: the same table, cache, pool and counters, or the same exception.
  pub ingest_parsed_concurrent-agrees :
      (s : Ingestor) (table : Table) (parsed : RawParsedPayload)
      → s.table ≡ some table
      → is_empty parsed.columns ≡ false
      → ingest_parsed_concurrent char_code id_code s parsed
        ≡ ingest_parsed char_code id_code s parsed
  unfolding ingest_parsed_concurrent ingest_parsed
  ingest_parsed_concurrent-agrees s table parsed e c =
      let counted = count_errors char_code id_code s parsed in
      ap (λ o. ingest_on char_code id_code counted o parsed) e
      ∙ rw c (prepare_and_submit-agrees counted table parsed e c)
