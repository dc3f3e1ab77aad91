-- ===== src/Ingest/Total.antt =====
-- No row is lost between IngestParsed and Finish.
use rawduck.Prelude.{
  ℕ, ◌+◌, ◌≡◌, refl, sym, subst, ◌∙◌, inl, inr, Bool, true, false, Option, none, some, Option-cases,
  Bool-cases, List, [], ◌∷◌, length, Result, err, ok, if_both, if_false, if◌then◌else◌, arith,
}
use rawduck.Json.{Value}
use rawduck.SqlType.{TypeId}
use rawduck.Flatten.{is_empty}
use rawduck.Catalog.{Evolved, compute_delta, evolve_native, create_native}
use rawduck.Payload.{RawParsedPayload}
use rawduck.Pool.{batch_rows}
use rawduck.Pool.Conserve.{batch_rows-append}
use rawduck.Ingest.{
  Ingestor, Table, IngestFailure, drain_pool, pending_rows, pool_eligible, pool_or_new, ensure_pool,
  hand_over, submit_batch, before_alter, evolving, after_alter, evolved_table, ingest_unabsorbed,
  legacy_ingest_native, ingest_created, ingest_columns, empty_payload, ingest_native, ingest_parsed,
  finish, is_absorbed, shape_of, new_table, generated_columns, append_failed,
}

-- The rows that are appended, and those that the pool will append.
abbrev pub total_rows : Ingestor → ℕ
total_rows s = s.rows + pending_rows s.pool

-- A result that failed, or has this total.
abbrev pub HasTotal : ℕ → Result IngestFailure Ingestor → Type 0
HasTotal n (err e) = Unit
HasTotal n (ok s) = total_rows s ≡ n

hand_over-some :
    (s : Ingestor) (table : Table) (parsed : RawParsedPayload) (b : List RawParsedPayload)
    → batch_rows b ≡ pending_rows s.pool
    → HasTotal (total_rows s + length parsed.payload.rows) (hand_over s table parsed (some b))
hand_over-some s table parsed b h = omega (arith, h, batch_rows-append b (parsed ∷ []))

hand_over-none :
    (s : Ingestor) (table : Table) (parsed : RawParsedPayload)
    → HasTotal (total_rows s + length parsed.payload.rows) (hand_over s table parsed none)
hand_over-none s table parsed =
    let total = HasTotal (total_rows s + length parsed.payload.rows) in
    let appended = record s { rows = s.rows + length parsed.payload.rows } in
    if_both total table.has_generated (err generated_columns)
      (if s.appends s.rows parsed then ok appended else err append_failed) tt
      (if_both total (s.appends s.rows parsed) (ok appended) (err append_failed) (omega arith) tt)

hand_over-pool :
    (s : Ingestor) (table : Table) (parsed : RawParsedPayload) (o : Option (List RawParsedPayload))
    (eligible : Bool)
    → pending_rows o ≡ pending_rows s.pool
    → HasTotal
        (total_rows s + length parsed.payload.rows)
        (hand_over s table parsed (pool_or_new o eligible))
hand_over-pool s table parsed (some b) eligible h = hand_over-some s table parsed b h
hand_over-pool s table parsed none true h = hand_over-some s table parsed [] h
hand_over-pool s table parsed none false h = hand_over-none s table parsed

length-is_empty : (rows : List Value) → is_empty rows ≡ true → length rows ≡ 0
length-is_empty [] h = refl
length-is_empty (row ∷ rows) h = ground arith

submit_batch-total :
    (s : Ingestor) (table : Table) (parsed : RawParsedPayload)
    → HasTotal (total_rows s + length parsed.payload.rows) (submit_batch s table parsed)
unfolding submit_batch
submit_batch-total s table parsed = elim (Bool-cases (is_empty parsed.payload.rows)) [
  | inl e ↦
      subst
        (λ b.
          HasTotal (total_rows s + length parsed.payload.rows)
            (if b then ok s else hand_over s table parsed (ensure_pool s table parsed)))
        (sym e) (omega (arith, length-is_empty parsed.payload.rows e))
  | inr e ↦
      subst
        (λ b.
          HasTotal (total_rows s + length parsed.payload.rows)
            (if b then ok s else hand_over s table parsed (ensure_pool s table parsed)))
        (sym e) (hand_over-pool s table parsed s.pool (pool_eligible s table parsed) refl)
]

module _ (char_code : ℕ → ℕ) (id_code : TypeId → ℕ) where
  before_alter-total :
      (s : Ingestor) (table : Table) (parsed : RawParsedPayload)
      → total_rows (before_alter char_code id_code s table parsed) ≡ total_rows s
  before_alter-total s table parsed =
      if_both (λ s'. total_rows s' ≡ total_rows s)
        (compute_delta table.columns parsed.columns).widens (drain_pool s) s (omega arith) refl

  ingest_unabsorbed-total :
      (s : Ingestor) (table : Table) (parsed : RawParsedPayload)
      → HasTotal
          (total_rows s + length parsed.payload.rows)
          (ingest_unabsorbed char_code id_code s table parsed)
  unfolding ingest_unabsorbed
  ingest_unabsorbed-total s table parsed =
      elim (Option-cases (
        evolve_native table.columns parsed.columns
          (evolving (before_alter char_code id_code s table parsed) table.columns))) [
            | inl e ↦ rw (e, ingest_unabsorbed) tt
            | inr (evolved, e) ↦
                rw (e, ingest_unabsorbed)
                  (subst
                    (λ n. HasTotal (n + length parsed.payload.rows) (
                      submit_batch
                        (after_alter char_code id_code
                          (before_alter char_code id_code s table parsed) table parsed evolved)
                        (evolved_table table evolved) parsed))
                    (before_alter-total s table parsed)
                    (submit_batch-total
                      (after_alter char_code id_code (before_alter char_code id_code s table parsed)
                        table parsed evolved)
                      (evolved_table table evolved) parsed))
          ]

  ingest_created-total :
      (s : Ingestor) (parsed : RawParsedPayload) (o : Option Evolved)
      → HasTotal
          (total_rows s + length parsed.payload.rows)
          (ingest_created char_code id_code s parsed o)
  ingest_created-total s parsed none = tt
  ingest_created-total s parsed (some e) =
      submit_batch-total
        (record s {
          table = some (new_table char_code id_code e);
          created = true;
          columns_added = s.columns_added + length parsed.columns;
        })
        (new_table char_code id_code e) parsed

  ingest_columns-total :
      (s : Ingestor) (o : Option Table) (parsed : RawParsedPayload)
      → HasTotal
          (total_rows s + length parsed.payload.rows)
          (ingest_columns char_code id_code s o parsed)
  unfolding legacy_ingest_native
  ingest_columns-total s none parsed =
      if_both (HasTotal (total_rows s + length parsed.payload.rows)) (is_empty parsed.columns)
        (err empty_payload)
        (ingest_created char_code id_code s parsed (create_native parsed.columns (evolving s [])))
        tt (ingest_created-total s parsed (create_native parsed.columns (evolving s [])))
  ingest_columns-total s (some table) parsed =
      if_both (HasTotal (total_rows s + length parsed.payload.rows))
        (is_absorbed s.cache table (shape_of char_code id_code parsed))
        (submit_batch s table parsed) (ingest_unabsorbed char_code id_code s table parsed)
        (submit_batch-total s table parsed) (ingest_unabsorbed-total s table parsed)

  -- IngestParsed of a batch with columns either fails or accounts for each of its rows once, in the
  -- table or in the append pool: on the cached path, on the path that alters the table (where the
  -- pool may be drained first) and when it creates the table. Finish then counts all of them.
  pub ingest_parsed-total :
      (s s' : Ingestor) (parsed : RawParsedPayload)
      → is_empty parsed.columns ≡ false
      → ingest_parsed char_code id_code s parsed ≡ ok s'
      → (finish s').rows ≡ (finish s).rows + length parsed.payload.rows
  unfolding ingest_parsed ingest_native finish
  ingest_parsed-total s s' parsed h e =
      let counted = record s { errors = s.errors + parsed.payload.parse_errors } in
      subst (HasTotal (total_rows s + length parsed.payload.rows))
        (sym (
            if_false (is_empty parsed.columns)
              (legacy_ingest_native char_code id_code counted parsed s.table)
              (ingest_columns char_code id_code counted s.table parsed) h)
          ∙ e)
        (ingest_columns-total counted s.table parsed)
