-- ===== src/Ingest/Cache.antt =====
-- What the schema-shape cache remembers, and that repeating a payload is a cache hit with nothing to
-- alter.
use rawduck.Prelude.{
  ℕ, ◌+◌, ◌≡◌, refl, true, false, ==_iff, Option, none, some, Option-cases, inl, inr, List, [],
  length, Result, err, ok, if_both, if◌then◌else◌,
}
use rawduck.SqlType.{TypeId}
use rawduck.Flatten.{RawColumn, is_empty}
use rawduck.Flatten.Names.{HasDistinctNames}
use rawduck.Catalog.{compute_delta, evolve_native}
use rawduck.Catalog.Absorb.{evolve_native_absorbs}
use rawduck.Payload.{RawParsedPayload}
use rawduck.Ingest.{
  Ingestor, Table, IngestFailure, CacheEntry, is_absorbed, absorb, submit_batch, before_alter,
  after_alter, hand_over, ensure_pool, evolved_table, ingest_unabsorbed, shape_of,
  generated_columns, append_failed, evolving,
}

-- The table knows the payload's shape and needs nothing more for it.
abbrev pub Absorbed : Option Table → Option CacheEntry → ℕ → List RawColumn → Type 0
Absorbed o cache shape columns =
    (table : Table) × (o ≡ some table)
    × (is_absorbed cache table shape ≡ true)
    × (compute_delta table.columns columns ≡ record { adds = []; widens = false })

-- A failure, or a result with such a table.
abbrev pub IsAbsorbedBy : ℕ → List RawColumn → Result IngestFailure Ingestor → Type 0
IsAbsorbedBy shape columns (err e) = Unit
IsAbsorbedBy shape columns (ok s) = Absorbed s.table s.cache shape columns

is_absorbed-absorb :
    (cache : Option CacheEntry) (table : Table) (shape : ℕ)
    → is_absorbed (some (absorb cache table.storage shape)) table shape ≡ true
is_absorbed-absorb cache table shape =
    rw ((==_iff table.storage table.storage).1 refl, (==_iff shape shape).1 refl) refl

module _ (shape : ℕ) (columns : List RawColumn) where
  hand_over-Absorbed :
      (s : Ingestor) (table : Table) (parsed : RawParsedPayload)
      (o : Option (List RawParsedPayload))
      → Absorbed s.table s.cache shape columns
      → IsAbsorbedBy shape columns (hand_over s table parsed o)
  hand_over-Absorbed s table parsed (some b) h = h
  hand_over-Absorbed s table parsed none h =
      let appended = record s { rows = s.rows + length parsed.payload.rows } in
      if_both (IsAbsorbedBy shape columns) table.has_generated (err generated_columns)
        (if s.appends s.rows parsed then ok appended else err append_failed) tt
        (if_both (IsAbsorbedBy shape columns) (s.appends s.rows parsed) (ok appended)
          (err append_failed) h tt)

  submit_batch-Absorbed :
      (s : Ingestor) (table : Table) (parsed : RawParsedPayload)
      → Absorbed s.table s.cache shape columns
      → IsAbsorbedBy shape columns (submit_batch s table parsed)
  unfolding submit_batch
  submit_batch-Absorbed s table parsed h =
      if_both (IsAbsorbedBy shape columns) (is_empty parsed.payload.rows) (ok s)
        (hand_over s table parsed (ensure_pool s table parsed)) h
        (hand_over-Absorbed s table parsed (ensure_pool s table parsed) h)

module _ (char_code : ℕ → ℕ) (id_code : TypeId → ℕ) where
  -- When the slow path of IngestNative on distinct column names succeeds, the cache answers for the
  -- payload's shape with the table's new storage, and the table it answers for misses no column of the
  -- payload and has no type that is too narrow. It may throw instead, in an ALTER or when the batch is
  -- appended.
  pub ingest_unabsorbed-Absorbed :
      (s : Ingestor) (table : Table) (parsed : RawParsedPayload)
      → HasDistinctNames parsed.columns
      → IsAbsorbedBy
          (shape_of char_code id_code parsed)
          parsed.columns
          (ingest_unabsorbed char_code id_code s table parsed)
  unfolding ingest_unabsorbed
  ingest_unabsorbed-Absorbed s table parsed d =
      let before = before_alter char_code id_code s table parsed in
      elim (Option-cases
        (evolve_native table.columns parsed.columns (evolving before table.columns))) [
          | inl refused ↦ rw (refused, ingest_unabsorbed) tt
          | inr (e, ran) ↦
              rw (ran, ingest_unabsorbed)
                (submit_batch-Absorbed (shape_of char_code id_code parsed) parsed.columns
                  (after_alter char_code id_code before table parsed e) (evolved_table table e)
                  parsed
                  (
                    evolved_table table e,
                    refl,
                    is_absorbed-absorb before.cache (evolved_table table e)
                        (shape_of char_code id_code parsed),
                    (evolve_native_absorbs parsed.columns (evolving before table.columns) e d
                        ran).0,
                  ))
        ]
