-- ===== src/Coalesce.antt =====
-- The consumer's side of raw_ingest_file (src/raw_ingest.cpp): coalesce_and_ingest keeps one item
-- back and merges the items of the same shape into it while they are few rows. `ingest` is the
-- ingest_fn of the loop, the IngestParsed of either ingestor.
pub mod Batches
pub mod Total
use rawduck.Prelude.{
  ℕ, ◌+◌, length, ltb, ◌==◌, Bool, ◌&&◌, Option, none, some, List, [], ◌∷◌, if◌then◌else◌, Result,
  ok, and_then_ok,
}
use rawduck.SqlType.{TypeId}
use rawduck.Shape.{hash_payload_shape}
use rawduck.Commit.{merge_parsed_payloads}
use rawduck.Pipeline.{Item}

abbrev pub row_count : Item → ℕ
row_count item = length item.parsed.payload.rows

-- MergeParsedPayloads, where the text of the item is dropped.
abbrev pub coalesced : Item → Item → Item
coalesced pending item = record pending {
  parsed = merge_parsed_payloads pending.parsed item.parsed;
}

module _ (char_code : ℕ → ℕ) (id_code : TypeId → ℕ) (pool_min_rows : ℕ) where
  abbrev pub same_shape : Item → Item → Bool
  same_shape pending item =
      hash_payload_shape char_code id_code pending.parsed.columns
      == hash_payload_shape char_code id_code item.parsed.columns

  -- The condition under which the item is merged into the pending one.
  abbrev pub is_coalesced : Item → Item → Bool
  is_coalesced pending item =
      same_shape pending item && ltb (row_count pending + row_count item) pool_min_rows

  module _ {ℓ κ} {E : Type ℓ} {S : Type κ} (ingest : S → Item → Result E S) where
    -- The state of the ingestor, and the pending item.
    unfoldable pub coalesce_and_ingest : S → Option Item → Item → Result E (S × Option Item)
    coalesce_and_ingest s none item = ok (s, some item)
    coalesce_and_ingest s (some pending) item =
        if is_coalesced pending item
        then ok (s, some (coalesced pending item))
        else and_then_ok (ingest s pending) (λ t. ok (t, some item))

    -- What follows the loop.
    abbrev pub ingest_pending : S → Option Item → Result E S
    ingest_pending s none = ok s
    ingest_pending s (some pending) = ingest s pending

    -- The consumer's loop, over the items that it pops.
    unfoldable pub consume : S → Option Item → List Item → Result E S
    consume s pending [] = ingest_pending s pending
    consume s pending (item ∷ items) =
        and_then_ok (coalesce_and_ingest s pending item) (λ r. consume r.0 r.1 items)
