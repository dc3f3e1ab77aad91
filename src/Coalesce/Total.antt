-- ===== src/Coalesce/Total.antt =====
-- From the pieces of the file to the rows that are counted: the splitting of the reader, a run of the
-- pipeline and the loop of a consumer, put together.
use rawduck.Prelude.{
  ℕ, ◌+◌, ◌<◌, ◌≡◌, refl, sym, ap, ◌∙◌, length, true, false, none, ◌++◌, if◌then◌else◌, List, [],
  ◌∷◌, Str, sum_by, Bool-cases, Result-cases, inl, inr, Result, ok, and_then_ok, All, arith,
  length-append,
}
use rawduck.SqlType.{TypeId}
use rawduck.Duck.{Duck}
use rawduck.Flatten.{is_empty}
use rawduck.Payload.{RawParseOptions}
use rawduck.Payload.Records.{are_records, ReadsLines, process-records}
use rawduck.Commit.{merge_parsed_payloads}
use rawduck.Ingest.{IngestFailure, Ingestor, ingest_parsed, finish}
use rawduck.Ingest.Total.{ingest_parsed-total}
use rawduck.FileInput.{read_file}
use rawduck.FileInput.Whole.{concat}
use rawduck.FileInput.Content.{content, contents, read_file-content}
use rawduck.Pipeline.{Item, System, create}
use rawduck.Pipeline.Runs.{Reach}
use rawduck.Pipeline.Invariant.{IsClean, is_running, item_weight}
use rawduck.Pipeline.Delivery.{IsParsed, consumed-batches}
use rawduck.Coalesce.{coalesced, is_coalesced, consume}
use rawduck.Coalesce.Batches.{rows_of, ingest_batches, batches, batches_from, consume-batches}

abbrev pub HasColumns : Item → Type 0
HasColumns item = is_empty item.parsed.columns ≡ false

-- Both ingestors look at the parsed payload only, on a native catalog.
module _ (char_code : ℕ → ℕ) (id_code : TypeId → ℕ) where
  abbrev pub ingest_item : Ingestor → Item → Result IngestFailure Ingestor
  ingest_item s item = ingest_parsed char_code id_code s item.parsed

  ok_eq : (s t : Ingestor) → Path (Result IngestFailure Ingestor) (ok s) (ok t) → s ≡ t
  ok_eq s t e = cc e

  ingest_batches-total :
      (items : List Item) (s t : Ingestor)
      → All HasColumns items
      → ingest_batches ingest_item s items ≡ ok t
      → (finish t).rows ≡ (finish s).rows + length (rows_of items)
  ingest_batches-total [] s t h e = omega (arith, ap (λ u. (finish u).rows) (ok_eq s t e))
  ingest_batches-total (item ∷ items) s t h e = elim (Result-cases (ingest_item s item)) [
    | inl (f, r) ↦
        cc (sym (ap (λ r. and_then_ok r (λ t. ingest_batches ingest_item t items)) r) ∙ e)
    | inr (u, r) ↦ omega (
      arith,
      ingest_parsed-total char_code id_code s u item.parsed h.0 r,
      ingest_batches-total items u t h.1
          (sym (ap (λ r. and_then_ok r (λ t. ingest_batches ingest_item t items)) r) ∙ e),
      length-append item.parsed.payload.rows (rows_of items),
    )
  ]

  batches_from-HasColumns :
      (pool_min_rows : ℕ) (pending : Item) (items : List Item)
      → HasColumns pending
      → All HasColumns items
      → All HasColumns (batches_from char_code id_code pool_min_rows pending items)
  unfolding batches_from merge_parsed_payloads
  batches_from-HasColumns n pending [] p h = (p, tt)
  batches_from-HasColumns n pending (item ∷ items) p h =
      elim (Bool-cases (is_coalesced char_code id_code n pending item)) [
        | inl e ↦ rw e (batches_from-HasColumns n (coalesced pending item) items p h.1)
        | inr e ↦ rw e (p, batches_from-HasColumns n item items h.0 h.1)
      ]

  batches-HasColumns :
      (pool_min_rows : ℕ) (items : List Item)
      → All HasColumns items
      → All HasColumns (batches char_code id_code pool_min_rows items)
  batches-HasColumns n [] h = tt
  batches-HasColumns n (item ∷ items) h = batches_from-HasColumns n item items h.0 h.1

  consume-total :
      (pool_min_rows : ℕ) (s t : Ingestor) (items : List Item)
      → All HasColumns items
      → consume char_code id_code pool_min_rows ingest_item s none items ≡ ok t
      → (finish t).rows ≡ (finish s).rows + length (rows_of items)
  consume-total n s t items h e =
      let (same, rows, _) = consume-batches char_code id_code n ingest_item s items in
      ingest_batches-total (batches char_code id_code n items) s t (batches-HasColumns n items h)
        (sym same ∙ e)
      ∙ ap (λ rs. (finish s).rows + length rs) rows

  module _ (duck : Duck) (options : RawParseOptions) where
    -- A batch that holds something else than records.
    abbrev is_stray : Str → ℕ
    is_stray batch = if are_records duck (content batch) then 0 else 1

    abbrev line_count : Str → ℕ
    line_count batch = length (content batch)

    are_records-append :
        (xs ys : List Str)
        → are_records duck (xs ++ ys) ≡ true
        → (are_records duck xs ≡ true) × (are_records duck ys ≡ true)
    are_records-append [] ys h = (refl, h)
    are_records-append (x ∷ xs) ys h =
        let rest = are_records-append xs ys (ground (arith, h)) in
        (ground (arith, h, rest.0), rest.1)

    no_stray : (bs : List Str) → are_records duck (contents bs) ≡ true → sum_by is_stray bs ≡ 0
    no_stray [] h = refl
    no_stray (b ∷ bs) h =
        let parts = are_records-append (content b) (contents bs) h in
        let first : is_stray b ≡ 0 = rw (parts.0) refl in omega (arith, first, no_stray bs parts.1)

    line_counts : (bs : List Str) → sum_by line_count bs ≡ length (contents bs)
    line_counts [] = refl
    line_counts (b ∷ bs) = omega (arith, line_counts bs, length-append (content b) (contents bs))

    stray_free : (b : Str) → is_stray b ≡ 0 → are_records duck (content b) ≡ true
    stray_free b h = ground (arith, h)

    rows_of-records :
        ReadsLines duck
        → is_empty options.explode_path ≡ true
        → (items : List Item) → All (IsParsed duck options) items
        → sum_by (item_weight is_stray) items ≡ 0
        → length (rows_of items) ≡ sum_by (item_weight line_count) items
    rows_of-records reads plain [] h z = refl
    rows_of-records reads plain (item ∷ items) h z = omega (
      arith,
      length-append item.parsed.payload.rows (rows_of items),
      process-records duck item.payload options item.parsed reads plain
          (stray_free item.payload (omega (arith, z))) h.0,
      rows_of-records reads plain items h.1 (omega (arith, z)),
    )

    -- raw_ingest_file with one consumer, on a native catalog and without an explode path: when its
    -- pipeline has ended without an exception, each item has columns and the consumer's loop
    -- succeeds, Finish has counted one row for each line of the file that is not white space, on top
    -- of the rows before, if each such line is a JSON document that is not an array. The count
    -- depends neither on the pieces that were read and the batch size, nor on the number of parsers,
    -- the order in which the threads ran and the items that were coalesced.
    pub raw_ingest_file-rows :
        (pool_min_rows batch_size capacity parser_count n : ℕ) (pieces : List Str) (run : System)
        (s t : Ingestor)
        → 0 < batch_size
        → 0 < parser_count
        → ReadsLines duck
        → is_empty options.explode_path ≡ true
        → are_records duck (content (concat pieces)) ≡ true
        → Reach duck options
            (create capacity (read_file batch_size pieces false) false parser_count 1)
            n
            run
        → IsClean run.pipe
        → sum_by is_running run.consumers < length run.consumers
        → All HasColumns run.consumed
        → consume char_code id_code pool_min_rows ingest_item s none run.consumed ≡ ok t
        → (finish t).rows ≡ (finish s).rows + length (content (concat pieces))
    raw_ingest_file-rows m batch_size capacity parser_count n pieces run s t some_lines many reads
          plain records r clean stopped h e =
        let batches = read_file batch_size pieces false in
        let whole = read_file-content batch_size pieces some_lines in
        let (strays, parsed) =
          consumed-batches duck options is_stray capacity batches false parser_count 1 n run many r
            clean stopped in
        let (lines, _) =
          consumed-batches duck options line_count capacity batches false parser_count 1 n run many
            r clean stopped in
        omega (
          arith,
          consume-total m s t run.consumed h e,
          rows_of-records reads plain run.consumed parsed
              (strays ∙ no_stray batches (ap (are_records duck) whole ∙ records)),
          lines,
          line_counts batches,
          ap length whole,
        )
