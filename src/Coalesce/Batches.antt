-- ===== src/Coalesce/Batches.antt =====
-- The loop ingests the batches of a reference definition, which have the rows of the items.
use rawduck.Prelude.{
  ℕ, ◌+◌, ◌<◌, ◌≡◌, ◌⊎◌, refl, ap, ◌∙◌, inl, inr, length, true, Bool-cases, Option, none, some,
  List, [], ◌∷◌, ◌++◌, if◌then◌else◌, Result, err, ok, and_then_ok, All, All-map, arith,
  length-append,
}
use mathlib.Core.List.{append_assoc, Mem, mem-cons_self, mem-cons_of_mem}
use rawduck.Json.{Value}
use rawduck.SqlType.{TypeId}
use rawduck.Commit.{merge_parsed_payloads}
use rawduck.Pipeline.{Item}
use rawduck.Coalesce.{row_count, coalesced, is_coalesced, coalesce_and_ingest, consume}

abbrev pub ingest_batches {ℓ κ} :
    {E : Type ℓ} {S : Type κ} → (S → Item → Result E S) → S → List Item → Result E S
ingest_batches ingest s [] = ok s
ingest_batches ingest s (item ∷ items) =
    and_then_ok (ingest s item) (λ t. ingest_batches ingest t items)

abbrev pub rows_of : List Item → List Value
rows_of [] = []
rows_of (item ∷ items) = item.parsed.payload.rows ++ rows_of items

-- The item as it was popped, or fewer rows than the pool takes.
abbrev pub IsOneOrSmall : ℕ → List Item → Item → Type 0
IsOneOrSmall pool_min_rows items b = Mem b items ⊎ (row_count b < pool_min_rows)

All-Mem : (items : List Item) → All (λ i. Mem i items) items
All-Mem [] = tt
All-Mem (item ∷ items) = (
  mem-cons_self,
  All-map (λ i. Mem i items) (λ i. Mem i (item ∷ items)) (λ i m. mem-cons_of_mem item m) items
      (All-Mem items),
)

coalesced_rows :
    (pending item : Item)
    → (coalesced pending item).parsed.payload.rows
      ≡ pending.parsed.payload.rows ++ item.parsed.payload.rows
unfolding merge_parsed_payloads
coalesced_rows pending item = refl

coalesced_columns :
    (pending item : Item) → (coalesced pending item).parsed.columns ≡ pending.parsed.columns
unfolding merge_parsed_payloads
coalesced_columns pending item = refl

module _ (char_code : ℕ → ℕ) (id_code : TypeId → ℕ) (pool_min_rows : ℕ) where
  -- The batches of a first item and those that follow it.
  unfoldable pub batches_from : Item → List Item → List Item
  batches_from pending [] = pending ∷ []
  batches_from pending (item ∷ items) =
      let merged = batches_from (coalesced pending item) items in
      let rest = batches_from item items in
      if is_coalesced char_code id_code pool_min_rows pending item then merged else pending ∷ rest

  abbrev pub batches : List Item → List Item
  batches [] = []
  batches (item ∷ items) = batches_from item items

  batches_from-rows :
      (pending : Item) (items : List Item)
      → rows_of (batches_from pending items) ≡ pending.parsed.payload.rows ++ rows_of items
  unfolding batches_from
  batches_from-rows pending [] = refl
  batches_from-rows pending (item ∷ items) =
      elim (Bool-cases (is_coalesced char_code id_code pool_min_rows pending item)) [
        | inl e ↦ rw e (
            batches_from-rows (coalesced pending item) items
            ∙ ap (λ rs. rs ++ rows_of items) (coalesced_rows pending item)
            ∙ append_assoc pending.parsed.payload.rows item.parsed.payload.rows (rows_of items))
        | inr e ↦ rw e (ap (λ rs. pending.parsed.payload.rows ++ rs) (batches_from-rows item items))
      ]

  coalesced_small :
      (pending item : Item)
      → is_coalesced char_code id_code pool_min_rows pending item ≡ true
      → row_count (coalesced pending item) < pool_min_rows
  coalesced_small pending item e =
      let small : row_count pending + row_count item < pool_min_rows = ground (arith, e) in
      omega (
        arith,
        small,
        ap length (coalesced_rows pending item),
        length-append pending.parsed.payload.rows item.parsed.payload.rows,
      )

  batches_from-IsOneOrSmall :
      (all : List Item) (pending : Item) (items : List Item)
      → IsOneOrSmall pool_min_rows all pending
      → All (λ i. Mem i all) items
      → All (IsOneOrSmall pool_min_rows all) (batches_from pending items)
  unfolding batches_from
  batches_from-IsOneOrSmall all pending [] p h = (p, tt)
  batches_from-IsOneOrSmall all pending (item ∷ items) p h =
      elim (Bool-cases (is_coalesced char_code id_code pool_min_rows pending item)) [
        | inl e ↦ rw e (
            batches_from-IsOneOrSmall all (coalesced pending item) items
              (inr (coalesced_small pending item e)) h.1)
        | inr e ↦ rw e (p, batches_from-IsOneOrSmall all item items (inl h.0) h.1)
      ]

  module _ {ℓ κ} {E : Type ℓ} {S : Type κ} (ingest : S → Item → Result E S) where
    and_then_ok-ok : (r : Result E S) → r ≡ and_then_ok r (λ t. ok t)
    and_then_ok-ok (err e) = refl
    and_then_ok-ok (ok t) = refl

    ingested_next :
        (item : Item) (items : List Item) (r : Result E S)
        → ((t : S)
            → consume char_code id_code pool_min_rows ingest t (some item) items
              ≡ ingest_batches ingest t (batches_from item items))
        → and_then_ok
            (and_then_ok {B = S × Option Item} r (λ t. ok (t, some item)))
            (λ r. consume char_code id_code pool_min_rows ingest r.0 r.1 items)
          ≡ and_then_ok r (λ t. ingest_batches ingest t (batches_from item items))
    ingested_next item items (err e) h = refl
    ingested_next item items (ok t) h = h t

    consume_from :
        (items : List Item) (pending : Item) (s : S)
        → consume char_code id_code pool_min_rows ingest s (some pending) items
          ≡ ingest_batches ingest s (batches_from pending items)
    unfolding consume coalesce_and_ingest batches_from
    consume_from [] pending s = and_then_ok-ok (ingest s pending)
    consume_from (item ∷ items) pending s =
        elim (Bool-cases (is_coalesced char_code id_code pool_min_rows pending item)) [
          | inl e ↦ rw e (consume_from items (coalesced pending item) s)
          | inr e ↦ rw e (ingested_next item items (ingest s pending) (consume_from items item))
        ]

    consume_batches :
        (items : List Item) (s : S)
        → consume char_code id_code pool_min_rows ingest s none items
          ≡ ingest_batches ingest s (batches items)
    unfolding consume coalesce_and_ingest
    consume_batches [] s = refl
    consume_batches (item ∷ items) s = consume_from items item s

    batches-rows : (items : List Item) → rows_of (batches items) ≡ rows_of items
    batches-rows [] = refl
    batches-rows (item ∷ items) = batches_from-rows item items

    batches-IsOneOrSmall :
        (items : List Item) → All (IsOneOrSmall pool_min_rows items) (batches items)
    batches-IsOneOrSmall [] = tt
    batches-IsOneOrSmall (item ∷ items) =
        batches_from-IsOneOrSmall (item ∷ items) item items (inl mem-cons_self)
          (All-Mem (item ∷ items)).1

    -- For any ingestor, the consumer's loop ingests a list of batches in turn, up to the first that
    -- fails. They have the rows of the popped items, all of them and in their order, and each batch
    -- is one of the items, untouched, or has fewer rows than the pool takes.
    pub consume-batches :
        (s : S) (items : List Item)
        → (consume char_code id_code pool_min_rows ingest s none items
            ≡ ingest_batches ingest s (batches items))
          × (rows_of (batches items) ≡ rows_of items)
          × All (IsOneOrSmall pool_min_rows items) (batches items)
    consume-batches s items =
        (consume_batches items s, batches-rows items, batches-IsOneOrSmall items)
