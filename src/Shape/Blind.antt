-- ===== src/Shape/Blind.antt =====
-- What the shape hash does not see.
use rawduck.Prelude.{
  ℕ, ◌≡◌, refl, ap, sym, ◌∙◌, ==_iff, Bool-cases, inl, inr, Option, none, some, if◌then◌else◌, Str,
  str_eq_refl, lower, lower_char, true, false, List, [], ◌∷◌, arith,
}
use rawduck.SqlType.{LogicalType, list, TypeId, type_id, type_eq, type_eq_iff, type_eq_refl}
use rawduck.Widen.Stable.{join_self}
use rawduck.Flatten.{RawColumn}
use rawduck.Widen.{join_column_types}
use rawduck.Catalog.{
  Columns, Evolved, widen, column_need, find_column, change_type, set_type, evolve_step,
  evolve_native,
}
use rawduck.Payload.{RawParsedPayload}
use rawduck.Ingest.{
  Ingestor, Table, CacheEntry, is_absorbed, ingest_unabsorbed, absorb, evolving, shape_of,
  submit_batch, ingest_native,
}
use rawduck.Shape.{hash_name, hash_columns, hash_payload_shape, mix, fnv_basis}

head_eq : (a b : ℕ) (s t : Str) → a ∷ s ≡ b ∷ t → a ≡ b
head_eq a b s t h = ground arith

tail_eq : (a b : ℕ) (s t : Str) → a ∷ s ≡ b ∷ t → s ≡ t
tail_eq a b s t h = ground arith

module _ (char_code : ℕ → ℕ) (id_code : TypeId → ℕ) where
  hash_name-lower :
      (shape : ℕ) (a b : Str)
      → lower a ≡ lower b
      → hash_name char_code id_code shape a ≡ hash_name char_code id_code shape b
  unfolding hash_name
  hash_name-lower shape [] [] h = refl
  hash_name-lower shape [] (d ∷ b) h = ground arith
  hash_name-lower shape (c ∷ a) [] h = ground arith
  hash_name-lower shape (c ∷ a) (d ∷ b) h =
      ap (λ x. hash_name char_code id_code (mix shape (char_code x)) a) (head_eq _ _ _ _ h)
      ∙ hash_name-lower (mix shape (char_code (lower_char d))) a b (tail_eq _ _ _ _ h)

  -- The names without regard to case and the type ids: all that the hash reads.
  abbrev SameShape : List RawColumn → List RawColumn → Type 0
  SameShape [] [] = Unit
  SameShape (c ∷ cs) (d ∷ ds) =
      (lower c.name ≡ lower d.name) × (type_id c.type ≡ type_id d.type) × SameShape cs ds
  SameShape _ _ = ⊥

  hash_columns_same :
      (shape : ℕ) (cs ds : List RawColumn)
      → SameShape cs ds
      → hash_columns char_code id_code shape cs ≡ hash_columns char_code id_code shape ds
  unfolding hash_columns
  hash_columns_same shape [] [] h = refl
  hash_columns_same shape [] (d ∷ ds) h = elim h [ ]
  hash_columns_same shape (c ∷ cs) [] h = elim h [ ]
  hash_columns_same shape (c ∷ cs) (d ∷ ds) h =
      ap (λ x. hash_columns char_code id_code (mix x (id_code (type_id c.type))) cs)
        (hash_name-lower shape c.name d.name h.0)
      ∙ ap
          (λ i.
            hash_columns char_code id_code
              (mix (hash_name char_code id_code shape d.name) (id_code i)) cs)
          h.1
      ∙ hash_columns_same
          (mix (hash_name char_code id_code shape d.name) (id_code (type_id d.type))) cs ds h.2

  abbrev pub tagged : Str → List Str → LogicalType → List RawColumn
  tagged name path t = record { name = name; path = path; type = list t } ∷ []

  -- An ingestor whose table has one column, of a list type, and whose cache has just absorbed a
  -- payload with that column.
  abbrev pub knows_list : Ingestor → Table → RawParsedPayload → Ingestor
  knows_list s table first = record s {
    table = some table;
    cache = some (absorb s.cache table.storage (shape_of char_code id_code first));
  }

  tagged-shape :
      (name : Str) (path : List Str) (t u : LogicalType)
      → hash_payload_shape char_code id_code (tagged name path t)
        ≡ hash_payload_shape char_code id_code (tagged name path u)
  unfolding hash_payload_shape
  tagged-shape name path t u =
      hash_columns_same fnv_basis (tagged name path t) (tagged name path u) (refl, refl, tt)

  absorbed_hit :
      (cache : Option CacheEntry) (table : Table) (x y : ℕ)
      → x ≡ y
      → is_absorbed (some (absorb cache table.storage x)) table y ≡ true
  absorbed_hit cache table x y h =
      rw ((==_iff table.storage table.storage).1 refl, (==_iff x y).1 h) refl

  -- A column that is widened, given what DuckDB does to the table.
  widened_step :
      (c : RawColumn) (t : LogicalType) (e after : Evolved) (table : Columns)
      → change_type e.table c.name t ≡ some table
      → evolve_step c (widen t) e ≡ some after
      → after.table ≡ table
  widened_step c t e after table h k = elim (Bool-cases (e.alters e.table c.name t)) [
    | inl granted ↦ ground (arith, granted, h, k)
    | inr refused ↦ ground (arith, refused, k)
  ]

  last_step : (o : Option Evolved) → (elim o [ none ↦ none | some e ↦ some e ]) ≡ o
  last_step none = refl
  last_step (some e) = refl

  list_need :
      (name : Str) (t u : LogicalType)
      → type_eq (join_column_types t u) t ≡ false
      → column_need (find_column ((name, list t) ∷ []) name) (list u)
        ≡ widen (list (join_column_types t u))
  unfolding find_column join_column_types type_eq
  list_need name t u h =
      ground (arith, str_eq_refl (lower name), h, type_eq_iff t u, join_self t, type_eq_refl t)

  list_changed :
      (name : Str) (t u : LogicalType)
      → change_type ((name, list t) ∷ []) name u ≡ some ((name, u) ∷ [])
  unfolding change_type find_column set_type
  list_changed name t u = ground (arith, str_eq_refl (lower name))

  -- A table has a column of lists of one type, and the schema cache has absorbed a payload with such
  -- a column. A payload then brings lists of a type that this one cannot hold. IngestNative appends it
  -- as it is, with no ALTER, although the comparison that the cache saves would widen the column to
  -- lists of the joined type, when DuckDB carries that out.
  pub shape_misses_list :
      (name : Str) (path : List Str) (t u : LogicalType) (s : Ingestor) (table : Table)
      (first later : RawParsedPayload) (after : Evolved)
      → type_eq (join_column_types t u) t ≡ false
      → evolve_native ((name, list t) ∷ []) (tagged name path u) (evolving s ((name, list t) ∷ []))
        ≡ some after
      → let narrow = record table { columns = (name, list t) ∷ [] } in
        let wider = record later { columns = tagged name path u } in
        let known = knows_list s narrow (record first { columns = tagged name path t }) in
        (ingest_native char_code id_code known wider ≡ submit_batch known narrow wider)
        × (after.table ≡ (name, list (join_column_types t u)) ∷ [])
  unfolding ingest_native evolve_native
  shape_misses_list name path t u s table first later after h e =
      let narrow = record table { columns = (name, list t) ∷ [] } in
      let wider = record later { columns = tagged name path u } in
      let listed = record first { columns = tagged name path t } in
      let known = knows_list s narrow listed in
      let joined : LogicalType = list (join_column_types t u) in
      let start = evolving s narrow.columns in
      let column : RawColumn = record { name = name; path = path; type = list u } in
      (
        ap
            (λ b.
              if b
              then submit_batch known narrow wider
              else ingest_unabsorbed char_code id_code known narrow wider)
            (absorbed_hit s.cache narrow (shape_of char_code id_code listed)
              (shape_of char_code id_code wider) (tagged-shape name path t u)),
        widened_step column joined start after ((name, joined) ∷ []) (list_changed name t joined) (
            sym (ap (λ n. evolve_step column n start) (list_need name t u h))
            ∙ sym (
                last_step (
                  evolve_step column (column_need (find_column narrow.columns name) (list u))
                    start))
            ∙ e),
      )
