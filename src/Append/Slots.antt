-- ===== src/Append/Slots.antt =====
-- Chunking and columns leave no trace: a slot receives one cell for each row of the batch.
use rawduck.Prelude.{
  ℕ, ◌≡◌, refl, ap, ◌∙◌, sym, inl, inr, Option, none, some, Option-cases, Bool-cases, List, [], ◌∷◌,
  ◌++◌, length, replicate, map, map-append, map-map, map-same, if◌then◌else◌, arith,
}
use rawduck.Json.{Value}
use rawduck.Duck.{Duck}
use rawduck.SqlType.{LogicalType, raw_fill_supported}
use rawduck.Fill.{Cell, null_cell, fill_vector}
use rawduck.Fill.Read.{read_vector, cell_of, HasShape, fill_vector-reads}
use rawduck.Payload.{RawParsedPayload}
use rawduck.Append.{
  assign_row, value_of, chunks, column_at, empty_vector, column_type, fill_slot, chunk_cells,
  append_slot,
}
use rawduck.Append.Chunks.{concat, chunks-rows}

empty_vector-HasShape : (t : LogicalType) → HasShape t (empty_vector t)
unfolding HasShape
empty_vector-HasShape (LogicalType.list t) = (tt, empty_vector-HasShape t)
empty_vector-HasShape t = refl

read_vector-empty : (t : LogicalType) → read_vector (empty_vector t) ≡ []
unfolding read_vector
read_vector-empty (LogicalType.list t) = refl
read_vector-empty t = refl

module _ (duck : Duck) (cast : LogicalType → LogicalType → Cell → Cell) where
  -- The cell that a value becomes in a slot, from the types alone.
  abbrev pub slot_cell : LogicalType → LogicalType → Option Value → Cell
  slot_cell slot_type own_type v =
      if raw_fill_supported slot_type
      then cell_of duck slot_type v
      else cast own_type slot_type (cell_of duck own_type v)

  filled :
      (t : LogicalType) (vals : List (Option Value))
      → read_vector (fill_vector duck t vals (empty_vector t)) ≡ map (cell_of duck t) vals
  filled t vals =
      fill_vector-reads duck t vals (empty_vector t) (empty_vector-HasShape t)
      ∙ ap (λ cs. cs ++ map (cell_of duck t) vals) (read_vector-empty t)

  fill_slot-cells :
      (slot_type own_type : LogicalType) (vals : List (Option Value))
      → fill_slot duck cast slot_type own_type vals ≡ map (slot_cell slot_type own_type) vals
  unfolding fill_slot
  fill_slot-cells slot_type own_type vals = elim (Bool-cases (raw_fill_supported slot_type)) [
    | inl e ↦
        rw (e, fill_slot)
          (filled slot_type vals
            ∙ map-same (cell_of duck slot_type) (slot_cell slot_type own_type) (λ v. rw e refl)
                vals)
    | inr e ↦
        rw (e, fill_slot)
          (ap (map (cast own_type slot_type)) (filled own_type vals)
            ∙ map-map (cast own_type slot_type) (cell_of duck own_type) vals
            ∙ map-same (λ v. cast own_type slot_type (cell_of duck own_type v))
                (slot_cell slot_type own_type) (λ v. rw e refl) vals)
  ]

  -- What one row puts into a slot: NULL when no column of the payload has the slot.
  unfoldable pub row_cell : RawParsedPayload → List ℕ → LogicalType → ℕ → Value → Cell
  row_cell parsed slot_of slot_type slot row = elim (column_at slot_of slot) [
    | none ↦ null_cell
    | some col ↦
        slot_cell slot_type (column_type parsed.columns col)
          (value_of (assign_row parsed.columns parsed.root row) col)
  ]

  replicate-map : (c : Cell) (rows : List Value) → replicate (length rows) c ≡ map (λ row. c) rows
  replicate-map c [] = refl
  replicate-map c (row ∷ rows) = ap (λ cs. c ∷ cs) (replicate-map c rows)

  module _ (parsed : RawParsedPayload) (slot_of : List ℕ) (slot_type : LogicalType) (slot : ℕ) where
    chunk_cells-rows :
        (rows : List Value)
        → chunk_cells duck cast parsed slot_of slot_type slot rows
          ≡ map (row_cell parsed slot_of slot_type slot) rows
    unfolding chunk_cells row_cell
    chunk_cells-rows rows = elim (Option-cases (column_at slot_of slot)) [
      | inl e ↦ rw (e, chunk_cells, row_cell) (replicate-map null_cell rows)
      | inr (col, e) ↦
          rw (e, chunk_cells, row_cell)
            (fill_slot-cells slot_type (column_type parsed.columns col)
                (map (λ row. value_of (assign_row parsed.columns parsed.root row) col) rows)
              ∙ map-map (slot_cell slot_type (column_type parsed.columns col))
                  (λ row. value_of (assign_row parsed.columns parsed.root row) col) rows)
    ]

    append_slot-concat :
        (more : List (List Value))
        → append_slot duck cast parsed slot_of slot_type slot more
          ≡ map (row_cell parsed slot_of slot_type slot) (concat more)
    unfolding append_slot
    append_slot-concat [] = refl
    append_slot-concat (rows ∷ more) =
        rw (chunk_cells-rows rows, append_slot-concat more)
          (sym (map-append (row_cell parsed slot_of slot_type slot) rows (concat more)))

    -- The append loop writes to a slot one cell for each row of the batch, in the order of the rows:
    -- the value that the row has for the column of that slot, in the slot's type, and NULL when the
    -- payload has no such column. Where the rows are cut into chunks makes no difference.
    pub append_slot-chunks :
        (rows : List Value)
        → append_slot duck cast parsed slot_of slot_type slot (chunks (length rows) rows)
          ≡ map (row_cell parsed slot_of slot_type slot) rows
    append_slot-chunks rows =
        append_slot-concat (chunks (length rows) rows)
        ∙ ap (map (row_cell parsed slot_of slot_type slot))
            ((chunks-rows (length rows) rows (omega arith)).0)
