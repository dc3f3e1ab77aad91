-- ===== src/Fill/Read.antt =====
-- What a reader of the filled vector sees: the rows that were there, and then one row for each
-- value, with no trace of the offsets into the shared child vector.
use mathlib.Core.List.{append_assoc}
use rawduck.Prelude.{
  ℕ, ◌+◌, ◌≤◌, ◌≡◌, refl, sym, ◌∙◌, ap, false, Option, none, some, List, [], ◌∷◌, ◌++◌, map, length,
  length-append, length-map, take, drop, take-drop-append, drop-append, take-append, map-append,
  map-same, map-map, All, if◌then◌else◌, arith,
}
use rawduck.Json.{Value, arr, items}
use rawduck.Duck.{Duck}
use rawduck.SqlType.{LogicalType, is_list}
use rawduck.Fill.{
  Cell, Cells, null_cell, many, no_more, also, ListEntry, Vector, scalars, lists, vector_size,
  child_values, list_entries, scalar_cell, fill_vector,
}

abbrev pub to_cells : List Cell → Cells
to_cells [] = no_more
to_cells (c ∷ cs) = also c (to_cells cs)

abbrev pub read_entry : List Cell → ListEntry → Cell
read_entry cells e =
    if e.valid then many (to_cells (take e.size (drop e.offset cells))) else null_cell

-- The rows of a vector as values of their own.
unfoldable pub read_vector : Vector → List Cell
read_vector (scalars cells) = cells
read_vector (lists entries child) = map (read_entry (read_vector child)) entries

-- The vector has the shape of the type, and every entry lies within the child vector.
unfoldable pub HasShape : LogicalType → Vector → Type 0
HasShape t (scalars cells) = is_list t ≡ false
HasShape (LogicalType.list t) (lists entries child) =
    All (λ e. e.offset + e.size ≤ vector_size child) entries × HasShape t child
HasShape t (lists entries child) = ⊥

module _ (duck : Duck) where
  -- The row that a value is meant to become, by recursion on the type.
  unfoldable pub cell_of : LogicalType → Option Value → Cell
  cell_of (LogicalType.list t) (some (arr vs)) =
      many (to_cells (map (λ v. cell_of t (some v)) (items vs)))
  cell_of (LogicalType.list t) v = null_cell
  cell_of t v = scalar_cell duck t v

length-read_vector : (vec : Vector) → length (read_vector vec) ≡ vector_size vec
unfolding read_vector
length-read_vector (scalars cells) = refl
length-read_vector (lists entries child) = length-map (read_entry (read_vector child)) entries

-- Entries that lie within the child vector read the same when it grows.
read_entry-append :
    (cells more : List Cell) (entries : List ListEntry)
    → All (λ e. e.offset + e.size ≤ length cells) entries
    → map (read_entry (cells ++ more)) entries ≡ map (read_entry cells) entries
read_entry-append cells more [] h = refl
read_entry-append cells more (e ∷ entries) h =
    rw (take-drop-append cells more e.offset e.size h.0, read_entry-append cells more entries h.1)
      refl

-- An entry over the middle of the cells reads the middle.
read_entry-middle :
    (before middle after : List Cell)
    → take (length middle) (drop (length before) (before ++ (middle ++ after))) ≡ middle
read_entry-middle before middle after =
    ap (take (length middle)) (drop-append before (middle ++ after)) ∙ take-append middle after

module _ (duck : Duck) (t : LogicalType) where
  -- One more array: its entry reads the middle, and the rest reads on from behind it.
  array_entry :
      (before middle after : List Cell) (vals : List (Option Value)) (n : ℕ) (whole : List Cell)
      → n ≡ length middle
      → whole ≡ before ++ (middle ++ after)
      → map (read_entry (before ++ middle ++ after)) (list_entries vals (length (before ++ middle)))
        ≡ map (cell_of duck (LogicalType.list t)) vals
      → many (to_cells (take n (drop (length before) whole)))
          ∷ map (read_entry whole) (list_entries vals (length before + n))
        ≡ many (to_cells middle) ∷ map (cell_of duck (LogicalType.list t)) vals
  array_entry before middle after vals n whole len w ih =
      rw (len, w, read_entry-middle before middle after, sym (length-append before middle))
        (rw (sym (append_assoc before middle after)) (ap (λ cs. many (to_cells middle) ∷ cs) ih))

  new_entries :
      (vals : List (Option Value)) (before : List Cell)
      → map
          (read_entry (before ++ map (cell_of duck t) (child_values vals)))
          (list_entries vals (length before))
        ≡ map (cell_of duck (LogicalType.list t)) vals
  unfolding child_values list_entries cell_of
  new_entries [] before = refl
  new_entries (some (arr vs) ∷ vals) before =
      array_entry before (map (λ v. cell_of duck t (some v)) (items vs))
        (map (cell_of duck t) (child_values vals)) vals (length (items vs))
        (before ++ map (cell_of duck t) (map some (items vs) ++ child_values vals))
        (sym (length-map (λ v. cell_of duck t (some v)) (items vs)))
        (ap (λ cs. before ++ cs)
          (map-append (cell_of duck t) (map some (items vs)) (child_values vals)
            ∙ ap (λ cs. cs ++ map (cell_of duck t) (child_values vals))
                (map-map (cell_of duck t) some (items vs))))
        (new_entries vals (before ++ map (λ v. cell_of duck t (some v)) (items vs)))
  new_entries (none ∷ vals) before = ap (λ cs. null_cell ∷ cs) (new_entries vals before)
  new_entries (some Value.null ∷ vals) before = ap (λ cs. null_cell ∷ cs) (new_entries vals before)
  new_entries (some (Value.bool b) ∷ vals) before =
      ap (λ cs. null_cell ∷ cs) (new_entries vals before)
  new_entries (some (Value.uint n) ∷ vals) before =
      ap (λ cs. null_cell ∷ cs) (new_entries vals before)
  new_entries (some (Value.sint n) ∷ vals) before =
      ap (λ cs. null_cell ∷ cs) (new_entries vals before)
  new_entries (some (Value.real n) ∷ vals) before =
      ap (λ cs. null_cell ∷ cs) (new_entries vals before)
  new_entries (some (Value.str n) ∷ vals) before =
      ap (λ cs. null_cell ∷ cs) (new_entries vals before)
  new_entries (some (Value.obj n) ∷ vals) before =
      ap (λ cs. null_cell ∷ cs) (new_entries vals before)

cell_of-scalar :
    (duck : Duck) (t : LogicalType) (v : Option Value)
    → is_list t ≡ false
    → scalar_cell duck t v ≡ cell_of duck t v
unfolding cell_of
cell_of-scalar duck LogicalType.boolean v h = refl
cell_of-scalar duck LogicalType.tinyint v h = refl
cell_of-scalar duck LogicalType.smallint v h = refl
cell_of-scalar duck LogicalType.integer v h = refl
cell_of-scalar duck LogicalType.bigint v h = refl
cell_of-scalar duck LogicalType.hugeint v h = refl
cell_of-scalar duck LogicalType.utinyint v h = refl
cell_of-scalar duck LogicalType.usmallint v h = refl
cell_of-scalar duck LogicalType.uinteger v h = refl
cell_of-scalar duck LogicalType.float v h = refl
cell_of-scalar duck LogicalType.double v h = refl
cell_of-scalar duck LogicalType.date v h = refl
cell_of-scalar duck LogicalType.timestamp v h = refl
cell_of-scalar duck LogicalType.varchar v h = refl
cell_of-scalar duck LogicalType.raw_json v h = refl
cell_of-scalar duck (LogicalType.other n) v h = refl
cell_of-scalar duck (LogicalType.list t) v h = ground arith

fill_scalars :
    (duck : Duck) (t : LogicalType) (vals : List (Option Value)) (cells : List Cell)
    → is_list t ≡ false
    → read_vector (fill_vector duck t vals (scalars cells)) ≡ cells ++ map (scalar_cell duck t) vals
unfolding fill_vector read_vector
fill_scalars duck t vals cells h = refl

fill_lists :
    (duck : Duck) (t : LogicalType) (vals : List (Option Value)) (entries : List ListEntry)
    (child : Vector)
    → All (λ e. e.offset + e.size ≤ vector_size child) entries
    → read_vector (fill_vector duck t (child_values vals) child)
      ≡ read_vector child ++ map (cell_of duck t) (child_values vals)
    → read_vector (fill_vector duck (LogicalType.list t) vals (lists entries child))
      ≡ read_vector (lists entries child) ++ map (cell_of duck (LogicalType.list t)) vals
unfolding fill_vector read_vector
fill_lists duck t vals entries child h ih =
    rw (ih, sym (length-read_vector child))
      (map-append (read_entry (read_vector child ++ map (cell_of duck t) (child_values vals)))
          entries (list_entries vals (length (read_vector child)))
        ∙ rw
            (
              read_entry-append (read_vector child) (map (cell_of duck t) (child_values vals))
                  entries (rw (length-read_vector child) h),
              new_entries duck t vals (read_vector child),
            )
            refl)

-- FillVector appends one row for each value and keeps the rows before: whatever the nesting of the
-- lists, a reader sees each value as its type says, and never a part of another one. The vector has
-- the shape of the type, with its entries inside the child vector.
pub fill_vector-reads :
    (duck : Duck) (t : LogicalType) (vals : List (Option Value)) (vec : Vector)
    → HasShape t vec
    → read_vector (fill_vector duck t vals vec) ≡ read_vector vec ++ map (cell_of duck t) vals
unfolding HasShape read_vector
fill_vector-reads duck t vals (scalars cells) h =
    rw (fill_scalars duck t vals cells h, read_vector)
      (ap (λ cs. cells ++ cs)
        (map-same (scalar_cell duck t) (cell_of duck t) (λ v. cell_of-scalar duck t v h) vals))
fill_vector-reads duck (LogicalType.list t) vals (lists entries child) h =
    fill_lists duck t vals entries child h.0
      (fill_vector-reads duck t (child_values vals) child h.1)
fill_vector-reads duck LogicalType.boolean vals (lists entries child) h = elim h [ ]
fill_vector-reads duck LogicalType.tinyint vals (lists entries child) h = elim h [ ]
fill_vector-reads duck LogicalType.smallint vals (lists entries child) h = elim h [ ]
fill_vector-reads duck LogicalType.integer vals (lists entries child) h = elim h [ ]
fill_vector-reads duck LogicalType.bigint vals (lists entries child) h = elim h [ ]
fill_vector-reads duck LogicalType.hugeint vals (lists entries child) h = elim h [ ]
fill_vector-reads duck LogicalType.utinyint vals (lists entries child) h = elim h [ ]
fill_vector-reads duck LogicalType.usmallint vals (lists entries child) h = elim h [ ]
fill_vector-reads duck LogicalType.uinteger vals (lists entries child) h = elim h [ ]
fill_vector-reads duck LogicalType.float vals (lists entries child) h = elim h [ ]
fill_vector-reads duck LogicalType.double vals (lists entries child) h = elim h [ ]
fill_vector-reads duck LogicalType.date vals (lists entries child) h = elim h [ ]
fill_vector-reads duck LogicalType.timestamp vals (lists entries child) h = elim h [ ]
fill_vector-reads duck LogicalType.varchar vals (lists entries child) h = elim h [ ]
fill_vector-reads duck LogicalType.raw_json vals (lists entries child) h = elim h [ ]
fill_vector-reads duck (LogicalType.other n) vals (lists entries child) h = elim h [ ]
