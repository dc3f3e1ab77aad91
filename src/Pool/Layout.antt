-- ===== src/Pool/Layout.antt =====
-- The slots of a batch's columns: AppendBatch and ResolveAppendLayout (src/raw_ingest.cpp) look each
-- name up, case-insensitively, and fail when one is missing.
use rawduck.Prelude.{
  ℕ, suc, ◌≡◌, refl, Str, str_eq, lower, Bool, true, false, ◌&&◌, Option, none, some, List, [], ◌∷◌,
  ◌++◌, arith, if◌then◌else◌,
}
use rawduck.Flatten.{RawColumn}
use rawduck.Catalog.{Columns}

-- slots.find(name), where the names of a table are distinct
unfoldable pub find_slot : Columns → Str → Option ℕ
find_slot [] name = none
find_slot ((n, t) ∷ cs) name =
    if str_eq (lower n) (lower name)
    then some 0
    else elim (find_slot cs name) [ none ↦ none | some i ↦ some (suc i) ]

abbrev pub has_slot : Columns → Str → Bool
has_slot cs name = elim (find_slot cs name) [ none ↦ false | some i ↦ true ]

unfoldable pub covers : Columns → List RawColumn → Bool
covers cs [] = true
covers cs (c ∷ columns) = has_slot cs c.name && covers cs columns

has_slot-append :
    (cs more : Columns) (name : Str) → has_slot cs name ≡ true → has_slot (cs ++ more) name ≡ true
unfolding find_slot
has_slot-append [] more name h = ground arith
has_slot-append ((n, t) ∷ cs) more name h = ground (arith, has_slot-append cs more name)

-- What is covered stays covered when columns are published.
pub covers-append :
    (cs more : Columns) (columns : List RawColumn)
    → covers cs columns ≡ true
    → covers (cs ++ more) columns ≡ true
unfolding covers
covers-append cs more [] h = refl
covers-append cs more (c ∷ columns) h =
    ground (arith, has_slot-append cs more c.name, covers-append cs more columns)
