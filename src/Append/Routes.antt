-- ===== src/Append/Routes.antt =====
-- Every column of a flattened schema is reached from the root (src/raw_json.cpp).
use rawduck.Prelude.{
  ℕ, zero, suc, ◌≡◌, refl, sym, ap, ◌∙◌, subst, inl, inr, Bool, true, Option, none, some,
  Bool-cases, some-eq, List, [], ◌∷◌, ◌++◌, map, Str, codes, str_eq_iff, str_eq_refl, get_elem?,
  All, All-append, All-map, All-get_elem?, ltb, ◌&&◌, arith,
}
use mathlib.Core.List.{append_assoc, append-nil}
use rawduck.Json.{Value}
use rawduck.Duck.{Duck}
use rawduck.Node.{
  Node, NodeClass, Children, Element, node, no_child, child, children, node_class, class_eq, object,
  scan, child_at, child_position, find_child, max_flatten_depth, empty_node, infer_schema,
}
use rawduck.Node.Lookup.{IsDistinct, child_position-eq-scan}
use rawduck.Node.WellFormed.{
  IsWellFormed-empty_node, infer_schema-IsWellFormed, IsWellFormed, AreWellFormed, HasShape,
}
use rawduck.SqlType.{LogicalType}
use rawduck.Flatten.{RawColumn, columns, flatten_schema, disambiguate, has_children}
use rawduck.Flatten.Names.{flatten_schema_cases}
use rawduck.Append.{column_of, value_of, assign_row}
use rawduck.Append.Routed.{paths, IsRouted, occurrences, last_of}
use rawduck.Append.Extract.{assign_row-reads}
use rawduck.Append.Paths.{child_paths, into_paths, paths-flatten_into, paths-disambiguate}
use rawduck.Append.Apart.{AreApart, into_paths-AreApart, column_of-found, column_of-missing}

-- The path leads from the node through objects that have its keys.
abbrev pub Leads : Node → List Str → Type 0
Leads n [] = Unit
Leads n (k ∷ rest) =
    (class_eq (node_class n) object ≡ true)
    × ((m : Node) × ((find_child n k ≡ some m) × Leads m rest))

abbrev LeadsIn : Children → List Str → Type 0
LeadsIn ch [] = ⊥
LeadsIn ch (k ∷ rest) =
    (i : ℕ) × ((m : Node) × ((scan ch k ≡ some i) × ((child_at ch i ≡ some m) × Leads m rest)))

scan-later :
    (j : Str) (n : Node) (ch : Children) (k : Str) (i : ℕ)
    → scan ch j ≡ none
    → scan ch k ≡ some i
    → scan (child j n ch) k ≡ some (suc i)
unfolding scan
scan-later j n ch k i e f = ground (arith, str_eq_iff j k)

LeadsIn-there :
    (k : Str) (n : Node) (ch : Children) (p : List Str)
    → scan ch k ≡ none
    → LeadsIn ch p
    → LeadsIn (child k n ch) p
unfolding child_at
LeadsIn-there k n ch [] e h = h
LeadsIn-there k n ch (j ∷ p) e (i, (m, (s, (a, l)))) =
    (suc i, (m, (scan-later k n ch j i e s, (a, l))))

LeadsIn-here :
    (k : Str) (n : Node) (ch : Children) (ps : List (List Str))
    → All (Leads n) ps
    → All (LeadsIn (child k n ch)) (map (λ p. k ∷ p) ps)
unfolding scan child_at
LeadsIn-here k n ch [] h = tt
LeadsIn-here k n ch (p ∷ ps) h =
    ((0, (n, (rw (str_eq_refl k) refl, (refl, h.0)))), LeadsIn-here k n ch ps h.1)

-- Only an object has a child to lead to.
object_if_child :
    (c : NodeClass) (ch : Children) (el : Element) (k : Str) (i : ℕ)
    → HasShape c ch el
    → scan ch k ≡ some i
    → class_eq c object ≡ true
unfolding scan
object_if_child object ch el k i h e = refl
object_if_child _ no_child el k i h e = cc
object_if_child _ (child j n ch) el k i h e = elim h [ ]

found_at :
    (ch : Children) (o : Option ℕ) (i : ℕ) (m : Node)
    → o ≡ some i
    → child_at ch i ≡ some m
    → elim o as (λ _. Option Node) [ none ↦ none | some j ↦ child_at ch j ] ≡ some m
found_at ch o i m e a = rw e a

LeadsIn-Leads : (n : Node) (p : List Str) → IsWellFormed n → LeadsIn (children n) p → Leads n p
unfolding find_child
LeadsIn-Leads n [] w h = tt
LeadsIn-Leads (node c s ch lk el) (k ∷ p) w (i, (m, (e, (a, l)))) = (
  object_if_child c ch el k i w.0 e,
  (
    m,
    (
      found_at ch (child_position (node c s ch lk el) k) i m
          (child_position-eq-scan (node c s ch lk el) k w.1 ∙ e) a,
      l,
    ),
  ),
)

mutual
  unfolding into_paths

  child_paths-Leads : (n : Node) (depth : ℕ) → IsWellFormed n → All (Leads n) (child_paths n depth)
  child_paths-Leads (node c s ch lk el) depth (sh, ix, d, w, we) =
      elim (Bool-cases (class_eq c object && has_children ch && ltb depth max_flatten_depth)) [
        | inl t ↦ rw t (
            All-map (LeadsIn ch) (Leads (node c s ch lk el))
              (λ p. LeadsIn-Leads (node c s ch lk el) p (sh, ix, d, w, we))
              (into_paths ch (suc depth)) (into_paths-LeadsIn ch (suc depth) d w))
        | inr t ↦ rw t (tt, tt)
      ]

  into_paths-LeadsIn :
      (ch : Children) (depth : ℕ)
      → IsDistinct ch
      → AreWellFormed ch
      → All (LeadsIn ch) (into_paths ch depth)
  into_paths-LeadsIn no_child depth d w = tt
  into_paths-LeadsIn (child k n ch) depth d w =
      All-append (LeadsIn (child k n ch)) (map (λ p. k ∷ p) (child_paths n depth))
        (into_paths ch depth)
        (LeadsIn-here k n ch (child_paths n depth) (child_paths-Leads n depth w.0))
        (All-map (LeadsIn ch) (LeadsIn (child k n ch)) (λ p. LeadsIn-there k n ch p d.0)
          (into_paths ch depth) (into_paths-LeadsIn ch depth d.1 w.1))

-- From a node at `base` on, where the columns lie apart.
Leads-IsRouted :
    (cs : List RawColumn) (i : ℕ) (n : Node) (base rest : List Str)
    → AreApart (paths cs)
    → get_elem? (paths cs) i ≡ some (base ++ rest)
    → Leads n rest
    → IsRouted cs i n base rest
Leads-IsRouted cs i n base [] h e l = column_of-found cs i base h (e ∙ ap some (append-nil base))
Leads-IsRouted cs i n base (k ∷ rest) h e (t, (m, (f, l))) = (
  (column_of-missing cs i base k rest h e, t),
  (
    m,
    (
      f,
      Leads-IsRouted cs i m (base ++ k ∷ []) rest h
          (e ∙ ap some (sym (append_assoc base (k ∷ []) rest))) l,
    ),
  ),
)

-- Every column is reached.
abbrev AreRouted : Node → List RawColumn → Type 0
AreRouted root cs =
    (i : ℕ) (path : List Str) → get_elem? (paths cs) i ≡ some path → IsRouted cs i root [] path

flat-AreRouted :
    (root : Node) (cs : List RawColumn)
    → IsWellFormed root
    → paths cs ≡ into_paths (children root) 0
    → AreRouted root cs
flat-AreRouted (node c s ch lk el) cs (sh, ix, d, w, we) e i path h =
    Leads-IsRouted cs i (node c s ch lk el) [] path
      (subst AreApart (sym e) (into_paths-AreApart ch 0 d w)) h
      (LeadsIn-Leads (node c s ch lk el) path (sh, ix, d, w, we)
        (All-get_elem? (LeadsIn ch) (into_paths ch 0) i path (into_paths-LeadsIn ch 0 d w)
          (ap (λ ps. get_elem? ps i) (sym e) ∙ h)))

map-id : (ps : List (List Str)) → map (λ p. [] ++ p) ps ≡ ps
map-id [] = refl
map-id (p ∷ ps) = ap (λ qs. p ∷ qs) (map-id ps)

value-AreRouted :
    (root : Node) (t : LogicalType)
    → AreRouted root (record { name = codes "value"; path = []; type = t } ∷ [])
unfolding column_of
value-AreRouted root t zero path h =
    subst (IsRouted (record { name = codes "value"; path = []; type = t } ∷ []) 0 root [])
      (some-eq [] path h) refl
value-AreRouted root t (suc i) path h = cc

flatten_schema-AreRouted :
    (root : Node) (scalar_rows : Bool) (cs : List RawColumn)
    → IsWellFormed root
    → flatten_schema root scalar_rows ≡ columns cs
    → AreRouted root cs
flatten_schema-AreRouted root scalar_rows cs w =
    flatten_schema_cases (AreRouted root) root scalar_rows (λ i path h. cc) (value-AreRouted root)
      (λ ds e _. flat-AreRouted root (disambiguate [] ds) w (
        paths-disambiguate [] ds
        ∙ ap paths e
        ∙ paths-flatten_into (children root) [] [] 0
        ∙ map-id (into_paths (children root) 0)))
      cs

-- Where the columns are those of the schema that was inferred from any rows, each column gets from
-- each row the last value that the row has at the column's path, and none where the row has no value
-- there. The row need not be one of those that the schema was inferred from.
pub assign_row-columns :
    (duck : Duck) (rows : List Value) (scalar_rows : Bool) (cs : List RawColumn)
    → flatten_schema (infer_schema duck empty_node rows) scalar_rows ≡ columns cs
    → (i : ℕ) (path : List Str) → get_elem? (paths cs) i ≡ some path
    → (row : Value)
    → value_of (assign_row cs (infer_schema duck empty_node rows) row) i
      ≡ last_of none (occurrences path row)
assign_row-columns duck rows scalar_rows cs e i path h row =
    let root = infer_schema duck empty_node rows in
    assign_row-reads cs i root path row (
      flatten_schema-AreRouted root scalar_rows cs
        (infer_schema-IsWellFormed duck empty_node rows IsWellFormed-empty_node) e i path h)
