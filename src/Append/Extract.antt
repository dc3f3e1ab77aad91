-- ===== src/Append/Extract.antt =====
-- RawExtractor::Traverse against the paths of the columns (src/raw_json.cpp).
use rawduck.Prelude.{
  ℕ, ◌≡◌, refl, sym, ap, ◌∙◌, inl, inr, Bool, true, false, Option, none, some, Bool-cases, List, [],
  ◌∷◌, ◌++◌, Str, str_eq, str_eq_iff, subst, zero, suc, get_elem?, update_nth, length, replicate,
  if◌then◌else◌,
}
use rawduck.Json.{Value, Fields, obj, end, field}
use rawduck.Node.{Node, node_class, class_eq, object, find_child}
use rawduck.Flatten.{RawColumn}
use rawduck.Append.{column_of, value_of, traverse, traverse_fields, assign_row}
use rawduck.Append.Routed.{
  paths, column_of-path, occurrences, field_occurrences, last_of, last_of-append, values_below,
  child-away, traverse-away, IsRouted, IsRouted-column, other_key, routed_here,
}

in_range :
    (vs : List RawColumn) (j : ℕ) (p : List Str)
    → get_elem? (paths vs) j ≡ some p
    → get_elem? {A = Option Value} (replicate (length vs) none) j ≡ some none
in_range [] j p e = cc
in_range (c ∷ vs) zero p e = refl
in_range (c ∷ vs) (suc j) p e = in_range vs j p e

module _ (columns : List RawColumn) (i : ℕ) where
  Slot : List (Option Value) → Option Value → Type 0
  Slot values o = get_elem? values i ≡ some o

  -- One field that leads to the column.
  child_routed :
      (k : Str) (v : Value) (o : Option Node) (m : Node) (path : List Str)
      (values : List (Option Value)) (w : Option Value)
      → o ≡ some m
      → get_elem? (traverse columns v m (path ++ k ∷ []) values) i ≡ some w
      → get_elem? (values_below columns i k v o path values) i ≡ some w
  child_routed k v o m path values w e h = rw e h

  passed :
      (o : Option ℕ) (v : Value) (w : Option Value) (values rest : List (Option Value))
      → o ≡ none
      → get_elem? rest i ≡ some w
      → get_elem? (elim o [ some j ↦ update_nth values j (some v) | none ↦ rest ]) i ≡ some w
  passed none v w values rest e h = h
  passed (some j) v w values rest e h = cc

  entered :
      (b : Bool) (w : Option Value) (values rest : List (Option Value))
      → b ≡ true
      → get_elem? rest i ≡ some w
      → get_elem? (if b then rest else values) i ≡ some w
  entered b w values rest e h = rw e h

  field_same :
      (k j : Str) (rest : List Str) (v : Value) (fs : Fields) (w : Option Value)
      → str_eq k j ≡ true
      → last_of (last_of w (occurrences rest v)) (field_occurrences k rest fs)
        ≡ last_of w (field_occurrences k rest (field j v fs))
  unfolding occurrences
  field_same k j rest v fs w e =
      sym (last_of-append w (occurrences rest v) (field_occurrences k rest fs)) ∙ rw e refl

  field_other :
      (k j : Str) (rest : List Str) (v : Value) (fs : Fields) (w : Option Value)
      → str_eq k j ≡ false
      → last_of w (field_occurrences k rest fs)
        ≡ last_of w (field_occurrences k rest (field j v fs))
  unfolding occurrences
  field_other k j rest v fs w e = rw e refl

  mutual
    unfolding traverse occurrences

    traverse-reads :
        (v : Value) (n : Node) (path rest : List Str) (values : List (Option Value))
        (w : Option Value)
        → IsRouted columns i n path rest
        → get_elem? values i ≡ some w
        → get_elem? (traverse columns v n path values) i ≡ some (last_of w (occurrences rest v))
    traverse-reads (obj fs) n path [] values w r h =
        routed_here columns i (column_of columns path) (obj fs) w values
          (if class_eq (node_class n) object
            then traverse_fields columns fs n path values
            else values)
          r h
    traverse-reads (obj fs) n path (k ∷ rest) values w ((c, t), (m, (f, r))) h =
        passed (column_of columns path) (obj fs) (last_of w (field_occurrences k rest fs)) values
          (if class_eq (node_class n) object
            then traverse_fields columns fs n path values
            else values)
          c
          (entered (class_eq (node_class n) object) (last_of w (field_occurrences k rest fs)) values
            (traverse_fields columns fs n path values) t
            (traverse_fields-reads fs n path k rest m values w f r
              (IsRouted-column columns i n path (k ∷ rest) ((c, t), (m, (f, r)))) h))
    traverse-reads v n path [] values w r h =
        routed_here columns i (column_of columns path) v w values values r h
    traverse-reads v n path (k ∷ rest) values w ((c, t), (m, (f, r))) h =
        passed (column_of columns path) v w values values c h

    traverse_fields-reads :
        (fs : Fields) (n : Node) (path : List Str) (k : Str) (rest : List Str) (m : Node)
        (values : List (Option Value)) (w : Option Value)
        → find_child n k ≡ some m
        → IsRouted columns i m (path ++ k ∷ []) rest
        → column_of columns (path ++ k ∷ rest) ≡ some i
        → get_elem? values i ≡ some w
        → get_elem? (traverse_fields columns fs n path values) i
          ≡ some (last_of w (field_occurrences k rest fs))
    traverse_fields-reads end n path k rest m values w f r c h = h
    traverse_fields-reads (field j v fs) n path k rest m values w f r c h =
        let first = values_below columns i j v (find_child n j) path values in
        elim (Bool-cases (str_eq k j)) [
          | inl s ↦
              let e = (str_eq_iff k j).0 s in
              traverse_fields-reads fs n path k rest m first (last_of w (occurrences rest v)) f r c
                (child_routed j v (find_child n j) m path values (last_of w (occurrences rest v))
                  (ap (find_child n) (sym e) ∙ f)
                  (traverse-reads v m (path ++ j ∷ []) rest values w
                    (subst (λ x. IsRouted columns i m (path ++ x ∷ []) rest) e r) h))
              ∙ ap some (field_same k j rest v fs w s)
          | inr s ↦
              traverse_fields-reads fs n path k rest m first w f r c (
                child-away columns i j v (find_child n j) path values (λ m'.
                  traverse-away columns i v m' (path ++ j ∷ []) values
                    (other_key columns i path rest j k c s))
                ∙ h)
              ∙ ap some (field_other k j rest v fs w s)
        ]

-- The value that a row gets in a column is the last one that the row has at the column's path, and
-- none where it has no value there; what the row holds elsewhere makes no difference. The schema
-- leads from its root to the column: no node on the way is itself a column, and each is an object
-- with a child for the next key of the path.
pub assign_row-reads :
    (columns : List RawColumn) (i : ℕ) (root : Node) (path : List Str) (row : Value)
    → IsRouted columns i root [] path
    → value_of (assign_row columns root row) i ≡ last_of none (occurrences path row)
unfolding assign_row
assign_row-reads columns i root path row r =
    read (assign_row columns root row) (last_of none (occurrences path row)) (
      traverse-reads columns i row root [] path (replicate (length columns) none) none r (
        in_range columns i path
          (column_of-path columns path i (IsRouted-column columns i root [] path r))))
  where
    read :
        (vs : List (Option Value)) (w : Option Value) → get_elem? vs i ≡ some w → value_of vs i ≡ w
    read vs w e = rw (value_of, e) refl
