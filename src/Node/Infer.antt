-- ===== src/Node/Infer.antt =====
-- Schema inference is sound: `MergeValue` makes room for its value and loses no earlier one, so
-- every row of a payload fits the schema that `InferSchema` returns.
use rawduck.Prelude.{
  ℕ, suc, ◌≡◌, refl, inl, inr, Str, Option, none, some, List, [], ◌∷◌, arith, ltb, Bool-cases, All,
  if◌then◌else◌,
}
use rawduck.Json.{Value, Items, Fields, null, bool, uint, sint, real, str, arr, obj}
use rawduck.Json.{nil, cons, end, field}
use rawduck.Duck.{Duck}
use rawduck.Node.{
  Node, NodeClass, Children, no_child, child, node, object, array, json, node_class, no_element,
  element, with_child, update_element, demote_to_json, as_object, as_array, merge_scalar,
  merge_container, merge_value, merge_fields, merge_items, infer_schema, merge_row, max_nesting,
  class_eq,
}
use rawduck.Node.Sniff.{sniff_scalar_kind}
use rawduck.Node.Route.{find_child-with_child_self}
use rawduck.Node.WellFormed.{
  HasShape, IsWellFormed, IsObject, IsArray, merge_value-keeps, merge_fields-keeps,
  merge_items-keeps, as_object-IsObject, as_array-IsArray, with_child-IsObject,
  update_element-IsArray,
}
use rawduck.Node.Fits.{
  Fits, FitFields, FitItems, FitsScalar, Grows, KeepsFits, KeepsBoth, element_of, Fits-json,
  demote-IsJson, demote-Grows, merge_scalar-FitsScalar, merge_scalar-Grows, as_object-Grows,
  as_array-Grows, with_child-Grows, update_element-Grows, merge_container-Grows,
}

no_element_shape : (c : NodeClass) (ch : Children) → c ≡ array → HasShape c ch no_element → ⊥
no_element_shape array no_child e h = h
no_element_shape array (child k n ch) e h = h
no_element_shape _ ch e h = cc

module _ (duck : Duck) where
  guarded_scalar-Grows :
      (d : ℕ) (v : Value) (n : Node)
      → Grows duck n (
          if ltb max_nesting d then demote_to_json n else merge_scalar (sniff_scalar_kind duck v) n)
  guarded_scalar-Grows d v n w fit = elim (Bool-cases (ltb max_nesting d)) [
    | inl e ↦ rw e (demote-Grows duck n w fit)
    | inr e ↦ rw e (merge_scalar-Grows duck (sniff_scalar_kind duck v) n w fit)
  ]

  mutual
    unfolding merge_value

    value-Grows : (v : Value) (d : ℕ) → KeepsFits duck (merge_value duck v d)
    value-Grows null d n h w fit = elim (Bool-cases (ltb max_nesting d)) [
      | inl e ↦ rw e (demote-Grows duck n w fit)
      | inr e ↦ rw e fit
    ]
    value-Grows (obj fs) d n h w fit =
        merge_container-Grows duck d n (as_object n) (merge_fields duck fs (suc d))
          (λ o e w fit.
            fields-Grows fs (suc d) o (as_object-IsObject n o h e) w
              (as_object-Grows duck n o e w fit))
          w fit
    value-Grows (arr vs) d n h w fit =
        merge_container-Grows duck d n (as_array n) (merge_items duck vs (suc d))
          (λ a e w fit.
            items-Grows vs (suc d) a (as_array-IsArray n a h e) w (as_array-Grows duck n a e w fit))
          w fit
    value-Grows v d n h w fit = guarded_scalar-Grows d v n w fit

    fields-Grows :
        (fs : Fields) (d : ℕ) (n : Node) → IsObject n → Grows duck n (merge_fields duck fs d n)
    fields-Grows end d n h w fit = fit
    fields-Grows (field k v fs) d n h w fit =
        fields-Grows fs d (with_child k (merge_value duck v d) n)
          (with_child-IsObject k (merge_value duck v d) n (merge_value-keeps duck v d) h) w
          (with_child-Grows duck k (merge_value duck v d) n
            (merge_value-keeps duck v d, value-Grows v d) h w fit)

    items-Grows :
        (vs : Items) (d : ℕ) (n : Node) → IsArray n → Grows duck n (merge_items duck vs d n)
    items-Grows nil d n h w fit = fit
    items-Grows (cons v vs) d n h w fit =
        items-Grows vs d (update_element (merge_value duck v d) n)
          (update_element-IsArray (merge_value duck v d) n (merge_value-keeps duck v d) h) w
          (update_element-Grows duck (merge_value duck v d) n
            (merge_value-keeps duck v d, value-Grows v d) h w fit)

  merge_container-Fits :
      (v : Value) (d : ℕ) (n : Node) (o : Option Node) (merged : Node → Node)
      → ((m : Node) → o ≡ some m → Fits duck v (merged m))
      → Fits duck v (merge_container d n o merged)
  unfolding merge_container
  merge_container-Fits v d n o merged hm = elim (Bool-cases (ltb max_nesting d)) [
    | inl e ↦ rw e (Fits-json duck v (demote_to_json n) (demote-IsJson duck n))
    | inr e ↦ elim (Bool-cases (class_eq (node_class n) json)) [
      | inl j ↦ rw (e, j) (Fits-json duck v n (ground arith))
      | inr j ↦ rw (e, j) (merged_case o hm)
    ]
  ]
    where
      merged_case :
          (o : Option Node)
          → ((m : Node) → o ≡ some m → Fits duck v (merged m))
          → Fits duck v (elim o [ none ↦ demote_to_json n | some m ↦ merged m ])
      merged_case none h = Fits-json duck v (demote_to_json n) (demote-IsJson duck n)
      merged_case (some m) h = h m refl

  guarded_scalar-Fits :
      (d : ℕ) (v : Value) (n : Node)
      → FitsScalar duck (sniff_scalar_kind duck v) (
          if ltb max_nesting d then demote_to_json n else merge_scalar (sniff_scalar_kind duck v) n)
  guarded_scalar-Fits d v n = elim (Bool-cases (ltb max_nesting d)) [
    | inl e ↦ rw e (inl (demote-IsJson duck n))
    | inr e ↦ rw e (merge_scalar-FitsScalar duck (sniff_scalar_kind duck v) n)
  ]

  -- Both results of a field: the fields that follow keep what it has gained.
  field_then :
      (k : Str) (v : Value) (f : Node → Node) (fs : Fields) (d : ℕ) (n : Node)
      → KeepsBoth duck f
      → IsObject n
      → ((c : Node) → IsWellFormed c → Fits duck v (f c))
      → FitFields duck (field k v end) (with_child k f n)
  field_then k v f fs d n kf h fits =
      let (c, wf, e) = find_child-with_child_self k f n kf.0 h in ((f c, e, fits c wf), tt)

  of_object :
      (k : Str) (v : Value) (n : Node)
      → node_class n ≡ object
      → Fits duck (obj (field k v end)) n
      → FitFields duck (field k v end) n
  of_object k v n e (inl j) = cc
  of_object k v n e (inr fit) = fit.1

  of_array :
      (v : Value) (n : Node)
      → node_class n ≡ array
      → Fits duck (arr (cons v nil)) n
      → FitItems duck (cons v nil) (element_of n)
  of_array v n e (inl j) = cc
  of_array v n e (inr fit) = fit.1

  item_then :
      (v : Value) (f : Node → Node) (n : Node)
      → IsArray n
      → ((c : Node) → IsWellFormed c → Fits duck v (f c))
      → FitItems duck (cons v nil) (element_of (update_element f n))
  item_then v f (node c s ch lk no_element) h fits = absurd (no_element_shape c ch h.0 h.1.0)
  item_then v f (node c s ch lk (element x)) h fits = ((f x, refl, fits x h.1.4), tt)

  mutual
    unfolding merge_value

    value-Fits :
        (v : Value) (d : ℕ) (n : Node) → IsWellFormed n → Fits duck v (merge_value duck v d n)
    value-Fits null d n h = tt
    value-Fits (obj fs) d n h =
        merge_container-Fits (obj fs) d n (as_object n) (merge_fields duck fs (suc d)) λ o e. inr (
          (merge_fields-keeps duck fs (suc d) o (as_object-IsObject n o h e)).0,
          fields-Fits fs (suc d) o (as_object-IsObject n o h e),
        )
    value-Fits (arr vs) d n h =
        merge_container-Fits (arr vs) d n (as_array n) (merge_items duck vs (suc d)) λ a e. inr (
          (merge_items-keeps duck vs (suc d) a (as_array-IsArray n a h e)).0,
          items-Fits vs (suc d) a (as_array-IsArray n a h e),
        )
    value-Fits (bool b) d n h = guarded_scalar-Fits d (bool b) n
    value-Fits (uint b) d n h = guarded_scalar-Fits d (uint b) n
    value-Fits (sint b) d n h = guarded_scalar-Fits d (sint b) n
    value-Fits (real b) d n h = guarded_scalar-Fits d (real b) n
    value-Fits (str b) d n h = guarded_scalar-Fits d (str b) n

    fields-Fits :
        (fs : Fields) (d : ℕ) (n : Node) → IsObject n → FitFields duck fs (merge_fields duck fs d n)
    fields-Fits end d n h = tt
    fields-Fits (field k v fs) d n h =
        let f = merge_value duck v d in
        let kf : KeepsBoth duck f = (merge_value-keeps duck v d, value-Grows v d) in
        let here = field_then k v f fs d n kf h (value-Fits v d) in
        let o = with_child-IsObject k f n kf.0 h in
        let after = merge_fields-keeps duck fs d (with_child k f n) o in
        let gained =
          of_object k v (merge_fields duck fs d (with_child k f n)) after.0
            (fields-Grows fs d (with_child k f n) o (obj (field k v end)) (inr (o.0, here))) in
        (gained.0, fields-Fits fs d (with_child k f n) o)

    items-Fits :
        (vs : Items) (d : ℕ) (n : Node)
        → IsArray n
        → FitItems duck vs (element_of (merge_items duck vs d n))
    items-Fits nil d n h = tt
    items-Fits (cons v vs) d n h =
        let f = merge_value duck v d in
        let kf : KeepsBoth duck f = (merge_value-keeps duck v d, value-Grows v d) in
        let here = item_then v f n h (value-Fits v d) in
        let o = update_element-IsArray f n kf.0 h in
        let after = merge_items-keeps duck vs d (update_element f n) o in
        let gained =
          of_array v (merge_items duck vs d (update_element f n)) after.0
            (items-Grows vs d (update_element f n) o (arr (cons v nil)) (inr (o.0, here))) in
        (gained.0, items-Fits vs d (update_element f n) o)

  -- Merging a value into a well-formed tree keeps room for every value that fitted the tree before,
  -- at every depth: an earlier value is never squeezed out by a later one.
  pub merge_row-Grows :
      (n : Node) (v w : Value) → IsWellFormed n → Fits duck w n → Fits duck w (merge_row duck n v)
  unfolding merge_row
  merge_row-Grows n v w h fit = value-Grows v 0 n h w fit

  infer_schema-Grows :
      (n : Node) (rows : List Value) → IsWellFormed n → Grows duck n (infer_schema duck n rows)
  unfolding infer_schema merge_row
  infer_schema-Grows n [] h w fit = fit
  infer_schema-Grows n (v ∷ rows) h w fit =
      infer_schema-Grows (merge_value duck v 0 n) rows (merge_value-keeps duck v 0 n h) w
        (value-Grows v 0 n h w fit)

  -- Every row of a payload fits the schema that is inferred from its rows, whatever the tree that
  -- inference starts from.
  pub infer_schema-Fits :
      (n : Node) (rows : List Value)
      → IsWellFormed n
      → All (λ row. Fits duck row (infer_schema duck n rows)) rows
  unfolding infer_schema merge_row
  infer_schema-Fits n [] h = tt
  infer_schema-Fits n (v ∷ rows) h =
      let n' = merge_value duck v 0 n in
      let h' = merge_value-keeps duck v 0 n h in
      (infer_schema-Grows n' rows h' v (value-Fits v 0 n h), infer_schema-Fits n' rows h')
