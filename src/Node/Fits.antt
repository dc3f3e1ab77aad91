-- ===== src/Node/Fits.antt =====
-- What it means that a JSON value fits a schema tree, and that inference finds a tree that every
-- row fits.
use rawduck.Prelude.{
  ℕ, ◌≡◌, refl, sym, subst, ◌⊎◌, inl, inr, Str, true, Option, none, some, arith, some-eq, ltb,
  Bool-cases,
}
use rawduck.Json.{Value, Items, Fields, null, bool, uint, sint, real, str, arr, obj}
use rawduck.Json.{nil, cons, end, field}
use rawduck.Duck.{Duck}
use rawduck.Kind.{ScalarKind, join_scalar_kinds}
use rawduck.Kind.Order.{kind_le, kind_le-join_left, kind_le-join_right, kind_le_trans, kind_le_refl}
use rawduck.Node.{
  Node, NodeClass, Element, node, no_element, element, object, array, scalar, json, node_class,
  scalar_kind, find_child, with_child, update_element, demote_to_json, as_object, as_array,
  merge_scalar, merge_container, max_nesting, class_eq,
}
use rawduck.Node.Sniff.{sniff_scalar_kind}
use rawduck.Node.Route.{Kept, find_child-with_child, find_child-IsWellFormed}
use rawduck.Node.WellFormed.{
  IsWellFormed, IsObject, IsArray, KeepsWellFormed, update_element-IsArray, with_child-IsObject,
}

abbrev pub IsJson : Node → Type 0
IsJson n = node_class n ≡ json

abbrev pub element_of : Node → Element
element_of (node c s ch lk el) = el

element-eq : (a b : Node) → element a ≡ element b → a ≡ b
element-eq a b h = ground arith

module _ (duck : Duck) where
  abbrev pub FitsScalar : ScalarKind → Node → Type 0
  FitsScalar kind n = IsJson n ⊎ ((node_class n ≡ scalar) × (kind_le kind (scalar_kind n) ≡ true))

  abbrev mutual
    -- A null fits every node, and a JSON node takes every value. A scalar wants a scalar node of a
    -- kind at least as wide, an array an array node whose element its items fit, and an object an
    -- object node that routes each of its keys to a child which the value fits.
    pub Fits : Value → Node → Type 0
    Fits null n = Unit
    Fits (obj fs) n = IsJson n ⊎ ((node_class n ≡ object) × FitFields fs n)
    Fits (arr vs) n = IsJson n ⊎ ((node_class n ≡ array) × FitItems vs (element_of n))
    Fits v n = FitsScalar (sniff_scalar_kind duck v) n

    pub FitFields : Fields → Node → Type 0
    FitFields end n = Unit
    FitFields (field k v fs) n =
        ((m : Node) × (find_child n k ≡ some m) × Fits v m) × FitFields fs n

    pub FitItems : Items → Element → Type 0
    FitItems nil el = Unit
    FitItems (cons v vs) el = ((m : Node) × (el ≡ element m) × Fits v m) × FitItems vs el

  pub Fits-json : (v : Value) (n : Node) → IsJson n → Fits v n
  Fits-json null n h = tt
  Fits-json _ n h = inl h

  -- Every value that fits the one fits the other.
  abbrev pub Grows : Node → Node → Type 0
  Grows n n' = (w : Value) → Fits w n → Fits w n'

  abbrev pub KeepsFits : (Node → Node) → Type 0
  KeepsFits f = (n : Node) → IsWellFormed n → Grows n (f n)

  pub demote-IsJson : (n : Node) → IsJson (demote_to_json n)
  unfolding demote_to_json
  demote-IsJson (node c s ch lk el) = refl

  pub demote-Grows : (n : Node) → Grows n (demote_to_json n)
  demote-Grows n w h = Fits-json w (demote_to_json n) (demote-IsJson n)

  pub merge_scalar-FitsScalar :
      (kind : ScalarKind) (n : Node) → FitsScalar kind (merge_scalar kind n)
  unfolding merge_scalar demote_to_json
  merge_scalar-FitsScalar kind (node c s ch lk el) =
      ground (arith, kind_le_refl kind, kind_le-join_right s kind)

  FitsScalar-merge_scalar :
      (k kind : ScalarKind) (n : Node) → FitsScalar k n → FitsScalar k (merge_scalar kind n)
  unfolding merge_scalar demote_to_json
  FitsScalar-merge_scalar k kind (node c s ch lk el) h =
      ground (arith, kind_le-join_left s kind, kind_le_trans k s (join_scalar_kinds s kind))

  merge_scalar_object :
      (kind : ScalarKind) (n : Node)
      → (IsJson n ⊎ (node_class n ≡ object)) ⊎ (node_class n ≡ array)
      → IsJson (merge_scalar kind n)
  unfolding merge_scalar demote_to_json
  merge_scalar_object kind (node c s ch lk el) h = ground arith

  pub merge_scalar-Grows : (kind : ScalarKind) (n : Node) → Grows n (merge_scalar kind n)
  merge_scalar-Grows kind n null h = tt
  merge_scalar-Grows kind n (obj fs) (inl j) = inl (merge_scalar_object kind n (inl (inl j)))
  merge_scalar-Grows kind n (obj fs) (inr (o, _)) = inl (merge_scalar_object kind n (inl (inr o)))
  merge_scalar-Grows kind n (arr vs) (inl j) = inl (merge_scalar_object kind n (inl (inl j)))
  merge_scalar-Grows kind n (arr vs) (inr (a, _)) = inl (merge_scalar_object kind n (inr a))
  merge_scalar-Grows kind n (bool b) h = FitsScalar-merge_scalar _ kind n h
  merge_scalar-Grows kind n (uint b) h = FitsScalar-merge_scalar _ kind n h
  merge_scalar-Grows kind n (sint b) h = FitsScalar-merge_scalar _ kind n h
  merge_scalar-Grows kind n (real b) h = FitsScalar-merge_scalar _ kind n h
  merge_scalar-Grows kind n (str b) h = FitsScalar-merge_scalar _ kind n h

  -- Turning an unset node into an object or an array loses nothing.
  pub as_object-Grows : (n o : Node) → as_object n ≡ some o → Grows n o
  as_object-Grows (node object s ch lk el) o e w h = subst (Fits w) (some-eq _ _ e) h
  as_object-Grows (node NodeClass.unset s ch lk el) o e null h = tt
  as_object-Grows (node NodeClass.unset s ch lk el) o e (obj fs) (inl h) = cc
  as_object-Grows (node NodeClass.unset s ch lk el) o e (obj fs) (inr h) = cc (h.0)
  as_object-Grows (node NodeClass.unset s ch lk el) o e (arr fs) (inl h) = cc
  as_object-Grows (node NodeClass.unset s ch lk el) o e (arr fs) (inr h) = cc (h.0)
  as_object-Grows (node NodeClass.unset s ch lk el) o e _ (inl h) = cc
  as_object-Grows (node NodeClass.unset s ch lk el) o e _ (inr h) = cc (h.0)
  as_object-Grows (node _ s ch lk el) o e w h = ground arith

  pub as_array-Grows : (n o : Node) → as_array n ≡ some o → Grows n o
  as_array-Grows (node array s ch lk el) o e w h = subst (Fits w) (some-eq _ _ e) h
  as_array-Grows (node NodeClass.unset s ch lk el) o e null h = tt
  as_array-Grows (node NodeClass.unset s ch lk el) o e (obj fs) (inl h) = cc
  as_array-Grows (node NodeClass.unset s ch lk el) o e (obj fs) (inr h) = cc (h.0)
  as_array-Grows (node NodeClass.unset s ch lk el) o e (arr fs) (inl h) = cc
  as_array-Grows (node NodeClass.unset s ch lk el) o e (arr fs) (inr h) = cc (h.0)
  as_array-Grows (node NodeClass.unset s ch lk el) o e _ (inl h) = cc
  as_array-Grows (node NodeClass.unset s ch lk el) o e _ (inr h) = cc (h.0)
  as_array-Grows (node _ s ch lk el) o e w h = ground arith

  abbrev pub KeepsBoth : (Node → Node) → Type 0
  KeepsBoth f = KeepsWellFormed f × KeepsFits f

  FitFields-with_child :
      (gs : Fields) (k : Str) (f : Node → Node) (n : Node)
      → KeepsBoth f
      → IsObject n
      → FitFields gs n
      → FitFields gs (with_child k f n)
  FitFields-with_child end k f n kf h fit = tt
  FitFields-with_child (field j v gs) k f n kf h ((m, e, fit), rest) =
      (kept (find_child-with_child k f n kf.0 h j m e), FitFields-with_child gs k f n kf h rest)
    where
      kept :
          Kept (find_child (with_child k f n) j) f m
          → (m' : Node) × (find_child (with_child k f n) j ≡ some m') × Fits v m'
      kept (inl e') = (m, e', fit)
      kept (inr e') = (f m, e', kf.1 m (find_child-IsWellFormed n j m h.1 e) v fit)

  pub with_child-Grows :
      (k : Str) (f : Node → Node) (n : Node) → KeepsBoth f → IsObject n → Grows n (with_child k f n)
  with_child-Grows k f n kf h null fit = tt
  with_child-Grows k f n kf h (obj gs) (inl j) = cc (h.0)
  with_child-Grows k f n kf h (obj gs) (inr fit) =
      inr ((with_child-IsObject k f n kf.0 h).0, FitFields-with_child gs k f n kf h fit.1)
  with_child-Grows k f n kf h (arr vs) (inl j) = cc (h.0)
  with_child-Grows k f n kf h (arr vs) (inr fit) = cc (h.0, fit.0)
  with_child-Grows k f n kf h _ (inl j) = cc (h.0)
  with_child-Grows k f n kf h _ (inr fit) = cc (h.0, fit.0)

  FitItems-update_element :
      (ws : Items) (f : Node → Node) (n : Node)
      → KeepsBoth f
      → IsArray n
      → FitItems ws (element_of n)
      → FitItems ws (element_of (update_element f n))
  FitItems-update_element nil f n kf h fit = tt
  FitItems-update_element (cons w ws) f (node c s ch lk no_element) kf h ((m, e, fit), rest) = cc e
  FitItems-update_element (cons w ws) f (node c s ch lk (element x)) kf h ((m, e, fit), rest) = (
    (f x, refl, kf.1 x h.1.4 w (subst (Fits w) (sym (element-eq x m e)) fit)),
    FitItems-update_element ws f (node c s ch lk (element x)) kf h rest,
  )

  pub update_element-Grows :
      (f : Node → Node) (n : Node) → KeepsBoth f → IsArray n → Grows n (update_element f n)
  update_element-Grows f n kf h null fit = tt
  update_element-Grows f n kf h (arr ws) (inl j) = cc (h.0)
  update_element-Grows f n kf h (arr ws) (inr fit) =
      inr ((update_element-IsArray f n kf.0 h).0, FitItems-update_element ws f n kf h fit.1)
  update_element-Grows f n kf h (obj gs) (inl j) = cc (h.0)
  update_element-Grows f n kf h (obj gs) (inr fit) = cc (h.0, fit.0)
  update_element-Grows f n kf h _ (inl j) = cc (h.0)
  update_element-Grows f n kf h _ (inr fit) = cc (h.0, fit.0)

  pub merge_container-Grows :
      (d : ℕ) (n : Node) (o : Option Node) (merged : Node → Node)
      → ((m : Node) → o ≡ some m → Grows n (merged m))
      → Grows n (merge_container d n o merged)
  unfolding merge_container
  merge_container-Grows d n none merged hm w fit = elim (Bool-cases (ltb max_nesting d)) [
    | inl e ↦ rw e (demote-Grows n w fit)
    | inr e ↦ elim (Bool-cases (class_eq (node_class n) json)) [
      | inl j ↦ rw (e, j) fit
      | inr j ↦ rw (e, j) (demote-Grows n w fit)
    ]
  ]
  merge_container-Grows d n (some m) merged hm w fit = elim (Bool-cases (ltb max_nesting d)) [
    | inl e ↦ rw e (demote-Grows n w fit)
    | inr e ↦ elim (Bool-cases (class_eq (node_class n) json)) [
      | inl j ↦ rw (e, j) fit
      | inr j ↦ rw (e, j) (hm m refl w fit)
    ]
  ]
