-- ===== src/Node/WellFormed.antt =====
-- The invariant of a schema tree, and that merging keeps it.
use rawduck.Prelude.{
  ℕ, suc, ◌≡◌, refl, sym, ◌∙◌, inl, inr, Str, Option, none, some, List, [], ◌∷◌, arith, some-eq,
  Bool-cases, Option-cases, subst,
}
use rawduck.Json.{Value, Items, Fields, null, arr, obj}
use rawduck.Json.{nil, cons, end, field}
use rawduck.Duck.{Duck}
use rawduck.Kind.{ScalarKind, varchar, kind_eq}
use rawduck.Node.{
  Node, NodeClass, Children, Element, node, no_child, child, no_element, element, object, array,
  scalar, json, node_class, children, empty_node, scan, lookup_find, update_at, push_child,
  child_position, get_or_create_child, add_child, update_child, with_child, update_element,
  demote_to_json, as_object, as_array, merge_scalar, merge_value, merge_fields, merge_items,
  infer_schema, merge_row, merge_container,
}
use rawduck.Node.Lookup.{
  IsIndexed, IsDistinct, child_position-eq-scan, scan-update_at, IsIndexed-add,
  IsDistinct-update_at, IsDistinct-push_child,
}
use rawduck.Node.Sniff.{sniff_scalar_kind}

-- Only an object has children, and an array has exactly an element.
abbrev pub HasShape : NodeClass → Children → Element → Type 0
HasShape object ch no_element = Unit
HasShape array no_child (element e) = Unit
HasShape NodeClass.unset no_child no_element = Unit
HasShape scalar no_child no_element = Unit
HasShape json no_child no_element = Unit
HasShape _ _ _ = ⊥

abbrev mutual
  pub IsWellFormed : Node → Type 0
  IsWellFormed (node c s ch lk el) =
      HasShape c ch el × IsIndexed lk ch × IsDistinct ch × AreWellFormed ch × IsWellFormedElement el

  pub AreWellFormed : Children → Type 0
  AreWellFormed no_child = Unit
  AreWellFormed (child k n ch) = IsWellFormed n × AreWellFormed ch

  pub IsWellFormedElement : Element → Type 0
  IsWellFormedElement no_element = Unit
  IsWellFormedElement (element e) = IsWellFormed e

abbrev pub KeepsWellFormed : (Node → Node) → Type 0
KeepsWellFormed f = (n : Node) → IsWellFormed n → IsWellFormed (f n)

pub IsWellFormed-empty_node : IsWellFormed empty_node
unfolding lookup_find scan
IsWellFormed-empty_node = (tt, λ k. refl, tt, tt, tt)

pub IsWellFormed-demote : KeepsWellFormed demote_to_json
unfolding demote_to_json lookup_find scan
IsWellFormed-demote (node c s ch lk el) h = (tt, λ k. refl, tt, tt, tt)

AreWellFormed-update_at :
    (ch : Children) (i : ℕ) (f : Node → Node)
    → KeepsWellFormed f
    → AreWellFormed ch
    → AreWellFormed (update_at ch i f)
unfolding update_at
AreWellFormed-update_at no_child i f keep h = h
AreWellFormed-update_at (child k n ch) ℕ.zero f keep h = (keep n h.0, h.1)
AreWellFormed-update_at (child k n ch) (suc i) f keep h =
    (h.0, AreWellFormed-update_at ch i f keep h.1)

AreWellFormed-push_child :
    (ch : Children) (key : Str) (m : Node)
    → IsWellFormed m
    → AreWellFormed ch
    → AreWellFormed (push_child ch key m)
unfolding push_child
AreWellFormed-push_child no_child key m hm h = (hm, tt)
AreWellFormed-push_child (child k n ch) key m hm h = (h.0, AreWellFormed-push_child ch key m hm h.1)

abbrev pub IsObject : Node → Type 0
IsObject n = (node_class n ≡ object) × IsWellFormed n

HasShape-object :
    (c : NodeClass) (ch ch' : Children) (el : Element)
    → c ≡ object
    → HasShape c ch el
    → HasShape c ch' el
HasShape-object object ch ch' no_element e h = tt
HasShape-object object ch ch' (element m) e h = elim h [ ]
HasShape-object NodeClass.unset ch ch' el e h = cc
HasShape-object scalar ch ch' el e h = cc
HasShape-object array ch ch' el e h = cc
HasShape-object json ch ch' el e h = cc

add_child-IsObject :
    (n : Node) (k : Str) → IsObject n → scan (children n) k ≡ none → IsObject (add_child n k).0
add_child-IsObject (node c s ch lk el) k (e, (sh, ix, di, wf, we)) new = (
  e,
  (
    HasShape-object c ch (push_child ch k empty_node) el e sh,
    IsIndexed-add lk ch k empty_node ix new,
    IsDistinct-push_child ch k empty_node di new,
    AreWellFormed-push_child ch k empty_node IsWellFormed-empty_node wf,
    we,
  ),
)

update_child-IsObject :
    (i : ℕ) (f : Node → Node) (n : Node)
    → KeepsWellFormed f
    → IsObject n
    → IsObject (update_child i f n)
update_child-IsObject i f (node c s ch lk el) keep (e, (sh, ix, di, wf, we)) = (
  e,
  (
    HasShape-object c ch (update_at ch i f) el e sh,
    λ k. ix k ∙ sym (scan-update_at ch i f k),
    IsDistinct-update_at ch i f di,
    AreWellFormed-update_at ch i f keep wf,
    we,
  ),
)

pub IsWellFormed-position :
    (n : Node) (k : Str) → IsWellFormed n → child_position n k ≡ scan (children n) k
IsWellFormed-position (node c s ch lk el) k (sh, ix, di, wf, we) =
    child_position-eq-scan (node c s ch lk el) k ix

get_or_create_child-IsObject :
    (n : Node) (k : Str) → IsObject n → IsObject (get_or_create_child n k).0
unfolding get_or_create_child
get_or_create_child-IsObject n k h = elim (Option-cases (child_position n k)) [
  | inl e ↦
      rw (e, get_or_create_child)
        (add_child-IsObject n k h (sym (IsWellFormed-position n k h.1) ∙ e))
  | inr (i, e) ↦ rw (e, get_or_create_child) h
]

pub with_child-IsObject :
    (k : Str) (f : Node → Node) (n : Node)
    → KeepsWellFormed f
    → IsObject n
    → IsObject (with_child k f n)
unfolding with_child
with_child-IsObject k f n keep h =
    update_child-IsObject (get_or_create_child n k).1 f (get_or_create_child n k).0 keep
      (get_or_create_child-IsObject n k h)

abbrev pub IsArray : Node → Type 0
IsArray n = (node_class n ≡ array) × IsWellFormed n

pub update_element-IsArray :
    (f : Node → Node) (n : Node) → KeepsWellFormed f → IsArray n → IsArray (update_element f n)
update_element-IsArray f (node array s no_child lk (element e)) keep (p, (sh, ix, di, wf, we)) =
    (p, (tt, ix, di, wf, keep e we))
update_element-IsArray f n keep h = ground arith

pub as_object-IsObject : (n o : Node) → IsWellFormed n → as_object n ≡ some o → IsObject o
as_object-IsObject (node NodeClass.unset s no_child lk no_element) o (sh, ix, di, wf, we) e =
    subst IsObject (some-eq _ _ e) (refl, (tt, ix, di, wf, we))
as_object-IsObject (node object s ch lk el) o h e = subst IsObject (some-eq _ _ e) (refl, h)
as_object-IsObject _ o h e = ground arith

pub as_array-IsArray : (n a : Node) → IsWellFormed n → as_array n ≡ some a → IsArray a
as_array-IsArray (node NodeClass.unset s no_child lk no_element) a (sh, ix, di, wf, we) e =
    subst IsArray (some-eq _ _ e) (refl, (tt, ix, di, wf, IsWellFormed-empty_node))
as_array-IsArray (node array s ch lk el) a h e = subst IsArray (some-eq _ _ e) (refl, h)
as_array-IsArray _ a h e = ground arith

pub merge_scalar-IsWellFormed : (kind : ScalarKind) → KeepsWellFormed (merge_scalar kind)
unfolding merge_scalar
merge_scalar-IsWellFormed kind (node NodeClass.unset s no_child lk no_element) h = h
merge_scalar-IsWellFormed kind (node scalar s no_child lk no_element) h =
    elim (Bool-cases (kind_eq s varchar)) [ inl e ↦ rw e h | inr e ↦ rw e h ]
merge_scalar-IsWellFormed kind (node json s ch lk el) h = h
merge_scalar-IsWellFormed kind (node object s ch lk el) h =
    IsWellFormed-demote (node object s ch lk el) h
merge_scalar-IsWellFormed kind (node array s ch lk el) h =
    IsWellFormed-demote (node array s ch lk el) h
merge_scalar-IsWellFormed kind (node _ s ch lk el) h = ground arith

merge_container-IsWellFormed :
    (depth : ℕ) (n : Node) (o : Option Node) (merged : Node → Node)
    → IsWellFormed n
    → ((m : Node) → o ≡ some m → IsWellFormed (merged m))
    → IsWellFormed (merge_container depth n o merged)
unfolding merge_container
merge_container-IsWellFormed depth n none merged h hm = ground (arith, IsWellFormed-demote n h)
merge_container-IsWellFormed depth n (some m) merged h hm =
    ground (arith, IsWellFormed-demote n h, hm m refl)

module _ (duck : Duck) where
  mutual
    unfolding merge_value merge_container

    pub merge_value-keeps : (v : Value) (d : ℕ) → KeepsWellFormed (merge_value duck v d)
    merge_value-keeps null d n h = ground (arith, IsWellFormed-demote n h)
    merge_value-keeps (obj fs) d n h =
        merge_container-IsWellFormed d n (as_object n) (merge_fields duck fs (suc d)) h
          λ o e. (merge_fields-keeps fs (suc d) o (as_object-IsObject n o h e)).1
    merge_value-keeps (arr vs) d n h =
        merge_container-IsWellFormed d n (as_array n) (merge_items duck vs (suc d)) h
          λ a e. (merge_items-keeps vs (suc d) a (as_array-IsArray n a h e)).1
    merge_value-keeps v d n h =
        ground
          (arith, IsWellFormed-demote n h, merge_scalar-IsWellFormed (sniff_scalar_kind duck v) n h)

    pub merge_fields-keeps :
        (fs : Fields) (d : ℕ) (n : Node) → IsObject n → IsObject (merge_fields duck fs d n)
    merge_fields-keeps end d n h = h
    merge_fields-keeps (field k v fs) d n h =
        merge_fields-keeps fs d (with_child k (merge_value duck v d) n)
          (with_child-IsObject k (merge_value duck v d) n (merge_value-keeps v d) h)

    pub merge_items-keeps :
        (vs : Items) (d : ℕ) (n : Node) → IsArray n → IsArray (merge_items duck vs d n)
    merge_items-keeps nil d n h = h
    merge_items-keeps (cons v vs) d n h =
        merge_items-keeps vs d (update_element (merge_value duck v d) n)
          (update_element-IsArray (merge_value duck v d) n (merge_value-keeps v d) h)

  -- Inferring the schema of any rows from a well-formed tree gives a well-formed tree: only objects
  -- have children and exactly the arrays an element, no two children of a node share a name, and at
  -- every node the hash map maps each name to the position that the scan finds.
  pub infer_schema-IsWellFormed :
      (n : Node) (rows : List Value) → IsWellFormed n → IsWellFormed (infer_schema duck n rows)
  unfolding infer_schema merge_row
  infer_schema-IsWellFormed n [] h = h
  infer_schema-IsWellFormed n (row ∷ rows) h =
      infer_schema-IsWellFormed (merge_value duck row 0 n) rows (merge_value-keeps row 0 n h)
