-- ===== src/Append/Routed.antt =====
-- What decides which column a value of a row reaches (src/raw_json.cpp: RawExtractor::Traverse).
use rawduck.Prelude.{
  ℕ, zero, suc, ◌≡◌, ◌⊎◌, refl, sym, ap, ◌∙◌, subst, inl, inr, Bool, true, false, Option, none,
  some, Bool-cases, some-eq, List, [], ◌∷◌, ◌++◌, Str, str_eq, str_eq_iff, get_elem?, update_nth,
  if◌then◌else◌, arith,
}
use mathlib.Core.List.{append_assoc, append-nil}
use rawduck.Json.{Value, Fields, obj, end, field}
use rawduck.Node.{Node, node_class, class_eq, object, find_child}
use rawduck.Flatten.{RawColumn}
use rawduck.Append.{path_eq, column_of, traverse, traverse_fields}

pub path_eq-true : (p q : List Str) → path_eq p q ≡ true → p ≡ q
path_eq-true [] [] e = refl
path_eq-true (a ∷ p) (b ∷ q) e = elim (Bool-cases (str_eq a b)) [
  | inl s ↦ ground (arith, (str_eq_iff a b).0 s, path_eq-true p q)
  | inr s ↦ ground arith
]
path_eq-true [] (b ∷ q) e = cc
path_eq-true (a ∷ p) [] e = cc

column_of-step :
    (b : Bool) (o : Option ℕ) (i : ℕ)
    → (if b then some 0 else elim o [ none ↦ none | some j ↦ some (suc j) ]) ≡ some i
    → ((b ≡ true) × (i ≡ 0)) ⊎ ((j : ℕ) × ((o ≡ some j) × (i ≡ suc j)))
column_of-step true o i e = inl (refl, sym (some-eq 0 i e))
column_of-step false none i e = cc
column_of-step false (some j) i e = inr (j, (refl, sym (some-eq (suc j) i e)))

abbrev pub paths : List RawColumn → List (List Str)
paths [] = []
paths (c ∷ cs) = c.path ∷ paths cs

pub column_of-path :
    (columns : List RawColumn) (p : List Str) (i : ℕ)
    → column_of columns p ≡ some i
    → get_elem? (paths columns) i ≡ some p
unfolding column_of
column_of-path [] p i e = cc
column_of-path (c ∷ cs) p i e = elim (column_of-step (path_eq c.path p) (column_of cs p) i e) [
  | inl (t, z) ↦ rw z (ap some (path_eq-true c.path p t))
  | inr (j, (f, z)) ↦ rw z (column_of-path cs p j f)
]

-- Two paths that find the same column are the same path.
pub column_of-same :
    (columns : List RawColumn) (p q : List Str) (i : ℕ)
    → column_of columns p ≡ some i
    → column_of columns q ≡ some i
    → p ≡ q
column_of-same columns p q i e f =
    some-eq p q (sym (column_of-path columns p i e) ∙ column_of-path columns q i f)

-- The values that a row has at a path, in the order of the document.
unfoldable mutual
  pub occurrences : List Str → Value → List Value
  occurrences [] v = v ∷ []
  occurrences (k ∷ path) (obj fs) = field_occurrences k path fs
  occurrences (k ∷ path) v = []

  pub field_occurrences : Str → List Str → Fields → List Value
  field_occurrences k path end = []
  field_occurrences k path (field j v fs) =
      (if str_eq k j then occurrences path v else []) ++ field_occurrences k path fs

abbrev pub last_of : Option Value → List Value → Option Value
last_of o [] = o
last_of o (v ∷ vs) = last_of (some v) vs

pub last_of-append :
    (o : Option Value) (vs ws : List Value) → last_of o (vs ++ ws) ≡ last_of (last_of o vs) ws
last_of-append o [] ws = refl
last_of-append o (v ∷ vs) ws = last_of-append (some v) vs ws

pub value_of-update_nth :
    (vs : List (Option Value)) (i : ℕ) (v : Value) (o : Option Value)
    → get_elem? vs i ≡ some o
    → get_elem? (update_nth vs i (some v)) i ≡ some (some v)
value_of-update_nth [] i v o h = cc
value_of-update_nth (x ∷ xs) zero v o h = refl
value_of-update_nth (x ∷ xs) (suc i) v o h = value_of-update_nth xs i v o h

pub get_elem?-update_nth-other :
    (vs : List (Option Value)) (i j : ℕ) (o : Option Value)
    → ¬ (i ≡ j)
    → get_elem? (update_nth vs j o) i ≡ get_elem? vs i
get_elem?-update_nth-other [] i j o h = refl
get_elem?-update_nth-other (x ∷ xs) zero zero o h = absurd (h refl)
get_elem?-update_nth-other (x ∷ xs) zero (suc j) o h = refl
get_elem?-update_nth-other (x ∷ xs) (suc i) zero o h = refl
get_elem?-update_nth-other (x ∷ xs) (suc i) (suc j) o h =
    get_elem?-update_nth-other xs i j o (λ e. h (ap suc e))

-- No column `i` is found at a path or below it.
abbrev pub IsAway : List RawColumn → ℕ → List Str → Type 0
IsAway columns i path = (more : List Str) → ¬ (column_of columns (path ++ more) ≡ some i)

IsAway-child :
    (columns : List RawColumn) (i : ℕ) (path : List Str) (k : Str)
    → IsAway columns i path
    → IsAway columns i (path ++ k ∷ [])
IsAway-child columns i path k h more e =
    h (k ∷ more) (subst (λ p. column_of columns p ≡ some i) (append_assoc path (k ∷ []) more) e)

found-away :
    (o : Option ℕ) (i : ℕ) (v : Value) (values rest : List (Option Value))
    → ¬ (o ≡ some i)
    → get_elem? rest i ≡ get_elem? values i
    → get_elem? (elim o [ some j ↦ update_nth values j (some v) | none ↦ rest ]) i
      ≡ get_elem? values i
found-away none i v values rest h e = e
found-away (some j) i v values rest h e =
    get_elem?-update_nth-other values i j (some v) (λ p. h (ap some (sym p)))

either-away :
    (b : Bool) (i : ℕ) (values rest : List (Option Value))
    → get_elem? rest i ≡ get_elem? values i
    → get_elem? (if b then rest else values) i ≡ get_elem? values i
either-away true i values rest e = e
either-away false i values rest e = refl

not_both : ¬ (true ≡ false)
not_both e = cc

module _ (columns : List RawColumn) (i : ℕ) where
  -- the values after the child of one key
  abbrev pub values_below :
      Str → Value → Option Node → List Str → List (Option Value) → List (Option Value)
  values_below k v o path values = elim o [
    | none ↦ values
    | some m ↦ traverse columns v m (path ++ k ∷ []) values
  ]

  not_here : (path : List Str) → IsAway columns i path → ¬ (column_of columns path ≡ some i)
  not_here path h e = h [] (subst (λ p. column_of columns p ≡ some i) (sym (append-nil path)) e)

  pub child-away :
      (k : Str) (v : Value) (o : Option Node) (path : List Str) (values : List (Option Value))
      → ((m : Node)
          → get_elem? (traverse columns v m (path ++ k ∷ []) values) i ≡ get_elem? values i)
      → get_elem? (values_below k v o path values) i ≡ get_elem? values i
  child-away k v none path values h = refl
  child-away k v (some m) path values h = h m

  mutual
    unfolding traverse

    -- A value that is read away from a column leaves it alone.
    pub traverse-away :
        (v : Value) (n : Node) (path : List Str) (values : List (Option Value))
        → IsAway columns i path
        → get_elem? (traverse columns v n path values) i ≡ get_elem? values i
    traverse-away (obj fs) n path values h =
        found-away (column_of columns path) i (obj fs) values
          (if class_eq (node_class n) object
            then traverse_fields columns fs n path values
            else values)
          (not_here path h)
          (either-away (class_eq (node_class n) object) i values
            (traverse_fields columns fs n path values) (traverse_fields-away fs n path values h))
    traverse-away v n path values h =
        found-away (column_of columns path) i v values values (not_here path h) refl

    pub traverse_fields-away :
        (fs : Fields) (n : Node) (path : List Str) (values : List (Option Value))
        → IsAway columns i path
        → get_elem? (traverse_fields columns fs n path values) i ≡ get_elem? values i
    traverse_fields-away end n path values h = refl
    traverse_fields-away (field k v fs) n path values h =
        traverse_fields-away fs n path (values_below k v (find_child n k) path values) h
        ∙ child-away k v (find_child n k) path values
            (λ m. traverse-away v m (path ++ k ∷ []) values (IsAway-child columns i path k h))

  -- The rest of a path leads from a node, which itself is at `path`, to column `i`: no node before
  -- the last is a column, and each is an object that has the next key.
  abbrev pub IsRouted : Node → List Str → List Str → Type 0
  IsRouted n path [] = column_of columns path ≡ some i
  IsRouted n path (k ∷ rest) =
      ((column_of columns path ≡ none) × (class_eq (node_class n) object ≡ true))
      × ((m : Node) × ((find_child n k ≡ some m) × IsRouted m (path ++ k ∷ []) rest))

  pub IsRouted-column :
      (n : Node) (path rest : List Str)
      → IsRouted n path rest
      → column_of columns (path ++ rest) ≡ some i
  IsRouted-column n path [] h = subst (λ p. column_of columns p ≡ some i) (sym (append-nil path)) h
  IsRouted-column n path (k ∷ rest) (_, (m, (_, h))) =
      subst (λ p. column_of columns p ≡ some i) (append_assoc path (k ∷ []) rest)
        (IsRouted-column m (path ++ k ∷ []) rest h)

  same_key :
      (path rest more : List Str) (j k : Str) → (path ++ j ∷ []) ++ more ≡ path ++ k ∷ rest → k ≡ j
  same_key [] rest more j k e = cc
  same_key (a ∷ path) rest more j k e = same_key path rest more j k cc

  pub other_key :
      (path rest : List Str) (j k : Str)
      → column_of columns (path ++ k ∷ rest) ≡ some i
      → str_eq k j ≡ false
      → IsAway columns i (path ++ j ∷ [])
  other_key path rest j k h s more e = not_both (
      sym (
        (str_eq_iff k j).1 (
          same_key path rest more j k
            (column_of-same columns ((path ++ j ∷ []) ++ more) (path ++ k ∷ rest) i e h)))
      ∙ s)

  pub routed_here :
      (o : Option ℕ) (v : Value) (w : Option Value) (values rest : List (Option Value))
      → o ≡ some i
      → get_elem? values i ≡ some w
      → get_elem? (elim o [ some j ↦ update_nth values j (some v) | none ↦ rest ]) i ≡ some (some v)
  routed_here none v w values rest e h = cc
  routed_here (some j) v w values rest e h = rw (some-eq j i e) (value_of-update_nth values i v w h)
