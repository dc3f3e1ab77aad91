-- ===== src/Append/Apart.antt =====
-- The columns of a flattened schema lie apart: no path leads on from another (src/raw_json.cpp).
use rawduck.Prelude.{
  ℕ, zero, suc, ◌≡◌, ◌⊎◌, refl, sym, ap, ◌∙◌, subst, inl, inr, true, none, some, Bool-cases,
  Option-cases, some-eq, List, [], ◌∷◌, ◌++◌, map, Str, str_eq_iff, str_eq_refl, get_elem?, All,
  All-append, All-map, All-get_elem?, ltb, ◌&&◌, arith,
}
use mathlib.Core.List.{append-nil}
use rawduck.Node.{Node, Children, node, no_child, child, class_eq, object, scan, max_flatten_depth}
use rawduck.Node.Lookup.{IsDistinct}
use rawduck.Node.WellFormed.{IsWellFormed, AreWellFormed}
use rawduck.Flatten.{RawColumn, has_children}
use rawduck.Append.{path_eq, column_of}
use rawduck.Append.Routed.{paths, path_eq-true, column_of-path}
use rawduck.Append.Paths.{child_paths, into_paths}

absurd_path {ℓ} : {A : Type ℓ} → ⊥ → A
absurd_path h = elim h [ ]

-- Neither path leads on from the other.
abbrev pub IsApart : List Str → List Str → Type 0
IsApart p q = (m : List Str) → (¬ (p ++ m ≡ q)) × (¬ (q ++ m ≡ p))

abbrev pub AreApart : List (List Str) → Type 0
AreApart [] = Unit
AreApart (p ∷ ps) = All (IsApart p) ps × AreApart ps

IsApart-cons : (k : Str) (p q : List Str) → IsApart p q → IsApart (k ∷ p) (k ∷ q)
IsApart-cons k p q h m = ((λ e. (h m).0 cc), (λ e. (h m).1 cc))

IsApart-keys : (j k : Str) (p q : List Str) → ¬ (j ≡ k) → IsApart (j ∷ p) (k ∷ q)
IsApart-keys j k p q h m = ((λ e. h cc), (λ e. h cc))

All-IsApart-cons :
    (k : Str) (p : List Str) (ps : List (List Str))
    → All (IsApart p) ps
    → All (IsApart (k ∷ p)) (map (λ q. k ∷ q) ps)
All-IsApart-cons k p [] h = tt
All-IsApart-cons k p (q ∷ ps) h = (IsApart-cons k p q h.0, All-IsApart-cons k p ps h.1)

AreApart-cons : (k : Str) (ps : List (List Str)) → AreApart ps → AreApart (map (λ p. k ∷ p) ps)
AreApart-cons k [] h = tt
AreApart-cons k (p ∷ ps) h = (All-IsApart-cons k p ps h.0, AreApart-cons k ps h.1)

AreApart-append :
    (ps qs : List (List Str))
    → AreApart ps
    → AreApart qs
    → All (λ p. All (IsApart p) qs) ps
    → AreApart (ps ++ qs)
AreApart-append [] qs h g f = g
AreApart-append (p ∷ ps) qs h g f =
    (All-append (IsApart p) ps qs h.0 f.0, AreApart-append ps qs h.1 g f.1)

-- The path starts with the name of one of the children.
abbrev IsChild : Children → Str → Type 0
IsChild no_child k = ⊥
IsChild (child j n ch) k = (j ≡ k) ⊎ IsChild ch k

abbrev Starts : Children → List Str → Type 0
Starts ch [] = ⊥
Starts ch (k ∷ p) = IsChild ch k

scan-IsChild : (ch : Children) (k : Str) → scan ch k ≡ none → ¬ (IsChild ch k)
unfolding scan
scan-IsChild no_child k e h = h
scan-IsChild (child j n ch) k e (inl p) = ground (arith, str_eq_iff j k)
scan-IsChild (child j n ch) k e (inr h) = scan-IsChild ch k (ground arith) h

Starts-here :
    (k : Str) (n : Node) (ch : Children) (ps : List (List Str))
    → All (Starts (child k n ch)) (map (λ p. k ∷ p) ps)
Starts-here k n ch [] = tt
Starts-here k n ch (p ∷ ps) = (inl refl, Starts-here k n ch ps)

Starts-there :
    (k : Str) (n : Node) (ch : Children) (p : List Str) → Starts ch p → Starts (child k n ch) p
Starts-there k n ch [] h = h
Starts-there k n ch (j ∷ p) h = inr h

into_paths-Starts : (ch : Children) (depth : ℕ) → All (Starts ch) (into_paths ch depth)
unfolding into_paths
into_paths-Starts no_child depth = tt
into_paths-Starts (child k n ch) depth =
    All-append (Starts (child k n ch)) (map (λ p. k ∷ p) (child_paths n depth))
      (into_paths ch depth) (Starts-here k n ch (child_paths n depth))
      (All-map (Starts ch) (Starts (child k n ch)) (Starts-there k n ch) (into_paths ch depth)
        (into_paths-Starts ch depth))

Starts-IsApart :
    (ch : Children) (k : Str) (p q : List Str) → scan ch k ≡ none → Starts ch q → IsApart (k ∷ p) q
Starts-IsApart ch k p [] e h = elim h [ ]
Starts-IsApart ch k p (j ∷ q) e h =
    IsApart-keys k j p q (λ z. scan-IsChild ch k e (subst (IsChild ch) (sym z) h))

All-IsApart :
    (ch : Children) (k : Str) (ps qs : List (List Str))
    → scan ch k ≡ none
    → All (Starts ch) qs
    → All (λ p. All (IsApart p) qs) (map (λ p. k ∷ p) ps)
All-IsApart ch k [] qs e h = tt
All-IsApart ch k (p ∷ ps) qs e h = (
  All-map (Starts ch) (IsApart (k ∷ p)) (λ q. Starts-IsApart ch k p q e) qs h,
  All-IsApart ch k ps qs e h,
)

mutual
  unfolding into_paths

  child_paths-AreApart : (n : Node) (depth : ℕ) → IsWellFormed n → AreApart (child_paths n depth)
  child_paths-AreApart (node c s ch lk el) depth (_, _, d, w, _) =
      elim (Bool-cases (class_eq c object && has_children ch && ltb depth max_flatten_depth)) [
        | inl t ↦ rw t (into_paths-AreApart ch (suc depth) d w)
        | inr t ↦ rw t (tt, tt)
      ]

  pub into_paths-AreApart :
      (ch : Children) (depth : ℕ)
      → IsDistinct ch
      → AreWellFormed ch
      → AreApart (into_paths ch depth)
  into_paths-AreApart no_child depth d w = tt
  into_paths-AreApart (child k n ch) depth d w =
      AreApart-append (map (λ p. k ∷ p) (child_paths n depth)) (into_paths ch depth)
        (AreApart-cons k (child_paths n depth) (child_paths-AreApart n depth w.0))
        (into_paths-AreApart ch depth d.1 w.1)
        (All-IsApart ch k (child_paths n depth) (into_paths ch depth) d.0
          (into_paths-Starts ch depth))

path_eq_refl : (p : List Str) → path_eq p p ≡ true
path_eq_refl [] = refl
path_eq_refl (k ∷ p) = rw (str_eq_refl k, path_eq_refl p) refl

-- Where paths lie apart, a column is found at its path and not before it.
pub column_of-found :
    (cs : List RawColumn) (i : ℕ) (p : List Str)
    → AreApart (paths cs)
    → get_elem? (paths cs) i ≡ some p
    → column_of cs p ≡ some i
unfolding column_of
column_of-found [] i p h e = cc
column_of-found (c ∷ cs) zero p h e =
    rw (subst (λ q. path_eq c.path q ≡ true) (some-eq c.path p e) (path_eq_refl c.path)) refl
column_of-found (c ∷ cs) (suc i) p h e = elim (Bool-cases (path_eq c.path p)) [
  | inl t ↦ absurd_path (
      (All-get_elem? (IsApart c.path) (paths cs) i p h.0 e []).0
        (append-nil c.path ∙ path_eq-true c.path p t))
  | inr t ↦ rw (t, column_of-found cs i p h.1 e) refl
]

no_prefix :
    (ps : List (List Str)) (i j : ℕ) (p q m : List Str)
    → AreApart ps
    → get_elem? ps i ≡ some p
    → get_elem? ps j ≡ some q
    → q ++ m ≡ p
    → q ≡ p
no_prefix [] i j p q m h e f z = cc
no_prefix (r ∷ ps) zero zero p q m h e f z = some-eq q p (sym f ∙ e)
no_prefix (r ∷ ps) zero (suc j) p q m h e f z =
    absurd_path ((All-get_elem? (IsApart r) ps j q h.0 f m).1 (z ∙ sym (some-eq r p e)))
no_prefix (r ∷ ps) (suc i) zero p q m h e f z =
    absurd_path
      ((All-get_elem? (IsApart r) ps i p h.0 e m).0 (ap (λ x. x ++ m) (some-eq r q f) ∙ z))
no_prefix (r ∷ ps) (suc i) (suc j) p q m h e f z = no_prefix ps i j p q m h.1 e f z

longer : (q m : List Str) (k : Str) → ¬ (q ≡ q ++ k ∷ m)
longer [] m k e = cc
longer (j ∷ q) m k e = longer q m k cc

pub column_of-missing :
    (cs : List RawColumn) (i : ℕ) (q : List Str) (k : Str) (m : List Str)
    → AreApart (paths cs)
    → get_elem? (paths cs) i ≡ some (q ++ k ∷ m)
    → column_of cs q ≡ none
column_of-missing cs i q k m h e = elim (Option-cases (column_of cs q)) [
  | inl f ↦ f
  | inr (j, f) ↦ absurd_path (
      longer q m k
        (no_prefix (paths cs) i j (q ++ k ∷ m) q (k ∷ m) h e (column_of-path cs q j f) refl))
]
