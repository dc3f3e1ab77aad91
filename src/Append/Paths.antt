-- ===== src/Append/Paths.antt =====
-- The paths of the columns that FlattenSchema makes (src/raw_json.cpp), relative to a node.
use rawduck.Prelude.{
  ℕ, suc, ◌≡◌, refl, sym, ap, ◌∙◌, inl, inr, Bool-cases, List, [], ◌∷◌, ◌++◌, map, Str, lower, ltb,
  ◌&&◌, if◌then◌else◌, map-append, map-map, map-same,
}
use mathlib.Core.List.{append_assoc, append-nil}
use rawduck.Node.{Node, Children, node, no_child, child, class_eq, object, max_flatten_depth}
use rawduck.Flatten.{
  RawColumn, flatten_child, flatten_into, column_name, has_children, disambiguate, unique_name,
}
use rawduck.Append.Routed.{paths}

unfoldable mutual
  pub child_paths : Node → ℕ → List (List Str)
  child_paths (node c s ch lk el) depth =
      let inner = into_paths ch (suc depth) in
      if class_eq c object && has_children ch && ltb depth max_flatten_depth then inner else [] ∷ []

  pub into_paths : Children → ℕ → List (List Str)
  into_paths no_child depth = []
  into_paths (child k n ch) depth = map (λ p. k ∷ p) (child_paths n depth) ++ into_paths ch depth

paths-append : (xs ys : List RawColumn) → paths (xs ++ ys) ≡ paths xs ++ paths ys
paths-append [] ys = refl
paths-append (c ∷ xs) ys = ap (λ ps. c.path ∷ ps) (paths-append xs ys)

pub paths-disambiguate :
    (seen : List Str) (cs : List RawColumn) → paths (disambiguate seen cs) ≡ paths cs
unfolding disambiguate
paths-disambiguate seen [] = refl
paths-disambiguate seen (c ∷ cs) =
    ap (λ ps. c.path ∷ ps) (paths-disambiguate (lower (unique_name seen c.name) ∷ seen) cs)

map-shift :
    (path : List Str) (k : Str) (ps qs : List (List Str))
    → map (λ p. (path ++ k ∷ []) ++ p) ps ++ map (λ p. path ++ p) qs
      ≡ map (λ p. path ++ p) (map (λ p. k ∷ p) ps ++ qs)
map-shift path k ps qs =
    ap (λ rs. rs ++ map (λ p. path ++ p) qs)
      (map-same (λ p. (path ++ k ∷ []) ++ p) (λ p. path ++ k ∷ p)
          (λ p. append_assoc path (k ∷ []) p) ps
        ∙ sym (map-map (λ p. path ++ p) (λ p. k ∷ p) ps))
    ∙ sym (map-append (λ p. path ++ p) (map (λ p. k ∷ p) ps) qs)

mutual
  unfolding flatten_into into_paths

  pub paths-flatten_child :
      (n : Node) (name : Str) (path : List Str) (depth : ℕ)
      → paths (flatten_child n name path depth) ≡ map (λ p. path ++ p) (child_paths n depth)
  paths-flatten_child (node c s ch lk el) name path depth =
      elim (Bool-cases (class_eq c object && has_children ch && ltb depth max_flatten_depth)) [
        | inl t ↦ rw t (paths-flatten_into ch name path (suc depth))
        | inr t ↦ rw t (ap (λ p. p ∷ []) (sym (append-nil path)))
      ]

  pub paths-flatten_into :
      (ch : Children) (prefix : Str) (path : List Str) (depth : ℕ)
      → paths (flatten_into ch prefix path depth) ≡ map (λ p. path ++ p) (into_paths ch depth)
  paths-flatten_into no_child prefix path depth = refl
  paths-flatten_into (child k n ch) prefix path depth =
      paths-append (flatten_child n (column_name prefix k) (path ++ k ∷ []) depth)
        (flatten_into ch prefix path depth)
      ∙ rw
          (
            paths-flatten_child n (column_name prefix k) (path ++ k ∷ []) depth,
            paths-flatten_into ch prefix path depth,
          )
          (map-shift path k (child_paths n depth) (into_paths ch depth))
