-- ===== src/Flatten/Limits.antt =====
-- The limits of flattening: the number of columns, and the depth of their paths.
use rawduck.Prelude.{
  ℕ, suc, ◌≤◌, ◌≡◌, refl, inl, inr, Str, lower, Bool, ◌&&◌, List, [], ◌∷◌, ◌++◌, arith, ltb,
  Bool-cases, length, length-append, All, All-append,
}
use rawduck.Node.{
  Node, Children, node, no_child, child, object, class_eq, children, max_columns, max_flatten_depth,
}
use rawduck.Flatten.{
  RawColumn, columns, disambiguate, unique_name, flatten_child, flatten_into, flatten_schema,
  column_name, has_children,
}
use rawduck.Flatten.Names.{flatten_schema_cases}

length-disambiguate :
    (seen : List Str) (cs : List RawColumn) → length (disambiguate seen cs) ≡ length cs
unfolding disambiguate
length-disambiguate seen [] = refl
length-disambiguate seen (c ∷ cs) =
    omega (arith, length-disambiguate (lower (unique_name seen c.name) ∷ seen) cs)

abbrev pub IsShallow : RawColumn → Type 0
IsShallow c = length c.path ≤ suc max_flatten_depth

disambiguate-IsShallow :
    (seen : List Str) (cs : List RawColumn)
    → All IsShallow cs
    → All IsShallow (disambiguate seen cs)
unfolding disambiguate
disambiguate-IsShallow seen [] h = tt
disambiguate-IsShallow seen (c ∷ cs) h =
    (h.0, disambiguate-IsShallow (lower (unique_name seen c.name) ∷ seen) cs h.1)

mutual
  unfolding flatten_into

  child-IsShallow :
      (n : Node) (name : Str) (path : List Str) (depth : ℕ)
      → length path ≡ suc depth
      → depth ≤ max_flatten_depth
      → All IsShallow (flatten_child n name path depth)
  child-IsShallow (node c s ch lk el) name path depth e h =
      elim (Bool-cases (class_eq c object && has_children ch && ltb depth max_flatten_depth)) [
        | inl t ↦ rw t (into-IsShallow ch name path (suc depth) e (ground arith))
        | inr t ↦ rw t (omega arith, tt)
      ]

  into-IsShallow :
      (ch : Children) (prefix : Str) (path : List Str) (depth : ℕ)
      → length path ≡ depth
      → depth ≤ max_flatten_depth
      → All IsShallow (flatten_into ch prefix path depth)
  into-IsShallow no_child prefix path depth e h = tt
  into-IsShallow (child k n ch) prefix path depth e h =
      All-append IsShallow (flatten_child n (column_name prefix k) (path ++ k ∷ []) depth)
        (flatten_into ch prefix path depth)
        (child-IsShallow n (column_name prefix k) (path ++ k ∷ []) depth
          (omega (arith, length-append path (k ∷ []))) h)
        (into-IsShallow ch prefix path depth e h)

-- A flattened schema has at most ten thousand columns, and no column lies deeper than seventeen
-- keys: what is nested deeper stays one column.
pub flatten_schema_limits :
    (root : Node) (scalar_rows : Bool) (cs : List RawColumn)
    → flatten_schema root scalar_rows ≡ columns cs
    → (length cs ≤ max_columns) × All IsShallow cs
flatten_schema_limits root scalar_rows =
    flatten_schema_cases (λ cs. (length cs ≤ max_columns) × All IsShallow cs) root scalar_rows
      (omega arith, tt) (λ t. (omega arith, (omega arith, tt)))
      λ ds e le. (
        omega (arith, length-disambiguate [] ds),
        disambiguate-IsShallow [] ds
            (rw e (into-IsShallow (children root) [] [] 0 refl (omega arith))),
      )
