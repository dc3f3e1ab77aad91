-- ===== src/Optimize/Rows.antt =====
-- What raw_optimize does to the rows of a table.
use rawduck.Prelude.{
  ℕ, zero, suc, ◌+◌, ◌≤◌, ◌<◌, ltb, leb, ◌==◌, length, take, drop, true, false, ◌&&◌, ◌≡◌, refl,
  sym, ap, ◌∙◌, subst, inl, inr, Str, List, [], ◌∷◌, ◌++◌, arith, Bool-cases,
}
use mathlib.Core.List.{Perm, perm_middle}
use mathlib.Core.List.Perm
use rawduck.Stats.{StatsCache}
use rawduck.Optimize.{
  Scored, Mode, noop, incremental, full, choose_mode, rowid_end, rows_from, rows_before, contents,
  inserted, rewrite, rank_columns, order_columns, optimize_ranked, raw_optimize,
}

-- When neither test of the modes holds, there are fewer rows than the last optimization left.
full_when :
    (last n end : ℕ)
    → (ltb 0 last && (n == end && n == last)) ≡ false
    → (ltb 0 last && (n == end && ltb last n)) ≡ false
    → 0 < last
    → n ≡ end
    → n < last
full_when last n end a b some_left dense = ground (arith, a, b, some_left, dense)

module _ {ℓ} {R : Type ℓ} where
  -- The row numbers ascend, from the bound on.
  abbrev pub IsFrom : ℕ → List (ℕ × R) → Type 0
  IsFrom b [] = Unit
  IsFrom b (r ∷ rows) = (b ≤ r.0) × IsFrom (suc r.0) rows

  rowid_end-length :
      (b : ℕ) (r : ℕ × R) (rows : List (ℕ × R))
      → IsFrom b (r ∷ rows)
      → b + length (r ∷ rows) ≤ rowid_end (r ∷ rows)
  unfolding rowid_end
  rowid_end-length b r [] h = omega (arith, h.0)
  rowid_end-length b r (r' ∷ rows) h = omega (arith, h.0, rowid_end-length (suc r.0) r' rows h.1)

  -- Row numbers without a gap: each row stands at its number.
  abbrev pub IsDense : ℕ → List (ℕ × R) → Type 0
  IsDense b [] = Unit
  IsDense b (r ∷ rows) = (r.0 ≡ b) × IsDense (suc b) rows

  count-IsDense :
      (b : ℕ) (rows : List (ℕ × R))
      → IsFrom b rows
      → rowid_end rows ≤ b + length rows
      → IsDense b rows
  unfolding rowid_end
  count-IsDense b [] h e = tt
  count-IsDense b (r ∷ []) h e = (omega (arith, h.0, e), tt)
  count-IsDense b (r ∷ r' ∷ rows) h e =
      let at_b : r.0 ≡ b = omega (arith, h.0, e, rowid_end-length (suc r.0) r' rows h.1) in
      (
        at_b,
        count-IsDense (suc b) (r' ∷ rows) (subst (λ x. IsFrom (suc x) (r' ∷ rows)) at_b h.1)
            (omega (arith, e)),
      )

  all_from :
      (t b : ℕ) (rows : List (ℕ × R))
      → t ≤ b
      → IsDense b rows
      → (rows_before t rows ≡ []) × (rows_from t rows ≡ rows)
  unfolding rows_before rows_from
  all_from t b [] l h = (refl, refl)
  all_from t b (r ∷ rows) l h =
      let test : leb t r.0 ≡ true = ground (arith, l, h.0) in
      let rest = all_from t (suc b) rows (omega (arith, l)) h.1 in
      (rw test rest.0, rw test (ap (λ x. r ∷ x) rest.1))

  -- Without a gap, the test on the row numbers cuts the rows in two.
  rows_parts :
      (k b t : ℕ) (rows : List (ℕ × R))
      → t ≡ b + k
      → k ≤ length rows
      → IsDense b rows
      → (rows_before t rows ≡ take k rows) × (rows_from t rows ≡ drop k rows)
  unfolding rows_before rows_from
  rows_parts zero b t rows e l h = all_from t b rows (omega (arith, e)) h
  rows_parts (suc k) b t [] e l h = absurd (omega arith)
  rows_parts (suc k) b t (r ∷ rows) e l h =
      let test : leb t r.0 ≡ false = ground (arith, e, h.0) in
      let rest = rows_parts k (suc b) t rows (omega (arith, e)) (omega (arith, l)) h.1 in
      (rw test (ap (λ x. r ∷ x) rest.0), rw test rest.1)

  contents-append : (xs ys : List (ℕ × R)) → contents (xs ++ ys) ≡ contents xs ++ contents ys
  contents-append [] ys = refl
  contents-append (x ∷ xs) ys = ap (λ t. x.1 ∷ t) (contents-append xs ys)

  contents-inserted : (next : ℕ) (rows : List R) → contents (inserted next rows) ≡ rows
  contents-inserted next [] = refl
  contents-inserted next (r ∷ rows) = ap (λ t. r ∷ t) (contents-inserted (suc next) rows)

  -- A test on the row numbers parts the rows.
  parted :
      (tail : ℕ) (rows : List (ℕ × R))
      → Perm (contents (rows_before tail rows) ++ contents (rows_from tail rows)) (contents rows)
  unfolding rows_before rows_from
  parted tail [] = Perm.rfl
  parted tail (r ∷ rows) = elim (Bool-cases (leb tail r.0)) [
    | inl h ↦ rw h (
        Perm.trans (perm_middle (contents (rows_before tail rows)) (contents (rows_from tail rows)))
          (Perm.cons r.1 (parted tail rows)))
    | inr h ↦ rw h (Perm.cons r.1 (parted tail rows))
  ]

  module _ (order : List Scored → List R → List R) (next_rowid : List (ℕ × R) → ℕ) where
    rewrite-perm :
        ((columns : List Scored) (rows : List R) → Perm (order columns rows) rows)
        → (mode : Mode) (columns : List Scored) (last : ℕ) (rows : List (ℕ × R))
        → Perm (contents (rewrite order next_rowid mode columns last rows)) (contents rows)
    unfolding rewrite
    rewrite-perm p noop columns last rows = Perm.rfl
    rewrite-perm p full columns last rows =
        subst (λ x. Perm x (contents rows))
          (sym (contents-inserted 0 (order columns (contents rows)))) (p columns (contents rows))
    rewrite-perm p incremental columns last rows =
        let tail = contents (rows_from last rows) in
        let new = inserted (next_rowid rows) (order columns tail) in
        subst (λ x. Perm x (contents rows))
          (sym (
            contents-append (rows_before last rows) new
            ∙ ap (λ x. contents (rows_before last rows) ++ x)
                (contents-inserted (next_rowid rows) (order columns tail))))
          (Perm.trans (Perm.append_left (contents (rows_before last rows)) (p columns tail))
            (parted last rows))

    optimize_ranked-perm :
        (quote : Str → Str) (s : StatsCache) (table : Str) (rows : List (ℕ × R))
        (ranked : List Scored)
        → ((columns : List Scored) (rows : List R) → Perm (order columns rows) rows)
        → Perm
            (contents (optimize_ranked order next_rowid quote s table rows ranked).table)
            (contents rows)
    optimize_ranked-perm quote s table rows [] p = Perm.rfl
    optimize_ranked-perm quote s table rows (a ∷ ranked) p =
        rewrite-perm p _ (order_columns (a ∷ ranked)) _ rows

    -- raw_optimize loses, doubles or changes no row, in whatever mode it runs, given that ORDER BY
    -- does not.
    pub raw_optimize-rows :
        (quote : Str → Str) (s : StatsCache) (table : Str) (rows : List (ℕ × R))
        → ((columns : List Scored) (rows : List R) → Perm (order columns rows) rows)
        → Perm (contents (raw_optimize order next_rowid quote s table rows).table) (contents rows)
    unfolding raw_optimize
    raw_optimize-rows quote s table rows =
        optimize_ranked-perm quote s table rows (rank_columns s table)

    -- What each mode does to a table whose last optimization left `last` rows, and when.
    abbrev pub HasEffect : List Scored → ℕ → List (ℕ × R) → Mode → List (ℕ × R) → Type ℓ
    HasEffect columns last rows noop after =
        (after ≡ rows) × ((0 < last) × ((length rows ≡ last) × (length rows ≡ rowid_end rows)))
    HasEffect columns last rows incremental after =
        (after
          ≡ take last rows
            ++ inserted (next_rowid rows) (order columns (contents (drop last rows))))
        × ((0 < last) × ((last < length rows) × (length rows ≡ rowid_end rows)))
    HasEffect columns last rows full after =
        (after ≡ inserted 0 (order columns (contents rows)))
        × ((0 < last) → length rows ≡ rowid_end rows → length rows < last)

    rewrite-incremental :
        (columns : List Scored) (last : ℕ) (rows : List (ℕ × R))
        → IsFrom 0 rows
        → length rows ≡ rowid_end rows
        → last < length rows
        → rewrite order next_rowid incremental columns last rows
          ≡ take last rows ++ inserted (next_rowid rows) (order columns (contents (drop last rows)))
    unfolding rewrite
    rewrite-incremental columns last rows asc dense l =
        let parts =
          rows_parts last 0 last rows (omega arith) (omega (arith, l))
            (count-IsDense 0 rows asc (omega (arith, dense))) in
        ap (λ x. x ++ inserted (next_rowid rows) (order columns (contents (rows_from last rows))))
          parts.0
        ∙ ap (λ x. take last rows ++ inserted (next_rowid rows) (order columns (contents x)))
            parts.1

    -- The row count and the last row number tell raw_optimize what it may leave in place. The table
    -- stays exactly if the last optimization with this key left some rows, as many as there are now,
    -- and the rows are numbered without a gap from 0. If it left fewer and there is no gap, the rows
    -- of that time stay where they are and exactly the later ones are sorted behind them. Otherwise
    -- all rows are sorted: there was no such optimization, or there is a gap, or rows went.
    pub rewrite-HasEffect :
        (columns : List Scored) (last : ℕ) (rows : List (ℕ × R))
        → IsFrom 0 rows
        → let mode = choose_mode last (length rows) (rowid_end rows) in
          HasEffect columns last rows mode (rewrite order next_rowid mode columns last rows)
    unfolding rewrite
    rewrite-HasEffect columns last rows asc =
        let n = length rows in
        let end = rowid_end rows in
        elim (Bool-cases (ltb 0 last && (n == end && n == last))) [
          | inl a ↦ rw a (refl, (ground (arith, a), (ground (arith, a), ground (arith, a))))
          | inr a ↦ elim (Bool-cases (ltb 0 last && (n == end && ltb last n))) [
            | inr b ↦ rw (a, b) (refl, λ some_left dense. full_when last n end a b some_left dense)
            | inl b ↦
                rw (a, b)
                  (
                    rewrite-incremental columns last rows asc (ground (arith, b))
                        (ground (arith, b)),
                    (ground (arith, b), (ground (arith, b), ground (arith, b))),
                  )
          ]
        ]
