-- ===== src/Rewrite/Sound.antt =====
-- The rewriting of aggregations onto projections keeps the answers of a plan.
use rawduck.Prelude.{
  All, Str, Option, some, Option-cases, ℕ, List, [], ◌∷◌, ◌≡◌, refl, ap, sym, ◌∙◌, subst, inl, inr,
}
use rawduck.Stats.{StatsCache}
use rawduck.Stats.Plan.{Get}
use rawduck.Rewrite.{
  Expression, Aggregate, Plan, Plans, get, projection, aggregate, other_operator, no_plan, and_plan,
  aggregation, Catalog, Target, new_get, find_target, attempt_on, after_attempt,
  try_rewrite_to_projection, rewrite_aggregates, rewrite_children,
}
use rawduck.Rewrite.Answers.{
  IsColumn, IsIndexed, total, Agrees, Agree, same_get, same_projection, same_aggregate,
  same_operator, same_answers, none_agree, and_agree,
}
use rawduck.Rewrite.Columns.{
  find_target-IsTarget, fresh_projection-some, group_names-keys, group_names-IsColumn,
  retarget-keys,
}
use rawduck.Rewrite.Totals.{counted}
use rawduck.Rewrite.Counts.{
  AreBuilt, IsUnfiltered, answer-count, answer-sum, projected_rows, cast_output-output,
}

module _ (columns_of : Str → List Str) where
  -- A scan of a table has its columns.
  abbrev pub IsScan : Get → Type 0
  IsScan g = (key : Str) → g.table ≡ some key → g.names ≡ columns_of key

  -- All scans of a plan are such, and no count(*) in it has a FILTER clause.
  unfoldable mutual
    pub IsCovered {ℓ} : {T : Type ℓ} → Plan T → Type ℓ
    IsCovered (get g children) = IsScan g × AreCovered children
    IsCovered (projection es children) = AreCovered children
    IsCovered (aggregate a children) = All IsUnfiltered a.calls × AreCovered children
    IsCovered (other_operator children) = AreCovered children

    pub AreCovered {ℓ} : {T : Type ℓ} → Plans T → Type ℓ
    AreCovered no_plan = Unit
    AreCovered (and_plan p plans) = IsCovered p × AreCovered plans

module _ {ℓ} {T : Type ℓ} {V : Type 0} (number : Option V → ℕ) (tables : Str → List (List V)) where
  mutual
    Agrees-same : (p : Plan T) → Agrees number tables p p
    Agrees-same (get g children) = same_get g (Agree-same children)
    Agrees-same (projection es children) = same_projection es (Agree-same children)
    Agrees-same (aggregate a children) = same_aggregate a (Agree-same children)
    Agrees-same (other_operator children) = same_operator (Agree-same children)

    Agree-same : (ps : Plans T) → Agree number tables ps ps
    Agree-same no_plan = none_agree
    Agree-same (and_plan p ps) = and_agree (Agrees-same p) (Agree-same ps)

module _ {ℓ} {T : Type ℓ} {V : Type 0} (number : Option V → ℕ) (tables : Str → List (List V))
    (join : List Str → Str) (catalog : Catalog T) (s : StatsCache) (columns_of : Str → List Str)
    (bigint : T) where
  target-answers :
      ((key : Str) → IsIndexed (columns_of key))
      → AreBuilt number tables join catalog s columns_of
      → (es : List (Expression T)) (a : Aggregate T) (g : Get) (t : Target) (sum_type : T)
      → IsScan columns_of g
      → All IsUnfiltered a.calls
      → catalog.sum_type ≡ some sum_type
      → find_target join catalog s es a g ≡ some t
      → (below children : Plans T)
      → Agrees number tables
          (aggregation es a g below)
          (after_attempt es children (attempt_on join catalog s bigint es a g (some t)))
  target-answers indexed built es a g t sum_type scan unfiltered binds found below children =
      let (key, (names, (p, (h0, (h1, (h2, (h3, (h4, (h5, h6))))))))) =
        find_target-IsTarget join catalog s es a g t found in
      let (registered, (set, fresh)) = fresh_projection-some join catalog s key names p h3 in
      let names_indexed : IsIndexed g.names = subst IsIndexed (sym (scan key h0)) (indexed key) in
      rw binds (
        same_answers es _ a _ g (new_get g t) below no_plan
          (λ test.
            answer-sum number tables a g t names bigint test h6 (λ row.
              retarget-keys g (new_get g t) 0 (t.count ∷ []) t.ids t.entry.columns names a.groups
                row refl h2 h5)
            ∙ projected_rows number tables join catalog s columns_of key names p t.entry test
                (built key p t.entry registered h4)
                (subst (λ c. All (IsColumn c) names) (scan key h0)
                  (group_names-IsColumn g a.groups names h2))
                set fresh
            ∙ ap (λ c. total (counted c names test) (tables key)) (sym (scan key h0))
            ∙ sym (
                answer-count number tables a g key names test names_indexed h0 h1 unfiltered
                  (λ row. group_names-keys g a.groups names row names_indexed h2)))
          refl (cast_output-output a.aggregate_index sum_type es))

  module _ (sum_type : T) (binds : catalog.sum_type ≡ some sum_type)
      (indexed : (key : Str) → IsIndexed (columns_of key))
      (built : AreBuilt number tables join catalog s columns_of) where
    projection-Agrees :
        (es : List (Expression T)) (children children' : Plans T)
        → AreCovered columns_of children
        → Agree number tables children children'
        → Agrees number tables (projection es children) (
            after_attempt es children'
              (try_rewrite_to_projection join catalog s bigint es children))
    unfolding IsCovered
    projection-Agrees es (and_plan (aggregate a (and_plan (get g below) no_plan)) no_plan) children'
          h k =
        elim (Option-cases (find_target join catalog s es a g)) [
          | inl e ↦ rw e (same_projection es k)
          | inr (t, e) ↦ rw e (
              target-answers indexed built es a g t sum_type h.0.1.0.0 h.0.0 binds e below
                children')
        ]
    projection-Agrees es no_plan children' h k = same_projection es k
    projection-Agrees es (and_plan (get g below) ps) children' h k = same_projection es k
    projection-Agrees es (and_plan (projection fs below) ps) children' h k = same_projection es k
    projection-Agrees es (and_plan (other_operator below) ps) children' h k = same_projection es k
    projection-Agrees es (and_plan (aggregate a no_plan) ps) children' h k = same_projection es k
    projection-Agrees es (and_plan (aggregate a (and_plan (projection fs below) qs)) ps) children' h
          k =
        same_projection es k
    projection-Agrees es (and_plan (aggregate a (and_plan (aggregate b below) qs)) ps) children' h
          k =
        same_projection es k
    projection-Agrees es (and_plan (aggregate a (and_plan (other_operator below) qs)) ps) children'
          h k =
        same_projection es k
    projection-Agrees es (and_plan (aggregate a (and_plan (get g below) no_plan)) (and_plan p ps))
          children' h k =
        same_projection es k
    projection-Agrees es (and_plan (aggregate a (and_plan (get g below) (and_plan q qs))) ps)
          children' h k =
        same_projection es k

    mutual
      unfolding rewrite_aggregates IsCovered

      rewrite_aggregates-Agrees :
          (p : Plan T)
          → IsCovered columns_of p
          → Agrees number tables p (rewrite_aggregates join catalog s bigint p)
      rewrite_aggregates-Agrees (get g children) h =
          same_get g (rewrite_children-Agree children h.1)
      rewrite_aggregates-Agrees (projection es children) h =
          projection-Agrees es children (rewrite_children join catalog s bigint children) h
            (rewrite_children-Agree children h)
      rewrite_aggregates-Agrees (aggregate a children) h =
          same_aggregate a (rewrite_children-Agree children h.1)
      rewrite_aggregates-Agrees (other_operator children) h =
          same_operator (rewrite_children-Agree children h)

      rewrite_children-Agree :
          (ps : Plans T)
          → AreCovered columns_of ps
          → Agree number tables ps (rewrite_children join catalog s bigint ps)
      rewrite_children-Agree no_plan h = none_agree
      rewrite_children-Agree (and_plan p ps) h =
          and_agree (rewrite_aggregates-Agrees p h.0) (rewrite_children-Agree ps h.1)
