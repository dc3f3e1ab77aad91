-- ===== src/Pool/Prefix.antt =====
-- Worker layouts are prefixes of the published columns, whatever the threads do.
use rawduck.Prelude.{
  ℕ, ◌≡◌, refl, sym, ◌∙◌, ap, inl, inr, Bool, true, Option-cases, Bool-cases, List, [], ◌∷◌, ◌++◌,
  drop-append, get_elem?, All, All-update_nth, All-get_elem?, All-replicate, All-map, if_both,
  arith,
}
use mathlib.Core.List.{append_assoc, append-nil}
use rawduck.Catalog.{Columns}
use rawduck.Payload.{RawParsedPayload}
use rawduck.Pool.{
  Pool, Worker, create_pool, submit, accepted, publish_columns, extend_worker, end_loop, append_to,
  loop_round, take_front, appends, worker_step, stop,
}
use rawduck.Pool.Reach.{Reach, starts, submits, publishes, works, stops}

abbrev pub IsPrefix : Columns → Columns → Type 0
IsPrefix short long = (rest : Columns) × (long ≡ short ++ rest)

abbrev pub PrefixOf : Columns → Worker → Type 0
PrefixOf published w = IsPrefix w.local published

-- A worker that catches up has the published layout.
pub extend_worker-published :
    (published : Columns) (w : Worker)
    → PrefixOf published w
    → (extend_worker published w).local ≡ published
extend_worker-published published w (rest, e) = rw e (rw (drop-append w.local rest) refl)

PrefixOf-extend :
    (published : Columns) (w : Worker)
    → PrefixOf published w
    → PrefixOf published (extend_worker published w)
PrefixOf-extend published w h =
    ([], sym (extend_worker-published published w h) ∙ sym (append-nil _))

PrefixOf-publish :
    (published new_columns : Columns) (w : Worker)
    → PrefixOf published w
    → PrefixOf (published ++ new_columns) w
PrefixOf-publish published new_columns w (rest, e) =
    (rest ++ new_columns, ap (λ cs. cs ++ new_columns) e ∙ append_assoc w.local rest new_columns)

abbrev pub HasPrefixes : Pool → Type 0
HasPrefixes p = All (PrefixOf p.published) p.workers

module _ (throws : Columns → RawParsedPayload → Bool) where
  take_front-HasPrefixes :
      (p : Pool) (i : ℕ) (w : Worker) (b : RawParsedPayload) (rest : List RawParsedPayload)
      → HasPrefixes p
      → PrefixOf p.published w
      → HasPrefixes (take_front throws p i w b rest)
  take_front-HasPrefixes p i w b rest h k =
      elim (Bool-cases (appends throws (extend_worker p.published w) b)) [
        | inl e ↦ rw e (
            All-update_nth (PrefixOf p.published) p.workers i
              (append_to (extend_worker p.published w) b) h (PrefixOf-extend p.published w k))
        | inr e ↦ rw e (
            All-update_nth (PrefixOf p.published) p.workers i
              (end_loop (extend_worker p.published w)) h (PrefixOf-extend p.published w k))
      ]

  pub loop_round-HasPrefixes :
      (p : Pool) (i : ℕ) (w : Worker) (queue : List RawParsedPayload)
      → HasPrefixes p
      → PrefixOf p.published w
      → HasPrefixes (loop_round throws p i w queue)
  loop_round-HasPrefixes p i w [] h k = elim (Bool-cases p.stopped) [
    | inl e ↦ rw e (All-update_nth (PrefixOf p.published) p.workers i (end_loop w) h k)
    | inr e ↦ rw e h
  ]
  loop_round-HasPrefixes p i w (b ∷ rest) h k = take_front-HasPrefixes p i w b rest h k

  worker_step-HasPrefixes :
      (p : Pool) (i : ℕ) → HasPrefixes p → HasPrefixes (worker_step throws p i)
  unfolding worker_step
  worker_step-HasPrefixes p i h = elim (Option-cases (get_elem? p.workers i)) [
    | inl e ↦ rw (e, worker_step) h
    | inr (w, e) ↦
        rw (e, worker_step)
          (if_both HasPrefixes w.running (loop_round throws p i w p.queue) p
            (loop_round-HasPrefixes p i w p.queue h
              (All-get_elem? (PrefixOf p.published) p.workers i w h e))
            h)
  ]

pub submit-same :
    (p p' : Pool) (b : RawParsedPayload)
    → submit p b ≡ accepted p'
    → p' ≡ record p { queue = p.queue ++ (b ∷ []) }
unfolding submit
submit-same p p' b e = ground arith

-- However the threads interleave, the layout of every worker's collection is a prefix of the
-- published columns, so collections merge into the table position by position.
pub Reach-prefix :
    (throws : Columns → RawParsedPayload → Bool) (columns : Columns) (worker_count depth : ℕ)
    (batches : List RawParsedPayload) (p : Pool)
    → Reach throws (create_pool columns worker_count depth) batches p
    → HasPrefixes p
unfolding create_pool publish_columns stop
Reach-prefix throws columns n depth batches p starts =
    All-replicate (PrefixOf columns) n (record { local = columns; appended = []; running = true })
      ([], sym (append-nil columns))
Reach-prefix throws columns n depth batches p (submits bs q p' b r c e) =
    rw (submit-same q p' b e) (Reach-prefix throws columns n depth bs q r)
Reach-prefix throws columns n depth batches p (publishes bs q new r) =
    All-map (PrefixOf q.published) (PrefixOf (q.published ++ new))
      (λ w h. PrefixOf-publish q.published new w h) q.workers
      (Reach-prefix throws columns n depth bs q r)
Reach-prefix throws columns n depth batches p (works bs q i r) =
    worker_step-HasPrefixes throws q i (Reach-prefix throws columns n depth bs q r)
Reach-prefix throws columns n depth batches p (stops bs q r) =
    Reach-prefix throws columns n depth bs q r
