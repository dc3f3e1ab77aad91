-- ===== src/Pool/Conserve.antt =====
-- No row is lost or appended twice between Submit and Drain.
use rawduck.Prelude.{
  ℕ, zero, suc, ◌+◌, ◌≡◌, refl, sym, ap, inl, inr, Bool, true, false, some, Option-cases, List, [],
  ◌∷◌, ◌++◌, get_elem?, replicate, update_nth, All, All-append, All-map, All-update_nth,
  All-get_elem?, All-replicate, if_both, arith, subst, some-eq,
}
use mathlib.Core.List.{append-nil}
use rawduck.Catalog.{Columns}
use rawduck.Payload.{RawParsedPayload}
use rawduck.Pool.{
  Pool, Worker, create_pool, publish_columns, extend_worker, end_loop, append_to, loop_round,
  take_front, appends, worker_step, stop, batch_rows, worker_rows, pad_workers, drain,
}
use rawduck.Pool.Layout.{covers, covers-append}
use rawduck.Pool.Prefix.{
  HasPrefixes, PrefixOf, extend_worker-published, submit-same, Reach-prefix, loop_round-HasPrefixes,
}
use rawduck.Pool.Reach.{Reach, starts, submits, publishes, works, stops}

pub batch_rows-append :
    (xs ys : List RawParsedPayload) → batch_rows (xs ++ ys) ≡ batch_rows xs + batch_rows ys
batch_rows-append [] ys = omega arith
batch_rows-append (x ∷ xs) ys = omega (arith, batch_rows-append xs ys)

worker_rows-update_nth :
    (ws : List Worker) (i : ℕ) (w w' : Worker)
    → get_elem? ws i ≡ some w
    → worker_rows (update_nth ws i w') + batch_rows w.appended
      ≡ worker_rows ws + batch_rows w'.appended
worker_rows-update_nth [] i w w' e = cc
worker_rows-update_nth (v ∷ ws) zero w w' e =
    omega (arith, ap (λ u. batch_rows u.appended) (some-eq v w e))
worker_rows-update_nth (v ∷ ws) (suc i) w w' e = omega (arith, worker_rows-update_nth ws i w w' e)

worker_rows-replicate : (n : ℕ) (w : Worker) → w.appended ≡ [] → worker_rows (replicate n w) ≡ 0
worker_rows-replicate zero w e = refl
worker_rows-replicate (suc n) w e = omega (arith, worker_rows-replicate n w e, ap batch_rows e)

worker_rows-pad :
    (cs : Columns) (ws : List Worker) → worker_rows (pad_workers cs ws) ≡ worker_rows ws
worker_rows-pad cs [] = refl
worker_rows-pad cs (w ∷ ws) = ap (λ n. batch_rows w.appended + n) (worker_rows-pad cs ws)

abbrev IsCovered : Columns → RawParsedPayload → Type 0
IsCovered cs b = covers cs b.columns ≡ true

-- The rows that were accepted are in the queue or in a collection, and nothing has failed.
abbrev Sound : List RawParsedPayload → Pool → Type 0
Sound batches p =
    HasPrefixes p
    × All (IsCovered p.published) p.queue
    × (p.failed ≡ false)
    × (batch_rows p.queue + worker_rows p.workers ≡ batch_rows batches)

module _ (throws : Columns → RawParsedPayload → Bool)
    (never : (cs : Columns) (b : RawParsedPayload) → throws cs b ≡ false) where
  appends-covered :
      (p : Pool) (w : Worker) (b : RawParsedPayload)
      → PrefixOf p.published w
      → IsCovered p.published b
      → appends throws (extend_worker p.published w) b ≡ true
  appends-covered p w b h c =
      rw (extend_worker-published p.published w h, c, never p.published b) refl

  -- Taking the front batch moves its rows from the queue to the worker.
  take_front-Sound :
      (batches : List RawParsedPayload) (p : Pool) (i : ℕ) (w : Worker) (b : RawParsedPayload)
      (rest : List RawParsedPayload)
      → HasPrefixes (take_front throws p i w b rest)
      → All (IsCovered p.published) (b ∷ rest)
      → p.failed ≡ false
      → batch_rows (b ∷ rest) + worker_rows p.workers ≡ batch_rows batches
      → PrefixOf p.published w
      → get_elem? p.workers i ≡ some w
      → Sound batches (take_front throws p i w b rest)
  take_front-Sound batches p i w b rest hp hc hf hr k e =
      subst (λ q. HasPrefixes q → Sound batches q) (sym taken) sound hp
    where
      next : Worker
      next = append_to (extend_worker p.published w) b

      after : Pool
      after = record p { queue = rest; workers = update_nth p.workers i next }

      taken : take_front throws p i w b rest ≡ after
      taken = rw (appends-covered p w b k hc.0) refl

      sound : HasPrefixes after → Sound batches after
      sound hp' = (
        hp',
        hc.1,
        hf,
        omega (
          arith,
          hr,
          worker_rows-update_nth p.workers i w next e,
          batch_rows-append w.appended (b ∷ []),
        ),
      )

  loop_round-Sound :
      (batches : List RawParsedPayload) (p : Pool) (i : ℕ) (w : Worker)
      (queue : List RawParsedPayload)
      → p.queue ≡ queue
      → Sound batches p
      → get_elem? p.workers i ≡ some w
      → Sound batches (loop_round throws p i w queue)
  loop_round-Sound batches p i w [] q h e =
      if_both (Sound batches) p.stopped (record p { workers = update_nth p.workers i (end_loop w) })
        p
        (
          All-update_nth (PrefixOf p.published) p.workers i (end_loop w) h.0
              (All-get_elem? (PrefixOf p.published) p.workers i w h.0 e),
          h.1,
          h.2,
          omega (arith, h.3, worker_rows-update_nth p.workers i w (end_loop w) e),
        )
        h
  loop_round-Sound batches p i w (b ∷ rest) q h e =
      let k = All-get_elem? (PrefixOf p.published) p.workers i w h.0 e in
      take_front-Sound batches p i w b rest (loop_round-HasPrefixes throws p i w (b ∷ rest) h.0 k)
        (subst (All (IsCovered p.published)) q h.1) h.2 (omega (arith, h.3, ap batch_rows q)) k e

  worker_step-Sound :
      (batches : List RawParsedPayload) (p : Pool) (i : ℕ)
      → Sound batches p
      → Sound batches (worker_step throws p i)
  unfolding worker_step
  worker_step-Sound batches p i h = elim (Option-cases (get_elem? p.workers i)) [
    | inl e ↦ rw (e, worker_step) h
    | inr (w, e) ↦
        rw (e, worker_step)
          (if_both (Sound batches) w.running (loop_round throws p i w p.queue) p
            (loop_round-Sound batches p i w p.queue refl h e) h)
  ]

  -- Until Drain, the rows that Submit accepted are in the queue or in a collection.
  Reach-Sound :
      (columns : Columns) (worker_count depth : ℕ) (batches : List RawParsedPayload) (p : Pool)
      → Reach throws (create_pool columns worker_count depth) batches p
      → Sound batches p
  unfolding create_pool publish_columns stop
  Reach-Sound columns n depth batches p starts = (
    All-replicate (PrefixOf columns) n (record { local = columns; appended = []; running = true })
        ([], sym (append-nil columns)),
    tt,
    refl,
    omega (
      arith,
      worker_rows-replicate n (record { local = columns; appended = []; running = true }) refl,
    ),
  )
  Reach-Sound columns n depth batches p (submits bs q p' b r c e) =
      let h = Reach-Sound columns n depth bs q r in
      rw (submit-same q p' b e) (
        h.0,
        All-append (IsCovered q.published) q.queue (b ∷ []) h.1 (c, tt),
        h.2,
        omega (arith, h.3, batch_rows-append q.queue (b ∷ [])),
      )
  Reach-Sound columns n depth batches p (publishes bs q new r) =
      let h = Reach-Sound columns n depth bs q r in
      (
        Reach-prefix throws columns n depth bs (publish_columns q new) (publishes bs q new r),
        All-map (IsCovered q.published) (IsCovered (q.published ++ new))
            (λ b c. covers-append q.published new b.columns c) q.queue h.1,
        h.2,
        h.3,
      )
  Reach-Sound columns n depth batches p (works bs q i r) =
      worker_step-Sound bs q i (Reach-Sound columns n depth bs q r)
  Reach-Sound columns n depth batches p (stops bs q r) = Reach-Sound columns n depth bs q r

  -- When no cast or append fails and the columns of each batch are published before it is submitted,
  -- then however the threads interleave, a drain of the emptied queue succeeds and counts exactly the
  -- rows of the batches that were accepted.
  pub drain-Reach :
      (columns : Columns) (worker_count depth : ℕ) (batches : List RawParsedPayload) (p : Pool)
      → Reach throws (create_pool columns worker_count depth) batches p
      → p.queue ≡ []
      → drain p ≡ some (pad_workers p.published p.workers, batch_rows batches)
  unfolding drain
  drain-Reach columns n depth batches p r e =
      let h = Reach-Sound columns n depth batches p r in
      rw (h.2, worker_rows-pad p.published p.workers)
        (ap (λ k. some (pad_workers p.published p.workers, k))
          (omega (arith, h.3, ap batch_rows e)))
