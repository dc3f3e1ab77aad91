-- ===== src/Serialized/Leader.antt =====
-- The rounds of the leader in RawIngestGroupCommit of src/raw_ingest.cpp: the batch goes through
-- RawIngestSerialized, a failure is rolled back, and the requests of the batch are resolved.
use rawduck.Prelude.{
  map, ◌++◌, [], if◌then◌else◌, arith, Bool, true, false, Str, List, ◌≡◌, refl, ap, sym, subst,
  Bool-cases, ◌⊎◌, inl, inr, Result, err, ok,
}
use rawduck.Commit.{
  Stats, PendingItem, Coordinator, Outcome, failed, committed, own_outcome, resolve_batch, abandon,
}
use rawduck.Commit.Fifo.{Runs, IsStranded, Runs-IsStranded}
use rawduck.Serialized.{
  Txn, auto_commit, active, Thrown, transaction_exception, other_exception, Session, Attempt, Done,
  and_then_done, begin_in, begin_transaction, rollback_in, rollback_transaction, commit_in,
  commit_transaction, run_attempt, final_attempt, or_retry, raw_ingest_serialized,
}
use rawduck.Serialized.Atomic.{refused_commit-throws}

-- ErrorData::RawMessage
abbrev pub raw_message : Thrown → Str
raw_message (transaction_exception message) = message
raw_message (other_exception message) = message

-- The handler: after the rollback the batch has failed; a rollback that throws leaves the loop.
abbrev pub after_rollback :
    {D : Type 0} → Coordinator → Thrown → Done D Unit → Session D × Coordinator
after_rollback c e (s, ok _) = (s, resolve_batch c (failed (raw_message e)))
after_rollback c e (s, err thrown) = (s, abandon c)

module _ {D : Type 0} (accepts : D → Bool) (refusal_ends : Bool) (message : Str) where
  abbrev pub after_ingest : Coordinator → Done D Stats → Session D × Coordinator
  after_ingest c (s, ok stats) = (s, resolve_batch c (committed stats))
  after_ingest c (s, err e) =
      after_rollback c e (rollback_transaction accepts refusal_ends message s)

  -- One round, once the batch is taken and merged.
  unfoldable pub lead_round :
      (D → Attempt D)
      → (D → Attempt D)
      → (D → D)
      → Session D
      → Coordinator
      → Session D × Coordinator
  lead_round first second others s c =
      after_ingest c (raw_ingest_serialized accepts refusal_ends message first second others s)

abbrev pub outcome_of : Result Thrown Stats → Outcome
outcome_of (ok stats) = committed stats
outcome_of (err e) = failed (raw_message e)

module _ {D : Type 0} (accepts : D → Bool) (refusal_ends : Bool) (message : Str) where
  -- DuckDB refused a commit and ended the transaction with it.
  abbrev pub IsRefused : Session D → Thrown → Type 0
  IsRefused s e =
      (refusal_ends ≡ true)
      × ((e ≡ transaction_exception message)
          × ((accepts s.working ≡ false) × (s.txn ≡ auto_commit)))

  -- A transaction is open exactly if an exception was thrown, unless a refusal ended it.
  abbrev IsOpen : Done D Stats → Type 0
  IsOpen (s, ok stats) = s.txn ≡ auto_commit
  IsOpen (s, err e) = ((invalid : Bool) × (s.txn ≡ active invalid)) ⊎ IsRefused s e

  commit-IsOpen :
      (s : Session D) (invalid : Bool) (stats : Stats)
      → IsOpen (
          and_then_done
            (commit_in accepts refusal_ends message s (active invalid))
            (λ u _. (record u { known = true }, ok stats)))
  commit-IsOpen s true stats = refl
  commit-IsOpen s false stats = elim (Bool-cases (accepts s.working)) [
    | inl e ↦ rw e refl
    | inr e ↦ elim (Bool-cases refusal_ends) [
      | inl r ↦ rw (e, r) (inr (refl, (refl, (e, refl))))
      | inr r ↦ rw (e, r) (inl (true, refl))
    ]
  ]

  attempt-IsOpen :
      (s : Session D) (a : Attempt D) (r : Result Thrown Stats)
      → IsOpen (
          and_then_done
            (record s { txn = active a.invalidates; working = a.after }, r)
            (λ t stats.
              and_then_done
                (commit_transaction accepts refusal_ends message t)
                (λ u _. (record u { known = true }, ok stats))))
  unfolding commit_transaction
  attempt-IsOpen s a (err e) = inl (a.invalidates, refl)
  attempt-IsOpen s a (ok stats) =
      commit-IsOpen (record s { txn = active a.invalidates; working = a.after }) a.invalidates stats

  run_attempt-IsOpen :
      (ingest : D → Attempt D) (s : Session D)
      → IsOpen (run_attempt accepts refusal_ends message ingest s)
  unfolding run_attempt
  run_attempt-IsOpen ingest s = attempt-IsOpen s (ingest s.working) (ingest s.working).result

  rolled_back-IsOpen :
      (second : D → Attempt D) (others : D → D) (s : Session D) (invalid : Bool)
      → IsOpen (
          and_then_done
            (rollback_in accepts refusal_ends message s (active invalid))
            (λ t _. final_attempt accepts refusal_ends message second others t))
  unfolding begin_transaction
  rolled_back-IsOpen second others s invalid = run_attempt-IsOpen second _

  or_retry-IsOpen :
      (second : D → Attempt D) (others : D → D) (r : Done D Stats)
      → IsOpen r
      → IsOpen (or_retry accepts refusal_ends message second others r)
  unfolding rollback_transaction
  or_retry-IsOpen second others (s, ok stats) h = h
  or_retry-IsOpen second others (s, err (other_exception e)) h = h
  or_retry-IsOpen second others (s, err (transaction_exception e)) (inl (invalid, h)) =
      subst
        (λ txn. IsOpen (
          and_then_done (rollback_in accepts refusal_ends message s txn)
            (λ t _. final_attempt accepts refusal_ends message second others t)))
        (sym h) (rolled_back-IsOpen second others s invalid)
  or_retry-IsOpen second others (s, err (transaction_exception e)) (inr (r, (_, (a, h)))) =
      subst
        (λ txn. IsOpen (
          and_then_done (rollback_in accepts refusal_ends message s txn)
            (λ t _. final_attempt accepts refusal_ends message second others t)))
        (sym h) (inr (r, (refl, (a, h))))

  serialized-IsOpen :
      (first second : D → Attempt D) (others : D → D) (s : Session D) (txn : Txn)
      → txn ≡ auto_commit
      → IsOpen (
          and_then_done (begin_in accepts refusal_ends message s txn) (λ t _.
            or_retry accepts refusal_ends message second others
              (run_attempt accepts refusal_ends message first t)))
  serialized-IsOpen first second others s auto_commit h =
      or_retry-IsOpen second others _ (run_attempt-IsOpen first _)
  serialized-IsOpen first second others s (active invalid) h = ground (arith, h)

  -- Every request of the batch has the outcome, none is left in it, and the session is ready for
  -- the next round.
  abbrev pub IsResolved : Coordinator → Outcome → Session D × Coordinator → Type 0
  IsResolved c outcome r =
      (r.1.resolved ≡ c.resolved ++ map (λ item. (item, own_outcome outcome item)) c.batch)
      × ((r.1.batch ≡ []) × (r.0.txn ≡ auto_commit))

  -- What DuckDB refused to commit, in place of an outcome.
  abbrev pub IsAbandoned : Coordinator → Done D Stats → Session D × Coordinator → Type 0
  IsAbandoned c (s, ok stats) r = ⊥
  IsAbandoned c (s, err e) r = IsRefused s e × (r.1 ≡ abandon c)

  resolve_batch-IsResolved :
      (c : Coordinator) (outcome : Outcome) (s : Session D)
      → c.leading ≡ true
      → s.txn ≡ auto_commit
      → IsResolved c outcome (s, resolve_batch c outcome)
  unfolding resolve_batch
  resolve_batch-IsResolved c outcome s leads h =
      let resolved = c.resolved ++ map (λ item. (item, own_outcome outcome item)) c.batch in
      let done : Bool → Coordinator =
        λ b. if b then record c { resolved = resolved; batch = [] } else c in
      (ap (λ b. (done b).resolved) leads, (ap (λ b. (done b).batch) leads, h))

  after_ingest-IsResolved :
      (c : Coordinator) (r : Done D Stats)
      → c.leading ≡ true
      → IsOpen r
      → IsResolved c (outcome_of r.1) (after_ingest accepts refusal_ends message c r)
        ⊎ IsAbandoned c r (after_ingest accepts refusal_ends message c r)
  unfolding rollback_transaction
  after_ingest-IsResolved c (s, ok stats) leads h =
      inl (resolve_batch-IsResolved c (committed stats) s leads h)
  after_ingest-IsResolved c (s, err e) leads (inl (invalid, h)) = inl (
      subst
        (λ txn.
          IsResolved c (failed (raw_message e))
            (after_rollback c e (rollback_in accepts refusal_ends message s txn)))
        (sym h)
        (resolve_batch-IsResolved c (failed (raw_message e))
          (record s { txn = auto_commit; working = s.durable }) leads refl))
  after_ingest-IsResolved c (s, err e) leads (inr refused) = inr (
    refused,
    ap (λ txn. (after_rollback c e (rollback_in accepts refusal_ends message s txn)).1)
        refused.1.1.1,
  )

  -- A round of the leader that begins with no transaction open ends in one of two ways. It resolves
  -- all requests of its batch, with the statistics that RawIngestSerialized returned or the message
  -- that it threw, and leaves no transaction open. Or it abandons them, which it does only if
  -- RawIngestSerialized threw because DuckDB refused to commit what was ingested, and DuckDB ends a
  -- transaction with the refusal of its commit, so that there is nothing left to roll back.
  pub lead_round-IsResolved :
      (first second : D → Attempt D) (others : D → D) (s : Session D) (c : Coordinator)
      → c.leading ≡ true
      → s.txn ≡ auto_commit
      → let done = raw_ingest_serialized accepts refusal_ends message first second others s in
        let round = lead_round accepts refusal_ends message first second others s c in
        IsResolved c (outcome_of done.1) round ⊎ IsAbandoned c done round
  unfolding lead_round raw_ingest_serialized begin_transaction
  lead_round-IsResolved first second others s c leads h =
      after_ingest-IsResolved c _ leads (serialized-IsOpen first second others s s.txn h)

-- When DuckDB ends a transaction with the refusal of its commit, a refused commit strands the table:
-- the rollback of the leader throws, the requests of the batch stay unresolved, and no request for
-- the table is ever resolved again, whatever requests follow and whatever they do.
pub refused_commit-strands :
    {D : Type 0} (accepts : D → Bool) (message : Str) (first second : D → Attempt D)
    (others : D → D) (s : Session D) (stats : Stats) (after : D) (c : Coordinator)
    → s.txn ≡ auto_commit
    → first s.durable ≡ record { result = ok stats; after = after; invalidates = false }
    → accepts after ≡ false
    → c.committing ≡ true
    → (entered : List PendingItem) (d : Coordinator)
    → Runs (lead_round accepts true message first second others s c).1 entered d
    → IsStranded d × (d.resolved ≡ c.resolved)
unfolding lead_round rollback_transaction abandon
refused_commit-strands accepts message first second others s stats after c h a r marked entered d
      runs =
    let thrown : (lead_round accepts true message first second others s c).1 ≡ abandon c =
      ap (λ x. (after_ingest accepts true message c x).1)
        (refused_commit-throws accepts message first second others s stats after h a r) in
    Runs-IsStranded (abandon c) entered d (marked, refl) (subst (λ x. Runs x entered d) thrown runs)
