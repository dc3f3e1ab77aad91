-- ===== src/Serialized.antt =====
-- RawIngestSerialized of src/raw_ingest.cpp, with RawBeginTransaction, RawRollbackTransaction and
-- RawCommitTransaction: one attempt in a transaction, and a second after a conflict. `D` is the state of
-- the database. What DuckDB does is a parameter: the ingest of an attempt, whether a commit is
-- accepted, and whether a refused commit ends the transaction.
pub mod Atomic
pub mod Leader
pub mod Creation
use rawduck.Prelude.{ℕ, Bool, true, false, Str, if◌then◌else◌, Result, err, ok}
use rawduck.Commit.{Stats}

-- ClientContext::transaction
pub data Txn : Type 0 where
  auto_commit : Txn
  active : Bool → Txn

pub data Thrown : Type 0 where
  transaction_exception other_exception : Str → Thrown

pub record Session (D : Type 0) : Type 0 where
  pub txn : Txn
  pub durable : D
  pub working : D
  -- RawTableCreationCache::known_to_exist, for the target
  pub known : Bool

-- What an attempt does inside its transaction.
pub record Attempt (D : Type 0) : Type 0 where
  pub result : Result Thrown Stats
  pub after : D
  pub invalidates : Bool

-- The session after a step, and what the step returned or threw.
abbrev pub Done : Type 0 → Type 0 → Type 0
Done D A = Session D × Result Thrown A

abbrev pub and_then_done : {D A B : Type 0} → Done D A → (Session D → A → Done D B) → Done D B
and_then_done (s, err e) f = (s, err e)
and_then_done (s, ok a) f = f s a

module _ {D : Type 0} (accepts : D → Bool) (refusal_ends : Bool) (message : Str) where
  -- RawBeginTransaction
  abbrev pub begin_in : Session D → Txn → Done D Unit
  begin_in s auto_commit = (record s { txn = active false; working = s.durable }, ok tt)
  begin_in s (active invalid) = (s, err (transaction_exception message))

  unfoldable pub begin_transaction : Session D → Done D Unit
  begin_transaction s = begin_in s s.txn

  -- RawRollbackTransaction
  abbrev pub rollback_in : Session D → Txn → Done D Unit
  rollback_in s auto_commit = (s, err (transaction_exception message))
  rollback_in s (active invalid) = (record s { txn = auto_commit; working = s.durable }, ok tt)

  unfoldable pub rollback_transaction : Session D → Done D Unit
  rollback_transaction s = rollback_in s s.txn

  -- RawCommitTransaction. An invalidated transaction is rolled back.
  abbrev pub commit_in : Session D → Txn → Done D Unit
  commit_in s auto_commit = (s, err (transaction_exception message))
  commit_in s (active true) = rollback_in s (active true)
  commit_in s (active false) =
      if accepts s.working then (record s { txn = auto_commit; durable = s.working }, ok tt) else (
        record s { txn = if refusal_ends then auto_commit else active true },
        err (transaction_exception message),
      )

  unfoldable pub commit_transaction : Session D → Done D Unit
  commit_transaction s = commit_in s s.txn

  abbrev pub ingested : Session D → Attempt D → Done D Stats
  ingested s a = (record s { txn = active a.invalidates; working = a.after }, a.result)

  -- RawIngestParsedPayload, the commit and mark_known
  unfoldable pub run_attempt : (D → Attempt D) → Session D → Done D Stats
  run_attempt ingest s = and_then_done (ingested s (ingest s.working)) (λ t stats.
      and_then_done (commit_transaction t) (λ u _. (record u { known = true }, ok stats)))

  -- Meanwhile other connections may commit.
  abbrev pub meanwhile : (D → D) → Session D → Session D
  meanwhile others s = record s { durable = others s.durable }

  abbrev pub final_attempt : (D → Attempt D) → (D → D) → Session D → Done D Stats
  final_attempt ingest others s =
      and_then_done (begin_transaction (meanwhile others s)) (λ t _. run_attempt ingest t)

  -- The handler of the first attempt.
  abbrev pub or_retry : (D → Attempt D) → (D → D) → Done D Stats → Done D Stats
  or_retry second others (s, ok stats) = (s, ok stats)
  or_retry second others (s, err (other_exception e)) = (s, err (other_exception e))
  or_retry second others (s, err (transaction_exception e)) =
      and_then_done (rollback_transaction s) (λ t _. final_attempt second others t)

  -- RawIngestSerialized
  unfoldable pub raw_ingest_serialized :
      (D → Attempt D) → (D → Attempt D) → (D → D) → Session D → Done D Stats
  raw_ingest_serialized first second others s =
      and_then_done (begin_transaction s) (λ t _. or_retry second others (run_attempt first t))
