-- ===== src/Serialized/Atomic.antt =====
-- An ingest is committed whole by one of its attempts, or not at all.
use rawduck.Prelude.{
  Bool, true, false, Str, Result, err, ok, ◌≡◌, ◌⊎◌, refl, ap, ◌∙◌, inl, inr, subst,
}
use rawduck.Commit.{Stats}
use rawduck.Serialized.{
  Txn, auto_commit, active, Thrown, transaction_exception, other_exception, Session, Attempt, Done,
  and_then_done, begin_transaction, rollback_transaction, commit_transaction, ingested, commit_in,
  begin_in, rollback_in, run_attempt, final_attempt, or_retry, raw_ingest_serialized,
}

module _ {D : Type 0} (accepts : D → Bool) (refusal_ends : Bool) (message : Str) where
  -- The attempt succeeded with these statistics, and the database is what it made of it, or what it
  -- was if the transaction had become invalid.
  abbrev pub IsCommitted : Attempt D → D → Stats → D → Type 0
  IsCommitted a before stats now =
      (a.result ≡ ok stats)
      × (((a.invalidates ≡ false) × (accepts a.after ≡ true) × (now ≡ a.after))
          ⊎ ((a.invalidates ≡ true) × (now ≡ before)))

  abbrev IsAttempted : Attempt D → Session D → Done D Stats → Type 0
  IsAttempted a s (t, ok stats) =
      (t.txn ≡ auto_commit) × (t.known ≡ true) × IsCommitted a s.durable stats t.durable
  IsAttempted a s (t, err e) = (t.known ≡ s.known) × (t.durable ≡ s.durable)

  run_attempt-IsAttempted :
      (ingest : D → Attempt D) (s : Session D)
      → IsAttempted (ingest s.working) s (run_attempt accepts refusal_ends message ingest s)
  unfolding run_attempt commit_transaction
  run_attempt-IsAttempted ingest s =
      let a = ingest s.working in go a.result a.invalidates a.after (accepts a.after) refl
    where
      go :
          (r : Result Thrown Stats) (invalid : Bool) (after : D) (accepted : Bool)
          → accepts after ≡ accepted
          → IsAttempted
              (record { result = r; after = after; invalidates = invalid })
              s
              (and_then_done
                (record s { txn = active invalid; working = after }, r)
                (λ t stats.
                  and_then_done
                    (commit_in accepts refusal_ends message t t.txn)
                    (λ u _. (record u { known = true }, ok stats))))
      go (err e) invalid after accepted h = (refl, refl)
      go (ok stats) true after accepted h = (refl, refl, (refl, inr (refl, refl)))
      go (ok stats) false after true h = rw h (refl, refl, (refl, inl (refl, h, refl)))
      go (ok stats) false after false h = rw h (refl, refl)

  -- Nothing of the ingest is in the database, or what exactly one of the two attempts made of it.
  abbrev pub IsAtomic : Attempt D → Attempt D → D → D → Session D → Done D Stats → Type 0
  IsAtomic first second before later s (t, ok stats) =
      (t.txn ≡ auto_commit)
      × (t.known ≡ true)
      × (IsCommitted first before stats t.durable ⊎ IsCommitted second later stats t.durable)
  IsAtomic first second before later s (t, err e) =
      (t.known ≡ s.known) × ((t.durable ≡ before) ⊎ (t.durable ≡ later))

  second-IsAtomic :
      (first a : Attempt D) (before : D) (s t : Session D) (r : Done D Stats)
      → t.known ≡ s.known
      → IsAttempted a t r
      → IsAtomic first a before t.durable s r
  second-IsAtomic first a before s t (u, ok stats) k h = (h.0, h.1, inr h.2)
  second-IsAtomic first a before s t (u, err e) k h = (h.0 ∙ k, inr h.1)

  rolled_back-IsAtomic :
      (first : Attempt D) (second : D → Attempt D) (others : D → D) (s t : Session D) (txn : Txn)
      → t.known ≡ s.known
      → IsAtomic first (second (others t.durable)) t.durable (others t.durable) s (
          and_then_done
            (rollback_in accepts refusal_ends message t txn)
            (λ u _. final_attempt accepts refusal_ends message second others u))
  unfolding begin_transaction
  rolled_back-IsAtomic first second others s t auto_commit k = (k, inl refl)
  rolled_back-IsAtomic first second others s t (active invalid) k =
      let again : Session D = record t {
        txn = active false;
        durable = others t.durable;
        working = others t.durable;
      } in
      second-IsAtomic first (second (others t.durable)) t.durable s again
        (run_attempt accepts refusal_ends message second again) k
        (run_attempt-IsAttempted second again)

  or_retry-IsAtomic :
      (a : Attempt D) (second : D → Attempt D) (others : D → D) (s t : Session D) (r : Done D Stats)
      → t.known ≡ s.known
      → t.durable ≡ s.durable
      → IsAttempted a t r
      → IsAtomic a
          (second (others s.durable))
          s.durable
          (others s.durable)
          s
          (or_retry accepts refusal_ends message second others r)
  unfolding rollback_transaction
  or_retry-IsAtomic a second others s t (u, ok stats) k d h =
      (h.0, h.1, inl (subst (λ x. IsCommitted a x stats u.durable) d h.2))
  or_retry-IsAtomic a second others s t (u, err (other_exception e)) k d h =
      (h.0 ∙ k, inl (h.1 ∙ d))
  or_retry-IsAtomic a second others s t (u, err (transaction_exception e)) k d h =
      subst
        (λ x.
          IsAtomic a (second (others x)) x (others x) s (
            or_retry accepts refusal_ends message second others (u, err (transaction_exception e))))
        (h.1 ∙ d) (rolled_back-IsAtomic a second others s u u.txn (h.0 ∙ k))

  begun-IsAtomic :
      (first second : D → Attempt D) (others : D → D) (s : Session D) (txn : Txn)
      → IsAtomic (first s.durable) (second (others s.durable)) s.durable (others s.durable) s (
          and_then_done (begin_in accepts refusal_ends message s txn) (λ t _.
            or_retry accepts refusal_ends message second others
              (run_attempt accepts refusal_ends message first t)))
  begun-IsAtomic first second others s (active invalid) = (refl, inl refl)
  begun-IsAtomic first second others s auto_commit =
      let t : Session D = record s { txn = active false; working = s.durable } in
      or_retry-IsAtomic (first s.durable) second others s t
        (run_attempt accepts refusal_ends message first t) refl refl
        (run_attempt-IsAttempted first t)

  -- RawIngestSerialized commits what exactly one of its two attempts made of the database that this
  -- attempt began with, and then the table is known to exist and no transaction is open; or it throws,
  -- nothing of either attempt is in the database, and the table is not marked as known. The one
  -- exception is an attempt whose transaction became invalid: it succeeds and nothing is committed.
  pub raw_ingest_serialized-IsAtomic :
      (first second : D → Attempt D) (others : D → D) (s : Session D)
      → IsAtomic
          (first s.durable)
          (second (others s.durable))
          s.durable
          (others s.durable)
          s
          (raw_ingest_serialized accepts refusal_ends message first second others s)
  unfolding raw_ingest_serialized begin_transaction
  raw_ingest_serialized-IsAtomic first second others s = begun-IsAtomic first second others s s.txn

-- A commit that is refused is not tried again if DuckDB ends the transaction with the refusal: the
-- rollback that comes first throws, whatever the second attempt would do, and no transaction is
-- open.
pub refused_commit-throws :
    {D : Type 0} (accepts : D → Bool) (message : Str) (first second : D → Attempt D)
    (others : D → D) (s : Session D) (stats : Stats) (after : D)
    → s.txn ≡ auto_commit
    → first s.durable ≡ record { result = ok stats; after = after; invalidates = false }
    → accepts after ≡ false
    → raw_ingest_serialized accepts true message first second others s
      ≡ (record s { txn = auto_commit; working = after }, err (transaction_exception message))
unfolding raw_ingest_serialized begin_transaction run_attempt commit_transaction
    rollback_transaction
refused_commit-throws {D} accepts message first second others s stats after e a r =
    ap
      (λ txn. and_then_done (begin_in accepts true message s txn) (λ t _.
        or_retry accepts true message second others (run_attempt accepts true message first t)))
      e
    ∙ ap
        (λ (x : Attempt D). or_retry accepts true message second others (
          and_then_done
            (ingested accepts true message (record s { txn = active false; working = s.durable }) x)
            (λ t stats.
              and_then_done (commit_transaction accepts true message t)
                (λ u _. (record u { known = true }, ok stats)))))
        a
    ∙ rw r refl
