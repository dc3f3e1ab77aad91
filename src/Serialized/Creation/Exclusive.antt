-- ===== src/Serialized/Creation/Exclusive.antt =====
-- At most one request at a time ingests into a table that is not known to exist.
use rawduck.Prelude.{
  ℕ, ◌+◌, ◌≤◌, Bool, true, false, Option, none, some, List, [], ◌∷◌, ◌++◌, if◌then◌else◌, ◌≡◌, refl,
  ap, sym, ◌∙◌, subst, arith, Bool-cases, inl, inr,
}
use native.Mathlib.Nat.{zero-add}
use rawduck.Serialized.Creation.{
  Cache, Phase, entering, waiting, checking_again, left, ingesting, leaving, Ending, commits,
  throws, step_request, Reach, starts, arrives, moves, holds_lock, is_ingesting, sum_of,
}

-- Without the lock.
abbrev ingests_free : Phase → ℕ
ingests_free (ingesting holds) = if holds then 0 else 1
ingests_free _ = 0

sum_of-append :
    (f : Phase → ℕ) (ps qs : List Phase) → sum_of f (ps ++ qs) ≡ sum_of f ps + sum_of f qs
sum_of-append f [] qs = omega arith
sum_of-append f (p ∷ ps) qs = omega (arith, sum_of-append f ps qs)

-- The lock is held by as many requests as it says, and while the table is not known nobody ingests
-- without it.
abbrev IsLocked : Cache → ℕ → ℕ → Type 0
IsLocked c holders free =
    (holders ≡ (if c.held then 1 else 0)) × ((if c.known then 0 else free) ≡ 0)

-- The same after a step, if there was one.
abbrev IsStepped : ℕ → ℕ → Option (Cache × Phase) → Type 0
IsStepped holders free none = Unit
IsStepped holders free (some (d, q)) = IsLocked d (holds_lock q + holders) (ingests_free q + free)

-- A step of one request, among others that hold the lock or ingest without it.
step_request-IsStepped :
    (e : Ending) (known held : Bool) (p : Phase) (holders free : ℕ)
    → IsLocked
        (record { known = known; held = held })
        (holds_lock p + holders)
        (ingests_free p + free)
    → IsStepped holders free (step_request e (record { known = known; held = held }) p)
step_request-IsStepped e true held entering m n h = (h.0, refl)
step_request-IsStepped e false held entering m n h = h
step_request-IsStepped e known true waiting m n h = tt
step_request-IsStepped e known false waiting m n h = (omega (arith, h.0), h.1)
step_request-IsStepped e true true checking_again m n h = (omega (arith, h.0), refl)
step_request-IsStepped e true false checking_again m n h = (omega (arith, h.0), refl)
step_request-IsStepped e false held checking_again m n h = h
step_request-IsStepped commits known held (ingesting holds) m n h = (h.0, refl)
step_request-IsStepped throws true held (ingesting holds) m n h = h
step_request-IsStepped throws false held (ingesting true) m n h = h
step_request-IsStepped throws false held (ingesting false) m n h = (h.0, omega (arith, h.1))
step_request-IsStepped e known true (leaving true) m n h = (omega (arith, h.0), h.1)
step_request-IsStepped e known false (leaving true) m n h = (omega (arith, h.0), h.1)
step_request-IsStepped e known held (leaving false) m n h = h
step_request-IsStepped e known held left m n h = tt

sum_of-middle :
    (f : Phase → ℕ) (before after : List Phase) (p : Phase)
    → sum_of f (before ++ p ∷ after) ≡ f p + (sum_of f before + sum_of f after)
sum_of-middle f before after p = omega (arith, sum_of-append f before (p ∷ after))

relock :
    (c : Cache) {holders holders' free free' : ℕ}
    → holders ≡ holders'
    → free ≡ free'
    → IsLocked c holders free
    → IsLocked c holders' free'
relock c {holders} {holders'} {free} {free'} a b h =
    subst (λ x. IsLocked c holders' x) b (subst (λ x. IsLocked c x free) a h)

Reach-IsLocked :
    (known : Bool) (c : Cache) (requests : List Phase)
    → Reach known c requests
    → IsLocked c (sum_of holds_lock requests) (sum_of ingests_free requests)
Reach-IsLocked known c requests starts = (refl, ground arith)
Reach-IsLocked known c requests (arrives d ps r) =
    let h = Reach-IsLocked known d ps r in
    rw (zero-add (sum_of holds_lock ps), zero-add (sum_of ingests_free ps)) h
Reach-IsLocked known c requests (moves e d d' before after p q r s) =
    let h = Reach-IsLocked known d (before ++ p ∷ after) r in
    let m = sum_of holds_lock before + sum_of holds_lock after in
    let n = sum_of ingests_free before + sum_of ingests_free after in
    let stepped = step_request-IsStepped e d.known d.held p m n (
      relock d (sum_of-middle holds_lock before after p) (sum_of-middle ingests_free before after p)
        h) in
    relock c (sym (sum_of-middle holds_lock before after q))
      (sym (sum_of-middle ingests_free before after q)) (subst (λ o. IsStepped m n o) s stepped)

is_ingesting-bound :
    (requests : List Phase)
    → sum_of is_ingesting requests ≤ sum_of holds_lock requests + sum_of ingests_free requests
is_ingesting-bound [] = omega arith
is_ingesting-bound (p ∷ requests) = omega (arith, one p, is_ingesting-bound requests)
  where
    one : (p : Phase) → is_ingesting p ≤ holds_lock p + ingests_free p
    one entering = omega arith
    one waiting = omega arith
    one checking_again = omega arith
    one left = omega arith
    one (ingesting true) = omega arith
    one (ingesting false) = omega arith
    one (leaving true) = omega arith
    one (leaving false) = omega arith

-- While a table is not known to exist at most one request is in its transaction and at most one holds
-- the creation lock, however many requests for the table arrive and however their steps interleave.
pub Reach-IsExclusive :
    (known : Bool) (c : Cache) (requests : List Phase)
    → Reach known c requests
    → c.known ≡ false
    → (sum_of is_ingesting requests ≤ 1) × (sum_of holds_lock requests ≤ 1)
Reach-IsExclusive known c requests r unknown =
    let (held, free) = Reach-IsLocked known c requests r in
    let none_free : sum_of ingests_free requests ≡ 0 =
      sym (ap (λ k. if k then 0 else sum_of ingests_free requests) unknown) ∙ free in
    let few : (if c.held then 1 else 0) ≤ 1 = elim (Bool-cases c.held) [
      | inl e ↦ rw e (omega arith)
      | inr e ↦ rw e (omega arith)
    ] in
    (omega (arith, is_ingesting-bound requests, none_free, held, few), omega (arith, held, few))
