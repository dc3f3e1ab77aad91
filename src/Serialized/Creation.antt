-- ===== src/Serialized/Creation.antt =====
-- The creation lock of RawIngestSerialized in src/raw_ingest.cpp: how the requests for a table that
-- may not exist enter their transactions. A step is what one request does between two lock
-- operations of RawTableCreationCache; the requests move in any order.
pub mod Exclusive
use rawduck.Prelude.{
  ℕ, suc, ◌+◌, Bool, true, false, Option, none, some, List, [], ◌∷◌, ◌++◌, if◌then◌else◌, ◌≡◌,
}

-- known_to_exist for the target, and whether a request holds creation_lock
pub record Cache : Type 0 where
  pub known : Bool
  pub held : Bool

-- Where a request is. The flag says that it holds creation_lock.
pub data Phase : Type 0 where
  entering waiting checking_again left : Phase
  ingesting leaving : Bool → Phase

-- Whether the attempts end in a commit or in an exception.
pub data Ending : Type 0 where
  commits throws : Ending

-- The next step of a request, or nothing while it has to wait.
abbrev pub step_request : Ending → Cache → Phase → Option (Cache × Phase)
step_request e c entering = some (c, if c.known then ingesting false else waiting)
step_request e c waiting = if c.held then none else some (record c { held = true }, checking_again)
step_request e c checking_again =
    some (if c.known then (record c { held = false }, ingesting false) else (c, ingesting true))
step_request commits c (ingesting holds) = some (record c { known = true }, leaving holds)
step_request throws c (ingesting holds) = some (c, leaving holds)
step_request e c (leaving holds) = some (if holds then record c { held = false } else c, left)
step_request e c left = none

-- The states that requests can bring about, from a cache that nobody holds.
pub data Reach (known : Bool) : Cache → List Phase → Type 0 where
  starts : Reach known (record { known = known; held = false }) []
  arrives :
      (c : Cache) (requests : List Phase)
      → Reach known c requests
      → Reach known c (entering ∷ requests)
  moves :
      (e : Ending) (c d : Cache) (before after : List Phase) (p q : Phase)
      → Reach known c (before ++ p ∷ after)
      → step_request e c p ≡ some (d, q)
      → Reach known d (before ++ q ∷ after)

abbrev pub holds_lock : Phase → ℕ
holds_lock entering = 0
holds_lock waiting = 0
holds_lock checking_again = 1
holds_lock left = 0
holds_lock (ingesting holds) = if holds then 1 else 0
holds_lock (leaving holds) = if holds then 1 else 0

-- In its transaction.
abbrev pub is_ingesting : Phase → ℕ
is_ingesting (ingesting holds) = 1
is_ingesting _ = 0

abbrev pub sum_of : (Phase → ℕ) → List Phase → ℕ
sum_of f [] = 0
sum_of f (p ∷ requests) = f p + sum_of f requests
