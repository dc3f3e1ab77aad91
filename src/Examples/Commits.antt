-- ===== src/Examples/Commits.antt =====
-- A leader that commits two requests, one whose commit is refused, and two first inserts.
use rawduck.Prelude.{ℕ, suc, ◌≤◌, ◌⊎◌, refl, true, ok, ◌≡◌, Str, [], ◌∷◌, codes, false}
use rawduck.Json.{uint}
use rawduck.Node.{empty_node}
use rawduck.SqlType.{LogicalType}
use rawduck.Payload.{RawParsedPayload}
use rawduck.Commit.{
  PendingItem, Coordinator, idle, enter, take_batch, resolve_batch, failed, make_item,
}
use rawduck.Commit.{Stats}
use rawduck.Serialized.{Session, Attempt, auto_commit, raw_ingest_serialized}
use rawduck.Serialized.Leader.{
  outcome_of, IsResolved, IsAbandoned, lead_round, lead_round-IsResolved, refused_commit-strands,
}
use rawduck.Serialized.Creation.{
  Cache, Phase, Ending, entering, waiting, checking_again, ingesting, commits, arrives, moves,
  sum_of, is_ingesting, holds_lock,
}
use rawduck.Serialized.Creation as Creation
use rawduck.Serialized.Creation.Exclusive.{Reach-IsExclusive}
use rawduck.Commit.Fifo.{
  IsStranded, Reach, starts, enters, takes, resolves, accounted, Reach-accounted,
}

abbrev parsed : Str → RawParsedPayload
parsed name = record {
  payload = record {
    rows = uint 1 ∷ [];
    scalar_rows = false;
    parse_errors = 0;
    otlp_semantics = false;
  };
  root = empty_node;
  columns = record { name = name; path = name ∷ []; type = LogicalType.bigint } ∷ [];
}

abbrev first : PendingItem
first = make_item 1 (parsed (codes "a")) (codes "1")

abbrev second : PendingItem
second = make_item 2 (parsed (codes "b")) (codes "2")

abbrev led : Coordinator
led = take_batch (enter (enter idle first) second)

run : Reach (first ∷ second ∷ []) (resolve_batch led (failed (codes "full")))
run = resolves (first ∷ second ∷ []) led (failed (codes "full")) (
    takes (first ∷ second ∷ []) (enter (enter idle first) second)
      (enters (first ∷ []) (enter idle first) second (enters [] idle first starts)))

Reach-accounted_example :
    accounted (resolve_batch led (failed (codes "full"))) ≡ first ∷ second ∷ []
Reach-accounted_example =
    Reach-accounted (first ∷ second ∷ []) (resolve_batch led (failed (codes "full"))) run

abbrev stats : Stats
stats = record { created = false; columns_added = 0; columns_widened = 0; rows = 1; errors = 0 }

abbrev session : Session ℕ
session = record { txn = auto_commit; durable = 5; working = 0; known = false }

abbrev adds_row : ℕ → Attempt ℕ
adds_row d = record { result = ok stats; after = suc d; invalidates = false }

led_leading : led.leading ≡ true
unfolding enter take_batch
led_leading = refl

-- A DuckDB that ends refused transactions and accepts this one.
lead_round-IsResolved_example :
    let done =
      raw_ingest_serialized (λ d. true) true (codes "refused") adds_row adds_row (λ d. d) session in
    let round =
      lead_round (λ d. true) true (codes "refused") adds_row adds_row (λ d. d) session led in
    IsResolved (λ d. true) true (codes "refused") led (outcome_of done.1) round
    ⊎ IsAbandoned (λ d. true) true (codes "refused") led done round
lead_round-IsResolved_example =
    lead_round-IsResolved (λ d. true) true (codes "refused") adds_row adds_row (λ d. d) session led
      led_leading refl

-- The round in which the commit is refused, and a request that follows.
abbrev stranded : Coordinator
stranded = (lead_round (λ d. false) true (codes "refused") adds_row adds_row (λ d. d) session led).1

led_committing : led.committing ≡ true
unfolding enter take_batch
led_committing = refl

refused_commit-strands_example :
    IsStranded (enter stranded first) × ((enter stranded first).resolved ≡ led.resolved)
refused_commit-strands_example =
    refused_commit-strands (λ d. false) (codes "refused") adds_row adds_row (λ d. d) session stats 6
      led refl refl refl led_committing (first ∷ []) (enter stranded first)
      (enters [] stranded first starts)

abbrev unknown : Cache
unknown = record { known = false; held = false }

abbrev held : Cache
held = record { known = false; held = true }

-- The second request waits while the first ingests.
two_inserts : Creation.Reach false held (ingesting true ∷ waiting ∷ [])
two_inserts =
    moves commits held held [] (waiting ∷ []) checking_again (ingesting true)
      (moves commits unknown held [] (waiting ∷ []) waiting checking_again
        (moves commits unknown unknown [] (waiting ∷ []) entering waiting
          (moves commits unknown unknown (entering ∷ []) [] entering waiting
            (arrives unknown (entering ∷ []) (arrives unknown [] Creation.starts)) refl)
          refl)
        refl)
      refl

Reach-IsExclusive_example :
    (sum_of is_ingesting (ingesting true ∷ waiting ∷ []) ≤ 1)
    × (sum_of holds_lock (ingesting true ∷ waiting ∷ []) ≤ 1)
Reach-IsExclusive_example =
    Reach-IsExclusive false held (ingesting true ∷ waiting ∷ []) two_inserts refl
