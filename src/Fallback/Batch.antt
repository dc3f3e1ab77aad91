-- ===== src/Fallback/Batch.antt =====
-- IngestFallback of src/raw_ingest.cpp with the rest of FallbackBatch: the batch as one transaction,
-- what is remembered of the table, and the second try without widening to JSON. `execute` is the
-- catalog: it runs the statements and the INSERT and commits, or rolls all of it back and fails.
use rawduck.Prelude.{
  ℕ, suc, ◌+◌, Str, length, Bool, true, false, ◌||◌, Option, none, some, List, [], ◌∷◌, map,
  if◌then◌else◌, Result, err, ok,
}
use rawduck.SqlType.{LogicalType}
use rawduck.Flatten.{RawColumn, is_empty}
use rawduck.Catalog.{Columns, find_column, set_type}
use rawduck.Payload.{RawParsedPayload}
use rawduck.Fallback.{
  Statement, add_column_as, set_type_of, Step, Selected, plan, all_statements, select_as,
}

-- `using_refused`: the message has "cannot be modified using an expression".
pub data SqlFailure : Type 0 where
  empty_payload using_refused : SqlFailure
  other_failure : Str → SqlFailure

-- The statements of a batch: CREATE TABLE with all columns or the ALTERs, and the columns of the
-- INSERT where there are rows.
pub record Batch : Type 0 where
  pub creates : Option (List RawColumn)
  pub alters : List Statement
  pub inserts : Option (List (Str × Selected))

-- fallback_exists with fallback_types, and the counters of the ingestor
pub record FallbackState : Type 0 where
  pub table : Option Columns
  pub created : Bool
  pub columns_added : ℕ
  pub columns_widened : ℕ
  pub rows : ℕ

-- The steps of a table that is created: each column keeps its type.
abbrev pub create_steps : List RawColumn → List Step
create_steps = map (λ c. record { statements = []; final_type = c.type })

abbrev pub steps_of : Bool → Option Columns → List RawColumn → List Step
steps_of allow none cs = create_steps cs
steps_of allow (some existing) cs = plan allow existing cs

abbrev pub selected : List RawColumn → List Step → List (Str × Selected)
selected [] steps = []
selected (c ∷ cs) [] = []
selected (c ∷ cs) (s ∷ steps) = (c.name, select_as c.type s.final_type) ∷ selected cs steps

abbrev pub batch_of : Bool → Option Columns → RawParsedPayload → Batch
batch_of allow table parsed = record {
  creates = elim table [ none ↦ some parsed.columns | some existing ↦ none ];
  alters = all_statements (steps_of allow table parsed.columns);
  inserts =
      if is_empty parsed.payload.rows
      then none
      else some (selected parsed.columns (steps_of allow table parsed.columns));
}

-- fallback_types[name] = final_type
abbrev pub remember_type : Columns → Str → LogicalType → Columns
remember_type types name t = elim (find_column types name) [
  | none ↦ (name, t) ∷ types
  | some u ↦ set_type types name t
]

unfoldable pub remember_types : Columns → List RawColumn → List Step → Columns
remember_types types [] steps = types
remember_types types (c ∷ cs) [] = types
remember_types types (c ∷ cs) (s ∷ steps) =
    remember_types (remember_type types c.name s.final_type) cs steps

abbrev pub is_add : Statement → ℕ
is_add (add_column_as name t) = 1
is_add (set_type_of name t using) = 0

abbrev pub count_adds : List Statement → ℕ
count_adds [] = 0
count_adds (s ∷ ss) = is_add s + count_adds ss

abbrev pub count_alters : List Statement → ℕ
count_alters [] = 0
count_alters (add_column_as name t ∷ ss) = count_alters ss
count_alters (set_type_of name t using ∷ ss) = suc (count_alters ss)

abbrev pub types_of : Option Columns → Columns
types_of none = []
types_of (some types) = types

abbrev pub creates_table : Option Columns → Bool
creates_table none = true
creates_table (some types) = false

-- After the COMMIT.
abbrev pub after_batch : FallbackState → Bool → RawParsedPayload → ℕ → FallbackState
after_batch s allow parsed rows =
    let steps = steps_of allow s.table parsed.columns in
    let statements = all_statements steps in
    record {
      table = some (remember_types (types_of s.table) parsed.columns steps);
      created = s.created || creates_table s.table;
      columns_added =
          s.columns_added
          + (if creates_table s.table then length parsed.columns else count_adds statements);
      columns_widened = s.columns_widened + count_alters statements;
      rows = s.rows + rows;
    }

abbrev pub or_after_batch :
    FallbackState → Bool → RawParsedPayload → Result SqlFailure ℕ → Result SqlFailure FallbackState
or_after_batch s allow parsed (err e) = err e
or_after_batch s allow parsed (ok rows) = ok (after_batch s allow parsed rows)

module _ (execute : Batch → Result SqlFailure ℕ) where
  -- FallbackBatch
  unfoldable pub fallback_batch :
      FallbackState → Bool → RawParsedPayload → Result SqlFailure FallbackState
  fallback_batch s allow parsed =
      or_after_batch s allow parsed (execute (batch_of allow s.table parsed))

  abbrev pub or_again :
      FallbackState
      → RawParsedPayload
      → Result SqlFailure FallbackState
      → Result SqlFailure FallbackState
  or_again s parsed (ok t) = ok t
  or_again s parsed (err using_refused) = fallback_batch s false parsed
  or_again s parsed (err e) = err e

  -- IngestFallback
  unfoldable pub ingest_fallback :
      FallbackState → RawParsedPayload → Result SqlFailure FallbackState
  ingest_fallback s parsed =
      if is_empty parsed.columns
      then if creates_table s.table then err empty_payload else ok s
      else or_again s parsed (fallback_batch s true parsed)
