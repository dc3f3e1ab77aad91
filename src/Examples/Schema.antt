-- ===== src/Examples/Schema.antt =====
-- Flattening, evolution and the shape hash at small schemas.
use rawduck.Prelude.{
  ◌≡◌, ◌≢◌, refl, Str, lower, Bool, not, All, true, false, some, List, [], ◌∷◌, codes,
}
use rawduck.Kind.{ScalarKind, bigint, date}
use rawduck.Node.{Node, node, object, scalar, no_child, child, no_element}
use rawduck.SqlType.{LogicalType, node_to_type, type_eq, list}
use rawduck.Widen.{join_column_types}
use rawduck.Flatten.{RawColumn, columns, flatten_schema, flatten_into, first_unseen, disambiguate}
use rawduck.Flatten.Decimal.{to_string}
use rawduck.Flatten.Names.{HasDistinctNames, flatten_schema_names}
use rawduck.Catalog.{
  Columns, Evolved, find_column, evolve_native, compute_delta, add_column, change_type, set_type,
}
use rawduck.Catalog.Absorb.{evolve_native_absorbs}
use rawduck.Fallback.{
  Statement, add_column_as, set_type_of, plan, all_statements, run_statements, select_as,
  as_json_cast,
}
use rawduck.Fallback.Evolves.{plan-evolves}
use rawduck.Shape.Blind.{tagged, knows_list, shape_misses_list}
use rawduck.Payload.{RawParsedPayload}
use rawduck.Ingest.{Ingestor, Table, evolving, submit_batch, ingest_native}
use rawduck.Examples.Ingests.{batch, code_of, id_of, pooled}

abbrev leaf : ScalarKind → Node
leaf k = node scalar k no_child [] no_element

-- The keys "a.b", "A" and, inside "a", "b": the dotted key collides with the nested one.
abbrev root : Node
root =
    node object ScalarKind.unset
      (child (codes "a.b") (leaf bigint) (
        child (codes "a")
          (node object ScalarKind.unset (child (codes "b") (leaf date) no_child)
            ((codes "b", 0) ∷ []) no_element)
          no_child))
      ((codes "a.b", 0) ∷ (codes "a", 1) ∷ []) no_element

abbrev flat : List RawColumn
flat =
    record { name = codes "a.b"; path = codes "a.b" ∷ []; type = LogicalType.bigint }
    ∷ record { name = codes "a.b_1"; path = codes "a" ∷ codes "b" ∷ []; type = LogicalType.date }
    ∷ []

flatten_runs : flatten_schema root false ≡ columns flat
unfolding flatten_schema flatten_into disambiguate first_unseen to_string node_to_type
flatten_runs = refl

flatten_schema_names_example : HasDistinctNames flat
flatten_schema_names_example = flatten_schema_names root false flat flatten_runs

-- A table with "A.B" of type DATE and "c" of type BLOB.
abbrev table : Columns
table = (codes "A.B", LogicalType.date) ∷ (codes "c", LogicalType.other 1) ∷ []

abbrev allows : Columns → Str → LogicalType → Bool
allows existing name t = true

abbrev unevolved : Evolved
unevolved = record { alters = allows; table = table; added = 0; widened = 0 }

abbrev evolved : Evolved
evolved = record {
  alters = allows;
  table =
      (codes "A.B", LogicalType.varchar)
      ∷ (codes "c", LogicalType.other 1)
      ∷ (codes "a.b_1", LogicalType.date)
      ∷ [];
  added = 1;
  widened = 1;
}

evolve_runs : evolve_native table flat unevolved ≡ some evolved
unfolding evolve_native find_column add_column change_type set_type join_column_types type_eq
evolve_runs = refl

evolve_native_absorbs_example :
    (compute_delta evolved.table flat ≡ record { adds = []; widens = false })
    × ((other : Str)
        → All (λ c. lower c.name ≢ lower other) flat
        → find_column evolved.table other ≡ find_column table other)
evolve_native_absorbs_example =
    evolve_native_absorbs flat unevolved evolved (flatten_schema_names root false flat flatten_runs)
      evolve_runs

strings_do_not_fit :
    type_eq (join_column_types LogicalType.bigint LogicalType.varchar) LogicalType.bigint ≡ false
unfolding join_column_types type_eq
strings_do_not_fit = refl

abbrev tags : Columns
tags = (codes "tags", list LogicalType.bigint) ∷ []

abbrev tags_table : Table
tags_table = record {
  columns = tags;
  storage = 4;
  has_generated = false;
  has_indexes = false;
  has_constraints = false;
}

abbrev tag_list : LogicalType → RawParsedPayload
tag_list t = record batch { columns = tagged code_of id_of (codes "tags") (codes "tags" ∷ []) t }

abbrev knowing : Ingestor
knowing = knows_list code_of id_of pooled tags_table (tag_list LogicalType.bigint)

abbrev widened_tags : Evolved
widened_tags = record {
  alters = allows;
  table = (codes "tags", list LogicalType.varchar) ∷ [];
  added = 0;
  widened = 1;
}

tags_run :
    evolve_native tags
      (tagged code_of id_of (codes "tags") (codes "tags" ∷ []) LogicalType.varchar)
      (evolving pooled tags)
    ≡ some widened_tags
unfolding evolve_native find_column change_type set_type join_column_types type_eq
tags_run = refl

shape_misses_list_example :
    (ingest_native code_of id_of knowing (tag_list LogicalType.varchar)
      ≡ submit_batch knowing tags_table (tag_list LogicalType.varchar))
    × (widened_tags.table
        ≡ (codes "tags", list (join_column_types LogicalType.bigint LogicalType.varchar)) ∷ [])
shape_misses_list_example =
    shape_misses_list code_of id_of (codes "tags") (codes "tags" ∷ []) LogicalType.bigint
      LogicalType.varchar pooled tags_table batch batch widened_tags strings_do_not_fit tags_run

-- A catalog that refuses USING.
abbrev refuses_using : Columns → Statement → Bool
refuses_using existing (add_column_as name t) = true
refuses_using existing (set_type_of name t using) = not using

abbrev planned : Columns
planned =
    (codes "A.B", LogicalType.varchar)
    ∷ (codes "c", LogicalType.other 1)
    ∷ (codes "a.b_1", LogicalType.date)
    ∷ []

planned_runs :
    run_statements refuses_using table (all_statements (plan true table flat)) ≡ some planned
unfolding run_statements plan find_column add_column change_type set_type join_column_types type_eq
planned_runs = refl

plan-evolves_example : evolved.table ≡ planned
plan-evolves_example =
    plan-evolves refuses_using table flat unevolved evolved planned planned_runs evolve_runs

select_as_runs : select_as LogicalType.raw_json LogicalType.bigint ≡ as_json_cast
unfolding type_eq
select_as_runs = refl
