-- ===== src/SqlType.antt =====
-- `LogicalType` as the sources tell types apart, and the type that src/raw_json.cpp gives a schema
-- node. JSON is VARCHAR with an alias: its own constructor here, with the type id of VARCHAR.
-- `other n` stands for the types that the sources do not name (BLOB, DECIMAL, STRUCT and so on).
use rawduck.Prelude.{ℕ, ◌==◌, ◌≡◌, refl, ◌↔◌, arith, Bool, true, false}
use rawduck.Kind.{ScalarKind}
use rawduck.Node.{Node, Element, node, element, no_element, unset, scalar, object, array, json}

pub data LogicalType : Type 0 where
  boolean tinyint smallint integer bigint hugeint utinyint usmallint uinteger : LogicalType
  float double date timestamp varchar raw_json : LogicalType
  list : LogicalType → LogicalType
  other : ℕ → LogicalType

-- LogicalType::operator==
unfoldable pub type_eq : LogicalType → LogicalType → Bool
type_eq LogicalType.boolean LogicalType.boolean = true
type_eq LogicalType.tinyint LogicalType.tinyint = true
type_eq LogicalType.smallint LogicalType.smallint = true
type_eq LogicalType.integer LogicalType.integer = true
type_eq LogicalType.bigint LogicalType.bigint = true
type_eq LogicalType.hugeint LogicalType.hugeint = true
type_eq LogicalType.utinyint LogicalType.utinyint = true
type_eq LogicalType.usmallint LogicalType.usmallint = true
type_eq LogicalType.uinteger LogicalType.uinteger = true
type_eq LogicalType.float LogicalType.float = true
type_eq LogicalType.double LogicalType.double = true
type_eq LogicalType.date LogicalType.date = true
type_eq LogicalType.timestamp LogicalType.timestamp = true
type_eq LogicalType.varchar LogicalType.varchar = true
type_eq LogicalType.raw_json LogicalType.raw_json = true
type_eq (LogicalType.list t) (LogicalType.list u) = type_eq t u
type_eq (LogicalType.other m) (LogicalType.other n) = m == n
type_eq _ _ = false

pub type_eq_iff : (t u : LogicalType) → (type_eq t u ≡ true) ↔ (t ≡ u)
unfolding type_eq
type_eq_iff (LogicalType.list t) (LogicalType.list u) = ground (arith, type_eq_iff t u)
type_eq_iff LogicalType.boolean u = ground arith
type_eq_iff t u = ground arith

pub type_eq_refl : (t : LogicalType) → type_eq t t ≡ true
type_eq_refl t = (type_eq_iff t t).1 refl

-- LogicalTypeId
pub data TypeId : Type 0 where
  boolean tinyint smallint integer bigint hugeint utinyint usmallint uinteger : TypeId
  float double date timestamp varchar list : TypeId
  other : ℕ → TypeId

abbrev pub type_id : LogicalType → TypeId
type_id LogicalType.boolean = TypeId.boolean
type_id LogicalType.tinyint = TypeId.tinyint
type_id LogicalType.smallint = TypeId.smallint
type_id LogicalType.integer = TypeId.integer
type_id LogicalType.bigint = TypeId.bigint
type_id LogicalType.hugeint = TypeId.hugeint
type_id LogicalType.utinyint = TypeId.utinyint
type_id LogicalType.usmallint = TypeId.usmallint
type_id LogicalType.uinteger = TypeId.uinteger
type_id LogicalType.float = TypeId.float
type_id LogicalType.double = TypeId.double
type_id LogicalType.date = TypeId.date
type_id LogicalType.timestamp = TypeId.timestamp
type_id LogicalType.varchar = TypeId.varchar
type_id LogicalType.raw_json = TypeId.varchar
type_id (LogicalType.list t) = TypeId.list
type_id (LogicalType.other n) = TypeId.other n

-- IsRawJSONType
abbrev pub is_raw_json_type : LogicalType → Bool
is_raw_json_type LogicalType.raw_json = true
is_raw_json_type _ = false

abbrev pub is_list : LogicalType → Bool
is_list (LogicalType.list t) = true
is_list _ = false

-- ScalarKindToType
abbrev pub scalar_kind_to_type : ScalarKind → LogicalType
scalar_kind_to_type ScalarKind.boolean = LogicalType.boolean
scalar_kind_to_type ScalarKind.bigint = LogicalType.bigint
scalar_kind_to_type ScalarKind.double = LogicalType.double
scalar_kind_to_type ScalarKind.date = LogicalType.date
scalar_kind_to_type ScalarKind.timestamp = LogicalType.timestamp
scalar_kind_to_type _ = LogicalType.varchar

-- NodeToType. An array node always has an element (`IsWellFormed`); without one there is no type to
-- look at, and the model says JSON.
unfoldable mutual
  pub node_to_type : Node → LogicalType
  node_to_type (node unset s ch lk el) = LogicalType.varchar
  node_to_type (node scalar s ch lk el) = scalar_kind_to_type s
  node_to_type (node array s ch lk el) = element_to_type el
  node_to_type (node object s ch lk el) = LogicalType.raw_json
  node_to_type (node json s ch lk el) = LogicalType.raw_json

  pub element_to_type : Element → LogicalType
  element_to_type no_element = LogicalType.raw_json
  element_to_type (element (node unset s ch lk el)) = LogicalType.list LogicalType.varchar
  element_to_type (element (node scalar s ch lk el)) = LogicalType.list (scalar_kind_to_type s)
  element_to_type (element (node array s ch lk el)) = LogicalType.list (element_to_type el)
  element_to_type (element (node object s ch lk el)) = LogicalType.raw_json
  element_to_type (element (node json s ch lk el)) = LogicalType.raw_json

-- RawFillSupported
unfoldable pub raw_fill_supported : LogicalType → Bool
raw_fill_supported LogicalType.raw_json = true
raw_fill_supported LogicalType.boolean = true
raw_fill_supported LogicalType.bigint = true
raw_fill_supported LogicalType.double = true
raw_fill_supported LogicalType.date = true
raw_fill_supported LogicalType.timestamp = true
raw_fill_supported LogicalType.varchar = true
raw_fill_supported (LogicalType.list t) = raw_fill_supported t
raw_fill_supported _ = false
