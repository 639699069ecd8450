-- ===== src/SqlService.antt =====
-- module/db/src/sql_service.h: the statements that SqlService gives to the soci library. A text is the
-- list of its pieces, in which whatever pop_back may take is a piece of one character; the names of
-- tables and columns are numbers. What the database answers is an argument.
pub mod TableInit
pub mod Statements
pub mod Values
pub mod Separated
pub mod Texts
pub mod Binding
pub mod Parts
pub mod Creation
mod Tests
use Prim.Native.String.{String}
use million.Prelude.{
  ℕ, ◌-◌, ◌^◌, Bool, true, false, Option, none, some, List, [], ◌∷◌, ◌++◌, ◌==◌, if◌then◌else◌, ltb,
}

pub data Token : Type 0 where
  word : String → Token
  name placeholder number : ℕ → Token  -- a placeholder is the name behind ':'
  comma newline left_paren : Token

unfoldable pub pop_back : List Token → List Token
pop_back [] = []
pop_back (t ∷ []) = []
pop_back (t ∷ u ∷ ts) = t ∷ pop_back (u ∷ ts)

-- `if (sql.back() == ',') sql.pop_back()`.
is_comma : Token → Bool
is_comma comma = true
is_comma _ = false

unfoldable pub pop_comma : List Token → List Token
unfolding is_comma
pop_comma [] = []
pop_comma (t ∷ []) = if is_comma t then [] else t ∷ []
pop_comma (t ∷ u ∷ ts) = t ∷ pop_comma (u ∷ ts)

pub data FieldType : Type 0 where
  type_double type_float type_int64 type_uint64 type_int32 type_fixed64 type_fixed32 : FieldType
  type_bool type_string type_group type_message type_bytes type_uint32 type_enum : FieldType
  type_sfixed32 type_sfixed64 type_sint32 type_sint64 : FieldType

pub data ColumnSqlOptionsIndex : Type 0 where
  no_index primary_key index unique fulltext : ColumnSqlOptionsIndex

-- The options of a column and of a table; an empty text is `none`, and a length is 32 bits.
pub record ColumnSqlOptions : Type 0 where
  pub str_len : ℕ
  pub auto_increment : Bool
  pub not_null : Bool
  pub default_value : Option String
  pub comment : Option String
  pub index_kind : ColumnSqlOptionsIndex

pub record Column : Type 0 where
  pub field_name : ℕ
  pub field_number : ℕ
  pub field_type : FieldType
  pub is_repeated : Bool
  pub options : Option ColumnSqlOptions

pub record MultiIndex : Type 0 where
  pub index_kind : ColumnSqlOptionsIndex
  pub index_name : String
  pub field_numbers : List ℕ

pub record TableSqlOptions : Type 0 where
  pub charset : Option String
  pub engine : Option String
  pub multi_indexs : List MultiIndex

-- A message type with its option `table`.
pub record Table : Type 0 where
  pub table_name : ℕ
  pub columns : List Column
  pub sql : Option TableSqlOptions
  pub primary_key_number : ℕ

-- MapProtoTypeToSql; `none` is a TaskAbort.
unfoldable pub map_proto_type_to_sql : FieldType → Option String
map_proto_type_to_sql type_double = some "DOUBLE"
map_proto_type_to_sql type_float = some "FLOAT"
map_proto_type_to_sql type_int32 = some "INTEGER"
map_proto_type_to_sql type_sint32 = some "INTEGER"
map_proto_type_to_sql type_sfixed32 = some "INTEGER"
map_proto_type_to_sql type_fixed32 = some "INT UNSIGNED"
map_proto_type_to_sql type_uint32 = some "INT UNSIGNED"
map_proto_type_to_sql type_int64 = some "BIGINT"
map_proto_type_to_sql type_sint64 = some "BIGINT"
map_proto_type_to_sql type_sfixed64 = some "BIGINT"
map_proto_type_to_sql type_fixed64 = some "BIGINT UNSIGNED"
map_proto_type_to_sql type_uint64 = some "BIGINT UNSIGNED"
map_proto_type_to_sql type_bool = some "BOOLEAN"
map_proto_type_to_sql type_string = some "LONGTEXT"
map_proto_type_to_sql type_bytes = some "LONGTEXT"
map_proto_type_to_sql type_message = some "LONGTEXT"
map_proto_type_to_sql type_enum = some "INTEGER"
map_proto_type_to_sql type_group = none

-- The type of a column of the given length; a negative one is a fixed length.
unfoldable pub string_type : ℕ → List Token → List Token
string_type str_len sql_type =
    if str_len == 0
    then sql_type
    else if ltb str_len (2 ^ 31)
    then word "VARCHAR(" ∷ number str_len ∷ word ")" ∷ []
    else word "CHAR(" ∷ number (2 ^ 32 - str_len) ∷ word ")" ∷ []

abbrev optional : String → Option String → String → List Token
optional before none after = []
optional before (some s) after = word before ∷ word s ∷ word after ∷ []

-- ProcessFieldOptions: the type with its options, and the index.
unfoldable pub process_field_options : Column → List Token → List Token × ColumnSqlOptionsIndex
unfolding string_type
process_field_options column sql_type = elim column.options [
  | none ↦ (sql_type, no_index)
  | some options ↦ (
    string_type options.str_len sql_type
        ++ (if options.auto_increment then word " AUTO_INCREMENT" ∷ [] else [])
        ++ (if options.not_null then word " NOT NULL" ∷ [] else [])
        ++ optional " DEFAULT " options.default_value ""
        ++ optional " COMMENT '" options.comment "'",
    options.index_kind,
  )
]

-- FindFieldByNumber(number).
unfoldable pub find_field : ℕ → List Column → Option Column
find_field n [] = none
find_field n (column ∷ columns) =
    if column.field_number == n then some column else find_field n columns

-- `field_options.sql().auto_increment()`.
unfoldable pub is_auto_increment : Column → Bool
is_auto_increment column = elim column.options [
  | none ↦ false
  | some options ↦ options.auto_increment
]
