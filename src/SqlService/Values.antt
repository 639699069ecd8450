-- ===== src/SqlService/Values.antt =====
-- The values of fields in sql_service.h: what is bound for a field, and what a field is set to from the
-- row that the database gives. Numbers are their bits.
use million.Prelude.{ℕ, ◌≡◌, Bool, true, false, Option, none, some, List, if◌then◌else◌, ◌==◌}
use Prim.Native.String.{String}
use million.SqlService.{
  FieldType, type_double, type_float, type_int64, type_uint64, type_int32, type_fixed64,
  type_fixed32, type_bool, type_string, type_message, type_bytes, type_uint32, type_enum,
  type_sfixed32, type_sfixed64, type_sint32, type_sint64,
}

-- A value by the C++ type that soci exchanges.
pub data SociValue : Type 0 where
  use_double use_int64 use_uint64 use_int32 use_uint32 use_int8 use_int : ℕ → SociValue
  use_string : List ℕ → SociValue

-- What the code calls of C++, protobuf, the enum types and the database: conversions between float and
-- double, the bytes of a message, which numbers an enum type has, and what soci gives of a column of an
-- SQL type after a value was stored in it.
pub record Conversions : Type 1 where
  pub Msg : Type 0
  pub double_of : ℕ → ℕ
  pub float_of : ℕ → ℕ
  pub serialize_as_string : Msg → List ℕ
  pub parse_from_string : List ℕ → Msg
  pub has_enum_value : ℕ → Bool
  pub fetch : String → SociValue → SociValue

-- C++ gives back a float that was made a double, and protobuf a message that it has written.
pub record AreInverse (c : Conversions) : Type 0 where
  pub floats : (f : ℕ) → c.float_of (c.double_of f) ≡ f
  pub messages : (m : c.Msg) → c.parse_from_string (c.serialize_as_string m) ≡ m

-- What is documented of the database and soci: a column gives back values of the C++ type for its SQL
-- type; of a FLOAT that is a double that was made of a float, and of a BOOLEAN 0 and 1.
pub record KeepsValues (c : Conversions) : Type 0 where
  pub doubles : (n : ℕ) → c.fetch "DOUBLE" (use_double n) ≡ use_double n
  pub singles : (f : ℕ) → c.fetch "FLOAT" (use_double (c.double_of f)) ≡ use_double (c.double_of f)
  pub int32s : (n : ℕ) → c.fetch "INTEGER" (use_int32 n) ≡ use_int32 n
  pub ints : (n : ℕ) → c.fetch "INTEGER" (use_int n) ≡ use_int n
  pub uint32s : (n : ℕ) → c.fetch "INT UNSIGNED" (use_uint32 n) ≡ use_uint32 n
  pub int64s : (n : ℕ) → c.fetch "BIGINT" (use_int64 n) ≡ use_int64 n
  pub uint64s : (n : ℕ) → c.fetch "BIGINT UNSIGNED" (use_uint64 n) ≡ use_uint64 n
  pub falses : c.fetch "BOOLEAN" (use_int8 0) ≡ use_int8 0
  pub trues : c.fetch "BOOLEAN" (use_int8 1) ≡ use_int8 1
  pub texts : (s : List ℕ) → c.fetch "LONGTEXT" (use_string s) ≡ use_string s

module _ (c : Conversions) where
  -- What the getters and setters of protobuf's reflection exchange.
  pub data Value : Type 0 where
    double_value float_value int64_value uint64_value int32_value uint32_value : ℕ → Value
    bool_value : Bool → Value
    string_value : List ℕ → Value
    message_value : c.Msg → Value
    enum_value : ℕ → Value

  -- The value of a field of a type, as far as C++ knows it.
  pub data OfType : FieldType → Value → Type 0 where
    of_double : {n : ℕ} → OfType type_double (double_value n)
    of_float : {n : ℕ} → OfType type_float (float_value n)
    of_int64 : {n : ℕ} → OfType type_int64 (int64_value n)
    of_sfixed64 : {n : ℕ} → OfType type_sfixed64 (int64_value n)
    of_sint64 : {n : ℕ} → OfType type_sint64 (int64_value n)
    of_uint64 : {n : ℕ} → OfType type_uint64 (uint64_value n)
    of_fixed64 : {n : ℕ} → OfType type_fixed64 (uint64_value n)
    of_int32 : {n : ℕ} → OfType type_int32 (int32_value n)
    of_sfixed32 : {n : ℕ} → OfType type_sfixed32 (int32_value n)
    of_sint32 : {n : ℕ} → OfType type_sint32 (int32_value n)
    of_uint32 : {n : ℕ} → OfType type_uint32 (uint32_value n)
    of_fixed32 : {n : ℕ} → OfType type_fixed32 (uint32_value n)
    of_bool : {b : Bool} → OfType type_bool (bool_value b)
    of_string : {s : List ℕ} → OfType type_string (string_value s)
    of_bytes : {s : List ℕ} → OfType type_bytes (string_value s)
    of_message : {m : c.Msg} → OfType type_message (message_value m)
    of_enum : {n : ℕ} → c.has_enum_value n ≡ true → OfType type_enum (enum_value n)

  -- BindValuesToStatement for a value; `none` where nothing is bound.
  unfoldable pub bind_value : FieldType → Value → Option SociValue
  bind_value type_double (double_value n) = some (use_double n)
  bind_value type_float (float_value n) = some (use_double (c.double_of n))
  bind_value type_int64 (int64_value n) = some (use_int64 n)
  bind_value type_sfixed64 (int64_value n) = some (use_int64 n)
  bind_value type_sint64 (int64_value n) = some (use_int64 n)
  bind_value type_uint64 (uint64_value n) = some (use_uint64 n)
  bind_value type_fixed64 (uint64_value n) = some (use_uint64 n)
  bind_value type_int32 (int32_value n) = some (use_int32 n)
  bind_value type_sfixed32 (int32_value n) = some (use_int32 n)
  bind_value type_sint32 (int32_value n) = some (use_int32 n)
  bind_value type_uint32 (uint32_value n) = some (use_uint32 n)
  bind_value type_fixed32 (uint32_value n) = some (use_uint32 n)
  bind_value type_bool (bool_value b) = some (use_int8 (if b then 1 else 0))
  bind_value type_string (string_value s) = some (use_string s)
  bind_value type_bytes (string_value s) = some (use_string s)
  bind_value type_message (message_value m) = some (use_string (c.serialize_as_string m))
  bind_value type_enum (enum_value n) = some (use_int n)
  bind_value _ _ = none

  -- SqlQueryReq: what the field is set to from the value of a column that is not null. `none` where the value is of
  -- another type, where SetEnum is given no value, or where the type has no case.
  unfoldable pub read_value : FieldType → SociValue → Option Value
  read_value type_double (use_double n) = some (double_value n)
  read_value type_float (use_double n) = some (float_value (c.float_of n))
  read_value type_fixed64 (use_uint64 n) = some (uint64_value n)
  read_value type_uint64 (use_uint64 n) = some (uint64_value n)
  read_value type_sint64 (use_int64 n) = some (int64_value n)
  read_value type_sfixed64 (use_int64 n) = some (int64_value n)
  read_value type_int64 (use_int64 n) = some (int64_value n)
  read_value type_fixed32 (use_uint32 n) = some (uint32_value n)
  read_value type_uint32 (use_uint32 n) = some (uint32_value n)
  read_value type_sint32 (use_int32 n) = some (int32_value n)
  read_value type_sfixed32 (use_int32 n) = some (int32_value n)
  read_value type_int32 (use_int32 n) = some (int32_value n)
  read_value type_bool (use_int8 n) = some (bool_value (if n == 0 then false else true))
  read_value type_bytes (use_string s) = some (string_value s)
  read_value type_string (use_string s) = some (string_value s)
  read_value type_message (use_string s) = some (message_value (c.parse_from_string s))
  read_value type_enum (use_int n) = if c.has_enum_value n then some (enum_value n) else none
  read_value _ _ = none
