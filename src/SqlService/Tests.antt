-- ===== src/SqlService/Tests.antt =====
-- The statements of sql_service.h for a table of users: an id, a name, a level and a repeated field.
use million.Prelude.{ℕ, ◌≡◌, Bool, true, false, none, some, List, [], ◌∷◌, ◌++◌, ◌==◌, refl}
use Prim.Native.String.{String}
use million.SqlService.{
  Token, word, name, comma, newline, pop_comma, type_int64, type_string, type_uint32, Column, Table,
  index, primary_key, unique, map_proto_type_to_sql, process_field_options, string_type, find_field,
  is_auto_increment,
}
use million.SqlService.Statements.{
  insert_text, update_text, update_fields, is_bindable, bound_names,
}
use million.SqlService.TableInit.{
  is_named, create_table, create_columns, create_column, index_text, table_options_text, has_fields,
}
use million.SqlService.Separated.{separated}
use million.SqlService.Binding.{
  placeholders, with_number, none_left, unchanged, bindable, update_binds, insert_binds,
}
use million.SqlService.Texts.{names_where}
use million.SqlService.Parts.{found, AllFound, has_column}
use million.SqlService.Creation.{definitions, create_table_lem}
use million.SqlService.Values.{Conversions}

-- The names 1, 2 and 3 for the columns; the table has the name 9.
abbrev user_id : Column
user_id = record {
  field_name = 1;
  field_number = 1;
  field_type = type_int64;
  is_repeated = false;
  options = some (record {
    str_len = 0;
    auto_increment = false;
    not_null = true;
    default_value = none;
    comment = none;
    index_kind = primary_key;
  });
}

abbrev user_name : Column
user_name = record {
  field_name = 2;
  field_number = 2;
  field_type = type_string;
  is_repeated = false;
  options = some (record {
    str_len = 32;
    auto_increment = false;
    not_null = false;
    default_value = none;
    comment = none;
    index_kind = unique;
  });
}

abbrev user_level : Column
user_level = record {
  field_name = 3;
  field_number = 3;
  field_type = type_uint32;
  is_repeated = false;
  options = none;
}

abbrev users : Table
users = record {
  table_name = 9;
  columns = user_id ∷ user_name ∷ user_level ∷ [];
  sql = some (record {
    charset = some "utf8mb4";
    engine = none;
    multi_indexs =
        record { index_kind = index; index_name = "by_level"; field_numbers = 3 ∷ 2 ∷ [] } ∷ [];
  });
  primary_key_number = 1;
}

-- Only the level has changed.
abbrev level_changed : Column → Bool
level_changed column = column.field_number == 3

abbrev level_update : List Token
level_update = elim (update_text level_changed 4 5 users) [ none ↦ [] | some text ↦ text ]

update_binds_example :
    is_named 3 (placeholders level_update) ≡ is_named 3 (bound_names level_changed 1 users.columns)
unfolding update_text find_field update_fields pop_comma with_number is_bindable
    map_proto_type_to_sql
update_binds_example =
    update_binds 3 level_changed 4 5 users user_id level_update refl
      (bindable refl (unchanged refl refl (bindable refl none_left))) refl

-- The id is counted up by the database.
abbrev counted_users : Table
counted_users = record users {
  columns =
      record user_id {
        options = some (record {
          str_len = 0;
          auto_increment = true;
          not_null = true;
          default_value = none;
          comment = none;
          index_kind = primary_key;
        });
      }
      ∷ user_name
      ∷ user_level
      ∷ [];
}

insert_binds_example :
    (placeholders (insert_text counted_users) ≡ 2 ∷ 3 ∷ [])
    × (bound_names (λ c. true) 1 counted_users.columns ≡ 1 ∷ 2 ∷ 3 ∷ [])
unfolding names_where is_bindable map_proto_type_to_sql is_auto_increment
insert_binds_example =
    insert_binds counted_users (bindable refl (bindable refl (bindable refl none_left)))

abbrev user_columns : List Token × List ℕ
user_columns = elim (create_columns users.columns) [ none ↦ ([], []) | some made ↦ made ]

create_table_lem_example :
    create_table users
    ≡ some (
        word "CREATE TABLE "
        ∷ name 9
        ∷ word " ("
        ∷ newline
        ∷ (separated (comma ∷ newline ∷ []) (definitions users user_columns.1)
            ++ (newline ∷ word ") " ∷ (table_options_text users.sql ++ (word ";" ∷ [])))))
unfolding create_columns create_column map_proto_type_to_sql process_field_options string_type
    index_text has_fields found find_field
create_table_lem_example =
    create_table_lem users user_columns.0 user_columns.1 refl refl
      (has_column 3 (2 ∷ []) refl AllFound.none_left)

-- A float that is a double of the same bits, and messages that are their bytes.
abbrev plain : Conversions
plain = record {
  Msg = List ℕ;
  double_of = λ n. n;
  float_of = λ n. n;
  serialize_as_string = λ m. m;
  parse_from_string = λ s. s;
  has_enum_value = λ n. n == 2;
  fetch = λ sql v. v;
}
