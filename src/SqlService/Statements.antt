-- ===== src/SqlService/Statements.antt =====
-- The texts of SELECT, INSERT and UPDATE of sql_service.h, and the names that values are bound to.
use million.Prelude.{
  ℕ, Bool, true, false, Option, none, some, List, [], ◌∷◌, ◌++◌, ◌==◌, if◌then◌else◌,
}
use million.SqlService.{
  Token, word, name, placeholder, number, comma, pop_comma, Column, Table, map_proto_type_to_sql,
  find_field, is_auto_increment,
}

-- The columns that SqlQueryReq selects.
unfoldable pub selected : List Column → List Token
selected [] = []
selected (column ∷ columns) = word " " ∷ name column.field_name ∷ comma ∷ selected columns

-- The text of SqlQueryReq; `none` where it aborts.
unfoldable pub query_text : ℕ → Table → Option (List Token)
unfolding selected
query_text key_field_number t = elim (find_field key_field_number t.columns) [
  | none ↦ none
  | some key ↦ some (
      pop_comma (word "SELECT" ∷ word " __db_version__" ∷ comma ∷ selected t.columns)
      ++ word " FROM "
        ∷ name t.table_name
        ∷ word " WHERE "
        ∷ name key.field_name
        ∷ word " = "
        ∷ placeholder key.field_name
        ∷ word ";"
        ∷ [])
]

-- The columns of SqlInsertReq, and their placeholders.
unfoldable pub insert_names : List Column → List Token
insert_names [] = []
insert_names (column ∷ columns) =
    let rest = insert_names columns in
    if is_auto_increment column then rest else name column.field_name ∷ comma ∷ rest

unfoldable pub insert_placeholders : List Column → List Token
insert_placeholders [] = []
insert_placeholders (column ∷ columns) =
    let rest = insert_placeholders columns in
    if is_auto_increment column then rest else placeholder column.field_name ∷ comma ∷ rest

unfoldable pub insert_text : Table → List Token
unfolding insert_names insert_placeholders
insert_text t =
    let names =
      word "INSERT INTO "
      ∷ name t.table_name
      ∷ word " ("
      ∷ word "__db_version__, "
      ∷ insert_names t.columns in
    let values = word " VALUES (" ∷ word "1, " ∷ insert_placeholders t.columns in
    pop_comma names ++ (word ")" ∷ (pop_comma values ++ (word ")" ∷ word ";" ∷ [])))

-- The changed fields of SqlUpdateReq; `is_dirty` is IsDirtyFromFIeldIndex.
unfoldable pub update_fields : (Column → Bool) → List Column → List Token
update_fields is_dirty [] = []
update_fields is_dirty (column ∷ columns) =
    let rest = update_fields is_dirty columns in
    if is_dirty column
    then name column.field_name ∷ word " = " ∷ placeholder column.field_name ∷ comma ∷ rest
    else rest

-- The text of SqlUpdateReq; `none` where it aborts.
unfoldable pub update_text : (Column → Bool) → ℕ → ℕ → Table → Option (List Token)
unfolding update_fields
update_text is_dirty old_db_version db_version t =
    elim (find_field t.primary_key_number t.columns) [
      | none ↦ none
      | some key ↦ some (
          pop_comma (
            word "UPDATE "
            ∷ name t.table_name
            ∷ word " SET "
            ∷ word "__db_version__ = "
            ∷ number db_version
            ∷ comma
            ∷ update_fields is_dirty t.columns)
          ++ word " WHERE "
            ∷ word "__db_version__ = "
            ∷ number old_db_version
            ∷ word " AND __db_version__ < "
            ∷ number db_version
            ∷ word " AND "
            ∷ name key.field_name
            ∷ word " = "
            ∷ placeholder key.field_name
            ∷ word ";"
            ∷ [])
    ]

-- BindValuesToStatement: the names that values are bound to, in order. A repeated field, or one of a
-- type that has no value, is only logged.
unfoldable pub is_bindable : Column → Bool
is_bindable column =
    if column.is_repeated
    then false
    else elim (map_proto_type_to_sql column.field_type) [ none ↦ false | some s ↦ true ]

unfoldable pub bound_names : (Column → Bool) → ℕ → List Column → List ℕ
unfolding is_bindable
bound_names is_dirty primary_number [] = []
bound_names is_dirty primary_number (column ∷ columns) =
    let rest = bound_names is_dirty primary_number columns in
    if column.field_number == primary_number
    then if is_bindable column then column.field_name ∷ rest else rest
    else if is_dirty column
    then if is_bindable column then column.field_name ∷ rest else rest
    else rest
