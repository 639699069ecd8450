-- ===== src/SqlService/TableInit.antt =====
-- The statements of SqlTableInitReq of sql_service.h: CREATE TABLE, and ALTER TABLE for what a table lacks.
use million.Prelude.{
  ℕ, Bool, true, false, Option, none, some, List, [], ◌∷◌, ◌++◌, ◌==◌, if◌then◌else◌,
}
use million.SqlService.{
  Token, word, name, comma, newline, left_paren, pop_back, ColumnSqlOptionsIndex, no_index,
  primary_key, index, unique, fulltext, Column, MultiIndex, TableSqlOptions, Table,
  map_proto_type_to_sql, process_field_options, find_field,
}

-- One field of the loop of CREATE TABLE: what it adds to the text, and to the primary keys.
unfoldable pub index_text : ColumnSqlOptionsIndex → ℕ → List Token
index_text unique n = word "    UNIQUE (" ∷ name n ∷ word ")" ∷ comma ∷ newline ∷ []
index_text index n = word "    INDEX (" ∷ name n ∷ word ")" ∷ comma ∷ newline ∷ []
index_text fulltext n = word "    FULLTEXT (" ∷ name n ∷ word ")" ∷ comma ∷ newline ∷ []
index_text _ n = []

pub primary_of : ColumnSqlOptionsIndex → ℕ → List ℕ
primary_of primary_key n = n ∷ []
primary_of _ n = []

unfoldable pub create_column : Column → Option (List Token × List ℕ)
unfolding index_text primary_of
create_column column =
    if column.is_repeated then some ([], []) else elim (map_proto_type_to_sql column.field_type) [
      | none ↦ none
      | some sql_type ↦
          let (text, kind) = process_field_options column (word sql_type ∷ []) in
          some (
            index_text kind column.field_name
                ++ (word "    " ∷ name column.field_name ∷ word " " ∷ text ++ comma ∷ newline ∷ []),
            primary_of kind column.field_name,
          )
    ]

unfoldable pub create_columns : List Column → Option (List Token × List ℕ)
unfolding create_column
create_columns [] = some ([], [])
create_columns (column ∷ columns) = elim (create_column column) [
  | none ↦ none
  | some (text, keys) ↦ elim (create_columns columns) [
    | none ↦ none
    | some (texts, more) ↦ some (text ++ texts, keys ++ more)
  ]
]

-- The index over several columns: its beginning, the names that are found, and its end.
unfoldable pub multi_index_word : ColumnSqlOptionsIndex → Option Token
multi_index_word index = some (word "    INDEX ")
multi_index_word unique = some (word "    UNIQUE INDEX ")
multi_index_word fulltext = some (word "    FULLTEXT INDEX ")
multi_index_word _ = none

unfoldable pub found_names : List ℕ → List Column → List Token
found_names [] columns = []
found_names (n ∷ ns) columns =
    let rest = found_names ns columns in
    elim (find_field n columns) [
      | none ↦ rest
      | some column ↦ name column.field_name ∷ comma ∷ rest
    ]

unfoldable pub multi_index_text : MultiIndex → List Column → List Token
unfolding multi_index_word found_names
multi_index_text multi_index columns = elim (multi_index_word multi_index.index_kind) [
  | none ↦ []
  | some begin ↦
      begin
      ∷ word multi_index.index_name
      ∷ (pop_back (word " " ∷ left_paren ∷ found_names multi_index.field_numbers columns)
          ++ (word ")" ∷ comma ∷ newline ∷ []))
]

unfoldable pub multi_index_texts : List MultiIndex → List Column → List Token
unfolding multi_index_text
multi_index_texts [] columns = []
multi_index_texts (m ∷ ms) columns = multi_index_text m columns ++ multi_index_texts ms columns

unfoldable pub names_text : List ℕ → List Token
names_text [] = []
names_text (n ∷ ns) = name n ∷ comma ∷ names_text ns

unfoldable pub primary_keys_text : List ℕ → List Token
unfolding names_text
primary_keys_text [] = []
primary_keys_text (n ∷ ns) =
    word "    PRIMARY KEY (" ∷ (pop_back (names_text (n ∷ ns)) ++ (word ")" ∷ comma ∷ newline ∷ []))

unfoldable pub table_options_text : Option TableSqlOptions → List Token
table_options_text none = []
table_options_text (some options) =
    elim options.charset [ none ↦ [] | some s ↦ word " DEFAULT CHARSET=" ∷ word s ∷ [] ]
    ++ elim options.engine [ none ↦ [] | some s ↦ word " ENGINE=" ∷ word s ∷ [] ]

-- What stands between the parentheses of CREATE TABLE.
unfoldable pub create_body : Table → List Token → List ℕ → List Token
unfolding multi_index_texts primary_keys_text
create_body t columns keys =
    word "    __db_version__ BIGINT  NOT NULL"
    ∷ comma
    ∷ newline
    ∷ (columns
        ++ (elim t.sql [
          | none ↦ []
          | some options ↦ multi_index_texts options.multi_indexs t.columns
        ]
            ++ primary_keys_text keys))

unfoldable pub has_fields : List Column → Bool
has_fields [] = false
has_fields (column ∷ columns) = true

unfoldable pub create_table : Table → Option (List Token)
unfolding create_columns create_body table_options_text has_fields
create_table t = elim (create_columns t.columns) [
  | none ↦ none
  | some (columns, keys) ↦
      let body = create_body t columns keys in
      some (
        word "CREATE TABLE "
        ∷ name t.table_name
        ∷ word " ("
        ∷ newline
        ∷ ((if has_fields t.columns then pop_back (pop_back body) else body)
            ++ (newline ∷ word ") " ∷ (table_options_text t.sql ++ (word ";" ∷ [])))))
]

-- One field that a table lacks; `none` where it aborts.
add_index_text : ColumnSqlOptionsIndex → ℕ → Option (List Token)
add_index_text primary_key n = none
add_index_text unique n = some (word "    , ADD UNIQUE (" ∷ name n ∷ word ")\n" ∷ [])
add_index_text index n = some (word "    , ADD INDEX (" ∷ name n ∷ word ")\n" ∷ [])
add_index_text fulltext n = some (word "    , ADD FULLTEXT (" ∷ name n ∷ word ")\n" ∷ [])
add_index_text no_index n = some []

unfoldable pub alter_text : ℕ → Column → Option (List Token)
unfolding add_index_text
alter_text table_name column = elim (map_proto_type_to_sql column.field_type) [
  | none ↦ none
  | some sql_type ↦
      let (text, kind) = process_field_options column (word sql_type ∷ []) in
      elim (add_index_text kind column.field_name) [
        | none ↦ none
        | some added ↦ some (
            word "ALTER TABLE "
              ∷ name table_name
              ∷ word " ADD COLUMN "
              ∷ name column.field_name
              ∷ word " "
              ∷ text
            ++ added
            ++ word ";" ∷ [])
      ]
]

unfoldable pub is_named : ℕ → List ℕ → Bool
is_named n [] = false
is_named n (m ∷ ms) = if m == n then true else is_named n ms

unfoldable pub missing_fields : List ℕ → List Column → List Column
unfolding is_named
missing_fields existing [] = []
missing_fields existing (column ∷ columns) =
    let rest = missing_fields existing columns in
    if is_named column.field_name existing then rest else column ∷ rest

-- The statements for the missing fields, and whether they are all made.
unfoldable pub alter_texts : ℕ → List Column → List (List Token) × Bool
unfolding alter_text
alter_texts table_name [] = ([], true)
alter_texts table_name (column ∷ columns) =
    let (texts, done) = alter_texts table_name columns in
    elim (alter_text table_name column) [ none ↦ ([], false) | some text ↦ (text ∷ texts, done) ]

-- SqlTableInitReq: the statements that are executed, and whether it does not abort. `existing` is the
-- columns of the table, if there is one.
unfoldable pub sql_table_init : Option (List ℕ) → Table → List (List Token) × Bool
unfolding create_table alter_texts missing_fields
sql_table_init none t = elim (create_table t) [ none ↦ ([], false) | some text ↦ (text ∷ [], true) ]
sql_table_init (some existing) t = alter_texts t.table_name (missing_fields existing t.columns)
