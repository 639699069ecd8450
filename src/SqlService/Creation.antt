-- ===== src/SqlService/Creation.antt =====
-- The text of CREATE TABLE in sql_service.h against the list of what it defines.
use million.Prelude.{ℕ, ◌≡◌, true, Option, none, some, List, [], ◌∷◌, ◌++◌, refl, ap, sym}
use million.SqlService.{
  Token, word, name, comma, newline, Column, MultiIndex, TableSqlOptions, Table,
}
use million.SqlService.TableInit.{
  create_columns, multi_index_texts, table_options_text, create_body, has_fields, create_table,
}
use million.SqlService.Separated.{separated, ended, pop_back-ended}
use million.SqlService.Parts.{
  line_end, ended-append, columns_parts, columns_parts-ended, multi_indexs_parts,
  multi_indexs_ended, AllFound, primary_keys_parts, primary_keys_ended,
}

abbrev pub multi_indexs_of : Option TableSqlOptions → List MultiIndex
multi_indexs_of none = []
multi_indexs_of (some options) = options.multi_indexs

-- The definitions of a table.
abbrev pub definitions : Table → List ℕ → List (List Token)
definitions t keys =
    (word "    __db_version__ BIGINT  NOT NULL" ∷ [])
    ∷ (columns_parts t.columns
        ++ (multi_indexs_parts (multi_indexs_of t.sql) t.columns ++ primary_keys_parts keys))

options_ended :
    (sql : Option TableSqlOptions) (columns : List Column)
    → AllFound columns (multi_indexs_of sql)
    → elim sql [ none ↦ [] | some options ↦ multi_index_texts options.multi_indexs columns ]
      ≡ ended line_end (multi_indexs_parts (multi_indexs_of sql) columns)
unfolding multi_indexs_parts ended
options_ended none columns ok = refl
options_ended (some options) columns ok = multi_indexs_ended options.multi_indexs columns ok

body_ended :
    (t : Table) (columns : List Token) (keys : List ℕ)
    → create_columns t.columns ≡ some (columns, keys)
    → AllFound t.columns (multi_indexs_of t.sql)
    → create_body t columns keys ≡ ended line_end (definitions t keys)
unfolding create_body ended
body_ended t columns keys e ok =
    let indexs = multi_indexs_parts (multi_indexs_of t.sql) t.columns in
    let primary = primary_keys_parts keys in
    ap (λ (r : List Token). word "    __db_version__ BIGINT  NOT NULL" ∷ comma ∷ newline ∷ r)
      (rw
        (
          columns_parts-ended t.columns columns keys e,
          options_ended t.sql t.columns ok,
          primary_keys_ended keys,
          sym (ended-append line_end indexs primary),
        )
        (sym (ended-append line_end (columns_parts t.columns) (indexs ++ primary))))

-- CREATE TABLE of a table with a field, each of a type that has a column, in which every index over
-- several columns has a column: between the parentheses stand the definitions of the version, of the
-- columns that are not repeated with their indexes, of the indexes over several columns and of the
-- primary key, with a comma and a line end between any two of them.
pub create_table_lem :
    (t : Table) (columns : List Token) (keys : List ℕ)
    → create_columns t.columns ≡ some (columns, keys)
    → has_fields t.columns ≡ true
    → AllFound t.columns (multi_indexs_of t.sql)
    → create_table t
      ≡ some (
          word "CREATE TABLE "
          ∷ name t.table_name
          ∷ word " ("
          ∷ newline
          ∷ (separated line_end (definitions t keys)
              ++ (newline ∷ word ") " ∷ (table_options_text t.sql ++ (word ";" ∷ [])))))
unfolding create_table
create_table_lem t columns keys e h ok =
    rw
      (
        create_table,
        e,
        h,
        body_ended t columns keys e ok,
        pop_back-ended (word "    __db_version__ BIGINT  NOT NULL" ∷ []) (
            columns_parts t.columns
            ++ (multi_indexs_parts (multi_indexs_of t.sql) t.columns ++ primary_keys_parts keys)),
      )
      refl
