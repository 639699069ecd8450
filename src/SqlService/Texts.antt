-- ===== src/SqlService/Texts.antt =====
-- The texts of sql_service.h against the statements that they are to be.
use million.Prelude.{
  ℕ, ◌≡◌, Bool, true, false, some, List, [], ◌∷◌, ◌++◌, if◌then◌else◌, map, refl, ap, inl, inr,
  Bool-cases,
}
use million.SqlService.{
  Token, word, name, placeholder, number, comma, Column, Table, find_field, is_auto_increment,
}
use million.SqlService.Statements.{
  insert_names, insert_placeholders, insert_text, update_fields, update_text,
}
use million.SqlService.Separated.{name_part, separated, ended, pop_comma-ended}

-- The names of the columns of a kind, in order.
unfoldable pub names_where : (Column → Bool) → List Column → List ℕ
names_where p [] = []
names_where p (column ∷ columns) =
    let rest = names_where p columns in if p column then column.field_name ∷ rest else rest

abbrev pub not_auto_increment : Column → Bool
not_auto_increment column = if is_auto_increment column then false else true

abbrev placeholder_part : ℕ → List Token
placeholder_part n = placeholder n ∷ []

abbrev set_part : ℕ → List Token
set_part n = name n ∷ word " = " ∷ placeholder n ∷ []

insert_names-ended :
    (columns : List Column)
    → insert_names columns
      ≡ ended (comma ∷ []) (map name_part (names_where not_auto_increment columns))
unfolding insert_names names_where ended
insert_names-ended [] = refl
insert_names-ended (column ∷ columns) = elim (Bool-cases (is_auto_increment column)) [
  | inl t ↦ rw t (insert_names-ended columns)
  | inr t ↦
      rw t
        (ap (λ (r : List Token). name column.field_name ∷ comma ∷ r) (insert_names-ended columns))
]

insert_placeholders-ended :
    (columns : List Column)
    → insert_placeholders columns
      ≡ ended (comma ∷ []) (map placeholder_part (names_where not_auto_increment columns))
unfolding insert_placeholders names_where ended
insert_placeholders-ended [] = refl
insert_placeholders-ended (column ∷ columns) = elim (Bool-cases (is_auto_increment column)) [
  | inl t ↦ rw t (insert_placeholders-ended columns)
  | inr t ↦ rw t (
      ap (λ (r : List Token). placeholder column.field_name ∷ comma ∷ r)
        (insert_placeholders-ended columns))
]

-- INSERT of a table with a column that is not counted up by the database: the names of those columns
-- with commas between them, and their placeholders in the same order.
pub insert_text_lem :
    (t : Table) (n : ℕ) (ns : List ℕ)
    → names_where not_auto_increment t.columns ≡ n ∷ ns
    → insert_text t
      ≡ word "INSERT INTO "
          ∷ name t.table_name
          ∷ word " ("
          ∷ word "__db_version__, "
          ∷ separated (comma ∷ []) (map name_part (n ∷ ns))
        ++ (word ")"
            ∷ word " VALUES ("
            ∷ word "1, "
            ∷ (separated (comma ∷ []) (map placeholder_part (n ∷ ns))
                ++ (word ")" ∷ word ";" ∷ [])))
unfolding insert_text
insert_text_lem t n ns e =
    let begin =
      word "INSERT INTO " ∷ name t.table_name ∷ word " (" ∷ word "__db_version__, " ∷ [] in
    let values = word " VALUES (" ∷ word "1, " ∷ [] in
    rw
      (
        insert_names-ended t.columns,
        insert_placeholders-ended t.columns,
        e,
        pop_comma-ended begin (name_part n) (map name_part ns),
        pop_comma-ended values (placeholder_part n) (map placeholder_part ns),
      )
      refl

update_fields-ended :
    (is_dirty : Column → Bool) (columns : List Column)
    → update_fields is_dirty columns
      ≡ ended (comma ∷ []) (map set_part (names_where is_dirty columns))
unfolding update_fields names_where ended
update_fields-ended is_dirty [] = refl
update_fields-ended is_dirty (column ∷ columns) = elim (Bool-cases (is_dirty column)) [
  | inl t ↦ rw t (
      ap (λ (r : List Token). set_part column.field_name ++ comma ∷ r)
        (update_fields-ended is_dirty columns))
  | inr t ↦ rw t (update_fields-ended is_dirty columns)
]

-- UPDATE of a table whose primary key is one of its columns, whatever has changed: the new version and
-- the changed columns with commas between them, where the key, the old version and the order of the
-- versions are as given.
pub update_text_lem :
    (is_dirty : Column → Bool) (old_db_version db_version : ℕ) (t : Table) (key : Column)
    → find_field t.primary_key_number t.columns ≡ some key
    → update_text is_dirty old_db_version db_version t
      ≡ some (
          word "UPDATE "
            ∷ name t.table_name
            ∷ word " SET "
            ∷ separated (comma ∷ []) (
                (word "__db_version__ = " ∷ number db_version ∷ [])
                ∷ map set_part (names_where is_dirty t.columns))
          ++ word " WHERE "
            ∷ word "__db_version__ = "
            ∷ number old_db_version
            ∷ word " AND __db_version__ < "
            ∷ number db_version
            ∷ word " AND "
            ∷ name key.field_name
            ∷ word " = "
            ∷ placeholder key.field_name
            ∷ word ";"
            ∷ [])
unfolding update_text ended
update_text_lem is_dirty old_db_version db_version t key f =
    let begin = word "UPDATE " ∷ name t.table_name ∷ word " SET " ∷ [] in
    rw
      (
        update_text,
        f,
        update_fields-ended is_dirty t.columns,
        pop_comma-ended begin (word "__db_version__ = " ∷ number db_version ∷ [])
            (map set_part (names_where is_dirty t.columns)),
      )
      refl
