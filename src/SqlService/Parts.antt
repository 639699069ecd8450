-- ===== src/SqlService/Parts.antt =====
-- The definitions between the parentheses of CREATE TABLE in sql_service.h.
use million.Prelude.{
  ℕ, ◌≡◌, none, some, List, [], ◌∷◌, ◌++◌, if◌then◌else◌, map, arith, refl, ap, ◌∙◌, sym, inl, inr,
  Bool-cases, Option-cases,
}
use mathlib.Core.List.{append_assoc}
use million.SqlService.{
  Token, word, name, comma, newline, left_paren, pop_back, ColumnSqlOptionsIndex, no_index,
  primary_key, index, unique, fulltext, Column, MultiIndex, map_proto_type_to_sql,
  process_field_options, find_field,
}
use million.SqlService.TableInit.{
  index_text, create_column, create_columns, multi_index_word, found_names, multi_index_text,
  multi_index_texts, names_text, primary_keys_text,
}
use million.SqlService.Separated.{name_part, separated, ended, ended-separated, pop_back-append}

-- What is behind each definition.
abbrev pub line_end : List Token
line_end = comma ∷ newline ∷ []

pub ended-append :
    (sep : List Token) (xs ys : List (List Token))
    → ended sep (xs ++ ys) ≡ ended sep xs ++ ended sep ys
unfolding ended
ended-append sep [] ys = refl
ended-append sep (x ∷ xs) ys =
    ap (λ (t : List Token). x ++ (sep ++ t)) (ended-append sep xs ys) ∙ simp append_assoc

-- The definitions that a column makes, and those of all columns that are not repeated.
index_parts : ColumnSqlOptionsIndex → ℕ → List (List Token)
index_parts unique n = (word "    UNIQUE (" ∷ name n ∷ word ")" ∷ []) ∷ []
index_parts index n = (word "    INDEX (" ∷ name n ∷ word ")" ∷ []) ∷ []
index_parts fulltext n = (word "    FULLTEXT (" ∷ name n ∷ word ")" ∷ []) ∷ []
index_parts _ n = []

unfoldable pub column_parts : Column → List (List Token)
unfolding index_parts
column_parts column =
    if column.is_repeated then [] else elim (map_proto_type_to_sql column.field_type) [
      | none ↦ []
      | some sql_type ↦
          let (text, kind) = process_field_options column (word sql_type ∷ []) in
          index_parts kind column.field_name
          ++ ((word "    " ∷ name column.field_name ∷ word " " ∷ text) ∷ [])
    ]

unfoldable pub columns_parts : List Column → List (List Token)
unfolding column_parts
columns_parts [] = []
columns_parts (column ∷ columns) = column_parts column ++ columns_parts columns

index_parts-ended :
    (kind : ColumnSqlOptionsIndex) (n : ℕ) → index_text kind n ≡ ended line_end (index_parts kind n)
unfolding index_text index_parts ended
index_parts-ended unique n = refl
index_parts-ended index n = refl
index_parts-ended fulltext n = refl
index_parts-ended primary_key n = refl
index_parts-ended no_index n = refl

column_parts-ended :
    (column : Column) (text : List Token) (keys : List ℕ)
    → create_column column ≡ some (text, keys)
    → text ≡ ended line_end (column_parts column)
unfolding create_column column_parts ended
column_parts-ended column text keys e = elim (Bool-cases column.is_repeated) [
  | inl r ↦ rw r (ground arith)
  | inr r ↦ elim (Option-cases (map_proto_type_to_sql column.field_type)) [
    | inl n ↦ ground arith
    | inr (sql_type, m) ↦
        let p = process_field_options column (word sql_type ∷ []) in
        let body = word "    " ∷ name column.field_name ∷ word " " ∷ p.0 in
        let same : index_text p.1 column.field_name ++ (body ++ line_end) ≡ text = ground arith in
        rw (r, m)
          (sym same
            ∙ ap (λ (t : List Token). t ++ (body ++ line_end))
                (index_parts-ended p.1 column.field_name)
            ∙ sym (ended-append line_end (index_parts p.1 column.field_name) (body ∷ [])))
  ]
]

pub columns_parts-ended :
    (columns : List Column) (text : List Token) (keys : List ℕ)
    → create_columns columns ≡ some (text, keys)
    → text ≡ ended line_end (columns_parts columns)
unfolding create_columns columns_parts ended
columns_parts-ended [] text keys e = ground arith
columns_parts-ended (column ∷ columns) text keys e = elim (Option-cases (create_column column)) [
  | inl n ↦ ground arith
  | inr ((one, some_keys), m) ↦ elim (Option-cases (create_columns columns)) [
    | inl n ↦ ground arith
    | inr ((rest, more), k) ↦
        let same : one ++ rest ≡ text = ground arith in
        sym same
        ∙ ap (λ (t : List Token). t ++ rest) (column_parts-ended column one some_keys m)
        ∙ ap (λ (t : List Token). ended line_end (column_parts column) ++ t)
            (columns_parts-ended columns rest more k)
        ∙ sym (ended-append line_end (column_parts column) (columns_parts columns))
  ]
]

names_text-ended : (ns : List ℕ) → names_text ns ≡ ended (comma ∷ []) (map name_part ns)
unfolding names_text ended
names_text-ended [] = refl
names_text-ended (n ∷ ns) = ap (λ (t : List Token). name n ∷ comma ∷ t) (names_text-ended ns)

-- The names with commas between them.
abbrev pub names_between : List ℕ → List Token
names_between ns = separated (comma ∷ []) (map name_part ns)

pop_back-names :
    (begin : List Token) (n : ℕ) (ns : List ℕ)
    → pop_back (begin ++ names_text (n ∷ ns)) ≡ begin ++ names_between (n ∷ ns)
pop_back-names begin n ns =
    ap (λ (t : List Token). pop_back (begin ++ t))
      (names_text-ended (n ∷ ns) ∙ ended-separated (comma ∷ []) (name_part n) (map name_part ns))
    ∙ ap pop_back (sym (append_assoc begin (names_between (n ∷ ns)) (comma ∷ [])))
    ∙ pop_back-append (begin ++ names_between (n ∷ ns)) comma

-- The names of the columns with the given numbers.
unfoldable pub found : List ℕ → List Column → List ℕ
found [] columns = []
found (n ∷ ns) columns =
    let rest = found ns columns in
    elim (find_field n columns) [ none ↦ rest | some column ↦ column.field_name ∷ rest ]

found_names_text :
    (ns : List ℕ) (columns : List Column) → found_names ns columns ≡ names_text (found ns columns)
unfolding found_names names_text found
found_names_text [] columns = refl
found_names_text (n ∷ ns) columns = elim (Option-cases (find_field n columns)) [
  | inl e ↦ rw (found_names, found, e) (found_names_text ns columns)
  | inr (column, e) ↦
      rw (found_names, found, e)
        (ap (λ (t : List Token). name column.field_name ∷ comma ∷ t) (found_names_text ns columns))
]

-- The definition of an index over several columns.
unfoldable pub multi_index_parts : MultiIndex → List Column → List (List Token)
multi_index_parts m columns = elim (multi_index_word m.index_kind) [
  | none ↦ []
  | some begin ↦
      (begin
        ∷ word m.index_name
        ∷ word " "
        ∷ left_paren
        ∷ (names_between (found m.field_numbers columns) ++ (word ")" ∷ [])))
      ∷ []
]

unfoldable pub multi_indexs_parts : List MultiIndex → List Column → List (List Token)
unfolding multi_index_parts
multi_indexs_parts [] columns = []
multi_indexs_parts (m ∷ ms) columns = multi_index_parts m columns ++ multi_indexs_parts ms columns

-- Every index over several columns has a column.
pub data AllFound (columns : List Column) : List MultiIndex → Type 0 where
  none_left : AllFound columns []
  has_column :
      {m : MultiIndex} {ms : List MultiIndex}
      → (n : ℕ) (ns : List ℕ) → found m.field_numbers columns ≡ n ∷ ns
      → AllFound columns ms
      → AllFound columns (m ∷ ms)

multi_index_ended :
    (m : MultiIndex) (columns : List Column) (n : ℕ) (ns : List ℕ)
    → found m.field_numbers columns ≡ n ∷ ns
    → multi_index_text m columns ≡ ended line_end (multi_index_parts m columns)
unfolding multi_index_text multi_index_parts ended
multi_index_ended m columns n ns f = elim (Option-cases (multi_index_word m.index_kind)) [
  | inl e ↦ rw (multi_index_text, multi_index_parts, e) refl
  | inr (begin, e) ↦
      let start = word " " ∷ left_paren ∷ [] in
      let ends = word ")" ∷ comma ∷ newline ∷ [] in
      rw
        (
          multi_index_text,
          multi_index_parts,
          e,
          found_names_text m.field_numbers columns,
          f,
          pop_back-names start n ns,
        )
        (ap (λ (t : List Token). begin ∷ word m.index_name ∷ t) (simp append_assoc))
]

pub multi_indexs_ended :
    (ms : List MultiIndex) (columns : List Column)
    → AllFound columns ms
    → multi_index_texts ms columns ≡ ended line_end (multi_indexs_parts ms columns)
unfolding multi_index_texts multi_indexs_parts ended
multi_indexs_ended [] columns none_left = refl
multi_indexs_ended (m ∷ ms) columns (has_column n ns f ok) =
    rw (multi_index_ended m columns n ns f, multi_indexs_ended ms columns ok)
      (sym (ended-append line_end (multi_index_parts m columns) (multi_indexs_parts ms columns)))

-- The definition of the primary key.
unfoldable pub primary_keys_parts : List ℕ → List (List Token)
primary_keys_parts [] = []
primary_keys_parts (n ∷ ns) =
    (word "    PRIMARY KEY (" ∷ (names_between (n ∷ ns) ++ (word ")" ∷ []))) ∷ []

pub primary_keys_ended :
    (keys : List ℕ) → primary_keys_text keys ≡ ended line_end (primary_keys_parts keys)
unfolding primary_keys_text primary_keys_parts ended
primary_keys_ended [] = refl
primary_keys_ended (n ∷ ns) =
    rw (pop_back-names [] n ns)
      (ap (λ (t : List Token). word "    PRIMARY KEY (" ∷ t) (simp append_assoc))
