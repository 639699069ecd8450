-- ===== src/SqlService/Binding.antt =====
-- The placeholders of the statements of sql_service.h, and the values that are bound to them.
use million.Prelude.{
  ℕ, ◌≡◌, Bool, true, false, ◌||◌, some, List, [], ◌∷◌, ◌++◌, ◌==◌, if◌then◌else◌, arith, refl, ap,
  ◌∙◌, sym, inl, inr, Bool-cases,
}
use mathlib.Core.List.{append-nil}
use million.SqlService.{
  Token, word, name, placeholder, number, comma, newline, left_paren, pop_comma, Column, Table,
  find_field, is_auto_increment,
}
use million.SqlService.Texts.{names_where, not_auto_increment}
use million.SqlService.TableInit.{is_named}
use million.SqlService.Statements.{
  insert_names, insert_placeholders, insert_text, update_fields, update_text, is_bindable,
  bound_names,
}

-- The names that stand behind ':' in a text.
unfoldable pub placeholders : List Token → List ℕ
placeholders [] = []
placeholders (placeholder n ∷ ts) = n ∷ placeholders ts
placeholders (word s ∷ ts) = placeholders ts
placeholders (name n ∷ ts) = placeholders ts
placeholders (number n ∷ ts) = placeholders ts
placeholders (comma ∷ ts) = placeholders ts
placeholders (newline ∷ ts) = placeholders ts
placeholders (left_paren ∷ ts) = placeholders ts

placeholders-append :
    (ts us : List Token) → placeholders (ts ++ us) ≡ placeholders ts ++ placeholders us
unfolding placeholders
placeholders-append [] us = refl
placeholders-append (placeholder n ∷ ts) us = ap (λ (r : List ℕ). n ∷ r) (placeholders-append ts us)
placeholders-append (word s ∷ ts) us = placeholders-append ts us
placeholders-append (name n ∷ ts) us = placeholders-append ts us
placeholders-append (number n ∷ ts) us = placeholders-append ts us
placeholders-append (comma ∷ ts) us = placeholders-append ts us
placeholders-append (newline ∷ ts) us = placeholders-append ts us
placeholders-append (left_paren ∷ ts) us = placeholders-append ts us

-- A comma is no placeholder.
placeholders-pop_comma : (ts : List Token) → placeholders (pop_comma ts) ≡ placeholders ts
unfolding placeholders pop_comma
placeholders-pop_comma [] = refl
placeholders-pop_comma (placeholder n ∷ []) = refl
placeholders-pop_comma (word s ∷ []) = refl
placeholders-pop_comma (name n ∷ []) = refl
placeholders-pop_comma (number n ∷ []) = refl
placeholders-pop_comma (comma ∷ []) = refl
placeholders-pop_comma (newline ∷ []) = refl
placeholders-pop_comma (left_paren ∷ []) = refl
placeholders-pop_comma (t ∷ u ∷ ts) =
    placeholders-append (t ∷ []) (pop_comma (u ∷ ts))
    ∙ ap (λ (r : List ℕ). placeholders (t ∷ []) ++ r) (placeholders-pop_comma (u ∷ ts))
    ∙ sym (placeholders-append (t ∷ []) (u ∷ ts))

is_named-append : (n : ℕ) (xs ys : List ℕ) → is_named n (xs ++ ys) ≡ is_named n xs || is_named n ys
unfolding is_named
is_named-append n [] ys = refl
is_named-append n (x ∷ xs) ys = ground (arith, is_named-append n xs ys)

-- Whether a name is that of a changed column, or of one with a number.
unfoldable pub is_changed : ℕ → (Column → Bool) → List Column → Bool
is_changed n is_dirty [] = false
is_changed n is_dirty (column ∷ columns) =
    let rest = is_changed n is_dirty columns in
    if is_dirty column then (if column.field_name == n then true else rest) else rest

unfoldable pub with_number : ℕ → List Column → List Column
with_number n [] = []
with_number n (column ∷ columns) =
    let rest = with_number n columns in if column.field_number == n then column ∷ rest else rest

unfoldable pub is_name_of : ℕ → List Column → Bool
is_name_of n [] = false
is_name_of n (column ∷ columns) = if column.field_name == n then true else is_name_of n columns

-- No column that is changed, or that is the primary key, is repeated or of a type without values.
pub data AllBindable (is_dirty : Column → Bool) (primary_number : ℕ) : List Column → Type 0 where
  none_left : AllBindable is_dirty primary_number []
  unchanged :
      {column : Column} {columns : List Column}
      → is_dirty column ≡ false
      → column.field_number == primary_number ≡ false
      → AllBindable is_dirty primary_number columns
      → AllBindable is_dirty primary_number (column ∷ columns)
  bindable :
      {column : Column} {columns : List Column}
      → is_bindable column ≡ true
      → AllBindable is_dirty primary_number columns
      → AllBindable is_dirty primary_number (column ∷ columns)

named_in_update :
    (n : ℕ) (is_dirty : Column → Bool) (columns : List Column)
    → is_named n (placeholders (update_fields is_dirty columns)) ≡ is_changed n is_dirty columns
unfolding is_named placeholders update_fields is_changed
named_in_update n is_dirty [] = refl
named_in_update n is_dirty (column ∷ columns) = elim (Bool-cases (is_dirty column)) [
  | inl t ↦ rw t (ground (arith, named_in_update n is_dirty columns))
  | inr t ↦ rw t (named_in_update n is_dirty columns)
]

named_in_bound :
    (n : ℕ) (is_dirty : Column → Bool) (primary_number : ℕ) (columns : List Column)
    → AllBindable is_dirty primary_number columns
    → is_named n (bound_names is_dirty primary_number columns)
      ≡ is_changed n is_dirty columns || is_name_of n (with_number primary_number columns)
unfolding is_named bound_names is_changed is_name_of with_number
named_in_bound n is_dirty primary_number [] none_left = refl
named_in_bound n is_dirty primary_number (column ∷ columns) (unchanged d k ok) =
    rw (d, k) (named_in_bound n is_dirty primary_number columns ok)
named_in_bound n is_dirty primary_number (column ∷ columns) (bindable b ok) =
    ground (arith, b, named_in_bound n is_dirty primary_number columns ok)

found_by_number :
    (n : ℕ) (columns : List Column) (key : Column)
    → with_number n columns ≡ key ∷ []
    → find_field n columns ≡ some key
unfolding with_number find_field
found_by_number n [] key e = ground arith
found_by_number n (column ∷ columns) key e = elim (Bool-cases (column.field_number == n)) [
  | inl t ↦ ground arith
  | inr t ↦ ground (arith, found_by_number n columns key)
]

named_in_update_text :
    (n : ℕ) (is_dirty : Column → Bool) (old_db_version db_version : ℕ) (t : Table) (key : Column)
    (text : List Token)
    → find_field t.primary_key_number t.columns ≡ some key
    → update_text is_dirty old_db_version db_version t ≡ some text
    → is_named n (placeholders text) ≡ is_changed n is_dirty t.columns || (key.field_name == n)
unfolding update_text is_named placeholders
named_in_update_text n is_dirty old_db_version db_version t key text f e =
    let fields = update_fields is_dirty t.columns in
    let begin =
      word "UPDATE "
      ∷ name t.table_name
      ∷ word " SET "
      ∷ word "__db_version__ = "
      ∷ number db_version
      ∷ comma
      ∷ [] in
    let condition =
      word " WHERE "
      ∷ word "__db_version__ = "
      ∷ number old_db_version
      ∷ word " AND __db_version__ < "
      ∷ number db_version
      ∷ word " AND "
      ∷ name key.field_name
      ∷ word " = "
      ∷ placeholder key.field_name
      ∷ word ";"
      ∷ [] in
    let same : pop_comma (begin ++ fields) ++ condition ≡ text = ground arith in
    rw
      (
        sym same,
        placeholders-append (pop_comma (begin ++ fields)) condition,
        placeholders-pop_comma (begin ++ fields),
        is_named-append n (placeholders fields) (key.field_name ∷ []),
        named_in_update n is_dirty t.columns,
      )
      (ground arith)

-- An UPDATE of a table in which one column has the number of the primary key, where that column and
-- the changed ones are not repeated and of a type that has values: what has a placeholder in its text
-- is bound to a value, and what is bound has a placeholder.
pub update_binds :
    (n : ℕ) (is_dirty : Column → Bool) (old_db_version db_version : ℕ) (t : Table) (key : Column)
    (text : List Token)
    → with_number t.primary_key_number t.columns ≡ key ∷ []
    → AllBindable is_dirty t.primary_key_number t.columns
    → update_text is_dirty old_db_version db_version t ≡ some text
    → is_named n (placeholders text)
      ≡ is_named n (bound_names is_dirty t.primary_key_number t.columns)
unfolding is_name_of
update_binds n is_dirty old_db_version db_version t key text one ok e =
    let found = found_by_number t.primary_key_number t.columns key one in
    named_in_update_text n is_dirty old_db_version db_version t key text found e
    ∙ sym (rw (named_in_bound n is_dirty t.primary_key_number t.columns ok, one) (ground arith))

no_placeholders : (columns : List Column) → placeholders (insert_names columns) ≡ []
unfolding placeholders insert_names
no_placeholders [] = refl
no_placeholders (column ∷ columns) = ground (arith, no_placeholders columns)

-- The placeholders of the inserted columns, in order.
placeholders_of_columns :
    (columns : List Column)
    → placeholders (insert_placeholders columns) ≡ names_where not_auto_increment columns
unfolding placeholders insert_placeholders names_where
placeholders_of_columns [] = refl
placeholders_of_columns (column ∷ columns) = elim (Bool-cases (is_auto_increment column)) [
  | inl t ↦ rw t (placeholders_of_columns columns)
  | inr t ↦ rw t (ap (λ (r : List ℕ). column.field_name ∷ r) (placeholders_of_columns columns))
]

all_bound :
    (primary_number : ℕ) (columns : List Column)
    → AllBindable (λ c. true) primary_number columns
    → bound_names (λ c. true) primary_number columns ≡ names_where (λ c. true) columns
unfolding bound_names names_where
all_bound primary_number [] none_left = refl
all_bound primary_number (column ∷ columns) (unchanged d k ok) = ground arith
all_bound primary_number (column ∷ columns) (bindable b ok) =
    ground (arith, b, all_bound primary_number columns ok)

-- An INSERT, for which every field counts as changed, of a table without repeated columns and without
-- types that have no values: its placeholders are those of the columns that the database does not count
-- up, each once and in order; and every column is bound to a value, once and in order, those that are
-- counted up included.
pub insert_binds :
    (t : Table)
    → AllBindable (λ c. true) t.primary_key_number t.columns
    → (placeholders (insert_text t) ≡ names_where not_auto_increment t.columns)
      × (bound_names (λ c. true) t.primary_key_number t.columns ≡ names_where (λ c. true) t.columns)
unfolding insert_text placeholders
insert_binds t ok =
    let begin =
      word "INSERT INTO " ∷ name t.table_name ∷ word " (" ∷ word "__db_version__, " ∷ [] in
    let names = begin ++ insert_names t.columns in
    let values = word " VALUES (" ∷ word "1, " ∷ insert_placeholders t.columns in
    let end = word ")" ∷ word ";" ∷ [] in
    let first : placeholders (pop_comma names) ≡ [] =
      placeholders-pop_comma names ∙ no_placeholders t.columns in
    let all : placeholders (pop_comma names ++ (word ")" ∷ (pop_comma values ++ end)))
        ≡ placeholders (insert_placeholders t.columns) =
      placeholders-append (pop_comma names) (word ")" ∷ (pop_comma values ++ end))
      ∙ ap (λ (r : List ℕ). r ++ placeholders (word ")" ∷ (pop_comma values ++ end))) first
      ∙ placeholders-append (pop_comma values) end
      ∙ ap (λ (r : List ℕ). r ++ []) (placeholders-pop_comma values)
      ∙ append-nil (placeholders (insert_placeholders t.columns)) in
    (all ∙ placeholders_of_columns t.columns, all_bound t.primary_key_number t.columns ok)
