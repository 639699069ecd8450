-- ===== src/ConfigTable/Lookup.antt =====
-- The index over one field of config_table.h.
use million.Prelude.{
  ℕ, ◌^◌, ◌<◌, ◌≤◌, ◌≡◌, false, none, some, List, [], length, get_elem?, arith, inl, inr,
  Bool-cases, Option-cases,
}
use million.Prelude.Maps.{find, find-emplace, absent_of_find}
use million.ConfigTable.FieldAny.{ProtoFieldAny, any_eq}
use million.ConfigTable.{
  Row, ConfigTable, find_row, get_field_any, has_number, build_rows, build_index, find_row_by_index,
}
use million.ConfigTable.Loop.{has_key, find_built, built_distinct}

index_made :
    (number : ℕ) (t t' : ConfigTable)
    → build_index number t ≡ some t'
    → find number t.field_index ≡ none
    → (index : List (ProtoFieldAny × ℕ)) × (build_rows any_eq (get_field_any number) 0 t.rows []
        ≡ some index)
      × (t'.rows ≡ t.rows)
      × (find number t'.field_index ≡ some index)
unfolding build_index
index_made number t t' e f = elim (Bool-cases (has_number number t.field_numbers)) [
  | inr h ↦ ground arith
  | inl h ↦ elim (Option-cases (build_rows any_eq (get_field_any number) 0 t.rows [])) [
    | inl n ↦ ground arith
    | inr (index, b) ↦ (
      index,
      b,
      ground arith,
      ground (
        arith,
        find-emplace number number index t.field_index,
        absent_of_find number t.field_index f,
      ),
    )
  ]
]

-- After an index over a field has been built, for which there was none, in a table of at most 2 ^ 31
-- rows: the search by the index does not abort, and finds what a search through the rows finds for
-- the first row whose field equals the key, in type and value.
pub find_row_by_index-find_row :
    (number : ℕ) (key : ProtoFieldAny) (t t' : ConfigTable)
    → build_index number t ≡ some t'
    → find number t.field_index ≡ none
    → length t.rows ≤ 2 ^ 31
    → find_row_by_index number key t'
      ≡ some (find_row (has_key any_eq (get_field_any number) key) t')
unfolding find_row_by_index
find_row_by_index-find_row number key t t' e f l =
    let (index, b, same, found) = index_made number t t' e f in
    let rows : length t'.rows ≤ 2 ^ 31 = rw same l in
    rw (found, find_row_by_index)
      (find_built any_eq (get_field_any number) key t' index (rw same b) rows)

-- In such a table no two rows have equal fields.
pub indexed_rows_differ :
    (number : ℕ) (t t' : ConfigTable) (p q : ℕ) (a b : Row) (x y : ProtoFieldAny)
    → build_index number t ≡ some t'
    → find number t.field_index ≡ none
    → length t.rows ≤ 2 ^ 31
    → p < q
    → get_elem? t.rows p ≡ some a
    → get_elem? t.rows q ≡ some b
    → get_field_any number a ≡ some x
    → get_field_any number b ≡ some y
    → any_eq x y ≡ false
indexed_rows_differ number t t' p q a b x y e f l o g g' h h' =
    let (index, built, same, found) = index_made number t t' e f in
    built_distinct any_eq (get_field_any number) 0 t.rows [] index p q a b x y built (omega arith) o
      g g' h h'
