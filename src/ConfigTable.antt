-- ===== src/ConfigTable.antt =====
-- module/config/include/million/config/config_table.h: the rows of a table of settings, and the
-- indices that are built over one or several of their fields. The values of fields are those of
-- million/include/million/proto_field_any.h; `none` stands for a TaskAbort.
pub mod FieldAny
pub mod Loop
pub mod Lookup
pub mod Composite
mod Tests
use million.Prelude.{
  ℕ, ◌+◌, ◌-◌, ◌%◌, ◌^◌, Bool, true, false, Option, none, some, List, [], ◌∷◌, ◌++◌, ◌==◌,
  if◌then◌else◌, ltb, length, get_elem?,
}
use million.Prelude.Maps.{find, contains, emplace}
use million.ConfigTable.FieldAny.{ProtoFieldAny, any_eq, all_eq, numbers_eq}

-- A row by the numbers of its fields; `none` for a field of a type that ProtoMsgGetFieldAny refuses.
abbrev pub Row : Type 0
Row = List (ℕ × Option ProtoFieldAny)

-- An index by one field and one by several: the keys, with the places of their rows.
abbrev pub Index : Type 0
Index = List (ProtoFieldAny × ℕ)

abbrev pub CompositeIndex : Type 0
CompositeIndex = List (List ProtoFieldAny × ℕ)

pub record ConfigTable : Type 0 where
  -- the numbers of the fields of row_field_descriptor_'s message type
  pub field_numbers : List ℕ
  pub rows : List Row
  pub field_index : List (ℕ × Index)
  pub composite_indices : List (List ℕ × CompositeIndex)

-- The loop of FindRow.
unfoldable pub find_in_rows : (Row → Bool) → List Row → Option Row
find_in_rows predicate [] = none
find_in_rows predicate (row ∷ rows) =
    if predicate row then some row else find_in_rows predicate rows

abbrev pub find_row : (Row → Bool) → ConfigTable → Option Row
find_row predicate t = find_in_rows predicate t.rows

-- GetRowByIndex(idx), GetRowCount().
abbrev pub get_row_count : ConfigTable → ℕ
get_row_count t = length t.rows

unfoldable pub get_row_by_index : ℕ → ConfigTable → Option Row
get_row_by_index idx t = if ltb idx (get_row_count t) then get_elem? t.rows idx else none

-- A place as the int32_t of an index, and that as a size_t again.
unfoldable pub as_place : ℕ → ℕ
as_place i = if ltb (i % 2 ^ 32) (2 ^ 31) then i % 2 ^ 32 else i % 2 ^ 32 + (2 ^ 64 - 2 ^ 32)

-- FindFieldByNumber(number).
unfoldable pub has_number : ℕ → List ℕ → Bool
has_number number [] = false
has_number number (n ∷ ns) = if n == number then true else has_number number ns

-- ProtoMsgGetFieldAny of a field of a row.
unfoldable pub get_field_any : ℕ → Row → Option ProtoFieldAny
get_field_any number row = elim (find number row) [ none ↦ none | some value ↦ value ]

-- What BuildIndex and BuildCompositeIndex share: an index whose keys are compared by `eq`.
module _ {K : Type 0} (eq : K → K → Bool) where
  -- `index.find(key)`.
  unfoldable pub find_key : K → List (K × ℕ) → Option ℕ
  find_key key [] = none
  find_key key ((k, i) ∷ index) = if eq k key then some i else find_key key index

  -- The loop over the rows from place `i` on, with the key of a row; it aborts on a key that is there.
  unfoldable pub build_rows : (Row → Option K) → ℕ → List Row → List (K × ℕ) → Option (List (K × ℕ))
  unfolding find_key as_place
  build_rows key_of i [] index = some index
  build_rows key_of i (row ∷ rows) index = elim (key_of row) [
    | none ↦ none
    | some key ↦ elim (find_key key index) [
      | none ↦ build_rows key_of (i + 1) rows (index ++ (key, as_place i) ∷ [])
      | some j ↦ none
    ]
  ]

  -- The row of a key, or nullptr.
  unfoldable pub find_indexed : K → List (K × ℕ) → ConfigTable → Option (Option Row)
  unfolding find_key get_row_by_index
  find_indexed key index t = elim (find_key key index) [
    | none ↦ some none
    | some i ↦ elim (get_row_by_index i t) [ none ↦ none | some row ↦ some (some row) ]
  ]

-- BuildIndex(field_number). An index that is there is kept.
unfoldable pub build_index : ℕ → ConfigTable → Option ConfigTable
unfolding has_number build_rows
build_index field_number t =
    if has_number field_number t.field_numbers
    then elim (build_rows any_eq (get_field_any field_number) 0 t.rows []) [
      | none ↦ none
      | some index ↦ some (record t { field_index = emplace field_number index t.field_index })
    ]
    else none

-- FindRowByIndex(field_number, key): a row, or nullptr.
unfoldable pub find_row_by_index : ℕ → ProtoFieldAny → ConfigTable → Option (Option Row)
unfolding find_indexed
find_row_by_index field_number key t = elim (find field_number t.field_index) [
  | none ↦ some none
  | some index ↦ find_indexed any_eq key index t
]

-- The key of a row under several fields.
unfoldable pub composite_key : List ℕ → Row → Option (List ProtoFieldAny)
unfolding get_field_any
composite_key [] row = some []
composite_key (number ∷ numbers) row = elim (get_field_any number row) [
  | none ↦ none
  | some key ↦ elim (composite_key numbers row) [ none ↦ none | some keys ↦ some (key ∷ keys) ]
]

unfoldable pub have_numbers : List ℕ → List ℕ → Bool
unfolding has_number
have_numbers [] ns = true
have_numbers (number ∷ numbers) ns = if has_number number ns then have_numbers numbers ns else false

unfoldable pub find_numbers : List ℕ → List (List ℕ × CompositeIndex) → Option CompositeIndex
find_numbers numbers [] = none
find_numbers numbers ((ns, index) ∷ rest) =
    if numbers_eq ns numbers then some index else find_numbers numbers rest

-- BuildCompositeIndex(field_numbers).
unfoldable pub build_composite_index : List ℕ → ConfigTable → Option ConfigTable
unfolding have_numbers build_rows composite_key find_numbers
build_composite_index field_numbers t =
    if have_numbers field_numbers t.field_numbers
    then elim (build_rows all_eq (composite_key field_numbers) 0 t.rows []) [
      | none ↦ none
      | some index ↦ elim (find_numbers field_numbers t.composite_indices) [
        | some old ↦ some t
        | none ↦
            some
              (record t { composite_indices = t.composite_indices ++ (field_numbers, index) ∷ [] })
      ]
    ]
    else none

-- FindRowByCompositeIndex(field_numbers, keys).
unfoldable pub find_row_by_composite_index :
    List ℕ → List ProtoFieldAny → ConfigTable → Option (Option Row)
unfolding find_indexed find_numbers
find_row_by_composite_index field_numbers key t =
    elim (find_numbers field_numbers t.composite_indices) [
      | none ↦ some none
      | some index ↦ find_indexed all_eq key index t
    ]
