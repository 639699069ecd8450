-- ===== src/ConfigTable/Tests.antt =====
-- A table of two rows at concrete inputs.
use million.Prelude.{ℕ, ◌≡◌, true, false, none, some, [], ◌∷◌, arith, refl}
use million.Prelude.Maps.{find, emplace}
use million.ConfigTable.FieldAny.{int32, int64, uint32, any_eq, all_eq, float, float_eq}
use million.ConfigTable.{
  Row, ConfigTable, find_row, get_field_any, has_number, find_key, build_rows, build_index,
  find_row_by_index, find_indexed, as_place, composite_key, have_numbers, find_numbers,
  build_composite_index, find_row_by_composite_index,
}
use million.ConfigTable.Loop.{has_key}
use million.ConfigTable.Lookup.{find_row_by_index-find_row}
use million.ConfigTable.Composite.{find_row_by_composite_index-find_row}

abbrev item : ℕ → ℕ → Row
item id level = (1, some (int32 id)) ∷ (2, some (uint32 level)) ∷ (3, none) ∷ []

abbrev items : ConfigTable
items = record {
  field_numbers = 1 ∷ 2 ∷ 3 ∷ [];
  rows = item 7 1 ∷ item 8 1 ∷ [];
  field_index = [];
  composite_indices = [];
}

abbrev by_id : ConfigTable
by_id = record items { field_index = (1, (int32 7, 0) ∷ (int32 8, 1) ∷ []) ∷ [] }

abbrev by_both : ConfigTable
by_both = record items {
  composite_indices =
      (1 ∷ 2 ∷ [], (int32 7 ∷ uint32 1 ∷ [], 0) ∷ (int32 8 ∷ uint32 1 ∷ [], 1) ∷ []) ∷ [];
}

built : build_index 1 items ≡ some by_id
unfolding build_index has_number build_rows get_field_any find find_key any_eq as_place emplace
built = refl

-- The levels are not distinct, and the third field is of a type that is refused.
not_built : (build_index 2 items ≡ none) × (build_index 3 items ≡ none)
unfolding build_index has_number build_rows get_field_any find find_key any_eq as_place
not_built = (refl, refl)

-- A key of the same number and another type is not found.
other_type : find_row_by_index 1 (int64 7) by_id ≡ some none
unfolding find_row_by_index find_indexed find_key find any_eq
other_type = refl

-- A float NaN is no key of any row, and the two zeros are one key.
floats :
    (any_eq (float 0x7fc00000) (float 0x7fc00000) ≡ false)
    × (any_eq (float 0x80000000) (float 0) ≡ true)
unfolding any_eq float_eq
floats = (refl, refl)

find_row_by_index-find_row_example :
    find_row_by_index 1 (int32 8) by_id
    ≡ some (find_row (has_key any_eq (get_field_any 1) (int32 8)) by_id)
unfolding find
find_row_by_index-find_row_example =
    find_row_by_index-find_row 1 (int32 8) items by_id built refl (omega arith)

composite_built : build_composite_index (1 ∷ 2 ∷ []) items ≡ some by_both
unfolding build_composite_index have_numbers has_number build_rows composite_key get_field_any find
    find_key all_eq any_eq as_place find_numbers
composite_built = refl

find_row_by_composite_index-find_row_example :
    find_row_by_composite_index (1 ∷ 2 ∷ []) (int32 8 ∷ uint32 1 ∷ []) by_both
    ≡ some
        (find_row (has_key all_eq (composite_key (1 ∷ 2 ∷ [])) (int32 8 ∷ uint32 1 ∷ [])) by_both)
unfolding find_numbers
find_row_by_composite_index-find_row_example =
    find_row_by_composite_index-find_row (1 ∷ 2 ∷ []) (int32 8 ∷ uint32 1 ∷ []) items by_both
      composite_built refl (omega arith)
