-- ===== src/DbRow/Tests.antt =====
-- A row with a primary key, a changed and an unchanged field.
use million.Prelude.{ℕ, ◌≡◌, refl, true, false, none, [], ◌∷◌}
use million.DbRow.{FieldDescriptor, DbRow, is_dirty, set_dirty, set_dirty_by_field_index, commit}

abbrev column : ℕ → FieldDescriptor
column n = record { number = n; is_repeated = false; is_supported = true; default_value = 0 }

abbrev row : DbRow
row = record {
  db_version = 8;
  fields =
      record { descriptor = column 1; value = 42; dirty = false }
      ∷ record { descriptor = column 2; value = 6; dirty = true }
      ∷ record { descriptor = column 3; value = 7; dirty = false }
      ∷ [];
}

abbrev cached : DbRow
cached = record {
  db_version = 7;
  fields =
      record { descriptor = column 1; value = 42; dirty = false }
      ∷ record { descriptor = column 2; value = 5; dirty = false }
      ∷ record { descriptor = column 3; value = 7; dirty = false }
      ∷ [];
}

cleared : is_dirty (set_dirty false row.fields) ≡ false
unfolding is_dirty set_dirty
cleared = refl

out_of_range : set_dirty_by_field_index true 3 row.fields ≡ none
unfolding set_dirty_by_field_index
out_of_range = refl

next_version : (commit row).0.db_version ≡ 9
unfolding commit
next_version = refl
