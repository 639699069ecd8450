-- ===== src/DbRow.antt =====
-- module/db/src/db_row.cpp: a row of a table as a protobuf message with a flag per field that says
-- whether the field was changed, and the version of the row. `none` stands for TaskAbort, which
-- throws. Values of fields are numbers; a message is given by its fields in the order of the type.
pub mod Delta
mod Tests
use million.Prelude.{
  ℕ, zero, suc, ◌+◌, ◌%◌, ◌^◌, Bool, true, false, not, ◌&&◌, ◌||◌, Option, none, some, List, [],
  ◌∷◌, ◌==◌, if◌then◌else◌,
}

-- What the code reads of google::protobuf::FieldDescriptor; `is_supported` is false for the types that
-- CopyField has no case for.
pub record FieldDescriptor : Type 0 where
  pub number : ℕ
  pub is_repeated : Bool
  pub is_supported : Bool
  pub default_value : ℕ

pub record Field : Type 0 where
  pub descriptor : FieldDescriptor
  pub value : ℕ
  -- dirty_fields_[i]
  pub dirty : Bool

pub record DbRow : Type 0 where
  pub db_version : ℕ
  pub fields : List Field

-- IsDirty.
unfoldable pub is_dirty : List Field → Bool
is_dirty [] = false
is_dirty (f ∷ fs) = if f.dirty then true else is_dirty fs

-- MarkDirty and ClearDirty.
unfoldable pub set_dirty : Bool → List Field → List Field
set_dirty b [] = []
set_dirty b (f ∷ fs) = record f { dirty = b } ∷ set_dirty b fs

abbrev pub mark_dirty : DbRow → DbRow
unfolding set_dirty
mark_dirty row = record row { fields = set_dirty true row.fields }

abbrev pub clear_dirty : DbRow → DbRow
unfolding set_dirty
clear_dirty row = record row { fields = set_dirty false row.fields }

-- MarkDirtyByFieldIndex and ClearDirtyByFieldIndex; `at` throws out of range.
unfoldable pub set_dirty_by_field_index : Bool → ℕ → List Field → Option (List Field)
set_dirty_by_field_index b i [] = none
set_dirty_by_field_index b zero (f ∷ fs) = some (record f { dirty = b } ∷ fs)
set_dirty_by_field_index b (suc i) (f ∷ fs) = elim (set_dirty_by_field_index b i fs) [
  | none ↦ none
  | some fs' ↦ some (f ∷ fs')
]

-- The message that `proto_msg_->New()` makes, under the flags of the row.
unfoldable pub new_fields : List Field → List Field
new_fields [] = []
new_fields (f ∷ fs) = record f { value = f.descriptor.default_value } ∷ new_fields fs

-- Whether a field is the primary key that is to be copied.
abbrev pub is_primary : Option ℕ → Field → Bool
is_primary none f = false
is_primary (some primary_key) f = primary_key == f.descriptor.number

-- CopyField to `own`, marked as dirty; it aborts on repeated fields and on unsupported types.
unfoldable pub copy_field : Field → Field → Option Field
copy_field target own =
    if target.descriptor.is_repeated || not target.descriptor.is_supported
    then none
    else some (record own { value = target.value; dirty = true })

-- The loop of CopyFromDirty over the fields of the target and the row's own, with the number of the
-- primary key if it is to be copied.
unfoldable pub copy_fields : Option ℕ → List Field → List Field → Option (List Field)
unfolding copy_field
copy_fields primary_key (t ∷ ts) (f ∷ fs) =
    let rest = copy_fields primary_key ts fs in
    elim (if is_primary primary_key t || t.dirty then copy_field t f else some f) [
      | none ↦ none
      | some f' ↦ elim rest [ none ↦ none | some fs' ↦ some (f' ∷ fs') ]
    ]
copy_fields primary_key _ fs = some fs

-- CopyFromDirty(target, copy_primary_key), with the primary key that the options of the type name.
unfoldable pub copy_from_dirty : Option ℕ → DbRow → DbRow → Option DbRow
unfolding copy_fields
copy_from_dirty primary_key target row = elim (copy_fields primary_key target.fields row.fields) [
  | none ↦ none
  | some fs ↦ some (record { db_version = target.db_version; fields = fs })
]

-- CopyDirtyTo(copy_primary_key).
unfoldable pub copy_dirty_to : Option ℕ → DbRow → Option DbRow
unfolding new_fields copy_from_dirty
copy_dirty_to primary_key row =
    copy_from_dirty primary_key row (record { db_version = 0; fields = new_fields row.fields })

-- Commit: the row with its new version, and the version that the update request is for.
unfoldable pub commit : DbRow → DbRow × ℕ
commit row = (record row { db_version = (row.db_version + 1) % 2 ^ 64 }, row.db_version)
