-- ===== src/DbRow/Delta.antt =====
-- The copy of the changed fields carries over what was changed.
use million.Prelude.{
  ℕ, ◌≡◌, ◌↔◌, Bool, true, false, not, ◌&&◌, ◌||◌, Option, none, some, List, [], ◌∷◌, ◌==◌,
  if◌then◌else◌, arith, refl,
}
use million.DbRow.{
  Field, DbRow, is_primary, copy_field, copy_fields, copy_from_dirty, copy_dirty_to, new_fields,
}

-- The fields that are copied can be.
unfoldable pub copyable : Option ℕ → List Field → Bool
copyable primary_key [] = true
copyable primary_key (f ∷ fs) =
    (not (is_primary primary_key f || f.dirty)
      || (not f.descriptor.is_repeated && f.descriptor.is_supported))
    && copyable primary_key fs

-- A row of the same type that has the same values in the fields that are not dirty.
unfoldable pub differs_in_dirty : List Field → List Field → Bool
differs_in_dirty [] [] = true
differs_in_dirty (f ∷ fs) (g ∷ gs) = (f.dirty || (f.value == g.value)) && differs_in_dirty fs gs
differs_in_dirty _ _ = false

unfoldable pub values : List Field → List ℕ
values [] = []
values (f ∷ fs) = f.value ∷ values fs

-- What CopyDirtyTo makes of the fields.
unfoldable pub delta : Option ℕ → List Field → List Field
delta primary_key [] = []
delta primary_key (f ∷ fs) =
    (if is_primary primary_key f || f.dirty
      then record f { dirty = true }
      else record f { value = f.descriptor.default_value })
    ∷ delta primary_key fs

pub copy_new_fields :
    (primary_key : Option ℕ) (fs : List Field)
    → copyable primary_key fs ≡ true
    → copy_fields primary_key fs (new_fields fs) ≡ some (delta primary_key fs)
unfolding copy_fields copy_field new_fields copyable delta
copy_new_fields primary_key [] h = refl
copy_new_fields primary_key (f ∷ fs) h = ground (arith, copy_new_fields primary_key fs)

copy_delta :
    (primary_key : Option ℕ) (fs base : List Field)
    → copyable primary_key fs ≡ true
    → differs_in_dirty fs base ≡ true
    → (result : List Field) × (copy_fields none (delta primary_key fs) base ≡ some result)
      × (values result ≡ values fs)
unfolding copy_fields copy_field differs_in_dirty copyable delta values
copy_delta primary_key [] [] h d = ([], refl, refl)
copy_delta primary_key [] (g ∷ gs) h d = ground arith
copy_delta primary_key (f ∷ fs) [] h d = ground arith
copy_delta primary_key (f ∷ fs) (g ∷ gs) h d =
    let a : copyable primary_key fs ≡ true = ground arith in
    let b : differs_in_dirty fs gs ≡ true = ground arith in
    let (result, copied, same) = copy_delta primary_key fs gs a b in
    let head =
      if is_primary primary_key f || f.dirty
      then record g { value = f.value; dirty = true }
      else g in
    (head ∷ result, ground arith, ground arith)

copy_new_fields_aborts :
    (primary_key : Option ℕ) (fs : List Field)
    → copyable primary_key fs ≡ false
    → copy_fields primary_key fs (new_fields fs) ≡ none
unfolding copy_fields copy_field new_fields copyable
copy_new_fields_aborts primary_key [] h = ground arith
copy_new_fields_aborts primary_key (f ∷ fs) h =
    ground (arith, copy_new_fields_aborts primary_key fs, copy_new_fields primary_key fs)

-- CopyDirtyTo aborts exactly if a field that it copies, a dirty one or the primary key, is repeated
-- or of a type that is not supported.
pub copy_dirty_to_aborts :
    (primary_key : Option ℕ) (row : DbRow)
    → (copy_dirty_to primary_key row ≡ none) ↔ (copyable primary_key row.fields ≡ false)
unfolding copy_dirty_to copy_from_dirty
copy_dirty_to_aborts primary_key row =
    ground
      (arith, copy_new_fields_aborts primary_key row.fields, copy_new_fields primary_key row.fields)

-- The copy of the changed fields of a row, taken over by a row of the same type that differs from it
-- in those fields only, gives that row the values and the version of the first.
pub copy_from_dirty-copy_dirty_to :
    (primary_key : Option ℕ) (row base : DbRow)
    → copyable primary_key row.fields ≡ true
    → differs_in_dirty row.fields base.fields ≡ true
    → (copy result : DbRow) × (copy_dirty_to primary_key row ≡ some copy)
      × (copy_from_dirty none copy base ≡ some result)
      × (values result.fields ≡ values row.fields)
      × (result.db_version ≡ row.db_version)
unfolding copy_dirty_to copy_from_dirty
copy_from_dirty-copy_dirty_to primary_key row base h d =
    let (fs, copied, same) = copy_delta primary_key row.fields base.fields h d in
    (
      record { db_version = row.db_version; fields = delta primary_key row.fields },
      record { db_version = row.db_version; fields = fs },
      ground (arith, copy_new_fields primary_key row.fields h),
      ground (arith, copied),
      same,
      refl,
    )
