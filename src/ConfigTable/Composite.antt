-- ===== src/ConfigTable/Composite.antt =====
-- The index over several fields of config_table.h.
use million.Prelude.{
  ℕ, ◌^◌, ◌≤◌, ◌≡◌, true, none, some, List, [], ◌∷◌, ◌++◌, length, arith, refl, sym, ap, ◌∙◌, inl,
  inr, Bool-cases, Option-cases,
}
use million.ConfigTable.FieldAny.{ProtoFieldAny, all_eq, numbers_eq}
use million.ConfigTable.{
  ConfigTable, CompositeIndex, find_row, composite_key, have_numbers, find_numbers, build_rows,
  build_composite_index, find_row_by_composite_index,
}
use million.ConfigTable.Loop.{has_key, find_built}

numbers_eq_refl : (ns : List ℕ) → numbers_eq ns ns ≡ true
unfolding numbers_eq
numbers_eq_refl [] = refl
numbers_eq_refl (n ∷ ns) = ground (arith, numbers_eq_refl ns)

find_added :
    (ns : List ℕ) (index : CompositeIndex) (m : List (List ℕ × CompositeIndex))
    → find_numbers ns m ≡ none
    → find_numbers ns (m ++ (ns, index) ∷ []) ≡ some index
unfolding find_numbers
find_added ns index [] e = rw (numbers_eq_refl ns) refl
find_added ns index ((ms, old) ∷ m) e = ground (arith, find_added ns index m)

-- After an index over several fields has been built, for which there was none, in a table of at most
-- 2 ^ 31 rows: the search by the index does not abort, and finds what a search through the rows finds
-- for the first row whose fields equal the keys.
pub find_row_by_composite_index-find_row :
    (numbers : List ℕ) (keys : List ProtoFieldAny) (t t' : ConfigTable)
    → build_composite_index numbers t ≡ some t'
    → find_numbers numbers t.composite_indices ≡ none
    → length t.rows ≤ 2 ^ 31
    → find_row_by_composite_index numbers keys t'
      ≡ some (find_row (has_key all_eq (composite_key numbers) keys) t')
unfolding find_row_by_composite_index build_composite_index
find_row_by_composite_index-find_row numbers keys t t' e f l =
    elim (Bool-cases (have_numbers numbers t.field_numbers)) [
      | inr h ↦ ground arith
      | inl h ↦ elim (Option-cases (build_rows all_eq (composite_key numbers) 0 t.rows [])) [
        | inl n ↦ ground arith
        | inr (index, b) ↦
            let made : record t { composite_indices = t.composite_indices ++ (numbers, index) ∷ [] }
                ≡ t' =
              ground arith in
            let found = find_added numbers index t.composite_indices f in
            let rows : t'.rows ≡ t.rows = sym (ap (λ (u : ConfigTable). u.rows) made) in
            let at : find_numbers numbers t'.composite_indices ≡ some index =
              ap (λ (u : ConfigTable). find_numbers numbers u.composite_indices) (sym made)
              ∙ found in
            rw (at, find_row_by_composite_index)
              (find_built all_eq (composite_key numbers) keys t' index (rw rows b) (rw rows l))
      ]
    ]
