-- ===== src/ConfigTable/Loop.antt =====
-- An index that config_table.h has built finds what a search through the rows finds.
use million.Prelude.{
  ℕ, zero, suc, ◌+◌, ◌-◌, ◌^◌, ◌<◌, ◌≤◌, ◌≡◌, Bool, true, false, Option, none, some, List, [], ◌∷◌,
  ◌++◌, if◌then◌else◌, ltb, length, get_elem?, get_elem?_inside, arith, refl, sym, inl, inr,
  Bool-cases, Option-cases,
}
use million.ConfigTable.{
  Row, ConfigTable, find_in_rows, get_row_by_index, as_place, find_key, build_rows, find_indexed,
}

as_place_lem : (i : ℕ) → i < 2 ^ 31 → as_place i ≡ i
unfolding as_place
as_place_lem i h = ground arith

module _ {K : Type 0} (eq : K → K → Bool) where
  -- Whether a row has the key.
  abbrev pub has_key : (Row → Option K) → K → Row → Bool
  has_key key_of key row = elim (key_of row) [ none ↦ false | some k ↦ eq k key ]

  find_key-append :
      (key k : K) (i : ℕ) (index : List (K × ℕ))
      → find_key eq key (index ++ (k, i) ∷ []) ≡ elim (find_key eq key index) [
        | none ↦ if eq k key then some i else none
        | some j ↦ some j
      ]
  unfolding find_key
  find_key-append key k i [] = refl
  find_key-append key k i ((l, j) ∷ index) = ground (arith, find_key-append key k i index)

  -- The first place, from `i` on, of a row that has the key.
  place_of : (Row → Option K) → K → ℕ → List Row → Option ℕ
  place_of key_of key i [] = none
  place_of key_of key i (row ∷ rows) =
      if has_key key_of key row then some i else place_of key_of key (i + 1) rows

  -- A loop that does not abort takes its first row into the index, under a key that is new.
  first_row :
      (key_of : Row → Option K) (i : ℕ) (row : Row) (rows : List Row) (index built : List (K × ℕ))
      → build_rows eq key_of i (row ∷ rows) index ≡ some built
      → i < 2 ^ 31
      → (k : K) × (key_of row ≡ some k)
        × (find_key eq k index ≡ none)
        × (build_rows eq key_of (i + 1) rows (index ++ (k, i) ∷ []) ≡ some built)
  unfolding build_rows
  first_row key_of i row rows index built e l = elim (Option-cases (key_of row)) [
    | inl n ↦ ground arith
    | inr (k, f) ↦ elim (Option-cases (find_key eq k index)) [
      | inr (j, seen) ↦ ground arith
      | inl new ↦ (k, f, new, rw (as_place_lem i l) at (rw (f, new, build_rows) at e))
    ]
  ]

  built_finds :
      (key_of : Row → Option K) (key : K) (i : ℕ) (rows : List Row) (index built : List (K × ℕ))
      → build_rows eq key_of i rows index ≡ some built
      → i + length rows ≤ 2 ^ 31
      → find_key eq key built
        ≡ elim (find_key eq key index) [ none ↦ place_of key_of key i rows | some j ↦ some j ]
  unfolding build_rows place_of
  built_finds key_of key i [] index built e l =
      let q : index ≡ built = ground arith in rw (sym q) (ground arith)
  built_finds key_of key i (row ∷ rows) index built e l =
      let (k, f, new, next) = first_row key_of i row rows index built e (omega arith) in
      let ih =
        built_finds key_of key (i + 1) rows (index ++ (k, i) ∷ []) built next (omega arith) in
      ground (arith, ih, find_key-append key k i index)

  place_found :
      (key_of : Row → Option K) (key : K) (i : ℕ) (rows : List Row) (j : ℕ)
      → place_of key_of key i rows ≡ some j
      → (i ≤ j)
        × (j < i + length rows)
        × (get_elem? rows (j - i) ≡ find_in_rows (has_key key_of key) rows)
  unfolding place_of find_in_rows
  place_found key_of key i [] j e = ground arith
  place_found key_of key i (row ∷ rows) j e = elim (Bool-cases (has_key key_of key row)) [
    | inl h ↦
        let q : i ≡ j = ground arith in
        let z : j - i ≡ 0 = omega arith in (omega arith, omega arith, rw (z, h) refl)
    | inr h ↦
        let (a, b, c) = place_found key_of key (i + 1) rows j (rw h at e) in
        let z : j - i ≡ suc (j - (i + 1)) = omega arith in (omega arith, omega arith, rw (z, h) c)
  ]

  place_missing :
      (key_of : Row → Option K) (key : K) (i : ℕ) (rows : List Row)
      → place_of key_of key i rows ≡ none
      → find_in_rows (has_key key_of key) rows ≡ none
  unfolding place_of find_in_rows
  place_missing key_of key i [] e = refl
  place_missing key_of key i (row ∷ rows) e = elim (Bool-cases (has_key key_of key row)) [
    | inl h ↦ ground arith
    | inr h ↦ rw h (place_missing key_of key (i + 1) rows (rw h at e))
  ]

  -- A search through the index that was built is a search through the rows.
  pub find_built :
      (key_of : Row → Option K) (key : K) (t : ConfigTable) (built : List (K × ℕ))
      → build_rows eq key_of 0 t.rows [] ≡ some built
      → length t.rows ≤ 2 ^ 31
      → find_indexed eq key built t ≡ some (find_in_rows (has_key key_of key) t.rows)
  unfolding find_indexed get_row_by_index find_key
  find_built key_of key t built e l =
      let f = built_finds key_of key 0 t.rows [] built e (omega arith) in
      elim (Option-cases (place_of key_of key 0 t.rows)) [
        | inl n ↦ ground (arith, place_missing key_of key 0 t.rows n)
        | inr (j, p) ↦
            let (a, b, c) = place_found key_of key 0 t.rows j p in
            let z : j - 0 ≡ j = omega arith in
            let inside : ltb j (length t.rows) ≡ true = ground arith in
            let found : find_key eq key built ≡ some j = ground arith in
            let row : get_elem? t.rows j ≡ find_in_rows (has_key key_of key) t.rows = rw z at c in
            let (r, g) = get_elem?_inside t.rows j (omega arith) in
            rw (found, find_indexed, sym row, inside, g, get_row_by_index) refl
      ]

  -- Where a key is new, no entry has it.
  unseen :
      (key k : K) (i : ℕ) (index : List (K × ℕ))
      → find_key eq key (index ++ (k, i) ∷ []) ≡ none
      → (find_key eq key index ≡ none) × (eq k key ≡ false)
  unseen key k i index e =
      let a = find_key-append key k i index in
      elim (Option-cases (find_key eq key index)) [
        | inr (j, f) ↦ ground arith
        | inl f ↦ (f, ground arith)
      ]

  -- While the loop goes on, the key of a row that is still to come is in no entry.
  not_yet :
      (key_of : Row → Option K) (i : ℕ) (rows : List Row) (index built : List (K × ℕ)) (q : ℕ)
      (b : Row) (y : K)
      → build_rows eq key_of i rows index ≡ some built
      → i + length rows ≤ 2 ^ 31
      → get_elem? rows q ≡ some b
      → key_of b ≡ some y
      → find_key eq y index ≡ none
  not_yet key_of i [] index built q b y e l g f = ground arith
  not_yet key_of i (row ∷ rows) index built zero b y e l g f =
      let (k, h, new, next) = first_row key_of i row rows index built e (omega arith) in
      ground arith
  not_yet key_of i (row ∷ rows) index built (suc q) b y e l g f =
      let (k, h, new, next) = first_row key_of i row rows index built e (omega arith) in
      let after =
        not_yet key_of (i + 1) rows (index ++ (k, i) ∷ []) built q b y next (omega arith) g f in
      (unseen y k i index after).0

  -- In a table that has an index, no two rows have keys that are equal.
  pub built_distinct :
      (key_of : Row → Option K) (i : ℕ) (rows : List Row) (index built : List (K × ℕ)) (p q : ℕ)
      (a b : Row) (x y : K)
      → build_rows eq key_of i rows index ≡ some built
      → i + length rows ≤ 2 ^ 31
      → p < q
      → get_elem? rows p ≡ some a
      → get_elem? rows q ≡ some b
      → key_of a ≡ some x
      → key_of b ≡ some y
      → eq x y ≡ false
  built_distinct key_of i [] index built p q a b x y e l o g g' f f' = ground arith
  built_distinct key_of i (row ∷ rows) index built p zero a b x y e l o g g' f f' =
      absurd (omega arith)
  built_distinct key_of i (row ∷ rows) index built zero (suc q) a b x y e l o g g' f f' =
      let (k, h, new, next) = first_row key_of i row rows index built e (omega arith) in
      let after =
        not_yet key_of (i + 1) rows (index ++ (k, i) ∷ []) built q b y next (omega arith) g' f' in
      let differs = (unseen y k i index after).1 in
      let same : k ≡ x = ground arith in rw same at differs
  built_distinct key_of i (row ∷ rows) index built (suc p) (suc q) a b x y e l o g g' f f' =
      let (k, h, new, next) = first_row key_of i row rows index built e (omega arith) in
      built_distinct key_of (i + 1) rows (index ++ (k, i) ∷ []) built p q a b x y next (omega arith)
        (omega arith) g g' f f'
