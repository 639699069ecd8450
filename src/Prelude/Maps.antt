-- ===== src/Prelude/Maps.antt =====
-- `std::unordered_map` and `std::map` with integer keys, as association lists: `find`, `emplace`,
-- which keeps the entry that is there, assignment by `operator[]`, and `erase`.
use Prim.Native.Nat.{ℕ}
use mathlib.Core.Path.{◌≡◌, refl}
use mathlib.Core.Bool.{Bool, true, false}
use mathlib.Core.List.{List, [], ◌∷◌}
use mathlib.Core.Option.{Option, none, some}
use native.Mathlib.Omega.{arith}
use million.Prelude.Tests.{◌==◌, if◌then◌else◌}

module _ {ℓ} {V : Type ℓ} where
  unfoldable pub find : ℕ → List (ℕ × V) → Option V
  find k [] = none
  find k ((j, v) ∷ m) = if j == k then some v else find k m

  unfoldable pub contains : ℕ → List (ℕ × V) → Bool
  contains k [] = false
  contains k ((j, v) ∷ m) = if j == k then true else contains k m

  unfoldable pub erase : ℕ → List (ℕ × V) → List (ℕ × V)
  erase k [] = []
  erase k ((j, v) ∷ m) = let rest = erase k m in if j == k then rest else (j, v) ∷ rest

  -- `emplace`: a present key keeps its value.
  unfoldable pub emplace : ℕ → V → List (ℕ × V) → List (ℕ × V)
  emplace k v [] = (k, v) ∷ []
  emplace k v ((j, w) ∷ m) = if j == k then (j, w) ∷ m else (j, w) ∷ emplace k v m

  -- `m[k] = v`.
  unfoldable pub assign : ℕ → V → List (ℕ × V) → List (ℕ × V)
  assign k v [] = (k, v) ∷ []
  assign k v ((j, w) ∷ m) = if j == k then (k, v) ∷ m else (j, w) ∷ assign k v m

  pub find-erase :
      (k j : ℕ) (m : List (ℕ × V)) → find j (erase k m) ≡ (if k == j then none else find j m)
  unfolding find erase
  find-erase k j [] = ground arith
  find-erase k j ((i, v) ∷ m) = ground (arith, find-erase k j m)

  pub find_of_absent : (k : ℕ) (m : List (ℕ × V)) → contains k m ≡ false → find k m ≡ none
  unfolding find contains
  find_of_absent k [] h = refl
  find_of_absent k ((i, v) ∷ m) h = ground (arith, find_of_absent k m)

  pub absent_of_find : (k : ℕ) (m : List (ℕ × V)) → find k m ≡ none → contains k m ≡ false
  unfolding find contains
  absent_of_find k [] h = refl
  absent_of_find k ((i, v) ∷ m) h = ground (arith, absent_of_find k m)

  pub present_of_find : (k : ℕ) (m : List (ℕ × V)) (v : V) → find k m ≡ some v → contains k m ≡ true
  unfolding find contains
  present_of_find k [] v h = ground arith
  present_of_find k ((i, w) ∷ m) v h = ground (arith, present_of_find k m v)

  -- The new entry is seen only where none was.
  pub find-emplace :
      (k j : ℕ) (v : V) (m : List (ℕ × V))
      → find j (emplace k v m)
        ≡ (if k == j then (if contains k m then find j m else some v) else find j m)
  unfolding find emplace contains
  find-emplace k j v [] = ground arith
  find-emplace k j v ((i, w) ∷ m) = ground (arith, find-emplace k j v m)

  pub find-assign :
      (k j : ℕ) (v : V) (m : List (ℕ × V))
      → find j (assign k v m) ≡ (if k == j then some v else find j m)
  unfolding find assign
  find-assign k j v [] = ground arith
  find-assign k j v ((i, w) ∷ m) = ground (arith, find-assign k j v m)

  -- Assigning to a key and erasing it is erasing it.
  pub erase-assign : (k : ℕ) (v : V) (m : List (ℕ × V)) → erase k (assign k v m) ≡ erase k m
  unfolding erase assign
  erase-assign k v [] = ground arith
  erase-assign k v ((i, w) ∷ m) = ground (arith, erase-assign k v m)

  -- Of two assignments to a key the last counts.
  pub assign-assign :
      (k : ℕ) (v w : V) (m : List (ℕ × V)) → assign k v (assign k w m) ≡ assign k v m
  unfolding assign
  assign-assign k v w [] = ground arith
  assign-assign k v w ((i, u) ∷ m) = ground (arith, assign-assign k v w m)

  pub find_assigned : (k : ℕ) (v : V) (m : List (ℕ × V)) → find k (assign k v m) ≡ some v
  find_assigned k v m = ground (arith, find-assign k k v m)
