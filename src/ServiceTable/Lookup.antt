-- ===== src/ServiceTable/Lookup.antt =====
-- What a search gives after a service was added or deleted.
use million.Prelude.{
  ℕ, ◌≡◌, Bool, true, false, none, some, List, [], ◌∷◌, ◌++◌, if◌then◌else◌, arith,
}
use million.Prelude.Maps.{find, emplace, find-emplace, absent_of_find}
use million.ServiceTable.{
  ServiceTable, dangling, found, is_in, erase_service, set_service_id, find_service_by_id,
  add_service,
}

is_in-append : (s : ℕ) (xs : List ℕ) → is_in s (xs ++ s ∷ []) ≡ true
unfolding is_in
is_in-append s [] = ground arith
is_in-append s (x ∷ xs) = ground (arith, is_in-append s xs)

erase_service-append :
    (s : ℕ) (xs : List ℕ) → is_in s xs ≡ false → erase_service s (xs ++ s ∷ []) ≡ xs
unfolding is_in erase_service
erase_service-append s [] h = ground arith
erase_service-append s (x ∷ xs) h = ground (arith, erase_service-append s xs)

-- A new service under a new id, whose OnInit leaves the tables as they are, is found by its id if
-- OnInit succeeds. If it fails, the search by that id uses an iterator that is no longer valid.
pub add_service_lookup :
    (service id : ℕ) (success : Bool) (t : ServiceTable)
    → find id t.id_map ≡ none
    → is_in service t.services ≡ false
    → find_service_by_id id (add_service service id (λ u. (success, u)) t).1
      ≡ (if success then found service else dangling)
unfolding find_service_by_id add_service set_service_id
add_service_lookup service id success t new absent =
    let id_of : find id (emplace id service t.id_map) ≡ some service =
      ground (arith, find-emplace id id service t.id_map, absent_of_find id t.id_map new) in
    ground (
      arith,
      id_of,
      is_in-append service t.services,
      erase_service-append service t.services absent,
    )
