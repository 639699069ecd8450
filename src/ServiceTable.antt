-- ===== src/ServiceTable.antt =====
-- The list of services of million/src/service_mgr.cpp and the maps of ids and names into it. A service
-- is given by its address, and an iterator of the list by the service that it stands at; it may be
-- used while that service is in the list.
pub mod Lookup
mod Tests
use million.Prelude.{
  ℕ, Bool, true, false, not, Option, none, some, List, [], ◌∷◌, ◌++◌, ◌==◌, if◌then◌else◌,
}
use million.Prelude.Maps.{find, contains, emplace, assign}

pub record ServiceTable : Type 0 where
  pub services : List ℕ
  pub service_ids : List (ℕ × ℕ)  -- ServiceCore::service_id
  pub id_map : List (ℕ × ℕ)
  pub name_map : List (ℕ × ℕ)

-- What a search gives; `dangling` is the use of an iterator of an erased element, which is undefined.
pub data Found : Type 0 where
  missing dangling : Found
  found : ℕ → Found

unfoldable pub is_in : ℕ → List ℕ → Bool
is_in s [] = false
is_in s (x ∷ xs) = if x == s then true else is_in s xs

-- `services_.erase(iter)`.
unfoldable pub erase_service : ℕ → List ℕ → List ℕ
erase_service s [] = []
erase_service s (x ∷ xs) = let rest = erase_service s xs in if x == s then xs else x ∷ rest

-- `*iter->second`.
abbrev pub dereference : Option ℕ → List ℕ → Found
dereference none services = missing
dereference (some s) services = if is_in s services then found s else dangling

-- SetServiceId(service, service_id).
unfoldable pub set_service_id : ℕ → ℕ → ServiceTable → Bool × ServiceTable
set_service_id service id t = (
  not (contains id t.id_map),
  record t { id_map = emplace id service t.id_map; service_ids = assign service id t.service_ids },
)

-- FindServiceById(id).
unfoldable pub find_service_by_id : ℕ → ServiceTable → Found
unfolding is_in
find_service_by_id id t = dereference (find id t.id_map) t.services

-- SetServiceNameId(service, name_id); a duplicate throws.
unfoldable pub set_service_name_id : ℕ → ℕ → ServiceTable → Option ServiceTable
set_service_name_id service name_id t =
    if contains name_id t.name_map
    then none
    else some (record t { name_map = emplace name_id service t.name_map })

-- FindServiceByNameId(name_id).
unfoldable pub find_service_by_name_id : ℕ → ServiceTable → Found
unfolding is_in
find_service_by_name_id name_id t = dereference (find name_id t.name_map) t.services

-- AddService of a new service under a new id: whether it was added. `on_init` is its OnInit, with
-- false for an exception too.
unfoldable pub add_service :
    ℕ → ℕ → (ServiceTable → Bool × ServiceTable) → ServiceTable → Bool × ServiceTable
unfolding set_service_id erase_service
add_service service id on_init t =
    let listed = record t { services = t.services ++ service ∷ [] } in
    let (success, t') = on_init (set_service_id service id listed).1 in
    if success
    then (true, t')
    else (false, record t' { services = erase_service service t'.services })

-- DeleteService(service).
unfoldable pub delete_service : ℕ → ServiceTable → ServiceTable
unfolding erase_service
delete_service service t = record t { services = erase_service service t.services }
