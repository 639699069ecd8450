-- ===== src/ServiceTable/Tests.antt =====
-- Service 20 beside service 10.
use million.Prelude.{◌≡◌, refl, none, [], ◌∷◌}
use million.Prelude.Maps.{find, contains}
use million.ServiceTable.{
  ServiceTable, dangling, missing, is_in, find_service_by_id, delete_service, erase_service,
  set_service_name_id, find_service_by_name_id,
}

abbrev table : ServiceTable
table = record {
  services = 10 ∷ [];
  service_ids = (10, 1) ∷ [];
  id_map = (1, 10) ∷ [];
  name_map = (7, 10) ∷ [];
}

duplicate_name : set_service_name_id 20 7 table ≡ none
unfolding set_service_name_id contains
duplicate_name = refl

unknown_name : find_service_by_name_id 8 table ≡ missing
unfolding find_service_by_name_id find
unknown_name = refl

deleted : find_service_by_id 1 (delete_service 10 table) ≡ dangling
unfolding find_service_by_id delete_service erase_service find is_in
deleted = refl
