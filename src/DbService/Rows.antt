-- ===== src/DbService/Rows.antt =====
-- What is cached after a row is set, and when an update is accepted.
use million.Prelude.{
  ℕ, ◌<◌, ◌≤◌, ◌≡◌, ◌||◌, ◌&&◌, none, some, ◌==◌, if◌then◌else◌, ltb, leb, arith, refl, inl, inr,
  Bool-cases,
}
use million.Prelude.Maps.{find, assign, find-assign}
use million.DbRow.{DbRow}
use million.DbService.{
  TableOptions, Descriptor, DbRowCache, DbService, checked_options, get_field_any,
  local_query_db_row, update_row, set_row, set_table, local_find_table,
}

-- A row that is set is found, and every other row is as it was.
pub local_query_db_row-set_row :
    (desc : Descriptor) (key : ℕ) (cache : DbRowCache) (other : Descriptor) (j : ℕ) (s : DbService)
    → local_query_db_row other j (set_row desc key cache s) ≡ (
        if (desc.address == other.address) && (key == j)
        then some cache
        else local_query_db_row other j s)
unfolding local_query_db_row set_row set_table local_find_table find
local_query_db_row-set_row desc key cache other j s = ground (
  arith,
  find-assign desc.address other.address (assign key cache (local_find_table desc s)) s.tables,
  find-assign key j cache (local_find_table desc s),
)

pub row_set :
    (desc : Descriptor) (key : ℕ) (cache : DbRowCache) (s : DbService)
    → local_query_db_row desc key (set_row desc key cache s) ≡ some cache
row_set desc key cache s = ground (arith, local_query_db_row-set_row desc key cache desc key s)

-- The row with which an entry is compared is the one of its key.
pub update_accepted :
    (desc : Descriptor) (options : TableOptions) (row : DbRow) (old_db_version : ℕ)
    (s s' : DbService) (cache : DbRowCache)
    → checked_options desc ≡ some options
    → local_query_db_row desc (get_field_any options.primary_key row.fields) s ≡ some cache
    → update_row desc row old_db_version s ≡ some s'
    → (cache.db_row.db_version < row.db_version)
      × (old_db_version ≤ row.db_version)
      × (s'
          ≡ set_row desc
              (get_field_any options.primary_key row.fields)
              (record cache { db_row = row })
              s)
unfolding update_row
update_accepted desc options row old_db_version s s' cache o f e =
    elim (Bool-cases
      (ltb row.db_version old_db_version || leb row.db_version cache.db_row.db_version)) [
        | inl refused ↦ ground arith
        | inr fine ↦ (ground arith, ground arith, ground arith)
      ]

-- When an update is accepted: its version is above the cached one, and not below the one that it
-- names as the old one.
pub update_accepts :
    (desc : Descriptor) (options : TableOptions) (row : DbRow) (old_db_version : ℕ) (s : DbService)
    (cache : DbRowCache)
    → checked_options desc ≡ some options
    → local_query_db_row desc (get_field_any options.primary_key row.fields) s ≡ some cache
    → update_row desc row old_db_version s ≡ (
        if ltb row.db_version old_db_version || leb row.db_version cache.db_row.db_version
        then none
        else some (
            set_row desc
              (get_field_any options.primary_key row.fields)
              (record cache { db_row = row })
              s))
unfolding update_row
update_accepts desc options row old_db_version s cache o f = rw (o, f, update_row) refl
