-- ===== src/DbService/WriteBack.antt =====
-- The writing back of a row to the SQL service.
use million.Prelude.{ℕ, ◌<◌, ◌≡◌, true, false, Option, some, List, [], ◌∷◌, ◌==◌, ltb, arith, refl}
use million.DbRow.{Field, DbRow, copy_dirty_to, copy_from_dirty}
use million.DbRow.Delta.{copyable, differs_in_dirty, values, delta, copy_new_fields}
use million.DbService.Rows.{update_accepted, row_set}
use million.DbService.{
  TableOptions, Descriptor, DbRowCache, DbService, DbRowTickSync, checked_options, get_field_any,
  local_query_db_row, update_row, calls_update, nothing_to_write, tick_sync, tick_sync_answered,
  set_fields, sql_update,
}

set_fields-delta :
    (primary_key : Option ℕ) (fs stored : List Field)
    → differs_in_dirty fs stored ≡ true
    → values (set_fields (delta primary_key fs) stored) ≡ values fs
unfolding set_fields delta values differs_in_dirty
set_fields-delta primary_key [] [] h = refl
set_fields-delta primary_key [] (g ∷ gs) h = ground arith
set_fields-delta primary_key (f ∷ fs) [] h = ground arith
set_fields-delta primary_key (f ∷ fs) (g ∷ gs) h =
    ground (arith, set_fields-delta primary_key fs gs)

-- What a row asks to be written.
request :
    (desc : Descriptor) (options : TableOptions) (msg : DbRowTickSync) (cache : DbRowCache)
    → desc.table ≡ some options
    → copyable (some options.primary_key) cache.db_row.fields ≡ true
    → cache.sql_db_version < cache.db_row.db_version
    → tick_sync desc msg cache
      ≡ calls_update
          (record {
            db_version = cache.db_row.db_version;
            fields = delta (some options.primary_key) cache.db_row.fields;
          })
          cache.sql_db_version
unfolding tick_sync copy_dirty_to copy_from_dirty
request desc options msg cache t c l =
    let e : ltb cache.sql_db_version cache.db_row.db_version ≡ true = ground arith in
    rw (e, t, copy_new_fields (some options.primary_key) cache.db_row.fields c) refl

-- A row whose version is above the one in the SQL service, where the stored row has the version that
-- the node knows and differs at most in the fields that are dirty, and where the fields can be
-- copied: the tick asks for an update that succeeds, after which the stored row has the version and
-- the values of the cached one; the next tick is set, and unless the row is changed it has nothing to
-- write.
pub sync_writes_row :
    (desc : Descriptor) (options : TableOptions) (msg : DbRowTickSync) (cache : DbRowCache)
    (stored : DbRow)
    → desc.table ≡ some options
    → copyable (some options.primary_key) cache.db_row.fields ≡ true
    → cache.sql_db_version < cache.db_row.db_version
    → stored.db_version ≡ cache.sql_db_version
    → differs_in_dirty cache.db_row.fields stored.fields ≡ true
    → (row stored' : DbRow) × (cache' : DbRowCache) × (tick_sync desc msg cache
        ≡ calls_update row cache.sql_db_version)
      × (sql_update row cache.sql_db_version stored ≡ (stored', true))
      × (stored'.db_version ≡ cache.db_row.db_version)
      × (values stored'.fields ≡ values cache.db_row.fields)
      × (tick_sync_answered msg row.db_version (some true) cache ≡ some (cache', msg ∷ []))
      × (cache'.db_row ≡ cache.db_row)
      × (tick_sync desc msg cache' ≡ nothing_to_write msg)
unfolding sql_update tick_sync_answered tick_sync
sync_writes_row desc options msg cache stored t c l v d =
    let d' = delta (some options.primary_key) cache.db_row.fields in
    let row : DbRow = record { db_version = cache.db_row.db_version; fields = d' } in
    let stored' : DbRow = record {
      db_version = cache.db_row.db_version;
      fields = set_fields d' stored.fields;
    } in
    let cache' : DbRowCache = record cache { sql_db_version = cache.db_row.db_version } in
    let same : stored.db_version == cache.sql_db_version ≡ true = ground arith in
    let above : ltb stored.db_version cache.db_row.db_version ≡ true = ground arith in
    let level : ltb cache.db_row.db_version cache.db_row.db_version ≡ false = ground arith in
    (
      row,
      stored',
      cache',
      request desc options msg cache t c l,
      rw (same, above) refl,
      refl,
      set_fields-delta (some options.primary_key) cache.db_row.fields stored.fields d,
      refl,
      refl,
      rw level refl,
    )

-- A row that is updated while the SQL service works on its last version, and that can be copied: when
-- that write has succeeded, the node still holds the updated row, and the next tick asks for its
-- changed fields to be written over the version that was stored.
pub update_during_sync :
    (desc : Descriptor) (options : TableOptions) (msg : DbRowTickSync) (s s' : DbService)
    (cache : DbRowCache) (row : DbRow) (old_db_version : ℕ)
    → checked_options desc ≡ some options
    → desc.table ≡ some options
    → local_query_db_row desc (get_field_any options.primary_key row.fields) s ≡ some cache
    → copyable (some options.primary_key) row.fields ≡ true
    → update_row desc row old_db_version s ≡ some s'
    → (cache' cache'' : DbRowCache) × (local_query_db_row desc
          (get_field_any options.primary_key row.fields)
          s'
        ≡ some cache')
      × (tick_sync_answered msg cache.db_row.db_version (some true) cache'
          ≡ some (cache'', msg ∷ []))
      × (cache''.db_row ≡ row)
      × (tick_sync desc msg cache''
          ≡ calls_update
              (record {
                db_version = row.db_version;
                fields = delta (some options.primary_key) row.fields;
              })
              cache.db_row.db_version)
unfolding tick_sync_answered
update_during_sync desc options msg s s' cache row old_db_version o t f c e =
    let (l, m, set) = update_accepted desc options row old_db_version s s' cache o f e in
    let cache'' : DbRowCache = record cache {
      db_row = row;
      sql_db_version = cache.db_row.db_version;
    } in
    (
      record cache { db_row = row },
      cache'',
      rw set (
          row_set desc (get_field_any options.primary_key row.fields)
            (record cache { db_row = row }) s),
      refl,
      refl,
      request desc options msg cache'' t c l,
    )
