-- ===== src/DbService/Tests.antt =====
-- Runs of the model of db_service.h at concrete inputs.
use million.Prelude.{ℕ, ◌≤◌, ◌≡◌, true, false, some, [], ◌∷◌, arith, refl}
use million.Prelude.Maps.{find}
use million.DbRow.{FieldDescriptor, DbRow}
use million.DbRow.Delta.{copyable, differs_in_dirty, values, delta}
use million.DbService.{
  TableOptions, Descriptor, DbRowCache, DbService, DbRowTickSync, checked_options, has_field,
  get_field_any, local_query_db_row, local_find_table, set_row, update_row, query_db_row,
  query_answered, query_found, asks_sql, tick_sync, calls_update, nothing_to_write,
  tick_sync_answered, sql_update,
}
use million.DbService.WriteBack.{sync_writes_row, update_during_sync}
use million.DbService.Overwrite.{query_overwrites_update}
use million.DbService.Ticks.{Node, rest, step, abort_step}
use million.DbService.Ticks.Row.{IsTicking, ticks_of}
use million.DbService.Ticks.Chain.{no_new_ticks}

abbrev id_field : FieldDescriptor
id_field = record { number = 1; is_repeated = false; is_supported = true; default_value = 0 }

abbrev gold_field : FieldDescriptor
gold_field = record { number = 2; is_repeated = false; is_supported = true; default_value = 0 }

abbrev options : TableOptions
options = record { has_name = true; primary_key = 1; sync_tick = 10 }

abbrev player : Descriptor
player = record { address = 100; table = some options; fields = id_field ∷ gold_field ∷ [] }

abbrev gold : ℕ → ℕ → DbRow
gold version amount = record {
  db_version = version;
  fields =
      record { descriptor = id_field; value = 7; dirty = false }
      ∷ record { descriptor = gold_field; value = amount; dirty = true }
      ∷ [];
}

abbrev cached : DbRowCache
cached = record { db_row = gold 3 50; sql_db_version = 2; tick = true }

abbrev service : DbService
service = record { tables = (100, (7, cached) ∷ []) ∷ [] }

abbrev tick : DbRowTickSync
tick = record { sync_tick = 10; table = 100; primary_key = 7 }

checked : checked_options player ≡ some options
unfolding checked_options has_field
checked = refl

is_cached : local_query_db_row player 7 service ≡ some cached
unfolding local_query_db_row local_find_table find
is_cached = refl

sync_writes_row_example :
    (row stored' : DbRow) × (cache' : DbRowCache) × (tick_sync player tick cached
      ≡ calls_update row 2)
    × (sql_update row 2 (gold 2 20) ≡ (stored', true))
    × (stored'.db_version ≡ 3)
    × (values stored'.fields ≡ values cached.db_row.fields)
    × (tick_sync_answered tick row.db_version (some true) cached ≡ some (cache', tick ∷ []))
    × (cache'.db_row ≡ cached.db_row)
    × (tick_sync player tick cache' ≡ nothing_to_write tick)
unfolding copyable differs_in_dirty
sync_writes_row_example =
    sync_writes_row player options tick cached (gold 2 20) refl refl (omega arith) refl refl

update_during_sync_example :
    (cache' cache'' : DbRowCache) × (local_query_db_row player 7
        (set_row player 7 (record cached { db_row = gold 4 60 }) service)
      ≡ some cache')
    × (tick_sync_answered tick 3 (some true) cache' ≡ some (cache'', tick ∷ []))
    × (cache''.db_row ≡ gold 4 60)
    × (tick_sync player tick cache''
        ≡ calls_update (record { db_version = 4; fields = delta (some 1) (gold 4 60).fields }) 3)
unfolding update_row checked_options has_field get_field_any local_query_db_row local_find_table
    find copyable
update_during_sync_example =
    update_during_sync player options tick service
      (set_row player 7 (record cached { db_row = gold 4 60 }) service) cached (gold 4 60) 3 checked
      refl is_cached refl refl

query_overwrites_update_example :
    (s'' : DbService) × (cache' : DbRowCache) × (query_db_row player 2 60
        (set_row player 7 (record cached { db_row = gold 4 60 }) service)
      ≡ asks_sql (set_row player 7 (record cached { db_row = gold 4 60 }) service))
    × (query_answered player options
          (some (gold 2 20))
          (set_row player 7 (record cached { db_row = gold 4 60 }) service)
        ≡ (some (gold 2 20), s'', []))
    × (query_db_row player 1 7 s'' ≡ query_found (gold 2 20) s'' [])
    × (local_query_db_row player 7 s'' ≡ some cache')
    × (tick_sync player tick cache' ≡ nothing_to_write tick)
unfolding update_row checked_options has_field get_field_any local_query_db_row local_find_table
    find
query_overwrites_update_example =
    query_overwrites_update player options tick service
      (set_row player 7 (record cached { db_row = gold 4 60 }) service) cached (gold 4 60)
      (gold 2 20) 3 2 60 checked refl is_cached refl refl

abbrev node : Node
node = record { service = service; ticks = tick ∷ [] }

no_new_ticks_example : IsTicking player 7 service × (ticks_of 100 7 [] ≤ ticks_of 100 7 (tick ∷ []))
unfolding IsTicking local_query_db_row local_find_table find
no_new_ticks_example =
    no_new_ticks player 7 {c = node} {d = record node { ticks = [] }}
      (step (abort_step tick [] [] refl refl) rest) (cached, refl, refl)
