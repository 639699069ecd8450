-- ===== src/DbService.antt =====
-- module/db/src/db_service.h: the rows that a node holds, their versions and their writing back to
-- the SQL service of module/db/src/sql_service.h. A handler that waits for the SQL service is two
-- functions, one before and one after the answer; `aborted` stands for a TaskAbort, after which the
-- handler does nothing more. Keys and addresses are numbers, and a cached row, which is never erased,
-- is addressed by its table and its primary key.
pub mod Rows
pub mod WriteBack
pub mod Overwrite
pub mod Ticks
mod Tests
use million.Prelude.{
  ℕ, ◌+◌, ◌%◌, ◌^◌, Bool, true, false, not, ◌&&◌, ◌||◌, Option, none, some, List, [], ◌∷◌, ◌==◌,
  if◌then◌else◌, ltb, leb,
}
use million.Prelude.Maps.{find, contains, emplace, assign}
use million.DbRow.{FieldDescriptor, Field, DbRow, copy_dirty_to}

-- The options of a table, and what the code reads of the type of its rows.
pub record TableOptions : Type 0 where
  pub has_name : Bool
  pub primary_key : ℕ
  pub sync_tick : ℕ

pub record Descriptor : Type 0 where
  pub address : ℕ
  pub table : Option TableOptions
  pub fields : List FieldDescriptor

pub record DbRowCache : Type 0 where
  pub db_row : DbRow
  pub sql_db_version : ℕ
  pub tick : Bool

abbrev pub DbTable : Type 0
DbTable = List (ℕ × DbRowCache)

pub record DbService : Type 0 where
  pub tables : List (ℕ × DbTable)

-- DBRowTickSync; its pointer to the cached row is the address of the table and the primary key.
pub record DbRowTickSync : Type 0 where
  pub sync_tick : ℕ
  pub table : ℕ
  pub primary_key : ℕ

-- Timeout<DBRowTickSync>(sync_tick, msg).
abbrev pub Timeouts : Type 0
Timeouts = List DbRowTickSync

unfoldable pub has_field : ℕ → List FieldDescriptor → Bool
has_field number [] = false
has_field number (f ∷ fs) = if f.number == number then true else has_field number fs

-- The options, if no TaskAssert on them fails.
unfoldable pub checked_options : Descriptor → Option TableOptions
unfolding has_field
checked_options desc = elim desc.table [
  | none ↦ none
  | some options ↦
      if options.has_name && has_field options.primary_key desc.fields then some options else none
]

-- ProtoMsgGetFieldAny.
unfoldable pub get_field_any : ℕ → List Field → ℕ
get_field_any number [] = 0
get_field_any number (f ∷ fs) =
    if f.descriptor.number == number then f.value else get_field_any number fs

-- LocalFindTable, which makes the table if there is none.
unfoldable pub local_find_table : Descriptor → DbService → DbTable
local_find_table desc s = elim (find desc.address s.tables) [ none ↦ [] | some rows ↦ rows ]

unfoldable pub set_table : Descriptor → DbTable → DbService → DbService
set_table desc rows s = record s { tables = assign desc.address rows s.tables }

-- LocalQueryDBRow; the table is there afterwards.
unfoldable pub local_query_db_row : Descriptor → ℕ → DbService → Option DbRowCache
unfolding local_find_table
local_query_db_row desc primary_key s = find primary_key (local_find_table desc s)

-- The entry with that key, changed.
unfoldable pub set_row : Descriptor → ℕ → DbRowCache → DbService → DbService
unfolding local_find_table set_table
set_row desc primary_key cache s =
    set_table desc (assign primary_key cache (local_find_table desc s)) s

-- LocalCacheDBRow. An entry that is there is overwritten.
unfoldable pub local_cache_db_row :
    Descriptor → ℕ → ℕ → DbRow → ℕ → Bool → DbService → DbService × Timeouts
unfolding local_query_db_row set_row
local_cache_db_row desc sync_tick primary_key row sql_db_version tick s =
    elim (local_query_db_row desc primary_key s) [
      | some old ↦ (
        set_row desc primary_key
            (record { db_row = row; sql_db_version = sql_db_version; tick = old.tick || tick }) s,
        [],
      )
      | none ↦ (
        set_row desc primary_key
            (record { db_row = row; sql_db_version = sql_db_version; tick = tick }) s,
        if tick
            then record { sync_tick = sync_tick; table = desc.address; primary_key = primary_key }
              ∷ []
            else [],
      )
    ]

-- How QueryDBRow begins: it aborts, finds the row, or asks the SQL service.
pub data Query : Type 0 where
  query_aborted : Query
  query_found : DbRow → DbService → Timeouts → Query
  asks_sql : DbService → Query

-- QueryDBRow up to its call of the SQL service.
unfoldable pub query_db_row : Descriptor → ℕ → ℕ → DbService → Query
unfolding checked_options local_query_db_row set_row set_table local_find_table
query_db_row desc key_field_number key s = elim (checked_options desc) [
  | none ↦ query_aborted
  | some options ↦
      if key_field_number == options.primary_key
      then elim (local_query_db_row desc key s) [
        | none ↦ asks_sql (set_table desc (local_find_table desc s) s)
        | some cache ↦
            if cache.tick
            then query_found cache.db_row s []
            else query_found cache.db_row (set_row desc key (record cache { tick = true }) s) (
                record { sync_tick = options.sync_tick; table = desc.address; primary_key = key }
                ∷ [])
      ]
      else asks_sql s
]

-- QueryDBRow from the answer of the SQL service on, for the two handlers, which both ask for the tick.
unfoldable pub query_answered :
    Descriptor → TableOptions → Option DbRow → DbService → Option DbRow × DbService × Timeouts
unfolding local_cache_db_row get_field_any
query_answered desc options none s = (none, s, [])
query_answered desc options (some row) s =
    let (s', timeouts) =
      local_cache_db_row desc options.sync_tick (get_field_any options.primary_key row.fields) row
        row.db_version true s in
    (some row, s', timeouts)

-- DBRowUpdateReq for a row of that type; `none` where it aborts.
unfoldable pub update_row : Descriptor → DbRow → ℕ → DbService → Option DbService
unfolding checked_options get_field_any local_query_db_row set_row
update_row desc row old_db_version s = elim (checked_options desc) [
  | none ↦ none
  | some options ↦
      let key = get_field_any options.primary_key row.fields in
      elim (local_query_db_row desc key s) [
        | none ↦ none
        | some cache ↦
            if ltb row.db_version old_db_version || leb row.db_version cache.db_row.db_version
            then none
            else some (set_row desc key (record cache { db_row = row }) s)
      ]
]

-- How DBRowTickSync begins: the request to the SQL service, with the version that it expects there;
-- nothing to write, so that the next tick is set at once; or an abort.
pub data Sync : Type 0 where
  calls_update : DbRow → ℕ → Sync
  nothing_to_write : DbRowTickSync → Sync
  sync_aborted : Sync

unfoldable pub tick_sync : Descriptor → DbRowTickSync → DbRowCache → Sync
tick_sync desc msg cache =
    if ltb cache.sql_db_version cache.db_row.db_version
    then elim desc.table [
      | none ↦ sync_aborted
      | some options ↦ elim (copy_dirty_to (some options.primary_key) cache.db_row) [
        | none ↦ sync_aborted
        | some row ↦ calls_update row cache.sql_db_version
      ]
    ]
    else nothing_to_write msg

-- DBRowTickSync from the answer on: `none` for a timeout, and whether the SQL service succeeded. The
-- entry is the one that is cached by then.
unfoldable pub tick_sync_answered :
    DbRowTickSync → ℕ → Option Bool → DbRowCache → Option (DbRowCache × Timeouts)
tick_sync_answered msg db_version none cache = some (cache, msg ∷ [])
tick_sync_answered msg db_version (some false) cache = none
tick_sync_answered msg db_version (some true) cache =
    some (record cache { sql_db_version = db_version }, msg ∷ [])

-- The fields that `UPDATE … SET` assigns: those that are dirty in the request.
unfoldable pub set_fields : List Field → List Field → List Field
set_fields (f ∷ fs) (g ∷ gs) =
    (if f.dirty then record g { value = f.value } else g) ∷ set_fields fs gs
set_fields _ gs = gs

-- The statement of SqlUpdateReq on the stored row with the primary key of the request, and whether a
-- row was affected.
unfoldable pub sql_update : DbRow → ℕ → DbRow → DbRow × Bool
unfolding set_fields
sql_update row old_db_version stored =
    if stored.db_version == old_db_version && ltb stored.db_version row.db_version
    then (
      record { db_version = row.db_version; fields = set_fields row.fields stored.fields },
      true,
    )
    else (stored, false)
