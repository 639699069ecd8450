-- ===== src/DbService/Overwrite.antt =====
-- How an update of a row can be lost.
use million.Prelude.{
  ℕ, zero, suc, ◌+◌, ◌%◌, ◌^◌, ◌<◌, ◌≡◌, true, false, none, some, [], ◌==◌, ◌||◌, if◌then◌else◌,
  ltb, leb, arith, refl, ap,
}
use million.DbRow.{DbRow, commit}
use million.DbService.Rows.{update_accepted, update_accepts, row_set}
use million.DbService.{
  TableOptions, Descriptor, DbRowCache, DbService, DbRowTickSync, checked_options, get_field_any,
  local_query_db_row, local_cache_db_row, set_row, update_row, query_db_row, query_answered,
  query_found, asks_sql, tick_sync, nothing_to_write,
}

-- The row after it has been committed `n` times, whatever came of it.
unfoldable pub commits : ℕ → DbRow → DbRow
unfolding commit
commits zero row = row
commits (suc n) row = (commit (commits n row)).0

finds_ticking :
    (desc : Descriptor) (options : TableOptions) (key : ℕ) (s : DbService) (cache : DbRowCache)
    → checked_options desc ≡ some options
    → local_query_db_row desc key s ≡ some cache
    → cache.tick ≡ true
    → query_db_row desc options.primary_key key s ≡ query_found cache.db_row s []
unfolding query_db_row
finds_ticking desc options key s cache o f t =
    let same : options.primary_key == options.primary_key ≡ true = ground arith in
    rw (o, same, f, t, query_db_row) refl

-- An update of a row is accepted, and then a query by another field than the primary key is answered
-- by the SQL service with that row as it was stored: whatever the versions are, the stored row
-- replaces the updated one. A query by the primary key finds the stored row, and the tick has nothing
-- to write.
pub query_overwrites_update :
    (desc : Descriptor) (options : TableOptions) (msg : DbRowTickSync) (s s' : DbService)
    (cache : DbRowCache) (row stored : DbRow) (old_db_version number key : ℕ)
    → checked_options desc ≡ some options
    → get_field_any options.primary_key row.fields ≡ get_field_any options.primary_key stored.fields
    → local_query_db_row desc (get_field_any options.primary_key stored.fields) s ≡ some cache
    → update_row desc row old_db_version s ≡ some s'
    → number == options.primary_key ≡ false
    → (s'' : DbService) × (cache' : DbRowCache) × (query_db_row desc number key s' ≡ asks_sql s')
      × (query_answered desc options (some stored) s' ≡ (some stored, s'', []))
      × (query_db_row desc options.primary_key (get_field_any options.primary_key stored.fields) s''
          ≡ query_found stored s'' [])
      × (local_query_db_row desc (get_field_any options.primary_key stored.fields) s''
          ≡ some cache')
      × (tick_sync desc msg cache' ≡ nothing_to_write msg)
unfolding query_db_row query_answered local_cache_db_row tick_sync
query_overwrites_update desc options msg s s' cache row stored old_db_version number key o k f e n =
    let at = get_field_any options.primary_key stored.fields in
    let (l, m, set) = update_accepted desc options row old_db_version s s' cache o (rw k f) e in
    let updated : local_query_db_row desc at s' ≡ some (record cache { db_row = row }) =
      rw (set, k) (row_set desc at (record cache { db_row = row }) s) in
    let cache' : DbRowCache = record {
      db_row = stored;
      sql_db_version = stored.db_version;
      tick = cache.tick || true;
    } in
    let s'' = set_row desc at cache' s' in
    let found = row_set desc at cache' s' in
    (
      s'',
      cache',
      ground arith,
      rw (updated, local_cache_db_row) refl,
      finds_ticking desc options at s'' cache' o found (ground arith),
      found,
      ground arith,
    )

commits_lem :
    (n : ℕ) (row : DbRow)
    → row.db_version + n < 2 ^ 64
    → commits n row ≡ record row { db_version = row.db_version + n }
unfolding commits commit
commits_lem zero row h = let e : row.db_version + 0 ≡ row.db_version = omega arith in rw e refl
commits_lem (suc n) row h =
    let e : (row.db_version + n + 1) % 2 ^ 64 ≡ row.db_version + suc n = omega arith in
    rw (commits_lem n row (omega arith)) (ap (λ (v : ℕ). record row { db_version = v }) e)

-- A row that is committed again and again with no query in between, and whose version does not reach
-- 2 ^ 64: its update number n + 1 is refused as long as the version of the row, which every attempt
-- raises, is not above the cached one. Then it is accepted, and replaces the cached row, whatever
-- changes of others that has.
pub retried_commit_wins :
    (desc : Descriptor) (options : TableOptions) (s : DbService) (cache : DbRowCache) (row : DbRow)
    (n : ℕ)
    → checked_options desc ≡ some options
    → local_query_db_row desc (get_field_any options.primary_key row.fields) s ≡ some cache
    → row.db_version + suc n < 2 ^ 64
    → update_row desc (commits (suc n) row) (commits n row).db_version s ≡ (
        if leb (row.db_version + suc n) cache.db_row.db_version
        then none
        else some (
            set_row desc
              (get_field_any options.primary_key row.fields)
              (record cache { db_row = record row { db_version = row.db_version + suc n } })
              s))
retried_commit_wins desc options s cache row n o f h =
    let next : DbRow = record row { db_version = row.db_version + suc n } in
    let fresh : ltb next.db_version (row.db_version + n) ≡ false = ground arith in
    rw
      (
        commits_lem (suc n) row h,
        commits_lem n row (omega arith),
        update_accepts desc options next (row.db_version + n) s cache o f,
        fresh,
      )
      refl
