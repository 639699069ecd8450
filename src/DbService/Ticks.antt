-- ===== src/DbService/Ticks.antt =====
-- The ticks that the service of db_service.h has set, and the steps of its handlers.
pub mod Row
pub mod Chain
use million.Prelude.{
  ℕ, ◌+◌, ◌≤◌, ◌≡◌, Bool, true, false, ◌&&◌, ◌||◌, Option, none, some, [], ◌∷◌, ◌++◌, ◌==◌,
  if◌then◌else◌, arith, refl, sym, ◌∙◌, Option-cases, inl, inr, Bool-cases,
}
use million.DbRow.{DbRow}
use million.Prelude.Maps.{find-assign}
use million.DbService.Rows.{update_accepted, local_query_db_row-set_row}
use million.DbService.{
  TableOptions, Descriptor, DbRowCache, DbService, DbRowTickSync, Timeouts, checked_options,
  get_field_any, local_query_db_row, local_cache_db_row, set_row, set_table, local_find_table,
  update_row, query_db_row, query_answered, query_found, asks_sql, tick_sync_answered,
}

-- The service with its ticks: each is a DBRowTickSync that the timer holds or that is being handled.
pub record Node : Type 0 where
  pub service : DbService
  pub ticks : Timeouts

-- What the handlers do, of any rows and with any answers of the SQL service.
pub data Step (c d : Node) : Type 0 where
  find_step :
      (desc : Descriptor) (number key : ℕ) (row : DbRow) (s : DbService) (timeouts : Timeouts)
      → query_db_row desc number key c.service ≡ query_found row s timeouts
      → d ≡ record { service = s; ticks = c.ticks ++ timeouts }
      → Step c d
  ask_step :
      (desc : Descriptor) (number key : ℕ) (s : DbService)
      → query_db_row desc number key c.service ≡ asks_sql s
      → d ≡ record c { service = s }
      → Step c d
  answer_step :
      (desc : Descriptor) (options : TableOptions) (answer : Option DbRow)
      → checked_options desc ≡ some options
      → d ≡ record {
        service = (query_answered desc options answer c.service).1;
        ticks = c.ticks ++ (query_answered desc options answer c.service).2;
      }
      → Step c d
  update_step :
      (desc : Descriptor) (row : DbRow) (old_db_version : ℕ) (s : DbService)
      → update_row desc row old_db_version c.service ≡ some s
      → d ≡ record c { service = s }
      → Step c d
  -- A tick that has nothing to write or whose write has been answered or not.
  tick_step :
      (desc : Descriptor) (msg : DbRowTickSync) (pre post : Timeouts) (db_version : ℕ)
      (answer : Option Bool) (cache cache' : DbRowCache) (timeouts : Timeouts)
      → c.ticks ≡ pre ++ (msg ∷ post)
      → local_query_db_row desc msg.primary_key c.service ≡ some cache
      → tick_sync_answered msg db_version answer cache ≡ some (cache', timeouts)
      → d ≡ record {
        service = set_row desc msg.primary_key cache' c.service;
        ticks = pre ++ (timeouts ++ post);
      }
      → Step c d
  -- A tick that ends by an abort.
  abort_step :
      (msg : DbRowTickSync) (pre post : Timeouts)
      → c.ticks ≡ pre ++ (msg ∷ post)
      → d ≡ record c { ticks = pre ++ post }
      → Step c d

pub data Run : Node → Node → Type 0 where
  rest : {c : Node} → Run c c
  step : {c d e : Node} → Step c d → Run d e → Run c e
