-- ===== src/DbService/Ticks/Chain.antt =====
-- No handler of db_service.h starts a second chain of ticks for a row.
use million.Prelude.{
  ℕ, ◌≤◌, ◌≡◌, Bool, true, false, ◌||◌, Option, none, some, [], ◌∷◌, ◌==◌, arith, refl,
  Option-cases, inl, inr, Bool-cases,
}
use million.DbRow.{DbRow}
use million.DbService.Rows.{update_accepted}
use million.DbService.{
  TableOptions, Descriptor, DbRowCache, DbService, DbRowTickSync, Timeouts, checked_options,
  get_field_any, local_query_db_row, local_cache_db_row, set_row, set_table, local_find_table,
  update_row, query_db_row, query_answered, query_found, asks_sql, tick_sync_answered,
}
use million.DbService.Ticks.{
  Node, Step, find_step, ask_step, answer_step, update_step, tick_step, abort_step, Run, rest, step,
}
use million.DbService.Ticks.Row.{
  ticks_of, ticks_of-append, IsTicking, set_row-IsTicking, other_row, replace-IsTicking,
  set_table-IsTicking, one_tick,
}

Keeps : Descriptor → ℕ → DbService → Timeouts → Type 0
Keeps other j s timeouts = IsTicking other j s × (ticks_of other.address j timeouts ≡ 0)

query-Keeps :
    (desc : Descriptor) (number key : ℕ) (s : DbService) (row : DbRow) (s' : DbService)
    (timeouts : Timeouts) (other : Descriptor) (j : ℕ)
    → query_db_row desc number key s ≡ query_found row s' timeouts
    → IsTicking other j s
    → Keeps other j s' timeouts
unfolding Keeps query_db_row ticks_of
query-Keeps desc number key s row s' timeouts other j q t =
    elim (Option-cases (checked_options desc)) [
      | inl e ↦ ground arith
      | inr (options, o) ↦ elim (Bool-cases (number == options.primary_key)) [
        | inr e ↦ ground arith
        | inl e ↦ elim (Option-cases (local_query_db_row desc key s)) [
          | inl f ↦ ground arith
          | inr (cache, f) ↦ elim (Bool-cases cache.tick) [
            | inl u ↦
                let a : s' ≡ s = ground arith in
                let b : timeouts ≡ [] = ground arith in rw (a, b) (t, refl)
            | inr u ↦
                let new : DbRowCache = record cache { tick = true } in
                let tick : Timeouts =
                  record { sync_tick = options.sync_tick; table = desc.address; primary_key = key }
                  ∷ [] in
                let a : s' ≡ set_row desc key new s = ground arith in
                let b : timeouts ≡ tick = ground arith in
                rw (a, b)
                  (
                    set_row-IsTicking desc key new other j s (λ same. refl) t,
                    one_tick desc.address key other.address j options.sync_tick
                        (other_row desc other key j s (λ old g. ground arith) t),
                  )
          ]
        ]
      ]
    ]

ask_keeps :
    (desc : Descriptor) (number key : ℕ) (s s' : DbService) (other : Descriptor) (j : ℕ)
    → query_db_row desc number key s ≡ asks_sql s'
    → IsTicking other j s
    → IsTicking other j s'
unfolding query_db_row
ask_keeps desc number key s s' other j q t = elim (Option-cases (checked_options desc)) [
  | inl e ↦ ground arith
  | inr (options, o) ↦ elim (Bool-cases (number == options.primary_key)) [
    | inr e ↦ let a : s' ≡ s = ground arith in rw a t
    | inl e ↦ elim (Option-cases (local_query_db_row desc key s)) [
      | inl f ↦
          let a : s' ≡ set_table desc (local_find_table desc s) s = ground arith in
          rw a (set_table-IsTicking desc other j s t)
      | inr (cache, f) ↦ ground arith
    ]
  ]
]

answer-Keeps :
    (desc : Descriptor) (options : TableOptions) (answer : Option DbRow) (s : DbService)
    (other : Descriptor) (j : ℕ)
    → IsTicking other j s
    → Keeps other j
        (query_answered desc options answer s).1
        (query_answered desc options answer s).2
unfolding Keeps query_answered local_cache_db_row ticks_of
answer-Keeps desc options none s other j t = (t, refl)
answer-Keeps desc options (some row) s other j t =
    let key = get_field_any options.primary_key row.fields in
    elim (Option-cases (local_query_db_row desc key s)) [
      | inl f ↦
          rw (f, local_cache_db_row)
            (
              set_row-IsTicking desc key
                  (record { db_row = row; sql_db_version = row.db_version; tick = true }) other j s
                  (λ same. refl) t,
              one_tick desc.address key other.address j options.sync_tick
                  (other_row desc other key j s (λ old g. ground arith) t),
            )
      | inr (old, f) ↦
          rw (f, local_cache_db_row)
            (
              set_row-IsTicking desc key
                  (record {
                    db_row = row;
                    sql_db_version = row.db_version;
                    tick = old.tick || true;
                  })
                  other j s (λ same. ground arith) t,
              refl,
            )
    ]

update_keeps :
    (desc : Descriptor) (row : DbRow) (old_db_version : ℕ) (s s' : DbService) (other : Descriptor)
    (j : ℕ)
    → update_row desc row old_db_version s ≡ some s'
    → IsTicking other j s
    → IsTicking other j s'
unfolding update_row
update_keeps desc row old_db_version s s' other j e t = elim (Option-cases (checked_options desc)) [
  | inl o ↦ ground arith
  | inr (options, o) ↦
      let key = get_field_any options.primary_key row.fields in
      elim (Option-cases (local_query_db_row desc key s)) [
        | inl f ↦ ground arith
        | inr (cache, f) ↦
            let (l, m, set) = update_accepted desc options row old_db_version s s' cache o f e in
            rw set
              (replace-IsTicking desc key cache (record cache { db_row = row }) other j s f refl t)
      ]
]

answer_tick :
    (msg : DbRowTickSync) (db_version : ℕ) (answer : Option Bool) (cache cache' : DbRowCache)
    (timeouts : Timeouts)
    → tick_sync_answered msg db_version answer cache ≡ some (cache', timeouts)
    → (cache'.tick ≡ cache.tick) × (timeouts ≡ msg ∷ [])
unfolding tick_sync_answered
answer_tick msg db_version none cache cache' timeouts e = ground arith
answer_tick msg db_version (some false) cache cache' timeouts e = ground arith
answer_tick msg db_version (some true) cache cache' timeouts e = ground arith

-- One step keeps the row cached and its ticks, or ends one.
Step-IsTicking :
    (desc : Descriptor) (key : ℕ) {c d : Node}
    → Step c d
    → IsTicking desc key c.service
    → IsTicking desc key d.service
      × (ticks_of desc.address key d.ticks ≤ ticks_of desc.address key c.ticks)
unfolding Keeps
Step-IsTicking other j {c} (find_step desc number key row s timeouts q e) t =
    let (a, b) = query-Keeps desc number key c.service row s timeouts other j q t in
    rw e (a, omega (arith, b, ticks_of-append other.address j c.ticks timeouts))
Step-IsTicking other j {c} (ask_step desc number key s q e) t =
    rw e (ask_keeps desc number key c.service s other j q t, omega arith)
Step-IsTicking other j {c} (answer_step desc options answer o e) t =
    let (a, b) = answer-Keeps desc options answer c.service other j t in
    rw e (
      a,
      omega (
        arith,
        b,
        ticks_of-append other.address j c.ticks (query_answered desc options answer c.service).2,
      ),
    )
Step-IsTicking other j {c} (update_step desc row old_db_version s u e) t =
    rw e (update_keeps desc row old_db_version c.service s other j u t, omega arith)
Step-IsTicking other j {c}
      (tick_step desc msg pre post db_version answer cache cache' timeouts at f a e) t =
    let (u, v) = answer_tick msg db_version answer cache cache' timeouts a in
    rw (e, v, at)
      (replace-IsTicking desc msg.primary_key cache cache' other j c.service f u t, omega arith)
Step-IsTicking other j {c} (abort_step msg pre post at e) t =
    rw (e, at)
      (
        t,
        omega (
          arith,
          ticks_of-append other.address j pre post,
          ticks_of-append other.address j pre (msg ∷ post),
          ticks_of-append other.address j (msg ∷ []) post,
        ),
      )

-- Once a row is cached and marked as having its tick, no handler starts another tick for it, whatever
-- is queried, answered and updated: it stays cached and marked, and its ticks become no more. So a
-- row whose last tick has ended by an abort has no tick ever again.
pub no_new_ticks :
    (desc : Descriptor) (key : ℕ) {c d : Node}
    → Run c d
    → IsTicking desc key c.service
    → IsTicking desc key d.service
      × (ticks_of desc.address key d.ticks ≤ ticks_of desc.address key c.ticks)
no_new_ticks desc key rest t = (t, omega arith)
no_new_ticks desc key (step st r) t =
    let (u, l) = Step-IsTicking desc key st t in
    let (v, m) = no_new_ticks desc key r u in (v, omega arith)
