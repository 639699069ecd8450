-- ===== src/DbService/Ticks/Row.antt =====
-- A row that is cached with its tick, and what setting rows does to it.
use million.Prelude.{
  ℕ, ◌+◌, ◌≡◌, true, false, ◌&&◌, some, [], ◌∷◌, ◌++◌, ◌==◌, if◌then◌else◌, arith, refl, sym, ◌∙◌,
  inl, inr, Bool-cases,
}
use million.Prelude.Maps.{find-assign}
use million.DbService.Rows.{local_query_db_row-set_row}
use million.DbService.{
  Descriptor, DbRowCache, DbService, Timeouts, local_query_db_row, set_row, set_table,
  local_find_table,
}

-- The ticks of a row.
unfoldable pub ticks_of : ℕ → ℕ → Timeouts → ℕ
ticks_of table key [] = 0
ticks_of table key (msg ∷ ts) =
    (if (msg.table == table) && (msg.primary_key == key) then 1 else 0) + ticks_of table key ts

pub ticks_of-append :
    (table key : ℕ) (xs ys : Timeouts)
    → ticks_of table key (xs ++ ys) ≡ ticks_of table key xs + ticks_of table key ys
unfolding ticks_of
ticks_of-append table key [] ys = omega arith
ticks_of-append table key (x ∷ xs) ys = omega (arith, ticks_of-append table key xs ys)

-- The row is cached, and marked as one that has its tick.
unfoldable pub IsTicking : Descriptor → ℕ → DbService → Type 0
IsTicking desc key s =
    (cache : DbRowCache) × (local_query_db_row desc key s ≡ some cache) × (cache.tick ≡ true)

pub set_row-IsTicking :
    (desc : Descriptor) (key : ℕ) (cache : DbRowCache) (other : Descriptor) (j : ℕ) (s : DbService)
    → ((desc.address == other.address) && (key == j) ≡ true → cache.tick ≡ true)
    → IsTicking other j s
    → IsTicking other j (set_row desc key cache s)
unfolding IsTicking
set_row-IsTicking desc key cache other j s t (old, f, u) =
    let e = local_query_db_row-set_row desc key cache other j s in
    elim (Bool-cases ((desc.address == other.address) && (key == j))) [
      | inl same ↦ (cache, ground arith, t same)
      | inr differs ↦ (old, ground arith, u)
    ]

pub same_row :
    (desc other : Descriptor) (key j : ℕ) (s : DbService)
    → (desc.address == other.address) && (key == j) ≡ true
    → local_query_db_row desc key s ≡ local_query_db_row other j s
unfolding local_query_db_row local_find_table
same_row desc other key j s e =
    let a : desc.address ≡ other.address = ground arith in
    let b : key ≡ j = ground arith in rw (a, b) refl

-- A row that has no tick yet is another one.
pub other_row :
    (desc other : Descriptor) (key j : ℕ) (s : DbService)
    → ((cache : DbRowCache) → local_query_db_row desc key s ≡ some cache → cache.tick ≡ false)
    → IsTicking other j s
    → (desc.address == other.address) && (key == j) ≡ false
unfolding IsTicking
other_row desc other key j s h (old, f, u) =
    elim (Bool-cases ((desc.address == other.address) && (key == j))) [
      | inl same ↦ ground (arith, h old (same_row desc other key j s same ∙ f))
      | inr differs ↦ differs
    ]

-- An entry is replaced by one that has its tick if the old one had it.
pub replace-IsTicking :
    (desc : Descriptor) (key : ℕ) (old cache : DbRowCache) (other : Descriptor) (j : ℕ)
    (s : DbService)
    → local_query_db_row desc key s ≡ some old
    → cache.tick ≡ old.tick
    → IsTicking other j s
    → IsTicking other j (set_row desc key cache s)
unfolding IsTicking
replace-IsTicking desc key old cache other j s f u (was, g, v) =
    set_row-IsTicking desc key cache other j s
      (λ same.
        let e : some old ≡ some was = sym f ∙ same_row desc other key j s same ∙ g in ground arith)
      (was, g, v)

pub set_table-IsTicking :
    (desc other : Descriptor) (j : ℕ) (s : DbService)
    → IsTicking other j s
    → IsTicking other j (set_table desc (local_find_table desc s) s)
unfolding IsTicking local_query_db_row set_table local_find_table
set_table-IsTicking desc other j s (was, g, v) = (
  was,
  ground (arith, find-assign desc.address other.address (local_find_table desc s) s.tables),
  v,
)

pub one_tick :
    (table key t k : ℕ) (sync_tick : ℕ)
    → (table == t) && (key == k) ≡ false
    → ticks_of t k (record { sync_tick = sync_tick; table = table; primary_key = key } ∷ []) ≡ 0
unfolding ticks_of
one_tick table key t k sync_tick e = rw e refl
