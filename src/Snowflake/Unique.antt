-- ===== src/Snowflake/Unique.antt =====
-- The ids of one generator, and of two with different worker ids.
use million.Prelude.{ℕ, zero, suc, ◌+◌, ◌*◌, ◌%◌, ◌^◌, ◌<◌, ◌≡◌, ◌≢◌, some, arith, true}
use million.Prelude.Bits.{bit_or_disjoint, bit_and_mask}
use million.Snowflake.{SeataSnowflake, create, next_id, after_calls, u64, snow_id_invalid}
use million.Session.{session_is_send_id}
use million.Session.Flag.{is_send_of_lt}

-- The shifted worker id of a generator that was created for `worker`.
abbrev pub IsWorker : ℕ → SeataSnowflake → Type 0
IsWorker worker s = (worker < 1024) × (s.worker_id ≡ worker * 2 ^ 53)

pub create-IsWorker :
    (worker unix_ms : ℕ) (s : SeataSnowflake) → create worker unix_ms ≡ some s → IsWorker worker s
unfolding create
create-IsWorker worker unix_ms s h = ground arith

next_id-IsWorker :
    (worker : ℕ) (s : SeataSnowflake) → IsWorker worker s → IsWorker worker (next_id s).1
unfolding next_id
next_id-IsWorker worker s h = h

pub after_calls-IsWorker :
    (n worker : ℕ) (s : SeataSnowflake) → IsWorker worker s → IsWorker worker (after_calls n s)
unfolding after_calls
after_calls-IsWorker zero worker s h = h
after_calls-IsWorker (suc n) worker s h =
    after_calls-IsWorker n worker (next_id s).1 (next_id-IsWorker worker s h)

-- The fields of an id: the worker above, the sequence number modulo 2 ^ 53 below.
pub next_id_fields :
    (worker : ℕ) (s : SeataSnowflake)
    → IsWorker worker s
    → (next_id s).0 ≡ worker * 2 ^ 53 + (s.seq + 1) % 2 ^ 53
unfolding next_id
next_id_fields worker s h = ground (
  arith,
  bit_and_mask 53 (u64 (s.seq + 1)),
  bit_or_disjoint 53 worker ((s.seq + 1) % 2 ^ 53) (omega arith),
)

after_calls_seq :
    (n : ℕ) (s : SeataSnowflake) → (after_calls n s).seq % 2 ^ 53 ≡ (s.seq + n) % 2 ^ 53
unfolding after_calls next_id
after_calls_seq zero s = omega arith
after_calls_seq (suc n) s = omega (arith, after_calls_seq n (unfold next_id in (next_id s).1))

-- The id of call number n, counted from 0.
pub id_fields :
    (worker n : ℕ) (s : SeataSnowflake)
    → IsWorker worker s
    → (next_id (after_calls n s)).0 ≡ worker * 2 ^ 53 + (s.seq + n + 1) % 2 ^ 53
id_fields worker n s h = omega (
  arith,
  next_id_fields worker (after_calls n s) (after_calls-IsWorker n worker s h),
  after_calls_seq n s,
)

-- Two calls of one generator that are fewer than 2 ^ 53 calls apart give different ids.
pub ids_distinct :
    (worker unix_ms i j : ℕ) (s : SeataSnowflake)
    → create worker unix_ms ≡ some s
    → i < j
    → j < i + 2 ^ 53
    → (next_id (after_calls i s)).0 ≢ (next_id (after_calls j s)).0
ids_distinct worker unix_ms i j s c p q e =
    let h = create-IsWorker worker unix_ms s c in
    omega (arith, id_fields worker i s h, id_fields worker j s h)

-- Generators with different worker ids never give the same id, whatever their clocks and calls.
pub workers_distinct :
    (a b at_a at_b i j : ℕ) (s t : SeataSnowflake)
    → create a at_a ≡ some s
    → create b at_b ≡ some t
    → a ≢ b
    → (next_id (after_calls i s)).0 ≢ (next_id (after_calls j t)).0
workers_distinct a b at_a at_b i j s t c d ne e = omega (
  arith,
  id_fields a i s (create-IsWorker a at_a s c),
  id_fields b j t (create-IsWorker b at_b t d),
)

-- Every id of a created generator has the reply flag clear, and is not the invalid id if its
-- worker id is not 0.
pub ids_are_send_ids :
    (worker unix_ms n : ℕ) (s : SeataSnowflake)
    → create worker unix_ms ≡ some s
    → (session_is_send_id (next_id (after_calls n s)).0 ≡ true)
      × (0 < worker → (next_id (after_calls n s)).0 ≢ snow_id_invalid)
ids_are_send_ids worker unix_ms n s c =
    let h = create-IsWorker worker unix_ms s c in
    let e = id_fields worker n s h in (is_send_of_lt _ (omega (arith, e)), λ p z. omega (arith, e))
