-- ===== src/Snowflake.antt =====
-- million/include/million/seata_snowflake.hpp: the generator of the ids of sessions and services.
-- The clock is an argument; `seq_` is an atomic uint64, so each call of `NextId` is one step.
pub mod Unique
mod Tests
use million.Prelude.{
  ℕ, ◌+◌, ◌-◌, ◌*◌, ◌%◌, ◌^◌, Option, none, some, bit_and, bit_or, ltb, if◌then◌else◌, zero, suc,
}

pub record SeataSnowflake : Type 0 where
  pub worker_id : ℕ  -- already shifted
  pub seq : ℕ

abbrev pub snow_id_invalid : ℕ
snow_id_invalid = 0

abbrev pub worker_bits : ℕ
worker_bits = 10

abbrev pub timestamp_bits : ℕ
timestamp_bits = 41

abbrev pub seq_bits : ℕ
seq_bits = 12

abbrev pub twepoch : ℕ
twepoch = 1588435200000

abbrev pub time_and_seq_mask : ℕ
time_and_seq_mask = 0x1fffffffffffff

abbrev pub u64 : ℕ → ℕ
u64 n = n % 2 ^ 64

-- `none`: the constructor throws. `unix_ms` is the time of the call; the difference is a uint64.
unfoldable pub create : ℕ → ℕ → Option SeataSnowflake
create worker_id unix_ms =
    if ltb (1 * 2 ^ worker_bits - 1) worker_id
    then none
    else some (record {
      worker_id = u64 (worker_id * 2 ^ (timestamp_bits + seq_bits));
      seq = u64 (u64 (unix_ms + (2 ^ 64 - twepoch)) * 2 ^ seq_bits);
    })

-- The id and the generator after the call.
unfoldable pub next_id : SeataSnowflake → ℕ × SeataSnowflake
next_id s =
    let next = u64 (s.seq + 1) in
    (bit_or s.worker_id (bit_and next time_and_seq_mask), record s { seq = next })

-- The generator after n calls.
unfoldable pub after_calls : ℕ → SeataSnowflake → SeataSnowflake
after_calls zero s = s
after_calls (suc n) s = after_calls n (next_id s).1
