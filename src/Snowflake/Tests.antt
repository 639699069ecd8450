-- ===== src/Snowflake/Tests.antt =====
-- Runs of seata_snowflake.hpp at the twepoch plus one second.
use million.Prelude.{◌≡◌, ◌≢◌, refl, arith}
use million.Snowflake.{SeataSnowflake, create, next_id, after_calls}
use million.Snowflake.Unique.{ids_distinct}

abbrev node_one : SeataSnowflake
node_one = record { worker_id = 0x20000000000000; seq = 4096000 }

abbrev node_two : SeataSnowflake
node_two = record { worker_id = 0x40000000000000; seq = 4096000 }

first_id : (next_id node_one).0 ≡ 0x200000003e8001
unfolding next_id
first_id = refl

ids_distinct_example : (next_id (after_calls 0 node_one)).0 ≢ (next_id (after_calls 2 node_one)).0
unfolding create
ids_distinct_example = ids_distinct 1 1588435201000 0 2 node_one refl (omega arith) (omega arith)
