-- ===== src/ServiceLock.antt =====
-- million/src/service_lock.cpp: a lock between the coroutines of one service.
pub mod Faults
mod Tests
use million.Prelude.{ℕ, Bool, true, false, Option, none, some, List, [], ◌∷◌, ◌++◌, if◌then◌else◌}

pub record ServiceLock : Type 0 where
  pub locking : Bool
  pub wait_sessions : List ℕ

unfoldable pub create : ServiceLock
create = record { locking = false; wait_sessions = [] }

-- Lock, up to its first suspension: `none` if the coroutine has the lock, or the new session that it
-- then waits for.
unfoldable pub lock : ℕ → ServiceLock → ServiceLock × Option ℕ
lock session_id l =
    if l.locking
    then (record l { wait_sessions = l.wait_sessions ++ session_id ∷ [] }, some session_id)
    else (record l { locking = true }, none)

-- The rest of Lock, once the session has its message.
unfoldable pub lock_resumed : ServiceLock → ServiceLock
lock_resumed l = record l { locking = true }

pop_waiter : List ℕ → ServiceLock → ServiceLock × Option ℕ
pop_waiter [] l = (l, none)
pop_waiter (session_id ∷ rest) l = (record l { wait_sessions = rest }, some session_id)

-- Unlock: the session under which a ServiceLockMsg is sent by SendTo to the service itself.
unfoldable pub unlock : ServiceLock → ServiceLock × Option ℕ
unfolding pop_waiter
unlock l = pop_waiter l.wait_sessions (record l { locking = false })
