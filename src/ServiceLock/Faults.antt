-- ===== src/ServiceLock/Faults.antt =====
-- What the lock of service_lock.cpp does not keep: waiters are not woken, and would not be alone.
use million.Prelude.{ℕ, false, none, some, List, ◌∷◌, ◌≡◌, ◌<◌, ◌^◌, arith}
use million.Prelude.Maps.{find}
use million.TaskExecutor.{TaskElement}
use million.ServiceCore.{ServiceCore, IService, running, process_msg}
use million.ServiceCore.Replies.{user_element, new_message_wakes_none}
use million.ServiceLock.{ServiceLock, lock, unlock, lock_resumed}

-- Unlock frees the lock and takes the first waiting session, in the order of the calls of Lock.
pub unlock_first :
    (l : ServiceLock) (session_id : ℕ) (rest : List ℕ)
    → l.wait_sessions ≡ session_id ∷ rest
    → unlock l ≡ (record { locking = false; wait_sessions = rest }, some session_id)
unfolding unlock
unlock_first l session_id rest e = ground arith

-- The message of Unlock goes to the service itself under the session of the waiter, not flagged as
-- a reply. A running service takes it for a new message, and the waiting task stays where it is.
pub waiter_not_woken :
    (i : IService) (s : ServiceCore) (l : ServiceLock) (session_id key contents : ℕ) (rest : List ℕ)
    (waiter : TaskElement)
    → s.stage ≡ running
    → l.wait_sessions ≡ session_id ∷ rest
    → session_id < 2 ^ 63
    → find session_id s.tasks ≡ some waiter
    → ((unlock l).1 ≡ some session_id)
      × (find session_id
            (process_msg i (user_element s.service_id session_id key contents) s).0.tasks
          ≡ some waiter)
unfolding unlock
waiter_not_woken i s l session_id key contents rest waiter r w lt e = (
  ground arith,
  new_message_wakes_none i s s.service_id session_id key contents session_id waiter r lt e,
)

-- Even if the message woke the waiter, another coroutine that calls Lock before it runs gets the
-- lock too: the lock is free in between, and the waiter takes it without looking.
pub lock_taken_twice :
    (l : ServiceLock) (waiting rest_session : ℕ) (rest : List ℕ)
    → l.wait_sessions ≡ waiting ∷ rest
    → let freed = (unlock l).0 in
      ((unlock l).1 ≡ some waiting)
      × ((lock rest_session freed).1 ≡ none)
      × (lock_resumed (lock rest_session freed).0 ≡ (lock rest_session freed).0)
unfolding unlock lock lock_resumed
lock_taken_twice l waiting rest_session rest e = ground arith
