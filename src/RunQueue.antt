-- ===== src/RunQueue.antt =====
-- How workers share the services: `ServiceMgr::Send`, `PushService` and `PopService` of
-- million/src/service_mgr.cpp and the loop of million/src/worker.cpp, for one service and any number
-- of threads. A thread between two of its accesses to the shared state is counted by the place
-- where it stands; each access is one step, and the steps of the threads interleave freely. The
-- service has no worker thread of its own, and the manager runs. A deleted service stays in the
-- model, so that what the threads still do with it can be seen.
pub mod Exclusion
pub mod Wakeup
pub mod Drain
mod Tests
use million.Prelude.{ℕ, ◌+◌, ◌-◌, ◌<◌, ◌≡◌, ◌==◌, ◌||◌, Bool, true, false, if◌then◌else◌}

pub record RunState : Type 0 where
  -- msgs_.size()
  pub msgs : ℕ
  -- in_queue_
  pub in_queue : Bool
  -- how often the service stands in service_queue_
  pub queued : ℕ
  -- threads that are to call PushService: after a PushMsg, or a worker that saw messages left
  pub pushing : ℕ
  -- workers that hold the service, before and after `ProcessMsgs(1)`
  pub holding : ℕ
  pub processed : ℕ
  -- workers after `set_in_queue(false)`, before `MsgQueueIsEmpty()`
  pub checking : ℕ
  -- workers after MsgQueueIsEmpty() was true, before `IsExited()`
  pub closing : ℕ
  -- the stage is kExited
  pub exited : Bool
  -- how often DeleteService was called
  pub deleted : ℕ

abbrev pub idle_state : RunState
idle_state = record {
  msgs = 0;
  in_queue = false;
  queued = 0;
  pushing = 0;
  holding = 0;
  processed = 0;
  checking = 0;
  closing = 0;
  exited = false;
  deleted = 0;
}

-- PushService under service_queue_mutex_.
unfoldable pub push_service : RunState → RunState
push_service s = if s.in_queue then s else record s { queued = s.queued + 1; in_queue = true }

-- ProcessMsgs(1) by a worker: an exited service takes no message, and any other takes one if there is
-- one, after which it has exited or not, as `exits` says.
unfoldable pub process_one : Bool → RunState → RunState
process_one exits s =
    if s.exited || (s.msgs == 0)
    then record s { holding = s.holding - 1; processed = s.processed + 1 }
    else record s {
      msgs = s.msgs - 1;
      holding = s.holding - 1;
      processed = s.processed + 1;
      exited = exits;
    }

-- One access to the shared state by one thread.
pub data Step (s t : RunState) : Type 0 where
  -- ServiceMgr::Send: PushMsg has taken a message.
  push_msg : t ≡ record s { msgs = s.msgs + 1; pushing = s.pushing + 1 } → Step s t
  -- PushService.
  push : 0 < s.pushing → t ≡ push_service (record s { pushing = s.pushing - 1 }) → Step s t
  -- PopService hands the service to a worker.
  pop : 0 < s.queued → t ≡ record s { queued = s.queued - 1; holding = s.holding + 1 } → Step s t
  -- ProcessMsgs(1).
  process : 0 < s.holding → (exits : Bool) → t ≡ process_one exits s → Step s t
  -- set_in_queue(false).
  release :
      0 < s.processed
      → t ≡ record s { in_queue = false; processed = s.processed - 1; checking = s.checking + 1 }
      → Step s t
  -- MsgQueueIsEmpty() is false: PushService follows.
  check_left :
      0 < s.checking
      → 0 < s.msgs
      → t ≡ record s { checking = s.checking - 1; pushing = s.pushing + 1 }
      → Step s t
  -- MsgQueueIsEmpty() is true.
  check_empty :
      0 < s.checking
      → s.msgs ≡ 0
      → t ≡ record s { checking = s.checking - 1; closing = s.closing + 1 }
      → Step s t
  -- IsExited() is false, or true: DeleteService follows.
  stay : 0 < s.closing → s.exited ≡ false → t ≡ record s { closing = s.closing - 1 } → Step s t
  delete :
      0 < s.closing
      → s.exited ≡ true
      → t ≡ record s { closing = s.closing - 1; deleted = s.deleted + 1 }
      → Step s t

pub data Reach : RunState → Type 0 where
  start : Reach idle_state
  next : {s t : RunState} → Reach s → Step s t → Reach t
