-- ===== src/SessionMonitor.antt =====
-- million/src/session_monitor.cpp: the timeouts of sessions, kept in a WheelTimer. The time since the
-- last tick is an argument, and what a tick sends is a list of messages; `none` stands for the
-- exception of the timer's GetLayer. The thread that calls Tick is the loop
-- in SessionMonitor/Ticks.
pub mod Timeouts
pub mod Ticks
mod Tests
use million.Prelude.{
  ℕ, ◌+◌, ◌*◌, Option, none, some, List, [], ◌∷◌, ◌++◌, ◌==◌, if◌then◌else◌, length, get_elem?,
}
use million.WheelTimer.{DelayTask, WheelTimer, create, add_task, tick}

-- The service that waits, and its session; a SessionTimeoutMsg goes to the service itself.
pub record TimedMsg : Type 0 where
  pub service : ℕ
  pub session_id : ℕ

-- The tasks of the timer hold the place of their TimedMsg in `data`.
pub record SessionMonitor : Type 0 where
  pub timeout_tick : ℕ
  pub tasks : WheelTimer
  pub data_of : List TimedMsg

-- The constructor and Init.
abbrev pub new_monitor : ℕ → ℕ → SessionMonitor
new_monitor s_per_tick timeout_tick = record {
  timeout_tick = timeout_tick;
  tasks = create (s_per_tick * 1000);
  data_of = [];
}

-- `if (timeout_s == 0) timeout_s = timeout_tick_`.
abbrev pub ticks_of : ℕ → SessionMonitor → ℕ
ticks_of timeout_s m = if timeout_s == 0 then m.timeout_tick else timeout_s

-- AddSession(service, session_id, timeout_s).
unfoldable pub add_session : ℕ → ℕ → ℕ → SessionMonitor → SessionMonitor
add_session service session_id timeout_s m = record m {
  tasks = add_task (ticks_of timeout_s m) (length m.data_of) m.tasks;
  data_of = m.data_of ++ record { service = service; session_id = session_id } ∷ [];
}

-- The messages that are sent for the tasks that are called back.
unfoldable pub timeouts : List TimedMsg → List DelayTask → List TimedMsg
timeouts data_of [] = []
timeouts data_of (task ∷ tasks) =
    let rest = timeouts data_of tasks in
    elim (get_elem? data_of task.contents) [ none ↦ rest | some x ↦ x ∷ rest ]

-- `tasks_.Tick(timeout)`: what it sends, and the monitor.
unfoldable pub tick_timeouts : ℕ → SessionMonitor → Option (List TimedMsg × SessionMonitor)
unfolding timeouts
tick_timeouts elapsed m = elim (tick elapsed m.tasks) [
  | none ↦ none
  | some (fired, t) ↦ some (timeouts m.data_of fired, record m { tasks = t })
]
