-- ===== src/TaskExecutor.antt =====
-- million/src/task_executor.cpp: the coroutines of one service, keyed by the session that each waits
-- for. The build is one with NDEBUG; log lines have no effect on the state. `Effect` is what the
-- executor asks of the session monitor and of the service manager.
pub mod Keyed
pub mod Resume
pub mod Others
pub mod Tests
use million.Prelude.{
  ℕ, Bool, true, false, not, Option, none, some, List, [], ◌∷◌, ◌++◌, ◌==◌, if◌then◌else◌,
}
use million.Prelude.Maps.{find, erase, emplace, assign, contains}
use million.Session.{session_id_invalid, session_never_timeout}
use million.Message.{MessagePointer, Message, null, holds}
use million.Task.{Coroutine, finished, suspended, SessionAwaiter, done, has_exception, resume}

pub record TaskElement : Type 0 where
  pub sender : ℕ
  pub session_id : ℕ
  pub task : Coroutine

pub data Effect : Type 0 where
  -- SessionMonitor::AddSession(service, session, timeout).
  add_session : ℕ → ℕ → Effect
  -- ServiceMgr::Send(this service, target, session, msg).
  send : ℕ → ℕ → Message → Effect
  -- ServiceCore::Exit: a ServiceExitMsg to this service, under a new session.
  exit_self : Effect

-- tasks_.
abbrev pub Tasks : Type 0
Tasks = List (ℕ × TaskElement)

-- What the public `TrySchedule` returns: the message that nothing waits for, a task that is
-- done, or a pointer to one that waits again (its key; `none` for nullptr).
pub data Scheduled : Type 0 where
  unhandled : MessagePointer → Scheduled
  completed : TaskElement → Scheduled
  waiting : Option ℕ → Scheduled

-- `timeout_s != kSessionNeverTimeout`.
unfoldable pub monitor : ℕ → ℕ → List Effect
monitor id timeout_s =
    if timeout_s == session_never_timeout then [] else add_session id timeout_s ∷ []

-- Push(id, ele): the tasks after it, its effects and the pointer that it returns. An element that
-- is refused is destroyed with the caller's temporary.
unfoldable pub push : ℕ → ℕ → TaskElement → Tasks → Tasks × List Effect × Option ℕ
unfolding monitor
push id timeout_s ele tasks =
    if id == session_id_invalid
    then (tasks, [], none)
    else (emplace id ele tasks, monitor id timeout_s, (if contains id tasks then none else some id))

-- RePush(old_id, new_id).
unfoldable pub re_push : ℕ → ℕ → ℕ → Tasks → Tasks × List Effect × Option ℕ
unfolding push
re_push old_id new_id timeout_s tasks = elim (find old_id tasks) [
  | none ↦ (tasks, [], none)
  | some ele ↦ push new_id timeout_s ele (erase old_id tasks)
]

store_task : Coroutine → TaskElement → Tasks → Tasks × List Effect × Option TaskElement
unfolding push
store_task (finished o) ele tasks = (tasks, [], some ele)
store_task (suspended a k) ele tasks =
    let (tasks', effects, _) = push a.waiting_session_id a.timeout_s ele tasks in
    (tasks', effects, none)

-- AddTask: a task that already waits is stored, any other is handed back.
unfoldable pub add_task : TaskElement → Tasks → Tasks × List Effect × Option TaskElement
unfolding store_task
add_task ele tasks = store_task ele.task ele tasks

unfoldable pub task_queue_is_empty : Tasks → Bool
task_queue_is_empty [] = true
task_queue_is_empty (t ∷ ts) = false

-- A message for another session than the one that the task waits for; a null message is a timeout.
is_mismatch : Coroutine → ℕ → MessagePointer → Bool
is_mismatch (suspended a k) session_id (holds m) = not (a.waiting_session_id == session_id)
is_mismatch _ session_id msg = false

-- The private `TrySchedule(ele, session_id, msg)`: the element after it.
unfoldable pub try_schedule_element : TaskElement → ℕ → MessagePointer → TaskElement
unfolding is_mismatch resume
try_schedule_element ele session_id msg =
    if is_mismatch ele.task session_id msg then ele else record ele { task = resume ele.task msg }

settle_task : Coroutine → ℕ → TaskElement → Tasks → Tasks × List Effect × Scheduled
unfolding re_push
settle_task (finished o) session_id ele tasks = (erase session_id tasks, [], completed ele)
settle_task (suspended a k) session_id ele tasks =
    let (tasks', effects, p) =
      re_push session_id a.waiting_session_id a.timeout_s (assign session_id ele tasks) in
    (tasks', effects, waiting p)

-- The public `TrySchedule(session_id, msg)`.
unfoldable pub try_schedule : ℕ → MessagePointer → Tasks → Tasks × List Effect × Scheduled
unfolding try_schedule_element settle_task
try_schedule session_id msg tasks = elim (find session_id tasks) [
  | none ↦ (tasks, [], unhandled msg)
  | some ele ↦
      let ele' = try_schedule_element ele session_id msg in
      settle_task ele'.task session_id ele' tasks
]

settle_timeout : Coroutine → ℕ → TaskElement → Tasks → Tasks × List Effect × Option ℕ × Bool
unfolding re_push
settle_timeout (finished o) session_id ele tasks =
    (erase session_id tasks, [], none, has_exception (finished o))
settle_timeout (suspended a k) session_id ele tasks =
    let (tasks', effects, p) =
      re_push session_id a.waiting_session_id a.timeout_s (assign session_id ele tasks) in
    (tasks', effects, p, false)

-- TaskTimeout(session_id): the pointer that it returns, and whether the task ended by an exception.
unfoldable pub task_timeout : ℕ → Tasks → Tasks × List Effect × Option ℕ × Bool
unfolding try_schedule_element settle_timeout
task_timeout session_id tasks = elim (find session_id tasks) [
  | none ↦ (tasks, [], none, false)
  | some ele ↦
      let ele' = try_schedule_element ele session_id null in
      settle_timeout ele'.task session_id ele' tasks
]
