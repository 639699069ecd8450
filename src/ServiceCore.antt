-- ===== src/ServiceCore.antt =====
-- million/src/service_core.cpp: one service, its stage, its message queue and its coroutines. The
-- handlers of the service are parameters. Methods run to their end one after another, as the
-- worker holds the service while it processes; `Effect` is what they ask of the other components.
pub mod Dispatch
pub mod Stages
pub mod Replies
pub mod Queue
pub mod Stuck
pub mod Kept
pub mod Moves
pub mod Separate
pub mod Tests
use million.Prelude.{
  ℕ, zero, suc, Bool, true, false, not, ◌&&◌, ◌||◌, Option, none, some, List, [], ◌∷◌, ◌++◌,
  if◌then◌else◌,
}
use million.Session.{
  session_send_to_reply_id, session_reply_to_send_id, session_is_reply_id, session_is_send_id,
}
use million.Message.{
  MessagePointer, Message, null, holds, service_start_msg, service_stop_msg, service_exit_msg,
  session_timeout_msg, user_msg, is_exit_msg,
}
use million.Task.{Coroutine, finished, suspended, Outcome, exception, no_result, result}
use million.TaskExecutor.{
  Tasks, TaskElement, Effect, send, exit_self, Scheduled, unhandled, completed, waiting, add_task,
  try_schedule, task_timeout, task_queue_is_empty,
}

pub data ServiceStage : Type 0 where
  ready starting running stopping stopped exited : ServiceStage

-- MessageElementWithStrongSender; its message is never null.
pub record MessageElement : Type 0 where
  pub sender : ℕ
  pub session_id : ℕ
  pub message : Message

pub record ServiceCore : Type 0 where
  pub service_id : ℕ
  pub stage : ServiceStage
  pub in_queue : Bool
  pub msgs : List MessageElement
  pub tasks : Tasks
  pub separate_worker : Bool

-- OnStart, OnStop and OnMsg of the IService, called with the sender, the session and the message.
pub record IService : Type 0 where
  pub on_start : ℕ → ℕ → MessagePointer → Coroutine
  pub on_stop : ℕ → ℕ → MessagePointer → Coroutine
  pub on_msg : ℕ → ℕ → Message → Coroutine

abbrev pub is_ready : ServiceStage → Bool
is_ready ready = true
is_ready _ = false

abbrev pub is_starting : ServiceStage → Bool
is_starting starting = true
is_starting _ = false

abbrev pub is_running : ServiceStage → Bool
is_running running = true
is_running _ = false

abbrev pub is_stopping : ServiceStage → Bool
is_stopping stopping = true
is_stopping _ = false

abbrev pub is_stopped : ServiceStage → Bool
is_stopped stopped = true
is_stopped _ = false

abbrev pub is_exited : ServiceStage → Bool
is_exited exited = true
is_exited _ = false

-- PushMsg: whether the message was taken, and the service after it. The wake-up of a separate
-- worker is not part of the state.
unfoldable pub push_msg : MessageElement → ServiceCore → Bool × ServiceCore
push_msg ele s =
    if not (is_ready s.stage)
      && not (is_starting s.stage)
      && not (is_running s.stage)
      && not (is_exit_msg ele.message)
    then (false, s)
    else (true, record s { msgs = s.msgs ++ ele ∷ [] })

pop_front : List MessageElement → ServiceCore → Option (MessageElement × ServiceCore)
pop_front [] s = none
pop_front (ele ∷ rest) s = some (ele, record s { msgs = rest })

-- PopMsg.
unfoldable pub pop_msg : ServiceCore → Option (MessageElement × ServiceCore)
unfolding pop_front
pop_msg s = pop_front s.msgs s

is_nil : List MessageElement → Bool
is_nil [] = true
is_nil (ele ∷ rest) = false

-- MsgQueueIsEmpty.
unfoldable pub msg_queue_is_empty : ServiceCore → Bool
unfolding is_nil
msg_queue_is_empty s = is_nil s.msgs

-- TaskExecutorIsEmpty.
unfoldable pub task_executor_is_empty : ServiceCore → Bool
unfolding task_queue_is_empty
task_executor_is_empty s = task_queue_is_empty s.tasks

reply_outcome : Coroutine → ℕ → ℕ → List Effect
reply_outcome (finished (result (holds m))) sender session_id =
    send sender (session_send_to_reply_id session_id) m ∷ []
reply_outcome _ sender session_id = []

-- ReplyMsg: nothing after an exception, with no result, or for a null result.
unfoldable pub reply_msg : TaskElement → List Effect
unfolding reply_outcome
reply_msg ele = reply_outcome ele.task ele.sender ele.session_id

-- `excutor_.AddTask` has handed the task back if it is done: go to `next` and reply.
unfoldable pub finish_launch :
    ServiceStage
    → Option TaskElement
    → Tasks
    → List Effect
    → ServiceCore
    → ServiceCore × List Effect
finish_launch next none tasks effects s = (record s { tasks = tasks }, effects)
finish_launch next (some ele) tasks effects s =
    (record s { tasks = tasks; stage = next }, effects ++ reply_msg ele)

-- A handler has returned `task`.
unfoldable pub launch : ServiceStage → ℕ → ℕ → Coroutine → ServiceCore → ServiceCore × List Effect
unfolding finish_launch
launch next sender session_id task s =
    let ele : TaskElement = record { sender = sender; session_id = session_id; task = task } in
    let (tasks, effects, back) = add_task ele s.tasks in finish_launch next back tasks effects s

-- ServiceStartMsg.
unfoldable pub process_start :
    IService → ℕ → ℕ → MessagePointer → ServiceCore → ServiceCore × List Effect
process_start i sender session_id with_msg s =
    if not (is_ready s.stage) && not (is_stopped s.stage)
    then (s, [])
    else let s' = record s { stage = starting } in
      if not (session_is_send_id session_id)
      then (s', [])
      else launch running sender session_id (i.on_start sender session_id with_msg) s'

-- ServiceStopMsg.
unfoldable pub process_stop :
    IService → ℕ → ℕ → MessagePointer → ServiceCore → ServiceCore × List Effect
process_stop i sender session_id with_msg s =
    if not (is_running s.stage)
    then (s, [])
    else let s' = record s { stage = stopping } in
      if not (session_is_send_id session_id)
      then (s', [])
      else launch stopped sender session_id (i.on_stop sender session_id with_msg) s'

-- ServiceExitMsg; what OnExit throws is caught.
unfoldable pub process_exit : ServiceCore → ServiceCore × List Effect
process_exit s = if not (is_stopped s.stage) then (s, []) else (record s { stage = exited }, [])

-- SessionTimeoutMsg.
unfoldable pub process_timeout : ℕ → ServiceCore → ServiceCore × List Effect
process_timeout timeout_id s =
    let (tasks, effects, _, has_exception) = task_timeout timeout_id s.tasks in
    if is_starting s.stage || is_stopping s.stage || has_exception
    then (record s { tasks = tasks; stage = stopped }, effects ++ exit_self ∷ [])
    else (record s { tasks = tasks }, effects)

-- What the callers of `excutor_.TrySchedule` do with its result: only a task that is done counts.
unfoldable pub finish_schedule :
    ServiceStage → Scheduled → Tasks → List Effect → ServiceCore → ServiceCore × List Effect
finish_schedule next (unhandled m) tasks effects s = (record s { tasks = tasks }, effects)
finish_schedule next (waiting p) tasks effects s = (record s { tasks = tasks }, effects)
finish_schedule next (completed ele) tasks effects s =
    (record s { tasks = tasks; stage = next }, effects ++ reply_msg ele)

-- A reply is offered to the tasks: go to `next` and answer the caller if one is done by it.
unfoldable pub schedule : ServiceStage → ℕ → Message → ServiceCore → ServiceCore × List Effect
unfolding finish_schedule
schedule next session_id msg s =
    let (tasks, effects, res) =
      try_schedule (session_reply_to_send_id session_id) (holds msg) s.tasks in
    finish_schedule next res tasks effects s

-- A message that is none of the framework's own, by stage.
unfoldable pub process_user :
    ServiceStage → IService → ℕ → ℕ → Message → ServiceCore → ServiceCore × List Effect
process_user starting i sender session_id msg s =
    if not (session_is_reply_id session_id) then (s, []) else schedule running session_id msg s
process_user stopping i sender session_id msg s =
    if not (session_is_reply_id session_id) then (s, []) else schedule stopped session_id msg s
process_user running i sender session_id msg s =
    if session_is_reply_id session_id
    then schedule running session_id msg s
    else if session_is_send_id session_id
    then launch running sender session_id (i.on_msg sender session_id msg) s
    else (s, [])
process_user _ i sender session_id msg s = (s, [])

dispatch : Message → IService → ℕ → ℕ → ServiceCore → ServiceCore × List Effect
dispatch (service_start_msg with_msg) i sender session_id s =
    process_start i sender session_id with_msg s
dispatch (service_stop_msg with_msg) i sender session_id s =
    process_stop i sender session_id with_msg s
dispatch service_exit_msg i sender session_id s = process_exit s
dispatch (session_timeout_msg timeout_id) i sender session_id s = process_timeout timeout_id s
dispatch (user_msg key contents) i sender session_id s =
    process_user s.stage i sender session_id (user_msg key contents) s

-- ProcessMsg.
unfoldable pub process_msg : IService → MessageElement → ServiceCore → ServiceCore × List Effect
unfolding dispatch
process_msg i ele s = dispatch ele.message i ele.sender ele.session_id s

-- ProcessMsgs(count). The handlers of message number n are those of `i n`, since a service has a
-- state of its own that its handlers change.
unfoldable pub process_msgs : ℕ → (ℕ → IService) → ServiceCore → ServiceCore × List Effect
process_msgs zero i s = (s, [])
process_msgs (suc count) i s =
    let rest = λ (t : ServiceCore). process_msgs count (λ n. i (suc n)) t in
    if is_exited s.stage then (s, []) else elim (pop_msg s) [
      | none ↦ (s, [])
      | some (ele, t) ↦
          let (t', effects) = process_msg (i 0) ele t in
          let (u, more) = rest t' in (u, effects ++ more)
    ]
