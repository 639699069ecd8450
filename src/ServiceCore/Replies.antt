-- ===== src/ServiceCore/Replies.antt =====
-- Calls between services, and the services that can no longer answer, in service_core.cpp.
use million.Prelude.{ℕ, false, some, [], ◌∷◌, ◌≡◌, refl, arith, ◌<◌, ◌^◌}
use million.Prelude.Maps.{find, erase}
use million.Session.{session_send_to_reply_id}
use million.Session.Flag.{reply_to_send-send_to_reply, is_send_of_lt}
use million.Message.{Message, null, holds, session_timeout_msg, user_msg}
use million.Task.{
  Coroutine, finished, suspended, Outcome, exception, result, SessionAwaiter, Resumption, resumed,
  aborted,
}
use million.TaskExecutor.{TaskElement, send, exit_self, add_task}
use million.TaskExecutor.Keyed.{IsKeyed}
use million.TaskExecutor.Others.{other_tasks_unchanged}
use million.TaskExecutor.Resume.{
  add_task_finished, try_schedule_completes, task_timeout_completes, at_task,
}
use million.ServiceCore.Dispatch.{finish_launch_tasks}
use million.ServiceCore.{
  running, stopped, ServiceCore, IService, MessageElement, launch, schedule, process_timeout,
  process_user, process_msg, dispatch, reply_msg, finish_launch, finish_schedule,
}

abbrev pub user_element : ℕ → ℕ → ℕ → ℕ → MessageElement
user_element sender session_id key contents = record {
  sender = sender;
  session_id = session_id;
  message = user_msg key contents;
}

-- A running service whose handler is done at once with a message answers the sender under the
-- session of the call, flagged as a reply, and changes nothing else.
callee_answers :
    (i : IService) (b : ServiceCore) (caller session_id key contents : ℕ) (m : Message)
    → b.stage ≡ running
    → session_id < 2 ^ 63
    → i.on_msg caller session_id (user_msg key contents) ≡ finished (result (holds m))
    → process_msg i (user_element caller session_id key contents) b
      ≡ (b, send caller (session_send_to_reply_id session_id) m ∷ [])
unfolding process_msg dispatch process_user launch finish_launch reply_msg
callee_answers i b caller session_id key contents m r lt e =
    let flags = reply_to_send-send_to_reply session_id lt in
    let task = finished (result (holds m)) in
    ground (
      arith,
      flags,
      is_send_of_lt session_id lt,
      add_task_finished (record { sender = caller; session_id = session_id; task = task }) b.tasks
          (result (holds m)) refl,
    )

-- A reply that reaches a running service resumes the task that waits for its session.
caller_resumes :
    (i : IService) (s : ServiceCore) (callee session_id key contents : ℕ) (ele : TaskElement)
    (a : SessionAwaiter) (k : Resumption → Coroutine) (o : Outcome)
    → s.stage ≡ running
    → session_id < 2 ^ 63
    → IsKeyed s.tasks
    → find session_id s.tasks ≡ some ele
    → ele.task ≡ suspended a k
    → k (resumed (holds (user_msg key contents))) ≡ finished o
    → process_msg i (user_element callee (session_send_to_reply_id session_id) key contents) s
      ≡ (record s { tasks = erase session_id s.tasks }, reply_msg (at_task ele (finished o)))
unfolding process_msg dispatch process_user schedule finish_schedule
caller_resumes i s callee session_id key contents ele a k o r lt h e t f =
    let flags = reply_to_send-send_to_reply session_id lt in
    ground (
      arith,
      flags,
      try_schedule_completes session_id (user_msg key contents) s.tasks ele a k o h e t f,
    )

-- A call between two running services. The callee's handler is done at once with a message: the
-- callee sends exactly this message to the caller under the session of the call, flagged as a
-- reply. When the caller processes it, the coroutine that waits for the session is resumed with
-- it; if that ends it, it is taken out of the tasks, and whoever called the caller is answered.
pub call_round_trip :
    (i j : IService) (caller callee : ServiceCore) (session_id key contents key' contents' : ℕ)
    (ele : TaskElement) (a : SessionAwaiter) (k : Resumption → Coroutine) (o : Outcome)
    → caller.stage ≡ running
    → callee.stage ≡ running
    → session_id < 2 ^ 63
    → IsKeyed caller.tasks
    → find session_id caller.tasks ≡ some ele
    → ele.task ≡ suspended a k
    → j.on_msg caller.service_id session_id (user_msg key contents)
      ≡ finished (result (holds (user_msg key' contents')))
    → k (resumed (holds (user_msg key' contents'))) ≡ finished o
    → (process_msg j (user_element caller.service_id session_id key contents) callee ≡ (
      callee,
      send caller.service_id (session_send_to_reply_id session_id) (user_msg key' contents') ∷ [],
    ))
      × (process_msg i
            (user_element callee.service_id (session_send_to_reply_id session_id) key' contents')
            caller
          ≡ (
            record caller { tasks = erase session_id caller.tasks },
            reply_msg (at_task ele (finished o)),
          ))
call_round_trip i j caller callee session_id key contents key' contents' ele a k o rc re lt h e t f
      g =
    (
      callee_answers j callee caller.service_id session_id key contents (user_msg key' contents') re
          lt f,
      caller_resumes i caller callee.service_id session_id key' contents' ele a k o rc lt h e t g,
    )

-- A running service is stopped, and asks itself to exit, when a session times out that one of its
-- tasks waits for without `or_null`, unless the task catches the exception.
pub uncaught_timeout_stops :
    (i : IService) (s : ServiceCore) (sender session_id timeout_id : ℕ) (ele : TaskElement)
    (a : SessionAwaiter) (k : Resumption → Coroutine)
    → s.stage ≡ running
    → find timeout_id s.tasks ≡ some ele
    → ele.task ≡ suspended a k
    → a.or_null ≡ false
    → k aborted ≡ finished exception
    → process_msg i
        (record {
          sender = sender;
          session_id = session_id;
          message = session_timeout_msg timeout_id;
        })
        s
      ≡ (record s { stage = stopped; tasks = erase timeout_id s.tasks }, exit_self ∷ [])
unfolding process_msg dispatch process_timeout
uncaught_timeout_stops i s sender session_id timeout_id ele a k r e t n f =
    ground (arith, task_timeout_completes timeout_id s.tasks ele a k exception e t (rw n f))

-- A running service takes a message under a session without the reply flag for a new one: whatever
-- its handler does, every task that waits, for this session too, goes on waiting.
pub new_message_wakes_none :
    (i : IService) (s : ServiceCore) (sender session_id key contents j : ℕ) (waiter : TaskElement)
    → s.stage ≡ running
    → session_id < 2 ^ 63
    → find j s.tasks ≡ some waiter
    → find j (process_msg i (user_element sender session_id key contents) s).0.tasks ≡ some waiter
unfolding process_msg dispatch process_user launch
new_message_wakes_none i s sender session_id key contents j waiter r lt e =
    let task = i.on_msg sender session_id (user_msg key contents) in
    let ele : TaskElement = record { sender = sender; session_id = session_id; task = task } in
    let added = add_task ele s.tasks in
    ground (
      arith,
      is_send_of_lt session_id lt,
      reply_to_send-send_to_reply session_id lt,
      finish_launch_tasks running added.2 added.0 added.1 s,
      (other_tasks_unchanged 0 j null ele waiter s.tasks e).2,
    )
