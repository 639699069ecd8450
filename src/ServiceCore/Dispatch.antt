-- ===== src/ServiceCore/Dispatch.antt =====
-- What a service of service_core.cpp accepts and hands to its handlers, stage by stage.
use million.Prelude.{
  ℕ, true, false, Option, none, List, [], ◌∷◌, ◌++◌, ◌≡◌, ◌≢◌, ◌⊎◌, ◌↔◌, refl, arith, sym, subst,
}
use million.Prelude.Maps.{find}
use million.Session.{session_is_send_id, session_reply_to_send_id}
use million.Message.{
  MessagePointer, Message, null, holds, service_start_msg, service_stop_msg, service_exit_msg,
  session_timeout_msg, user_msg,
}
use million.Task.{Coroutine, finished, Outcome}
use million.TaskExecutor.{
  Tasks, TaskElement, Effect, task_timeout, exit_self, add_task, try_schedule, Scheduled,
}
use million.TaskExecutor.Keyed.{
  IsKeyed, add_task-IsKeyed, try_schedule-IsKeyed, task_timeout-IsKeyed,
}
use million.TaskExecutor.Resume.{absent_session, add_task_finished}
use million.ServiceCore.{
  ServiceStage, ready, starting, running, stopping, stopped, ServiceCore, IService, MessageElement,
  launch, schedule, process_start, process_stop, process_exit, process_timeout, process_user,
  process_msg, dispatch, process_msgs, push_msg, reply_msg, finish_launch, finish_schedule,
}
use million.ServiceCore.Queue.{process_msgs_inv, pop_msg_keeps}

-- A message is taken exactly if the service is ready, starting or running, or the message asks it
-- to exit. A message that is taken goes to the end of the queue, and one that is not changes nothing.
pub push_msg_accepts :
    (ele : MessageElement) (s : ServiceCore)
    → (((push_msg ele s).0 ≡ true) ↔ (
        (s.stage ≡ ready)
        ⊎ (s.stage ≡ starting)
        ⊎ (s.stage ≡ running)
        ⊎ (ele.message ≡ service_exit_msg)))
      × ((push_msg ele s).0 ≡ true → (push_msg ele s).1 ≡ record s { msgs = s.msgs ++ ele ∷ [] })
      × ((push_msg ele s).0 ≡ false → (push_msg ele s).1 ≡ s)
unfolding push_msg
push_msg_accepts ele s = ground arith

-- Only a running service hands a message of a user to its handlers: in any other stage the outcome
-- does not depend on them.
pub user_msg_needs_running :
    (i j : IService) (sender session_id key contents : ℕ) (s : ServiceCore)
    → s.stage ≢ running
    → let ele : MessageElement = record {
      sender = sender;
      session_id = session_id;
      message = user_msg key contents;
    } in
      process_msg i ele s ≡ process_msg j ele s
unfolding process_msg dispatch process_user
user_msg_needs_running i j sender session_id key contents s h = ground arith

pub finish_launch_tasks :
    (next : ServiceStage) (back : Option TaskElement) (tasks : Tasks) (effects : List Effect)
    (s : ServiceCore)
    → (finish_launch next back tasks effects s).0.tasks ≡ tasks
unfolding finish_launch
finish_launch_tasks next back tasks effects s = ground arith

launch-IsKeyed :
    (next : ServiceStage) (sender session_id : ℕ) (task : Coroutine) (s : ServiceCore)
    → IsKeyed s.tasks
    → IsKeyed (launch next sender session_id task s).0.tasks
unfolding launch
launch-IsKeyed next sender session_id task s h =
    let ele : TaskElement = record { sender = sender; session_id = session_id; task = task } in
    subst IsKeyed
      (sym (finish_launch_tasks next (add_task ele s.tasks).2 _ (add_task ele s.tasks).1 s))
      (add_task-IsKeyed ele s.tasks h)

finish_schedule_tasks :
    (next : ServiceStage) (res : Scheduled) (tasks : Tasks) (effects : List Effect)
    (s : ServiceCore)
    → (finish_schedule next res tasks effects s).0.tasks ≡ tasks
unfolding finish_schedule
finish_schedule_tasks next res tasks effects s = ground arith

schedule-IsKeyed :
    (next : ServiceStage) (session_id : ℕ) (msg : Message) (s : ServiceCore)
    → IsKeyed s.tasks
    → IsKeyed (schedule next session_id msg s).0.tasks
unfolding schedule
schedule-IsKeyed next session_id msg s h =
    let id = session_reply_to_send_id session_id in
    let r = try_schedule id (holds msg) s.tasks in
    subst IsKeyed (sym (finish_schedule_tasks next r.2 r.0 r.1 s))
      (try_schedule-IsKeyed id (holds msg) s.tasks h)

process_timeout_tasks :
    (timeout_id : ℕ) (s : ServiceCore)
    → (process_timeout timeout_id s).0.tasks ≡ (task_timeout timeout_id s.tasks).0
unfolding process_timeout
process_timeout_tasks timeout_id s = ground arith

process_start-IsKeyed :
    (i : IService) (sender session_id : ℕ) (with_msg : MessagePointer) (s : ServiceCore)
    → IsKeyed s.tasks
    → IsKeyed (process_start i sender session_id with_msg s).0.tasks
unfolding process_start
process_start-IsKeyed i sender session_id with_msg s h id ele = ground (
  arith,
  h id ele,
  launch-IsKeyed running sender session_id (i.on_start sender session_id with_msg)
      (record s { stage = starting }) h id ele,
)

process_stop-IsKeyed :
    (i : IService) (sender session_id : ℕ) (with_msg : MessagePointer) (s : ServiceCore)
    → IsKeyed s.tasks
    → IsKeyed (process_stop i sender session_id with_msg s).0.tasks
unfolding process_stop
process_stop-IsKeyed i sender session_id with_msg s h id ele = ground (
  arith,
  h id ele,
  launch-IsKeyed stopped sender session_id (i.on_stop sender session_id with_msg)
      (record s { stage = stopping }) h id ele,
)

process_exit-IsKeyed : (s : ServiceCore) → IsKeyed s.tasks → IsKeyed (process_exit s).0.tasks
unfolding process_exit
process_exit-IsKeyed s h id ele = ground (arith, h id ele)

process_user-IsKeyed :
    (stage : ServiceStage) (i : IService) (sender session_id : ℕ) (msg : Message) (s : ServiceCore)
    → IsKeyed s.tasks
    → IsKeyed (process_user stage i sender session_id msg s).0.tasks
unfolding process_user
process_user-IsKeyed stage i sender session_id msg s h id ele = ground (
  arith,
  h id ele,
  launch-IsKeyed running sender session_id (i.on_msg sender session_id msg) s h id ele,
  schedule-IsKeyed running session_id msg s h id ele,
  schedule-IsKeyed stopped session_id msg s h id ele,
)

dispatch-IsKeyed :
    (m : Message) (i : IService) (sender session_id : ℕ) (s : ServiceCore)
    → IsKeyed s.tasks
    → IsKeyed (dispatch m i sender session_id s).0.tasks
unfolding dispatch
dispatch-IsKeyed (service_start_msg p) i sender session_id s h =
    process_start-IsKeyed i sender session_id p s h
dispatch-IsKeyed (service_stop_msg p) i sender session_id s h =
    process_stop-IsKeyed i sender session_id p s h
dispatch-IsKeyed service_exit_msg i sender session_id s h = process_exit-IsKeyed s h
dispatch-IsKeyed (session_timeout_msg id) i sender session_id s h =
    subst IsKeyed (sym (process_timeout_tasks id s)) (task_timeout-IsKeyed id s.tasks h)
dispatch-IsKeyed (user_msg key contents) i sender session_id s h =
    process_user-IsKeyed s.stage i sender session_id (user_msg key contents) s h

-- However many messages are processed, and whatever the handlers do, every stored task waits for
-- the session that it is stored under.
pub process_msgs-IsKeyed :
    (count : ℕ) (i : ℕ → IService) (s : ServiceCore)
    → IsKeyed s.tasks
    → IsKeyed (process_msgs count i s).0.tasks
unfolding process_msg
process_msgs-IsKeyed =
    process_msgs_inv (λ u. IsKeyed u.tasks)
      (λ j ele s t ne p h.
        dispatch-IsKeyed ele.message j ele.sender ele.session_id t
          (subst IsKeyed (sym (pop_msg_keeps s ele t p).1) h))

-- However OnStart ends if it ends at once, by an exception too, the service runs afterwards.
pub start_runs :
    (i : IService) (sender session_id : ℕ) (with_msg : MessagePointer) (o : Outcome)
    (s : ServiceCore)
    → (s.stage ≡ ready) ⊎ (s.stage ≡ stopped)
    → session_is_send_id session_id ≡ true
    → i.on_start sender session_id with_msg ≡ finished o
    → process_msg i
        (record { sender = sender; session_id = session_id; message = service_start_msg with_msg })
        s
      ≡ (
        record s { stage = running },
        reply_msg (record { sender = sender; session_id = session_id; task = finished o }),
      )
unfolding process_msg dispatch process_start launch
start_runs i sender session_id with_msg o s h f e =
    rw
      (
        e,
        add_task_finished (record { sender = sender; session_id = session_id; task = finished o })
            s.tasks o refl,
      )
      (ground arith)

-- A timeout that reaches a service while it starts or stops ends that at once, whatever session it
-- is for: the service is stopped, and asks itself to exit. No task needs to wait for the session.
pub stale_timeout_stops :
    (i : IService) (sender session_id timeout_id : ℕ) (s : ServiceCore)
    → (s.stage ≡ starting) ⊎ (s.stage ≡ stopping)
    → find timeout_id s.tasks ≡ none
    → process_msg i
        (record {
          sender = sender;
          session_id = session_id;
          message = session_timeout_msg timeout_id;
        })
        s
      ≡ (record s { stage = stopped }, exit_self ∷ [])
unfolding process_msg dispatch process_timeout
stale_timeout_stops i sender session_id timeout_id s h e =
    ground (arith, absent_session timeout_id null s.tasks e)
