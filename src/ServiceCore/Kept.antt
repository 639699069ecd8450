-- ===== src/ServiceCore/Kept.antt =====
-- What the handlers and ProcessMsgs of million/src/service_core.cpp leave of the queue.
use million.Prelude.{
  ℕ, zero, suc, ◌≡◌, ◌⊎◌, true, false, not, ◌&&◌, ◌||◌, Option, none, some, List, [], ◌∷◌, ◌++◌,
  length, refl, inl, inr, Bool-cases,
}
use million.Session.{session_is_send_id, session_is_reply_id, session_reply_to_send_id}
use million.Message.{
  Message, service_start_msg, service_stop_msg, service_exit_msg, session_timeout_msg, user_msg,
  MessagePointer, holds,
}
use million.Task.{Coroutine}
use million.TaskExecutor.{
  Effect, TaskElement, Tasks, Scheduled, unhandled, waiting, completed, add_task, try_schedule,
  task_timeout,
}
use million.ServiceCore.{
  ServiceStage, ready, starting, running, stopping, stopped, exited, MessageElement, ServiceCore,
  IService, is_ready, is_starting, is_running, is_stopping, is_stopped, finish_launch, launch,
  process_start, process_stop, process_exit, process_timeout, finish_schedule, schedule,
  process_user, dispatch, process_msg, process_msgs, pop_msg, pop_front, is_exited,
}

finish_launch-msgs :
    (next : ServiceStage) (back : Option TaskElement) (tasks : Tasks) (effects : List Effect)
    (s : ServiceCore)
    → (finish_launch next back tasks effects s).0.msgs ≡ s.msgs
unfolding finish_launch
finish_launch-msgs next none tasks effects s = refl
finish_launch-msgs next (some ele) tasks effects s = refl

finish_schedule-msgs :
    (next : ServiceStage) (r : Scheduled) (tasks : Tasks) (effects : List Effect) (s : ServiceCore)
    → (finish_schedule next r tasks effects s).0.msgs ≡ s.msgs
unfolding finish_schedule
finish_schedule-msgs next (unhandled m) tasks effects s = refl
finish_schedule-msgs next (waiting p) tasks effects s = refl
finish_schedule-msgs next (completed ele) tasks effects s = refl

launch-msgs :
    (next : ServiceStage) (sender session_id : ℕ) (task : Coroutine) (s : ServiceCore)
    → (launch next sender session_id task s).0.msgs ≡ s.msgs
unfolding launch
launch-msgs next sender session_id task s =
    let ele : TaskElement = record { sender = sender; session_id = session_id; task = task } in
    let (tasks, effects, back) = add_task ele s.tasks in
    finish_launch-msgs next back tasks effects s

schedule-msgs :
    (next : ServiceStage) (session_id : ℕ) (msg : Message) (s : ServiceCore)
    → (schedule next session_id msg s).0.msgs ≡ s.msgs
unfolding schedule
schedule-msgs next session_id msg s =
    let (tasks, effects, res) =
      try_schedule (session_reply_to_send_id session_id) (holds msg) s.tasks in
    finish_schedule-msgs next res tasks effects s

process_start-msgs :
    (i : IService) (sender session_id : ℕ) (m : MessagePointer) (s : ServiceCore)
    → (process_start i sender session_id m s).0.msgs ≡ s.msgs
unfolding process_start
process_start-msgs i sender session_id m s =
    elim (Bool-cases (not (is_ready s.stage) && not (is_stopped s.stage))) [
      | inl t ↦ rw (process_start, t) refl
      | inr t ↦ elim (Bool-cases (not (session_is_send_id session_id))) [
        | inl k ↦ rw (process_start, t, k) refl
        | inr k ↦
            rw (process_start, t, k)
              (launch-msgs running sender session_id (i.on_start sender session_id m)
                (record s { stage = starting }))
      ]
    ]

process_stop-msgs :
    (i : IService) (sender session_id : ℕ) (m : MessagePointer) (s : ServiceCore)
    → (process_stop i sender session_id m s).0.msgs ≡ s.msgs
unfolding process_stop
process_stop-msgs i sender session_id m s = elim (Bool-cases (not (is_running s.stage))) [
  | inl t ↦ rw (process_stop, t) refl
  | inr t ↦ elim (Bool-cases (not (session_is_send_id session_id))) [
    | inl k ↦ rw (process_stop, t, k) refl
    | inr k ↦
        rw (process_stop, t, k)
          (launch-msgs stopped sender session_id (i.on_stop sender session_id m)
            (record s { stage = stopping }))
  ]
]

process_user-msgs :
    (stage : ServiceStage) (i : IService) (sender session_id : ℕ) (m : Message) (s : ServiceCore)
    → (process_user stage i sender session_id m s).0.msgs ≡ s.msgs
unfolding process_user
process_user-msgs starting i sender session_id m s =
    elim (Bool-cases (not (session_is_reply_id session_id))) [
      | inl t ↦ rw (process_user, t) refl
      | inr t ↦ rw (process_user, t) (schedule-msgs running session_id m s)
    ]
process_user-msgs stopping i sender session_id m s =
    elim (Bool-cases (not (session_is_reply_id session_id))) [
      | inl t ↦ rw (process_user, t) refl
      | inr t ↦ rw (process_user, t) (schedule-msgs stopped session_id m s)
    ]
process_user-msgs running i sender session_id m s =
    elim (Bool-cases (session_is_reply_id session_id)) [
      | inl t ↦ rw (process_user, t) (schedule-msgs running session_id m s)
      | inr t ↦ elim (Bool-cases (session_is_send_id session_id)) [
        | inl k ↦
            rw (process_user, t, k)
              (launch-msgs running sender session_id (i.on_msg sender session_id m) s)
        | inr k ↦ rw (process_user, t, k) refl
      ]
    ]
process_user-msgs ready i sender session_id m s = refl
process_user-msgs stopped i sender session_id m s = refl
process_user-msgs exited i sender session_id m s = refl

process_exit-msgs : (s : ServiceCore) → (process_exit s).0.msgs ≡ s.msgs
unfolding process_exit
process_exit-msgs s = elim (Bool-cases (not (is_stopped s.stage))) [
  | inl t ↦ rw (process_exit, t) refl
  | inr t ↦ rw (process_exit, t) refl
]

process_timeout-msgs :
    (timeout_id : ℕ) (s : ServiceCore) → (process_timeout timeout_id s).0.msgs ≡ s.msgs
unfolding process_timeout
process_timeout-msgs timeout_id s =
    let (tasks, effects, p, has_exception) = task_timeout timeout_id s.tasks in
    elim (Bool-cases (is_starting s.stage || is_stopping s.stage || has_exception)) [
      | inl t ↦ rw (process_timeout, t) refl
      | inr t ↦ rw (process_timeout, t) refl
    ]

-- A message that is processed leaves the queue as it is.
dispatch-msgs :
    (m : Message) (i : IService) (sender session_id : ℕ) (s : ServiceCore)
    → (dispatch m i sender session_id s).0.msgs ≡ s.msgs
unfolding dispatch
dispatch-msgs (service_start_msg m) i sender session_id s =
    process_start-msgs i sender session_id m s
dispatch-msgs (service_stop_msg m) i sender session_id s = process_stop-msgs i sender session_id m s
dispatch-msgs service_exit_msg i sender session_id s = process_exit-msgs s
dispatch-msgs (session_timeout_msg t) i sender session_id s = process_timeout-msgs t s
dispatch-msgs (user_msg key contents) i sender session_id s =
    process_user-msgs s.stage i sender session_id (user_msg key contents) s

pub process_msg-msgs :
    (i : IService) (ele : MessageElement) (s : ServiceCore) → (process_msg i ele s).0.msgs ≡ s.msgs
unfolding process_msg
process_msg-msgs i ele s = dispatch-msgs ele.message i ele.sender ele.session_id s

pub next_popped :
    (ele : MessageElement) (rest : List MessageElement) (s : ServiceCore)
    → s.msgs ≡ ele ∷ rest
    → pop_msg s ≡ some (ele, record s { msgs = rest })
unfolding pop_msg pop_front
next_popped ele rest s e = rw (pop_msg, e) refl

pub none_popped : (s : ServiceCore) → s.msgs ≡ [] → pop_msg s ≡ none
unfolding pop_msg pop_front
none_popped s e = rw (pop_msg, e) refl

-- One message of ProcessMsgs.
pub process_msgs-suc :
    (count : ℕ) (i : ℕ → IService) (ele : MessageElement) (s u : ServiceCore)
    → is_exited s.stage ≡ false
    → pop_msg s ≡ some (ele, u)
    → process_msgs (suc count) i s ≡ (
      (process_msgs count (λ n. i (suc n)) (process_msg (i 0) ele u).0).0,
      (process_msg (i 0) ele u).1
          ++ (process_msgs count (λ n. i (suc n)) (process_msg (i 0) ele u).0).1,
    )
unfolding process_msgs
process_msgs-suc count i ele s u live e = rw (live, e) refl

pub exited_processes_nothing :
    (count : ℕ) (i : ℕ → IService) (s : ServiceCore)
    → is_exited s.stage ≡ true
    → process_msgs count i s ≡ (s, [])
unfolding process_msgs
exited_processes_nothing zero i s e = refl
exited_processes_nothing (suc count) i s e = rw e refl

pub nothing_processed : (i : ℕ → IService) (s : ServiceCore) → process_msgs zero i s ≡ (s, [])
unfolding process_msgs
nothing_processed i s = refl

-- With as many messages as there are, ProcessMsgs leaves none, unless the service exits.
pub process_msgs_empties :
    (msgs : List MessageElement) (i : ℕ → IService) (s : ServiceCore)
    → s.msgs ≡ msgs
    → is_exited s.stage ≡ false
    → ((process_msgs (length msgs) i s).0.msgs ≡ [])
      ⊎ (is_exited (process_msgs (length msgs) i s).0.stage ≡ true)
process_msgs_empties [] i s e live = rw (nothing_processed i s) (inl e)
process_msgs_empties (ele ∷ rest) i s e live =
    let u = record s { msgs = rest } in
    let t = (process_msg (i 0) ele u).0 in
    let one = process_msgs-suc (length rest) i ele s u live (next_popped ele rest s e) in
    elim (Bool-cases (is_exited t.stage)) [
      | inl x ↦ rw (one, exited_processes_nothing (length rest) (λ k. i (suc k)) t x) (inr x)
      | inr x ↦
          rw one (process_msgs_empties rest (λ k. i (suc k)) t (process_msg-msgs (i 0) ele u) x)
    ]
