-- ===== src/ServiceCore/Tests.antt =====
-- Runs of service_core.cpp: service 2 calls service 3 under session 5.
use million.Prelude.{ℕ, ◌≡◌, ◌⊎◌, ◌++◌, length, refl, arith, List, [], ◌∷◌, true, false}
use million.Prelude.Maps.{find, erase}
use million.Session.{session_send_to_reply_id}
use million.Message.{null, holds, service_start_msg, session_timeout_msg}
use million.Task.{finished, exception, no_result, result}
use million.TaskExecutor.{Tasks, Effect, send}
use million.TaskExecutor.Keyed.{IsKeyed}
use million.TaskExecutor.Resume.{at_task}
use million.TaskExecutor.Tests.{wait_five, echo, echo_task, hello, echo-IsKeyed}
use million.ServiceCore.{
  ServiceStage, running, stopping, ServiceCore, IService, MessageElement, process_msg, process_msgs,
  reply_msg, is_exited,
}
use million.ServiceCore.Dispatch.{process_msgs-IsKeyed}
use million.ServiceCore.Replies.{call_round_trip, user_element}
use million.ServiceCore.Separate.{push_msgs}
use million.ServiceCore.Moves.{Moves, process_msgs_move}
use million.ServiceCore.Stuck.{Event, pushes, processes, after_events, stopping_forever}

-- Every handler is done at once, and OnMsg answers with the message that it got.
abbrev pub echo_service : IService
echo_service = record {
  on_start = λ sender id m. finished exception;
  on_stop = λ sender id m. finished no_result;
  on_msg = λ sender id m. finished (result (holds m));
}

abbrev pub service_at : ServiceStage → Tasks → ServiceCore
service_at stage tasks = record {
  service_id = 2;
  stage = stage;
  in_queue = true;
  msgs = [];
  tasks = tasks;
  separate_worker = false;
}

abbrev start_element : MessageElement
start_element = record { sender = 9; session_id = 4; message = service_start_msg null }

abbrev timeout_element : ℕ → MessageElement
timeout_element id = record { sender = 2; session_id = 4; message = session_timeout_msg id }

abbrev silent_service : IService
silent_service = record echo_service { on_msg = λ sender id m. finished no_result }

process_msgs-IsKeyed_example :
    IsKeyed (process_msgs 2 (λ n. echo_service) (service_at running ((5, echo_task) ∷ []))).0.tasks
process_msgs-IsKeyed_example =
    process_msgs-IsKeyed 2 (λ n. echo_service) (service_at running ((5, echo_task) ∷ []))
      echo-IsKeyed

call_round_trip_example :
    (process_msg echo_service (user_element 2 5 1 42) (service_at running [])
      ≡ (service_at running [], send 2 (session_send_to_reply_id 5) hello ∷ []))
    × (process_msg echo_service
          (user_element 2 (session_send_to_reply_id 5) 1 42)
          (service_at running ((5, echo_task) ∷ []))
        ≡ (
          service_at running (erase 5 ((5, echo_task) ∷ [])),
          reply_msg (at_task echo_task (finished (result (holds hello)))),
        ))
unfolding find
call_round_trip_example =
    call_round_trip echo_service echo_service (service_at running ((5, echo_task) ∷ []))
      (service_at running []) 5 1 42 1 42 echo_task wait_five echo (result (holds hello)) refl refl
      (omega arith) echo-IsKeyed refl refl refl refl

abbrev reply_and_timeout : List Event
reply_and_timeout =
    pushes (user_element 3 0x8000000000000005 1 42)
    ∷ pushes (timeout_element 5)
    ∷ processes 2 (λ n. echo_service)
    ∷ []

stopping_forever_example :
    ((after_events reply_and_timeout (service_at stopping ((5, echo_task) ∷ []))).stage ≡ stopping)
    × ((after_events reply_and_timeout (service_at stopping ((5, echo_task) ∷ []))).tasks
        ≡ (5, echo_task) ∷ [])
stopping_forever_example =
    stopping_forever reply_and_timeout (service_at stopping ((5, echo_task) ∷ [])) refl tt

-- Two calls in the queue of a service with a thread of its own.
abbrev two_calls : ServiceCore
two_calls = record (service_at running []) {
  msgs = user_element 3 5 1 42 ∷ user_element 3 6 1 43 ∷ [];
  separate_worker = true;
}

-- A third call is pushed before the first turn; in the second there is nothing to do.
abbrev third_call : MessageElement
third_call = user_element 3 7 1 44

abbrev three_answered : ServiceCore × List Effect
three_answered = process_msgs 3 (λ n. echo_service) (push_msgs (third_call ∷ []) two_calls)

process_msgs_move_example :
    (taken : List MessageElement) × (two_calls.msgs
      ≡ taken ++ (process_msgs 1 (λ n. echo_service) two_calls).0.msgs)
    × Moves taken running (process_msgs 1 (λ n. echo_service) two_calls).0.stage
    × ((length taken ≡ 1)
        ⊎ ((process_msgs 1 (λ n. echo_service) two_calls).0.msgs ≡ [])
        ⊎ (is_exited (process_msgs 1 (λ n. echo_service) two_calls).0.stage ≡ true))
process_msgs_move_example = process_msgs_move 1 (λ n. echo_service) two_calls
