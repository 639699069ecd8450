-- ===== src/TaskExecutor/Tests.antt =====
-- Runs of task_executor.cpp: a task that waits for session 5 and then for session 6.
use million.Prelude.{◌≡◌, ◌≢◌, ℕ, some, refl, arith, [], ◌∷◌, true, false}
use million.Prelude.Maps.{find, emplace}
use million.Message.{Message, holds, user_msg}
use million.Task.{
  Coroutine, finished, suspended, SessionAwaiter, Resumption, resumed, aborted, exception, result,
}
use million.TaskExecutor.{TaskElement, add_task, try_schedule, task_timeout}
use million.TaskExecutor.Keyed.{IsKeyed}
use million.TaskExecutor.Others.{other_tasks_unchanged}

abbrev pub wait_five : SessionAwaiter
wait_five = record { waiting_session_id = 5; timeout_s = 0; or_null = false }

abbrev pub wait_six : SessionAwaiter
wait_six = record { waiting_session_id = 6; timeout_s = 3; or_null = true }

-- Ends with the message that it gets, and by an exception on a timeout.
abbrev pub echo : Resumption → Coroutine
echo aborted = finished exception
echo (resumed m) = finished (result m)

-- Waits for session 6 after session 5.
abbrev pub relay : Resumption → Coroutine
relay aborted = finished exception
relay (resumed m) = suspended wait_six echo

abbrev pub echo_task : TaskElement
echo_task = record { sender = 9; session_id = 77; task = suspended wait_five echo }

abbrev pub relay_task : TaskElement
relay_task = record { sender = 9; session_id = 78; task = suspended wait_five relay }

abbrev pub six_task : TaskElement
six_task = record { sender = 8; session_id = 79; task = suspended wait_six echo }

abbrev pub hello : Message
hello = user_msg 1 42

pub echo-IsKeyed : IsKeyed ((5, echo_task) ∷ [])
unfolding find
echo-IsKeyed id ele e = ground arith

relay-IsKeyed : IsKeyed ((5, relay_task) ∷ [])
unfolding find
relay-IsKeyed id ele e = ground arith

relay_six-IsKeyed : IsKeyed ((5, relay_task) ∷ (6, six_task) ∷ [])
unfolding find
relay_six-IsKeyed id ele e = ground arith

stored : (add_task echo_task []).0 ≡ (5, echo_task) ∷ []
unfolding add_task emplace
stored = refl

-- A reply for session 5, next to a task that waits for session 6.
other_tasks_unchanged_example :
    (◌≢◌ {A = ℕ} 6 5
      → find 6 (try_schedule 5 (holds hello) ((5, relay_task) ∷ (6, six_task) ∷ [])).0
        ≡ some six_task)
    × (◌≢◌ {A = ℕ} 6 5
        → find 6 (task_timeout 5 ((5, relay_task) ∷ (6, six_task) ∷ [])).0 ≡ some six_task)
    × (find 6 (add_task echo_task ((5, relay_task) ∷ (6, six_task) ∷ [])).0 ≡ some six_task)
unfolding find
other_tasks_unchanged_example =
    other_tasks_unchanged 5 6 (holds hello) echo_task six_task
      ((5, relay_task) ∷ (6, six_task) ∷ []) refl
