-- ===== src/TaskExecutor/Keyed.antt =====
-- Every stored task waits for the session that it is stored under.
use million.Prelude.{ℕ, some, ◌≡◌, arith, refl, inl, inr, Option-cases}
use million.Prelude.Maps.{find, erase, assign, find-erase, find-emplace, find-assign, erase-assign}
use million.Message.{MessagePointer}
use million.Task.{Coroutine, finished, suspended, waiting_on}
use million.TaskExecutor.{
  Tasks, TaskElement, push, re_push, add_task, store_task, try_schedule, settle_task,
  settle_timeout, task_timeout,
}

-- Every task of the executor waits for the session that it is stored under.
abbrev pub IsKeyed : Tasks → Type 0
IsKeyed tasks =
    (id : ℕ) (ele : TaskElement) → find id tasks ≡ some ele → waiting_on ele.task ≡ some id

erase-IsKeyed : (id : ℕ) (tasks : Tasks) → IsKeyed tasks → IsKeyed (erase id tasks)
erase-IsKeyed id tasks h j ele e = ground (arith, find-erase id j tasks, h j ele)

push-IsKeyed :
    (id timeout_s : ℕ) (ele : TaskElement) (tasks : Tasks)
    → waiting_on ele.task ≡ some id
    → IsKeyed tasks
    → IsKeyed (push id timeout_s ele tasks).0
unfolding push
push-IsKeyed id timeout_s ele tasks w h j e' e = ground (arith, find-emplace id j ele tasks, h j e')

-- What is put back after its resumption is moved to its new key.
pub re_push-assign :
    (old_id new_id timeout_s : ℕ) (ele : TaskElement) (tasks : Tasks)
    → re_push old_id new_id timeout_s (assign old_id ele tasks)
      ≡ push new_id timeout_s ele (erase old_id tasks)
unfolding re_push
re_push-assign old_id new_id timeout_s ele tasks =
    ground (arith, find-assign old_id old_id ele tasks, erase-assign old_id ele tasks)

settle_task-IsKeyed :
    (task : Coroutine) (id : ℕ) (ele : TaskElement) (tasks : Tasks)
    → ele.task ≡ task
    → IsKeyed tasks
    → IsKeyed (settle_task task id ele tasks).0
unfolding settle_task
settle_task-IsKeyed (finished o) id ele tasks e h = erase-IsKeyed id tasks h
settle_task-IsKeyed (suspended a k) id ele tasks e h =
    rw (re_push-assign id a.waiting_session_id a.timeout_s ele tasks) (
      push-IsKeyed a.waiting_session_id a.timeout_s ele (erase id tasks) (rw e refl)
        (erase-IsKeyed id tasks h))

settle_timeout-IsKeyed :
    (task : Coroutine) (id : ℕ) (ele : TaskElement) (tasks : Tasks)
    → ele.task ≡ task
    → IsKeyed tasks
    → IsKeyed (settle_timeout task id ele tasks).0
unfolding settle_timeout
settle_timeout-IsKeyed (finished o) id ele tasks e h = erase-IsKeyed id tasks h
settle_timeout-IsKeyed (suspended a k) id ele tasks e h =
    rw (re_push-assign id a.waiting_session_id a.timeout_s ele tasks) (
      push-IsKeyed a.waiting_session_id a.timeout_s ele (erase id tasks) (rw e refl)
        (erase-IsKeyed id tasks h))

store_task-IsKeyed :
    (task : Coroutine) (ele : TaskElement) (tasks : Tasks)
    → ele.task ≡ task
    → IsKeyed tasks
    → IsKeyed (store_task task ele tasks).0
unfolding store_task
store_task-IsKeyed (finished o) ele tasks e h = h
store_task-IsKeyed (suspended a k) ele tasks e h =
    push-IsKeyed a.waiting_session_id a.timeout_s ele tasks (rw e refl) h

pub add_task-IsKeyed :
    (ele : TaskElement) (tasks : Tasks) → IsKeyed tasks → IsKeyed (add_task ele tasks).0
unfolding add_task
add_task-IsKeyed ele tasks h = store_task-IsKeyed ele.task ele tasks refl h

pub try_schedule-IsKeyed :
    (session_id : ℕ) (msg : MessagePointer) (tasks : Tasks)
    → IsKeyed tasks
    → IsKeyed (try_schedule session_id msg tasks).0
unfolding try_schedule
try_schedule-IsKeyed session_id msg tasks h = elim (Option-cases (find session_id tasks)) [
  | inl e ↦ rw (e, try_schedule) h
  | inr (found, e) ↦ rw (e, try_schedule) (settle_task-IsKeyed _ session_id _ tasks refl h)
]

pub task_timeout-IsKeyed :
    (session_id : ℕ) (tasks : Tasks) → IsKeyed tasks → IsKeyed (task_timeout session_id tasks).0
unfolding task_timeout
task_timeout-IsKeyed session_id tasks h = elim (Option-cases (find session_id tasks)) [
  | inl e ↦ rw (e, task_timeout) h
  | inr (found, e) ↦ rw (e, task_timeout) (settle_timeout-IsKeyed _ session_id _ tasks refl h)
]

-- Adding a task, resuming one by a message and timing one out keep every task under the session
-- that it waits for.
pub operations-IsKeyed :
    (tasks : Tasks) (ele : TaskElement) (session_id : ℕ) (msg : MessagePointer)
    → IsKeyed tasks
    → IsKeyed (add_task ele tasks).0
      × IsKeyed (try_schedule session_id msg tasks).0
      × IsKeyed (task_timeout session_id tasks).0
operations-IsKeyed tasks ele session_id msg h = (
  add_task-IsKeyed ele tasks h,
  try_schedule-IsKeyed session_id msg tasks h,
  task_timeout-IsKeyed session_id tasks h,
)
