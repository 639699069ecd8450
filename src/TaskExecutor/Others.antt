-- ===== src/TaskExecutor/Others.antt =====
-- The tasks that an operation of task_executor.cpp does not concern.
use million.Prelude.{ℕ, some, ◌≡◌, ◌≢◌, arith, inl, inr, Option-cases}
use million.Prelude.Maps.{find, erase, find-erase, find-emplace, present_of_find}
use million.Message.{MessagePointer}
use million.Task.{Coroutine, finished, suspended}
use million.TaskExecutor.{
  Tasks, TaskElement, push, add_task, store_task, try_schedule, settle_task, settle_timeout,
  task_timeout,
}
use million.TaskExecutor.Keyed.{re_push-assign}

push_others :
    (id timeout_s j : ℕ) (ele other : TaskElement) (tasks : Tasks)
    → find j tasks ≡ some other
    → find j (push id timeout_s ele tasks).0 ≡ some other
unfolding push
push_others id timeout_s j ele other tasks e =
    ground (arith, find-emplace id j ele tasks, present_of_find j tasks other e)

settle_task_others :
    (task : Coroutine) (id j : ℕ) (ele other : TaskElement) (tasks : Tasks)
    → j ≢ id
    → find j tasks ≡ some other
    → find j (settle_task task id ele tasks).0 ≡ some other
unfolding settle_task
settle_task_others (finished o) id j ele other tasks ne e = ground (arith, find-erase id j tasks)
settle_task_others (suspended a k) id j ele other tasks ne e =
    rw (re_push-assign id a.waiting_session_id a.timeout_s ele tasks) (
      push_others a.waiting_session_id a.timeout_s j ele other (erase id tasks)
        (ground (arith, find-erase id j tasks)))

settle_timeout_others :
    (task : Coroutine) (id j : ℕ) (ele other : TaskElement) (tasks : Tasks)
    → j ≢ id
    → find j tasks ≡ some other
    → find j (settle_timeout task id ele tasks).0 ≡ some other
unfolding settle_timeout
settle_timeout_others (finished o) id j ele other tasks ne e = ground (arith, find-erase id j tasks)
settle_timeout_others (suspended a k) id j ele other tasks ne e =
    rw (re_push-assign id a.waiting_session_id a.timeout_s ele tasks) (
      push_others a.waiting_session_id a.timeout_s j ele other (erase id tasks)
        (ground (arith, find-erase id j tasks)))

store_task_others :
    (task : Coroutine) (j : ℕ) (ele other : TaskElement) (tasks : Tasks)
    → find j tasks ≡ some other
    → find j (store_task task ele tasks).0 ≡ some other
unfolding store_task
store_task_others (finished o) j ele other tasks e = e
store_task_others (suspended a k) j ele other tasks e =
    push_others a.waiting_session_id a.timeout_s j ele other tasks e

-- A message or a timeout for one session, and a new task, leave every task that waits for another
-- session as it is.
pub other_tasks_unchanged :
    (id j : ℕ) (msg : MessagePointer) (ele other : TaskElement) (tasks : Tasks)
    → find j tasks ≡ some other
    → (j ≢ id → find j (try_schedule id msg tasks).0 ≡ some other)
      × (j ≢ id → find j (task_timeout id tasks).0 ≡ some other)
      × (find j (add_task ele tasks).0 ≡ some other)
unfolding try_schedule task_timeout add_task
other_tasks_unchanged id j msg ele other tasks e = (
  λ ne. elim (Option-cases (find id tasks)) [
    | inl n ↦ rw (n, try_schedule) e
    | inr (found, n) ↦ rw (n, try_schedule) (settle_task_others _ id j _ other tasks ne e)
  ],
  λ ne. elim (Option-cases (find id tasks)) [
    | inl n ↦ rw (n, task_timeout) e
    | inr (found, n) ↦ rw (n, task_timeout) (settle_timeout_others _ id j _ other tasks ne e)
  ],
  store_task_others ele.task j ele other tasks e,
)
