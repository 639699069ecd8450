-- ===== src/TaskExecutor/Resume.antt =====
-- What a message, a timeout and a new task do to the tasks of task_executor.cpp.
use million.Prelude.{
  ℕ, true, false, none, some, [], ◌≡◌, ◌≢◌, ◌==◌, if◌then◌else◌, arith, refl, ◌⊎◌,
}
use million.Prelude.Maps.{find, erase, contains, find-erase, find-emplace, absent_of_find}
use million.Session.{session_id_invalid}
use million.Message.{MessagePointer, Message, null, holds}
use million.Task.{
  Coroutine, finished, suspended, SessionAwaiter, Resumption, Outcome, resumed, aborted,
  has_exception,
}
use million.TaskExecutor.{
  Tasks, TaskElement, unhandled, completed, waiting, monitor, push, add_task, store_task,
  try_schedule, settle_task, settle_timeout, task_timeout,
}
use million.TaskExecutor.Keyed.{IsKeyed, re_push-assign}

-- The element with its coroutine at `task`.
abbrev pub at_task : TaskElement → Coroutine → TaskElement
at_task ele task = record ele { task = task }

try_schedule_found :
    (id : ℕ) (m : Message) (tasks : Tasks) (ele : TaskElement) (a : SessionAwaiter)
    (k : Resumption → Coroutine)
    → IsKeyed tasks
    → find id tasks ≡ some ele
    → ele.task ≡ suspended a k
    → try_schedule id (holds m) tasks
      ≡ settle_task (k (resumed (holds m))) id (at_task ele (k (resumed (holds m)))) tasks
unfolding try_schedule
try_schedule_found id m tasks ele a k h e t = ground (arith, h id ele)

-- A message for the session that a stored task waits for resumes that task with the message. If
-- it then ends, it is taken out and handed to the caller.
pub try_schedule_completes :
    (id : ℕ) (m : Message) (tasks : Tasks) (ele : TaskElement) (a : SessionAwaiter)
    (k : Resumption → Coroutine) (o : Outcome)
    → IsKeyed tasks
    → find id tasks ≡ some ele
    → ele.task ≡ suspended a k
    → k (resumed (holds m)) ≡ finished o
    → try_schedule id (holds m) tasks ≡ (erase id tasks, [], completed (at_task ele (finished o)))
unfolding settle_task
try_schedule_completes id m tasks ele a k o h e t f =
    rw (try_schedule_found id m tasks ele a k h e t, f) refl

-- The tasks after `ele` has moved to the session `new_id`, which was free.
push_free :
    (new_id timeout_s j : ℕ) (ele : TaskElement) (tasks : Tasks)
    → new_id ≢ session_id_invalid
    → find new_id tasks ≡ none
    → (find j (push new_id timeout_s ele tasks).0
        ≡ (if new_id == j then some ele else find j tasks))
      × ((push new_id timeout_s ele tasks).1 ≡ monitor new_id timeout_s)
      × ((push new_id timeout_s ele tasks).2 ≡ some new_id)
unfolding push
push_free new_id timeout_s j ele tasks ne free =
    ground (arith, find-emplace new_id j ele tasks, absent_of_find new_id tasks free)

-- If the resumed task waits again, for a session that is valid and free, it is stored under that
-- session with the timeout of its new awaiter, its old key is gone, and no other task changes.
pub try_schedule_requeues :
    (id j : ℕ) (m : Message) (tasks : Tasks) (ele : TaskElement) (a b : SessionAwaiter)
    (k next : Resumption → Coroutine)
    → IsKeyed tasks
    → find id tasks ≡ some ele
    → ele.task ≡ suspended a k
    → k (resumed (holds m)) ≡ suspended b next
    → b.waiting_session_id ≢ session_id_invalid
    → find b.waiting_session_id (erase id tasks) ≡ none
    → (find j (try_schedule id (holds m) tasks).0 ≡ (
        if b.waiting_session_id == j
        then some (at_task ele (suspended b next))
        else if id == j
        then none
        else find j tasks))
      × ((try_schedule id (holds m) tasks).1 ≡ monitor b.waiting_session_id b.timeout_s)
      × ((try_schedule id (holds m) tasks).2 ≡ waiting (some b.waiting_session_id))
unfolding settle_task
try_schedule_requeues id j m tasks ele a b k next h e t f ne free =
    rw
      (
        try_schedule_found id m tasks ele a k h e t,
        f,
        re_push-assign id b.waiting_session_id b.timeout_s (at_task ele (suspended b next)) tasks,
      )
      (ground (
        arith,
        push_free b.waiting_session_id b.timeout_s j (at_task ele (suspended b next))
            (erase id tasks) ne free,
        find-erase id j tasks,
      ))

-- A task that waits again for the invalid session, or for one under which another task waits, is
-- dropped: it is stored nowhere afterwards, and the caller gets a null pointer.
pub try_schedule_drops :
    (id j : ℕ) (m : Message) (tasks : Tasks) (ele : TaskElement) (a b : SessionAwaiter)
    (k next : Resumption → Coroutine)
    → IsKeyed tasks
    → find id tasks ≡ some ele
    → ele.task ≡ suspended a k
    → k (resumed (holds m)) ≡ suspended b next
    → (b.waiting_session_id ≡ session_id_invalid)
      ⊎ (contains b.waiting_session_id (erase id tasks) ≡ true)
    → (find j (try_schedule id (holds m) tasks).0 ≡ (if id == j then none else find j tasks))
      × ((try_schedule id (holds m) tasks).2 ≡ waiting none)
unfolding settle_task push
try_schedule_drops id j m tasks ele a b k next h e t f lost =
    rw
      (
        try_schedule_found id m tasks ele a k h e t,
        f,
        re_push-assign id b.waiting_session_id b.timeout_s (at_task ele (suspended b next)) tasks,
      )
      (ground (
        arith,
        find-emplace b.waiting_session_id j (at_task ele (suspended b next)) (erase id tasks),
        find-erase id j tasks,
      ))

-- What a timeout hands to the body: an exception unless the awaiter takes a null pointer.
abbrev pub on_timeout : SessionAwaiter → Resumption
on_timeout a = if a.or_null then resumed null else aborted

task_timeout_found :
    (id : ℕ) (tasks : Tasks) (ele : TaskElement) (a : SessionAwaiter) (k : Resumption → Coroutine)
    → find id tasks ≡ some ele
    → ele.task ≡ suspended a k
    → task_timeout id tasks
      ≡ settle_timeout (k (on_timeout a)) id (at_task ele (k (on_timeout a))) tasks
unfolding task_timeout
task_timeout_found id tasks ele a k e t = ground arith

-- A timeout resumes the task that still waits for the session, by an exception unless it awaits
-- with `or_null`. If the task then ends, it is removed with no caller told of its result, only
-- whether it ended by an exception.
pub task_timeout_completes :
    (id : ℕ) (tasks : Tasks) (ele : TaskElement) (a : SessionAwaiter) (k : Resumption → Coroutine)
    (o : Outcome)
    → find id tasks ≡ some ele
    → ele.task ≡ suspended a k
    → k (on_timeout a) ≡ finished o
    → task_timeout id tasks ≡ (erase id tasks, [], none, has_exception (finished o))
unfolding settle_timeout
task_timeout_completes id tasks ele a k o e t f =
    rw (task_timeout_found id tasks ele a k e t, f) refl

-- A message or a timeout for a session that no task waits for changes nothing.
pub absent_session :
    (id : ℕ) (msg : MessagePointer) (tasks : Tasks)
    → find id tasks ≡ none
    → (try_schedule id msg tasks ≡ (tasks, [], unhandled msg))
      × (task_timeout id tasks ≡ (tasks, [], none, false))
unfolding try_schedule task_timeout
absent_session id msg tasks e = ground arith

-- A new task that is done at once is handed back and not stored.
pub add_task_finished :
    (ele : TaskElement) (tasks : Tasks) (o : Outcome)
    → ele.task ≡ finished o
    → add_task ele tasks ≡ (tasks, [], some ele)
unfolding add_task
add_task_finished ele tasks o e = ground arith

add_task_stores :
    (ele : TaskElement) (tasks : Tasks) (a : SessionAwaiter) (k : Resumption → Coroutine)
    → ele.task ≡ suspended a k
    → add_task ele tasks ≡ store_task (suspended a k) ele tasks
unfolding add_task
add_task_stores ele tasks a k e = rw (e, store_task) refl

-- A new task that waits for a valid and free session is stored under it, and nothing is handed back.
pub add_task_waits :
    (ele : TaskElement) (tasks : Tasks) (a : SessionAwaiter) (k : Resumption → Coroutine) (j : ℕ)
    → ele.task ≡ suspended a k
    → a.waiting_session_id ≢ session_id_invalid
    → find a.waiting_session_id tasks ≡ none
    → (find j (add_task ele tasks).0
        ≡ (if a.waiting_session_id == j then some ele else find j tasks))
      × ((add_task ele tasks).1 ≡ monitor a.waiting_session_id a.timeout_s)
      × ((add_task ele tasks).2 ≡ none)
unfolding store_task
add_task_waits ele tasks a k j e ne free =
    rw (add_task_stores ele tasks a k e)
      (ground (arith, push_free a.waiting_session_id a.timeout_s j ele tasks ne free))
