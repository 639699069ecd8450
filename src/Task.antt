-- ===== src/Task.antt =====
-- million/include/million/task.h: what the executor sees of a coroutine. A chain of tasks that await
-- one another is one `Coroutine`, since `await_suspend` hands the innermost awaiter up to the root
-- and `final_suspend` resumes the parent at once. The body between two suspensions belongs to a
-- service and is a parameter: the continuation of `suspended`.
use million.Prelude.{ℕ, Bool, true, false, Option, none, some, if◌then◌else◌}
use million.Message.{MessagePointer, null, holds}

pub record SessionAwaiter : Type 0 where
  pub waiting_session_id : ℕ
  pub timeout_s : ℕ
  pub or_null : Bool

-- How a coroutine ends: by an exception, with no `result_value`, or with one.
pub data Outcome : Type 0 where
  exception no_result : Outcome
  result : MessagePointer → Outcome

-- What `co_await` gives the body: an exception ("Session timeout"), or the pointer.
pub data Resumption : Type 0 where
  aborted : Resumption
  resumed : MessagePointer → Resumption

pub data Coroutine : Type 0 where
  finished : Outcome → Coroutine
  suspended : SessionAwaiter → (Resumption → Coroutine) → Coroutine

-- SessionAwaiterBase::await_resume.
unfoldable pub await_resume : SessionAwaiter → MessagePointer → Resumption
await_resume a null = if a.or_null then resumed null else aborted
await_resume a (holds m) = resumed (holds m)

-- `coroutine.done()`.
abbrev pub done : Coroutine → Bool
done (finished o) = true
done (suspended a k) = false

-- `task.has_exception()`.
abbrev pub has_exception : Coroutine → Bool
has_exception (finished exception) = true
has_exception _ = false

-- `awaiter->set_result(msg)` and `waiting_coroutine.resume()`. A finished coroutine is not resumed.
unfoldable pub resume : Coroutine → MessagePointer → Coroutine
unfolding await_resume
resume (finished o) msg = finished o
resume (suspended a k) msg = k (await_resume a msg)

-- `session_awaiter()->waiting_session_id()` of a coroutine that is not done.
abbrev pub waiting_on : Coroutine → Option ℕ
waiting_on (finished o) = none
waiting_on (suspended a k) = some a.waiting_session_id
