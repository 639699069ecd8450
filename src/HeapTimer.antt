-- ===== src/HeapTimer.antt =====
-- million/src/internal/heap_timer.hpp: a timer with a heap of tasks by the time at which they expire.
-- Times are in nanoseconds, and `now` is what the clock says. The heap of std::priority_queue is a
-- list in the order in which it is emptied.
pub mod Firing
pub mod Waiting
mod Tests
use million.Prelude.{
  ℕ, ◌+◌, ◌-◌, ◌*◌, ◌%◌, ◌^◌, ◌≡◌, Bool, true, false, List, [], ◌∷◌, ◌++◌, if◌then◌else◌, ltb, leb,
}

pub record DelayTask : Type 0 where
  pub expire_time : ℕ
  pub contents : ℕ

pub record HeapTimer : Type 0 where
  pub ms_per_tick : ℕ
  pub tasks : List DelayTask
  pub adds : List DelayTask
  pub min_expire_time : ℕ

-- time_point::max().
abbrev pub max_time : ℕ
max_time = 2 ^ 63 - 1

-- The constructor and Init.
abbrev pub create : ℕ → HeapTimer
create ms_per_tick = record {
  ms_per_tick = ms_per_tick;
  tasks = [];
  adds = [];
  min_expire_time = max_time;
}

-- tasks_.emplace(task).
unfoldable pub emplace_task : DelayTask → List DelayTask → List DelayTask
emplace_task task [] = task ∷ []
emplace_task task (t ∷ ts) =
    if ltb task.expire_time t.expire_time then task ∷ t ∷ ts else t ∷ emplace_task task ts

unfoldable pub emplace_tasks : List DelayTask → List DelayTask → List DelayTask
unfolding emplace_task
emplace_tasks [] tasks = tasks
emplace_tasks (task ∷ adds) tasks = emplace_tasks adds (emplace_task task tasks)

-- The loop that calls back what has expired: those tasks in order, and the rest.
unfoldable pub call_expired : ℕ → List DelayTask → List DelayTask × List DelayTask
call_expired now [] = ([], [])
call_expired now (t ∷ ts) =
    let (fired, left) = call_expired now ts in
    if leb t.expire_time now then (t ∷ fired, left) else ([], t ∷ ts)

-- Tick up to its wait: the tasks that are called back, in order, and the timer.
unfoldable pub tick : ℕ → HeapTimer → List DelayTask × HeapTimer
unfolding emplace_tasks call_expired
tick now h =
    let (fired, left) = call_expired now (emplace_tasks h.adds h.tasks) in
    (fired, record h { tasks = left; adds = [] })

-- How Tick waits: until a time, for a notification, or not at all.
pub data Wait : Type 0 where
  wait_until : ℕ → Wait
  wait_notified no_wait : Wait

-- The end of Tick, under the lock.
unfoldable pub wait : HeapTimer → Wait × HeapTimer
wait h = elim h.tasks [
  | [] ↦ (
    elim h.adds [ [] ↦ wait_notified | a ∷ rest ↦ no_wait ],
    record h { min_expire_time = max_time },
  )
  | t ∷ ts ↦ (
    wait_until (if ltb h.min_expire_time t.expire_time then h.min_expire_time else t.expire_time),
    h,
  )
]

-- When a task expires that is added with some ticks; the product is one of 32 bits.
abbrev pub expire_time_of : ℕ → ℕ → HeapTimer → ℕ
expire_time_of now ticks h = now + ticks * h.ms_per_tick % 2 ^ 32 * 1000000

-- AddTask(tick, data): whether the timer is notified, and the timer.
unfoldable pub add_task : ℕ → ℕ → ℕ → HeapTimer → Bool × HeapTimer
add_task now ticks contents h =
    let e = expire_time_of now ticks h in
    let adds = h.adds ++ record { expire_time = e; contents = contents } ∷ [] in
    if ltb e h.min_expire_time
    then (true, record h { adds = adds; min_expire_time = e })
    else (false, record h { adds = adds })
