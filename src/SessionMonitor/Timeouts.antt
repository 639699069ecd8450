-- ===== src/SessionMonitor/Timeouts.antt =====
-- When the timeout of a session is sent by session_monitor.cpp.
use million.Prelude.{
  ℕ, zero, suc, ◌+◌, ◌*◌, ◌^◌, ◌<◌, ◌≤◌, ◌≡◌, Bool, true, false, ◌&&◌, Option, none, some, List, [],
  ◌∷◌, ◌++◌, ◌==◌, if◌then◌else◌, ltb, length, get_elem?, arith, refl, inl, inr, Option-cases,
}
use million.WheelTimer.{DelayTask, WheelTimer, add_task, get_layer, get_layer_from}
use million.WheelTimer.Remaining.{AllBelow, delay, total, slot_sum}
use million.WheelTimer.Turn.{IsWheel}
use million.WheelTimer.Schedule.{count, within, due_within, new_within, create-IsWheel}
use million.SessionMonitor.{TimedMsg, SessionMonitor, new_monitor, timeouts}

-- Whether it is the message of a session, whether one of a list is, and how many are.
abbrev pub is_of : ℕ → ℕ → TimedMsg → Bool
is_of service session_id x = (x.service == service) && (x.session_id == session_id)

unfoldable pub is_known : ℕ → ℕ → List TimedMsg → Bool
is_known service session_id [] = false
is_known service session_id (x ∷ xs) =
    if is_of service session_id x then true else is_known service session_id xs

unfoldable pub count_sent : ℕ → ℕ → List TimedMsg → ℕ
count_sent service session_id [] = 0
count_sent service session_id (x ∷ xs) =
    (if is_of service session_id x then 1 else 0) + count_sent service session_id xs

-- The timer is well-formed, added tasks are within its range, and no task has a place that is not yet
-- given to a session.
pub record IsMonitor (m : SessionMonitor) : Type 0 where
  pub wheel : IsWheel m.tasks
  pub below : AllBelow (64 ^ 5) m.tasks.adds
  pub unused :
      (n contents : ℕ)
      → length m.data_of ≤ contents
      → due_within n contents m.tasks + new_within n contents m.tasks.indexs m.tasks.adds ≡ 0

nothing_stored : (f : ℕ → ℕ → ℕ) (c : ℕ → ℕ) (n : ℕ) → total f c (λ i. []) n ≡ 0
unfolding total slot_sum
nothing_stored f c zero = refl
nothing_stored f c (suc n) = omega (arith, nothing_stored f c n)

-- The monitor that the constructor makes is well-formed.
pub new_monitor-IsMonitor :
    (s_per_tick timeout_tick : ℕ) → IsMonitor (new_monitor s_per_tick timeout_tick)
unfolding due_within new_within AllBelow
new_monitor-IsMonitor s_per_tick timeout_tick = record {
  wheel = create-IsWheel (s_per_tick * 1000);
  below = tt;
  unused = λ n contents l. omega (arith, nothing_stored (within n contents) (λ i. 0) 320);
}

unfoldable pub count_of_place : ℕ → ℕ → Option TimedMsg → ℕ
count_of_place service session_id none = 0
count_of_place service session_id (some x) = if is_of service session_id x then 1 else 0

-- In a list of sessions to which a new one is added, only the last place is that of the new one.
pub last_place :
    (service session_id k : ℕ) (xs : List TimedMsg)
    → is_known service session_id xs ≡ false
    → count_of_place service session_id
        (get_elem? (xs ++ record { service = service; session_id = session_id } ∷ []) k)
      ≡ (if k == length xs then 1 else 0)
unfolding is_known count_of_place
last_place service session_id zero [] e = ground arith
last_place service session_id (suc k) [] e = ground arith
last_place service session_id zero (x ∷ xs) e = ground arith
last_place service session_id (suc k) (x ∷ xs) e =
    ground (arith, last_place service session_id k xs)

-- Where only the place `p` is that of a session, its timeout is sent for the tasks of that place.
pub sent_for_place :
    (service session_id p : ℕ) (xs : List TimedMsg) (fired : List DelayTask)
    → ((k : ℕ) → count_of_place service session_id (get_elem? xs k) ≡ (if k == p then 1 else 0))
    → count_sent service session_id (timeouts xs fired) ≡ count p fired
unfolding timeouts count_sent count count_of_place
sent_for_place service session_id p xs [] only = refl
sent_for_place service session_id p xs (t ∷ ts) only =
    let place = only t.contents in
    let rest = sent_for_place service session_id p xs ts only in
    elim (Option-cases (get_elem? xs t.contents)) [
      | inl n ↦ rw (timeouts, n) (ground (arith, place, n, rest))
      | inr (x, n) ↦ rw (timeouts, n) (ground (arith, place, n, rest))
    ]

new_within-append :
    (n contents : ℕ) (c : ℕ → ℕ) (ts : List DelayTask) (t : DelayTask)
    → new_within n contents c (ts ++ t ∷ [])
      ≡ new_within n contents c ts + within n contents (delay c t.tick) t.contents
unfolding new_within
new_within-append n contents c [] t = omega arith
new_within-append n contents c (u ∷ ts) t = omega (arith, new_within-append n contents c ts t)

-- A task of less than 64 ticks is called back in the round after that many.
short_delay : (c : ℕ → ℕ) (ticks : ℕ) → ticks < 64 → delay c ticks ≡ ticks + 1
unfolding delay get_layer get_layer_from
short_delay c ticks h = ground arith

-- How many tasks of a place are due, after a task of place `p` was added.
due_after_add :
    (n contents ticks p : ℕ) (s : WheelTimer)
    → due_within n contents (add_task ticks p s)
        + new_within n contents s.indexs (add_task ticks p s).adds
      ≡ due_within n contents s
        + new_within n contents s.indexs s.adds
        + within n contents (delay s.indexs ticks) p
unfolding add_task due_within
due_after_add n contents ticks p s =
    omega
      (arith, new_within-append n contents s.indexs s.adds (record { tick = ticks; contents = p }))

pub due_of_new :
    (n ticks : ℕ) (m : SessionMonitor)
    → IsMonitor m
    → ticks < 64
    → due_within n (length m.data_of) (add_task ticks (length m.data_of) m.tasks)
        + new_within n
            (length m.data_of)
            m.tasks.indexs
            (add_task ticks (length m.data_of) m.tasks).adds
      ≡ (if ltb ticks n then 1 else 0)
due_of_new n ticks m w short =
    let p = length m.data_of in
    ground (
      arith,
      due_after_add n p ticks p m.tasks,
      w.unused n p (omega arith),
      short_delay m.tasks.indexs ticks short,
    )

pub due_of_unused :
    (n contents ticks : ℕ) (m : SessionMonitor)
    → IsMonitor m
    → length m.data_of < contents
    → due_within n contents (add_task ticks (length m.data_of) m.tasks)
        + new_within n contents m.tasks.indexs (add_task ticks (length m.data_of) m.tasks).adds
      ≡ 0
due_of_unused n contents ticks m w l =
    ground (arith, due_after_add n contents ticks (length m.data_of) m.tasks, w.unused n contents)

pub no_adds :
    (n contents : ℕ) (t : WheelTimer) → t.adds ≡ [] → new_within n contents t.indexs t.adds ≡ 0
unfolding new_within
no_adds n contents t e = rw e refl

pub none_below : (t : WheelTimer) → t.adds ≡ [] → AllBelow (64 ^ 5) t.adds
unfolding AllBelow
none_below t e = rw e tt
