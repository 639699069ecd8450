-- ===== src/HeapTimer/Waiting.antt =====
-- How long a tick of heap_timer.hpp waits. Other threads add tasks at any time.
use million.Prelude.{
  ℕ, ◌<◌, ◌≤◌, ◌≡◌, Bool, true, false, List, [], ◌∷◌, ◌++◌, if◌then◌else◌, ltb, leb, arith, refl,
  inl, inr, Bool-cases, List-cases,
}
use million.HeapTimer.{
  DelayTask, HeapTimer, create, expire_time_of, emplace_tasks, call_expired, tick, wait_until, wait,
  add_task,
}
use million.HeapTimer.Firing.{AllFrom, IsOrdered, AllFrom-le, tick_fires_expired}

-- The timer, and whether its thread is between the calls and the lock of a tick.
pub record Running : Type 0 where
  pub timer : HeapTimer
  pub is_pausing : Bool

pub data Step (c d : Running) : Type 0 where
  add_step :
      (now ticks contents : ℕ)
      → d ≡ record c { timer = (add_task now ticks contents c.timer).1 }
      → Step c d
  tick_step :
      (now : ℕ)
      → c.is_pausing ≡ false
      → d ≡ record { timer = (tick now c.timer).1; is_pausing = true }
      → Step c d
  wait_step :
      c.is_pausing ≡ true → d ≡ record { timer = (wait c.timer).1; is_pausing = false } → Step c d

pub data Reach : Running → Type 0 where
  start : (ms_per_tick : ℕ) → Reach (record { timer = create ms_per_tick; is_pausing = false })
  next : {c d : Running} → Reach c → Step c d → Reach d

AllFrom-append :
    (n : ℕ) (xs : List DelayTask) (y : DelayTask)
    → AllFrom n xs
    → n ≤ y.expire_time
    → AllFrom n (xs ++ y ∷ [])
AllFrom-append n [] y a l = (l, a)
AllFrom-append n (x ∷ xs) y (a, b) l = (a, AllFrom-append n xs y b l)

-- The heap is in order, and what was added during the calls does not expire before
-- `min_expire_time_`.
record IsKept (c : Running) : Type 0 where
  ordered : IsOrdered c.timer.tasks
  bounded : c.is_pausing ≡ true → AllFrom c.timer.min_expire_time c.timer.adds

add-IsKept :
    (now ticks contents : ℕ) (c : Running)
    → IsKept c
    → IsKept (record c { timer = (add_task now ticks contents c.timer).1 })
unfolding add_task
add-IsKept now ticks contents c k =
    let h = c.timer in
    let e = expire_time_of now ticks h in
    elim (Bool-cases (ltb e h.min_expire_time)) [
      | inl early ↦ rw early (record {
        ordered = k.ordered;
        bounded = λ p.
            AllFrom-append e h.adds (record { expire_time = e; contents = contents })
              (AllFrom-le e h.min_expire_time h.adds (ground arith) (k.bounded p)) (omega arith);
      })
      | inr late ↦ rw late (record {
        ordered = k.ordered;
        bounded = λ p.
            AllFrom-append h.min_expire_time h.adds
              (record { expire_time = e; contents = contents }) (k.bounded p) (ground arith);
      })
    ]

-- Where there is a task, the timer stays as it is and waits for that or for `min_expire_time_`.
wait_for_first :
    (h : HeapTimer) (t : DelayTask) (ts : List DelayTask)
    → h.tasks ≡ t ∷ ts
    → wait h ≡ (
      wait_until (if ltb h.min_expire_time t.expire_time then h.min_expire_time else t.expire_time),
      h,
    )
unfolding wait
wait_for_first h t ts e = ground arith

wait-IsOrdered : (h : HeapTimer) → IsOrdered h.tasks → IsOrdered (wait h).1.tasks
unfolding wait
wait-IsOrdered h o = elim (List-cases h.tasks) [
  | inl empty ↦ rw (empty, wait) o
  | inr (t, ts, some_left) ↦ rw (some_left, wait) o
]

Step-IsKept : {c d : Running} → Step c d → IsKept c → IsKept d
unfolding tick
Step-IsKept {c} (add_step now ticks contents e) k = rw e (add-IsKept now ticks contents c k)
Step-IsKept {c} (tick_step now p e) k =
    let f = tick_fires_expired now c.timer (λ t. true) k.ordered in
    rw e (record { ordered = f.3; bounded = λ q. omega arith })
Step-IsKept {c} (wait_step p e) k =
    rw e (record { ordered = wait-IsOrdered c.timer k.ordered; bounded = λ q. ground arith })

Reach-IsKept : {c : Running} → Reach c → IsKept c
Reach-IsKept (start ms_per_tick) = record { ordered = omega arith; bounded = λ p. omega arith }
Reach-IsKept (next r s) = Step-IsKept s (Reach-IsKept r)

no_deadline {ℓ} :
    {A : Type ℓ} (h : HeapTimer) (deadline : ℕ)
    → h.tasks ≡ []
    → (wait h).0 ≡ wait_until deadline
    → A
unfolding wait
no_deadline h deadline empty w = elim (List-cases h.adds) [
  | inl e ↦ ground arith
  | inr (a, rest, e) ↦ ground arith
]

-- However tasks are added and ticks are made: when the thread begins to wait until a time, no task
-- that is stored or added expires before it; and a task that is added while it waits and expires
-- before it notifies the thread.
pub never_oversleeps :
    (c : Running) (deadline now ticks contents : ℕ)
    → Reach c
    → c.is_pausing ≡ true
    → (wait c.timer).0 ≡ wait_until deadline
    → expire_time_of now ticks c.timer < deadline
    → AllFrom deadline c.timer.tasks
      × AllFrom deadline c.timer.adds
      × ((add_task now ticks contents (wait c.timer).1).0 ≡ true)
unfolding add_task
never_oversleeps c deadline now ticks contents r p w l =
    let h = c.timer in
    let k = Reach-IsKept r in
    elim (List-cases h.tasks) [
      | inl empty ↦ no_deadline h deadline empty w
      | inr (t, ts, first) ↦
          let waits = wait_for_first h t ts first in
          let o : IsOrdered (t ∷ ts) = rw first at k.ordered in
          let d : deadline ≤ t.expire_time = ground arith in
          let m : deadline ≤ h.min_expire_time = ground arith in
          (
            rw first (d, AllFrom-le deadline t.expire_time ts d o.0),
            AllFrom-le deadline h.min_expire_time h.adds m (k.bounded p),
            rw waits (ground arith),
          )
    ]

-- Once the time `min_expire_time_` is past, while a task is left that expires later and nothing is
-- added: the thread waits until a time that is past, that is not at all, and the next tick calls
-- nothing back and leaves the timer as it is, so that the thread goes round without a pause.
pub busy_wait :
    (now : ℕ) (h : HeapTimer) (t : DelayTask) (ts : List DelayTask)
    → h.tasks ≡ t ∷ ts
    → h.adds ≡ []
    → h.min_expire_time ≤ now
    → now < t.expire_time
    → (wait h ≡ (wait_until h.min_expire_time, h)) × (tick now h ≡ ([], h))
unfolding tick emplace_tasks call_expired
busy_wait now h t ts e a m l =
    let early : ltb h.min_expire_time t.expire_time ≡ true = ground arith in
    let late : leb t.expire_time now ≡ false = ground arith in
    (rw (wait_for_first h t ts e, early) refl, rw (a, e, late) refl)
