-- ===== src/HeapTimer/Firing.antt =====
-- What a tick of heap_timer.hpp calls back.
use million.Prelude.{
  ℕ, ◌+◌, ◌≤◌, ◌≡◌, Bool, List, [], ◌∷◌, if◌then◌else◌, ltb, leb, arith, refl, inl, inr, Bool-cases,
}
use million.HeapTimer.{DelayTask, HeapTimer, emplace_task, emplace_tasks, call_expired, tick}

-- Every task expires at `n` or later, or by `n`.
abbrev pub AllFrom : ℕ → List DelayTask → Type 0
AllFrom n [] = 0 ≤ 0
AllFrom n (t ∷ ts) = (n ≤ t.expire_time) × AllFrom n ts

abbrev pub AllBy : ℕ → List DelayTask → Type 0
AllBy n [] = 0 ≤ 0
AllBy n (t ∷ ts) = (t.expire_time ≤ n) × AllBy n ts

-- The tasks expire in the order of the list.
abbrev pub IsOrdered : List DelayTask → Type 0
IsOrdered [] = 0 ≤ 0
IsOrdered (t ∷ ts) = AllFrom t.expire_time ts × IsOrdered ts

-- How many tasks there are of a kind.
unfoldable pub count : (DelayTask → Bool) → List DelayTask → ℕ
count p [] = 0
count p (t ∷ ts) = (if p t then 1 else 0) + count p ts

pub AllFrom-le : (m n : ℕ) (ts : List DelayTask) → m ≤ n → AllFrom n ts → AllFrom m ts
AllFrom-le m n [] l a = omega arith
AllFrom-le m n (t ∷ ts) l (a, b) = (omega arith, AllFrom-le m n ts l b)

pub emplace_task-AllFrom :
    (n : ℕ) (task : DelayTask) (ts : List DelayTask)
    → n ≤ task.expire_time
    → AllFrom n ts
    → AllFrom n (emplace_task task ts)
unfolding emplace_task
emplace_task-AllFrom n task [] l a = (l, omega arith)
emplace_task-AllFrom n task (t ∷ ts) l (a, b) =
    elim (Bool-cases (ltb task.expire_time t.expire_time)) [
      | inl h ↦ rw h (l, (a, b))
      | inr h ↦ rw h (a, emplace_task-AllFrom n task ts l b)
    ]

emplace_task-IsOrdered :
    (task : DelayTask) (ts : List DelayTask) → IsOrdered ts → IsOrdered (emplace_task task ts)
unfolding emplace_task
emplace_task-IsOrdered task [] o = (omega arith, omega arith)
emplace_task-IsOrdered task (t ∷ ts) (a, o) =
    elim (Bool-cases (ltb task.expire_time t.expire_time)) [
      | inl h ↦
          let l : task.expire_time ≤ t.expire_time = ground arith in
          rw h ((l, AllFrom-le task.expire_time t.expire_time ts l a), (a, o))
      | inr h ↦
          let l : t.expire_time ≤ task.expire_time = ground arith in
          rw h (emplace_task-AllFrom t.expire_time task ts l a, emplace_task-IsOrdered task ts o)
    ]

count-emplace_task :
    (p : DelayTask → Bool) (task : DelayTask) (ts : List DelayTask)
    → count p (emplace_task task ts) ≡ (if p task then 1 else 0) + count p ts
unfolding count emplace_task
count-emplace_task p task [] = refl
count-emplace_task p task (t ∷ ts) = elim (Bool-cases (ltb task.expire_time t.expire_time)) [
  | inl h ↦ rw h refl
  | inr h ↦ rw h (omega (arith, count-emplace_task p task ts))
]

pub emplace_tasks-IsOrdered :
    (adds ts : List DelayTask) → IsOrdered ts → IsOrdered (emplace_tasks adds ts)
unfolding emplace_tasks
emplace_tasks-IsOrdered [] ts o = o
emplace_tasks-IsOrdered (a ∷ adds) ts o =
    emplace_tasks-IsOrdered adds (emplace_task a ts) (emplace_task-IsOrdered a ts o)

count-emplace_tasks :
    (p : DelayTask → Bool) (adds ts : List DelayTask)
    → count p (emplace_tasks adds ts) ≡ count p adds + count p ts
unfolding count emplace_tasks
count-emplace_tasks p [] ts = omega arith
count-emplace_tasks p (a ∷ adds) ts =
    omega (arith, count-emplace_tasks p adds (emplace_task a ts), count-emplace_task p a ts)

-- What has expired of a list in order.
record Called (now : ℕ) (ts fired left : List DelayTask) : Type 0 where
  by : AllBy now fired
  from : AllFrom (now + 1) left
  fired_ordered : IsOrdered fired
  left_ordered : IsOrdered left
  counted : (p : DelayTask → Bool) → count p fired + count p left ≡ count p ts

fired_from : (n now : ℕ) (ts : List DelayTask) → AllFrom n ts → AllFrom n (call_expired now ts).0
unfolding call_expired
fired_from n now [] a = omega arith
fired_from n now (t ∷ ts) (a, b) = elim (Bool-cases (leb t.expire_time now)) [
  | inl h ↦ rw h (a, fired_from n now ts b)
  | inr h ↦ rw h (omega arith)
]

called :
    (now : ℕ) (ts : List DelayTask)
    → IsOrdered ts
    → Called now ts (call_expired now ts).0 (call_expired now ts).1
unfolding call_expired count
called now [] o = record {
  by = omega arith;
  from = omega arith;
  fired_ordered = omega arith;
  left_ordered = omega arith;
  counted = λ p. omega arith;
}
called now (t ∷ ts) (a, o) =
    let ih = called now ts o in
    elim (Bool-cases (leb t.expire_time now)) [
      | inl h ↦ rw h (record {
        by = (ground arith, ih.by);
        from = ih.from;
        fired_ordered = (fired_from t.expire_time now ts a, ih.fired_ordered);
        left_ordered = ih.left_ordered;
        counted = λ p. omega (arith, ih.counted p);
      })
      | inr h ↦
          let l : now + 1 ≤ t.expire_time = ground arith in
          rw h (record {
            by = omega arith;
            from = (l, AllFrom-le (now + 1) t.expire_time ts l a);
            fired_ordered = omega arith;
            left_ordered = (a, o);
            counted = λ p. omega arith;
          })
    ]

-- A tick of a timer whose heap is in order: it calls back, in the order of their times, tasks that
-- expire by now, those that are left expire later and are in order, and of every kind of task as many
-- are called back or left as were in the heap or added.
pub tick_fires_expired :
    (now : ℕ) (h : HeapTimer) (p : DelayTask → Bool)
    → IsOrdered h.tasks
    → AllBy now (tick now h).0
      × IsOrdered (tick now h).0
      × AllFrom (now + 1) (tick now h).1.tasks
      × IsOrdered (tick now h).1.tasks
      × ((tick now h).1.adds ≡ [])
      × (count p (tick now h).0 + count p (tick now h).1.tasks ≡ count p h.adds + count p h.tasks)
unfolding tick
tick_fires_expired now h p o =
    let c = called now (emplace_tasks h.adds h.tasks) (emplace_tasks-IsOrdered h.adds h.tasks o) in
    (
      c.by,
      c.fired_ordered,
      c.from,
      c.left_ordered,
      refl,
      omega (arith, c.counted p, count-emplace_tasks p h.adds h.tasks),
    )
