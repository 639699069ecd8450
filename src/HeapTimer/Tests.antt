-- ===== src/HeapTimer/Tests.antt =====
-- A heap timer with two tasks at concrete inputs.
use million.Prelude.{ℕ, ◌+◌, ◌≡◌, true, [], ◌∷◌, arith, refl}
use million.HeapTimer.{
  DelayTask, HeapTimer, emplace_task, emplace_tasks, call_expired, tick, wait, add_task,
}
use million.HeapTimer.Firing.{AllFrom, AllBy, IsOrdered, count, tick_fires_expired}
use million.HeapTimer.Waiting.{Reach, start, next, add_step, tick_step, never_oversleeps}

abbrev at : ℕ → ℕ → DelayTask
at time contents = record { expire_time = time; contents = contents }

abbrev two_tasks : HeapTimer
two_tasks = record {
  ms_per_tick = 1;
  tasks = at 30 2 ∷ [];
  adds = at 10 1 ∷ [];
  min_expire_time = 10;
}

tick_fires_expired_example :
    AllBy 20 (at 10 1 ∷ [])
    × IsOrdered (at 10 1 ∷ [])
    × AllFrom 21 (at 30 2 ∷ [])
    × IsOrdered (at 30 2 ∷ [])
    × ((tick 20 two_tasks).1.adds ≡ [])
    × (count (λ t. true) (at 10 1 ∷ []) + count (λ t. true) (at 30 2 ∷ [])
        ≡ count (λ t. true) (at 10 1 ∷ []) + count (λ t. true) (at 30 2 ∷ []))
unfolding tick emplace_tasks emplace_task call_expired
tick_fires_expired_example = tick_fires_expired 20 two_tasks (λ t. true) (omega arith, omega arith)

abbrev one_added : HeapTimer
one_added = record {
  ms_per_tick = 1;
  tasks = at 1000000 1 ∷ [];
  adds = [];
  min_expire_time = 1000000;
}

one_added-Reach : Reach (record { timer = one_added; is_pausing = true })
unfolding add_task tick emplace_tasks emplace_task call_expired
one_added-Reach = next (next (start 1) (add_step 0 1 1 refl)) (tick_step 5 refl refl)

never_oversleeps_example :
    AllFrom 1000000 (at 1000000 1 ∷ [])
    × AllFrom 1000000 []
    × ((add_task 7 0 2 (wait one_added).1).0 ≡ true)
unfolding wait
never_oversleeps_example =
    never_oversleeps (record { timer = one_added; is_pausing = true }) 1000000 7 0 2 one_added-Reach
      refl refl (omega arith)
