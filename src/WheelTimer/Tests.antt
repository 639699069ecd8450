-- ===== src/WheelTimer/Tests.antt =====
-- A wheel of one second per tick: a task of 70 ticks, added when 63 ticks have passed, is called back
-- in the eighth round.
use million.Prelude.{ℕ, ◌+◌, ◌≡◌, refl, Option, none, some, List, [], ◌∷◌, arith, ◌/◌}
use million.WheelTimer.{
  DelayTask, WheelTimer, create, add_task, tick, update, dispatch_task, dispatch_tasks,
  dispatch_slot, get_layer, get_layer_from, turn, advance, round, rounds,
}
use million.WheelTimer.Remaining.{AllBelow, delay}
use million.WheelTimer.Dispatch.{AllPlaced, IsEmptyAt}
use million.WheelTimer.Turn.{IsWheel}
use million.WheelTimer.Schedule.{
  count, due_within, new_within, rounds_fire_due, tick_fires_due, create-IsWheel, add_task-IsWheel,
}

abbrev task : DelayTask
task = record { tick = 70; contents = 1 }

-- The tasks of the last of two calls of Tick.
abbrev fired_by : Option (List DelayTask × WheelTimer) → List DelayTask
fired_by none = []
fired_by (some (fired, s)) = fired

abbrev after_63 : WheelTimer
after_63 = record (create 1000) { indexs = update (λ i. 0) 0 63 }

fires_early :
    (fired_by (tick 7000 (add_task 70 1 after_63)) ≡ [])
    × (fired_by (tick 8000 (add_task 70 1 after_63)) ≡ record { tick = 0; contents = 1 } ∷ [])
unfolding tick add_task dispatch_task dispatch_tasks dispatch_slot get_layer get_layer_from turn
    advance round rounds
fires_early = (refl, refl)

abbrev fresh : WheelTimer
fresh = add_task 70 1 (create 1000)

rounds_fire_due_example :
    (fired : List DelayTask) × (t : WheelTimer) × (rounds 3 (create 1000) ≡ some (fired, t))
    × IsWheel t
    × (t.adds ≡ [])
    × ((contents : ℕ) → count contents fired ≡ due_within 3 contents (create 1000))
    × ((k contents : ℕ)
        → due_within (3 + k) contents (create 1000)
          ≡ due_within 3 contents (create 1000) + due_within k contents t)
rounds_fire_due_example = rounds_fire_due 3 (create 1000) (create-IsWheel 1000)

tick_fires_due_example :
    (fired : List DelayTask) × (t : WheelTimer) × (tick 71000 fresh ≡ some (fired, t))
    × IsWheel t
    × (t.adds ≡ [])
    × ((contents : ℕ)
        → count contents fired
          ≡ due_within (71000 / 1000) contents fresh
            + new_within (71000 / 1000) contents (λ k. 0) (task ∷ []))
    × ((k contents : ℕ)
        → due_within (71000 / 1000 + k) contents fresh
            + new_within (71000 / 1000 + k) contents (λ k. 0) (task ∷ [])
          ≡ count contents fired + due_within k contents t)
unfolding add_task AllBelow
tick_fires_due_example =
    tick_fires_due 71000 fresh (add_task-IsWheel 70 1 (create 1000) (create-IsWheel 1000))
      (omega arith)

on_time : new_within 71 1 (λ k. 0) (task ∷ []) ≡ 1
unfolding new_within delay get_layer get_layer_from
on_time = refl

after_63-IsWheel : IsWheel after_63
unfolding AllPlaced AllBelow IsEmptyAt
after_63-IsWheel = record {
  small = λ k. ground arith;
  placed = λ p l. tt;
  emptied = λ layer p l. refl;
}
