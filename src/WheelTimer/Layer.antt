-- ===== src/WheelTimer/Layer.antt =====
-- Where wheel_timer.hpp puts a task.
use million.Prelude.{
  ℕ, ◌+◌, ◌*◌, ◌/◌, ◌%◌, ◌^◌, ◌<◌, ◌≤◌, ◌≡◌, none, some, [], ◌∷◌, ◌++◌, arith, refl, dec_lt,
}
use million.WheelTimer.{DelayTask, WheelTimer, update, get_layer, get_layer_from, dispatch_task}

-- `layer` and `index` are the highest digit of the tick to the base 64.
unfoldable pub IsHighest : ℕ → ℕ → ℕ → Type 0
IsHighest tick layer index =
    (layer < 5)
    × (index < 64)
    × (0 < layer → 0 < index)
    × (index * 64 ^ layer + tick % 64 ^ layer ≡ tick)

pub get_layer_lem :
    (tick : ℕ)
    → tick < 64 ^ 5
    → (layer index : ℕ) × (get_layer tick ≡ some (layer, index)) × IsHighest tick layer index
unfolding get_layer get_layer_from IsHighest
get_layer_lem tick h = elim (dec_lt tick 64) [
  | yes a ↦ (0, tick, ground arith, omega arith)
  | no a ↦ elim (dec_lt tick (64 ^ 2)) [
    | yes b ↦ (1, tick / 64, ground arith, omega arith)
    | no b ↦ elim (dec_lt tick (64 ^ 3)) [
      | yes c ↦ (2, tick / 64 / 64, ground arith, omega arith)
      | no c ↦ elim (dec_lt tick (64 ^ 4)) [
        | yes d ↦ (3, tick / 64 / 64 / 64, ground arith, omega arith)
        | no d ↦ (4, tick / 64 / 64 / 64 / 64, ground arith, omega arith)
      ]
    ]
  ]
]

pub get_layer_throws : (tick : ℕ) → 64 ^ 5 ≤ tick → get_layer tick ≡ none
unfolding get_layer get_layer_from
get_layer_throws tick h = ground arith

-- A task of less than 64 ^ 5 ticks goes to the end of one slot, in the layer of the highest digit of
-- its ticks to the base 64 and as many slots ahead as the digit says, with the lower digits as its
-- ticks: no tick is lost.
pub dispatch_task_places :
    (task : DelayTask) (s : WheelTimer)
    → task.tick < 64 ^ 5
    → (layer index : ℕ) × IsHighest task.tick layer index
      × (let slot = layer * 64 + (index + s.indexs layer) % 64 in
          dispatch_task task s
          ≡ some (record s {
            slots =
                update s.slots slot
                  (s.slots slot ++ record task { tick = task.tick % 64 ^ layer } ∷ []);
          }))
unfolding dispatch_task
dispatch_task_places task s h =
    let (layer, index, e, highest) = get_layer_lem task.tick h in
    (layer, index, highest, rw (e, dispatch_task) refl)

-- One of more ticks makes DispatchTasks throw.
pub dispatch_task_throws :
    (task : DelayTask) (s : WheelTimer) → 64 ^ 5 ≤ task.tick → dispatch_task task s ≡ none
unfolding dispatch_task
dispatch_task_throws task s h = rw (get_layer_throws task.tick h, dispatch_task) refl
