-- ===== src/WheelTimer.antt =====
-- million/src/internal/wheel_timer.hpp: five wheels of 64 slots. The slots are a function of their
-- index in the array, the wheels' positions one of the layer. `none` stands for the exception of
-- GetLayer, which nothing catches. The lock of the added tasks and the sleep are left out; the time
-- since the last call is an argument.
pub mod Layer
pub mod Remaining
pub mod Dispatch
pub mod Carry
pub mod Turn
pub mod Rounds
pub mod Schedule
mod Tests
use million.Prelude.{
  ℕ, zero, suc, ◌+◌, ◌*◌, ◌/◌, ◌%◌, ◌^◌, Bool, true, false, not, Option, none, some, List, [], ◌∷◌,
  ◌++◌, ltb, leb, ◌==◌, if◌then◌else◌,
}

abbrev pub circle_count : ℕ
circle_count = 5

abbrev pub slot_count : ℕ
slot_count = 64

pub record DelayTask : Type 0 where
  pub tick : ℕ
  pub contents : ℕ

pub record WheelTimer : Type 0 where
  pub ms_per_tick : ℕ
  pub slots : ℕ → List DelayTask
  pub indexs : ℕ → ℕ
  pub adds : List DelayTask

-- An assignment to an element of an array.
abbrev pub update {ℓ} : {A : Type ℓ} → (ℕ → A) → ℕ → A → ℕ → A
update f i a j = if j == i then a else f j

-- The loop of GetLayer, with `n` layers left from layer `i`; `tick / 64 == 0` says that no bit above
-- the lowest six is set.
unfoldable pub get_layer_from : ℕ → ℕ → ℕ → Option (ℕ × ℕ)
get_layer_from zero i tick = none
get_layer_from (suc n) i tick =
    let rest = get_layer_from n (i + 1) (tick / 64) in
    if tick / 64 == 0 then some (i, tick) else rest

-- GetLayer(tick).
unfoldable pub get_layer : ℕ → Option (ℕ × ℕ)
unfolding get_layer_from
get_layer tick = get_layer_from circle_count 0 tick

-- The body of the loop of DispatchTasks.
unfoldable pub dispatch_task : DelayTask → WheelTimer → Option WheelTimer
dispatch_task task s = elim (get_layer task.tick) [
  | none ↦ none
  | some (layer, index) ↦
      let slot = layer * slot_count + (index + s.indexs layer) % slot_count in
      let task' = record task { tick = task.tick % 64 ^ layer } in
      some (record s { slots = update s.slots slot (s.slots slot ++ task' ∷ []) })
]

unfoldable pub dispatch_tasks : List DelayTask → WheelTimer → Option WheelTimer
dispatch_tasks [] s = some s
dispatch_tasks (task ∷ tasks) s = elim (dispatch_task task s) [
  | none ↦ none
  | some s' ↦ dispatch_tasks tasks s'
]

-- `DispatchTasks(&slots_[index])`, which clears the slot at its end.
unfoldable pub dispatch_slot : ℕ → WheelTimer → Option WheelTimer
unfolding dispatch_tasks
dispatch_slot index s = elim (dispatch_tasks (s.slots index) s) [
  | none ↦ none
  | some s' ↦ some (record s' { slots = update s'.slots index [] })
]

-- One turn of the loop that advances the wheels: layer `j` goes back to its first slot if it is
-- through, and a higher layer hands its new slot down.
unfoldable pub turn : ℕ → WheelTimer → Option WheelTimer
unfolding dispatch_slot
turn j s =
    let s' = if leb slot_count (s.indexs j) then record s { indexs = update s.indexs j 0 } else s in
    if ltb 0 j then dispatch_slot (j * slot_count + s'.indexs j) s' else some s'

-- That loop, with `n` layers above layer `j`.
unfoldable pub advance : ℕ → ℕ → WheelTimer → Option WheelTimer
unfolding turn
advance zero j s = turn j s
advance (suc n) j s = elim (turn j s) [
  | none ↦ none
  | some s' ↦
      let next =
        advance n (suc j)
          (record s' { indexs = update s'.indexs (suc j) (s'.indexs (suc j) + 1) }) in
      if leb slot_count (s.indexs j) then next else some s'
]

-- One round of the loop of Tick: the tasks that are called back, and the wheels after it.
unfoldable pub round : WheelTimer → Option (List DelayTask × WheelTimer)
unfolding advance
round s =
    let index = s.indexs 0 in
    let emptied = record s {
      slots = update s.slots index [];
      indexs = update s.indexs 0 (s.indexs 0 + 1);
    } in
    elim (advance 4 0 emptied) [ none ↦ none | some s' ↦ some (s.slots index, s') ]

unfoldable pub rounds : ℕ → WheelTimer → Option (List DelayTask × WheelTimer)
unfolding round
rounds zero s = some ([], s)
rounds (suc n) s = elim (round s) [
  | none ↦ none
  | some (fired, s') ↦ elim (rounds n s') [
    | none ↦ none
    | some (more, s'') ↦ some (fired ++ more, s'')
  ]
]

-- Tick, `elapsed` milliseconds after the last time; the tasks that are called back, in order.
unfoldable pub tick : ℕ → WheelTimer → Option (List DelayTask × WheelTimer)
unfolding dispatch_tasks rounds
tick elapsed s = elim (dispatch_tasks s.adds (record s { adds = [] })) [
  | none ↦ none
  | some s' ↦ rounds (elapsed / s.ms_per_tick) s'
]

-- AddTask(tick, data).
unfoldable pub add_task : ℕ → ℕ → WheelTimer → WheelTimer
add_task ticks contents s = record s {
  adds = s.adds ++ record { tick = ticks; contents = contents } ∷ [];
}

-- The timer that the constructor makes.
abbrev pub create : ℕ → WheelTimer
create ms_per_tick = record {
  ms_per_tick = ms_per_tick;
  slots = λ i. [];
  indexs = λ i. 0;
  adds = [];
}
