-- ===== src/WheelTimer/Schedule.antt =====
-- Which tasks the rounds of wheel_timer.hpp call back, and when.
use million.Prelude.{
  ℕ, zero, suc, ◌+◌, ◌*◌, ◌/◌, ◌%◌, ◌^◌, ◌<◌, ◌≤◌, ◌≡◌, List, [], ◌∷◌, ◌++◌, ◌==◌, leb,
  if◌then◌else◌, some, arith, refl, ap, subst, sym, ◌∙◌, ◌&&◌,
}
use million.WheelTimer.{add_task, create, DelayTask, WheelTimer, rounds, tick}
use million.WheelTimer.Layer.{IsHighest, get_layer_lem}
use million.WheelTimer.Remaining.{low, delay, total, AllBelow}
use million.WheelTimer.Dispatch.{
  AllPlaced, IsEmptyAt, delay_lem, delay_sum, Dispatched, dispatch_tasks-Dispatched,
}
use million.WheelTimer.Carry.{total_zero, total_pos}
use million.WheelTimer.Rounds.{Rounded, round-Rounded, fired_sum}
use million.WheelTimer.Turn.{IsWheel}

-- How many tasks with some contents a list has, and how many of the stored ones are called back
-- within `n` rounds.
unfoldable pub count : ℕ → List DelayTask → ℕ
count contents [] = 0
count contents (t ∷ ts) = (if t.contents == contents then 1 else 0) + count contents ts

abbrev pub within : ℕ → ℕ → ℕ → ℕ → ℕ
within n contents left other = if leb left n && (other == contents) then 1 else 0

unfoldable pub due_within : ℕ → ℕ → WheelTimer → ℕ
due_within n contents s = total (within n contents) s.indexs s.slots 320

fired_sum-count :
    (n contents : ℕ) (ts : List DelayTask)
    → fired_sum (within (suc n) contents 1) ts ≡ count contents ts
unfolding fired_sum count
fired_sum-count n contents [] = refl
fired_sum-count n contents (t ∷ ts) = ground (arith, fired_sum-count n contents ts)

wheel_empty :
    (s : WheelTimer) (layer : ℕ)
    → IsWheel s
    → 0 < layer
    → layer < 5
    → s.slots (layer * 64 + s.indexs layer) ≡ []
unfolding IsEmptyAt
wheel_empty s layer w p l =
    subst (λ n. s.slots (layer * 64 + n) ≡ []) (omega (arith, w.small layer)) (w.emptied layer p l)

due_within_zero : (contents : ℕ) (s : WheelTimer) → IsWheel s → due_within 0 contents s ≡ 0
unfolding due_within
due_within_zero contents s w =
    total_pos (within 0 contents) (λ m e. 0) s.indexs s.slots w.small
      (λ layer p l. wheel_empty s layer w p l) (λ m e p. ground arith)
    ∙ total_zero s.indexs s.slots 320

-- Of what is due within a number of rounds, one round calls back its part.
round-due_within :
    (n contents : ℕ) (s t : WheelTimer) (fired : List DelayTask)
    → IsWheel s
    → Rounded s fired t
    → due_within (suc n) contents s ≡ count contents fired + due_within n contents t
unfolding due_within
round-due_within n contents s t fired w r = omega (
  arith,
  r.counted (within (suc n) contents),
  fired_sum-count n contents fired,
  total_pos (λ m. within (suc n) contents (suc m)) (within n contents) t.indexs t.slots
      r.wheel.small (λ layer p l. wheel_empty t layer r.wheel p l) (λ m e p. ground arith),
)

pub count-append :
    (contents : ℕ) (xs ys : List DelayTask)
    → count contents (xs ++ ys) ≡ count contents xs + count contents ys
unfolding count
count-append contents [] ys = omega arith
count-append contents (x ∷ xs) ys = omega (arith, count-append contents xs ys)

-- In `n` rounds exactly the tasks are called back that have at most `n` rounds left, each once; the
-- others are kept, with `n` rounds less. No round throws.
pub rounds_fire_due :
    (n : ℕ) (s : WheelTimer)
    → IsWheel s
    → (fired : List DelayTask) × (t : WheelTimer) × (rounds n s ≡ some (fired, t))
      × IsWheel t
      × (t.adds ≡ s.adds)
      × ((contents : ℕ) → count contents fired ≡ due_within n contents s)
      × ((k contents : ℕ)
          → due_within (n + k) contents s ≡ due_within n contents s + due_within k contents t)
unfolding rounds count
rounds_fire_due zero s w = (
  [],
  s,
  refl,
  w,
  refl,
  λ contents. sym (due_within_zero contents s w),
  λ k contents.
      let same : 0 + k ≡ k = omega arith in
      omega (arith, due_within_zero contents s w, ap (λ m. due_within m contents s) same),
)
rounds_fire_due (suc n) s w =
    let (u, e, r) = round-Rounded s w in
    let fired = s.slots (s.indexs 0) in
    let (more, t, e', w', kept, counts, later) = rounds_fire_due n u r.wheel in
    (
      fired ++ more,
      t,
      rw (e, e', rounds) refl,
      w',
      kept ∙ r.added,
      λ contents. omega (
        arith,
        count-append contents fired more,
        counts contents,
        round-due_within n contents s u fired w r,
      ),
      λ k contents.
          let same : suc n + k ≡ suc (n + k) = omega arith in
          omega (
            arith,
            ap (λ m. due_within m contents s) same,
            round-due_within (n + k) contents s u fired w r,
            round-due_within n contents s u fired w r,
            later k contents,
          ),
    )

-- How many of the added tasks with some contents have a delay of at most `n` rounds.
unfoldable pub new_within : ℕ → ℕ → (ℕ → ℕ) → List DelayTask → ℕ
new_within n contents c [] = 0
new_within n contents c (t ∷ ts) =
    within n contents (delay c t.tick) t.contents + new_within n contents c ts

delay_sum-new_within :
    (n contents : ℕ) (c : ℕ → ℕ) (ts : List DelayTask)
    → delay_sum (within n contents) c ts ≡ new_within n contents c ts
unfolding delay_sum new_within
delay_sum-new_within n contents c [] = refl
delay_sum-new_within n contents c (t ∷ ts) = omega (arith, delay_sum-new_within n contents c ts)

-- The wheels with the added tasks put in.
Dispatched-IsWheel :
    (s t : WheelTimer) (ts : List DelayTask)
    → IsWheel s
    → Dispatched s.indexs 5 ts (record s { adds = [] }) t
    → IsWheel t
unfolding IsEmptyAt
Dispatched-IsWheel s t ts w d = record {
  small = λ k. subst (λ c. c k < 64) (sym d.positions) (w.small k);
  placed = d.placed w.placed;
  emptied = λ layer p l.
      subst (λ c. t.slots (layer * 64 + c layer % 64) ≡ []) (sym d.positions)
        (d.emptied layer p l (w.emptied layer p l));
}

Dispatched-due_within :
    (n contents : ℕ) (s t : WheelTimer) (ts : List DelayTask)
    → Dispatched s.indexs 5 ts (record s { adds = [] }) t
    → due_within n contents t ≡ due_within n contents s + new_within n contents s.indexs ts
unfolding due_within
Dispatched-due_within n contents s t ts d = omega (
  arith,
  ap (λ c. total (within n contents) c t.slots 320) d.positions,
  d.counted (within n contents),
  delay_sum-new_within n contents s.indexs ts,
)

-- A call of Tick, when the time has gone on by `elapsed` and no added task has 64 ^ 5 ticks or more:
-- it calls back exactly the stored tasks that have at most as many rounds left as ticks have passed,
-- and the added ones whose delay is no longer than that. The others are kept, with so many rounds
-- less. It does not throw.
pub tick_fires_due :
    (elapsed : ℕ) (s : WheelTimer)
    → IsWheel s
    → AllBelow (64 ^ 5) s.adds
    → (fired : List DelayTask) × (t : WheelTimer) × (tick elapsed s ≡ some (fired, t))
      × IsWheel t
      × (t.adds ≡ [])
      × ((contents : ℕ)
          → count contents fired
            ≡ due_within (elapsed / s.ms_per_tick) contents s
              + new_within (elapsed / s.ms_per_tick) contents s.indexs s.adds)
      × ((k contents : ℕ)
          → due_within (elapsed / s.ms_per_tick + k) contents s
              + new_within (elapsed / s.ms_per_tick + k) contents s.indexs s.adds
            ≡ count contents fired + due_within k contents t)
unfolding tick
tick_fires_due elapsed s w b =
    let n = elapsed / s.ms_per_tick in
    let (u, e, d) =
      dispatch_tasks-Dispatched s.indexs 5 s.adds (record s { adds = [] }) (omega arith)
        (omega arith) b (record { small = w.small; same = λ k l. refl }) in
    let w' = Dispatched-IsWheel s u s.adds w d in
    let (fired, t, e', w'', kept, counts, later) = rounds_fire_due n u w' in
    (
      fired,
      t,
      rw (e, e', tick) refl,
      w'',
      kept ∙ d.added,
      λ contents. counts contents ∙ Dispatched-due_within n contents s u s.adds d,
      λ k contents. omega (
        arith,
        counts contents,
        later k contents,
        Dispatched-due_within (n + k) contents s u s.adds d,
      ),
    )

low_bounds :
    (c : ℕ → ℕ) (tick layer index : ℕ)
    → ((k : ℕ) → c k < 64)
    → 64 ≤ tick
    → IsHighest tick layer index
    → (low c layer ≤ tick) × (c 0 ≤ low c layer)
unfolding IsHighest
low_bounds c tick zero index r l h = absurd (omega (arith, h))
low_bounds c tick (suc zero) index r l h = omega (arith, h, r 0, r 1, r 2, r 3)
low_bounds c tick (suc (suc zero)) index r l h = omega (arith, h, r 0, r 1, r 2, r 3)
low_bounds c tick (suc (suc (suc zero))) index r l h = omega (arith, h, r 0, r 1, r 2, r 3)
low_bounds c tick (suc (suc (suc (suc zero)))) index r l h = omega (arith, h, r 0, r 1, r 2, r 3)
low_bounds c tick (suc (suc (suc (suc (suc layer))))) index r l h = absurd (omega (arith, h.0))

-- Against the ticks of a new task of 64 ticks or more: its delay is one round more than its ticks,
-- less what the wheels below its layer have done. So it is called back early, in the round of its
-- last tick or before, whenever the first wheel is not at its start.
pub delay_early :
    (tick : ℕ) (s : WheelTimer)
    → IsWheel s
    → 64 ≤ tick
    → tick < 64 ^ 5
    → 0 < s.indexs 0
    → (layer index : ℕ) × IsHighest tick layer index
      × (delay s.indexs tick + low s.indexs layer ≡ tick + 1)
      × (delay s.indexs tick ≤ tick)
delay_early tick s w m l p =
    let (layer, index, e, h) = get_layer_lem tick l in
    let bounds = low_bounds s.indexs tick layer index w.small m h in
    let d = delay_lem s.indexs tick layer index e in
    (layer, index, h, omega (arith, bounds, d), omega (arith, bounds, d))

pub create-IsWheel : (ms_per_tick : ℕ) → IsWheel (create ms_per_tick)
unfolding AllPlaced AllBelow IsEmptyAt
create-IsWheel ms_per_tick = record {
  small = λ k. omega arith;
  placed = λ p l. tt;
  emptied = λ layer p l. refl;
}

pub add_task-IsWheel :
    (ticks contents : ℕ) (s : WheelTimer) → IsWheel s → IsWheel (add_task ticks contents s)
unfolding add_task
add_task-IsWheel ticks contents s w = record {
  small = w.small;
  placed = w.placed;
  emptied = w.emptied;
}
