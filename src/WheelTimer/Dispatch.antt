-- ===== src/WheelTimer/Dispatch.antt =====
-- What DispatchTasks of wheel_timer.hpp keeps, and the rounds that a dispatched task has left.
use million.Prelude.{
  ℕ, zero, suc, ◌+◌, ◌-◌, ◌*◌, ◌/◌, ◌%◌, ◌^◌, ◌<◌, ◌≤◌, ◌≡◌, ◌≢◌, inl, inr, List, [], ◌∷◌, ◌++◌,
  ◌==◌, some, arith, refl, dec_lt, subst, ap, sym, ◌∙◌, Bool-cases,
}
use native.Mathlib.Nat.{mod-lt}
use million.WheelTimer.{DelayTask, WheelTimer, update, get_layer, dispatch_task, dispatch_tasks}
use million.WheelTimer.Layer.{IsHighest, get_layer_lem}
use million.WheelTimer.Remaining.{
  low, remaining, delay, total, AllBelow, slot_sum-append, AllBelow-append, total-update,
}

remaining_at :
    (c : ℕ → ℕ) (layer i tick : ℕ)
    → i < 64
    → remaining c (layer * 64 + i) tick
      ≡ (i + 64 - c layer) % 64 * 64 ^ layer + tick % 64 ^ layer + 1 - low c layer
unfolding remaining
remaining_at c layer i tick h =
    let e : (layer * 64 + i) / 64 ≡ layer = omega arith in
    let e' : (layer * 64 + i) % 64 ≡ i = omega arith in rw (e, e') refl

-- The slot of a task is as many slots ahead as its digit says.
placed :
    (c : ℕ → ℕ) (tick layer index : ℕ)
    → IsHighest tick layer index
    → c layer < 64
    → ((index + c layer) % 64 + 64 - c layer) % 64 * 64 ^ layer
        + tick % 64 ^ layer % 64 ^ layer
        + 1
        - low c layer
      ≡ tick + 1 - low c layer
unfolding IsHighest
placed c tick zero index h l = omega (arith, h, l)
placed c tick (suc zero) index h l = omega (arith, h, l)
placed c tick (suc (suc zero)) index h l = omega (arith, h, l)
placed c tick (suc (suc (suc zero))) index h l = omega (arith, h, l)
placed c tick (suc (suc (suc (suc zero)))) index h l = omega (arith, h, l)
placed c tick (suc (suc (suc (suc (suc k))))) index h l = absurd (omega (arith, h.0))

pow_le : (m k : ℕ) → 64 ^ m ≤ 64 ^ (m + k)
pow_le m zero = let e : m ≡ m + 0 = omega arith in omega (arith, ap (λ n. 64 ^ n) e)
pow_le m (suc k) =
    let e : suc (m + k) ≡ m + suc k = omega arith in omega (arith, pow_le m k, ap (λ n. 64 ^ n) e)

pub pow_mono : (m n : ℕ) → m ≤ n → 64 ^ m ≤ 64 ^ n
pow_mono m n h =
    let e : m + (n - m) ≡ n = omega arith in subst (λ k. 64 ^ m ≤ 64 ^ k) e (pow_le m (n - m))

mod_unit : (tick layer : ℕ) → tick % 64 ^ layer < 64 ^ layer
mod_unit tick layer = mod-lt tick (omega (arith, pow_mono 0 layer (omega arith)))

-- A tick below 64 ^ m has a layer below m.
pub layer_below :
    (m tick layer index : ℕ) → 0 < m → tick < 64 ^ m → IsHighest tick layer index → layer < m
unfolding IsHighest
layer_below m tick zero index p h d = p
layer_below m tick (suc layer) zero p h d = absurd (omega (arith, d))
layer_below m tick (suc layer) (suc index) p h d = elim (dec_lt (suc layer) m) [
  | yes below ↦ below
  | no above ↦ absurd (omega (arith, d, pow_mono m (suc layer) (omega arith)))
]

-- The tasks of a slot have ticks below the unit of its layer.
unfoldable pub AllPlaced : (ℕ → List DelayTask) → Type 0
AllPlaced slots = (p : ℕ) → p < 320 → AllBelow (64 ^ (p / 64)) (slots p)

-- Above the first layer, the slot at a wheel's position is empty.
unfoldable pub IsEmptyAt : (ℕ → ℕ) → ℕ → (ℕ → List DelayTask) → Type 0
IsEmptyAt c layer slots = slots (layer * 64 + c layer % 64) ≡ []

-- The sum of the weights of new tasks.
unfoldable pub delay_sum : (ℕ → ℕ → ℕ) → (ℕ → ℕ) → List DelayTask → ℕ
unfolding delay
delay_sum f c [] = 0
delay_sum f c (t ∷ ts) = f (delay c t.tick) t.contents + delay_sum f c ts

-- The tasks `ts`, with ticks below 64 ^ m, were put into the layers below m of `s`, at the positions
-- `c`; what does not concern them is as it was.
pub record Dispatched (c : ℕ → ℕ) (m : ℕ) (ts : List DelayTask) (s t : WheelTimer) : Type 0 where
  pub positions : t.indexs ≡ s.indexs
  pub added : t.adds ≡ s.adds
  pub unit : t.ms_per_tick ≡ s.ms_per_tick
  pub placed : AllPlaced s.slots → AllPlaced t.slots
  pub emptied :
      (layer : ℕ)
      → 0 < layer
      → layer < 5
      → IsEmptyAt s.indexs layer s.slots
      → IsEmptyAt s.indexs layer t.slots
  pub above : (p : ℕ) → 64 * m ≤ p → t.slots p ≡ s.slots p
  pub counted : (f : ℕ → ℕ → ℕ) → total f c t.slots 320 ≡ total f c s.slots 320 + delay_sum f c ts

-- The slot that a task goes to, and the state after it.
unfoldable pub put : ℕ → ℕ → DelayTask → WheelTimer → WheelTimer
put layer index t s =
    let slot = layer * 64 + (index + s.indexs layer) % 64 in
    record s {
      slots = update s.slots slot (s.slots slot ++ record t { tick = t.tick % 64 ^ layer } ∷ []);
    }

-- What holds of each element holds after an assignment, if it holds of the new one.
pub update-rule {ℓ κ} :
    {A : Type ℓ} (Q : ℕ → A → Type κ) (f : ℕ → A) (i : ℕ) (a : A) (p : ℕ)
    → (p ≡ i → Q p a)
    → (p ≢ i → Q p (f p))
    → Q p (update f i a p)
update-rule Q f i a p new old = elim (Bool-cases (p == i)) [
  | inl e ↦ rw e (new (ground arith))
  | inr e ↦ rw e (old (ground arith))
]

put-AllPlaced :
    (layer index : ℕ) (t : DelayTask) (s : WheelTimer)
    → layer < 5
    → AllPlaced s.slots
    → AllPlaced (put layer index t s).slots
unfolding AllPlaced put
put-AllPlaced layer index t s h all p l =
    update-rule (λ q ts. AllBelow (64 ^ (q / 64)) ts) s.slots
      (layer * 64 + (index + s.indexs layer) % 64)
      (s.slots (layer * 64 + (index + s.indexs layer) % 64)
        ++ record t { tick = t.tick % 64 ^ layer } ∷ [])
      p
      (λ e.
        let slot = layer * 64 + (index + s.indexs layer) % 64 in
        let small : slot < 320 = omega arith in
        let here : p / 64 ≡ layer = omega arith in
        let there : slot / 64 ≡ layer = omega arith in
        subst
          (λ n. AllBelow (64 ^ n) (s.slots slot ++ record t { tick = t.tick % 64 ^ layer } ∷ []))
          (sym here)
          (AllBelow-append (64 ^ layer) (s.slots slot) (record t { tick = t.tick % 64 ^ layer })
            (subst (λ n. AllBelow (64 ^ n) (s.slots slot)) there (all slot small))
            (mod_unit t.tick layer)))
      (λ e. all p l)

put-IsEmptyAt :
    (layer index other : ℕ) (t : DelayTask) (s : WheelTimer)
    → IsHighest t.tick layer index
    → 0 < other
    → s.indexs layer < 64
    → IsEmptyAt s.indexs other s.slots
    → IsEmptyAt s.indexs other (put layer index t s).slots
unfolding IsEmptyAt put IsHighest
put-IsEmptyAt layer index other t s h p l e =
    update-rule (λ q ts. ts ≡ []) s.slots (layer * 64 + (index + s.indexs layer) % 64)
      (s.slots (layer * 64 + (index + s.indexs layer) % 64)
        ++ record t { tick = t.tick % 64 ^ layer } ∷ [])
      (other * 64 + s.indexs other % 64)
      (λ q. let same : other ≡ layer = omega arith in absurd (omega (arith, h, ap s.indexs same)))
      (λ q. e)

put-total :
    (f : ℕ → ℕ → ℕ) (c : ℕ → ℕ) (layer index : ℕ) (t : DelayTask) (s : WheelTimer)
    → IsHighest t.tick layer index
    → c layer ≡ s.indexs layer
    → s.indexs layer < 64
    → total f c (put layer index t s).slots 320
      ≡ total f c s.slots 320 + f (t.tick + 1 - low c layer) t.contents
unfolding put IsHighest
put-total f c layer index t s h e l =
    let slot = layer * 64 + (index + s.indexs layer) % 64 in
    let t' : DelayTask = record t { tick = t.tick % 64 ^ layer } in
    let small : slot < 320 = omega (arith, h.0) in
    let left : remaining c slot t'.tick ≡ t.tick + 1 - low c layer =
      remaining_at c layer ((index + s.indexs layer) % 64) t'.tick (omega arith)
      ∙ subst
          (λ n.
            ((index + n) % 64 + 64 - c layer) % 64 * 64 ^ layer
              + t'.tick % 64 ^ layer
              + 1
              - low c layer
            ≡ t.tick + 1 - low c layer)
          e (placed c t.tick layer index h (omega (arith, e))) in
    omega (
      arith,
      total-update f c s.slots slot 320 (s.slots slot ++ t' ∷ []) small,
      slot_sum-append f c slot (s.slots slot) t',
      ap (λ n. f n t.contents) left,
    )

put-above :
    (layer index p m : ℕ) (t : DelayTask) (s : WheelTimer)
    → layer < m
    → 64 * m ≤ p
    → (put layer index t s).slots p ≡ s.slots p
unfolding put
put-above layer index p m t s b l =
    update-rule (λ q ts. ts ≡ s.slots q) s.slots (layer * 64 + (index + s.indexs layer) % 64)
      (s.slots (layer * 64 + (index + s.indexs layer) % 64)
        ++ record t { tick = t.tick % 64 ^ layer } ∷ [])
      p (λ e. absurd (omega arith)) (λ e. refl)

dispatch_task-put :
    (t : DelayTask) (s : WheelTimer) (layer index : ℕ)
    → get_layer t.tick ≡ some (layer, index)
    → dispatch_task t s ≡ some (put layer index t s)
unfolding dispatch_task put
dispatch_task-put t s layer index e = rw (e, dispatch_task) refl

pub delay_lem :
    (c : ℕ → ℕ) (tick layer index : ℕ)
    → get_layer tick ≡ some (layer, index)
    → delay c tick ≡ tick + 1 - low c layer
unfolding delay
delay_lem c tick layer index e = rw (e, delay) refl

-- The positions are below 64, and those below a layer are those of the accounting.
pub record Agrees (c : ℕ → ℕ) (m : ℕ) (s : WheelTimer) : Type 0 where
  pub small : (k : ℕ) → s.indexs k < 64
  pub same : (k : ℕ) → k < m → c k ≡ s.indexs k

pub dispatch_one :
    (c : ℕ → ℕ) (m : ℕ) (t : DelayTask) (s : WheelTimer)
    → 0 < m
    → m ≤ 5
    → t.tick < 64 ^ m
    → Agrees c m s
    → (s' : WheelTimer) × (dispatch_task t s ≡ some s') × Dispatched c m (t ∷ []) s s'
unfolding delay_sum put
dispatch_one c m t s p q b a =
    let bound : t.tick < 64 ^ 5 = omega (arith, pow_mono m 5 q) in
    let (layer, index, e, h) = get_layer_lem t.tick bound in
    let below = layer_below m t.tick layer index p b h in
    (
      put layer index t s,
      dispatch_task-put t s layer index e,
      record {
        positions = refl;
        added = refl;
        unit = refl;
        placed = put-AllPlaced layer index t s (omega arith);
        emptied = λ other u v. put-IsEmptyAt layer index other t s h u (a.small layer);
        above = λ o u. put-above layer index o m t s below u;
        counted = λ f. omega (
          arith,
          put-total f c layer index t s h (a.same layer below) (a.small layer),
          ap (λ n. f n t.contents) (delay_lem c t.tick layer index e),
        );
      },
    )

Dispatched-trans :
    {c : ℕ → ℕ} {m : ℕ} {t : DelayTask} {ts : List DelayTask} {s u v : WheelTimer}
    → Dispatched c m (t ∷ []) s u
    → Dispatched c m ts u v
    → Dispatched c m (t ∷ ts) s v
unfolding delay_sum IsEmptyAt
Dispatched-trans {c} {m} {t} {ts} {s} {u} {v} d e = record {
  positions = e.positions ∙ d.positions;
  added = e.added ∙ d.added;
  unit = e.unit ∙ d.unit;
  placed = λ h. e.placed (d.placed h);
  emptied = λ layer p q h.
      subst (λ i. v.slots (layer * 64 + i layer % 64) ≡ []) d.positions
        (e.emptied layer p q (
          subst (λ i. u.slots (layer * 64 + i layer % 64) ≡ []) (sym d.positions)
            (d.emptied layer p q h)));
  above = λ p h. e.above p h ∙ d.above p h;
  counted = λ f. omega (arith, d.counted f, e.counted f);
}

-- Tasks below 64 ^ m, at positions below 64 that are those of the accounting below layer m.
pub dispatch_tasks-Dispatched :
    (c : ℕ → ℕ) (m : ℕ) (ts : List DelayTask) (s : WheelTimer)
    → 0 < m
    → m ≤ 5
    → AllBelow (64 ^ m) ts
    → Agrees c m s
    → (s' : WheelTimer) × (dispatch_tasks ts s ≡ some s') × Dispatched c m ts s s'
unfolding dispatch_tasks AllBelow delay_sum
dispatch_tasks-Dispatched c m [] s p q b a = (
  s,
  refl,
  record {
    positions = refl;
    added = refl;
    unit = refl;
    placed = λ h. h;
    emptied = λ layer u v h. h;
    above = λ o u. refl;
    counted = λ f. omega arith;
  },
)
dispatch_tasks-Dispatched c m (t ∷ ts) s p q b a =
    let (u, e, d) = dispatch_one c m t s p q b.0 a in
    let a' : Agrees c m u = record {
      small = λ k. subst (λ i. i k < 64) (sym d.positions) (a.small k);
      same = λ k l. a.same k l ∙ ap (λ (i : ℕ → ℕ). i k) (sym d.positions);
    } in
    let (v, e', d') = dispatch_tasks-Dispatched c m ts u p q b.1 a' in
    (v, rw (e, dispatch_tasks) e', Dispatched-trans d d')
