-- ===== src/WheelTimer/Remaining.antt =====
-- How many rounds of wheel_timer.hpp a stored task has left, and sums over the stored tasks.
use million.Prelude.{
  ℕ, zero, suc, ◌+◌, ◌-◌, ◌*◌, ◌/◌, ◌%◌, ◌^◌, ◌<◌, ◌≤◌, ◌≡◌, ◌⊎◌, List, [], ◌∷◌, ◌++◌, none, some,
  arith, refl, dec_lt, subst,
}
use million.WheelTimer.{DelayTask, update, get_layer}

-- The part of the clock below a layer.
abbrev pub low : (ℕ → ℕ) → ℕ → ℕ
low c zero = 0
low c (suc layer) = low c layer + c layer * 64 ^ layer

-- The rounds until a task is called back, from its slot and its ticks at the positions `c`: as many
-- turns of its layer as its slot is ahead, less what the lower wheels have done of the first.
unfoldable pub remaining : (ℕ → ℕ) → ℕ → ℕ → ℕ
remaining c slot tick =
    (slot % 64 + 64 - c (slot / 64)) % 64 * 64 ^ (slot / 64)
    + tick % 64 ^ (slot / 64)
    + 1
    - low c (slot / 64)

-- The same for a new task.
unfoldable pub delay : (ℕ → ℕ) → ℕ → ℕ
delay c tick = elim (get_layer tick) [ none ↦ 0 | some (layer, index) ↦ tick + 1 - low c layer ]

-- A weight of each task, by the rounds that it has left and its contents, summed over a slot, and
-- over the first slots of the array.
unfoldable pub slot_sum : (ℕ → ℕ → ℕ) → (ℕ → ℕ) → ℕ → List DelayTask → ℕ
slot_sum f c slot [] = 0
slot_sum f c slot (t ∷ ts) = f (remaining c slot t.tick) t.contents + slot_sum f c slot ts

unfoldable pub total : (ℕ → ℕ → ℕ) → (ℕ → ℕ) → (ℕ → List DelayTask) → ℕ → ℕ
unfolding slot_sum
total f c slots zero = 0
total f c slots (suc n) = total f c slots n + slot_sum f c n (slots n)

-- All tasks of a list have ticks below a bound.
unfoldable pub AllBelow : ℕ → List DelayTask → Type 0
AllBelow bound [] = Unit
AllBelow bound (t ∷ ts) = (t.tick < bound) × AllBelow bound ts

pub slot_sum-append :
    (f : ℕ → ℕ → ℕ) (c : ℕ → ℕ) (slot : ℕ) (ts : List DelayTask) (t : DelayTask)
    → slot_sum f c slot (ts ++ t ∷ [])
      ≡ slot_sum f c slot ts + f (remaining c slot t.tick) t.contents
unfolding slot_sum
slot_sum-append f c slot [] t = omega arith
slot_sum-append f c slot (u ∷ ts) t = omega (arith, slot_sum-append f c slot ts t)

pub AllBelow-append :
    (bound : ℕ) (ts : List DelayTask) (t : DelayTask)
    → AllBelow bound ts
    → t.tick < bound
    → AllBelow bound (ts ++ t ∷ [])
unfolding AllBelow
AllBelow-append bound [] t h k = (k, tt)
AllBelow-append bound (u ∷ ts) t h k = (h.0, AllBelow-append bound ts t h.1 k)

pub total_cong :
    (f g : ℕ → ℕ → ℕ) (c d : ℕ → ℕ) (slots : ℕ → List DelayTask) (n : ℕ)
    → ((p : ℕ) → p < n → slot_sum f c p (slots p) ≡ slot_sum g d p (slots p))
    → total f c slots n ≡ total g d slots n
unfolding total
total_cong f g c d slots zero h = refl
total_cong f g c d slots (suc n) h =
    omega (arith, h n (omega arith), total_cong f g c d slots n (λ p l. h p (omega arith)))

total-update_of_le :
    (f : ℕ → ℕ → ℕ) (c : ℕ → ℕ) (slots : ℕ → List DelayTask) (p n : ℕ) (ts : List DelayTask)
    → n ≤ p
    → total f c (update slots p ts) n ≡ total f c slots n
unfolding total
total-update_of_le f c slots p zero ts h = refl
total-update_of_le f c slots p (suc n) ts h =
    ground (arith, total-update_of_le f c slots p n ts (omega arith))

total-update_last :
    (f : ℕ → ℕ → ℕ) (c : ℕ → ℕ) (slots : ℕ → List DelayTask) (p : ℕ) (ts : List DelayTask)
    → total f c (update slots p ts) (suc p) + slot_sum f c p (slots p)
      ≡ total f c slots (suc p) + slot_sum f c p ts
unfolding total
total-update_last f c slots p ts = ground (arith, total-update_of_le f c slots p p ts (omega arith))

-- A slot's new tasks count in place of its old ones.
pub total-update :
    (f : ℕ → ℕ → ℕ) (c : ℕ → ℕ) (slots : ℕ → List DelayTask) (p n : ℕ) (ts : List DelayTask)
    → p < n
    → total f c (update slots p ts) n + slot_sum f c p (slots p)
      ≡ total f c slots n + slot_sum f c p ts
unfolding total
total-update f c slots p zero ts h = absurd (omega arith)
total-update f c slots p (suc n) ts h = elim (dec_lt p n) [
  | yes below ↦ ground (arith, total-update f c slots p n ts below)
  | no last ↦
      subst
        (λ m.
          total f c (update slots p ts) (suc m) + slot_sum f c p (slots p)
          ≡ total f c slots (suc m) + slot_sum f c p ts)
        (omega arith) (total-update_last f c slots p ts)
]

-- A slot of the wheels is in one of the five layers.
pub layer_cases :
    (slot : ℕ)
    → slot < 320
    → (slot / 64 ≡ 0) ⊎ (slot / 64 ≡ 1) ⊎ (slot / 64 ≡ 2) ⊎ (slot / 64 ≡ 3) ⊎ (slot / 64 ≡ 4)
layer_cases slot h = ground arith
