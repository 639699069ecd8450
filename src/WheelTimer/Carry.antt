-- ===== src/WheelTimer/Carry.antt =====
-- How a task's remaining rounds of wheel_timer.hpp stay the same when a wheel carries over.
use million.Prelude.{
  ℕ, zero, suc, ◌+◌, ◌-◌, ◌*◌, ◌/◌, ◌%◌, ◌^◌, ◌<◌, ◌≤◌, ◌≡◌, ◌≢◌, List, [], ◌∷◌, ◌==◌,
  if◌then◌else◌, arith, refl, ap, sym, ◌∙◌,
}
use million.WheelTimer.{DelayTask}
use million.WheelTimer.Remaining.{low, remaining, slot_sum, total, total_cong}

-- `remaining` in terms of the layer.
unfoldable pub in_layer : (c : ℕ → ℕ) (layer i tick : ℕ) → ℕ
in_layer c layer i tick = (i + 64 - c layer) % 64 * 64 ^ layer + tick % 64 ^ layer + 1 - low c layer

pub remaining-in_layer :
    (c : ℕ → ℕ) (slot tick layer : ℕ)
    → slot / 64 ≡ layer
    → remaining c slot tick ≡ in_layer c layer (slot % 64) tick
unfolding remaining in_layer
remaining-in_layer c slot tick layer e =
    ap (λ l. (slot % 64 + 64 - c l) % 64 * 64 ^ l + tick % 64 ^ l + 1 - low c l) e

-- Wheel `j` goes from 64 to 0, and the next one goes on by one.
abbrev pub carried : (ℕ → ℕ) → ℕ → ℕ → ℕ
carried c j k = if k == j then 0 else if k == suc j then c k + 1 else c k

in_layer-carried :
    (j layer i tick : ℕ) (c d : ℕ → ℕ)
    → j < 4
    → layer < 5
    → i < 64
    → c j ≡ 64
    → c (suc j) < 64
    → ((k : ℕ) → d k ≡ carried c j k)
    → (layer ≡ suc j → i ≢ c (suc j))
    → in_layer c layer i tick ≡ in_layer d layer i tick
unfolding in_layer
in_layer-carried zero zero i tick c d a b l e r h ne = omega (arith, h 0, h 1, h 2, h 3, h 4)
in_layer-carried zero (suc zero) i tick c d a b l e r h ne =
    omega (arith, h 0, h 1, h 2, h 3, h 4, ne refl)
in_layer-carried zero (suc (suc zero)) i tick c d a b l e r h ne =
    omega (arith, h 0, h 1, h 2, h 3, h 4)
in_layer-carried zero (suc (suc (suc zero))) i tick c d a b l e r h ne =
    omega (arith, h 0, h 1, h 2, h 3, h 4)
in_layer-carried zero (suc (suc (suc (suc zero)))) i tick c d a b l e r h ne =
    omega (arith, h 0, h 1, h 2, h 3, h 4)
in_layer-carried (suc zero) zero i tick c d a b l e r h ne = omega (arith, h 0, h 1, h 2, h 3, h 4)
in_layer-carried (suc zero) (suc zero) i tick c d a b l e r h ne =
    omega (arith, h 0, h 1, h 2, h 3, h 4)
in_layer-carried (suc zero) (suc (suc zero)) i tick c d a b l e r h ne =
    omega (arith, h 0, h 1, h 2, h 3, h 4, ne refl)
in_layer-carried (suc zero) (suc (suc (suc zero))) i tick c d a b l e r h ne =
    omega (arith, h 0, h 1, h 2, h 3, h 4)
in_layer-carried (suc zero) (suc (suc (suc (suc zero)))) i tick c d a b l e r h ne =
    omega (arith, h 0, h 1, h 2, h 3, h 4)
in_layer-carried (suc (suc zero)) zero i tick c d a b l e r h ne =
    omega (arith, h 0, h 1, h 2, h 3, h 4)
in_layer-carried (suc (suc zero)) (suc zero) i tick c d a b l e r h ne =
    omega (arith, h 0, h 1, h 2, h 3, h 4)
in_layer-carried (suc (suc zero)) (suc (suc zero)) i tick c d a b l e r h ne =
    omega (arith, h 0, h 1, h 2, h 3, h 4)
in_layer-carried (suc (suc zero)) (suc (suc (suc zero))) i tick c d a b l e r h ne =
    omega (arith, h 0, h 1, h 2, h 3, h 4, ne refl)
in_layer-carried (suc (suc zero)) (suc (suc (suc (suc zero)))) i tick c d a b l e r h ne =
    omega (arith, h 0, h 1, h 2, h 3, h 4)
in_layer-carried (suc (suc (suc zero))) zero i tick c d a b l e r h ne =
    omega (arith, h 0, h 1, h 2, h 3, h 4)
in_layer-carried (suc (suc (suc zero))) (suc zero) i tick c d a b l e r h ne =
    omega (arith, h 0, h 1, h 2, h 3, h 4)
in_layer-carried (suc (suc (suc zero))) (suc (suc zero)) i tick c d a b l e r h ne =
    omega (arith, h 0, h 1, h 2, h 3, h 4)
in_layer-carried (suc (suc (suc zero))) (suc (suc (suc zero))) i tick c d a b l e r h ne =
    omega (arith, h 0, h 1, h 2, h 3, h 4)
in_layer-carried (suc (suc (suc zero))) (suc (suc (suc (suc zero)))) i tick c d a b l e r h ne =
    omega (arith, h 0, h 1, h 2, h 3, h 4, ne refl)
in_layer-carried (suc (suc (suc (suc j)))) layer i tick c d a b l e r h ne = absurd (omega arith)
in_layer-carried j (suc (suc (suc (suc (suc layer))))) i tick c d a b l e r h ne =
    absurd (omega arith)

in_layer-stepped :
    (layer i tick : ℕ) (c d : ℕ → ℕ)
    → layer < 5
    → i < 64
    → ((k : ℕ) → c k < 64)
    → ((k : ℕ) → d k ≡ (if k == 0 then c 0 + 1 else c k))
    → i ≢ c layer
    → in_layer c layer i tick ≡ suc (in_layer d layer i tick)
unfolding in_layer
in_layer-stepped zero i tick c d a l r h ne =
    omega (arith, r 0, r 1, r 2, r 3, r 4, h 0, h 1, h 2, h 3, h 4, ne)
in_layer-stepped (suc zero) i tick c d a l r h ne =
    omega (arith, r 0, r 1, r 2, r 3, r 4, h 0, h 1, h 2, h 3, h 4, ne)
in_layer-stepped (suc (suc zero)) i tick c d a l r h ne =
    omega (arith, r 0, r 1, r 2, r 3, r 4, h 0, h 1, h 2, h 3, h 4, ne)
in_layer-stepped (suc (suc (suc zero))) i tick c d a l r h ne =
    omega (arith, r 0, r 1, r 2, r 3, r 4, h 0, h 1, h 2, h 3, h 4, ne)
in_layer-stepped (suc (suc (suc (suc zero)))) i tick c d a l r h ne =
    omega (arith, r 0, r 1, r 2, r 3, r 4, h 0, h 1, h 2, h 3, h 4, ne)
in_layer-stepped (suc (suc (suc (suc (suc layer))))) i tick c d a l r h ne = absurd (omega arith)

-- The top wheel goes from 64 to 0.
in_layer-wrapped :
    (layer i tick : ℕ) (c d : ℕ → ℕ)
    → layer < 5
    → c 4 ≤ 64
    → ((k : ℕ) → d k ≡ (if k == 4 then c 4 % 64 else c k))
    → in_layer c layer i tick ≡ in_layer d layer i tick
unfolding in_layer
in_layer-wrapped zero i tick c d a r h = omega (arith, h 0, h 1, h 2, h 3, h 4)
in_layer-wrapped (suc zero) i tick c d a r h = omega (arith, h 0, h 1, h 2, h 3, h 4)
in_layer-wrapped (suc (suc zero)) i tick c d a r h = omega (arith, h 0, h 1, h 2, h 3, h 4)
in_layer-wrapped (suc (suc (suc zero))) i tick c d a r h = omega (arith, h 0, h 1, h 2, h 3, h 4)
in_layer-wrapped (suc (suc (suc (suc zero)))) i tick c d a r h =
    omega (arith, h 0, h 1, h 2, h 3, h 4)
in_layer-wrapped (suc (suc (suc (suc (suc layer))))) i tick c d a r h = absurd (omega arith)

-- A task that its wheel has not come to has a round left.
in_layer_pos :
    (layer i tick : ℕ) (c : ℕ → ℕ)
    → layer < 5
    → i < 64
    → ((k : ℕ) → c k < 64)
    → (0 < layer → i ≢ c layer)
    → 0 < in_layer c layer i tick
unfolding in_layer
in_layer_pos zero i tick c a l r ne = omega (arith, r 0, r 1, r 2, r 3, r 4)
in_layer_pos (suc zero) i tick c a l r ne = omega (arith, r 0, r 1, r 2, r 3, r 4, ne (omega arith))
in_layer_pos (suc (suc zero)) i tick c a l r ne =
    omega (arith, r 0, r 1, r 2, r 3, r 4, ne (omega arith))
in_layer_pos (suc (suc (suc zero))) i tick c a l r ne =
    omega (arith, r 0, r 1, r 2, r 3, r 4, ne (omega arith))
in_layer_pos (suc (suc (suc (suc zero)))) i tick c a l r ne =
    omega (arith, r 0, r 1, r 2, r 3, r 4, ne (omega arith))
in_layer_pos (suc (suc (suc (suc (suc layer))))) i tick c a l r ne = absurd (omega arith)

pub slot_sum_cong :
    (f g : ℕ → ℕ → ℕ) (c d : ℕ → ℕ) (p : ℕ) (ts : List DelayTask)
    → ((tick contents : ℕ) → f (remaining c p tick) contents ≡ g (remaining d p tick) contents)
    → slot_sum f c p ts ≡ slot_sum g d p ts
unfolding slot_sum
slot_sum_cong f g c d p [] h = refl
slot_sum_cong f g c d p (t ∷ ts) h =
    omega (arith, h t.tick t.contents, slot_sum_cong f g c d p ts h)

-- The sum is the same at other positions if the tasks have as many rounds left in each slot that is
-- not known to be empty.
total_moved :
    (f g : ℕ → ℕ → ℕ) (c d : ℕ → ℕ) (slots : ℕ → List DelayTask)
    → ((layer i tick contents : ℕ)
        → layer < 5
        → i < 64
        → slots (layer * 64 + i) ≢ []
        → f (in_layer c layer i tick) contents ≡ g (in_layer d layer i tick) contents)
    → total f c slots 320 ≡ total g d slots 320
unfolding slot_sum
total_moved f g c d slots h = total_cong f g c d slots 320 (λ p l. slot_moved p (slots p) l refl)
  where
    slot_moved :
        (p : ℕ) (ts : List DelayTask)
        → p < 320
        → slots p ≡ ts
        → slot_sum f c p ts ≡ slot_sum g d p ts
    slot_moved p [] l e = refl
    slot_moved p (t ∷ ts) l e =
        let whole : p / 64 * 64 + p % 64 ≡ p = omega arith in
        let filled : slots (p / 64 * 64 + p % 64) ≡ t ∷ ts = ap slots whole ∙ e in
        slot_sum_cong f g c d p (t ∷ ts) (λ tick contents.
          ap (λ n. f n contents) (remaining-in_layer c p tick (p / 64) refl)
          ∙ h (p / 64) (p % 64) tick contents (omega arith) (omega arith) (λ z. cc)
          ∙ ap (λ n. g n contents) (sym (remaining-in_layer d p tick (p / 64) refl)))

pub total-carried :
    (f : ℕ → ℕ → ℕ) (j : ℕ) (c d : ℕ → ℕ) (slots : ℕ → List DelayTask)
    → j < 4
    → c j ≡ 64
    → c (suc j) < 64
    → ((k : ℕ) → d k ≡ carried c j k)
    → slots (suc j * 64 + c (suc j)) ≡ []
    → total f c slots 320 ≡ total f d slots 320
total-carried f j c d slots a e r h none_there =
    total_moved f f c d slots (λ layer i tick contents l b filled.
      ap (λ n. f n contents)
        (in_layer-carried j layer i tick c d a l b e r h (λ same at.
          filled (
            ap (λ n. slots (n * 64 + i)) same ∙ ap (λ n. slots (suc j * 64 + n)) at ∙ none_there))))

pub total-stepped :
    (f : ℕ → ℕ → ℕ) (c d : ℕ → ℕ) (slots : ℕ → List DelayTask)
    → ((k : ℕ) → c k < 64)
    → ((k : ℕ) → d k ≡ (if k == 0 then c 0 + 1 else c k))
    → ((layer : ℕ) → layer < 5 → slots (layer * 64 + c layer) ≡ [])
    → total f c slots 320 ≡ total (λ n. f (suc n)) d slots 320
total-stepped f c d slots r h none_there =
    total_moved f (λ n. f (suc n)) c d slots
      (λ layer i tick contents l b filled.
        ap (λ n. f n contents)
          (in_layer-stepped layer i tick c d l b r h
            (λ at. filled (ap (λ n. slots (layer * 64 + n)) at ∙ none_there layer l))))

pub total-wrapped :
    (f : ℕ → ℕ → ℕ) (c d : ℕ → ℕ) (slots : ℕ → List DelayTask)
    → c 4 ≤ 64
    → ((k : ℕ) → d k ≡ (if k == 4 then c 4 % 64 else c k))
    → total f c slots 320 ≡ total f d slots 320
total-wrapped f c d slots r h = total_moved f f c d slots (λ layer i tick contents l b filled.
    ap (λ n. f n contents) (in_layer-wrapped layer i tick c d l r h))

-- Weights that agree where a round is left have the same sum.
pub total_pos :
    (f g : ℕ → ℕ → ℕ) (c : ℕ → ℕ) (slots : ℕ → List DelayTask)
    → ((k : ℕ) → c k < 64)
    → ((layer : ℕ) → 0 < layer → layer < 5 → slots (layer * 64 + c layer) ≡ [])
    → ((n contents : ℕ) → 0 < n → f n contents ≡ g n contents)
    → total f c slots 320 ≡ total g c slots 320
total_pos f g c slots r none_there h =
    total_moved f g c c slots (λ layer i tick contents l b filled.
      h (in_layer c layer i tick) contents (
        in_layer_pos layer i tick c l b r
          (λ p at. filled (ap (λ n. slots (layer * 64 + n)) at ∙ none_there layer p l))))

slot_sum_zero : (c : ℕ → ℕ) (p : ℕ) (ts : List DelayTask) → slot_sum (λ n contents. 0) c p ts ≡ 0
unfolding slot_sum
slot_sum_zero c p [] = refl
slot_sum_zero c p (t ∷ ts) = omega (arith, slot_sum_zero c p ts)

pub total_zero :
    (c : ℕ → ℕ) (slots : ℕ → List DelayTask) (n : ℕ) → total (λ m contents. 0) c slots n ≡ 0
unfolding total
total_zero c slots zero = refl
total_zero c slots (suc n) = omega (arith, slot_sum_zero c n (slots n), total_zero c slots n)
