-- ===== src/WheelTimer/Turn.antt =====
-- One turn of the loop of wheel_timer.hpp that advances the wheels, and that loop.
use million.Prelude.{
  ℕ, zero, suc, ◌+◌, ◌-◌, ◌*◌, ◌/◌, ◌%◌, ◌^◌, ◌<◌, ◌≤◌, ◌≡◌, ◌≢◌, List, [], ◌∷◌, ◌==◌, leb, ltb,
  if◌then◌else◌, some, true, arith, refl, ap, subst, sym, ◌∙◌, Bool-cases, inl, inr, tests,
}
use native.Mathlib.Nat.{mod-eq_of_lt}
use million.WheelTimer.{DelayTask, WheelTimer, update, dispatch_slot, turn}
use million.WheelTimer.Layer.{get_layer_lem}
use million.WheelTimer.Remaining.{low, remaining, delay, slot_sum, total, AllBelow, total-update}
use million.WheelTimer.Dispatch.{
  AllPlaced, IsEmptyAt, delay_sum, Agrees, dispatch_tasks-Dispatched, update-rule, delay_lem,
  layer_below, pow_mono,
}
use million.WheelTimer.Carry.{in_layer, remaining-in_layer}

-- What holds between two rounds.
pub record IsWheel (s : WheelTimer) : Type 0 where
  pub small : (k : ℕ) → s.indexs k < 64
  pub placed : AllPlaced s.slots
  pub emptied : (layer : ℕ) → 0 < layer → layer < 5 → IsEmptyAt s.indexs layer s.slots

-- What holds when the loop comes to layer `j`.
pub record IsCarrying (j : ℕ) (s : WheelTimer) : Type 0 where
  pub zeros : (k : ℕ) → k < j → s.indexs k ≡ 0
  pub range : s.indexs j ≤ 64
  pub small : (k : ℕ) → k ≢ j → s.indexs k < 64
  pub placed : AllPlaced s.slots
  pub emptied : (layer : ℕ) → 0 < layer → layer < 5 → layer ≢ j → IsEmptyAt s.indexs layer s.slots

-- After a turn the wheel at layer `j` is in range, and its tasks are where their rounds say.
pub record Turned (j : ℕ) (s t : WheelTimer) : Type 0 where
  pub positions : (k : ℕ) → t.indexs k ≡ (if k == j then s.indexs j % 64 else s.indexs k)
  pub wheel : IsWheel t
  pub added : t.adds ≡ s.adds
  pub unit : t.ms_per_tick ≡ s.ms_per_tick
  pub counted : (f : ℕ → ℕ → ℕ) → total f s.indexs t.slots 320 ≡ total f s.indexs s.slots 320

low_zero : (c : ℕ → ℕ) (j : ℕ) → ((k : ℕ) → k < j → c k ≡ 0) → low c j ≡ 0
low_zero c zero h = refl
low_zero c (suc j) h =
    let e = h j (omega arith) in
    let ih = low_zero c j (λ k l. h k (omega arith)) in rw (e, ih) (omega arith)

-- The tasks of a slot that the wheel of its layer has come to, with the lower wheels at their start,
-- have as many rounds left as new tasks.
slot_sum-delay_sum :
    (f : ℕ → ℕ → ℕ) (c : ℕ → ℕ) (j : ℕ) (ts : List DelayTask)
    → 0 < j
    → j < 5
    → c j ≤ 64
    → ((k : ℕ) → k < j → c k ≡ 0)
    → AllBelow (64 ^ j) ts
    → slot_sum f c (j * 64 + c j % 64) ts ≡ delay_sum f c ts
unfolding slot_sum delay_sum AllBelow in_layer
slot_sum-delay_sum f c j [] p l r z b = refl
slot_sum-delay_sum f c j (t ∷ ts) p l r z b =
    let ih = slot_sum-delay_sum f c j ts p l r z b.1 in
    let (layer, index, e, h) =
      get_layer_lem t.tick (omega (arith, b.0, pow_mono j 5 (omega arith))) in
    let below = layer_below j t.tick layer index p b.0 h in
    let new : delay c t.tick ≡ t.tick + 1 =
      omega
        (arith, delay_lem c t.tick layer index e, low_zero c layer (λ k m. z k (omega arith))) in
    let here : (j * 64 + c j % 64) / 64 ≡ j = omega arith in
    let turns : ((j * 64 + c j % 64) % 64 + 64 - c j) % 64 ≡ 0 = omega arith in
    let old : remaining c (j * 64 + c j % 64) t.tick ≡ t.tick + 1 =
      remaining-in_layer c (j * 64 + c j % 64) t.tick j here
      ∙ omega (arith, ap (λ n. n * 64 ^ j) turns, mod-eq_of_lt b.0, low_zero c j z) in
    omega (arith, ih, ap (λ n. f n t.contents) (old ∙ sym new))

-- The positions once the wheel at layer `j` is back at its start if it was through.
wrapped : ℕ → (ℕ → ℕ) → ℕ → ℕ
wrapped j c = if leb 64 (c j) then update c j 0 else c

wrapped_lem :
    (j : ℕ) (c : ℕ → ℕ) (k : ℕ) → c j ≤ 64 → wrapped j c k ≡ (if k == j then c j % 64 else c k)
unfolding wrapped
wrapped_lem j c k h = elim (Bool-cases (leb 64 (c j))) [
  | inl e ↦ let m : c j % 64 ≡ 0 = omega (tests, e) in rw (e, m) refl
  | inr e ↦
      let m : c j % 64 ≡ c j = ground arith in
      elim (Bool-cases (k == j)) [
        | inl q ↦ let same : k ≡ j = ground arith in rw (e, q) (ap c same ∙ sym m)
        | inr q ↦ rw (e, q) refl
      ]
]

turn_lem :
    (j : ℕ) (s : WheelTimer)
    → (let t = record s { indexs = wrapped j s.indexs } in
        turn j s ≡ (if ltb 0 j then dispatch_slot (j * 64 + wrapped j s.indexs j) t else some t))
unfolding turn wrapped
turn_lem j s = elim (Bool-cases (leb 64 (s.indexs j))) [ inl e ↦ rw e refl | inr e ↦ rw e refl ]

-- After the slot at a wheel's position is cleared.
cleared :
    (j layer : ℕ) (i : ℕ → ℕ) (slots : ℕ → List DelayTask)
    → i j < 64
    → (layer ≢ j → slots (layer * 64 + i layer % 64) ≡ [])
    → update slots (j * 64 + i j) [] (layer * 64 + i layer % 64) ≡ []
cleared j layer i slots l h =
    update-rule (λ q ts. ts ≡ []) slots (j * 64 + i j) [] (layer * 64 + i layer % 64) (λ z. refl)
      (λ ne. h (λ same. ne (omega (arith, same, ap i same))))

-- The tasks of the slot that a wheel has come to are put into lower layers.
handed_down :
    (j : ℕ) (s : WheelTimer) (i : ℕ → ℕ)
    → 0 < j
    → j < 5
    → IsCarrying j s
    → ((k : ℕ) → i k ≡ (if k == j then s.indexs j % 64 else s.indexs k))
    → (t : WheelTimer) × (dispatch_slot (j * 64 + i j) (record s { indexs = i }) ≡ some t)
      × Turned j s t
unfolding dispatch_slot AllBelow AllPlaced IsEmptyAt slot_sum
handed_down j s i p l h e =
    let r : WheelTimer = record s { indexs = i } in
    let slot = j * 64 + i j in
    let at : i j ≡ s.indexs j % 64 = ground (arith, e j) in
    let below : AllBelow (64 ^ j) (s.slots slot) =
      let there : slot / 64 ≡ j = omega arith in
      subst (λ n. AllBelow (64 ^ n) (s.slots slot)) there (h.placed slot (omega arith)) in
    let agrees : Agrees s.indexs j r = record {
      small = λ k. ground (arith, e k, h.small k);
      same = λ k m. ground (arith, e k);
    } in
    let (u, eq, d) =
      dispatch_tasks-Dispatched s.indexs j (s.slots slot) r p (omega arith) below agrees in
    (
      record u { slots = update u.slots slot [] },
      rw (eq, dispatch_slot) refl,
      record {
        positions = λ k. ap (λ (f : ℕ → ℕ). f k) d.positions ∙ e k;
        wheel = record {
          small = λ k. subst (λ f. f k < 64) (sym d.positions) (agrees.small k);
          placed = λ p' l'.
              update-rule (λ q ts. AllBelow (64 ^ (q / 64)) ts) u.slots slot [] p' (λ z. tt)
                (λ z. d.placed h.placed p' l');
          emptied = λ layer p' l'.
              subst (λ x. update u.slots slot [] (layer * 64 + x layer % 64) ≡ []) (sym d.positions)
                (cleared j layer i u.slots (agrees.small j) (λ ne.
                  let same : s.indexs layer ≡ i layer = ground (arith, e layer) in
                  d.emptied layer p' l' (
                    subst (λ n. s.slots (layer * 64 + n % 64) ≡ []) same
                      (h.emptied layer p' l' ne))));
        };
        added = d.added;
        unit = d.unit;
        counted = λ f. omega (
          arith,
          total-update f s.indexs u.slots slot 320 [] (omega (arith, agrees.small j)),
          d.counted f,
          ap (slot_sum f s.indexs slot) (d.above slot (omega arith)),
          subst
              (λ n.
                slot_sum f s.indexs (j * 64 + n) (s.slots slot)
                ≡ delay_sum f s.indexs (s.slots slot))
              (sym at) (slot_sum-delay_sum f s.indexs j (s.slots slot) p l h.range h.zeros below),
        );
      },
    )

turn_bottom :
    (s : WheelTimer) → IsCarrying 0 s → Turned 0 s (record s { indexs = wrapped 0 s.indexs })
unfolding IsEmptyAt
turn_bottom s h =
    let at : (k : ℕ) → wrapped 0 s.indexs k ≡ (if k == 0 then s.indexs 0 % 64 else s.indexs k) =
      λ k. wrapped_lem 0 s.indexs k h.range in
    record {
      positions = at;
      wheel = record {
        small = λ k. ground (arith, at k, h.small k);
        placed = h.placed;
        emptied = λ layer p l.
            let same : s.indexs layer ≡ wrapped 0 s.indexs layer = ground (arith, at layer) in
            subst (λ n. s.slots (layer * 64 + n % 64) ≡ []) same
              (h.emptied layer p l (omega arith));
      };
      added = refl;
      unit = refl;
      counted = λ f. refl;
    }

pub turn-Turned :
    (j : ℕ) (s : WheelTimer)
    → j < 5
    → IsCarrying j s
    → (t : WheelTimer) × (turn j s ≡ some t) × Turned j s t
turn-Turned zero s l h = (record s { indexs = wrapped 0 s.indexs }, turn_lem 0 s, turn_bottom s h)
turn-Turned (suc j) s l h =
    let i = wrapped (suc j) s.indexs in
    let (t, e, d) =
      handed_down (suc j) s i (omega arith) l h (λ k. wrapped_lem (suc j) s.indexs k h.range) in
    let up : ltb 0 (suc j) ≡ true = ground arith in (t, turn_lem (suc j) s ∙ rw up e, d)
