-- ===== src/WheelTimer/Rounds.antt =====
-- One round of wheel_timer.hpp: the tasks that it calls back, and those that it keeps.
use million.Prelude.{
  ℕ, zero, suc, ◌+◌, ◌*◌, ◌/◌, ◌%◌, ◌^◌, ◌<◌, ◌≤◌, ◌≡◌, ◌≢◌, List, [], ◌∷◌, ◌==◌, leb,
  if◌then◌else◌, some, true, false, arith, refl, ap, subst, sym, ◌∙◌, Bool-cases, inl, inr, tests,
  dec_lt,
}
use million.WheelTimer.{DelayTask, WheelTimer, update, turn, advance, round}
use million.WheelTimer.Remaining.{remaining, slot_sum, total, AllBelow, total-update}
use million.WheelTimer.Dispatch.{AllPlaced, IsEmptyAt, update-rule}
use million.WheelTimer.Carry.{
  in_layer, remaining-in_layer, total-carried, total-wrapped, total-stepped,
}
use million.WheelTimer.Turn.{IsWheel, IsCarrying, Turned, turn-Turned}

-- After the wheels have been advanced: the tasks are as many rounds away as before.
pub record Advanced (s t : WheelTimer) : Type 0 where
  pub wheel : IsWheel t
  pub added : t.adds ≡ s.adds
  pub unit : t.ms_per_tick ≡ s.ms_per_tick
  pub counted : (f : ℕ → ℕ → ℕ) → total f t.indexs t.slots 320 ≡ total f s.indexs s.slots 320

-- No wheel carries over.
settled :
    (j : ℕ) (s t : WheelTimer)
    → Turned j s t
    → ((k : ℕ) → t.indexs k ≡ (if k == 4 then s.indexs 4 % 64 else s.indexs k))
    → s.indexs 4 ≤ 64
    → Advanced s t
settled j s t d e r = record {
  wheel = d.wheel;
  added = d.added;
  unit = d.unit;
  counted = λ f. sym (total-wrapped f s.indexs t.indexs t.slots r e) ∙ d.counted f;
}

next_state : ℕ → WheelTimer → WheelTimer
next_state j t = record t { indexs = update t.indexs (suc j) (t.indexs (suc j) + 1) }

-- Wheel `j` was through, and the next one goes on.
next-IsCarrying :
    (j : ℕ) (s t : WheelTimer)
    → j < 4
    → s.indexs j ≡ 64
    → IsCarrying j s
    → Turned j s t
    → IsCarrying (suc j) (next_state j t)
unfolding IsEmptyAt next_state
next-IsCarrying j s t l e h d = record {
  zeros = λ k m. ground (arith, d.positions k, h.zeros k);
  range = ground (arith, d.wheel.small (suc j));
  small = λ k ne. ground (arith, d.wheel.small k);
  placed = d.wheel.placed;
  emptied = λ layer p m ne.
      let same : t.indexs layer ≡ update t.indexs (suc j) (t.indexs (suc j) + 1) layer =
        ground arith in
      subst (λ n. t.slots (layer * 64 + n % 64) ≡ []) same (d.wheel.emptied layer p m);
}

advance_last : (j : ℕ) (s : WheelTimer) → advance zero j s ≡ turn j s
unfolding advance
advance_last j s = refl

advance_stop :
    (n j : ℕ) (s t : WheelTimer)
    → turn j s ≡ some t
    → leb 64 (s.indexs j) ≡ false
    → advance (suc n) j s ≡ some t
unfolding advance
advance_stop n j s t e more = rw (e, more, advance) refl

advance_more :
    (n j : ℕ) (s t : WheelTimer)
    → turn j s ≡ some t
    → leb 64 (s.indexs j) ≡ true
    → advance (suc n) j s ≡ advance n (suc j) (next_state j t)
unfolding advance next_state
advance_more n j s t e full = rw (e, full, advance) refl

-- A turn that does not go past the end of a wheel, or that is at the top, moves no other wheel.
positions_settled :
    (j : ℕ) (s t : WheelTimer) (k : ℕ)
    → Turned j s t
    → IsCarrying j s
    → (j ≢ 4 → s.indexs j < 64)
    → t.indexs k ≡ (if k == 4 then s.indexs 4 % 64 else s.indexs k)
positions_settled j s t k d h l = elim (Bool-cases (k == j)) [
  | inl q ↦
      let same : s.indexs k ≡ s.indexs j = ap s.indexs (ground arith) in
      ground (arith, d.positions k, same, l)
  | inr q ↦ ground (arith, d.positions k, h.small k)
]

counted_next :
    (j : ℕ) (s t u : WheelTimer)
    → j < 4
    → s.indexs j ≡ 64
    → IsCarrying j s
    → Turned j s t
    → Advanced (next_state j t) u
    → Advanced s u
unfolding next_state IsEmptyAt
counted_next j s t u l e h d a = record {
  wheel = a.wheel;
  added = a.added ∙ d.added;
  unit = a.unit ∙ d.unit;
  counted = λ f.
      a.counted f
      ∙ sym (
          total-carried f j s.indexs (update t.indexs (suc j) (t.indexs (suc j) + 1)) t.slots l e
            (h.small (suc j) (omega arith))
            (λ k. ground (arith, d.positions k, d.positions (suc j)))
            (subst (λ n. t.slots (suc j * 64 + n) ≡ [])
              (ground (arith, d.positions (suc j), h.small (suc j)))
              (d.wheel.emptied (suc j) (omega arith) (omega arith))))
      ∙ d.counted f;
}

advance-Advanced :
    (n j : ℕ) (s : WheelTimer)
    → n + j ≡ 4
    → IsCarrying j s
    → (t : WheelTimer) × (advance n j s ≡ some t) × Advanced s t
advance-Advanced zero j s e h =
    let (t, eq, d) = turn-Turned j s (omega arith) h in
    let top : j ≡ 4 = omega arith in
    (
      t,
      advance_last j s ∙ eq,
      settled j s t d (λ k. positions_settled j s t k d h (λ ne. absurd (ne top)))
          (omega (arith, h.range, ap s.indexs top)),
    )
advance-Advanced (suc n) j s e h =
    let (t, eq, d) = turn-Turned j s (omega arith) h in
    elim (Bool-cases (leb 64 (s.indexs j))) [
      | inl full ↦
          let at : s.indexs j ≡ 64 = omega (tests, h.range) in
          let (u, eq', a) =
            advance-Advanced n (suc j) (next_state j t) (omega arith)
              (next-IsCarrying j s t (omega arith) at h d) in
          (u, advance_more n j s t eq full ∙ eq', counted_next j s t u (omega arith) at h d a)
      | inr more ↦ (
        t,
        advance_stop n j s t eq more,
        settled j s t d (λ k. positions_settled j s t k d h (λ ne. ground arith))
            (ground (arith, h.small 4, h.range)),
      )
    ]

-- The state with the due slot emptied and the first wheel one further.
fired_state : WheelTimer → WheelTimer
fired_state s = record s {
  slots = update s.slots (s.indexs 0) [];
  indexs = update s.indexs 0 (s.indexs 0 + 1);
}

-- The sum of a weight over the tasks that are called back.
unfoldable pub fired_sum : (ℕ → ℕ) → List DelayTask → ℕ
fired_sum g [] = 0
fired_sum g (t ∷ ts) = g t.contents + fired_sum g ts

-- One round: what is called back had one round left, the rest has one less.
pub record Rounded (s : WheelTimer) (fired : List DelayTask) (t : WheelTimer) : Type 0 where
  pub wheel : IsWheel t
  pub added : t.adds ≡ s.adds
  pub unit : t.ms_per_tick ≡ s.ms_per_tick
  pub counted :
      (f : ℕ → ℕ → ℕ)
      → total f s.indexs s.slots 320
        ≡ fired_sum (f 1) fired + total (λ n. f (suc n)) t.indexs t.slots 320

emptied_here :
    (s : WheelTimer) (layer : ℕ)
    → IsWheel s
    → layer < 5
    → update s.slots (s.indexs 0) [] (layer * 64 + s.indexs layer) ≡ []
unfolding IsEmptyAt
emptied_here s layer w l =
    update-rule (λ q ts. ts ≡ []) s.slots (s.indexs 0) [] (layer * 64 + s.indexs layer) (λ e. refl)
      (λ ne. elim (dec_lt 0 layer) [
        | yes p ↦
            subst (λ n. s.slots (layer * 64 + n) ≡ []) (omega (arith, w.small layer))
              (w.emptied layer p l)
        | no z ↦
            absurd
              (ne (let first : layer ≡ 0 = omega arith in omega (arith, first, ap s.indexs first)))
      ])

fired_state-IsCarrying : (s : WheelTimer) → IsWheel s → IsCarrying 0 (fired_state s)
unfolding fired_state IsEmptyAt AllPlaced AllBelow
fired_state-IsCarrying s w = record {
  zeros = λ k l. absurd (omega arith);
  range = ground (arith, w.small 0);
  small = λ k ne. ground (arith, w.small k);
  placed = λ p l.
      update-rule (λ q ts. AllBelow (64 ^ (q / 64)) ts) s.slots (s.indexs 0) [] p (λ e. tt)
        (λ ne. w.placed p l);
  emptied = λ layer p l ne.
      let same : s.indexs layer ≡ update s.indexs 0 (s.indexs 0 + 1) layer = ground arith in
      subst (λ n. update s.slots (s.indexs 0) [] (layer * 64 + n % 64) ≡ []) same
        (update-rule (λ q ts. ts ≡ []) s.slots (s.indexs 0) [] (layer * 64 + s.indexs layer % 64)
          (λ e. refl) (λ z. w.emptied layer p l));
}

slot_sum-fired_sum :
    (f : ℕ → ℕ → ℕ) (c : ℕ → ℕ) (ts : List DelayTask)
    → c 0 < 64
    → slot_sum f c (c 0) ts ≡ fired_sum (f 1) ts
unfolding slot_sum fired_sum in_layer
slot_sum-fired_sum f c [] l = refl
slot_sum-fired_sum f c (t ∷ ts) l =
    let one : remaining c (c 0) t.tick ≡ 1 =
      remaining-in_layer c (c 0) t.tick 0 (omega arith) ∙ omega arith in
    omega (arith, ap (λ n. f n t.contents) one, slot_sum-fired_sum f c ts l)

pub round-Rounded :
    (s : WheelTimer)
    → IsWheel s
    → (t : WheelTimer) × (round s ≡ some (s.slots (s.indexs 0), t))
      × Rounded s (s.slots (s.indexs 0)) t
unfolding round fired_state slot_sum
round-Rounded s w =
    let (t, e, a) = advance-Advanced 4 0 (fired_state s) refl (fired_state-IsCarrying s w) in
    let c = s.indexs in
    (
      t,
      rw (e, round) refl,
      record {
        wheel = a.wheel;
        added = a.added;
        unit = a.unit;
        counted = λ f.
            let small : c 0 < 320 = omega (arith, w.small 0) in
            omega (
              arith,
              total-update f c s.slots (c 0) 320 [] small,
              slot_sum-fired_sum f c (s.slots (c 0)) (w.small 0),
              total-stepped f c (update c 0 (c 0 + 1)) (update s.slots (c 0) []) w.small
                  (λ k. ground arith) (λ layer l. emptied_here s layer w l),
              a.counted (λ n. f (suc n)),
            );
      },
    )
