-- ===== src/RunQueue/Drain.antt =====
-- Whether the workers come to an end with the messages that were sent, however their steps interleave:
-- they do unless the service exits, and never if it has exited with messages in its queue.
use million.Prelude.{
  ℕ, zero, suc, ◌+◌, ◌*◌, ◌<◌, ◌≤◌, ◌≡◌, Bool, true, false, ◌==◌, if◌then◌else◌, arith, refl,
  dec_lt, ◌⊎◌, inl, inr, ◌∙◌,
}
use million.RunQueue.{
  RunState, Step, push_msg, push, pop, process, release, check_left, check_empty, stay, delete,
  Reach, next, push_service, process_one,
}
use million.RunQueue.Wakeup.{no_lost_wakeup, quiescent_empty}

-- Every step but the sending of a message.
unfoldable pub is_internal : {s t : RunState} → Step s t → Bool
is_internal (push_msg e) = false
is_internal (push h e) = true
is_internal (pop h e) = true
is_internal (process h x e) = true
is_internal (release h e) = true
is_internal (check_left h l e) = true
is_internal (check_empty h l e) = true
is_internal (stay h l e) = true
is_internal (delete h l e) = true

-- A number of such steps.
pub data Run : ℕ → RunState → RunState → Type 0 where
  rest : {s : RunState} → Run zero s s
  step :
      {n : ℕ} {s t u : RunState} (st : Step s t)
      → is_internal st ≡ true
      → Run n t u
      → Run (suc n) s u

-- What the threads have left to do: every thread by how far it is from the end of its round, and
-- every message by one more round. Without messages a worker that looks at the queue is nearly done.
unfoldable pub work : RunState → ℕ
work s =
    if s.msgs == 0
    then 6 * s.pushing + 5 * s.queued + 4 * s.holding + 3 * s.processed + 2 * s.checking + s.closing
    else 16 * s.msgs
      + 11 * s.pushing
      + 8 * s.queued
      + 5 * s.holding
      + 18 * s.processed
      + 15 * s.checking
      + s.closing

Step-work :
    {s t : RunState} (st : Step s t)
    → is_internal st ≡ true
    → s.exited ≡ false
    → suc (work t) ≤ work s
unfolding work push_service process_one is_internal
Step-work (push_msg e) i x = ground arith
Step-work (push h e) i x = ground arith
Step-work (pop h e) i x = ground arith
Step-work (process h exits e) i x = ground arith
Step-work (release h e) i x = ground arith
Step-work (check_left h l e) i x = ground arith
Step-work (check_empty h l e) i x = ground arith
Step-work (stay h l e) i x = ground arith
Step-work (delete h l e) i x = ground arith

-- A service that has exited stays so.
Step-exited : {s t : RunState} → Step s t → t.exited ≡ false → s.exited ≡ false
unfolding push_service process_one
Step-exited (push_msg e) x = ground arith
Step-exited (push h e) x = ground arith
Step-exited (pop h e) x = ground arith
Step-exited (process h exits e) x = ground arith
Step-exited (release h e) x = ground arith
Step-exited (check_left h l e) x = ground arith
Step-exited (check_empty h l e) x = ground arith
Step-exited (stay h l e) x = ground arith
Step-exited (delete h l e) x = ground arith

Run-exited : {n : ℕ} {s t : RunState} → Run n s t → t.exited ≡ false → s.exited ≡ false
Run-exited rest x = x
Run-exited (step st i r) x = Step-exited st (Run-exited r x)

Run-work : {n : ℕ} {s t : RunState} → Run n s t → t.exited ≡ false → n + work t ≤ work s
Run-work rest x = omega arith
Run-work (step st i r) x =
    omega (arith, Step-work st i (Step-exited st (Run-exited r x)), Run-work r x)

Run-Reach : {n : ℕ} {s t : RunState} → Run n s t → Reach s → Reach t
Run-Reach rest h = h
Run-Reach (step st i r) h = Run-Reach r (next h st)

-- Some thread can go on.
abbrev pub CanGoOn : RunState → Type 0
CanGoOn s = (t : RunState) × (st : Step s t) × (is_internal st ≡ true)

checking_goes_on : (s : RunState) → 0 < s.checking → CanGoOn s
unfolding is_internal
checking_goes_on s h = elim (dec_lt 0 s.msgs) [
  | yes left ↦ (_, check_left h left refl, refl)
  | no none_left ↦ (_, check_empty h (omega arith) refl, refl)
]

goes_on :
    (s : RunState) → 0 < s.queued + s.pushing + s.holding + s.processed + s.checking → CanGoOn s
unfolding is_internal
goes_on s h = elim (dec_lt 0 s.pushing) [
  | yes p ↦ (_, push p refl, refl)
  | no a ↦ elim (dec_lt 0 s.queued) [
    | yes p ↦ (_, pop p refl, refl)
    | no b ↦ elim (dec_lt 0 s.holding) [
      | yes p ↦ (_, process p false refl, refl)
      | no c ↦ elim (dec_lt 0 s.processed) [
        | yes p ↦ (_, release p refl, refl)
        | no d ↦ checking_goes_on s (omega arith)
      ]
    ]
  ]
]

-- While no message is sent and the service does not exit, the threads make at most `work` steps from
-- a reachable state, whatever their order; and after any number of them the queue of the service is
-- empty, or some thread can go on.
pub drained :
    {n : ℕ} {s t : RunState}
    → Reach s
    → Run n s t
    → t.exited ≡ false
    → (n ≤ work s) × ((t.msgs ≡ 0) ⊎ CanGoOn t)
drained {t} r run x = (
  omega (arith, Run-work run x),
  elim (dec_lt 0 (t.queued + t.pushing + t.holding + t.processed + t.checking)) [
    | yes busy ↦ inr (goes_on t busy)
    | no quiet ↦ inl (quiescent_empty (Run-Reach run r) (omega arith))
  ],
)

Step-keeps :
    {s t : RunState} (st : Step s t)
    → is_internal st ≡ true
    → s.exited ≡ true
    → (t.exited ≡ true) × (t.msgs ≡ s.msgs)
unfolding push_service process_one is_internal
Step-keeps (push_msg e) i x = ground arith
Step-keeps (push h e) i x = ground arith
Step-keeps (pop h e) i x = ground arith
Step-keeps (process h exits e) i x = ground arith
Step-keeps (release h e) i x = ground arith
Step-keeps (check_left h l e) i x = ground arith
Step-keeps (check_empty h l e) i x = ground arith
Step-keeps (stay h l e) i x = ground arith
Step-keeps (delete h l e) i x = ground arith

Run-keeps :
    {n : ℕ} {s t : RunState} → Run n s t → s.exited ≡ true → (t.exited ≡ true) × (t.msgs ≡ s.msgs)
Run-keeps rest x = (x, refl)
Run-keeps (step st i r) x =
    let one = Step-keeps st i x in let more = Run-keeps r one.0 in (more.0, more.1 ∙ one.1)

-- A service that has exited with messages in its queue, in a reachable state: after any number of
-- steps of the threads, whatever their order, all those messages are still there, and some thread can
-- go on, so that the workers are never done with it.
pub exited_spins :
    {n : ℕ} {s t : RunState}
    → Reach s
    → Run n s t
    → s.exited ≡ true
    → 0 < s.msgs
    → (t.msgs ≡ s.msgs) × CanGoOn t
exited_spins {t} r run x h =
    let kept = Run-keeps run x in
    (kept.1, goes_on t (no_lost_wakeup (Run-Reach run r) (omega (arith, kept.1))))
