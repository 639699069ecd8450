-- ===== src/RunQueue/Tests.antt =====
-- A message is sent, the service is pushed and a worker takes it.
use million.Prelude.{◌+◌, ◌<◌, ◌≤◌, ◌≡◌, refl, arith, true, false, ◌⊎◌}
use million.RunQueue.{
  RunState, Reach, start, next, push_msg, push, pop, process, release, check_empty, stay,
  push_service, process_one, idle_state,
}
use million.RunQueue.Drain.{Run, rest, step, work, CanGoOn, is_internal, drained, exited_spins}
use million.RunQueue.Exclusion.{one_worker}
use million.RunQueue.Wakeup.{no_lost_wakeup}

abbrev sent : RunState
sent = record idle_state { msgs = 1; pushing = 1 }

abbrev pushed : RunState
pushed = record idle_state { msgs = 1; in_queue = true; queued = 1 }

abbrev taken : RunState
taken = record idle_state { msgs = 1; in_queue = true; holding = 1 }

abbrev done : RunState
done = record idle_state { in_queue = true; processed = 1 }

abbrev released : RunState
released = record idle_state { checking = 1 }

abbrev looked : RunState
looked = record idle_state { closing = 1 }

taken_reached : Reach taken
unfolding push_service
taken_reached =
    next {s = pushed} (next {s = sent} (next start (push_msg refl)) (push (omega arith) refl))
      (pop (omega arith) refl)

one_worker_example : taken.queued + taken.holding + taken.processed ≤ 1
one_worker_example = one_worker taken_reached

no_lost_wakeup_example :
    0 < taken.queued + taken.pushing + taken.holding + taken.processed + taken.checking
no_lost_wakeup_example = no_lost_wakeup taken_reached (omega arith)

taken-Run : Run 4 taken idle_state
unfolding is_internal process_one
taken-Run = step {t = done} (process (omega arith) false refl) refl (
    step {t = released} (release (omega arith) refl) refl (
      step {t = looked} (check_empty (omega arith) refl refl) refl
        (step (stay (omega arith) refl refl) refl rest)))

drained_example : (4 ≤ work taken) × ((idle_state.msgs ≡ 0) ⊎ CanGoOn idle_state)
drained_example = drained taken_reached taken-Run refl

-- Two messages are sent, and the service exits by the first of them.
abbrev two_sent : RunState
two_sent = record idle_state { msgs = 2; in_queue = true; holding = 1; pushing = 1 }

abbrev exited_early : RunState
exited_early = record idle_state {
  msgs = 1;
  in_queue = true;
  processed = 1;
  pushing = 1;
  exited = true;
}

exited_early_reached : Reach exited_early
unfolding process_one
exited_early_reached =
    next {s = two_sent} (next taken_reached (push_msg refl)) (process (omega arith) true refl)

exited_spins_example : (exited_early.msgs ≡ exited_early.msgs) × CanGoOn exited_early
exited_spins_example = exited_spins exited_early_reached rest refl (omega arith)
