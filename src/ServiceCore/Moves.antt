-- ===== src/ServiceCore/Moves.antt =====
-- Which messages move a service of service_core.cpp from one stage to another.
use million.Prelude.{
  ℕ, zero, suc, Bool, true, false, none, List, [], ◌∷◌, ◌++◌, ◌≡◌, ◌⊎◌, inl, inr, refl, arith, sym,
  ap, ◌∙◌, length, Bool-cases, List-cases,
}
use million.Message.{
  Message, service_start_msg, service_stop_msg, service_exit_msg, session_timeout_msg, user_msg,
}
use million.ServiceCore.{
  ServiceStage, ready, starting, running, stopping, stopped, exited, ServiceCore, IService,
  MessageElement, process_start, process_stop, process_exit, process_timeout, process_user,
  process_msg, dispatch, process_msgs, pop_msg, is_exited,
}
use million.ServiceCore.Kept.{
  process_msg-msgs, next_popped, none_popped, process_msgs-suc, exited_processes_nothing,
  nothing_processed,
}
use million.ServiceCore.Stages.{launch_stage, schedule_stage}

-- The arrows of the life cycle by the message: a start leaves kReady and kStopped, a stop kRunning and
-- an exit kStopped; a timeout ends a start or a stop, and may end any service by an exception; an
-- answer completes a start or a stop. In every other case the stage stays.
abbrev pub may_move : Message → ServiceStage → ServiceStage → Bool
may_move (service_start_msg p) ready starting = true
may_move (service_start_msg p) ready running = true
may_move (service_start_msg p) stopped starting = true
may_move (service_start_msg p) stopped running = true
may_move (service_start_msg p) starting starting = true
may_move (service_start_msg p) running running = true
may_move (service_start_msg p) stopping stopping = true
may_move (service_start_msg p) exited exited = true
may_move (service_stop_msg p) running stopping = true
may_move (service_stop_msg p) running stopped = true
may_move (service_stop_msg p) ready ready = true
may_move (service_stop_msg p) starting starting = true
may_move (service_stop_msg p) stopping stopping = true
may_move (service_stop_msg p) stopped stopped = true
may_move (service_stop_msg p) exited exited = true
may_move service_exit_msg stopped exited = true
may_move service_exit_msg ready ready = true
may_move service_exit_msg starting starting = true
may_move service_exit_msg running running = true
may_move service_exit_msg stopping stopping = true
may_move service_exit_msg exited exited = true
may_move (session_timeout_msg t) a stopped = true
may_move (session_timeout_msg t) ready ready = true
may_move (session_timeout_msg t) running running = true
may_move (session_timeout_msg t) exited exited = true
may_move (user_msg k c) starting starting = true
may_move (user_msg k c) starting running = true
may_move (user_msg k c) stopping stopping = true
may_move (user_msg k c) stopping stopped = true
may_move (user_msg k c) ready ready = true
may_move (user_msg k c) running running = true
may_move (user_msg k c) stopped stopped = true
may_move (user_msg k c) exited exited = true
may_move _ _ _ = false

dispatch_moves :
    (m : Message) (i : IService) (sender session_id : ℕ) (s : ServiceCore)
    → may_move m s.stage (dispatch m i sender session_id s).0.stage ≡ true
unfolding dispatch process_start process_stop process_exit process_timeout process_user
dispatch_moves (service_start_msg p) i sender session_id s = ground (
  arith,
  launch_stage running sender session_id (i.on_start sender session_id p)
      (record s { stage = starting }),
)
dispatch_moves (service_stop_msg p) i sender session_id s = ground (
  arith,
  launch_stage stopped sender session_id (i.on_stop sender session_id p)
      (record s { stage = stopping }),
)
dispatch_moves service_exit_msg i sender session_id s = ground arith
dispatch_moves (session_timeout_msg t) i sender session_id s = ground arith
dispatch_moves (user_msg k c) i sender session_id s = ground (
  arith,
  launch_stage running sender session_id (i.on_msg sender session_id (user_msg k c)) s,
  schedule_stage running session_id (user_msg k c) s,
  schedule_stage stopped session_id (user_msg k c) s,
)

process_msg_moves :
    (i : IService) (ele : MessageElement) (s : ServiceCore)
    → may_move ele.message s.stage (process_msg i ele s).0.stage ≡ true
unfolding process_msg
process_msg_moves i ele s = dispatch_moves ele.message i ele.sender ele.session_id s

-- Messages one after another move a service from a stage to a stage, which is not kExited before any
-- of them.
pub data Moves : List MessageElement → ServiceStage → ServiceStage → Type 0 where
  stays : {a : ServiceStage} → Moves [] a a
  moves :
      {ele : MessageElement} {rest : List MessageElement} {a b c : ServiceStage}
      → is_exited a ≡ false
      → may_move ele.message a b ≡ true
      → Moves rest b c
      → Moves (ele ∷ rest) a c

nothing_taken :
    (count : ℕ) (i : ℕ → IService) (s : ServiceCore)
    → pop_msg s ≡ none
    → process_msgs count i s ≡ (s, [])
unfolding process_msgs
nothing_taken zero i s e = refl
nothing_taken (suc count) i s e = elim (Bool-cases (is_exited s.stage)) [
  | inl x ↦ rw x refl
  | inr x ↦ rw (x, e) refl
]

-- However many messages a worker processes, and whatever the handlers do: it takes a first part of the
-- queue and leaves the rest; each message that it takes moves the stage only as such a message may,
-- and none is taken once the service has exited; and it stops short of the number only when the
-- queue is empty or the service has exited.
pub process_msgs_move :
    (count : ℕ) (i : ℕ → IService) (s : ServiceCore)
    → (taken : List MessageElement) × (s.msgs ≡ taken ++ (process_msgs count i s).0.msgs)
      × Moves taken s.stage (process_msgs count i s).0.stage
      × ((length taken ≡ count)
          ⊎ ((process_msgs count i s).0.msgs ≡ [])
          ⊎ (is_exited (process_msgs count i s).0.stage ≡ true))
process_msgs_move zero i s = rw (nothing_processed i s) ([], refl, stays, inl refl)
process_msgs_move (suc count) i s = elim (Bool-cases (is_exited s.stage)) [
  | inl x ↦ rw (exited_processes_nothing (suc count) i s x) ([], refl, stays, inr (inr x))
  | inr x ↦ elim (List-cases s.msgs) [
    | inl e ↦ rw (nothing_taken (suc count) i s (none_popped s e)) ([], refl, stays, inr (inl e))
    | inr (ele, rest, e) ↦
        let u = record s { msgs = rest } in
        let t = (process_msg (i 0) ele u).0 in
        let (taken, q, m, done) = process_msgs_move count (λ n. i (suc n)) t in
        rw (process_msgs-suc count i ele s u x (next_popped ele rest s e)) (
          ele ∷ taken,
          e ∙ ap (λ (r : List MessageElement). ele ∷ r) (sym (process_msg-msgs (i 0) ele u) ∙ q),
          moves x (process_msg_moves (i 0) ele u) m,
          elim done [ inl n ↦ inl (ap suc n) | inr other ↦ inr other ],
        )
  ]
]
