-- ===== src/ServiceCore/Separate.antt =====
-- SeparateThreadHandle of million/src/service_core.cpp: the thread of a service that has one of its own.
use million.Prelude.{
  ℕ, zero, suc, ◌+◌, Bool, true, false, Option, none, some, List, [], ◌∷◌, ◌++◌, length,
  if◌then◌else◌,
}
use million.TaskExecutor.{Effect}
use million.ServiceCore.{
  MessageElement, ServiceCore, IService, is_exited, push_msg, pop_msg, process_msg,
}

-- After a turn of the outer loop: the service, what was sent, and whether DeleteService was called.
pub record Turn : Type 0 where
  pub core : ServiceCore
  pub effects : List Effect
  pub is_deleted : Bool

abbrev pub turn_of : ServiceCore × List Effect → Bool → Turn
turn_of r is_deleted = record { core = r.0; effects = r.1; is_deleted = is_deleted }

-- The inner loop from a message that was taken out of the queue on, while no other thread pushes a
-- message: it ends when the service has exited, after DeleteService, or the queue is empty. `none`
-- where the fuel runs out.
unfoldable pub separate_loop : ℕ → (ℕ → IService) → MessageElement → ServiceCore → Option Turn
separate_loop zero i ele s = none
separate_loop (suc fuel) i ele s =
    let (t, effects) = process_msg (i 0) ele s in
    elim (is_exited t.stage) [
      | true ↦ some (turn_of (t, effects) true)
      | false ↦ elim (pop_msg t) [
        | none ↦ some (turn_of (t, effects) false)
        | some (next, u) ↦ elim (separate_loop fuel (λ n. i (suc n)) next u) [
          | none ↦ none
          | some v ↦ some (record v { effects = effects ++ v.effects })
        ]
      ]
    ]

-- A turn of the outer loop; the thread waits on where the queue is empty.
unfoldable pub separate_turn : (ℕ → IService) → ServiceCore → Option Turn
unfolding separate_loop
separate_turn i s = elim (pop_msg s) [
  | none ↦ some (turn_of (s, []) false)
  | some (ele, t) ↦ separate_loop (length s.msgs) i ele t
]

-- What other threads push before a turn.
unfoldable pub push_msgs : List MessageElement → ServiceCore → ServiceCore
unfolding push_msg
push_msgs [] s = s
push_msgs (ele ∷ eles) s = push_msgs eles (push_msg ele s).1

-- After some turns: how often DeleteService was called.
pub record Thread : Type 0 where
  pub core : ServiceCore
  pub effects : List Effect
  pub deletions : ℕ

abbrev pub turned : List Effect → Bool → Thread → Thread
turned effects is_deleted u = record {
  core = u.core;
  effects = effects ++ u.effects;
  deletions = (if is_deleted then 1 else 0) + u.deletions;
}

-- SeparateThreadHandle, whose outer loop goes on after DeleteService: a number of its turns, each with
-- what is pushed before it and the handlers for its messages.
unfoldable pub separate_thread_handle :
    List (List MessageElement × (ℕ → IService)) → ServiceCore → Option Thread
unfolding separate_turn push_msgs
separate_thread_handle [] s = some (record { core = s; effects = []; deletions = 0 })
separate_thread_handle ((eles, i) ∷ turns) s = elim (separate_turn i (push_msgs eles s)) [
  | none ↦ none
  | some t ↦ elim (separate_thread_handle turns t.core) [
    | none ↦ none
    | some u ↦ some (turned t.effects t.is_deleted u)
  ]
]

-- A turn that has done what ProcessMsgs does, and has deleted the service if it has exited.
abbrev as_processed : ServiceCore × List Effect → Turn
as_processed r = turn_of r (is_exited r.0.stage)
