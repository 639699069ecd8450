-- ===== src/RunQueue/Wakeup.antt =====
-- No message is left behind in a queue that nobody looks at.
use million.Prelude.{◌+◌, ◌<◌, ◌≡◌, arith, dec_lt}
use million.RunQueue.{
  RunState, Step, push_msg, push, pop, process, release, check_left, check_empty, stay, delete,
  Reach, start, next, push_service, process_one,
}
use million.RunQueue.Exclusion.{IsExclusive, Reach-IsExclusive}

abbrev IsWoken : RunState → Type 0
IsWoken s = 0 < s.msgs → 0 < s.queued + s.pushing + s.holding + s.processed + s.checking

Step-IsWoken : {s t : RunState} → Step s t → IsExclusive s → IsWoken s → IsWoken t
unfolding push_service process_one
Step-IsWoken (push_msg e) v w = ground arith
Step-IsWoken (push h e) v w = ground arith
Step-IsWoken (pop h e) v w = ground arith
Step-IsWoken (process h x e) v w = ground arith
Step-IsWoken (release h e) v w = ground arith
Step-IsWoken (check_left h l e) v w = ground arith
Step-IsWoken (check_empty h l e) v w = ground arith
Step-IsWoken (stay h l e) v w = ground arith
Step-IsWoken (delete h l e) v w = ground arith

Reach-IsWoken : {s : RunState} → Reach s → IsWoken s
Reach-IsWoken start = λ h. absurd (omega arith)
Reach-IsWoken (next r st) = Step-IsWoken st (Reach-IsExclusive r) (Reach-IsWoken r)

-- In every interleaving, while the service has messages it is queued, or a worker holds it or is
-- about to look at its queue, or some thread is about to push it.
pub no_lost_wakeup :
    {s : RunState}
    → Reach s
    → 0 < s.msgs
    → 0 < s.queued + s.pushing + s.holding + s.processed + s.checking
no_lost_wakeup r h = Reach-IsWoken r h

-- When every thread has come to rest, no message is left.
pub quiescent_empty :
    {s : RunState}
    → Reach s
    → s.queued + s.pushing + s.holding + s.processed + s.checking ≡ 0
    → s.msgs ≡ 0
quiescent_empty {s} r h = elim (dec_lt 0 s.msgs) [
  | yes some_left ↦ absurd (omega (arith, no_lost_wakeup r some_left))
  | no none_left ↦ omega arith
]
