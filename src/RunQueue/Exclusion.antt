-- ===== src/RunQueue/Exclusion.antt =====
-- No two workers hold one service.
use million.Prelude.{◌+◌, ◌≤◌, ◌≡◌, true, false, arith}
use million.RunQueue.{
  RunState, Step, push_msg, push, pop, process, release, check_left, check_empty, stay, delete,
  Reach, start, next, push_service, process_one,
}

-- The flag stands for the one place of the service: in the queue, or with one worker.
pub record IsExclusive (s : RunState) : Type 0 where
  pub flagged : s.in_queue ≡ true → s.queued + s.holding + s.processed ≡ 1
  pub free : s.in_queue ≡ false → s.queued + s.holding + s.processed ≡ 0

pub Step-IsExclusive : {s t : RunState} → Step s t → IsExclusive s → IsExclusive t
unfolding push_service process_one
Step-IsExclusive (push_msg e) v = ground arith
Step-IsExclusive (push h e) v = ground arith
Step-IsExclusive (pop h e) v = ground arith
Step-IsExclusive (process h x e) v = ground arith
Step-IsExclusive (release h e) v = ground arith
Step-IsExclusive (check_left h l e) v = ground arith
Step-IsExclusive (check_empty h l e) v = ground arith
Step-IsExclusive (stay h l e) v = ground arith
Step-IsExclusive (delete h l e) v = ground arith

pub Reach-IsExclusive : {s : RunState} → Reach s → IsExclusive s
Reach-IsExclusive start = ground arith
Reach-IsExclusive (next r st) = Step-IsExclusive st (Reach-IsExclusive r)

-- In every interleaving of senders and workers the service stands in the queue at most once, and
-- at most one worker holds it; while one does, it is not in the queue.
pub one_worker : {s : RunState} → Reach s → s.queued + s.holding + s.processed ≤ 1
one_worker r = ground (arith, Reach-IsExclusive r)
