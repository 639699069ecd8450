-- ===== src/ServiceCore/Stages.antt =====
-- The stage after a task of OnStart or OnStop, or a scheduled one, in service_core.cpp: the old one or the
-- one that completes it.
use million.Prelude.{ℕ, Option, List, ◌≡◌, ◌⊎◌, arith}
use million.Message.{Message}
use million.Task.{Coroutine}
use million.TaskExecutor.{Tasks, TaskElement, Effect, Scheduled}
use million.ServiceCore.{
  ServiceStage, ServiceCore, launch, schedule, finish_launch, finish_schedule,
}

finish_launch_stage :
    (next : ServiceStage) (back : Option TaskElement) (tasks : Tasks) (effects : List Effect)
    (s : ServiceCore)
    → ((finish_launch next back tasks effects s).0.stage ≡ s.stage)
      ⊎ ((finish_launch next back tasks effects s).0.stage ≡ next)
unfolding finish_launch
finish_launch_stage next back tasks effects s = ground arith

pub launch_stage :
    (next : ServiceStage) (sender session_id : ℕ) (task : Coroutine) (s : ServiceCore)
    → ((launch next sender session_id task s).0.stage ≡ s.stage)
      ⊎ ((launch next sender session_id task s).0.stage ≡ next)
unfolding launch
launch_stage next sender session_id task s = finish_launch_stage next _ _ _ s

finish_schedule_stage :
    (next : ServiceStage) (res : Scheduled) (tasks : Tasks) (effects : List Effect)
    (s : ServiceCore)
    → ((finish_schedule next res tasks effects s).0.stage ≡ s.stage)
      ⊎ ((finish_schedule next res tasks effects s).0.stage ≡ next)
unfolding finish_schedule
finish_schedule_stage next res tasks effects s = ground arith

pub schedule_stage :
    (next : ServiceStage) (session_id : ℕ) (msg : Message) (s : ServiceCore)
    → ((schedule next session_id msg s).0.stage ≡ s.stage)
      ⊎ ((schedule next session_id msg s).0.stage ≡ next)
unfolding schedule
schedule_stage next session_id msg s = finish_schedule_stage next _ _ _ s
