-- ===== src/ServiceLock/Tests.antt =====
-- Service 2 waits for its lock under session 5, with session 6 behind it.
use million.Prelude.{◌≡◌, refl, arith, true, some, [], ◌∷◌}
use million.Prelude.Maps.{find}
use million.TaskExecutor.Tests.{echo_task}
use million.ServiceCore.{running, process_msg}
use million.ServiceCore.Tests.{echo_service, service_at}
use million.ServiceCore.Replies.{user_element}
use million.ServiceLock.{ServiceLock, create, lock, unlock}
use million.ServiceLock.Faults.{waiter_not_woken}

abbrev held : ServiceLock
held = record { locking = true; wait_sessions = 5 ∷ 6 ∷ [] }

held_by_calls : (lock 6 (lock 5 (lock 4 create).0).0).0 ≡ held
unfolding lock create
held_by_calls = refl

waiter_not_woken_example :
    ((unlock held).1 ≡ some 5)
    × (let s = service_at running ((5, echo_task) ∷ []) in
        let after = (process_msg echo_service (user_element 2 5 1 0) s).0 in
        find 5 after.tasks ≡ some echo_task)
unfolding find
waiter_not_woken_example =
    waiter_not_woken echo_service (service_at running ((5, echo_task) ∷ [])) held 5 1 0 (6 ∷ [])
      echo_task refl refl (omega arith) refl
