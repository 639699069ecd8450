-- ===== src/ServiceCore/Stuck.antt =====
-- A service of service_core.cpp that waits in OnStop: what reaches it, and what does not.
use million.Prelude.{ℕ, true, List, [], ◌∷◌, ◌++◌, ◌≡◌, refl, arith, sym, ◌∙◌, subst}
use million.Message.{Message, is_exit_msg}
use million.ServiceCore.{
  stopping, ServiceCore, IService, MessageElement, process_exit, process_msg, dispatch,
  process_msgs, push_msg,
}
use million.ServiceCore.Queue.{process_msgs_inv, pop_msg_keeps}

-- What happens to a service: a message is pushed, or a worker processes some.
pub data Event : Type 0 where
  pushes : MessageElement → Event
  processes : ℕ → (ℕ → IService) → Event

pub after_event : Event → ServiceCore → ServiceCore
after_event (pushes ele) s = (push_msg ele s).1
after_event (processes count i) s = (process_msgs count i s).0

unfoldable pub after_events : List Event → ServiceCore → ServiceCore
after_events [] s = s
after_events (e ∷ es) s = after_events es (after_event e s)

abbrev pub OnlyExits : List MessageElement → Type 0
OnlyExits [] = Unit {0}
OnlyExits (ele ∷ rest) = (is_exit_msg ele.message ≡ true) × OnlyExits rest

-- In OnStop, with the tasks `tasks`, and with nothing queued but requests to exit.
abbrev IsWaitingToStop : (s t : ServiceCore) → Type 0
IsWaitingToStop s t = (t.stage ≡ stopping) × (t.tasks ≡ s.tasks) × OnlyExits t.msgs

OnlyExits-snoc :
    (l : List MessageElement) (ele : MessageElement)
    → OnlyExits l
    → is_exit_msg ele.message ≡ true
    → OnlyExits (l ++ ele ∷ [])
OnlyExits-snoc [] ele h e = (e, tt)
OnlyExits-snoc (x ∷ l) ele h e = (h.0, OnlyExits-snoc l ele h.1 e)

push_waits :
    (s t : ServiceCore) (ele : MessageElement)
    → IsWaitingToStop s t
    → IsWaitingToStop s (push_msg ele t).1
unfolding push_msg
push_waits s t ele h = ground (arith, OnlyExits-snoc t.msgs ele h.2)

exit_ignored :
    (m : Message) (i : IService) (sender session_id : ℕ) (t : ServiceCore)
    → t.stage ≡ stopping
    → is_exit_msg m ≡ true
    → (dispatch m i sender session_id t).0 ≡ t
unfolding dispatch process_exit
exit_ignored m i sender session_id t h e = ground arith

process_waits :
    (s : ServiceCore) (i : IService) (ele : MessageElement) (t u : ServiceCore)
    → (t.stage ≡ u.stage) × (u.tasks ≡ t.tasks) × (t.msgs ≡ ele ∷ u.msgs)
    → IsWaitingToStop s t
    → IsWaitingToStop s (process_msg i ele u).0
unfolding process_msg
process_waits s i ele t u p h =
    let exits = subst OnlyExits p.2 h.2 in
    let same = exit_ignored ele.message i ele.sender ele.session_id u (sym p.0 ∙ h.0) exits.0 in
    rw same (sym p.0 ∙ h.0, p.1 ∙ h.1, exits.1)

event_waits :
    (s t : ServiceCore) (e : Event) → IsWaitingToStop s t → IsWaitingToStop s (after_event e t)
unfolding after_event
event_waits s t (pushes ele) h = push_waits s t ele h
event_waits s t (processes count i) h =
    process_msgs_inv (IsWaitingToStop s)
      (λ j ele v u ne p w. process_waits s j ele v u (pop_msg_keeps v ele u p) w) count i t h

events_wait :
    (events : List Event) (s t : ServiceCore)
    → IsWaitingToStop s t
    → IsWaitingToStop s (after_events events t)
unfolding after_events
events_wait [] s t h = h
events_wait (e ∷ events) s t h = events_wait events s (after_event e t) (event_waits s t e h)

-- A service that waits in OnStop, with nothing queued but requests to exit, never leaves that
-- stage, and none of its tasks is resumed or removed: whatever is sent to it, replies and timeouts
-- included, and however often a worker processes its queue.
pub stopping_forever :
    (events : List Event) (s : ServiceCore)
    → s.stage ≡ stopping
    → OnlyExits s.msgs
    → ((after_events events s).stage ≡ stopping) × ((after_events events s).tasks ≡ s.tasks)
stopping_forever events s h e = let w = events_wait events s s (h, refl, e) in (w.0, w.1)
