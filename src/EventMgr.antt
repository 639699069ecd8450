-- ===== src/EventMgr.antt =====
-- million/src/event_mgr.cpp: subscribers of message types, by priority. A handle is a weak pointer,
-- given by the service that it was made from; which services are alive is an argument of each call.
pub mod Order
pub mod Delivery
pub mod Hang
mod Tests
use million.Prelude.{
  ℕ, zero, suc, Bool, true, false, not, ◌&&◌, Option, none, some, List, [], ◌∷◌, ltb, ◌==◌,
  if◌then◌else◌,
}
use million.Prelude.Maps.{find, contains, assign, emplace}

pub record Subscriber : Type 0 where
  pub priority : ℕ
  pub handle : ℕ

-- std::multimap with std::greater: one entry after another, the highest priority first.
abbrev pub EventMap : Type 0
EventMap = List Subscriber

-- services_.
abbrev pub EventMgr : Type 0
EventMgr = List (ℕ × EventMap)

-- `handle.lock()`.
abbrev pub lock : (ℕ → Bool) → ℕ → Option ℕ
lock alive handle = if alive handle then some handle else none

abbrev pub same_lock : Option ℕ → Option ℕ → Bool
same_lock none none = true
same_lock (some a) (some b) = a == b
same_lock _ _ = false

-- `multimap::emplace`: behind the entries of the same priority.
unfoldable pub multimap_emplace : Subscriber → EventMap → EventMap
multimap_emplace s [] = s ∷ []
multimap_emplace s (x ∷ l) =
    if ltb x.priority s.priority then s ∷ x ∷ l else x ∷ multimap_emplace s l

abbrev pub entries : Option EventMap → EventMap
entries none = []
entries (some l) = l

-- Subscribe(key, handle, priority).
unfoldable pub subscribe : ℕ → ℕ → ℕ → EventMgr → EventMgr
unfolding multimap_emplace
subscribe key handle priority m =
    assign key
      (multimap_emplace (record { priority = priority; handle = handle }) (entries (find key m))) m

-- The loop of Unsubscribe over one map, with fuel; `none` means that the fuel ran out. The
-- iterator does not move on.
unfoldable pub unsubscribe_loop : ℕ → (ℕ → Bool) → Option ℕ → EventMap → Option (Bool × EventMap)
unsubscribe_loop zero alive target l = none
unsubscribe_loop (suc fuel) alive target [] = some (false, [])
unsubscribe_loop (suc fuel) alive target (x ∷ l) =
    let again = unsubscribe_loop fuel alive target (x ∷ l) in
    if same_lock (lock alive x.handle) target then some (true, l) else again

-- Unsubscribe(key, subscriber).
unfoldable pub unsubscribe : ℕ → (ℕ → Bool) → ℕ → ℕ → EventMgr → Option (Bool × EventMgr)
unfolding unsubscribe_loop
unsubscribe fuel alive key subscriber m = elim (find key m) [
  | none ↦ some (false, m)
  | some l ↦ elim (unsubscribe_loop fuel alive (lock alive subscriber) l) [
    | none ↦ none
    | some (removed, l') ↦ some (removed, assign key l' m)
  ]
]

-- The loop of Send: the entries that stay, and the services that the message is sent to, in order.
unfoldable pub send_loop : (ℕ → Bool) → EventMap → EventMap × List ℕ
send_loop alive [] = ([], [])
send_loop alive (x ∷ l) =
    let (kept, targets) = send_loop alive l in
    if alive x.handle then (x ∷ kept, x.handle ∷ targets) else (kept, targets)

-- Send(sender, msg), `key` being the type of the message.
unfoldable pub send : (ℕ → Bool) → ℕ → ℕ → EventMgr → EventMgr × List ℕ
unfolding send_loop
send alive sender key m = elim (find key m) [
  | none ↦ (m, [])
  | some l ↦
      if not (alive sender)
      then (m, [])
      else let (kept, targets) = send_loop alive l in (assign key kept m, targets)
]

-- What comes of one called service: the message was refused, which throws at `session_id.value()`,
-- its answer timed out, or it answered and `res_handle` said whether to go on.
pub data Answer : Type 0 where
  refused timed_out : Answer
  answered : Bool → Answer

pub data Ended : Type 0 where
  finished stopped threw : Ended

-- The loop of Call: the entries that stay, the services called, in order, and how it ended. `answer`
-- has what each service does; no other method of the manager runs while one answers.
unfoldable pub call_loop : (ℕ → Bool) → (ℕ → Answer) → EventMap → EventMap × List ℕ × Ended
call_loop alive answer [] = ([], [], finished)
call_loop alive answer (x ∷ l) =
    let rest = call_loop alive answer l in
    if not (alive x.handle) then rest else elim (answer x.handle) [
      | refused ↦ (x ∷ l, [], threw)
      | timed_out ↦ (x ∷ rest.0, x.handle ∷ rest.1, rest.2)
      | answered more ↦
          if more then (x ∷ rest.0, x.handle ∷ rest.1, rest.2) else (x ∷ l, x.handle ∷ [], stopped)
    ]

-- Call(caller, msg, res_handle).
unfoldable pub call : (ℕ → Bool) → (ℕ → Answer) → ℕ → ℕ → EventMgr → EventMgr × List ℕ × Ended
unfolding call_loop
call alive answer caller key m = elim (find key m) [
  | none ↦ (m, [], finished)
  | some l ↦
      if not (alive caller)
      then (m, [], finished)
      else let (kept, called, ended) = call_loop alive answer l in
        (assign key kept m, called, ended)
]
