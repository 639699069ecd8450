-- ===== src/EventMgr/Delivery.antt =====
-- Who gets an event.
use million.Prelude.{
  ℕ, Bool, true, false, none, some, List, [], ◌∷◌, ◌≤◌, ◌≡◌, refl, map, if◌then◌else◌, arith, ◌≢◌,
  Option-cases, inl, inr, ◌⊎◌,
}
use million.Prelude.Maps.{find, find-assign}
use million.EventMgr.{
  EventMap, EventMgr, send, send_loop, call, call_loop, Answer, answered, timed_out, finished,
}
use million.EventMgr.Order.{Falls, IsOrdered, Falls-IsOrdered}

-- The entries whose service is alive.
abbrev pub live : (ℕ → Bool) → EventMap → EventMap
live alive [] = []
live alive (x ∷ l) = let rest = live alive l in if alive x.handle then x ∷ rest else rest

abbrev pub handles : EventMap → List ℕ
handles = map (λ x. x.handle)

send_loop-live :
    (alive : ℕ → Bool) (l : EventMap)
    → (send_loop alive l).0 ≡ live alive l × ((send_loop alive l).1 ≡ handles (live alive l))
unfolding send_loop
send_loop-live alive [] = (refl, refl)
send_loop-live alive (x ∷ l) = ground (arith, send_loop-live alive l)

Falls-live :
    (alive : ℕ → Bool) (p q : ℕ) (l : EventMap) → p ≤ q → Falls p l → Falls q (live alive l)
Falls-live alive p q [] h f = tt
Falls-live alive p q (x ∷ l) h f =
    ground (arith, Falls-live alive x.priority x.priority l, Falls-live alive x.priority q l, f)

IsOrdered-live : (alive : ℕ → Bool) (l : EventMap) → IsOrdered l → IsOrdered (live alive l)
IsOrdered-live alive [] f = tt
IsOrdered-live alive (x ∷ l) f = ground (
  arith,
  Falls-live alive x.priority x.priority l,
  f,
  IsOrdered-live alive l (Falls-IsOrdered x.priority l f),
)

-- An event from a live sender goes to every live subscriber of its type, once for each of its
-- entries, in the order of the entries; the entries of dead services are removed, the order of the
-- rest stays, and the subscribers of other types do not change.
pub send_delivers :
    (alive : ℕ → Bool) (sender key other : ℕ) (l : EventMap) (m : EventMgr)
    → alive sender ≡ true
    → find key m ≡ some l
    → IsOrdered l
    → ((send alive sender key m).1 ≡ handles (live alive l))
      × (find key (send alive sender key m).0 ≡ some (live alive l))
      × IsOrdered (live alive l)
      × (other ≢ key → find other (send alive sender key m).0 ≡ find other m)
unfolding send
send_delivers alive sender key other l m a e o =
    let loop = send_loop-live alive l in
    let kept = find-assign key key (send_loop alive l).0 m in
    let rest = find-assign key other (send_loop alive l).0 m in
    (ground arith, ground arith, IsOrdered-live alive l o, ground arith)

-- An event of a dead sender, or of a type without subscribers, changes nothing and is sent to nobody.
pub send_nobody :
    (alive : ℕ → Bool) (sender key : ℕ) (m : EventMgr)
    → (alive sender ≡ false) ⊎ (find key m ≡ none)
    → send alive sender key m ≡ (m, [])
unfolding send
send_nobody alive sender key m h = ground arith

call_loop_all :
    (alive : ℕ → Bool) (answer : ℕ → Answer) (l : EventMap)
    → ((h : ℕ) → (answer h ≡ timed_out) ⊎ (answer h ≡ answered true))
    → call_loop alive answer l ≡ (live alive l, handles (live alive l), finished)
unfolding call_loop
call_loop_all alive answer [] h = refl
call_loop_all alive answer (x ∷ l) h = ground (arith, h x.handle, call_loop_all alive answer l h)

-- If every service that is asked takes the message, and answers so that the caller goes on or does
-- not answer in time, a call asks exactly the services that the same event would be sent to, in the
-- same order, and leaves the same entries.
pub call-send :
    (alive : ℕ → Bool) (answer : ℕ → Answer) (caller key : ℕ) (m : EventMgr)
    → ((h : ℕ) → (answer h ≡ timed_out) ⊎ (answer h ≡ answered true))
    → call alive answer caller key m
      ≡ ((send alive caller key m).0, (send alive caller key m).1, finished)
unfolding call send
call-send alive answer caller key m h = elim (Option-cases (find key m)) [
  | inl e ↦ ground arith
  | inr (l, e) ↦ ground (arith, call_loop_all alive answer l h, send_loop-live alive l)
]
