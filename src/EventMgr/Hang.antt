-- ===== src/EventMgr/Hang.antt =====
-- Unsubscribe ends only if the first entry is the one to remove, or there is none.
use million.Prelude.{
  ℕ, zero, suc, Bool, true, false, Option, none, some, ◌∷◌, ◌≡◌, refl, arith, ◌≢◌,
}
use million.Prelude.Maps.{find, assign, find-assign}
use million.EventMgr.{
  Subscriber, EventMap, EventMgr, lock, same_lock, unsubscribe, unsubscribe_loop,
}

loop_hangs :
    (fuel : ℕ) (alive : ℕ → Bool) (target : Option ℕ) (x : Subscriber) (l : EventMap)
    → same_lock (lock alive x.handle) target ≡ false
    → unsubscribe_loop fuel alive target (x ∷ l) ≡ none
unfolding unsubscribe_loop
loop_hangs zero alive target x l h = refl
loop_hangs (suc fuel) alive target x l h = rw h (loop_hangs fuel alive target x l h)

-- Unsubscribing a live service never returns, however long it runs, if the first entry of the type
-- is that of another service.
pub unsubscribe_hangs :
    (fuel : ℕ) (alive : ℕ → Bool) (key subscriber : ℕ) (x : Subscriber) (l : EventMap)
    (m : EventMgr)
    → find key m ≡ some (x ∷ l)
    → alive subscriber ≡ true
    → x.handle ≢ subscriber
    → unsubscribe fuel alive key subscriber m ≡ none
unfolding unsubscribe
unsubscribe_hangs fuel alive key subscriber x l m e a ne =
    ground (arith, loop_hangs fuel alive (some subscriber) x l)

-- It removes the first entry, and only that, if that is the subscriber's.
pub unsubscribe_first :
    (fuel : ℕ) (alive : ℕ → Bool) (key other : ℕ) (x : Subscriber) (l : EventMap) (m : EventMgr)
    → find key m ≡ some (x ∷ l)
    → (m' : EventMgr) × (unsubscribe (suc fuel) alive key x.handle m ≡ some (true, m'))
      × (find key m' ≡ some l)
      × (other ≢ key → find other m' ≡ find other m)
unfolding unsubscribe
unsubscribe_first fuel alive key other x l m e = (
  assign key l m,
  ground arith,
  ground (arith, find-assign key key l m),
  λ ne. ground (arith, find-assign key other l m),
)
