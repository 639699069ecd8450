-- ===== src/EventMgr/Tests.antt =====
-- Two subscribers of type 7: service 3 with priority 5 and service 4 with priority 1; service 4 died.
use million.Prelude.{ℕ, ◌≡◌, ◌≢◌, ◌++◌, refl, arith, Bool, true, some, [], ◌∷◌, not, ◌==◌, inl}
use million.Prelude.Maps.{find}
use million.EventMgr.{EventMgr, Subscriber, subscribe, unsubscribe, send, entries}
use million.EventMgr.Order.{IsOrdered, at_least, below, subscribe_order}
use million.EventMgr.Delivery.{send_delivers, send_nobody}
use million.EventMgr.Hang.{unsubscribe_first}

abbrev first : Subscriber
first = record { priority = 5; handle = 3 }

abbrev second : Subscriber
second = record { priority = 1; handle = 4 }

abbrev two : EventMgr
two = (7, first ∷ second ∷ []) ∷ []

abbrev all_alive : ℕ → Bool
all_alive h = true

abbrev four_died : ℕ → Bool
four_died h = not (h == 4)

subscribe_order_example :
    (entries (find 7 (subscribe 7 9 5 two))
      ≡ at_least 5 (entries (find 7 two))
        ++ record { priority = 5; handle = 9 } ∷ below 5 (entries (find 7 two)))
    × IsOrdered (entries (find 7 (subscribe 7 9 5 two)))
    × (◌≢◌ {A = ℕ} 8 7 → find 8 (subscribe 7 9 5 two) ≡ find 8 two)
unfolding find
subscribe_order_example = subscribe_order 7 9 5 8 two (omega arith)

send_delivers_example :
    ((send four_died 1 7 two).1 ≡ 3 ∷ [])
    × (find 7 (send four_died 1 7 two).0 ≡ some (first ∷ []))
    × IsOrdered (first ∷ [])
    × (◌≢◌ {A = ℕ} 8 7 → find 8 (send four_died 1 7 two).0 ≡ find 8 two)
unfolding find
send_delivers_example =
    send_delivers four_died 1 7 8 (first ∷ second ∷ []) two refl refl (omega arith)

send_nobody_example : send four_died 4 7 two ≡ (two, [])
send_nobody_example = send_nobody four_died 4 7 two (inl refl)

unsubscribe_first_example :
    (m' : EventMgr) × (unsubscribe 1 all_alive 7 3 two ≡ some (true, m'))
    × (find 7 m' ≡ some (second ∷ []))
    × (◌≢◌ {A = ℕ} 8 7 → find 8 m' ≡ find 8 two)
unfolding find
unsubscribe_first_example = unsubscribe_first 0 all_alive 7 8 first (second ∷ []) two refl
