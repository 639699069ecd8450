-- ===== src/EventMgr/Order.antt =====
-- The subscribers of a type stand in order of priority, those of one priority in order of subscription.
use million.Prelude.{
  ℕ, some, [], ◌∷◌, ◌++◌, ltb, leb, ◌≤◌, ◌<◌, ◌≡◌, refl, if◌then◌else◌, arith, dec_lt, ◌≢◌,
}
use million.Prelude.Maps.{find, assign, find-assign}
use million.EventMgr.{Subscriber, EventMap, EventMgr, multimap_emplace, subscribe, entries}

-- Every priority of the list is at most `p`, and the list falls.
abbrev pub Falls : ℕ → EventMap → Type 0
Falls p [] = Unit {0}
Falls p (x ∷ l) = (x.priority ≤ p) × Falls x.priority l

-- The priorities fall along the list.
abbrev pub IsOrdered : EventMap → Type 0
IsOrdered [] = Unit {0}
IsOrdered (x ∷ l) = Falls x.priority l

-- The entries of priority `p` or higher, and those below.
pub at_least : ℕ → EventMap → EventMap
at_least p [] = []
at_least p (x ∷ l) = if leb p x.priority then x ∷ at_least p l else at_least p l

pub below : ℕ → EventMap → EventMap
below p [] = []
below p (x ∷ l) = if ltb x.priority p then x ∷ below p l else below p l

Falls-multimap_emplace :
    (p : ℕ) (s : Subscriber) (l : EventMap)
    → s.priority ≤ p
    → Falls p l
    → Falls p (multimap_emplace s l)
unfolding multimap_emplace
Falls-multimap_emplace p s [] h f = (h, tt)
Falls-multimap_emplace p s (x ∷ l) h f = ground (arith, Falls-multimap_emplace x.priority s l, f)

IsOrdered-multimap_emplace :
    (s : Subscriber) (l : EventMap) → IsOrdered l → IsOrdered (multimap_emplace s l)
unfolding multimap_emplace
IsOrdered-multimap_emplace s [] f = tt
IsOrdered-multimap_emplace s (x ∷ l) f = ground (arith, Falls-multimap_emplace x.priority s l, f)

below_all : (p q : ℕ) (l : EventMap) → Falls q l → q < p → (below p l ≡ l) × (at_least p l ≡ [])
unfolding below at_least
below_all p q [] f h = (refl, refl)
below_all p q (x ∷ l) f h = ground (arith, below_all p x.priority l f.1)

pub Falls-IsOrdered : (p : ℕ) (l : EventMap) → Falls p l → IsOrdered l
Falls-IsOrdered p [] f = tt
Falls-IsOrdered p (x ∷ l) f = f.1

multimap_emplace-split :
    (s : Subscriber) (l : EventMap)
    → IsOrdered l
    → multimap_emplace s l ≡ at_least s.priority l ++ s ∷ below s.priority l
unfolding multimap_emplace below at_least
multimap_emplace-split s [] f = refl
multimap_emplace-split s (x ∷ l) f = elim (dec_lt x.priority s.priority) [
  | yes h ↦ ground (arith, below_all s.priority x.priority l f h)
  | no h ↦ ground (arith, multimap_emplace-split s l (Falls-IsOrdered x.priority l f))
]

-- A new subscriber of an ordered list comes after all subscribers of its priority or a higher one
-- and before all others, whose order stays; the list stays ordered, and the subscribers of the
-- other types do not change.
pub subscribe_order :
    (key handle priority other : ℕ) (m : EventMgr)
    → IsOrdered (entries (find key m))
    → let after = subscribe key handle priority m in
      let old = entries (find key m) in
      let new : Subscriber = record { priority = priority; handle = handle } in
      (entries (find key after) ≡ at_least priority old ++ new ∷ below priority old)
      × IsOrdered (entries (find key after))
      × (other ≢ key → find other after ≡ find other m)
unfolding subscribe
subscribe_order key handle priority other m h =
    let old = entries (find key m) in
    let new : Subscriber = record { priority = priority; handle = handle } in
    let e = find-assign key key (multimap_emplace new old) m in
    let found : find key (assign key (multimap_emplace new old) m)
        ≡ some (multimap_emplace new old) =
      ground (arith, e) in
    (
      rw found (multimap_emplace-split new old h),
      rw found (IsOrdered-multimap_emplace new old h),
      λ ne. ground (arith, find-assign key other (multimap_emplace new old) m),
    )
