-- ===== src/SessionMonitor/Ticks.antt =====
-- The timeouts that the thread of session_monitor.cpp sends over any number of ticks of its timer.
use million.Prelude.{ℕ, ◌+◌, ◌/◌, ◌^◌, ◌≡◌, Option, none, some, List, [], ◌∷◌, ◌++◌}
use million.WheelTimer.Remaining.{AllBelow}
use million.WheelTimer.Turn.{IsWheel}
use million.WheelTimer.Schedule.{due_within, new_within}
use million.SessionMonitor.{TimedMsg, SessionMonitor, tick_timeouts}
use million.SessionMonitor.Timeouts.{count_sent}

-- The loop of the thread, for some calls of Tick, each with the time since the one before it.
unfoldable pub tick_all : List ℕ → SessionMonitor → Option (List TimedMsg × SessionMonitor)
unfolding tick_timeouts
tick_all [] m = some ([], m)
tick_all (elapsed ∷ times) m = elim (tick_timeouts elapsed m) [
  | none ↦ none
  | some (sent, u) ↦ elim (tick_all times u) [
    | none ↦ none
    | some (more, v) ↦ some (sent ++ more, v)
  ]
]

-- The whole ticks that go by in those calls.
unfoldable pub ticks_gone : List ℕ → SessionMonitor → ℕ
unfolding tick_timeouts
ticks_gone [] m = 0
ticks_gone (elapsed ∷ times) m =
    elapsed / m.tasks.ms_per_tick
    + elim (tick_timeouts elapsed m) [ none ↦ 0 | some (sent, u) ↦ ticks_gone times u ]

-- How many tasks of a place are due within some ticks, stored or added.
unfoldable pub pending : ℕ → ℕ → SessionMonitor → ℕ
pending n contents m =
    due_within n contents m.tasks + new_within n contents m.tasks.indexs m.tasks.adds

-- What ticks of a monitor send and leave.
record Ticked (service session_id p n : ℕ) (m : SessionMonitor) (sent : List TimedMsg)
    (u : SessionMonitor) : Type 0 where
  pub wheel : IsWheel u.tasks
  pub below : AllBelow (64 ^ 5) u.tasks.adds
  pub same : u.data_of ≡ m.data_of
  pub counted : count_sent service session_id sent ≡ pending n p m
  pub later :
      (k contents : ℕ) → pending (n + k) contents m ≡ pending n contents m + pending k contents u
