-- ===== src/Throttler/Tracker.antt =====
-- `podTracker`: a pod, its breaker if its concurrency is limited, and its weight.
use serving.Prelude.{ℕ, ◌+◌, ◌-◌, Bool, true, Option, none, some}
use serving.Prelude.Str.{Str}
use serving.Breaker.Defs.{Breaker, capacity, update_concurrency, reserve}

pub record Tracker : Type 0 where
  pub dest : Str
  pub breaker : Option Breaker
  pub weight : ℕ  -- int32

unfoldable pub new_pod_tracker : Str → Option Breaker → Tracker
new_pod_tracker dest b = record { dest = dest; breaker = b; weight = 0 }

unfoldable pub increase_weight : Tracker → Tracker
increase_weight t = record t { weight = t.weight + 1 }

-- Called once for each increase, so that the weight is not 0 here.
unfoldable pub decrease_weight : Tracker → Tracker
decrease_weight t = record t { weight = t.weight - 1 }

unfoldable pub tracker_capacity : Tracker → ℕ
tracker_capacity t = elim (t.breaker) [ none ↦ 1 | some b ↦ capacity b ]

unfoldable pub tracker_update_concurrency : ℕ → Tracker → Tracker
tracker_update_concurrency c t = elim (t.breaker) [
  | none ↦ t
  | some b ↦ record t { breaker = some (update_concurrency c b) }
]

-- `Reserve`, with the flag that it returns.
unfoldable pub tracker_reserve : Tracker → Tracker × Bool
tracker_reserve t = elim (t.breaker) [
  | none ↦ (t, true)
  | some b ↦ let (c, granted) = reserve b in (record t { breaker = some c }, granted)
]

-- Whether a reservation would be granted now.
abbrev pub is_free : Tracker → Bool
is_free t = (tracker_reserve t).1
