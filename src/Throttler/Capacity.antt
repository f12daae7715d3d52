-- ===== src/Throttler/Capacity.antt =====
-- `calculateCapacity` and `minOneOrValue`.
use serving.Prelude.{ℕ, ◌*◌, ◌/◌, ◌≤◌, ◌<◌, ◌≡◌, ◌&&◌, ◌||◌, ltb, ◌==◌, if◌then◌else◌, arith}
use serving.Breaker.Defs.{max_breaker_capacity}

abbrev pub revision_max_concurrency : ℕ
revision_max_concurrency = max_breaker_capacity

unfoldable pub min_one_or_value : ℕ → ℕ
min_one_or_value num = if ltb 1 num then num else 1

unfoldable pub target_capacity : ℕ → ℕ → ℕ → ℕ → ℕ
unfolding min_one_or_value
target_capacity cc backends trackers activators =
    if ltb 0 trackers
    then cc * trackers
    else (let target = cc * backends in
        if ltb 0 target then min_one_or_value (target / min_one_or_value activators) else target)

unfoldable pub calculate_capacity : ℕ → ℕ → ℕ → ℕ → ℕ
calculate_capacity cc backends trackers activators =
    let target = target_capacity cc backends trackers activators in
    if ltb 0 backends && ((cc == 0) || ltb revision_max_concurrency target)
    then revision_max_concurrency
    else target

target_pos :
    (cc backends trackers activators : ℕ)
    → 0 < cc
    → 0 < backends
    → 0 < target_capacity cc backends trackers activators
unfolding target_capacity
target_pos cc backends trackers activators h k =
    let p : 0 < cc * backends = grind arith in
    let q : 0 < trackers → 0 < cc * trackers = λ t. grind arith in ground arith

-- With a backend to send to, the capacity is at least 1 and within what the breaker allows; without
-- a concurrency limit it is all that the breaker allows.
pub calculate_capacity_bounds :
    (cc backends trackers activators : ℕ)
    → 0 < backends
    → (0 < calculate_capacity cc backends trackers activators)
      × (calculate_capacity cc backends trackers activators ≤ revision_max_concurrency)
      × (cc ≡ 0 → calculate_capacity cc backends trackers activators ≡ revision_max_concurrency)
unfolding calculate_capacity
calculate_capacity_bounds cc backends trackers activators h =
    ground (arith, target_pos cc backends trackers activators)

-- Without backends and trackers there is no capacity.
pub calculate_capacity_none : (cc activators : ℕ) → calculate_capacity cc 0 0 activators ≡ 0
unfolding calculate_capacity target_capacity
calculate_capacity_none cc activators = ground arith
