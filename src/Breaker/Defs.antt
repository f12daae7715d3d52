-- ===== src/Breaker/Defs.antt =====
-- The breaker's state and its operations. A loop around CompareAndSwap has its effect at the one
-- swap that succeeds, on the word that was loaded; what is modelled is that effect, or the early
-- return, which depends on the loaded word alone.
use Prim.Native.Nat.{bit_and, bit_or}
use serving.Prelude.{
  ℕ, zero, suc, ◌+◌, ◌-◌, ◌*◌, ◌/◌, ◌%◌, ◌^◌, Bool, true, false, Option, none, some, ltb, leb, ◌==◌,
  if◌then◌else◌,
}
use serving.Prelude.Int.{ℤ, pos, ltb_ℤ, pos_part}

-- `MaxBreakerCapacity`, which is math.MaxInt32.
abbrev pub max_breaker_capacity : ℕ
max_breaker_capacity = 2 ^ 31 - 1

pub record BreakerParams : Type 0 where
  pub queue_depth : ℤ
  pub max_concurrency : ℤ
  pub initial_capacity : ℤ

-- `sem.queue` is a buffered channel of empty values: how many it holds, and how many it can hold.
pub record Semaphore : Type 0 where
  pub state : ℕ  -- uint64
  pub tokens : ℕ
  pub slots : ℕ

pub record Breaker : Type 0 where
  pub in_flight : ℕ  -- int64
  pub total_slots : ℕ  -- int64
  pub sem : Semaphore

-- `in >> 32` and `in & 0xffffffff`
unfoldable pub unpack : ℕ → ℕ × ℕ
unpack n = (n / 2 ^ 32, bit_and n (2 ^ 32 - 1))

-- `left<<32 | right` in uint64
unfoldable pub pack : ℕ → ℕ → ℕ
pack left right = bit_or ((left * 2 ^ 32) % 2 ^ 64) right

-- `tryAcquire`; also one round of the loop of `acquire`, where false means that it goes on to wait.
unfoldable pub try_acquire : ℕ → ℕ × Bool
try_acquire old =
    let (capacity, in_use) = unpack old in
    if leb capacity in_use then (old, false) else (pack capacity (in_use + 1), true)

-- The swap of `release`, and whether it goes on to poke the channel; `none` is its panic.
unfoldable pub release : ℕ → Option (ℕ × Bool)
release old =
    let (capacity, in_use) = unpack old in
    if in_use == 0 then none else some (pack capacity (in_use - 1), ltb (in_use - 1) capacity)

-- The swap of `updateCapacity`, and how often it goes on to poke the channel.
unfoldable pub update_capacity : ℕ → ℕ → ℕ × ℕ
update_capacity size old =
    let (capacity, in_use) = unpack old in
    if capacity == size
    then (old, 0)
    else (pack size in_use, if ltb capacity size then size - capacity else 0)

-- `select { case s.queue <- struct{}{}: default: }`
unfoldable pub poke : Semaphore → Semaphore
poke s = if ltb s.tokens s.slots then record s { tokens = s.tokens + 1 } else s

unfoldable pub pokes : ℕ → Semaphore → Semaphore
pokes zero s = s
pokes (suc n) s = pokes n (poke s)

-- `newSemaphore`, with its call of `updateCapacity`.
unfoldable pub new_semaphore : ℕ → ℕ → Semaphore
unfolding pokes poke
new_semaphore max_capacity initial_capacity =
    let (s, n) = update_capacity initial_capacity 0 in
    pokes n (record { state = s; tokens = 0; slots = max_capacity })

-- `NewBreaker`; `none` stands for its three panics.
unfoldable pub new_breaker : BreakerParams → Option Breaker
new_breaker p =
    if ltb_ℤ (pos 0) p.queue_depth
    then (if ltb_ℤ p.max_concurrency (pos 0)
        then none
        else if ltb_ℤ p.initial_capacity (pos 0)
        then none
        else if ltb_ℤ p.max_concurrency p.initial_capacity
        then none
        else some (record {
          in_flight = 0;
          total_slots = pos_part p.queue_depth + pos_part p.max_concurrency;
          sem = new_semaphore (pos_part p.max_concurrency) (pos_part p.initial_capacity);
        }))
    else none

unfoldable pub try_acquire_pending : Breaker → Breaker × Bool
try_acquire_pending b =
    if b.in_flight == b.total_slots
    then (b, false)
    else (record b { in_flight = b.in_flight + 1 }, true)

-- Every caller counts in `in_flight`, which is therefore not 0 here.
unfoldable pub release_pending : Breaker → Breaker
release_pending b = record b { in_flight = b.in_flight - 1 }

-- `Capacity`
unfoldable pub capacity : Breaker → ℕ
capacity b = (unpack b.sem.state).0

-- `Reserve` where no other goroutine runs in between; with the flag that it returns.
unfoldable pub reserve : Breaker → Breaker × Bool
reserve b =
    let (b', queued) = try_acquire_pending b in
    if queued
    then (let (s, acquired) = try_acquire b'.sem.state in
        if acquired
        then (record b' { sem = record (b'.sem) { state = s } }, true)
        else (release_pending b', false))
    else (b, false)

-- `b.release`, the callback of a reservation, where no other goroutine runs in between.
unfoldable pub release_reservation : Breaker → Option Breaker
release_reservation b = elim (release b.sem.state) [
  | none ↦ none
  | some (s, wake) ↦
      let sem = record (b.sem) { state = s } in
      some (release_pending (record b { sem = if wake then poke sem else sem }))
]

-- `UpdateConcurrency`
unfoldable pub update_concurrency : ℕ → Breaker → Breaker
update_concurrency size b =
    let (s, n) = update_capacity size b.sem.state in
    record b { sem = pokes n (record (b.sem) { state = s }) }
