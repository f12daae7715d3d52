-- ===== src/Breaker/Tests.antt =====
-- Runs of breaker.go with one unit of concurrency and a queue of two.
use serving.Prelude.{◌+◌, ◌-◌, ◌^◌, ◌≤◌, ◌<◌, ◌≡◌, ◌≢◌, refl, true, false, none, some, arith}
use serving.Prelude.Int.{pos}
use serving.Breaker.Defs.{
  BreakerParams, Breaker, new_breaker, new_semaphore, update_capacity, pokes, poke, unpack, pack,
  release, try_acquire, try_acquire_pending, release_pending, reserve, release_reservation,
  capacity,
}
use serving.Breaker.Words.{cap_of, use_of}
use serving.Breaker.System.{World, Step, Reach, here, next, start, enter, acquired, with_state}
use serving.Breaker.Invariant.{callers}
use serving.Breaker.Guarantees.{
  callers_bounded, release_paired, wakeup_kept, running_within, release_reservation-reserve,
}

abbrev params : BreakerParams
params = record { queue_depth = pos 2; max_concurrency = pos 1; initial_capacity = pos 1 }

-- One unit of capacity, none in use, and one wake-up in the channel.
abbrev fresh : Breaker
fresh = record {
  in_flight = 0;
  total_slots = 3;
  sem = record { state = 2 ^ 32; tokens = 1; slots = 1 };
}

fresh_made : new_breaker params ≡ some fresh
unfolding new_breaker new_semaphore update_capacity pack unpack pokes poke
fresh_made = refl

abbrev queued : World
queued = record (start fresh) { breaker = record fresh { in_flight = 1 }; acquiring = 1 }

abbrev served : World
served = record queued {
  breaker = with_state queued.breaker (2 ^ 32 + 1);
  acquiring = 0;
  running = 1;
}

queues : Step (start fresh) queued
unfolding try_acquire_pending
queues = enter queued.breaker refl refl

serves : Step queued served
unfolding try_acquire unpack pack
serves = acquired (2 ^ 32 + 1) (omega arith) refl refl

queued-Reach : Reach (start fresh) queued
queued-Reach = next here queues

served-Reach : Reach (start fresh) served
served-Reach = next queued-Reach serves

callers_bounded_example : (callers served ≤ 2 + 1) × (served.breaker.in_flight ≡ callers served)
callers_bounded_example = callers_bounded params fresh fresh_made (omega arith) served served-Reach

release_paired_example : release (2 ^ 32 + 1) ≢ none
release_paired_example =
    release_paired params fresh fresh_made (omega arith) served served-Reach (omega arith)

wakeup_kept_example : capacity served.breaker - 1 ≤ 1
wakeup_kept_example =
    wakeup_kept params fresh fresh_made (omega arith) served served-Reach (refl, refl, refl)

running_within_example : 1 ≤ capacity served.breaker
running_within_example =
    running_within params fresh fresh_made (omega arith) queued served queued-Reach serves
      (omega arith)

-- All the capacity is in use.
abbrev busy : Breaker
busy = served.breaker

busy_refuses : reserve busy ≡ (busy, false)
unfolding reserve try_acquire_pending release_pending try_acquire unpack
busy_refuses = refl

busy-cap : cap_of busy.sem.state < 2 ^ 32
unfolding unpack
busy-cap = omega arith

abbrev reserved_one : Breaker
reserved_one = record fresh { in_flight = 1; sem = record (fresh.sem) { state = 2 ^ 32 + 1 } }

fresh_grants : reserve fresh ≡ (reserved_one, true)
unfolding reserve try_acquire_pending try_acquire unpack pack
fresh_grants = refl

fresh-cap : cap_of fresh.sem.state < 2 ^ 32
unfolding unpack
fresh-cap = omega arith

release_reservation-reserve_example :
    (use_of fresh.sem.state < cap_of fresh.sem.state)
    × (fresh.in_flight ≢ fresh.total_slots)
    × (d : Breaker) × (release_reservation reserved_one ≡ some d)
    × (d.in_flight ≡ fresh.in_flight)
    × (cap_of d.sem.state ≡ cap_of fresh.sem.state)
    × (use_of d.sem.state ≡ use_of fresh.sem.state)
release_reservation-reserve_example =
    release_reservation-reserve fresh reserved_one fresh-cap fresh_grants
