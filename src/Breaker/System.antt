-- ===== src/Breaker/System.antt =====
-- The goroutines that share one breaker, counted by where they stand in its methods. Each step is
-- one atomic operation of one of them: a swap, an operation on the channel, or an addition.
use serving.Prelude.{ℕ, ◌+◌, ◌-◌, ◌≤◌, ◌<◌, ◌≡◌, true, false, some}
use serving.Breaker.Defs.{
  Breaker, try_acquire, release, update_capacity, poke, try_acquire_pending, release_pending,
}

pub record World : Type 0 where
  pub breaker : Breaker
  -- in `Reserve`, with a slot in the queue, before `tryAcquire`
  pub reserving : ℕ
  -- in the loop of `acquire`, before it loads the state
  pub acquiring : ℕ
  -- in the `select` of `acquire`
  pub waiting : ℕ
  -- with capacity: in `thunk`, or between `Reserve` and its callback
  pub running : ℕ
  -- in `release`, after the swap, before the `select`
  pub poking : ℕ
  -- before `releasePending`
  pub leaving : ℕ
  -- sends that `updateCapacity` still has to try
  pub due : ℕ

abbrev pub with_state : Breaker → ℕ → Breaker
with_state b s = record b { sem = record (b.sem) { state = s } }

abbrev pub with_poke : Breaker → Breaker
with_poke b = record b { sem = poke b.sem }

abbrev pub with_receive : Breaker → Breaker
with_receive b = record b { sem = record (b.sem) { tokens = b.sem.tokens - 1 } }

pub data Step (w v : World) : Type 0 where
  -- `Maybe`: `tryAcquirePending` succeeds
  enter :
      (b : Breaker)
      → try_acquire_pending w.breaker ≡ (b, true)
      → v ≡ record w { breaker = b; acquiring = w.acquiring + 1 }
      → Step w v
  -- `Reserve`: `tryAcquirePending` succeeds
  enter_reserve :
      (b : Breaker)
      → try_acquire_pending w.breaker ≡ (b, true)
      → v ≡ record w { breaker = b; reserving = w.reserving + 1 }
      → Step w v
  -- either of them is turned away with ErrRequestQueueFull, or false
  turned_away :
      (b : Breaker)
      → try_acquire_pending w.breaker ≡ (b, false)
      → v ≡ record w { breaker = b }
      → Step w v
  -- `Reserve`: `tryAcquire` succeeds
  reserved :
      (s : ℕ)
      → 0 < w.reserving
      → try_acquire w.breaker.sem.state ≡ (s, true)
      → v ≡ record w {
        breaker = with_state w.breaker s;
        reserving = w.reserving - 1;
        running = w.running + 1;
      }
      → Step w v
  -- `Reserve`: `tryAcquire` fails
  not_reserved :
      (s : ℕ)
      → 0 < w.reserving
      → try_acquire w.breaker.sem.state ≡ (s, false)
      → v ≡ record w {
        breaker = with_state w.breaker s;
        reserving = w.reserving - 1;
        leaving = w.leaving + 1;
      }
      → Step w v
  -- `acquire`: the swap succeeds
  acquired :
      (s : ℕ)
      → 0 < w.acquiring
      → try_acquire w.breaker.sem.state ≡ (s, true)
      → v ≡ record w {
        breaker = with_state w.breaker s;
        acquiring = w.acquiring - 1;
        running = w.running + 1;
      }
      → Step w v
  -- `acquire`: the loaded state has no capacity left
  blocked :
      (s : ℕ)
      → 0 < w.acquiring
      → try_acquire w.breaker.sem.state ≡ (s, false)
      → v ≡ record w {
        breaker = with_state w.breaker s;
        acquiring = w.acquiring - 1;
        waiting = w.waiting + 1;
      }
      → Step w v
  -- `acquire`: `<-s.queue`, and the loop goes on
  woken :
      0 < w.waiting
      → 0 < w.breaker.sem.tokens
      → v ≡ record w {
        breaker = with_receive w.breaker;
        waiting = w.waiting - 1;
        acquiring = w.acquiring + 1;
      }
      → Step w v
  -- `acquire`: `<-ctx.Done()`
  cancelled :
      0 < w.waiting → v ≡ record w { waiting = w.waiting - 1; leaving = w.leaving + 1 } → Step w v
  -- `release`: the swap, which leaves capacity free
  released :
      (s : ℕ)
      → 0 < w.running
      → release w.breaker.sem.state ≡ some (s, true)
      → v ≡ record w {
        breaker = with_state w.breaker s;
        running = w.running - 1;
        poking = w.poking + 1;
      }
      → Step w v
  -- `release`: the swap, after which there is no capacity to hand out
  released_full :
      (s : ℕ)
      → 0 < w.running
      → release w.breaker.sem.state ≡ some (s, false)
      → v ≡ record w {
        breaker = with_state w.breaker s;
        running = w.running - 1;
        leaving = w.leaving + 1;
      }
      → Step w v
  -- `release`: the `select` that sends or drops the wake-up
  poked :
      0 < w.poking
      → v
        ≡ record w { breaker = with_poke w.breaker; poking = w.poking - 1; leaving = w.leaving + 1 }
      → Step w v
  left :
      0 < w.leaving
      → v ≡ record w { breaker = release_pending w.breaker; leaving = w.leaving - 1 }
      → Step w v
  -- `updateCapacity`: the swap. The size is one that the channel has room for.
  resized :
      (size s n : ℕ)
      → size ≤ w.breaker.sem.slots
      → update_capacity size w.breaker.sem.state ≡ (s, n)
      → v ≡ record w { breaker = with_state w.breaker s; due = w.due + n }
      → Step w v
  -- `updateCapacity`: one round of its loop of sends
  resize_poked :
      0 < w.due → v ≡ record w { breaker = with_poke w.breaker; due = w.due - 1 } → Step w v

pub data Reach (w : World) : World → Type 0 where
  here : Reach w w
  next : {u v : World} → Reach w u → Step u v → Reach w v

-- A breaker that nobody uses yet.
abbrev pub start : Breaker → World
start b = record {
  breaker = b;
  reserving = 0;
  acquiring = 0;
  waiting = 0;
  running = 0;
  poking = 0;
  leaving = 0;
  due = 0;
}
