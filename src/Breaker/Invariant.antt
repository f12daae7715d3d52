-- ===== src/Breaker/Invariant.antt =====
-- What holds of a breaker in every interleaving of the goroutines that use it.
use serving.Prelude.{ℕ, ◌+◌, ◌-◌, ◌^◌, ◌≤◌, ◌<◌, ◌≡◌, Bool, true, false, arith, ◌⊎◌, if◌then◌else◌}
use serving.Breaker.Defs.{Breaker, Semaphore, poke, try_acquire_pending, release_pending}
use serving.Breaker.Words.{cap_of, use_of, try_acquire_lem, release_lem, update_capacity_lem}
use serving.Breaker.System.{
  World, Step, enter, enter_reserve, turned_away, reserved, not_reserved, acquired, blocked, woken,
  cancelled, released, released_full, poked, left, resized, resize_poked,
}

-- The callers between `tryAcquirePending` and `releasePending`.
abbrev pub callers : World → ℕ
callers w = w.reserving + w.acquiring + w.waiting + w.running + w.poking + w.leaving

pub record Inv (w : World) : Type 0 where
  -- `inFlight` of the breaker counts its callers, and stays within the slots
  pub counted : w.breaker.in_flight ≡ callers w
  pub bounded : w.breaker.in_flight ≤ w.breaker.total_slots
  -- the packed word counts the callers that have capacity
  pub held : use_of w.breaker.sem.state ≡ w.running
  pub fits : w.running < 2 ^ 32
  -- the channel has room for the capacity
  pub room : cap_of w.breaker.sem.state ≤ w.breaker.sem.slots
  pub small : w.breaker.sem.slots < 2 ^ 32
  -- for every free unit there is a wake-up in the channel, one on its way, or a caller that is about
  -- to look
  pub awake :
      cap_of w.breaker.sem.state - w.running ≤ w.breaker.sem.tokens + w.poking + w.due + w.acquiring

pub poke_lem :
    (s : Semaphore)
    → ((poke s).state ≡ s.state)
      × ((poke s).slots ≡ s.slots)
      × (((poke s).tokens ≡ s.tokens + 1) ⊎ ((s.slots ≤ s.tokens) × ((poke s).tokens ≡ s.tokens)))
unfolding poke
poke_lem s = ground arith

pending_lem :
    (b c : Breaker) (t : Bool)
    → try_acquire_pending b ≡ (c, t)
    → b.in_flight ≤ b.total_slots
    → (c.sem ≡ b.sem)
      × (c.total_slots ≡ b.total_slots)
      × (c.in_flight ≤ c.total_slots)
      × (c.in_flight ≡ (if t then b.in_flight + 1 else b.in_flight))
unfolding try_acquire_pending
pending_lem b c t e h = ground arith

pub Step-Inv : {w v : World} → Step w v → Inv w → Inv v
unfolding release_pending
Step-Inv {w} (enter b e q) i =
    let (s, t, l, f) = pending_lem w.breaker b true e i.bounded in ground (arith, q)
Step-Inv {w} (enter_reserve b e q) i =
    let (s, t, l, f) = pending_lem w.breaker b true e i.bounded in ground (arith, q)
Step-Inv {w} (turned_away b e q) i =
    let (s, t, l, f) = pending_lem w.breaker b false e i.bounded in ground (arith, q)
Step-Inv {w} (reserved s p e q) i = ground (arith, q, try_acquire_lem w.breaker.sem.state)
Step-Inv {w} (not_reserved s p e q) i = ground (arith, q, try_acquire_lem w.breaker.sem.state)
Step-Inv {w} (acquired s p e q) i = ground (arith, q, try_acquire_lem w.breaker.sem.state)
Step-Inv {w} (blocked s p e q) i = ground (arith, q, try_acquire_lem w.breaker.sem.state)
Step-Inv (woken p t q) i = ground arith
Step-Inv (cancelled p q) i = ground arith
Step-Inv {w} (released s p e q) i = ground (arith, q, release_lem w.breaker.sem.state)
Step-Inv {w} (released_full s p e q) i = ground (arith, q, release_lem w.breaker.sem.state)
Step-Inv {w} (poked p q) i = ground (arith, poke_lem w.breaker.sem)
Step-Inv (left p q) i = ground arith
Step-Inv {w} (resized size s n h e q) i =
    ground (arith, q, update_capacity_lem size w.breaker.sem.state)
Step-Inv {w} (resize_poked p q) i = ground (arith, poke_lem w.breaker.sem)
