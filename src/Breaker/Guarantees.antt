-- ===== src/Breaker/Guarantees.antt =====
-- What a caller may rely on, from any state that a new breaker can reach.
use serving.Prelude.{
  ℕ, zero, suc, ◌+◌, ◌-◌, ◌^◌, ◌≤◌, ◌<◌, ◌≡◌, refl, ap, ◌∙◌, true, false, none, some, arith, inl,
  inr, ◌⊎◌, ltb, if◌then◌else◌, ◌≢◌,
}
use serving.Prelude.Int.{pos_part}
use serving.Breaker.Defs.{
  BreakerParams, Breaker, Semaphore, release, update_capacity, poke, pokes, new_semaphore,
  new_breaker, unpack, try_acquire_pending, release_pending, capacity, max_breaker_capacity,
  reserve, release_reservation,
}
use serving.Breaker.Words.{cap_of, use_of, try_acquire_lem, release_lem, update_capacity_lem}
use serving.Breaker.System.{
  World, Step, Reach, here, next, start, enter, enter_reserve, turned_away, reserved, not_reserved,
  acquired, blocked, woken, cancelled, released, released_full, poked, left, resized, resize_poked,
}
use serving.Breaker.Invariant.{Inv, callers, Step-Inv, poke_lem}

pub pokes_lem :
    (n : ℕ) (s : Semaphore)
    → ((pokes n s).state ≡ s.state)
      × ((pokes n s).slots ≡ s.slots)
      × ((s.tokens + n ≤ (pokes n s).tokens) ⊎ (s.slots ≤ (pokes n s).tokens))
unfolding pokes
pokes_lem zero s = (refl, refl, inl (omega arith))
pokes_lem (suc n) s = ground (arith, pokes_lem n (poke s), poke_lem s)

new_semaphore_lem :
    (m i : ℕ)
    → m < 2 ^ 32
    → i ≤ m
    → (cap_of (new_semaphore m i).state ≡ i)
      × (use_of (new_semaphore m i).state ≡ 0)
      × ((new_semaphore m i).slots ≡ m)
      × (i ≤ (new_semaphore m i).tokens)
unfolding new_semaphore unpack
new_semaphore_lem m i h k =
    let (c, u, n) = update_capacity_lem i 0 (omega arith) (omega arith) in
    let (s, t) = update_capacity i 0 in
    let (e, f, g) = pokes_lem t (record { state = s; tokens = 0; slots = m }) in
    (ap cap_of e ∙ c, ap use_of e ∙ u, f, omega (arith, n, g))

-- A new breaker satisfies the invariant.
new_breaker-Inv :
    (p : BreakerParams) (b : Breaker)
    → new_breaker p ≡ some b
    → pos_part p.max_concurrency ≤ max_breaker_capacity
    → Inv (start b) × (b.total_slots ≡ pos_part p.queue_depth + pos_part p.max_concurrency)
unfolding new_breaker
new_breaker-Inv p b e h =
    let m = pos_part p.max_concurrency in
    let i = pos_part p.initial_capacity in ground (arith, new_semaphore_lem m i)

Reach-Inv : {w v : World} → Inv w → Reach w v → Inv v
Reach-Inv i here = i
Reach-Inv i (next r s) = Step-Inv s (Reach-Inv i r)

Step-total_slots : {w v : World} → Step w v → Inv w → v.breaker.total_slots ≡ w.breaker.total_slots
unfolding release_pending try_acquire_pending
Step-total_slots (enter b e q) i = ground (arith, q)
Step-total_slots (enter_reserve b e q) i = ground (arith, q)
Step-total_slots (turned_away b e q) i = ground (arith, q)
Step-total_slots (reserved s p e q) i = ground (arith, q)
Step-total_slots (not_reserved s p e q) i = ground (arith, q)
Step-total_slots (acquired s p e q) i = ground (arith, q)
Step-total_slots (blocked s p e q) i = ground (arith, q)
Step-total_slots (woken p t q) i = ground (arith, q)
Step-total_slots (cancelled p q) i = ground (arith, q)
Step-total_slots (released s p e q) i = ground (arith, q)
Step-total_slots (released_full s p e q) i = ground (arith, q)
Step-total_slots (poked p q) i = ground (arith, q)
Step-total_slots (left p q) i = ground (arith, q)
Step-total_slots (resized size s n h e q) i = ground (arith, q)
Step-total_slots (resize_poked p q) i = ground (arith, q)

Reach-total_slots :
    {w v : World} → Inv w → Reach w v → v.breaker.total_slots ≡ w.breaker.total_slots
Reach-total_slots i here = refl
Reach-total_slots i (next r s) = Step-total_slots s (Reach-Inv i r) ∙ Reach-total_slots i r

-- Only the two acquiring swaps give capacity to a caller.
Step-running :
    {w v : World}
    → Step w v
    → Inv w
    → w.running < v.running
    → v.running ≤ cap_of v.breaker.sem.state
Step-running (enter b e q) i h = absurd (ground (arith, q))
Step-running (enter_reserve b e q) i h = absurd (ground (arith, q))
Step-running (turned_away b e q) i h = absurd (ground (arith, q))
Step-running {w} (reserved s p e q) i h = ground (arith, q, try_acquire_lem w.breaker.sem.state)
Step-running (not_reserved s p e q) i h = absurd (ground (arith, q))
Step-running {w} (acquired s p e q) i h = ground (arith, q, try_acquire_lem w.breaker.sem.state)
Step-running (blocked s p e q) i h = absurd (ground (arith, q))
Step-running (woken p t q) i h = absurd (ground (arith, q))
Step-running (cancelled p q) i h = absurd (ground (arith, q))
Step-running (released s p e q) i h = absurd (ground (arith, q))
Step-running (released_full s p e q) i h = absurd (ground (arith, q))
Step-running (poked p q) i h = absurd (ground (arith, q))
Step-running (left p q) i h = absurd (ground (arith, q))
Step-running (resized size s n k e q) i h = absurd (ground (arith, q))
Step-running (resize_poked p q) i h = absurd (ground (arith, q))

module _ (p : BreakerParams) (b : Breaker) (made : new_breaker p ≡ some b)
    (small : pos_part p.max_concurrency ≤ max_breaker_capacity) where
  -- For a new breaker whose concurrency limit is at most MaxBreakerCapacity, and whose capacity is
  -- only set to sizes within that limit: in every interleaving, no more callers are in it than its
  -- queue and its concurrency limit have room for together, and `inFlight` is their number.
  pub callers_bounded :
      (w : World)
      → Reach (start b) w
      → (callers w ≤ pos_part p.queue_depth + pos_part p.max_concurrency)
        × (w.breaker.in_flight ≡ callers w)
  callers_bounded w r =
      let (i, t) = new_breaker-Inv p b made small in
      let j = Reach-Inv i r in omega (arith, j.counted, j.bounded, t, Reach-total_slots i r)

  -- For a new breaker whose concurrency limit is at most MaxBreakerCapacity, and whose capacity is
  -- only set to sizes within that limit: in every interleaving, whoever calls `release` with
  -- capacity finds some taken, so that its panic is never reached.
  pub release_paired :
      (w : World) → Reach (start b) w → 0 < w.running → release w.breaker.sem.state ≢ none
  release_paired w r h =
      let j = Reach-Inv (new_breaker-Inv p b made small).0 r in
      ground (arith, release_lem w.breaker.sem.state, j.held, j.fits, j.room, j.small)

  -- No wake-up is lost. For a new breaker whose concurrency limit is at most MaxBreakerCapacity,
  -- and whose capacity is only set to sizes within that limit: in every interleaving, when no
  -- goroutine is about to send a wake-up or to look at the state itself, the channel holds a wake-
  -- up for each free unit of capacity, so that whoever waits can go on.
  pub wakeup_kept :
      (w : World)
      → Reach (start b) w
      → (w.poking ≡ 0) × (w.due ≡ 0) × (w.acquiring ≡ 0)
      → capacity w.breaker - w.running ≤ w.breaker.sem.tokens
  unfolding capacity
  wakeup_kept w r q =
      let j = Reach-Inv (new_breaker-Inv p b made small).0 r in omega (arith, j.awake)

  -- For a new breaker whose concurrency limit is at most MaxBreakerCapacity, and whose capacity is
  -- only set to sizes within that limit: in every interleaving, a caller that gets capacity stays
  -- within the capacity of that moment.
  pub running_within :
      (w v : World)
      → Reach (start b) w
      → Step w v
      → w.running < v.running
      → v.running ≤ capacity v.breaker
  unfolding capacity
  running_within w v r s h = Step-running s (Reach-Inv (new_breaker-Inv p b made small).0 r) h

-- A reservation that is refused leaves the breaker as it was, if its capacity is below 2 ^ 32.
pub reserve_refused : (b c : Breaker) → cap_of b.sem.state < 2 ^ 32 → reserve b ≡ (c, false) → c ≡ b
unfolding reserve release_pending try_acquire_pending
reserve_refused b c h e = ground (arith, try_acquire_lem b.sem.state h)

reserve_granted :
    (b c : Breaker)
    → cap_of b.sem.state < 2 ^ 32
    → reserve b ≡ (c, true)
    → (use_of b.sem.state < cap_of b.sem.state)
      × (b.in_flight ≢ b.total_slots)
      × (c.in_flight ≡ b.in_flight + 1)
      × (cap_of c.sem.state ≡ cap_of b.sem.state)
      × (use_of c.sem.state ≡ use_of b.sem.state + 1)
unfolding reserve try_acquire_pending
reserve_granted b c h e = ground (arith, try_acquire_lem b.sem.state h)

release_reservation_lem :
    (c : Breaker)
    → cap_of c.sem.state < 2 ^ 32
    → use_of c.sem.state < 2 ^ 32
    → 0 < use_of c.sem.state
    → (d : Breaker) × (release_reservation c ≡ some d)
      × (d.in_flight ≡ c.in_flight - 1)
      × (cap_of d.sem.state ≡ cap_of c.sem.state)
      × (use_of d.sem.state ≡ use_of c.sem.state - 1)
unfolding release_reservation release_pending
release_reservation_lem c h k p = elim (release_lem c.sem.state h k) [
  | inl (_, z) ↦ absurd (omega arith)
  | inr (t, e, _, ct, ut) ↦
      let sem : Semaphore = record (c.sem) { state = t } in
      let wake = ltb (use_of c.sem.state - 1) (cap_of c.sem.state) in
      let (s, _, _) = poke_lem sem in
      (
        release_pending (record c { sem = if wake then poke sem else sem }),
        rw (e, release_reservation),
        refl,
        ground (arith, ct, s),
        ground (arith, ut, s),
      )
]

-- A reservation that is granted, on a breaker with a capacity below 2 ^ 32, had a slot in the
-- queue and free capacity; its callback gives both back, and the counts are as they were before.
pub release_reservation-reserve :
    (b c : Breaker)
    → cap_of b.sem.state < 2 ^ 32
    → reserve b ≡ (c, true)
    → (use_of b.sem.state < cap_of b.sem.state)
      × (b.in_flight ≢ b.total_slots)
      × (d : Breaker) × (release_reservation c ≡ some d)
      × (d.in_flight ≡ b.in_flight)
      × (cap_of d.sem.state ≡ cap_of b.sem.state)
      × (use_of d.sem.state ≡ use_of b.sem.state)
release_reservation-reserve b c h e =
    let (room, queued, f, cc', uc) = reserve_granted b c h e in
    let (d, eq, fd, cd, ud) =
      release_reservation_lem c (omega (arith, cc')) (omega (arith, uc)) (omega (arith, uc)) in
    (room, queued, d, eq, omega (arith, f, fd), omega (arith, cc', cd), omega (arith, uc, ud))
