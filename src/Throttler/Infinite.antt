-- ===== src/Throttler/Infinite.antt =====
-- `infiniteBreaker`: no limit on concurrency, but requests wait while there is no pod.
use serving.Prelude.{
  ℕ, ◌≡◌, refl, ◌⊎◌, Bool, true, false, Option, none, some, ltb, ◌==◌, if◌then◌else◌, arith, List,
  [], ◌∷◌, ◌>>=◌, ◌+◌, ◌&&◌, not,
}

-- The channels made so far are numbered; `broadcast` is the newest, `closed` tells whether it is.
pub record InfiniteBreaker : Type 0 where
  pub concurrency : ℕ  -- int32
  pub broadcast : ℕ
  pub closed : Bool

unfoldable pub new_infinite_breaker : InfiniteBreaker
new_infinite_breaker = record { concurrency = 0; broadcast = 0; closed = false }

unfoldable pub zero_or_one : ℕ → ℕ
zero_or_one x = if x == 0 then 0 else 1

-- `close` of a closed channel panics.
abbrev pub close : InfiniteBreaker → Option InfiniteBreaker
close ib = if ib.closed then none else some (record ib { closed = true })

-- `UpdateConcurrency`, which holds the lock throughout; `none` is the panic of `close`.
unfoldable pub infinite_update_concurrency : ℕ → InfiniteBreaker → Option InfiniteBreaker
unfolding zero_or_one
infinite_update_concurrency size ib =
    let rcc = zero_or_one size in
    let swapped = record ib { concurrency = rcc } in
    if ib.concurrency == rcc
    then some swapped
    else if rcc == 0
    then some (record swapped { broadcast = ib.broadcast + 1; closed = false })
    else close swapped

pub data Outcome : Type 0 where
  ran cancelled waits : Outcome

-- `Maybe` against one state of the breaker: the thunk runs, or the request waits on the channel;
-- `done` is whether its context is.
unfoldable pub maybe_infinite : Bool → InfiniteBreaker → Outcome
maybe_infinite done ib =
    if ltb 0 ib.concurrency
    then ran
    else if ib.closed
    then ran
    else if done
    then cancelled
    else waits

-- The channel is closed exactly while there is capacity.
pub record IsConsistent (ib : InfiniteBreaker) : Type 0 where
  pub zero_one : (ib.concurrency ≡ 0) ⊎ (ib.concurrency ≡ 1)
  pub open_if : ib.concurrency ≡ 0 → ib.closed ≡ false
  pub closed_if : ib.concurrency ≡ 1 → ib.closed ≡ true

unfoldable pub run_updates : List ℕ → InfiniteBreaker → Option InfiniteBreaker
run_updates [] ib = some ib
run_updates (c ∷ cs) ib = infinite_update_concurrency c ib >>= run_updates cs

pub update-IsConsistent :
    (size : ℕ) (ib : InfiniteBreaker)
    → IsConsistent ib
    → (jb : InfiniteBreaker) × (infinite_update_concurrency size ib ≡ some jb) × IsConsistent jb
unfolding infinite_update_concurrency
update-IsConsistent size ib h =
    let jb : InfiniteBreaker = record {
      concurrency = zero_or_one size;
      broadcast = if (ib.concurrency == 1) && (size == 0) then ib.broadcast + 1 else ib.broadcast;
      closed = not (size == 0);
    } in
    (jb, ground arith, ground arith)

-- From a breaker whose channel is closed exactly while it has capacity, no sequence of updates
-- panics on a closed channel; the breaker stays like that, and a request whose context is alive
-- then runs exactly when there is capacity, and otherwise waits.
pub run_updates_lem :
    (cs : List ℕ) (ib : InfiniteBreaker)
    → IsConsistent ib
    → (jb : InfiniteBreaker) × (run_updates cs ib ≡ some jb)
      × IsConsistent jb
      × (maybe_infinite false jb ≡ (if jb.concurrency == 0 then waits else ran))
unfolding run_updates maybe_infinite
run_updates_lem [] ib h = (ib, refl, h, ground arith)
run_updates_lem (c ∷ cs) ib h =
    let (jb, e, k) = update-IsConsistent c ib h in
    let (kb, e', k', r) = run_updates_lem cs jb k in (kb, rw e e', k', r)
