-- ===== src/Throttler/Picks.antt =====
-- Which target each policy picks.
use native.Mathlib.Nat.{mod-lt, mod-eq_of_lt, add-mod_right, add-zero, add-suc}
use serving.Prelude.{
  ℕ, zero, suc, ◌+◌, ◌-◌, ◌%◌, ◌^◌, ◌≤◌, ◌<◌, ◌≡◌, refl, ap, sym, ◌∙◌, Bool, true, false, List, [],
  ◌∷◌, Option, none, some, leb, ◌==◌, if◌then◌else◌, length, get_elem?, get_elem?_in, set, take,
  arith, All, ◌≢◌, ◌⊎◌, inl, inr, Bool-cases, some_eq, subst, dec_le,
}
use serving.Breaker.Defs.{Breaker, reserve}
use serving.Breaker.Words.{cap_of}
use serving.Breaker.Guarantees.{reserve_refused}
use serving.Throttler.Tracker.{Tracker, increase_weight, tracker_reserve, is_free}
use serving.Throttler.Policy.{
  two_indices, lighter, pick_at, random_choice_2_policy, first_available, round_robin_loop,
  round_robin_policy,
}

-- The capacity of a tracker's breaker is a 32-bit number.
abbrev pub IsWord : Tracker → Type 0
IsWord t = (b : Breaker) → t.breaker ≡ some b → cap_of b.sem.state < 2 ^ 32

-- A reservation that is refused leaves the tracker as it was.
tracker_refused : (t : Tracker) → IsWord t → is_free t ≡ false → (tracker_reserve t).0 ≡ t
unfolding tracker_reserve
tracker_refused t w e = go t.breaker refl
  where
    go : (o : Option Breaker) → t.breaker ≡ o → (tracker_reserve t).0 ≡ t
    go none k = ground (arith, k)
    go (some b) k = let r = reserve_refused b (reserve b).0 (w b k) in ground (arith, k, r)

-- The two random indices are different and in range.
two_indices_lem :
    (l r1 r2 : ℕ)
    → 2 ≤ l
    → r1 < l
    → r2 < l - 1
    → ((two_indices l r1 r2).0 < l)
      × ((two_indices l r1 r2).1 < l)
      × ((two_indices l r1 r2).0 ≢ (two_indices l r1 r2).1)
unfolding two_indices
two_indices_lem l r1 r2 h p q = ground arith

lighter_lem :
    (coin : Bool) (i j : ℕ) (pick alt : Tracker)
    → ((lighter coin i j pick alt ≡ i) × (pick.weight ≤ alt.weight))
      ⊎ ((lighter coin i j pick alt ≡ j) × (alt.weight ≤ pick.weight))
unfolding lighter
lighter_lem coin i j pick alt = ground arith

pick_at_lem :
    (i : ℕ) (targets : List Tracker) (t : Tracker)
    → get_elem? targets i ≡ some t
    → pick_at i targets ≡ some (set targets i (increase_weight t), i)
unfolding pick_at
pick_at_lem i targets t e = rw (e, pick_at)

-- With at least two targets and random numbers in their ranges, the policy picks one of two
-- different targets that is no heavier than the other, and adds one to its weight.
pub random_choice_2_policy_lem :
    (targets : List Tracker) (r1 r2 : ℕ) (coin : Bool)
    → 2 ≤ length targets
    → r1 < length targets
    → r2 < length targets - 1
    → (i j : ℕ) × (i ≢ j)
      × (pick : Tracker) × (alt : Tracker) × (get_elem? targets i ≡ some pick)
      × (get_elem? targets j ≡ some alt)
      × (pick.weight ≤ alt.weight)
      × (random_choice_2_policy r1 r2 coin targets ≡ some (set targets i (increase_weight pick), i))
unfolding random_choice_2_policy
random_choice_2_policy_lem targets r1 r2 coin h p q =
    let (bi, bj, ne) = two_indices_lem (length targets) r1 r2 h p q in
    let (i, j) = two_indices (length targets) r1 r2 in
    let (a, ea) = get_elem?_in targets i bi in
    let (b, eb) = get_elem?_in targets j bj in
    let many : (length targets == 1) ≡ false = ground arith in
    elim (lighter_lem coin i j a b) [
      | inl (e, le) ↦
          (i, j, ne, a, b, ea, eb, le, rw (many, ea, eb, e) (pick_at_lem i targets a ea))
      | inr (e, le) ↦ (
        j,
        i,
        (λ k. ne (sym k)),
        b,
        a,
        eb,
        ea,
        le,
        rw (many, ea, eb, e) (pick_at_lem j targets b eb),
      )
    ]

-- No target of the list would grant a reservation now.
abbrev pub IsBusy : Tracker → Type 0
IsBusy t = is_free t ≡ false

-- The first available target, where the capacities are below 2 ^ 32: nil exactly if every target
-- refuses, and then nothing has changed; otherwise the target is free, all before it refuse, and
-- only its own breaker has changed.
pub first_available_lem :
    (ts : List Tracker)
    → All IsWord ts
    → ((first_available ts ≡ (ts, none)) × All IsBusy ts)
      ⊎ ((i : ℕ) × (t : Tracker) × (get_elem? ts i ≡ some t)
          × (is_free t ≡ true)
          × All IsBusy (take i ts)
          × (first_available ts ≡ (set ts i (tracker_reserve t).0, some i)))
unfolding first_available
first_available_lem [] w = inl (refl, tt)
first_available_lem (t ∷ ts) w = elim (Bool-cases (is_free t)) [
  | inl free ↦ inr (0, t, refl, free, tt, rw free)
  | inr busy ↦
      let same = tracker_refused t w.0 busy in
      elim (first_available_lem ts w.1) [
        | inl (e, all) ↦ inl (rw (busy, same, e), (busy, all))
        | inr (i, u, eu, free, all, e) ↦ inr (suc i, u, eu, free, (busy, all), rw (busy, same, e))
      ]
]

set_self : (ts : List Tracker) (i : ℕ) (t : Tracker) → get_elem? ts i ≡ some t → set ts i t ≡ ts
set_self [] i t e = refl
set_self (x ∷ ts) zero t e = ap (λ y. y ∷ ts) (sym (some_eq e))
set_self (x ∷ ts) (suc i) t e = ap (λ l. x ∷ l) (set_self ts i t e)

All_at :
    (ts : List Tracker) (i : ℕ) (t : Tracker) → All IsWord ts → get_elem? ts i ≡ some t → IsWord t
All_at [] i t w e = absurd (ground arith)
All_at (x ∷ ts) zero t w e = subst IsWord (some_eq e) w.0
All_at (x ∷ ts) (suc i) t w e = All_at ts i t w.1 e

abbrev pub BusyAt : List Tracker → ℕ → Type 0
BusyAt ts p = (t : Tracker) → get_elem? ts p ≡ some t → is_free t ≡ false

-- What a run of `rounds` rounds from the position `s` gives.
abbrev Looped : ℕ → ℕ → List Tracker → List Tracker × Option ℕ → Type 0
Looped rounds s ts r =
    ((r ≡ (ts, none)) × ((j : ℕ) → j < rounds → BusyAt ts ((s + j) % length ts)))
    ⊎ ((k : ℕ) × (t : Tracker) × (k < rounds)
        × (get_elem? ts ((s + k) % length ts) ≡ some t)
        × (is_free t ≡ true)
        × (r ≡ (set ts ((s + k) % length ts) (tracker_reserve t).0, some ((s + k) % length ts)))
        × ((j : ℕ) → j < k → BusyAt ts ((s + j) % length ts)))

shift : (s j : ℕ) → suc s + j ≡ s + suc j
shift s j = omega arith

busy_shift :
    (s n : ℕ) (ts : List Tracker)
    → BusyAt ts (s % length ts)
    → ((j : ℕ) → j < n → BusyAt ts ((suc s + j) % length ts))
    → (j : ℕ) → j < suc n
    → BusyAt ts ((s + j) % length ts)
busy_shift s n ts b h zero lt = rw add-zero b
busy_shift s n ts b h (suc j) lt =
    subst (λ x. BusyAt ts (x % length ts)) (shift s j) (h j (omega arith))

Looped-suc :
    (rounds s : ℕ) (ts : List Tracker) (r : List Tracker × Option ℕ)
    → BusyAt ts (s % length ts)
    → Looped rounds (suc s) ts r
    → Looped (suc rounds) s ts r
Looped-suc rounds s ts r b (inl (e, h)) = inl (e, busy_shift s rounds ts b h)
Looped-suc rounds s ts r b (inr (k, t, lt, e, free, q, h)) = inr (
  suc k,
  t,
  omega arith,
  subst (λ x. get_elem? ts (x % length ts) ≡ some t) (shift s k) e,
  free,
  subst (λ x. r ≡ (set ts (x % length ts) (tracker_reserve t).0, some (x % length ts))) (shift s k)
      q,
  busy_shift s k ts b h,
)

round_robin_loop_lem :
    (rounds i idx : ℕ) (ts : List Tracker)
    → All IsWord ts
    → 0 < length ts
    → Looped rounds (idx + i) ts (round_robin_loop rounds i idx ts)
unfolding round_robin_loop
round_robin_loop_lem zero i idx ts w h = inl (refl, λ j k. absurd (omega arith))
round_robin_loop_lem (suc rounds) i idx ts w h =
    go (get_elem?_in ts p (mod-lt (idx + i) h)).0 (get_elem?_in ts p (mod-lt (idx + i) h)).1 (
      subst (λ x. Looped rounds x ts (round_robin_loop rounds (suc i) idx ts)) (add-suc idx i)
        (round_robin_loop_lem rounds (suc i) idx ts w h))
  where
    p : ℕ
    p = (idx + i) % length ts

    go :
        (t : Tracker)
        → get_elem? ts p ≡ some t
        → Looped rounds (suc (idx + i)) ts (round_robin_loop rounds (suc i) idx ts)
        → Looped (suc rounds) (idx + i) ts (round_robin_loop (suc rounds) i idx ts)
    go t e ih = elim (Bool-cases (is_free t)) [
      | inl free ↦ inr (
        0,
        t,
        omega arith,
        rw add-zero e,
        free,
        rw (add-zero, e, round_robin_loop, free),
        λ j k. absurd (omega arith),
      )
      | inr busy ↦
          let same : set ts p (tracker_reserve t).0 ≡ ts =
            ap (set ts p) (tracker_refused t (All_at ts p t w e) busy) ∙ set_self ts p t e in
          let here : BusyAt ts p = λ u eu. rw (some_eq (sym eu ∙ e)) busy in
          rw (e, round_robin_loop, busy, same) (Looped-suc rounds (idx + i) ts _ here ih)
    ]

-- Every position is met in one round.
reaches : (m s l : ℕ) → m < l → s < l → (j : ℕ) × (j < l) × ((s + j) % l ≡ m)
reaches m s l h k = elim (dec_le s m) [
  | yes le ↦
      let here : s + (m - s) ≡ m = omega arith in
      (m - s, omega arith, ap (λ x. x % l) here ∙ mod-eq_of_lt h)
  | no gt ↦
      let round : s + (m + l - s) ≡ m + l = omega arith in
      (m + l - s, omega arith, ap (λ x. x % l) round ∙ (add-mod_right m l ∙ mod-eq_of_lt h))
]

start_lem : (idx l : ℕ) → 0 < l → (if leb l idx then 0 else idx) < l
start_lem idx l h = ground arith

-- Round robin from any index, on at least one target and where the capacities are below 2 ^ 32:
-- nil only if every target refuses, and then nothing has changed; otherwise the target picked is
-- free, only its own breaker has changed, the targets between the index and it refuse, and the
-- search goes on behind it the next time.
pub round_robin_policy_lem :
    (idx : ℕ) (ts : List Tracker)
    → All IsWord ts
    → 0 < length ts
    → let s : ℕ = (if leb (length ts) idx then 0 else idx) in
      ((round_robin_policy idx ts ≡ (ts, none, s)) × ((m : ℕ) → m < length ts → BusyAt ts m))
      ⊎ ((k : ℕ) × (t : Tracker) × let p = (s + k) % length ts in
            (get_elem? ts p ≡ some t)
            × (is_free t ≡ true)
            × (round_robin_policy idx ts ≡ (set ts p (tracker_reserve t).0, some p, p + 1))
            × ((j : ℕ) → j < k → BusyAt ts ((s + j) % length ts)))
unfolding round_robin_policy
round_robin_policy_lem idx ts w h =
    let s : ℕ = (if leb (length ts) idx then 0 else idx) in
    elim (subst (λ x. Looped (length ts) x ts (round_robin_loop (length ts) 0 s ts)) (add-zero s)
      (round_robin_loop_lem (length ts) 0 s ts w h)) [
        | inl (e, all) ↦ inl (
          rw e,
          λ m lt.
              let (j, jl, q) = reaches m s (length ts) lt (start_lem idx (length ts) h) in
              subst (BusyAt ts) q (all j jl),
        )
        | inr (k, t, lt, e, free, q, before) ↦ inr (k, t, (e, free, rw q, before))
      ]
