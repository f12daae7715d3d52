-- ===== src/Throttler/Policy.antt =====
-- The policies of lb_policy.go. A policy returns the targets after the pick and the index of the
-- target picked; random numbers are arguments.
use serving.Prelude.{
  ℕ, zero, suc, ◌+◌, ◌%◌, Bool, List, [], ◌∷◌, Option, none, some, ltb, leb, ◌==◌, if◌then◌else◌,
  length, get_elem?, set,
}
use serving.Throttler.Tracker.{Tracker, increase_weight, tracker_reserve}

-- `randomLBPolicy`; `r` is `rand.Intn(len(targets))`.
unfoldable pub random_lb_policy : ℕ → List Tracker → Option ℕ
random_lb_policy r targets = elim (get_elem? targets r) [ none ↦ none | some t ↦ some r ]

-- The two indices that `randomChoice2Policy` compares, of `l` targets; `r1` and `r2` are
-- `rand.Intn(l)` and `rand.Intn(l-1)`.
unfoldable pub two_indices : ℕ → ℕ → ℕ → ℕ × ℕ
two_indices l r1 r2 = if ltb 2 l then (r1, if leb r1 r2 then r2 + 1 else r2) else (0, 1)

-- Which of the two is picked, by weight; `coin` is `rand.Int63()%2 == 0`.
unfoldable pub lighter : Bool → ℕ → ℕ → Tracker → Tracker → ℕ
lighter coin i j pick alt =
    if ltb alt.weight pick.weight
    then j
    else if pick.weight == alt.weight
    then (if coin then j else i)
    else i

unfoldable pub pick_at : ℕ → List Tracker → Option (List Tracker × ℕ)
pick_at i targets = elim (get_elem? targets i) [
  | none ↦ none
  | some t ↦ some (set targets i (increase_weight t), i)
]

-- `randomChoice2Policy`; `none` is an index out of range.
unfoldable pub random_choice_2_policy : ℕ → ℕ → Bool → List Tracker → Option (List Tracker × ℕ)
random_choice_2_policy r1 r2 coin targets =
    let (i, j) = two_indices (length targets) r1 r2 in
    if length targets == 1 then pick_at 0 targets else elim (get_elem? targets i) [
      | none ↦ none
      | some pick ↦ elim (get_elem? targets j) [
        | none ↦ none
        | some alt ↦ pick_at (lighter coin i j pick alt) targets
      ]
    ]

-- `firstAvailableLBPolicy`; the pick is `none` for the nil tracker.
unfoldable pub first_available : List Tracker → List Tracker × Option ℕ
first_available [] = ([], none)
first_available (t ∷ ts) =
    let (t', granted) = tracker_reserve t in
    let (ts', pick) = first_available ts in
    if granted
    then (t' ∷ ts, some 0)
    else (t' ∷ ts', elim pick [ none ↦ none | some i ↦ some (suc i) ])

-- The loop of the round robin policy: `rounds` are left, the next index is `(idx + i) % l`.
unfoldable pub round_robin_loop : ℕ → ℕ → ℕ → List Tracker → List Tracker × Option ℕ
round_robin_loop zero i idx targets = (targets, none)
round_robin_loop (suc rounds) i idx targets =
    let p = (idx + i) % length targets in
    elim (get_elem? targets p) [
      | none ↦ (targets, none)
      | some t ↦
          let (t', granted) = tracker_reserve t in
          let rest = round_robin_loop rounds (suc i) idx (set targets p t') in
          if granted then (set targets p t', some p) else rest
    ]

-- The closure of `newRoundRobinPolicy` with its variable `idx`; returns the new `idx` too.
unfoldable pub round_robin_policy : ℕ → List Tracker → List Tracker × Option ℕ × ℕ
round_robin_policy idx targets =
    let start = if leb (length targets) idx then 0 else idx in
    let (ts, pick) = round_robin_loop (length targets) 0 start targets in
    (ts, pick, elim pick [ none ↦ start | some p ↦ p + 1 ])
