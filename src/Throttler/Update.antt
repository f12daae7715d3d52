-- ===== src/Throttler/Update.antt =====
-- What the updates of a revision throttler do.
use serving.Prelude.{
  ℕ, zero, suc, ◌+◌, ◌≡◌, ◌<◌, refl, ap, sym, ◌⊎◌, inl, inr, ◌↔◌, true, List, [], ◌∷◌, Option, none,
  some, ltb, ◌==◌, length, map, All, arith, get_elem?, subst, Bool-cases, Option-cases, some_eq,
}
use serving.Prelude.Str.{Str, str_lt, str_eq→eq, str_eq_refl, str_lt_irrefl}
use serving.Breaker.Defs.{new_breaker, update_concurrency, new_semaphore}
use serving.Throttler.Capacity.{calculate_capacity}
use serving.Throttler.Tracker.{Tracker, new_pod_tracker}
use serving.Throttler.Infinite.{IsConsistent, update-IsConsistent}
use serving.Throttler.Partition.{HasPlace, assign_slice_returns}
use serving.Throttler.State.{
  reset_trackers, sort_trackers, RevisionThrottler, RevisionBreaker, infinite, limited,
  breaker_queue_depth, find_tracker, make_tracker, collect_trackers, infer_index, update_breaker,
  assign_pods, assign_trackers, update_capacity, update_throttler_state, handle_update,
}

find_tracker-dest :
    (d : Str) (ts : List Tracker) (t : Tracker) → find_tracker d ts ≡ some t → t.dest ≡ d
unfolding find_tracker
find_tracker-dest d [] t e = absurd (ground arith)
find_tracker-dest d (u ∷ us) t e = ground (arith, find_tracker-dest d us t, str_eq→eq u.dest d)

make_tracker_lem : (cc : ℕ) (d : Str) → (t : Tracker) × (make_tracker cc d ≡ some t) × (t.dest ≡ d)
unfolding make_tracker new_breaker new_pod_tracker
make_tracker_lem size d = elim (Bool-cases (size == 0)) [
  | inl z ↦ (new_pod_tracker d none, rw z, refl)
  | inr nz ↦ (
    new_pod_tracker d (
        some (record {
          in_flight = 0;
          total_slots = breaker_queue_depth + size;
          sem = new_semaphore size size;
        })),
    ground arith,
    refl,
  )
]

-- A tracker is the old one of its address, or a new one if the address had none.
abbrev pub Origin : ℕ → List Tracker → Tracker → Str → Type 0
Origin size old t d =
    (find_tracker d old ≡ some t) ⊎ ((find_tracker d old ≡ none) × (make_tracker size d ≡ some t))

-- The trackers of an update are those of its addresses, in order. It never panics, and an address
-- that had a tracker keeps it, with the breaker and the requests in it.
pub collect_trackers_lem :
    (size : ℕ) (old : List Tracker) (ds : List Str)
    → (ts : List Tracker) × (collect_trackers size old ds ≡ some ts)
      × (map (λ t. t.dest) ts ≡ ds)
      × All (λ t. Origin size old t t.dest) ts
unfolding collect_trackers
collect_trackers_lem size old [] = ([], refl, refl, tt)
collect_trackers_lem size old (d ∷ ds) =
    let (ts, e, m, a) = collect_trackers_lem size old ds in
    elim (Option-cases (find_tracker d old)) [
      | inl f ↦
          let (t, k, n) = make_tracker_lem size d in
          (t ∷ ts, rw (f, k, e), rw (n, m), (subst (Origin size old t) (sym n) (inr (f, k)), a))
      | inr (t, f) ↦
          let n = find_tracker-dest d old t f in
          (t ∷ ts, rw (f, e), rw (n, m), (subst (Origin size old t) (sym n) (inl f), a))
    ]

-- Strictly rising addresses.
abbrev pub IsRising : List Str → Type 0
IsRising [] = Unit
IsRising (e ∷ es) = All (λ f. str_lt e f ≡ true) es × IsRising es

infer_index_sound :
    (es : List Str) (ip : Str) (i : ℕ) → infer_index es ip ≡ some i → get_elem? es i ≡ some ip
unfolding infer_index
infer_index_sound [] ip i h = absurd (ground arith)
infer_index_sound (e ∷ es) ip zero h = ground (arith, str_eq→eq e ip)
infer_index_sound (e ∷ es) ip (suc i) h = ground (arith, infer_index_sound es ip i)

-- The index that an activator infers is below the number of activators.
pub infer_index_lt : (es : List Str) (ip : Str) (i : ℕ) → infer_index es ip ≡ some i → i < length es
unfolding infer_index
infer_index_lt [] ip i h = absurd (ground arith)
infer_index_lt (e ∷ es) ip zero h = omega arith
infer_index_lt (e ∷ es) ip (suc i) h = ground (arith, infer_index_lt es ip i)

All_get :
    (e : Str) (es : List Str) (i : ℕ) (f : Str)
    → All (λ f. str_lt e f ≡ true) es
    → get_elem? es i ≡ some f
    → str_lt e f ≡ true
All_get e [] i f a h = absurd (ground arith)
All_get e (x ∷ es) zero f a h = rw (sym (some_eq h)) a.0
All_get e (x ∷ es) (suc i) f a h = All_get e es i f a.1 h

infer_index_complete :
    (es : List Str) (ip : Str) (i : ℕ)
    → IsRising es
    → get_elem? es i ≡ some ip
    → infer_index es ip ≡ some i
unfolding infer_index
infer_index_complete [] ip i r h = absurd (ground arith)
infer_index_complete (e ∷ es) ip zero r h =
    rw (some_eq h) (rw (str_lt_irrefl ip, infer_index, str_eq_refl ip))
infer_index_complete (e ∷ es) ip (suc i) r h =
    rw (All_get e es i ip r.0 h, infer_index, infer_index_complete es ip i r.1 h)

-- An activator finds its own position among the sorted addresses, and none exactly if it is not there.
pub infer_index_iff :
    (es : List Str) (ip : Str) (i : ℕ)
    → IsRising es
    → (infer_index es ip ≡ some i) ↔ (get_elem? es i ≡ some ip)
infer_index_iff es ip i r = (infer_index_sound es ip i, infer_index_complete es ip i r)

abbrev pub IsSteady : RevisionBreaker → Type 0
IsSteady (infinite ib) = IsConsistent ib
IsSteady (limited b) = Unit

update_breaker_lem :
    (n : ℕ) (b : RevisionBreaker)
    → IsSteady b
    → (c : RevisionBreaker) × (update_breaker n b ≡ some c) × IsSteady c
unfolding update_breaker
update_breaker_lem n (infinite ib) h =
    let (jb, e, k) = update-IsConsistent n ib h in (infinite jb, rw e, k)
update_breaker_lem n (limited b) h = (limited (update_concurrency n b), refl, tt)

-- An activator that has an index has a place among the activators.
abbrev pub IsPlaced : RevisionThrottler → Type 0
IsPlaced rt = HasPlace rt.activator_index rt.num_activators

-- An assignment sets only the trackers.
abbrev pub Assigns : RevisionThrottler → Option (RevisionThrottler × ℕ) → Type 0
Assigns rt o =
    (ps : List Tracker) × (own : List Tracker) × (n : ℕ) × (o
      ≡ some (record rt { pod_trackers = ps; assigned_trackers = own }, n))

assign_pods_lem : (rt : RevisionThrottler) → IsPlaced rt → Assigns rt (assign_pods rt)
unfolding assign_pods
assign_pods_lem rt h =
    let sorted = reset_trackers rt.container_concurrency (sort_trackers rt.pod_trackers) in
    elim (Bool-cases (ltb 0 rt.container_concurrency)) [
      | inl finite ↦
          let (ys, k) = assign_slice_returns sorted rt.activator_index rt.num_activators h in
          (sorted, ys, length ys, rw finite (rw k refl))
      | inr infinity ↦ (sorted, sorted, length sorted, rw infinity refl)
    ]

-- In its place an activator's assignment does not panic.
pub assign_trackers_lem : (rt : RevisionThrottler) → IsPlaced rt → Assigns rt (assign_trackers rt)
unfolding assign_trackers
assign_trackers_lem rt h = go rt.cluster_ip_tracker refl
  where
    go : (o : Option Tracker) → rt.cluster_ip_tracker ≡ o → Assigns rt (assign_trackers rt)
    go (some t) e =
        let same : assign_trackers rt ≡ some (rt, 0) = simp (assign_trackers, e) in
        (rt.pod_trackers, rt.assigned_trackers, 0, same)
    go none e =
        let same : assign_trackers rt ≡ assign_pods rt = simp (assign_trackers, e) in
        subst (Assigns rt) (sym same) (assign_pods_lem rt h)

update_capacity_lem :
    (n : ℕ) (rt : RevisionThrottler)
    → IsSteady rt.breaker
    → IsPlaced rt
    → (rt' : RevisionThrottler) × (update_capacity n rt ≡ some rt')
      × IsSteady rt'.breaker
      × IsPlaced rt'
      × (rt'.backend_count ≡ n)
unfolding update_capacity
update_capacity_lem n rt h p =
    let (ps, own, k, e) = assign_trackers_lem rt p in
    let c = calculate_capacity rt.container_concurrency n k rt.num_activators in
    let (b, f, s) = update_breaker_lem c rt.breaker h in
    (
      record rt { pod_trackers = ps; assigned_trackers = own; backend_count = n; breaker = b },
      rw e (rw f refl),
      s,
      p,
      refl,
    )

update_throttler_state_lem :
    (n : ℕ) (ts : List Tracker) (ip : Option Tracker) (rt : RevisionThrottler)
    → IsSteady rt.breaker
    → IsPlaced rt
    → (rt' : RevisionThrottler) × (update_throttler_state n ts ip rt ≡ some rt')
      × IsSteady rt'.breaker
      × IsPlaced rt'
      × ((rt'.backend_count ≡ n) ⊎ ((ip ≡ none) × (ts ≡ []) × (rt'.backend_count ≡ 0)))
unfolding update_throttler_state
update_throttler_state_lem n ts (some t) rt h q =
    let (r, e, s, q', b) =
      update_capacity_lem n (record rt { pod_trackers = ts; cluster_ip_tracker = some t }) h q in
    (r, e, s, q', inl b)
update_throttler_state_lem n [] none rt h q =
    let (r, e, s, q', b) =
      update_capacity_lem 0 (record rt { pod_trackers = []; cluster_ip_tracker = none }) h q in
    (r, e, s, q', inr (refl, refl, b))
update_throttler_state_lem n (t ∷ ts) none rt h q =
    let (r, e, s, q', b) =
      update_capacity_lem n (record rt { pod_trackers = t ∷ ts; cluster_ip_tracker = none }) h q in
    let some_left : ltb 0 (suc (length ts)) ≡ true = ground arith in
    (r, rw some_left e, s, q', inl b)

pub length-dests : (ts : List Tracker) → length (map (λ t. t.dest) ts) ≡ length ts
length-dests [] = refl
length-dests (t ∷ ts) = ap suc (length-dests ts)

-- An update of the addresses does not panic, where an infinite breaker's channel is closed exactly
-- while it has capacity, and the activator's index, if it has one, is below the number of activators;
-- the throttler then counts as many backends as there are addresses, and both hold again.
pub handle_update_lem :
    (ds : List Str) (ip : Str) (rt : RevisionThrottler)
    → IsSteady rt.breaker
    → IsPlaced rt
    → (rt' : RevisionThrottler) × (handle_update ds ip rt ≡ some rt')
      × IsSteady rt'.breaker
      × IsPlaced rt'
      × (rt'.backend_count ≡ length ds)
unfolding handle_update
handle_update_lem ds (c ∷ cs) rt h p =
    let (r, e, s, q, b) =
      update_throttler_state_lem (length ds) [] (some (new_pod_tracker (c ∷ cs) none)) rt h p in
    (r, e, s, q, ground (arith, b))
handle_update_lem ds [] rt h p =
    let (ts, e, m, _) = collect_trackers_lem rt.container_concurrency rt.pod_trackers ds in
    let (r, e', s, q, b) = update_throttler_state_lem (length ds) ts none rt h p in
    (r, rw e e', s, q, ground (arith, b, m, length-dests ts))
