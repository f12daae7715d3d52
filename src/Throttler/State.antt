-- ===== src/Throttler/State.antt =====
-- `revisionThrottler`: the pods of a revision as one activator sees them, and its updates.
use serving.Prelude.{
  ℕ, suc, Bool, true, false, List, [], ◌∷◌, Option, none, some, ltb, leb, ◌==◌, ◌&&◌, if◌then◌else◌,
  length, map, ◌>>=◌,
}
use serving.Prelude.Int.{pos}
use serving.Prelude.Str.{Str, str_eq, str_lt}
use serving.Breaker.Defs.{Breaker, BreakerParams, new_breaker, update_concurrency}
use serving.Throttler.Slice.{assign_slice}
use serving.Throttler.Capacity.{calculate_capacity}
use serving.Throttler.Tracker.{Tracker, new_pod_tracker, tracker_update_concurrency}
use serving.Throttler.Infinite.{InfiniteBreaker, infinite_update_concurrency, new_infinite_breaker}

abbrev pub breaker_queue_depth : ℕ
breaker_queue_depth = 10000

-- The `breaker` interface, by what implements it.
pub data RevisionBreaker : Type 0 where
  infinite : InfiniteBreaker → RevisionBreaker
  limited : Breaker → RevisionBreaker

pub data LbPolicy : Type 0 where
  random_choice_2 first_available round_robin : LbPolicy

-- The trackers of `assigned_trackers` are those of `pod_trackers` at the time of the assignment;
-- the activator index -1 is `none`.
pub record RevisionThrottler : Type 0 where
  pub container_concurrency : ℕ
  pub lb_policy : LbPolicy
  pub num_activators : ℕ
  pub activator_index : Option ℕ
  pub backend_count : ℕ
  pub breaker : RevisionBreaker
  pub pod_trackers : List Tracker
  pub assigned_trackers : List Tracker
  pub cluster_ip_tracker : Option Tracker

-- `newRevisionThrottler`; `none` is a panic of `NewBreaker`.
unfoldable pub new_revision_throttler : ℕ → BreakerParams → Option RevisionThrottler
new_revision_throttler cc params =
    let make = λ (b : RevisionBreaker) (p : LbPolicy).
      let rt : RevisionThrottler = record {
        container_concurrency = cc;
        lb_policy = p;
        num_activators = 0;
        activator_index = none;
        backend_count = 0;
        breaker = b;
        pod_trackers = [];
        assigned_trackers = [];
        cluster_ip_tracker = none;
      } in
      rt in
    if cc == 0
    then some (make (infinite new_infinite_breaker) random_choice_2)
    else if leb cc 3
    then (new_breaker params >>= λ b. some (make (limited b) first_available))
    else (new_breaker params >>= λ b. some (make (limited b) round_robin))

unfoldable pub insert_tracker : Tracker → List Tracker → List Tracker
insert_tracker t [] = t ∷ []
insert_tracker t (u ∷ us) =
    let rest = u ∷ insert_tracker t us in if str_lt u.dest t.dest then rest else t ∷ u ∷ us

-- The sort by address.
unfoldable pub sort_trackers : List Tracker → List Tracker
unfolding insert_tracker
sort_trackers [] = []
sort_trackers (t ∷ ts) = insert_tracker t (sort_trackers ts)

-- `resetTrackers`
unfoldable pub reset_trackers : ℕ → List Tracker → List Tracker
reset_trackers cc ts = if leb cc 0 then ts else map (tracker_update_concurrency cc) ts

unfoldable pub update_breaker : ℕ → RevisionBreaker → Option RevisionBreaker
update_breaker n (infinite ib) = do jb ← infinite_update_concurrency n ib; some (infinite jb)
update_breaker n (limited b) = some (limited (update_concurrency n b))

-- The assignment of `updateCapacity` without a cluster IP; `none` is a panic of `assignSlice`.
unfoldable pub assign_pods : RevisionThrottler → Option (RevisionThrottler × ℕ)
unfolding reset_trackers
assign_pods rt =
    let sorted = reset_trackers rt.container_concurrency (sort_trackers rt.pod_trackers) in
    do
      assigned ←
          (if ltb 0 rt.container_concurrency
            then assign_slice sorted rt.activator_index rt.num_activators
            else some sorted)
      some (record rt { pod_trackers = sorted; assigned_trackers = assigned }, length assigned)

-- The assignment of `updateCapacity`, which sets the trackers and returns how many it assigned.
unfoldable pub assign_trackers : RevisionThrottler → Option (RevisionThrottler × ℕ)
assign_trackers rt = elim (rt.cluster_ip_tracker) [ some _ ↦ some (rt, 0) | none ↦ assign_pods rt ]

-- `updateCapacity`; `none` is a panic of the assignment or of the breaker.
unfoldable pub update_capacity : ℕ → RevisionThrottler → Option RevisionThrottler
unfolding assign_trackers
update_capacity backends rt = do
  (rt', n) ← assign_trackers rt
  let c = calculate_capacity rt.container_concurrency backends n rt.num_activators
  b ← update_breaker c rt'.breaker
  some (record rt' { backend_count = backends; breaker = b })

-- `updateThrottlerState`
unfoldable pub update_throttler_state :
    ℕ → List Tracker → Option Tracker → RevisionThrottler → Option RevisionThrottler
update_throttler_state backends trackers cluster_ip rt =
    let rt' = record rt { pod_trackers = trackers; cluster_ip_tracker = cluster_ip } in
    elim cluster_ip [
      | some _ ↦ update_capacity backends rt'
      | none ↦
          if ltb 0 (length trackers) then update_capacity backends rt' else update_capacity 0 rt'
    ]

-- The lookup in `trackersMap`, in which a later tracker of the same address replaces an earlier one.
unfoldable pub find_tracker : Str → List Tracker → Option Tracker
find_tracker d [] = none
find_tracker d (t ∷ ts) = elim (find_tracker d ts) [
  | some u ↦ some u
  | none ↦ if str_eq t.dest d then some t else none
]

-- A new tracker of `handleUpdate`; `none` is a panic of `NewBreaker`.
unfoldable pub make_tracker : ℕ → Str → Option Tracker
make_tracker cc d = if cc == 0 then some (new_pod_tracker d none) else (do
  b ← new_breaker (record {
    queue_depth = pos breaker_queue_depth;
    max_concurrency = pos cc;
    initial_capacity = pos cc;
  })
  some (new_pod_tracker d (some b)))

-- The loop over the addresses of an update, in the order in which Go hands out the set.
unfoldable pub collect_trackers : ℕ → List Tracker → List Str → Option (List Tracker)
collect_trackers cc old [] = some []
collect_trackers cc old (d ∷ ds) = do
  t ← elim (find_tracker d old) [ some t ↦ some t | none ↦ make_tracker cc d ]
  ts ← collect_trackers cc old ds
  some (t ∷ ts)

-- `handleUpdate` of the revision throttler: the addresses, and the cluster IP, which may be empty.
unfoldable pub handle_update : List Str → Str → RevisionThrottler → Option RevisionThrottler
handle_update dests [] rt = do
  ts ← collect_trackers rt.container_concurrency rt.pod_trackers dests
  update_throttler_state (length dests) ts none rt
handle_update dests (c ∷ cs) rt =
    update_throttler_state (length dests) [] (some (new_pod_tracker (c ∷ cs) none)) rt

-- `inferIndex`: `sort.SearchStrings` finds the first address that is not below; the list is sorted.
unfoldable pub infer_index : List Str → Str → Option ℕ
infer_index [] ip = none
infer_index (e ∷ es) ip = elim (str_lt e ip) [
  | true ↦ elim (infer_index es ip) [ none ↦ none | some i ↦ some (suc i) ]
  | false ↦ if str_eq e ip then some 0 else none
]

abbrev pub same_index : Option ℕ → ℕ → Bool
same_index none j = false
same_index (some i) j = i == j

-- `handlePubEpsUpdate` of the revision throttler, for the sorted addresses of the activators.
unfoldable pub handle_pub_eps_update : List Str → Str → RevisionThrottler → Option RevisionThrottler
handle_pub_eps_update eps self_ip rt = elim (infer_index eps self_ip) [
  | none ↦ some rt
  | some i ↦
      if (rt.num_activators == length eps) && same_index rt.activator_index i
      then some rt
      else update_capacity rt.backend_count
          (record rt { num_activators = length eps; activator_index = some i })
]
