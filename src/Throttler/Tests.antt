-- ===== src/Throttler/Tests.antt =====
-- Runs of throttler.go and lb_policy.go on a few pods.
use mathlib.Core.List.{Perm}
use serving.Prelude.{
  ℕ, ◌+◌, ◌^◌, ◌%◌, ◌≤◌, ◌<◌, ◌≡◌, ◌≢◌, ◌⊎◌, inl, refl, sym, true, false, List, [], ◌∷◌, none, some,
  arith, take, get_elem?, set, if◌then◌else◌, ◌==◌, All, some_eq,
}
use serving.Prelude.Str.{str_eq, Str, str_lt}
use serving.Breaker.Defs.{Breaker, unpack}
use serving.Throttler.Partition.{slices, slices-perm}
use serving.Throttler.Capacity.{
  calculate_capacity, revision_max_concurrency, calculate_capacity_bounds,
}
use serving.Throttler.Tracker.{Tracker, increase_weight, tracker_reserve, is_free}
use serving.Throttler.Policy.{random_choice_2_policy, first_available, round_robin_policy}
use serving.Throttler.Picks.{
  IsWord, IsBusy, BusyAt, random_choice_2_policy_lem, first_available_lem, round_robin_policy_lem,
}
use serving.Throttler.Infinite.{
  InfiniteBreaker, new_infinite_breaker, IsConsistent, maybe_infinite, ran, waits, run_updates,
  run_updates_lem,
}
use serving.Throttler.State.{RevisionThrottler, limited, random_choice_2, handle_update}
use serving.Throttler.Slice.{pick_indices, sub_slice, assign_slice}
use serving.Throttler.Update.{IsRising, IsSteady, IsPlaced, handle_update_lem}
use serving.Throttler.Store.{
  Throttler, Event, updated, deleted, dests_changed, endpoints_changed, handle_event, handle_events,
  find_revision, delete_revision,
}
use serving.Throttler.Events.{IsReady, handle_events-IsReady}
use serving.Throttler.Apart.{handle_event-other}

abbrev pods : List ℕ
pods = 1 ∷ 2 ∷ 3 ∷ 4 ∷ 5 ∷ []

slices-perm_example : (ys : List ℕ) × (slices pods 2 2 ≡ some ys) × Perm ys pods
slices-perm_example = slices-perm pods 2 (omega arith) (omega arith)

calculate_capacity_bounds_example :
    (0 < calculate_capacity 10 4 2 3)
    × (calculate_capacity 10 4 2 3 ≤ revision_max_concurrency)
    × (◌≡◌ {A = ℕ} 10 0 → calculate_capacity 10 4 2 3 ≡ revision_max_concurrency)
calculate_capacity_bounds_example = calculate_capacity_bounds 10 4 2 3 (omega arith)

-- Capacity one, with as many in use as it says.
abbrev breaker : ℕ → Breaker
breaker n = record {
  in_flight = n;
  total_slots = 11;
  sem = record { state = 2 ^ 32 + n; tokens = 0; slots = 1 };
}

abbrev pod : ℕ → ℕ → ℕ → Tracker
pod name in_use w = record { dest = name ∷ []; breaker = some (breaker in_use); weight = w }

-- The first pod is busy, the second one is free.
abbrev targets : List Tracker
targets = pod 1 1 4 ∷ pod 2 0 2 ∷ []

random_choice_2_policy_lem_example :
    (i j : ℕ) × (i ≢ j)
    × (pick : Tracker) × (alt : Tracker) × (get_elem? targets i ≡ some pick)
    × (get_elem? targets j ≡ some alt)
    × (pick.weight ≤ alt.weight)
    × (random_choice_2_policy 0 0 true targets ≡ some (set targets i (increase_weight pick), i))
random_choice_2_policy_lem_example =
    random_choice_2_policy_lem targets 0 0 true (omega arith) (omega arith) (omega arith)

pod-IsWord : (name in_use w : ℕ) → in_use < 2 → IsWord (pod name in_use w)
unfolding unpack
pod-IsWord name in_use w h b e = rw (sym (some_eq e)) (omega (arith, h))

targets-IsWord : All IsWord targets
targets-IsWord = (pod-IsWord 1 1 4 (omega arith), (pod-IsWord 2 0 2 (omega arith), tt))

first_available_lem_example :
    ((first_available targets ≡ (targets, none)) × All IsBusy targets)
    ⊎ ((i : ℕ) × (t : Tracker) × (get_elem? targets i ≡ some t)
        × (is_free t ≡ true)
        × All IsBusy (take i targets)
        × (first_available targets ≡ (set targets i (tracker_reserve t).0, some i)))
first_available_lem_example = first_available_lem targets targets-IsWord

round_robin_policy_lem_example :
    ((round_robin_policy 2 targets ≡ (targets, none, 0)) × ((m : ℕ) → m < 2 → BusyAt targets m))
    ⊎ ((k : ℕ) × (t : Tracker) × let p = (0 + k) % 2 in
          (get_elem? targets p ≡ some t)
          × (is_free t ≡ true)
          × (round_robin_policy 2 targets ≡ (set targets p (tracker_reserve t).0, some p, p + 1))
          × ((j : ℕ) → j < k → BusyAt targets ((0 + j) % 2)))
round_robin_policy_lem_example = round_robin_policy_lem 2 targets targets-IsWord (omega arith)

new-IsConsistent : IsConsistent new_infinite_breaker
unfolding new_infinite_breaker
new-IsConsistent = record {
  zero_one = inl refl;
  open_if = λ h. refl;
  closed_if = λ h. absurd (omega arith);
}

run_updates_lem_example :
    (jb : InfiniteBreaker) × (run_updates (3 ∷ 0 ∷ 7 ∷ []) new_infinite_breaker ≡ some jb)
    × IsConsistent jb
    × (maybe_infinite false jb ≡ (if jb.concurrency == 0 then waits else ran))
run_updates_lem_example = run_updates_lem (3 ∷ 0 ∷ 7 ∷ []) new_infinite_breaker new-IsConsistent

abbrev addresses : List Str
addresses = (2 ∷ []) ∷ (3 ∷ []) ∷ []

addresses-IsRising : IsRising addresses
unfolding str_lt
addresses-IsRising = ((refl, tt), (tt, tt))

abbrev throttler : RevisionThrottler
throttler = record {
  container_concurrency = 1;
  lb_policy = random_choice_2;
  num_activators = 2;
  activator_index = some 1;
  backend_count = 2;
  breaker = limited (breaker 1);
  pod_trackers = targets;
  assigned_trackers = targets;
  cluster_ip_tracker = none;
}

handle_update_lem_example :
    (rt : RevisionThrottler) × (handle_update addresses [] throttler ≡ some rt)
    × IsSteady rt.breaker
    × IsPlaced rt
    × (rt.backend_count ≡ 2)
handle_update_lem_example = handle_update_lem addresses [] throttler tt (omega arith)

-- An index that is not below the number of activators: the slice is out of range.
out_of_place : assign_slice pods (some 10) 2 ≡ none
unfolding assign_slice pick_indices sub_slice
out_of_place = refl

no_activators : assign_slice pods (some 0) 0 ≡ none
unfolding assign_slice pick_indices
no_activators = refl

abbrev no_revisions : Throttler
no_revisions = record { revision_throttlers = []; ip_address = 3 ∷ [] }

-- A revision with a limit of 5 appears, gets two pods, and is served by two activators.
abbrev events : List Event
events =
    updated (9 ∷ []) (some 5)
    ∷ dests_changed (9 ∷ []) (some 5) addresses []
    ∷ endpoints_changed (9 ∷ []) (some 5) addresses
    ∷ []

handle_events-IsReady_example :
    (t : Throttler) × (handle_events events no_revisions ≡ some t) × IsReady t
handle_events-IsReady_example = handle_events-IsReady events no_revisions tt

abbrev two_revisions : Throttler
two_revisions = record no_revisions {
  revision_throttlers = (9 ∷ [], throttler) ∷ (8 ∷ [], throttler) ∷ [];
}

abbrev one_revision : Throttler
one_revision = record no_revisions { revision_throttlers = (8 ∷ [], throttler) ∷ [] }

deletes : handle_event (deleted (9 ∷ [])) two_revisions ≡ some one_revision
unfolding handle_event delete_revision str_eq
deletes = refl

names-differ : str_eq (9 ∷ []) (8 ∷ []) ≡ false
unfolding str_eq
names-differ = refl

handle_event-other_example :
    find_revision (8 ∷ []) one_revision.revision_throttlers
    ≡ find_revision (8 ∷ []) two_revisions.revision_throttlers
handle_event-other_example =
    handle_event-other (deleted (9 ∷ [])) (8 ∷ []) two_revisions one_revision names-differ deletes
