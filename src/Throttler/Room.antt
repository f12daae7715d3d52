-- ===== src/Throttler/Room.antt =====
-- The capacity of a revision's breaker is always one that its channel has room for.
use serving.Prelude.{
  ℕ, zero, suc, ◌^◌, ◌≤◌, ◌<◌, ◌≡◌, subst, ◌≢◌, ◌⊎◌, inl, inr, refl, ap, sym, ◌∙◌, true, List, [],
  ◌∷◌, Option, none, some, ltb, ◌==◌, ◌&&◌, length, arith, Bool-cases,
}
use serving.Prelude.Str.{Str}
use serving.Breaker.Defs.{
  Breaker, max_breaker_capacity, update_concurrency, unpack, new_breaker, new_semaphore,
}
use serving.Breaker.Words.{cap_of, use_of}
use serving.Breaker.Defs
use serving.Breaker.Words as Words
use serving.Breaker.Guarantees.{pokes_lem}
use serving.Throttler.Capacity.{
  calculate_capacity, calculate_capacity_bounds, calculate_capacity_none,
}
use serving.Throttler.Slice.{assign_slice}
use serving.Throttler.Tracker.{Tracker, new_pod_tracker}
use serving.Throttler.Infinite.{IsConsistent, update-IsConsistent}
use serving.Throttler.State.{
  RevisionBreaker, infinite, limited, RevisionThrottler, update_breaker, assign_pods,
  assign_trackers, reset_trackers, sort_trackers, update_capacity, update_throttler_state,
  handle_update, handle_pub_eps_update, infer_index, same_index,
}
use serving.Throttler.Update.{
  collect_trackers_lem, length-dests, IsPlaced, assign_trackers_lem, infer_index_lt,
}

-- An infinite breaker is consistent; a limited one has the largest channel, and a capacity that fits.
abbrev pub HasRoom : RevisionBreaker → Type 0
HasRoom (infinite ib) = IsConsistent ib
HasRoom (limited b) =
    (b.sem.slots ≡ max_breaker_capacity)
    × (cap_of b.sem.state ≤ b.sem.slots)
    × (use_of b.sem.state < 2 ^ 32)

update_concurrency-HasRoom :
    (n : ℕ) (b : Breaker)
    → n ≤ max_breaker_capacity
    → HasRoom (limited b)
    → HasRoom (limited (update_concurrency n b))
unfolding update_concurrency
update_concurrency-HasRoom n b h (s, c, u) =
    let (c', u', k) = Words.update_capacity_lem n b.sem.state (omega arith) u in
    let st = serving.Breaker.Defs.update_capacity n b.sem.state in
    let (ps, pl, _) = pokes_lem st.1 (record (b.sem) { state = st.0 }) in
    (pl ∙ s, rw ps (rw pl (omega (arith, c', s, h))), rw ps (omega (arith, u', u)))

update_breaker-HasRoom :
    (n : ℕ) (b : RevisionBreaker)
    → n ≤ max_breaker_capacity
    → HasRoom b
    → (c : RevisionBreaker) × (update_breaker n b ≡ some c) × HasRoom c
unfolding update_breaker
update_breaker-HasRoom n (infinite ib) h r =
    let (jb, e, k) = update-IsConsistent n ib r in (infinite jb, rw e, k)
update_breaker-HasRoom n (limited b) h r =
    (limited (update_concurrency n b), refl, update_concurrency-HasRoom n b h r)

-- The activator's index is below the number of activators; without backends there are no trackers,
-- unless there is a cluster IP.
pub record IsSound (rt : RevisionThrottler) : Type 0 where
  pub placed : IsPlaced rt
  pub room : HasRoom rt.breaker
  pub backed : rt.backend_count ≡ 0 → (rt.cluster_ip_tracker ≢ none) ⊎ (rt.pod_trackers ≡ [])

-- There is nothing to assign.
abbrev Unassigned : RevisionThrottler → Type 0
Unassigned rt = (rt.cluster_ip_tracker ≢ none) ⊎ (rt.pod_trackers ≡ [])

assign_slice-nil : (o : Option ℕ) (n : ℕ) → assign_slice {A = Tracker} [] o n ≡ some []
unfolding assign_slice
assign_slice-nil none n = refl
assign_slice-nil (some i) n = refl

reset_trackers-nil : (cc : ℕ) → reset_trackers cc [] ≡ []
unfolding reset_trackers
reset_trackers-nil cc = ground arith

-- An assignment of nothing.
abbrev AssignsNone : RevisionThrottler → Option (RevisionThrottler × ℕ) → Type 0
AssignsNone rt o =
    (ps : List Tracker) × (own : List Tracker) × let rt' : RevisionThrottler = record rt {
      pod_trackers = ps;
      assigned_trackers = own;
    } in
      (o ≡ some (rt', 0)) × Unassigned rt'

assign_pods-none : (rt : RevisionThrottler) → rt.pod_trackers ≡ [] → AssignsNone rt (assign_pods rt)
unfolding assign_pods sort_trackers
assign_pods-none rt l =
    let cc = rt.container_concurrency in
    let sorted : reset_trackers cc (sort_trackers rt.pod_trackers) ≡ [] =
      rw l (reset_trackers-nil cc) in
    let a = assign_slice-nil rt.activator_index rt.num_activators in
    elim (Bool-cases (ltb 0 cc)) [
      | inl e ↦ ([], [], (rw (sorted, e, a) refl, inr refl))
      | inr e ↦ ([], [], (rw (sorted, e) refl, inr refl))
    ]

assign_trackers-none :
    (rt : RevisionThrottler) → Unassigned rt → AssignsNone rt (assign_trackers rt)
unfolding assign_trackers
assign_trackers-none rt h = go rt.cluster_ip_tracker refl rt.pod_trackers refl
  where
    go :
        (o : Option Tracker)
        → rt.cluster_ip_tracker ≡ o
        → (ts : List Tracker) → rt.pod_trackers ≡ ts
        → AssignsNone rt (assign_trackers rt)
    go (some t) k ts l =
        let same : assign_trackers rt ≡ some (rt, 0) = simp (assign_trackers, k) in
        (rt.pod_trackers, rt.assigned_trackers, (same, inl (λ e. ground (arith, k, e))))
    go none k [] l =
        let same : assign_trackers rt ≡ assign_pods rt = simp (assign_trackers, k) in
        subst (AssignsNone rt) (sym same) (assign_pods-none rt l)
    go none k (t ∷ ts) l = absurd (ground (arith, h, k, l))

update_capacity-IsSound :
    (n : ℕ) (rt : RevisionThrottler)
    → HasRoom rt.breaker
    → IsPlaced rt
    → (n ≡ 0 → Unassigned rt)
    → (rt' : RevisionThrottler) × (update_capacity n rt ≡ some rt') × IsSound rt'
unfolding update_capacity
update_capacity-IsSound zero rt h p u =
    let (ps, own, (k, u')) = assign_trackers-none rt (u refl) in
    let c = calculate_capacity rt.container_concurrency 0 0 rt.num_activators in
    let le : c ≤ max_breaker_capacity =
      rw (calculate_capacity_none rt.container_concurrency rt.num_activators) (omega arith) in
    let (b, e, r) = update_breaker-HasRoom c rt.breaker le h in
    (
      record rt { pod_trackers = ps; assigned_trackers = own; backend_count = 0; breaker = b },
      rw k (rw e refl),
      record { placed = p; room = r; backed = λ z. u' },
    )
update_capacity-IsSound (suc n) rt h p u =
    let (ps, own, k, a) = assign_trackers_lem rt p in
    let c = calculate_capacity rt.container_concurrency (suc n) k rt.num_activators in
    let le : c ≤ max_breaker_capacity =
      (calculate_capacity_bounds rt.container_concurrency (suc n) k rt.num_activators
        (omega arith)).1 in
    let (b, e, r) = update_breaker-HasRoom c rt.breaker le h in
    (
      record rt { pod_trackers = ps; assigned_trackers = own; backend_count = suc n; breaker = b },
      rw a (rw e refl),
      record { placed = p; room = r; backed = λ z. absurd (omega (arith, z)) },
    )

update_throttler_state-IsSound :
    (n : ℕ) (ts : List Tracker) (ip : Option Tracker) (rt : RevisionThrottler)
    → HasRoom rt.breaker
    → IsPlaced rt
    → (ip ≡ none → length ts ≡ n)
    → (rt' : RevisionThrottler) × (update_throttler_state n ts ip rt ≡ some rt') × IsSound rt'
unfolding update_throttler_state
update_throttler_state-IsSound n ts (some t) rt h q l =
    update_capacity-IsSound n (record rt { pod_trackers = ts; cluster_ip_tracker = some t }) h q
      (λ z. inl (λ e. ground (arith, e)))
update_throttler_state-IsSound n [] none rt h q l =
    update_capacity-IsSound 0 (record rt { pod_trackers = []; cluster_ip_tracker = none }) h q
      (λ z. inr refl)
update_throttler_state-IsSound n (t ∷ ts) none rt h q l =
    let k : n ≢ 0 = λ z. omega (arith, l refl, z) in
    let some_left : ltb 0 (suc (length ts)) ≡ true = ground arith in
    rw some_left (
      update_capacity-IsSound n (record rt { pod_trackers = t ∷ ts; cluster_ip_tracker = none }) h q
        (λ z. absurd (k z)))

pub handle_update-IsSound :
    (ds : List Str) (ip : Str) (rt : RevisionThrottler)
    → IsSound rt
    → (rt' : RevisionThrottler) × (handle_update ds ip rt ≡ some rt') × IsSound rt'
unfolding handle_update
handle_update-IsSound ds (c ∷ cs) rt h =
    update_throttler_state-IsSound (length ds) [] (some (new_pod_tracker (c ∷ cs) none)) rt h.room
      h.placed (λ e. absurd (ground (arith, e)))
handle_update-IsSound ds [] rt h =
    let (ts, e, m, _) = collect_trackers_lem rt.container_concurrency rt.pod_trackers ds in
    rw e (
      update_throttler_state-IsSound (length ds) ts none rt h.room h.placed
        (λ _. sym (length-dests ts) ∙ ap length m))

pub handle_pub_eps_update-IsSound :
    (eps : List Str) (ip : Str) (rt : RevisionThrottler)
    → IsSound rt
    → (rt' : RevisionThrottler) × (handle_pub_eps_update eps ip rt ≡ some rt') × IsSound rt'
unfolding handle_pub_eps_update
handle_pub_eps_update-IsSound eps ip rt h = go (infer_index eps ip) refl
  where
    go :
        (o : Option ℕ)
        → infer_index eps ip ≡ o
        → (rt' : RevisionThrottler) × (handle_pub_eps_update eps ip rt ≡ some rt') × IsSound rt'
    go none e = (rt, ground (arith, e), h)
    go (some i) e =
        let rt' : RevisionThrottler = record rt {
          num_activators = length eps;
          activator_index = some i;
        } in
        let (r, k, s) =
          update_capacity-IsSound rt.backend_count rt' h.room (infer_index_lt eps ip i e)
            h.backed in
        elim (Bool-cases ((rt.num_activators == length eps) && same_index rt.activator_index i)) [
          | inl same ↦ (rt, ground (arith, e, same), h)
          | inr other ↦ (r, rw (handle_pub_eps_update, e, other) k, s)
        ]
