-- ===== src/Scaler/Defs.antt =====
-- The state of a PodAutoscaler and the decisions of scaler.go. Durations are integers in nanoseconds.
-- What the cluster answers is an argument: the probe of the activator, how long the SKS has been in
-- proxy mode, the scale target and whether its patch succeeds. Annotations are parsed.
use serving.Prelude.{
  ℕ, ◌+◌, ◌*◌, ◌^◌, Bool, true, false, ◌&&◌, ◌||◌, not, List, [], ◌∷◌, Option, none, some, ltb, leb,
  ◌==◌, if◌then◌else◌, max,
}
use serving.Prelude.Int.{ℤ, pos, negsuc, ◌+ℤ◌, ◌-ℤ◌, ltb_ℤ, sub_ℕ, pos_part, neg_part}

abbrev pub leb_ℤ : ℤ → ℤ → Bool
leb_ℤ a b = leb (pos_part a + neg_part b) (pos_part b + neg_part a)

abbrev pub eqb_ℤ : ℤ → ℤ → Bool
eqb_ℤ a b = leb_ℤ a b && leb_ℤ b a

-- The Active condition: Unknown, True, False.
pub data Activity : Type 0 where
  activating active inactive : Activity

abbrev pub same_activity : Activity → Activity → Bool
same_activity activating activating = true
same_activity active active = true
same_activity inactive inactive = true
same_activity _ _ = false

pub record Status : Type 0 where
  pub activity : Activity
  pub last_transition : ℕ
  pub initialized : Bool
  pub has_service_name : Bool
  pub desired_scale : Option ℤ
  pub actual_scale : Option ℕ

-- The annotations and the spec of a PodAutoscaler.
pub record Autoscaler : Type 0 where
  pub reachable : Bool  -- not ReachabilityUnreachable
  pub min_scale : Option ℕ
  pub max_scale : Option ℕ
  pub initial_scale : Option ℕ
  pub progress_deadline : Option ℤ
  pub pod_retention : Option ℤ
  pub stable_window : ℤ
  pub always_burst : Bool  -- the target burst capacity is -1
  pub status : Status

pub record Config : Type 0 where
  pub enable_scale_to_zero : Bool
  pub min_scale : ℕ
  pub max_scale : ℕ
  pub initial_scale : ℕ
  pub allow_zero_initial_scale : Bool
  pub progress_deadline : ℤ
  pub grace_period : ℤ
  pub pod_retention : ℤ

pub record Cluster : Type 0 where
  pub now : ℕ
  pub in_proxy_mode : Bool
  pub proxy_for : ℤ
  pub probe : Bool
  pub target : Option (Option ℕ)  -- `none` is an error; the inner one is nil replicas
  pub patch_ok : Bool

abbrev pub second : ℕ
second = 10 ^ 9

abbrev pub activation_timeout_buffer : ℤ
activation_timeout_buffer = pos (30 * second)

abbrev pub or_else {ℓ} : {A : Type ℓ} → Option A → A → A
or_else none d = d
or_else (some a) d = a

-- `inStatusFor`, for a PodAutoscaler whose conditions `InitializeConditions` has set before the
-- reconciliation: the condition is not nil.
unfoldable pub in_status_for : Activity → Status → ℕ → ℤ
in_status_for a s now = if same_activity s.activity a then sub_ℕ now s.last_transition else negsuc 0

-- `CanFailActivation`
abbrev pub can_fail_activation : Status → ℕ → ℤ → Bool
can_fail_activation s now idle = ltb_ℤ idle (in_status_for activating s now)

-- `ScaleBounds`
unfoldable pub scale_bounds : Autoscaler → Config → ℕ × ℕ
scale_bounds pa cfg = (
  if pa.reachable then or_else pa.min_scale cfg.min_scale else 0,
  or_else pa.max_scale cfg.max_scale,
)

-- `GetInitialScale`
unfoldable pub get_initial_scale : Config → Autoscaler → ℕ
get_initial_scale cfg pa = elim (pa.initial_scale) [
  | none ↦ cfg.initial_scale
  | some n ↦ if (n == 0) && not cfg.allow_zero_initial_scale then cfg.initial_scale else n
]

unfoldable pub last_pod_retention : Autoscaler → Config → ℤ
last_pod_retention pa cfg =
    if not pa.reachable then pos 0 else or_else pa.pod_retention cfg.pod_retention

unfoldable pub apply_bounds : ℕ → ℕ → ℤ → ℤ
apply_bounds min max x =
    if ltb_ℤ x (pos min)
    then pos min
    else if not (max == 0) && ltb_ℤ (pos max) x
    then pos max
    else x

unfoldable pub duration_max : ℤ → ℤ → ℤ
duration_max d1 d2 = if ltb_ℤ d1 d2 then d2 else d1

-- What `handleScaleToZero` returns, the delays that it enqueues the PodAutoscaler with, and whether
-- it starts the asynchronous probe.
pub record Decision : Type 0 where
  pub scale : ℤ
  pub apply : Bool
  pub requeue : List ℤ
  pub offered : Bool

abbrev pub decide : ℤ → Bool → List ℤ → Decision
decide n b q = record { scale = n; apply = b; requeue = q; offered = false }

abbrev pub activation_timeout : Autoscaler → Config → ℤ
activation_timeout pa cfg =
    or_else pa.progress_deadline cfg.progress_deadline +ℤ activation_timeout_buffer

-- The case of an inactive PodAutoscaler, once the activator is known to be in the path.
unfoldable pub retire : Autoscaler → Config → Cluster → Decision
retire pa cfg c =
    let inactive_for = in_status_for inactive pa.status c.now in
    let last_pod = last_pod_retention pa cfg in
    let to = cfg.grace_period -ℤ c.proxy_for in
    if leb_ℤ (duration_max cfg.grace_period last_pod) inactive_for
    then decide (pos 0) true []
    else if ltb_ℤ (pos 0) last_pod && ltb_ℤ inactive_for last_pod
    then decide (pos 0) false ((last_pod -ℤ inactive_for) ∷ [])
    else if leb_ℤ to (pos 0)
    then decide (pos 0) true []
    else decide (pos 0) false (to ∷ [])

unfoldable pub handle_zero : Activity → Autoscaler → Config → Cluster → Decision
unfolding retire
handle_zero activating pa cfg c =
    if can_fail_activation pa.status c.now (activation_timeout pa cfg)
    then decide (pos 0) true []
    else decide (negsuc 0) false (activation_timeout pa cfg ∷ [])
handle_zero active pa cfg c =
    let active_for = in_status_for active pa.status c.now in
    if leb_ℤ pa.stable_window active_for
    then decide (pos 0) false (if c.in_proxy_mode then pos (3 * second) ∷ [] else [])
    else decide (pos 1) true ((pa.stable_window -ℤ active_for) ∷ [])
handle_zero inactive pa cfg c =
    if pa.always_burst || c.probe
    then retire pa cfg c
    else record (decide (pos 0) false []) { offered = true }

-- `handleScaleToZero`
unfoldable pub handle_scale_to_zero : Autoscaler → Config → Cluster → ℤ → Decision
unfolding handle_zero
handle_scale_to_zero pa cfg c desired =
    if not (eqb_ℤ desired (pos 0))
    then decide desired true []
    else if not cfg.enable_scale_to_zero
    then decide (pos 1) true []
    else handle_zero pa.status.activity pa cfg c

-- `scale`: the scale returned, the replicas that the target was patched with, whether there was an
-- error, and what `handleScaleToZero` left to do.
pub record Scaled : Type 0 where
  pub scale : ℤ
  pub patched : Option ℤ
  pub failed : Bool
  pub requeue : List ℤ
  pub offered : Bool

-- The part behind `handleScaleToZero`.
unfoldable pub apply_decision : Cluster → Decision → Scaled
apply_decision c d =
    let nothing : Scaled = record {
      scale = d.scale;
      patched = none;
      failed = false;
      requeue = d.requeue;
      offered = d.offered;
    } in
    if not d.apply then nothing else elim (c.target) [
      | none ↦ record nothing { failed = true }
      | some replicas ↦
          if eqb_ℤ d.scale (pos (or_else replicas 1))
          then nothing
          else if c.patch_ok
          then record nothing { patched = some d.scale }
          else record nothing { failed = true }
    ]

-- The lower bound of `scale`: the initial scale counts until it has been reached.
unfoldable pub effective_min : Autoscaler → Config → ℕ
unfolding scale_bounds get_initial_scale
effective_min pa cfg =
    let min = (scale_bounds pa cfg).0 in
    let initial = get_initial_scale cfg pa in
    if ltb 1 initial && (not pa.status.initialized && pa.reachable) then max initial min else min

unfoldable pub scale : Autoscaler → Config → Cluster → ℤ → Scaled
unfolding apply_decision
scale pa cfg c desired =
    let bounded = apply_bounds (effective_min pa cfg) (scale_bounds pa cfg).1 desired in
    if ltb_ℤ desired (pos 0) && not (same_activity pa.status.activity activating)
    then record { scale = desired; patched = none; failed = false; requeue = []; offered = false }
    else apply_decision c (handle_scale_to_zero pa cfg c bounded)

-- `activeThreshold`
unfoldable pub active_threshold : Autoscaler → Config → ℕ
active_threshold pa cfg =
    let min = (scale_bounds pa cfg).0 in
    if not pa.status.initialized then max min (get_initial_scale cfg pa) else max min 1

-- The reasons that `computeActiveCondition` gives; Active=True has none.
pub data Reason : Type 0 where
  no_reason queued no_traffic timed_out : Reason

-- The `switch` of `computeActiveCondition`: what it marks, if it marks anything.
unfoldable pub next_mark : ℤ → ℕ → ℕ → Activity → Option (Activity × Reason)
next_mark want ready min_ready old =
    if eqb_ℤ want (pos 0) || (min_ready == 0)
    then (if same_activity old activating && ltb 0 min_ready
        then some (inactive, timed_out)
        else some (inactive, no_traffic))
    else if ltb ready min_ready
    then (if ltb_ℤ (pos 0) want || not (same_activity old inactive)
        then some (activating, queued)
        else some (inactive, no_traffic))
    else if ltb_ℤ (pos 0) want || not (same_activity old inactive)
    then some (active, no_reason)
    else none

-- The status after it.
unfoldable pub next_activity : ℤ → ℕ → ℕ → Activity → Activity
unfolding next_mark
next_activity want ready min_ready old = elim (next_mark want ready min_ready old) [
  | none ↦ old
  | some (a, _) ↦ a
]

-- `computeActiveCondition`. `mark` is what `MarkActive` and its kin do to a status, with the
-- condition manager of knative.dev/pkg/apis.
unfoldable pub compute_active_condition :
    (Activity → Reason → Status → Status) → Autoscaler → Config → ℤ → ℕ → Status
unfolding next_mark
compute_active_condition mark pa cfg want ready =
    let min_ready = active_threshold pa cfg in
    let s = pa.status in
    let s' =
      if leb min_ready ready && s.has_service_name then record s { initialized = true } else s in
    elim (next_mark want ready min_ready s.activity) [ none ↦ s' | some (a, r) ↦ mark a r s' ]

-- `computeStatus`, without the metrics that it reports.
unfoldable pub compute_status :
    (Activity → Reason → Status → Status) → Autoscaler → Config → ℤ → ℕ → Status
unfolding compute_active_condition
compute_status mark pa cfg want ready =
    let s = pa.status in
    let known : Bool = elim (s.desired_scale) [ none ↦ false | some d ↦ leb_ℤ (pos 0) d ] in
    let desired = if eqb_ℤ want (negsuc 0) && known then s.desired_scale else some want in
    compute_active_condition mark
      (record pa { status = record s { actual_scale = some ready; desired_scale = desired } }) cfg
      want ready
