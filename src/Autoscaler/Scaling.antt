-- ===== src/Autoscaler/Scaling.antt =====
-- pkg/autoscaler/scaling/autoscaler.go: the decision of one autoscaler at one time.
-- float64 is a parameter: a type and its operations, with what is used of their laws beside a theorem
-- that needs them. Times are in nanoseconds since 1970; `none` for a time is the zero time.
pub mod Panic
pub mod Delay
pub mod Windows
pub mod Limits
use serving.Prelude.{
  ℕ, ◌+◌, ◌*◌, Bool, true, false, not, ◌&&◌, Option, none, some, ltb, if◌then◌else◌, ◌>>=◌,
}
use serving.Prelude.Int.{ℤ, pos, negsuc, ltb_ℤ}
use serving.Autoscaler.Window.{second, TimeWindow, new_time_window, record_time, current_time}

-- The operations on float64; `to_int32` is the conversion.
pub record Float (F : Type 0) : Type 0 where
  pub of_ℕ : ℕ → F
  pub of_ℤ : ℤ → F
  pub mul : F → F → F
  pub div : F → F → F
  pub add : F → F → F
  pub sub : F → F → F
  pub ceil : F → F
  pub floor : F → F
  pub fmin : F → F → F
  pub fmax : F → F → F
  pub leb : F → F → Bool
  pub lt : F → F → Bool
  pub eqb : F → F → Bool
  pub to_int32 : F → ℤ

-- `DeciderSpec`; the metric is in `Observed`.
pub record DeciderSpec (F : Type 0) : Type 0 where
  pub max_scale_up_rate : F
  pub max_scale_down_rate : F
  pub target_value : F
  pub total_value : F
  pub target_burst_capacity : F
  pub activator_capacity : F
  pub panic_threshold : F
  pub stable_window : ℕ
  pub scale_down_delay : ℕ
  pub initial_scale : ℤ
  pub reachable : Bool
  pub activation_scale : ℤ

-- `autoscaler`, without what names the revision and its metrics.
pub record Autoscaler (F : Type 0) : Type 0 where
  pub panic_time : Option ℕ
  pub max_panic_pods : ℤ
  pub delay_window : Option TimeWindow
  pub decider_spec : DeciderSpec F

-- `ScaleResult`
pub record ScaleResult : Type 0 where
  pub desired_pod_count : ℤ
  pub excess_burst_capacity : ℤ
  pub scale_valid : Bool

abbrev pub invalid_sr : ScaleResult
invalid_sr = record {
  desired_pod_count = pos 0;
  excess_burst_capacity = pos 0;
  scale_valid = false;
}

-- tickInterval
abbrev pub tick_interval : ℕ
tick_interval = 2 * second

-- What a call of `Scale` finds: the time, the number of ready pods, 0 if there is no service yet, or
-- `none` for another error, and the stable and the panic value of the metric, or `none` for an error.
pub record Tick (F : Type 0) : Type 0 where
  pub now : ℕ
  pub ready : Option ℕ
  pub observed : Option (F × F)

-- What the metrics ask for at a tick: the pods of the stable and of the panic window, and whether the
-- load is over the threshold.
pub record Demand : Type 0 where
  pub stable_pods : ℤ
  pub panic_pods : ℤ
  pub over_threshold : Bool

abbrev pub at_least : Bool → ℤ → ℤ → ℤ
at_least wanted least n = if wanted && ltb_ℤ n least then least else n

module _ {F : Type 0} (f : Float F) where
  open f use {of_ℕ, of_ℤ, mul, div, sub, ceil, floor, fmin, fmax, leb, lt, eqb, to_int32}

  abbrev positive : F → Bool
  positive x = lt (of_ℕ 0) x

  -- math.Max(1, float64(originalReadyPodsCount))
  abbrev pub ready_pods : ℕ → F
  ready_pods ready = fmax (of_ℕ 1) (of_ℕ ready)

  abbrev pub max_scale_up : DeciderSpec F → ℕ → F
  max_scale_up spec ready = ceil (mul spec.max_scale_up_rate (ready_pods ready))

  abbrev pub max_scale_down : DeciderSpec F → ℕ → F
  max_scale_down spec ready =
      if spec.reachable then floor (div (ready_pods ready) spec.max_scale_down_rate) else of_ℕ 0

  -- dspc, dppc: the pods for a value of the metric.
  abbrev pub pods_for : DeciderSpec F → F → F
  pods_for spec value = ceil (div value spec.target_value)

  -- In the range from maxScaleDown to maxScaleUp, and then at least the activation scale.
  unfoldable pub desired_pods : DeciderSpec F → ℕ → F → ℤ
  desired_pods spec ready value =
      let pods = pods_for spec value in
      let limited =
        to_int32 (fmin (fmax pods (max_scale_down spec ready)) (max_scale_up spec ready)) in
      at_least (ltb_ℤ (pos 1) spec.activation_scale && positive pods) spec.activation_scale limited

  unfoldable pub demand : DeciderSpec F → ℕ → F → F → Demand
  unfolding desired_pods
  demand spec ready stable panic = record {
    stable_pods = desired_pods spec ready stable;
    panic_pods = desired_pods spec ready panic;
    over_threshold = leb spec.panic_threshold (div (pods_for spec panic) (ready_pods ready));
  }

  -- excessBCF, as int32
  unfoldable pub excess_burst_capacity : DeciderSpec F → ℕ → F → ℤ
  excess_burst_capacity spec ready panic =
      let tbc = spec.target_burst_capacity in
      to_int32 (
        if eqb tbc (of_ℕ 0)
        then of_ℕ 0
        else if positive tbc
        then floor (sub (sub (mul (of_ℕ ready) spec.total_value) tbc) panic)
        else of_ℤ (negsuc 0))

-- The panic mode after a tick: its time, and the largest number of pods in it.
unfoldable pub update_panic : Bool → ℕ → ℕ → Option ℕ × ℤ → Option ℕ × ℤ
update_panic true stable_window now (t, pods) = (some now, pods)
update_panic false stable_window now (none, pods) = (none, pods)
update_panic false stable_window now (some t, pods) =
    if ltb (t + stable_window) now then (none, pos 0) else (some t, pods)

-- The desired pods before they are delayed, and maxPanicPods.
unfoldable pub hold_pods : Demand → Option ℕ × ℤ → ℤ × ℤ
hold_pods d (none, pods) = (d.stable_pods, pods)
hold_pods d (some t, pods) =
    let desired = if ltb_ℤ d.stable_pods d.panic_pods then d.panic_pods else d.stable_pods in
    let most = if ltb_ℤ pods desired then desired else pods in (most, most)

-- The delay of decisions to scale down.
unfoldable pub delay_pods : Bool → ℕ → ℤ → Option TimeWindow → Option (ℤ × Option TimeWindow)
delay_pods false now desired w = some (desired, w)
delay_pods true now desired none = some (desired, none)
delay_pods true now desired (some w) = do
  w' ← record_time now desired w
  delayed ← current_time w'
  some (delayed, some w')

-- The state after a tick with a demand, and the pods before and after the delay.
unfoldable pub apply_demand : {F : Type 0} → Demand → ℕ → Autoscaler F → Option (Autoscaler F × ℤ)
unfolding update_panic hold_pods delay_pods
apply_demand d now a =
    let spec = a.decider_spec in
    let mode =
      update_panic d.over_threshold spec.stable_window now (a.panic_time, a.max_panic_pods) in
    let (desired, most) = hold_pods d mode in
    do
      (delayed, w) ← delay_pods spec.reachable now desired a.delay_window
      some (record a { panic_time = mode.0; max_panic_pods = most; delay_window = w }, delayed)

module _ {F : Type 0} (f : Float F) where
  -- `Scale`; `none` is a panic of the window.
  unfoldable pub scale : Tick F → Autoscaler F → Option (Autoscaler F × ScaleResult)
  unfolding apply_demand demand
  scale t a = elim (t.ready) [
    | none ↦ some (a, invalid_sr)
    | some ready ↦ elim (t.observed) [
      | none ↦ some (a, invalid_sr)
      | some (stable, panic) ↦ do
        (a', desired) ← apply_demand (demand f a.decider_spec ready stable panic) t.now a
        some (
          a',
          record {
            desired_pod_count = desired;
            excess_burst_capacity = excess_burst_capacity f a.decider_spec ready panic;
            scale_valid = true;
          },
        )
    ]
  ]

-- `New` with `newAutoscaler`: `ready` is 0 where the count is an error.
unfoldable pub new_autoscaler : {F : Type 0} → DeciderSpec F → ℕ → ℕ → Autoscaler F
new_autoscaler spec now ready = record {
  panic_time = if ltb 1 ready then some now else none;
  max_panic_pods = pos ready;
  delay_window =
      if ltb 0 spec.scale_down_delay
      then some (new_time_window spec.scale_down_delay tick_interval)
      else none;
  decider_spec = spec;
}

-- `Update`
unfoldable pub update_spec : {F : Type 0} → DeciderSpec F → Autoscaler F → Autoscaler F
update_spec spec a = record a { decider_spec = spec }
