-- ===== src/Kpa/Defs.antt =====
-- `ReconcileKind` with `reconcileDecider`, on the multiscaler and the scaler. The answers of the API
-- server and of the pods' lister are arguments, and so is the decider that `MakeDecider` makes of the
-- PodAutoscaler. The condition that says whether the SKS is ready, metrics and logs are left out.
use serving.Prelude.{ℕ, Bool, not, ◌&&◌, Option, none, some, if◌then◌else◌, ◌>>=◌}
use serving.Prelude.Int.{ℤ, pos, negsuc, ltb_ℤ}
use serving.Autoscaler.Scaling.{Float, DeciderSpec}
use serving.Autoscaler.Multi.{Decider, UniScaler, MultiScaler, get, create, update}
use serving.Scaler.Defs.{
  Activity, Reason, Status, Autoscaler, Config, Cluster, scale, compute_status, same_activity,
  inactive, eqb_ℤ, leb_ℤ,
}

-- SKSOperationModeProxy and SKSOperationModeServe
pub data Mode : Type 0 where
  proxy serve : Mode

-- What the reconciliation of the SKS, with a mode and a number of activators, returns, but for an error:
-- whether the SKS has a service name.
pub record Answers : Type 0 where
  pub has_private_service : Bool  -- there is an SKS with the name of a private service
  pub reconcile_sks : Mode → ℤ → Option Bool
  pub metric_ok : Bool
  pub ready_pods : Option ℕ

abbrev pub min_activators : ℤ
min_activators = pos 2

-- `ReconcileKind` after which the status, and the mode and the activators of the SKS, are these.
pub record Reconciled : Type 0 where
  pub status : Status
  pub mode : Mode
  pub activators : ℤ

module _ {F : Type 0} (f : Float F) where
  -- `computeNumActivators`
  unfoldable pub compute_num_activators : ℕ → DeciderSpec F → ℤ
  compute_num_activators ready spec =
      let tbc = spec.target_burst_capacity in
      let capacity = f.mul (f.of_ℕ ready) spec.total_value in
      let to_cover = if f.lt (f.of_ℕ 0) tbc then f.add capacity tbc else capacity in
      if f.eqb tbc (f.of_ℕ 0)
      then min_activators
      else f.to_int32 (f.fmax (f.of_ℕ 2) (f.ceil (f.div to_cover spec.activator_capacity)))

module _ {F U T : Type 0} (f : Float F) (uni : UniScaler F U T)
    (same : Decider F → Decider F → Bool) where
  -- The last part of `reconcileDecider`, with the decider that was found or created. `same` is
  -- equality.Semantic.DeepEqual.
  unfoldable pub update_decider :
      Decider F → Decider F → MultiScaler F U → MultiScaler F U × Option (Decider F)
  update_decider desired d m =
      let wanted : Decider F = record desired { status = d.status } in
      if same wanted d
      then (m, some d)
      else elim (update f uni wanted m) [ none ↦ (m, none) | some m' ↦ (m', some wanted) ]

  -- The same for what `Create` returned.
  abbrev pub update_created :
      Decider F → MultiScaler F U × Option (Decider F) → MultiScaler F U × Option (Decider F)
  update_created desired (m, none) = (m, none)
  update_created desired (m, some d) = update_decider desired d m

  -- `reconcileDecider`; `none` is an error.
  unfoldable pub reconcile_decider :
      T → Decider F → MultiScaler F U → MultiScaler F U × Option (Decider F)
  unfolding update_decider
  reconcile_decider t desired m = elim (get desired.key m) [
    | some d ↦ update_decider desired d m
    | none ↦ update_created desired (create f uni t desired m)
  ]

-- The mode of the SKS.
unfoldable pub choose_mode : ℤ → Activity → ℤ → Mode
choose_mode want activity excess =
    if eqb_ℤ want (negsuc 0) && same_activity activity inactive
    then proxy
    else if ltb_ℤ (pos 0) want && leb_ℤ (pos 0) excess
    then serve
    else proxy

module _ {F : Type 0} (f : Float F) (mark : Activity → Reason → Status → Status) (pa : Autoscaler)
    (cfg : Config) (c : Cluster) (a : Answers) where
  -- The status with the service name of the SKS.
  abbrev named : Bool → Autoscaler
  named has_name = record pa { status = record (pa.status) { has_service_name = has_name } }

  -- `ReconcileKind` where there is a decider; `none` is an error.
  unfoldable pub with_decider : Decider F → Option Reconciled
  unfolding choose_mode
  with_decider d =
      let scaled = scale pa cfg c d.status.desired_scale in
      let mode = choose_mode scaled.scale pa.status.activity d.status.excess_burst_capacity in
      if not a.metric_ok then none else if scaled.failed then none else (do
        ready ← a.ready_pods
        (let activators = compute_num_activators f ready d.spec in
            do
              has_name ← a.reconcile_sks mode activators
              some (record {
                status = compute_status mark (named has_name) cfg scaled.scale ready;
                mode = mode;
                activators = activators;
              })))

  -- `ReconcileKind` before there is an SKS to use.
  unfoldable pub without_sks : Option Reconciled
  without_sks = do
    has_name ← a.reconcile_sks proxy min_activators
    some (record {
      status = compute_status mark pa cfg (negsuc 0) 0;
      mode = proxy;
      activators = min_activators;
    })

module _ {F U T : Type 0} (f : Float F) (uni : UniScaler F U T)
    (same : Decider F → Decider F → Bool) (mark : Activity → Reason → Status → Status) where
  -- `ReconcileKind`, with the multiscaler after it; `none` is an error.
  unfoldable pub reconcile_kind :
      Autoscaler
      → Config
      → Cluster
      → Answers
      → T
      → Decider F
      → MultiScaler F U
      → MultiScaler F U × Option Reconciled
  unfolding with_decider without_sks reconcile_decider
  reconcile_kind pa cfg c a t desired m =
      if not a.has_private_service
      then (m, without_sks f mark pa cfg c a)
      else let (m', o) = reconcile_decider f uni same t desired m in
        (m', o >>= with_decider f mark pa cfg c a)
