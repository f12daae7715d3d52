-- ===== src/Kpa/Mode.antt =====
-- The mode that the serverless service gets.
use serving.Prelude.{
  ℕ, ◌≡◌, ◌⊎◌, ◌↔◌, inl, inr, refl, Bool, true, false, Option, none, some, arith, Bool-cases,
  Option-cases,
}
use serving.Prelude.Int.{ℤ, pos, negsuc, ◌≤ℤ◌}
use serving.Prelude.Assoc.{Entries}
use serving.Autoscaler.Scaling.{Float, DeciderSpec}
use serving.Autoscaler.Multi.{
  Status as DeciderStatus, Decider, UniScaler, MultiScaler, get, initial_status,
}
use serving.Autoscaler.Multi.Guard.{Live}
use serving.Scaler.Defs.{
  Activity, activating, active, inactive, Reason, Status, Autoscaler, Config, Cluster, scale,
  compute_status,
}
use serving.Kpa.Defs.{
  Mode, proxy, serve, Answers, Reconciled, min_activators, compute_num_activators, choose_mode,
  with_decider, without_sks, reconcile_decider, reconcile_kind,
}
use serving.Kpa.Decider.{Leaves, reconcile_decider_lem}

choose_mode_iff :
    (want : ℤ) (a : Activity) (excess : ℤ)
    → (choose_mode want a excess ≡ serve) ↔ ((pos 1 ≤ℤ want) × (pos 0 ≤ℤ excess))
unfolding choose_mode
choose_mode_iff want activating excess = (ground arith, ground arith)
choose_mode_iff want active excess = (ground arith, ground arith)
choose_mode_iff want inactive excess = (ground arith, ground arith)

module _ {F : Type 0} (f : Float F) where
  -- The capacity to cover: that of the ready pods, and the target burst capacity if it is above 0.
  abbrev pub Covers : ℕ → DeciderSpec F → F → Type 0
  Covers ready spec covered =
      let capacity = f.mul (f.of_ℕ ready) spec.total_value in
      let above = f.lt (f.of_ℕ 0) spec.target_burst_capacity in
      ((above ≡ true) × (covered ≡ f.add capacity spec.target_burst_capacity))
      ⊎ ((above ≡ false) × (covered ≡ capacity))

  -- The number of activators: two without a target burst capacity, otherwise as many as cover the
  -- capacity, rounded up, and at least two.
  abbrev pub IsEnough : ℕ → DeciderSpec F → ℤ → Type 0
  IsEnough ready spec n =
      let unset = f.eqb spec.target_burst_capacity (f.of_ℕ 0) in
      ((unset ≡ true) × (n ≡ pos 2))
      ⊎ ((unset ≡ false)
          × ((covered : F) × Covers ready spec covered
              × (n
                  ≡ f.to_int32
                      (f.fmax (f.of_ℕ 2) (f.ceil (f.div covered spec.activator_capacity))))))

  compute_num_activators-IsEnough :
      (ready : ℕ) (spec : DeciderSpec F) → IsEnough ready spec (compute_num_activators f ready spec)
  unfolding compute_num_activators
  compute_num_activators-IsEnough ready spec =
      let tbc = spec.target_burst_capacity in
      elim (Bool-cases (f.eqb tbc (f.of_ℕ 0))) [
        | inl z ↦ inl (z, rw z refl)
        | inr z ↦ elim (Bool-cases (f.lt (f.of_ℕ 0) tbc)) [
          | inl above ↦ inr (z, (_, inl (above, refl), rw (z, above) refl))
          | inr below ↦ inr (z, (_, inr (below, refl), rw (z, below) refl))
        ]
      ]

module _ {F : Type 0} (f : Float F) (mark : Activity → Reason → Status → Status) (pa : Autoscaler)
    (cfg : Config) (c : Cluster) (a : Answers) where
  -- The mode is Serve exactly if pods are wanted and the burst capacity is there.
  abbrev pub IsMode : Decider F → Mode → Type 0
  IsMode d mode = (mode ≡ serve) ↔ (
      (pos 1 ≤ℤ (scale pa cfg c d.status.desired_scale).scale)
      × (pos 0 ≤ℤ d.status.excess_burst_capacity))

  -- What can fail once there is a decider: the metric, the scaler, the pods' lister, or the SKS that is
  -- asked for.
  abbrev pub Fails : Decider F → Type 0
  Fails d =
      (a.metric_ok ≡ false)
      ⊎ (((scale pa cfg c d.status.desired_scale).failed ≡ true)
          ⊎ ((a.ready_pods ≡ none)
              ⊎ ((ready : ℕ) × (mode : Mode) × (n : ℤ) × (a.ready_pods ≡ some ready)
                  × IsMode d mode
                  × IsEnough f ready d.spec n
                  × (a.reconcile_sks mode n ≡ none))))

  -- What is decided where nothing fails: the mode, the activators, and the status for the scale.
  abbrev pub Follows : Decider F → Reconciled → Type 0
  Follows d r =
      let scaled = scale pa cfg c d.status.desired_scale in
      (ready : ℕ) × (has_name : Bool) × (a.metric_ok ≡ true)
      × (scaled.failed ≡ false)
      × (a.ready_pods ≡ some ready)
      × (a.reconcile_sks r.mode r.activators ≡ some has_name)
      × IsMode d r.mode
      × IsEnough f ready d.spec r.activators
      × (r.status
          ≡ compute_status mark
              (record pa { status = record (pa.status) { has_service_name = has_name } }) cfg
              scaled.scale ready)

  with_decider_lem :
      (d : Decider F)
      → ((with_decider f mark pa cfg c a d ≡ none) × Fails d)
        ⊎ ((r : Reconciled) × (with_decider f mark pa cfg c a d ≡ some r) × Follows d r)
  unfolding with_decider
  with_decider_lem d =
      let scaled = scale pa cfg c d.status.desired_scale in
      let mode = choose_mode scaled.scale pa.status.activity d.status.excess_burst_capacity in
      let is_mode : IsMode d mode =
        choose_mode_iff scaled.scale pa.status.activity d.status.excess_burst_capacity in
      elim (Bool-cases a.metric_ok) [
        | inr e ↦ inl (rw (with_decider, e) refl, inl e)
        | inl e ↦ elim (Bool-cases scaled.failed) [
          | inl g ↦ inl (rw (with_decider, e) (rw g refl), inr (inl g))
          | inr g ↦ elim (Option-cases a.ready_pods) [
            | inl k ↦ inl (rw (with_decider, e) (rw g (rw k refl)), inr (inr (inl k)))
            | inr (ready, k) ↦
                let activators = compute_num_activators f ready d.spec in
                let enough = compute_num_activators-IsEnough f ready d.spec in
                elim (Option-cases (a.reconcile_sks mode activators)) [
                  | inl s ↦ inl (
                    rw (with_decider, e) (rw g (rw k (rw s refl))),
                    inr (inr (inr (ready, mode, activators, k, is_mode, enough, s))),
                  )
                  | inr (b, s) ↦
                      let r : Reconciled = record {
                        status =
                            compute_status mark
                              (record pa { status = record (pa.status) { has_service_name = b } })
                              cfg scaled.scale ready;
                        mode = mode;
                        activators = activators;
                      } in
                      inr (
                        r,
                        rw (with_decider, e) (rw g (rw k (rw s refl))),
                        (ready, b, e, g, k, s, is_mode, enough, refl),
                      )
                ]
          ]
        ]
      ]

  -- What is decided without an SKS: Proxy with two activators, and the status for an unknown scale.
  abbrev pub Stays : Reconciled → Type 0
  Stays r =
      (r.mode ≡ proxy)
      × (r.activators ≡ pos 2)
      × (r.status ≡ compute_status mark pa cfg (negsuc 0) 0)
      × ((has_name : Bool) × (a.reconcile_sks proxy (pos 2) ≡ some has_name))

  without_sks_lem :
      ((without_sks f mark pa cfg c a ≡ none) × (a.reconcile_sks proxy (pos 2) ≡ none))
      ⊎ ((r : Reconciled) × (without_sks f mark pa cfg c a ≡ some r) × Stays r)
  unfolding without_sks
  without_sks_lem = elim (Option-cases (a.reconcile_sks proxy min_activators)) [
    | inl e ↦ inl (rw (without_sks, e) refl, e)
    | inr (b, e) ↦
        let r : Reconciled = record {
          status = compute_status mark pa cfg (negsuc 0) 0;
          mode = proxy;
          activators = min_activators;
        } in
        inr (r, rw (without_sks, e) refl, (refl, refl, refl, (b, e)))
  ]

module _ {F U T : Type 0} (f : Float F) (uni : UniScaler F U T)
    (same : Decider F → Decider F → Bool) (same_eq : (a b : Decider F) → same a b ≡ true → a ≡ b)
    (mark : Activity → Reason → Status → Status) where
  -- What `ReconcileKind` does without an SKS.
  abbrev pub Waits :
      Autoscaler
      → Config
      → Cluster
      → Answers
      → MultiScaler F U
      → MultiScaler F U × Option Reconciled
      → Type 0
  Waits pa cfg c a m o =
      ((o ≡ (m, none)) × (a.reconcile_sks proxy (pos 2) ≡ none))
      ⊎ ((r : Reconciled) × (o ≡ (m, some r)) × Stays f mark pa cfg c a r)

  -- What it does with one, and a decider that it leaves in the multiscaler.
  abbrev pub Decides :
      Autoscaler
      → Config
      → Cluster
      → Answers
      → Decider F
      → MultiScaler F U × Option Reconciled
      → Type 0
  Decides pa cfg c a desired o =
      (m : MultiScaler F U) × (d : Decider F) × (get desired.key m ≡ some d)
      × (d.spec ≡ desired.spec)
      × (((o ≡ (m, none)) × Fails f mark pa cfg c a d)
          ⊎ ((r : Reconciled) × (o ≡ (m, some r)) × Follows f mark pa cfg c a d r))

  decides :
      (pa : Autoscaler) (cfg : Config) (c : Cluster) (a : Answers) (t : T) (desired : Decider F)
      (m : MultiScaler F U) (status : DeciderStatus)
      → a.has_private_service ≡ true
      → Leaves f uni same same_eq desired status (reconcile_decider f uni same t desired m)
      → Decides pa cfg c a desired (reconcile_kind f uni same mark pa cfg c a t desired m)
  unfolding reconcile_kind
  decides pa cfg c a t desired m status s (m', e, g) =
      let d : Decider F = record desired { status = status } in
      (
        m',
        d,
        g,
        refl,
        elim (with_decider_lem f mark pa cfg c a d) [
          | inl (k, x) ↦ inl (rw (reconcile_kind, s) (rw e (rw k refl)), x)
          | inr (r, k, x) ↦ inr (r, rw (reconcile_kind, s) (rw e (rw k refl)), x)
        ],
      )

  -- Where every key of the multiscaler's map has a runner. Without an SKS that has a private service
  -- the multiscaler is left alone: either the SKS is set to Proxy with two activators, and the status
  -- is that of an unknown scale, or that call fails. With one, either there is no decider and the
  -- factory fails, or the multiscaler has a decider of the desired specification afterwards. Then
  -- either the metric, the scaler, the pods' lister or the SKS fails, and so does the reconciliation;
  -- or none of them fails, the SKS is set to Serve exactly if the scaler wants a pod or more and the
  -- decider's excess burst capacity is not negative, its activators are two without a target burst
  -- capacity and otherwise those that cover the capacity, and the status is that of the scaler's
  -- result and the ready pods.
  pub reconcile_kind_lem :
      (pa : Autoscaler) (cfg : Config) (c : Cluster) (a : Answers) (t : T) (desired : Decider F)
      (m : MultiScaler F U)
      → Entries (Live m.runners) m.scalers
      → let o = reconcile_kind f uni same mark pa cfg c a t desired m in
        ((a.has_private_service ≡ false) × Waits pa cfg c a m o)
        ⊎ ((a.has_private_service ≡ true)
            × (((get desired.key m ≡ none) × (uni.create_scaler t desired ≡ none) × (o ≡ (m, none)))
                ⊎ Decides pa cfg c a desired o))
  unfolding reconcile_kind
  reconcile_kind_lem pa cfg c a t desired m g = elim (Bool-cases a.has_private_service) [
    | inr s ↦ inl (
      s,
      elim (without_sks_lem f mark pa cfg c a) [
        | inl (e, k) ↦ inl (rw (reconcile_kind, s) (rw e refl), k)
        | inr (r, e, k) ↦ inr (r, rw (reconcile_kind, s) (rw e refl), k)
      ],
    )
    | inl s ↦ inr (
      s,
      elim (reconcile_decider_lem f uni same same_eq t desired m g) [
        | inl (d, e, l) ↦ inr (decides pa cfg c a t desired m d.status s l)
        | inr (inl (e, k, x)) ↦ inl (e, k, rw (reconcile_kind, s) (rw x refl))
        | inr (inr (e, l)) ↦
            inr (decides pa cfg c a t desired m (initial_status f uni desired.spec) s l)
      ],
    )
  ]
