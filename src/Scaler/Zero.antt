-- ===== src/Scaler/Zero.antt =====
-- When the scaler lets a revision go to zero.
use serving.Prelude.{
  ◌+◌, ◌<◌, ◌≡◌, ◌⊎◌, inl, inr, ◌↔◌, ◌≢◌, Bool, true, false, ◌||◌, [], arith, Bool-cases, All, ap,
  ◌∙◌, sym,
}
use serving.Prelude.Int.{ℤ, pos, ◌≤ℤ◌, pos_part, neg_part, -ℤ_parts}
use serving.Scaler.Defs.{
  Activity, activating, active, inactive, Autoscaler, Config, Cluster, Decision, leb_ℤ,
  in_status_for, last_pod_retention, duration_max, activation_timeout, retire, handle_zero,
  handle_scale_to_zero,
}

infix 50 ◌<ℤ◌
abbrev pub ◌<ℤ◌ : ℤ → ℤ → Type 0
a <ℤ b = pos_part a + neg_part b < pos_part b + neg_part a

-- An inactive revision has been idle and behind the activator for long enough.
abbrev pub MayRetire : Autoscaler → Config → Cluster → Type 0
MayRetire pa cfg c =
    let idle = in_status_for inactive pa.status c.now in
    let last_pod = last_pod_retention pa cfg in
    (duration_max cfg.grace_period last_pod ≤ℤ idle)
    ⊎ (((last_pod ≤ℤ pos 0) ⊎ (last_pod ≤ℤ idle)) × (cfg.grace_period ≤ℤ c.proxy_for))

-- The conditions to scale to zero, by the Active condition.
abbrev pub MayScaleToZero : Activity → Autoscaler → Config → Cluster → Type 0
MayScaleToZero activating pa cfg c =
    activation_timeout pa cfg <ℤ in_status_for activating pa.status c.now
MayScaleToZero active pa cfg c = ⊥
MayScaleToZero inactive pa cfg c =
    ((pa.always_burst ≡ true) ⊎ (c.probe ≡ true)) × MayRetire pa cfg c

retire_iff :
    (pa : Autoscaler) (cfg : Config) (c : Cluster)
    → ((retire pa cfg c).apply ≡ true) ↔ MayRetire pa cfg c
unfolding retire
retire_iff pa cfg c = (
  ground (arith, -ℤ_parts cfg.grace_period c.proxy_for),
  ground (arith, -ℤ_parts cfg.grace_period c.proxy_for),
)

retire-scale : (pa : Autoscaler) (cfg : Config) (c : Cluster) → (retire pa cfg c).scale ≡ pos 0
unfolding retire
retire-scale pa cfg c = ground arith

handle_zero_iff :
    (a : Activity) (pa : Autoscaler) (cfg : Config) (c : Cluster)
    → (((handle_zero a pa cfg c).apply ≡ true) × ((handle_zero a pa cfg c).scale ≡ pos 0))
      ↔ MayScaleToZero a pa cfg c
unfolding handle_zero
handle_zero_iff activating pa cfg c = (ground arith, ground arith)
handle_zero_iff active pa cfg c = (
  λ h. elim (Bool-cases (leb_ℤ pa.stable_window (in_status_for active pa.status c.now))) [
    | inl e ↦ ground (arith, rw e at (h.0))
    | inr e ↦ ground (arith, rw e at (h.1))
  ],
  λ k. absurd k,
)
handle_zero_iff inactive pa cfg c = elim (Bool-cases (pa.always_burst || c.probe)) [
  | inl e ↦ rw e (
    λ h. (ground (arith, e), (retire_iff pa cfg c).0 h.0),
    λ k. ((retire_iff pa cfg c).1 k.1, retire-scale pa cfg c),
  )
  | inr e ↦ rw e (λ h. absurd (ground (arith, h.0)), λ k. absurd (ground (arith, e, k.0)))
]

abbrev apply_of : Decision → Bool
apply_of d = d.apply

abbrev scale_of : Decision → ℤ
scale_of d = d.scale

-- When the autoscaler wants no pod, the revision is scaled to zero exactly if that is enabled and
-- either it has failed to activate for longer than the timeout, or it is inactive, the activator is
-- in the path, and it has been idle for the grace period and the retention period, or for the
-- retention period alone while the activator has served for the grace period. An active revision
-- is never scaled to zero.
pub handle_scale_to_zero_iff :
    (pa : Autoscaler) (cfg : Config) (c : Cluster)
    → let d = handle_scale_to_zero pa cfg c (pos 0) in
      ((d.apply ≡ true) × (d.scale ≡ pos 0))
      ↔ ((cfg.enable_scale_to_zero ≡ true) × MayScaleToZero pa.status.activity pa cfg c)
unfolding handle_scale_to_zero
handle_scale_to_zero_iff pa cfg c =
    let a = pa.status.activity in
    let d = handle_scale_to_zero pa cfg c (pos 0) in
    let (to, from) = handle_zero_iff a pa cfg c in
    elim (Bool-cases cfg.enable_scale_to_zero) [
      | inl e ↦
          let same : d ≡ handle_zero a pa cfg c = ground (arith, e) in
          (
            λ h. (e, to (sym (ap apply_of same) ∙ h.0, sym (ap scale_of same) ∙ h.1)),
            λ k. (ap apply_of same ∙ (from k.1).0, ap scale_of same ∙ (from k.1).1),
          )
      | inr e ↦
          let one : d.scale ≡ pos 1 = ground (arith, e) in
          (λ h. absurd (ground (arith, one, h.1)), λ k. absurd (ground (arith, e, k.0)))
    ]

-- The delays are above 0, and the scaler will look at the revision again.
abbrev pub Returns : Activity → Cluster → Decision → Type 0
Returns a c d =
    All (λ t. pos 0 <ℤ t) d.requeue
    × ((d.apply ≡ true)
        ⊎ ((d.requeue ≢ []) ⊎ ((d.offered ≡ true) ⊎ ((a ≡ active) × (c.in_proxy_mode ≡ false)))))

retire-Returns :
    (a : Activity) (pa : Autoscaler) (cfg : Config) (c : Cluster) → Returns a c (retire pa cfg c)
unfolding retire
retire-Returns a pa cfg c = ground (
  arith,
  -ℤ_parts cfg.grace_period c.proxy_for,
  -ℤ_parts (last_pod_retention pa cfg) (in_status_for inactive pa.status c.now),
)

handle_zero-Returns :
    (a : Activity) (pa : Autoscaler) (cfg : Config) (c : Cluster)
    → pos 0 <ℤ activation_timeout pa cfg
    → Returns a c (handle_zero a pa cfg c)
unfolding handle_zero
handle_zero-Returns activating pa cfg c h = ground arith
handle_zero-Returns active pa cfg c h =
    ground (arith, -ℤ_parts pa.stable_window (in_status_for active pa.status c.now))
handle_zero-Returns inactive pa cfg c h = ground (arith, retire-Returns inactive pa cfg c)

-- Where the activation timeout is above 0, unless the scaler applies a scale, it will look again:
-- it enqueues the revision after a delay that is above 0, or starts a probe whose end enqueues it.
-- The one exception is a revision that may go inactive and is not yet in proxy mode, whose change
-- of mode brings it back.
pub handle_scale_to_zero-Returns :
    (pa : Autoscaler) (cfg : Config) (c : Cluster) (desired : ℤ)
    → pos 0 <ℤ activation_timeout pa cfg
    → Returns pa.status.activity c (handle_scale_to_zero pa cfg c desired)
unfolding handle_scale_to_zero
handle_scale_to_zero-Returns pa cfg c desired h =
    ground (arith, handle_zero-Returns pa.status.activity pa cfg c h)
