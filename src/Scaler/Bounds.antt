-- ===== src/Scaler/Bounds.antt =====
-- The bounds of the scale that scaler.go patches the target with.
use serving.Prelude.{ℕ, ◌≤◌, ◌≡◌, ◌≢◌, ◌⊎◌, true, false, Option, none, some, refl, arith, sym}
use serving.Prelude.Int.{ℤ, pos, ◌≤ℤ◌}
use serving.Scaler.Defs.{
  Activity, activating, active, inactive, Autoscaler, Config, Cluster, Decision, eqb_ℤ, or_else,
  apply_bounds, handle_zero, handle_scale_to_zero, retire, apply_decision, effective_min,
  scale_bounds, scale,
}

-- Between the two bounds, of which 0 for the upper one is none.
abbrev pub Within : ℕ → ℕ → ℤ → Type 0
Within min max n = (pos min ≤ℤ n) × ((max ≡ 0) ⊎ (n ≤ℤ pos max))

apply_bounds-Within :
    (min max : ℕ) (x : ℤ) → (max ≡ 0) ⊎ (min ≤ max) → Within min max (apply_bounds min max x)
unfolding apply_bounds
apply_bounds-Within min max x h = ground arith

-- `retire` gives 0, and so does `handle_zero`, unless it gives 1 or does not apply.
handle_zero-scale :
    (a : Activity) (pa : Autoscaler) (cfg : Config) (c : Cluster)
    → (handle_zero a pa cfg c).apply ≡ true
    → ((handle_zero a pa cfg c).scale ≡ pos 0) ⊎ ((handle_zero a pa cfg c).scale ≡ pos 1)
unfolding handle_zero retire
handle_zero-scale activating pa cfg c h = ground arith
handle_zero-scale active pa cfg c h = ground arith
handle_zero-scale inactive pa cfg c h = ground arith

handle_scale_to_zero-Within :
    (min max : ℕ) (pa : Autoscaler) (cfg : Config) (c : Cluster) (x : ℤ)
    → Within min max x
    → (handle_scale_to_zero pa cfg c x).apply ≡ true
    → Within min max (handle_scale_to_zero pa cfg c x).scale
unfolding handle_scale_to_zero
handle_scale_to_zero-Within min max pa cfg c x h a =
    let z = handle_zero-scale pa.status.activity pa cfg c in ground (arith, z)

apply_decision-patched :
    (c : Cluster) (d : Decision) (n : ℤ)
    → (apply_decision c d).patched ≡ some n
    → (d.apply ≡ true)
      × (d.scale ≡ n)
      × (r : Option ℕ) × (c.target ≡ some r)
      × (eqb_ℤ d.scale (pos (or_else r 1)) ≡ false)
unfolding apply_decision
apply_decision-patched c d n h = go c.target refl
  where
    go :
        (o : Option (Option ℕ))
        → c.target ≡ o
        → (d.apply ≡ true)
          × (d.scale ≡ n)
          × (r : Option ℕ) × (c.target ≡ some r)
          × (eqb_ℤ d.scale (pos (or_else r 1)) ≡ false)
    go none k = absurd (ground (arith, k, h))
    go (some r) k = ground (arith, k, h)

-- The scale that the target is patched with lies within the bounds, if these are in order, and it is
-- not the one that the target has already. The lower bound counts the initial scale while that has
-- not been reached. A target without a number of replicas has one.
pub scale-Within :
    (pa : Autoscaler) (cfg : Config) (c : Cluster) (desired n : ℤ)
    → ((scale_bounds pa cfg).1 ≡ 0) ⊎ (effective_min pa cfg ≤ (scale_bounds pa cfg).1)
    → (scale pa cfg c desired).patched ≡ some n
    → Within (effective_min pa cfg) (scale_bounds pa cfg).1 n
      × (r : Option ℕ) × (c.target ≡ some r)
      × (n ≢ pos (or_else r 1))
unfolding scale
scale-Within pa cfg c desired n h e =
    let min = effective_min pa cfg in
    let max = (scale_bounds pa cfg).1 in
    let x = apply_bounds min max desired in
    let e' : (apply_decision c (handle_scale_to_zero pa cfg c x)).patched ≡ some n =
      ground (arith, e) in
    let (a, s, r, t, d) = apply_decision-patched c (handle_scale_to_zero pa cfg c x) n e' in
    let w =
      handle_scale_to_zero-Within min max pa cfg c x (apply_bounds-Within min max desired h) a in
    (rw (sym s) w, r, t, λ k. ground (arith, d, s, k))
