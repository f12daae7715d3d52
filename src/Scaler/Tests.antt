-- ===== src/Scaler/Tests.antt =====
-- Runs of scaler.go for an inactive PodAutoscaler that has been idle for a minute.
use serving.Prelude.{ℕ, Option, ◌≤◌, ◌⊎◌, ◌≢◌, inl, ◌≡◌, ◌↔◌, refl, true, some, arith}
use serving.Prelude.Int.{pos, ◌+ℤ◌}
use serving.Scaler.Samples.{revision, config, cluster}
use serving.Scaler.Defs.{
  scale, scale_bounds, effective_min, apply_bounds, apply_decision, get_initial_scale, or_else,
  inactive, handle_scale_to_zero, handle_zero, retire, in_status_for, duration_max,
  last_pod_retention, activation_timeout,
}
use serving.Scaler.Bounds.{Within, scale-Within}
use serving.Scaler.Zero.{
  ◌<ℤ◌, MayScaleToZero, Returns, handle_scale_to_zero_iff, handle_scale_to_zero-Returns,
}

scales_to_zero : (handle_scale_to_zero revision config cluster (pos 0)).apply ≡ true
unfolding handle_scale_to_zero handle_zero retire in_status_for duration_max last_pod_retention
scales_to_zero = refl

handle_scale_to_zero_iff_example :
    (((handle_scale_to_zero revision config cluster (pos 0)).apply ≡ true)
      × ((handle_scale_to_zero revision config cluster (pos 0)).scale ≡ pos 0))
    ↔ ((true ≡ true) × MayScaleToZero inactive revision config cluster)
handle_scale_to_zero_iff_example = handle_scale_to_zero_iff revision config cluster

timeout-positive : pos 0 <ℤ activation_timeout revision config
unfolding ◌+ℤ◌
timeout-positive = omega arith

handle_scale_to_zero-Returns_example :
    Returns inactive cluster (handle_scale_to_zero revision config cluster (pos 0))
handle_scale_to_zero-Returns_example =
    handle_scale_to_zero-Returns revision config cluster (pos 0) timeout-positive

-- Two pods are wanted, and one is there.
scale-patched : (scale revision config cluster (pos 2)).patched ≡ some (pos 2)
unfolding scale scale_bounds effective_min apply_bounds handle_scale_to_zero apply_decision
    get_initial_scale
scale-patched = refl

bounds-in-order :
    ((scale_bounds revision config).1 ≡ 0)
    ⊎ (effective_min revision config ≤ (scale_bounds revision config).1)
unfolding scale_bounds
bounds-in-order = inl refl

scale-Within_example :
    Within (effective_min revision config) (scale_bounds revision config).1 (pos 2)
    × (r : Option ℕ) × (some (some 1) ≡ some r)
    × (pos 2 ≢ pos (or_else r 1))
scale-Within_example =
    scale-Within revision config cluster (pos 2) (pos 2) bounds-in-order scale-patched
