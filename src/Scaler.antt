-- ===== src/Scaler.antt =====
-- pkg/reconciler/autoscaling/kpa: the scaler (scaler.go) and the status of a PodAutoscaler (kpa.go),
-- with the accessors that they use (pkg/apis/autoscaling/v1alpha1/pa_lifecycle.go).
pub mod Defs
pub mod Zero
pub mod Bounds
pub mod Status
pub mod Samples
mod Tests
