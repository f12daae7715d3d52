-- ===== src/Kpa.antt =====
-- pkg/reconciler/autoscaling/kpa/kpa.go: what is done for a PodAutoscaler, from its decider to the mode
-- of its serverless service.
pub mod Defs
pub mod Decider
pub mod Mode
mod Tests
