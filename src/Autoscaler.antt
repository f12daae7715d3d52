-- ===== src/Autoscaler.antt =====
-- pkg/autoscaler: how many pods a revision should have. `Window` is the sliding maximum of
-- aggregation/max, `Scaling` one autoscaler, `Multi` the autoscalers of all revisions; `Samples` is test
-- data.
pub mod Window
pub mod Scaling
pub mod Multi
pub mod Samples
mod Tests
