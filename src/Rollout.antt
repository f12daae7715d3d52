-- ===== src/Rollout.antt =====
-- pkg/reconciler/route/traffic/rollout.go: the gradual rollout of a configuration's newest revision.
-- Percentages, times (Unix nanoseconds) and step sizes are natural numbers; a state that the code
-- writes holds no others. Logging is left out. A slice is a list, and an index out of its range,
-- which is a panic in Go, is `none`.
pub mod Defs
pub mod Merge
pub mod Adjust
pub mod Positive
pub mod Steps
pub mod Kept
pub mod Config
pub mod Panic
pub mod Valid
pub mod Whole
pub mod Order
pub mod Unique
mod Tests
