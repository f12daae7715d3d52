-- ===== src/Gc.antt =====
-- pkg/reconciler/gc/gc.go: which revisions of a configuration the garbage collector deletes.
-- Times and durations are natural numbers (nanoseconds); the lister, the client and the log are left
-- out: `collect` takes the listed revisions and returns those that it asks to delete, in order. A
-- deletion that fails is logged and counted like one that succeeds.
pub mod Defs
pub mod Active
pub mod Collect
mod Tests
