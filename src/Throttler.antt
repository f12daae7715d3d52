-- ===== src/Throttler.antt =====
-- pkg/activator/net/throttler.go and lb_policy.go: how an activator shares out the pods of a
-- revision, sets its capacity, and picks a pod for a request. The informers, the locks and the log
-- are left out; `Slice` has the sharing of pods, `Tracker` the pods, `Policy` the choice of one,
-- `Infinite` the breaker for unlimited concurrency, `State` the throttler of one revision.
pub mod Slice
pub mod Partition
pub mod Capacity
pub mod Tracker
pub mod Policy
pub mod Picks
pub mod Infinite
pub mod State
pub mod Update
pub mod Store
pub mod Room
pub mod Events
pub mod Apart
mod Tests
