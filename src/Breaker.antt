-- ===== src/Breaker.antt =====
-- pkg/queue/breaker.go: the limit on concurrent requests and the queue in front of it.
-- `Defs` has the state and the atomic operations, `Words` the packed state, `System` the goroutines
-- that share one breaker, and the other children what holds in every interleaving.
pub mod Defs
pub mod Words
pub mod System
pub mod Invariant
pub mod Guarantees
mod Tests
