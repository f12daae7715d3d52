-- ===== src/Reporter.antt =====
-- pkg/activator/handler/concurrency_reporter.go: the requests of every revision that an activator has
-- in flight, and the reports on them.
pub mod Defs
pub mod Counts
pub mod Invariant
pub mod Requests
pub mod Deletes
pub mod Reports
pub mod Totals
pub mod Balance
pub mod Safe
mod Tests
