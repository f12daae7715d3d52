-- ===== src/Lib.antt =====
-- Knative Serving: models of its core logic in Go, and the theorems that make it correct.
--
-- Knative Serving runs revisions of a service on Kubernetes. A route splits its traffic among
-- configurations and moves it from old revisions to new ones. Requests go to the pods of a
-- revision, through a queue proxy in each pod, and through an activator while a revision has no pod
-- or few of them. An autoscaler decides how many pods a revision should have, the scaler applies
-- that, and old revisions are collected.
--
-- Rollout: pkg/reconciler/route/traffic/rollout.go. `Rollout.Defs` has the data with the fields of
--   the Go structs, `validate`, `adjust_percentage`, `step_revisions` and `step_config`;
--   `Rollout.Merge` has `step`, `sort_rollout` and `rollouts_by_tag`. A slice is a list and an index
--   out of its range is `none`; the library's `sort.Slice` is an insertion sort with the code's order.
--   `Adjust` and `Positive` are lemmas on percentages, `Kept` is about the other fields, and `Steps`,
--   `Config`, `Panic`, `Valid`, `Whole`, `Order` and `Unique` hold the theorems.
-- Breaker: pkg/queue/breaker.go, which the queue proxy uses for a pod and the activator for a
--   revision. Each function of `Breaker.Defs` is what one atomic operation does to the state: a loop
--   around a compare-and-swap runs until the swap succeeds, on the state that it then read.
--   `Breaker.System` interleaves them: a world counts the goroutines at each point of `Maybe`,
--   `Reserve`, `release` and `updateCapacity`, and `Step` is one atomic operation of one of them.
--   `Words` is about the packed 64-bit word, `Invariant` has what every step keeps.
-- Throttler: pkg/activator/net/throttler.go and lb_policy.go. `Slice` and `Capacity` compute the share
--   of an activator, where a division by 0 and a slice that is out of range are `none`, as every panic
--   is. `Tracker` is a pod with its breaker, `Policy` has the load balancing policies,
--   `Infinite` the breaker without a limit, `State` the updates of a revision throttler, and `Store`
--   the map of all revision throttlers with the events that change it, one after another; `Room`,
--   `Events` and `Apart` are about these events, the other modules about the functions that they
--   name. The round robin loop runs on the number of targets as its fuel, which is how often the Go
--   loop runs.
-- Gc: pkg/reconciler/gc/gc.go with the types of pkg/gc/config.go and
--   pkg/apis/serving/v1/revision_helpers.go. `Gc.Defs.collect` returns the revisions that it deletes.
--   `nonactive_revisions` runs on fuel; the number of revisions is enough, and `collect` gives that.
-- Scaler: pkg/reconciler/autoscaling/kpa/scaler.go and kpa.go, with accessors of
--   pkg/apis/autoscaling/v1alpha1/pa_lifecycle.go and kpa/resources/decider.go. What the cluster
--   answers is the argument `Cluster`.
-- Autoscaler: pkg/autoscaler. `Autoscaler.Window` is the window of the largest value, a ring buffer
--   (aggregation/max/window.go and timewindow.go): `Spec` is the list of elements that it implements,
--   `Ring` and `Refine` relate the two, `Order` and `History` are about what is recorded over time.
--   `Autoscaler.Scaling` is one autoscaler (scaling/autoscaler.go): `scale` is a call of `Scale`, on
--   what the pod counter and the metric client answer; `Panic`, `Delay`, `Windows` and `Limits` are
--   about it.
--   `Autoscaler.Multi` has the autoscalers of all revisions (scaling/multiscaler.go), over the interface
--   `UniScaler` that the autoscaler of `Scaling` fills in `Fill`. Runners are shared by the map and by
--   their goroutines, so they stand in a store, and `Events` interleaves the methods with the ticks.
--   `Guard` and `Safe` are about panics, `Changes`, `Stored`, `Inform` and `Sign` about the watcher. A
--   tick is two events, as its lock is free between the call of `Scale` and the storing of its result.
-- Kpa: pkg/reconciler/autoscaling/kpa/kpa.go. `Kpa.Defs.reconcile_kind` is `ReconcileKind`: it takes the
--   decider from the multiscaler (`Autoscaler.Multi`), scales with it (`Scaler.Defs`), and sets the mode
--   and the activators of the serverless service. `Decider` and `Mode` are about it.
-- Reporter: pkg/activator/handler/concurrency_reporter.go. `Reporter.Defs` has the reporter's map with
--   the goroutine of every request (`Handler`) and that of the reports (`Reporting`); an `Event` is one
--   atomic operation, or one section under the lock, of one of them. The statistics stand in a store,
--   as the map and the requests share them. `Counts`, `Invariant`,
--   `Requests`, `Deletes` and `Reports` are about the references, `Totals` and `Balance` about the
--   numbers of requests.
-- Prelude: Boolean tests, lists, options, integers, strings and bits over the native numbers.
--
-- The parts meet in the breaker: a tracker of the throttler holds one, and the policies reserve on
-- it, where no other goroutine runs in between.
-- The autoscaler records its decisions in a window of the largest value, and the scaler applies them.
--
-- Not modelled: logging and metrics, the Kubernetes client and its listers (their answers are
-- arguments), the clock and random numbers (arguments), `ObserveReady` and `computeProperties` of the
-- rollout (floating point), the collection of statistics in time buckets, the messages of conditions.
-- In the autoscaler float64 is a parameter, the record `Float` of its operations, with the laws that a
-- theorem uses in `FloatLaws`. The statistics of knative.dev/networking are the parameter
-- `RequestStats` of the reporter, with what they count in `CountLaws`. The condition manager of
-- knative.dev/pkg is the parameter `mark` of `compute_status`.
-- Go's int is unbounded here where the values are percentages, counts of pods or times, which stay
-- far below 2 ^ 63; the breaker's packed word has its 64 bits, and the sign of an int32 is its bit.
pub mod Prelude
pub mod Rollout
pub mod Breaker
pub mod Throttler
pub mod Gc
pub mod Scaler
pub mod Autoscaler
pub mod Reporter
pub mod Kpa
