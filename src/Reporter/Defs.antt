-- ===== src/Reporter/Defs.antt =====
-- The reporter with the goroutines of its requests, one atomic operation or one section under the lock
-- after another. The statistics of a revision are shared by the map and the requests, so they are in a
-- store and the map has their positions. `netstats.RequestStats` is a parameter. What the metrics
-- backend gets, and the channel that messages are sent on, are left out.
use serving.Prelude.{
  ℕ, zero, suc, Bool, true, false, List, [], ◌∷◌, ◌++◌, Option, none, some, if◌then◌else◌, length,
  get_elem?, set, ◌>>=◌,
}
use serving.Prelude.Int.{ℤ, pos, negsuc, ◌+ℤ◌, ◌-ℤ◌}
use serving.Prelude.Str.{Str}
use serving.Prelude.Assoc.{lookup, remove}

-- `RequestStatsReport`: the average concurrency, and the number of requests.
pub record Report (F : Type 0) : Type 0 where
  pub average_concurrency : F
  pub request_count : ℤ

-- `RequestStats` with the operations on float64 that are used of its averages.
pub record RequestStats (F S : Type 0) : Type 0 where
  pub new : ℕ → S
  pub handle_in : ℕ → S → S
  pub handle_out : ℕ → S → S
  pub report : ℕ → S → S × Report F
  pub is_zero : F → Bool
  pub less_at_least_0 : F → ℕ → F
  pub one : F

-- `StatMessage`, without the name of the pod.
pub record StatMessage (F : Type 0) : Type 0 where
  pub key : Str
  pub average_concurrent_requests : F
  pub request_count : ℤ

-- `revisionStats`
pub record RevisionStats (S : Type 0) : Type 0 where
  pub stats : S
  pub first_request : ℕ
  pub refs : ℤ

-- Where the goroutine of a request is, in `getOrCreateStat` after the map did not have the key, in
-- `handleRequestIn` with the statistics, in the next handler, in `handleRequestOut` before the
-- reference is dropped, or past that.
pub data Handler : Type 0 where
  missed : Str → Handler
  entering : Str → ℕ → Handler
  serving_request : Str → ℕ → Handler
  leaving : Str → ℕ → Handler
  finished : Handler

-- Where the goroutine of the reports is: between two reports, in `computeReport` with the keys to look
-- at and toDelete, or before the deletions.
pub data Reporting : Type 0 where
  idle : Reporting
  computing : List (Str × ℕ) → List Str → Reporting
  deleting : List Str → Reporting

-- The read lock is held.
abbrev pub is_computing : Reporting → Bool
is_computing idle = false
is_computing (computing todo dels) = true
is_computing (deleting dels) = false

-- `ConcurrencyReporter` with the goroutines.
pub record Reporter (S : Type 0) : Type 0 where
  pub stats : List (Str × ℕ)
  pub objects : List (RevisionStats S)
  pub handlers : List Handler
  pub reporting : Reporting

module _ {S : Type 0} where
  -- stat.refs.Add
  abbrev pub add_ref : ℤ → RevisionStats S → RevisionStats S
  add_ref n s = record s { refs = s.refs +ℤ n }

  -- A change of the statistics that a pointer is to.
  abbrev pub modify :
      (RevisionStats S → RevisionStats S) → ℕ → List (RevisionStats S) → List (RevisionStats S)
  modify f i [] = []
  modify f zero (s ∷ ss) = f s ∷ ss
  modify f (suc i) (s ∷ ss) = s ∷ modify f i ss

  abbrev pub with_object : (RevisionStats S → RevisionStats S) → ℕ → Reporter S → Reporter S
  with_object f id r = record r { objects = modify f id r.objects }

  abbrev pub with_handler : ℕ → Handler → Reporter S → Reporter S
  with_handler i h r = record r { handlers = set r.handlers i h }

  -- A request comes in: the section of `getOrCreateStat` under the read lock.
  unfoldable pub arrive : Str → Reporter S → Reporter S
  arrive key r = elim (lookup key r.stats) [
    | none ↦ record r { handlers = r.handlers ++ (missed key ∷ []) }
    | some id ↦ record (with_object (add_ref (pos 1)) id r) {
      handlers = r.handlers ++ (entering key id ∷ []);
    }
  ]

module _ {F S : Type 0} (rs : RequestStats F S) where
  -- The statistics of a new key.
  abbrev pub new_stats : ℕ → RevisionStats S
  new_stats now = record { stats = rs.new now; first_request = 1; refs = pos 1 }

  abbrev pub first_message : Str → StatMessage F
  first_message key = record {
    key = key;
    average_concurrent_requests = rs.one;
    request_count = pos 1;
  }

  -- The section of `getOrCreateStat` under the lock, of the request `i`.
  unfoldable pub create : ℕ → Str → ℕ → Reporter S → Reporter S × List (StatMessage F)
  create i key now r = elim (lookup key r.stats) [
    | some id ↦ (with_handler i (entering key id) (with_object (add_ref (pos 1)) id r), [])
    | none ↦
        let id = length r.objects in
        (
          with_handler i (entering key id) (record r {
            stats = (key, id) ∷ r.stats;
            objects = r.objects ++ (new_stats now ∷ []);
          }),
          first_message key ∷ [],
        )
  ]

  -- stat.stats.HandleEvent
  abbrev pub event_in : ℕ → RevisionStats S → RevisionStats S
  event_in now s = record s { stats = rs.handle_in now s.stats }

  abbrev pub event_out : ℕ → RevisionStats S → RevisionStats S
  event_out now s = record s { stats = rs.handle_out now s.stats }

  -- The next operation of the request `i`, at a time; under the lock only if nobody has the read lock.
  unfoldable pub act_as : Handler → ℕ → ℕ → Reporter S → Reporter S × List (StatMessage F)
  unfolding create
  act_as (missed key) i now r = if is_computing r.reporting then (r, []) else create i key now r
  act_as (entering key id) i now r =
      (with_handler i (serving_request key id) (with_object (event_in now) id r), [])
  act_as (serving_request key id) i now r =
      (with_handler i (leaving key id) (with_object (event_out now) id r), [])
  act_as (leaving key id) i now r =
      (with_handler i finished (with_object (add_ref (negsuc 0)) id r), [])
  act_as finished i now r = (r, [])

  unfoldable pub act : ℕ → ℕ → Reporter S → Reporter S × List (StatMessage F)
  unfolding act_as
  act i now r = elim (get_elem? r.handlers i) [ none ↦ (r, []) | some h ↦ act_as h i now r ]

  -- What `computeReport` does with one revision: the statistics after it, the message, and whether the
  -- key goes to toDelete.
  unfoldable pub compute_one : Str → ℕ → RevisionStats S → RevisionStats S × StatMessage F × Bool
  compute_one key now s =
      let (stats, report) = rs.report now s.stats in
      (
        record s { stats = stats; first_request = 0 },
        record {
          key = key;
          average_concurrent_requests =
              rs.less_at_least_0 report.average_concurrency s.first_request;
          request_count = report.request_count -ℤ pos s.first_request;
        },
        rs.is_zero report.average_concurrency,
      )

-- stat.refs.Load() == 0
abbrev pub no_refs : ℤ → Bool
no_refs (pos zero) = true
no_refs (pos (suc n)) = false
no_refs (negsuc n) = false

-- The deletions of `report`, under the lock; `none` is a nil pointer.
unfoldable pub delete_idle :
    {S : Type 0} → List Str → List (RevisionStats S) → List (Str × ℕ) → Option (List (Str × ℕ))
delete_idle [] objects stats = some stats
delete_idle (key ∷ keys) objects stats = do
  id ← lookup key stats
  s ← get_elem? objects id
  delete_idle keys objects (if no_refs s.refs then remove key stats else stats)

module _ {F S : Type 0} (rs : RequestStats F S) where
  -- The next operation of the goroutine of the reports.
  unfoldable pub report_step :
      Reporting → ℕ → Reporter S → Option (Reporter S × List (StatMessage F))
  unfolding compute_one delete_idle
  report_step idle now r = some (record r { reporting = computing r.stats [] }, [])
  report_step (computing [] dels) now r = some (record r { reporting = deleting dels }, [])
  report_step (computing ((key, id) ∷ todo) dels) now r = do
    s ← get_elem? r.objects id
    (let (s', message, unused) = compute_one rs key now s in
        some (
          record r {
            objects = set r.objects id s';
            reporting = computing todo (if unused then dels ++ (key ∷ []) else dels);
          },
          message ∷ [],
        ))
  report_step (deleting dels) now r = do
    stats ← delete_idle dels r.objects r.stats
    some (record r { stats = stats; reporting = idle }, [])

-- What happens next: a request comes in, the goroutine of a request or that of the reports goes on.
pub data Event : Type 0 where
  arrives : Str → Event
  acts : ℕ → ℕ → Event
  reports : ℕ → Event

module _ {F S : Type 0} (rs : RequestStats F S) where
  -- The state after it, with the messages; `none` is a nil pointer.
  unfoldable pub step : Event → Reporter S → Option (Reporter S × List (StatMessage F))
  unfolding arrive act report_step
  step (arrives key) r = some (arrive key r, [])
  step (acts i now) r = some (act rs i now r)
  step (reports now) r = report_step rs r.reporting now r

  unfoldable pub run : List Event → Reporter S → Option (Reporter S × List (StatMessage F))
  run [] r = some (r, [])
  run (e ∷ es) r = do
    (r', messages) ← step e r
    (r'', more) ← run es r'
    some (r'', messages ++ more)
