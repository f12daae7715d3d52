-- ===== src/Throttler/Store.antt =====
-- `Throttler`: the throttlers of all revisions, and the events that change them. Events come one
-- after another; the revision lister's answer at the time is part of an event: the container
-- concurrency of the revision, or `none` if there is an error.
use serving.Prelude.{ℕ, List, [], ◌∷◌, Option, none, some, if◌then◌else◌, ◌>>=◌}
use serving.Prelude.Int.{pos}
use serving.Prelude.Str.{Str, str_eq}
use serving.Breaker.Defs.{BreakerParams}
use serving.Throttler.Capacity.{revision_max_concurrency}
use serving.Throttler.State.{
  RevisionThrottler, breaker_queue_depth, new_revision_throttler, handle_update,
  handle_pub_eps_update,
}

pub record Throttler : Type 0 where
  pub revision_throttlers : List (Str × RevisionThrottler)
  pub ip_address : Str

unfoldable pub find_revision : Str → List (Str × RevisionThrottler) → Option RevisionThrottler
find_revision rev [] = none
find_revision rev ((r, rt) ∷ rs) = if str_eq r rev then some rt else find_revision rev rs

-- What changes the revision throttler that the map points to.
unfoldable pub put_revision :
    Str → RevisionThrottler → List (Str × RevisionThrottler) → List (Str × RevisionThrottler)
put_revision rev rt [] = []
put_revision rev rt ((r, old) ∷ rs) =
    let rest = put_revision rev rt rs in if str_eq r rev then (r, rt) ∷ rs else (r, old) ∷ rest

-- `delete` of the map.
unfoldable pub delete_revision :
    Str → List (Str × RevisionThrottler) → List (Str × RevisionThrottler)
delete_revision rev [] = []
delete_revision rev ((r, rt) ∷ rs) =
    let rest = delete_revision rev rs in if str_eq r rev then rest else (r, rt) ∷ rest

abbrev pub revision_params : BreakerParams
revision_params = record {
  queue_depth = pos breaker_queue_depth;
  max_concurrency = pos revision_max_concurrency;
  initial_capacity = pos 0;
}

-- `getOrCreateRevisionThrottler`: the throttler after it, and that of the revision unless the lister
-- has an error. The outer `none` is a panic.
unfoldable pub get_or_create :
    Str → Option ℕ → Throttler → Option (Throttler × Option RevisionThrottler)
get_or_create rev listed t = elim (find_revision rev t.revision_throttlers) [
  | some rt ↦ some (t, some rt)
  | none ↦ elim listed [
    | none ↦ some (t, none)
    | some cc ↦ do
      rt ← new_revision_throttler cc revision_params
      some (record t { revision_throttlers = (rev, rt) ∷ t.revision_throttlers }, some rt)
  ]
]

-- An update of the revision throttler, if there is one.
unfoldable pub update_revision :
    Str → Option ℕ → (RevisionThrottler → Option RevisionThrottler) → Throttler → Option Throttler
update_revision rev listed f t = do
  (t', o) ← get_or_create rev listed t
  elim o [
    | none ↦ some t'
    | some rt ↦ do
      rt' ← f rt
      some (record t' { revision_throttlers = put_revision rev rt' t'.revision_throttlers })
  ]

-- `revisionUpdated`, `revisionDeleted`, `handleUpdate` and `handlePubEpsUpdate`; endpoints without
-- the label of a revision have the empty name, and their addresses are sorted.
pub data Event : Type 0 where
  updated : Str → Option ℕ → Event
  deleted : Str → Event
  dests_changed : Str → Option ℕ → List Str → Str → Event
  endpoints_changed : Str → Option ℕ → List Str → Event

unfoldable pub handle_event : Event → Throttler → Option Throttler
handle_event (updated rev listed) t = do (t', o) ← get_or_create rev listed t; some t'
handle_event (deleted rev) t =
    some (record t { revision_throttlers = delete_revision rev t.revision_throttlers })
handle_event (dests_changed rev listed dests ip) t =
    update_revision rev listed (handle_update dests ip) t
handle_event (endpoints_changed [] listed eps) t = some t
handle_event (endpoints_changed (c ∷ cs) listed eps) t =
    update_revision (c ∷ cs) listed (handle_pub_eps_update eps t.ip_address) t

unfoldable pub handle_events : List Event → Throttler → Option Throttler
handle_events [] t = some t
handle_events (e ∷ es) t = handle_event e t >>= handle_events es
