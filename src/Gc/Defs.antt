-- ===== src/Gc/Defs.antt =====
-- The settings, the revisions and `collect`.
use serving.Prelude.{
  ℕ, zero, suc, ◌+◌, ◌-◌, Bool, true, false, ◌&&◌, not, List, [], ◌∷◌, ◌++◌, Option, none, some,
  ltb, leb, if◌then◌else◌, length,
}
use serving.Prelude.Str.{Str, str_eq}

-- `gc.Config`, where -1 (`Disabled`) is `none`.
pub record Config : Type 0 where
  pub retain_since_create_time : Option ℕ
  pub retain_since_last_active_time : Option ℕ
  pub min_non_active_revisions : ℕ
  pub max_non_active_revisions : Option ℕ

pub data RoutingState : Type 0 where
  unset pending active reserve : RoutingState

-- `preserved`: the annotation is "true" in any case. `routing_state_modified` is `none` for the zero time.
pub record Revision : Type 0 where
  pub name : Str
  pub preserved : Bool
  pub routing_state : RoutingState
  pub creation_timestamp : ℕ
  pub routing_state_modified : Option ℕ

abbrev pub is_reserve : RoutingState → Bool
is_reserve reserve = true
is_reserve _ = false

-- `isRevisionActive`; `latest` is config.Status.LatestReadyRevisionName.
unfoldable pub is_revision_active : Str → Revision → Bool
is_revision_active latest rev =
    if str_eq latest rev.name
    then true
    else if rev.preserved
    then true
    else not (is_reserve rev.routing_state)

-- `revisionLastActiveTime`
unfoldable pub revision_last_active_time : Revision → ℕ
revision_last_active_time rev = elim (rev.routing_state_modified) [
  | some t ↦ t
  | none ↦ rev.creation_timestamp
]

-- `setting != Disabled && time.Since(t) < setting`
unfoldable pub too_recent : Option ℕ → ℕ → ℕ → Bool
too_recent none now t = false
too_recent (some d) now t = ltb now (t + d)

abbrev pub is_disabled : Option ℕ → Bool
is_disabled none = true
is_disabled (some _) = false

-- `isRevisionStale`
unfoldable pub is_revision_stale : Config → ℕ → Revision → Bool
unfolding too_recent revision_last_active_time
is_revision_stale cfg now rev =
    if is_disabled cfg.retain_since_create_time && is_disabled cfg.retain_since_last_active_time
    then false
    else if too_recent cfg.retain_since_create_time now rev.creation_timestamp
    then false
    else if too_recent cfg.retain_since_last_active_time now (revision_last_active_time rev)
    then false
    else true

-- `nonactiveRevisions`: an active revision is overwritten by the last one of the rest. `rest` holds
-- the positions from `i` up to `swap`; of those the last is taken off for each active one.
unfoldable pub split_last : Revision → List Revision → List Revision × Revision
split_last r [] = ([], r)
split_last r (q ∷ qs) = let (init, last) = split_last q qs in (r ∷ init, last)

-- `revs[i] = revs[swap]` for the rest behind `i`: its last revision comes first.
unfoldable pub move_last : List Revision → List Revision
unfolding split_last
move_last [] = []
move_last (r ∷ rs) = let (init, last) = split_last r rs in last ∷ init

unfoldable pub nonactive_revisions : ℕ → Str → List Revision → List Revision
unfolding move_last
nonactive_revisions zero latest revs = []
nonactive_revisions (suc n) latest [] = []
nonactive_revisions (suc n) latest (r ∷ rs) =
    let kept = r ∷ nonactive_revisions n latest rs in
    let moved = nonactive_revisions n latest (move_last rs) in
    if is_revision_active latest r then moved else kept

unfoldable pub insert_by_time : Revision → List Revision → List Revision
insert_by_time r [] = r ∷ []
insert_by_time r (q ∷ qs) =
    let rest = q ∷ insert_by_time r qs in
    if ltb (revision_last_active_time q) (revision_last_active_time r) then rest else r ∷ q ∷ qs

-- The sort by the last active time, oldest first. `sort.Slice` leaves the order of equal times open;
-- here they keep their order.
unfoldable pub sort_by_time : List Revision → List Revision
unfolding insert_by_time revision_last_active_time
sort_by_time [] = []
sort_by_time (r ∷ rs) = insert_by_time r (sort_by_time rs)

-- The loop over the stale revisions: `room` more may go. Returns those deleted, those left, and
-- whether the room was used up.
unfoldable pub delete_stale : Config → ℕ → ℕ → List Revision → List Revision × List Revision × Bool
delete_stale cfg now room [] = ([], [], false)
delete_stale cfg now room (r ∷ rs) =
    let (d, k, full) = delete_stale cfg now room rs in
    let (d', k', full') = delete_stale cfg now (room - 1) rs in
    if not (is_revision_stale cfg now r)
    then (d, r ∷ k, full)
    else if leb room 1
    then (r ∷ [], rs, true)
    else (r ∷ d', k', full')

-- The loop that deletes the oldest revisions past the maximum.
unfoldable pub delete_oldest : ℕ → List Revision → List Revision
delete_oldest zero rs = []
delete_oldest (suc n) [] = []
delete_oldest (suc n) (r ∷ rs) = r ∷ delete_oldest n rs

-- What `collect` does with the sorted non-active revisions.
unfoldable pub delete_sorted : Config → ℕ → List Revision → List Revision
unfolding delete_stale delete_oldest is_revision_stale
delete_sorted cfg now revs =
    let (deleted, left, full) =
      delete_stale cfg now (length revs - cfg.min_non_active_revisions) revs in
    if full then deleted else elim (cfg.max_non_active_revisions) [
      | none ↦ deleted
      | some max ↦
          if leb (length left) max
          then deleted
          else (deleted ++ delete_oldest (length left - max) left)
    ]

unfoldable pub all_disabled : Config → Bool
all_disabled cfg =
    is_disabled cfg.max_non_active_revisions
    && is_disabled cfg.retain_since_create_time
    && is_disabled cfg.retain_since_last_active_time

-- `collect` on the revisions that the lister returned.
unfoldable pub collect : Config → Str → ℕ → List Revision → List Revision
unfolding nonactive_revisions sort_by_time delete_sorted all_disabled is_revision_active
collect cfg latest now revs =
    let nonactive = nonactive_revisions (length revs) latest revs in
    if all_disabled cfg
    then []
    else if leb (length revs) cfg.min_non_active_revisions
    then []
    else if leb (length nonactive) cfg.min_non_active_revisions
    then []
    else delete_sorted cfg now (sort_by_time nonactive)
