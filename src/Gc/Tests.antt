-- ===== src/Gc/Tests.antt =====
-- Runs of gc.go on five revisions, of which three are not active.
use mathlib.Core.List.{Perm}
use serving.Prelude.{ℕ, ◌≡◌, refl, false, List, [], ◌∷◌, some, arith, some_eq}
use serving.Prelude.Str.{str_eq}
use serving.Gc.Defs.{
  Config, RoutingState, pending, active, reserve, Revision, nonactive_revisions, sort_by_time,
  collect, delete_sorted, delete_stale, is_revision_active, is_revision_stale, all_disabled,
}
use serving.Gc.Active.{inactive, nonactive_revisions-perm}
use serving.Gc.Collect.{IsConfig, Divides, collect_lem}

abbrev rev : ℕ → RoutingState → ℕ → Revision
rev n s t = record {
  name = n ∷ [];
  preserved = false;
  routing_state = s;
  creation_timestamp = 0;
  routing_state_modified = some t;
}

abbrev revisions : List Revision
revisions =
    rev 1 reserve 30 ∷ rev 2 active 40 ∷ rev 3 reserve 10 ∷ rev 4 reserve 90 ∷ rev 5 pending 95 ∷ []

abbrev config : Config
config = record {
  retain_since_create_time = some 50;
  retain_since_last_active_time = some 20;
  min_non_active_revisions = 1;
  max_non_active_revisions = some 2;
}

config-IsConfig : IsConfig config
config-IsConfig m h = omega (arith, some_eq h)

-- The two stale revisions go, the oldest first.
collects_stale : collect config (5 ∷ []) 100 revisions ≡ rev 3 reserve 10 ∷ rev 1 reserve 30 ∷ []
unfolding collect nonactive_revisions sort_by_time delete_sorted delete_stale is_revision_active
    is_revision_stale all_disabled str_eq
collects_stale = refl

collect_lem_example :
    (left : List Revision) × Divides config
      (inactive (5 ∷ []) revisions)
      (collect config (5 ∷ []) 100 revisions)
      left
collect_lem_example = collect_lem config (5 ∷ []) 100 revisions config-IsConfig

nonactive_revisions-perm_example :
    Perm (nonactive_revisions 5 (5 ∷ []) revisions) (inactive (5 ∷ []) revisions)
nonactive_revisions-perm_example = nonactive_revisions-perm 5 (5 ∷ []) revisions (omega arith)
