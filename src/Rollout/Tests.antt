-- ===== src/Rollout/Tests.antt =====
-- Runs of rollout.go on small rollouts.
use serving.Prelude.{true, ℕ, ◌+◌, ◌≤◌, ◌<◌, ◌≡◌, ◌↔◌, refl, List, [], ◌∷◌, none, some, arith, All}
use serving.Prelude.Str.{str_eq, str_lt}
use serving.Rollout.Defs.{
  valid_config, remove_oldest, continue_rollout, RevisionRollout, RolloutParams,
  ConfigurationRollout, Rollout, no_params, step_revisions, step_config, adjust_percentage, total,
  adjust_previous, start_rollout, step_adjusted, drain, write_newest, step_reversed,
}
use serving.Rollout.Merge.{
  step, step_tags, step_tag, by_tag, merge, sooner, insert_sorted, before, sort_rollout,
  rollouts_by_tag,
}
use serving.Rollout.Steps.{
  IsBalanced, IsDue, IsDone, step_each, step_revisions-IsBalanced, step_each_ends,
}
use mathlib.Core.List.{Perm, Pairwise, forall_mem-cons, not-mem-nil}
use serving.Rollout.Kept.{Keeps}
use serving.Rollout.Config.{IsGoal, step_config-IsBalanced}
use serving.Rollout.Valid.{step_config-valid_iff}
use serving.Rollout.Panic.{step_config-eq-none_iff}
use serving.Rollout.Whole.{IsTarget, IsStepped, wake, step-IsStepped}
use serving.Rollout.Unique.{IsDistinct, sort_rollout_iff}
use serving.Rollout.Order.{IsOrdered, rollouts_by_tag-sort_rollout}

abbrev rev : ℕ → ℕ → RevisionRollout
rev n p = record { revision_name = n ∷ []; percent = p }

abbrev config : ℕ → List RevisionRollout → RolloutParams → ConfigurationRollout
config p rs ps = record {
  configuration_name = 65 ∷ [];
  tag = [];
  percent = p;
  revisions = rs;
  step_params = ps;
}

abbrev stepping : RolloutParams
stepping = record { start_time = 5; next_step_time = 10; step_duration = 7; step_size = 40 }

abbrev halfway : ConfigurationRollout
halfway = config 100 (rev 1 30 ∷ rev 2 60 ∷ rev 3 10 ∷ []) stepping

abbrev settled : ConfigurationRollout
settled = config 100 (rev 1 100 ∷ []) no_params

abbrev goal : ConfigurationRollout
goal = config 100 (rev 4 100 ∷ []) no_params

abbrev begun : ConfigurationRollout
begun =
    config 100 (rev 1 99 ∷ rev 4 1 ∷ [])
      (record { start_time = 20; next_step_time = 0; step_duration = 0; step_size = 0 })

abbrev small_goal : ConfigurationRollout
small_goal = config 40 (rev 3 40 ∷ []) no_params

abbrev three_steps : List ℕ
three_steps = 10 ∷ 17 ∷ 24 ∷ []

halfway-IsBalanced : IsBalanced halfway
halfway-IsBalanced = record {
  sums = refl;
  positive = (omega arith, (omega arith, (omega arith, tt)));
}

settled-IsBalanced : IsBalanced settled
settled-IsBalanced = record { sums = refl; positive = (omega arith, tt) }

goal-IsGoal : IsGoal goal (rev 4 100)
goal-IsGoal = record { single = refl; whole = refl; serves = omega arith }

small_goal-IsGoal : IsGoal small_goal (rev 3 40)
small_goal-IsGoal = record { single = refl; whole = refl; serves = omega arith }

step_revisions-IsBalanced_example : IsBalanced (step_revisions halfway 12)
step_revisions-IsBalanced_example = step_revisions-IsBalanced halfway 12 halfway-IsBalanced

due : IsDue halfway three_steps
unfolding step_revisions step_reversed write_newest drain
due = (omega arith, (omega arith, (omega arith, tt)))

step_each_ends_example : IsDone (step_each halfway three_steps)
step_each_ends_example = step_each_ends halfway three_steps halfway-IsBalanced due (omega arith)

-- A new revision begins at 1%.
step_config_begins : step_config goal settled 20 ≡ some begun
unfolding step_config step_adjusted adjust_previous adjust_percentage start_rollout str_eq
step_config_begins = refl

step_config-IsBalanced_example : IsBalanced begun × Keeps goal begun × (total begun.revisions ≡ 100)
step_config-IsBalanced_example =
    step_config-IsBalanced goal settled (rev 4 100) 20 begun goal-IsGoal settled-IsBalanced
      step_config_begins

step_config-eq-none_iff_example :
    (step_config small_goal halfway 12 ≡ none) ↔ ((40 < 100) × (30 + 40 ≤ 100))
step_config-eq-none_iff_example =
    step_config-eq-none_iff small_goal halfway (rev 3 40) (rev 1 30) (rev 2 60 ∷ rev 3 10 ∷ []) 12
      small_goal-IsGoal halfway-IsBalanced refl

abbrev current : Rollout
current = record { configurations = goal ∷ [] }

abbrev previous : Rollout
previous = record { configurations = settled ∷ [] }

abbrev next_rollout : Rollout
next_rollout = record { configurations = begun ∷ [] }

step_begins : step ([] ∷ []) current previous 20 ≡ some (next_rollout, 0)
unfolding step step_tags step_tag by_tag merge sort_rollout step_config step_adjusted
    adjust_previous adjust_percentage start_rollout sooner str_eq
step_begins = refl

current-IsTarget : All IsTarget current.configurations
current-IsTarget = (record { revision = rev 4 100; single = refl; whole = refl; idle = refl }, tt)

step-IsStepped_example : All (IsStepped (wake 0)) next_rollout.configurations
step-IsStepped_example =
    step-IsStepped ([] ∷ []) current previous next_rollout 20 0 current-IsTarget
      (settled-IsBalanced, tt) step_begins

abbrev tagged : List ConfigurationRollout
tagged = record goal { tag = 98 ∷ [] } ∷ settled ∷ record halfway { tag = 97 ∷ [] } ∷ []

tagged-IsDistinct : IsDistinct tagged
unfolding str_eq
tagged-IsDistinct =
    Pairwise.cons
      ((forall_mem-cons (λ d. hlevel)).1
        (refl, (forall_mem-cons (λ d. hlevel)).1 (refl, λ d m. absurd (not-mem-nil m))))
      (Pairwise.cons ((forall_mem-cons (λ d. hlevel)).1 (refl, λ d m. absurd (not-mem-nil m)))
        (Pairwise.cons (λ d m. absurd (not-mem-nil m)) Pairwise.nil))

abbrev in_order : List ConfigurationRollout
in_order = settled ∷ record halfway { tag = 97 ∷ [] } ∷ record goal { tag = 98 ∷ [] } ∷ []

sort_rollout_iff_example :
    (in_order ≡ sort_rollout tagged) ↔ (IsOrdered in_order × Perm in_order tagged)
sort_rollout_iff_example = sort_rollout_iff tagged in_order tagged-IsDistinct

sorts : in_order ≡ sort_rollout tagged
unfolding sort_rollout insert_sorted before str_eq str_lt
sorts = refl

rollouts_by_tag-sort_rollout_example :
    rollouts_by_tag (record { configurations = sort_rollout tagged }) (97 ∷ [])
    ≡ by_tag (97 ∷ []) (sort_rollout tagged)
rollouts_by_tag-sort_rollout_example = rollouts_by_tag-sort_rollout (97 ∷ []) tagged

abbrev fast : RolloutParams
fast = record { start_time = 5; next_step_time = 10; step_duration = 7; step_size = 45 }

abbrev shrunk_goal : ConfigurationRollout
shrunk_goal = config 40 (rev 2 40 ∷ []) no_params

abbrev before_shrink : ConfigurationRollout
before_shrink = config 100 (rev 1 90 ∷ rev 2 10 ∷ []) fast

abbrev shrunk : ConfigurationRollout
shrunk = config 40 (rev 1 30 ∷ rev 2 10 ∷ []) fast

-- The share falls from 100% to 40% before the next step, and the step size of 45% stays.
shrinks : step_config shrunk_goal before_shrink 7 ≡ some shrunk
unfolding step_config step_adjusted adjust_previous adjust_percentage remove_oldest continue_rollout
    step_revisions str_eq
shrinks = refl

shrunk_goal-IsGoal : IsGoal shrunk_goal (rev 2 40)
shrunk_goal-IsGoal = record { single = refl; whole = refl; serves = omega arith }

before_shrink-IsBalanced : IsBalanced before_shrink
before_shrink-IsBalanced = record { sums = refl; positive = (omega arith, (omega arith, tt)) }

step_config-valid_iff_example : (valid_config shrunk ≡ true) ↔ (45 ≤ 40)
step_config-valid_iff_example =
    step_config-valid_iff shrunk_goal before_shrink (rev 2 40) 7 shrunk shrunk_goal-IsGoal
      (omega arith) before_shrink-IsBalanced shrinks
