-- ===== src/Rollout/Defs.antt =====
-- The data of a rollout, its validation, and the stepping of one configuration.
use serving.Prelude.{
  ℕ, ◌+◌, ◌-◌, Bool, true, false, ◌||◌, not, List, [], ◌∷◌, ◌++◌, reverse, Option, none, some, ltb,
  ◌==◌, if◌then◌else◌, length, get_elem?, ◌>>=◌,
}
use serving.Prelude.Str.{Str, str_eq}

pub record RevisionRollout : Type 0 where
  pub revision_name : Str
  pub percent : ℕ

pub record RolloutParams : Type 0 where
  pub start_time : ℕ
  pub next_step_time : ℕ
  pub step_duration : ℕ
  pub step_size : ℕ

pub record ConfigurationRollout : Type 0 where
  pub configuration_name : Str
  pub tag : Str
  pub percent : ℕ
  pub revisions : List RevisionRollout
  pub step_params : RolloutParams

pub record Rollout : Type 0 where
  pub configurations : List ConfigurationRollout

abbrev pub no_params : RolloutParams
no_params = record { start_time = 0; next_step_time = 0; step_duration = 0; step_size = 0 }

-- `tot` of `Validate`.
abbrev pub total : List RevisionRollout → ℕ
total [] = 0
total (r ∷ rs) = r.percent + total rs

-- `done` of a configuration, and `Done` of the rollout.
abbrev pub done : ConfigurationRollout → Bool
done c = ltb (length c.revisions) 2

unfoldable pub all_done : List ConfigurationRollout → Bool
all_done [] = true
all_done (c ∷ cs) = if not (done c) then false else all_done cs

-- The checks that `Validate` makes of one configuration; a natural step size is never below 0.
abbrev pub valid_config : ConfigurationRollout → Bool
valid_config c =
    if ltb 100 c.percent
    then false
    else if ltb c.percent c.step_params.step_size
    then false
    else (total c.revisions == c.percent)

unfoldable pub validate : List ConfigurationRollout → Bool
validate [] = true
validate (c ∷ cs) = if valid_config c then validate cs else false

-- The loop of `adjustPercentage` for a smaller goal: `diff` points are taken from the oldest
-- revisions, and those that are used up are cut off.
unfoldable pub remove_oldest : ℕ → List RevisionRollout → List RevisionRollout
remove_oldest diff [] = []
remove_oldest diff (r ∷ rs) =
    let rest = remove_oldest (diff - r.percent) rs in
    if diff == 0
    then r ∷ rs
    else if ltb diff r.percent
    then record r { percent = r.percent - diff } ∷ rs
    else rest

-- `cr.Revisions[len(cr.Revisions)-1].Percent += diff`
unfoldable pub add_to_last : ℕ → List RevisionRollout → Option (List RevisionRollout)
add_to_last diff [] = none
add_to_last diff (r ∷ []) = some (record r { percent = r.percent + diff } ∷ [])
add_to_last diff (r ∷ q ∷ rs) = do l ← add_to_last diff (q ∷ rs); some (r ∷ l)

-- `adjustPercentage`: the revisions of `cr` after the configuration's share became `goal`.
unfoldable pub adjust_percentage : ℕ → ConfigurationRollout → Option (List RevisionRollout)
adjust_percentage goal cr =
    if goal == 0
    then some []
    else if ltb cr.percent goal
    then add_to_last (goal - cr.percent) cr.revisions
    else if ltb goal cr.percent
    then some (remove_oldest (cr.percent - goal) cr.revisions)
    else some cr.revisions

-- The loop of `stepRevisions`, which walks from the last but one revision to the oldest. The list is
-- in that order, so its head is at `readPos`, and what is returned is what stays before `writePos`.
unfoldable pub drain : ℕ → List RevisionRollout → List RevisionRollout
drain remaining [] = []
drain remaining (r ∷ rs) =
    let rest = drain (remaining - r.percent) rs in
    if remaining == 0
    then r ∷ rs
    else if ltb remaining r.percent
    then record r { percent = r.percent - remaining } ∷ rs
    else rest

-- The newest revision with the step added, capped at the configuration's share.
abbrev pub raised : ConfigurationRollout → RevisionRollout → RevisionRollout
raised goal newest =
    let p = newest.percent + goal.step_params.step_size in
    record newest { percent = if ltb goal.percent p then goal.percent else p }

-- The write at `writePos`, and the new time or the cleared parameters. `newest` was the last
-- revision, `older` is what is left before it, newest first.
unfoldable pub write_newest :
    ConfigurationRollout → ℕ → RevisionRollout → List RevisionRollout → ConfigurationRollout
write_newest goal now newest older = record goal {
  revisions = reverse older ++ raised goal newest ∷ [];
  step_params = elim older [
    | [] ↦ no_params
    | _ ∷ _ ↦ record (goal.step_params) { next_step_time = now + goal.step_params.step_duration }
  ];
}

-- `stepRevisions` on the revisions, newest first.
unfoldable pub step_reversed :
    ConfigurationRollout → ℕ → List RevisionRollout → ConfigurationRollout
unfolding write_newest drain
step_reversed goal now [] = goal
step_reversed goal now (r ∷ []) = goal
step_reversed goal now (r ∷ q ∷ rs) =
    write_newest goal now r (drain goal.step_params.step_size (q ∷ rs))

unfoldable pub step_revisions : ConfigurationRollout → ℕ → ConfigurationRollout
unfolding step_reversed
step_revisions goal now =
    if ltb now goal.step_params.next_step_time || ltb (length goal.revisions) 2
    then goal
    else step_reversed goal now (reverse goal.revisions)

-- The backward loop of `stepConfig` that takes one point from the newest revision that has any.
-- The list is newest first.
unfoldable pub take_one : List RevisionRollout → List RevisionRollout
take_one [] = []
take_one (r ∷ rs) =
    let rest = r ∷ take_one rs in
    if ltb 0 r.percent then record r { percent = r.percent - 1 } ∷ rs else rest

-- The loop that skips the revisions at 0%.
unfoldable pub drop_zeros : List RevisionRollout → List RevisionRollout
drop_zeros [] = []
drop_zeros (r ∷ rs) = let rest = drop_zeros rs in if r.percent == 0 then rest else r ∷ rest

-- What `stepConfig` returns where no new revision has begun: the previous revisions, stepped if
-- `ObserveReady` has already set the step size.
unfoldable pub continue_rollout :
    ConfigurationRollout → RolloutParams → List RevisionRollout → ℕ → ConfigurationRollout
continue_rollout goal params revs now =
    let ret = record goal { revisions = revs; step_params = params } in
    if ltb 1 (length revs)
    then (if ltb 0 params.step_size then step_revisions ret now else ret)
    else record goal { step_params = no_params }

-- What it returns where a new revision `g` has begun.
unfoldable pub start_rollout :
    ConfigurationRollout → RevisionRollout → List RevisionRollout → ℕ → ConfigurationRollout
unfolding drop_zeros take_one
start_rollout goal g revs now = record goal {
  revisions = drop_zeros (reverse (take_one (reverse revs))) ++ record g { percent = 1 } ∷ [];
  step_params = record no_params { start_time = now };
}

-- The rest of `stepConfig` for the adjusted revisions. `pc` was read before the adjustment.
unfoldable pub step_adjusted :
    ConfigurationRollout
    → RolloutParams
    → ℕ
    → ℕ
    → List RevisionRollout
    → Option ConfigurationRollout
step_adjusted goal params pc now [] = some (record goal { step_params = no_params })
step_adjusted goal params pc now (r ∷ rs) = do
  g ← get_elem? goal.revisions 0
  p ← get_elem? (r ∷ rs) (pc - 1)
  some (
      if str_eq g.revision_name p.revision_name
      then continue_rollout goal params (r ∷ rs) now
      else start_rollout goal g (r ∷ rs) now)

-- `if len(prev.Revisions) > 0 { adjustPercentage(...) }`
unfoldable pub adjust_previous : ℕ → ConfigurationRollout → Option (List RevisionRollout)
adjust_previous goal prev =
    if length prev.revisions == 0 then some [] else adjust_percentage goal prev

unfoldable pub step_config :
    ConfigurationRollout → ConfigurationRollout → ℕ → Option ConfigurationRollout
step_config goal prev now = do
  revs ← adjust_previous goal.percent prev
  step_adjusted goal prev.step_params (length prev.revisions) now revs
