-- ===== src/Rollout/Panic.antt =====
-- Where `stepConfig` panics: `pc` is the number of revisions before `adjustPercentage` cut the list.
use serving.Prelude.{
  ℕ, ◌+◌, ◌-◌, ◌≤◌, ◌<◌, ◌≡◌, refl, ap, List, [], ◌∷◌, Option, none, some, arith, length, get_elem?,
  if◌then◌else◌, dec_lt, ◌>>=◌, ◌≢◌, ◌↔◌, get_elem?_in, get_elem?_out, dec_le,
}
use serving.Prelude.Str.{str_eq}
use serving.Rollout.Defs.{
  RevisionRollout, RolloutParams, ConfigurationRollout, total, remove_oldest, adjust_percentage,
  adjust_previous, step_adjusted, step_config, continue_rollout, start_rollout,
}
use serving.Rollout.Positive.{length-add_to_last, length-remove_oldest}
use serving.Rollout.Steps.{IsBalanced}
use serving.Rollout.Config.{IsGoal}
use serving.Rollout.Adjust.{adjust_percentage-total}

step_adjusted_out :
    (goal : ConfigurationRollout) (params : RolloutParams) (pc now : ℕ) (q : List RevisionRollout)
    → q ≢ []
    → length q ≤ pc - 1
    → step_adjusted goal params pc now q ≡ none
unfolding step_adjusted
step_adjusted_out goal params pc now [] ne h = absurd (ne refl)
step_adjusted_out goal params pc now (x ∷ xs) ne h = go (get_elem? goal.revisions 0)
  where
    e : get_elem? (x ∷ xs) (pc - 1) ≡ none
    e = get_elem?_out (x ∷ xs) (pc - 1) h

    go :
        (o : Option RevisionRollout)
        → (o >>= λ g. get_elem? (x ∷ xs) (pc - 1) >>= λ p. some (
            if str_eq g.revision_name p.revision_name
            then continue_rollout goal params (x ∷ xs) now
            else start_rollout goal g (x ∷ xs) now))
          ≡ none
    go none = refl
    go (some g) = rw e

step_adjusted_in :
    (goal : ConfigurationRollout) (g : RevisionRollout) (params : RolloutParams) (pc now : ℕ)
    (q : List RevisionRollout)
    → goal.revisions ≡ g ∷ []
    → pc - 1 < length q
    → step_adjusted goal params pc now q ≢ none
unfolding step_adjusted
step_adjusted_in goal g params pc now [] e h = absurd (omega arith)
step_adjusted_in goal g params pc now (x ∷ xs) e h =
    let (p, ep) = get_elem?_in (x ∷ xs) (pc - 1) h in rw (e, ep) (λ k. cc)

-- The share shrank by at least what the oldest revision has, so that this one is cut off.
abbrev pub IsCut : ConfigurationRollout → ConfigurationRollout → RevisionRollout → Type 0
IsCut goal prev r = (goal.percent < prev.percent) × (r.percent + goal.percent ≤ prev.percent)

length-remove_oldest_cut :
    (d : ℕ) (r : RevisionRollout) (rs : List RevisionRollout)
    → 0 < d
    → r.percent ≤ d
    → length (remove_oldest d (r ∷ rs)) ≤ length rs
unfolding remove_oldest
length-remove_oldest_cut d r rs p h = ground (arith, length-remove_oldest (d - r.percent) rs)

length-adjust_previous_cut :
    (goal prev : ConfigurationRollout) (r : RevisionRollout) (rs q : List RevisionRollout)
    → 0 < goal.percent
    → prev.revisions ≡ r ∷ rs
    → IsCut goal prev r
    → adjust_previous goal.percent prev ≡ some q
    → length q ≤ length rs
unfolding adjust_previous adjust_percentage
length-adjust_previous_cut goal prev r rs q p e c h =
    ground (arith, e, length-remove_oldest_cut (prev.percent - goal.percent) r rs)

length-adjust_previous_kept :
    (goal prev : ConfigurationRollout) (r : RevisionRollout) (rs q : List RevisionRollout)
    → 0 < goal.percent
    → prev.revisions ≡ r ∷ rs
    → ¬ IsCut goal prev r
    → adjust_previous goal.percent prev ≡ some q
    → length q ≡ length prev.revisions
unfolding adjust_previous adjust_percentage remove_oldest
length-adjust_previous_kept goal prev r rs q p e c h =
    ground (arith, e, length-add_to_last (goal.percent - prev.percent) prev.revisions q)

dec_cut : (goal prev : ConfigurationRollout) (r : RevisionRollout) → Dec (IsCut goal prev r)
dec_cut goal prev r = elim (dec_lt (goal.percent) (prev.percent)) [
  | no a ↦ no (λ k. a k.0)
  | yes a ↦ elim (dec_le (r.percent + goal.percent) (prev.percent)) [
    | no b ↦ no (λ k. b k.1)
    | yes b ↦ yes (a, b)
  ]
]

-- A configuration with revisions keeps some, since its share is not 0.
adjust_previous-total :
    (goal : ℕ) (prev : ConfigurationRollout) (r : RevisionRollout) (rs : List RevisionRollout)
    → IsBalanced prev
    → prev.revisions ≡ r ∷ rs
    → (q : List RevisionRollout) × (adjust_previous goal prev ≡ some q) × (total q ≡ goal)
unfolding adjust_previous
adjust_previous-total goal prev r rs b e =
    let (q, eq, t) = adjust_percentage-total goal prev r rs e b.sums in
    (q, ground (arith, e, eq), t)

step_config_cut :
    (goal prev : ConfigurationRollout) (g r : RevisionRollout) (rs : List RevisionRollout) (now : ℕ)
    → IsGoal goal g
    → IsBalanced prev
    → prev.revisions ≡ r ∷ rs
    → IsCut goal prev r
    → step_config goal prev now ≡ none
unfolding step_config
step_config_cut goal prev g r rs now h b e c =
    let (q, eq, t) = adjust_previous-total goal.percent prev r rs b e in
    let short = length-adjust_previous_cut goal prev r rs q h.serves e c eq in
    rw eq (
      step_adjusted_out goal prev.step_params (length prev.revisions) now q
        (λ k. absurd (omega (arith, ap total k, t, h.serves))) (omega (arith, short, ap length e)))

step_config_kept :
    (goal prev : ConfigurationRollout) (g r : RevisionRollout) (rs : List RevisionRollout) (now : ℕ)
    → IsGoal goal g
    → IsBalanced prev
    → prev.revisions ≡ r ∷ rs
    → ¬ IsCut goal prev r
    → step_config goal prev now ≢ none
unfolding step_config
step_config_kept goal prev g r rs now h b e c =
    let (q, eq, t) = adjust_previous-total goal.percent prev r rs b e in
    let same = length-adjust_previous_kept goal prev r rs q h.serves e c eq in
    rw eq (
      step_adjusted_in goal g prev.step_params (length prev.revisions) now q h.single
        (omega (arith, ap length e)))

-- For a goal with one revision that has the whole share and a balanced previous state that has
-- revisions, `stepConfig` panics exactly when the share falls by at least what the oldest revision
-- still had: the list is then shorter than `pc`, which was read before the list was cut.
pub step_config-eq-none_iff :
    (goal prev : ConfigurationRollout) (g r : RevisionRollout) (rs : List RevisionRollout) (now : ℕ)
    → IsGoal goal g
    → IsBalanced prev
    → prev.revisions ≡ r ∷ rs
    → (step_config goal prev now ≡ none)
      ↔ ((goal.percent < prev.percent) × (r.percent + goal.percent ≤ prev.percent))
step_config-eq-none_iff goal prev g r rs now h b e = (
  λ n. elim (dec_cut goal prev r) [
    | yes c ↦ c
    | no c ↦ absurd (step_config_kept goal prev g r rs now h b e c n)
  ],
  step_config_cut goal prev g r rs now h b e,
)
