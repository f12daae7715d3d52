-- ===== src/Rollout/Config.antt =====
-- `stepConfig` and `adjustPercentage` as a whole: the percentages, and where the code panics.
use serving.Prelude.{
  ℕ, ◌-◌, ◌<◌, ◌≡◌, refl, sym, ◌∙◌, inl, inr, List, [], ◌∷◌, reverse, some, arith, ltb, length,
  get_elem?, All, All-append, Bool-cases, if◌then◌else◌, >>=-eq-some, ◌==◌, ◌≢◌, subst, some_eq,
}
use serving.Prelude.Str.{str_eq}
use serving.Rollout.Defs.{
  RevisionRollout, RolloutParams, ConfigurationRollout, total, adjust_percentage, adjust_previous,
  take_one, drop_zeros, continue_rollout, start_rollout, step_adjusted, step_config, no_params,
}
use serving.Rollout.Adjust.{
  total-append, total-reverse, adjust_percentage-total, take_one-total, drop_zeros-total,
}
use serving.Rollout.Positive.{
  IsPositive, remove_oldest-IsPositive, add_to_last-IsPositive, drop_zeros-IsPositive,
}
use serving.Rollout.Kept.{Keeps, step_config-Keeps}
use serving.Rollout.Steps.{IsBalanced, step_revisions-IsBalanced}

adjust_percentage-IsPositive :
    (goal : ℕ) (cr : ConfigurationRollout) (q : List RevisionRollout)
    → All IsPositive cr.revisions
    → adjust_percentage goal cr ≡ some q
    → All IsPositive q
unfolding adjust_percentage
adjust_percentage-IsPositive goal cr q ps e = ground (
  arith,
  add_to_last-IsPositive (goal - cr.percent) cr.revisions q,
  remove_oldest-IsPositive (cr.percent - goal) cr.revisions ps,
)

-- The goal of `Step`: one revision, with the whole share of the configuration.
pub record IsGoal (c : ConfigurationRollout) (g : RevisionRollout) : Type 0 where
  pub single : c.revisions ≡ g ∷ []
  pub whole : g.percent ≡ c.percent
  pub serves : 0 < c.percent

IsGoal-IsBalanced :
    (c : ConfigurationRollout) (g : RevisionRollout) (p : RolloutParams)
    → IsGoal c g
    → IsBalanced (record c { step_params = p })
IsGoal-IsBalanced c g p h = record {
  sums = rw (h.single) (omega (arith, h.whole));
  positive = rw (h.single) (omega (arith, h.whole, h.serves), tt);
}

continue_rollout-IsBalanced :
    (goal : ConfigurationRollout) (g : RevisionRollout) (params : RolloutParams)
    (revs : List RevisionRollout) (now : ℕ)
    → IsGoal goal g
    → total revs ≡ goal.percent
    → All IsPositive revs
    → IsBalanced (continue_rollout goal params revs now)
unfolding continue_rollout
continue_rollout-IsBalanced goal g params revs now h t ps =
    let ret : ConfigurationRollout = record goal { revisions = revs; step_params = params } in
    let b : IsBalanced ret = record { sums = t; positive = ps } in
    elim (Bool-cases (ltb 1 (length revs))) [
      | inr e ↦ rw e (IsGoal-IsBalanced goal g no_params h)
      | inl e ↦ elim (Bool-cases (ltb 0 params.step_size)) [
        | inl f ↦ rw (e, f) (step_revisions-IsBalanced ret now b)
        | inr f ↦ rw (e, f) b
      ]
    ]

start_rollout-IsBalanced :
    (goal : ConfigurationRollout) (x : RevisionRollout) (revs : List RevisionRollout) (now : ℕ)
    → 0 < goal.percent
    → total revs ≡ goal.percent
    → IsBalanced (start_rollout goal x revs now)
unfolding start_rollout
start_rollout-IsBalanced goal x revs now h t =
    let l = drop_zeros (reverse (take_one (reverse revs))) in
    record {
      sums = omega (
        arith,
        total-append l (record x { percent = 1 } ∷ []),
        drop_zeros-total (reverse (take_one (reverse revs))),
        total-reverse (take_one (reverse revs)),
        take_one-total (reverse revs),
        total-reverse revs,
      );
      positive =
          All-append IsPositive l _ (drop_zeros-IsPositive (reverse (take_one (reverse revs))))
            (omega arith, tt);
    }

step_adjusted-IsBalanced :
    (goal : ConfigurationRollout) (g : RevisionRollout) (params : RolloutParams) (pc now : ℕ)
    (revs : List RevisionRollout) (out : ConfigurationRollout)
    → IsGoal goal g
    → (revs ≢ [] → total revs ≡ goal.percent)
    → All IsPositive revs
    → step_adjusted goal params pc now revs ≡ some out
    → IsBalanced out
unfolding step_adjusted
step_adjusted-IsBalanced goal g params pc now [] out h t ps e =
    subst IsBalanced (some_eq e) (IsGoal-IsBalanced goal g no_params h)
step_adjusted-IsBalanced goal g params pc now (r ∷ rs) out h t ps e =
    let sum : total (r ∷ rs) ≡ goal.percent = t (λ k. cc) in
    let (a, ea, e1) = >>=-eq-some (get_elem? goal.revisions 0) _ e in
    let (p, ep, e2) = >>=-eq-some (get_elem? (r ∷ rs) (pc - 1)) _ e1 in
    elim (Bool-cases (str_eq a.revision_name p.revision_name)) [
      | inl s ↦
          subst IsBalanced (some_eq (rw s at e2))
            (continue_rollout-IsBalanced goal g params (r ∷ rs) now h sum ps)
      | inr s ↦
          subst IsBalanced (some_eq (rw s at e2))
            (start_rollout-IsBalanced goal a (r ∷ rs) now h.serves sum)
    ]

-- The adjusted revisions: none if there were none, otherwise they sum to the new share.
pub adjust_previous-sum :
    (goal : ℕ) (prev : ConfigurationRollout)
    → IsBalanced prev
    → (q : List RevisionRollout) × (adjust_previous goal prev ≡ some q)
      × (q ≢ [] → total q ≡ goal)
      × All IsPositive q
unfolding adjust_previous
adjust_previous-sum goal prev b = go prev.revisions refl
  where
    go :
        (rs : List RevisionRollout)
        → prev.revisions ≡ rs
        → (q : List RevisionRollout) × ((if length prev.revisions == 0
              then some []
              else adjust_percentage goal prev)
            ≡ some q)
          × (q ≢ [] → total q ≡ goal)
          × All IsPositive q
    go [] e = ([], rw e, λ k. absurd (k refl), tt)
    go (r ∷ rs) e =
        let (q, eq, t) = adjust_percentage-total goal prev r rs e b.sums in
        (q, ground (arith, e, eq), λ k. t, adjust_percentage-IsPositive goal prev q b.positive eq)

step_config_sums :
    (goal prev : ConfigurationRollout) (g : RevisionRollout) (now : ℕ) (out : ConfigurationRollout)
    → IsGoal goal g
    → IsBalanced prev
    → step_config goal prev now ≡ some out
    → IsBalanced out
unfolding step_config
step_config_sums goal prev g now out h b e =
    let (q, eq, t, ps) = adjust_previous-sum goal.percent prev b in
    let (q', eq', e') = >>=-eq-some (adjust_previous goal.percent prev) _ e in
    let same : q ≡ q' = some_eq (sym eq ∙ eq') in
    step_adjusted-IsBalanced goal g prev.step_params (length prev.revisions) now q out h t ps
      (rw same e')

-- Whenever `stepConfig` returns, for a goal with one revision that has the whole share and a
-- balanced previous state, whichever way the share of the configuration changed and whether or not
-- a new revision began: the result is the goal's configuration, tag and share; the percentages of
-- its revisions sum to the goal's share, and none is 0%.
pub step_config-IsBalanced :
    (goal prev : ConfigurationRollout) (g : RevisionRollout) (now : ℕ) (out : ConfigurationRollout)
    → IsGoal goal g
    → IsBalanced prev
    → step_config goal prev now ≡ some out
    → IsBalanced out × Keeps goal out × (total out.revisions ≡ goal.percent)
step_config-IsBalanced goal prev g now out h b e =
    let s = step_config_sums goal prev g now out h b e in
    let k = step_config-Keeps goal prev now out e in (s, k, s.sums ∙ k.0)
