-- ===== src/Rollout/Kept.antt =====
-- What `stepConfig` takes over from the goal: the configuration's name, its tag and its share.
use serving.Prelude.{
  ℕ, ◌-◌, ◌≡◌, refl, List, [], ◌∷◌, reverse, some, length, get_elem?, >>=-eq-some, some_eq, subst,
  Bool-cases, inl, inr, ltb, ◌||◌,
}
use serving.Prelude.Str.{str_eq}
use serving.Rollout.Defs.{
  RevisionRollout, RolloutParams, ConfigurationRollout, step_reversed, step_revisions, write_newest,
  continue_rollout, start_rollout, step_adjusted, adjust_previous, step_config,
}

-- The same configuration with the same share, whatever the revisions.
abbrev pub Keeps : ConfigurationRollout → ConfigurationRollout → Type 0
Keeps goal out =
    (out.percent ≡ goal.percent)
    × (out.configuration_name ≡ goal.configuration_name)
    × (out.tag ≡ goal.tag)

step_reversed-Keeps :
    (c : ConfigurationRollout) (now : ℕ) (rs : List RevisionRollout)
    → Keeps c (step_reversed c now rs)
unfolding step_reversed write_newest
step_reversed-Keeps c now [] = (refl, refl, refl)
step_reversed-Keeps c now (r ∷ []) = (refl, refl, refl)
step_reversed-Keeps c now (r ∷ q ∷ rs) = (refl, refl, refl)

step_revisions-Keeps : (c : ConfigurationRollout) (now : ℕ) → Keeps c (step_revisions c now)
unfolding step_revisions
step_revisions-Keeps c now =
    let h = step_reversed-Keeps c now (reverse c.revisions) in
    elim (Bool-cases (ltb now c.step_params.next_step_time || ltb (length c.revisions) 2)) [
      | inl e ↦ rw e (refl, refl, refl)
      | inr e ↦ rw e h
    ]

continue_rollout-Keeps :
    (goal : ConfigurationRollout) (ps : RolloutParams) (rs : List RevisionRollout) (now : ℕ)
    → Keeps goal (continue_rollout goal ps rs now)
unfolding continue_rollout
continue_rollout-Keeps goal ps rs now =
    let h = step_revisions-Keeps (record goal { revisions = rs; step_params = ps }) now in
    elim (Bool-cases (ltb 1 (length rs))) [
      | inr e ↦ rw e (refl, refl, refl)
      | inl e ↦ elim (Bool-cases (ltb 0 ps.step_size)) [
        | inl f ↦ rw (e, f) h
        | inr f ↦ rw (e, f) (refl, refl, refl)
      ]
    ]

step_adjusted-Keeps :
    (goal : ConfigurationRollout) (ps : RolloutParams) (pc now : ℕ) (rs : List RevisionRollout)
    (out : ConfigurationRollout)
    → step_adjusted goal ps pc now rs ≡ some out
    → Keeps goal out
unfolding step_adjusted start_rollout
step_adjusted-Keeps goal ps pc now [] out e = subst (Keeps goal) (some_eq e) (refl, refl, refl)
step_adjusted-Keeps goal ps pc now (r ∷ rs) out e =
    let (g, _, e') = >>=-eq-some (get_elem? goal.revisions 0) _ e in
    let (p, _, m) = >>=-eq-some (get_elem? (r ∷ rs) (pc - 1)) _ e' in
    elim (Bool-cases (str_eq g.revision_name p.revision_name)) [
      | inl s ↦
          subst (Keeps goal) (some_eq (rw s at m)) (continue_rollout-Keeps goal ps (r ∷ rs) now)
      | inr s ↦ subst (Keeps goal) (some_eq (rw s at m)) (refl, refl, refl)
    ]

pub step_config-Keeps :
    (goal prev : ConfigurationRollout) (now : ℕ) (out : ConfigurationRollout)
    → step_config goal prev now ≡ some out
    → Keeps goal out
unfolding step_config
step_config-Keeps goal prev now out e =
    let (q, _, e') = >>=-eq-some (adjust_previous goal.percent prev) _ e in
    step_adjusted-Keeps goal prev.step_params (length prev.revisions) now q out e'
