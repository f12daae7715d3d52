-- ===== src/Rollout/Valid.antt =====
-- Which states that `stepConfig` writes pass `Validate` when they are read again.
use serving.Prelude.{ℕ, ◌≤◌, ◌≡◌, ◌↔◌, true, some, arith}
use serving.Rollout.Defs.{RevisionRollout, ConfigurationRollout, step_config, valid_config}
use serving.Rollout.Steps.{IsBalanced}
use serving.Rollout.Kept.{step_config-Keeps}
use serving.Rollout.Config.{IsGoal, step_config-IsBalanced}

-- For a goal with one revision that has the whole share, of at most 100%, and a balanced previous
-- state: what `stepConfig` returns passes `Validate` exactly if its step size is not above the new
-- share.
pub step_config-valid_iff :
    (goal prev : ConfigurationRollout) (g : RevisionRollout) (now : ℕ) (out : ConfigurationRollout)
    → IsGoal goal g
    → goal.percent ≤ 100
    → IsBalanced prev
    → step_config goal prev now ≡ some out
    → (valid_config out ≡ true) ↔ (out.step_params.step_size ≤ goal.percent)
step_config-valid_iff goal prev g now out h le b e =
    let p = (step_config-Keeps goal prev now out e).0 in
    let s = (step_config-IsBalanced goal prev g now out h b e).0.sums in
    (ground (arith, p, s, le), ground (arith, p, s, le))
