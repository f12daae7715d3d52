-- ===== src/Autoscaler/Multi/Laws.antt =====
-- What the multiscaler relies on: an autoscaler that is ticked in the order of time does not panic.
use serving.Prelude.{ℕ, ◌≤◌, ◌≡◌, some}
use serving.Autoscaler.Scaling.{DeciderSpec, ScaleResult}
use serving.Autoscaler.Multi.{Decider, UniScaler}

-- `IsGood last u` is what an autoscaler keeps that had its last tick at `last` or before.
pub record UniScalerLaws {F U T : Type 0} (uni : UniScaler F U T) (time : T → ℕ)
    (IsGood : ℕ → U → Type 0) : Type 0 where
  pub created :
      (t : T) (d : Decider F) (u : U) (now : ℕ) → uni.create_scaler t d ≡ some u → IsGood now u
  pub kept : (last now : ℕ) (u : U) → last ≤ now → IsGood last u → IsGood now u
  pub updated :
      (spec : DeciderSpec F) (last : ℕ) (u : U) → IsGood last u → IsGood last (uni.update spec u)
  pub scaled :
      (t : T) (last : ℕ) (u : U)
      → last ≤ time t
      → IsGood last u
      → (u' : U) × (r : ScaleResult) × (uni.scale t u ≡ some (u', r)) × IsGood (time t) u'
