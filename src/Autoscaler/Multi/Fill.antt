-- ===== src/Autoscaler/Multi/Fill.antt =====
-- The autoscaler of Scaling, as the multiscaler has it.
use serving.Prelude.{
  ℕ, ◌≤◌, ◌≡◌, inl, inr, refl, Option, none, some, ltb, Bool-cases, some_eq, subst, ltb→lt,
}
use serving.Prelude.Int.{ℤ}
use serving.Autoscaler.Scaling.{
  Float, Autoscaler, DeciderSpec, Tick, Demand, ScaleResult, invalid_sr, update_panic, hold_pods,
  apply_demand, demand, scale, new_autoscaler, update_spec,
}
use serving.Autoscaler.Scaling.Delay.{result_of}
use serving.Autoscaler.Scaling.Windows.{
  HasWindow, HasWindow-later, new_time_window-HasWindow, delay_pods-HasWindow,
}
use serving.Autoscaler.Multi.{UniScaler}
use serving.Autoscaler.Multi.Laws.{UniScalerLaws}

abbrev count : Option ℕ → ℕ
count none = 0
count (some n) = n

module _ {F : Type 0} (f : Float F) where
  -- `New` counts no ready pods where the count is an error.
  abbrev pub autoscalers : UniScaler F (Autoscaler F) (Tick F)
  autoscalers = record {
    create_scaler = λ t d. some (new_autoscaler d.spec t.now (count t.ready));
    scale = scale f;
    update = update_spec;
  }

  abbrev pub IsDelaying : ℕ → Autoscaler F → Type 0
  IsDelaying last a = HasWindow last a.delay_window

  apply_demand-IsDelaying :
      (d : Demand) (last now : ℕ) (a : Autoscaler F)
      → last ≤ now
      → IsDelaying last a
      → (a' : Autoscaler F) × (n : ℤ) × (apply_demand d now a ≡ some (a', n)) × IsDelaying now a'
  unfolding apply_demand
  apply_demand-IsDelaying d last now a h g =
      let spec = a.decider_spec in
      let mode =
        update_panic d.over_threshold spec.stable_window now (a.panic_time, a.max_panic_pods) in
      let (desired, most) = hold_pods d mode in
      let (n, w, e, g', l) =
        delay_pods-HasWindow spec.reachable last now desired a.delay_window h g in
      (record a { panic_time = mode.0; max_panic_pods = most; delay_window = w }, n, rw e refl, g')

  scale-IsDelaying :
      (t : Tick F) (last : ℕ) (a : Autoscaler F)
      → last ≤ t.now
      → IsDelaying last a
      → (a' : Autoscaler F) × (r : ScaleResult) × (scale f t a ≡ some (a', r)) × IsDelaying t.now a'
  unfolding scale
  scale-IsDelaying t last a h g = go t.ready refl t.observed refl
    where
      later : IsDelaying t.now a
      later = HasWindow-later last t.now a.delay_window h g

      go :
          (o : Option ℕ)
          → t.ready ≡ o
          → (v : Option (F × F)) → t.observed ≡ v
          → (a' : Autoscaler F) × (r : ScaleResult) × (scale f t a ≡ some (a', r))
            × IsDelaying t.now a'
      go none k v l = (a, invalid_sr, rw (scale, k) refl, later)
      go (some ready) k none l = (a, invalid_sr, rw (scale, k, l) refl, later)
      go (some ready) k (some (stable, panic)) l =
          let (a', n, e, g') =
            apply_demand-IsDelaying (demand f a.decider_spec ready stable panic) last t.now a h g in
          (a', result_of f a.decider_spec ready panic n, rw (scale, k, l, e) refl, g')

  new_autoscaler-IsDelaying :
      (spec : DeciderSpec F) (now time ready : ℕ) → IsDelaying now (new_autoscaler spec time ready)
  unfolding new_autoscaler
  new_autoscaler-IsDelaying spec now time ready = elim (Bool-cases (ltb 0 spec.scale_down_delay)) [
    | inl e ↦
        rw e
          (new_time_window-HasWindow now spec.scale_down_delay (ltb→lt 0 spec.scale_down_delay e))
    | inr e ↦ rw e (inl refl)
  ]

  -- The autoscalers that `New` makes have what the multiscaler relies on: ticked in the order of time,
  -- and with their specification changed in between, they never panic.
  pub autoscalers-Laws : UniScalerLaws autoscalers (λ t. t.now) IsDelaying
  unfolding update_spec
  autoscalers-Laws = record {
    created = λ t d u now e.
        subst (IsDelaying now) (some_eq e)
          (new_autoscaler-IsDelaying d.spec now t.now (count t.ready));
    kept = λ last now a h g. HasWindow-later last now a.delay_window h g;
    updated = λ spec last a g. g;
    scaled = λ t last a h g. scale-IsDelaying t last a h g;
  }
