-- ===== src/Kpa/Tests.antt =====
-- Runs of `ReconcileKind`, with ℕ in place of float64.
use serving.Prelude.{
  ℕ, ◌≡◌, ◌⊎◌, refl, Bool, true, false, ◌&&◌, [], ◌∷◌, Option, none, some, ◌==◌, ==_iff, arith,
  ◌>>=◌,
}
use serving.Prelude.Int.{ℤ, pos}
use serving.Prelude.Str.{str_eq, str_eq→eq}
use serving.Prelude.Assoc.{Entries, lookup}
use serving.Autoscaler.Samples.{nat_float, spec, at_second, panicking}
use serving.Autoscaler.Scaling.{DeciderSpec, Autoscaler as AutoscalerOf}
use serving.Autoscaler.Multi.{
  Decider, Runner, MultiScaler, is_eq_ℤ, get, get_runner, update, initial_status,
}
use serving.Autoscaler.Multi.Guard.{Live}
use serving.Autoscaler.Multi.Fill.{autoscalers}
use serving.Scaler.Samples.{revision, config, cluster}
use serving.Scaler.Defs.{
  Activity, Reason, Status, scale, scale_bounds, effective_min, apply_bounds, handle_scale_to_zero,
  apply_decision, get_initial_scale,
}
use serving.Kpa.Defs.{
  Mode, serve, Answers, Reconciled, compute_num_activators, choose_mode, with_decider,
  update_decider, reconcile_decider, reconcile_kind,
}
use serving.Kpa.Decider.{Leaves, reconcile_decider_lem}
use serving.Kpa.Mode.{Waits, Decides, reconcile_kind_lem}

and_eq : (x y : Bool) → (x && y) ≡ true → (x ≡ true) × (y ≡ true)
and_eq x y h = ground (arith, h)

eq_lem : (a b : ℤ) → is_eq_ℤ a b ≡ true → a ≡ b
eq_lem a b h = ground (arith, h)

abbrev same_bool : Bool → Bool → Bool
same_bool true b = b
same_bool false true = false
same_bool false false = true

same_bool_lem : (a b : Bool) → same_bool a b ≡ true → a ≡ b
same_bool_lem a b h = ground (arith, h)

abbrev same_spec : DeciderSpec ℕ → DeciderSpec ℕ → Bool
same_spec a b =
    (a.max_scale_up_rate == b.max_scale_up_rate)
    && ((a.max_scale_down_rate == b.max_scale_down_rate)
        && ((a.target_value == b.target_value)
            && ((a.total_value == b.total_value)
                && ((a.target_burst_capacity == b.target_burst_capacity)
                    && ((a.activator_capacity == b.activator_capacity)
                        && ((a.panic_threshold == b.panic_threshold)
                            && ((a.stable_window == b.stable_window)
                                && ((a.scale_down_delay == b.scale_down_delay)
                                    && (is_eq_ℤ a.initial_scale b.initial_scale
                                        && (same_bool a.reachable b.reachable
                                            && is_eq_ℤ a.activation_scale
                                                b.activation_scale))))))))))

same_spec_lem : (a b : DeciderSpec ℕ) → same_spec a b ≡ true → a ≡ b
same_spec_lem a b h =
    let (h1, t1) = and_eq (a.max_scale_up_rate == b.max_scale_up_rate) _ h in
    let (h2, t2) = and_eq (a.max_scale_down_rate == b.max_scale_down_rate) _ t1 in
    let (h3, t3) = and_eq (a.target_value == b.target_value) _ t2 in
    let (h4, t4) = and_eq (a.total_value == b.total_value) _ t3 in
    let (h5, t5) = and_eq (a.target_burst_capacity == b.target_burst_capacity) _ t4 in
    let (h6, t6) = and_eq (a.activator_capacity == b.activator_capacity) _ t5 in
    let (h7, t7) = and_eq (a.panic_threshold == b.panic_threshold) _ t6 in
    let (h8, t8) = and_eq (a.stable_window == b.stable_window) _ t7 in
    let (h9, t9) = and_eq (a.scale_down_delay == b.scale_down_delay) _ t8 in
    let (h10, t10) = and_eq (is_eq_ℤ a.initial_scale b.initial_scale) _ t9 in
    let (h11, h12) = and_eq (same_bool a.reachable b.reachable) _ t10 in
    let e1 = (==_iff _ _).0 h1 in
    let e2 = (==_iff _ _).0 h2 in
    let e3 = (==_iff _ _).0 h3 in
    let e4 = (==_iff _ _).0 h4 in
    let e5 = (==_iff _ _).0 h5 in
    let e6 = (==_iff _ _).0 h6 in
    let e7 = (==_iff _ _).0 h7 in
    let e8 = (==_iff _ _).0 h8 in
    let e9 = (==_iff _ _).0 h9 in
    let e10 = eq_lem a.initial_scale b.initial_scale h10 in
    let e11 = same_bool_lem a.reachable b.reachable h11 in
    let e12 = eq_lem a.activation_scale b.activation_scale h12 in cc

abbrev same : Decider ℕ → Decider ℕ → Bool
same a b =
    str_eq a.key b.key
    && (same_spec a.spec b.spec
        && (is_eq_ℤ a.status.desired_scale b.status.desired_scale
            && is_eq_ℤ a.status.excess_burst_capacity b.status.excess_burst_capacity))

same_lem : (a b : Decider ℕ) → same a b ≡ true → a ≡ b
same_lem a b h =
    let (h1, t1) = and_eq (str_eq a.key b.key) _ h in
    let (h2, t2) = and_eq (same_spec a.spec b.spec) _ t1 in
    let (h3, h4) = and_eq (is_eq_ℤ a.status.desired_scale b.status.desired_scale) _ t2 in
    let e1 = str_eq→eq a.key b.key h1 in
    let e2 = same_spec_lem a.spec b.spec h2 in
    let e3 = eq_lem a.status.desired_scale b.status.desired_scale h3 in
    let e4 = eq_lem a.status.excess_burst_capacity b.status.excess_burst_capacity h4 in cc

abbrev mark : Activity → Reason → Status → Status
mark a r s = record s { activity = a }

-- Eight pods are decided, with five requests of burst capacity to spare.
abbrev decided : Decider ℕ
decided = record {
  key = 1 ∷ [];
  spec = spec;
  status = record { desired_scale = pos 8; excess_burst_capacity = pos 5 };
}

-- The stable window of the desired one is shorter.
abbrev desired : Decider ℕ
desired = record {
  key = 1 ∷ [];
  spec = record spec { stable_window = 30 };
  status = record { desired_scale = pos 0; excess_burst_capacity = pos 0 };
}

abbrev runner : Runner ℕ (AutoscalerOf ℕ)
runner = record {
  scaler = panicking;
  decider = decided;
  stopped = false;
  metric_key = 1 ∷ [];
  pending = none;
}

abbrev deciders : MultiScaler ℕ (AutoscalerOf ℕ)
deciders = record { scalers = (1 ∷ [], 0) ∷ []; runners = runner ∷ []; watched = true }

deciders-Live : Entries (Live deciders.runners) deciders.scalers
deciders-Live =
    (record { runner = runner; found = refl; running = refl; own = refl; named = refl }, tt)

abbrev answers : Answers
answers = record {
  has_private_service = true;
  reconcile_sks = λ mode n. some true;
  metric_ok = true;
  ready_pods = some 4;
}

abbrev reconciled : MultiScaler ℕ (AutoscalerOf ℕ) × Option Reconciled
reconciled =
    reconcile_kind nat_float (autoscalers nat_float) same mark revision config cluster answers
      (at_second 100 10) desired deciders

abbrev mode_and_activators : Option Reconciled → Option (Mode × ℤ)
mode_and_activators o = do r ← o; some (r.mode, r.activators)

-- Eight pods are wanted, and four pods need two activators.
reconciled-serve : mode_and_activators (reconciled.1) ≡ some (serve, pos 2)
unfolding reconcile_kind reconcile_decider update_decider with_decider choose_mode
    compute_num_activators get get_runner update lookup str_eq scale scale_bounds effective_min
    apply_bounds handle_scale_to_zero apply_decision get_initial_scale
reconciled-serve = refl

reconcile_decider_lem_example :
    let o =
      reconcile_decider nat_float
        (autoscalers nat_float)
        same
        (at_second 100 10)
        desired
        deciders in
    ((d : Decider ℕ) × (get (1 ∷ []) deciders ≡ some d)
      × Leaves nat_float (autoscalers nat_float) same same_lem desired d.status o)
    ⊎ (((get (1 ∷ []) deciders ≡ none)
          × ((autoscalers nat_float).create_scaler (at_second 100 10) desired ≡ none)
          × (o ≡ (deciders, none)))
        ⊎ ((get (1 ∷ []) deciders ≡ none)
            × Leaves nat_float
                (autoscalers nat_float)
                same
                same_lem
                desired
                (initial_status nat_float
                  (autoscalers nat_float)
                  (record spec { stable_window = 30 }))
                o))
reconcile_decider_lem_example =
    reconcile_decider_lem nat_float (autoscalers nat_float) same same_lem (at_second 100 10) desired
      deciders deciders-Live

reconcile_kind_lem_example :
    ((true ≡ false)
      × Waits nat_float
          (autoscalers nat_float)
          same
          same_lem
          mark
          revision
          config
          cluster
          answers
          deciders
          reconciled)
    ⊎ ((true ≡ true)
        × (((get (1 ∷ []) deciders ≡ none)
              × ((autoscalers nat_float).create_scaler (at_second 100 10) desired ≡ none)
              × (reconciled ≡ (deciders, none)))
            ⊎ Decides nat_float
                (autoscalers nat_float)
                same
                same_lem
                mark
                revision
                config
                cluster
                answers
                desired
                reconciled))
reconcile_kind_lem_example =
    reconcile_kind_lem nat_float (autoscalers nat_float) same same_lem mark revision config cluster
      answers (at_second 100 10) desired deciders deciders-Live
