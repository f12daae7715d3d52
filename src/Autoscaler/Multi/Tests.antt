-- ===== src/Autoscaler/Multi/Tests.antt =====
-- Runs of the multiscaler.
use serving.Prelude.{
  ℕ, ◌*◌, ◌≡◌, ◌≢◌, ◌⊎◌, ◌↔◌, inl, refl, true, false, List, [], ◌∷◌, none, some, arith, ◌>>=◌,
}
use serving.Prelude.Int.{ℤ, pos, negsuc}
use serving.Prelude.Str.{Str, str_eq}
use serving.Prelude.Assoc.{lookup}
use serving.Autoscaler.Window.{second}
use serving.Autoscaler.Samples.{nat_float, spec, at_second, panicking}
use serving.Autoscaler.Scaling.{
  Autoscaler, Tick, ScaleResult, scale, apply_demand, demand, desired_pods, excess_burst_capacity,
  update_panic, hold_pods, delay_pods,
}
use serving.Autoscaler.Multi.{
  new_multiscaler, watch, Decider, Status, Runner, MultiScaler, create_runner, initial_status,
  scale_runner, create, tick, publish, update_latest_scale, same_sign,
}
use serving.Autoscaler.Multi.Events.{
  Event, created, deleted, ticked, published, handle, handle_events,
}
use serving.Autoscaler.Multi.Guard.{IsGuarded}
use serving.Autoscaler.Multi.Safe.{handle_events-IsGuarded}
use serving.Autoscaler.Multi.Changes.{Told}
use serving.Autoscaler.Multi.Inform.{handle_events-Told}
use serving.Autoscaler.Multi.Sign.{is_negative, update_latest_scale_iff}
use serving.Autoscaler.Multi.Fill.{autoscalers, IsDelaying, autoscalers-Laws}

abbrev key : Str
key = 1 ∷ []

abbrev other : Str
other = 2 ∷ []

abbrev decider : Str → ℤ → Decider ℕ
decider k n = record {
  key = k;
  spec = spec;
  status = record { desired_scale = n; excess_burst_capacity = pos 0 };
}

abbrev time : Tick ℕ → ℕ
time t = t.now

abbrev empty : MultiScaler ℕ (Autoscaler ℕ)
empty = record { scalers = []; runners = []; watched = true }

-- The watcher can be set once.
watch-new_multiscaler : watch (new_multiscaler {F = ℕ} {U = Autoscaler ℕ}) ≡ some empty
unfolding watch
watch-new_multiscaler = refl

watch-empty : watch empty ≡ none
unfolding watch
watch-empty = refl

abbrev Ev : Type 0
Ev = Event ℕ (Tick ℕ)

-- A tick after the runner was deleted, and its result.
abbrev life : List Ev
life =
    created (decider key (pos 0)) (at_second 100 10)
    ∷ ticked 0 (at_second 102 10)
    ∷ deleted key
    ∷ published 0
    ∷ created (decider key (pos 0)) (at_second 102 10)
    ∷ ticked 1 (at_second 104 10)
    ∷ []

handle_events-IsGuarded_example :
    (m : MultiScaler ℕ (Autoscaler ℕ)) × (keys : List Str) × (handle_events nat_float
        (autoscalers nat_float)
        life
        empty
      ≡ some (m, keys))
    × IsGuarded nat_float (autoscalers nat_float) time (IsDelaying nat_float) (104 * second) m
handle_events-IsGuarded_example =
    handle_events-IsGuarded nat_float (autoscalers nat_float) time (IsDelaying nat_float)
      (autoscalers-Laws nat_float) life 0 empty (record { entries = tt; good = tt })
      (omega arith, (omega arith, (omega arith, (omega arith, (omega arith, (omega arith, tt))))))

-- Eight pods are decided for the key.
abbrev runner : Runner ℕ (Autoscaler ℕ)
runner = record {
  scaler = panicking;
  decider = decider key (pos 8);
  stopped = false;
  metric_key = key;
  pending = none;
}

abbrev running : MultiScaler ℕ (Autoscaler ℕ)
running = record { scalers = (key, 0) ∷ []; runners = runner ∷ []; watched = true }

abbrev ticks : List Ev
ticks =
    ticked 0 (at_second 102 90)
    ∷ created (decider other (pos 0)) (at_second 102 10)
    ∷ published 0
    ∷ []

handle_events-Told_example :
    (m : MultiScaler ℕ (Autoscaler ℕ)) × (keys : List Str) × (handle_events nat_float
        (autoscalers nat_float)
        ticks
        running
      ≡ some (m, keys))
    × Told m key keys (decider key (pos 8))
unfolding str_eq lookup
handle_events-Told_example =
    handle_events-Told nat_float (autoscalers nat_float) time (IsDelaying nat_float)
      (autoscalers-Laws nat_float) ticks (100 * second) running key (decider key (pos 8))
      (record {
        entries = (
          record { runner = runner; found = refl; running = refl; own = refl; named = refl },
          tt,
        );
        good = (inl refl, tt);
      })
      (omega arith, (omega arith, (omega arith, tt))) (refl, (refl, (refl, tt))) refl
      (record { id = 0; runner = runner; at = refl; found = refl; decides = refl })

-- Nine pods now: the watcher gets the key.
ticks_inform :
    (do (m, keys) ← handle_events nat_float (autoscalers nat_float) ticks running; some keys)
    ≡ some (key ∷ [])
unfolding handle_events handle tick scale_runner scale apply_demand demand desired_pods
    excess_burst_capacity update_panic hold_pods delay_pods create create_runner initial_status
    publish update_latest_scale same_sign lookup str_eq
ticks_inform = refl

abbrev negative : Status
negative = record { desired_scale = pos 3; excess_burst_capacity = negsuc 4 }

abbrev spare : ScaleResult
spare = record { desired_pod_count = pos 3; excess_burst_capacity = pos 2; scale_valid = true }

update_latest_scale_iff_example :
    let (s, news) = update_latest_scale spare negative in
    (s.desired_scale ≡ pos 3)
    × (s.excess_burst_capacity ≡ pos 2)
    × ((news ≡ true) ↔ ((pos 3 ≢ pos 3) ⊎ (is_negative (negsuc 4) ≢ is_negative (pos 2))))
update_latest_scale_iff_example =
    update_latest_scale_iff spare negative (omega arith, omega arith) (omega arith, omega arith)
