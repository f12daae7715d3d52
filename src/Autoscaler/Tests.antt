-- ===== src/Autoscaler/Tests.antt =====
-- Runs of the max window and of the autoscaler, with ℕ in place of float64.
use serving.Prelude.{
  ℕ, ◌*◌, ◌≡◌, ◌⊎◌, inl, refl, true, false, List, [], ◌∷◌, none, some, ltb, ◌&&◌, length, arith,
  All, ◌>>=◌,
}
use serving.Prelude.Int.{pos, ◌≤ℤ◌, ltb_ℤ}
use serving.Autoscaler.Window.{
  Entry, Window, no_entry, second, TimeWindow, new_window, remove_lower, remove_old, merge_last,
  write_last, record_value, current, record_time, current_time,
}
use serving.Autoscaler.Window.Spec.{largest, add_value}
use serving.Autoscaler.Window.Ring.{IsRing, contents}
use serving.Autoscaler.Window.Refine.{record_value_refines}
use serving.Autoscaler.Window.History.{recorded, recorded-largest}
use serving.Autoscaler.Samples.{nat_float, spec, at_second, panicking}
use serving.Autoscaler.Scaling.{
  Tick, Autoscaler, ScaleResult, desired_pods, demand, excess_burst_capacity, update_panic,
  hold_pods, delay_pods, apply_demand, scale, max_scale_up, max_scale_down, pods_for, tick_interval,
}
use serving.Autoscaler.Scaling.Delay.{Delayed, Agrees, scale_delays}
use serving.Autoscaler.Scaling.Panic.{run, Panicking, AtLeast, panic_persists}
use serving.Autoscaler.Scaling.Limits.{FloatLaws, desired_pods-limits}

abbrev entry : ℕ → ℕ → Entry
entry v i = record { value = pos v; index = i }

-- Newest first: 4 at the index 9 and at 7, 6 at 5 and 8 at 3.
abbrev history : List Entry
history = entry 4 9 ∷ entry 4 7 ∷ entry 6 5 ∷ entry 8 3 ∷ []

-- In a window of 5 indexes the 8 is out of date at 9, and the first 4 is not needed.
recorded-history :
    recorded 5 history
    ≡ some (record {
      maxima = entry 8 3 ∷ entry 6 5 ∷ entry 4 9 ∷ no_entry ∷ no_entry ∷ [];
      first = 1;
      len = 2;
    })
unfolding recorded record_value new_window remove_lower remove_old merge_last write_last
recorded-history = refl

recorded-largest_example :
    (m : Window) × (recorded 5 history ≡ some m) × (current m ≡ largest 5 9 history)
recorded-largest_example =
    recorded-largest 5 (entry 4 9) (entry 4 7 ∷ entry 6 5 ∷ entry 8 3 ∷ []) (omega arith)
      (omega arith, (omega arith, (omega arith, tt)))

-- The oldest element is at 2, the next one at 0.
abbrev ring : Window
ring = record { maxima = entry 3 7 ∷ no_entry ∷ entry 5 6 ∷ []; first = 2; len = 2 }

record_value_refines_example :
    (m : Window) × (record_value 8 (pos 4) ring ≡ some m)
    × IsRing m
    × (length m.maxima ≡ 3)
    × (contents m ≡ add_value 3 8 (pos 4) (contents ring))
record_value_refines_example =
    record_value_refines 7 8 (pos 4) ring (record { first_in = omega arith; len_in = omega arith })
      (record {
        descending = (((omega arith, refl), tt), (tt, tt));
        before = (omega arith, (omega arith, tt));
        recent = (refl, (refl, tt));
      })
      (omega arith)

abbrev AnyNumber : ℕ → Type 0
AnyNumber n = n ≡ n

nat_float-FloatLaws : FloatLaws nat_float AnyNumber AnyNumber
nat_float-FloatLaws = record {
  fmin_num = λ a b m n. refl;
  fmin_right = λ a b m n. ground arith;
  fmin_above = λ a b c m n h k. ground (arith, h, k);
  fmax_num = λ a b m n. refl;
  fmax_right = λ a b m n. ground arith;
  fits_num = λ a m. refl;
  fits_between = λ a r b u m n h k. refl;
  to_int32_mono = λ a b m n h. ground (arith, h);
}

-- Four pods are ready; 70 in both windows would be 7 pods, 10 would be 1.
desired_pods_runs :
    (desired_pods nat_float spec 4 70 ≡ pos 7)
    × (desired_pods nat_float spec 4 10 ≡ pos 2)
    × (desired_pods nat_float spec 4 900 ≡ pos 40)
unfolding desired_pods
desired_pods_runs = (refl, refl, refl)

desired_pods-limits_example :
    let n = desired_pods nat_float spec 4 900 in
    (pos (max_scale_down nat_float spec 4) ≤ℤ n)
    × ((n ≤ℤ pos (max_scale_up nat_float spec 4)) ⊎ (n ≡ spec.activation_scale))
    × (((ltb_ℤ (pos 1) spec.activation_scale && ltb 0 (pods_for nat_float spec 900)) ≡ false)
        ⊎ (spec.activation_scale ≤ℤ n))
desired_pods-limits_example =
    desired_pods-limits nat_float AnyNumber AnyNumber nat_float-FloatLaws spec 4 900 refl refl refl
      refl

abbrev panic_ticks : List (Tick ℕ)
panic_ticks = at_second 102 10 ∷ at_second 104 90 ∷ at_second 160 10 ∷ []

panic_persists_example :
    (b : Autoscaler ℕ) × (rs : List ScaleResult) × (run nat_float panic_ticks panicking
      ≡ some (b, rs))
    × Panicking nat_float (60 * second) (100 * second) (160 * second) (pos 8) b
    × All (AtLeast nat_float (pos 8)) rs
panic_persists_example =
    panic_persists nat_float panic_ticks (60 * second) (100 * second) (100 * second) (pos 8)
      panicking
      (record {
        since = (100 * second, refl, omega arith);
        most = omega arith;
        delaying = inl refl;
        window_is = refl;
      })
      (
        (omega arith, omega arith, omega arith),
        ((omega arith, omega arith, omega arith), ((omega arith, omega arith, omega arith), tt)),
      )

abbrev result : ℕ → ℕ → ScaleResult
result n burst = record {
  desired_pod_count = pos n;
  excess_burst_capacity = pos burst;
  scale_valid = true;
}

-- The decisions: the 9 of the second tick holds, until the window is over.
run-panicking :
    (do
      (b, rs) ←
          run nat_float
            (at_second 102 10 ∷ at_second 104 90 ∷ at_second 160 10 ∷ at_second 170 10 ∷ [])
            panicking
      some rs)
    ≡ some (result 8 18 ∷ result 9 0 ∷ result 9 18 ∷ result 2 18 ∷ [])
unfolding run scale apply_demand demand desired_pods excess_burst_capacity update_panic hold_pods
    delay_pods
run-panicking = refl

-- With a delay of six seconds, after a decision for 7 pods at the second 100.
abbrev delayed_window : TimeWindow
delayed_window = record {
  window = record { maxima = entry 7 50 ∷ no_entry ∷ no_entry ∷ []; first = 0; len = 1 };
  granularity = tick_interval;
}

abbrev delaying : Autoscaler ℕ
delaying = record {
  panic_time = none;
  max_panic_pods = pos 4;
  delay_window = some delayed_window;
  decider_spec = spec;
}

delaying-Delayed :
    Delayed 3
      (entry 7 50 ∷ [])
      (100 * second)
      delayed_window
      delaying
      (record delaying { delay_window = none })
unfolding recorded record_value new_window remove_lower remove_old merge_last write_last
delaying-Delayed = record {
  plain = refl;
  window = refl;
  holds = record {
    grain = omega arith;
    sized = omega arith;
    timed = tt;
    past = omega arith;
    same = refl;
  };
  reachable = refl;
}

scale_delays_example :
    Agrees nat_float
      (at_second 102 10)
      3
      (entry 7 50 ∷ [])
      delayed_window
      delaying
      (record delaying { delay_window = none })
scale_delays_example =
    scale_delays nat_float (at_second 102 10) 3 (100 * second) (entry 7 50 ∷ []) delayed_window
      delaying (record delaying { delay_window = none }) delaying-Delayed (omega arith)

-- The 7 pods hold for three ticks.
run-delaying :
    (do
      (b, rs) ← run nat_float (at_second 102 10 ∷ at_second 104 10 ∷ at_second 106 10 ∷ []) delaying
      some rs)
    ≡ some (result 7 18 ∷ result 7 18 ∷ result 2 18 ∷ [])
unfolding run scale apply_demand demand desired_pods excess_burst_capacity update_panic hold_pods
    delay_pods record_time current_time record_value current remove_lower remove_old merge_last
    write_last
run-delaying = refl
