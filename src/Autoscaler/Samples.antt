-- ===== src/Autoscaler/Samples.antt =====
-- Test data: ℕ in place of float64, and a state of an autoscaler.
use serving.Prelude.{◌+◌, ℕ, ◌-◌, ◌*◌, ◌/◌, true, some, none, ltb, leb, ◌==◌, if◌then◌else◌}
use serving.Prelude.Int.{pos}
use serving.Autoscaler.Window.{second}
use serving.Autoscaler.Scaling.{Float, DeciderSpec, Autoscaler, Tick}

-- float64 as ℕ.
abbrev pub nat_float : Float ℕ
nat_float = record {
  of_ℕ = λ n. n;
  of_ℤ = λ z. 0;
  mul = λ a b. a * b;
  div = λ a b. a / b;
  add = λ a b. a + b;
  sub = λ a b. a - b;
  ceil = λ a. a;
  floor = λ a. a;
  fmin = λ a b. if leb a b then a else b;
  fmax = λ a b. if leb a b then b else a;
  leb = leb;
  lt = ltb;
  eqb = λ a b. a == b;
  to_int32 = pos;
}

abbrev pub spec : DeciderSpec ℕ
spec = record {
  max_scale_up_rate = 10;
  max_scale_down_rate = 2;
  target_value = 10;
  total_value = 12;
  target_burst_capacity = 20;
  activator_capacity = 100;
  panic_threshold = 2;
  stable_window = 60 * second;
  scale_down_delay = 6 * second;
  initial_scale = pos 1;
  reachable = true;
  activation_scale = pos 0;
}

abbrev pub at_second : ℕ → ℕ → Tick ℕ
at_second s value = record { now = s * second; ready = some 4; observed = some (value, value) }

-- Without a delay, in panic mode since the second 100 with 8 pods.
abbrev pub panicking : Autoscaler ℕ
panicking = record {
  panic_time = some (100 * second);
  max_panic_pods = pos 8;
  delay_window = none;
  decider_spec = spec;
}
