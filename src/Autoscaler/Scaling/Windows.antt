-- ===== src/Autoscaler/Scaling/Windows.antt =====
-- An autoscaler with or without a delay window, over time.
use serving.Prelude.{
  ℕ, ◌+◌, ◌-◌, ◌/◌, ◌≤◌, ◌<◌, ◌≡◌, ◌⊎◌, inl, inr, refl, ◌∙◌, Bool, true, false, List, [], ◌∷◌,
  Option, none, some, arith,
}
use serving.Prelude.Int.{ℤ, ◌≤ℤ◌}
use serving.Autoscaler.Window.{second, TimeWindow, Entry, new_time_window, new_window}
use serving.Autoscaler.Window.History.{recorded}
use serving.Autoscaler.Window.Spec.{largest}
use serving.Autoscaler.Scaling.{tick_interval, delay_pods}
use serving.Autoscaler.Scaling.Delay.{
  Holds, index_at, div_mono, larger, largest-now, record_time-Holds,
}

-- There is no delay window, or it holds a history whose last time was not after `last`.
abbrev pub HasWindow : ℕ → Option TimeWindow → Type 0
HasWindow last o =
    (o ≡ none)
    ⊎ ((size : ℕ) × (es : List Entry) × (w : TimeWindow) × (o ≡ some w) × Holds size es last w)

Holds-later :
    (size : ℕ) (es : List Entry) (last now : ℕ) (w : TimeWindow)
    → last ≤ now
    → Holds size es last w
    → Holds size es now w
Holds-later size es last now w h k =
    let unit : 0 < w.granularity / second = omega (arith, k.grain) in
    record {
      grain = k.grain;
      sized = k.sized;
      timed = k.timed;
      past = omega (
        arith,
        k.past,
        div_mono (last / second) (now / second) (w.granularity / second) unit
            (div_mono last now second (omega arith) h),
      );
      same = k.same;
    }

pub HasWindow-later :
    (last now : ℕ) (o : Option TimeWindow) → last ≤ now → HasWindow last o → HasWindow now o
HasWindow-later last now o h (inl e) = inl e
HasWindow-later last now o h (inr (size, es, w, e, k)) =
    inr (size, es, w, e, Holds-later size es last now w h k)

pub new_time_window-HasWindow :
    (now d : ℕ) → 0 < d → HasWindow now (some (new_time_window d tick_interval))
unfolding new_time_window recorded
new_time_window-HasWindow now d h =
    let n = (d + tick_interval - 1) / tick_interval in
    let some_index : 0 < n = omega (arith, h) in
    let w : TimeWindow = record { window = new_window n; granularity = tick_interval } in
    inr (
      n,
      [],
      w,
      refl,
      record {
        grain = omega arith;
        sized = some_index;
        timed = tt;
        past = omega arith;
        same = refl;
      },
    )

larger_least : (v : ℤ) (o : Option ℤ) → v ≤ℤ larger v o
larger_least v none = omega arith
larger_least v (some w) = ground arith

pub delay_pods-HasWindow :
    (reachable : Bool) (last now : ℕ) (desired : ℤ) (o : Option TimeWindow)
    → last ≤ now
    → HasWindow last o
    → (n : ℤ) × (o' : Option TimeWindow) × (delay_pods reachable now desired o ≡ some (n, o'))
      × HasWindow now o'
      × (desired ≤ℤ n)
unfolding delay_pods largest
delay_pods-HasWindow false last now desired o h g =
    (desired, o, refl, HasWindow-later last now o h g, omega arith)
delay_pods-HasWindow true last now desired o h (inl e) =
    (desired, none, rw e refl, inl refl, omega arith)
delay_pods-HasWindow true last now desired o h (inr (size, es, w, e, k)) =
    let (w', r, g, hold, c) = record_time-Holds size last now es w desired h k in
    let e' : Entry = record { value = desired; index = index_at w now } in
    let m = c ∙ largest-now size e' es k.sized in
    (
      larger desired (largest size e'.index es),
      some w',
      rw e (rw r (rw m refl)),
      inr (size, e' ∷ es, w', refl, hold),
      larger_least desired (largest size e'.index es),
    )
