-- ===== src/Autoscaler/Scaling/Delay.antt =====
-- The delay window: an autoscaler with it decides the largest of what one without it decides.
use native.Mathlib.Nat.{le-div_iff_mul-le, div-mul-le_self}
use serving.Prelude.{
  ℕ, ◌/◌, ◌≤◌, ◌<◌, ◌≡◌, ◌⊎◌, inl, inr, refl, true, List, [], ◌∷◌, Option, none, some, arith, sym,
  ◌∙◌,
}
use serving.Prelude.Int.{ℤ}
use serving.Autoscaler.Window.{second, Entry, TimeWindow, record_value, record_time, current_time}
use serving.Autoscaler.Window.Spec.{max_ℤ, largest, join, is_recent}
use serving.Autoscaler.Window.History.{recorded, IsTimed, last_index, recorded-largest}
use serving.Autoscaler.Scaling.{
  Float, Autoscaler, DeciderSpec, Tick, Demand, ScaleResult, update_panic, hold_pods, delay_pods,
  apply_demand, demand, scale, invalid_sr, excess_burst_capacity,
}

-- The index of a time.
abbrev pub index_at : TimeWindow → ℕ → ℕ
index_at w now = now / second / (w.granularity / second)

-- The window of `size` indexes holds the history, whose last time was not after `last`.
pub record Holds (size : ℕ) (es : List Entry) (last : ℕ) (w : TimeWindow) : Type 0 where
  pub grain : second ≤ w.granularity
  pub sized : 0 < size
  pub timed : IsTimed es
  pub past : last_index es ≤ index_at w last
  pub same : recorded size es ≡ some w.window

IsTimed-cons :
    (e : Entry) (es : List Entry) → last_index es ≤ e.index → IsTimed es → IsTimed (e ∷ es)
IsTimed-cons e [] h t = tt
IsTimed-cons e (d ∷ es) h t = (h, t)

pub div_mono : (a b d : ℕ) → 0 < d → a ≤ b → a / d ≤ b / d
div_mono a b d p h = (le-div_iff_mul-le p).1 (omega (arith, div-mul-le_self a d, h))

pub record_time-Holds :
    (size last now : ℕ) (es : List Entry) (w : TimeWindow) (v : ℤ)
    → last ≤ now
    → Holds size es last w
    → let e : Entry = record { value = v; index = index_at w now } in
      (w' : TimeWindow) × (record_time now v w ≡ some w')
      × (w'.granularity ≡ w.granularity)
      × Holds size (e ∷ es) now w'
      × (current_time w' ≡ largest size e.index (e ∷ es))
unfolding record_time current_time recorded
record_time-Holds size last now es w v h k =
    let e : Entry = record { value = v; index = index_at w now } in
    let later : last_index es ≤ e.index =
      let unit : 0 < w.granularity / second = omega (arith, k.grain) in
      omega (
        arith,
        k.past,
        div_mono (last / second) (now / second) (w.granularity / second) unit (omega (arith, h)),
      ) in
    let (m, r, c) = recorded-largest size e es k.sized (IsTimed-cons e es later k.timed) in
    let r' : record_value e.index v w.window ≡ some m = rw (k.same) at r in
    (
      record w { window = m },
      rw r' refl,
      refl,
      record {
        grain = k.grain;
        sized = k.sized;
        timed = IsTimed-cons e es later k.timed;
        past = omega arith;
        same = r;
      },
      c,
    )

-- The larger of a value and another that there may be.
abbrev pub larger : ℤ → Option ℤ → ℤ
larger v none = v
larger v (some w) = max_ℤ v w

join-larger : (v : ℤ) (w : Option ℤ) → join (some v) w ≡ some (larger v w)
join-larger v none = refl
join-larger v (some w) = refl

pub largest-now :
    (size : ℕ) (e : Entry) (es : List Entry)
    → 0 < size
    → largest size e.index (e ∷ es) ≡ some (larger e.value (largest size e.index es))
unfolding largest
largest-now size e es h =
    let now_counts : is_recent size e.index e ≡ true = ground arith in
    rw now_counts (join-larger e.value (largest size e.index es))

module _ {F : Type 0} where
  -- The pods that an autoscaler decides for a demand, before a delay: those of the demand, or in panic
  -- mode the most since it began.
  abbrev pub held : Demand → ℕ → Autoscaler F → ℤ
  held d now a =
      (hold_pods d (
        update_panic d.over_threshold a.decider_spec.stable_window now
          (a.panic_time, a.max_panic_pods))).0

  -- An autoscaler `a` with the delay window `w`, and the same autoscaler `b` without it.
  pub record Delayed (size : ℕ) (es : List Entry) (last : ℕ) (w : TimeWindow) (a b : Autoscaler F)
      : Type 0 where
    pub plain : b ≡ record a { delay_window = none }
    pub window : a.delay_window ≡ some w
    pub holds : Holds size es last w
    pub reachable : a.decider_spec.reachable ≡ true

  apply_demand-Delayed :
      (d : Demand) (size last now : ℕ) (es : List Entry) (w : TimeWindow) (a : Autoscaler F)
      → last ≤ now
      → a.delay_window ≡ some w
      → Holds size es last w
      → a.decider_spec.reachable ≡ true
      → (p : ℤ) × (n : ℤ) × (w' : TimeWindow) × (a' : Autoscaler F) × let e : Entry = record {
        value = p;
        index = index_at w now;
      } in
          (apply_demand d now (record a { delay_window = none })
            ≡ some (record a' { delay_window = none }, p))
          × (apply_demand d now a ≡ some (a', n))
          × (some n ≡ largest size e.index (e ∷ es))
          × (p ≡ held d now a)
          × Delayed size (e ∷ es) now w' a' (record a' { delay_window = none })
  unfolding apply_demand delay_pods largest
  apply_demand-Delayed d size last now es w a h k hold r =
      let spec = a.decider_spec in
      let mode =
        update_panic d.over_threshold spec.stable_window now (a.panic_time, a.max_panic_pods) in
      let p = (hold_pods d mode).0 in
      let e : Entry = record { value = p; index = index_at w now } in
      let (w', t, g, hold', c) = record_time-Holds size last now es w p h hold in
      let n = larger p (largest size e.index es) in
      let l = largest-now size e es hold.sized in
      let a' : Autoscaler F = record a {
        panic_time = mode.0;
        max_panic_pods = (hold_pods d mode).1;
        delay_window = some w';
      } in
      (
        p,
        n,
        w',
        a',
        (
          rw r refl,
          rw r (rw k (rw t (rw (c ∙ l) refl))),
          sym l,
          refl,
          record { plain = refl; window = refl; holds = hold'; reachable = r },
        ),
      )

  -- The valid result for a number of pods.
  abbrev pub result_of : Float F → DeciderSpec F → ℕ → F → ℤ → ScaleResult
  result_of f spec ready panic n = record {
    desired_pod_count = n;
    excess_burst_capacity = excess_burst_capacity f spec ready panic;
    scale_valid = true;
  }

  -- The count of the ready pods or the metric's values are not there.
  abbrev pub NoData : Tick F → Type 0
  NoData t = (t.ready ≡ none) ⊎ (t.observed ≡ none)

  -- One tick of both, where the history is `es`: no data and no decision, or data and the same
  -- decision but for the delay.
  abbrev pub Agrees :
      Float F → Tick F → ℕ → List Entry → TimeWindow → Autoscaler F → Autoscaler F → Type 0
  Agrees f t size es w a b =
      (NoData t × (scale f t a ≡ some (a, invalid_sr)) × (scale f t b ≡ some (b, invalid_sr)))
      ⊎ ((ready : ℕ) × (stable : F) × (panic : F) × (p : ℤ) × (n : ℤ) × (w' : TimeWindow)
          × (a' : Autoscaler F) × (b' : Autoscaler F) × let e : Entry = record {
            value = p;
            index = index_at w t.now;
          } in
              let spec = a.decider_spec in
              (t.ready ≡ some ready)
              × (t.observed ≡ some (stable, panic))
              × (p ≡ held (demand f spec ready stable panic) t.now a)
              × (scale f t b ≡ some (b', result_of f spec ready panic p))
              × (scale f t a ≡ some (a', result_of f spec ready panic n))
              × (some n ≡ largest size e.index (e ∷ es))
              × Delayed size (e ∷ es) t.now w' a' b')

  -- A reachable revision's autoscaler with a delay window, and the same one without it, at a time
  -- that is not before the last one: neither panics. Either the ready pods or the metric's values are
  -- not there, both leave their state and return the invalid result; or both are there, both results
  -- are valid, the autoscaler without the window decides the pods of the demand, held in panic mode,
  -- the one with it the largest of those decided now and within the window, and but for that and the
  -- window the results and the states agree.
  pub scale_delays :
      (f : Float F) (t : Tick F) (size last : ℕ) (es : List Entry) (w : TimeWindow)
      (a b : Autoscaler F)
      → Delayed size es last w a b
      → last ≤ t.now
      → Agrees f t size es w a b
  unfolding scale
  scale_delays f t size last es w a b d h = go t.ready refl t.observed refl
    where
      go :
          (o : Option ℕ)
          → t.ready ≡ o
          → (v : Option (F × F)) → t.observed ≡ v
          → Agrees f t size es w a b
      go none k v l = inl (inl k, rw (scale, k) refl, rw (scale, k) refl)
      go (some ready) k none l = inl (inr l, rw (scale, k, l) refl, rw (scale, k, l) refl)
      go (some ready) k (some (stable, panic)) l =
          let (p, n, w', a', (eb, ea, m, held_eq, d')) =
            apply_demand-Delayed (demand f a.decider_spec ready stable panic) size last t.now es w a
              h d.window d.holds d.reachable in
          let b' : Autoscaler F = record a' { delay_window = none } in
          inr (
            ready,
            stable,
            panic,
            p,
            n,
            w',
            a',
            b',
            (
              k,
              l,
              held_eq,
              rw d.plain (rw (scale, k, l, eb) refl),
              rw (scale, k, l, ea) refl,
              m,
              d',
            ),
          )
