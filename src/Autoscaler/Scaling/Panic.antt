-- ===== src/Autoscaler/Scaling/Panic.antt =====
-- The panic mode over a run of ticks.
use serving.Prelude.{
  ℕ, ◌+◌, ◌≤◌, ◌≡◌, ◌⊎◌, inl, inr, refl, Bool, true, false, List, [], ◌∷◌, Option, none, some, ltb,
  arith, ◌>>=◌, All,
}
use serving.Prelude.Int.{ℤ, ◌≤ℤ◌}
use serving.Autoscaler.Scaling.Delay.{result_of}
use serving.Autoscaler.Scaling.Windows.{HasWindow, HasWindow-later, delay_pods-HasWindow}
use serving.Autoscaler.Scaling.{
  Float, Autoscaler, Tick, Demand, ScaleResult, invalid_sr, update_panic, hold_pods, apply_demand,
  demand, scale,
}

≤ℤ_trans : (a b c : ℤ) → a ≤ℤ b → b ≤ℤ c → a ≤ℤ c
≤ℤ_trans a b c h k = omega (arith, h, k)

-- The mode stays on within the stable window, and its largest number of pods does not change there.
update_panic_on :
    (over : Bool) (window now t t0 : ℕ) (pods : ℤ)
    → t0 ≤ t
    → t0 ≤ now
    → now ≤ t0 + window
    → (t' : ℕ) × (update_panic over window now (some t, pods) ≡ (some t', pods)) × (t0 ≤ t')
unfolding update_panic
update_panic_on true window now t t0 pods h k l = (now, refl, k)
update_panic_on false window now t t0 pods h k l =
    let on : ltb (t + window) now ≡ false = ground arith in (t, rw on refl, h)

hold_pods_on :
    (d : Demand) (t : ℕ) (pods : ℤ)
    → let (desired, most) = hold_pods d (some t, pods) in (pods ≤ℤ most) × (desired ≡ most)
unfolding hold_pods
hold_pods_on d t pods = ground arith

module _ {F : Type 0} (f : Float F) where
  -- The ticks in the order of time, with their results.
  unfoldable pub run : List (Tick F) → Autoscaler F → Option (Autoscaler F × List ScaleResult)
  run [] a = some (a, [])
  run (t ∷ ts) a = do (b, r) ← scale f t a; (c, rs) ← run ts b; some (c, r ∷ rs)

  -- A state in panic mode since `t0` or later, with at least `pods` pods, after a tick at `last`.
  pub record Panicking (window t0 last : ℕ) (pods : ℤ) (a : Autoscaler F) : Type 0 where
    pub since : (t : ℕ) × (a.panic_time ≡ some t) × (t0 ≤ t)
    pub most : pods ≤ℤ a.max_panic_pods
    pub delaying : HasWindow last a.delay_window
    pub window_is : a.decider_spec.stable_window ≡ window

  abbrev pub AtLeast : ℤ → ScaleResult → Type 0
  AtLeast pods r = (r.scale_valid ≡ false) ⊎ (pods ≤ℤ r.desired_pod_count)

  apply_demand-Panicking :
      (d : Demand) (now window t0 last : ℕ) (pods : ℤ) (a : Autoscaler F)
      → Panicking window t0 last pods a
      → t0 ≤ now
      → now ≤ t0 + window
      → last ≤ now
      → (b : Autoscaler F) × (n : ℤ) × (apply_demand d now a ≡ some (b, n))
        × Panicking window t0 now pods b
        × (pods ≤ℤ n)
  unfolding apply_demand
  apply_demand-Panicking d now window t0 last pods a p h k o =
      let (t, e, l) = p.since in
      let spec = a.decider_spec in
      let (t', u, l') =
        update_panic_on d.over_threshold spec.stable_window now t t0 a.max_panic_pods l h
          (rw (p.window_is) k) in
      let mode =
        update_panic d.over_threshold spec.stable_window now (a.panic_time, a.max_panic_pods) in
      let on : mode ≡ (some t', a.max_panic_pods) = rw e u in
      let (q, s) = hold_pods_on d t' a.max_panic_pods in
      let (desired, most) = hold_pods d (some t', a.max_panic_pods) in
      let enough : pods ≤ℤ most = ≤ℤ_trans pods a.max_panic_pods most p.most q in
      let (n, w, g, held, least) =
        delay_pods-HasWindow spec.reachable last now desired a.delay_window o p.delaying in
      (
        record a { panic_time = some t'; max_panic_pods = most; delay_window = w },
        n,
        rw on (rw g refl),
        record { since = (t', refl, l'); most = enough; delaying = held; window_is = p.window_is },
        ≤ℤ_trans pods desired n (rw s enough) least,
      )

  Panicking-later :
      (window t0 last now : ℕ) (pods : ℤ) (a : Autoscaler F)
      → last ≤ now
      → Panicking window t0 last pods a
      → Panicking window t0 now pods a
  Panicking-later window t0 last now pods a h p = record {
    since = p.since;
    most = p.most;
    delaying = HasWindow-later last now a.delay_window h p.delaying;
    window_is = p.window_is;
  }

  scale-Panicking :
      (t : Tick F) (window t0 last : ℕ) (pods : ℤ) (a : Autoscaler F)
      → Panicking window t0 last pods a
      → t0 ≤ t.now
      → t.now ≤ t0 + window
      → last ≤ t.now
      → (b : Autoscaler F) × (r : ScaleResult) × (scale f t a ≡ some (b, r))
        × Panicking window t0 t.now pods b
        × AtLeast pods r
  unfolding scale
  scale-Panicking t window t0 last pods a p h k o = go t.ready refl t.observed refl
    where
      Goal : Type 0
      Goal =
          (b : Autoscaler F) × (r : ScaleResult) × (scale f t a ≡ some (b, r))
          × Panicking window t0 t.now pods b
          × AtLeast pods r

      later : Panicking window t0 t.now pods a
      later = Panicking-later window t0 last t.now pods a o p

      go : (o : Option ℕ) → t.ready ≡ o → (v : Option (F × F)) → t.observed ≡ v → Goal
      go none e v l = (a, invalid_sr, rw (scale, e) refl, later, inl refl)
      go (some ready) e none l = (a, invalid_sr, rw (scale, e, l) refl, later, inl refl)
      go (some ready) e (some (stable, panic)) l =
          let d = demand f a.decider_spec ready stable panic in
          let (b, n, m, q, s) = apply_demand-Panicking d t.now window t0 last pods a p h k o in
          (b, result_of f a.decider_spec ready panic n, rw (scale, e, l, m) refl, q, inr s)

  -- Ticks in the order of time, after `last` and within the stable window of `t0`.
  abbrev pub AreWithin : ℕ → ℕ → ℕ → List (Tick F) → Type 0
  AreWithin t0 window last [] = Unit
  AreWithin t0 window last (t ∷ ts) =
      ((t0 ≤ t.now) × (t.now ≤ t0 + window) × (last ≤ t.now)) × AreWithin t0 window t.now ts

  abbrev pub last_tick : ℕ → List (Tick F) → ℕ
  last_tick last [] = last
  last_tick last (t ∷ ts) = last_tick t.now ts

  -- Ticks in the order of time, each within the stable window of `t0`, from a state in panic mode since
  -- `t0` or later with at least `pods` pods, with a delay window or without one: the run does not panic,
  -- the state after it is such a state too, and every valid decision of the run is for at least `pods`
  -- pods: nothing is scaled down.
  pub panic_persists :
      (ts : List (Tick F)) (window t0 last : ℕ) (pods : ℤ) (a : Autoscaler F)
      → Panicking window t0 last pods a
      → AreWithin t0 window last ts
      → (b : Autoscaler F) × (rs : List ScaleResult) × (run ts a ≡ some (b, rs))
        × Panicking window t0 (last_tick last ts) pods b
        × All (AtLeast pods) rs
  unfolding run
  panic_persists [] window t0 last pods a p h = (a, [], refl, p, tt)
  panic_persists (t ∷ ts) window t0 last pods a p ((h, k, o), hs) =
      let (b, r, m, q, s) = scale-Panicking t window t0 last pods a p h k o in
      let (c, rs, n, q', ss) = panic_persists ts window t0 t.now pods b q hs in
      (c, r ∷ rs, rw m (rw n refl), q', (s, ss))
