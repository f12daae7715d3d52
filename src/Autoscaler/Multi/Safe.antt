-- ===== src/Autoscaler/Multi/Safe.antt =====
-- No event makes the multiscaler panic.
use serving.Prelude.{
  ℕ, ◌≤◌, ◌≡◌, refl, sym, inl, inr, ◌⊎◌, ◌&&◌, if◌then◌else◌, List, [], ◌∷◌, ◌++◌, Option, none,
  some, get_elem?, Option-cases,
}
use serving.Prelude.Str.{Str}
use serving.Prelude.Assoc.{lookup, lookup-Entries}
use serving.Autoscaler.Scaling.{Float, ScaleResult}
use serving.Autoscaler.Multi.{
  Decider, UniScaler, Runner, MultiScaler, scale_runner, create, update, tick, publish, poke, put,
  update_latest_scale,
}
use serving.Autoscaler.Multi.Events.{
  Event, created, updated, deleted, ticked, published, poked, handle, handle_events,
}
use serving.Autoscaler.Multi.Laws.{UniScalerLaws}
use serving.Autoscaler.Multi.Guard.{
  Live, IsGuarded, IsOrdered, after, end_time, create-IsGuarded, delete-IsGuarded, put-IsGuarded,
  runner_good, IsGuarded-later,
}

module _ {F U T : Type 0} (f : Float F) (uni : UniScaler F U T) (time : T → ℕ)
    (IsGood : ℕ → U → Type 0) (laws : UniScalerLaws uni time IsGood) where
  abbrev Guarded : ℕ → MultiScaler F U → Type 0
  Guarded = IsGuarded f uni time IsGood

  -- A method that returns, with the keys that the watcher gets.
  abbrev Returns : ℕ → Option (MultiScaler F U × List Str) → Type 0
  Returns last o = (m : MultiScaler F U) × (keys : List Str) × (o ≡ some (m, keys)) × Guarded last m

  update-IsGuarded :
      (last : ℕ) (d : Decider F) (m : MultiScaler F U)
      → Guarded last m
      → (update f uni d m ≡ none)
        ⊎ ((m' : MultiScaler F U) × (update f uni d m ≡ some m') × Guarded last m')
  unfolding update
  update-IsGuarded last d m g = elim (Option-cases (lookup d.key m.scalers)) [
    | inl e ↦ inl (rw (update, e) refl)
    | inr (id, e) ↦
        let l = lookup-Entries (Live m.runners) d.key id m.scalers g.entries e in
        let r = l.runner in
        let r' : Runner F U = record r { decider = d; scaler = uni.update d.spec r.scaler } in
        let good = runner_good f uni time IsGood laws last m id r g l.found in
        inr (
          put id r' m,
          rw (update, e) (rw (l.found) refl),
          put-IsGuarded f uni time IsGood laws last m id r r' g l.found refl refl (sym l.named)
              (laws.updated d.spec last r.scaler good),
        )
  ]

  tick-IsGuarded :
      (last id : ℕ) (t : T) (m : MultiScaler F U)
      → last ≤ time t
      → Guarded last m
      → (m' : MultiScaler F U) × (tick f uni id t m ≡ some m') × Guarded (time t) m'
  unfolding tick scale_runner
  tick-IsGuarded last id t m h g = go (get_elem? m.runners id) refl
    where
      later : Guarded (time t) m
      later = IsGuarded-later f uni time IsGood laws last (time t) m h g

      idle :
          (r : Runner F U)
          → get_elem? m.runners id ≡ some r
          → (p : Option ScaleResult) → r.pending ≡ p
          → (m' : MultiScaler F U) × (tick f uni id t m ≡ some m') × Guarded (time t) m'
      idle r e (some result) k = (m, rw (tick, e) (rw k refl), later)
      idle r e none k =
          let (u, result, s, good) =
            laws.scaled t last r.scaler h (runner_good f uni time IsGood laws last m id r g e) in
          let r' : Runner F U = record r {
            scaler = u;
            pending = if result.scale_valid then some result else none;
          } in
          (
            put id r' m,
            rw (tick, e) (rw k (rw s refl)),
            put-IsGuarded f uni time IsGood laws (time t) m id r r' later e refl refl refl good,
          )

      go :
          (o : Option (Runner F U))
          → get_elem? m.runners id ≡ o
          → (m' : MultiScaler F U) × (tick f uni id t m ≡ some m') × Guarded (time t) m'
      go none e = (m, rw (tick, e) refl, later)
      go (some r) e = idle r e r.pending refl

  publish-IsGuarded :
      (last id : ℕ) (m : MultiScaler F U) → Guarded last m → Returns last (publish id m)
  unfolding publish
  publish-IsGuarded last id m g = go (get_elem? m.runners id) refl
    where
      idle :
          (r : Runner F U)
          → get_elem? m.runners id ≡ some r
          → (p : Option ScaleResult) → r.pending ≡ p
          → Returns last (publish id m)
      idle r e none k = (m, [], rw (publish, e) (rw k refl), g)
      idle r e (some result) k =
          let good = runner_good f uni time IsGood laws last m id r g e in
          let (status, news) = update_latest_scale result (r.decider).status in
          let decider = record (r.decider) { status = status } in
          let r' : Runner F U = record r { decider = decider; pending = none } in
          (
            put id r' m,
            (if news && m.watched then r.metric_key ∷ [] else []),
            rw (publish, e) (rw k refl),
            put-IsGuarded f uni time IsGood laws last m id r r' g e refl refl refl good,
          )

      go : (o : Option (Runner F U)) → get_elem? m.runners id ≡ o → Returns last (publish id m)
      go none e = (m, [], rw (publish, e) refl, g)
      go (some r) e = idle r e r.pending refl

  poke_lem :
      (last : ℕ) (key : Str) (average : F) (t : T) (m : MultiScaler F U)
      → last ≤ time t
      → Guarded last m
      → (o : Option ℕ) → poke f uni key average m ≡ o
      → Returns (time t) (handle f uni (poked key average t) m)
  unfolding handle
  poke_lem last key average t m h g none e =
      (m, [], rw (handle, e) refl, IsGuarded-later f uni time IsGood laws last (time t) m h g)
  poke_lem last key average t m h g (some id) e =
      let (m', k, g') = tick-IsGuarded last id t m h g in (m', [], rw (handle, e, k) refl, g')

  pub handle-IsGuarded :
      (e : Event F T) (last : ℕ) (m : MultiScaler F U)
      → last ≤ after f uni time IsGood last e
      → Guarded last m
      → Returns (after f uni time IsGood last e) (handle f uni e m)
  unfolding handle
  handle-IsGuarded (created d t) last m h g =
      ((create f uni t d m).0, [], refl, create-IsGuarded f uni time IsGood laws last t d m g)
  handle-IsGuarded (updated d) last m h g = elim (update-IsGuarded last d m g) [
    | inl e ↦ (m, [], rw (handle, e) refl, g)
    | inr (m', e, g') ↦ (m', [], rw (handle, e) refl, g')
  ]
  handle-IsGuarded (deleted key) last m h g =
      let (m', e, g') = delete-IsGuarded f uni time IsGood laws last key m g in
      (m', [], rw e refl, g')
  handle-IsGuarded (ticked id t) last m h g =
      let (m', e, g') = tick-IsGuarded last id t m h g in (m', [], rw e refl, g')
  handle-IsGuarded (published id) last m h g = publish-IsGuarded last id m g
  handle-IsGuarded (poked key average t) last m h g =
      poke_lem last key average t m h g (poke f uni key average m) refl

  -- For autoscalers that do not panic when they are ticked in the order of time: no sequence of events
  -- in that order makes the multiscaler panic, so no goroutine is stopped twice. Every key in the map
  -- keeps a runner of its own that is not stopped, with a decider of that name.
  pub handle_events-IsGuarded :
      (es : List (Event F T)) (last : ℕ) (m : MultiScaler F U)
      → IsGuarded f uni time IsGood last m
      → IsOrdered f uni time IsGood last es
      → (m' : MultiScaler F U) × (keys : List Str) × (handle_events f uni es m ≡ some (m', keys))
        × IsGuarded f uni time IsGood (end_time f uni time IsGood last es) m'
  unfolding handle_events
  handle_events-IsGuarded [] last m g o = (m, [], refl, g)
  handle_events-IsGuarded (e ∷ es) last m g (h, o) =
      let (m', keys, k, g') = handle-IsGuarded e last m h g in
      let (m'', more, k', g'') =
        handle_events-IsGuarded es (after f uni time IsGood last e) m' g' o in
      (m'', keys ++ more, rw k (rw k' refl), g'')
