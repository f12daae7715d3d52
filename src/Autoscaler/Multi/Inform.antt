-- ===== src/Autoscaler/Multi/Inform.antt =====
-- The watcher gets every key whose status changes.
use mathlib.Core.List.{Mem, mem-append_left, mem-append_right}
use serving.Prelude.{
  ℕ, ◌≡◌, ◌≢◌, ◌⊎◌, refl, sym, ◌∙◌, subst, inl, inr, Bool, true, false, not, List, [], ◌∷◌, ◌++◌,
  Option, none, some, arith, get_elem?, ◌>>=◌, Option-cases, All, if◌then◌else◌,
}
use serving.Prelude.Str.{Str, str_eq}
use serving.Prelude.Assoc.{lookup, Entries, lookup-Entries}
use serving.Autoscaler.Scaling.{Float, ScaleResult}
use serving.Autoscaler.Multi.{
  Decider, Status, UniScaler, Runner, MultiScaler, scale_runner, create_runner, create, update,
  tick, poke, put,
}
use serving.Autoscaler.Multi.Events.{
  Event, created, updated, deleted, ticked, published, poked, handle, handle_events,
}
use serving.Autoscaler.Multi.Laws.{UniScalerLaws}
use serving.Autoscaler.Multi.Guard.{Live, Live-apart, IsGuarded, IsOrdered, after}
use serving.Autoscaler.Multi.Safe.{handle-IsGuarded}
use serving.Autoscaler.Multi.Stored.{delete-After, publish-After}
use serving.Autoscaler.Multi.Changes.{
  IsSame, same_sign_trans, leaves, Has, Told, After, unchanged, put-Has, put-Has_other, create-Has,
}

not-true : (b : Bool) → not b ≡ true → b ≡ false
not-true b h = ground (arith, h)

module _ {F U T : Type 0} (f : Float F) (uni : UniScaler F U T) where
  create-After :
      (t : T) (e : Decider F) (m : MultiScaler F U) (key : Str) (d : Decider F)
      → str_eq e.key key ≡ false
      → m.watched ≡ true
      → Has m key d
      → Told (create f uni t e m).0 key [] d
  unfolding create create_runner
  create-After t e m key d n w h = go (lookup e.key m.scalers) refl (uni.create_scaler t e) refl
    where
      same : Told m key [] d
      same = unchanged m key [] d w h

      go :
          (o : Option ℕ)
          → lookup e.key m.scalers ≡ o
          → (c : Option U) → uni.create_scaler t e ≡ c
          → Told (create f uni t e m).0 key [] d
      go (some id) k c l = rw (create, k) same
      go none k none l = rw (create, k) (rw l same)
      go none k (some u) l =
          rw (create, k) (rw l (unchanged _ key [] d w (create-Has m e.key key _ d n h)))

  update-After :
      (e : Decider F) (m : MultiScaler F U) (key : Str) (d : Decider F)
      → Entries (Live m.runners) m.scalers
      → str_eq e.key key ≡ false
      → m.watched ≡ true
      → Has m key d
      → After key d (handle f uni (updated e) m)
  unfolding handle update
  update-After e m key d g n w h = elim (Option-cases (lookup e.key m.scalers)) [
    | inl k ↦ rw (handle, update, k) (unchanged m key [] d w h)
    | inr (id, k) ↦
        let l = lookup-Entries (Live m.runners) e.key id m.scalers g k in
        let own = lookup-Entries (Live m.runners) key h.id m.scalers g h.at in
        let apart : id ≢ h.id = λ x. Live-apart m.runners key e.key h.id id n own l (sym x) in
        rw (handle, update, k)
          (rw (l.found) (unchanged _ key [] d w (put-Has_other m id _ key d h apart)))
  ]

  tick-After :
      (id : ℕ) (t : T) (m : MultiScaler F U) (key : Str) (d : Decider F)
      → m.watched ≡ true
      → Has m key d
      → After key d (do m' ← tick f uni id t m; some (m', []))
  unfolding tick scale_runner
  tick-After id t m key d w h = go (get_elem? m.runners id) refl
    where
      idle :
          (r : Runner F U)
          → get_elem? m.runners id ≡ some r
          → (p : Option ScaleResult) → r.pending ≡ p
          → (s : Option (U × ScaleResult)) → uni.scale t r.scaler ≡ s
          → After key d (do m' ← tick f uni id t m; some (m', []))
      idle r e (some result) k s l = rw (tick, e) (rw k (unchanged m key [] d w h))
      idle r e none k none l = rw (tick, e) (rw k (rw l tt))
      idle r e none k (some (u, result)) l =
          let r' : Runner F U = record r {
            scaler = u;
            pending = if result.scale_valid then some result else none;
          } in
          rw (tick, e)
            (rw k (rw l (unchanged (put id r' m) key [] d w (put-Has m id r r' key d e refl h))))

      go :
          (o : Option (Runner F U))
          → get_elem? m.runners id ≡ o
          → After key d (do m' ← tick f uni id t m; some (m', []))
      go none e = rw (tick, e) (unchanged m key [] d w h)
      go (some r) e = idle r e r.pending refl (uni.scale t r.scaler) refl

  handle-After :
      (e : Event F T) (m : MultiScaler F U) (key : Str) (d : Decider F)
      → Entries (Live m.runners) m.scalers
      → leaves key e ≡ true
      → m.watched ≡ true
      → Has m key d
      → After key d (handle f uni e m)
  unfolding handle
  handle-After (created e t) m key d g l w h = create-After t e m key d (not-true _ l) w h
  handle-After (updated e) m key d g l w h = update-After e m key d g (not-true _ l) w h
  handle-After (deleted other) m key d g l w h = delete-After m other key d g (not-true _ l) w h
  handle-After (ticked id t) m key d g l w h = tick-After id t m key d w h
  handle-After (published id) m key d g l w h = publish-After m id key d g w h
  handle-After (poked other average t) m key d g l w h =
      elim (Option-cases (poke f uni other average m)) [
        | inl e ↦ rw (handle, e) (unchanged m key [] d w h)
        | inr (id, e) ↦ rw (handle, e) (tick-After id t m key d w h)
      ]

IsSame-trans : (a b c : Status) → IsSame a b → IsSame b c → IsSame a c
IsSame-trans a b c h k = (
  h.0 ∙ k.0,
  same_sign_trans a.excess_burst_capacity b.excess_burst_capacity c.excess_burst_capacity h.1 k.1,
)

module _ {F U : Type 0} where
  Told-trans :
      (m m' : MultiScaler F U) (key : Str) (keys more : List Str) (d : Decider F)
      → (t : Told m key keys d) → Told m' key more t.decider
      → Told m' key (keys ++ more) d
  Told-trans m m' key keys more d t u = record {
    decider = u.decider;
    has = u.has;
    spec_is = u.spec_is ∙ t.spec_is;
    told = both t.told u.told;
    watched = u.watched;
  }
    where
      both :
          Mem key keys ⊎ IsSame d.status t.decider.status
          → Mem key more ⊎ IsSame t.decider.status u.decider.status
          → Mem key (keys ++ more) ⊎ IsSame d.status u.decider.status
      both (inl i) o = inl (mem-append_left more i)
      both (inr s) (inl i) = inl (mem-append_right keys i)
      both (inr s) (inr s') = inr (IsSame-trans d.status t.decider.status u.decider.status s s')

module _ {F U T : Type 0} (f : Float F) (uni : UniScaler F U T) (time : T → ℕ)
    (IsGood : ℕ → U → Type 0) (laws : UniScalerLaws uni time IsGood) where
  -- Of a key that is in the map with a decider, where a watcher is set, and events in the order of time
  -- that neither create, update nor delete this key: no event panics, and after them the map has a
  -- decider of the same specification for the key. If its desired scale or the sign of its excess burst
  -- capacity is another one than before, then the watcher got the key.
  pub handle_events-Told :
      (es : List (Event F T)) (last : ℕ) (m : MultiScaler F U) (key : Str) (d : Decider F)
      → IsGuarded f uni time IsGood last m
      → IsOrdered f uni time IsGood last es
      → All (λ e. leaves key e ≡ true) es
      → m.watched ≡ true
      → Has m key d
      → (m' : MultiScaler F U) × (keys : List Str) × (handle_events f uni es m ≡ some (m', keys))
        × Told m' key keys d
  unfolding handle_events
  handle_events-Told [] last m key d g o l w h = (m, [], refl, unchanged m key [] d w h)
  handle_events-Told (e ∷ es) last m key d g (i, o) (l, ls) w h =
      let (m', keys, k, g') = handle-IsGuarded f uni time IsGood laws e last m i g in
      let t : Told m' key keys d =
        subst (After key d) k (handle-After f uni e m key d g.entries l w h) in
      let (m'', more, k', t') =
        handle_events-Told es (after f uni time IsGood last e) m' key t.decider g' o ls t.watched
          t.has in
      (m'', keys ++ more, rw k (rw k' refl), Told-trans m' m'' key keys more d t t')
