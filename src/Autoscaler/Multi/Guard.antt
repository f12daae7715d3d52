-- ===== src/Autoscaler/Multi/Guard.antt =====
-- What every event keeps, and that none panics.
use serving.Prelude.{
  ℕ, ◌≤◌, ◌≡◌, ◌≢◌, refl, sym, ◌∙◌, ap, subst, inl, inr, ℕ_discrete, arith, true, false, List, [],
  ◌∷◌, ◌++◌, Option, none, some, some_eq, length, get_elem?, set, Option-cases, All, All-set,
  All-append, All-map, get_elem?-All, get_elem?-append_left, get_elem?-append_end, get_elem?_bound,
  get_elem?-set_self, get_elem?-set_ne,
}
use serving.Prelude.Str.{Str, str_eq, str_eq_refl}
use serving.Prelude.Assoc.{
  lookup, remove, Entries, lookup-Entries, remove-Entries-other, Entries-map,
}
use serving.Autoscaler.Scaling.{Float}
use serving.Autoscaler.Multi.{
  Decider, UniScaler, Runner, MultiScaler, create_runner, create, delete, put,
}
use serving.Autoscaler.Multi.Events.{Event, created, updated, deleted, ticked, published, poked}
use serving.Autoscaler.Multi.Laws.{UniScalerLaws}

module _ {F U : Type 0} where
  -- The runner that the map has for a key: it is not stopped, and it is the key's.
  pub record Live (rs : List (Runner F U)) (key : Str) (id : ℕ) : Type 0 where
    pub runner : Runner F U
    pub found : get_elem? rs id ≡ some runner
    pub running : runner.stopped ≡ false
    pub own : runner.metric_key ≡ key
    pub named : (runner.decider).key ≡ key

  Live-append :
      (rs : List (Runner F U)) (r : Runner F U) (key : Str) (id : ℕ)
      → Live rs key id
      → Live (rs ++ (r ∷ [])) key id
  Live-append rs r key id l = record {
    runner = l.runner;
    found = get_elem?-append_left rs (r ∷ []) id l.runner l.found;
    running = l.running;
    own = l.own;
    named = l.named;
  }

  Live-set_ne :
      (rs : List (Runner F U)) (r : Runner F U) (i : ℕ) (key : Str) (id : ℕ)
      → i ≢ id
      → Live rs key id
      → Live (set rs i r) key id
  Live-set_ne rs r i key id n l = record {
    runner = l.runner;
    found = get_elem?-set_ne rs r n ∙ l.found;
    running = l.running;
    own = l.own;
    named = l.named;
  }

  -- A runner in the place of one that has the same keys and runs as well.
  Live-set :
      (rs : List (Runner F U)) (r r' : Runner F U) (i : ℕ)
      → get_elem? rs i ≡ some r
      → r'.stopped ≡ r.stopped
      → r'.metric_key ≡ r.metric_key
      → (r'.decider).key ≡ (r.decider).key
      → (key : Str) (id : ℕ) → Live rs key id
      → Live (set rs i r') key id
  Live-set rs r r' i e s o n key id l = elim (ℕ_discrete i id) [
    | yes same ↦
        let e' : get_elem? rs i ≡ some l.runner = rw same l.found in
        let q : r ≡ l.runner = some_eq (sym e ∙ e') in
        record {
          runner = r';
          found = rw (sym same) (get_elem?-set_self rs i r' (get_elem?_bound rs i r e));
          running = s ∙ ap (λ (x : Runner F U). x.stopped) q ∙ l.running;
          own = o ∙ ap (λ (x : Runner F U). x.metric_key) q ∙ l.own;
          named = n ∙ ap (λ (x : Runner F U). (x.decider).key) q ∙ l.named;
        }
    | no different ↦ Live-set_ne rs r' i key id different l
  ]

  -- Different keys have different runners.
  pub Live-apart :
      (rs : List (Runner F U)) (key other : Str) (id i : ℕ)
      → str_eq other key ≡ false
      → Live rs key id
      → Live rs other i
      → id ≢ i
  Live-apart rs key other id i n l k e =
      let found : get_elem? rs id ≡ some k.runner = rw e k.found in
      let same : l.runner ≡ k.runner = some_eq (sym l.found ∙ found) in
      let keys : key ≡ other = sym l.own ∙ ap (λ (x : Runner F U). x.metric_key) same ∙ k.own in
      let no : str_eq key key ≡ false = subst (λ x. str_eq x key ≡ false) (sym keys) n in
      ground (arith, no, str_eq_refl key)

module _ {F U T : Type 0} (f : Float F) (uni : UniScaler F U T) (time : T → ℕ)
    (IsGood : ℕ → U → Type 0) where
  abbrev pub AllGood : ℕ → List (Runner F U) → Type 0
  AllGood last = All (λ (r : Runner F U). IsGood last r.scaler)

  -- `last` is the time of the last tick.
  pub record IsGuarded (last : ℕ) (m : MultiScaler F U) : Type 0 where
    pub entries : Entries (Live m.runners) m.scalers
    pub good : AllGood last m.runners

  -- The time of the last tick after an event.
  abbrev pub after : ℕ → Event F T → ℕ
  after last (created d t) = last
  after last (updated d) = last
  after last (deleted key) = last
  after last (ticked id t) = time t
  after last (published id) = last
  after last (poked key average t) = time t

  -- Ticks are in the order of time.
  abbrev pub IsOrdered : ℕ → List (Event F T) → Type 0
  IsOrdered last [] = Unit
  IsOrdered last (e ∷ es) = (last ≤ after last e) × IsOrdered (after last e) es

  abbrev pub end_time : ℕ → List (Event F T) → ℕ
  end_time last [] = last
  end_time last (e ∷ es) = end_time (after last e) es

  module _ (laws : UniScalerLaws uni time IsGood) where
    AllGood-later :
        (last now : ℕ) (rs : List (Runner F U)) → last ≤ now → AllGood last rs → AllGood now rs
    AllGood-later last now rs h =
        All-map (λ (r : Runner F U). IsGood last r.scaler) (λ (r : Runner F U). IsGood now r.scaler)
          rs (λ r. laws.kept last now r.scaler h)

    pub IsGuarded-later :
        (last now : ℕ) (m : MultiScaler F U) → last ≤ now → IsGuarded last m → IsGuarded now m
    IsGuarded-later last now m h g = record {
      entries = g.entries;
      good = AllGood-later last now m.runners h g.good;
    }

    pub put-IsGuarded :
        (last : ℕ) (m : MultiScaler F U) (id : ℕ) (r r' : Runner F U)
        → IsGuarded last m
        → get_elem? m.runners id ≡ some r
        → r'.stopped ≡ r.stopped
        → r'.metric_key ≡ r.metric_key
        → (r'.decider).key ≡ (r.decider).key
        → IsGood last r'.scaler
        → IsGuarded last (put id r' m)
    put-IsGuarded last m id r r' g e s o n good = record {
      entries =
          Entries-map (Live m.runners) (Live (set m.runners id r')) m.scalers
            (Live-set m.runners r r' id e s o n) g.entries;
      good = All-set (λ (x : Runner F U). IsGood last x.scaler) m.runners id r' g.good good;
    }

    pub runner_good :
        (last : ℕ) (m : MultiScaler F U) (id : ℕ) (r : Runner F U)
        → IsGuarded last m
        → get_elem? m.runners id ≡ some r
        → IsGood last r.scaler
    runner_good last m id r g =
        get_elem?-All (λ (x : Runner F U). IsGood last x.scaler) m.runners id r g.good

    insert-IsGuarded :
        (last : ℕ) (key : Str) (r : Runner F U) (m : MultiScaler F U)
        → IsGuarded last m
        → r.stopped ≡ false
        → r.metric_key ≡ key
        → (r.decider).key ≡ key
        → IsGood last r.scaler
        → IsGuarded last (record m {
          scalers = (key, length m.runners) ∷ m.scalers;
          runners = m.runners ++ (r ∷ []);
        })
    insert-IsGuarded last key r m g s o n good = record {
      entries = (
        record {
          runner = r;
          found = get_elem?-append_end m.runners r;
          running = s;
          own = o;
          named = n;
        },
        Entries-map (Live m.runners) (Live (m.runners ++ (r ∷ []))) m.scalers
            (Live-append m.runners r) g.entries,
      );
      good =
          All-append (λ (x : Runner F U). IsGood last x.scaler) m.runners (r ∷ []) g.good
            (good, tt);
    }

    pub create-IsGuarded :
        (last : ℕ) (t : T) (d : Decider F) (m : MultiScaler F U)
        → IsGuarded last m
        → IsGuarded last (create f uni t d m).0
    unfolding create create_runner
    create-IsGuarded last t d m g = go (lookup d.key m.scalers) refl (uni.create_scaler t d) refl
      where
        go :
            (o : Option ℕ)
            → lookup d.key m.scalers ≡ o
            → (c : Option U) → uni.create_scaler t d ≡ c
            → IsGuarded last (create f uni t d m).0
        go (some id) e c k = rw (create, e) g
        go none e none k = rw (create, e) (rw k g)
        go none e (some u) k =
            rw (create, e)
              (rw k (insert-IsGuarded last d.key _ m g refl refl refl (laws.created t d u last k)))

    pub delete-IsGuarded :
        (last : ℕ) (key : Str) (m : MultiScaler F U)
        → IsGuarded last m
        → (m' : MultiScaler F U) × (delete key m ≡ some m') × IsGuarded last m'
    unfolding delete
    delete-IsGuarded last key m g = elim (Option-cases (lookup key m.scalers)) [
      | inl e ↦ (m, rw (delete, e) refl, g)
      | inr (id, e) ↦
          let l = lookup-Entries (Live m.runners) key id m.scalers g.entries e in
          let r' : Runner F U = record (l.runner) { stopped = true } in
          let m' = record (put id r' m) { scalers = remove key m.scalers } in
          (
            m',
            rw (delete, e) (rw (l.found) (rw (l.running) refl)),
            record {
              entries =
                  remove-Entries-other (Live m.runners) (Live (set m.runners id r')) key m.scalers
                    (λ j i n k.
                      Live-set_ne m.runners r' id j i (Live-apart m.runners key j id i n l k) k)
                    g.entries;
              good =
                  All-set (λ (x : Runner F U). IsGood last x.scaler) m.runners id r' g.good
                    (runner_good last m id l.runner g l.found);
            },
          )
    ]
