-- ===== src/Kpa/Decider.antt =====
-- What the reconciliation leaves in the multiscaler.
use serving.Prelude.{
  ◌≡◌, ◌⊎◌, inl, inr, refl, sym, ◌∙◌, ap, Bool, true, false, [], ◌∷◌, ◌++◌, Option, none, some,
  some_eq, length, get_elem?, >>=-eq-some, Bool-cases, Option-cases, get_elem?-set_self,
  get_elem?_bound, get_elem?-append_end,
}
use serving.Prelude.Str.{Str}
use serving.Prelude.Assoc.{lookup, Entries, lookup-Entries, lookup-insert_self}
use serving.Autoscaler.Scaling.{Float}
use serving.Autoscaler.Multi.{
  Decider, Status, UniScaler, Runner, MultiScaler, get, get_runner, create_runner, initial_status,
  create, update, put,
}
use serving.Autoscaler.Multi.Guard.{Live}
use serving.Autoscaler.Multi.Changes.{Has}
use serving.Kpa.Defs.{update_decider, reconcile_decider}

module _ {F U : Type 0} where
  get-Has : (m : MultiScaler F U) (key : Str) (d : Decider F) → get key m ≡ some d → Has m key d
  unfolding get get_runner
  get-Has m key d h =
      let (r, e, k) = >>=-eq-some (get_runner key m) (λ r. some r.decider) h in
      let (id, l, g) = >>=-eq-some (lookup key m.scalers) (λ id. get_elem? m.runners id) e in
      record { id = id; runner = r; at = l; found = g; decides = some_eq k }

  Has-get : (m : MultiScaler F U) (key : Str) (d : Decider F) → Has m key d → get key m ≡ some d
  unfolding get get_runner
  Has-get m key d h = rw (h.at) (rw (h.found) (ap (λ x. some x) h.decides))

  absent :
      (m : MultiScaler F U) (key : Str)
      → Entries (Live m.runners) m.scalers
      → get key m ≡ none
      → lookup key m.scalers ≡ none
  unfolding get get_runner
  absent m key g h = elim (Option-cases (lookup key m.scalers)) [
    | inl e ↦ e
    | inr (id, e) ↦
        let l = lookup-Entries (Live m.runners) key id m.scalers g e in
        let there : get key m ≡ some (l.runner).decider =
          Has-get m key (l.runner).decider
            (record { id = id; runner = l.runner; at = e; found = l.found; decides = refl }) in
        cc
  ]

module _ {F U T : Type 0} (f : Float F) (uni : UniScaler F U T)
    (same : Decider F → Decider F → Bool)
    (same_eq : (a b : Decider F) → same a b ≡ true → a ≡ b) where
  -- The multiscaler has the decider that is returned: the desired one with this status.
  abbrev pub Leaves : Decider F → Status → MultiScaler F U × Option (Decider F) → Type 0
  Leaves desired status o =
      let wanted : Decider F = record desired { status = status } in
      (m : MultiScaler F U) × (o ≡ (m, some wanted)) × (get desired.key m ≡ some wanted)

  update_decider-Leaves :
      (desired d : Decider F) (m : MultiScaler F U)
      → Has m desired.key d
      → Leaves desired d.status (update_decider f uni same desired d m)
  unfolding update_decider update
  update_decider-Leaves desired d m h =
      let wanted : Decider F = record desired { status = d.status } in
      elim (Bool-cases (same wanted d)) [
        | inl e ↦
            let q = same_eq wanted d e in
            (
              m,
              rw e (ap (λ x. (m, some x)) (sym q)),
              Has-get m desired.key d h ∙ ap (λ x. some x) (sym q),
            )
        | inr e ↦
            let r' : Runner F U = record (h.runner) {
              decider = wanted;
              scaler = uni.update desired.spec (h.runner).scaler;
            } in
            (
              put h.id r' m,
              rw e (rw (h.at) (rw (h.found) refl)),
              Has-get (put h.id r' m) desired.key wanted (record {
                id = h.id;
                runner = r';
                at = h.at;
                found =
                    get_elem?-set_self m.runners h.id r'
                      (get_elem?_bound m.runners h.id h.runner h.found);
                decides = refl;
              }),
            )
      ]

  create-Has :
      (t : T) (d : Decider F) (m : MultiScaler F U) (u : U)
      → lookup d.key m.scalers ≡ none
      → uni.create_scaler t d ≡ some u
      → let created : Decider F = record d { status = initial_status f uni d.spec } in
        (m' : MultiScaler F U) × (create f uni t d m ≡ (m', some created)) × Has m' d.key created
  unfolding create create_runner
  create-Has t d m u e k =
      let created : Decider F = record d { status = initial_status f uni d.spec } in
      let r : Runner F U = record {
        scaler = u;
        decider = created;
        stopped = false;
        metric_key = d.key;
        pending = none;
      } in
      let id = length m.runners in
      (
        record m { scalers = (d.key, id) ∷ m.scalers; runners = m.runners ++ (r ∷ []) },
        rw (create, e) (rw k refl),
        record {
          id = id;
          runner = r;
          at = lookup-insert_self d.key id m.scalers;
          found = get_elem?-append_end m.runners r;
          decides = refl;
        },
      )

  create_fails :
      (t : T) (d : Decider F) (m : MultiScaler F U)
      → lookup d.key m.scalers ≡ none
      → uni.create_scaler t d ≡ none
      → create f uni t d m ≡ (m, none)
  unfolding create create_runner
  create_fails t d m e k = rw (create, e) (rw k refl)

  -- Where every key of the map has a runner: the reconciliation fails exactly if there is no decider and
  -- the factory fails, and nothing changes then. Else the multiscaler has the desired decider afterwards,
  -- which is returned: with the status that was there, or with the initial one if there was none.
  pub reconcile_decider_lem :
      (t : T) (desired : Decider F) (m : MultiScaler F U)
      → Entries (Live m.runners) m.scalers
      → let o = reconcile_decider f uni same t desired m in
        ((d : Decider F) × (get desired.key m ≡ some d) × Leaves desired d.status o)
        ⊎ (((get desired.key m ≡ none) × (uni.create_scaler t desired ≡ none) × (o ≡ (m, none)))
            ⊎ ((get desired.key m ≡ none) × Leaves desired (initial_status f uni desired.spec) o))
  unfolding reconcile_decider
  reconcile_decider_lem t desired m g = elim (Option-cases (get desired.key m)) [
    | inr (d, e) ↦ inl (
      d,
      e,
      rw (reconcile_decider, e) (update_decider-Leaves desired d m (get-Has m desired.key d e)),
    )
    | inl e ↦
        let l = absent m desired.key g e in
        elim (Option-cases (uni.create_scaler t desired)) [
          | inl k ↦
              inr (inl (e, k, rw (reconcile_decider, e) (rw (create_fails t desired m l k) refl)))
          | inr (u, k) ↦
              let (m', c, h) = create-Has t desired m u l k in
              let created : Decider F = record desired {
                status = initial_status f uni desired.spec;
              } in
              inr (
                inr (
                  e,
                  rw (reconcile_decider, e) (rw c (update_decider-Leaves desired created m' h)),
                ))
        ]
  ]
