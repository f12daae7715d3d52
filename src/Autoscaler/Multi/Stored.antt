-- ===== src/Autoscaler/Multi/Stored.antt =====
-- What deletions and results change for a key.
use mathlib.Core.List.{mem-cons_self}
use serving.Prelude.{
  ℕ, ◌≡◌, ◌≢◌, refl, sym, ◌∙◌, ap, subst, inl, inr, true, false, ◌&&◌, [], ◌∷◌, Option, none, some,
  some_eq, get_elem?, ◌>>=◌, Option-cases, Bool-cases, ℕ_discrete, get_elem?-set_self,
  get_elem?_bound, if◌then◌else◌,
}
use serving.Prelude.Str.{Str, str_eq}
use serving.Prelude.Assoc.{lookup, remove, Entries, lookup-Entries}
use serving.Autoscaler.Scaling.{ScaleResult}
use serving.Autoscaler.Multi.{
  Decider, Runner, MultiScaler, delete, publish, put, update_latest_scale,
}
use serving.Autoscaler.Multi.Guard.{Live}
use serving.Autoscaler.Multi.Changes.{
  IsSame, update_latest_scale-IsSame, Has, Told, After, unchanged, put-Has_other, put-Has,
  remove-Has,
}

module _ {F U : Type 0} where
  pub delete-After :
      (m : MultiScaler F U) (other key : Str) (d : Decider F)
      → Entries (Live m.runners) m.scalers
      → str_eq other key ≡ false
      → m.watched ≡ true
      → Has m key d
      → After key d (do m' ← delete other m; some (m', []))
  unfolding delete
  delete-After m other key d g n w h = elim (Option-cases (lookup other m.scalers)) [
    | inl e ↦ rw (delete, e) (unchanged m key [] d w h)
    | inr (id, e) ↦
        let l = lookup-Entries (Live m.runners) other id m.scalers g e in
        let r' : Runner F U = record (l.runner) { stopped = true } in
        let m' = record (put id r' m) { scalers = remove other m.scalers } in
        rw (delete, e)
          (rw (l.found) (
            rw (l.running) (
              unchanged m' key [] d w (
                remove-Has (put id r' m) other key d n
                  (put-Has m id l.runner r' key d l.found refl h)))))
  ]

  -- The result of the key's own runner.
  publish_own :
      (m : MultiScaler F U) (key : Str) (d : Decider F) (r : Runner F U) (result : ScaleResult)
      → r.metric_key ≡ key
      → m.watched ≡ true
      → (h : Has m key d) → h.runner ≡ r
      → let (s, news) = update_latest_scale result (r.decider).status in
        let decider = record (r.decider) { status = s } in
        Told
          (put h.id (record r { decider = decider; pending = none }) m)
          key
          (if news && m.watched then r.metric_key ∷ [] else [])
          d
  publish_own m key d r result o w h q =
      let (s, news) = update_latest_scale result (r.decider).status in
      let decider = record (r.decider) { status = s } in
      let r' : Runner F U = record r { decider = decider; pending = none } in
      let same : r.decider ≡ d = ap (λ (x : Runner F U). x.decider) (sym q) ∙ h.decides in
      record {
        decider = decider;
        has = record {
          id = h.id;
          runner = r';
          at = h.at;
          found =
              get_elem?-set_self m.runners h.id r'
                (get_elem?_bound m.runners h.id h.runner h.found);
          decides = refl;
        };
        spec_is = ap (λ (x : Decider F). x.spec) same;
        told = elim (Bool-cases news) [
          | inl n ↦ inl (rw n (rw w (rw o mem-cons_self)))
          | inr n ↦ inr (
              subst (λ (x : Decider F). IsSame x.status s) same
                (update_latest_scale-IsSame result (r.decider).status n))
        ];
        watched = w;
      }

  pub publish-After :
      (m : MultiScaler F U) (id : ℕ) (key : Str) (d : Decider F)
      → Entries (Live m.runners) m.scalers
      → m.watched ≡ true
      → Has m key d
      → After key d (publish id m)
  unfolding publish
  publish-After m id key d g w h = go (get_elem? m.runners id) refl
    where
      own : (r : Runner F U) → get_elem? m.runners h.id ≡ some r → r.metric_key ≡ key
      own r e =
          let l = lookup-Entries (Live m.runners) key h.id m.scalers g h.at in
          ap (λ (x : Runner F U). x.metric_key) (some_eq (sym e ∙ l.found)) ∙ l.own

      stored :
          (r : Runner F U)
          → get_elem? m.runners id ≡ some r
          → (p : Option ScaleResult) → r.pending ≡ p
          → After key d (publish id m)
      stored r e none k = rw (publish, e) (rw k (unchanged m key [] d w h))
      stored r e (some result) k = elim (ℕ_discrete h.id id) [
        | yes same ↦
            let e' : get_elem? m.runners h.id ≡ some r = rw same e in
            let told = publish_own m key d r result (own r e') w h (some_eq (sym h.found ∙ e')) in
            rw (publish, e) (rw k (rw (sym same) told))
        | no different ↦
            let other : id ≢ h.id = λ x. different (sym x) in
            rw (publish, e) (rw k (unchanged _ key _ d w (put-Has_other m id _ key d h other)))
      ]

      go : (o : Option (Runner F U)) → get_elem? m.runners id ≡ o → After key d (publish id m)
      go none e = rw (publish, e) (unchanged m key [] d w h)
      go (some r) e = stored r e r.pending refl
