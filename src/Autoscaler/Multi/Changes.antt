-- ===== src/Autoscaler/Multi/Changes.antt =====
-- What the watcher of a key has to know, and what leaves it alone.
use mathlib.Core.List.{Mem}
use serving.Prelude.{
  ℕ, ◌≡◌, ◌≢◌, ◌⊎◌, refl, sym, ◌∙◌, ap, inr, Bool, true, false, not, List, [], ◌∷◌, ◌++◌, Option,
  none, some, some_eq, arith, get_elem?, length, ℕ_discrete, get_elem?-set_self, get_elem?-set_ne,
  get_elem?_bound, get_elem?-append_left, ==_iff,
}
use serving.Prelude.Int.{ℤ}
use serving.Prelude.Str.{Str, str_eq}
use serving.Prelude.Assoc.{lookup, remove, lookup-insert_other, lookup-remove_other}
use serving.Autoscaler.Scaling.{ScaleResult}
use serving.Autoscaler.Multi.{
  Decider, Status, Runner, MultiScaler, put, update_latest_scale, same_sign, sign_bit, is_eq_ℤ,
}
use serving.Autoscaler.Multi.Events.{Event, created, updated, deleted, ticked, published, poked}

-- The desired scale is the same, and so is the sign of the excess burst capacity.
abbrev pub IsSame : Status → Status → Type 0
IsSame s s' =
    (s.desired_scale ≡ s'.desired_scale)
    × (same_sign s.excess_burst_capacity s'.excess_burst_capacity ≡ true)

pub same_sign_trans :
    (a b c : ℤ) → same_sign a b ≡ true → same_sign b c ≡ true → same_sign a c ≡ true
unfolding same_sign
same_sign_trans a b c h k =
    (==_iff (sign_bit a) (sign_bit c)).1
      ((==_iff (sign_bit a) (sign_bit b)).0 h ∙ (==_iff (sign_bit b) (sign_bit c)).0 k)

same_sign_refl : (a : ℤ) → same_sign a a ≡ true
unfolding same_sign
same_sign_refl a = (==_iff (sign_bit a) (sign_bit a)).1 refl

IsSame-refl : (s : Status) → IsSame s s
IsSame-refl s = (refl, same_sign_refl s.excess_burst_capacity)

-- No news: nothing of interest has changed.
pub update_latest_scale-IsSame :
    (r : ScaleResult) (s : Status)
    → (update_latest_scale r s).1 ≡ false
    → IsSame s (update_latest_scale r s).0
unfolding update_latest_scale
update_latest_scale-IsSame r s h =
    let same : is_eq_ℤ s.desired_scale r.desired_pod_count ≡ true = ground (arith, h) in
    let sign : same_sign s.excess_burst_capacity r.excess_burst_capacity ≡ true =
      ground (arith, h) in
    (is_eq_ℤ_lem s.desired_scale r.desired_pod_count same, sign)
  where
    is_eq_ℤ_lem : (a b : ℤ) → is_eq_ℤ a b ≡ true → a ≡ b
    is_eq_ℤ_lem a b h = ground (arith, h)

-- The callers leave the key alone.
abbrev pub leaves : {F T : Type 0} → Str → Event F T → Bool
leaves key (created d t) = not (str_eq d.key key)
leaves key (updated d) = not (str_eq d.key key)
leaves key (deleted other) = not (str_eq other key)
leaves key (ticked id t) = true
leaves key (published id) = true
leaves key (poked other average t) = true

module _ {F U : Type 0} where
  -- What the map has for a key: a runner with the decider.
  pub record Has (m : MultiScaler F U) (key : Str) (d : Decider F) : Type 0 where
    pub id : ℕ
    pub runner : Runner F U
    pub at : lookup key m.scalers ≡ some id
    pub found : get_elem? m.runners id ≡ some runner
    pub decides : runner.decider ≡ d

  -- After an event: the decider has its specification, and its status is the same unless the watcher
  -- got the key.
  pub record Told (m : MultiScaler F U) (key : Str) (keys : List Str) (d : Decider F) : Type 0 where
    pub decider : Decider F
    pub has : Has m key decider
    pub spec_is : decider.spec ≡ d.spec
    pub told : Mem key keys ⊎ IsSame d.status decider.status
    pub watched : m.watched ≡ true

  abbrev pub After : Str → Decider F → Option (MultiScaler F U × List Str) → Type 0
  After key d none = Unit
  After key d (some (m, keys)) = Told m key keys d

  pub unchanged :
      (m : MultiScaler F U) (key : Str) (keys : List Str) (d : Decider F)
      → m.watched ≡ true
      → Has m key d
      → Told m key keys d
  unchanged m key keys d w h = record {
    decider = d;
    has = h;
    spec_is = refl;
    told = inr (IsSame-refl d.status);
    watched = w;
  }

  pub put-Has_other :
      (m : MultiScaler F U) (i : ℕ) (r : Runner F U) (key : Str) (d : Decider F) (h : Has m key d)
      → i ≢ h.id
      → Has (put i r m) key d
  put-Has_other m i r key d h n = record {
    id = h.id;
    runner = h.runner;
    at = h.at;
    found = get_elem?-set_ne m.runners r n ∙ h.found;
    decides = h.decides;
  }

  -- A runner with a decider of the same specification in the place of one: only the status changes.
  pub put-Has :
      (m : MultiScaler F U) (i : ℕ) (r r' : Runner F U) (key : Str) (d : Decider F)
      → get_elem? m.runners i ≡ some r
      → r'.decider ≡ r.decider
      → Has m key d
      → Has (put i r' m) key d
  put-Has m i r r' key d e q h = elim (ℕ_discrete i h.id) [
    | yes same ↦
        let e' : get_elem? m.runners i ≡ some h.runner = rw same h.found in
        record {
          id = h.id;
          runner = r';
          at = h.at;
          found =
              rw (sym same) (get_elem?-set_self m.runners i r' (get_elem?_bound m.runners i r e));
          decides = q ∙ ap (λ (x : Runner F U). x.decider) (some_eq (sym e ∙ e')) ∙ h.decides;
        }
    | no different ↦ put-Has_other m i r' key d h different
  ]

  pub create-Has :
      (m : MultiScaler F U) (other key : Str) (r : Runner F U) (d : Decider F)
      → str_eq other key ≡ false
      → Has m key d
      → Has
          (record m {
            scalers = (other, length m.runners) ∷ m.scalers;
            runners = m.runners ++ (r ∷ []);
          })
          key
          d
  create-Has m other key r d n h = record {
    id = h.id;
    runner = h.runner;
    at = lookup-insert_other other key (length m.runners) m.scalers n ∙ h.at;
    found = get_elem?-append_left m.runners (r ∷ []) h.id h.runner h.found;
    decides = h.decides;
  }

  pub remove-Has :
      (m : MultiScaler F U) (other key : Str) (d : Decider F)
      → str_eq other key ≡ false
      → Has m key d
      → Has (record m { scalers = remove other m.scalers }) key d
  remove-Has m other key d n h = record {
    id = h.id;
    runner = h.runner;
    at = lookup-remove_other other key m.scalers n ∙ h.at;
    found = h.found;
    decides = h.decides;
  }
