-- ===== src/Autoscaler/Window/Order.antt =====
-- The order of the elements, that there is room for them, and that the oldest has the largest value.
use serving.Prelude.{
  ℕ, ◌+◌, ◌-◌, ◌≤◌, ◌<◌, ◌≡◌, refl, ◌⊎◌, true, List, [], ◌∷◌, Option, none, some, ◌==◌, length,
  arith, All, Bool-cases, inl, inr, some_eq, subst,
}
use serving.Prelude.Int.{ℤ, ltb_ℤ}
use serving.Autoscaler.Window.{Entry}
use serving.Autoscaler.Window.Spec.{
  is_recent, largest, drop_lower, keep_recent, add_newest, add_value, IsDescending, IsBefore,
}

-- What holds of the elements after a `Record` at `index`.
pub record IsWindow (size index : ℕ) (es : List Entry) : Type 0 where
  pub descending : IsDescending es
  pub before : IsBefore index es
  pub recent : All (λ e. is_recent size index e ≡ true) es

abbrev Above : ℤ → List Entry → Type 0
Above v es = All (λ d. ltb_ℤ v d.value ≡ true) es

Above-trans : (v w : ℤ) (es : List Entry) → ltb_ℤ v w ≡ true → Above w es → Above v es
Above-trans v w [] h a = tt
Above-trans v w (e ∷ es) h a = (ground (arith, a.0), Above-trans v w es h a.1)

values-Above :
    (e : Entry) (es : List Entry)
    → All (λ d. (d.index < e.index) × (ltb_ℤ e.value d.value ≡ true)) es
    → Above e.value es
values-Above e [] h = tt
values-Above e (d ∷ es) h = (h.0.1, values-Above e es h.1)

pub drop_lower-lem :
    (v : ℤ) (index : ℕ) (es : List Entry)
    → IsDescending es
    → IsBefore index es
    → IsDescending (drop_lower v es) × IsBefore index (drop_lower v es) × Above v (drop_lower v es)
unfolding drop_lower
drop_lower-lem v index [] h b = (tt, tt, tt)
drop_lower-lem v index (e ∷ es) h b = elim (Bool-cases (ltb_ℤ v e.value)) [
  | inl k ↦ rw k (h, b, (k, Above-trans v e.value es k (values-Above e es h.0)))
  | inr k ↦ rw k (drop_lower-lem v index es h.1 b.1)
]

keep_recent-All {κ} :
    (P : Entry → Type κ) (size index : ℕ) (es : List Entry)
    → All P es
    → All P (keep_recent size index es)
unfolding keep_recent
keep_recent-All P size index [] h = tt
keep_recent-All P size index (e ∷ es) h = elim (Bool-cases (is_recent size index e)) [
  | inl k ↦ rw k (h.0, keep_recent-All P size index es h.1)
  | inr k ↦ rw k (keep_recent-All P size index es h.1)
]

keep_recent-recent :
    (size index : ℕ) (es : List Entry)
    → All (λ e. is_recent size index e ≡ true) (keep_recent size index es)
unfolding keep_recent
keep_recent-recent size index [] = tt
keep_recent-recent size index (e ∷ es) = elim (Bool-cases (is_recent size index e)) [
  | inl k ↦ rw k (k, keep_recent-recent size index es)
  | inr k ↦ rw k (keep_recent-recent size index es)
]

keep_recent-IsDescending :
    (size index : ℕ) (es : List Entry) → IsDescending es → IsDescending (keep_recent size index es)
unfolding keep_recent
keep_recent-IsDescending size index [] h = tt
keep_recent-IsDescending size index (e ∷ es) h = elim (Bool-cases (is_recent size index e)) [
  | inl k ↦ rw k (
    keep_recent-All (λ d. (d.index < e.index) × (ltb_ℤ e.value d.value ≡ true)) size index es h.0,
    keep_recent-IsDescending size index es h.1,
  )
  | inr k ↦ rw k (keep_recent-IsDescending size index es h.1)
]

-- The elements older than the newest are below `index` and above `v`.
below_new :
    (v : ℤ) (index : ℕ) (e : Entry) (es : List Entry)
    → e.index ≤ index
    → All (λ d. (d.index < e.index) × (ltb_ℤ e.value d.value ≡ true)) es
    → Above v es
    → All (λ d. (d.index < index) × (ltb_ℤ v d.value ≡ true)) es
below_new v index e [] h a u = tt
below_new v index e (d ∷ es) h a u = ((omega (arith, a.0.0), u.0), below_new v index e es h a.1 u.1)

add_newest-IsWindow :
    (size index : ℕ) (v : ℤ) (es : List Entry)
    → 0 < size
    → IsWindow size index es
    → Above v es
    → IsWindow size index (add_newest index v es)
unfolding add_newest
add_newest-IsWindow size index v [] p w u = record {
  descending = (tt, tt);
  before = (omega arith, tt);
  recent = (ground arith, tt);
}
add_newest-IsWindow size index v (e ∷ es) p w u = elim (Bool-cases (e.index == index)) [
  | inl k ↦
      let same : e.index ≡ index = ground (arith, k) in
      rw k (record {
        descending = rw (u.0) (rw (← same) w.descending);
        before = (omega arith, w.before.1);
        recent = (ground arith, w.recent.1);
      })
  | inr k ↦
      let less : e.index < index = ground (arith, k, w.before.0) in
      rw k (record {
        descending =
            (((less, u.0), below_new v index e es w.before.0 w.descending.0 u.1), w.descending);
        before = (omega arith, w.before);
        recent = (ground arith, w.recent);
      })
]

pub add_value-IsWindow :
    (size index last : ℕ) (v : ℤ) (es : List Entry)
    → 0 < size
    → last ≤ index
    → IsWindow size last es
    → IsWindow size index (add_value size index v es)
unfolding add_value
add_value-IsWindow size index last v es p h w =
    let (d, b, u) = drop_lower-lem v index es w.descending (before_later es w.before) in
    let kept : List Entry = keep_recent size index (drop_lower v es) in
    let k : IsWindow size index kept = record {
      descending = keep_recent-IsDescending size index (drop_lower v es) d;
      before = keep_recent-All (λ e. e.index ≤ index) size index (drop_lower v es) b;
      recent = keep_recent-recent size index (drop_lower v es);
    } in
    add_newest-IsWindow size index v kept p k
      (keep_recent-All (λ e. ltb_ℤ v e.value ≡ true) size index (drop_lower v es) u)
  where
    before_later : (es : List Entry) → IsBefore last es → IsBefore index es
    before_later [] b = tt
    before_later (e ∷ es) b = (omega (arith, b.0, h), before_later es b.1)

-- Falling numbers from a range are no more than the range has.
length-range :
    (lo hi : ℕ) (es : List Entry)
    → IsDescending es
    → All (λ e. lo ≤ e.index) es
    → All (λ e. e.index < hi) es
    → length es + lo ≤ hi ⊎ (es ≡ [])
length-range lo hi [] d a b = inr refl
length-range lo hi (e ∷ es) d a b = elim (length-range lo e.index es d.1 a.1 (indexes es d.0)) [
  | inl h ↦ inl (omega (arith, h, b.0))
  | inr h ↦ inl (rw h (omega (arith, a.0, b.0)))
]
  where
    indexes :
        (es : List Entry)
        → All (λ d. (d.index < e.index) × (ltb_ℤ e.value d.value ≡ true)) es
        → All (λ d. d.index < e.index) es
    indexes [] h = tt
    indexes (d ∷ es) h = (h.0.0, indexes es h.1)

pub length-IsWindow : (size index : ℕ) (es : List Entry) → IsWindow size index es → length es ≤ size
length-IsWindow size index es w =
    elim (length-range (index + 1 - size) (index + 1) es w.descending (low es w.recent)
      (high es w.before)) [ inl h ↦ omega (arith, h) | inr h ↦ rw h (omega arith) ]
  where
    low :
        (es : List Entry)
        → All (λ e. is_recent size index e ≡ true) es
        → All (λ e. index + 1 - size ≤ e.index) es
    low [] h = tt
    low (e ∷ es) h = (ground (arith, h.0), low es h.1)

    high : (es : List Entry) → IsBefore index es → All (λ e. e.index < index + 1) es
    high [] h = tt
    high (e ∷ es) h = (omega (arith, h.0), high es h.1)

-- The oldest element.
abbrev pub oldest : List Entry → Option Entry
oldest [] = none
oldest (e ∷ []) = some e
oldest (e ∷ d ∷ es) = oldest (d ∷ es)

oldest-All {κ} :
    (P : Entry → Type κ) (es : List Entry) (o : Entry) → All P es → oldest es ≡ some o → P o
oldest-All P [] o h e = absurd (ground (arith, e))
oldest-All P (d ∷ []) o h e = subst P (some_eq e) h.0
oldest-All P (c ∷ d ∷ es) o h e = oldest-All P (d ∷ es) o h.1 e

-- The oldest element has the largest value.
pub largest-oldest :
    (size index : ℕ) (e : Entry) (es : List Entry)
    → IsDescending (e ∷ es)
    → All (λ e. is_recent size index e ≡ true) (e ∷ es)
    → (o : Entry) × (oldest (e ∷ es) ≡ some o) × (largest size index (e ∷ es) ≡ some o.value)
unfolding largest
largest-oldest size index e [] d r = (e, refl, rw (r.0) refl)
largest-oldest size index e (f ∷ es) d r =
    let (o, k, l) = largest-oldest size index f es d.1 r.1 in
    let more =
      oldest-All (λ d. (d.index < e.index) × (ltb_ℤ e.value d.value ≡ true)) (f ∷ es) o d.0 k in
    (o, k, rw (r.0) (rw l (rw (more.1) refl)))
