-- ===== src/Autoscaler/Window/Ring.antt =====
-- The circular buffer as the list of its elements, newest first.
use native.Mathlib.Nat.{mod-eq_of_lt, mod-eq-sub-mod}
use serving.Prelude.{
  ℕ, zero, suc, ◌+◌, ◌-◌, ◌%◌, ◌≤◌, ◌<◌, ◌≡◌, ◌≢◌, refl, List, [], ◌∷◌, some, ltb, ◌==◌,
  if◌then◌else◌, length, get_elem?, get_or, set, arith, ap, Bool-cases, inl, inr, dec_lt,
}
use serving.Prelude.Int.{ℤ, ltb_ℤ}
use serving.Autoscaler.Window.{
  Entry, Window, no_entry, position, entry_at, remove_lower, merge_last,
}
use serving.Autoscaler.Window.Spec.{drop_lower, add_newest}

-- The element at an index that goes round.
abbrev pub at : List Entry → ℕ → Entry
at maxima i = get_or maxima (i % length maxima) no_entry

abbrev pub view : List Entry → ℕ → ℕ → List Entry
view maxima first zero = []
view maxima first (suc n) = at maxima (first + n) ∷ view maxima first n

abbrev pub contents : Window → List Entry
contents m = view m.maxima m.first m.len

pub record IsRing (m : Window) : Type 0 where
  pub first_in : m.first < length m.maxima
  pub len_in : m.len ≤ length m.maxima

pub get_elem?-get_or {ℓ} :
    {A : Type ℓ} (xs : List A) (i : ℕ) (d : A)
    → i < length xs
    → get_elem? xs i ≡ some (get_or xs i d)
get_elem?-get_or [] i d h = absurd (omega arith)
get_elem?-get_or (x ∷ xs) zero d h = refl
get_elem?-get_or (x ∷ xs) (suc i) d h = get_elem?-get_or xs i d (omega arith)

pub get_or-set_ne {ℓ} :
    {A : Type ℓ} (xs : List A) (i j : ℕ) (v d : A) → i ≢ j → get_or (set xs i v) j d ≡ get_or xs j d
get_or-set_ne [] i j v d h = refl
get_or-set_ne (x ∷ xs) zero zero v d h = absurd (h refl)
get_or-set_ne (x ∷ xs) zero (suc j) v d h = refl
get_or-set_ne (x ∷ xs) (suc i) zero v d h = refl
get_or-set_ne (x ∷ xs) (suc i) (suc j) v d h = get_or-set_ne xs i j v d (λ e. h (ap suc e))

pub get_or-set_self {ℓ} :
    {A : Type ℓ} (xs : List A) (i : ℕ) (v d : A) → i < length xs → get_or (set xs i v) i d ≡ v
get_or-set_self [] i v d h = absurd (omega arith)
get_or-set_self (x ∷ xs) zero v d h = refl
get_or-set_self (x ∷ xs) (suc i) v d h = get_or-set_self xs i v d (omega arith)

-- One time round at most.
pub mod_once : (i s : ℕ) → i < s + s → i % s ≡ (if ltb i s then i else i - s)
mod_once i s h = elim (dec_lt i s) [
  | yes p ↦ ground (arith, mod-eq_of_lt p)
  | no p ↦ ground (
    arith,
    mod-eq-sub-mod {n = i} {m = s} (omega arith),
    mod-eq_of_lt {n = i - s} {m = s} (omega arith),
  )
]

pub position_lem :
    (maxima : List Entry) (i : ℕ) → 0 < length maxima → position maxima i ≡ some (i % length maxima)
position_lem maxima i h = ground arith

pub entry_at_lem :
    (maxima : List Entry) (i : ℕ) → 0 < length maxima → entry_at maxima i ≡ some (at maxima i)
entry_at_lem maxima i h =
    rw (position_lem maxima i h)
      (get_elem?-get_or maxima (i % length maxima) no_entry (omega arith))

pub remove_lower_refines :
    (v : ℤ) (maxima : List Entry) (first n : ℕ)
    → 0 < length maxima
    → (n' : ℕ) × (remove_lower v maxima first n ≡ some n')
      × (view maxima first n' ≡ drop_lower v (view maxima first n))
      × (n' ≤ n)
unfolding remove_lower drop_lower
remove_lower_refines v maxima first zero h = (0, refl, refl, omega arith)
remove_lower_refines v maxima first (suc n) h =
    let (n', e, w, l) = remove_lower_refines v maxima first n h in
    elim (Bool-cases (ltb_ℤ v (at maxima (first + n)).value)) [
      | inl k ↦ (suc n, rw (entry_at_lem maxima (first + n) h) (rw k refl), rw k refl, omega arith)
      | inr k ↦ (n', rw (entry_at_lem maxima (first + n) h) (rw k e), rw k w, omega (arith, l))
    ]

pub merge_last_refines :
    (index : ℕ) (v : ℤ) (maxima : List Entry) (first n : ℕ)
    → 0 < length maxima
    → (v' : ℤ) × (n' : ℕ) × (merge_last index v maxima first n ≡ some (v', n'))
      × (add_newest index v (view maxima first n)
          ≡ record { value = v'; index = index } ∷ view maxima first n')
unfolding merge_last add_newest
merge_last_refines index v maxima first zero h = (v, 0, refl, refl)
merge_last_refines index v maxima first (suc n) h =
    let e = at maxima (first + n) in
    elim (Bool-cases (e.index == index)) [
      | inl k ↦ (
        if ltb_ℤ v e.value then e.value else v,
        n,
        rw (entry_at_lem maxima (first + n) h) (rw k refl),
        rw k refl,
      )
      | inr k ↦ (v, suc n, rw (entry_at_lem maxima (first + n) h) (rw k refl), rw k refl)
    ]
