-- ===== src/Autoscaler/Window/Spec.antt =====
-- What the window stands for: all values that were recorded, newest first. A value counts for `size`
-- indexes from its own.
use serving.Prelude.{
  ℕ, ◌-◌, ◌≤◌, ◌<◌, ◌≡◌, refl, Bool, true, false, List, [], ◌∷◌, Option, none, some, ltb, ◌==◌,
  if◌then◌else◌, arith, All, ap, sym, ◌∙◌, Bool-cases, inl, inr,
}
use serving.Prelude.Int.{ℤ, ltb_ℤ}
use serving.Autoscaler.Window.{Entry}

abbrev pub is_recent : ℕ → ℕ → Entry → Bool
is_recent size index e = ltb (index - e.index) size

abbrev pub max_ℤ : ℤ → ℤ → ℤ
max_ℤ a b = if ltb_ℤ a b then b else a

-- The larger of two values that there may be.
abbrev pub join : Option ℤ → Option ℤ → Option ℤ
join none w = w
join (some v) none = some v
join (some v) (some w) = some (max_ℤ v w)

-- The value of an element, if it counts.
abbrev pub counting : ℕ → ℕ → Entry → Option ℤ
counting size index e = if is_recent size index e then some e.value else none

-- The largest of the values that count at an index.
unfoldable pub largest : ℕ → ℕ → List Entry → Option ℤ
largest size index [] = none
largest size index (e ∷ es) = join (counting size index e) (largest size index es)

-- The abstract `Record` on the elements of the window, newest first.
unfoldable pub drop_lower : ℤ → List Entry → List Entry
drop_lower v [] = []
drop_lower v (e ∷ es) = let rest = drop_lower v es in if ltb_ℤ v e.value then e ∷ es else rest

unfoldable pub keep_recent : ℕ → ℕ → List Entry → List Entry
keep_recent size index [] = []
keep_recent size index (e ∷ es) =
    let rest = keep_recent size index es in if is_recent size index e then e ∷ rest else rest

unfoldable pub add_newest : ℕ → ℤ → List Entry → List Entry
add_newest index v [] = record { value = v; index = index } ∷ []
add_newest index v (e ∷ es) =
    if e.index == index
    then record { value = max_ℤ v e.value; index = index } ∷ es
    else record { value = v; index = index } ∷ e ∷ es

unfoldable pub add_value : ℕ → ℕ → ℤ → List Entry → List Entry
add_value size index v es = add_newest index v (keep_recent size index (drop_lower v es))

-- Indexes fall and values grow, from the newest element on.
abbrev pub IsDescending : List Entry → Type 0
IsDescending [] = Unit
IsDescending (e ∷ es) =
    All (λ d. (d.index < e.index) × (ltb_ℤ e.value d.value ≡ true)) es × IsDescending es

-- All elements are at or before the index.
abbrev pub IsBefore : ℕ → List Entry → Type 0
IsBefore index es = All (λ e. e.index ≤ index) es

max_ℤ_assoc : (a b c : ℤ) → max_ℤ (max_ℤ a b) c ≡ max_ℤ a (max_ℤ b c)
max_ℤ_assoc a b c = ground arith

join_assoc : (a b c : Option ℤ) → join (join a b) c ≡ join a (join b c)
join_assoc none b c = refl
join_assoc (some a) none c = refl
join_assoc (some a) (some b) none = refl
join_assoc (some a) (some b) (some c) = ap some (max_ℤ_assoc a b c)

-- A value that counts longer and is not smaller hides another.
join_hides :
    (size j : ℕ) (d e : Entry)
    → e.index ≤ d.index
    → d.index ≤ j
    → ltb_ℤ d.value e.value ≡ false
    → join (counting size j d) (counting size j e) ≡ counting size j d
join_hides size j d e h k n = ground arith

-- Two values of the same index count as one.
join_merges :
    (size index j : ℕ) (v : ℤ) (e : Entry)
    → e.index ≡ index
    → let d : Entry = record { value = v; index = index } in
      join (counting size j d) (counting size j e)
      ≡ counting size j (record { value = max_ℤ v e.value; index = index })
join_merges size index j v e h = ground arith

drop_lower-largest :
    (size index j : ℕ) (v : ℤ) (es : List Entry)
    → index ≤ j
    → IsBefore index es
    → let d : Entry = record { value = v; index = index } in
      largest size j (d ∷ drop_lower v es) ≡ largest size j (d ∷ es)
unfolding largest drop_lower
drop_lower-largest size index j v [] h b = refl
drop_lower-largest size index j v (e ∷ es) h b =
    let d : Entry = record { value = v; index = index } in
    let c = counting size j d in
    elim (Bool-cases (ltb_ℤ v e.value)) [
      | inl k ↦ rw k refl
      | inr k ↦
          let ih : join c (largest size j (drop_lower v es)) ≡ join c (largest size j es) =
            drop_lower-largest size index j v es h b.1 in
          let hide : join c (join (counting size j e) (largest size j es))
              ≡ join c (largest size j es) =
            sym (join_assoc c (counting size j e) (largest size j es))
            ∙ ap (λ x. join x (largest size j es)) (join_hides size j d e b.0 h k) in
          rw k (ih ∙ sym hide)
    ]

keep_recent-largest :
    (size index j : ℕ) (es : List Entry)
    → index ≤ j
    → largest size j (keep_recent size index es) ≡ largest size j es
unfolding largest keep_recent
keep_recent-largest size index j [] h = refl
keep_recent-largest size index j (e ∷ es) h =
    let ih = keep_recent-largest size index j es h in
    elim (Bool-cases (is_recent size index e)) [
      | inl k ↦ rw k (ap (join (counting size j e)) ih)
      | inr k ↦ let gone : is_recent size j e ≡ false = ground arith in rw k (rw gone ih)
    ]

add_newest-largest :
    (size index j : ℕ) (v : ℤ) (es : List Entry)
    → largest size j (add_newest index v es)
      ≡ largest size j (record { value = v; index = index } ∷ es)
unfolding largest add_newest
add_newest-largest size index j v [] = refl
add_newest-largest size index j v (e ∷ es) = elim (Bool-cases (e.index == index)) [
  | inl k ↦
      let d : Entry = record { value = v; index = index } in
      rw k (
        ap (λ x. join x (largest size j es)) (sym (join_merges size index j v e (ground arith)))
        ∙ join_assoc (counting size j d) (counting size j e) (largest size j es))
  | inr k ↦ rw k refl
]

-- Over every later index, the elements after a `Record` have the largest value of those before it
-- and the new one.
pub add_value-largest :
    (size index j : ℕ) (v : ℤ) (es : List Entry)
    → index ≤ j
    → IsBefore index es
    → largest size j (add_value size index v es)
      ≡ largest size j (record { value = v; index = index } ∷ es)
unfolding add_value largest
add_value-largest size index j v es h b =
    let d : Entry = record { value = v; index = index } in
    add_newest-largest size index j v (keep_recent size index (drop_lower v es))
    ∙ ap (join (counting size j d)) (keep_recent-largest size index j (drop_lower v es) h)
    ∙ drop_lower-largest size index j v es h b
