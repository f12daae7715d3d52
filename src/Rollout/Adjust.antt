-- ===== src/Rollout/Adjust.antt =====
-- What the loops of rollout.go do to the sum of the revisions' percentages.
use mathlib.Core.List.{reverse-cons}
use serving.Prelude.{
  ℕ, ◌+◌, ◌-◌, ◌≤◌, ◌<◌, ◌≡◌, refl, ap, List, [], ◌∷◌, ◌++◌, reverse, some, arith, ltb, ◌==◌,
  ==_iff, Bool-cases, inl, inr, tests, ltb→lt,
}
use serving.Rollout.Defs.{
  RevisionRollout, ConfigurationRollout, total, remove_oldest, add_to_last, adjust_percentage,
  drain, take_one, drop_zeros,
}

pub total-append : (xs ys : List RevisionRollout) → total (xs ++ ys) ≡ total xs + total ys
total-append [] ys = omega arith
total-append (x ∷ xs) ys = omega (arith, total-append xs ys)

pub total-reverse : (xs : List RevisionRollout) → total (reverse xs) ≡ total xs
total-reverse [] = refl
total-reverse (x ∷ xs) =
    omega
      (arith, ap total (reverse-cons x xs), total-append (reverse xs) (x ∷ []), total-reverse xs)

pub remove_oldest-total :
    (d : ℕ) (rs : List RevisionRollout) → d ≤ total rs → total (remove_oldest d rs) + d ≡ total rs
unfolding remove_oldest
remove_oldest-total d [] h = omega arith
remove_oldest-total d (r ∷ rs) h = ground (arith, remove_oldest-total (d - r.percent) rs)

-- Adding to the last revision fails on an empty list only.
pub add_to_last-total :
    (d : ℕ) (r : RevisionRollout) (rs : List RevisionRollout)
    → (q : List RevisionRollout) × (add_to_last d (r ∷ rs) ≡ some q)
      × (total q ≡ total (r ∷ rs) + d)
unfolding add_to_last
add_to_last-total d r [] = (record r { percent = r.percent + d } ∷ [], refl, omega arith)
add_to_last-total d r (s ∷ rs) =
    let ih = add_to_last-total d s rs in (r ∷ ih.0, ground (arith, ih.1), omega (arith, ih.2))

-- The percentages sum to the new share of the configuration, whether it grew, fell or stayed.
pub adjust_percentage-total :
    (goal : ℕ) (cr : ConfigurationRollout) (r : RevisionRollout) (rs : List RevisionRollout)
    → cr.revisions ≡ r ∷ rs
    → total cr.revisions ≡ cr.percent
    → (q : List RevisionRollout) × (adjust_percentage goal cr ≡ some q) × (total q ≡ goal)
unfolding adjust_percentage
adjust_percentage-total goal cr r rs e h = elim (Bool-cases (goal == 0)) [
  | inl z ↦ ([], rw (z, adjust_percentage), omega (arith, (==_iff goal 0).0 z))
  | inr nz ↦ elim (Bool-cases (ltb cr.percent goal)) [
    | inl up ↦
        let l = add_to_last-total (goal - cr.percent) r rs in
        (l.0, ground (arith, l.1), omega (tests, l.2, ap total e, ltb→lt _ _ up))
    | inr notup ↦ elim (Bool-cases (ltb goal cr.percent)) [
      | inl down ↦ (
        remove_oldest (cr.percent - goal) cr.revisions,
        ground arith,
        omega (tests, ltb→lt _ _ down, remove_oldest-total (cr.percent - goal) cr.revisions),
      )
      | inr same ↦ (cr.revisions, ground arith, ground arith)
    ]
  ]
]

pub drain-total : (n : ℕ) (rs : List RevisionRollout) → total (drain n rs) ≡ total rs - n
unfolding drain
drain-total n [] = omega arith
drain-total n (r ∷ rs) = ground (arith, drain-total (n - r.percent) rs)

pub take_one-total : (rs : List RevisionRollout) → 0 < total rs → total (take_one rs) + 1 ≡ total rs
unfolding take_one
take_one-total [] h = omega arith
take_one-total (r ∷ rs) h = ground (arith, take_one-total rs)

pub drop_zeros-total : (rs : List RevisionRollout) → total (drop_zeros rs) ≡ total rs
unfolding drop_zeros
drop_zeros-total [] = refl
drop_zeros-total (r ∷ rs) = ground (arith, drop_zeros-total rs)
