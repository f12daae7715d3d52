-- ===== src/Rollout/Steps.antt =====
-- `stepRevisions`: what one step keeps, and that the steps end the rollout.
use mathlib.Core.List.{reverse-append, reverse-cons, reverse-reverse}
use serving.Prelude.{
  ℕ, ◌+◌, ◌*◌, ◌≤◌, ◌<◌, ◌≡◌, refl, ap, ◌∙◌, ◌⊎◌, inl, inr, false, ◌||◌, List, [], ◌∷◌, ◌++◌,
  reverse, arith, ltb, length, length-append, All, All-append, All-reverse, Bool-cases, dec_lt,
}
use serving.Rollout.Defs.{
  RevisionRollout, ConfigurationRollout, total, drain, write_newest, step_reversed, step_revisions,
  raised,
}
use serving.Rollout.Adjust.{total-append, total-reverse, drain-total}
use serving.Rollout.Positive.{IsPositive, drain-IsPositive}

-- The revisions' percentages sum to the configuration's, and none of them is 0%.
pub record IsBalanced (c : ConfigurationRollout) : Type 0 where
  pub sums : total c.revisions ≡ c.percent
  pub positive : All IsPositive c.revisions

write_newest-IsBalanced :
    (goal : ConfigurationRollout) (now : ℕ) (r : RevisionRollout) (qs : List RevisionRollout)
    → r.percent + total qs ≡ goal.percent
    → IsPositive r
    → All IsPositive qs
    → IsBalanced (write_newest goal now r (drain goal.step_params.step_size qs))
unfolding write_newest
write_newest-IsBalanced goal now r qs h p ps =
    let n = goal.step_params.step_size in
    let older = drain n qs in
    record {
      sums = ground (
        arith,
        drain-total n qs,
        total-reverse older,
        total-append (reverse older) (raised goal r ∷ []),
      );
      positive =
          All-append IsPositive (reverse older) _
            (All-reverse IsPositive older (drain-IsPositive n qs ps)) (ground arith);
    }

step_reversed-IsBalanced :
    (goal : ConfigurationRollout) (now : ℕ) (xs : List RevisionRollout)
    → IsBalanced goal
    → total xs ≡ goal.percent
    → All IsPositive xs
    → IsBalanced (step_reversed goal now xs)
unfolding step_reversed
step_reversed-IsBalanced goal now [] b h ps = b
step_reversed-IsBalanced goal now (r ∷ []) b h ps = b
step_reversed-IsBalanced goal now (r ∷ q ∷ rs) b h ps =
    write_newest-IsBalanced goal now r (q ∷ rs) h ps.0 ps.1

-- Where the percentages of the revisions sum to the configuration's and none is 0%, they do so
-- after a step.
pub step_revisions-IsBalanced :
    (c : ConfigurationRollout) (now : ℕ) → IsBalanced c → IsBalanced (step_revisions c now)
unfolding step_revisions
step_revisions-IsBalanced c now b =
    let h : IsBalanced (step_reversed c now (reverse c.revisions)) =
      step_reversed-IsBalanced c now (reverse c.revisions) b (total-reverse c.revisions ∙ b.sums)
        (All-reverse IsPositive c.revisions b.positive) in
    elim (Bool-cases (ltb now c.step_params.next_step_time || ltb (length c.revisions) 2)) [
      | inl e ↦ rw e b
      | inr e ↦ rw e h
    ]

-- The percentage of the newest revision.
abbrev pub head_percent : List RevisionRollout → ℕ
head_percent [] = 0
head_percent (r ∷ rs) = r.percent

abbrev pub newest_percent : ConfigurationRollout → ℕ
newest_percent c = head_percent (reverse c.revisions)

abbrev pub IsDone : ConfigurationRollout → Type 0
IsDone c = length c.revisions < 2

-- A step that is due moves the step size to the newest revision, or it is the last one.
abbrev pub Advances : ConfigurationRollout → ConfigurationRollout → Type 0
Advances c d =
    IsDone d
    ⊎ ((newest_percent d ≡ newest_percent c + c.step_params.step_size)
        × (d.step_params.step_size ≡ c.step_params.step_size)
        × (d.percent ≡ c.percent))

length-reverse : (xs : List RevisionRollout) → length (reverse xs) ≡ length xs
length-reverse [] = refl
length-reverse (x ∷ xs) =
    omega
      (arith, ap length (reverse-cons x xs), length-append (reverse xs) (x ∷ []), length-reverse xs)

reverse_last :
    (xs : List RevisionRollout) (x : RevisionRollout) → reverse (reverse xs ++ x ∷ []) ≡ x ∷ xs
reverse_last xs x = reverse-append (reverse xs) (x ∷ []) ∙ ap (λ l. x ∷ l) (reverse-reverse xs)

write_newest-Advances :
    (goal : ConfigurationRollout) (now : ℕ) (r : RevisionRollout) (older : List RevisionRollout)
    → head_percent (reverse goal.revisions) ≡ r.percent
    → r.percent + goal.step_params.step_size + total older ≤ goal.percent ⊎ (older ≡ [])
    → Advances goal (write_newest goal now r older)
unfolding write_newest
write_newest-Advances goal now r [] e h = inl (omega arith)
write_newest-Advances goal now r (q ∷ older) e (inl h) =
    inr (ground (arith, ap head_percent (reverse_last (q ∷ older) (raised goal r))), refl, refl)
write_newest-Advances goal now r (q ∷ older) e (inr h) = ground arith

drain_room :
    (n : ℕ) (qs : List RevisionRollout)
    → All IsPositive qs
    → (n + total (drain n qs) ≤ total qs) ⊎ (drain n qs ≡ [])
drain_room n qs ps = go (drain n qs) refl (drain-IsPositive n qs ps)
  where
    go :
        (ds : List RevisionRollout)
        → drain n qs ≡ ds
        → All IsPositive ds
        → (n + total (drain n qs) ≤ total qs) ⊎ (drain n qs ≡ [])
    go [] e p = inr e
    go (d ∷ ds) e p = inl (omega (arith, drain-total n qs, ap total e, p.0))

step_reversed-Advances :
    (goal : ConfigurationRollout) (now : ℕ) (xs : List RevisionRollout)
    → reverse goal.revisions ≡ xs
    → 2 ≤ length xs
    → total xs ≡ goal.percent
    → All IsPositive xs
    → Advances goal (step_reversed goal now xs)
unfolding step_reversed
step_reversed-Advances goal now [] e l h ps = absurd (omega arith)
step_reversed-Advances goal now (r ∷ []) e l h ps = absurd (omega arith)
step_reversed-Advances goal now (r ∷ q ∷ rs) e l h ps =
    let n = goal.step_params.step_size in
    let room : (r.percent + n + total (drain n (q ∷ rs)) ≤ goal.percent) ⊎ (drain n (q ∷ rs) ≡ []) =
      ground (arith, drain_room n (q ∷ rs) ps.1) in
    write_newest-Advances goal now r (drain n (q ∷ rs)) (ap head_percent e) room

-- A step that is due, of a balanced configuration with at least two revisions, ends the rollout or
-- moves the step size to the newest revision.
pub step_revisions-Advances :
    (c : ConfigurationRollout) (now : ℕ)
    → IsBalanced c
    → 2 ≤ length c.revisions
    → c.step_params.next_step_time ≤ now
    → Advances c (step_revisions c now)
unfolding step_revisions
step_revisions-Advances c now b l due =
    let h : Advances c (step_reversed c now (reverse c.revisions)) =
      step_reversed-Advances c now (reverse c.revisions) refl
        (omega (arith, length-reverse c.revisions)) (total-reverse c.revisions ∙ b.sums)
        (All-reverse IsPositive c.revisions b.positive) in
    let e : (ltb now c.step_params.next_step_time || ltb (length c.revisions) 2) ≡ false =
      ground arith in
    rw e h

-- A configuration that is done is left alone.
pub step_revisions-IsDone :
    (c : ConfigurationRollout) (now : ℕ) → IsDone c → step_revisions c now ≡ c
unfolding step_revisions
step_revisions-IsDone c now h = ground arith

-- The steps of one rollout at the times `ts`, and that each of them is due.
unfoldable pub step_each : ConfigurationRollout → List ℕ → ConfigurationRollout
step_each c [] = c
step_each c (t ∷ ts) = step_each (step_revisions c t) ts

abbrev pub IsDue : ConfigurationRollout → List ℕ → Type 0
IsDue c [] = Unit
IsDue c (t ∷ ts) = (c.step_params.next_step_time ≤ t) × IsDue (step_revisions c t) ts

step_each-IsDone : (c : ConfigurationRollout) (ts : List ℕ) → IsDone c → IsDone (step_each c ts)
unfolding step_each
step_each-IsDone c [] h = h
step_each-IsDone c (t ∷ ts) h =
    step_each-IsDone (step_revisions c t) ts (rw (step_revisions-IsDone c t h) h)

all_moved :
    (xs : List RevisionRollout) → All IsPositive xs → total xs ≤ head_percent xs → length xs < 2
all_moved [] ps h = omega arith
all_moved (r ∷ []) ps h = omega arith
all_moved (r ∷ q ∷ rs) ps h = absurd (omega (arith, ps.1.0))

-- From a balanced configuration, enough steps that are due end the rollout: the step size times
-- their number covers what the older revisions have.
pub step_each_ends :
    (c : ConfigurationRollout) (ts : List ℕ)
    → IsBalanced c
    → IsDue c ts
    → c.percent ≤ newest_percent c + length ts * c.step_params.step_size
    → IsDone (step_each c ts)
unfolding step_each
step_each_ends c [] b due h =
    let k : length (reverse c.revisions) < 2 =
      all_moved (reverse c.revisions) (All-reverse IsPositive c.revisions b.positive)
        (omega (arith, total-reverse c.revisions, b.sums)) in
    omega (arith, length-reverse c.revisions)
step_each_ends c (t ∷ ts) b due h = elim (dec_lt (length c.revisions) 2) [
  | yes d ↦ step_each-IsDone (step_revisions c t) ts (rw (step_revisions-IsDone c t d) d)
  | no m ↦ elim (step_revisions-Advances c t b (omega arith) due.0) [
    | inl d ↦ step_each-IsDone (step_revisions c t) ts d
    | inr a ↦
        step_each_ends (step_revisions c t) ts (step_revisions-IsBalanced c t b) due.1
          (rw (a.0, a.1, a.2) (omega arith))
  ]
]
