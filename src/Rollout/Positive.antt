-- ===== src/Rollout/Positive.antt =====
-- No loop of rollout.go leaves a revision at 0% where there was none.
use serving.Prelude.{ℕ, ◌-◌, ◌<◌, ◌≡◌, List, [], ◌∷◌, some, arith, All, length, ◌≤◌, >>=-eq-some}
use serving.Rollout.Defs.{RevisionRollout, remove_oldest, add_to_last, drain, drop_zeros}

abbrev pub IsPositive : RevisionRollout → Type 0
IsPositive r = 0 < r.percent

pub remove_oldest-IsPositive :
    (d : ℕ) (rs : List RevisionRollout) → All IsPositive rs → All IsPositive (remove_oldest d rs)
unfolding remove_oldest
remove_oldest-IsPositive d [] h = tt
remove_oldest-IsPositive d (r ∷ rs) h =
    ground (arith, remove_oldest-IsPositive (d - r.percent) rs h.1)

pub drain-IsPositive :
    (n : ℕ) (rs : List RevisionRollout) → All IsPositive rs → All IsPositive (drain n rs)
unfolding drain
drain-IsPositive n [] h = tt
drain-IsPositive n (r ∷ rs) h = ground (arith, drain-IsPositive (n - r.percent) rs h.1)

pub drop_zeros-IsPositive : (rs : List RevisionRollout) → All IsPositive (drop_zeros rs)
unfolding drop_zeros
drop_zeros-IsPositive [] = tt
drop_zeros-IsPositive (r ∷ rs) = ground (arith, drop_zeros-IsPositive rs)

pub add_to_last-IsPositive :
    (d : ℕ) (rs q : List RevisionRollout)
    → add_to_last d rs ≡ some q
    → All IsPositive rs
    → All IsPositive q
unfolding add_to_last
add_to_last-IsPositive d [] q e h = ground arith
add_to_last-IsPositive d (r ∷ []) q e h = ground arith
add_to_last-IsPositive d (r ∷ s ∷ rs) q e h =
    let (l, e1, e2) = >>=-eq-some (add_to_last d (s ∷ rs)) (λ l. some (r ∷ l)) e in
    let ih = add_to_last-IsPositive d (s ∷ rs) l e1 h.1 in ground arith

-- Adding to the last revision keeps the number of revisions.
pub length-add_to_last :
    (d : ℕ) (rs q : List RevisionRollout) → add_to_last d rs ≡ some q → length q ≡ length rs
unfolding add_to_last
length-add_to_last d [] q e = ground arith
length-add_to_last d (r ∷ []) q e = ground arith
length-add_to_last d (r ∷ s ∷ rs) q e =
    let (l, e1, e2) = >>=-eq-some (add_to_last d (s ∷ rs)) (λ l. some (r ∷ l)) e in
    ground (arith, length-add_to_last d (s ∷ rs) l e1)

pub length-remove_oldest :
    (d : ℕ) (rs : List RevisionRollout) → length (remove_oldest d rs) ≤ length rs
unfolding remove_oldest
length-remove_oldest d [] = omega arith
length-remove_oldest d (r ∷ rs) = ground (arith, length-remove_oldest (d - r.percent) rs)
