-- ===== src/Gc/Active.antt =====
-- `nonactiveRevisions` keeps the revisions that are not active, and `sort.Slice` all of them.
use mathlib.Core.List.{Perm, perm_append_comm}
use mathlib.Core.List.Perm
use serving.Prelude.{
  ℕ, zero, suc, ◌≤◌, ◌≡◌, refl, ap, sym, subst, List, [], ◌∷◌, ◌++◌, length, All, Bool-cases, inl,
  inr, ltb, if◌then◌else◌, arith, length-append,
}
use serving.Prelude.Str.{Str}
use serving.Gc.Defs.{
  Revision, is_revision_active, split_last, move_last, nonactive_revisions, insert_by_time,
  sort_by_time, revision_last_active_time,
}

-- The revisions that are not active, in the order of the list.
unfoldable pub inactive : Str → List Revision → List Revision
inactive latest [] = []
inactive latest (r ∷ rs) =
    if is_revision_active latest r then inactive latest rs else r ∷ inactive latest rs

inactive-append :
    (latest : Str) (rs qs : List Revision)
    → inactive latest (rs ++ qs) ≡ inactive latest rs ++ inactive latest qs
unfolding inactive
inactive-append latest [] qs = refl
inactive-append latest (r ∷ rs) qs = ground (arith, inactive-append latest rs qs)

split_last_lem :
    (r : Revision) (rs : List Revision) → (split_last r rs).0 ++ (split_last r rs).1 ∷ [] ≡ r ∷ rs
unfolding split_last
split_last_lem r [] = refl
split_last_lem r (q ∷ qs) = ap (λ l. r ∷ l) (split_last_lem q qs)

length-move_last : (rs : List Revision) → length (move_last rs) ≡ length rs
unfolding move_last
length-move_last [] = refl
length-move_last (r ∷ rs) =
    let (i, l) = split_last r rs in
    omega (arith, ap length (split_last_lem r rs), length-append i (l ∷ []))

inactive-move_last :
    (latest : Str) (rs : List Revision) → Perm (inactive latest (move_last rs)) (inactive latest rs)
unfolding move_last
inactive-move_last latest [] = Perm.refl _
inactive-move_last latest (r ∷ rs) =
    let (i, l) = split_last r rs in
    subst (λ x. Perm (inactive latest (l ∷ i)) (inactive latest x)) (split_last_lem r rs)
      (subst (Perm (inactive latest (l ∷ i))) (sym (inactive-append latest i (l ∷ []))) (
        subst (λ x. Perm x (inactive latest i ++ inactive latest (l ∷ [])))
          (sym (inactive-append latest (l ∷ []) i))
          (perm_append_comm (inactive latest (l ∷ [])) (inactive latest i))))

-- With fuel for every revision, the swaps keep every revision that is not active, once each, and
-- no other.
pub nonactive_revisions-perm :
    (n : ℕ) (latest : Str) (revs : List Revision)
    → length revs ≤ n
    → Perm (nonactive_revisions n latest revs) (inactive latest revs)
unfolding nonactive_revisions inactive
nonactive_revisions-perm zero latest [] h = Perm.refl []
nonactive_revisions-perm zero latest (r ∷ rs) h = absurd (omega arith)
nonactive_revisions-perm (suc n) latest [] h = Perm.refl []
nonactive_revisions-perm (suc n) latest (r ∷ rs) h =
    elim (Bool-cases (is_revision_active latest r)) [
      | inl a ↦ rw a (
          Perm.trans
            (nonactive_revisions-perm n latest (move_last rs) (omega (arith, length-move_last rs)))
            (inactive-move_last latest rs))
      | inr b ↦ rw b (Perm.cons r (nonactive_revisions-perm n latest rs (omega arith)))
    ]

insert_by_time-perm : (r : Revision) (rs : List Revision) → Perm (insert_by_time r rs) (r ∷ rs)
unfolding insert_by_time
insert_by_time-perm r [] = Perm.refl (r ∷ [])
insert_by_time-perm r (q ∷ rs) =
    elim (Bool-cases (ltb (revision_last_active_time q) (revision_last_active_time r))) [
      | inl e ↦ rw e (Perm.trans (Perm.cons q (insert_by_time-perm r rs)) (Perm.swap r q rs))
      | inr e ↦ rw e (Perm.refl (r ∷ q ∷ rs))
    ]

pub sort_by_time-perm : (rs : List Revision) → Perm (sort_by_time rs) rs
unfolding sort_by_time
sort_by_time-perm [] = Perm.refl []
sort_by_time-perm (r ∷ rs) =
    Perm.trans (insert_by_time-perm r (sort_by_time rs)) (Perm.cons r (sort_by_time-perm rs))

-- The revisions rise by the last active time.
abbrev pub IsOldestFirst : List Revision → Type 0
IsOldestFirst [] = Unit
IsOldestFirst (r ∷ rs) =
    All (λ q. revision_last_active_time r ≤ revision_last_active_time q) rs × IsOldestFirst rs

insert_by_time-All :
    (t : ℕ) (r : Revision) (rs : List Revision)
    → t ≤ revision_last_active_time r
    → All (λ q. t ≤ revision_last_active_time q) rs
    → All (λ q. t ≤ revision_last_active_time q) (insert_by_time r rs)
unfolding insert_by_time
insert_by_time-All t r [] h a = (h, tt)
insert_by_time-All t r (q ∷ rs) h a = ground (arith, insert_by_time-All t r rs h a.1)

All_later :
    (s t : ℕ) (rs : List Revision)
    → s ≤ t
    → All (λ q. t ≤ revision_last_active_time q) rs
    → All (λ q. s ≤ revision_last_active_time q) rs
All_later s t [] h a = tt
All_later s t (r ∷ rs) h a = (omega (arith, a.0), All_later s t rs h a.1)

insert_by_time-IsOldestFirst :
    (r : Revision) (rs : List Revision) → IsOldestFirst rs → IsOldestFirst (insert_by_time r rs)
unfolding insert_by_time
insert_by_time-IsOldestFirst r [] h = (tt, tt)
insert_by_time-IsOldestFirst r (q ∷ rs) h =
    let tr = revision_last_active_time r in
    let tq = revision_last_active_time q in
    elim (Bool-cases (ltb tq tr)) [
      | inl e ↦
          rw e
            (insert_by_time-All tq r rs (ground arith) h.0, insert_by_time-IsOldestFirst r rs h.1)
      | inr e ↦ let le : tr ≤ tq = ground arith in rw e ((le, All_later tr tq rs le h.0), h)
    ]

-- The sort by last active time puts the oldest first.
pub sort_by_time-IsOldestFirst : (rs : List Revision) → IsOldestFirst (sort_by_time rs)
unfolding sort_by_time
sort_by_time-IsOldestFirst [] = tt
sort_by_time-IsOldestFirst (r ∷ rs) =
    insert_by_time-IsOldestFirst r (sort_by_time rs) (sort_by_time-IsOldestFirst rs)
