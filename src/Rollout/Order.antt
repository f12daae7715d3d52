-- ===== src/Rollout/Order.antt =====
-- `sortRollout` and the lookup by tag that relies on it.
use mathlib.Core.List.{Perm}
use mathlib.Core.List.Perm
use serving.Prelude.{
  ◌≡◌, ◌⊎◌, refl, ap, sym, ◌∙◌, inl, inr, true, false, List, [], ◌∷◌, arith, All, Bool-cases,
}
use serving.Prelude.Str.{
  Str, str_eq, str_lt, str_eq→eq, str_eq_refl, str_eq_sym, str_lt_irrefl, str_lt_asym, str_eq_iff,
  str_le_trans, str_lt_antisym,
}
use serving.Rollout.Defs.{ConfigurationRollout}
use serving.Rollout.Whole.{insert_sorted-All}
use serving.Rollout.Merge.{
  by_tag, before, insert_sorted, sort_rollout, search_tag, take_tag, rollouts_by_tag,
}

-- No configuration comes before an earlier one, by the code's test.
abbrev pub IsSorted : List ConfigurationRollout → Type 0
IsSorted [] = Unit
IsSorted (c ∷ cs) = All (λ d. before d c ≡ false) cs × IsSorted cs

before_asym : (c d : ConfigurationRollout) → before c d ≡ true → before d c ≡ false
unfolding before
before_asym c d h = ground (
  arith,
  str_eq_sym c.tag d.tag,
  str_lt_asym c.tag d.tag,
  str_lt_asym c.configuration_name d.configuration_name,
)

before_trans_not :
    (c d e : ConfigurationRollout) → before d c ≡ false → before e d ≡ false → before e c ≡ false
unfolding before
before_trans_not c d e h k = ground (
  arith,
  str_eq→eq c.tag d.tag,
  str_eq→eq d.tag c.tag,
  str_eq→eq e.tag d.tag,
  str_eq→eq e.tag c.tag,
  str_eq_refl c.tag,
  str_lt_irrefl c.tag,
  str_lt_antisym c.tag d.tag,
  str_le_trans c.tag d.tag e.tag,
  str_le_trans c.configuration_name d.configuration_name e.configuration_name,
)

insert_sorted-perm :
    (c : ConfigurationRollout) (cs : List ConfigurationRollout) → Perm (insert_sorted c cs) (c ∷ cs)
unfolding insert_sorted
insert_sorted-perm c [] = Perm.refl (c ∷ [])
insert_sorted-perm c (d ∷ cs) = elim (Bool-cases (before d c)) [
  | inl e ↦ rw e (Perm.trans (Perm.cons d (insert_sorted-perm c cs)) (Perm.swap c d cs))
  | inr e ↦ rw e (Perm.refl (c ∷ d ∷ cs))
]

sort_rollout-perm : (cs : List ConfigurationRollout) → Perm (sort_rollout cs) cs
unfolding sort_rollout
sort_rollout-perm [] = Perm.refl []
sort_rollout-perm (c ∷ cs) =
    Perm.trans (insert_sorted-perm c (sort_rollout cs)) (Perm.cons c (sort_rollout-perm cs))

All_before_trans :
    (c d : ConfigurationRollout) (cs : List ConfigurationRollout)
    → before d c ≡ false
    → All (λ e. before e d ≡ false) cs
    → All (λ e. before e c ≡ false) cs
All_before_trans c d [] h a = tt
All_before_trans c d (e ∷ cs) h a = (before_trans_not c d e h a.0, All_before_trans c d cs h a.1)

insert_sorted-IsSorted :
    (c : ConfigurationRollout) (cs : List ConfigurationRollout)
    → IsSorted cs
    → IsSorted (insert_sorted c cs)
unfolding insert_sorted
insert_sorted-IsSorted c [] h = (tt, tt)
insert_sorted-IsSorted c (d ∷ cs) h = elim (Bool-cases (before d c)) [
  | inl e ↦ rw e (
    insert_sorted-All (λ x. before x d ≡ false) c cs (before_asym d c e) h.0,
    insert_sorted-IsSorted c cs h.1,
  )
  | inr e ↦ rw e ((e, All_before_trans c d cs e h.0), h)
]

-- By `before`, the result of the sort is in order.
pub sort_rollout-IsSorted : (cs : List ConfigurationRollout) → IsSorted (sort_rollout cs)
unfolding sort_rollout
sort_rollout-IsSorted [] = tt
sort_rollout-IsSorted (c ∷ cs) =
    insert_sorted-IsSorted c (sort_rollout cs) (sort_rollout-IsSorted cs)

-- The order of the comment: by tag, and by configuration name within a tag.
abbrev pub Follows : ConfigurationRollout → ConfigurationRollout → Type 0
Follows c d =
    (str_lt c.tag d.tag ≡ true)
    ⊎ ((c.tag ≡ d.tag) × (str_lt d.configuration_name c.configuration_name ≡ false))

-- Every configuration is followed by the later ones.
abbrev pub IsOrdered : List ConfigurationRollout → Type 0
IsOrdered [] = Unit
IsOrdered (c ∷ cs) = All (Follows c) cs × IsOrdered cs

before-Follows : (c d : ConfigurationRollout) → before d c ≡ false → Follows c d
unfolding before
before-Follows c d h = elim (Bool-cases (str_eq d.tag c.tag)) [
  | inl e ↦ inr (sym (str_eq→eq d.tag c.tag e), rw e at h)
  | inr e ↦ elim (Bool-cases (str_lt c.tag d.tag)) [
    | inl l ↦ inl l
    | inr l ↦
        let same : d.tag ≡ c.tag = str_lt_antisym d.tag c.tag (rw e at h) l in
        absurd (ground (arith, e, (str_eq_iff d.tag c.tag).1 same))
  ]
]

All_before_Follows :
    (c : ConfigurationRollout) (ds : List ConfigurationRollout)
    → All (λ d. before d c ≡ false) ds
    → All (Follows c) ds
All_before_Follows c [] h = tt
All_before_Follows c (d ∷ ds) h = (before-Follows c d h.0, All_before_Follows c ds h.1)

IsSorted-IsOrdered : (cs : List ConfigurationRollout) → IsSorted cs → IsOrdered cs
IsSorted-IsOrdered [] h = tt
IsSorted-IsOrdered (c ∷ cs) h = (All_before_Follows c cs h.0, IsSorted-IsOrdered cs h.1)

-- The sorted rollout has the same configurations, and each is followed by the later ones: their tags
-- are higher, or the same and their names are not lower.
pub sort_rollout-IsOrdered :
    (cs : List ConfigurationRollout) → IsOrdered (sort_rollout cs) × Perm (sort_rollout cs) cs
sort_rollout-IsOrdered cs =
    (IsSorted-IsOrdered (sort_rollout cs) (sort_rollout-IsSorted cs), sort_rollout-perm cs)

-- In order, the tags rise: from `before` to the tags alone.
before_tags : (c d : ConfigurationRollout) → before d c ≡ false → str_lt d.tag c.tag ≡ false
unfolding before
before_tags c d h = ground (arith, str_eq→eq d.tag c.tag, str_lt_irrefl c.tag)

by_tag_above :
    (t : Str) (c : ConfigurationRollout) (ds : List ConfigurationRollout)
    → str_lt t c.tag ≡ true
    → All (λ d. before d c ≡ false) ds
    → by_tag t ds ≡ []
unfolding by_tag
by_tag_above t c [] h b = refl
by_tag_above t c (d ∷ ds) h b =
    ground (arith, str_eq→eq d.tag t, before_tags c d b.0, by_tag_above t c ds h b.1)

-- From the first configuration that has the tag on, the others of the tag come at once.
take_tag_sorted :
    (t : Str) (cs : List ConfigurationRollout)
    → All (λ d. str_lt d.tag t ≡ false) cs
    → IsSorted cs
    → take_tag t cs ≡ by_tag t cs
unfolding take_tag by_tag
take_tag_sorted t [] a h = refl
take_tag_sorted t (c ∷ cs) a h = elim (Bool-cases (str_eq c.tag t)) [
  | inl e ↦ rw e (ap (λ l. c ∷ l) (take_tag_sorted t cs a.1 h.1))
  | inr e ↦ rw e (sym (by_tag_above t c cs (strict e) h.0))
]
  where
    strict : str_eq c.tag t ≡ false → str_lt t c.tag ≡ true
    strict e = ground (arith, str_lt_antisym c.tag t a.0, str_eq_iff c.tag t)

tags_above :
    (t : Str) (c : ConfigurationRollout) (cs : List ConfigurationRollout)
    → str_lt c.tag t ≡ false
    → All (λ d. before d c ≡ false) cs
    → All (λ d. str_lt d.tag t ≡ false) cs
tags_above t c [] h b = tt
tags_above t c (d ∷ cs) h b =
    (str_le_trans t c.tag d.tag h (before_tags c d b.0), tags_above t c cs h b.1)

search_tag_sorted :
    (t : Str) (cs : List ConfigurationRollout)
    → IsSorted cs
    → take_tag t (search_tag t cs) ≡ by_tag t cs
unfolding search_tag
search_tag_sorted t [] h = unfold take_tag by_tag in refl
search_tag_sorted t (c ∷ cs) h = elim (Bool-cases (str_lt c.tag t)) [
  | inl lt ↦ rw lt (search_tag_sorted t cs h.1 ∙ skip lt)
  | inr ge ↦ rw ge (take_tag_sorted t (c ∷ cs) (ge, tags_above t c cs ge h.0) h)
]
  where
    skip : str_lt c.tag t ≡ true → by_tag t cs ≡ by_tag t (c ∷ cs)
    skip lt = unfold by_tag in ground (arith, str_eq→eq c.tag t, str_lt_irrefl t)

-- On a sorted rollout the search by tag finds every configuration of the tag and no other.
pub rollouts_by_tag-sort_rollout :
    (t : Str) (cs : List ConfigurationRollout)
    → rollouts_by_tag (record { configurations = sort_rollout cs }) t ≡ by_tag t (sort_rollout cs)
unfolding rollouts_by_tag
rollouts_by_tag-sort_rollout t cs = search_tag_sorted t (sort_rollout cs) (sort_rollout-IsSorted cs)
