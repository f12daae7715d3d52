-- ===== src/Rollout/Unique.antt =====
-- The order of `sortRollout` leaves one result, whatever the algorithm of `sort.Slice`.
use mathlib.Core.List.{Perm, Mem, Pairwise, mem-cons_self, not-mem-nil, eq-or-mem_of_mem-cons}
use mathlib.Core.List.Perm
use mathlib.Core.Path.{ap₂}
use mathlib.Core.Logic.{∥∥₁_elim}
use serving.Prelude.{
  ◌≡◌, sym, subst, inl, inr, Bool, true, false, ◌&&◌, List, [], ◌∷◌, arith, All, ◌↔◌,
}
use serving.Prelude.Str.{
  str_eq, str_eq→eq, str_eq_refl, str_eq_sym, str_eq_iff, str_lt_irrefl, str_lt_asym,
  str_lt_antisym,
}
use serving.Rollout.Defs.{ConfigurationRollout}
use serving.Rollout.Merge.{before, sort_rollout}
use serving.Rollout.Order.{
  Follows, IsSorted, IsOrdered, sort_rollout-IsSorted, sort_rollout-IsOrdered,
}

abbrev pub same_key : ConfigurationRollout → ConfigurationRollout → Bool
same_key c d = str_eq c.tag d.tag && str_eq c.configuration_name d.configuration_name

-- No two entries are for the same tag and configuration.
abbrev pub IsDistinct : List ConfigurationRollout → Type 0
IsDistinct = Pairwise (λ c d. same_key c d ≡ false)

ConfigurationRollout-set : IsSet ConfigurationRollout
ConfigurationRollout-set = hlevel

same_key_sym : (c d : ConfigurationRollout) → same_key c d ≡ false → same_key d c ≡ false
same_key_sym c d h =
    ground (arith, h, str_eq_sym c.tag d.tag, str_eq_sym c.configuration_name d.configuration_name)

before_antisym :
    (c d : ConfigurationRollout) → before d c ≡ false → before c d ≡ false → same_key c d ≡ true
unfolding before
before_antisym c d h k = ground (
  arith,
  h,
  k,
  str_eq_sym c.tag d.tag,
  str_eq_iff c.tag d.tag,
  str_eq_iff c.configuration_name d.configuration_name,
  str_lt_antisym c.tag d.tag,
  str_lt_antisym c.configuration_name d.configuration_name,
)

before_irrefl : (c : ConfigurationRollout) → before c c ≡ false
unfolding before
before_irrefl c = ground (arith, str_lt_irrefl c.tag, str_lt_irrefl c.configuration_name)

Follows-before : (c d : ConfigurationRollout) → Follows c d → before d c ≡ false
unfolding before
Follows-before c d (inl l) =
    ground (arith, l, str_eq→eq d.tag c.tag, str_lt_irrefl c.tag, str_lt_asym c.tag d.tag)
Follows-before c d (inr (e, n)) = ground (arith, e, n, str_eq_refl c.tag, str_eq_iff d.tag c.tag)

All_Follows_before :
    (c : ConfigurationRollout) (ds : List ConfigurationRollout)
    → All (Follows c) ds
    → All (λ d. before d c ≡ false) ds
All_Follows_before c [] h = tt
All_Follows_before c (d ∷ ds) h = (Follows-before c d h.0, All_Follows_before c ds h.1)

IsOrdered-IsSorted : (cs : List ConfigurationRollout) → IsOrdered cs → IsSorted cs
IsOrdered-IsSorted [] h = tt
IsOrdered-IsSorted (c ∷ cs) h = (All_Follows_before c cs h.0, IsOrdered-IsSorted cs h.1)

All_member :
    (c x : ConfigurationRollout) (xs : List ConfigurationRollout)
    → All (λ d. before d c ≡ false) xs
    → Mem x xs
    → before x c ≡ false
All_member c x [] h m = absurd (not-mem-nil m)
All_member c x (y ∷ ys) h m = ∥∥₁_elim (eq-or-mem_of_mem-cons m) (hlevel) (λ o. elim o [
  | inl e ↦ subst (λ d. before d c ≡ false) (sym e) h.0
  | inr t ↦ All_member c x ys h.1 t
])

-- Nothing in a sorted list comes before its head.
head_first :
    (x y : ConfigurationRollout) (ys : List ConfigurationRollout)
    → IsSorted (y ∷ ys)
    → Mem x (y ∷ ys)
    → before x y ≡ false
head_first x y ys h = All_member y x (y ∷ ys) (before_irrefl y, h.0)

heads_eq :
    (x y : ConfigurationRollout) (xs ys : List ConfigurationRollout)
    → IsSorted (x ∷ xs)
    → IsSorted (y ∷ ys)
    → ((d : ConfigurationRollout) → Mem d xs → same_key x d ≡ false)
    → Perm (x ∷ xs) (y ∷ ys)
    → x ≡ y
heads_eq x y xs ys h k u p =
    let there : Mem y (x ∷ xs) = (Perm.mem_iff p).1 mem-cons_self in
    let here : Mem x (y ∷ ys) = (Perm.mem_iff p).0 mem-cons_self in
    let same : same_key x y ≡ true =
      before_antisym x y (head_first y x xs h there) (head_first x y ys k here) in
    ∥∥₁_elim (eq-or-mem_of_mem-cons there) (ConfigurationRollout-set x y)
      (λ o. elim o [ inl e ↦ sym e | inr t ↦ absurd (ground (arith, same, u y t)) ])

-- Two sorted lists of the same distinct configurations are equal.
sorted_unique :
    (xs ys : List ConfigurationRollout)
    → IsSorted xs
    → IsSorted ys
    → IsDistinct xs
    → Perm xs ys
    → xs ≡ ys
sorted_unique [] ys h k u p = Perm.nil-eq p
sorted_unique (x ∷ xs) [] h k u p = Perm.eq-nil p
sorted_unique (x ∷ xs) (y ∷ ys) h k (Pairwise.cons u us) p =
    let e = heads_eq x y xs ys h k u p in
    ap₂ ◌∷◌ e (
      sorted_unique xs ys h.1 k.1 us
        (Perm.cons_inv (Perm.trans p (Perm.symm (Perm.cons' e Perm.rfl)))))

-- For configurations no two of which have the same tag and name, a list is the sorted rollout
-- exactly if it has the same configurations and each is followed by the later ones: their tags are
-- higher, or the same and their names are not lower. So any correct sort by that order gives it.
pub sort_rollout_iff :
    (cs xs : List ConfigurationRollout)
    → IsDistinct cs
    → (xs ≡ sort_rollout cs) ↔ (IsOrdered xs × Perm xs cs)
sort_rollout_iff cs xs u =
    let (o, p) = sort_rollout-IsOrdered cs in
    (
      λ e. subst (λ l. IsOrdered l × Perm l cs) (sym e) (o, p),
      λ h.
          sorted_unique xs (sort_rollout cs) (IsOrdered-IsSorted xs h.0) (sort_rollout-IsSorted cs)
            (Perm.pairwise (λ a b. hlevel) same_key_sym (Perm.symm h.1) u)
            (Perm.trans h.1 (Perm.symm p)),
    )
