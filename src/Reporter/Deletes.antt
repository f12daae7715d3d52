-- ===== src/Reporter/Deletes.antt =====
-- The deletions of a report.
use serving.Prelude.{
  ℕ, zero, suc, ◌<◌, ◌≡◌, refl, sym, ◌∙◌, ap, subst, true, false, List, [], ◌∷◌, ◌++◌, some,
  some_eq, length, get_elem?_in, arith, Bool-cases, inl, inr, All,
}
use serving.Prelude.Int.{pos}
use serving.Prelude.Str.{Str, str_eq, str_eq→eq}
use serving.Prelude.Assoc.{
  lookup, remove, lookup-Entries, remove-Entries-other, lookup-remove_other,
}
use serving.Reporter.Defs.{
  RevisionStats, Handler, missed, entering, serving_request, leaving, finished, no_refs,
  delete_idle,
}
use serving.Reporter.Counts.{one_if, held, count, refs_of, get_elem?-refs_of}
use serving.Reporter.Invariant.{Own, Present, keys, Fresh, IsDistinct, InStore}

pub All-drop_middle :
    {A : Type 0} (P : A → Type 0) (xs ys : List A) (x : A)
    → All P (xs ++ (x ∷ ys))
    → All P (xs ++ ys)
All-drop_middle P [] ys x h = h.1
All-drop_middle P (z ∷ xs) ys x h = (h.0, All-drop_middle P xs ys x h.1)

pub IsDistinct-drop_middle :
    (xs ys : List Str) (x : Str) → IsDistinct (xs ++ (x ∷ ys)) → IsDistinct (xs ++ ys)
IsDistinct-drop_middle [] ys x h = h.1
IsDistinct-drop_middle (z ∷ xs) ys x h =
    (All-drop_middle (λ j. str_eq z j ≡ false) xs ys x h.0, IsDistinct-drop_middle xs ys x h.1)

pub append_one : (xs ys : List Str) (x : Str) → (xs ++ (x ∷ [])) ++ ys ≡ xs ++ (x ∷ ys)
append_one [] ys x = refl
append_one (z ∷ xs) ys x = ap (λ l. z ∷ l) (append_one xs ys x)

remove-Fresh :
    (key k : Str) (stats : List (Str × ℕ))
    → Fresh k (keys stats)
    → Fresh k (keys (remove key stats))
unfolding remove
remove-Fresh key k [] h = tt
remove-Fresh key k ((j, i) ∷ stats) h = elim (Bool-cases (str_eq j key)) [
  | inl e ↦ rw e (remove-Fresh key k stats h.1)
  | inr e ↦ rw e (h.0, remove-Fresh key k stats h.1)
]

remove-IsDistinct :
    (key : Str) (stats : List (Str × ℕ))
    → IsDistinct (keys stats)
    → IsDistinct (keys (remove key stats))
unfolding remove
remove-IsDistinct key [] h = tt
remove-IsDistinct key ((j, i) ∷ stats) h = elim (Bool-cases (str_eq j key)) [
  | inl e ↦ rw e (remove-IsDistinct key stats h.1)
  | inr e ↦ rw e (remove-Fresh key j stats h.0, remove-IsDistinct key stats h.1)
]

remove-Present :
    (key : Str) (stats : List (Str × ℕ)) (ks : List Str)
    → Fresh key ks
    → All (Present stats) ks
    → All (Present (remove key stats)) ks
remove-Present key stats [] f p = tt
remove-Present key stats (k ∷ ks) f ((id, e), ps) =
    ((id, lookup-remove_other key k stats f.0 ∙ e), remove-Present key stats ks f.1 ps)

-- Nobody holds the statistics at `id`: then no request has their key.
remove-Own :
    (key : Str) (id : ℕ) (stats : List (Str × ℕ)) (h : Handler)
    → lookup key stats ≡ some id
    → held id h ≡ 0
    → Own stats h
    → Own (remove key stats) h
remove-Own key id stats h e =
    elim h as (λ h. held id h ≡ 0 → Own stats h → Own (remove key stats) h) [
      | missed k ↦ λ z o. tt
      | entering k i ↦ kept k i
      | serving_request k i ↦ kept k i
      | leaving k i ↦ kept k i
      | finished ↦ λ z o. tt
    ]
  where
    kept :
        (k : Str) (i : ℕ)
        → one_if id i ≡ 0
        → lookup k stats ≡ some i
        → lookup k (remove key stats) ≡ some i
    kept k i z o = elim (Bool-cases (str_eq key k)) [
      | inl s ↦
          let o' : lookup key stats ≡ some i = rw (str_eq→eq key k s) o in
          let same : id ≡ i = some_eq (sym e ∙ o') in absurd (ground (arith, z, same))
      | inr s ↦ lookup-remove_other key k stats s ∙ o
    ]

remove-owned :
    (key : Str) (id : ℕ) (stats : List (Str × ℕ)) (hs : List Handler)
    → lookup key stats ≡ some id
    → count id hs ≡ 0
    → All (Own stats) hs
    → All (Own (remove key stats)) hs
unfolding count
remove-owned key id stats [] e z o = tt
remove-owned key id stats (h ∷ hs) e z o = (
  remove-Own key id stats h e (omega (arith, z)) o.0,
  remove-owned key id stats hs e (omega (arith, z)) o.1,
)

no_refs_lem : (n : ℕ) → no_refs (pos n) ≡ true → n ≡ 0
no_refs_lem zero h = refl
no_refs_lem (suc n) h = cc

module _ {S : Type 0} (objects : List (RevisionStats S)) (hs : List Handler) where
  -- The map after deletions, where the references are the requests that hold the statistics.
  pub record IsMap (stats : List (Str × ℕ)) : Type 0 where
    pub owned : All (Own stats) hs
    pub in_store : InStore (length objects) stats
    pub distinct : IsDistinct (keys stats)

  pub delete_idle-IsMap :
      (dels : List Str) (stats : List (Str × ℕ))
      → ((id : ℕ) → refs_of objects id ≡ pos (count id hs))
      → IsDistinct dels
      → All (Present stats) dels
      → IsMap stats
      → (stats' : List (Str × ℕ)) × (delete_idle dels objects stats ≡ some stats') × IsMap stats'
  unfolding delete_idle
  delete_idle-IsMap [] stats r d p m = (stats, refl, m)
  delete_idle-IsMap (key ∷ dels) stats r (f, d) ((id, e), p) m =
      let inside = lookup-Entries (λ k j. j < length objects) key id stats m.in_store e in
      let (s, k) = get_elem?_in objects id inside in
      let counted : s.refs ≡ pos (count id hs) = sym (get_elem?-refs_of objects id s k) ∙ r id in
      elim (Bool-cases (no_refs s.refs)) [
        | inl z ↦
            let unused : count id hs ≡ 0 =
              no_refs_lem (count id hs) (subst (λ n. no_refs n ≡ true) counted z) in
            let (stats', g, m') =
              delete_idle-IsMap dels (remove key stats) r d (remove-Present key stats dels f p)
                (record {
                  owned = remove-owned key id stats hs e unused m.owned;
                  in_store =
                      remove-Entries-other (λ k j. j < length objects) (λ k j. j < length objects)
                        key stats (λ k j n l. l) m.in_store;
                  distinct = remove-IsDistinct key stats m.distinct;
                }) in
            (stats', rw e (rw k (rw z g)), m')
        | inr z ↦
            let (stats', g, m') = delete_idle-IsMap dels stats r d p m in
            (stats', rw e (rw k (rw z g)), m')
      ]
