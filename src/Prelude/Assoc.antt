-- ===== src/Prelude/Assoc.antt =====
-- Maps from strings, as lists of pairs: an insertion of a new key is a `∷`.
use serving.Prelude.{
  ◌≡◌, refl, inl, inr, false, List, [], ◌∷◌, Option, none, some, if◌then◌else◌, Bool-cases, subst,
  some_eq,
}
use serving.Prelude.Str.{Str, str_eq, str_eq→eq, str_eq_refl}

module _ {ℓ} {A : Type ℓ} where
  unfoldable pub lookup : Str → List (Str × A) → Option A
  lookup k [] = none
  lookup k ((j, a) ∷ xs) = if str_eq j k then some a else lookup k xs

  unfoldable pub remove : Str → List (Str × A) → List (Str × A)
  remove k [] = []
  remove k ((j, a) ∷ xs) = let rest = remove k xs in if str_eq j k then rest else (j, a) ∷ rest

module _ {ℓ} {A : Type ℓ} where
  pub lookup-insert_self : (k : Str) (a : A) (xs : List (Str × A)) → lookup k ((k, a) ∷ xs) ≡ some a
  unfolding lookup
  lookup-insert_self k a xs = rw (str_eq_refl k) refl

  pub lookup-insert_other :
      (j k : Str) (a : A) (xs : List (Str × A))
      → str_eq j k ≡ false
      → lookup k ((j, a) ∷ xs) ≡ lookup k xs
  unfolding lookup
  lookup-insert_other j k a xs n = rw n refl

  pub lookup-remove_other :
      (j k : Str) (xs : List (Str × A)) → str_eq j k ≡ false → lookup k (remove j xs) ≡ lookup k xs
  unfolding lookup remove
  lookup-remove_other j k [] n = refl
  lookup-remove_other j k ((i, a) ∷ xs) n =
      let ih = lookup-remove_other j k xs n in
      elim (Bool-cases (str_eq i j)) [
        | inl h ↦ let m : str_eq i k ≡ false = rw (str_eq→eq i j h) n in rw h (rw m ih)
        | inr h ↦ rw h (elim (Bool-cases (str_eq i k)) [ inl m ↦ rw m refl | inr m ↦ rw m ih ])
      ]

module _ {ℓ κ} {A : Type ℓ} (P : Str → A → Type κ) where
  abbrev pub Entries : List (Str × A) → Type κ
  Entries [] = Unit
  Entries ((k, a) ∷ xs) = P k a × Entries xs

  pub lookup-Entries :
      (k : Str) (a : A) (xs : List (Str × A)) → Entries xs → lookup k xs ≡ some a → P k a
  unfolding lookup
  lookup-Entries k a [] h = λ e. cc
  lookup-Entries k a ((j, b) ∷ xs) h = elim (Bool-cases (str_eq j k)) [
    | inl m ↦ rw m (λ e. subst (P k) (some_eq e) (subst (λ i. P i b) (str_eq→eq j k m) h.0))
    | inr m ↦ rw m (lookup-Entries k a xs h.1)
  ]

-- An entry that is left satisfies what holds of all entries with another key.
module _ {ℓ κ ι} {A : Type ℓ} (P : Str → A → Type κ) (Q : Str → A → Type ι) where
  pub remove-Entries-other :
      (k : Str) (xs : List (Str × A))
      → ((j : Str) (a : A) → str_eq j k ≡ false → P j a → Q j a)
      → Entries P xs
      → Entries Q (remove k xs)
  unfolding remove
  remove-Entries-other k [] f h = tt
  remove-Entries-other k ((j, a) ∷ xs) f h = elim (Bool-cases (str_eq j k)) [
    | inl m ↦ rw m (remove-Entries-other k xs f h.1)
    | inr m ↦ rw m (f j a m h.0, remove-Entries-other k xs f h.1)
  ]

  pub Entries-map :
      (xs : List (Str × A)) → ((j : Str) (a : A) → P j a → Q j a) → Entries P xs → Entries Q xs
  Entries-map [] f h = tt
  Entries-map ((j, a) ∷ xs) f h = (f j a h.0, Entries-map xs f h.1)
