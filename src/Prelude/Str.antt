-- ===== src/Prelude/Str.antt =====
-- Go strings: sequences of bytes, which `==` and `<` compare byte by byte from the left.
use serving.Prelude.{
  ℕ, ◌≡◌, refl, ◌↔◌, ◌⊎◌, inl, inr, Bool, true, false, List, [], ◌∷◌, arith, ltb, ◌==◌,
  if◌then◌else◌, Bool-cases,
}

abbrev pub Str : Type 0
Str = List ℕ

unfoldable pub str_eq : Str → Str → Bool
str_eq [] [] = true
str_eq [] (y ∷ ys) = false
str_eq (x ∷ xs) [] = false
str_eq (x ∷ xs) (y ∷ ys) = if x == y then str_eq xs ys else false

unfoldable pub str_lt : Str → Str → Bool
str_lt [] [] = false
str_lt [] (y ∷ ys) = true
str_lt (x ∷ xs) [] = false
str_lt (x ∷ xs) (y ∷ ys) = if ltb x y then true else if x == y then str_lt xs ys else false

pub str_eq_refl : (s : Str) → str_eq s s ≡ true
unfolding str_eq
str_eq_refl [] = refl
str_eq_refl (x ∷ s) = ground (arith, str_eq_refl s)

pub str_eq→eq : (s t : Str) → str_eq s t ≡ true → s ≡ t
unfolding str_eq
str_eq→eq [] [] h = refl
str_eq→eq [] (y ∷ t) h = ground arith
str_eq→eq (x ∷ s) [] h = ground arith
str_eq→eq (x ∷ s) (y ∷ t) h = ground (arith, str_eq→eq s t)

pub str_eq_iff : (s t : Str) → (str_eq s t ≡ true) ↔ (s ≡ t)
str_eq_iff s t = (str_eq→eq s t, λ e. ground (arith, str_eq_refl s))

pub str_eq_sym : (s t : Str) → str_eq s t ≡ str_eq t s
unfolding str_eq
str_eq_sym [] [] = refl
str_eq_sym [] (y ∷ t) = refl
str_eq_sym (x ∷ s) [] = refl
str_eq_sym (x ∷ s) (y ∷ t) = ground (arith, str_eq_sym s t)

pub str_lt_irrefl : (s : Str) → str_lt s s ≡ false
unfolding str_lt
str_lt_irrefl [] = refl
str_lt_irrefl (x ∷ s) = ground (arith, str_lt_irrefl s)

pub str_lt_trans : (s t u : Str) → str_lt s t ≡ true → str_lt t u ≡ true → str_lt s u ≡ true
unfolding str_lt
str_lt_trans [] [] u h k = k
str_lt_trans [] (y ∷ t) [] h k = ground arith
str_lt_trans [] (y ∷ t) (z ∷ u) h k = refl
str_lt_trans (x ∷ s) [] u h k = ground arith
str_lt_trans (x ∷ s) (y ∷ t) [] h k = k
str_lt_trans (x ∷ s) (y ∷ t) (z ∷ u) h k = ground (arith, str_lt_trans s t u)

-- Two strings are equal, or one comes before the other.
pub str_lt_total : (s t : Str) → (str_eq s t ≡ true) ⊎ ((str_lt s t ≡ true) ⊎ (str_lt t s ≡ true))
unfolding str_eq str_lt
str_lt_total [] [] = inl refl
str_lt_total [] (y ∷ t) = inr (inl refl)
str_lt_total (x ∷ s) [] = inr (inr refl)
str_lt_total (x ∷ s) (y ∷ t) = ground (arith, str_lt_total s t)

pub str_lt_asym : (s t : Str) → str_lt s t ≡ true → str_lt t s ≡ false
str_lt_asym s t h = elim (Bool-cases (str_lt t s)) [
  | inl k ↦ ground (arith, str_lt_trans s t s h k, str_lt_irrefl s)
  | inr k ↦ k
]

pub str_le_trans : (s t u : Str) → str_lt t s ≡ false → str_lt u t ≡ false → str_lt u s ≡ false
unfolding str_lt
str_le_trans [] [] u h k = k
str_le_trans [] (y ∷ t) [] h k = refl
str_le_trans [] (y ∷ t) (z ∷ u) h k = refl
str_le_trans (x ∷ s) [] u h k = ground arith
str_le_trans (x ∷ s) (y ∷ t) [] h k = ground arith
str_le_trans (x ∷ s) (y ∷ t) (z ∷ u) h k = ground (arith, str_le_trans s t u)

-- Two strings neither of which comes before the other are equal.
pub str_lt_antisym : (s t : Str) → str_lt s t ≡ false → str_lt t s ≡ false → s ≡ t
unfolding str_lt
str_lt_antisym [] [] h k = refl
str_lt_antisym [] (y ∷ t) h k = ground arith
str_lt_antisym (x ∷ s) [] h k = ground arith
str_lt_antisym (x ∷ s) (y ∷ t) h k = ground (arith, str_lt_antisym s t)
