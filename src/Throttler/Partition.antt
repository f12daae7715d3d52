-- ===== src/Throttler/Partition.antt =====
-- The slices of the activators divide the pods among them.
use mathlib.Core.List.{Perm, append_assoc, perm_append_comm, append-nil}
use mathlib.Core.List.Perm
use native.Mathlib.Nat.{zero-add, zero-mul, suc-add, div-add-mod, mod-lt}
use serving.Prelude.{
  ℕ, zero, suc, ◌+◌, ◌-◌, ◌*◌, ◌/◌, ◌%◌, ◌≤◌, ◌<◌, ◌≡◌, refl, ap, sym, subst, ◌∙◌, true, false,
  List, [], ◌∷◌, ◌++◌, Option, none, some, ◌>>=◌, ltb, leb, ◌==◌, length, take, drop, length-drop,
  take-append-drop, arith, Bool-cases, inl, inr,
}
use serving.Throttler.Slice.{pick_indices, sub_slice, assign_slice, nth_list}

ltb_zero : (n : ℕ) → ltb 0 n ≡ false → n ≡ 0
ltb_zero n h = ground arith

mul_le : (k n s : ℕ) → k < n → k * s + s ≤ n * s
mul_le k n s h = grind arith

suc-mul : (m s : ℕ) → suc m * s ≡ m * s + s
suc-mul m s = omega arith

suc_add_one : (m : ℕ) → suc m ≡ m + 1
suc_add_one m = omega arith

-- The place of an activator among the activators, if it has one.
abbrev pub HasPlace : Option ℕ → ℕ → Type 0
HasPlace none n = Unit
HasPlace (some i) n = i < n

module _ {ℓ} {A : Type ℓ} where
  take-nil : (n : ℕ) → take {A = A} n [] ≡ []
  take-nil zero = refl
  take-nil (suc n) = refl

  drop-nil : (n : ℕ) → drop {A = A} n [] ≡ []
  drop-nil zero = refl
  drop-nil (suc n) = refl

  take-add : (a b : ℕ) (xs : List A) → take (a + b) xs ≡ take a xs ++ take b (drop a xs)
  take-add zero b xs = rw zero-add
  take-add (suc a) b [] = rw suc-add (sym (take-nil b))
  take-add (suc a) b (x ∷ xs) = rw suc-add (ap (λ l. x ∷ l) (take-add a b xs))

  drop_all : (n : ℕ) (xs : List A) → length xs ≤ n → drop n xs ≡ []
  drop_all zero [] h = refl
  drop_all zero (x ∷ xs) h = elim h [ ]
  drop_all (suc n) [] h = refl
  drop_all (suc n) (x ∷ xs) h = drop_all n xs (omega arith)

  nth_list_lem : (xs : List A) (i : ℕ) → nth_list xs i ≡ take 1 (drop i xs)
  nth_list_lem [] zero = refl
  nth_list_lem [] (suc i) = refl
  nth_list_lem (x ∷ xs) zero = refl
  nth_list_lem (x ∷ xs) (suc i) = nth_list_lem xs i

  take_all : (n : ℕ) (xs : List A) → length xs ≤ n → take n xs ≡ xs
  take_all zero [] h = refl
  take_all zero (x ∷ xs) h = elim h [ ]
  take_all (suc n) [] h = refl
  take_all (suc n) (x ∷ xs) h = ap (λ l. x ∷ l) (take_all n xs (omega arith))

  -- The slice of activator `k`, where there are at least as many pods as activators.
  assign_slice_lem :
      (xs : List A) (k n : ℕ)
      → 1 < n
      → n ≤ length xs
      → k < n
      → let s = length xs / n in
        assign_slice xs (some k) n
        ≡ some (take s (drop (k * s) xs) ++ take 1 (drop k (drop (n * s) xs)))
  unfolding assign_slice pick_indices sub_slice
  assign_slice_lem xs k n h le kn =
      let l = length xs in
      let s = l / n in
      let many : leb l 1 ≡ false = ground arith in
      let several : (n == 1) ≡ false = ground arith in
      let there : (n == 0) ≡ false = ground arith in
      let enough : ltb l n ≡ false = ground arith in
      let size : k * s + s - k * s ≡ s = omega arith in
      let whole : l - l % n ≡ n * s = omega (arith, div-add-mod l n) in
      let forward : leb (k * s) (k * s + s) ≡ true = ground arith in
      let inside : leb (k * s + s) l ≡ true = ground (arith, mul_le k n s kn, div-add-mod l n) in
      elim (Bool-cases (ltb 0 (l % n))) [
        | inl some_left ↦
            rw (many, several, enough, there, forward, inside, size, some_left, whole)
              (ap (λ t. some (take s (drop (k * s) xs) ++ t)) (nth_list_lem (drop (n * s) xs) k))
        | inr none_left ↦
            let none_above : drop (n * s) xs ≡ [] =
              drop_all (n * s) xs (omega (arith, div-add-mod l n, ltb_zero (l % n) none_left)) in
            rw (
              many,
              several,
              enough,
              there,
              forward,
              inside,
              size,
              none_left,
              none_above,
              drop-nil k,
            )
      ]

  drop-drop : (a b : ℕ) (xs : List A) → drop b (drop a xs) ≡ drop (a + b) xs
  drop-drop zero b xs = rw zero-add
  drop-drop (suc a) b [] = rw suc-add (drop-nil b)
  drop-drop (suc a) b (x ∷ xs) = rw suc-add (drop-drop a b xs)

  -- The slices of the first `m` activators of `n`, one after the other.
  unfoldable pub slices : List A → ℕ → ℕ → Option (List A)
  slices xs n zero = some []
  slices xs n (suc m) = do
    before ← slices xs n m
    own ← assign_slice xs (some m) n
    some (before ++ own)

  perm_regroup : (a b c d : List A) → Perm ((a ++ b) ++ (c ++ d)) ((a ++ c) ++ (b ++ d))
  perm_regroup [] b c d =
      subst (λ l. Perm l (c ++ (b ++ d))) (append_assoc b c d)
        (subst (Perm ((b ++ c) ++ d)) (append_assoc c b d)
          (Perm.append (perm_append_comm b c) (Perm.refl d)))
  perm_regroup (x ∷ a) b c d = Perm.cons x (perm_regroup a b c d)

  slices_lem :
      (xs : List A) (n m : ℕ)
      → 1 < n
      → n ≤ length xs
      → m ≤ n
      → let s = length xs / n in
        (ys : List A) × (slices xs n m ≡ some ys)
        × Perm ys (take (m * s) xs ++ take m (drop (n * s) xs))
  unfolding slices
  slices_lem xs n zero h le mn = ([], refl, rw (zero-mul (length xs / n)) (Perm.refl []))
  slices_lem xs n (suc m) h le mn =
      let s = length xs / n in
      let tail = drop (n * s) xs in
      let mine = assign_slice_lem xs m n h le (omega arith) in
      let (ys, e, ih) = slices_lem xs n m h le (omega arith) in
      let e1 : take (suc m * s) xs ≡ take (m * s) xs ++ take s (drop (m * s) xs) =
        ap (λ k. take k xs) (suc-mul m s) ∙ take-add (m * s) s xs in
      let e2 : take (suc m) tail ≡ take m tail ++ take 1 (drop m tail) =
        ap (λ k. take k tail) (suc_add_one m) ∙ take-add m 1 tail in
      (
        ys ++ (take s (drop (m * s) xs) ++ take 1 (drop m tail)),
        rw e (rw mine refl),
        rw (e1, e2)
            (Perm.trans (Perm.append ih (Perm.refl _))
              (perm_regroup (take (m * s) xs) (take m tail) _ _)),
      )

  -- The activators divide the pods among them: where there are at least two of them and no fewer pods
  -- than activators, no activator's assignment panics and every pod is in the slice of exactly one.
  pub slices-perm :
      (xs : List A) (n : ℕ)
      → 1 < n
      → n ≤ length xs
      → (ys : List A) × (slices xs n n ≡ some ys) × Perm ys xs
  slices-perm xs n h le =
      let s = length xs / n in
      let rest : take n (drop (n * s) xs) ≡ drop (n * s) xs =
        take_all n _ (omega (arith, length-drop (n * s) xs, div-add-mod (length xs) n)) in
      let (ys, e, p) = slices_lem xs n n h le (omega arith) in
      (ys, e, subst (Perm ys) (ap (λ t. take (n * s) xs ++ t) rest ∙ take-append-drop (n * s) xs) p)

  -- With fewer pods than activators each activator has one pod, the pods in turn.
  assign_slice_few :
      (xs : List A) (k n : ℕ)
      → 1 < length xs
      → length xs < n
      → assign_slice xs (some k) n ≡ some (nth_list xs (k % length xs))
  unfolding assign_slice pick_indices sub_slice
  assign_slice_few xs k n h lt =
      let l = length xs in
      let i = k % l in
      let many : leb l 1 ≡ false = ground arith in
      let several : (n == 1) ≡ false = ground arith in
      let there : (l == 0) ≡ false = ground arith in
      let few : ltb l n ≡ true = ground arith in
      let one : i + 1 - i ≡ 1 = omega arith in
      let forward : leb i (i + 1) ≡ true = ground arith in
      let below : i < l = mod-lt k (omega arith) in
      let inside : leb (i + 1) l ≡ true = ground (arith, below) in
      rw (many, several, few, there, forward, inside, one)
        (ap some (append-nil (take 1 (drop i xs)) ∙ sym (nth_list_lem xs i)))

  -- In its place an activator's assignment does not panic.
  pub assign_slice_returns :
      (xs : List A) (o : Option ℕ) (n : ℕ)
      → HasPlace o n
      → (ys : List A) × (assign_slice xs o n ≡ some ys)
  assign_slice_returns xs none n h = (xs, unfold assign_slice in refl)
  assign_slice_returns xs (some k) n h = elim (Bool-cases (leb (length xs) 1)) [
    | inl few ↦ (xs, unfold assign_slice in rw few refl)
    | inr many ↦ elim (Bool-cases (n == 1)) [
      | inl one ↦ (xs, unfold assign_slice in rw (many, one) refl)
      | inr several ↦ elim (Bool-cases (ltb (length xs) n)) [
        | inl fewer ↦ (_, assign_slice_few xs k n (ground arith) (ground arith))
        | inr enough ↦ (_, assign_slice_lem xs k n (ground (arith, several, h)) (ground arith) h)
      ]
    ]
  ]
