-- ===== src/Reporter/Counts.antt =====
-- How many requests hold the statistics at a position, and the references that they have.
use serving.Prelude.{
  ℕ, zero, suc, ◌+◌, ◌≤◌, ◌<◌, ◌≡◌, refl, ap, List, [], ◌∷◌, ◌++◌, some, some_eq, if◌then◌else◌,
  ◌==◌, length, get_elem?, set, arith, sym, ◌∙◌,
}
use serving.Prelude.Int.{ℤ, pos, ◌+ℤ◌}
use serving.Reporter.Defs.{
  RevisionStats, Handler, missed, entering, serving_request, leaving, finished, modify, add_ref,
}

==-suc : (i j : ℕ) → (suc i == suc j) ≡ (i == j)
==-suc i j = ground arith

abbrev pub one_if : ℕ → ℕ → ℕ
one_if i j = if i == j then 1 else 0

-- 1 if the request holds the statistics at `id`.
abbrev pub held : ℕ → Handler → ℕ
held id (missed key) = 0
held id (entering key j) = one_if id j
held id (serving_request key j) = one_if id j
held id (leaving key j) = one_if id j
held id finished = 0

unfoldable pub count : ℕ → List Handler → ℕ
count id [] = 0
count id (h ∷ hs) = held id h + count id hs

pub count-append :
    (id : ℕ) (hs : List Handler) (h : Handler) → count id (hs ++ (h ∷ [])) ≡ count id hs + held id h
unfolding count
count-append id [] h = omega arith
count-append id (g ∷ hs) h = omega (arith, count-append id hs h)

pub count-set :
    (id : ℕ) (hs : List Handler) (i : ℕ) (h g : Handler)
    → get_elem? hs i ≡ some h
    → count id (set hs i g) + held id h ≡ count id hs + held id g
unfolding count
count-set id [] i h g = λ e. cc
count-set id (x ∷ hs) zero h g =
    λ e. let e' : held id x ≡ held id h = ap (held id) (some_eq e) in omega (arith, e')
count-set id (x ∷ hs) (suc i) h g = λ e. omega (arith, count-set id hs i h g e)

module _ {S : Type 0} where
  unfoldable pub refs_of : List (RevisionStats S) → ℕ → ℤ
  refs_of [] i = pos 0
  refs_of (s ∷ ss) zero = s.refs
  refs_of (s ∷ ss) (suc i) = refs_of ss i

module _ {S : Type 0} where
  pub refs_of-modify_ref :
      (n : ℤ) (i : ℕ) (ss : List (RevisionStats S)) (j : ℕ)
      → i < length ss
      → refs_of (modify (add_ref n) i ss) j ≡ (if j == i then refs_of ss j +ℤ n else refs_of ss j)
  unfolding refs_of
  refs_of-modify_ref n i [] j h = absurd (omega (arith, h))
  refs_of-modify_ref n zero (s ∷ ss) zero h = refl
  refs_of-modify_ref n zero (s ∷ ss) (suc j) h = ground arith
  refs_of-modify_ref n (suc i) (s ∷ ss) zero h = ground arith
  refs_of-modify_ref n (suc i) (s ∷ ss) (suc j) h =
      rw (==-suc j i) (refs_of-modify_ref n i ss j (omega (arith, h)))

  pub refs_of-append :
      (ss : List (RevisionStats S)) (s : RevisionStats S) (j : ℕ)
      → refs_of (ss ++ (s ∷ [])) j ≡ (if j == length ss then s.refs else refs_of ss j)
  unfolding refs_of
  refs_of-append [] s zero = refl
  refs_of-append [] s (suc j) = ground arith
  refs_of-append (x ∷ ss) s zero = ground arith
  refs_of-append (x ∷ ss) s (suc j) = rw (==-suc j (length ss)) (refs_of-append ss s j)

  pub refs_of_out : (ss : List (RevisionStats S)) (j : ℕ) → length ss ≤ j → refs_of ss j ≡ pos 0
  unfolding refs_of
  refs_of_out [] j h = refl
  refs_of_out (s ∷ ss) zero h = absurd (omega (arith, h))
  refs_of_out (s ∷ ss) (suc j) h = refs_of_out ss j (omega (arith, h))

  pub get_elem?-refs_of :
      (ss : List (RevisionStats S)) (i : ℕ) (s : RevisionStats S)
      → get_elem? ss i ≡ some s
      → refs_of ss i ≡ s.refs
  unfolding refs_of
  get_elem?-refs_of [] i s = λ e. cc
  get_elem?-refs_of (x ∷ ss) zero s = λ e. ap (λ (y : RevisionStats S). y.refs) (some_eq e)
  get_elem?-refs_of (x ∷ ss) (suc i) s = get_elem?-refs_of ss i s

  -- A change that leaves the references.
  pub refs_of-set :
      (ss : List (RevisionStats S)) (i : ℕ) (s s' : RevisionStats S) (j : ℕ)
      → s'.refs ≡ s.refs
      → get_elem? ss i ≡ some s
      → refs_of (set ss i s') j ≡ refs_of ss j
  unfolding refs_of
  refs_of-set [] i s s' j h = λ e. cc
  refs_of-set (x ∷ ss) zero s s' zero h =
      λ e. h ∙ ap (λ (y : RevisionStats S). y.refs) (sym (some_eq e))
  refs_of-set (x ∷ ss) zero s s' (suc j) h = λ e. refl
  refs_of-set (x ∷ ss) (suc i) s s' zero h = λ e. refl
  refs_of-set (x ∷ ss) (suc i) s s' (suc j) h = refs_of-set ss i s s' j h

  pub refs_of-modify :
      (f : RevisionStats S → RevisionStats S) (i : ℕ) (ss : List (RevisionStats S)) (j : ℕ)
      → ((s : RevisionStats S) → (f s).refs ≡ s.refs)
      → refs_of (modify f i ss) j ≡ refs_of ss j
  unfolding refs_of
  refs_of-modify f i [] j h = refl
  refs_of-modify f zero (x ∷ ss) zero h = h x
  refs_of-modify f zero (x ∷ ss) (suc j) h = refl
  refs_of-modify f (suc i) (x ∷ ss) zero h = refl
  refs_of-modify f (suc i) (x ∷ ss) (suc j) h = refs_of-modify f i ss j h

  pub length-modify :
      (f : RevisionStats S → RevisionStats S) (i : ℕ) (ss : List (RevisionStats S))
      → length (modify f i ss) ≡ length ss
  length-modify f i [] = refl
  length-modify f zero (x ∷ ss) = refl
  length-modify f (suc i) (x ∷ ss) = ap suc (length-modify f i ss)
