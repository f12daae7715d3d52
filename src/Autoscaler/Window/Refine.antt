-- ===== src/Autoscaler/Window/Refine.antt =====
-- `Record` on the buffer is `add_value` on its elements, and `Current` is their largest value.
use native.Mathlib.Nat.{mod-eq-sub-mod}
use mathlib.Core.Path.{ap₂}
use mathlib.Core.List.{append-nil}
use serving.Prelude.{
  ℕ, zero, suc, ◌+◌, ◌-◌, ◌%◌, ◌≤◌, ◌<◌, ◌≡◌, ◌≢◌, ◌⊎◌, refl, true, false, List, [], ◌∷◌, ◌++◌,
  some, ltb, leb, ◌==◌, if◌then◌else◌, length, get_or, set, length-set, arith, All, ap, sym, ◌∙◌,
  Bool-cases, inl, inr, subst,
}
use serving.Prelude.Int.{ℤ, ltb_ℤ}
use serving.Autoscaler.Window.{
  Entry, Window, no_entry, remove_old, write_last, record_value, current,
}
use serving.Autoscaler.Window.Spec.{is_recent, keep_recent, add_newest, add_value, IsDescending}
use serving.Autoscaler.Window.Order.{
  drop_lower-lem, IsWindow, add_value-IsWindow, length-IsWindow, oldest,
}
use serving.Autoscaler.Window.Ring.{
  at, view, contents, IsRing, get_elem?-get_or, get_or-set_ne, get_or-set_self, mod_once,
  position_lem, remove_lower_refines, merge_last_refines,
}

-- Without its oldest element the buffer starts one place later.
view-oldest :
    (maxima : List Entry) (first n : ℕ)
    → first < length maxima
    → let next : ℕ = (if first + 1 == length maxima then 0 else first + 1) in
      view maxima first (suc n) ≡ view maxima next n ++ get_or maxima first no_entry ∷ []
view-oldest maxima first zero h =
    ap (λ i. get_or maxima i no_entry ∷ []) (ground (arith, mod_once (first + 0) (length maxima)))
view-oldest maxima first (suc n) h =
    let next : ℕ = (if first + 1 == length maxima then 0 else first + 1) in
    let same : (first + suc n) % length maxima ≡ (next + n) % length maxima =
      go (Bool-cases (first + 1 == length maxima)) in
    ap₂ ◌∷◌ (ap (λ i. get_or maxima i no_entry) same) (view-oldest maxima first n h)
  where
    go :
        ((first + 1 == length maxima) ≡ true) ⊎ ((first + 1 == length maxima) ≡ false)
        → (first + suc n) % length maxima
          ≡ ((if first + 1 == length maxima then 0 else first + 1) + n) % length maxima
    go (inl k) =
        let e : first + 1 ≡ length maxima = ground (arith, k) in
        rw k (
          mod-eq-sub-mod {n = first + suc n} {m = length maxima} (omega (arith, e))
          ∙ ap (λ i. i % length maxima) (omega (arith, e)))
    go (inr k) = rw k (ap (λ i. i % length maxima) (omega arith))

keep_recent-append :
    (size index : ℕ) (xs ys : List Entry)
    → keep_recent size index (xs ++ ys) ≡ keep_recent size index xs ++ keep_recent size index ys
unfolding keep_recent
keep_recent-append size index [] ys = refl
keep_recent-append size index (x ∷ xs) ys = ground (arith, keep_recent-append size index xs ys)

-- If the oldest element counts, all do.
keep_recent-all :
    (size index : ℕ) (e : Entry) (xs : List Entry)
    → IsDescending (xs ++ e ∷ [])
    → is_recent size index e ≡ true
    → keep_recent size index (xs ++ e ∷ []) ≡ xs ++ e ∷ []
unfolding keep_recent
keep_recent-all size index e [] d r = rw r refl
keep_recent-all size index e (x ∷ xs) d r =
    let below : e.index < x.index = last_below xs d.0 in
    let rx : is_recent size index x ≡ true = ground (arith, r, below) in
    rw rx (ap (◌∷◌ x) (keep_recent-all size index e xs d.1 r))
  where
    last_below :
        (ys : List Entry)
        → All (λ d. (d.index < x.index) × (ltb_ℤ x.value d.value ≡ true)) (ys ++ e ∷ [])
        → e.index < x.index
    last_below [] a = a.0.0
    last_below (y ∷ ys) a = last_below ys a.1

IsDescending-init : (e : Entry) (xs : List Entry) → IsDescending (xs ++ e ∷ []) → IsDescending xs
IsDescending-init e [] d = tt
IsDescending-init e (x ∷ xs) d = (init_all xs d.0, IsDescending-init e xs d.1)
  where
    init_all :
        (ys : List Entry)
        → All (λ d. (d.index < x.index) × (ltb_ℤ x.value d.value ≡ true)) (ys ++ e ∷ [])
        → All (λ d. (d.index < x.index) × (ltb_ℤ x.value d.value ≡ true)) ys
    init_all [] a = tt
    init_all (y ∷ ys) a = (a.0, init_all ys a.1)

remove_old_refines :
    (index : ℕ) (maxima : List Entry) (first n : ℕ)
    → first < length maxima
    → IsDescending (view maxima first n)
    → (first' : ℕ) × (n' : ℕ) × (remove_old index maxima first n ≡ some (first', n'))
      × (first' < length maxima)
      × (view maxima first' n' ≡ keep_recent (length maxima) index (view maxima first n))
unfolding remove_old keep_recent
remove_old_refines index maxima first zero h d = (first, 0, refl, h, ground arith)
remove_old_refines index maxima first (suc n) h d =
    let size = length maxima in
    let e = get_or maxima first no_entry in
    let next : ℕ = (if first + 1 == size then 0 else first + 1) in
    let v = view-oldest maxima first n h in
    let d' : IsDescending (view maxima next n ++ e ∷ []) = subst IsDescending v d in
    let (f, n', r, l, w) =
      remove_old_refines index maxima next n (ground arith)
        (IsDescending-init e (view maxima next n) d') in
    let read = get_elem?-get_or maxima first no_entry h in
    elim (Bool-cases (leb size (index - e.index))) [
      | inl k ↦
          let old : is_recent size index e ≡ false = ground (arith, k) in
          (
            f,
            n',
            rw read (rw k r),
            l,
            w
                ∙ sym (
                    ap (keep_recent size index) v
                    ∙ keep_recent-append size index (view maxima next n) (e ∷ [])
                    ∙ rw old (append-nil (keep_recent size index (view maxima next n)))),
          )
      | inr k ↦
          let new : is_recent size index e ≡ true = ground (arith, k) in
          (
            first,
            suc n,
            rw read (rw k refl),
            h,
            v
                ∙ sym (
                    ap (keep_recent size index) v
                    ∙ keep_recent-all size index e (view maxima next n) d' new),
          )
    ]

-- Writing behind the newest element makes a new one.
view-set :
    (maxima : List Entry) (first n k : ℕ) (d : Entry)
    → first < length maxima
    → n < length maxima
    → k ≤ n
    → view (set maxima ((first + n) % length maxima) d) first k ≡ view maxima first k
view-set maxima first n zero d h l le = refl
view-set maxima first n (suc k) d h l le =
    let size = length maxima in
    let apart : (first + n) % size ≢ (first + k) % size =
      λ e. ground (arith, e, mod_once (first + n) size, mod_once (first + k) size) in
    ap₂ ◌∷◌
      (ap (λ s. get_or (set maxima ((first + n) % size) d) ((first + k) % s) no_entry)
          (length-set maxima ((first + n) % size) d)
        ∙ get_or-set_ne maxima ((first + n) % size) ((first + k) % size) d no_entry apart)
      (view-set maxima first n k d h l (omega arith))

length-view : (maxima : List Entry) (first n : ℕ) → length (view maxima first n) ≡ n
length-view maxima first zero = refl
length-view maxima first (suc n) = ap suc (length-view maxima first n)

-- Step three makes the newest element.
write_last_refines :
    (index : ℕ) (v : ℤ) (maxima : List Entry) (first n : ℕ)
    → first < length maxima
    → n + 1 ≤ length maxima
    → (m : Window) × (write_last index v maxima first n ((first + n) % length maxima) ≡ some m)
      × IsRing m
      × (length m.maxima ≡ length maxima)
      × (contents m ≡ record { value = v; index = index } ∷ view maxima first n)
unfolding write_last
write_last_refines index v maxima first n h l =
    let d : Entry = record { value = v; index = index } in
    let p = (first + n) % length maxima in
    let kept : length (set maxima p d) ≡ length maxima = length-set maxima p d in
    let fits : ltb (length maxima) (n + 1) ≡ false = ground arith in
    let m : Window = record { maxima = set maxima p d; first = first; len = n + 1 } in
    let newest : at (set maxima p d) (first + n) ≡ d =
      ap (λ s. get_or (set maxima p d) ((first + n) % s) no_entry) kept
      ∙ get_or-set_self maxima p d no_entry (omega arith) in
    (
      m,
      rw fits refl,
      record { first_in = rw kept h; len_in = rw kept l },
      kept,
      ap (view (set maxima p d) first) (suc_add_one n)
          ∙ ap₂ ◌∷◌ newest (view-set maxima first n n d h (omega arith) (omega arith)),
    )
  where
    suc_add_one : (n : ℕ) → n + 1 ≡ suc n
    suc_add_one n = omega arith

-- On a buffer whose positions are in range, whose elements are a window at `last`, and for an index
-- that is not below `last`: `Record` does not panic, keeps the positions in range and the size of the
-- buffer, and does to the elements what `add_value` does.
pub record_value_refines :
    (last index : ℕ) (v : ℤ) (m : Window)
    → IsRing m
    → IsWindow (length m.maxima) last (contents m)
    → last ≤ index
    → (m' : Window) × (record_value index v m ≡ some m')
      × IsRing m'
      × (length m'.maxima ≡ length m.maxima)
      × (contents m' ≡ add_value (length m.maxima) index v (contents m))
unfolding record_value add_value
record_value_refines last index v m r w h =
    let maxima = m.maxima in
    let size = length maxima in
    let pos : 0 < size = omega (arith, r.first_in) in
    let (n1, e1, w1, l1) = remove_lower_refines v maxima m.first m.len pos in
    let d1 : IsDescending (view maxima m.first n1) =
      subst IsDescending (sym w1) (drop_lower-lem v last (contents m) w.descending w.before).0 in
    let (f, n2, e2, l2, w2) = remove_old_refines index maxima m.first n1 r.first_in d1 in
    let (v', n3, e3, w3) = merge_last_refines index v maxima f n2 pos in
    let d : Entry = record { value = v'; index = index } in
    let all : add_value size index v (contents m) ≡ d ∷ view maxima f n3 =
      ap (add_newest index v) (ap (keep_recent size index) (sym w1) ∙ sym w2) ∙ w3 in
    let room : n3 + 1 ≤ size =
      let kept =
        subst (IsWindow size index) all
          (add_value-IsWindow size index last v (contents m) pos h w) in
      omega
        (arith, length-IsWindow size index (d ∷ view maxima f n3) kept, length-view maxima f n3) in
    let (m', e4, ring, same, w4) = write_last_refines index v' maxima f n3 l2 room in
    (m', rw e1 (rw e2 (rw e3 (rw (position_lem maxima (f + n3) pos) e4))), ring, same, w4 ∙ sym all)

-- `Current` is the value of the oldest element.
pub current_lem :
    (m : Window) (e : Entry) (es : List Entry)
    → IsRing m
    → contents m ≡ e ∷ es
    → (o : Entry) × (oldest (e ∷ es) ≡ some o) × (current m ≡ some o.value)
unfolding current
current_lem m e es r h =
    let o = get_or m.maxima m.first no_entry in
    (
      o,
      subst (λ xs. oldest xs ≡ some o) h (go m.len (ap length h ∙ refl)),
      rw (get_elem?-get_or m.maxima m.first no_entry r.first_in) refl,
    )
  where
    first_at :
        get_or m.maxima ((m.first + 0) % length m.maxima) no_entry
        ≡ get_or m.maxima m.first no_entry
    first_at =
        ap (λ i. get_or m.maxima i no_entry)
          (ground (arith, mod_once (m.first + 0) (length m.maxima), r.first_in))

    go_on :
        (n : ℕ)
        → oldest (view m.maxima m.first (suc (suc n))) ≡ some (get_or m.maxima m.first no_entry)
    go_on zero = ap some first_at
    go_on (suc n) = go_on n

    go :
        (n : ℕ)
        → length (view m.maxima m.first n) ≡ length (e ∷ es)
        → oldest (view m.maxima m.first n) ≡ some (get_or m.maxima m.first no_entry)
    go zero l = absurd (omega (arith, l))
    go (suc zero) l = ap some first_at
    go (suc (suc n)) l = go_on n
