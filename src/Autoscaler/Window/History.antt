-- ===== src/Autoscaler/Window/History.antt =====
-- The window after any history of values.
use serving.Prelude.{
  ℕ, ◌≤◌, ◌<◌, ◌≡◌, ◌≢◌, refl, List, [], ◌∷◌, Option, none, some, length, arith, ap, sym, ◌∙◌,
  ◌>>=◌, some_eq, subst, length-replicate, true,
}
use serving.Prelude.Int.{ℤ}
use serving.Autoscaler.Window.{Entry, Window, no_entry, new_window, record_value, current}
use serving.Autoscaler.Window.Spec.{
  largest, add_value, add_value-largest, IsBefore, counting, join, is_recent,
}
use serving.Autoscaler.Window.Order.{add_value-IsWindow, IsWindow, largest-oldest}
use serving.Autoscaler.Window.Ring.{contents, IsRing}
use serving.Autoscaler.Window.Refine.{record_value_refines, current_lem}

-- The window of a size after values have been recorded; the history is newest first.
unfoldable pub recorded : ℕ → List Entry → Option Window
recorded size [] = some (new_window size)
recorded size (e ∷ es) = do m ← recorded size es; record_value e.index e.value m

-- The indexes never fall in the course of time.
abbrev pub IsTimed : List Entry → Type 0
IsTimed [] = Unit
IsTimed (e ∷ []) = Unit
IsTimed (e ∷ d ∷ es) = (d.index ≤ e.index) × IsTimed (d ∷ es)

abbrev pub last_index : List Entry → ℕ
last_index [] = 0
last_index (e ∷ es) = e.index

-- What the window has of a history, whose last index is `last`.
record Keeps (size last : ℕ) (m : Window) (es : List Entry) : Type 0 where
  ring : IsRing m
  sized : length m.maxima ≡ size
  window : IsWindow size last (contents m)
  same : (j : ℕ) → last ≤ j → largest size j (contents m) ≡ largest size j es

new_window-Keeps : (size : ℕ) → 0 < size → Keeps size 0 (new_window size) []
unfolding new_window
new_window-Keeps size h =
    let l = length-replicate size no_entry in
    record {
      ring = record { first_in = rw l h; len_in = omega arith };
      sized = l;
      window = record { descending = tt; before = tt; recent = tt };
      same = λ j k. refl;
    }

record_value-Keeps :
    (size last : ℕ) (m : Window) (e : Entry) (es : List Entry)
    → 0 < size
    → last ≤ e.index
    → Keeps size last m es
    → (m' : Window) × (record_value e.index e.value m ≡ some m') × Keeps size e.index m' (e ∷ es)
unfolding largest
record_value-Keeps size last m e es p h k =
    let sized = k.sized in
    let w : IsWindow (length m.maxima) last (contents m) =
      subst (λ s. IsWindow s last (contents m)) (sym sized) k.window in
    let (m', r, ring, l, c) = record_value_refines last e.index e.value m k.ring w h in
    let c' : contents m' ≡ add_value size e.index e.value (contents m) =
      c ∙ ap (λ s. add_value s e.index e.value (contents m)) sized in
    let before : IsBefore e.index (contents m) = before_later (contents m) k.window.before in
    (
      m',
      r,
      record {
        ring = ring;
        sized = l ∙ sized;
        window =
            subst (IsWindow size e.index) (sym c')
              (add_value-IsWindow size e.index last e.value (contents m) p h k.window);
        same = λ j hj.
            ap (largest size j) c'
            ∙ add_value-largest size e.index j e.value (contents m) hj before
            ∙ ap (join (counting size j e)) (k.same j (omega (arith, h, hj)));
      },
    )
  where
    before_later : (xs : List Entry) → IsBefore last xs → IsBefore e.index xs
    before_later [] b = tt
    before_later (x ∷ xs) b = (omega (arith, b.0, h), before_later xs b.1)

recorded-Keeps :
    (size : ℕ) (es : List Entry)
    → 0 < size
    → IsTimed es
    → (m : Window) × (recorded size es ≡ some m) × Keeps size (last_index es) m es
unfolding recorded
recorded-Keeps size [] p t = (new_window size, refl, new_window-Keeps size p)
recorded-Keeps size (e ∷ []) p t =
    record_value-Keeps size 0 (new_window size) e [] p (omega arith) (new_window-Keeps size p)
recorded-Keeps size (e ∷ d ∷ es) p t =
    let (m, r, k) = recorded-Keeps size (d ∷ es) p t.1 in
    let (m', r', k') = record_value-Keeps size d.index m e (d ∷ es) p t.0 k in (m', rw r r', k')

join-some : (v : ℤ) (w : Option ℤ) → none ≢ join (some v) w
join-some v none h = ground (arith, h)
join-some v (some w) h = ground (arith, h)

-- Of every history whose indexes never fall, a window of at least one index panics at no value, and
-- `Current` is the largest of the values that were recorded in the last `size` indexes.
pub recorded-largest :
    (size : ℕ) (e : Entry) (es : List Entry)
    → 0 < size
    → IsTimed (e ∷ es)
    → (m : Window) × (recorded size (e ∷ es) ≡ some m) × (current m ≡ largest size e.index (e ∷ es))
unfolding largest
recorded-largest size e es p t =
    let (m, r, k) = recorded-Keeps size (e ∷ es) p t in (m, r, go (contents m) m refl k)
  where
    counts : largest size e.index [] ≢ largest size e.index (e ∷ es)
    counts h =
        let now : is_recent size e.index e ≡ true = ground arith in
        join-some e.value (largest size e.index es) (h ∙ rw now refl)

    go :
        (xs : List Entry) (m : Window)
        → contents m ≡ xs
        → Keeps size e.index m (e ∷ es)
        → current m ≡ largest size e.index (e ∷ es)
    go [] m c k = absurd (counts (ap (largest size e.index) (sym c) ∙ k.same e.index (omega arith)))
    go (x ∷ xs) m c k =
        let w = subst (IsWindow size e.index) c k.window in
        let (o, f, v) = current_lem m x xs k.ring c in
        let (o', f', v') = largest-oldest size e.index x xs w.descending w.recent in
        v
        ∙ ap (λ (d : Entry). some d.value) (some_eq (sym f ∙ f'))
        ∙ sym v'
        ∙ ap (largest size e.index) (sym c)
        ∙ k.same e.index (omega arith)
