-- ===== src/Autoscaler/Scaling/Limits.antt =====
-- The limits of the decision for one value of the metric.
use serving.Prelude.{ℕ, ◌≡◌, ◌⊎◌, inl, inr, Bool, true, false, ◌&&◌, arith}
use serving.Prelude.Int.{ℤ, pos, ◌≤ℤ◌, ltb_ℤ}
use serving.Autoscaler.Scaling.{
  Float, DeciderSpec, at_least, max_scale_up, max_scale_down, pods_for, desired_pods,
}

-- What is used of float64: on numbers (`Num`, no NaN) `fmin` and `fmax` are numbers that are bounds in
-- the order `leb`; numbers between two that convert to int32 (`Fits`) convert, and the conversion
-- keeps the order. Nothing is said of which zero comes out where two zeros of different signs go in.
pub record FloatLaws {F : Type 0} (f : Float F) (Num Fits : F → Type 0) : Type 0 where
  pub fmin_num : (a b : F) → Num a → Num b → Num (f.fmin a b)
  pub fmin_right : (a b : F) → Num a → Num b → f.leb (f.fmin a b) b ≡ true
  pub fmin_above :
      (a b c : F)
      → Num a
      → Num b
      → f.leb c a ≡ true
      → f.leb c b ≡ true
      → f.leb c (f.fmin a b) ≡ true
  pub fmax_num : (a b : F) → Num a → Num b → Num (f.fmax a b)
  pub fmax_right : (a b : F) → Num a → Num b → f.leb b (f.fmax a b) ≡ true
  pub fits_num : (a : F) → Fits a → Num a
  pub fits_between :
      (a r b : F) → Num r → Fits a → Fits b → f.leb a r ≡ true → f.leb r b ≡ true → Fits r
  pub to_int32_mono : (a b : F) → Fits a → Fits b → f.leb a b ≡ true → f.to_int32 a ≤ℤ f.to_int32 b

at_least_least : (wanted : Bool) (least n : ℤ) → n ≤ℤ at_least wanted least n
at_least_least wanted least n = ground arith

at_least-cases :
    (wanted : Bool) (least n : ℤ)
    → (at_least wanted least n ≡ n) ⊎ (at_least wanted least n ≡ least)
at_least-cases wanted least n = ground arith

at_least_wanted :
    (wanted : Bool) (least n : ℤ) → (wanted ≡ false) ⊎ (least ≤ℤ at_least wanted least n)
at_least_wanted wanted least n = ground arith

≤ℤ_trans : (a b c : ℤ) → a ≤ℤ b → b ≤ℤ c → a ≤ℤ c
≤ℤ_trans a b c h k = omega (arith, h, k)

module _ {F : Type 0} (f : Float F) (Num Fits : F → Type 0) (laws : FloatLaws f Num Fits) where
  -- A value clamped from `low` to `high`.
  abbrev Clamped : F → F → F → Type 0
  Clamped low high r = (f.leb low r ≡ true) × (f.leb r high ≡ true)

  open laws use {
    fmin_num, fmin_right, fmin_above, fmax_num, fmax_right, fits_num, fits_between, to_int32_mono,
  }

  -- A number that is clamped is a number between the limits.
  clamped :
      (x low high : F)
      → Num x
      → Num low
      → Num high
      → f.leb low high ≡ true
      → let r = f.fmin (f.fmax x low) high in Num r × Clamped low high r
  clamped x low high n l h o =
      let m = f.fmax x low in
      let mn = fmax_num x low n l in
      (
        fmin_num m high mn h,
        (fmin_above m high low mn h (fmax_right x low n l) o, fmin_right m high mn h),
      )

  clamp_lem :
      (x low high : F)
      → Num x
      → Fits low
      → Fits high
      → f.leb low high ≡ true
      → let n = f.to_int32 (f.fmin (f.fmax x low) high) in
        (f.to_int32 low ≤ℤ n) × (n ≤ℤ f.to_int32 high)
  clamp_lem x low high n l h o =
      let r = f.fmin (f.fmax x low) high in
      let (num, (b, t)) = clamped x low high n (fits_num low l) (fits_num high h) o in
      let fits = fits_between low r high num l h b t in
      (to_int32_mono low r l fits b, to_int32_mono r high fits h t)

  -- Where the pods for the value are a number and the two limits convert to int32 in their order: the
  -- decision is not below the lower limit, and not above the upper one unless it is the activation
  -- scale. With an activation scale over 1, and more than 0 pods for the value, it is at least the
  -- activation scale.
  pub desired_pods-limits :
      (spec : DeciderSpec F) (ready : ℕ) (value : F)
      → Num (pods_for f spec value)
      → Fits (max_scale_down f spec ready)
      → Fits (max_scale_up f spec ready)
      → f.leb (max_scale_down f spec ready) (max_scale_up f spec ready) ≡ true
      → let n = desired_pods f spec ready value in
        (f.to_int32 (max_scale_down f spec ready) ≤ℤ n)
        × ((n ≤ℤ f.to_int32 (max_scale_up f spec ready)) ⊎ (n ≡ spec.activation_scale))
        × (((ltb_ℤ (pos 1) spec.activation_scale && f.lt (f.of_ℕ 0) (pods_for f spec value))
              ≡ false)
            ⊎ (spec.activation_scale ≤ℤ n))
  unfolding desired_pods
  desired_pods-limits spec ready value n l h o =
      let down = max_scale_down f spec ready in
      let up = max_scale_up f spec ready in
      let pods = pods_for f spec value in
      let m = f.to_int32 (f.fmin (f.fmax pods down) up) in
      let act = spec.activation_scale in
      let wanted = ltb_ℤ (pos 1) act && f.lt (f.of_ℕ 0) pods in
      let (b, t) = clamp_lem pods down up n l h o in
      (
        ≤ℤ_trans (f.to_int32 down) m (at_least wanted act m) b (at_least_least wanted act m),
        elim (at_least-cases wanted act m) [ inl e ↦ inl (rw e t) | inr e ↦ inr e ],
        at_least_wanted wanted act m,
      )
