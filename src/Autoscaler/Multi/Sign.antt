-- ===== src/Autoscaler/Multi/Sign.antt =====
-- What is news for the watcher.
use serving.Prelude.{
  ◌-◌, ◌^◌, ◌≡◌, ◌≢◌, ◌⊎◌, ◌↔◌, inl, inr, refl, sym, subst, ◌∙◌, Bool, true, false, not, ◌||◌,
  arith, Bool-cases,
}
use serving.Prelude.Int.{ℤ, pos, negsuc, ◌≤ℤ◌, ltb_ℤ}
use serving.Autoscaler.Scaling.{ScaleResult}
use serving.Autoscaler.Multi.{Status, sign_bit, same_sign, is_eq_ℤ, update_latest_scale}

abbrev pub IsInt32 : ℤ → Type 0
IsInt32 a = (negsuc (2 ^ 31 - 1) ≤ℤ a) × (a ≤ℤ pos (2 ^ 31 - 1))

abbrev pub is_negative : ℤ → Bool
is_negative a = ltb_ℤ a (pos 0)

-- The bit that math.MinInt32 masks is the sign.
sign_bit_lem :
    (a : ℤ)
    → IsInt32 a
    → ((is_negative a ≡ true) × (sign_bit a ≡ 2 ^ 31))
      ⊎ ((is_negative a ≡ false) × (sign_bit a ≡ 0))
sign_bit_lem (pos n) h = inr (ground arith, omega (arith, h.0, h.1))
sign_bit_lem (negsuc n) h = inl (ground arith, omega (arith, h.0, h.1))

same_sign_lem :
    (a b : ℤ)
    → IsInt32 a
    → IsInt32 b
    → ((same_sign a b ≡ true) × (is_negative a ≡ is_negative b))
      ⊎ ((same_sign a b ≡ false) × (is_negative a ≢ is_negative b))
unfolding same_sign
same_sign_lem a b h k = elim (sign_bit_lem a h) [
  | inl (p, m) ↦ elim (sign_bit_lem b k) [
    | inl (q, n) ↦ inl (rw (m, n) refl, p ∙ sym q)
    | inr (q, n) ↦ inr (rw (m, n) refl, λ e. ground (arith, p, q, e))
  ]
  | inr (p, m) ↦ elim (sign_bit_lem b k) [
    | inl (q, n) ↦ inr (rw (m, n) refl, λ e. ground (arith, p, q, e))
    | inr (q, n) ↦ inl (rw (m, n) refl, p ∙ sym q)
  ]
]

is_eq_ℤ_refl : (a : ℤ) → is_eq_ℤ a a ≡ true
is_eq_ℤ_refl a = ground arith

is_eq_ℤ_lem : (a b : ℤ) → ((is_eq_ℤ a b ≡ true) × (a ≡ b)) ⊎ ((is_eq_ℤ a b ≡ false) × (a ≢ b))
is_eq_ℤ_lem a b = elim (Bool-cases (is_eq_ℤ a b)) [
  | inl e ↦ inl (e, ground (arith, e))
  | inr e ↦ inr (e, λ q. ground (arith, e, (subst (λ c. is_eq_ℤ a c ≡ true) q (is_eq_ℤ_refl a))))
]

not-or_iff :
    (x y : Bool) {P Q : Type 0}
    → ((x ≡ true) × P) ⊎ ((x ≡ false) × (P → ⊥))
    → ((y ≡ true) × Q) ⊎ ((y ≡ false) × (Q → ⊥))
    → ((not x || not y) ≡ true) ↔ ((P → ⊥) ⊎ (Q → ⊥))
not-or_iff x y (inl (h, p)) (inl (k, q)) =
    (λ e. ground (arith, h, k, e), λ o. elim o [ inl n ↦ absurd (n p) | inr n ↦ absurd (n q) ])
not-or_iff x y (inl (h, p)) (inr (k, n)) = (λ e. inr n, λ o. ground (arith, h, k))
not-or_iff x y (inr (h, n)) o = (λ e. inl n, λ o. ground (arith, h))

-- `updateLatestScale` stores the result whatever it is. It is news exactly if the desired scale is
-- another one than before, or one of the excess burst capacities, int32 numbers, is negative and the
-- other one is not.
pub update_latest_scale_iff :
    (r : ScaleResult) (s : Status)
    → IsInt32 s.excess_burst_capacity
    → IsInt32 r.excess_burst_capacity
    → let (s', news) = update_latest_scale r s in
      (s'.desired_scale ≡ r.desired_pod_count)
      × (s'.excess_burst_capacity ≡ r.excess_burst_capacity)
      × ((news ≡ true) ↔ (
          (s.desired_scale ≢ r.desired_pod_count)
          ⊎ (is_negative s.excess_burst_capacity ≢ is_negative r.excess_burst_capacity)))
unfolding update_latest_scale
update_latest_scale_iff r s h k = (
  refl,
  refl,
  not-or_iff (is_eq_ℤ s.desired_scale r.desired_pod_count)
      (same_sign s.excess_burst_capacity r.excess_burst_capacity)
      (is_eq_ℤ_lem s.desired_scale r.desired_pod_count)
      (same_sign_lem s.excess_burst_capacity r.excess_burst_capacity h k),
)
