-- ===== src/Prelude/Bits.antt =====
-- The two bit operations of pkg/queue/breaker.go, as sums and remainders.
use Prim.Native.Nat.{bit_and, bit_or, digits, bit_and-bitwise, bit_or-bitwise, max, min}
use native.Mathlib.Nat.{
  pow-suc, one-le-pow, mod-lt, mod-eq_of_lt, mul-add-mod_self_right, div-add-mod',
}
use serving.Prelude.{
  ℕ, zero, suc, ◌+◌, ◌-◌, ◌*◌, ◌/◌, ◌%◌, ◌^◌, ◌≤◌, ◌<◌, ◌≡◌, refl, ap, ◌∙◌, arith,
}

or_fuel : (f g a b : ℕ) → a ≤ f → a ≤ g → digits (λ x. x) max f a b ≡ digits (λ x. x) max g a b
or_fuel zero zero a b h k = refl
or_fuel zero (suc g) zero b h k = refl
or_fuel zero (suc g) (suc a) b h k = absurd (omega arith)
or_fuel (suc f) zero zero b h k = refl
or_fuel (suc f) zero (suc a) b h k = absurd (omega arith)
or_fuel (suc f) (suc g) zero b h k = refl
or_fuel (suc f) (suc g) (suc a) b h k =
    omega (arith, or_fuel f g (suc a / 2) (b / 2) (omega arith) (omega arith))

zero_or : (b : ℕ) → bit_or 0 b ≡ b
zero_or b = bit_or-bitwise 0 b

-- The lowest bit apart from the rest.
or_lowest : (a b : ℕ) → bit_or a b ≡ bit_or (a / 2) (b / 2) * 2 + max (a % 2) (b % 2)
or_lowest zero b = omega (arith, zero_or b, zero_or (b / 2))
or_lowest (suc a) b =
    let deeper = or_fuel a (suc a / 2) (suc a / 2) (b / 2) (omega arith) (omega arith) in
    omega (arith, bit_or-bitwise (suc a) b, bit_or-bitwise (suc a / 2) (b / 2), deeper)

or_zero_below : (f a : ℕ) → a ≤ f → bit_or a 0 ≡ a
or_zero_below f zero h = refl
or_zero_below zero (suc a) h = absurd (omega arith)
or_zero_below (suc f) (suc a) h =
    omega (arith, or_lowest (suc a) 0, or_zero_below f (suc a / 2) (omega arith))

double_power : (a w : ℕ) → a * 2 ^ suc w ≡ a * 2 ^ w * 2
double_power a w = grind (arith, pow-suc 2 w)

-- Below the width that a number was shifted by, `|` is a sum.
pub or_shifted : (w a b : ℕ) → b < 2 ^ w → bit_or (a * 2 ^ w) b ≡ a * 2 ^ w + b
or_shifted zero a b h = ground (arith, or_zero_below a a (omega arith))
or_shifted (suc w) a b h =
    let half : b / 2 < 2 ^ w = omega (arith, pow-suc 2 w) in
    let halved : a * 2 ^ suc w / 2 ≡ a * 2 ^ w = omega (arith, double_power a w) in
    let lowest = rw halved at (or_lowest (a * 2 ^ suc w) b) in
    omega (arith, lowest, double_power a w, or_shifted w a (b / 2) half)

and_fuel : (f g a b : ℕ) → a ≤ f → a ≤ g → digits (λ x. 0) min f a b ≡ digits (λ x. 0) min g a b
and_fuel zero zero a b h k = refl
and_fuel zero (suc g) zero b h k = refl
and_fuel zero (suc g) (suc a) b h k = absurd (omega arith)
and_fuel (suc f) zero zero b h k = refl
and_fuel (suc f) zero (suc a) b h k = absurd (omega arith)
and_fuel (suc f) (suc g) zero b h k = refl
and_fuel (suc f) (suc g) (suc a) b h k =
    omega (arith, and_fuel f g (suc a / 2) (b / 2) (omega arith) (omega arith))

zero_and : (b : ℕ) → bit_and 0 b ≡ 0
zero_and b = bit_and-bitwise 0 b

and_lowest : (a b : ℕ) → bit_and a b ≡ bit_and (a / 2) (b / 2) * 2 + min (a % 2) (b % 2)
and_lowest zero b = omega (arith, zero_and b, zero_and (b / 2))
and_lowest (suc a) b =
    let deeper = and_fuel a (suc a / 2) (suc a / 2) (b / 2) (omega arith) (omega arith) in
    omega (arith, bit_and-bitwise (suc a) b, bit_and-bitwise (suc a / 2) (b / 2), deeper)

and_zero_below : (f a : ℕ) → a ≤ f → bit_and a 0 ≡ 0
and_zero_below f zero h = zero_and 0
and_zero_below zero (suc a) h = absurd (omega arith)
and_zero_below (suc f) (suc a) h =
    omega (arith, and_lowest (suc a) 0, and_zero_below f (suc a / 2) (omega arith))

mod_of_parts : (q r n : ℕ) → r < n → (q * n + r) % n ≡ r
mod_of_parts q r n h = mul-add-mod_self_right q n r ∙ mod-eq_of_lt h

mod_double : (x m : ℕ) → 0 < m → x % (m * 2) ≡ x / 2 % m * 2 + x % 2
mod_double x m h =
    let q = x / 2 / m in
    let r = x / 2 % m in
    let below : r < m = mod-lt (x / 2) h in
    let parts : x ≡ q * (m * 2) + (r * 2 + x % 2) = grind (arith, div-add-mod' (x / 2) m) in
    ap (λ y. y % (m * 2)) parts ∙ mod_of_parts q (r * 2 + x % 2) (m * 2) (omega arith)

-- A mask of `w` ones is the remainder.
pub and_masked : (w x : ℕ) → bit_and x (2 ^ w - 1) ≡ x % 2 ^ w
and_masked zero x = omega (arith, and_zero_below x x (omega arith))
and_masked (suc w) x =
    let pos : 0 < 2 ^ w = one-le-pow w 2 (omega arith) in
    let ones : (2 ^ suc w - 1) / 2 ≡ 2 ^ w - 1 = omega (arith, pow-suc 2 w) in
    let lowest = rw ones at (and_lowest x (2 ^ suc w - 1)) in
    let doubled : 2 ^ suc w ≡ 2 ^ w * 2 = omega (arith, pow-suc 2 w) in
    rw doubled (omega (arith, rw doubled at lowest, and_masked w (x / 2), mod_double x (2 ^ w) pos))
