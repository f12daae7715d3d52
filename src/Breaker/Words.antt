-- ===== src/Breaker/Words.antt =====
-- The packed word: what each operation does to its two halves.
use serving.Prelude.{
  ℕ, ◌+◌, ◌-◌, ◌*◌, ◌/◌, ◌%◌, ◌^◌, ◌≤◌, ◌<◌, ◌≡◌, refl, true, false, none, some, ltb, ◌==◌, arith,
  ◌⊎◌, inl, inr, Bool-cases,
}
use serving.Prelude.Bits.{or_shifted, and_masked}
use serving.Breaker.Defs.{unpack, pack, try_acquire, release, update_capacity}

abbrev pub cap_of : ℕ → ℕ
cap_of s = (unpack s).0

abbrev pub use_of : ℕ → ℕ
use_of s = (unpack s).1

pack_lem :
    (left right : ℕ) → left < 2 ^ 32 → right < 2 ^ 32 → pack left right ≡ left * 2 ^ 32 + right
unfolding pack
pack_lem left right h k =
    let fits : (left * 2 ^ 32) % 2 ^ 64 ≡ left * 2 ^ 32 = omega arith in
    rw fits (or_shifted 32 left right k)

cap_of_lem : (s : ℕ) → cap_of s ≡ s / 2 ^ 32
unfolding unpack
cap_of_lem s = refl

use_of_lem : (s : ℕ) → use_of s ≡ s % 2 ^ 32
unfolding unpack
use_of_lem s = and_masked 32 s

pub cap_of-pack :
    (left right : ℕ) → left < 2 ^ 32 → right < 2 ^ 32 → cap_of (pack left right) ≡ left
cap_of-pack left right h k = omega (arith, pack_lem left right h k, cap_of_lem (pack left right))

pub use_of-pack :
    (left right : ℕ) → left < 2 ^ 32 → right < 2 ^ 32 → use_of (pack left right) ≡ right
use_of-pack left right h k = omega (arith, pack_lem left right h k, use_of_lem (pack left right))

-- Packing two 32-bit numbers and unpacking the word gives them back.
pub unpack-pack :
    (left right : ℕ) → left < 2 ^ 32 → right < 2 ^ 32 → unpack (pack left right) ≡ (left, right)
unpack-pack left right h k = Σ_path' (cap_of-pack left right h k) (use_of-pack left right h k)
  where
    Σ_path' : {a b : ℕ × ℕ} → a.0 ≡ b.0 → a.1 ≡ b.1 → a ≡ b
    Σ_path' p q = λ i. (p i, q i)

-- Unpacking a 64-bit word and packing the halves gives it back.
pub pack-unpack : (s : ℕ) → s < 2 ^ 64 → pack (cap_of s) (use_of s) ≡ s
pack-unpack s h =
    let hi : cap_of s < 2 ^ 32 = omega (arith, cap_of_lem s) in
    let lo : use_of s < 2 ^ 32 = omega (arith, use_of_lem s) in
    omega (arith, pack_lem (cap_of s) (use_of s) hi lo, cap_of_lem s, use_of_lem s)

-- `try_acquire` takes one unit if there is one, and keeps the capacity.
pub try_acquire_lem :
    (s : ℕ)
    → cap_of s < 2 ^ 32
    → ((try_acquire s ≡ (s, false)) × (cap_of s ≤ use_of s))
      ⊎ (((try_acquire s).1 ≡ true)
          × (use_of s < cap_of s)
          × (cap_of (try_acquire s).0 ≡ cap_of s)
          × (use_of (try_acquire s).0 ≡ use_of s + 1))
unfolding try_acquire
try_acquire_lem s h =
    ground (arith, cap_of-pack (cap_of s) (use_of s + 1) h, use_of-pack (cap_of s) (use_of s + 1) h)

-- `release` gives one unit back and keeps the capacity; it panics when no unit is taken, and pokes
-- when that leaves a unit free.
pub release_lem :
    (s : ℕ)
    → cap_of s < 2 ^ 32
    → use_of s < 2 ^ 32
    → ((release s ≡ none) × (use_of s ≡ 0))
      ⊎ ((t : ℕ) × (release s ≡ some (t, ltb (use_of s - 1) (cap_of s)))
          × (0 < use_of s)
          × (cap_of t ≡ cap_of s)
          × (use_of t ≡ use_of s - 1))
unfolding release
release_lem s h k = elim (Bool-cases (use_of s == 0)) [
  | inl z ↦ inl (ground arith, ground arith)
  | inr nz ↦ inr (
    pack (cap_of s) (use_of s - 1),
    ground arith,
    ground arith,
    cap_of-pack (cap_of s) (use_of s - 1) h (omega arith),
    use_of-pack (cap_of s) (use_of s - 1) h (omega arith),
  )
]

-- `update_capacity` sets the capacity and keeps what is taken; there is a poke for each new unit.
pub update_capacity_lem :
    (size s : ℕ)
    → size < 2 ^ 32
    → use_of s < 2 ^ 32
    → (cap_of (update_capacity size s).0 ≡ size)
      × (use_of (update_capacity size s).0 ≡ use_of s)
      × ((update_capacity size s).1 ≡ size - cap_of s)
unfolding update_capacity
update_capacity_lem size s h k =
    ground (arith, cap_of-pack size (use_of s) h k, use_of-pack size (use_of s) h k)
