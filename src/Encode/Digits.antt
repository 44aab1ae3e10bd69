-- ===== src/Encode/Digits.antt =====
-- The masks and shifts of the encoding of characters, as arithmetic.
use Prim.Native.Nat.{min, max, digits, bit_and-bitwise, bit_or-bitwise}
use libudev_devd.Common.{
  ℕ, zero, suc, ◌+◌, ◌*◌, ◌/◌, ◌%◌, ◌≤◌, ◌<◌, ◌≡◌, refl, ap, ◌∙◌, bit_and, bit_or, arith,
}

-- Any two amounts of fuel that reach the first operand give the same.
module _ (z : ℕ → ℕ) (f : ℕ → ℕ → ℕ) where
  enough_fuel :
      (a b fuel more : ℕ) → a ≤ fuel → a ≤ more → digits z f fuel a b ≡ digits z f more a b
  enough_fuel zero b zero zero h k = refl
  enough_fuel zero b zero (suc more) h k = refl
  enough_fuel zero b (suc fuel) zero h k = refl
  enough_fuel zero b (suc fuel) (suc more) h k = refl
  enough_fuel (suc a) b zero more h k = absurd (omega arith)
  enough_fuel (suc a) b (suc fuel) zero h k = absurd (omega arith)
  enough_fuel (suc a) b (suc fuel) (suc more) h k =
      rw (enough_fuel (suc a / 2) (b / 2) fuel more (omega arith) (omega arith)) refl

  digits-last :
      (a b : ℕ)
      → digits z f (suc a) (suc a) b
        ≡ digits z f (suc a / 2) (suc a / 2) (b / 2) * 2 + f (suc a % 2) (b % 2)
  digits-last a b =
      rw (enough_fuel (suc a / 2) (b / 2) a (suc a / 2) (omega arith) (omega arith)) refl

-- The lowest digit, and the others.
bit_and_last : (a b : ℕ) → bit_and a b ≡ bit_and (a / 2) (b / 2) * 2 + min (a % 2) (b % 2)
bit_and_last zero b = simp bit_and-bitwise (omega arith)
bit_and_last (suc a) b = simp bit_and-bitwise (digits-last (λ y. zero) min a b)

bit_or_last : (a b : ℕ) → bit_or a b ≡ bit_or (a / 2) (b / 2) * 2 + max (a % 2) (b % 2)
bit_or_last zero b = simp bit_or-bitwise (omega arith)
bit_or_last (suc a) b = simp bit_or-bitwise (digits-last (λ y. y) max a b)

no_digits : (fuel a : ℕ) → a ≤ fuel → bit_and a 0 ≡ 0
no_digits fuel zero h = refl
no_digits zero (suc a) h = absurd (omega arith)
no_digits (suc fuel) (suc a) h =
    omega (arith, bit_and_last (suc a) 0, no_digits fuel (suc a / 2) (omega arith))

same_digits : (fuel a : ℕ) → a ≤ fuel → bit_or a 0 ≡ a
same_digits fuel zero h = refl
same_digits zero (suc a) h = absurd (omega arith)
same_digits (suc fuel) (suc a) h =
    omega (arith, bit_or_last (suc a) 0, same_digits fuel (suc a / 2) (omega arith))

pub bit_and_3 : (a : ℕ) → bit_and a 0x07 ≡ a % 8
bit_and_3 a = omega (
  arith,
  bit_and_last a 7,
  bit_and_last (a / 2) 3,
  bit_and_last (a / 2 / 2) 1,
  no_digits (a / 2 / 2 / 2) (a / 2 / 2 / 2) (omega arith),
)

pub bit_and_4 : (a : ℕ) → bit_and a 0x0f ≡ a % 16
bit_and_4 a = omega (arith, bit_and_last a 15, bit_and_3 (a / 2))

pub bit_and_5 : (a : ℕ) → bit_and a 0x1f ≡ a % 32
bit_and_5 a = omega (arith, bit_and_last a 31, bit_and_4 (a / 2))

pub bit_and_6 : (a : ℕ) → bit_and a 0x3f ≡ a % 64
bit_and_6 a = omega (arith, bit_and_last a 63, bit_and_5 (a / 2))

pub bit_and_7 : (a : ℕ) → bit_and a 0x7f ≡ a % 128
bit_and_7 a = omega (arith, bit_and_last a 127, bit_and_6 (a / 2))

halved : (u : ℕ) → u * 2 / 2 ≡ u
halved u = omega arith

bit_or_shift : (u v : ℕ) → bit_or (u * 2) v ≡ bit_or u (v / 2) * 2 + v % 2
bit_or_shift u v = omega (arith, bit_or_last (u * 2) v, ap (λ t. bit_or t (v / 2)) (halved u))

gone : (v : ℕ) → v < 64 → v / 2 / 2 / 2 / 2 / 2 / 2 ≡ 0
gone v h = omega arith

bit_or_twos : (u v : ℕ) → v < 64 → bit_or (u * 2 * 2 * 2 * 2 * 2 * 2) v ≡ u * 64 + v
bit_or_twos u v h = omega (
  arith,
  bit_or_shift (u * 2 * 2 * 2 * 2 * 2) v,
  bit_or_shift (u * 2 * 2 * 2 * 2) (v / 2),
  bit_or_shift (u * 2 * 2 * 2) (v / 2 / 2),
  bit_or_shift (u * 2 * 2) (v / 2 / 2 / 2),
  bit_or_shift (u * 2) (v / 2 / 2 / 2 / 2),
  bit_or_shift u (v / 2 / 2 / 2 / 2 / 2),
  ap (λ t. bit_or u t) (gone v h),
  same_digits u u (omega arith),
)

twos : (u : ℕ) → u * 64 ≡ u * 2 * 2 * 2 * 2 * 2 * 2
twos u = omega arith

-- Six more bits at the end.
pub bit_or_6 : (u v : ℕ) → v < 64 → bit_or (u * 64) v ≡ u * 64 + v
bit_or_6 u v h = ap (λ t. bit_or t v) (twos u) ∙ bit_or_twos u v h

bit_or_twice : (u v : ℕ) → v < 256 → bit_or (u * 64 * 2 * 2) v ≡ u * 256 + v
bit_or_twice u v h = omega (
  arith,
  bit_or_shift (u * 64 * 2) v,
  bit_or_shift (u * 64) (v / 2),
  bit_or_6 u (v / 2 / 2) (omega arith),
)

doubled : (u : ℕ) → u * 256 ≡ u * 64 * 2 * 2
doubled u = omega arith

-- Eight more bits at the end.
pub bit_or_8 : (u v : ℕ) → v < 256 → bit_or (u * 256) v ≡ u * 256 + v
bit_or_8 u v h = ap (λ t. bit_or t v) (doubled u) ∙ bit_or_twice u v h
