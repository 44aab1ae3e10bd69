-- ===== src/Input/Bits.antt =====
-- bit_is_set and bit_find of udev-dev.c: bit arrays in words of `long_bits` bits.
use libudev_devd.Common.{
  ℕ, zero, suc, ◌+◌, ◌-◌, ◌/◌, ◌%◌, ◌^◌, ◌≤◌, ◌<◌, ◌≡◌, Bool, true, false, not, List, ◌==◌,
  if◌then◌else◌, get_or, bit_and, arith, ◌↔◌, Bool-cases, inl, inr,
}

-- Bits of a word that is not there read as 0; in C the arrays have a word for every code.
unfoldable pub bit_is_set : ℕ → List ℕ → ℕ → Bool
bit_is_set long_bits array bit =
    not (bit_and (get_or array (bit / long_bits) 0) (2 ^ (bit % long_bits)) == 0)

-- `for (i = start; i < stop; i++)`, with the rounds left.
unfoldable pub find_from : ℕ → List ℕ → ℕ → ℕ → Bool
find_from long_bits array i zero = false
find_from long_bits array i (suc rounds) =
    let rest = find_from long_bits array (suc i) rounds in
    if bit_is_set long_bits array i then true else rest

unfoldable pub bit_find : ℕ → List ℕ → ℕ → ℕ → Bool
unfolding find_from
bit_find long_bits array start stop = find_from long_bits array start (stop - start)

find_from_sound :
    (w : ℕ) (array : List ℕ) (i rounds : ℕ)
    → find_from w array i rounds ≡ true
    → (k : ℕ) × (i ≤ k) × (k < i + rounds) × (bit_is_set w array k ≡ true)
unfolding find_from
find_from_sound w array i zero h = cc
find_from_sound w array i (suc rounds) h = elim (Bool-cases (bit_is_set w array i)) [
  | inl here ↦ (i, omega arith, omega arith, here)
  | inr later ↦
      let (k, a, b, c) = find_from_sound w array (suc i) rounds (rw later at h) in
      (k, omega arith, omega arith, c)
]

find_from_complete :
    (w : ℕ) (array : List ℕ) (i rounds k : ℕ)
    → i ≤ k
    → k < i + rounds
    → bit_is_set w array k ≡ true
    → find_from w array i rounds ≡ true
unfolding find_from
find_from_complete w array i zero k a b c = absurd (omega arith)
find_from_complete w array i (suc rounds) k a b c = elim (Bool-cases (i == k)) [
  | inl here ↦ ground arith
  | inr later ↦ ground (arith, find_from_complete w array (suc i) rounds k)
]

-- bit_find answers whether some bit is set from `start` on and before `stop`.
pub bit_find_iff :
    (w : ℕ) (array : List ℕ) (start stop : ℕ)
    → (bit_find w array start stop ≡ true)
      ↔ ((k : ℕ) × (start ≤ k) × (k < stop) × (bit_is_set w array k ≡ true))
unfolding bit_find
bit_find_iff w array start stop = (
  λ h.
      (let (k, a, b, c) = find_from_sound w array start (stop - start) h in (k, a, omega arith, c)),
  λ (k, a, b, c). find_from_complete w array start (stop - start) k a (omega arith) c,
)
