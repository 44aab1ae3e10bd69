-- ===== src/Handlers/Decimal.antt =====
-- Decimal numbers as printf writes them with %u and %d, and as scanf reads them with %d.
use libudev_devd.Common.{
  ℕ, zero, suc, ◌+◌, ◌-◌, ◌*◌, ◌/◌, ◌%◌, ◌^◌, ◌||◌, Option, none, some, [], ◌∷◌, Text, ltb, ◌==◌,
  if◌then◌else◌, drop, ◌≡◌, ◌<◌, ◌≤◌, refl, true, false, Bool-cases, inl, inr, arith, ap, ◌∙◌,
  length, lacks,
}
use libudev_devd.Devd.Dbsf.{skip_spaces, first_is, is_decimal, is_space}

-- The digits of `n` in front of a text; ten digits hold every 32-bit number.
unfoldable pub print_unsigned_from : ℕ → ℕ → Text → Text
print_unsigned_from zero n out = out
print_unsigned_from (suc fuel) n out =
    let more = print_unsigned_from fuel (n / 10) ((b'0' + n % 10) ∷ out) in
    if ltb n 10 then (b'0' + n % 10) ∷ out else more

-- %u
unfoldable pub print_unsigned : ℕ → Text → Text
unfolding print_unsigned_from
print_unsigned n out = print_unsigned_from 10 n out

-- %d, of an int given by its bit pattern
unfoldable pub print_int : ℕ → Text → Text
unfolding print_unsigned
print_int n out =
    if ltb n (2 ^ 31) then print_unsigned n out else b'-' ∷ print_unsigned (2 ^ 32 - n) out

-- The value of the digits in front, behind those whose value is `n`.
unfoldable pub digits_value : ℕ → Text → ℕ
unfolding is_decimal
digits_value n [] = n
digits_value n (c ∷ s) =
    let more = digits_value (n * 10 + (c - b'0')) s in if is_decimal c then more else n

-- %d: spaces, a sign and at least one digit, to the bit pattern of an int
unfoldable pub scan_int : Text → Option ℕ
unfolding skip_spaces first_is is_decimal digits_value
scan_int s =
    let t = skip_spaces s in
    let minus = first_is (λ c. c == b'-') t in
    let u = if minus || first_is (λ c. c == b'+') t then drop 1 t else t in
    let n = digits_value 0 u in
    if first_is is_decimal u
    then some (if minus then (2 ^ 32 - n % 2 ^ 32) % 2 ^ 32 else n % 2 ^ 32)
    else none

-- A number that `fuel` digits hold.
abbrev pub Fits : ℕ → ℕ → Type 0
Fits zero n = n ≡ 0
Fits (suc fuel) n = Fits fuel (n / 10)

digit : (n : ℕ) → is_decimal (b'0' + n % 10) ≡ true
unfolding is_decimal
digit n = ground arith

digits_value-digit :
    (v n : ℕ) (out : Text)
    → digits_value v ((b'0' + n % 10) ∷ out) ≡ digits_value (v * 10 + n % 10) out
unfolding digits_value
digits_value-digit v n out =
    let value : b'0' + n % 10 - b'0' ≡ n % 10 = omega arith in rw (digit n) (rw value refl)

digits_value-print :
    (fuel n : ℕ) (out : Text)
    → Fits fuel n
    → digits_value 0 (print_unsigned_from fuel n out) ≡ digits_value n out
unfolding print_unsigned_from
digits_value-print zero n out h = rw h refl
digits_value-print (suc fuel) n out h = elim (Bool-cases (ltb n 10)) [
  | inl small ↦
      (let whole : 0 * 10 + n % 10 ≡ n = ground (arith, small) in
        rw small (digits_value-digit 0 n out ∙ ap (λ v. digits_value v out) whole))
  | inr large ↦
      (let whole : n / 10 * 10 + n % 10 ≡ n = omega arith in
        rw large (
          digits_value-print fuel (n / 10) ((b'0' + n % 10) ∷ out) h
          ∙ digits_value-digit (n / 10) n out
          ∙ ap (λ v. digits_value v out) whole))
]

print-first :
    (fuel n : ℕ) (out : Text)
    → first_is is_decimal out ≡ true
    → first_is is_decimal (print_unsigned_from fuel n out) ≡ true
unfolding print_unsigned_from first_is
print-first zero n out h = h
print-first (suc fuel) n out h = elim (Bool-cases (ltb n 10)) [
  | inl small ↦ rw small (digit n)
  | inr large ↦ rw large (print-first fuel (n / 10) ((b'0' + n % 10) ∷ out) (digit n))
]

print_unsigned-first : (n : ℕ) (out : Text) → first_is is_decimal (print_unsigned n out) ≡ true
unfolding print_unsigned print_unsigned_from first_is
print_unsigned-first n out = elim (Bool-cases (ltb n 10)) [
  | inl small ↦ rw small (digit n)
  | inr large ↦ rw large (print-first 9 (n / 10) ((b'0' + n % 10) ∷ out) (digit n))
]

print-length :
    (fuel n : ℕ) (out : Text) → length (print_unsigned_from fuel n out) ≤ fuel + length out
unfolding print_unsigned_from
print-length zero n out = omega arith
print-length (suc fuel) n out = ground (arith, print-length fuel (n / 10) ((b'0' + n % 10) ∷ out))

pub print_unsigned-length : (n : ℕ) (out : Text) → length (print_unsigned n out) ≤ 10 + length out
unfolding print_unsigned
print_unsigned-length n out = print-length 10 n out

print-lacks :
    (fuel n : ℕ) (out : Text)
    → lacks b'/' out ≡ true
    → lacks b'/' (print_unsigned_from fuel n out) ≡ true
unfolding print_unsigned_from
print-lacks zero n out h = h
print-lacks (suc fuel) n out h = ground (arith, print-lacks fuel (n / 10) ((b'0' + n % 10) ∷ out))

pub print_unsigned-lacks : (n : ℕ) → lacks b'/' (print_unsigned n []) ≡ true
unfolding print_unsigned
print_unsigned-lacks n = print-lacks 10 n [] refl

decimal_plain :
    (s : Text)
    → first_is is_decimal s ≡ true
    → (skip_spaces s ≡ s)
      × (first_is (λ c. c == b'-') s ≡ false)
      × (first_is (λ c. c == b'+') s ≡ false)
unfolding first_is is_decimal skip_spaces is_space
decimal_plain [] h = cc
decimal_plain (c ∷ s) h = (ground arith, ground arith, ground arith)

digits_value-print_unsigned : (n : ℕ) → n < 2 ^ 31 → digits_value 0 (print_unsigned n []) ≡ n
unfolding print_unsigned digits_value
digits_value-print_unsigned n h = digits_value-print 10 n [] (omega (arith, h))

-- %d reads back what %u writes of a number below 2 ^ 31.
pub scan_int-print_unsigned : (n : ℕ) → n < 2 ^ 31 → scan_int (print_unsigned n []) ≡ some n
unfolding scan_int
scan_int-print_unsigned n h =
    let first = print_unsigned-first n [] in
    let (spaces, minus, plus) = decimal_plain (print_unsigned n []) first in
    let whole : n % 2 ^ 32 ≡ n = omega arith in
    rw spaces
      (rw (minus, plus) (rw first (rw (digits_value-print_unsigned n h) (ap (λ v. some v) whole))))
