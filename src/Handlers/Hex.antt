-- ===== src/Handlers/Hex.antt =====
-- Hexadecimal numbers as scanf reads them with %x.
use libudev_devd.Common.{
  ℕ, zero, suc, ◌+◌, ◌-◌, ◌*◌, ◌/◌, ◌%◌, ◌^◌, ◌<◌, ◌≡◌, refl, ◌∙◌, Bool, true, false, ◌&&◌, ◌||◌,
  Option, none, some, [], ◌∷◌, Text, ap, leb, ◌==◌, if◌then◌else◌, drop, arith, Bool-cases, inl,
  inr,
}
use libudev_devd.Devd.Dbsf.{
  is_space, skip_spaces, is_decimal, first_is, hex_digit, print_hex_from, print_hex,
}

unfoldable pub is_hex : ℕ → Bool
unfolding is_decimal
is_hex c = is_decimal c || (leb b'a' c && leb c b'f') || (leb b'A' c && leb c b'F')

unfoldable pub hex_value : ℕ → ℕ
unfolding is_decimal
hex_value c = if is_decimal c then c - b'0' else if leb b'a' c then c - b'a' + 10 else c - b'A' + 10

-- The digits of a number, and the rest; `n` is their value so far.
unfoldable pub scan_hex_digits : ℕ → Text → ℕ × Text
unfolding is_hex hex_value
scan_hex_digits n [] = (n, [])
scan_hex_digits n (c ∷ s) =
    let more = scan_hex_digits (n * 16 + hex_value c) s in if is_hex c then more else (n, c ∷ s)

abbrev pub is_x : ℕ → Bool
is_x c = c == b'x' || c == b'X'

-- The text behind `0x`, where a digit follows.
unfoldable pub skip_prefix : Text → Text
unfolding first_is is_hex
skip_prefix s =
    if first_is (λ c. c == b'0') s && first_is is_x (drop 1 s) && first_is is_hex (drop 2 s)
    then drop 2 s
    else s

-- %x: spaces, a sign, a prefix and at least one digit. The value is stored as an unsigned int.
unfoldable pub scan_hex : Text → Option (ℕ × Text)
unfolding skip_spaces first_is skip_prefix scan_hex_digits is_hex
scan_hex s =
    let t = skip_spaces s in
    let minus = first_is (λ c. c == b'-') t in
    let u = skip_prefix (if minus || first_is (λ c. c == b'+') t then drop 1 t else t) in
    let (n, rest) = scan_hex_digits 0 u in
    if first_is is_hex u
    then some (if minus then (2 ^ 32 - n % 2 ^ 32) % 2 ^ 32 else n % 2 ^ 32, rest)
    else none

-- The numbers that `fuel` digits hold.
abbrev cap : ℕ → ℕ
cap zero = 1
cap (suc fuel) = 16 * cap fuel

scan_digit :
    (n d : ℕ) (s : Text)
    → d < 16
    → scan_hex_digits n (hex_digit d ∷ s) ≡ scan_hex_digits (n * 16 + d) s
unfolding scan_hex_digits hex_digit is_hex hex_value is_decimal
scan_digit n d s h = ground arith

scan-print_from :
    (fuel width n : ℕ) (out : Text)
    → n < cap fuel
    → scan_hex_digits 0 (print_hex_from fuel width n out) ≡ scan_hex_digits n out
unfolding print_hex_from
scan-print_from zero width n out h = ap (λ k. scan_hex_digits k out) (omega arith)
scan-print_from (suc fuel) width n out h = elim (Bool-cases (width == 0 && n == 0)) [
  | inl over ↦ rw over (ap (λ k. scan_hex_digits k out) (ground arith))
  | inr more ↦ rw more (
      scan-print_from fuel (width - 1) (n / 16) (hex_digit (n % 16) ∷ out) (omega arith)
      ∙ scan_digit (n / 16) (n % 16) out (omega arith)
      ∙ ap (λ k. scan_hex_digits k out) (omega arith))
]

-- A text that begins with a digit, and not with a prefix.
abbrev pub Starts : Text → Type 0
Starts [] = ⊥
Starts (c ∷ s) = (is_hex c ≡ true) × (first_is is_x s ≡ false)

digit_is_hex : (d : ℕ) → d < 16 → is_hex (hex_digit d) ≡ true
unfolding is_hex hex_digit is_decimal
digit_is_hex d h = ground arith

digit_is_no_x : (d : ℕ) → d < 16 → is_x (hex_digit d) ≡ false
unfolding hex_digit
digit_is_no_x d h = ground arith

Starts-first : (s : Text) → Starts s → first_is is_x s ≡ false
unfolding first_is is_hex is_decimal
Starts-first [] h = refl
Starts-first (c ∷ s) h = ground arith

print_from-Starts :
    (fuel width n : ℕ) (out : Text) → Starts out → Starts (print_hex_from fuel width n out)
unfolding print_hex_from
print_from-Starts zero width n out h = h
print_from-Starts (suc fuel) width n out h = elim (Bool-cases (width == 0 && n == 0)) [
  | inl over ↦ rw over h
  | inr more ↦ rw more (
      print_from-Starts fuel (width - 1) (n / 16) _
        (digit_is_hex (n % 16) (omega arith), Starts-first out h))
]

pub print_hex-Starts :
    (width n : ℕ) (out : Text) → first_is is_x out ≡ false → Starts (print_hex (suc width) n out)
unfolding print_hex print_hex_from
print_hex-Starts width n out h =
    let more : (suc width == 0) ≡ false = ground arith in
    rw more
      (print_from-Starts 7 (suc width - 1) (n / 16) _ (digit_is_hex (n % 16) (omega arith), h))

pub scan_print :
    (width n : ℕ) (out : Text)
    → n < 2 ^ 32
    → scan_hex_digits 0 (print_hex (suc width) n out) ≡ scan_hex_digits n out
unfolding print_hex
scan_print width n out b = scan-print_from 8 (suc width) n out (omega arith)

-- What is no digit ends a number.
pub scan_hex_digits-end :
    (n : ℕ) (out : Text) → first_is is_hex out ≡ false → scan_hex_digits n out ≡ (n, out)
unfolding scan_hex_digits first_is
scan_hex_digits-end n [] h = refl
scan_hex_digits-end n (c ∷ s) h = rw h refl

no_space : (c : ℕ) (s : Text) → is_hex c ≡ true → skip_spaces (c ∷ s) ≡ c ∷ s
unfolding skip_spaces is_space is_hex is_decimal
no_space c s h = ground arith

no_sign : (c : ℕ) → is_hex c ≡ true → ((c == b'-') ≡ false) × ((c == b'+') ≡ false)
unfolding is_hex is_decimal
no_sign c h = ground arith

no_prefix : (c : ℕ) (s : Text) → first_is is_x s ≡ false → skip_prefix (c ∷ s) ≡ c ∷ s
unfolding skip_prefix first_is
no_prefix c s h = ground arith

-- A text that begins with a digit is scanned from there on.
scan_hex-Starts :
    (s : Text) (n : ℕ) (rest : Text)
    → Starts s
    → scan_hex_digits 0 s ≡ (n, rest)
    → n < 2 ^ 32
    → scan_hex s ≡ some (n, rest)
unfolding scan_hex first_is
scan_hex-Starts [] n rest h k b = absurd h
scan_hex-Starts (c ∷ s) n rest h k b =
    let sign = no_sign c h.0 in
    let fits : n % 2 ^ 32 ≡ n = omega arith in
    rw (no_space c s h.0)
      (rw sign.0 (rw sign.1 (rw (no_prefix c s h.1) (rw k (rw h.0 (rw fits refl))))))

-- %x reads back what is printed with %0<width>x, where no digit follows.
pub scan_hex-print_hex :
    (width n : ℕ) (out : Text)
    → n < 2 ^ 32
    → first_is is_hex out ≡ false
    → first_is is_x out ≡ false
    → scan_hex (print_hex (suc width) n out) ≡ some (n, out)
scan_hex-print_hex width n out b h k =
    scan_hex-Starts _ n out (print_hex-Starts width n out k)
      (scan_print width n out b ∙ scan_hex_digits-end n out h) b
