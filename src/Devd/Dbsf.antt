-- ===== src/Devd/Dbsf.antt =====
-- The scanf and printf formats that udev-pci.c uses for a PCI address, on 32-bit unsigned numbers:
-- domain, bus, slot and function.
use libudev_devd.Common.{
  ◌>>=◌, ℕ, zero, suc, ◌+◌, ◌-◌, ◌*◌, ◌/◌, ◌%◌, ◌^◌, ◌≡◌, Bool, false, ◌&&◌, ◌||◌, Option, none,
  some, [], ◌∷◌, Text, codes, starts_with, ltb, leb, ◌==◌, if◌then◌else◌, drop, refl, Bool-cases,
  inl, inr, ◌++◌,
}

pub record Dbsf : Type 0 where
  pub dom : ℕ
  pub bus : ℕ
  pub slot : ℕ
  pub func : ℕ

-- isspace
unfoldable pub is_space : ℕ → Bool
is_space c = c == b' ' || (leb 9 c && leb c 13)

unfoldable pub skip_spaces : Text → Text
skip_spaces [] = []
skip_spaces (c ∷ s) = if is_space c then skip_spaces s else c ∷ s

unfoldable pub is_decimal : ℕ → Bool
is_decimal c = leb b'0' c && leb c b'9'

-- The digits of a number, and the rest; `n` is their value so far.
scan_digits : ℕ → Text → ℕ × Text
scan_digits n [] = (n, [])
scan_digits n (c ∷ s) =
    let more = scan_digits (n * 10 + (c - b'0')) s in if is_decimal c then more else (n, c ∷ s)

unfoldable pub first_is : (ℕ → Bool) → Text → Bool
first_is p [] = false
first_is p (c ∷ s) = p c

-- %u: spaces, a sign and at least one digit. The value is stored as an unsigned int.
scan_unsigned : Text → Option (ℕ × Text)
unfolding is_space skip_spaces is_decimal scan_digits first_is
scan_unsigned s =
    let t = skip_spaces s in
    let minus = first_is (λ c. c == b'-') t in
    let u = if minus || first_is (λ c. c == b'+') t then drop 1 t else t in
    let (n, rest) = scan_digits 0 u in
    if first_is is_decimal u
    then some (if minus then (2 ^ 32 - n % 2 ^ 32) % 2 ^ 32 else n % 2 ^ 32, rest)
    else none

-- The same behind a literal character.
scan_after : ℕ → Text → Option (ℕ × Text)
unfolding scan_unsigned
scan_after c [] = none
scan_after c (x ∷ s) = if x == c then scan_unsigned s else none

-- sscanf(s, "pci%u:%u:%u:%u", …) with its result held against 4
unfoldable pub scan_dbsf : Text → Option Dbsf
unfolding scan_after scan_unsigned
scan_dbsf s =
    if starts_with (codes "pci") s
    then (do
      (dom, s1) ← scan_unsigned (drop 3 s)
      (bus, s2) ← scan_after b':' s1
      (slot, s3) ← scan_after b':' s2
      (func, s4) ← scan_after b':' s3
      some (record { dom = dom; bus = bus; slot = slot; func = func }))
    else none

unfoldable pub hex_digit : ℕ → ℕ
hex_digit d = if ltb d 10 then b'0' + d else b'a' + (d - 10)

-- The hexadecimal digits of `n` in front of a text, at least `width` of them; eight digits hold
-- every 32-bit number.
unfoldable pub print_hex_from : ℕ → ℕ → ℕ → Text → Text
print_hex_from zero width n out = out
print_hex_from (suc fuel) width n out =
    let more = print_hex_from fuel (width - 1) (n / 16) (hex_digit (n % 16) ∷ out) in
    if width == 0 && n == 0 then out else more

-- %0<width>x
unfoldable pub print_hex : ℕ → ℕ → Text → Text
unfolding print_hex_from hex_digit
print_hex width n out = print_hex_from 8 width n out

print_hex_from-append :
    (fuel width n : ℕ) (out t : Text)
    → print_hex_from fuel width n (out ++ t) ≡ print_hex_from fuel width n out ++ t
unfolding print_hex_from
print_hex_from-append zero width n out t = refl
print_hex_from-append (suc fuel) width n out t = elim (Bool-cases (width == 0 && n == 0)) [
  | inl over ↦ rw over refl
  | inr more ↦
      rw more (print_hex_from-append fuel (width - 1) (n / 16) (hex_digit (n % 16) ∷ out) t)
]

pub print_hex-append : (width n : ℕ) (t : Text) → print_hex width n t ≡ print_hex width n [] ++ t
unfolding print_hex
print_hex-append width n t = print_hex_from-append 8 width n [] t

-- "%04x:%02x:%02x.%01x"
unfoldable pub print_dbsf : Dbsf → Text
unfolding print_hex
print_dbsf d =
    print_hex 4 d.dom
      (b':' ∷ print_hex 2 d.bus (b':' ∷ print_hex 2 d.slot (b'.' ∷ print_hex 1 d.func [])))

dbsf_roundtrip_test :
    scan_dbsf (codes "pci0:2:31:6 x") ≡ some (record { dom = 0; bus = 2; slot = 31; func = 6 })
unfolding scan_dbsf starts_with
dbsf_roundtrip_test = refl

print_dbsf_test :
    print_dbsf (record { dom = 0; bus = 2; slot = 31; func = 6 }) ≡ codes "0000:02:1f.6"
unfolding print_dbsf
print_dbsf_test = refl
