-- ===== src/Handlers/Strtol.antt =====
-- strtol(s, NULL, 0) of the C library, with its result stored in a uint32_t.
use libudev_devd.Common.{
  ℕ, suc, ◌+◌, ◌-◌, ◌*◌, ◌%◌, ◌^◌, ◌<◌, ◌≡◌, ◌∙◌, true, false, ◌&&◌, ◌||◌, [], ◌∷◌, ◌++◌, Text,
  codes, leb, ◌==◌, min, if◌then◌else◌, drop, arith,
}
use libudev_devd.Devd.Dbsf.{skip_spaces, is_space, first_is, print_hex}
use libudev_devd.Handlers.Decimal.{digits_value}
use libudev_devd.Handlers.Hex.{
  is_hex, is_x, scan_hex_digits, scan_hex_digits-end, scan_print, print_hex-Starts, Starts,
}

-- The digits of an octal number.
unfoldable pub octal_value : ℕ → Text → ℕ
octal_value n [] = n
octal_value n (c ∷ s) =
    let more = octal_value (n * 8 + (c - b'0')) s in if leb b'0' c && leb c b'7' then more else n

-- The number behind the sign, its base told by its prefix.
unfoldable pub magnitude : Text → ℕ
unfolding first_is is_hex scan_hex_digits octal_value digits_value
magnitude s =
    if first_is (λ c. c == b'0') s
    then (if first_is is_x (drop 1 s) && first_is is_hex (drop 2 s)
        then (scan_hex_digits 0 (drop 2 s)).0
        else octal_value 0 s)
    else digits_value 0 s

-- A long has 64 bits, and stops at its bounds.
unfoldable pub strtol : Text → ℕ
unfolding skip_spaces first_is magnitude
strtol s =
    let t = skip_spaces s in
    let minus = first_is (λ c. c == b'-') t in
    let n = magnitude (if minus || first_is (λ c. c == b'+') t then drop 1 t else t) in
    if minus then (2 ^ 32 - min n (2 ^ 63) % 2 ^ 32) % 2 ^ 32 else min n (2 ^ 63 - 1) % 2 ^ 32

Starts-digit : (s : Text) → Starts s → first_is is_hex s ≡ true
unfolding first_is
Starts-digit [] h = absurd h
Starts-digit (c ∷ s) h = h.0

-- strtol reads back a 32-bit number that is written with `0x`, whatever text without a digit follows.
pub strtol-print_hex :
    (width n : ℕ) (out : Text)
    → n < 2 ^ 32
    → first_is is_hex out ≡ false
    → first_is is_x out ≡ false
    → strtol (codes "0x" ++ print_hex (suc width) n out) ≡ n
unfolding strtol skip_spaces is_space first_is magnitude
strtol-print_hex width n out b h k =
    let whole = scan_print width n out b ∙ scan_hex_digits-end n out h in
    let fits : min n (2 ^ 63 - 1) % 2 ^ 32 ≡ n = omega arith in
    rw (Starts-digit _ (print_hex-Starts width n out k)) (rw whole fits)
