-- ===== src/Encode/Unicode/Room.antt =====
-- What utf16_to_utf8 writes fits its buffer.
use libudev_devd.Common.{
  ℕ, ◌+◌, ◌*◌, ◌≤◌, ◌<◌, ◌≡◌, refl, Bool, true, false, [], ◌∷◌, Text, some, if◌then◌else◌, length,
  arith, length-append,
}
use libudev_devd.Encode.Digits.{bit_or_8}
use libudev_devd.Encode.Unicode.{
  utf8_encode_unichar, utf16_surrogate_pair_to_unichar, utf16_unit, utf16_second, utf16_last,
  utf16_loop, utf16_room, utf16_to_utf8,
}
use libudev_devd.Encode.Escape.{IsBytes}

encode_bound : (g : ℕ) → length (utf8_encode_unichar g) ≤ 4
unfolding utf8_encode_unichar
encode_bound g = ground arith

encode_unit_bound : (g : ℕ) → g < 0x10000 → length (utf8_encode_unichar g) ≤ 3
unfolding utf8_encode_unichar
encode_unit_bound g h = ground arith

second_bound :
    (w1 w2 : ℕ)
    → w1 < 0x10000
    → length (utf16_second w1 w2).0 ≤ (if (utf16_second w1 w2).1 then 4 else 3)
unfolding utf16_second
second_bound w1 w2 h =
    ground (arith, encode_unit_bound w1 h, encode_bound (utf16_surrogate_pair_to_unichar w1 w2))

last_bound : (w1 : ℕ) → w1 < 0x10000 → length (utf16_last w1) ≤ 3
unfolding utf16_last
last_bound w1 h = ground (arith, encode_unit_bound w1 h)

unit_bound : (low high : ℕ) → low < 256 → high < 256 → utf16_unit low high < 0x10000
unfolding utf16_unit
unit_bound low high h k = omega (arith, bit_or_8 high low h)

-- Twice the bytes written are at most three times the bytes read, in each round and in all.
round_bound :
    (out both_out one_out read : ℕ) (both : Bool)
    → out ≤ (if both then 4 else 3)
    → 2 * both_out ≤ 3 * read
    → 2 * one_out ≤ 3 * (2 + read)
    → 2 * (out + (if both then both_out else one_out)) ≤ 3 * (4 + read)
round_bound out both_out one_out read both h k l = ground arith

-- The text has an even length.
abbrev pub IsWhole : Text → Type 0
IsWhole [] = Unit
IsWhole (l ∷ []) = ⊥
IsWhole (l ∷ h ∷ f) = IsWhole f

if_length :
    (b : Bool) (s t : Text) → length (if b then s else t) ≡ (if b then length s else length t)
if_length true s t = refl
if_length false s t = refl

utf16_loop_bound : (f : Text) → IsBytes f → IsWhole f → 2 * length (utf16_loop f) ≤ 3 * length f
unfolding utf16_loop
utf16_loop_bound [] b w = omega arith
utf16_loop_bound (l1 ∷ []) b w = omega arith
utf16_loop_bound (l1 ∷ h1 ∷ []) b w =
    omega (arith, last_bound (utf16_unit l1 h1) (unit_bound l1 h1 b.0 b.1.0))
utf16_loop_bound (l1 ∷ h1 ∷ l2 ∷ []) b w = elim w [ ]
utf16_loop_bound (l1 ∷ h1 ∷ l2 ∷ h2 ∷ f) b w =
    let round = utf16_second (utf16_unit l1 h1) (utf16_unit l2 h2) in
    let both = utf16_loop f in
    let one = utf16_loop (l2 ∷ h2 ∷ f) in
    omega (
      arith,
      length-append round.0 (if round.1 then both else one),
      if_length round.1 both one,
      round_bound (length round.0) (length both) (length one) (length f) round.1
          (second_bound (utf16_unit l1 h1) (utf16_unit l2 h2) (unit_bound l1 h1 b.0 b.1.0))
          (utf16_loop_bound f b.1.1.1.1 w) (omega (arith, utf16_loop_bound (l2 ∷ h2 ∷ f) b.1.1 w)),
    )

-- For an input of whole units and with memory at hand, utf16_to_utf8 gives a text that leaves room
-- for its NUL in the buffer.
pub utf16_to_utf8-fits :
    (s : Text)
    → IsBytes s
    → IsWhole s
    → (out : Text) × (utf16_to_utf8 true s ≡ some out) × (length out < utf16_room (length s))
unfolding utf16_to_utf8 utf16_room
utf16_to_utf8-fits s b w = (utf16_loop s, refl, omega (arith, utf16_loop_bound s b w))
