-- ===== src/Encode/Unicode.antt =====
-- The characters of utils-gpl.c: UTF-8 of one character and of UTF-16, and the tests on whole texts.
use libudev_devd.Common.{
  ℕ, zero, suc, ◌+◌, ◌-◌, ◌*◌, ◌/◌, ◌%◌, Bool, true, false, ◌&&◌, ◌||◌, not, Option, none, some,
  List, [], ◌∷◌, ◌++◌, Text, ltb, leb, ◌==◌, if◌then◌else◌, length, drop, bit_and, bit_or, Status,
  ok, failed,
}
use libudev_devd.Encode.{
  utf8_encoded_valid_unichar, utf8_encoded_to_unichar, Encoded, encode_devnode_name,
}
pub mod Lead
pub mod Laws
pub mod Printable
pub mod Room
pub mod Utf16

unfoldable pub unichar_is_control : ℕ → Bool
unichar_is_control ch =
    ltb ch b' ' && not (ch == b'\t') && not (ch == b'\n') || leb 0x7f ch && leb ch 0x9f

-- The tests of a round on what the two functions give for the text at `p`: the bytes it takes,
-- unless the text is refused.
unfoldable pub printable_char : Bool → ℕ → Option ℕ → Option ℕ → Option ℕ
unfolding unichar_is_control
printable_char newline length (some encoded_len) (some val) =
    if leb encoded_len length && not (unichar_is_control val) && (newline || not (val == b'\n'))
    then some encoded_len
    else none
printable_char newline length _ _ = none

-- The loop, a round of which takes at least one byte.
unfoldable pub printable_loop : ℕ → Text → ℕ → Bool → Bool
unfolding printable_char
printable_loop zero p length newline = false
printable_loop (suc fuel) p length newline =
    if length == 0
    then true
    else elim (printable_char newline length (utf8_encoded_valid_unichar p)
        (utf8_encoded_to_unichar p)) [
          | none ↦ false
          | some encoded_len ↦
              printable_loop fuel (drop encoded_len p) (length - encoded_len) newline
        ]

unfoldable pub utf8_is_printable_newline : Text → ℕ → Bool → Bool
unfolding printable_loop
utf8_is_printable_newline str length newline = printable_loop (suc length) str length newline

unfoldable pub ascii_is_valid : Text → Option Text
ascii_is_valid [] = some []
ascii_is_valid (c ∷ p) =
    let rest = ascii_is_valid p in
    if leb 128 c then none else elim rest [ none ↦ none | some s ↦ some (c ∷ s) ]

-- What is written to `out_utf8`, whose length is what is returned.
unfoldable pub utf8_encode_unichar : ℕ → Text
utf8_encode_unichar g =
    if ltb g 0x80
    then bit_and g 0x7f ∷ []
    else if ltb g 0x800
    then bit_or 0xc0 (bit_and (g / 64) 0x1f) ∷ bit_or 0x80 (bit_and g 0x3f) ∷ []
    else if ltb g 0x10000
    then bit_or 0xe0 (bit_and (g / 4096) 0x0f)
      ∷ bit_or 0x80 (bit_and (g / 64) 0x3f)
      ∷ bit_or 0x80 (bit_and g 0x3f)
      ∷ []
    else if ltb g 0x200000
    then bit_or 0xf0 (bit_and (g / 262144) 0x07)
      ∷ bit_or 0x80 (bit_and (g / 4096) 0x3f)
      ∷ bit_or 0x80 (bit_and (g / 64) 0x3f)
      ∷ bit_or 0x80 (bit_and g 0x3f)
      ∷ []
    else []

unfoldable pub utf16_is_surrogate : ℕ → Bool
utf16_is_surrogate c = leb 0xd800 c && leb c 0xdfff

unfoldable pub utf16_is_trailing_surrogate : ℕ → Bool
utf16_is_trailing_surrogate c = leb 0xdc00 c && leb c 0xdfff

-- For two surrogates, where no subtraction goes below 0.
unfoldable pub utf16_surrogate_pair_to_unichar : ℕ → ℕ → ℕ
utf16_surrogate_pair_to_unichar lead trail = (lead - 0xd800) * 1024 + (trail - 0xdc00) + 0x10000

-- `f[1] << 8 | f[0]`
unfoldable pub utf16_unit : ℕ → ℕ → ℕ
utf16_unit low high = bit_or (high * 256) low

-- What a round writes for a lead that is followed by w2, and whether it takes w2.
unfoldable pub utf16_second : ℕ → ℕ → Text × Bool
unfolding utf16_is_surrogate utf16_is_trailing_surrogate utf16_surrogate_pair_to_unichar
    utf8_encode_unichar
utf16_second w1 w2 =
    if not (utf16_is_surrogate w1)
    then (utf8_encode_unichar w1, false)
    else if utf16_is_trailing_surrogate w1
    then ([], false)
    else if utf16_is_trailing_surrogate w2
    then (utf8_encode_unichar (utf16_surrogate_pair_to_unichar w1 w2), true)
    else ([], false)

-- What is written for a lead with nothing behind it, or for a single unit.
unfoldable pub utf16_last : ℕ → Text
unfolding utf16_is_surrogate utf8_encode_unichar
utf16_last w1 = if utf16_is_surrogate w1 then [] else utf8_encode_unichar w1

-- The loop on an input of whole units.
unfoldable pub utf16_loop : Text → Text
unfolding utf16_second utf16_last utf16_unit
utf16_loop [] = []
utf16_loop (l1 ∷ []) = []
utf16_loop (l1 ∷ h1 ∷ []) = utf16_last (utf16_unit l1 h1)
utf16_loop (l1 ∷ h1 ∷ l2 ∷ []) = utf16_last (utf16_unit l1 h1)
utf16_loop (l1 ∷ h1 ∷ l2 ∷ h2 ∷ f) =
    let (out, both) = utf16_second (utf16_unit l1 h1) (utf16_unit l2 h2) in
    let after_both = utf16_loop f in
    let after_one = utf16_loop (l2 ∷ h2 ∷ f) in out ++ (if both then after_both else after_one)

-- The bytes of the buffer `r`.
unfoldable pub utf16_room : ℕ → ℕ
utf16_room length = (length * 4 + 1) / 2 + 1

-- The text in `r` without its NUL. The input has an even length, and its size in bytes is far below
-- SIZE_MAX / 4, so that `length * 4` does not wrap around; `memory` is the answer of malloc.
unfoldable pub utf16_to_utf8 : Bool → Text → Option Text
unfolding utf16_loop
utf16_to_utf8 memory s = if memory then some (utf16_loop s) else none

-- udev_util_encode_string, with ENABLE_GPL.
unfoldable pub udev_util_encode_string : Option Text → ℕ → Encoded
unfolding encode_devnode_name
udev_util_encode_string str len = encode_devnode_name str len
