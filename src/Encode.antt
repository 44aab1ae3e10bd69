-- ===== src/Encode.antt =====
-- utils-gpl.c: the validation of UTF-8 and encode_devnode_name, which escapes what may not stand in
-- the name of a device node.
use libudev_devd.Common.{
  ℕ, zero, suc, ◌+◌, ◌-◌, ◌*◌, ◌/◌, ◌%◌, ◌≤◌, ◌<◌, ◌≡◌, Bool, true, false, ◌&&◌, ◌||◌, not, Option,
  none, some, List, [], ◌∷◌, ◌++◌, Text, codes, ltb, leb, ◌==◌, if◌then◌else◌, length, get_or, take,
  drop, any, bit_and, bit_or,
}
pub mod Bytes
pub mod Digits
pub mod Ended
pub mod Escape
pub mod Unicode

-- A code that does not stand for a character, or an int that is -EINVAL, is `none`.
unfoldable pub unichar_is_valid : ℕ → Bool
unichar_is_valid ch =
    if leb 0x110000 ch
    then false
    else if bit_and ch 0xfffff800 == 0xd800
    then false
    else if leb 0xfdd0 ch && leb ch 0xfdef
    then false
    else if bit_and ch 0xfffe == 0xfffe
    then false
    else true

unfoldable pub utf8_encoded_expected_len : ℕ → ℕ
utf8_encoded_expected_len c =
    if ltb c 0x80
    then 1
    else if bit_and c 0xe0 == 0xc0
    then 2
    else if bit_and c 0xf0 == 0xe0
    then 3
    else if bit_and c 0xf8 == 0xf0
    then 4
    else if bit_and c 0xfc == 0xf8
    then 5
    else if bit_and c 0xfe == 0xfc
    then 6
    else 0

-- The payload bits of the first byte, by the length.
pub first_bits : ℕ → ℕ → Option ℕ
first_bits len c =
    if len == 2
    then some (bit_and c 0x1f)
    else if len == 3
    then some (bit_and c 0x0f)
    else if len == 4
    then some (bit_and c 0x07)
    else if len == 5
    then some (bit_and c 0x03)
    else if len == 6
    then some (bit_and c 0x01)
    else none

-- `for (i = 1; i < len; i++)`, with the rounds left and the text from `str + i` on.
unfoldable pub continuation : ℕ → Text → ℕ → Option ℕ
continuation zero str unichar = some unichar
continuation (suc rounds) str unichar =
    let b = get_or str 0 0 in
    let rest = continuation rounds (drop 1 str) (bit_or (unichar * 64) (bit_and b 0x3f)) in
    if not (bit_and b 0xc0 == 0x80) then none else rest

unfoldable pub utf8_encoded_to_unichar : Text → Option ℕ
unfolding first_bits continuation utf8_encoded_expected_len
utf8_encoded_to_unichar str =
    let len = utf8_encoded_expected_len (get_or str 0 0) in
    if len == 1 then some (get_or str 0 0) else elim (first_bits len (get_or str 0 0)) [
      | none ↦ none
      | some unichar ↦ continuation (len - 1) (drop 1 str) unichar
    ]

unfoldable pub utf8_unichar_to_encoded_len : ℕ → ℕ
utf8_unichar_to_encoded_len unichar =
    if ltb unichar 0x80
    then 1
    else if ltb unichar 0x800
    then 2
    else if ltb unichar 0x10000
    then 3
    else if ltb unichar 0x200000
    then 4
    else if ltb unichar 0x4000000
    then 5
    else 6

-- `for (i = 0; i < len; i++) if ((str[i] & 0x80) != 0x80) return -EINVAL;`
unfoldable pub all_high : ℕ → Text → Bool
all_high zero str = true
all_high (suc rounds) str =
    let rest = all_high rounds (drop 1 str) in
    if not (bit_and (get_or str 0 0) 0x80 == 0x80) then false else rest

-- The tests on the character that a sequence of the length given stands for.
unfoldable pub valid_of : ℕ → Option ℕ → Option ℕ
valid_of len none = none
valid_of len (some unichar) =
    if not (utf8_unichar_to_encoded_len unichar == len)
    then none
    else if unichar_is_valid unichar
    then some len
    else none

-- The length of the character at the start of a text, `none` for -EINVAL. Where decoding fails in C
-- the value -EINVAL goes on into the two tests; it is less than 0x80, so that its length is 1 and
-- the first test refuses it as well.
unfoldable pub utf8_encoded_valid_unichar : Text → Option ℕ
unfolding valid_of
utf8_encoded_valid_unichar str =
    let len = utf8_encoded_expected_len (get_or str 0 0) in
    if len == 0
    then none
    else if len == 1
    then some 1
    else if not (all_high len str)
    then none
    else valid_of len (utf8_encoded_to_unichar str)

-- strchr(text, c) != NULL, for c that is not NUL
contains : Text → ℕ → Bool
contains text c = any (λ x. x == c) text

unfoldable pub whitelisted_char_for_devnode : ℕ → Option Text → Bool
unfolding contains
whitelisted_char_for_devnode c white =
    leb b'0' c && leb c b'9'
    || leb b'A' c && leb c b'Z'
    || leb b'a' c && leb c b'z'
    || contains (codes "#+-.:=@_") c
    || elim white [ none ↦ false | some w ↦ contains w c ]

unfoldable pub hex_digit : ℕ → ℕ
hex_digit d = if ltb d 10 then b'0' + d else b'a' + (d - 10)

-- "\\x%02x" of a byte
unfoldable pub escape : ℕ → Text
unfolding hex_digit
escape c = b'\\' ∷ b'x' ∷ hex_digit (c / 16) ∷ hex_digit (c % 16) ∷ []

-- The second and third branch of a round, for a byte that starts no longer sequence.
escape_or_copy : ℕ → Text × ℕ
escape_or_copy c =
    if c == b'\\' || not (whitelisted_char_for_devnode c none) then (escape c, 1) else (c ∷ [], 1)

encode_of : Text → Option ℕ → Text × ℕ
unfolding escape_or_copy
encode_of str none = escape_or_copy (get_or str 0 0)
encode_of str (some seqlen) =
    if ltb 1 seqlen then (take seqlen str, seqlen) else escape_or_copy (get_or str 0 0)

-- What one round writes for the character at the start of a text, and how many bytes it reads.
unfoldable pub encode_char : Text → Text × ℕ
unfolding encode_of
encode_char str = encode_of str (utf8_encoded_valid_unichar str)

-- How encode_devnode_name ends: with what it has written in front of the NUL, with -EINVAL, or with
-- a byte written behind the end of the buffer.
pub data Encoded : Type 0 where
  wrote : Text → Encoded
  invalid : Encoded
  overrun : Encoded

unfoldable pub after_writing : Text → Encoded → Encoded
after_writing out (wrote e) = wrote (out ++ e)
after_writing out invalid = invalid
after_writing out overrun = overrun

-- The loop, on the room `len - j` that is left. A round that escapes tests for the four bytes of
-- "\xNN", and sprintf writes a NUL behind them. The fuel is spent on nothing but the loop, one round
-- for each character.
unfoldable pub encode_loop : ℕ → Text → ℕ → Encoded
unfolding after_writing
encode_loop zero str room = invalid
encode_loop (suc fuel) [] room = if ltb room 1 then invalid else wrote []
encode_loop (suc fuel) (c ∷ str) room =
    let (out, seqlen) = encode_char (c ∷ str) in
    let rest = encode_loop fuel (drop seqlen (c ∷ str)) (room - length out) in
    if ltb room (length out)
    then invalid
    else if get_or out 0 0 == b'\\' && room == length out
    then overrun
    else after_writing out rest

unfoldable pub encode_devnode_name : Option Text → ℕ → Encoded
unfolding encode_loop
encode_devnode_name none len = invalid
encode_devnode_name (some str) len = encode_loop (suc (length str)) str len
