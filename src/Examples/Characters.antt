-- ===== src/Examples/Characters.antt =====
-- Runs of the functions on characters.
use libudev_devd.Encode.Unicode.Utf16.{utf16_all, utf16_to_utf8-utf16_all}
use libudev_devd.Common.{
  if◌then◌else◌, ltb, ◌||◌, none, ℕ, ◌≡◌, ◌<◌, refl, true, some, List, [], ◌∷◌, ◌++◌, Text, codes,
  length, all, arith,
}
use libudev_devd.Encode.{utf8_encoded_to_unichar, utf8_encoded_valid_unichar, unichar_is_valid}
use libudev_devd.Encode.Unicode.{
  utf8_encode_unichar, utf8_is_printable_newline, utf16_to_utf8, utf16_room,
}
use libudev_devd.Encode.Unicode.Printable.{
  decode-encode, encode_all, is_printable, utf8_is_printable_newline-encode_all,
}
use libudev_devd.Encode.Unicode.Room.{utf16_to_utf8-fits}

-- The euro sign.
abbrev euro : ℕ
euro = 0x20ac

decode-encode_example :
    (utf8_encoded_to_unichar (utf8_encode_unichar euro ++ codes "!") ≡ some euro)
    × (utf8_encoded_valid_unichar (utf8_encode_unichar euro ++ codes "!") ≡ (
        if ltb euro 0x80 || unichar_is_valid euro
        then some (length (utf8_encode_unichar euro))
        else none))
decode-encode_example = decode-encode euro (codes "!") (omega arith)

-- An umlaut, a newline and the euro sign.
abbrev three_chars : List ℕ
three_chars = 0xe4 ∷ b'\n' ∷ euro ∷ []

utf8_is_printable_newline-encode_all_example :
    utf8_is_printable_newline (encode_all three_chars) (length (encode_all three_chars)) true
    ≡ all (is_printable true) three_chars
unfolding unichar_is_valid
utf8_is_printable_newline-encode_all_example =
    utf8_is_printable_newline-encode_all true three_chars refl

-- A surrogate pair, little end first.
abbrev pair_bytes : Text
pair_bytes = 0x3d ∷ 0xd8 ∷ 0x00 ∷ 0xde ∷ []

utf16_to_utf8-fits_example :
    (out : Text) × (utf16_to_utf8 true pair_bytes ≡ some out) × (length out < utf16_room 4)
utf16_to_utf8-fits_example =
    utf16_to_utf8-fits pair_bytes (omega arith, (omega arith, (omega arith, (omega arith, tt)))) tt

-- The emoji comes out as its four bytes.
pair_written : utf16_to_utf8 true pair_bytes ≡ some (0xf0 ∷ 0x9f ∷ 0x98 ∷ 0x80 ∷ [])
unfolding utf16_to_utf8 utf8_encode_unichar
pair_written = refl

-- A letter and the emoji.
utf16_to_utf8-utf16_all_example :
    utf16_to_utf8 true (utf16_all (0x41 ∷ 0x1f600 ∷ [])) ≡ some (encode_all (0x41 ∷ 0x1f600 ∷ []))
utf16_to_utf8-utf16_all_example = utf16_to_utf8-utf16_all (0x41 ∷ 0x1f600 ∷ []) refl
