-- ===== src/Encode/Unicode/Utf16.antt =====
-- utf16_to_utf8 on the UTF-16 of whole characters.
use libudev_devd.Common.{
  ℕ, ◌+◌, ◌-◌, ◌/◌, ◌%◌, ◌≤◌, ◌<◌, ◌≡◌, inl, inr, refl, sym, ap, ◌∙◌, Bool, true, false, ◌&&◌, ◌||◌,
  some, List, [], ◌∷◌, ◌++◌, Text, ltb, leb, if◌then◌else◌, append-nil, arith, Bool-cases, all,
  &&-eq_true, ltb→lt,
}
use libudev_devd.Encode.Digits.{bit_or_8}
use libudev_devd.Encode.Unicode.{
  utf8_encode_unichar, utf16_is_surrogate, utf16_is_trailing_surrogate,
  utf16_surrogate_pair_to_unichar, utf16_unit, utf16_second, utf16_last, utf16_loop, utf16_to_utf8,
}
use libudev_devd.Encode.Unicode.Printable.{encode_all}
use libudev_devd.Encode.Unicode.Room.{IsWhole}

-- A code unit in the byte order that utf16_to_utf8 reads.
abbrev pub unit_bytes : ℕ → Text
unit_bytes w = w % 256 ∷ w / 256 ∷ []

-- A character in UTF-16: one unit, or a lead and a trail of ten bits each.
abbrev pub utf16_of : ℕ → Text
utf16_of g =
    if ltb g 0x10000
    then unit_bytes g
    else unit_bytes (0xd800 + (g - 0x10000) / 1024) ++ unit_bytes (0xdc00 + (g - 0x10000) % 1024)

abbrev pub utf16_all : List ℕ → Text
utf16_all [] = []
utf16_all (g ∷ gs) = utf16_of g ++ utf16_all gs

-- A character of Unicode, which is no surrogate.
abbrev pub is_character : ℕ → Bool
is_character g = ltb g 0xd800 || leb 0xe000 g && ltb g 0x110000

unit_read : (w : ℕ) → w < 0x10000 → utf16_unit (w % 256) (w / 256) ≡ w
unfolding utf16_unit
unit_read w h = omega (arith, bit_or_8 (w / 256) (w % 256) (omega arith))

IsWhole-utf16_all : (gs : List ℕ) → IsWhole (utf16_all gs)
IsWhole-utf16_all [] = tt
IsWhole-utf16_all (g ∷ gs) = elim (Bool-cases (ltb g 0x10000)) [
  | inl short ↦ rw short (IsWhole-utf16_all gs)
  | inr long ↦ rw long (IsWhole-utf16_all gs)
]

loop_single :
    (l h w : ℕ) (f : Text)
    → IsWhole f
    → utf16_unit l h ≡ w
    → utf16_is_surrogate w ≡ false
    → utf16_loop (l ∷ h ∷ f) ≡ utf8_encode_unichar w ++ utf16_loop f
unfolding utf16_loop utf16_second utf16_last
loop_single l h w [] whole e plain = rw (e, plain) (sym (append-nil (utf8_encode_unichar w)))
loop_single l h w (l2 ∷ []) whole e plain = elim whole [ ]
loop_single l h w (l2 ∷ h2 ∷ f) whole e plain = rw (e, plain) refl

loop_pair :
    (l1 h1 l2 h2 w1 w2 : ℕ) (f : Text)
    → utf16_unit l1 h1 ≡ w1
    → utf16_unit l2 h2 ≡ w2
    → utf16_is_surrogate w1 ≡ true
    → utf16_is_trailing_surrogate w1 ≡ false
    → utf16_is_trailing_surrogate w2 ≡ true
    → utf16_loop (l1 ∷ h1 ∷ l2 ∷ h2 ∷ f)
      ≡ utf8_encode_unichar (utf16_surrogate_pair_to_unichar w1 w2) ++ utf16_loop f
unfolding utf16_loop utf16_second
loop_pair l1 h1 l2 h2 w1 w2 f e1 e2 lead still trail = rw (e1, e2, lead, still, trail) refl

plain_unit : (g : ℕ) → is_character g ≡ true → ltb g 0x10000 ≡ true → utf16_is_surrogate g ≡ false
unfolding utf16_is_surrogate
plain_unit g h k = ground arith

range : (g : ℕ) → is_character g ≡ true → ltb g 0x10000 ≡ false → (0x10000 ≤ g) × (g < 0x110000)
range g h k = ground arith

-- The tests on a unit, by its range.
lead_tests :
    (w : ℕ)
    → 0xd800 ≤ w
    → w < 0xdc00
    → (utf16_is_surrogate w ≡ true) × (utf16_is_trailing_surrogate w ≡ false)
unfolding utf16_is_surrogate utf16_is_trailing_surrogate
lead_tests w h k = ground arith

trail_tests : (w : ℕ) → 0xdc00 ≤ w → w < 0xe000 → utf16_is_trailing_surrogate w ≡ true
unfolding utf16_is_trailing_surrogate
trail_tests w h k = ground arith

-- The lead and the trail of a character that one unit does not hold.
pair_units :
    (g : ℕ)
    → is_character g ≡ true
    → ltb g 0x10000 ≡ false
    → let lead = 0xd800 + (g - 0x10000) / 1024 in
      let trail = 0xdc00 + (g - 0x10000) % 1024 in
      (lead < 0x10000)
      × (trail < 0x10000)
      × (utf16_is_surrogate lead ≡ true)
      × (utf16_is_trailing_surrogate lead ≡ false)
      × (utf16_is_trailing_surrogate trail ≡ true)
      × (utf16_surrogate_pair_to_unichar lead trail ≡ g)
unfolding utf16_surrogate_pair_to_unichar
pair_units g h k =
    let (low, high) = range g h k in
    let (surrogate, still) =
      lead_tests (0xd800 + (g - 0x10000) / 1024) (omega arith) (omega arith) in
    (
      omega arith,
      omega arith,
      surrogate,
      still,
      trail_tests (0xdc00 + (g - 0x10000) % 1024) (omega arith) (omega arith),
      omega arith,
    )

loop_character :
    (g : ℕ) (f : Text)
    → is_character g ≡ true
    → IsWhole f
    → utf16_loop (utf16_of g ++ f) ≡ utf8_encode_unichar g ++ utf16_loop f
loop_character g f h whole = elim (Bool-cases (ltb g 0x10000)) [
  | inl short ↦ rw short (
      loop_single (g % 256) (g / 256) g f whole (unit_read g (ltb→lt g 0x10000 short))
        (plain_unit g h short))
  | inr long ↦
      let (lead_fits, trail_fits, surrogate, still, trail, back) = pair_units g h long in
      let lead = 0xd800 + (g - 0x10000) / 1024 in
      let last = 0xdc00 + (g - 0x10000) % 1024 in
      rw long (
        loop_pair (lead % 256) (lead / 256) (last % 256) (last / 256) lead last f
          (unit_read lead lead_fits) (unit_read last trail_fits) surrogate still trail
        ∙ ap (λ u. utf8_encode_unichar u ++ utf16_loop f) back)
]

loop_all : (gs : List ℕ) → all is_character gs ≡ true → utf16_loop (utf16_all gs) ≡ encode_all gs
unfolding encode_all utf16_loop
loop_all [] h = refl
loop_all (g ∷ gs) h =
    let (here, others) = &&-eq_true (is_character g) (all is_character gs) h in
    loop_character g (utf16_all gs) here (IsWhole-utf16_all gs)
    ∙ ap (λ t. utf8_encode_unichar g ++ t) (loop_all gs others)

-- utf16_to_utf8 makes of the UTF-16 of any characters of Unicode their UTF-8, where memory is at
-- hand.
pub utf16_to_utf8-utf16_all :
    (gs : List ℕ)
    → all is_character gs ≡ true
    → utf16_to_utf8 true (utf16_all gs) ≡ some (encode_all gs)
unfolding utf16_to_utf8
utf16_to_utf8-utf16_all gs h = ap some (loop_all gs h)
