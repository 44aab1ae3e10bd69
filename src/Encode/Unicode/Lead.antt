-- ===== src/Encode/Unicode/Lead.antt =====
-- The bytes of a UTF-8 sequence, checked for each of the 256.
use libudev_devd.Common.{
  ℕ, ◌+◌, ◌<◌, ◌≡◌, refl, ap, Bool, true, false, ◌&&◌, ◌||◌, Option, none, some, leb, ◌==◌, ==_iff,
  bit_and, bit_or, arith,
}
use libudev_devd.Encode.{utf8_encoded_expected_len, first_bits}
use libudev_devd.Encode.Bytes.{byte_by_byte, tried_from}

-- The byte after the first that holds six bits.
tail_table :
    tried_from
      (λ x.
        leb 64 x
        || (bit_or 0x80 x == 128 + x)
          && (bit_and (128 + x) 0xc0 == 0x80)
          && (bit_and (128 + x) 0x3f == x)
          && (bit_and (128 + x) 0x80 == 0x80))
      256
      0
    ≡ true
unfolding tried_from
tail_table = refl

pub tail_byte :
    (x : ℕ)
    → x < 64
    → (bit_or 0x80 x ≡ 128 + x)
      × ((bit_and (128 + x) 0xc0 == 0x80) ≡ true)
      × (bit_and (128 + x) 0x3f ≡ x)
      × ((bit_and (128 + x) 0x80 == 0x80) ≡ true)
tail_byte x h = let good = byte_by_byte _ x tail_table (omega arith) in ground (arith, good)

-- The first byte of a sequence: its length, and the bits it holds.
abbrev pub good : ℕ → ℕ → ℕ → ℕ → Bool
good len mark count x =
    leb count x
    || (bit_or mark x == mark + x)
      && (utf8_encoded_expected_len (mark + x) == len)
      && (elim (first_bits len (mark + x)) [ none ↦ false | some u ↦ u == x ])
      && (bit_and (mark + x) 0x80 == 0x80)

pub lead_two : tried_from (good 2 192 32) 256 0 ≡ true
unfolding tried_from utf8_encoded_expected_len first_bits
lead_two = refl

pub lead_three : tried_from (good 3 224 16) 256 0 ≡ true
unfolding tried_from utf8_encoded_expected_len first_bits
lead_three = refl

pub lead_four : tried_from (good 4 240 8) 256 0 ≡ true
unfolding tried_from utf8_encoded_expected_len first_bits
lead_four = refl

some_value : (o : Option ℕ) (x : ℕ) → elim o [ none ↦ false | some u ↦ u == x ] ≡ true → o ≡ some x
some_value none x h = absurd (ground arith)
some_value (some u) x h = ap some ((==_iff u x).0 h)

pub lead_byte :
    (len mark count x : ℕ)
    → tried_from (good len mark count) 256 0 ≡ true
    → x < count
    → x < 256
    → (bit_or mark x ≡ mark + x)
      × (utf8_encoded_expected_len (mark + x) ≡ len)
      × (first_bits len (mark + x) ≡ some x)
      × ((bit_and (mark + x) 0x80 == 0x80) ≡ true)
lead_byte len mark count x table h k =
    let good = byte_by_byte _ x table k in
    ground (arith, good, some_value (first_bits len (mark + x)) x)
