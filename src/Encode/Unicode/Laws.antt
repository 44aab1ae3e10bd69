-- ===== src/Encode/Unicode/Laws.antt =====
-- Characters written as UTF-8 are read back.
use libudev_devd.Common.{
  ℕ, suc, ◌+◌, ◌-◌, ◌*◌, ◌/◌, ◌%◌, ◌≤◌, ◌<◌, ◌≡◌, refl, ap, ◌∙◌, true, false, not, Option, none,
  some, [], ◌∷◌, Text, ◌==◌, if◌then◌else◌, bit_and, bit_or, arith,
}
use libudev_devd.Encode.{
  utf8_encoded_valid_unichar, utf8_encoded_to_unichar, utf8_encoded_expected_len, first_bits,
  continuation, all_high, valid_of,
}
use libudev_devd.Encode.Unicode.Lead.{tail_byte, lead_byte, lead_two, lead_three, lead_four}
use libudev_devd.Encode.Digits.{bit_and_3, bit_and_4, bit_and_5, bit_and_6, bit_and_7, bit_or_6}
use libudev_devd.Encode.Unicode.{utf8_encode_unichar}

cont_step :
    (rounds x u : ℕ) (s : Text)
    → x < 64
    → continuation (suc rounds) ((128 + x) ∷ s) u ≡ continuation rounds s (u * 64 + x)
unfolding continuation
cont_step rounds x u s h =
    let (_, mark, bits, _) = tail_byte x h in rw mark (rw bits (rw (bit_or_6 u x h) refl))

high_step :
    (rounds x : ℕ) (s : Text) → x < 64 → all_high (suc rounds) ((128 + x) ∷ s) ≡ all_high rounds s
unfolding all_high
high_step rounds x s h = let (_, _, _, high) = tail_byte x h in rw high refl

tail_bits : (g : ℕ) → bit_or 0x80 (bit_and g 0x3f) ≡ 128 + g % 64
tail_bits g = rw (bit_and_6 g) (tail_byte (g % 64) (omega arith)).0

-- What the two readers make of a length.
decode_at : ℕ → Text → ℕ → Option ℕ
unfolding continuation
decode_at c s len =
    if len == 1
    then some c
    else elim (first_bits len c) [ none ↦ none | some unichar ↦ continuation (len - 1) s unichar ]

validate_at : Text → Option ℕ → ℕ → Option ℕ
unfolding all_high valid_of
validate_at str unichar len =
    if len == 0
    then none
    else if len == 1
    then some 1
    else if not (all_high len str)
    then none
    else valid_of len unichar

reads_at :
    (c : ℕ) (s : Text)
    → (utf8_encoded_to_unichar (c ∷ s) ≡ decode_at c s (utf8_encoded_expected_len c))
      × (utf8_encoded_valid_unichar (c ∷ s)
          ≡ validate_at (c ∷ s) (utf8_encoded_to_unichar (c ∷ s)) (utf8_encoded_expected_len c))
unfolding utf8_encoded_to_unichar utf8_encoded_valid_unichar decode_at validate_at
reads_at c s = (refl, refl)

high_first :
    (rounds c : ℕ) (s : Text)
    → (bit_and c 0x80 == 0x80) ≡ true
    → all_high (suc rounds) (c ∷ s) ≡ all_high rounds s
unfolding all_high
high_first rounds c s h = rw h refl

-- A sequence whose first byte tells its length and its first bits.
long_sequence :
    (c len u g : ℕ) (s : Text)
    → 2 ≤ len
    → utf8_encoded_expected_len c ≡ len
    → first_bits len c ≡ some u
    → all_high len (c ∷ s) ≡ true
    → continuation (len - 1) s u ≡ some g
    → (utf8_encoded_to_unichar (c ∷ s) ≡ some g)
      × (utf8_encoded_valid_unichar (c ∷ s) ≡ valid_of len (some g))
unfolding decode_at validate_at
long_sequence c len u g s long e bits high whole =
    let (decodes, validates) = reads_at c s in
    let single : (len == 1) ≡ false = ground arith in
    let empty : (len == 0) ≡ false = ground arith in
    let decoded : decode_at c s len ≡ some g = rw single (rw bits whole) in
    let known = decodes ∙ ap (decode_at c s) e ∙ decoded in
    let valid : validate_at (c ∷ s) (some g) len ≡ valid_of len (some g) =
      rw empty (rw single (rw high refl)) in
    (
      known,
      validates ∙ ap (validate_at (c ∷ s) _) e ∙ ap (λ o. validate_at (c ∷ s) o len) known ∙ valid,
    )

module _ (g : ℕ) where
  pub encode_1 : g < 0x80 → utf8_encode_unichar g ≡ g ∷ []
  unfolding utf8_encode_unichar
  encode_1 h = rw (bit_and_7 g) (ground arith)

  pub encode_2 : 0x80 ≤ g → g < 0x800 → utf8_encode_unichar g ≡ (192 + g / 64) ∷ (128 + g % 64) ∷ []
  unfolding utf8_encode_unichar
  encode_2 lo hi = rw (tail_bits g) (
      rw (bit_and_5 (g / 64))
        (ground (arith, (lead_byte 2 192 32 (g / 64 % 32) lead_two (omega arith) (omega arith)).0)))

  pub encode_3 :
      0x800 ≤ g
      → g < 0x10000
      → utf8_encode_unichar g ≡ (224 + g / 4096) ∷ (128 + g / 64 % 64) ∷ (128 + g % 64) ∷ []
  unfolding utf8_encode_unichar
  encode_3 lo hi = rw (tail_bits g) (
      rw (tail_bits (g / 64)) (
        rw (bit_and_4 (g / 4096)) (
          ground (
            arith,
            (lead_byte 3 224 16 (g / 4096 % 16) lead_three (omega arith) (omega arith)).0,
          ))))

  pub encode_4 :
      0x10000 ≤ g
      → g < 0x200000
      → utf8_encode_unichar g
        ≡ (240 + g / 262144) ∷ (128 + g / 4096 % 64) ∷ (128 + g / 64 % 64) ∷ (128 + g % 64) ∷ []
  unfolding utf8_encode_unichar
  encode_4 lo hi = rw (tail_bits g) (
      rw (tail_bits (g / 64)) (
        rw (tail_bits (g / 4096)) (
          rw (bit_and_3 (g / 262144)) (
            ground (
              arith,
              (lead_byte 4 240 8 (g / 262144 % 8) lead_four (omega arith) (omega arith)).0,
            )))))

  -- What a reader finds at the start of a text: the character, and whether it is valid.
  abbrev pub Reads : Text → ℕ → Type 0
  Reads str len =
      (utf8_encoded_to_unichar str ≡ some g)
      × (utf8_encoded_valid_unichar str ≡ valid_of len (some g))

  pub read_2 : (s : Text) → 0x80 ≤ g → g < 0x800 → Reads ((192 + g / 64) ∷ (128 + g % 64) ∷ s) 2
  unfolding all_high continuation
  read_2 s lo hi =
      let (_, len, bits, high) = lead_byte 2 192 32 (g / 64) lead_two (omega arith) (omega arith) in
      long_sequence (192 + g / 64) 2 (g / 64) g ((128 + g % 64) ∷ s) (omega arith) len bits
        (high_first 1 _ ((128 + g % 64) ∷ s) high ∙ high_step 0 (g % 64) s (omega arith))
        (cont_step 0 (g % 64) (g / 64) s (omega arith) ∙ ap some (omega arith))

  pub read_3 :
      (s : Text)
      → 0x800 ≤ g
      → g < 0x10000
      → Reads ((224 + g / 4096) ∷ (128 + g / 64 % 64) ∷ (128 + g % 64) ∷ s) 3
  unfolding all_high continuation
  read_3 s lo hi =
      let t = (128 + g % 64) ∷ s in
      let (_, len, bits, high) =
        lead_byte 3 224 16 (g / 4096) lead_three (omega arith) (omega arith) in
      long_sequence (224 + g / 4096) 3 (g / 4096) g ((128 + g / 64 % 64) ∷ (128 + g % 64) ∷ s)
        (omega arith) len bits
        (high_first 2 _ ((128 + g / 64 % 64) ∷ t) high
          ∙ high_step 1 (g / 64 % 64) t (omega arith)
          ∙ high_step 0 (g % 64) s (omega arith))
        (cont_step 1 (g / 64 % 64) (g / 4096) t (omega arith)
          ∙ cont_step 0 (g % 64) (g / 4096 * 64 + g / 64 % 64) s (omega arith)
          ∙ ap some (omega arith))

  pub read_4 :
      (s : Text)
      → 0x10000 ≤ g
      → g < 0x200000
      → Reads
          ((240 + g / 262144) ∷ (128 + g / 4096 % 64) ∷ (128 + g / 64 % 64) ∷ (128 + g % 64) ∷ s)
          4
  unfolding all_high continuation
  read_4 s lo hi =
      let t1 = (128 + g % 64) ∷ s in
      let t2 = (128 + g / 64 % 64) ∷ t1 in
      let u1 = g / 262144 * 64 + g / 4096 % 64 in
      let (_, len, bits, high) =
        lead_byte 4 240 8 (g / 262144) lead_four (omega arith) (omega arith) in
      long_sequence (240 + g / 262144) 4 (g / 262144) g
        ((128 + g / 4096 % 64) ∷ (128 + g / 64 % 64) ∷ (128 + g % 64) ∷ s) (omega arith) len bits
        (high_first 3 _ ((128 + g / 4096 % 64) ∷ t2) high
          ∙ high_step 2 (g / 4096 % 64) t2 (omega arith)
          ∙ high_step 1 (g / 64 % 64) t1 (omega arith)
          ∙ high_step 0 (g % 64) s (omega arith))
        (cont_step 2 (g / 4096 % 64) (g / 262144) t2 (omega arith)
          ∙ cont_step 1 (g / 64 % 64) u1 t1 (omega arith)
          ∙ cont_step 0 (g % 64) (u1 * 64 + g / 64 % 64) s (omega arith)
          ∙ ap some (omega arith))

  pub read_1 :
      (s : Text)
      → g < 0x80
      → (utf8_encoded_to_unichar (g ∷ s) ≡ some g) × (utf8_encoded_valid_unichar (g ∷ s) ≡ some 1)
  unfolding decode_at validate_at utf8_encoded_expected_len
  read_1 s h =
      let e : utf8_encoded_expected_len g ≡ 1 = ground arith in
      let (decodes, validates) = reads_at g s in
      (decodes ∙ ap (decode_at g s) e, validates ∙ ap (validate_at (g ∷ s) _) e)
