-- ===== src/Encode/Unicode/Printable.antt =====
-- What is written as UTF-8 is read back: a character, and a text of several.
use libudev_devd.Common.{
  ℕ, zero, suc, ◌-◌, ◌≤◌, ◌<◌, ◌≡◌, refl, ◌∙◌, Bool, true, false, ◌&&◌, ◌||◌, not, Option, none,
  some, List, [], ◌∷◌, ◌++◌, Text, ltb, ◌==◌, if◌then◌else◌, length, drop, all, drop-append_self,
  arith, Bool-cases, inl, inr, length-append,
}
use libudev_devd.Encode.{
  utf8_encoded_valid_unichar, utf8_encoded_to_unichar, utf8_unichar_to_encoded_len,
  unichar_is_valid, valid_of,
}
use libudev_devd.Encode.Unicode.{
  utf8_encode_unichar, unichar_is_control, printable_char, printable_loop,
  utf8_is_printable_newline,
}
use libudev_devd.Encode.Unicode.Laws.{
  encode_1, encode_2, encode_3, encode_4, read_1, read_2, read_3, read_4,
}

-- The answer of the validation for a character of `n` bytes.
answer : ℕ → ℕ → Option ℕ
answer g n = if ltb g 0x80 || unichar_is_valid g then some n else none

valid_of-answer :
    (len g : ℕ)
    → 0x80 ≤ g
    → utf8_unichar_to_encoded_len g ≡ len
    → valid_of len (some g) ≡ answer g len
unfolding valid_of answer
valid_of-answer len g h e = ground arith

answer_one : (g : ℕ) → g < 0x80 → some 1 ≡ answer g 1
unfolding answer
answer_one g h = ground arith

-- A character below 2 ^ 21 that utf8_encode_unichar writes is decoded to itself, whatever follows
-- it; the validation of UTF-8 gives the number of bytes that were written exactly where the character
-- is below 128 or valid, and refuses it elsewhere.
pub decode-encode :
    (g : ℕ) (s : Text)
    → g < 0x200000
    → (utf8_encoded_to_unichar (utf8_encode_unichar g ++ s) ≡ some g)
      × (utf8_encoded_valid_unichar (utf8_encode_unichar g ++ s) ≡ (
          if ltb g 0x80 || unichar_is_valid g then some (length (utf8_encode_unichar g)) else none))
unfolding utf8_unichar_to_encoded_len answer
decode-encode g s h = elim (Bool-cases (ltb g 0x80)) [
  | inl one ↦
      rw (encode_1 g (ground arith))
        (let (d, v) = read_1 g s (ground arith) in (d, v ∙ answer_one g (ground arith)))
  | inr more1 ↦ elim (Bool-cases (ltb g 0x800)) [
    | inl two ↦ rw (encode_2 g (ground arith) (ground arith)) (
        let (d, v) = read_2 g s (ground arith) (ground arith) in
        (d, v ∙ valid_of-answer 2 g (ground arith) (ground arith)))
    | inr more2 ↦ elim (Bool-cases (ltb g 0x10000)) [
      | inl three ↦ rw (encode_3 g (ground arith) (ground arith)) (
          let (d, v) = read_3 g s (ground arith) (ground arith) in
          (d, v ∙ valid_of-answer 3 g (ground arith) (ground arith)))
      | inr more3 ↦ rw (encode_4 g (ground arith) h) (
          let (d, v) = read_4 g s (ground arith) h in
          (d, v ∙ valid_of-answer 4 g (ground arith) (ground arith)))
    ]
  ]
]

accepted :
    (g : ℕ) (o : Option ℕ) (n : ℕ)
    → o ≡ (if ltb g 0x80 || unichar_is_valid g then some n else none)
    → unichar_is_valid g ≡ true
    → o ≡ some n
accepted g o n h v = ground arith

encode-length :
    (g : ℕ) → g < 0x200000 → length (utf8_encode_unichar g) ≡ utf8_unichar_to_encoded_len g
unfolding utf8_unichar_to_encoded_len utf8_encode_unichar
encode-length g h = ground arith

-- A text of several characters.
unfoldable pub encode_all : List ℕ → Text
encode_all [] = []
encode_all (g ∷ gs) = utf8_encode_unichar g ++ encode_all gs

-- What a caller means by a printable character.
unfoldable pub is_printable : Bool → ℕ → Bool
is_printable newline g = not (unichar_is_control g) && (newline || not (g == b'\n'))

valid-below : (g : ℕ) → unichar_is_valid g ≡ true → g < 0x200000
unfolding unichar_is_valid
valid-below g h = ground arith

printable_step :
    (newline : Bool) (g len n : ℕ)
    → len ≤ n
    → printable_char newline n (some len) (some g)
      ≡ (if is_printable newline g then some len else none)
unfolding printable_char is_printable
printable_step newline g len n h = ground arith

module _ (newline : Bool) where
  loop_step :
      (fuel n len g : ℕ) (p : Text)
      → (n == 0) ≡ false
      → len ≤ n
      → utf8_encoded_valid_unichar p ≡ some len
      → utf8_encoded_to_unichar p ≡ some g
      → printable_loop (suc fuel) p n newline ≡ (
          if is_printable newline g
          then printable_loop fuel (drop len p) (n - len) newline
          else false)
  unfolding printable_loop
  loop_step fuel n len g p some_left inside valid decoded = rw some_left (
      rw valid (
        rw decoded (
          rw (printable_step newline g len n inside) (elim (Bool-cases (is_printable newline g)) [
            | inl yes' ↦ rw yes' refl
            | inr no' ↦ rw no' refl
          ]))))

  printable_loop-encode_all :
      (fuel : ℕ) (gs : List ℕ)
      → length (encode_all gs) < fuel
      → all unichar_is_valid gs ≡ true
      → printable_loop fuel (encode_all gs) (length (encode_all gs)) newline
        ≡ all (is_printable newline) gs
  unfolding printable_loop encode_all utf8_unichar_to_encoded_len
  printable_loop-encode_all zero gs h v = absurd (omega arith)
  printable_loop-encode_all (suc fuel) [] h v = refl
  printable_loop-encode_all (suc fuel) (g ∷ gs) h v =
      let one = utf8_encode_unichar g in
      let rest = encode_all gs in
      let valid : unichar_is_valid g ≡ true = ground arith in
      let below = valid-below g valid in
      let size = length-append one rest in
      let some_bytes : 1 ≤ length one = ground (arith, encode-length g below) in
      let left : length (one ++ rest) - length one ≡ length rest = omega arith in
      let (decoded, validates) = decode-encode g rest below in
      loop_step fuel (length (one ++ rest)) (length one) g (one ++ rest) (ground arith)
        (omega arith) (accepted g _ _ validates valid) decoded
      ∙ rw (drop-append_self one rest) (
          rw left
            (rw (printable_loop-encode_all fuel gs (omega arith) (ground arith)) (ground arith)))

  -- On the UTF-8 of valid characters, utf8_is_printable_newline tells whether each of them is
  -- printable: no control character, and no newline unless newlines are allowed.
  pub utf8_is_printable_newline-encode_all :
      (gs : List ℕ)
      → all unichar_is_valid gs ≡ true
      → utf8_is_printable_newline (encode_all gs) (length (encode_all gs)) newline
        ≡ all (is_printable newline) gs
  unfolding utf8_is_printable_newline
  utf8_is_printable_newline-encode_all gs v =
      printable_loop-encode_all (suc (length (encode_all gs))) gs (omega arith) v
