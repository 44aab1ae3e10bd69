-- ===== src/Encode/Escape.antt =====
-- encode_devnode_name: what it writes can be read back, and holds no byte that it should escape.
use libudev_devd.Common.{
  ℕ, zero, suc, ◌-◌, ◌≤◌, ◌<◌, ◌≡◌, ◌≢◌, refl, ap, ◌∙◌, Bool, true, false, ◌||◌, ◌&&◌, leb, not,
  Option, none, some, [], ◌∷◌, ◌++◌, Text, ltb, ◌==◌, if◌then◌else◌, length, get_or, take, drop,
  all, arith, bit_and, take-append-drop, Bool-cases, inl, inr, ltb→lt,
}
use libudev_devd.Encode.Ended.{unescaped, IsPiece, backslash_at, ended, ended-append, ended_nil}
use libudev_devd.Encode.{
  utf8_encoded_valid_unichar, utf8_encoded_expected_len, valid_of, utf8_encoded_to_unichar,
  encode_of, escape_or_copy, all_high, whitelisted_char_for_devnode, encode_char, encode_loop,
  encode_devnode_name, wrote, invalid, overrun, after_writing, escape, hex_digit,
}
use libudev_devd.Encode.Bytes.{
  high-ge, unescape, unescape-escape, unescape-cons, is_clean, escape-clean,
}

-- The text consists of bytes.
abbrev pub IsBytes : Text → Type 0
IsBytes [] = Unit
IsBytes (c ∷ s) = (c < 256) × IsBytes s

IsBytes-drop : (n : ℕ) (s : Text) → IsBytes s → IsBytes (drop n s)
IsBytes-drop zero s h = h
IsBytes-drop (suc n) [] h = tt
IsBytes-drop (suc n) (c ∷ s) h = IsBytes-drop n s h.1

all-append : (p : ℕ → Bool) (s t : Text) → all p s ≡ true → all p t ≡ true → all p (s ++ t) ≡ true
all-append p [] t h k = k
all-append p (c ∷ s) t h k = ground (arith, all-append p s t)

zero_not_high : (n : ℕ) → all_high (suc n) [] ≡ false
unfolding all_high
zero_not_high n = refl

high_split :
    (n c : ℕ) (str : Text)
    → all_high (suc n) (c ∷ str) ≡ true
    → ((bit_and c 0x80 == 0x80) ≡ true) × (all_high n str ≡ true)
unfolding all_high
high_split n c str h = ground arith

clean_of_high : (c : ℕ) → 128 ≤ c → is_clean c ≡ true
unfolding is_clean
clean_of_high c h = ground arith

-- Bytes with the highest bit set are copied, and stand for themselves.
high_sequence :
    (n : ℕ) (str t : Text)
    → IsBytes str
    → all_high n str ≡ true
    → (n ≤ length str)
      × (unescape (take n str ++ t) ≡ take n str ++ unescape t)
      × (all is_clean (take n str) ≡ true)
high_sequence zero str t b h = (omega arith, refl, refl)
high_sequence (suc n) [] t b h = absurd (ground (arith, zero_not_high n))
high_sequence (suc n) (c ∷ str) t b h =
    let (high, later) = high_split n c str h in
    let (len, e, clean) = high_sequence n str t b.1 later in
    let ge = high-ge c b.0 high in
    (
      omega (arith, len),
      unescape-cons c (take n str ++ t) (omega (arith, ge)) ∙ ap (λ s. c ∷ s) e,
      rw (clean_of_high c ge) clean,
    )

valid_of_length : (len : ℕ) (o : Option ℕ) (n : ℕ) → valid_of len o ≡ some n → n ≡ len
unfolding valid_of
valid_of_length len none n h = cc
valid_of_length len (some u) n h = ground arith

valid_length :
    (str : Text) (n : ℕ) → utf8_encoded_valid_unichar str ≡ some n → 1 < n → all_high n str ≡ true
unfolding utf8_encoded_valid_unichar
valid_length str n h k =
    let len = utf8_encoded_expected_len (get_or str 0 0) in
    ground (arith, valid_of_length len (utf8_encoded_to_unichar str) n)

-- What a round writes stands for what it reads.
record Piece (str : Text) (w : Text × ℕ) : Type 0 where
  some_read : 1 ≤ w.1
  inside : w.1 ≤ length str
  decoded : (t : Text) → unescape (w.0 ++ t) ≡ take w.1 str ++ unescape t
  clean : all is_clean w.0 ≡ true
  escapes : IsPiece w.0

clean_of_kept :
    (c : ℕ)
    → (c == b'\\' || not (whitelisted_char_for_devnode c none)) ≡ false
    → (is_clean c ≡ true) × (c ≢ b'\\')
unfolding is_clean
clean_of_kept c h = ground arith

escape-IsPiece : (c : ℕ) → c < 256 → IsPiece (escape c)
unfolding IsPiece escape hex_digit
escape-IsPiece c h = inl (refl, ground arith)

kept-IsPiece : (c : ℕ) → c ≢ b'\\' → IsPiece (c ∷ [])
unfolding IsPiece
kept-IsPiece c h = inr (ground arith)

high-unescaped :
    (n : ℕ) (str : Text) → IsBytes str → all_high n str ≡ true → unescaped (take n str) ≡ true
high-unescaped zero str b h = refl
high-unescaped (suc n) [] b h = refl
high-unescaped (suc n) (c ∷ str) b h =
    let (high, later) = high_split n c str h in
    ground (arith, high-unescaped n str b.1 later, high-ge c b.0 high)

unescaped-IsPiece : (s : Text) → unescaped s ≡ true → IsPiece s
unfolding IsPiece
unescaped-IsPiece [] h = tt
unescaped-IsPiece (c ∷ s) h = inr h

high-IsPiece : (n : ℕ) (str : Text) → IsBytes str → all_high n str ≡ true → IsPiece (take n str)
high-IsPiece n str b h = unescaped-IsPiece (take n str) (high-unescaped n str b h)

escape_or_copy-Piece : (c : ℕ) (str : Text) → c < 256 → Piece (c ∷ str) (escape_or_copy c)
unfolding escape_or_copy
escape_or_copy-Piece c str b =
    elim (Bool-cases (c == b'\\' || not (whitelisted_char_for_devnode c none))) [
      | inl escaped ↦ rw escaped (record {
        some_read = omega arith;
        inside = omega arith;
        decoded = λ t. unescape-escape c t b;
        clean = escape-clean c b;
        escapes = escape-IsPiece c b;
      })
      | inr kept ↦
          (let (clean, plain) = clean_of_kept c kept in
            rw kept (record {
              some_read = omega arith;
              inside = omega arith;
              decoded = λ t. unescape-cons c t plain;
              clean = rw clean refl;
              escapes = kept-IsPiece c plain;
            }))
    ]

encode_of-Piece :
    (c : ℕ) (str : Text) (o : Option ℕ)
    → IsBytes (c ∷ str)
    → ((n : ℕ) → o ≡ some n → 1 < n → all_high n (c ∷ str) ≡ true)
    → Piece (c ∷ str) (encode_of (c ∷ str) o)
unfolding encode_of
encode_of-Piece c str none b h = escape_or_copy-Piece c str b.0
encode_of-Piece c str (some n) b h = elim (Bool-cases (ltb 1 n)) [
  | inl long ↦
      (let high = h n refl (ltb→lt 1 n long) in
        rw long (record {
          some_read = omega (arith, ltb→lt 1 n long);
          inside = (high_sequence n (c ∷ str) [] b high).0;
          decoded = λ t. (high_sequence n (c ∷ str) t b high).1;
          clean = (high_sequence n (c ∷ str) [] b high).2;
          escapes = high-IsPiece n (c ∷ str) b high;
        }))
  | inr short ↦ rw short (escape_or_copy-Piece c str b.0)
]

encode_char-Piece :
    (c : ℕ) (str : Text) → IsBytes (c ∷ str) → Piece (c ∷ str) (encode_char (c ∷ str))
unfolding encode_char
encode_char-Piece c str b = encode_of-Piece c str _ b (valid_length (c ∷ str))

-- The encoding of a text, whatever the room: what the loop returns where the room holds it and its NUL.
record Encoding (fuel : ℕ) (str : Text) : Type 0 where
  encoded : Text
  returned : (room : ℕ) → encode_loop fuel str room ≡ ended encoded room
  read_back : unescape encoded ≡ str
  clean : all is_clean encoded ≡ true

unescape_nil : unescape [] ≡ []
unfolding unescape
unescape_nil = refl

length-drop : (n : ℕ) (s : Text) → length (drop n s) ≡ length s - n
length-drop zero s = omega arith
length-drop (suc n) [] = omega arith
length-drop (suc n) (c ∷ s) = omega (arith, length-drop n s)

encode_loop-Encoding : (fuel : ℕ) (str : Text) → length str < fuel → IsBytes str → Encoding fuel str
unfolding encode_loop
encode_loop-Encoding zero str h b = elim h [ ]
encode_loop-Encoding (suc fuel) [] h b = record {
  encoded = [];
  returned = ended_nil;
  read_back = unescape_nil;
  clean = refl;
}
encode_loop-Encoding (suc fuel) (c ∷ str) h b =
    let w = encode_char (c ∷ str) in
    let r = encode_char-Piece c str b in
    let later =
      encode_loop-Encoding fuel (drop w.1 (c ∷ str))
        (omega (arith, r.some_read, length-drop w.1 (c ∷ str))) (IsBytes-drop w.1 (c ∷ str) b) in
    record {
      encoded = w.0 ++ later.encoded;
      returned = λ room.
          ap
            (λ t.
              if ltb room (length w.0)
              then invalid
              else if get_or w.0 0 0 == b'\\' && room == length w.0
              then overrun
              else after_writing w.0 t)
            (later.returned (room - length w.0))
          ∙ ended-append w.0 later.encoded room r.escapes;
      read_back =
          r.decoded later.encoded
          ∙ ap (λ t. take w.1 (c ∷ str) ++ t) later.read_back
          ∙ take-append-drop w.1 (c ∷ str);
      clean = all-append is_clean w.0 later.encoded r.clean later.clean;
    }

-- Every text of bytes has one encoding, which encode_devnode_name writes exactly when the buffer has
-- room for it and its NUL. Where it has not, the call is -EINVAL, but for a buffer that ends with the
-- last byte of an escape of the encoding: then the byte behind the buffer is overwritten. Unescaping
-- gives the text back, so no two names are encoded alike, and the encoding holds nothing but
-- whitelisted bytes, backslashes and bytes from 128 on.
pub encode_devnode_name_lem :
    (str : Text)
    → IsBytes str
    → (e : Text) × ((len : ℕ)
        → encode_devnode_name (some str) len ≡ (
            if ltb (length e) len
            then wrote e
            else if leb 4 len && backslash_at e (len - 4)
            then overrun
            else invalid))
      × (unescape e ≡ str)
      × (all is_clean e ≡ true)
unfolding encode_devnode_name ended
encode_devnode_name_lem str b =
    let whole = encode_loop-Encoding (suc (length str)) str (omega arith) b in
    (whole.encoded, whole.returned, whole.read_back, whole.clean)
