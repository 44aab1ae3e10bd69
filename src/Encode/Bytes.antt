-- ===== src/Encode/Bytes.antt =====
-- Facts about single bytes, checked for each of the 256.
use libudev_devd.Common.{
  false, Bool-cases, inl, inr, ℕ, zero, suc, ◌+◌, ◌-◌, ◌*◌, ◌/◌, ◌%◌, ap, all, ◌≤◌, ◌<◌, ◌≡◌, ◌≢◌,
  refl, Bool, true, ◌||◌, not, none, [], ◌∷◌, ◌++◌, Text, ltb, leb, ◌==◌, ==_iff, if◌then◌else◌,
  arith, bit_and,
}
use libudev_devd.Encode.{whitelisted_char_for_devnode, escape, hex_digit}

-- A test tried on the numbers `start`, …, `start + count - 1`.
unfoldable pub tried_from : (test : ℕ → Bool) (count start : ℕ) → Bool
tried_from test zero start = true
tried_from test (suc count) start =
    let more = tried_from test count (suc start) in if test start then more else false

tried_from_at :
    (test : ℕ → Bool) (count start x : ℕ)
    → tried_from test count start ≡ true
    → start ≤ x
    → x < start + count
    → test x ≡ true
unfolding tried_from
tried_from_at test zero start x good above inside = absurd (omega arith)
tried_from_at test (suc count) start x good above inside = elim (Bool-cases (x == start)) [
  | inl here ↦ rw ((==_iff x start).0 here) (ground arith)
  | inr there ↦ tried_from_at test count (suc start) x (ground arith) (ground arith) (omega arith)
]

-- What holds of every byte by evaluation.
pub byte_by_byte :
    (test : ℕ → Bool) (b : ℕ) → tried_from test 256 0 ≡ true → b < 256 → test b ≡ true
byte_by_byte test b good inside = tried_from_at test 256 0 b good (omega arith) (omega arith)

high_table : tried_from (λ b. not (bit_and b 0x80 == 0x80) || leb 128 b) 256 0 ≡ true
unfolding tried_from
high_table = refl

-- A byte with its highest bit set is at least 128.
pub high-ge : (b : ℕ) → b < 256 → (bit_and b 0x80 == 0x80) ≡ true → 128 ≤ b
high-ge b h e =
    ground (arith, byte_by_byte (λ b. not (bit_and b 0x80 == 0x80) || leb 128 b) b high_table h)

-- The value of a hexadecimal digit, as the escapes use them.
unfoldable pub hex_value : ℕ → ℕ
hex_value d = if ltb d b'a' then d - b'0' else d - b'a' + 10

-- The inverse of the escapes: `\xNN` is the byte NN, every other byte is itself.
unfoldable pub unescape : Text → Text
unescape [] = []
unescape (c ∷ []) = c ∷ []
unescape (c ∷ x ∷ []) = c ∷ unescape (x ∷ [])
unescape (c ∷ x ∷ h ∷ []) = c ∷ unescape (x ∷ h ∷ [])
unescape (c ∷ x ∷ h ∷ l ∷ s) =
    let escaped = (hex_value h * 16 + hex_value l) ∷ unescape s in
    let plain = c ∷ unescape (x ∷ h ∷ l ∷ s) in if c == b'\\' then escaped else plain

-- What may stand in an encoded name: a whitelisted byte, a backslash, or a byte of a longer
-- UTF-8 sequence.
unfoldable pub is_clean : ℕ → Bool
is_clean c = whitelisted_char_for_devnode c none || c == b'\\' || leb 128 c

escape_table :
    tried_from
      (λ c. hex_value (hex_digit (c / 16)) * 16 + hex_value (hex_digit (c % 16)) == c)
      256
      0
    ≡ true
unfolding tried_from hex_value hex_digit
escape_table = refl

clean_table : tried_from (λ c. all is_clean (escape c)) 256 0 ≡ true
unfolding tried_from is_clean escape whitelisted_char_for_devnode
clean_table = refl

pub escape-clean : (c : ℕ) → c < 256 → all is_clean (escape c) ≡ true
escape-clean c h = byte_by_byte (λ c. all is_clean (escape c)) c clean_table h

pub unescape-escape : (c : ℕ) (s : Text) → c < 256 → unescape (escape c ++ s) ≡ c ∷ unescape s
unfolding unescape escape
unescape-escape c s h =
    ap (λ t. t ∷ unescape s)
      ((==_iff _ c).0 (
        byte_by_byte
          (λ c. hex_value (hex_digit (c / 16)) * 16 + hex_value (hex_digit (c % 16)) == c) c
          escape_table h))

pub unescape-cons : (c : ℕ) (s : Text) → c ≢ b'\\' → unescape (c ∷ s) ≡ c ∷ unescape s
unfolding unescape
unescape-cons c [] h = refl
unescape-cons c (x ∷ []) h = refl
unescape-cons c (x ∷ h ∷ []) k = refl
unescape-cons c (x ∷ h ∷ l ∷ s) k = ground arith
