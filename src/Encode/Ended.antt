-- ===== src/Encode/Ended.antt =====
-- How encode_devnode_name ends for a text and a buffer, said without its loop.
use libudev_devd.Common.{
  ℕ, zero, suc, ◌-◌, ◌≡◌, refl, Bool, true, false, ◌&&◌, leb, ◌⊎◌, not, [], ◌∷◌, ◌++◌, Text, ltb,
  ◌==◌, if◌then◌else◌, length, get_or, all, arith, length-append, inl, inr,
}
use libudev_devd.Encode.{Encoded, wrote, invalid, overrun, after_writing}

-- No byte is a backslash.
abbrev pub unescaped : Text → Bool
unescaped s = all (λ c. not (c == b'\\')) s

-- An escape, or bytes of which none is a backslash.
unfoldable pub IsPiece : Text → Type 0
IsPiece [] = Unit
IsPiece (c ∷ s) = ((length s ≡ 3) × (unescaped s ≡ true)) ⊎ (unescaped (c ∷ s) ≡ true)

-- A backslash stands at an index.
unfoldable pub backslash_at : Text → ℕ → Bool
backslash_at [] i = false
backslash_at (c ∷ s) zero = c == b'\\'
backslash_at (c ∷ s) (suc i) = backslash_at s i

backslash_at-append :
    (a b : Text) (i : ℕ)
    → backslash_at (a ++ b) i
      ≡ (if ltb i (length a) then backslash_at a i else backslash_at b (i - length a))
unfolding backslash_at
backslash_at-append [] b i = ground arith
backslash_at-append (c ∷ a) b zero = ground arith
backslash_at-append (c ∷ a) b (suc i) = ground (arith, backslash_at-append a b i)

backslash_at-unescaped : (s : Text) (i : ℕ) → unescaped s ≡ true → backslash_at s i ≡ false
unfolding backslash_at
backslash_at-unescaped [] i h = refl
backslash_at-unescaped (c ∷ s) zero h = ground arith
backslash_at-unescaped (c ∷ s) (suc i) h = ground (arith, backslash_at-unescaped s i)

-- In a piece a backslash stands in front only, and then the piece has four bytes.
piece_backslash :
    (out : Text) (i : ℕ)
    → IsPiece out
    → backslash_at out i ≡ true
    → (i ≡ 0) × (length out ≡ 4) × ((get_or out 0 0 == b'\\') ≡ true)
unfolding backslash_at IsPiece
piece_backslash [] i h k = cc
piece_backslash (c ∷ s) zero (inl h) k = ground arith
piece_backslash (c ∷ s) (suc i) (inl h) k = ground (arith, backslash_at-unescaped s i h.1)
piece_backslash (c ∷ s) i (inr h) k = ground (arith, backslash_at-unescaped (c ∷ s) i h)

piece_front :
    (out : Text)
    → IsPiece out
    → (get_or out 0 0 == b'\\') ≡ true
    → (length out ≡ 4) × (backslash_at out 0 ≡ true)
unfolding backslash_at IsPiece
piece_front [] h k = ground arith
piece_front (c ∷ s) (inl h) k = ground arith
piece_front (c ∷ s) (inr h) k = ground arith

-- How a text ends up in a buffer of `len` bytes: it is written where its NUL has room too. Otherwise
-- the byte behind the buffer is overwritten where the text has an escape whose last byte is the last
-- that fits; every other text is invalid.
unfoldable pub ended : Text → ℕ → Encoded
unfolding backslash_at
ended e len =
    if ltb (length e) len
    then wrote e
    else if leb 4 len && backslash_at e (len - 4)
    then overrun
    else invalid

pub ended-append :
    (out e : Text) (room : ℕ)
    → IsPiece out
    → (if ltb room (length out)
        then invalid
        else if get_or out 0 0 == b'\\' && room == length out
        then overrun
        else after_writing out (ended e (room - length out)))
      ≡ ended (out ++ e) room
unfolding ended after_writing
ended-append out e room h = ground (
  arith,
  length-append out e,
  backslash_at-append out e (room - 4),
  piece_backslash out (room - 4) h,
  piece_front out h,
)

pub ended_nil : (room : ℕ) → (if ltb room 1 then invalid else wrote []) ≡ ended [] room
unfolding ended
ended_nil room = ground (arith, backslash_at-unescaped [] (room - 4))
