-- ===== src/Str/Copy.antt =====
-- strlcpy, strlcat and strchrnul of utils.c, for systems whose C library lacks them.
use libudev_devd.Common.{
  ℕ, zero, suc, ◌+◌, ◌-◌, ◌<◌, min, ◌≡◌, refl, ap, ◌↔◌, sym, ◌∙◌, [], ◌∷◌, ◌++◌, arith, Text,
  before, ◌==◌, if◌then◌else◌, length, take, length-append, length-take, take-eq_self,
}

-- The pointer that strchrnul(p, c) returns, as the text that it points to.
unfoldable pub strchrnul : Text → ℕ → Text
strchrnul [] c = []
strchrnul (x ∷ p) c = if x == c then x ∷ p else strchrnul p c

-- `while (--nleft != 0) if ((*dst++ = *src++) == '\0') break;`, entered with nleft ≠ 0: what dst
-- holds when its NUL is written, by the copy or behind the loop.
copy_loop : ℕ → Text → Text
copy_loop zero src = []
copy_loop (suc zero) src = []
copy_loop (suc (suc n)) [] = []
copy_loop (suc (suc n)) (c ∷ src) = c ∷ copy_loop (suc n) src

-- The text that `dst` holds afterwards, if `dsize` is not 0, and the value returned. With `dsize` 0
-- the buffer is left as it was.
unfoldable pub strlcpy : Text → Text → ℕ → Text × ℕ
unfolding copy_loop
strlcpy dst src dsize = (if dsize == 0 then dst else copy_loop dsize src, length src)

-- `while (n-- != 0 && *dst != '\0') dst++;`: the bytes passed over.
seek_end : ℕ → Text → ℕ
seek_end zero dst = 0
seek_end (suc n) [] = 0
seek_end (suc n) (c ∷ dst) = suc (seek_end n dst)

-- `while (*src != '\0') { if (n != 0) { *dst++ = *src; n--; } src++; }`: the bytes stored.
append_loop : ℕ → Text → Text
append_loop n [] = []
append_loop zero (c ∷ src) = append_loop zero src
append_loop (suc n) (c ∷ src) = c ∷ append_loop n src

-- `dst` afterwards and the value returned. Without a NUL in the first `dsize` bytes of `dst`,
-- nothing is written.
unfoldable pub strlcat : Text → Text → ℕ → Text × ℕ
unfolding seek_end append_loop
strlcat dst src dsize =
    let dlen = seek_end dsize dst in
    if dsize - dlen == 0
    then (dst, dlen + length src)
    else (take dlen dst ++ append_loop (dsize - dlen - 1) src, dlen + length src)

copy_loop-eq-take : (n : ℕ) (src : Text) → copy_loop (suc n) src ≡ take n src
unfolding copy_loop
copy_loop-eq-take zero src = refl
copy_loop-eq-take (suc n) [] = refl
copy_loop-eq-take (suc n) (c ∷ src) = ap (λ r. c ∷ r) (copy_loop-eq-take n src)

append_loop-eq-take : (n : ℕ) (src : Text) → append_loop n src ≡ take n src
unfolding append_loop
append_loop-eq-take zero [] = refl
append_loop-eq-take (suc n) [] = refl
append_loop-eq-take zero (c ∷ src) = append_loop-eq-take zero src
append_loop-eq-take (suc n) (c ∷ src) = ap (λ r. c ∷ r) (append_loop-eq-take n src)

seek_end-eq-min : (n : ℕ) (dst : Text) → seek_end n dst ≡ min n (length dst)
unfolding seek_end
seek_end-eq-min zero dst = omega arith
seek_end-eq-min (suc n) [] = omega arith
seek_end-eq-min (suc n) (c ∷ dst) = omega (arith, seek_end-eq-min n dst)

-- Into a buffer of `suc n` bytes strlcpy puts the first `n` bytes of the source, always terminated
-- within the buffer, and returns the source's length; the copy is whole exactly when that length
-- is below the size.
pub strlcpy_lem :
    (dst src : Text) (n : ℕ)
    → let (out, ret) = strlcpy dst src (suc n) in
      (out ≡ take n src) × (length out < suc n) × (ret ≡ length src) × ((ret < suc n) ↔ (out ≡ src))
unfolding strlcpy
strlcpy_lem dst src n =
    let e : (strlcpy dst src (suc n)).0 ≡ take n src = ground (arith, copy_loop-eq-take n src) in
    (
      e,
      omega (arith, ap length e, length-take n src),
      refl,
      (
        λ h. e ∙ take-eq_self n src (omega arith),
        λ h. omega (arith, ap length (sym e ∙ h), length-take n src),
      ),
    )

strlcat_out :
    (dst src : Text) (dsize : ℕ)
    → length dst < dsize
    → ((strlcat dst src dsize).0 ≡ dst ++ take (dsize - length dst - 1) src)
      × ((strlcat dst src dsize).1 ≡ length dst + length src)
unfolding strlcat
strlcat_out dst src dsize h =
    let room = dsize - length dst - 1 in
    ground (
      arith,
      append_loop-eq-take room src,
      seek_end-eq-min dsize dst,
      take-eq_self (length dst) dst,
    )

-- strlcat into a buffer of `dsize` bytes that holds a terminated text keeps that text, appends as
-- much of the source as fits with a NUL, and returns the length that it tried to create.
pub strlcat_lem :
    (dst src : Text) (dsize : ℕ)
    → length dst < dsize
    → let (out, ret) = strlcat dst src dsize in
      (out ≡ dst ++ take (dsize - length dst - 1) src)
      × (length out < dsize)
      × (ret ≡ length dst + length src)
      × ((ret < dsize) ↔ (out ≡ dst ++ src))
unfolding strlcat
strlcat_lem dst src dsize h =
    let room = dsize - length dst - 1 in
    let e = strlcat_out dst src dsize h in
    (
      e.0,
      omega (arith, ap length e.0, length-append dst (take room src), length-take room src),
      e.1,
      (
        λ k. e.0 ∙ ap (λ t. dst ++ t) (take-eq_self room src (omega (arith, e.1))),
        λ k. omega (
          arith,
          e.1,
          ap length (sym e.0 ∙ k),
          length-append dst (take room src),
          length-append dst src,
          length-take room src,
        ),
      ),
    )

-- A text is its part before the first such byte, and what strchrnul points at.
pub strchrnul_lem : (p : Text) (c : ℕ) → (p ≡ before c p ++ strchrnul p c)
unfolding strchrnul before
strchrnul_lem [] c = refl
strchrnul_lem (x ∷ p) c = ground (arith, strchrnul_lem p c)
