-- ===== src/Monitor/Pipe.antt =====
-- pipe2 of utils.c, for systems whose C library lacks it; udev_monitor_new_from_netlink calls it.
use libudev_devd.Common.{
  ℕ, ◌≡◌, refl, Bool, true, false, ◌&&◌, not, Option, none, some, ◌==◌, if◌then◌else◌, bit_and,
  arith,
}

-- A descriptor of the pipe, with the flags that fcntl sets.
pub record Descriptor : Type 0 where
  pub number : ℕ
  pub cloexec : Bool
  pub nonblock : Bool

-- `flags & mask`
unfoldable pub has_flag : ℕ → ℕ → Bool
has_flag flags mask = not (bit_and flags mask == 0)

-- A call of fcntl that sets a flag; `works` is whether it succeeds, which the code does not ask.
unfoldable pub set_cloexec : Bool → Descriptor → Descriptor
set_cloexec works d = if works then record d { cloexec = true } else d

unfoldable pub set_nonblock : Bool → Descriptor → Descriptor
set_nonblock works d = if works then record d { nonblock = true } else d

-- What the calls for one of the two descriptors make of it. The masks are O_CLOEXEC and O_NONBLOCK, and
-- `works` tells whether a call of fcntl for the descriptor succeeds; its second argument is whether it
-- is F_SETFL.
unfoldable pub set_flags : (o_cloexec o_nonblock flags : ℕ) → (ℕ → Bool → Bool) → ℕ → Descriptor
unfolding has_flag set_cloexec set_nonblock
set_flags o_cloexec o_nonblock flags works fd =
    let d : Descriptor = record { number = fd; cloexec = false; nonblock = false } in
    let d' = if has_flag flags o_cloexec then set_cloexec (works fd false) d else d in
    if has_flag flags o_nonblock then set_nonblock (works fd true) d' else d'

set_flags_lem :
    (o_cloexec o_nonblock flags : ℕ) (works : ℕ → Bool → Bool) (fd : ℕ)
    → let d = set_flags o_cloexec o_nonblock flags works fd in
      (d.cloexec ≡ (has_flag flags o_cloexec && works fd false))
      × (d.nonblock ≡ (has_flag flags o_nonblock && works fd true))
      × (d.number ≡ fd)
unfolding set_flags
set_flags_lem o_cloexec o_nonblock flags works fd = ground arith

-- `made` is what pipe(2) gives.
unfoldable pub pipe2 :
    Option (ℕ × ℕ)
    → (o_cloexec o_nonblock flags : ℕ) → (ℕ → Bool → Bool)
    → Option (Descriptor × Descriptor)
unfolding set_flags
pipe2 none o_cloexec o_nonblock flags works = none
pipe2 (some (a, b)) o_cloexec o_nonblock flags works =
    some
      (set_flags o_cloexec o_nonblock flags works a, set_flags o_cloexec o_nonblock flags works b)

-- A descriptor of the replacement has a flag exactly where the caller asked for it and the call of
-- fcntl for it succeeded; pipe2 reports success wherever pipe(2) does, also where that call failed.
pub pipe2_lem :
    (a b o_cloexec o_nonblock flags : ℕ) (works : ℕ → Bool → Bool)
    → (c : Descriptor) × (d : Descriptor) × (pipe2 (some (a, b)) o_cloexec o_nonblock flags works
        ≡ some (c, d))
      × (c.number ≡ a)
      × (d.number ≡ b)
      × (c.cloexec ≡ (has_flag flags o_cloexec && works a false))
      × (d.cloexec ≡ (has_flag flags o_cloexec && works b false))
      × (c.nonblock ≡ (has_flag flags o_nonblock && works a true))
      × (d.nonblock ≡ (has_flag flags o_nonblock && works b true))
unfolding pipe2
pipe2_lem a b o_cloexec o_nonblock flags works =
    let (ca, na, xa) = set_flags_lem o_cloexec o_nonblock flags works a in
    let (cb, nb, xb) = set_flags_lem o_cloexec o_nonblock flags works b in
    (_, _, refl, xa, xb, ca, cb, na, nb)
