-- ===== src/Device/Descriptors.antt =====
-- path_to_fd of utils.c: the descriptor that the process has for a file.
use libudev_devd.Common.{
  ℕ, zero, suc, ◌+◌, ◌≤◌, ◌<◌, ◌≡◌, ap, ◌∙◌, ◌⊎◌, Bool, false, ◌&&◌, Option, none, some, List, [],
  ◌∷◌, Text, text_eq, ==_iff, ◌==◌, if◌then◌else◌, arith, Bool-cases, inl, inr,
}

-- A `struct filestat` of libprocstat.
pub record FileUse : Type 0 where
  pub fs_uflags : ℕ
  pub is_vnode : Bool
  pub fs_path : Option Text
  pub fs_fd : ℕ

unfoldable pub is_use_of : Text → FileUse → Bool
is_use_of path fst =
    fst.fs_uflags == 0
    && fst.is_vnode
    && elim fst.fs_path [ none ↦ false | some p ↦ text_eq p path ]

-- STAILQ_FOREACH with HAVE_LIBPROCSTAT_H; an empty list where the process or its files cannot be had.
unfoldable pub find_use : Text → List FileUse → Option ℕ
unfolding is_use_of
find_use path [] = none
find_use path (fst ∷ head) =
    let rest = find_use path head in if is_use_of path fst then some fst.fs_fd else rest

-- What fstat answers: EBADF, another error, or st_rdev.
pub data Answer : Type 0 where
  closed refused : Answer
  rdev : ℕ → Answer

abbrev pub max_fd : ℕ
max_fd = 128

-- A round of the loop without HAVE_LIBPROCSTAT_H, with what the rounds behind it give.
unfoldable pub fd_round : ℕ → ℕ → Answer → Option ℕ → Option ℕ
fd_round wanted fd closed rest = rest
fd_round wanted fd refused rest = none
fd_round wanted fd (rdev n) rest = if n == wanted then some fd else rest

unfoldable pub fd_loop : ℕ → (ℕ → Answer) → ℕ → ℕ → Option ℕ
unfolding fd_round
fd_loop wanted fstat fd zero = none
fd_loop wanted fstat fd (suc left) =
    fd_round wanted fd (fstat fd) (fd_loop wanted fstat (suc fd) left)

-- `stat` is st_rdev of the path, none where stat fails.
unfoldable pub path_to_fd : Option ℕ → (ℕ → Answer) → Option ℕ
unfolding fd_loop
path_to_fd none fstat = none
path_to_fd (some wanted) fstat = fd_loop wanted fstat 0 max_fd

round-found :
    (wanted fd : ℕ) (a : Answer) (rest : Option ℕ) (found : ℕ)
    → fd_round wanted fd a rest ≡ some found
    → ((found ≡ fd) × (a ≡ rdev wanted)) ⊎ (rest ≡ some found)
unfolding fd_round
round-found wanted fd closed rest found h = inr h
round-found wanted fd refused rest found h = absurd (ground arith)
round-found wanted fd (rdev n) rest found h = elim (Bool-cases (n == wanted)) [
  | inl hit ↦ inl (ground arith, ap rdev ((==_iff n wanted).0 hit))
  | inr miss ↦ inr (ground arith)
]

loop-found :
    (wanted : ℕ) (fstat : ℕ → Answer) (fd left found : ℕ)
    → fd_loop wanted fstat fd left ≡ some found
    → (fd ≤ found) × (found < fd + left) × (fstat found ≡ rdev wanted)
unfolding fd_loop
loop-found wanted fstat fd zero found h = absurd (ground arith)
loop-found wanted fstat fd (suc left) found h =
    elim (round-found wanted fd (fstat fd) (fd_loop wanted fstat (suc fd) left) found h) [
      | inl (here, same) ↦ (omega arith, omega arith, ap fstat here ∙ same)
      | inr later ↦
          let (above, below, same) = loop-found wanted fstat (suc fd) left found later in
          (omega arith, omega arith, same)
    ]

-- A descriptor that path_to_fd finds without libprocstat is below MAX_FD and is of the device number
-- that the path has.
pub path_to_fd-rdev :
    (wanted : ℕ) (fstat : ℕ → Answer) (found : ℕ)
    → path_to_fd (some wanted) fstat ≡ some found
    → (found < max_fd) × (fstat found ≡ rdev wanted)
unfolding path_to_fd
path_to_fd-rdev wanted fstat found h =
    let (above, below, same) = loop-found wanted fstat 0 max_fd found h in (below, same)
