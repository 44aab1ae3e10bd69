-- ===== src/Scandir.antt =====
-- scandir_recursive of utils.c: the walk over a directory with a path buffer of a fixed size.
use libudev_devd.Common.{
  ℕ, ◌+◌, ◌-◌, ◌<◌, ◌≡◌, Bool, true, false, ◌||◌, [], ◌∷◌, ◌++◌, Text, codes, text_eq, ltb,
  if◌then◌else◌, length, length-append, Status, ok, failed, and_then, and_then-keeps, arith,
  Bool-cases, inl, inr,
}

-- The types of directory entries that the callbacks tell apart.
pub data EntryType : Type 0 where
  directory symlink chardev other : EntryType

-- What lies behind a name, if it is a directory: opendir may fail, with ENOMEM or another errno.
mutual
  pub data Dir : Type 0 where
    opened : Entries → Dir
    no_memory : Dir
    refused : Dir

  pub data Entries : Type 0 where
    end : Entries
    leaf : Text → EntryType → Entries → Entries
    subdir : Text → Dir → Entries → Entries

-- A callback works on a state of its own, and stops the walk with a negative result.
abbrev pub Callback : Type 0 → Type 0
Callback S = Text → EntryType → S → S × Status

-- "." and ".."
unfoldable pub is_dots : Text → Bool
is_dots name = text_eq name (codes ".") || text_eq name (codes "..")

-- The path up to `off`, and `rem`. The recursion is on what opendir and readdir give.
unfoldable mutual
  unfolding is_dots

  pub scandir_sub : {S : Type 0} → Bool → Callback S → Dir → Text → ℕ → S → S × Status
  scandir_sub recursive cb (opened es) path rem s = scan_entries recursive cb es path rem s
  scandir_sub recursive cb no_memory path rem s = (s, failed)
  scandir_sub recursive cb refused path rem s = (s, ok)

  pub scan_entries : {S : Type 0} → Bool → Callback S → Entries → Text → ℕ → S → S × Status
  scan_entries recursive cb end path rem s = (s, ok)
  scan_entries recursive cb (leaf name type es) path rem s =
      let rest = scan_entries recursive cb es path rem in
      if is_dots name || ltb rem (length name)
      then rest s
      else and_then (cb (path ++ name) type s) rest
  scan_entries recursive cb (subdir name dir es) path rem s =
      let rest = scan_entries recursive cb es path rem in
      let below =
        scandir_sub recursive cb dir (path ++ (name ++ b'/' ∷ [])) (rem - length name - 1) s in
      if is_dots name || ltb rem (length name)
      then rest s
      else if recursive
      then (if ltb (rem - length name) 1 then (s, ok) else and_then below rest)
      else and_then (cb (path ++ name) directory s) rest

-- `path` holds the root directory with its slash, in a buffer of `len` bytes.
unfoldable pub scandir_recursive :
    {S : Type 0} → Bool → Callback S → Dir → Text → ℕ → S → S × Status
scandir_recursive recursive cb root path len s =
    scandir_sub recursive cb root path (len - length path - 1) s

-- What a callback keeps on every path that the buffer holds with its NUL.
abbrev pub Keeps : {S : Type 0} → (S → Type 0) → ℕ → Callback S → Type 0
Keeps {S} P len cb =
    (path : Text) (type : EntryType) (s : S) → length path < len → P s → P (cb path type s).0

joined_fits :
    (path name : Text) (rem len : ℕ)
    → (is_dots name || ltb rem (length name)) ≡ false
    → length path + rem < len
    → length (path ++ name) < len
joined_fits path name rem len taken fits = ground (arith, length-append path name)

below_fits :
    (path name : Text) (rem len : ℕ)
    → (is_dots name || ltb rem (length name)) ≡ false
    → ltb (rem - length name) 1 ≡ false
    → length path + rem < len
    → length (path ++ (name ++ b'/' ∷ [])) + (rem - length name - 1) < len
below_fits path name rem len taken room fits =
    ground (arith, length-append path (name ++ b'/' ∷ []), length-append name (b'/' ∷ []))

mutual
  unfolding scandir_sub scan_entries

  sub-keeps :
      {S : Type 0} (P : S → Type 0) (recursive : Bool) (cb : Callback S) (len : ℕ)
      (keeps : Keeps P len cb) (dir : Dir) (path : Text) (rem : ℕ) (s : S)
      → length path + rem < len
      → P s
      → P (scandir_sub recursive cb dir path rem s).0
  sub-keeps P r cb len keeps (opened es) path rem s fits h =
      entries-keeps P r cb len keeps es path rem s fits h
  sub-keeps P r cb len keeps no_memory path rem s fits h = h
  sub-keeps P r cb len keeps refused path rem s fits h = h

  entries-keeps :
      {S : Type 0} (P : S → Type 0) (recursive : Bool) (cb : Callback S) (len : ℕ)
      (keeps : Keeps P len cb) (es : Entries) (path : Text) (rem : ℕ) (s : S)
      → length path + rem < len
      → P s
      → P (scan_entries recursive cb es path rem s).0
  entries-keeps P r cb len keeps end path rem s fits h = h
  entries-keeps P r cb len keeps (leaf name type es) path rem s fits h =
      elim (Bool-cases (is_dots name || ltb rem (length name))) [
        | inl out ↦ rw out (entries-keeps P r cb len keeps es path rem s fits h)
        | inr taken ↦ rw taken (
            and_then-keeps P (cb (path ++ name) type s) _
              (keeps (path ++ name) type s (joined_fits path name rem len taken fits) h)
              (λ t k. entries-keeps P r cb len keeps es path rem t fits k))
      ]
  entries-keeps P true cb len keeps (subdir name dir es) path rem s fits h =
      elim (Bool-cases (is_dots name || ltb rem (length name))) [
        | inl out ↦ rw out (entries-keeps P true cb len keeps es path rem s fits h)
        | inr taken ↦ rw taken (elim (Bool-cases (ltb (rem - length name) 1)) [
          | inl full ↦ rw full h
          | inr room ↦ rw room (
              and_then-keeps P _ _
                (sub-keeps P true cb len keeps dir (path ++ (name ++ b'/' ∷ []))
                  (rem - length name - 1) s (below_fits path name rem len taken room fits) h)
                (λ t k. entries-keeps P true cb len keeps es path rem t fits k))
        ])
      ]
  entries-keeps P false cb len keeps (subdir name dir es) path rem s fits h =
      elim (Bool-cases (is_dots name || ltb rem (length name))) [
        | inl out ↦ rw out (entries-keeps P false cb len keeps es path rem s fits h)
        | inr taken ↦ rw taken (
            and_then-keeps P (cb (path ++ name) directory s) _
              (keeps (path ++ name) directory s (joined_fits path name rem len taken fits) h)
              (λ t k. entries-keeps P false cb len keeps es path rem t fits k))
      ]

-- Whatever a callback keeps when it is called with a path that fits into `len` bytes with its NUL is
-- kept by scandir_recursive with a buffer of `len` bytes that holds the root, recursive or not,
-- whatever the directories hold and however deep they are.
pub scandir_recursive-keeps :
    {S : Type 0} (P : S → Type 0) (recursive : Bool) (cb : Callback S) (root : Dir) (path : Text)
    (len : ℕ) (s : S)
    → ((path : Text) (type : EntryType) (s : S) → length path < len → P s → P (cb path type s).0)
    → length path < len
    → P s
    → P (scandir_recursive recursive cb root path len s).0
unfolding scandir_recursive
scandir_recursive-keeps P recursive cb root path len s keeps fits h =
    sub-keeps P recursive cb len keeps root path (len - length path - 1) s (omega arith) h
