-- ===== src/Device/Devnum.antt =====
-- From device numbers to syspaths and back: get_syspath_by_devnum of udev-utils.c, devname_r of
-- utils.c, and udev_device_get_devnum of udev-device.c.
use libudev_devd.Common.{
  ℕ, zero, suc, ◌+◌, ◌-◌, ◌≤◌, ◌<◌, ◌≡◌, refl, ap, sym, ◌∙◌, Bool, true, false, ◌&&◌, ◌||◌, not,
  Option, none, some, List, [], ◌∷◌, ◌++◌, Text, codes, ltb, ◌==◌, ==_iff, if◌then◌else◌, length,
  take, drop, min, all, Status, ok, failed, and_then, and_then-keeps, arith, Bool-cases,
  Option-cases, inl, inr, ltb→lt,
}
use libudev_devd.Str.Copy.{strlcpy, strlcpy_lem}
use libudev_devd.Str.Paths.{strbase, get_devpath_by_syspath}
use libudev_devd.Scandir.{
  Dir, EntryType, symlink, chardev, Callback, scandir_recursive, scandir_recursive-keeps,
}
use libudev_devd.Subsystem.{Platform, SubsystemConfig, subsystems, device_entries, bus_entries}
use libudev_devd.Devd.Dbsf.{print_hex_from}
pub mod Laws

abbrev pub dev_path_max : ℕ
dev_path_max = 80

-- `struct stat`, as far as it is read.
pub record FileStat : Type 0 where
  pub st_type : EntryType
  pub st_rdev : ℕ

unfoldable pub is_lnk : EntryType → Bool
is_lnk symlink = true
is_lnk _ = false

unfoldable pub is_chr : EntryType → Bool
is_chr chardev = true
is_chr _ = false

-- `stat(path, &st) == 0 && st.ST_RDEV == devnum`
unfoldable pub has_rdev : Option FileStat → ℕ → Bool
has_rdev none devnum = false
has_rdev (some st) devnum = st.st_rdev == devnum

-- "%#jx"
unfoldable pub print_devnum : ℕ → Text
unfolding print_hex_from
print_devnum dev = if dev == 0 then codes "0" else codes "0x" ++ print_hex_from 16 1 dev []

-- The directory part of a syspath; `none` where the assertion fails.
unfoldable pub link_dir : Text → Option Text
unfolding strbase
link_dir syspath = elim (strbase syspath) [
  | none ↦ none
  | some linkbase ↦ some (take (min (length syspath - length linkbase) dev_path_max) syspath)
]

-- `directory` is what opendir and readdir give for a path, and `nodev` the number NODEV.
module _ (p : Platform) (stat lstat : Text → Option FileStat) (directory : Text → Dir)
    (nodev path_max : ℕ) where
  unfoldable pub devname_cb : ℕ → ℕ → Callback Text
  unfolding is_chr has_rdev strlcpy
  devname_cb dev len path type buf =
      if is_chr type && has_rdev (lstat path) dev
      then ((strlcpy buf (drop 5 path) len).0, failed)
      else (buf, ok)

  -- devname_r for S_IFCHR, the type of its only call, with a buffer that is not empty.
  unfoldable pub devname_r : ℕ → ℕ → Text → Text
  unfolding devname_cb print_devnum scandir_recursive
  devname_r dev len buf =
      if dev == nodev
      then (strlcpy buf (codes "#NODEV") len).0
      else let (found, status) =
          scandir_recursive true (devname_cb dev len) (directory (codes "/dev/")) (codes "/dev/")
            path_max buf in
        elim status [ ok ↦ take (len - 1) (codes "#C:" ++ print_devnum dev) | failed ↦ found ]

  unfoldable pub get_syspath_by_devnum_cb : ℕ → Option Text → Callback Text
  unfolding is_lnk has_rdev strlcpy
  get_syspath_by_devnum_cb devnum pattern path type devpath =
      if is_lnk type && p.fnmatch pattern (some path) && has_rdev (stat path) devnum
      then ((strlcpy devpath path dev_path_max).0, failed)
      else (devpath, ok)

  -- The search for a link in the directory of an entry's syspath.
  unfoldable pub search_links : ℕ → Option Text → Option Text → Text → Text × Status
  unfolding get_syspath_by_devnum_cb scandir_recursive
  search_links devnum syspath none devpath = (devpath, failed)
  search_links devnum syspath (some linkdir) devpath =
      scandir_recursive false (get_syspath_by_devnum_cb devnum syspath) (directory linkdir) linkdir
        dev_path_max devpath

  -- With the directory of the entry's syspath.
  unfoldable pub below_syspath : ℕ → Option Text → Text → Text × Status
  unfolding search_links link_dir
  below_syspath devnum none devpath = (devpath, failed)
  below_syspath devnum (some syspath) devpath =
      search_links devnum (some syspath) (link_dir syspath) devpath

  -- A round for the symlink and the syspath of an entry, which breaks the loop where it is `failed`.
  unfoldable pub link_round : ℕ → Option Text → Option Text → Text → Text × Status
  unfolding below_syspath
  link_round devnum none syspath devpath = (devpath, ok)
  link_round devnum (some link) syspath devpath =
      if p.fnmatch (some link) (some devpath)
      then below_syspath devnum syspath devpath
      else (devpath, ok)

  unfoldable pub resolve_links : ℕ → List SubsystemConfig → Text → Text × Status
  unfolding link_round
  resolve_links devnum [] devpath = (devpath, ok)
  resolve_links devnum (sc ∷ rest) devpath =
      and_then (link_round devnum sc.symlink sc.syspath devpath) (resolve_links devnum rest)

  -- `memory` is whether strdup has memory.
  unfoldable pub get_syspath_by_devnum : Bool → ℕ → Option Text
  unfolding devname_r resolve_links has_rdev
  get_syspath_by_devnum memory devnum =
      let devpath = codes "/dev/" ++ devname_r devnum (dev_path_max - 5) [] in
      if has_rdev (stat devpath) devnum
      then (if memory then some (resolve_links devnum (subsystems p) devpath).0 else none)
      else none

  -- makedev(0, 0) is 0.
  unfoldable pub devnum_of : Option FileStat → ℕ
  unfolding is_chr
  devnum_of none = 0
  devnum_of (some st) = if is_chr st.st_type then st.st_rdev else 0

  unfoldable pub udev_device_get_devnum : Text → ℕ
  unfolding devnum_of get_devpath_by_syspath
  udev_device_get_devnum syspath = elim (get_devpath_by_syspath syspath) [
    | none ↦ 0
    | some devpath ↦ devnum_of (stat devpath)
  ]
