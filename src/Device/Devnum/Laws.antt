-- ===== src/Device/Devnum/Laws.antt =====
-- The syspath that get_syspath_by_devnum gives is of the number asked for.
use libudev_devd.Common.{
  ℕ, ◌<◌, ◌≡◌, refl, Bool, true, false, ◌&&◌, Option, none, some, List, [], ◌∷◌, ◌++◌, Text, codes,
  ltb, length, all, and_then-keeps, arith, Bool-cases, inl, inr,
}
use libudev_devd.Str.Copy.{strlcpy, strlcpy_lem}
use libudev_devd.Str.Paths.{strbase}
use libudev_devd.Scandir.{Dir, EntryType, scandir_recursive-keeps}
use libudev_devd.Subsystem.{Platform, SubsystemConfig, subsystems, device_entries, bus_entries}
use libudev_devd.Device.Devnum.{
  dev_path_max, FileStat, is_lnk, has_rdev, link_dir, devname_r, get_syspath_by_devnum_cb,
  search_links, below_syspath, link_round, resolve_links, get_syspath_by_devnum,
}

-- The directory of a link is a path that fits its buffer.
is_short_dir : Option Text → Bool
is_short_dir none = true
is_short_dir (some linkdir) = ltb (length linkdir) dev_path_max

is_short_entry : Option Text → Option Text → Bool
unfolding is_short_dir link_dir
is_short_entry none syspath = true
is_short_entry (some link) none = true
is_short_entry (some link) (some syspath) = is_short_dir (link_dir syspath)

is_short : SubsystemConfig → Bool
unfolding is_short_entry
is_short sc = is_short_entry sc.symlink sc.syspath

all-append :
    (f : SubsystemConfig → Bool) (xs ys : List SubsystemConfig)
    → all f xs ≡ true
    → all f ys ≡ true
    → all f (xs ++ ys) ≡ true
all-append f [] ys h k = k
all-append f (x ∷ xs) ys h k = ground (arith, all-append f xs ys)

devices_short : (have_evdev : Bool) → all is_short (device_entries have_evdev) ≡ true
unfolding is_short device_entries strbase
devices_short true = refl
devices_short false = refl

buses_short :
    (have_hidraw have_devinfo : Bool) → all is_short (bus_entries have_hidraw have_devinfo) ≡ true
unfolding is_short bus_entries
buses_short true true = refl
buses_short true false = refl
buses_short false true = refl
buses_short false false = refl

module _ (p : Platform) (stat lstat : Text → Option FileStat) (directory : Text → Dir)
    (nodev path_max : ℕ) (devnum : ℕ) where
  Names : Text → Type 0
  Names path = has_rdev (stat path) devnum ≡ true

  cb-Names :
      (pattern : Option Text) (path : Text) (type : EntryType) (devpath : Text)
      → length path < dev_path_max
      → Names devpath
      → Names
          (get_syspath_by_devnum_cb p stat lstat directory nodev path_max devnum pattern path type
            devpath).0
  unfolding get_syspath_by_devnum_cb Names
  cb-Names pattern path type devpath fits h =
      elim (Bool-cases
        (is_lnk type && p.fnmatch pattern (some path) && has_rdev (stat path) devnum)) [
          | inl hit ↦
              let (cut, inside, ret, exact) = strlcpy_lem devpath path 79 in
              let whole : (strlcpy devpath path dev_path_max).0 ≡ path = exact.0 (omega arith) in
              rw hit (rw whole (ground arith))
          | inr miss ↦ rw miss h
        ]

  search-Names :
      (pattern linkdir : Option Text) (devpath : Text)
      → is_short_dir linkdir ≡ true
      → Names devpath
      → Names (search_links p stat lstat directory nodev path_max devnum pattern linkdir devpath).0
  unfolding search_links is_short_dir
  search-Names pattern none devpath short h = h
  search-Names pattern (some linkdir) devpath short h =
      scandir_recursive-keeps Names false _ (directory linkdir) linkdir dev_path_max devpath
        (λ path type s fits k. cb-Names pattern path type s fits k) (ground arith) h

  round-Names :
      (symlink syspath : Option Text) (devpath : Text)
      → is_short_entry symlink syspath ≡ true
      → Names devpath
      → Names (link_round p stat lstat directory nodev path_max devnum symlink syspath devpath).0
  unfolding link_round below_syspath is_short_entry
  round-Names none syspath devpath short h = h
  round-Names (some link) none devpath short h =
      elim (Bool-cases (p.fnmatch (some link) (some devpath))) [
        | inl hit ↦ rw hit h
        | inr miss ↦ rw miss h
      ]
  round-Names (some link) (some syspath) devpath short h =
      elim (Bool-cases (p.fnmatch (some link) (some devpath))) [
        | inl hit ↦ rw hit (search-Names (some syspath) (link_dir syspath) devpath short h)
        | inr miss ↦ rw miss h
      ]

  resolve-Names :
      (table : List SubsystemConfig) (devpath : Text)
      → all is_short table ≡ true
      → Names devpath
      → Names (resolve_links p stat lstat directory nodev path_max devnum table devpath).0
  unfolding resolve_links is_short
  resolve-Names [] devpath short h = h
  resolve-Names (sc ∷ table) devpath short h =
      and_then-keeps Names _ _ (round-Names sc.symlink sc.syspath devpath (ground arith) h)
        (λ s k. resolve-Names table s (ground arith) k)

  table_short : all is_short (subsystems p) ≡ true
  unfolding subsystems is_short
  table_short =
      all-append is_short (device_entries p.have_evdev) _ (devices_short p.have_evdev)
        (buses_short p.have_hidraw p.have_devinfo)

  -- A syspath that get_syspath_by_devnum returns names a file of the device number asked for, also
  -- where it is that of a link found in place of the device.
  pub get_syspath_by_devnum-has_rdev :
      (memory : Bool) (syspath : Text)
      → get_syspath_by_devnum p stat lstat directory nodev path_max memory devnum ≡ some syspath
      → has_rdev (stat syspath) devnum ≡ true
  unfolding get_syspath_by_devnum Names
  get_syspath_by_devnum-has_rdev memory syspath e =
      let devpath = codes "/dev/" ++ devname_r p stat lstat directory nodev path_max devnum 75 [] in
      elim (Bool-cases (has_rdev (stat devpath) devnum)) [
        | inl right ↦ ground (arith, resolve-Names (subsystems p) devpath table_short right)
        | inr wrong ↦ ground arith
      ]
