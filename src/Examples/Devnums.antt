-- ===== src/Examples/Devnums.antt =====
-- A run of the search for a device number, which ends at a link.
use libudev_devd.Common.{◌≡◌, refl, true, Option, none, some, Text, codes, text_eq, if◌then◌else◌}
use libudev_devd.Str.Copy.{strlcpy}
use libudev_devd.Scandir.{
  Dir, opened, refused, end, leaf, subdir, symlink, chardev, scandir_recursive, scandir_sub,
}
use libudev_devd.Subsystem.{subsystems, device_entries, bus_entries}
use libudev_devd.Device.Devnum.{FileStat, has_rdev, get_syspath_by_devnum}
use libudev_devd.Device.Devnum.Laws.{get_syspath_by_devnum-has_rdev}
use libudev_devd.Examples.Filters.{freebsd}

-- The device and a link to it have the number 7.
abbrev card_stat : Text → Option FileStat
card_stat path =
    if text_eq path (codes "/dev/drm/0")
    then some (record { st_type = chardev; st_rdev = 7 })
    else if text_eq path (codes "/dev/dri/card0")
    then some (record { st_type = chardev; st_rdev = 7 })
    else none

abbrev card_directory : Text → Dir
card_directory path =
    if text_eq path (codes "/dev/")
    then opened (subdir (codes "drm") (opened (leaf (codes "0") chardev end)) end)
    else if text_eq path (codes "/dev/dri/")
    then opened (leaf (codes "card0") symlink end)
    else refused

card_found :
    get_syspath_by_devnum freebsd card_stat card_stat card_directory 0 1024 true 7
    ≡ some (codes "/dev/dri/card0")
unfolding get_syspath_by_devnum scandir_recursive scandir_sub subsystems device_entries bus_entries
    has_rdev strlcpy text_eq
card_found = refl

get_syspath_by_devnum-has_rdev_example : has_rdev (card_stat (codes "/dev/dri/card0")) 7 ≡ true
get_syspath_by_devnum-has_rdev_example =
    get_syspath_by_devnum-has_rdev freebsd card_stat card_stat card_directory 0 1024 7 true
      (codes "/dev/dri/card0") card_found
