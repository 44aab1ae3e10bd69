-- ===== src/Examples/Lists.antt =====
-- Runs of the lists, of the directory walk and of the scan of an enumerator.
use libudev_devd.Common.{
  ◌≡◌, ◌<◌, refl, ℕ, Bool, true, false, Option, none, some, List, [], ◌∷◌, Text, codes, length,
  if◌then◌else◌, arith, text_eq, Status, ok, failed,
}
use libudev_devd.UdevList.{ListEntry, RbTree, text_lt, udev_list_insert, udev_list_entry_foreach}
use libudev_devd.UdevList.Laws.{IsValid, find-udev_list_insert}
use libudev_devd.UdevList.Walk.{udev_list_entry_foreach_lem}
use libudev_devd.Scandir.{
  Dir, EntryType, opened, end, leaf, subdir, chardev, scandir_recursive, scandir_recursive-keeps,
}
use libudev_devd.Enumerate.{node, leaves, tree, Interface, SystemDevices}
use libudev_devd.Examples.SortedList.{sorted_list}

abbrev plain : Text → ListEntry
plain name = record { name = name; value = none }

abbrev two_entries : List ListEntry
two_entries = plain (codes "/dev/a") ∷ plain (codes "/dev/b") ∷ []

abbrev two_entries-IsValid : IsValid sorted_list two_entries
unfolding text_lt
two_entries-IsValid = ((refl, tt), (tt, tt))

find-udev_list_insert_example :
    (RbTree.find sorted_list
        (udev_list_insert sorted_list true two_entries (codes "/dev/b") (some [])).0
        (codes "/dev/a")
      ≡ (if text_eq (codes "/dev/b") (codes "/dev/a")
          then some (record { name = codes "/dev/b"; value = some [] })
          else RbTree.find sorted_list two_entries (codes "/dev/a")))
    × ((udev_list_insert sorted_list true two_entries (codes "/dev/b") (some [])).1 ≡ ok)
    × (udev_list_insert sorted_list false two_entries (codes "/dev/b") (some [])
        ≡ (two_entries, failed))
find-udev_list_insert_example =
    find-udev_list_insert sorted_list two_entries (codes "/dev/b") (some []) (codes "/dev/a")
      two_entries-IsValid

udev_list_entry_foreach_lem_example : udev_list_entry_foreach sorted_list two_entries ≡ two_entries
udev_list_entry_foreach_lem_example =
    udev_list_entry_foreach_lem sorted_list two_entries two_entries-IsValid

-- A directory with a device and a directory below it.
abbrev small_dev : Dir
small_dev = opened (
    leaf (codes "ums0") chardev
      (subdir (codes "input") (opened (leaf (codes "event0") chardev end)) end))

-- The paths that the callback is called with.
abbrev collect : Text → EntryType → List Text → List Text × Status
collect path type paths = (path ∷ paths, ok)

abbrev AllBelow : ℕ → List Text → Type 0
AllBelow n [] = Unit
AllBelow n (x ∷ xs) = (length x < n) × AllBelow n xs

scandir_recursive-keeps_example :
    AllBelow 16 (scandir_recursive true collect small_dev (codes "/dev/") 16 []).0
scandir_recursive-keeps_example =
    scandir_recursive-keeps (AllBelow 16) true collect small_dev (codes "/dev/") 16 []
      (λ path type s fits h. (fits, h)) (omega arith) tt

abbrev small_system : Option (List Interface) → SystemDevices
small_system interfaces = record {
  dev = small_dev;
  devinfo = some (
      tree (node (record { dd_name = codes "uhub0"; attached = true; dd_location = [] }) leaves)
        leaves);
  interfaces = interfaces;
}

-- Filters that pass nothing but /dev/ums0.
abbrev mouse_passes : Text → Bool
mouse_passes path = text_eq path (codes "/dev/ums0")

abbrev enough : Text → Bool
enough path = true
