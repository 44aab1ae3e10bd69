-- ===== src/Examples/Attributes.antt =====
-- Runs of the lookups in a device and of its chain of parents.
use libudev_devd.Common.{
  ◌≡◌, refl, true, false, none, some, List, [], ◌∷◌, Text, codes, text_eq, if◌then◌else◌, ok,
  failed,
}
use libudev_devd.UdevList.{ListEntry, text_lt}
use libudev_devd.UdevList.Laws.{IsValid}
use libudev_devd.Subsystem.{Platform}
use libudev_devd.Device.Values.{
  udev_device_get_sysattr_value, udev_device_set_sysattr_value, get_sysattr_value-set_sysattr_value,
}
use libudev_devd.Device.Parents.{
  Linked, Searched, udev_device_get_parent_with_subsystem_devtype,
  get_parent_with_subsystem_devtype_lem,
}
use libudev_devd.Examples.SortedList.{sorted_list}

abbrev attributes : List ListEntry
attributes =
    record { name = codes "device"; value = some (codes "0x1") }
    ∷ record { name = codes "vendor"; value = some (codes "0x8086") }
    ∷ []

abbrev attributes-IsValid : IsValid sorted_list attributes
unfolding text_lt
attributes-IsValid = ((refl, tt), (tt, tt))

get_sysattr_value-set_sysattr_value_example :
    let (new, status) =
      udev_device_set_sysattr_value sorted_list true attributes
        (codes "class")
        (some (codes "3")) in
    (status ≡ ok)
    × (udev_device_get_sysattr_value sorted_list new (codes "vendor") ≡ (
        if text_eq (codes "class") (codes "vendor")
        then some (codes "3")
        else udev_device_get_sysattr_value sorted_list attributes (codes "vendor")))
    × (udev_device_set_sysattr_value sorted_list true new (codes "class") none ≡ (new, failed))
    × (udev_device_set_sysattr_value sorted_list false attributes (codes "class") (some (codes "3"))
        ≡ (attributes, failed))
unfolding text_eq
get_sysattr_value-set_sysattr_value_example =
    get_sysattr_value-set_sysattr_value sorted_list attributes (codes "class") (some (codes "3"))
      none (codes "vendor") attributes-IsValid refl

-- Every pattern matches.
abbrev open_platform : Platform
open_platform = record {
  have_evdev = true;
  have_hidraw = true;
  have_devinfo = true;
  fnmatch = λ pattern path. true;
  evdev_support = none;
}

abbrev linked : Text → Linked
linked syspath = record { syspath = syspath; parent_ref = false }

abbrev chain_above : List Linked
chain_above = linked (codes "/sys/psmcpnp0") ∷ linked (codes "/sys/acpi0") ∷ []

get_parent_with_subsystem_devtype_lem_example :
    Searched open_platform (codes "input") (linked (codes "/dev/psm0") ∷ chain_above) (
      udev_device_get_parent_with_subsystem_devtype open_platform
        (codes "input")
        none
        (linked (codes "/dev/psm0"))
        chain_above)
get_parent_with_subsystem_devtype_lem_example =
    get_parent_with_subsystem_devtype_lem open_platform (codes "input") none
      (linked (codes "/dev/psm0")) chain_above
