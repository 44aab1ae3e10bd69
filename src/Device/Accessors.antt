-- ===== src/Device/Accessors.antt =====
-- What udev-device.c answers from the syspath, the lists and the action of a device.
use libudev_devd.Common.{codes, Bool, true, false, Option, none, some, Text, drop}
use libudev_devd.UdevList.{
  ListEntry, RbTree, udev_list_entry_get_first, udev_list_entry_get_by_name,
}
use libudev_devd.Str.Paths.{get_sysname_by_syspath, get_devpath_by_syspath, syspathlen_wo_units}
use libudev_devd.Subsystem.{Platform, get_subsystem_by_syspath}
use libudev_devd.Devd.{Action, add, remove, hotplug}

unfoldable pub udev_device_get_devnode : Text → Option Text
unfolding get_devpath_by_syspath
udev_device_get_devnode syspath = get_devpath_by_syspath syspath

unfoldable pub udev_device_get_sysname : Text → Option Text
unfolding get_sysname_by_syspath
udev_device_get_sysname syspath = get_sysname_by_syspath syspath

unfoldable pub udev_device_get_sysnum : Text → Text
unfolding syspathlen_wo_units
udev_device_get_sysnum syspath = drop (syspathlen_wo_units syspath) syspath

unfoldable pub udev_device_get_subsystem : Platform → Text → Option Text
unfolding get_subsystem_by_syspath
udev_device_get_subsystem p syspath = (get_subsystem_by_syspath p syspath).0

-- `none` where the variable is returned as it was.
unfoldable pub udev_device_get_devtype : Platform → Text → Option (Option Text)
unfolding get_subsystem_by_syspath
udev_device_get_devtype p syspath = (get_subsystem_by_syspath p syspath).1

module _ (R : RbTree) where
  open R use {Tree}

  unfoldable pub get_list_entry : Tree → Option ListEntry
  unfolding udev_list_entry_get_first
  get_list_entry list = udev_list_entry_get_first R list

  -- `memory` is whether calloc has memory for the entry that is sought.
  unfoldable pub udev_device_has_tag : Bool → Tree → Text → Bool
  unfolding udev_list_entry_get_first udev_list_entry_get_by_name
  udev_device_has_tag memory tag_list tag =
      elim (udev_list_entry_get_by_name R memory tag_list (udev_list_entry_get_first R tag_list)
        tag) [ none ↦ false | some entry ↦ true ]

-- The flag of the action, `none` for UD_ACTION_NONE; it has no other values.
unfoldable pub udev_device_get_action : Option Action → Text
udev_device_get_action none = codes "none"
udev_device_get_action (some add) = codes "add"
udev_device_get_action (some remove) = codes "remove"
udev_device_get_action (some hotplug) = codes "change"

unfoldable pub udev_device_get_syspath : Text → Text
udev_device_get_syspath syspath = syspath
