-- ===== src/Enumerate.antt =====
-- udev-enumerate.c, with the callbacks of udev-dev.c, udev-sys.c, udev-pci.c and udev-net.c that feed it.
use libudev_devd.Common.{
  ℕ, zero, suc, ◌+◌, ◌-◌, ◌≡◌, Bool, true, false, ◌&&◌, ◌||◌, Option, none, some, List, [], ◌∷◌,
  ◌++◌, Text, codes, ltb, leb, ◌==◌, if◌then◌else◌, length, take, Status, ok, failed, and_then,
}
use libudev_devd.Str.Copy.{strlcpy, strlcat}
use libudev_devd.Str.Paths.{get_syspath_by_devpath}
use libudev_devd.Filter.{
  FilterType, FilterEntry, subsystem, sysname, property, tag, sysattr, udev_filter_init,
  udev_filter_add, udev_filter_free,
}
use libudev_devd.UdevList.{
  ListEntry, RbTree, udev_list_init, udev_list_insert, udev_list_free, udev_list_entry_get_first,
}
use libudev_devd.Scandir.{
  Dir, EntryType, symlink, chardev, directory, other, Callback, scandir_recursive,
}
use libudev_devd.Devd.{dev_path_max, devd2udev_dbsf}
pub mod Walks
pub mod Scan
pub mod Rules
pub mod Listed

-- What devinfo tells of a device.
pub record DevinfoDev : Type 0 where
  pub dd_name : Text
  pub attached : Bool  -- dd_state >= DS_ATTACHED
  pub dd_location : Text

-- A device with its children, as devinfo_foreach_device_child visits them.
mutual
  pub data DevTree : Type 0 where
    node : DevinfoDev → DevForest → DevTree

  pub data DevForest : Type 0 where
    leaves : DevForest
    tree : DevTree → DevForest → DevForest

-- An interface of getifaddrs, and whether its address is of AF_LINK.
pub record Interface : Type 0 where
  pub ifa_name : Text
  pub is_link : Bool

-- What the system holds for a scan: /dev, the device tree (`none` where devinfo_init or the root
-- fails) and the interfaces (`none` where getifaddrs fails).
pub record SystemDevices : Type 0 where
  pub dev : Dir
  pub devinfo : Option DevForest
  pub interfaces : Option (List Interface)

-- A callback with a state, over devices; the walk stops at the first that fails.
unfoldable mutual
  pub scandev_sub : {S : Type 0} → (DevinfoDev → S → S × Status) → DevTree → S → S × Status
  scandev_sub cb (node dev children) s = and_then (cb dev s) (foreach_child cb children)

  pub foreach_child : {S : Type 0} → (DevinfoDev → S → S × Status) → DevForest → S → S × Status
  foreach_child cb leaves s = (s, ok)
  foreach_child cb (tree t rest) s = and_then (scandev_sub cb t s) (foreach_child cb rest)

unfoldable pub scandev_recursive :
    {S : Type 0} → (DevinfoDev → S → S × Status) → Option DevForest → S → S × Status
unfolding foreach_child
scandev_recursive cb none s = (s, failed)
scandev_recursive cb (some roots) s = foreach_child cb roots s

-- `accepts` is udev_filter_match with the filters of the enumerator; `memory` answers calloc for a
-- syspath; `have_devinfo` is HAVE_DEVINFO_H and `ifnamsiz` IFNAMSIZ.
module _ (R : RbTree) (accepts : Text → Bool) (memory : Text → Bool) (have_devinfo : Bool)
    (ifnamsiz : ℕ) where
  open R use {Tree}

  unfoldable pub udev_enumerate_add_syspath : Text → Tree → Tree × Status
  udev_enumerate_add_syspath syspath ul = udev_list_insert R (memory syspath) ul syspath none

  unfoldable pub udev_enumerate_add_device : Text → Tree → Tree × Status
  udev_enumerate_add_device syspath ul =
      if accepts syspath then udev_list_insert R (memory syspath) ul syspath none else (ul, ok)

  unfoldable pub udev_dev_enumerate_cb : Callback Tree
  unfolding udev_enumerate_add_device
  udev_dev_enumerate_cb path symlink ul = udev_enumerate_add_device (get_syspath_by_devpath path) ul
  udev_dev_enumerate_cb path chardev ul = udev_enumerate_add_device (get_syspath_by_devpath path) ul
  udev_dev_enumerate_cb path directory ul = (ul, ok)
  udev_dev_enumerate_cb path other ul = (ul, ok)

  unfoldable pub udev_dev_enumerate : Dir → Tree → Tree × Status
  unfolding udev_dev_enumerate_cb
  udev_dev_enumerate dev ul =
      scandir_recursive true udev_dev_enumerate_cb dev (codes "/dev/") dev_path_max ul

  -- `dd_name[0] == '\0' || dd_state < DS_ATTACHED`, and the path made in a buffer of DEV_PATH_MAX.
  unfoldable pub add_sys : Bool → Text → Tree → Tree × Status
  add_sys attached [] ul = (ul, ok)
  add_sys false (c ∷ name) ul = (ul, ok)
  add_sys true (c ∷ name) ul =
      udev_enumerate_add_device (strlcat (codes "/sys/") (c ∷ name) dev_path_max).0 ul

  unfoldable pub udev_sys_enumerate_cb : DevinfoDev → Tree → Tree × Status
  udev_sys_enumerate_cb dev ul = add_sys dev.attached dev.dd_name ul

  unfoldable pub udev_sys_enumerate : Option DevForest → Tree → Tree × Status
  unfolding udev_sys_enumerate_cb
  udev_sys_enumerate roots ul =
      if have_devinfo then scandev_recursive udev_sys_enumerate_cb roots ul else (ul, ok)

  unfoldable pub add_pci : Option Text → Tree → Tree × Status
  add_pci none ul = (ul, ok)
  add_pci (some dbsf) ul = udev_enumerate_add_device (codes "/pci/" ++ dbsf) ul

  unfoldable pub udev_pci_enumerate_cb : DevinfoDev → Tree → Tree × Status
  udev_pci_enumerate_cb dev ul = add_pci (devd2udev_dbsf dev.dd_location (dev_path_max - 5)) ul

  unfoldable pub udev_pci_enumerate : Option DevForest → Tree → Tree × Status
  unfolding udev_pci_enumerate_cb
  udev_pci_enumerate roots ul =
      if have_devinfo then scandev_recursive udev_pci_enumerate_cb roots ul else (ul, ok)

  -- `for (ifa = ifap; …)`
  unfoldable pub net_loop : List Interface → Tree → Tree × Status
  unfolding udev_enumerate_add_device
  net_loop [] ul = (ul, ok)
  net_loop (ifa ∷ rest) ul =
      let added =
        udev_enumerate_add_device (codes "/net/" ++ (strlcpy [] ifa.ifa_name ifnamsiz).0) ul in
      let more = and_then added (net_loop rest) in
      let skipped = net_loop rest ul in if ifa.is_link then more else skipped

  unfoldable pub udev_net_enumerate : Option (List Interface) → Tree → Tree × Status
  unfolding net_loop
  udev_net_enumerate none ul = (ul, failed)
  udev_net_enumerate (some ifap) ul = net_loop ifap ul

  -- `if (ret == -1) udev_list_free(&ue->dev_list)`
  unfoldable pub free_if_failed : Tree × Status → Tree × Status
  free_if_failed (ul, ok) = (ul, ok)
  free_if_failed (ul, failed) = (udev_list_free R ul, failed)

  -- The list `dev_list` of the enumerator after a scan, and what it returns.
  unfoldable pub udev_enumerate_scan_devices : SystemDevices → Tree → Tree × Status
  unfolding free_if_failed
  udev_enumerate_scan_devices d ul =
      let dev = udev_dev_enumerate d.dev (udev_list_free R ul) in
      let sys = and_then dev (udev_sys_enumerate d.devinfo) in
      let pci = and_then sys (udev_pci_enumerate d.devinfo) in
      free_if_failed (and_then pci (udev_net_enumerate d.interfaces))
