-- ===== src/Handlers/Parent.antt =====
-- set_parent of udev-dev.c: the parent that tells clients the name and the ids of an input device.
use libudev_devd.Common.{
  ℕ, suc, ◌+◌, ◌≤◌, ◌≡◌, refl, Bool, true, false, ◌&&◌, Option, none, some, [], ◌∷◌, ◌++◌, Text,
  codes, ◌==◌, if◌then◌else◌, before, drop, take, leb, length, text_eq, starts_with, arith,
}
use libudev_devd.Str.Paths.{get_sysname_by_syspath, syspathlen_wo_units}
use libudev_devd.Str.Copy.{strlcpy}
use libudev_devd.Str.KernProp.{get_kern_prop_value}
use libudev_devd.UdevList.{ListEntry, RbTree}
use libudev_devd.Devd.{dev_path_max}
use libudev_devd.Devd.Dbsf.{print_hex}
use libudev_devd.Input.Properties.{ParentLists, create_xorg_parent}
use libudev_devd.Handlers.Strtol.{strtol}
pub mod Laws

abbrev pub bus_pci : ℕ
bus_pci = 0x01

abbrev pub bus_usb : ℕ
bus_usb = 0x03

abbrev pub bus_virtual : ℕ
bus_virtual = 0x06

abbrev pub bus_i8042 : ℕ
bus_i8042 = 0x11

-- snprintf(mib, sizeof(mib), "dev.%.<limit>s.%.3s.<leaf>", devname, unit), with sizeof(mib) == 32
unfoldable pub print_mib : ℕ → Text → Text → Text → Text
print_mib limit devname unit leaf =
    take 31 (codes "dev." ++ (take limit devname ++ (b'.' ∷ (take 3 unit ++ b'.' ∷ leaf))))

-- `bus`, `vendor` and `prod`
pub record Ids : Type 0 where
  pub bus : ℕ
  pub vendor : ℕ
  pub prod : ℕ

-- The ids, from the values found in `pnpinfo`. That the code ends a value of _HID with a NUL does not
-- change what strtol reads of the others: each of them ends at a space at the latest.
unfoldable pub identify :
    Option (Text × ℕ) → Option (Text × ℕ) → Option (Text × ℕ) → Text → Text → Ids
identify (some (prodstr, _)) (some (vendorstr, _)) devicestr devname parentname = record {
  bus = bus_usb;
  vendor = strtol vendorstr;
  prod = strtol prodstr;
}
identify none (some (vendorstr, _)) (some (devicestr, _)) devname parentname = record {
  bus = bus_pci;
  vendor = strtol vendorstr;
  prod = strtol devicestr;
}
identify _ _ _ devname parentname =
    if text_eq parentname (codes "atkbdc0")
    then (if text_eq devname (codes "atkbd")
        then record { bus = bus_i8042; vendor = 0x001; prod = 0x001 }
        else if text_eq devname (codes "psm")
        then record { bus = bus_i8042; vendor = 0x002; prod = 0x001 }
        else record { bus = bus_i8042; vendor = 0; prod = 0 })
    else record { bus = bus_virtual; vendor = 0; prod = 0 }

-- The value of _HID cut to its length, unless it is "none".
unfoldable pub pnp_id_of : Option (Text × ℕ) → Option Text
unfolding starts_with
pnp_id_of none = none
pnp_id_of (some (value, len)) =
    if len == 4 && starts_with (codes "none") value then none else some (take len value)

-- "%x/%x/%x/0"
unfoldable pub print_product : Ids → Text
unfolding print_hex
print_product i =
    print_hex 1 i.bus (b'/' ∷ print_hex 1 i.vendor (b'/' ∷ print_hex 1 i.prod (codes "/0")))

module _ (R : RbTree) where
  -- A device while a handler fills it: its lists, its parent with the parent's syspath, and whether
  -- a handler has written past the end of a buffer; what C does from there on is undefined, and the
  -- model's handler stops there.
  pub record Node : Type 0 where
    pub lists : ParentLists R
    pub parent : Option (Text × ParentLists R)
    pub overrun : Bool

  -- `created` is udev_device_new_common on the parent's syspath; `memory` answers the calls of
  -- calloc that create_xorg_parent makes.
  module _ (memory : ℕ → Bool) (created : Text → Option (ParentLists R)) where
    unfoldable pub attach_parent : Text → Text → Option Text → Option Text → Node → Node
    unfolding create_xorg_parent
    attach_parent sysname name product pnp_id ud =
        elim (create_xorg_parent R memory (created sysname) name product pnp_id) [
          | none ↦ ud
          | some lists ↦ record ud { parent = some (sysname, lists) }
        ]

    -- What sysctlbyname gives for a name and a buffer of a size.
    module _ (have_sysctl : Bool) (sysctl : Text → ℕ → Option Text) where
      -- With the strings that the three calls give.
      unfoldable pub known_parent : Text → Text → Text → Text → Text → Node → Node
      unfolding identify pnp_id_of print_product attach_parent
      known_parent sysname devname desc pnpinfo parentname ud =
          let value = get_kern_prop_value pnpinfo in
          let ids =
            identify (value (codes "product")) (value (codes "vendor")) (value (codes "device"))
              devname parentname in
          attach_parent sysname (before b',' desc) (some (print_product ids))
            (pnp_id_of (value (codes "_HID"))) ud

      unfoldable pub asked_parent : Text → Text → Text → Node → Node
      unfolding known_parent print_mib
      asked_parent sysname devname unit ud =
          elim (sysctl (print_mib 17 devname unit (codes "%desc")) 80) [
            | none ↦ ud
            | some desc ↦ elim (sysctl (print_mib 14 devname unit (codes "%pnpinfo")) 1024) [
              | none ↦ ud
              | some pnpinfo ↦ elim (sysctl (print_mib 15 devname unit (codes "%parent")) 80) [
                | none ↦ ud
                | some parentname ↦ known_parent sysname devname desc pnpinfo parentname ud
              ]
            ]
          ]

      -- snprintf(devname, len + 1, "%s", sysname) writes `len + 1` bytes into the DEV_PATH_MAX bytes
      -- of `devname`.
      unfoldable pub set_parent : Text → Node → Node
      unfolding asked_parent attach_parent print_product syspathlen_wo_units
      set_parent sysname ud =
          let len = syspathlen_wo_units sysname in
          if length sysname == len
          then ud
          else if have_sysctl
          then (if leb dev_path_max len
              then record ud { overrun = true }
              else asked_parent sysname (take len sysname) (drop len sysname) ud)
          else attach_parent sysname (strlcpy [] sysname 80).0
              (some (print_product (record { bus = bus_virtual; vendor = 0; prod = 0 }))) none ud
