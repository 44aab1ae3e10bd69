-- ===== src/Handlers/Drm.antt =====
-- create_drm_handler and create_hidraw_handler of udev-dev.c.
use libudev_devd.Common.{
  ℕ, suc, ◌+◌, ◌≡◌, refl, Bool, true, false, Option, none, some, List, [], ◌∷◌, ◌++◌, Text, codes,
  ◌==◌, ◌&&◌, ltb, leb, ◌-◌, if◌then◌else◌, drop, take, map, starts_with,
}
use libudev_devd.Str.Paths.{get_devpath_by_syspath}
use libudev_devd.UdevList.{RbTree, udev_list_insert}
use libudev_devd.Devd.Dbsf.{print_hex}
use libudev_devd.Input.Properties.{ParentLists, create_xorg_parent}
use libudev_devd.Handlers.Decimal.{scan_int, print_int}
use libudev_devd.Handlers.Parent.{Node}
use libudev_devd.Handlers.Input.{parent_sysname}
pub mod Laws

-- The loop that makes dots of the slashes.
unfoldable pub dotted : Text → Text
dotted [] = []
dotted (c ∷ s) = (if c == b'/' then b'.' else c) ∷ dotted s

-- snprintf(buf, sizeof(buf), "%.24s.PCI_ID", …), with sizeof(buf) == 32
unfoldable pub pci_id_mib : Text → Text
unfolding dotted
pci_id_mib devbuf = take 31 (take 24 (dotted (drop 1 devbuf)) ++ codes ".PCI_ID")

-- sscanf(devbuf, "/dev/drm/%d", &cardnum) != 1
unfoldable pub card_number : Text → Option ℕ
unfolding starts_with scan_int
card_number devbuf =
    if starts_with (codes "/dev/drm/") devbuf then scan_int (drop 9 devbuf) else none

unfoldable pub busid_mib : ℕ → Text
unfolding print_int
busid_mib cardnum = take 31 (codes "hw.dri." ++ print_int cardnum (codes ".busid"))

-- `if (strncmp(busid, "pci:", 4) == 0) busid[3] = '-';`
unfoldable pub path_id : Text → Text
unfolding starts_with
path_id busid = if starts_with (codes "pci:") busid then codes "pci-" ++ drop 4 busid else busid

-- A digit in upper case, as %X prints it.
unfoldable pub to_upper : ℕ → ℕ
to_upper c = if leb b'a' c && leb c b'f' then c - 32 else c

-- What the ioctls on a hidraw device tell, with the numbers as 32-bit patterns.
pub record HidrawInfo : Type 0 where
  pub name : Text
  pub phys : Text
  pub uniq : Text
  pub bustype : ℕ
  pub vendor : ℕ
  pub product : ℕ

-- "HID_ID=%04X:%08X:%08X\nHID_NAME=%s\nHID_PHYS=%s\nHID_UNIQ=%s"
unfoldable pub hidraw_uevent : HidrawInfo → Text
unfolding print_hex to_upper
hidraw_uevent i =
    codes "HID_ID="
    ++ (map to_upper
          (print_hex 4 i.bustype (b':' ∷ print_hex 8 i.vendor (b':' ∷ print_hex 8 i.product [])))
        ++ (codes "\nHID_NAME="
            ++ (i.name ++ (codes "\nHID_PHYS=" ++ (i.phys ++ (codes "\nHID_UNIQ=" ++ i.uniq))))))

module _ (R : RbTree) where
  unfoldable pub set_property : Bool → Text → Text → ParentLists R → ParentLists R
  set_property memory name value d = record d {
    props = (udev_list_insert R memory d.props name (some value)).0;
  }

  -- The answer for PCI_ID goes to the parent, that for the bus to the device itself.
  unfoldable pub set_pci_id : Bool → Option Text → Node R → Node R
  unfolding set_property
  set_pci_id memory none ud = ud
  set_pci_id memory (some id) ud = elim ud.parent [
    | none ↦ ud
    | some (sysname, lists) ↦ record ud {
      parent = some (sysname, set_property memory (codes "PCI_ID") id lists);
    }
  ]

  unfoldable pub set_path_id : Bool → Option Text → Node R → Node R
  unfolding set_property path_id
  set_path_id memory none ud = ud
  set_path_id memory (some busid) ud = record ud {
    lists = set_property memory (codes "ID_PATH") (path_id busid) ud.lists;
  }

  -- `memory` answers the calls of calloc outside of create_xorg_parent, `parent_memory` those inside;
  -- `realpath` is the resolved name that realpath(3) writes, and `sysctl` what sysctlbyname gives for
  -- a name and a buffer of a size.
  module _ (memory parent_memory : ℕ → Bool) (created : Text → Option (ParentLists R))
      (have_sysctl : Bool) (realpath : Text → Text) (sysctl : Text → ℕ → Option Text)
      (path_max : ℕ) where
    unfoldable pub ask_kernel : Text → Node R → Node R
    unfolding set_pci_id set_path_id pci_id_mib card_number busid_mib
    ask_kernel devpath ud =
        let ud' = set_pci_id (memory 1) (sysctl (pci_id_mib (realpath devpath)) path_max) ud in
        elim (card_number (realpath devpath)) [
          | none ↦ ud'
          | some cardnum ↦ set_path_id (memory 2) (sysctl (busid_mib cardnum) 32) ud'
        ]

    unfoldable pub create_drm_handler : Text → Text → Node R → Node R
    unfolding set_property ask_kernel create_xorg_parent get_devpath_by_syspath
    create_drm_handler syspath sysname ud =
        let lists = set_property (memory 0) (codes "HOTPLUG") (codes "1") ud.lists in
        elim (get_devpath_by_syspath syspath) [
          | none ↦ record ud { lists = lists }
          | some devpath ↦
              elim (create_xorg_parent R parent_memory (created sysname) (codes "drm parent") none
                none) [
                  | none ↦ record ud { lists = lists }
                  | some parent ↦
                      let attached : Node R = record ud {
                        lists = lists;
                        parent = some (sysname, parent);
                      } in
                      if have_sysctl then ask_kernel devpath attached else attached
                ]
        ]

  -- `info` is none where the device cannot be opened or asked; asprintf is taken to have memory.
  unfoldable pub create_hidraw_handler :
      Bool → (Text → Option (ParentLists R)) → Option HidrawInfo → Node R → Node R
  unfolding hidraw_uevent parent_sysname
  create_hidraw_handler memory created none ud = ud
  create_hidraw_handler memory created (some i) ud = elim (created (parent_sysname i.phys)) [
    | none ↦ ud
    | some lists ↦ record ud {
      parent = some (
        parent_sysname i.phys,
        record lists {
          sysattrs =
              (udev_list_insert R memory lists.sysattrs (codes "uevent")
                (some (hidraw_uevent i))).0;
        },
      );
    }
  ]
