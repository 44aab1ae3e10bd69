-- ===== src/Examples/Handlers.antt =====
-- Runs of the handlers of new devices.
use libudev_devd.Common.{
  ℕ, ◌==◌, ◌≡◌, refl, Bool, true, false, Option, none, some, [], ◌∷◌, ◌++◌, Text, codes, text_eq,
  starts_with, before, if◌then◌else◌, arith,
}
use libudev_devd.UdevList.{ListEntry, RbTree}
use libudev_devd.Str.Paths.{
  get_sysname_by_syspath, strbase, get_devpath_by_syspath, syspathlen_wo_units,
}
use libudev_devd.Str.KernProp.{get_kern_prop_value}
use libudev_devd.Devd.Dbsf.{Dbsf, print_dbsf, print_hex, first_is}
use libudev_devd.Handlers.Hex.{is_hex}
use libudev_devd.Input.Properties.{ParentLists}
use libudev_devd.Handlers.Entries.{plenty}
use libudev_devd.Handlers.Decimal.{print_unsigned}
use libudev_devd.Handlers.Pci.{PciConf, create_pci_handler, create_pci_handler_lem}
use libudev_devd.Handlers.Net.{
  LinkAddress, ifaddrs, create_net_handler, create_net_handler_lem, found, six_bytes,
}
use libudev_devd.Handlers.Parent.{Node, set_parent}
use libudev_devd.Handlers.Parent.Laws.{set_parent_usb}
use libudev_devd.Handlers.Input.{EvdevInfo, Sysctls}
use libudev_devd.Handlers.Drm.{create_drm_handler}
use libudev_devd.Handlers.Drm.Laws.{entry, create_drm_handler_lem}
use libudev_devd.Examples.SortedList.{sorted_list}
use libudev_devd.Examples.Devices.{pen_bits}

abbrev no_entries : ParentLists sorted_list
no_entries = record { props = []; sysattrs = [] }

abbrev new_node : Node sorted_list
new_node = record { lists = no_entries; parent = none; overrun = false }

-- The properties found under a name.
abbrev prop : ParentLists sorted_list → Text → Option ListEntry
prop lists name = RbTree.find sorted_list lists.props name

abbrev slot : Dbsf
slot = record { dom = 0; bus = 258; slot = 31; func = 3 }

abbrev bridge : PciConf
bridge = record {
  pc_class = 6;
  pc_subclass = 4;
  pc_progif = 0;
  pc_vendor = 0x8086;
  pc_device = 0x9d10;
  pc_subvendor = 0;
  pc_subdevice = 0;
  pc_revid = 0xf1;
}

-- The bus is past a byte, so the kernel is asked for bus 2.
create_pci_handler_lem_example :
    let new =
      create_pci_handler sorted_list true plenty
        (λ d. if d.bus == 2 then some bridge else none)
        (codes "/pci/" ++ print_dbsf slot)
        no_entries in
    let prop = λ (name value : Text).
      RbTree.find sorted_list new.props name ≡ some (record { name = name; value = some value }) in
    let attr = λ (name value : Text).
      RbTree.find sorted_list new.sysattrs name
      ≡ some (record { name = name; value = some value }) in
    prop (codes "PCI_CLASS") (print_hex 1 0x60400 [])
    × prop (codes "PCI_ID") (print_hex 4 0x8086 (b':' ∷ print_hex 4 0x9d10 []))
    × prop (codes "PCI_SUBSYS_ID") (print_hex 4 0 (b':' ∷ print_hex 4 0 []))
    × prop (codes "PCI_SLOT_NAME") (print_dbsf slot)
    × prop (codes "ID_PATH") (codes "pci-" ++ print_dbsf slot)
    × attr (codes "class") (codes "0x" ++ print_hex 6 0x60400 [])
    × attr (codes "vendor") (codes "0x" ++ print_hex 4 0x8086 [])
    × attr (codes "device") (codes "0x" ++ print_hex 4 0x9d10 [])
    × attr (codes "subsystem_vendor") (codes "0x" ++ print_hex 4 0 [])
    × attr (codes "subsystem_device") (codes "0x" ++ print_hex 4 0 [])
    × attr (codes "revision") (codes "0x" ++ print_hex 2 0xf1 [])
    × attr (codes "numa_node") (codes "-1")
create_pci_handler_lem_example =
    create_pci_handler_lem sorted_list (λ d. if d.bus == 2 then some bridge else none) slot bridge
      no_entries (omega arith, omega arith, omega arith, omega arith) refl tt tt

abbrev link : Bool → Text → LinkAddress
link is_link name = record {
  ifa_name = name;
  is_link = is_link;
  sdl_index = 2;
  sdl_alen = 6;
  lladdr = 0 ∷ 1 ∷ 2 ∷ 3 ∷ 4 ∷ 255 ∷ [];
}

create_net_handler_lem_example :
    let new =
      create_net_handler sorted_list 16 plenty
        (ifaddrs (some (link false (codes "em0") ∷ link true (codes "em0") ∷ [])))
        (codes "/net/em0")
        no_entries in
    let attr = λ (name : Text). RbTree.find sorted_list new.sysattrs name in
    (attr (codes "address") ≡ found (codes "address") (six_bytes (0 ∷ 1 ∷ 2 ∷ 3 ∷ 4 ∷ 255 ∷ [])))
    × (attr (codes "addr_len") ≡ found (codes "addr_len") (print_unsigned 6 []))
    × (attr (codes "ifindex") ≡ found (codes "ifindex") (print_unsigned 2 []))
    × (prop new (codes "IFINDEX") ≡ found (codes "IFINDEX") (print_unsigned 2 []))
    × (prop new (codes "INTERFACE") ≡ found (codes "INTERFACE") (codes "em0"))
unfolding get_sysname_by_syspath strbase text_eq
create_net_handler_lem_example =
    create_net_handler_lem sorted_list 16 (codes "/net/em0") (codes "em0")
      (link false (codes "em0") ∷ []) (link true (codes "em0")) [] no_entries refl refl refl refl tt
      tt

abbrev creates : Text → Option (ParentLists sorted_list)
creates sysname = some no_entries

abbrev mouse_sysctl : Text → ℕ → Option Text
mouse_sysctl name size =
    if text_eq name (codes "dev.ums.0.%desc")
    then some (codes "Logitech Mouse, class 0/0")
    else if text_eq name (codes "dev.ums.0.%parent")
    then some (codes "uhub0")
    else some (codes "vendor=0x046d product=0xc077")

set_parent_usb_example :
    let out =
      set_parent sorted_list (λ n. true) creates true mouse_sysctl (codes "ums0") new_node in
    (out.overrun ≡ false)
    × ((lists : ParentLists sorted_list) × (out.parent ≡ some (codes "ums0", lists))
        × (prop lists (codes "PRODUCT")
            ≡ some (record {
              name = codes "PRODUCT";
              value =
                  some (codes "3/" ++ print_hex 1 0x046d (b'/' ∷ print_hex 1 0xc077 (codes "/0")));
            }))
        × (prop lists (codes "NAME")
            ≡ some (record {
              name = codes "NAME";
              value = some (before b',' (codes "Logitech Mouse, class 0/0"));
            })))
unfolding syspathlen_wo_units get_kern_prop_value print_hex text_eq starts_with before first_is
    is_hex
set_parent_usb_example =
    set_parent_usb sorted_list creates mouse_sysctl no_entries new_node (codes "ums0")
      (codes "Logitech Mouse, class 0/0") (codes "vendor=0x046d product=0xc077") (codes "uhub0")
      (codes "0x046d product=0xc077") (codes "0xc077") 0x046d 0xc077 6 6 refl tt refl refl refl refl
      refl refl refl (3, codes " product=0xc077", refl, omega arith, refl, refl)
      (3, [], refl, omega arith, refl, refl)

abbrev pen : EvdevInfo
pen = record {
  name = codes "Wacom Pen, 2nd";
  phys = codes "ums1";
  id = record { bustype = 3; vendor = 0x56a; product = 0x44; version = 1 };
  bits = pen_bits;
}

abbrev no_sysctls : Sysctls
no_sysctls = record { text = λ name size. none; input_id = λ name. none; longs = λ name. none }

abbrev card_sysctl : Text → ℕ → Option Text
card_sysctl name size =
    if text_eq name (codes "hw.dri.0.busid")
    then some (codes "pci:0000:00:02.0")
    else some (codes "8086:9d10")

create_drm_handler_lem_example :
    let out =
      create_drm_handler sorted_list
        (λ n. true)
        (λ n. true)
        creates
        true
        (λ path. codes "/dev/drm/0")
        card_sysctl
        1024
        (codes "/dev/dri/card0")
        (codes "card0")
        new_node in
    (prop out.lists (codes "HOTPLUG") ≡ entry (codes "HOTPLUG") (codes "1"))
    × (prop out.lists (codes "ID_PATH") ≡ entry (codes "ID_PATH") (codes "pci-0000:00:02.0"))
    × ((lists : ParentLists sorted_list) × (out.parent ≡ some (codes "card0", lists))
        × (prop lists (codes "PCI_ID") ≡ entry (codes "PCI_ID") (codes "8086:9d10")))
unfolding get_devpath_by_syspath text_eq starts_with print_unsigned
create_drm_handler_lem_example =
    create_drm_handler_lem sorted_list creates (λ path. codes "/dev/drm/0") card_sysctl 1024
      no_entries (codes "/dev/dri/card0") (codes "card0") (codes "/dev/dri/card0") 0 new_node
      (omega arith) refl refl refl tt tt
