-- ===== src/Handlers/Pci.antt =====
-- create_pci_handler of udev-pci.c: the entries of a PCI device, from its configuration.
use libudev_devd.Common.{
  ◌>>=◌, ℕ, zero, suc, ◌+◌, ◌*◌, ◌^◌, ◌<◌, ◌≡◌, refl, Bool, true, Option, none, some, List, [], ◌∷◌,
  ◌++◌, Text, String, codes, ◌==◌, if◌then◌else◌, lacks, arith, Bool-cases, inl, inr, ◌&&◌, ◌/◌,
  ◌%◌, ◌-◌, text_eq,
}
use libudev_devd.Str.Paths.{get_sysname_by_syspath, strbase_lem}
use libudev_devd.UdevList.{RbTree}
use libudev_devd.UdevList.Laws.{IsValid}
use libudev_devd.Devd.Dbsf.{Dbsf, print_hex, print_hex_from, hex_digit, print_dbsf, first_is}
use libudev_devd.Input.Properties.{ParentLists}
use libudev_devd.Handlers.Entries.{
  Memory, plenty, insert_all, find-insert_all, Value, printed, given,
}
use libudev_devd.Handlers.Hex.{scan_hex, scan_hex-print_hex, is_hex}

-- %x behind a literal character.
unfoldable pub scan_hex_after : ℕ → Text → Option (ℕ × Text)
scan_hex_after c [] = none
scan_hex_after c (x ∷ s) = if x == c then scan_hex s else none

-- sscanf(dbsf, "%x:%x:%x.%x", …) with its result held against 4
unfoldable pub scan_pci_address : Text → Option Dbsf
unfolding scan_hex_after
scan_pci_address s = do
  (dom, s1) ← scan_hex s
  (bus, s2) ← scan_hex_after b':' s1
  (slot, s3) ← scan_hex_after b':' s2
  (func, s4) ← scan_hex_after b'.' s3
  some (record { dom = dom; bus = bus; slot = slot; func = func })

-- `struct pci_conf`, as far as the handler reads it.
pub record PciConf : Type 0 where
  pub pc_class : ℕ
  pub pc_subclass : ℕ
  pub pc_progif : ℕ
  pub pc_vendor : ℕ
  pub pc_device : ℕ
  pub pc_subvendor : ℕ
  pub pc_subdevice : ℕ
  pub pc_revid : ℕ

-- The three parts are bytes.
abbrev pub class_of : PciConf → ℕ
class_of conf = conf.pc_class * 2 ^ 16 + conf.pc_subclass * 2 ^ 8 + conf.pc_progif

-- "%04x:%04x"
unfoldable pub print_ids : ℕ → ℕ → Text → Text
unfolding print_hex
print_ids a b out = print_hex 4 a (b':' ∷ print_hex 4 b out)

-- "%04x_%02x_%02x_%01x"
unfoldable pub print_tag : Dbsf → Text
unfolding print_hex
print_tag d =
    print_hex 4 d.dom
      (b'_' ∷ print_hex 2 d.bus (b'_' ∷ print_hex 2 d.slot (b'_' ∷ print_hex 1 d.func [])))

abbrev pub pci_properties : Dbsf → PciConf → List (String × Value)
pci_properties d conf =
    ("PCI_CLASS", printed (print_hex 1 (class_of conf) []))
    ∷ ("PCI_ID", printed (print_ids conf.pc_vendor conf.pc_device []))
    ∷ ("PCI_SUBSYS_ID", printed (print_ids conf.pc_subvendor conf.pc_subdevice []))
    ∷ ("PCI_SLOT_NAME", printed (print_dbsf d))
    ∷ ("ID_PATH", printed (codes "pci-" ++ print_dbsf d))
    ∷ ("ID_PATH_TAG", printed (codes "pci-" ++ print_tag d))
    ∷ []

abbrev pub uevent_of : Dbsf → PciConf → Text
uevent_of d conf =
    codes "PCI_CLASS="
    ++ print_hex 1 (class_of conf) (
        codes "\nPCI_ID="
        ++ print_ids conf.pc_vendor conf.pc_device (
            codes "\nPCI_SUBSYS_ID="
            ++ print_ids conf.pc_subvendor conf.pc_subdevice
                (codes "\nPCI_SLOT_NAME=" ++ print_dbsf d)))

abbrev pub pci_sysattrs : Dbsf → PciConf → List (String × Value)
pci_sysattrs d conf =
    ("class", printed (codes "0x" ++ print_hex 6 (class_of conf) []))
    ∷ ("vendor", printed (codes "0x" ++ print_hex 4 conf.pc_vendor []))
    ∷ ("device", printed (codes "0x" ++ print_hex 4 conf.pc_device []))
    ∷ ("subsystem_vendor", printed (codes "0x" ++ print_hex 4 conf.pc_subvendor []))
    ∷ ("subsystem_device", printed (codes "0x" ++ print_hex 4 conf.pc_subdevice []))
    ∷ ("revision", printed (codes "0x" ++ print_hex 2 conf.pc_revid []))
    ∷ ("numa_node", given (codes "-1"))
    ∷ ("uevent", printed (uevent_of d conf))
    ∷ []

-- `patterns.pc_sel`: pc_bus, pc_dev and pc_func of `struct pcisel` are bytes.
unfoldable pub pci_sel : Dbsf → Dbsf
pci_sel d = record {
  dom = d.dom;
  bus = d.bus % 2 ^ 8;
  slot = d.slot % 2 ^ 8;
  func = d.func % 2 ^ 8;
}

module _ (R : RbTree) where
  -- The lists behind the calls; the first six work on the properties.
  unfoldable pub fill_pci : Memory → Dbsf → PciConf → ParentLists R → ParentLists R
  unfolding insert_all
  fill_pci m d conf ud = record {
    props = insert_all R m 0 ud.props (pci_properties d conf);
    sysattrs = insert_all R m 6 ud.sysattrs (pci_sysattrs d conf);
  }

  -- `getconf` is what open and ioctl(PCIOCGETCONF) give for a selector: `none` where one of them
  -- fails or the status is not PCI_GETCONF_LAST_DEVICE.
  unfoldable pub create_pci_handler :
      Bool → Memory → (Dbsf → Option PciConf) → Text → ParentLists R → ParentLists R
  unfolding fill_pci pci_sel
  create_pci_handler have_devinfo m getconf syspath ud =
      if have_devinfo
      then elim (get_sysname_by_syspath syspath) [
        | none ↦ ud
        | some dbsf ↦ elim (scan_pci_address dbsf) [
          | none ↦ ud
          | some d ↦ elim (getconf (pci_sel d)) [ none ↦ ud | some conf ↦ fill_pci m d conf ud ]
        ]
      ]
      else ud

-- An address whose parts are 32-bit numbers.
abbrev pub IsAddress : Dbsf → Type 0
IsAddress d = (d.dom < 2 ^ 32) × (d.bus < 2 ^ 32) × (d.slot < 2 ^ 32) × (d.func < 2 ^ 32)

-- What udev_pci_enumerate prints as an address, create_pci_handler reads back.
scan-print_dbsf : (d : Dbsf) → IsAddress d → scan_pci_address (print_dbsf d) ≡ some d
unfolding scan_pci_address print_dbsf first_is is_hex
scan-print_dbsf d h =
    rw
      (scan_hex-print_hex 3 d.dom
        (b':' ∷ print_hex 2 d.bus (b':' ∷ print_hex 2 d.slot (b'.' ∷ print_hex 1 d.func []))) h.0
        refl refl)
      (rw
        (scan_hex-print_hex 1 d.bus (b':' ∷ print_hex 2 d.slot (b'.' ∷ print_hex 1 d.func [])) h.1
          refl refl)
        (rw (scan_hex-print_hex 1 d.slot (b'.' ∷ print_hex 1 d.func []) h.2 refl refl)
          (rw (scan_hex-print_hex 0 d.func [] h.3 refl refl) refl)))

digit_lacks :
    (d : ℕ) (out : Text) → d < 16 → lacks b'/' out ≡ true → lacks b'/' (hex_digit d ∷ out) ≡ true
unfolding hex_digit
digit_lacks d out b h = ground arith

print_from_lacks :
    (fuel width n : ℕ) (out : Text)
    → lacks b'/' out ≡ true
    → lacks b'/' (print_hex_from fuel width n out) ≡ true
unfolding print_hex_from
print_from_lacks zero width n out h = h
print_from_lacks (suc fuel) width n out h = elim (Bool-cases (width == 0 && n == 0)) [
  | inl over ↦ rw over h
  | inr more ↦
      rw more
        (print_from_lacks fuel (width - 1) (n / 16) _ (digit_lacks (n % 16) out (omega arith) h))
]

print_dbsf-lacks : (d : Dbsf) → lacks b'/' (print_dbsf d) ≡ true
unfolding print_dbsf print_hex
print_dbsf-lacks d = print_from_lacks 8 4 d.dom _ (
    print_from_lacks 8 2 d.bus _
      (print_from_lacks 8 2 d.slot _ (print_from_lacks 8 1 d.func [] refl)))

pci_sysname :
    (d : Dbsf) → get_sysname_by_syspath (codes "/pci/" ++ print_dbsf d) ≡ some (print_dbsf d)
unfolding get_sysname_by_syspath
pci_sysname d =
    (strbase_lem (codes "/pci/" ++ print_dbsf d) (print_dbsf d)).0.1
      (codes "/pci", refl, print_dbsf-lacks d)

module _ (R : RbTree) where
  -- For the syspath that udev_pci_enumerate makes of an address, with devinfo, memory at hand and a
  -- configuration to be had for the address with bus, slot and function cut to a byte each,
  -- create_pci_handler sets PCI_CLASS, PCI_ID, PCI_SUBSYS_ID, PCI_SLOT_NAME and ID_PATH as listed,
  -- the last two with the address as it stands in the syspath, and the attributes class, vendor,
  -- device, subsystem_vendor, subsystem_device, revision and numa_node.
  pub create_pci_handler_lem :
      (getconf : Dbsf → Option PciConf) (d : Dbsf) (conf : PciConf) (ud : ParentLists R)
      → IsAddress d
      → getconf
          (record { dom = d.dom; bus = d.bus % 256; slot = d.slot % 256; func = d.func % 256 })
        ≡ some conf
      → IsValid R ud.props
      → IsValid R ud.sysattrs
      → let new = create_pci_handler R true plenty getconf (codes "/pci/" ++ print_dbsf d) ud in
        let class = conf.pc_class * 65536 + conf.pc_subclass * 256 + conf.pc_progif in
        let prop = λ (name value : Text).
          R.find new.props name ≡ some (record { name = name; value = some value }) in
        let attr = λ (name value : Text).
          R.find new.sysattrs name ≡ some (record { name = name; value = some value }) in
        prop (codes "PCI_CLASS") (print_hex 1 class [])
        × prop (codes "PCI_ID") (print_hex 4 conf.pc_vendor (b':' ∷ print_hex 4 conf.pc_device []))
        × prop
            (codes "PCI_SUBSYS_ID")
            (print_hex 4 conf.pc_subvendor (b':' ∷ print_hex 4 conf.pc_subdevice []))
        × prop (codes "PCI_SLOT_NAME") (print_dbsf d)
        × prop (codes "ID_PATH") (codes "pci-" ++ print_dbsf d)
        × attr (codes "class") (codes "0x" ++ print_hex 6 class [])
        × attr (codes "vendor") (codes "0x" ++ print_hex 4 conf.pc_vendor [])
        × attr (codes "device") (codes "0x" ++ print_hex 4 conf.pc_device [])
        × attr (codes "subsystem_vendor") (codes "0x" ++ print_hex 4 conf.pc_subvendor [])
        × attr (codes "subsystem_device") (codes "0x" ++ print_hex 4 conf.pc_subdevice [])
        × attr (codes "revision") (codes "0x" ++ print_hex 2 conf.pc_revid [])
        × attr (codes "numa_node") (codes "-1")
  unfolding create_pci_handler fill_pci text_eq pci_sel print_ids
  create_pci_handler_lem getconf d conf ud h g v w =
      let prop = λ (n : Text). find-insert_all R 0 ud.props (pci_properties d conf) n v in
      let attr = λ (n : Text). find-insert_all R 6 ud.sysattrs (pci_sysattrs d conf) n w in
      rw (pci_sysname d) (
        rw (scan-print_dbsf d h) (
          rw g (
            prop (codes "PCI_CLASS"),
            prop (codes "PCI_ID"),
            prop (codes "PCI_SUBSYS_ID"),
            prop (codes "PCI_SLOT_NAME"),
            prop (codes "ID_PATH"),
            attr (codes "class"),
            attr (codes "vendor"),
            attr (codes "device"),
            attr (codes "subsystem_vendor"),
            attr (codes "subsystem_device"),
            attr (codes "revision"),
            attr (codes "numa_node"),
          )))
