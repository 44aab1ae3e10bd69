-- ===== src/Enumerate/Scan.antt =====
-- What a scan leaves in the list of an enumerator.
use libudev_devd.Common.{
  ◌⊎◌, Option-cases, ℕ, ◌-◌, ◌<◌, ◌≡◌, sym, ap, ◌∙◌, Bool, true, false, Option, none, some, List,
  [], ◌∷◌, Text, codes, text_eq, text_eq_iff, if◌then◌else◌, length, Status, ok, failed, and_then,
  and_then-keeps, arith, Bool-cases, inl, inr,
}
use libudev_devd.UdevList.{ListEntry, RbTree, find_name, udev_list_insert, udev_list_free}
use libudev_devd.UdevList.Laws.{IsValid, udev_list_insert-IsValid, find-udev_list_insert}
use libudev_devd.Scandir.{
  Dir, EntryType, symlink, chardev, directory, other, scandir_recursive-keeps,
}
use libudev_devd.Enumerate.Walks.{scandev-keeps, either-keeps}
use libudev_devd.Enumerate.{
  DevForest, Interface, SystemDevices, scandev_recursive, udev_enumerate_add_device,
  udev_dev_enumerate_cb, udev_dev_enumerate, add_sys, add_pci, udev_sys_enumerate_cb,
  udev_sys_enumerate, udev_pci_enumerate_cb, udev_pci_enumerate, net_loop, udev_net_enumerate,
  free_if_failed, udev_enumerate_scan_devices,
}
use libudev_devd.Devd.{dev_path_max, devd2udev_dbsf}

one_of :
    (accepts : Text → Bool) (syspath n : Text) {old : Option ListEntry} {e : ListEntry}
    → (if text_eq syspath n then some (record { name = syspath; value = none }) else old) ≡ some e
    → accepts syspath ≡ true
    → (old ≡ some e → accepts n ≡ true)
    → accepts n ≡ true
one_of accepts syspath n found fits earlier = elim (Bool-cases (text_eq syspath n)) [
  | inl same ↦ rw (← (text_eq_iff syspath n).0 same) fits
  | inr differ ↦ earlier (rw differ at found)
]

none_found : (n : Text) (e : ListEntry) {b : Bool} → find_name n [] ≡ some e → b ≡ true
none_found n e h = cc

module _ (R : RbTree) (accepts : Text → Bool) (memory : Text → Bool) (have_devinfo : Bool)
    (ifnamsiz : ℕ) where
  open R use {Tree}

  -- A valid list of devices that the filters accept.
  record Listed (ul : Tree) : Type 0 where
    valid : IsValid R ul
    accepted : (n : Text) (e : ListEntry) → R.find ul n ≡ some e → accepts n ≡ true

  insert-accepted :
      (syspath : Text) (ul : Tree)
      → accepts syspath ≡ true
      → Listed ul
      → (n : Text) (e : ListEntry)
      → R.find (udev_list_insert R (memory syspath) ul syspath none).0 n ≡ some e
      → accepts n ≡ true
  insert-accepted syspath ul fits h n e found = elim (Bool-cases (memory syspath)) [
    | inl got ↦
        one_of accepts syspath n
          (sym (find-udev_list_insert R ul syspath none n h.valid).0 ∙ (rw got at found)) fits
          (h.accepted n e)
    | inr out ↦
        h.accepted n e
          (rw ((find-udev_list_insert R ul syspath none n h.valid).2) at (rw out at found))
  ]

  add_device-Listed :
      (syspath : Text) (ul : Tree)
      → Listed ul
      → Listed (udev_enumerate_add_device R accepts memory have_devinfo ifnamsiz syspath ul).0
  unfolding udev_enumerate_add_device
  add_device-Listed syspath ul h = elim (Bool-cases (accepts syspath)) [
    | inl fits ↦ rw fits (record {
      valid = udev_list_insert-IsValid R (memory syspath) ul syspath none h.valid;
      accepted = insert-accepted syspath ul fits h;
    })
    | inr rejected ↦ rw rejected h
  ]

  dev_cb-Listed :
      (path : Text) (type : EntryType) (ul : Tree)
      → length path < dev_path_max
      → Listed ul
      → Listed (udev_dev_enumerate_cb R accepts memory have_devinfo ifnamsiz path type ul).0
  unfolding udev_dev_enumerate_cb
  dev_cb-Listed path symlink ul fits h = add_device-Listed _ ul h
  dev_cb-Listed path chardev ul fits h = add_device-Listed _ ul h
  dev_cb-Listed path directory ul fits h = h
  dev_cb-Listed path other ul fits h = h

  dev-Listed :
      (d : Dir) (ul : Tree)
      → Listed ul
      → Listed (udev_dev_enumerate R accepts memory have_devinfo ifnamsiz d ul).0
  unfolding udev_dev_enumerate
  dev-Listed d ul h =
      scandir_recursive-keeps Listed true _ d (codes "/dev/") dev_path_max ul dev_cb-Listed
        (omega arith) h

  add_sys-Listed :
      (attached : Bool) (name : Text) (ul : Tree)
      → Listed ul
      → Listed (add_sys R accepts memory have_devinfo ifnamsiz attached name ul).0
  unfolding add_sys
  add_sys-Listed attached [] ul h = h
  add_sys-Listed false (c ∷ name) ul h = h
  add_sys-Listed true (c ∷ name) ul h = add_device-Listed _ ul h

  sys-Listed :
      (roots : Option DevForest) (ul : Tree)
      → Listed ul
      → Listed (udev_sys_enumerate R accepts memory have_devinfo ifnamsiz roots ul).0
  unfolding udev_sys_enumerate udev_sys_enumerate_cb
  sys-Listed roots ul h =
      let cb = udev_sys_enumerate_cb R accepts memory have_devinfo ifnamsiz in
      either-keeps Listed have_devinfo (scandev_recursive cb roots ul) ul
        (scandev-keeps Listed cb (λ dev t k. add_sys-Listed dev.attached dev.dd_name t k) roots ul
          h)
        h

  add_pci-Listed :
      (dbsf : Option Text) (ul : Tree)
      → Listed ul
      → Listed (add_pci R accepts memory have_devinfo ifnamsiz dbsf ul).0
  unfolding add_pci
  add_pci-Listed none ul h = h
  add_pci-Listed (some dbsf) ul h = add_device-Listed _ ul h

  pci-Listed :
      (roots : Option DevForest) (ul : Tree)
      → Listed ul
      → Listed (udev_pci_enumerate R accepts memory have_devinfo ifnamsiz roots ul).0
  unfolding udev_pci_enumerate udev_pci_enumerate_cb
  pci-Listed roots ul h =
      let cb = udev_pci_enumerate_cb R accepts memory have_devinfo ifnamsiz in
      either-keeps Listed have_devinfo (scandev_recursive cb roots ul) ul
        (scandev-keeps Listed cb
          (λ dev t k. add_pci-Listed (devd2udev_dbsf dev.dd_location (dev_path_max - 5)) t k) roots
          ul h)
        h

  net-Listed :
      (ifap : List Interface) (ul : Tree)
      → Listed ul
      → Listed (net_loop R accepts memory have_devinfo ifnamsiz ifap ul).0
  unfolding net_loop
  net-Listed [] ul h = h
  net-Listed (ifa ∷ rest) ul h = elim (Bool-cases ifa.is_link) [
    | inl link ↦ rw link (and_then-keeps Listed _ _ (add_device-Listed _ ul h) (net-Listed rest))
    | inr skipped ↦ rw skipped (net-Listed rest ul h)
  ]

  ifaddrs-Listed :
      (ifap : Option (List Interface)) (ul : Tree)
      → Listed ul
      → Listed (udev_net_enumerate R accepts memory have_devinfo ifnamsiz ifap ul).0
  unfolding udev_net_enumerate
  ifaddrs-Listed none ul h = h
  ifaddrs-Listed (some ifap) ul h = net-Listed ifap ul h

  free-Listed : (ul : Tree) → Listed (udev_list_free R ul)
  unfolding udev_list_free
  free-Listed ul =
      let v : IsValid R R.init = rw R.entries-init tt in
      record {
        valid = v;
        accepted = λ n e found.
            none_found n e
              (ap (find_name n) (sym R.entries-init) ∙ sym (R.find_lem R.init n v) ∙ found);
      }

  freed-Listed :
      (w : Tree × Status)
      → Listed w.0
      → Listed (free_if_failed R accepts memory have_devinfo ifnamsiz w).0
  unfolding free_if_failed
  freed-Listed (ul, ok) h = h
  freed-Listed (ul, failed) h = free-Listed ul

  scan-Listed :
      (d : SystemDevices) (ul : Tree)
      → Listed (udev_enumerate_scan_devices R accepts memory have_devinfo ifnamsiz d ul).0
  unfolding udev_enumerate_scan_devices
  scan-Listed d ul =
      let dev =
        udev_dev_enumerate R accepts memory have_devinfo ifnamsiz d.dev (udev_list_free R ul) in
      let by_sys = udev_sys_enumerate R accepts memory have_devinfo ifnamsiz d.devinfo in
      let by_pci = udev_pci_enumerate R accepts memory have_devinfo ifnamsiz d.devinfo in
      let by_net = udev_net_enumerate R accepts memory have_devinfo ifnamsiz d.interfaces in
      let sys = and_then dev by_sys in
      let pci = and_then sys by_pci in
      let k0 = dev-Listed d.dev (udev_list_free R ul) (free-Listed ul) in
      let k1 = and_then-keeps Listed dev by_sys k0 (sys-Listed d.devinfo) in
      let k2 = and_then-keeps Listed sys by_pci k1 (pci-Listed d.devinfo) in
      freed-Listed (and_then pci by_net)
        (and_then-keeps Listed pci by_net k2 (ifaddrs-Listed d.interfaces))

  -- After udev_enumerate_scan_devices, whatever the list held before and whichever calls failed, the
  -- list is in order with one entry for each name, and every syspath in it is one that the filters
  -- accept.
  pub scan_devices-accepted :
      (d : SystemDevices) (ul : Tree) (n : Text)
      → let new = (udev_enumerate_scan_devices R accepts memory have_devinfo ifnamsiz d ul).0 in
        IsValid R new × ((R.find new n ≡ none) ⊎ (accepts n ≡ true))
  scan_devices-accepted d ul n =
      let l = scan-Listed d ul in
      (
        l.valid,
        elim (Option-cases (
            R.find (udev_enumerate_scan_devices R accepts memory have_devinfo ifnamsiz d ul).0 n)) [
              | inl missing ↦ inl missing
              | inr (e, found) ↦ inr (l.accepted n e found)
            ],
      )

  freed_empty :
      (w : Tree × Status)
      → (free_if_failed R accepts memory have_devinfo ifnamsiz w).1 ≡ failed
      → R.entries (free_if_failed R accepts memory have_devinfo ifnamsiz w).0 ≡ []
  unfolding free_if_failed udev_list_free
  freed_empty (ul, ok) h = cc
  freed_empty (ul, failed) h = R.entries-init

  -- A scan that fails leaves no device in the list.
  pub scan_devices-failed :
      (d : SystemDevices) (ul : Tree)
      → (udev_enumerate_scan_devices R accepts memory have_devinfo ifnamsiz d ul).1 ≡ failed
      → R.entries (udev_enumerate_scan_devices R accepts memory have_devinfo ifnamsiz d ul).0 ≡ []
  unfolding udev_enumerate_scan_devices
  scan_devices-failed d ul h =
      let sys =
        and_then
          (udev_dev_enumerate R accepts memory have_devinfo ifnamsiz d.dev (udev_list_free R ul))
          (udev_sys_enumerate R accepts memory have_devinfo ifnamsiz d.devinfo) in
      let pci =
        and_then sys (udev_pci_enumerate R accepts memory have_devinfo ifnamsiz d.devinfo) in
      freed_empty
        (and_then pci (udev_net_enumerate R accepts memory have_devinfo ifnamsiz d.interfaces)) h
