-- ===== src/Enumerate/Listed/Exact.antt =====
-- The list of an enumerator after a scan, against the syspaths of the system.
use libudev_devd.Common.{
  ℕ, zero, suc, ◌-◌, ◌≡◌, refl, sym, ap, ◌∙◌, Bool, true, false, ◌&&◌, ◌||◌, Option, none, some,
  List, [], ◌∷◌, ◌++◌, Text, codes, text_eq, text_eq_sound, if◌then◌else◌, take, Status, ok, failed,
  arith, Bool-cases, ◌⊎◌, inl, inr,
}
use libudev_devd.Str.Copy.{strlcpy, strlcpy_lem, strlcat_lem}
use libudev_devd.Str.Paths.{get_syspath_by_devpath}
use libudev_devd.UdevList.{ListEntry, RbTree, find_name, udev_list_insert, udev_list_free}
use libudev_devd.UdevList.Laws.{IsValid, udev_list_insert-IsValid, find-udev_list_insert}
use libudev_devd.Scandir.{Dir, EntryType, symlink, chardev, directory, other}
use libudev_devd.Enumerate.{
  DevForest, Interface, SystemDevices, udev_enumerate_add_device, udev_dev_enumerate_cb,
  udev_dev_enumerate, add_sys, add_pci, udev_sys_enumerate_cb, udev_sys_enumerate,
  udev_pci_enumerate_cb, udev_pci_enumerate, net_loop, udev_net_enumerate, free_if_failed,
  udev_enumerate_scan_devices,
}
use libudev_devd.Devd.{dev_path_max, devd2udev_dbsf}
use libudev_devd.Enumerate.Listed.{
  dir_paths, node_path, sys_path, pci_path, net_paths, devinfo_paths, interface_paths, system_paths,
  has_path,
}
use libudev_devd.Enumerate.Listed.Walks.{
  Ends, Adds, and_then-Ends, none-Ends, Ends-ok, scandir_recursive-Adds, scandev-Adds,
}

-- The entry of a name in a list of the accepted ones among `paths`.
unfoldable pub listed : (Text → Bool) → List Text → Text → Option ListEntry
unfolding has_path
listed accepts paths n =
    if accepts n && has_path n paths then some (record { name = n; value = none }) else none

has_path-append :
    (n : Text) (xs ys : List Text) → has_path n (xs ++ ys) ≡ (has_path n xs || has_path n ys)
unfolding has_path
has_path-append n [] ys = refl
has_path-append n (x ∷ xs) ys = ground (arith, has_path-append n xs ys)

listed-rejected :
    (accepts : Text → Bool) (xs : List Text) (path n : Text)
    → accepts path ≡ false
    → listed accepts (xs ++ path ∷ []) n ≡ listed accepts xs n
unfolding listed
listed-rejected accepts xs path n h = elim (Bool-cases (text_eq path n)) [
  | inl same ↦
      let no : accepts n ≡ false = ap accepts (sym (text_eq_sound path n same)) ∙ h in
      ground (arith)
  | inr differ ↦ ground (arith, has_path-append n xs (path ∷ []))
]

listed-inserted :
    (accepts : Text → Bool) (xs : List Text) (path n : Text) (old : Option ListEntry)
    → accepts path ≡ true
    → old ≡ listed accepts xs n
    → (if text_eq path n then some (record { name = path; value = none }) else old)
      ≡ listed accepts (xs ++ path ∷ []) n
unfolding listed
listed-inserted accepts xs path n old h e = elim (Bool-cases (text_eq path n)) [
  | inl same ↦
      let eq = text_eq_sound path n same in
      let fits : accepts n ≡ true = ap accepts (sym eq) ∙ h in
      ground (arith, has_path-append n xs (path ∷ []))
  | inr differ ↦ ground (arith, has_path-append n xs (path ∷ []))
]

none_listed : (b : Bool) (e : ListEntry) → (if b && false then some e else none) ≡ none
none_listed true e = refl
none_listed false e = refl

-- The name of an interface in its buffer of `ifnamsiz` bytes.
name_copied : (ifnamsiz : ℕ) (name : Text) → (strlcpy [] name ifnamsiz).0 ≡ take (ifnamsiz - 1) name
unfolding strlcpy
name_copied zero name = refl
name_copied (suc n) name = (strlcpy_lem [] name n).0 ∙ ap (λ k. take k name) (omega arith)

module _ (R : RbTree) (accepts : Text → Bool) (memory : Text → Bool) (have_devinfo : Bool)
    (ifnamsiz : ℕ) where
  open R use {Tree}

  -- A valid list of the accepted ones among `paths`.
  record Lists (paths : List Text) (ul : Tree) : Type 0 where
    valid : IsValid R ul
    exact : (n : Text) → R.find ul n ≡ listed accepts paths n

  inserted-Lists :
      (path : Text) (got : Bool) (xs : List Text) (ul : Tree)
      → accepts path ≡ true
      → Lists xs ul
      → Ends (Lists (xs ++ path ∷ [])) (udev_list_insert R got ul path none)
  inserted-Lists path true xs ul fits h =
      Ends-ok (Lists (xs ++ path ∷ [])) (udev_list_insert R true ul path none) (record {
        valid = udev_list_insert-IsValid R true ul path none h.valid;
        exact = λ n.
            (find-udev_list_insert R ul path none n h.valid).0
            ∙ listed-inserted accepts xs path n (R.find ul n) fits (h.exact n);
      })
  inserted-Lists path false xs ul fits h =
      rw ((find-udev_list_insert R ul path none path h.valid).2) tt

  add_device-Lists :
      (path : Text)
      → Adds Lists
          (path ∷ [])
          (udev_enumerate_add_device R accepts memory have_devinfo ifnamsiz path)
  unfolding udev_enumerate_add_device
  add_device-Lists path xs ul h = elim (Bool-cases (accepts path)) [
    | inl fits ↦ rw fits (inserted-Lists path (memory path) xs ul fits h)
    | inr rejected ↦ rw rejected (record {
      valid = h.valid;
      exact = λ n. h.exact n ∙ sym (listed-rejected accepts xs path n rejected);
    })
  ]

  dev_cb-Lists :
      (path : Text) (type : EntryType)
      → Adds Lists
          (node_path path type)
          (udev_dev_enumerate_cb R accepts memory have_devinfo ifnamsiz path type)
  unfolding udev_dev_enumerate_cb node_path get_syspath_by_devpath
  dev_cb-Lists path symlink xs ul h = add_device-Lists path xs ul h
  dev_cb-Lists path chardev xs ul h = add_device-Lists path xs ul h
  dev_cb-Lists path directory xs ul h = none-Ends Lists xs ul h
  dev_cb-Lists path other xs ul h = none-Ends Lists xs ul h

  sys_cb-Lists :
      (attached : Bool) (name : Text)
      → Adds Lists
          (sys_path attached name)
          (add_sys R accepts memory have_devinfo ifnamsiz attached name)
  unfolding add_sys sys_path
  sys_cb-Lists attached [] xs ul h = none-Ends Lists xs ul h
  sys_cb-Lists false (c ∷ name) xs ul h = none-Ends Lists xs ul h
  sys_cb-Lists true (c ∷ name) xs ul h =
      rw ((strlcat_lem (codes "/sys/") (c ∷ name) dev_path_max (omega arith)).0)
        (add_device-Lists (codes "/sys/" ++ take (dev_path_max - 6) (c ∷ name)) xs ul h)

  pci_cb-Lists :
      (dbsf : Option Text)
      → Adds Lists (pci_path dbsf) (add_pci R accepts memory have_devinfo ifnamsiz dbsf)
  unfolding add_pci pci_path
  pci_cb-Lists none xs ul h = none-Ends Lists xs ul h
  pci_cb-Lists (some dbsf) xs ul h = add_device-Lists (codes "/pci/" ++ dbsf) xs ul h

  net_loop-Lists :
      (ifap : List Interface)
      → Adds Lists (net_paths ifnamsiz ifap) (net_loop R accepts memory have_devinfo ifnamsiz ifap)
  unfolding net_loop net_paths
  net_loop-Lists [] xs ul h = none-Ends Lists xs ul h
  net_loop-Lists (ifa ∷ rest) xs ul h = elim (Bool-cases ifa.is_link) [
    | inl link ↦
        rw (link, name_copied ifnamsiz ifa.ifa_name)
          (and_then-Ends Lists xs ((codes "/net/" ++ take (ifnamsiz - 1) ifa.ifa_name) ∷ []) _ _ _
            (add_device-Lists _ xs ul h) (net_loop-Lists rest))
    | inr skipped ↦ rw skipped (net_loop-Lists rest xs ul h)
  ]

  interfaces-Lists :
      (ifap : Option (List Interface))
      → Adds Lists
          (interface_paths ifnamsiz ifap)
          (udev_net_enumerate R accepts memory have_devinfo ifnamsiz ifap)
  unfolding udev_net_enumerate interface_paths
  interfaces-Lists none xs ul h = tt
  interfaces-Lists (some ifap) xs ul h = net_loop-Lists ifap xs ul h

  dev-Lists :
      (d : Dir)
      → Adds Lists
          (dir_paths node_path d (codes "/dev/") (dev_path_max - 5 - 1))
          (udev_dev_enumerate R accepts memory have_devinfo ifnamsiz d)
  unfolding udev_dev_enumerate
  dev-Lists d = scandir_recursive-Adds Lists node_path _ dev_cb-Lists d (codes "/dev/") dev_path_max

  sys-Lists :
      (roots : Option DevForest)
      → Adds Lists
          (devinfo_paths have_devinfo (λ dev. sys_path dev.attached dev.dd_name) roots)
          (udev_sys_enumerate R accepts memory have_devinfo ifnamsiz roots)
  unfolding udev_sys_enumerate udev_sys_enumerate_cb
  sys-Lists roots =
      scandev-Adds Lists _ _ (λ dev. sys_cb-Lists dev.attached dev.dd_name) have_devinfo roots

  pci-Lists :
      (roots : Option DevForest)
      → Adds Lists
          (devinfo_paths have_devinfo
            (λ dev. pci_path (devd2udev_dbsf dev.dd_location (dev_path_max - 5)))
            roots)
          (udev_pci_enumerate R accepts memory have_devinfo ifnamsiz roots)
  unfolding udev_pci_enumerate udev_pci_enumerate_cb
  pci-Lists roots =
      scandev-Adds Lists _ _
        (λ dev. pci_cb-Lists (devd2udev_dbsf dev.dd_location (dev_path_max - 5))) have_devinfo roots

  free-Lists : (ul : Tree) → Lists [] (udev_list_free R ul)
  unfolding udev_list_free listed
  free-Lists ul =
      let v : IsValid R R.init = rw R.entries-init tt in
      record {
        valid = v;
        exact = λ n.
            R.find_lem R.init n v
            ∙ ap (find_name n) R.entries-init
            ∙ sym (none_listed (accepts n) (record { name = n; value = none }));
      }

  -- How a scan ends, with nothing in the list or with all that it should hold.
  abbrev pub Exact : List Text → Tree × Status → Type 0
  Exact paths w =
      ((w.1 ≡ failed) × (R.entries w.0 ≡ []))
      ⊎ ((w.1 ≡ ok) × IsValid R w.0 × ((n : Text) → R.find w.0 n ≡ listed accepts paths n))

  freed-Exact :
      (paths : List Text) (w : Tree × Status)
      → Ends (Lists paths) w
      → Exact paths (free_if_failed R accepts memory have_devinfo ifnamsiz w)
  unfolding free_if_failed udev_list_free
  freed-Exact paths (ul, ok) h = inr (refl, h.valid, h.exact)
  freed-Exact paths (ul, failed) h = inl (refl, R.entries-init)

  -- Whatever the list of the enumerator held before and whichever calls fail, a scan either reports a
  -- failure and leaves the list empty, or succeeds, and then a name is in the list exactly when it is
  -- among the syspaths of the system's device nodes, of its attached devices, of the PCI slots that
  -- devinfo tells and of its link-layer interfaces, and the filters accept it; its entry has no value.
  pub scan_devices-Exact :
      (d : SystemDevices) (ul : Tree)
      → Exact
          (system_paths have_devinfo ifnamsiz d)
          (udev_enumerate_scan_devices R accepts memory have_devinfo ifnamsiz d ul)
  unfolding udev_enumerate_scan_devices system_paths
  scan_devices-Exact d ul = freed-Exact (system_paths have_devinfo ifnamsiz d) _ (
      and_then-Ends Lists [] _ _ _ _
        (and_then-Ends Lists [] _ _ _ _
          (and_then-Ends Lists [] _ _ _ _ (dev-Lists d.dev [] _ (free-Lists ul))
            (sys-Lists d.devinfo))
          (pci-Lists d.devinfo))
        (interfaces-Lists d.interfaces))
