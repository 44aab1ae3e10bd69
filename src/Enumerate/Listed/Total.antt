-- ===== src/Enumerate/Listed/Total.antt =====
-- A scan whose calls of the system all succeed.
use libudev_devd.Common.{
  ℕ, ◌-◌, ◌≡◌, refl, Bool, true, false, ◌&&◌, ◌||◌, not, Option, none, some, List, [], ◌∷◌, ◌++◌,
  Text, ltb, if◌then◌else◌, length, Status, ok, failed, and_then, Bool-cases, inl, inr, &&-eq_true,
}
use libudev_devd.UdevList.{RbTree, udev_list_insert, insert_entry, udev_list_entry_alloc}
use libudev_devd.Scandir.{
  Dir, Entries, opened, no_memory, refused, end, leaf, subdir, EntryType, symlink, chardev,
  directory, other, Callback, is_dots, scandir_sub, scan_entries, scandir_recursive,
}
use libudev_devd.Enumerate.{
  DevinfoDev, DevTree, DevForest, node, leaves, tree, Interface, SystemDevices, scandev_sub,
  foreach_child, scandev_recursive, udev_enumerate_add_device, udev_dev_enumerate_cb,
  udev_dev_enumerate, add_sys, add_pci, udev_sys_enumerate_cb, udev_sys_enumerate,
  udev_pci_enumerate_cb, udev_pci_enumerate, net_loop, udev_net_enumerate, free_if_failed,
  udev_enumerate_scan_devices,
}
use libudev_devd.Devd.{devd2udev_dbsf}

-- opendir never fails with ENOMEM.
unfoldable mutual
  pub has_memory : Dir → Bool
  has_memory (opened es) = all_memory es
  has_memory no_memory = false
  has_memory refused = true

  pub all_memory : Entries → Bool
  all_memory end = true
  all_memory (leaf name type es) = all_memory es
  all_memory (subdir name dir es) = has_memory dir && all_memory es

abbrev pub is_some {ℓ} : {A : Type ℓ} → Option A → Bool
is_some none = false
is_some (some a) = true

-- Every call that a scan makes of the system succeeds.
unfoldable pub answers : Bool → SystemDevices → Bool
unfolding has_memory
answers have_devinfo d =
    has_memory d.dev && ((not have_devinfo || is_some d.devinfo) && is_some d.interfaces)

-- A call that never fails.
abbrev Succeeds : {S : Type 0} → (S → S × Status) → Type 0
Succeeds {S} f = (s : S) → (f s).1 ≡ ok

and_then-ok :
    {S : Type 0} (w : S × Status) (rest : S → S × Status)
    → w.1 ≡ ok
    → Succeeds rest
    → (and_then w rest).1 ≡ ok
and_then-ok (s, ok) rest h k = k s
and_then-ok (s, failed) rest h k = h

module _ {S : Type 0} (cb : Callback S)
    (works : (path : Text) (type : EntryType) → Succeeds (cb path type)) where
  mutual
    unfolding scandir_sub scan_entries has_memory all_memory

    sub-ok :
        (dir : Dir) (path : Text) (rem : ℕ)
        → has_memory dir ≡ true
        → Succeeds (scandir_sub true cb dir path rem)
    sub-ok (opened es) path rem h s = entries-ok es path rem h s
    sub-ok no_memory path rem h s = cc
    sub-ok refused path rem h s = refl

    entries-ok :
        (es : Entries) (path : Text) (rem : ℕ)
        → all_memory es ≡ true
        → Succeeds (scan_entries true cb es path rem)
    entries-ok end path rem h s = refl
    entries-ok (leaf name type es) path rem h s =
        elim (Bool-cases (is_dots name || ltb rem (length name))) [
          | inl out ↦ rw out (entries-ok es path rem h s)
          | inr taken ↦ rw taken (
              and_then-ok (cb (path ++ name) type s) _ (works (path ++ name) type s)
                (entries-ok es path rem h))
        ]
    entries-ok (subdir name dir es) path rem h s =
        let (here, behind) = &&-eq_true (has_memory dir) (all_memory es) h in
        elim (Bool-cases (is_dots name || ltb rem (length name))) [
          | inl out ↦ rw out (entries-ok es path rem behind s)
          | inr taken ↦ rw taken (elim (Bool-cases (ltb (rem - length name) 1)) [
            | inl full ↦ rw full refl
            | inr room ↦ rw room (
                and_then-ok _ _
                  (sub-ok dir (path ++ (name ++ b'/' ∷ [])) (rem - length name - 1) here s)
                  (entries-ok es path rem behind))
          ])
        ]

  scandir_recursive-ok :
      (root : Dir) (path : Text) (len : ℕ)
      → has_memory root ≡ true
      → Succeeds (scandir_recursive true cb root path len)
  unfolding scandir_recursive
  scandir_recursive-ok root path len h = sub-ok root path (len - length path - 1) h

module _ {S : Type 0} (cb : DevinfoDev → S → S × Status)
    (works : (dev : DevinfoDev) → Succeeds (cb dev)) where
  mutual
    unfolding scandev_sub foreach_child

    tree-ok : (t : DevTree) → Succeeds (scandev_sub cb t)
    tree-ok (node dev children) s = and_then-ok (cb dev s) _ (works dev s) (forest-ok children)

    forest-ok : (f : DevForest) → Succeeds (foreach_child cb f)
    forest-ok leaves s = refl
    forest-ok (tree t rest) s = and_then-ok (scandev_sub cb t s) _ (tree-ok t s) (forest-ok rest)

  scandev-ok :
      (have_devinfo : Bool) (roots : Option DevForest) (s : S)
      → (not have_devinfo || is_some roots) ≡ true
      → (if have_devinfo then scandev_recursive cb roots s else (s, ok)).1 ≡ ok
  unfolding scandev_recursive
  scandev-ok false roots s h = refl
  scandev-ok true none s h = cc
  scandev-ok true (some roots) s h = forest-ok roots s

module _ (R : RbTree) (accepts : Text → Bool) (memory : Text → Bool)
    (plenty : (path : Text) → memory path ≡ true) (have_devinfo : Bool) (ifnamsiz : ℕ) where
  open R use {Tree}

  add_device-ok :
      (path : Text)
      → Succeeds (udev_enumerate_add_device R accepts memory have_devinfo ifnamsiz path)
  unfolding udev_enumerate_add_device udev_list_insert insert_entry udev_list_entry_alloc
  add_device-ok path ul = elim (Bool-cases (accepts path)) [
    | inl fits ↦ rw (fits, plenty path) refl
    | inr rejected ↦ rw rejected refl
  ]

  dev_cb-ok :
      (path : Text) (type : EntryType)
      → Succeeds (udev_dev_enumerate_cb R accepts memory have_devinfo ifnamsiz path type)
  unfolding udev_dev_enumerate_cb
  dev_cb-ok path symlink ul = add_device-ok _ ul
  dev_cb-ok path chardev ul = add_device-ok _ ul
  dev_cb-ok path directory ul = refl
  dev_cb-ok path other ul = refl

  add_sys-ok :
      (attached : Bool) (name : Text)
      → Succeeds (add_sys R accepts memory have_devinfo ifnamsiz attached name)
  unfolding add_sys
  add_sys-ok attached [] ul = refl
  add_sys-ok false (c ∷ name) ul = refl
  add_sys-ok true (c ∷ name) ul = add_device-ok _ ul

  add_pci-ok : (dbsf : Option Text) → Succeeds (add_pci R accepts memory have_devinfo ifnamsiz dbsf)
  unfolding add_pci
  add_pci-ok none ul = refl
  add_pci-ok (some dbsf) ul = add_device-ok _ ul

  net_loop-ok :
      (ifap : List Interface) → Succeeds (net_loop R accepts memory have_devinfo ifnamsiz ifap)
  unfolding net_loop
  net_loop-ok [] ul = refl
  net_loop-ok (ifa ∷ rest) ul = elim (Bool-cases ifa.is_link) [
    | inl link ↦ rw link (and_then-ok _ _ (add_device-ok _ ul) (net_loop-ok rest))
    | inr skipped ↦ rw skipped (net_loop-ok rest ul)
  ]

  interfaces-ok :
      (ifap : Option (List Interface))
      → is_some ifap ≡ true
      → Succeeds (udev_net_enumerate R accepts memory have_devinfo ifnamsiz ifap)
  unfolding udev_net_enumerate
  interfaces-ok none h ul = cc
  interfaces-ok (some ifap) h ul = net_loop-ok ifap ul

  freed-ok :
      (w : Tree × Status)
      → w.1 ≡ ok
      → (free_if_failed R accepts memory have_devinfo ifnamsiz w).1 ≡ ok
  unfolding free_if_failed
  freed-ok (ul, ok) h = refl
  freed-ok (ul, failed) h = h

  pub scan_devices-ok :
      (d : SystemDevices)
      → answers have_devinfo d ≡ true
      → Succeeds (udev_enumerate_scan_devices R accepts memory have_devinfo ifnamsiz d)
  unfolding udev_enumerate_scan_devices udev_dev_enumerate udev_sys_enumerate udev_sys_enumerate_cb
      udev_pci_enumerate udev_pci_enumerate_cb answers
  scan_devices-ok d h ul =
      let (dirs, others) = &&-eq_true (has_memory d.dev) _ h in
      let (walked, links) = &&-eq_true (not have_devinfo || is_some d.devinfo) _ others in
      freed-ok _ (
        and_then-ok _ _
          (and_then-ok _ _
            (and_then-ok _ _ (scandir_recursive-ok _ dev_cb-ok d.dev _ _ dirs _) (λ t.
              scandev-ok _ (λ dev. add_sys-ok dev.attached dev.dd_name) have_devinfo d.devinfo t
                walked))
            (λ t.
              scandev-ok _ (λ dev. add_pci-ok (devd2udev_dbsf dev.dd_location _)) have_devinfo
                d.devinfo t walked))
          (interfaces-ok d.interfaces links))
