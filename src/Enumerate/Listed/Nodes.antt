-- ===== src/Enumerate/Listed/Nodes.antt =====
-- The nodes below /dev, whatever room their names take, and a scan of a system whose nodes have names
-- that fit DEV_PATH_MAX.
use libudev_devd.Common.{
  ℕ, ◌+◌, ◌-◌, ◌≡◌, refl, ap, ◌∙◌, Bool, true, false, ◌&&◌, ◌||◌, Option, none, some, List, [], ◌∷◌,
  ◌++◌, Text, codes, ltb, if◌then◌else◌, length, length-append, Bool-cases, &&-eq_true, ok, failed,
  ◌⊎◌, inl, inr, arith,
}
use libudev_devd.Subsystem.{Platform}
use libudev_devd.Filter.{DeviceLists}
use libudev_devd.Filter.Spec.{accepts}
use libudev_devd.UdevList.{RbTree, IsOrdered, find_name, udev_list_entry_foreach}
use libudev_devd.Scandir.{Dir, Entries, opened, no_memory, refused, end, leaf, subdir, is_dots}
use libudev_devd.Devd.{dev_path_max, devd2udev_dbsf}
use libudev_devd.Enumerate.{SystemDevices}
use libudev_devd.Enumerate.Rules.{Enumerator, scan}
use libudev_devd.Enumerate.Listed.{
  node_path, dir_paths, entry_paths, devinfo_paths, sys_path, pci_path, interface_paths,
  system_paths, has_path,
}
use libudev_devd.Enumerate.Listed.Filtered.{scan-exact}

-- The paths of the links and character devices below a directory, but for the entries . and .. of
-- each directory.
unfoldable mutual
  unfolding is_dots node_path

  pub nodes_of : Dir → Text → List Text
  nodes_of (opened es) path = nodes_in es path
  nodes_of no_memory path = []
  nodes_of refused path = []

  pub nodes_in : Entries → Text → List Text
  nodes_in end path = []
  nodes_in (leaf name type es) path =
      let rest = nodes_in es path in
      if is_dots name then rest else node_path (path ++ name) type ++ rest
  nodes_in (subdir name dir es) path =
      let rest = nodes_in es path in
      let below = nodes_of dir (path ++ (name ++ b'/' ∷ [])) in
      if is_dots name then rest else below ++ rest

-- Every path below a directory, with its NUL, has at most DEV_PATH_MAX bytes; that of a directory
-- with a slash too.
unfoldable mutual
  unfolding is_dots

  pub dir_fits : Dir → Text → Bool
  dir_fits (opened es) path = entries_fit es path
  dir_fits no_memory path = true
  dir_fits refused path = true

  pub entries_fit : Entries → Text → Bool
  entries_fit end path = true
  entries_fit (leaf name type es) path =
      (is_dots name || ltb (length (path ++ name)) 80) && entries_fit es path
  entries_fit (subdir name dir es) path =
      let below = path ++ (name ++ b'/' ∷ []) in
      (is_dots name || ltb (length below) 80 && dir_fits dir below) && entries_fit es path

leaf_room :
    (path name : Text) (rem : ℕ)
    → length path + rem ≡ 79
    → is_dots name ≡ false
    → (is_dots name || ltb (length (path ++ name)) 80) ≡ true
    → ltb rem (length name) ≡ false
leaf_room path name rem h d k = ground (arith, length-append path name)

subdir_room :
    (path name : Text) (rem : ℕ) (inner : Bool)
    → length path + rem ≡ 79
    → is_dots name ≡ false
    → (is_dots name || ltb (length (path ++ (name ++ b'/' ∷ []))) 80 && inner) ≡ true
    → (ltb rem (length name) ≡ false)
      × (ltb (rem - length name) 1 ≡ false)
      × (length (path ++ (name ++ b'/' ∷ [])) + (rem - length name - 1) ≡ 79)
      × (inner ≡ true)
subdir_room path name rem inner h d k =
    ground (arith, length-append path (name ++ b'/' ∷ []), length-append name (b'/' ∷ []))

mutual
  unfolding dir_paths entry_paths nodes_of nodes_in dir_fits entries_fit

  dir_paths-nodes_of :
      (dir : Dir) (path : Text) (rem : ℕ)
      → length path + rem ≡ 79
      → dir_fits dir path ≡ true
      → dir_paths node_path dir path rem ≡ nodes_of dir path
  dir_paths-nodes_of (opened es) path rem h k = entry_paths-nodes_in es path rem h k
  dir_paths-nodes_of no_memory path rem h k = refl
  dir_paths-nodes_of refused path rem h k = refl

  entry_paths-nodes_in :
      (es : Entries) (path : Text) (rem : ℕ)
      → length path + rem ≡ 79
      → entries_fit es path ≡ true
      → entry_paths node_path es path rem ≡ nodes_in es path
  entry_paths-nodes_in end path rem h k = refl
  entry_paths-nodes_in (leaf name type es) path rem h k =
      let (this, others) = &&-eq_true _ (entries_fit es path) k in
      let rest = entry_paths-nodes_in es path rem h others in
      elim (Bool-cases (is_dots name)) [
        | inl dots ↦ rw dots rest
        | inr real ↦
            rw (real, leaf_room path name rem h real this)
              (ap (λ t. node_path (path ++ name) type ++ t) rest)
      ]
  entry_paths-nodes_in (subdir name dir es) path rem h k =
      let below = path ++ (name ++ b'/' ∷ []) in
      let (this, others) = &&-eq_true _ (entries_fit es path) k in
      let rest = entry_paths-nodes_in es path rem h others in
      elim (Bool-cases (is_dots name)) [
        | inl dots ↦ rw dots rest
        | inr real ↦
            (let (room, slash, left, inside) =
                subdir_room path name rem (dir_fits dir below) h real this in
              rw
                (
                  real,
                  room,
                  slash,
                  dir_paths-nodes_of dir below (rem - length name - 1) left inside,
                )
                (ap (λ t. nodes_of dir below ++ t) rest))
      ]

-- The syspaths of a system: those of its nodes, of its attached devices, of its PCI slots and of its
-- link-layer interfaces.
unfoldable pub device_paths : Bool → ℕ → SystemDevices → List Text
unfolding nodes_of devinfo_paths sys_path pci_path interface_paths
device_paths have_devinfo ifnamsiz d =
    nodes_of d.dev (codes "/dev/")
    ++ devinfo_paths have_devinfo (λ dev. sys_path dev.attached dev.dd_name) d.devinfo
    ++ devinfo_paths have_devinfo
        (λ dev. pci_path (devd2udev_dbsf dev.dd_location (dev_path_max - 5))) d.devinfo
    ++ interface_paths ifnamsiz d.interfaces

system_paths-device_paths :
    (have_devinfo : Bool) (ifnamsiz : ℕ) (d : SystemDevices)
    → dir_fits d.dev (codes "/dev/") ≡ true
    → system_paths have_devinfo ifnamsiz d ≡ device_paths have_devinfo ifnamsiz d
unfolding system_paths device_paths
system_paths-device_paths have_devinfo ifnamsiz d h =
    rw (dir_paths-nodes_of d.dev (codes "/dev/") 74 refl h) refl

-- Where every path below /dev fits its buffer, creating a device for a syspath always gives the same,
-- and whatever the list of the enumerator held before: either a scan reports a failure and a client
-- visits no entry behind it, or it succeeds, and the client visits entries in the order of their names,
-- one for each name that is among the syspaths of the system's links and character devices in /dev,
-- its attached devices, its PCI slots and its link-layer interfaces, the names of the last three cut to
-- their buffers, and that the rules of the enumerator accept, and no other; none of them has a value. (Where a path does not fit, the walk over
-- /dev leaves out that node, or the rest of the directory that it stands in.)
pub scan-nodes :
    (R : RbTree) (p : Platform) (new_device : Text → ℕ → Option DeviceLists)
    (o : Text → Option DeviceLists) (memory : Text → Bool) (have_devinfo : Bool) (ifnamsiz : ℕ)
    (d : SystemDevices) (ue : Enumerator R)
    → ((path : Text) (n : ℕ) → new_device path n ≡ o path)
    → dir_fits d.dev (codes "/dev/") ≡ true
    → let (new, status) = scan R p new_device memory have_devinfo ifnamsiz d ue in
      let seen = udev_list_entry_foreach R new.dev_list in
      ((status ≡ failed) × (seen ≡ []))
      ⊎ ((status ≡ ok)
          × IsOrdered seen
          × ((n : Text)
              → find_name n seen ≡ (
                  if accepts p (o n) ue.filters n
                    && has_path n (device_paths have_devinfo ifnamsiz d)
                  then some (record { name = n; value = none })
                  else none)))
scan-nodes R p new_device o memory have_devinfo ifnamsiz d ue constant fits =
    elim (scan-exact R p new_device o constant memory have_devinfo ifnamsiz d ue) [
      | inl h ↦ inl h
      | inr h ↦ inr (
        h.0,
        h.1,
        λ n.
            h.2 n
            ∙ ap
                (λ ps.
                  if accepts p (o n) ue.filters n && has_path n ps
                  then some (record { name = n; value = none })
                  else none)
                (system_paths-device_paths have_devinfo ifnamsiz d fits),
      )
    ]
