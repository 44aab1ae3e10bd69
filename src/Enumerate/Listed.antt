-- ===== src/Enumerate/Listed.antt =====
-- What a scan of udev-enumerate.c comes upon, said as lists of syspaths without the callbacks, the
-- list that they fill and the ends of its walks.
use libudev_devd.Common.{
  ℕ, ◌-◌, ◌≡◌, Bool, true, false, ◌&&◌, ◌||◌, Option, none, some, List, [], ◌∷◌, ◌++◌, Text, codes,
  text_eq, ltb, if◌then◌else◌, length, take, any,
}
use libudev_devd.Scandir.{
  Dir, Entries, opened, no_memory, refused, end, leaf, subdir, EntryType, symlink, chardev,
  directory, other, is_dots,
}
use libudev_devd.Enumerate.{
  DevinfoDev, DevTree, DevForest, node, leaves, tree, Interface, SystemDevices,
}
use libudev_devd.Devd.{dev_path_max, devd2udev_dbsf}
pub mod Walks
pub mod Exact
pub mod Total
pub mod Filtered
pub mod Nodes

-- The nodes of /dev that count as devices.
unfoldable pub node_path : Text → EntryType → List Text
node_path path symlink = path ∷ []
node_path path chardev = path ∷ []
node_path path directory = []
node_path path other = []

-- What the entries of a directory tree give, with `found` for each that is no directory. `rem` bytes
-- are left for names: a name that is longer is passed over, and a directory whose slash has no room
-- ends its parent.
unfoldable mutual
  unfolding is_dots

  pub dir_paths : (Text → EntryType → List Text) → Dir → Text → ℕ → List Text
  dir_paths found (opened es) path rem = entry_paths found es path rem
  dir_paths found no_memory path rem = []
  dir_paths found refused path rem = []

  pub entry_paths : (Text → EntryType → List Text) → Entries → Text → ℕ → List Text
  entry_paths found end path rem = []
  entry_paths found (leaf name type es) path rem =
      let rest = entry_paths found es path rem in
      if is_dots name || ltb rem (length name) then rest else found (path ++ name) type ++ rest
  entry_paths found (subdir name dir es) path rem =
      let rest = entry_paths found es path rem in
      let below = dir_paths found dir (path ++ (name ++ b'/' ∷ [])) (rem - length name - 1) in
      if is_dots name || ltb rem (length name)
      then rest
      else if ltb (rem - length name) 1
      then []
      else below ++ rest

-- What the devices of devinfo give, a parent before its children.
unfoldable mutual
  pub tree_paths : (DevinfoDev → List Text) → DevTree → List Text
  tree_paths found (node dev children) = found dev ++ forest_paths found children

  pub forest_paths : (DevinfoDev → List Text) → DevForest → List Text
  forest_paths found leaves = []
  forest_paths found (tree t rest) = tree_paths found t ++ forest_paths found rest

unfoldable pub sys_path : Bool → Text → List Text
sys_path attached [] = []
sys_path false (c ∷ name) = []
sys_path true (c ∷ name) = (codes "/sys/" ++ take (dev_path_max - 6) (c ∷ name)) ∷ []

unfoldable pub pci_path : Option Text → List Text
pci_path none = []
pci_path (some dbsf) = (codes "/pci/" ++ dbsf) ∷ []

unfoldable pub net_paths : ℕ → List Interface → List Text
net_paths ifnamsiz [] = []
net_paths ifnamsiz (ifa ∷ rest) =
    let more = net_paths ifnamsiz rest in
    if ifa.is_link then (codes "/net/" ++ take (ifnamsiz - 1) ifa.ifa_name) ∷ more else more

unfoldable pub devinfo_paths : Bool → (DevinfoDev → List Text) → Option DevForest → List Text
unfolding forest_paths
devinfo_paths false found roots = []
devinfo_paths true found none = []
devinfo_paths true found (some roots) = forest_paths found roots

unfoldable pub interface_paths : ℕ → Option (List Interface) → List Text
unfolding net_paths
interface_paths ifnamsiz none = []
interface_paths ifnamsiz (some ifap) = net_paths ifnamsiz ifap

-- The syspaths of a system, in the order of a scan.
unfoldable pub system_paths : Bool → ℕ → SystemDevices → List Text
unfolding dir_paths node_path devinfo_paths sys_path pci_path interface_paths
system_paths have_devinfo ifnamsiz d =
    dir_paths node_path d.dev (codes "/dev/") (dev_path_max - 5 - 1)
    ++ devinfo_paths have_devinfo (λ dev. sys_path dev.attached dev.dd_name) d.devinfo
    ++ devinfo_paths have_devinfo
        (λ dev. pci_path (devd2udev_dbsf dev.dd_location (dev_path_max - 5))) d.devinfo
    ++ interface_paths ifnamsiz d.interfaces

unfoldable pub has_path : Text → List Text → Bool
has_path n [] = false
has_path n (path ∷ paths) = text_eq path n || has_path n paths
