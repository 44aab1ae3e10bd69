-- ===== src/Examples/Scans.antt =====
-- Scans of an enumerator.
use libudev_devd.Common.{
  text_eq, ◌≡◌, refl, true, false, ◌&&◌, none, some, [], ◌∷◌, Text, codes, if◌then◌else◌, ◌⊎◌, ok,
  failed,
}
use libudev_devd.Scandir.{opened, leaf, subdir, end, chardev, symlink, is_dots}
use libudev_devd.Filter.Spec.{accepts}
use libudev_devd.UdevList.{IsOrdered, find_name, udev_list_entry_foreach}
use libudev_devd.Enumerate.{SystemDevices, node, leaves, tree}
use libudev_devd.Enumerate.Rules.{scan}
use libudev_devd.Enumerate.Listed.{has_path}
use libudev_devd.Enumerate.Listed.Nodes.{device_paths, dir_fits, scan-nodes}
use libudev_devd.Enumerate.Listed.Total.{answers, has_memory, all_memory}
use libudev_devd.Enumerate.Listed.Filtered.{scan-succeeds}
use libudev_devd.Examples.SortedList.{sorted_list}
use libudev_devd.Examples.Filters.{freebsd, mouse_lists, mouse_enumerator}

-- Two nodes, one of them in a directory, a link, a hub with a device below it, and an interface.
abbrev small_system : SystemDevices
small_system = record {
  dev = opened (
      leaf (codes "ums0") chardev (
        subdir (codes "input") (opened (leaf (codes "event0") chardev end))
          (leaf (codes "kbd0") symlink end)));
  devinfo = some (
      tree
        (node
          (record {
            dd_name = codes "uhub0";
            attached = true;
            dd_location = codes "slot=1 dbsf=pci0:0:29:0";
          })
          (tree
            (node (record { dd_name = codes "ums0"; attached = false; dd_location = [] }) leaves)
            leaves))
        leaves);
  interfaces = some (
      record { ifa_name = codes "em0"; is_link = true }
      ∷ record { ifa_name = codes "em0"; is_link = false }
      ∷ []);
}

scan-nodes_example :
    let (new, status) =
      scan sorted_list freebsd
        (λ path n. some mouse_lists)
        (λ path. true)
        true
        16
        small_system
        mouse_enumerator in
    let seen = udev_list_entry_foreach sorted_list new.dev_list in
    ((status ≡ failed) × (seen ≡ []))
    ⊎ ((status ≡ ok)
        × IsOrdered seen
        × ((n : Text)
            → find_name n seen ≡ (
                if accepts freebsd (some mouse_lists) mouse_enumerator.filters n
                  && has_path n (device_paths true 16 small_system)
                then some (record { name = n; value = none })
                else none)))
unfolding dir_fits is_dots text_eq
scan-nodes_example =
    scan-nodes sorted_list freebsd (λ path n. some mouse_lists) (λ path. some mouse_lists)
      (λ path. true) true 16 small_system mouse_enumerator (λ path n. refl) refl

small_system-answers : answers true small_system ≡ true
unfolding answers has_memory all_memory
small_system-answers = refl

scan-succeeds_example :
    (scan sorted_list freebsd
      (λ path n. some mouse_lists)
      (λ path. true)
      true
      16
      small_system
      mouse_enumerator).1
    ≡ ok
scan-succeeds_example =
    scan-succeeds sorted_list freebsd (λ path n. some mouse_lists) (λ path. true) true 16
      small_system mouse_enumerator (λ path. refl) small_system-answers
