-- ===== src/Client/Laws.antt =====
-- What the program lists.
use libudev_devd.Common.{
  ℕ, ◌≡◌, refl, Bool, true, ◌&&◌, Option, none, some, List, [], ◌∷◌, map, Text, codes,
  if◌then◌else◌, inl, inr,
}
use libudev_devd.Subsystem.{Platform}
use libudev_devd.Filter.{DeviceLists, FilterEntry, subsystem, udev_filter_add}
use libudev_devd.Filter.Spec.{accepts}
use libudev_devd.UdevList.{
  ListEntry, RbTree, IsOrdered, find_name, udev_list_entry_foreach, udev_list_init,
}
use libudev_devd.Enumerate.{SystemDevices}
use libudev_devd.Enumerate.Rules.{
  Enumerator, scan, udev_enumerate_new, udev_enumerate_add_match_subsystem,
}
use libudev_devd.Enumerate.Listed.{system_paths, has_path}
use libudev_devd.Enumerate.Listed.Total.{answers}
use libudev_devd.Enumerate.Listed.Filtered.{scan-exact, scan-succeeds}
use libudev_devd.Client.{device_line, print_entries, list_devices}

print_entries-all :
    (null : Text) (created : Text → Bool) (es : List ListEntry)
    → ((path : Text) → created path ≡ true)
    → print_entries null created es ≡ some (map (λ e. device_line null e.name) es)
unfolding print_entries
print_entries-all null created [] all = refl
print_entries-all null created (e ∷ es) all =
    rw (all e.name, print_entries-all null created es all) refl

-- The rule that the program adds.
abbrev pub input_rule : FilterEntry
input_rule = record { type = subsystem; neg = 0; expr = codes "input"; value = none }

-- Where memory is at hand and the system answers every call, where creating a device for a syspath in a
-- filter always gives the same, and where the program gets a device for every syspath: the program
-- prints one line for each of the system's syspaths that the rule for input devices accepts, in the
-- order of the syspaths, and no other, each with the node of the syspath.
pub list_devices_lem :
    (R : RbTree) (p : Platform) (new_device : Text → ℕ → Option DeviceLists)
    (o : Text → Option DeviceLists) (memory : Text → Bool) (have_devinfo : Bool) (ifnamsiz : ℕ)
    (calls : ℕ → Bool) (null : Text) (created : Text → Bool) (d : SystemDevices)
    → ((path : Text) (n : ℕ) → new_device path n ≡ o path)
    → ((path : Text) → memory path ≡ true)
    → ((n : ℕ) → calls n ≡ true)
    → ((path : Text) → created path ≡ true)
    → answers have_devinfo d ≡ true
    → (es : List ListEntry) × IsOrdered es
      × ((n : Text)
          → find_name n es ≡ (
              if accepts p (o n) (input_rule ∷ []) n
                && has_path n (system_paths have_devinfo ifnamsiz d)
              then some (record { name = n; value = none })
              else none))
      × (list_devices R p new_device memory have_devinfo ifnamsiz calls null created d
          ≡ some (map (λ e. device_line null e.name) es))
unfolding list_devices udev_enumerate_new udev_enumerate_add_match_subsystem udev_filter_add
list_devices_lem R p new_device o memory have_devinfo ifnamsiz calls null created d constant plenty
      allocated all h =
    let ue : Enumerator R = record {
      refcount = 1;
      filters = input_rule ∷ [];
      dev_list = udev_list_init R;
    } in
    let new = (scan R p new_device memory have_devinfo ifnamsiz d ue).0 in
    let es = udev_list_entry_foreach R new.dev_list in
    let done = scan-succeeds R p new_device memory have_devinfo ifnamsiz d ue plenty h in
    elim (scan-exact R p new_device o constant memory have_devinfo ifnamsiz d ue) [
      | inl fails ↦ absurd (cc)
      | inr listed ↦ (
        es,
        listed.1,
        listed.2,
        rw (allocated 0, allocated 1) (print_entries-all null created es all),
      )
    ]
