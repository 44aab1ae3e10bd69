-- ===== src/Client.antt =====
-- udev-test.c: a program that lists the input devices and then follows what the monitor tells. Its output
-- is the list of the texts that it prints.
use libudev_devd.Common.{
  ℕ, Bool, true, false, Option, none, some, List, [], ◌∷◌, ◌++◌, Text, codes, if◌then◌else◌, ◌>>=◌,
}
use libudev_devd.Subsystem.{Platform}
use libudev_devd.Filter.{DeviceLists}
use libudev_devd.UdevList.{ListEntry, RbTree, udev_list_entry_foreach}
use libudev_devd.Enumerate.{SystemDevices}
use libudev_devd.Enumerate.Rules.{
  Enumerator, scan, udev_enumerate_new, udev_enumerate_add_match_subsystem,
}
use libudev_devd.Devd.{Event}
use libudev_devd.Device.Accessors.{
  udev_device_get_devnode, udev_device_get_subsystem, udev_device_get_action,
}
pub mod Laws

-- What printf makes of "%s"; `null` is what it prints for NULL.
unfoldable pub shown : Text → Option Text → Text
shown null none = null
shown null (some s) = s

unfoldable pub device_line : Text → Text → Text
unfolding shown udev_device_get_devnode
device_line null path =
    codes "Device Node Path: " ++ (shown null (udev_device_get_devnode path) ++ codes "\n")

-- The loop over the entries. `created` tells whether udev_device_new_from_syspath gives a device; where it
-- gives NULL, the program reads through a null pointer, `none` here.
unfoldable pub print_entries : Text → (Text → Bool) → List ListEntry → Option (List Text)
unfolding device_line
print_entries null created [] = some []
print_entries null created (entry ∷ rest) =
    let others = print_entries null created rest in
    if created entry.name
    then others >>= (λ lines. some (device_line null entry.name ∷ lines))
    else none

module _ (R : RbTree) (p : Platform) (new_device : Text → ℕ → Option DeviceLists)
    (memory : Text → Bool) (have_devinfo : Bool) (ifnamsiz : ℕ) where
  -- From udev_enumerate_new to udev_enumerate_unref. `calls` answers the calls of calloc for the
  -- enumerator and for its rule; without an enumerator the program reads through a null pointer.
  unfoldable pub list_devices :
      (calls : ℕ → Bool) → Text → (Text → Bool) → SystemDevices → Option (List Text)
  unfolding udev_enumerate_new udev_enumerate_add_match_subsystem scan print_entries
  list_devices calls null created d = udev_enumerate_new R (calls 0) >>= λ enumerate.
      let matched = (udev_enumerate_add_match_subsystem R (calls 1) enumerate (codes "input")).0 in
      let scanned = (scan R p new_device memory have_devinfo ifnamsiz d matched).0 in
      print_entries null created (udev_list_entry_foreach R scanned.dev_list)

-- The lines about a device that was received.
unfoldable pub print_device : Platform → Text → Event → List Text
unfolding shown udev_device_get_devnode udev_device_get_subsystem udev_device_get_action
print_device p null (action, syspath) =
    codes "Got Device\n"
    ∷ (codes "   Node: " ++ (shown null (udev_device_get_devnode syspath) ++ codes "\n"))
    ∷ (codes "   Subsystem: " ++ (shown null (udev_device_get_subsystem p syspath) ++ codes "\n"))
    ∷ (codes "   Action: " ++ (udev_device_get_action (some action) ++ codes "\n"))
    ∷ []

-- A pass of the endless loop: whether select finds the descriptor readable, and what
-- udev_monitor_receive_device then gives.
unfoldable pub print_pass : Platform → Text → Bool → Option Event → List Text
unfolding print_device
print_pass p null false dev = codes "." ∷ []
print_pass p null true none =
    codes "\nselect() says there should be data\n"
    ∷ codes "No Device from receive_device(). An error occured.\n"
    ∷ codes "."
    ∷ []
print_pass p null true (some dev) =
    codes "\nselect() says there should be data\n" ∷ (print_device p null dev ++ codes "." ∷ [])

unfoldable pub print_passes : Platform → Text → List (Bool × Option Event) → List Text
unfolding print_pass
print_passes p null [] = []
print_passes p null ((readable, dev) ∷ passes) =
    print_pass p null readable dev ++ print_passes p null passes
