-- ===== src/Subsystem.antt =====
-- udev-utils.c: the table `subsystems`, and the functions that look a syspath up in it.
use libudev_devd.Common.{
  ℕ, ◌≡◌, Bool, true, false, ◌&&◌, not, Option, none, some, List, [], ◌∷◌, ◌++◌, Text, codes, ◌==◌,
  if◌then◌else◌, bit_and, String,
}
pub mod Laws

-- What the build and the running system decide. `fnmatch` is that of the C library on pointers:
-- true for a match with flags 0, and nothing is known of it at NULL. `evdev_support` is what
-- sysctlbyname reads of kern.features.evdev_support, `none` where the call fails; the static
-- variable that caches it changes nothing, as that feature is fixed while the kernel runs.
pub record Platform : Type 0 where
  pub have_evdev : Bool  -- HAVE_LINUX_INPUT_H or HAVE_DEV_EVDEV_INPUT_H
  pub have_hidraw : Bool  -- HAVE_DEV_HID_HIDRAW_H
  pub have_devinfo : Bool  -- HAVE_DEVINFO_H
  pub fnmatch : Option Text → Option Text → Bool
  pub evdev_support : Option ℕ

pub data CreateHandler : Type 0 where
  evdev keyboard kbdmux mouse joystick touchpad touchscreen sysmouse drm net hidraw pci :
      CreateHandler

pub record SubsystemConfig : Type 0 where
  pub subsystem : Option Text
  pub devtype : Option Text
  pub syspath : Option Text
  pub symlink : Option Text
  pub flags : ℕ
  pub create_handler : Option CreateHandler

abbrev pub scflag_skip_if_evdev : ℕ
scflag_skip_if_evdev = 1

abbrev pub unknown_subsystem : Text
unknown_subsystem = codes "#"

-- An entry with a path and a handler alone.
abbrev entry : String → String → ℕ → CreateHandler → SubsystemConfig
entry subsystem syspath flags handler = record {
  subsystem = some (codes subsystem);
  devtype = none;
  syspath = some (codes syspath);
  symlink = none;
  flags = flags;
  create_handler = some handler;
}

-- The empty initialiser `{ }` behind the network entries.
abbrev pub empty_entry : SubsystemConfig
empty_entry = record {
  subsystem = none;
  devtype = none;
  syspath = none;
  symlink = none;
  flags = 0;
  create_handler = none;
}

-- The entries in front of the empty one.
unfoldable pub device_entries : Bool → List SubsystemConfig
device_entries have_evdev =
    (if have_evdev then entry "input" "/dev/input/event[0-9]*" 0 evdev ∷ [] else [])
    ++ entry "input" "/dev/ukbd[0-9]*" 1 keyboard
      ∷ entry "input" "/dev/atkbd[0-9]*" 1 keyboard
      ∷ entry "input" "/dev/kbdmux[0-9]*" 1 kbdmux
      ∷ entry "input" "/dev/ums[0-9]*" 1 mouse
      ∷ entry "input" "/dev/psm[0-9]*" 1 mouse
      ∷ entry "input" "/dev/joy[0-9]*" 0 joystick
      ∷ entry "input" "/dev/atp[0-9]*" 0 touchpad
      ∷ entry "input" "/dev/wsp[0-9]*" 0 touchpad
      ∷ entry "input" "/dev/uep[0-9]*" 0 touchscreen
      ∷ entry "input" "/dev/sysmouse" 1 sysmouse
      ∷ entry "input" "/dev/vboxguest" 0 mouse
      ∷ record (entry "drm" "/dev/dri/card[0-9]*" 0 drm) {
        symlink = some (codes "/dev/drm/[0-9]*");
      }
      ∷ record (entry "net" "/net/wlan[0-9]*" 0 net) { devtype = some (codes "wlan") }
      ∷ entry "net" "/net/*" 0 net
      ∷ []

-- The entries behind it.
unfoldable pub bus_entries : Bool → Bool → List SubsystemConfig
bus_entries have_hidraw have_devinfo =
    (if have_hidraw then entry "hidraw" "/dev/hidraw[0-9]*" 0 hidraw ∷ [] else [])
    ++ (if have_devinfo then entry "pci" "/pci/*" 0 pci ∷ [] else [])

unfoldable pub subsystems : Platform → List SubsystemConfig
subsystems p = device_entries p.have_evdev ++ empty_entry ∷ bus_entries p.have_hidraw p.have_devinfo

module _ (p : Platform) where
  -- The first entry whose pattern matches.
  unfoldable pub find_config : List SubsystemConfig → Text → Option SubsystemConfig
  find_config [] path = none
  find_config (sc ∷ rest) path =
      if p.fnmatch sc.syspath (some path) then some sc else find_config rest path

  unfoldable pub get_subsystem_config_by_syspath : Text → Option SubsystemConfig
  get_subsystem_config_by_syspath path = find_config (subsystems p) path

  -- The value cached is used as a bool.
  unfoldable pub kernel_has_evdev_enabled : Bool
  kernel_has_evdev_enabled = elim p.evdev_support [
    | none ↦ false
    | some enabled ↦ not (enabled == 0)
  ]

  -- `sc->flags & SCFLAG_SKIP_IF_EVDEV && kernel_has_evdev_enabled()`
  unfoldable pub is_skipped : SubsystemConfig → Bool
  is_skipped sc = not (bit_and sc.flags scflag_skip_if_evdev == 0) && kernel_has_evdev_enabled

  unfoldable pub subsystem_of : Option SubsystemConfig → Option Text × Option (Option Text)
  subsystem_of none = (some unknown_subsystem, none)
  subsystem_of (some sc) =
      if is_skipped sc then (some unknown_subsystem, none) else (sc.subsystem, some sc.devtype)

  -- The subsystem, and what is stored to `*devtype`: `none` where it is left as it was.
  unfoldable pub get_subsystem_by_syspath : Text → Option Text × Option (Option Text)
  get_subsystem_by_syspath syspath = subsystem_of (get_subsystem_config_by_syspath syspath)

  unfoldable pub handler_of : Option SubsystemConfig → Option CreateHandler
  handler_of none = none
  handler_of (some sc) = elim sc.create_handler [
    | none ↦ none
    | some h ↦ if is_skipped sc then none else some h
  ]

  -- The handler that invoke_create_handler calls, if any.
  unfoldable pub invoke_create_handler : Text → Option CreateHandler
  invoke_create_handler path = handler_of (get_subsystem_config_by_syspath path)
