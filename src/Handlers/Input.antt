-- ===== src/Handlers/Input.antt =====
-- The handlers of input devices in udev-dev.c: those of the older drivers, and create_evdev_handler.
use libudev_devd.Common.{
  ◌>>=◌, ℕ, suc, ◌≡◌, ◌≢◌, refl, ◌∙◌, Bool, true, false, Option, none, some, List, [], ◌∷◌, ◌++◌,
  Text, codes, if◌then◌else◌, before, any, take, drop, text_eq, ok, arith,
}
use libudev_devd.UdevList.{ListEntry, RbTree}
use libudev_devd.UdevList.Laws.{IsValid}
use libudev_devd.Devd.Dbsf.{print_hex}
use libudev_devd.Str.Paths.{syspathlen_wo_units}
use libudev_devd.Input.Evdev.{
  InputType, it_none, keyboard, mouse, touchpad, touchscreen, joystick, tablet, accelerometer,
  switch, Codes, DeviceBits, detect,
}
use libudev_devd.Input.Properties.{
  ParentLists, set_input_device_type, set_input_device_type_lem, type_properties,
}
use libudev_devd.Handlers.Parent.{Node, attach_parent, set_parent}
pub mod Laws
pub mod Evdev

-- `struct input_id`
pub record InputId : Type 0 where
  pub bustype : ℕ
  pub vendor : ℕ
  pub product : ℕ
  pub version : ℕ

-- What is known of an evdev device at `found_values`: the strings name and phys, the ids, and the
-- arrays of bits.
pub record EvdevInfo : Type 0 where
  pub name : Text
  pub phys : Text
  pub id : InputId
  pub bits : DeviceBits

-- What sysctlbyname gives for a name: a string, with the size of its buffer, a `struct input_id`, or
-- an array of longs.
pub record Sysctls : Type 0 where
  pub text : Text → ℕ → Option Text
  pub input_id : Text → Option InputId
  pub longs : Text → Option (List ℕ)

-- snprintf(mib, sizeof(mib), "kern.evdev.input.%s.<leaf>", unit), with sizeof(mib) == 32
unfoldable pub evdev_mib : Text → Text → Text
evdev_mib unit leaf = take 31 (codes "kern.evdev.input." ++ (unit ++ (b'.' ∷ leaf)))

-- The eight calls, of which each failure goes to `use_ioctl`.
unfoldable pub by_sysctl : Sysctls → Text → Option EvdevInfo
unfolding evdev_mib
by_sysctl k unit = do
  name ← k.text (evdev_mib unit (codes "name")) 80
  phys ← k.text (evdev_mib unit (codes "phys")) 80
  id ← k.input_id (evdev_mib unit (codes "id"))
  key_bits ← k.longs (evdev_mib unit (codes "key_bits"))
  rel_bits ← k.longs (evdev_mib unit (codes "rel_bits"))
  abs_bits ← k.longs (evdev_mib unit (codes "abs_bits"))
  sw_bits ← k.longs (evdev_mib unit (codes "sw_bits"))
  prp_bits ← k.longs (evdev_mib unit (codes "props"))
  some (record {
    name = name;
    phys = phys;
    id = id;
    bits = record {
      key_bits = key_bits;
      rel_bits = rel_bits;
      abs_bits = abs_bits;
      sw_bits = sw_bits;
      prp_bits = prp_bits;
    };
  })

-- Up to `found_values`. `ioctls` is what the calls of ioctl on the device give, `none` where it cannot
-- be opened and path_to_fd does not find it either, or where one of the calls fails.
unfoldable pub query_evdev : Bool → Sysctls → Option EvdevInfo → Text → Option EvdevInfo
unfolding by_sysctl syspathlen_wo_units
query_evdev false k ioctls sysname = ioctls
query_evdev true k ioctls sysname =
    elim (by_sysctl k (drop (syspathlen_wo_units sysname) sysname)) [
      | none ↦ ioctls
      | some i ↦ some i
    ]

abbrev pub virtual_sysname : Text
virtual_sysname = codes "uinput"

-- `phys[0] == 0 ? virtual_sysname : phys`
unfoldable pub parent_sysname : Text → Text
parent_sysname [] = virtual_sysname
parent_sysname (c ∷ phys) = c ∷ phys

-- "%x/%x/%x/%x"
unfoldable pub print_evdev_product : EvdevInfo → Text
unfolding print_hex
print_evdev_product i = print_hex 1 i.id.bustype (
    b'/'
    ∷ print_hex 1 i.id.vendor
        (b'/' ∷ print_hex 1 i.id.product (b'/' ∷ print_hex 1 i.id.version [])))

-- `type_memory` answers calloc in set_input_device_type, and `memory` in create_xorg_parent.
module _ (R : RbTree) (type_memory memory : ℕ → Bool)
    (created : Text → Option (ParentLists R)) where
  unfoldable pub announce : InputType → Node R → Node R
  unfolding set_input_device_type
  announce type ud = record ud {
    lists = record (ud.lists) {
      props = (set_input_device_type R type_memory ud.lists.props type).0;
    };
  }

  -- From the `if (input_type == IT_NONE)` on.
  unfoldable pub describe_evdev : EvdevInfo → InputType → Node R → Node R
  unfolding announce attach_parent parent_sysname print_evdev_product
  describe_evdev i it_none ud = ud
  describe_evdev i type ud =
      attach_parent R memory created (parent_sysname i.phys) (before b',' i.name)
        (some (print_evdev_product i)) none (announce type ud)

  -- From `found_values` on, where the device could be asked.
  unfoldable pub found_values : Codes → Option EvdevInfo → Node R → Node R
  unfolding describe_evdev detect
  found_values c none ud = ud
  found_values c (some i) ud = describe_evdev i (detect c i.bits) ud

  unfoldable pub create_evdev_handler :
      Codes → Bool → Sysctls → Option EvdevInfo → Text → Node R → Node R
  unfolding found_values query_evdev
  create_evdev_handler c have_sysctl k ioctls sysname ud =
      found_values c (query_evdev have_sysctl k ioctls sysname) ud

  -- The handlers below get the device's sysname, which is never NULL for the paths of their entries.
  unfoldable pub create_kbdmux_handler : Text → Node R → Node R
  unfolding announce attach_parent
  create_kbdmux_handler sysname ud =
      attach_parent R memory created sysname (codes "System keyboard multiplexor")
        (some (codes "6/1/1/0")) none (announce keyboard ud)

  unfoldable pub create_sysmouse_handler : Text → Node R → Node R
  unfolding announce attach_parent
  create_sysmouse_handler sysname ud =
      attach_parent R memory created sysname (codes "System mouse") (some (codes "6/2/1/0")) none
        (announce mouse ud)

  module _ (have_sysctl : Bool) (sysctl : Text → ℕ → Option Text) where
    -- The type and then the parent, as the five handlers of the older drivers do.
    unfoldable pub create_typed : InputType → Text → Node R → Node R
    unfolding announce set_parent
    create_typed type sysname ud =
        set_parent R memory created have_sysctl sysctl sysname (announce type ud)

    unfoldable pub create_keyboard_handler : Text → Node R → Node R
    unfolding create_typed
    create_keyboard_handler = create_typed keyboard

    unfoldable pub create_mouse_handler : Text → Node R → Node R
    unfolding create_typed
    create_mouse_handler = create_typed mouse

    unfoldable pub create_joystick_handler : Text → Node R → Node R
    unfolding create_typed
    create_joystick_handler = create_typed joystick

    unfoldable pub create_touchpad_handler : Text → Node R → Node R
    unfolding create_typed
    create_touchpad_handler = create_typed touchpad

    unfoldable pub create_touchscreen_handler : Text → Node R → Node R
    unfolding create_typed
    create_touchscreen_handler = create_typed touchscreen
