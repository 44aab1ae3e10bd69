-- ===== src/Handlers/Create/Laws.antt =====
-- The table of subsystems decides what a new input device announces.
use libudev_devd.Common.{◌≡◌, ap, ◌∙◌, subst, true, false, Option, none, some, Text}
use libudev_devd.Str.Paths.{get_sysname_by_syspath}
use libudev_devd.UdevList.{RbTree}
use libudev_devd.UdevList.Laws.{IsValid, init-IsValid}
use libudev_devd.Subsystem.{Platform, CreateHandler, invoke_create_handler}
use libudev_devd.Input.Evdev.{InputType, keyboard, mouse, joystick, touchpad, touchscreen}
use libudev_devd.Input.Properties.{ParentLists}
use libudev_devd.Handlers.Entries.{Memory}
use libudev_devd.Handlers.Parent.{Node, attach_parent}
use libudev_devd.Handlers.Input.{
  announce, create_kbdmux_handler, create_sysmouse_handler, create_keyboard_handler,
  create_mouse_handler, create_joystick_handler, create_touchpad_handler,
  create_touchscreen_handler,
}
use libudev_devd.Handlers.Input.Laws.{
  Tells, announce-Tells, attach_parent-lists, create_typed-Tells,
}
use libudev_devd.Handlers.Create.{Kernel, empty_node, run_handler, handle, new_device}

-- The type that the handlers stand for whose device is of one type.
abbrev pub type_of : CreateHandler → Option InputType
type_of CreateHandler.keyboard = some keyboard
type_of CreateHandler.kbdmux = some keyboard
type_of CreateHandler.mouse = some mouse
type_of CreateHandler.sysmouse = some mouse
type_of CreateHandler.joystick = some joystick
type_of CreateHandler.touchpad = some touchpad
type_of CreateHandler.touchscreen = some touchscreen
type_of _ = none

differs : (type : InputType) → none ≡ some type → ⊥
differs type h = cc

same_type : (a b : InputType) → some a ≡ some b → a ≡ b
same_type a b h = cc

module _ (R : RbTree) (p : Platform) (k : Kernel) (created : Text → Option (ParentLists R))
    (m : Memory) where
  attached-Tells :
      (type : InputType) (sysname name product : Text) (ud : Node R)
      → IsValid R ud.lists.props
      → Tells R type ud.lists
          (attach_parent R
            (λ n. true)
            created
            sysname
            name
            (some product)
            none
            (announce R (λ n. true) (λ n. true) created type ud)).lists
  attached-Tells type sysname name product ud v n =
      ap (λ (l : ParentLists R). R.find l.props n)
        (attach_parent-lists R (λ n. true) created sysname name (some product) none _)
      ∙ announce-Tells R created type ud v n

  ran :
      (h : CreateHandler) (syspath sysname : Text) (ud : Node R) (a type : InputType)
      → some a ≡ some type
      → Tells R a ud.lists (run_handler R p k created (λ n. true) m h syspath sysname ud).lists
      → Tells R type ud.lists (run_handler R p k created (λ n. true) m h syspath sysname ud).lists
  ran h syspath sysname ud a type t told =
      subst
        (λ b.
          Tells R b ud.lists (run_handler R p k created (λ n. true) m h syspath sysname ud).lists)
        (same_type a type t) told

  run-Tells :
      (h : CreateHandler) (type : InputType) (syspath sysname : Text) (ud : Node R)
      → type_of h ≡ some type
      → IsValid R ud.lists.props
      → Tells R type ud.lists (run_handler R p k created (λ n. true) m h syspath sysname ud).lists
  unfolding run_handler create_keyboard_handler create_mouse_handler create_joystick_handler
      create_touchpad_handler create_touchscreen_handler create_kbdmux_handler
      create_sysmouse_handler
  run-Tells CreateHandler.keyboard type syspath sysname ud t v =
      ran CreateHandler.keyboard syspath sysname ud keyboard type t
        (create_typed-Tells R created k.have_sysctl k.sysctl keyboard sysname ud v)
  run-Tells CreateHandler.mouse type syspath sysname ud t v =
      ran CreateHandler.mouse syspath sysname ud mouse type t
        (create_typed-Tells R created k.have_sysctl k.sysctl mouse sysname ud v)
  run-Tells CreateHandler.joystick type syspath sysname ud t v =
      ran CreateHandler.joystick syspath sysname ud joystick type t
        (create_typed-Tells R created k.have_sysctl k.sysctl joystick sysname ud v)
  run-Tells CreateHandler.touchpad type syspath sysname ud t v =
      ran CreateHandler.touchpad syspath sysname ud touchpad type t
        (create_typed-Tells R created k.have_sysctl k.sysctl touchpad sysname ud v)
  run-Tells CreateHandler.touchscreen type syspath sysname ud t v =
      ran CreateHandler.touchscreen syspath sysname ud touchscreen type t
        (create_typed-Tells R created k.have_sysctl k.sysctl touchscreen sysname ud v)
  run-Tells CreateHandler.kbdmux type syspath sysname ud t v =
      ran CreateHandler.kbdmux syspath sysname ud keyboard type t
        (attached-Tells keyboard sysname _ _ ud v)
  run-Tells CreateHandler.sysmouse type syspath sysname ud t v =
      ran CreateHandler.sysmouse syspath sysname ud mouse type t
        (attached-Tells mouse sysname _ _ ud v)
  run-Tells CreateHandler.evdev type syspath sysname ud t v = absurd (differs type t)
  run-Tells CreateHandler.drm type syspath sysname ud t v = absurd (differs type t)
  run-Tells CreateHandler.net type syspath sysname ud t v = absurd (differs type t)
  run-Tells CreateHandler.hidraw type syspath sysname ud t v = absurd (differs type t)
  run-Tells CreateHandler.pci type syspath sysname ud t v = absurd (differs type t)

  -- A new device that is not being removed, for a syspath with a last part to which the table gives a
  -- handler of an input device of one type, announces this type and has no other property, whatever
  -- the kernel answers, memory being at hand.
  pub new_device-Tells :
      (h : CreateHandler) (type : InputType) (syspath sysname : Text)
      → invoke_create_handler p syspath ≡ some h
      → type_of h ≡ some type
      → get_sysname_by_syspath syspath ≡ some sysname
      → Tells R type
          (empty_node R p k created).lists
          (new_device R p k created (λ n. true) m false syspath).lists
  unfolding new_device handle
  new_device-Tells h type syspath sysname found t named =
      rw (found, handle)
        (rw (named, handle)
          (run-Tells h type syspath sysname (empty_node R p k created) t (init-IsValid R)))
