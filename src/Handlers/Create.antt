-- ===== src/Handlers/Create.antt =====
-- A new device: invoke_create_handler of udev-utils.c finds the handler in the table, which fills the
-- lists that udev_device_new_common of udev-device.c has made.
use libudev_devd.Common.{
  ℕ, ◌≡◌, ◌≢◌, refl, ap, ◌∙◌, Bool, true, false, Option, none, some, List, [], ◌∷◌, Text, codes,
}
use libudev_devd.Str.Paths.{get_sysname_by_syspath}
use libudev_devd.UdevList.{ListEntry, RbTree, udev_list_init}
use libudev_devd.UdevList.Laws.{IsValid, init-IsValid}
use libudev_devd.Subsystem.{Platform, CreateHandler, invoke_create_handler}
use libudev_devd.Input.Evdev.{InputType, keyboard, mouse, joystick, touchpad, touchscreen, Codes}
use libudev_devd.Input.Properties.{ParentLists}
use libudev_devd.Devd.Dbsf.{Dbsf}
use libudev_devd.Handlers.Entries.{Memory}
use libudev_devd.Handlers.Pci.{PciConf, create_pci_handler}
use libudev_devd.Handlers.Net.{NetInfo, create_net_handler}
use libudev_devd.Handlers.Parent.{Node, attach_parent}
use libudev_devd.Handlers.Input.{
  EvdevInfo, Sysctls, announce, create_evdev_handler, create_kbdmux_handler,
  create_sysmouse_handler, create_typed, create_keyboard_handler, create_mouse_handler,
  create_joystick_handler, create_touchpad_handler, create_touchscreen_handler,
}
use libudev_devd.Handlers.Input.Laws.{
  Tells, announce-Tells, attach_parent-lists, create_typed-Tells,
}
use libudev_devd.Handlers.Drm.{HidrawInfo, create_drm_handler, create_hidraw_handler}
pub mod Laws

-- What the kernel and the C library answer to the handlers, where they ask.
pub record Kernel : Type 0 where
  pub input_codes : Codes
  pub have_sysctl : Bool
  pub sysctl : Text → ℕ → Option Text
  pub sysctls : Sysctls
  pub evdev_ioctls : Text → Option EvdevInfo
  pub hidraw_ioctls : Text → Option HidrawInfo
  pub getconf : Dbsf → Option PciConf
  pub interfaces : NetInfo
  pub ifnamsiz : ℕ
  pub realpath : Text → Text
  pub path_max : ℕ

module _ (R : RbTree) (p : Platform) (k : Kernel) (created : Text → Option (ParentLists R)) where
  abbrev pub empty_node : Node R
  empty_node = record {
    lists = record { props = udev_list_init R; sysattrs = udev_list_init R };
    parent = none;
    overrun = false;
  }

  -- `calls` answers the calls of calloc, `m` those of udev_list_insertf and udev_list_insert in the
  -- handlers of PCI devices and interfaces.
  module _ (calls : ℕ → Bool) (m : Memory) where
    -- The handler's function, for a syspath and its last part.
    unfoldable pub run_handler : CreateHandler → Text → Text → Node R → Node R
    unfolding create_evdev_handler create_kbdmux_handler create_sysmouse_handler
        create_keyboard_handler create_mouse_handler create_joystick_handler create_touchpad_handler
        create_touchscreen_handler create_drm_handler create_hidraw_handler create_pci_handler
        create_net_handler
    run_handler CreateHandler.evdev syspath sysname ud =
        create_evdev_handler R calls calls created k.input_codes k.have_sysctl k.sysctls
          (k.evdev_ioctls syspath) sysname ud
    run_handler CreateHandler.keyboard syspath sysname ud =
        create_keyboard_handler R calls calls created k.have_sysctl k.sysctl sysname ud
    run_handler CreateHandler.kbdmux syspath sysname ud =
        create_kbdmux_handler R calls calls created sysname ud
    run_handler CreateHandler.mouse syspath sysname ud =
        create_mouse_handler R calls calls created k.have_sysctl k.sysctl sysname ud
    run_handler CreateHandler.joystick syspath sysname ud =
        create_joystick_handler R calls calls created k.have_sysctl k.sysctl sysname ud
    run_handler CreateHandler.touchpad syspath sysname ud =
        create_touchpad_handler R calls calls created k.have_sysctl k.sysctl sysname ud
    run_handler CreateHandler.touchscreen syspath sysname ud =
        create_touchscreen_handler R calls calls created k.have_sysctl k.sysctl sysname ud
    run_handler CreateHandler.sysmouse syspath sysname ud =
        create_sysmouse_handler R calls calls created sysname ud
    run_handler CreateHandler.drm syspath sysname ud =
        create_drm_handler R calls calls created k.have_sysctl k.realpath k.sysctl k.path_max
          syspath sysname ud
    run_handler CreateHandler.hidraw syspath sysname ud =
        create_hidraw_handler R (calls 0) created (k.hidraw_ioctls syspath) ud
    run_handler CreateHandler.net syspath sysname ud = record ud {
      lists = create_net_handler R k.ifnamsiz m k.interfaces syspath ud.lists;
    }
    run_handler CreateHandler.pci syspath sysname ud = record ud {
      lists = create_pci_handler R p.have_devinfo m k.getconf syspath ud.lists;
    }

    -- A handler gets a path of its entry, which has a last part.
    handle : Option CreateHandler → Text → Option Text → Node R
    unfolding run_handler
    handle none syspath sysname = empty_node
    handle (some h) syspath none = empty_node
    handle (some h) syspath (some sysname) = run_handler h syspath sysname empty_node

    -- The lists and the parent of a device for which udev_device_new_common has memory; `removed` is
    -- whether the action is UD_ACTION_REMOVE.
    unfoldable pub new_device : Bool → Text → Node R
    unfolding handle invoke_create_handler get_sysname_by_syspath
    new_device true syspath = empty_node
    new_device false syspath =
        handle (invoke_create_handler p syspath) syspath (get_sysname_by_syspath syspath)
