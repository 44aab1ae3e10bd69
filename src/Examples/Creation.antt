-- ===== src/Examples/Creation.antt =====
-- A new joystick, from its path to its properties.
use libudev_devd.Common.{refl, true, false, Option, none, Text, codes}
use libudev_devd.Str.Paths.{get_sysname_by_syspath, strbase}
use libudev_devd.Subsystem.{
  CreateHandler, invoke_create_handler, get_subsystem_config_by_syspath, find_config, subsystems,
  device_entries, is_skipped, handler_of,
}
use libudev_devd.Input.Evdev.{joystick}
use libudev_devd.Input.Properties.{ParentLists}
use libudev_devd.Handlers.Entries.{plenty}
use libudev_devd.Handlers.Net.{ifaddrs}
use libudev_devd.Handlers.Input.Laws.{Tells}
use libudev_devd.Handlers.Create.{Kernel, empty_node, new_device}
use libudev_devd.Handlers.Create.Laws.{new_device-Tells}
use libudev_devd.Examples.SortedList.{sorted_list}
use libudev_devd.Examples.Filters.{freebsd}
use libudev_devd.Examples.Devices.{linux_codes}

-- A kernel that answers nothing.
abbrev silent : Kernel
silent = record {
  input_codes = linux_codes;
  have_sysctl = true;
  sysctl = λ name size. none;
  sysctls = record { text = λ name size. none; input_id = λ name. none; longs = λ name. none };
  evdev_ioctls = λ path. none;
  hidraw_ioctls = λ path. none;
  getconf = λ d. none;
  interfaces = ifaddrs none;
  ifnamsiz = 16;
  realpath = λ path. path;
  path_max = 1024;
}

abbrev nothing : Text → Option (ParentLists sorted_list)
nothing sysname = none

new_device-Tells_example :
    Tells sorted_list joystick
      (empty_node sorted_list freebsd silent nothing).lists
      (new_device sorted_list freebsd silent nothing
        (λ n. true)
        plenty
        false
        (codes "/dev/joy0")).lists
unfolding invoke_create_handler get_subsystem_config_by_syspath find_config subsystems
    device_entries is_skipped handler_of get_sysname_by_syspath strbase
new_device-Tells_example =
    new_device-Tells sorted_list freebsd silent nothing plenty CreateHandler.joystick joystick
      (codes "/dev/joy0") (codes "joy0") refl refl refl
