-- ===== src/Examples/Filters.antt =====
-- Runs of the filter and of the subsystem table.
use libudev_devd.Enumerate.{SystemDevices}
use libudev_devd.Scandir.{opened, leaf, end, chardev}
use libudev_devd.Enumerate.Rules.{Enumerator}
use libudev_devd.Examples.SortedList.{sorted_list}
use libudev_devd.Common.{
  ◌≡◌, ◌↔◌, refl, ℕ, Bool, true, false, ◌&&◌, ◌||◌, Option, none, some, [], ◌∷◌, Text, codes, ◌==◌,
  if◌then◌else◌,
}
use libudev_devd.Subsystem.{
  Platform, SubsystemConfig, CreateHandler, device_entries, bus_entries, empty_entry, find_config,
  get_subsystem_config_by_syspath, get_subsystem_by_syspath, invoke_create_handler,
  unknown_subsystem,
}
use libudev_devd.Subsystem.Laws.{null_pattern_reached, unknown-iff-no_handler}
use libudev_devd.Filter.{
  FilterEntry, FilterType, subsystem, property, DeviceLists, udev_filter_match,
}
use libudev_devd.Filter.Spec.{accepts, udev_filter_match-eq-accepts}

-- Literal patterns; a star, and a class with all behind it, stand for any rest.
abbrev pub glob : Text → Text → Bool
glob [] [] = true
glob [] (_ ∷ _) = false
glob (p ∷ ps) [] = p == b'*' || p == b'['
glob (p ∷ ps) (c ∷ s) =
    let rest = glob ps s in if p == b'*' || p == b'[' then true else p == c && rest

abbrev pub glob_pointers : Option Text → Option Text → Bool
glob_pointers (some p) (some s) = glob p s
glob_pointers _ _ = false

abbrev pub freebsd : Platform
freebsd = record {
  have_evdev = true;
  have_hidraw = true;
  have_devinfo = true;
  fnmatch = glob_pointers;
  evdev_support = some 1;
}

abbrev mouse_path : Text
mouse_path = codes "/dev/ums0"

abbrev pub mouse_lists : DeviceLists
mouse_lists = record {
  properties = (codes "ID_INPUT_MOUSE", some (codes "1")) ∷ [];
  tags = [];
  sysattrs = [];
}

abbrev rule : FilterType → ℕ → Text → Option Text → FilterEntry
rule type neg expr value = record { type = type; neg = neg; expr = expr; value = value }

abbrev input_rule : FilterEntry
input_rule = rule subsystem 0 (codes "input") none

abbrev mouse_rule : FilterEntry
mouse_rule = rule property 0 (codes "ID_INPUT_MOUSE") (some (codes "1"))

abbrev no_drm_rule : FilterEntry
no_drm_rule = rule subsystem 1 (codes "drm") none

udev_filter_match-eq-accepts_example :
    (udev_filter_match freebsd (λ n. some mouse_lists) (input_rule ∷ mouse_rule ∷ []) mouse_path).1
    ≡ accepts freebsd (some mouse_lists) (input_rule ∷ mouse_rule ∷ []) mouse_path
udev_filter_match-eq-accepts_example =
    udev_filter_match-eq-accepts freebsd (λ n. some mouse_lists) (some mouse_lists)
      (input_rule ∷ mouse_rule ∷ []) mouse_path (λ n. refl)

null_pattern_reached_example : get_subsystem_config_by_syspath freebsd (codes "/pci/0:1:2:3") ≡ (
    if false
    then some empty_entry
    else find_config freebsd (bus_entries true true) (codes "/pci/0:1:2:3"))
unfolding device_entries
null_pattern_reached_example = null_pattern_reached freebsd (codes "/pci/0:1:2:3") refl

-- With evdev in the kernel the entry for mice is skipped.
unknown-iff-no_handler_example :
    ((get_subsystem_by_syspath freebsd (codes "/dev/ums0")).0 ≡ some unknown_subsystem)
    ↔ (invoke_create_handler freebsd (codes "/dev/ums0") ≡ none)
unfolding device_entries
unknown-iff-no_handler_example = unknown-iff-no_handler freebsd (codes "/dev/ums0") refl

abbrev mouse_entry : SubsystemConfig
mouse_entry = record {
  subsystem = some (codes "input");
  devtype = none;
  syspath = some (codes "/dev/ums[0-9]*");
  symlink = none;
  flags = 1;
  create_handler = some CreateHandler.mouse;
}

-- An enumerator with a rule for mice, and a system with one.
abbrev pub mouse_enumerator : Enumerator sorted_list
mouse_enumerator = record { refcount = 1; filters = mouse_rule ∷ []; dev_list = [] }

abbrev mouse_system : SystemDevices
mouse_system = record {
  dev = opened (leaf (codes "ums0") chardev end);
  devinfo = none;
  interfaces = some [];
}
