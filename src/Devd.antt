-- ===== src/Devd.antt =====
-- The parsers of devd's messages: udev_dev_monitor of udev-dev.c, udev_sys_monitor of udev-sys.c,
-- udev_pci_monitor of udev-pci.c, udev_net_monitor of udev-net.c, and parse_devd_message of
-- udev-monitor.c, which tries them in that order.
use libudev_devd.Common.{
  ℕ, suc, ◌+◌, ◌-◌, ◌≡◌, Bool, true, false, ◌&&◌, ◌||◌, not, Option, none, some, List, [], ◌∷◌,
  ◌++◌, Text, codes, text_eq, starts_with, before, ltb, leb, String, ◌==◌, if◌then◌else◌, length,
  get_or, take, drop,
}
use libudev_devd.Str.Paths.{get_syspath_by_devpath}
use libudev_devd.Str.Copy.{strlcpy, strlcat}
use libudev_devd.Str.KernProp.{get_kern_prop_value, match_kern_prop_value}
use libudev_devd.Devd.Dbsf.{scan_dbsf, print_dbsf}
pub mod Dbsf
pub mod Dispatch
pub mod Cdev

-- The actions but UD_ACTION_NONE: a parser that returns that one returns `none` here.
pub data Action : Type 0 where
  add remove hotplug : Action

-- An action, and the syspath left in the caller's buffer.
abbrev pub Event : Type 0
Event = Action × Text

abbrev pub dev_path_max : ℕ
dev_path_max = 80

-- The tests on `type`, each by its length and strncmp.
abbrev pub word_is : String → Text → ℕ → Bool
word_is word type type_len = type_len == length (codes word) && starts_with (codes word) type

dev_action : Text → ℕ → Option Action
dev_action type type_len =
    if word_is "CREATE" type type_len
    then some add
    else if word_is "DESTROY" type type_len
    then some remove
    else if word_is "HOTPLUG" type type_len
    then some hotplug
    else none

pub dev_event : Text → ℕ → Option (Text × ℕ) → Option (Text × ℕ) → Option Event
unfolding dev_action
dev_event syspath syspathlen none _ = none
dev_event syspath syspathlen (some _) none = none
dev_event syspath syspathlen (some (type, type_len)) (some (dev_name, dev_len)) =
    if ltb (dev_path_max - 5 - 1) dev_len then none else elim (dev_action type type_len) [
      | none ↦ none
      | some action ↦ some (
        action,
        (strlcpy syspath (get_syspath_by_devpath (codes "/dev/" ++ take dev_len dev_name))
            syspathlen).0,
      )
    ]

-- The systems whose notices are about device nodes.
pub is_dev_notice : Text → Bool
is_dev_notice msg =
    (match_kern_prop_value msg (codes "system") (codes "DEVFS")
      && match_kern_prop_value msg (codes "subsystem") (codes "CDEV"))
    || match_kern_prop_value msg (codes "system") (codes "DRM")

unfoldable pub udev_dev_monitor : Text → Text → ℕ → Option Event
udev_dev_monitor msg syspath syspathlen =
    if not (get_or msg 0 0 == b'!')
    then none
    else if not (is_dev_notice (drop 1 msg))
    then none
    else dev_event syspath syspathlen (get_kern_prop_value (drop 1 msg) (codes "type"))
        (get_kern_prop_value (drop 1 msg) (codes "cdev"))

-- The `switch (msg[0])` of the two bus parsers.
bus_action : ℕ → Option Action
bus_action c = if c == b'+' then some add else if c == b'-' then some remove else none

-- `have_devinfo` is HAVE_DEVINFO_H. The message comes back with a NUL written at its first space.
unfoldable pub udev_sys_monitor : Bool → Text → Text → ℕ → Option Event × Text
unfolding bus_action
udev_sys_monitor false msg syspath syspathlen = (none, msg)
udev_sys_monitor true msg syspath syspathlen = elim (bus_action (get_or msg 0 0)) [
  | none ↦ (none, msg)
  | some action ↦ (
    some (
      action,
      (strlcat (strlcpy syspath (codes "/sys/") syspathlen).0 (before b' ' (drop 1 msg))
          syspathlen).0,
    ),
    take 1 msg ++ before b' ' (drop 1 msg),
  )
]

-- The text printed into the buffer, `none` where the C function returns false.
unfoldable pub devd2udev_dbsf : Text → ℕ → Option Text
devd2udev_dbsf msg syspathlen = elim (get_kern_prop_value msg (codes "dbsf")) [
  | none ↦ none
  | some (dbsf, _) ↦ elim (scan_dbsf dbsf) [
    | none ↦ none
    | some numbers ↦
        if leb syspathlen (length (print_dbsf numbers)) then none else some (print_dbsf numbers)
  ]
]

unfoldable pub udev_pci_monitor : Bool → Text → ℕ → Option Event
unfolding bus_action
udev_pci_monitor false msg syspathlen = none
udev_pci_monitor true msg syspathlen = elim (bus_action (get_or msg 0 0)) [
  | none ↦ none
  | some action ↦
      if leb syspathlen 5 then none else elim (devd2udev_dbsf (drop 1 msg) (syspathlen - 5)) [
        | none ↦ none
        | some dbsf ↦ some (action, codes "/pci/" ++ dbsf)
      ]
]

net_action : Text → ℕ → Option Action
net_action type type_len =
    if word_is "ATTACH" type type_len
    then some add
    else if word_is "DETACH" type type_len
    then some remove
    else none

pub net_event : ℕ → Text → ℕ → Option (Text × ℕ) → Option (Text × ℕ) → Option Event
unfolding net_action
net_event ifnamsiz syspath syspathlen none _ = none
net_event ifnamsiz syspath syspathlen (some _) none = none
net_event ifnamsiz syspath syspathlen (some (type, type_len)) (some (dev_name, dev_len)) =
    if ltb (ifnamsiz + 5 - 5 - 1) dev_len then none else elim (net_action type type_len) [
      | none ↦ none
      | some action ↦
          some (action, (strlcpy syspath (codes "/net/" ++ take dev_len dev_name) syspathlen).0)
    ]

-- `ifnamsiz` is IFNAMSIZ of <net/if.h>.
unfoldable pub udev_net_monitor : ℕ → Text → Text → ℕ → Option Event
udev_net_monitor ifnamsiz msg syspath syspathlen =
    if not (get_or msg 0 0 == b'!')
    then none
    else if not (match_kern_prop_value (drop 1 msg) (codes "system") (codes "IFNET"))
    then none
    else net_event ifnamsiz syspath syspathlen (get_kern_prop_value (drop 1 msg) (codes "type"))
        (get_kern_prop_value (drop 1 msg) (codes "subsystem"))

-- `if (action == UD_ACTION_NONE) action = …`
infixr 30 ◌or_else◌
abbrev pub ◌or_else◌ : Option Event → Option Event → Option Event
none or_else e = e
(some a) or_else e = some a

unfoldable pub parse_devd_message : Bool → ℕ → Text → Text → ℕ → Option Event
parse_devd_message have_devinfo ifnamsiz msg syspath syspathlen =
    let (sys, msg') = udev_sys_monitor have_devinfo msg syspath syspathlen in
    udev_dev_monitor msg syspath syspathlen
    or_else sys
    or_else udev_pci_monitor have_devinfo msg' syspathlen
    or_else udev_net_monitor ifnamsiz msg' syspath syspathlen
