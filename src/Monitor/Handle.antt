-- ===== src/Monitor/Handle.antt =====
-- struct udev_monitor of udev-monitor.c as its client handles it: its rules, its descriptors, its
-- thread and its references. The queue and what the thread does are in System.
use libudev_devd.Common.{
  ℕ, suc, ◌-◌, Bool, true, false, Option, none, some, List, [], ◌∷◌, Text, ◌==◌, if◌then◌else◌,
  Status, ok, failed,
}
use libudev_devd.Subsystem.{Platform}
use libudev_devd.Filter.{
  FilterType, FilterEntry, subsystem, tag, DeviceLists, udev_filter_init, udev_filter_add,
  udev_filter_match,
}
pub mod Calls
pub mod Laws

-- `thread` counts the threads that were created: pthread_create writes over `um->thread`.
pub record UdevMonitor : Type 0 where
  pub refcount : ℕ
  pub fds : ℕ × ℕ
  pub filters : List FilterEntry
  pub threads : ℕ

-- `pipes` are the descriptors that pipe2 gives.
unfoldable pub udev_monitor_new_from_netlink : Bool → Option (ℕ × ℕ) → Option UdevMonitor
unfolding udev_filter_init
udev_monitor_new_from_netlink false pipes = none
udev_monitor_new_from_netlink true none = none
udev_monitor_new_from_netlink true (some fds) =
    some (record { refcount = 1; fds = fds; filters = udev_filter_init; threads = 0 })

-- A call of udev_filter_add for a match rule; `memory` tells whether calloc succeeds.
unfoldable pub add_match :
    Bool → UdevMonitor → FilterType → Text → Option Text → UdevMonitor × Status
unfolding udev_filter_add
add_match memory um type expr value =
    let (filters, status) = udev_filter_add memory um.filters type 0 expr value in
    (record um { filters = filters }, status)

unfoldable pub udev_monitor_filter_add_match_subsystem_devtype :
    Bool → UdevMonitor → Text → Option Text → UdevMonitor × Status
unfolding add_match
udev_monitor_filter_add_match_subsystem_devtype memory um name devtype =
    add_match memory um subsystem name devtype

unfoldable pub udev_monitor_filter_add_match_tag : Bool → UdevMonitor → Text → UdevMonitor × Status
unfolding add_match
udev_monitor_filter_add_match_tag memory um name = add_match memory um tag name none

-- `created` tells whether pthread_create succeeds.
unfoldable pub udev_monitor_enable_receiving : Bool → UdevMonitor → UdevMonitor × Status
udev_monitor_enable_receiving created um =
    if created then (record um { threads = suc um.threads }, ok) else (um, failed)

unfoldable pub udev_monitor_get_fd : UdevMonitor → ℕ
udev_monitor_get_fd um = um.fds.0

unfoldable pub udev_monitor_ref : UdevMonitor → UdevMonitor
udev_monitor_ref um = record um { refcount = suc um.refcount }

-- What becomes of a monitor that gives up a reference: it is kept, or freed with the number of
-- threads that were never joined, or the code joins a thread that there never was.
pub data Released : Type 0 where
  kept : UdevMonitor → Released
  freed : (unjoined : ℕ) → Released
  undefined : Released

-- Between close(um->fds[0]) and free(um).
unfoldable pub release : ℕ → Released
release threads = if threads == 0 then undefined else freed (threads - 1)

unfoldable pub udev_monitor_unref : UdevMonitor → Released
unfolding release
udev_monitor_unref um =
    if um.refcount - 1 == 0
    then release um.threads
    else kept (record um { refcount = um.refcount - 1 })

-- Not implemented: they change nothing and return 0.
unfoldable pub udev_monitor_set_receive_buffer_size : UdevMonitor → ℕ → UdevMonitor × Status
udev_monitor_set_receive_buffer_size um size = (um, ok)

unfoldable pub udev_monitor_filter_update : UdevMonitor → UdevMonitor × Status
udev_monitor_filter_update um = (um, ok)

unfoldable pub udev_monitor_filter_remove : UdevMonitor → UdevMonitor × Status
udev_monitor_filter_remove um = (um, ok)

-- The test that the thread of the monitor makes of a syspath, with the monitor as it is at the moment
-- of the test: the thread reads the rules that the client changes.
unfoldable pub thread_accepts :
    Platform → (Text → ℕ → Option DeviceLists) → UdevMonitor → Text → Bool
unfolding udev_filter_match
thread_accepts p new_device um path = (udev_filter_match p (new_device path) um.filters path).1
