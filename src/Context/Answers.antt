-- ===== src/Context/Answers.antt =====
-- The functions of udev-queue.c, udev-hwdb.c, udev-device.c and udev-enumerate.c that are not implemented, or
-- have nothing to tell on a system without udevd: what they answer, and errno where they set it.
use libudev_devd.Common.{ℕ, Option, none, some, List, Text, Status, ok}
use libudev_devd.UdevList.{ListEntry}
use libudev_devd.Device.Parents.{Linked}

-- The values of errno that the code sets.
pub data Errno : Type 0 where
  enomsg einval : Errno

-- udev-queue.c. The argument `uq` of these functions is not looked at.
unfoldable pub udev_queue_get_kernel_seqnum : ℕ
udev_queue_get_kernel_seqnum = 0

unfoldable pub udev_queue_get_udev_seqnum : ℕ
udev_queue_get_udev_seqnum = 0

unfoldable pub udev_queue_get_udev_is_active : ℕ
udev_queue_get_udev_is_active = 1

unfoldable pub get_queue_is_empty : ℕ
get_queue_is_empty = 1

unfoldable pub udev_queue_get_queue_is_empty : ℕ
unfolding get_queue_is_empty
udev_queue_get_queue_is_empty = get_queue_is_empty

unfoldable pub udev_queue_get_seqnum_sequence_is_finished : (start end : ℕ) → ℕ
unfolding get_queue_is_empty
udev_queue_get_seqnum_sequence_is_finished start end = get_queue_is_empty

unfoldable pub udev_queue_get_seqnum_is_finished : (seqnum : ℕ) → ℕ
unfolding get_queue_is_empty
udev_queue_get_seqnum_is_finished seqnum = get_queue_is_empty

-- With what errno is set to.
unfoldable pub udev_queue_get_queued_list_entry : Option ListEntry × Option Errno
udev_queue_get_queued_list_entry = (none, some enomsg)

unfoldable pub udev_queue_flush : Status
udev_queue_flush = ok

-- udev-hwdb.c, also with what errno is set to.
unfoldable pub udev_hwdb_get_properties_list_entry :
    (modalias : Text) (flags : ℕ) → Option ListEntry × Option Errno
udev_hwdb_get_properties_list_entry modalias flags = (none, some einval)

-- udev-device.c
unfoldable pub udev_device_new_from_subsystem_sysname :
    (subsystem sysname : Text) → Option (List Linked)
udev_device_new_from_subsystem_sysname subsystem sysname = none

unfoldable pub udev_device_new_from_device_id : (id : Text) → Option (List Linked)
udev_device_new_from_device_id id = none

unfoldable pub udev_device_new_from_environment : Option (List Linked)
udev_device_new_from_environment = none

unfoldable pub udev_device_get_devpath : Option Text
udev_device_get_devpath = none

unfoldable pub udev_device_get_is_initialized : ℕ
udev_device_get_is_initialized = 1

unfoldable pub udev_device_get_driver : Option Text
udev_device_get_driver = none

unfoldable pub udev_device_get_seqnum : ℕ
udev_device_get_seqnum = 0

unfoldable pub udev_device_get_usec_since_initialized : ℕ
udev_device_get_usec_since_initialized = 0

-- udev-enumerate.c
unfoldable pub udev_enumerate_scan_subsystems : Status
udev_enumerate_scan_subsystems = ok
