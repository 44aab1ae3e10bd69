-- ===== src/Monitor/Handle/Calls.antt =====
-- Sequences of calls on a monitor, and what they ask for.
use libudev_devd.Common.{ℕ, ◌+◌, Bool, true, false, Option, none, List, [], ◌∷◌, ◌++◌, Text}
use libudev_devd.Filter.{FilterType, FilterEntry, subsystem, tag}
use libudev_devd.Monitor.Handle.{
  UdevMonitor, udev_monitor_filter_add_match_subsystem_devtype, udev_monitor_filter_add_match_tag,
  udev_monitor_enable_receiving, udev_monitor_ref, Released, kept, freed, undefined,
  udev_monitor_unref, udev_monitor_set_receive_buffer_size, udev_monitor_filter_update,
  udev_monitor_filter_remove,
}

-- The calls that change a monitor, with what calloc and pthread_create answer.
pub data MonitorCall : Type 0 where
  match_subsystem : (memory : Bool) → (name : Text) → (devtype : Option Text) → MonitorCall
  match_tag : (memory : Bool) → (name : Text) → MonitorCall
  enable_receiving : (created : Bool) → MonitorCall
  buffer_size : (size : ℕ) → MonitorCall
  filter_update : MonitorCall
  filter_remove : MonitorCall
  ref : MonitorCall
  unref : MonitorCall

unfoldable pub monitor_call : MonitorCall → UdevMonitor → Released
unfolding udev_monitor_filter_add_match_subsystem_devtype udev_monitor_filter_add_match_tag
    udev_monitor_enable_receiving udev_monitor_set_receive_buffer_size udev_monitor_filter_update
    udev_monitor_filter_remove udev_monitor_ref udev_monitor_unref
monitor_call (match_subsystem memory name devtype) um =
    kept (udev_monitor_filter_add_match_subsystem_devtype memory um name devtype).0
monitor_call (match_tag memory name) um = kept (udev_monitor_filter_add_match_tag memory um name).0
monitor_call (enable_receiving created) um = kept (udev_monitor_enable_receiving created um).0
monitor_call (buffer_size size) um = kept (udev_monitor_set_receive_buffer_size um size).0
monitor_call filter_update um = kept (udev_monitor_filter_update um).0
monitor_call filter_remove um = kept (udev_monitor_filter_remove um).0
monitor_call ref um = kept (udev_monitor_ref um)
monitor_call unref um = udev_monitor_unref um

-- A monitor that is freed gets no more calls.
unfoldable pub if_kept : Released → (UdevMonitor → Released) → Released
if_kept (kept um) rest = rest um
if_kept (freed unjoined) rest = freed unjoined
if_kept undefined rest = undefined

unfoldable pub monitor_calls : List MonitorCall → UdevMonitor → Released
unfolding monitor_call if_kept
monitor_calls [] um = kept um
monitor_calls (c ∷ cs) um = if_kept (monitor_call c um) (monitor_calls cs)

-- The rules that the calls ask for and get memory for, in order.
abbrev pub match_rule : FilterType → Text → Option Text → FilterEntry
match_rule type name value = record { type = type; neg = 0; expr = name; value = value }

abbrev pub rule_of : MonitorCall → List FilterEntry
rule_of (match_subsystem true name devtype) = match_rule subsystem name devtype ∷ []
rule_of (match_tag true name) = match_rule tag name none ∷ []
rule_of _ = []

abbrev pub rules_of : List MonitorCall → List FilterEntry
rules_of [] = []
rules_of (c ∷ cs) = rule_of c ++ rules_of cs

-- A call that adds no rule and starts no thread.
abbrev pub is_quiet : MonitorCall → Bool
is_quiet (match_subsystem memory name devtype) = false
is_quiet (match_tag memory name) = false
is_quiet (enable_receiving true) = false
is_quiet _ = true

-- The threads that they create.
abbrev pub creates : MonitorCall → ℕ
creates (enable_receiving true) = 1
creates _ = 0

abbrev pub threads_of : List MonitorCall → ℕ
threads_of [] = 0
threads_of (c ∷ cs) = creates c + threads_of cs

-- The references that they take and give up.
abbrev pub takes : MonitorCall → ℕ
takes ref = 1
takes _ = 0

abbrev pub gives : MonitorCall → ℕ
gives unref = 1
gives _ = 0

abbrev pub refs_of : List MonitorCall → ℕ
refs_of [] = 0
refs_of (c ∷ cs) = takes c + refs_of cs

abbrev pub unrefs_of : List MonitorCall → ℕ
unrefs_of [] = 0
unrefs_of (c ∷ cs) = gives c + unrefs_of cs
