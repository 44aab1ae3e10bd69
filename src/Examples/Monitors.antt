-- ===== src/Examples/Monitors.antt =====
-- Runs of a monitor with its thread and its client.
use libudev_devd.Common.{
  ◌+◌, ◌-◌, ◌≡◌, refl, Bool, true, none, some, List, [], ◌∷◌, ◌++◌, Text, codes, length, ltb, ◌==◌,
  if◌then◌else◌, inl, arith, starts_with, text_eq,
}
use libudev_devd.Devd.{Event, add, remove}
use libudev_devd.Subsystem.{
  get_subsystem_by_syspath, subsystem_of, get_subsystem_config_by_syspath, find_config, subsystems,
  device_entries, bus_entries, is_skipped, kernel_has_evdev_enabled,
}
use libudev_devd.Str.Paths.{get_sysname_by_syspath, strbase}
use libudev_devd.Filter.{udev_filter_match, subsystem_match, update_score, need_device}
use libudev_devd.Filter.Spec.{accepts}
use libudev_devd.Monitor.Queue.{QueueEntry, new_channel}
use libudev_devd.Monitor.Thread.{
  udev_monitor_thread, new_thread, ThreadState, thread_round, continue,
}
use libudev_devd.Monitor.Thread.Events.{all_accepted}
use libudev_devd.Monitor.Thread.Notices.{node, hearing, notice_line, notice_events, hears_notice}
use libudev_devd.Monitor.System.{
  System, Runs, event, insert, write, read, find_entry, take, start, then_move, new_system, store,
  with_outcome,
}
use libudev_devd.Monitor.System.Laws.{Runs-delivered}
use libudev_devd.Monitor.System.Served.{notices-received}
use libudev_devd.Monitor.Handle.{
  UdevMonitor, kept, freed, udev_monitor_unref, udev_monitor_get_fd, undefined, thread_accepts,
  udev_monitor_new_from_netlink,
}
use libudev_devd.Monitor.Handle.Calls.{
  MonitorCall, match_subsystem, enable_receiving, filter_remove, ref, unref, monitor_calls,
  rules_of, refs_of, unrefs_of, threads_of,
}
use libudev_devd.Monitor.Handle.Laws.{monitor_calls-unref, received-rules}
use libudev_devd.Examples.Filters.{freebsd, mouse_lists}

-- A mouse that comes.
abbrev mouse_event : Event
mouse_event = (add, codes "/dev/input/event0")

abbrev blank : QueueEntry → Event
blank u = (remove, [])

module _ (test : Text → Bool) (fits : test (codes "/dev/input/event0") ≡ true) where
  abbrev heard :
      (t : ThreadState) × (t.devd_fd ≡ some 3)
      × (thread_round true 16 test
            (hearing 3 (notice_line (node add (codes "input/event0"))))
            new_thread
          ≡ continue t (if test (codes "/dev/input/event0") then some mouse_event else none))
  heard =
      hears_notice true 16 test 3 (node add (codes "input/event0")) new_thread (omega arith)
        (inl refl) refl

  -- The states in which the mouse's device is sent and received, with its entry at 7.
  abbrev heard_mouse : System
  heard_mouse = record (new_system blank) {
    thread = heard.0;
    rounds = hearing 3 (notice_line (node add (codes "input/event0"))) ∷ [];
    sending = some mouse_event;
  }

  hears : Runs true 16 test blank heard_mouse
  hears = then_move start (event _ heard.0 mouse_event refl refl (rw fits at heard.2))

  abbrev sent_mouse : System
  sent_mouse = record heard_mouse {
    channel = record new_channel { queue = 7 ∷ []; pipe = 1; sent = 7 ∷ [] };
    device = store blank 7 mouse_event;
    sending = none;
    outcomes = (mouse_event, true) ∷ [];
  }

  sends : Runs true 16 test blank sent_mouse
  unfolding with_outcome
  sends =
      then_move (then_move hears (insert 7 mouse_event refl refl refl))
        (write 7 mouse_event refl refl)

  abbrev received_mouse : System
  received_mouse = record sent_mouse {
    channel = record new_channel { sent = 7 ∷ []; received = 7 ∷ [] };
    got = mouse_event ∷ [];
  }

  receives : Runs true 16 test blank received_mouse
  unfolding store
  receives =
      then_move (then_move (then_move sends (read 0 refl refl)) (find_entry refl (λ e. cc)))
        (take 7 [] refl refl)

abbrev all_paths : Text → Bool
all_paths path = true

Runs-delivered_example :
    (waiting : List Event) × (mouse_event ∷ [] ≡ [] ++ waiting)
    × (length waiting ≡ 1 + 0)
    × (mouse_event ∷ []
        ≡ (udev_monitor_thread true 16 all_paths
            (hearing 3 (notice_line (node add (codes "input/event0"))) ∷ [])
            new_thread).0)
Runs-delivered_example = Runs-delivered true 16 all_paths (sends all_paths refl)

notices-received_example :
    mouse_event ∷ [] ≡ notice_events all_paths ((node add (codes "input/event0")) ∷ [])
notices-received_example =
    notices-received true 16 all_paths 3 ((node add (codes "input/event0")) ∷ [])
      (receives all_paths refl) refl (omega arith) refl refl refl refl

-- A client that asks for input devices, starts the thread and takes a reference and gives it back.
abbrev mouse_rules : List MonitorCall
mouse_rules = match_subsystem true (codes "input") none ∷ []

abbrev mouse_later : List MonitorCall
mouse_later = ref ∷ filter_remove ∷ unref ∷ []

abbrev mouse_calls : List MonitorCall
mouse_calls = mouse_rules ++ enable_receiving true ∷ mouse_later

abbrev new_monitor : UdevMonitor
new_monitor = record { refcount = 1; fds = (4, 5); filters = []; threads = 0 }

abbrev mouse_monitor : UdevMonitor
mouse_monitor = record new_monitor { filters = rules_of mouse_calls; threads = 1 }

new_monitor_made : udev_monitor_new_from_netlink true (some (4, 5)) ≡ some new_monitor
unfolding udev_monitor_new_from_netlink
new_monitor_made = refl

mouse_calls_made : monitor_calls mouse_calls new_monitor ≡ kept mouse_monitor
unfolding monitor_calls
mouse_calls_made = refl

monitor_calls-unref_example :
    (mouse_monitor.filters ≡ rules_of mouse_calls)
    × (udev_monitor_get_fd mouse_monitor ≡ 4)
    × (udev_monitor_unref mouse_monitor ≡ (
        if ltb (unrefs_of mouse_calls) (refs_of mouse_calls)
        then kept (record mouse_monitor { refcount = refs_of mouse_calls - unrefs_of mouse_calls })
        else if threads_of mouse_calls == 0
        then undefined
        else freed (threads_of mouse_calls - 1)))
monitor_calls-unref_example =
    monitor_calls-unref (4, 5) new_monitor mouse_monitor mouse_calls new_monitor_made
      mouse_calls_made

mouse_fits :
    thread_accepts freebsd (λ path n. some mouse_lists) mouse_monitor (codes "/dev/input/event0")
    ≡ true
unfolding thread_accepts udev_filter_match get_subsystem_by_syspath subsystem_of
    get_subsystem_config_by_syspath find_config subsystems device_entries bus_entries is_skipped
    kernel_has_evdev_enabled get_sysname_by_syspath strbase subsystem_match starts_with text_eq
    update_score need_device
mouse_fits = refl

received-rules_example :
    (mouse_monitor.filters ≡ rules_of mouse_rules)
    × (all_accepted
          (λ path. accepts freebsd (some mouse_lists) (rules_of mouse_rules) path)
          (mouse_event ∷ [])
        ≡ true)
received-rules_example =
    received-rules freebsd (λ path n. some mouse_lists) (λ path. some mouse_lists) true 16 (4, 5)
      new_monitor mouse_monitor mouse_rules mouse_later (λ path n. refl) new_monitor_made refl refl
      mouse_calls_made
      (receives (thread_accepts freebsd (λ path n. some mouse_lists) mouse_monitor) mouse_fits)
