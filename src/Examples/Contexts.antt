-- ===== src/Examples/Contexts.antt =====
-- Runs of calls on a context and its objects.
use libudev_devd.Context.Race.{Count, Ticks, still, race-frees_held}
use libudev_devd.Common.{ℕ, ◌≡◌, refl, true, some, [], ◌∷◌, codes, arith}
use libudev_devd.Context.{Udev, udev_new, udev_ref, udev_unref}
use libudev_devd.Context.Objects.{
  monitor, gone, udev_monitor_new_from_netlink, unref_object, free_object, set_at, add_object,
}
use libudev_devd.Context.Calls.{Call, new_monitor, send_device, unref, Shared, call}
use libudev_devd.Context.Lifetime.{Reach, start, next, Fine, Reach-Balanced, call-Safe}

abbrev context : ℕ → Udev
context n = record { refcount = n; userdata = 0 }

abbrev first_state : Shared
first_state = record { world = record { udev = context 1; objects = [] }; clients = 1 }

-- With a monitor.
abbrev listening : Shared
listening = record {
  world = record { udev = context 2; objects = record { refcount = 1; object = monitor [] } ∷ [] };
  clients = 1;
}

listening-Reach : Reach listening
unfolding udev_new call udev_monitor_new_from_netlink udev_ref add_object
listening-Reach =
    next (new_monitor true true) first_state listening (start (context 1) refl) (omega arith) refl

-- With a keyboard and its parent in the queue of the monitor.
abbrev plug : Call
plug = send_device true true (codes "/dev/ukbd0") (codes "ukbd0" ∷ []) 0

call-Safe_example : (s' : Shared) × (call plug listening ≡ some s') × Reach s'
call-Safe_example = call-Safe plug listening listening-Reach (omega arith, omega arith, ([], refl))

abbrev released : Shared
released = record {
  world = record { udev = context 1; objects = record { refcount = 0; object = gone [] } ∷ [] };
  clients = 1;
}

released-Reach : Reach released
unfolding call unref_object free_object udev_unref set_at
released-Reach = next (unref 0) listening released listening-Reach (omega arith) refl

Reach-Balanced_example : Fine released
Reach-Balanced_example = Reach-Balanced released released-Reach

race-frees_held_example : (c : Count) × Ticks (still 1 1) c × (c.refcount ≡ 0) × (c.references ≡ 1)
race-frees_held_example = race-frees_held 0
