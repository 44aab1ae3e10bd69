-- ===== src/Context/Calls.antt =====
-- The calls on the objects of a context, and any sequence of them by clients and by the threads of
-- monitors. A call on a pointer to another kind of object, or to one that is freed, is `none`.
use libudev_devd.Common.{
  ℕ, suc, ◌-◌, Bool, true, false, Option, none, some, List, [], ◌∷◌, ◌++◌, Text,
}
use libudev_devd.Device.Parents.{Linked, udev_device_get_parent}
use libudev_devd.Context.{Udev, udev_ref, udev_unref}
use libudev_devd.Context.Objects.{
  Object, queue, monitor, device, World, add_object, new_chain, free_chain, udev_queue_new,
  udev_enumerate_new, udev_hwdb_new, udev_monitor_new_from_netlink, udev_device_new_common,
  ref_object, unref_object, object_at, put_object,
}

-- `opened` is what open("/dev/null") gives.
unfoldable pub get_fd : Option ℕ → ℕ → World → Option Object → Option (World × Option ℕ)
unfolding put_object
get_fd opened i w (some (queue none)) = some (put_object i (queue opened) w, opened)
get_fd opened i w (some (queue (some fd))) = some (w, some fd)
get_fd opened i w _ = none

unfoldable pub udev_queue_get_fd : Option ℕ → ℕ → World → Option (World × Option ℕ)
unfolding get_fd object_at
udev_queue_get_fd opened i w = get_fd opened i w (object_at i w)

-- The flag of the device; the parent is returned where there is one.
unfoldable pub set_parent_ref : ℕ → World → Option Object → Option World
unfolding put_object udev_device_get_parent
set_parent_ref i w (some (device chain)) =
    some (put_object i (device (udev_device_get_parent chain).0) w)
set_parent_ref i w _ = none

unfoldable pub get_parent : ℕ → World → Option World
unfolding set_parent_ref object_at
get_parent i w = set_parent_ref i w (object_at i w)

-- Behind the creation of the device: the entry stays where write(2) succeeds.
unfoldable pub send_chain :
    Bool → ℕ → World → List (List Linked) → Option (Udev × List Linked) → Option World
unfolding put_object free_chain
send_chain written i w queued none = none
send_chain true i w queued (some (udev, chain)) =
    some (put_object i (monitor (queued ++ chain ∷ [])) (record w { udev = udev }))
send_chain false i w queued (some (udev, chain)) = elim (free_chain chain udev) [
  | none ↦ none
  | some udev' ↦ some (record w { udev = udev' })
]

unfoldable pub send : Bool → Bool → Text → List Text → ℕ → World → Option Object → Option World
unfolding send_chain new_chain
send false written syspath parents i w (some (monitor queued)) = some w
send true written syspath parents i w (some (monitor queued)) =
    send_chain written i w queued (new_chain syspath parents w.udev)
send memory written syspath parents i w _ = none

-- `memory` is whether both calls of calloc succeed.
unfoldable pub udev_monitor_send_device : Bool → Bool → Text → List Text → ℕ → World → Option World
unfolding send object_at
udev_monitor_send_device memory written syspath parents i w =
    send memory written syspath parents i w (object_at i w)

unfoldable pub receive : Bool → ℕ → World → Option Object → Option World
unfolding put_object add_object
receive false i w (some (monitor queued)) = some w
receive true i w (some (monitor [])) = some w
receive true i w (some (monitor (ud ∷ queued))) =
    some (add_object (device ud) w.udev (put_object i (monitor queued) w)).0
receive readable i w _ = none

-- `readable` is whether read(2) gives no error.
unfoldable pub udev_monitor_receive_device : Bool → ℕ → World → Option World
unfolding receive object_at
udev_monitor_receive_device readable i w = receive readable i w (object_at i w)

pub data Call : Type 0 where
  take_context : Call
  give_context : Call
  new_queue : (memory : Bool) → Call
  new_hwdb : (memory : Bool) → Call
  new_enumerator : (memory : Bool) → Call
  new_monitor : (memory pipes : Bool) → Call
  new_device : (memory : Bool) → (syspath : Text) → (parents : List Text) → Call
  ref : (i : ℕ) → Call
  unref : (i : ℕ) → Call
  queue_fd : (opened : Option ℕ) → (i : ℕ) → Call
  device_parent : (i : ℕ) → Call
  send_device : (memory written : Bool) → (syspath : Text) → (parents : List Text) → (i : ℕ) → Call
  receive_device : (readable : Bool) → (i : ℕ) → Call

-- The objects of a context, and how many of its references clients hold.
pub record Shared : Type 0 where
  pub world : World
  pub clients : ℕ

unfoldable pub with_clients : ℕ → Option World → Option Shared
with_clients clients none = none
with_clients clients (some w) = some (record { world = w; clients = clients })

unfoldable pub with_pointer : ℕ → Option (World × Option ℕ) → Option Shared
with_pointer clients none = none
with_pointer clients (some (w, pointer)) = some (record { world = w; clients = clients })

unfoldable pub with_udev : ℕ → World → Option Udev → Option Shared
with_udev clients w none = none
with_udev clients w (some udev) =
    some (record { world = record w { udev = udev }; clients = clients })

unfoldable pub call : Call → Shared → Option Shared
unfolding with_clients with_pointer with_udev udev_ref udev_unref udev_queue_new udev_hwdb_new
    udev_enumerate_new udev_monitor_new_from_netlink udev_device_new_common ref_object unref_object
    udev_queue_get_fd get_parent udev_monitor_send_device udev_monitor_receive_device
call take_context s = with_udev (suc s.clients) s.world (udev_ref s.world.udev)
call give_context s = with_udev (s.clients - 1) s.world (udev_unref s.world.udev)
call (new_queue memory) s = with_pointer s.clients (udev_queue_new memory s.world)
call (new_hwdb memory) s = with_pointer s.clients (some (udev_hwdb_new memory s.world))
call (new_enumerator memory) s = with_pointer s.clients (udev_enumerate_new memory s.world)
call (new_monitor memory pipes) s =
    with_pointer s.clients (udev_monitor_new_from_netlink memory pipes s.world)
call (new_device memory syspath parents) s =
    with_pointer s.clients (udev_device_new_common memory syspath parents s.world)
call (ref i) s = with_clients s.clients (ref_object i s.world)
call (unref i) s = with_clients s.clients (unref_object i s.world)
call (queue_fd opened i) s = with_pointer s.clients (udev_queue_get_fd opened i s.world)
call (device_parent i) s = with_clients s.clients (get_parent i s.world)
call (send_device memory written syspath parents i) s =
    with_clients s.clients (udev_monitor_send_device memory written syspath parents i s.world)
call (receive_device readable i) s =
    with_clients s.clients (udev_monitor_receive_device readable i s.world)
