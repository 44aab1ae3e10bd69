-- ===== src/Context/Lifetime.antt =====
-- Clients that use only what they hold never meet freed memory, and the context lives exactly as long
-- as it is referred to.
use libudev_devd.Common.{
  ℕ, suc, ◌-◌, ◌≤◌, ◌≡◌, refl, ap, ◌∙◌, sym, true, false, Option, none, some, List, [], get_or,
  arith, subst,
}
use libudev_devd.Device.Parents.{Linked}
use libudev_devd.Context.{Udev, udev_new}
use libudev_devd.Context.Objects.{
  Object, queue, hwdb, enumerator, monitor, device, World, freed, add_object, udev_hwdb_new,
  udev_monitor_new_from_netlink, udev_queue_new, udev_enumerate_new,
}
use libudev_devd.Context.Calls.{
  Call, take_context, give_context, new_queue, new_hwdb, new_enumerator, new_monitor, new_device,
  ref, unref, queue_fd, device_parent, send_device, receive_device, Shared, call, with_clients,
  with_pointer, with_udev,
}
use libudev_devd.Context.Balance.{uses, all_uses, is_gone, udev_ref-adds, udev_unref-Gives}
use libudev_devd.Context.Safety.{
  Balanced, SafeWorld, add_object-Balanced, create-Safe, new_device-Safe, ref_at, unref_at,
}
use libudev_devd.Context.Access.{get_fd-Safe, get_parent-Safe, send-Safe, receive-Safe}

-- An object with references stands at the address.
abbrev pub LivesAt : ℕ → Shared → Type 0
LivesAt i s = 1 ≤ (get_or s.world.objects i freed).refcount

abbrev pub Is : ℕ → Shared → Object → Type 0
Is i s o = (get_or s.world.objects i freed).object ≡ o

-- What a caller must hold: a living context for a new object, a reference that it has not given up
-- yet, a pointer to a living object of the right kind. A thread lives no longer than its monitor,
-- which keeps the context alive.
abbrev pub Allowed : Call → Shared → Type 0
Allowed take_context s = 1 ≤ s.world.udev.refcount
Allowed give_context s = 1 ≤ s.clients
Allowed (new_queue memory) s = 1 ≤ s.world.udev.refcount
Allowed (new_hwdb memory) s = 1 ≤ s.world.udev.refcount
Allowed (new_enumerator memory) s = 1 ≤ s.world.udev.refcount
Allowed (new_monitor memory pipes) s = 1 ≤ s.world.udev.refcount
Allowed (new_device memory syspath parents) s = 1 ≤ s.world.udev.refcount
Allowed (ref i) s = LivesAt i s
Allowed (unref i) s = LivesAt i s
Allowed (queue_fd opened i) s = LivesAt i s × ((fd : Option ℕ) × Is i s (queue fd))
Allowed (device_parent i) s = LivesAt i s × ((chain : List Linked) × Is i s (device chain))
Allowed (send_device memory written syspath parents i) s =
    (1 ≤ s.world.udev.refcount)
    × LivesAt i s
    × ((queued : List (List Linked)) × Is i s (monitor queued))
Allowed (receive_device readable i) s =
    LivesAt i s × ((queued : List (List Linked)) × Is i s (monitor queued))

-- The states that allowed calls lead to, from a context that udev_new has just made for a client.
pub data Reach : Shared → Type 0 where
  start :
      (udev : Udev)
      → udev_new true ≡ some udev
      → Reach (record { world = record { udev = udev; objects = [] }; clients = 1 })
  next : (c : Call) → (s s' : Shared) → Reach s → Allowed c s → call c s ≡ some s' → Reach s'

abbrev pub Fine : Shared → Type 0
Fine s = Balanced s.clients s.world

abbrev SafeCall : Option Shared → Type 0
SafeCall result = (s : Shared) × (result ≡ some s) × Fine s

clients-Safe :
    (clients : ℕ) (result : Option World)
    → SafeWorld clients result
    → SafeCall (with_clients clients result)
unfolding with_clients
clients-Safe clients result (w, e, b) = (record { world = w; clients = clients }, rw e refl, b)

pointer-Safe :
    (clients : ℕ) (result : Option (World × Option ℕ))
    → (w : World) × (pointer : Option ℕ) × (result ≡ some (w, pointer)) × Balanced clients w
    → SafeCall (with_pointer clients result)
unfolding with_pointer
pointer-Safe clients result (w, pointer, e, b) =
    (record { world = w; clients = clients }, rw e refl, b)

udev-Safe :
    (clients : ℕ) (w : World) (result : Option Udev) (udev : Udev)
    → result ≡ some udev
    → Balanced clients (record w { udev = udev })
    → SafeCall (with_udev clients w result)
unfolding with_udev
udev-Safe clients w result udev e b =
    (record { world = record w { udev = udev }; clients = clients }, rw e refl, b)

-- Each allowed call succeeds and leaves a balance.
call-Balanced : (c : Call) (s : Shared) → Fine s → Allowed c s → SafeCall (call c s)
unfolding call udev_hwdb_new udev_queue_new udev_enumerate_new udev_monitor_new_from_netlink uses
    is_gone
call-Balanced take_context s b h =
    let (udev, e, k) = udev_ref-adds s.world.udev h in
    let count = b.count in
    udev-Safe (suc s.clients) s.world _ udev e (record { count = omega arith; sound = b.sound })
call-Balanced give_context s b h =
    let count = b.count in
    let (udev, e, k) = udev_unref-Gives s.world.udev (omega arith) in
    udev-Safe (s.clients - 1) s.world _ udev e (record { count = omega arith; sound = b.sound })
call-Balanced (new_queue memory) s b h =
    pointer-Safe s.clients _ (create-Safe s.clients s.world b memory (queue none) h refl refl)
call-Balanced (new_hwdb true) s b h = pointer-Safe s.clients _ (
  (add_object hwdb s.world.udev s.world).0,
  (add_object hwdb s.world.udev s.world).1,
  refl,
  add_object-Balanced s.clients s.world hwdb s.world.udev b refl (omega arith),
)
call-Balanced (new_hwdb false) s b h = pointer-Safe s.clients _ (s.world, none, refl, b)
call-Balanced (new_enumerator memory) s b h =
    pointer-Safe s.clients _ (create-Safe s.clients s.world b memory enumerator h refl refl)
call-Balanced (new_monitor false pipes) s b h = pointer-Safe s.clients _ (s.world, none, refl, b)
call-Balanced (new_monitor true false) s b h = pointer-Safe s.clients _ (s.world, none, refl, b)
call-Balanced (new_monitor true true) s b h =
    pointer-Safe s.clients _ (create-Safe s.clients s.world b true (monitor []) h refl refl)
call-Balanced (new_device memory syspath parents) s b h =
    pointer-Safe s.clients _ (new_device-Safe s.clients s.world b memory syspath parents h)
call-Balanced (ref i) s b h = clients-Safe s.clients _ (ref_at s.clients s.world b i _ refl h)
call-Balanced (unref i) s b h = clients-Safe s.clients _ (unref_at s.clients s.world b i _ refl h)
call-Balanced (queue_fd opened i) s b (h, (fd, same)) =
    pointer-Safe s.clients _ (get_fd-Safe s.clients s.world b i h opened fd same)
call-Balanced (device_parent i) s b (h, (chain, same)) =
    clients-Safe s.clients _ (get_parent-Safe s.clients s.world b i h chain same)
call-Balanced (send_device memory written syspath parents i) s b (k, h, (queued, same)) =
    clients-Safe s.clients _
      (send-Safe s.clients s.world b i h memory written syspath parents queued k same)
call-Balanced (receive_device readable i) s b (h, (queued, same)) =
    clients-Safe s.clients _ (receive-Safe s.clients s.world b i h readable queued same)

some-injective : {A : Type 0} → (x y : A) → some x ≡ some y → x ≡ y
some-injective x y h = cc

-- In every state that allowed calls lead to, the count of the context is the number of references
-- that clients hold and that stand for objects: one for a queue, an enumerator or a monitor, one for
-- each device of a chain, queued or not, and one for each parent that outlived its device.
pub Reach-Balanced : (s : Shared) → Reach s → Fine s
unfolding udev_new all_uses
Reach-Balanced s (start udev e) = record {
  count = ap (λ (u : Udev). u.refcount) (some-injective _ _ (sym e));
  sound = refl;
}
Reach-Balanced s (next c s0 s' r h e) =
    let (s1, e1, b) = call-Balanced c s0 (Reach-Balanced s0 r) h in
    subst (λ (t : Shared). Fine t) (some-injective s1 s (sym e1 ∙ e)) b

-- In every state that allowed calls lead to, each allowed call succeeds, that is, it uses neither the
-- context nor an object that has been freed, and leads to such a state again.
pub call-Safe :
    (c : Call) (s : Shared)
    → Reach s
    → Allowed c s
    → (s' : Shared) × (call c s ≡ some s') × Reach s'
call-Safe c s r h =
    let (s', e, b) = call-Balanced c s (Reach-Balanced s r) h in (s', e, next c s s' r h e)
