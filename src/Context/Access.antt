-- ===== src/Context/Access.antt =====
-- The calls that go to a queue, a device or a monitor leave the balance of the context.
use libudev_devd.Common.{
  ℕ, suc, ◌+◌, ◌≤◌, ◌≡◌, refl, ap, ◌∙◌, Bool, true, false, Option, none, some, List, [], ◌∷◌, ◌++◌,
  Text, length, get_or, arith,
}
use libudev_devd.Device.Parents.{Linked, udev_device_get_parent}
use libudev_devd.Context.Objects.{
  Object, queue, monitor, device, Handle, World, freed, set_at, add_object, object_at, put_object,
}
use libudev_devd.Context.Calls.{
  udev_queue_get_fd, get_fd, get_parent, set_parent_ref, udev_monitor_send_device, send, send_chain,
  udev_monitor_receive_device, receive,
}
use libudev_devd.Context.Balance.{
  queued_uses, uses, all_uses, is_gone, is_sound, all_uses-append, all_uses-set_at, all-append_one,
  all-set_at, free_chain-Gives, new_chain-takes,
}
use libudev_devd.Context.Safety.{Balanced, SafeWorld, object_at-some, put_object-Balanced}

queued_uses-append :
    (queued : List (List Linked)) (chain : List Linked)
    → queued_uses (queued ++ chain ∷ []) ≡ queued_uses queued + length chain
unfolding queued_uses
queued_uses-append [] chain = omega arith
queued_uses-append (ud ∷ queued) chain = omega (arith, queued_uses-append queued chain)

length-get_parent : (chain : List Linked) → length (udev_device_get_parent chain).0 ≡ length chain
unfolding udev_device_get_parent
length-get_parent [] = refl
length-get_parent (ud ∷ []) = refl
length-get_parent (ud ∷ parent ∷ rest) = refl

module _ (clients : ℕ) (w : World) (b : Balanced clients w) (i : ℕ)
    (live : 1 ≤ (get_or w.objects i freed).refcount) where
  found : (o : Object) → (get_or w.objects i freed).object ≡ o → object_at i w ≡ some o
  found o same = object_at-some clients w b i _ refl live ∙ ap some same

  pub get_fd-Safe :
      (opened fd : Option ℕ)
      → (get_or w.objects i freed).object ≡ queue fd
      → (w' : World) × (pointer : Option ℕ) × (udev_queue_get_fd opened i w ≡ some (w', pointer))
        × Balanced clients w'
  unfolding udev_queue_get_fd get_fd uses is_gone
  get_fd-Safe opened (some fd) same = (w, some fd, rw (found (queue (some fd)) same) refl, b)
  get_fd-Safe opened none same = (
    put_object i (queue opened) w,
    opened,
    rw (found (queue none) same) refl,
    put_object-Balanced clients w b i (queue none) (queue opened) w.udev live same refl refl,
  )

  pub get_parent-Safe :
      (chain : List Linked)
      → (get_or w.objects i freed).object ≡ device chain
      → SafeWorld clients (get_parent i w)
  unfolding get_parent set_parent_ref uses is_gone
  get_parent-Safe chain same =
      let flagged = (udev_device_get_parent chain).0 in
      (
        put_object i (device flagged) w,
        rw (found (device chain) same) refl,
        put_object-Balanced clients w b i (device chain) (device flagged) w.udev live same refl
            (omega (arith, length-get_parent chain)),
      )

  pub send-Safe :
      (memory written : Bool) (syspath : Text) (parents : List Text) (queued : List (List Linked))
      → 1 ≤ w.udev.refcount
      → (get_or w.objects i freed).object ≡ monitor queued
      → SafeWorld clients (udev_monitor_send_device memory written syspath parents i w)
  unfolding udev_monitor_send_device send send_chain uses is_gone
  send-Safe false written syspath parents queued h same =
      (w, rw (found (monitor queued) same) refl, b)
  send-Safe true true syspath parents queued h same =
      let (udev, chain, e, k, _) = new_chain-takes syspath parents w.udev h in
      (
        put_object i (monitor (queued ++ chain ∷ [])) (record w { udev = udev }),
        rw (found (monitor queued) same) (rw (e, send) refl),
        put_object-Balanced clients w b i (monitor queued) (monitor (queued ++ chain ∷ [])) udev
            live same refl (omega (arith, queued_uses-append queued chain)),
      )
  send-Safe true false syspath parents queued h same =
      let (udev, chain, e, k, whole) = new_chain-takes syspath parents w.udev h in
      let (udev', f, l) = free_chain-Gives chain udev (omega arith) in
      let count = b.count in
      (
        record w { udev = udev' },
        rw (found (monitor queued) same) (rw (e, send) (rw (f, send_chain) refl)),
        record { count = omega arith; sound = b.sound },
      )

  moved-Balanced :
      (ud : List Linked) (queued : List (List Linked))
      → (get_or w.objects i freed).object ≡ monitor (ud ∷ queued)
      → Balanced clients (add_object (device ud) w.udev (put_object i (monitor queued) w)).0
  unfolding add_object put_object is_sound uses is_gone queued_uses all_uses
  moved-Balanced ud queued same =
      let h = get_or w.objects i freed in
      let shorter : Handle = record h { object = monitor queued } in
      let new : Handle = record { refcount = 1; object = device ud } in
      let count = b.count in
      let old : uses h.object ≡ suc (length ud + queued_uses queued) = ap uses same in
      record {
        count = omega (
          arith,
          all_uses-append (set_at i shorter w.objects) (new ∷ []),
          all_uses-set_at i shorter w.objects live,
        );
        sound =
            all-append_one (set_at i shorter w.objects) new
              (all-set_at i shorter w.objects b.sound (ground arith)) refl;
      }

  pub receive-Safe :
      (readable : Bool) (queued : List (List Linked))
      → (get_or w.objects i freed).object ≡ monitor queued
      → SafeWorld clients (udev_monitor_receive_device readable i w)
  unfolding udev_monitor_receive_device receive uses is_gone queued_uses
  receive-Safe false queued same = (w, rw (found (monitor queued) same) refl, b)
  receive-Safe true [] same = (w, rw (found (monitor []) same) refl, b)
  receive-Safe true (ud ∷ queued) same = (
    (add_object (device ud) w.udev (put_object i (monitor queued) w)).0,
    rw (found (monitor (ud ∷ queued)) same) refl,
    moved-Balanced ud queued same,
  )
