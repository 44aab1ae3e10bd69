-- ===== src/Context/Safety.antt =====
-- The count of a context in every sequence of calls.
use libudev_devd.Common.{
  ℕ, zero, suc, ◌+◌, ◌≤◌, ◌≡◌, refl, ap, ◌∙◌, Bool, true, false, Option, none, some, List, [], ◌∷◌,
  Text, get_or, all, arith,
}
use libudev_devd.Context.{Udev}
use libudev_devd.Context.Objects.{
  Object, device, gone, Handle, World, freed, set_at, add_object, create, drop_object, ref_object,
  unref_object, object_at, put_object, udev_device_new_common,
}
use libudev_devd.Context.Balance.{
  uses, all_uses, is_gone, is_sound, all_uses-append, all-append_one, all_uses-set_at, all-set_at,
  all-get_or, udev_ref-adds, free_object-Frees, new_chain-takes,
}

-- The count is the number of the references that clients and objects hold, and no object that has
-- references is freed.
pub record Balanced (clients : ℕ) (w : World) : Type 0 where
  pub count : w.udev.refcount ≡ clients + all_uses w.objects
  pub sound : all is_sound w.objects ≡ true

-- A result that is a use of live memory only, and leaves a balance.
abbrev pub SafeWorld : ℕ → Option World → Type 0
SafeWorld clients result = (w : World) × (result ≡ some w) × Balanced clients w

pub add_object-Balanced :
    (clients : ℕ) (w : World) (o : Object) (udev : Udev)
    → Balanced clients w
    → is_gone o ≡ false
    → udev.refcount ≡ w.udev.refcount + uses o
    → Balanced clients (add_object o udev w).0
unfolding add_object all_uses is_sound
add_object-Balanced clients w o udev b g k =
    let h : Handle = record { refcount = 1; object = o } in
    let count = b.count in
    record {
      count = omega (arith, all_uses-append w.objects (h ∷ []));
      sound = all-append_one w.objects h b.sound (ground arith);
    }

module _ (clients : ℕ) (w : World) (b : Balanced clients w) where
  -- An object at a live place takes the place of another.
  pub put-Balanced :
      (i : ℕ) (h : Handle) (udev : Udev)
      → 1 ≤ (get_or w.objects i freed).refcount
      → is_sound h ≡ true
      → udev.refcount + uses (get_or w.objects i freed).object ≡ w.udev.refcount + uses h.object
      → Balanced clients (record { udev = udev; objects = set_at i h w.objects })
  put-Balanced i h udev live g k =
      let count = b.count in
      record {
        count = omega (arith, all_uses-set_at i h w.objects live);
        sound = all-set_at i h w.objects b.sound g;
      }

  pub create-Safe :
      (memory : Bool) (o : Object)
      → 1 ≤ w.udev.refcount
      → is_gone o ≡ false
      → uses o ≡ 1
      → (w' : World) × (pointer : Option ℕ) × (create memory o w ≡ some (w', pointer))
        × Balanced clients w'
  unfolding create
  create-Safe false o live g one = (w, none, refl, b)
  create-Safe true o live g one =
      let (udev, e, k) = udev_ref-adds w.udev live in
      (
        (add_object o udev w).0,
        (add_object o udev w).1,
        rw (e, create) refl,
        add_object-Balanced clients w o udev b g (omega arith),
      )

  pub new_device-Safe :
      (memory : Bool) (syspath : Text) (parents : List Text)
      → 1 ≤ w.udev.refcount
      → (w' : World) × (pointer : Option ℕ) × (udev_device_new_common memory syspath parents w
          ≡ some (w', pointer))
        × Balanced clients w'
  unfolding udev_device_new_common uses is_gone
  new_device-Safe false syspath parents live = (w, none, refl, b)
  new_device-Safe true syspath parents live =
      let (udev, chain, e, k, _) = new_chain-takes syspath parents w.udev live in
      (
        (add_object (device chain) udev w).0,
        (add_object (device chain) udev w).1,
        rw (e, udev_device_new_common) refl,
        add_object-Balanced clients w (device chain) udev b refl k,
      )

  pub ref_at :
      (i r : ℕ)
      → (get_or w.objects i freed).refcount ≡ r
      → 1 ≤ r
      → SafeWorld clients (ref_object i w)
  unfolding ref_object is_sound
  ref_at i zero e live = absurd (omega arith)
  ref_at i (suc n) e live =
      let h = get_or w.objects i freed in
      let more : Handle = record h { refcount = suc (suc n) } in
      let good = all-get_or i w.objects b.sound in
      (
        record w { objects = set_at i more w.objects },
        rw (e, ref_object) refl,
        put-Balanced i more w.udev (omega arith) (ground arith) refl,
      )

  drop-Safe :
      (i n : ℕ)
      → (get_or w.objects i freed).refcount ≡ suc n
      → SafeWorld clients (drop_object i (get_or w.objects i freed) n w)
  unfolding drop_object is_sound uses
  drop-Safe i (suc n) e =
      let h = get_or w.objects i freed in
      let less : Handle = record h { refcount = suc n } in
      let good = all-get_or i w.objects b.sound in
      (
        record w { objects = set_at i less w.objects },
        refl,
        put-Balanced i less w.udev (omega arith) (ground arith) refl,
      )
  drop-Safe i zero e =
      let h = get_or w.objects i freed in
      let good = all-get_or i w.objects b.sound in
      let count = b.count in
      let last : Handle = record { refcount = 0; object = gone [] } in
      let enough : uses h.object ≤ w.udev.refcount =
        omega (arith, all_uses-set_at i last w.objects (omega arith)) in
      let (udev, passed, f, k) = free_object-Frees h.object w.udev (ground arith) enough in
      let left : Handle = record { refcount = 0; object = gone passed } in
      (
        record { udev = udev; objects = set_at i left w.objects },
        rw (f, drop_object) refl,
        put-Balanced i left udev (omega arith) refl k,
      )

  pub unref_at :
      (i r : ℕ)
      → (get_or w.objects i freed).refcount ≡ r
      → 1 ≤ r
      → SafeWorld clients (unref_object i w)
  unfolding unref_object
  unref_at i zero e live = absurd (omega arith)
  unref_at i (suc n) e live =
      let (w', d, good) = drop-Safe i n e in (w', rw (e, unref_object) d, good)

  pub object_at-some :
      (i r : ℕ)
      → (get_or w.objects i freed).refcount ≡ r
      → 1 ≤ r
      → object_at i w ≡ some (get_or w.objects i freed).object
  unfolding object_at
  object_at-some i zero e live = absurd (omega arith)
  object_at-some i (suc n) e live = rw (e, object_at) refl

  pub put_object-Balanced :
      (i : ℕ) (old o : Object) (udev : Udev)
      → 1 ≤ (get_or w.objects i freed).refcount
      → (get_or w.objects i freed).object ≡ old
      → is_gone o ≡ false
      → udev.refcount + uses old ≡ w.udev.refcount + uses o
      → Balanced clients (put_object i o (record w { udev = udev }))
  unfolding put_object is_sound
  put_object-Balanced i old o udev live same g k =
      put-Balanced i (record (get_or w.objects i freed) { object = o }) udev live (ground arith)
        (ap (λ x. udev.refcount + uses x) same ∙ k)
