-- ===== src/Context/Objects.antt =====
-- The objects that refer to a context: udev-queue.c, udev-hwdb.c, and how udev-monitor.c,
-- udev-enumerate.c and udev-device.c create, share and release theirs.
use libudev_devd.Common.{
  ℕ, zero, suc, Bool, true, false, Option, none, some, List, [], ◌∷◌, ◌++◌, Text, length, get_or,
  if◌then◌else◌,
}
use libudev_devd.Device.Parents.{Linked, udev_device_free}
use libudev_devd.Context.{Udev, udev_ref, udev_unref, release}

-- What stands at an address. A device is the chain that Device.Parents describes; a monitor has the
-- devices of its queue, each with a count of 1. What has been freed is `gone`, with the parents that
-- udev_device_free passed over.
pub data Object : Type 0 where
  queue : (fd : Option ℕ) → Object
  hwdb : Object
  enumerator : Object
  monitor : (queued : List (List Linked)) → Object
  device : (chain : List Linked) → Object
  gone : (passed : List Linked) → Object

pub record Handle : Type 0 where
  pub refcount : ℕ
  pub object : Object

-- A pointer is a place in the list; nothing is moved or taken out.
pub record World : Type 0 where
  pub udev : Udev
  pub objects : List Handle

abbrev pub freed : Handle
freed = record { refcount = 0; object = gone [] }

unfoldable pub set_at : ℕ → Handle → List Handle → List Handle
set_at i h [] = []
set_at zero h (o ∷ objects) = h ∷ objects
set_at (suc i) h (o ∷ objects) = o ∷ set_at i h objects

-- A new object with a count of 1 behind the others, and its address.
unfoldable pub add_object : Object → Udev → World → World × Option ℕ
add_object object udev w = (
  record { udev = udev; objects = w.objects ++ record { refcount = 1; object = object } ∷ [] },
  some (length w.objects),
)

-- An object that takes a reference of the context where calloc has memory for it. `none` is a use of
-- memory that has been freed, also below.
unfoldable pub create : Bool → Object → World → Option (World × Option ℕ)
unfolding add_object udev_ref
create false object w = some (w, none)
create true object w = elim (udev_ref w.udev) [
  | none ↦ none
  | some udev ↦ some (add_object object udev w)
]

unfoldable pub udev_queue_new : Bool → World → Option (World × Option ℕ)
unfolding create
udev_queue_new memory = create memory (queue none)

unfoldable pub udev_enumerate_new : Bool → World → Option (World × Option ℕ)
unfolding create
udev_enumerate_new memory = create memory enumerator

-- A database takes no reference.
unfoldable pub udev_hwdb_new : Bool → World → World × Option ℕ
unfolding add_object
udev_hwdb_new memory w = if memory then add_object hwdb w.udev w else (w, none)

-- `pipes` is whether pipe2 succeeds.
unfoldable pub udev_monitor_new_from_netlink : Bool → Bool → World → Option (World × Option ℕ)
unfolding create
udev_monitor_new_from_netlink memory pipes w =
    if memory
    then (if pipes then create true (monitor []) w else some (w, none))
    else some (w, none)

-- udev_device_new_common with memory at hand, for a device whose handler creates the first of
-- `parents`, whose handler creates the next, and so on.
unfoldable pub new_chain : Text → List Text → Udev → Option (Udev × List Linked)
unfolding udev_ref
new_chain syspath [] udev = elim (udev_ref udev) [
  | none ↦ none
  | some udev' ↦ some (udev', record { syspath = syspath; parent_ref = false } ∷ [])
]
new_chain syspath (parent ∷ parents) udev = elim (udev_ref udev) [
  | none ↦ none
  | some udev' ↦ elim (new_chain parent parents udev') [
    | none ↦ none
    | some (udev'', above) ↦ some (udev'', record { syspath = syspath; parent_ref = false } ∷ above)
  ]
]

unfoldable pub udev_device_new_common : Bool → Text → List Text → World → Option (World × Option ℕ)
unfolding new_chain add_object
udev_device_new_common false syspath parents w = some (w, none)
udev_device_new_common true syspath parents w = elim (new_chain syspath parents w.udev) [
  | none ↦ none
  | some (udev, chain) ↦ some (add_object (device chain) udev w)
]

unfoldable pub udev_device_new_from_syspath :
    Bool → Text → List Text → World → Option (World × Option ℕ)
unfolding udev_device_new_common
udev_device_new_from_syspath memory syspath parents w =
    udev_device_new_common memory syspath parents w

-- `syspath` is what get_syspath_by_devnum gives.
unfoldable pub udev_device_new_from_devnum :
    Bool → Option Text → List Text → World → Option (World × Option ℕ)
unfolding udev_device_new_common
udev_device_new_from_devnum memory none parents w = some (w, none)
udev_device_new_from_devnum memory (some syspath) parents w =
    udev_device_new_common memory syspath parents w

-- `++refcount`, the body of the five functions that take a reference of an object.
unfoldable pub ref_object : ℕ → World → Option World
unfolding set_at
ref_object i w =
    let h = get_or w.objects i freed in
    elim (h.refcount) [
      | zero ↦ none
      | suc n ↦
          some (record w { objects = set_at i (record h { refcount = suc (suc n) }) w.objects })
    ]

-- udev_device_free on a chain, as far as the context is concerned.
unfoldable pub free_chain : List Linked → Udev → Option Udev
unfolding udev_device_free release
free_chain chain udev = release (length (udev_device_free chain)) udev

-- The parents that udev_device_free does not reach.
unfoldable pub passed_over : List Linked → List Linked
passed_over [] = []
passed_over (ud ∷ parents) =
    let above = passed_over parents in if ud.parent_ref then parents else above

-- udev_monitor_queue_drop: what the devices leave behind, and the context.
unfoldable pub udev_monitor_queue_drop : List (List Linked) → Udev → Option (Udev × List Linked)
unfolding free_chain passed_over
udev_monitor_queue_drop [] udev = some (udev, [])
udev_monitor_queue_drop (ud ∷ queued) udev = elim (free_chain ud udev) [
  | none ↦ none
  | some udev' ↦ elim (udev_monitor_queue_drop queued udev') [
    | none ↦ none
    | some (udev'', passed) ↦ some (udev'', passed_over ud ++ passed)
  ]
]

-- What the last reference of an object releases, by its kind.
unfoldable pub free_object : Object → Udev → Option (Udev × List Linked)
unfolding udev_unref free_chain udev_monitor_queue_drop
free_object (queue fd) udev = elim (udev_unref udev) [ none ↦ none | some udev' ↦ some (udev', []) ]
free_object hwdb udev = some (udev, [])
free_object enumerator udev = elim (udev_unref udev) [ none ↦ none | some udev' ↦ some (udev', []) ]
free_object (monitor queued) udev = elim (udev_monitor_queue_drop queued udev) [
  | none ↦ none
  | some (udev', passed) ↦ elim (udev_unref udev') [
    | none ↦ none
    | some udev'' ↦ some (udev'', passed)
  ]
]
free_object (device chain) udev = elim (free_chain chain udev) [
  | none ↦ none
  | some udev' ↦ some (udev', passed_over chain)
]
free_object (gone passed) udev = none

-- `if (--refcount == 0)`, the body of the five functions that give up a reference of an object.
unfoldable pub drop_object : ℕ → Handle → ℕ → World → Option World
unfolding free_object set_at
drop_object i h zero w = elim (free_object h.object w.udev) [
  | none ↦ none
  | some (udev, passed) ↦ some (record {
    udev = udev;
    objects = set_at i (record { refcount = 0; object = gone passed }) w.objects;
  })
]
drop_object i h (suc n) w =
    some (record w { objects = set_at i (record h { refcount = suc n }) w.objects })

unfoldable pub unref_object : ℕ → World → Option World
unfolding drop_object
unref_object i w =
    let h = get_or w.objects i freed in
    elim (h.refcount) [ zero ↦ none | suc n ↦ drop_object i h n w ]

-- An object that is not freed.
unfoldable pub object_at : ℕ → World → Option Object
object_at i w =
    let h = get_or w.objects i freed in elim (h.refcount) [ zero ↦ none | suc n ↦ some h.object ]

-- The object at an address with other contents.
unfoldable pub put_object : ℕ → Object → World → World
unfolding set_at
put_object i object w = record w {
  objects = set_at i (record (get_or w.objects i freed) { object = object }) w.objects;
}

-- With a test for NULL, which the others do not have.
unfoldable pub udev_hwdb_ref : Option ℕ → World → Option World
unfolding ref_object
udev_hwdb_ref none w = some w
udev_hwdb_ref (some uh) w = ref_object uh w

unfoldable pub udev_hwdb_unref : Option ℕ → World → Option World
unfolding unref_object
udev_hwdb_unref none w = some w
udev_hwdb_unref (some uh) w = unref_object uh w
